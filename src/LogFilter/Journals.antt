-- ===== src/LogFilter/Journals.antt =====
-- `mg_replay` (log_filter/src/log_filter.c) on whole journals.
use mgkdb.Prelude.{
  ℕ, zero, suc, ◌+◌, ◌≤◌, ◌≡◌, refl, sym, ap, ap₂, ◌∙◌, Bool, true, false, some, List, [], ◌∷◌,
  ◌++◌, append-nil, append_assoc, map, length, length-append, length-drop, drop, drop-append_length,
  All, ltb, if◌then◌else◌, arith,
}
use mgkdb.Ipc.Object.{Kdb, wire_sz}
use mgkdb.Ipc.Write.Encode.{encode}
use mgkdb.Ipc.Write.Size.{wire_sz-eq-length-encode}
use mgkdb.Ipc.Payload.Encoded.{IsText}
use mgkdb.Ipc.Journal.Replay.{records}
use mgkdb.LogFilter.Check.{got, check_msg}
use mgkdb.LogFilter.Reify.{Kx, made, reify}
use mgkdb.LogFilter.Replay.{done, Replayed, stop, replay_msg, replay_loop, replay_msgs, replay}
use mgkdb.LogFilter.Messages.{IsLogged, is_relevant, build}
use mgkdb.LogFilter.Shapes.{wire_sz_pos, element_behind}
use mgkdb.LogFilter.Built.{reify-encode}
use mgkdb.LogFilter.Relevant.{check_msg-encode}

-- The messages for one of the tables, in their order.
unfoldable pub chosen : List (List ℕ) → List Kdb → List Kdb
chosen names [] = []
chosen names (v ∷ vs) = let rest = chosen names vs in if is_relevant names v then v ∷ rest else rest

length-le-records : (vs : List Kdb) → length vs ≤ length (records vs)
length-le-records [] = omega arith
length-le-records (v ∷ vs) = omega (
  arith,
  wire_sz_pos v,
  wire_sz-eq-length-encode v,
  length-append (encode v) (records vs),
  length-le-records vs,
)

module _ (kx : Kx) (names : List (List ℕ)) where
  open kx use {K}

  -- The end of the loop, after the messages `vs`.
  abbrev finish : List Kdb → List K → ℕ → Replayed kx
  finish vs evals num_msgs =
      stop kx (evals ++ map (build kx) (chosen names vs))
        (done (num_msgs + length (chosen names vs)))

  -- One message more in front.
  replay_msg_lem :
      (v : Kdb) (vs : List Kdb) (evals : List K) (num_msgs len : ℕ)
      (go : List K → ℕ → ℕ → Replayed kx)
      → ((e : List K) (num : ℕ) → go e num len ≡ finish vs e num)
      → replay_msg kx (got len (is_relevant names v)) (made len (build kx v)) evals num_msgs go
        ≡ finish (v ∷ vs) evals num_msgs
  unfolding chosen
  replay_msg_lem v vs evals num_msgs len go behind = by_test (is_relevant names v)
    where
      by_test :
          (b : Bool)
          → replay_msg kx (got len b) (made len (build kx v)) evals num_msgs go
            ≡ stop kx
                (evals ++ map (build kx) (if b then v ∷ chosen names vs else chosen names vs))
                (done (num_msgs + length (if b then v ∷ chosen names vs else chosen names vs)))
      by_test true =
          behind (evals ++ (build kx v ∷ [])) (num_msgs + 1)
          ∙ ap₂ (λ e k. stop kx e (done k))
              (append_assoc evals (build kx v ∷ []) (map (build kx) (chosen names vs)))
              (omega arith)
      by_test false = behind evals num_msgs

  -- What is left of the journal at the offset `off`.
  record IsAt (src pad : List ℕ) (size off : ℕ) (vs : List Kdb) : Type 0 where
    here : drop off src ≡ records vs ++ pad
    whole : off + length (records vs) ≡ size

  -- Behind the message `v`: its round of the loop, from what the rounds behind it do.
  first_round :
      (v : Kdb) (vs : List Kdb) (fuel : ℕ) (src pad : List ℕ) (size off : ℕ) (evals : List K)
      (num_msgs : ℕ)
      → All (All IsText) names
      → IsLogged v
      → IsAt src pad size off (v ∷ vs)
      → ((e : List K) (num : ℕ)
          → elim (ltb (off + wire_sz v) size) [
            | true ↦ replay_loop kx fuel names src size (off + wire_sz v) e num
            | false ↦ stop kx e (done num)
          ]
            ≡ finish vs e num)
      → replay_loop kx (suc fuel) names src size off evals num_msgs ≡ finish (v ∷ vs) evals num_msgs
  unfolding replay_loop
  first_round v vs fuel src pad size off evals num_msgs p m a tail =
      let behind : List ℕ = records vs ++ pad in
      let here : drop off src ≡ encode v ++ behind =
        a.here ∙ append_assoc (encode v) (records vs) pad in
      let len : length (drop off src) ≡ length (encode v) + length behind =
        ap (length {0}) here ∙ length-append (encode v) behind in
      let go : List K → ℕ → ℕ → Replayed kx = λ e num l. elim (ltb (off + l) size) [
        | true ↦ replay_loop kx fuel names src size (off + l) e num
        | false ↦ stop kx e (done num)
      ] in
      ap (λ s. replay_msg kx (check_msg names s) (reify kx (suc (length src)) s) evals num_msgs go)
        here
      ∙ ap₂ (λ c r. replay_msg kx c r evals num_msgs go) (check_msg-encode names v behind p m)
          (reify-encode kx v behind (suc (length src)) m
            (omega (arith, wire_sz-eq-length-encode v, len, length-drop off src)))
      ∙ replay_msg_lem v vs evals num_msgs (wire_sz v) go tail

  IsAt-next :
      (v : Kdb) (vs : List Kdb) (src pad : List ℕ) (size off : ℕ)
      → IsAt src pad size off (v ∷ vs)
      → IsAt src pad size (off + wire_sz v) vs
  IsAt-next v vs src pad size off a = record {
    here =
        element_behind v (records vs ++ pad) off src
          (a.here ∙ append_assoc (encode v) (records vs) pad);
    whole =
        omega (arith, a.whole, wire_sz-eq-length-encode v, length-append (encode v) (records vs));
  }

  replay_loop_lem :
      (v : Kdb) (vs : List Kdb) (fuel : ℕ) (src pad : List ℕ) (size off : ℕ) (evals : List K)
      (num_msgs : ℕ)
      → All (All IsText) names
      → All IsLogged (v ∷ vs)
      → IsAt src pad size off (v ∷ vs)
      → length (v ∷ vs) ≤ fuel
      → replay_loop kx fuel names src size off evals num_msgs ≡ finish (v ∷ vs) evals num_msgs
  unfolding chosen
  replay_loop_lem v vs zero src pad size off evals num_msgs p ms a h = absurd (omega arith)
  replay_loop_lem v [] (suc fuel) src pad size off evals num_msgs p (m, ms) a h =
      first_round v [] fuel src pad size off evals num_msgs p m a (λ e num.
        let next = IsAt-next v [] src pad size off a in
        let over : ltb (off + wire_sz v) size ≡ false = ground (arith, next.whole) in
        rw over (ap₂ (λ x k. stop kx x (done k)) (sym (append-nil e)) (omega arith)))
  replay_loop_lem v (w ∷ vs) (suc fuel) src pad size off evals num_msgs p (m, ms) a h =
      first_round v (w ∷ vs) fuel src pad size off evals num_msgs p m a (λ e num.
        let next = IsAt-next v (w ∷ vs) src pad size off a in
        let total = length-append (encode w) (records vs) in
        let more : ltb (off + wire_sz v) size ≡ true =
          ground (arith, next.whole, total, wire_sz_pos w, wire_sz-eq-length-encode w) in
        rw more
          (replay_loop_lem w vs fuel src pad size (off + wire_sz v) e num p ms next (omega arith)))

-- A journal of eight bytes and at least one message, all of the supported kinds, whose file is
-- opened, read and mapped: `mg_replay` evaluates the q objects of exactly those messages that are for
-- one of the tables, in their order, and succeeds with their number. `pad` is what the page holds
-- behind the file.
pub replay_lem :
    (kx : Kx) (names : List (List ℕ)) (head : List ℕ) (v : Kdb) (vs : List Kdb) (pad : List ℕ)
    → length head ≡ 8
    → All (All IsText) names
    → All IsLogged (v ∷ vs)
    → replay kx (some names) (record {
      file = some (true, 8 + length (records (v ∷ vs)));
      opened = true;
      header_read = true;
      mapped = true;
      mem = head ++ (records (v ∷ vs) ++ pad);
    })
      ≡ stop kx (map (build kx) (chosen names (v ∷ vs))) (done (length (chosen names (v ∷ vs))))
unfolding replay replay_msgs
replay_lem kx names head v vs pad e p ms =
    replay_loop_lem kx names v vs (suc (8 + length (records (v ∷ vs))))
      (head ++ (records (v ∷ vs) ++ pad)) pad (8 + length (records (v ∷ vs))) 8 [] 0 p ms
      (record {
        here =
            ap (λ k. drop k (head ++ (records (v ∷ vs) ++ pad))) (sym e)
            ∙ drop-append_length head (records (v ∷ vs) ++ pad);
        whole = refl;
      })
      (omega (arith, length-le-records (v ∷ vs)))
    ∙ ap (λ k. stop kx (map (build kx) (chosen names (v ∷ vs))) (done k)) (omega arith)

-- A journal that is eight bytes when `stat` is asked, whose file is opened, read and mapped, and in whose
-- page a message of the supported kinds for one of the tables stands behind them, as when it grows
-- before it is mapped: `mg_replay`
-- evaluates that message, which is not among the bytes that `stat` counted, and succeeds with 1.
pub replay_empty :
    (kx : Kx) (names : List (List ℕ)) (head : List ℕ) (v : Kdb) (pad : List ℕ)
    → length head ≡ 8
    → All (All IsText) names
    → IsLogged v
    → is_relevant names v ≡ true
    → replay kx (some names) (record {
      file = some (true, 8);
      opened = true;
      header_read = true;
      mapped = true;
      mem = head ++ (encode v ++ pad);
    })
      ≡ stop kx (build kx v ∷ []) (done 1)
unfolding replay replay_msgs replay_loop
replay_empty kx names head v pad e p m relevant =
    let src : List ℕ = head ++ (encode v ++ pad) in
    let behind : drop 8 src ≡ encode v ++ pad =
      ap (λ k. drop k src) (sym e) ∙ drop-append_length head (encode v ++ pad) in
    let over : ltb (8 + wire_sz v) 8 ≡ false = ground arith in
    let enough : wire_sz v ≤ suc (length src) = omega (
      arith,
      wire_sz-eq-length-encode v,
      length-append head (encode v ++ pad),
      length-append (encode v) pad,
    ) in
    let go : List (kx.K) → ℕ → ℕ → Replayed kx = λ evals num len. elim (ltb (8 + len) 8) [
      | true ↦ replay_loop kx 8 names src 8 (8 + len) evals num
      | false ↦ stop kx evals (done num)
    ] in
    ap (λ s. replay_msg kx (check_msg names s) (reify kx (suc (length src)) s) [] 0 go) behind
    ∙ ap₂ (λ c r. replay_msg kx c r [] 0 go) (check_msg-encode names v pad p m)
        (reify-encode kx v pad (suc (length src)) m enough)
    ∙ ap (λ b. replay_msg kx (got (wire_sz v) b) (made (wire_sz v) (build kx v)) [] 0 go) relevant
    ∙ rw over
