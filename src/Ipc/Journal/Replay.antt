-- ===== src/Ipc/Journal/Replay.antt =====
-- `KdbJournal::_filter_msgs` on whole journals.
use mgkdb.Prelude.{
  ℕ, zero, suc, ◌+◌, ◌-◌, ◌^◌, ◌≤◌, ◌<◌, ◌≡◌, refl, sym, ap, ◌∙◌, true, false, List, [], ◌∷◌, ◌++◌,
  length, length-append, drop, drop-append_length, ltb, arith,
}
use mgkdb.Prelude.Int.{ℤ, pos, negsuc}
use mgkdb.Ipc.Object.{Kdb, wire_sz}
use mgkdb.Ipc.Write.Encode.{encode}
use mgkdb.Ipc.Write.Size.{wire_sz-eq-length-encode}
use mgkdb.Ipc.Payload.{ret, sub64, ipc_payload_len}
use mgkdb.Ipc.Payload.Encoded.{IsMeasured, depth, drop-on}
use mgkdb.Ipc.Payload.Measure.{ipc_payload_len-encode}
use mgkdb.Ipc.Journal.{Outcome, counted, loop, filter_msgs, counter}

-- The messages, nose to tail.
abbrev pub records : List Kdb → List ℕ
records [] = []
records (v ∷ vs) = encode v ++ records vs

-- Every message is one that `ipcPayloadLen` supports, with this fuel.
abbrev pub IsReplayable : ℕ → List Kdb → Type 0
IsReplayable fuel [] = Unit
IsReplayable fuel (v ∷ vs) =
    (IsMeasured v × (depth v ≤ fuel) × (length (encode v) < 2 ^ 31) × (0 < length (encode v)))
    × IsReplayable fuel vs

-- What the loop should do: a fold over the messages that is cut off by -1.
module _ {S : Type 0} (fun : ℕ → List ℕ → ℕ → S → S × ℤ) where
  unfoldable pub visit : List Kdb → ℕ → ℕ → S → S × Outcome
  visit [] msg_count use_count s = (s, counted msg_count use_count)
  visit (v ∷ vs) msg_count use_count s =
      let r = fun msg_count (encode v ++ records vs) (wire_sz v) s in
      elim r.1 [
        | pos k ↦ visit vs (msg_count + 1) (use_count + k) r.0
        | negsuc k ↦ elim k [
          | zero ↦ (r.0, counted (msg_count + 1) use_count)
          | suc k' ↦ visit vs (msg_count + 1) (sub64 use_count (suc (suc k'))) r.0
        ]
      ]

  -- What is left of the journal at the offset `off`.
  record IsAt (fuel : ℕ) (jnl : List ℕ) (off : ℕ) (vs : List Kdb) : Type 0 where
    replayable : IsReplayable fuel vs
    here : drop off jnl ≡ records vs
    whole : off + length (records vs) ≡ length jnl
    small : length jnl < 2 ^ 64

  IsAt-next :
      (fuel : ℕ) (jnl : List ℕ) (off : ℕ) (v : Kdb) (vs : List Kdb)
      → IsAt fuel jnl off (v ∷ vs)
      → IsAt fuel jnl (off + wire_sz v) vs
  IsAt-next fuel jnl off v vs a = rw (wire_sz-eq-length-encode v) (record {
    replayable = a.replayable.1;
    here = drop-on off jnl (encode v) (records vs) a.here;
    whole = omega (arith, a.whole, length-append (encode v) (records vs));
    small = a.small;
  })

  -- What follows once the client's function has answered.
  after_visit : List Kdb → ℕ → ℕ → S × ℤ → S × Outcome
  after_visit vs msg_count use_count r = elim r.1 [
    | pos k ↦ visit vs (msg_count + 1) (use_count + k) r.0
    | negsuc k ↦ elim k [
      | zero ↦ (r.0, counted (msg_count + 1) use_count)
      | suc k' ↦ visit vs (msg_count + 1) (sub64 use_count (suc (suc k'))) r.0
    ]
  ]

  answered :
      (vs : List Kdb) (fuel : ℕ) (jnl : List ℕ) (n msg_count use_count off : ℕ) (r : S × ℤ)
      → ((u : ℕ) (t : S)
          → loop fun fuel jnl n (msg_count + 1) u off t ≡ visit vs (msg_count + 1) u t)
      → elim r.1 [
        | pos k ↦ loop fun fuel jnl n (msg_count + 1) (use_count + k) off r.0
        | negsuc k ↦ elim k [
          | zero ↦ (r.0, counted (msg_count + 1) use_count)
          | suc k' ↦ loop fun fuel jnl n (msg_count + 1) (sub64 use_count (suc (suc k'))) off r.0
        ]
      ]
        ≡ after_visit vs msg_count use_count r
  unfolding after_visit
  answered vs fuel jnl n msg_count use_count off (t, pos k) ih = ih (use_count + k) t
  answered vs fuel jnl n msg_count use_count off (t, negsuc zero) ih = refl
  answered vs fuel jnl n msg_count use_count off (t, negsuc (suc k)) ih =
      ih (sub64 use_count (suc (suc k))) t

  loop_lem :
      (vs : List Kdb) (fuel : ℕ) (jnl : List ℕ) (n msg_count use_count off : ℕ) (s : S)
      → IsAt fuel jnl off vs
      → length vs ≤ n
      → loop fun fuel jnl n msg_count use_count off s ≡ visit vs msg_count use_count s
  unfolding loop visit after_visit
  loop_lem [] fuel jnl zero msg_count use_count off s a h = refl
  loop_lem [] fuel jnl (suc n) msg_count use_count off s a h =
      let over : ltb off (length jnl) ≡ false = ground (arith, a.whole) in rw over
  loop_lem (v ∷ vs) fuel jnl zero msg_count use_count off s a h = absurd (omega arith)
  loop_lem (v ∷ vs) fuel jnl (suc n) msg_count use_count off s a h =
      let (m, deep, short, nonempty) = a.replayable.0 in
      let total = length-append (encode v) (records vs) in
      let inside : ltb off (length jnl) ≡ true = ground (arith, a.whole, total) in
      let len : ipc_payload_len fuel (drop off jnl) (length jnl - off) ≡ ret (pos (wire_sz v)) =
        ap (λ m. ipc_payload_len fuel m (length jnl - off)) a.here
        ∙ ipc_payload_len-encode v (records vs) (length jnl - off) fuel m deep short
            (omega (arith, a.whole, total)) (omega (arith, a.small)) in
      rw (inside, len, loop)
        (answered vs fuel jnl n msg_count use_count (off + wire_sz v)
            (fun msg_count (drop off jnl) (wire_sz v) s)
            (λ u t.
              loop_lem vs fuel jnl n (msg_count + 1) u (off + wire_sz v) t
                (IsAt-next fuel jnl off v vs a) (omega arith))
          ∙ ap (λ m. after_visit vs msg_count use_count (fun msg_count m (wire_sz v) s)) a.here)

-- A journal of eight bytes and then messages, each not empty, of a kind that `ipcPayloadLen` supports
-- and shorter than 2^31 bytes: `_filter_msgs` with a limit that is no less than their number calls the
-- client's function for one message after the other, with its number, the memory from its first
-- byte on and its `wireSz`, adds the answers up, and stops early only where an answer is -1.
pub filter_msgs_lem :
    {S : Type 0} (fun : ℕ → List ℕ → ℕ → S → S × ℤ) (fuel max_count : ℕ) (head : List ℕ)
    (vs : List Kdb) (s : S)
    → length head ≡ 8
    → IsReplayable fuel vs
    → length (head ++ records vs) < 2 ^ 64
    → length vs ≤ max_count
    → filter_msgs fun fuel (head ++ records vs) max_count s ≡ visit fun vs 0 0 s
unfolding filter_msgs
filter_msgs_lem fun fuel max_count head vs s e i small h =
    loop_lem fun vs fuel (head ++ records vs) max_count 0 0 8 s
      (record {
        replayable = i;
        here = ap (λ k. drop k (head ++ records vs)) (sym e) ∙ drop-append_length head (records vs);
        whole = omega (arith, length-append head (records vs), e);
        small = small;
      })
      h

visit-counter :
    (vs : List Kdb) (m u : ℕ)
    → visit counter vs m u tt ≡ (tt, counted (m + length vs) (u + length vs))
unfolding visit
visit-counter [] m u =
    let a : m + 0 ≡ m = omega arith in let b : u + 0 ≡ u = omega arith in rw (a, b)
visit-counter (v ∷ vs) m u =
    let a : m + suc (length vs) ≡ m + 1 + length vs = omega arith in
    let b : u + suc (length vs) ≡ u + 1 + length vs = omega arith in
    rw (a, b) (visit-counter vs (m + 1) (u + 1))

-- With the function that counts, such a journal of `n` messages gives (n, n).
pub filter_msgs-counter :
    (fuel max_count : ℕ) (head : List ℕ) (vs : List Kdb)
    → length head ≡ 8
    → IsReplayable fuel vs
    → length (head ++ records vs) < 2 ^ 64
    → length vs ≤ max_count
    → (filter_msgs counter fuel (head ++ records vs) max_count tt).1
      ≡ counted (length vs) (length vs)
filter_msgs-counter fuel max_count head vs e i small h =
    ap (λ r. r.1)
      (filter_msgs_lem counter fuel max_count head vs tt e i small h ∙ visit-counter vs 0 0)
    ∙ plain
  where
    plain : counted (0 + length vs) (0 + length vs) ≡ counted (length vs) (length vs)
    plain = let z : 0 + length vs ≡ length vs = omega arith in rw z
