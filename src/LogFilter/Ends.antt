-- ===== src/LogFilter/Ends.antt =====
-- `mg_replay_msgs` (log_filter/src/log_filter.c) ends on any memory.
use mgkdb.Prelude.{
  ℕ, zero, suc, ◌+◌, ◌≤◌, ◌<◌, ◌≡◌, ◌≢◌, inl, inr, true, false, Bool-cases, List, [], ◌∷◌, ◌++◌,
  length, length-drop, drop, ltb, ltb→lt, arith,
}
use mgkdb.Prelude.Int.{negsuc}
use mgkdb.LogFilter.Check.{Checked, got, check, check_msg}
use mgkdb.LogFilter.Reify.{Kx, Made, made, reify}
use mgkdb.LogFilter.Replay.{Reply, Replayed, stop, replay_msg, replay_loop, replay_msgs}
use mgkdb.LogFilter.Total.{Reaches, check_lem, check_msg-Reaches}
use mgkdb.LogFilter.Agree.{Agrees, reify-check}

module _ (kx : Kx) where
  open kx use {K}

  -- It is not that the fuel ran out.
  abbrev Ends : Reply → Type 0
  Ends Reply.stuck = ⊥
  Ends _ = Unit

  abbrev EndsMade : Made kx → Type 0
  EndsMade Made.stuck = ⊥
  EndsMade _ = Unit

  ends_of : (m : Made kx) (c : Checked) → Agrees kx m c → Reaches 1 c → EndsMade m
  ends_of (made l k) c e h = tt
  ends_of Made.outside c e h = tt
  ends_of Made.aborted c e h = tt
  ends_of Made.stuck c e h = rw e at h

  -- Fuel for as many calls as there are bytes is enough for `mg_reify_msg` too.
  reify_ends : (fuel : ℕ) (src : List ℕ) → length src < fuel → EndsMade (reify kx fuel src)
  reify_ends fuel src h =
      ends_of (reify kx fuel src) (check [] fuel src false (negsuc 0) 0)
        (reify-check kx [] fuel src false (negsuc 0) 0) (check_lem [] fuel src false (negsuc 0) 0 h)

  replay_msg-Ends :
      (c : Checked) (m : Made kx) (evals : List K) (num_msgs : ℕ)
      (go : List K → ℕ → ℕ → Replayed kx)
      → Reaches 1 c
      → EndsMade m
      → ((e : List K) (num len : ℕ) → 1 ≤ len → Ends (go e num len).reply)
      → Ends (replay_msg kx c m evals num_msgs go).reply
  replay_msg-Ends (got len true) (made l k) evals num_msgs go r e next =
      next (evals ++ (k ∷ [])) (num_msgs + 1) len r
  replay_msg-Ends (got len true) Made.outside evals num_msgs go r e next = tt
  replay_msg-Ends (got len true) Made.aborted evals num_msgs go r e next = tt
  replay_msg-Ends (got len true) Made.stuck evals num_msgs go r e next = e
  replay_msg-Ends (got len false) m evals num_msgs go r e next = next evals num_msgs len r
  replay_msg-Ends Checked.outside m evals num_msgs go r e next = tt
  replay_msg-Ends Checked.aborted m evals num_msgs go r e next = tt
  replay_msg-Ends Checked.stuck m evals num_msgs go r e next = r

  -- The test behind a message.
  ltb-Ends :
      (off size : ℕ) (evals : List K) (num_msgs : ℕ) (more : Replayed kx)
      → (ltb off size ≡ true → Ends more.reply)
      → Ends
          (elim (ltb off size) as (λ _. Replayed kx) [
            | true ↦ more
            | false ↦ stop kx evals (Reply.done num_msgs)
          ]).reply
  ltb-Ends off size evals num_msgs more h = elim (Bool-cases (ltb off size)) [
    | inl inside ↦ rw inside (h inside)
    | inr over ↦ rw over tt
  ]

  replay_loop-Ends :
      (fuel : ℕ) (names : List (List ℕ)) (src : List ℕ) (size off : ℕ) (evals : List K)
      (num_msgs : ℕ)
      → size ≤ off + fuel
      → Ends (replay_loop kx (suc fuel) names src size off evals num_msgs).reply
  unfolding replay_loop
  replay_loop-Ends zero names src size off evals num_msgs h =
      replay_msg-Ends (check_msg names (drop off src)) (reify kx (suc (length src)) (drop off src))
        evals num_msgs _ (check_msg-Reaches names (drop off src))
        (reify_ends (suc (length src)) (drop off src) (omega (arith, length-drop off src)))
        (λ e num len p.
          ltb-Ends (off + len) size e num (replay_loop kx zero names src size (off + len) e num)
            (λ inside. absurd (omega (arith, ltb→lt (off + len) size inside))))
  replay_loop-Ends (suc fuel) names src size off evals num_msgs h =
      replay_msg-Ends (check_msg names (drop off src)) (reify kx (suc (length src)) (drop off src))
        evals num_msgs _ (check_msg-Reaches names (drop off src))
        (reify_ends (suc (length src)) (drop off src) (omega (arith, length-drop off src)))
        (λ e num len p.
          ltb-Ends (off + len) size e num
            (replay_loop kx (suc fuel) names src size (off + len) e num)
            (λ _. replay_loop-Ends fuel names src size (off + len) e num (omega arith)))

-- On any memory, whatever stands in it, the replay of its messages ends: as `mg_replay_msgs` returns,
-- or with a read outside the memory, or with an abort.
pub replay_msgs_ends :
    (kx : Kx) (names : List (List ℕ)) (src : List ℕ) (off size : ℕ)
    → (replay_msgs kx names src off size).reply ≢ Reply.stuck
unfolding replay_msgs
replay_msgs_ends kx names src off size e =
    rw e at (replay_loop-Ends kx size names src size off [] 0 (omega arith))
