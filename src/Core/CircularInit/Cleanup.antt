-- ===== src/Core/CircularInit/Cleanup.antt =====
-- What `init_circ_buffer` holds when it returns.
use mgkdb.Prelude.{
  ℕ, ◌*◌, ◌^◌, ◌<◌, ◌≡◌, Bool, true, false, List, [], ◌∷◌, ◌==◌, if◌then◌else◌, arith,
}
use mgkdb.Core.Extents.{u64, bytes64}
use mgkdb.Core.CircularInit.{
  Expected, value, error, Answers, Outcome, made, no_size, Undo, munmap, close, mmap_cleanup,
  mem_fd_cleanup, init_circ_buffer,
}

-- What the calls that succeeded have opened, the last first.
abbrev pub opened : Answers → ℕ → List Undo
opened a map_pgs = elim a.reserve [
  | error e ↦ []
  | value base ↦ elim a.memfd [
    | error e ↦ munmap base (u64 (bytes64 map_pgs * 2)) ∷ []
    | value mfd ↦ close mfd ∷ munmap base (u64 (bytes64 map_pgs * 2)) ∷ []
  ]
]

abbrev pub is_made : Outcome → Bool
is_made (made base len fd) = true
is_made _ = false

-- No call gives the null address or the file descriptor 0.
abbrev pub no_zero : Expected → Bool
no_zero (value n) = if n == 0 then false else true
no_zero (error e) = true

-- Where neither the address nor the descriptor that the system gives is 0: `init_circ_buffer`
-- undoes nothing if it makes a buffer, and on every early return it undoes what the calls before
-- have opened, each once and the last first.
pub init_circ_buffer_lem :
    (a : Answers) (map_pgs : ℕ)
    → no_zero a.reserve ≡ true
    → no_zero a.memfd ≡ true
    → 0 < map_pgs
    → map_pgs < 2 ^ 50
    → (init_circ_buffer a map_pgs).1
      ≡ (if is_made (init_circ_buffer a map_pgs).0 then [] else opened a map_pgs)
unfolding init_circ_buffer mmap_cleanup mem_fd_cleanup bytes64
init_circ_buffer_lem a map_pgs r f p h = ground arith

-- A descriptor that is 0, which the system gives when no standard input is open, is not closed on
-- an early return.
pub init_circ_buffer-zero_fd :
    (a : Answers) (map_pgs base e : ℕ)
    → a.reserve ≡ value base
    → a.memfd ≡ value 0
    → a.truncate ≡ error e
    → 0 < base
    → 0 < map_pgs
    → map_pgs < 2 ^ 50
    → init_circ_buffer a map_pgs ≡ (no_size, munmap base (map_pgs * 8192) ∷ [])
unfolding init_circ_buffer mmap_cleanup mem_fd_cleanup bytes64
init_circ_buffer-zero_fd a map_pgs base e r f t b p h =
    let nb : (base == 0) ≡ false = ground arith in
    let len : u64 (u64 (map_pgs * 4096) * 2) ≡ map_pgs * 8192 = omega arith in
    let nl : (map_pgs * 8192 == 0) ≡ false = ground arith in rw (r, f, t, nb, len, nl)
