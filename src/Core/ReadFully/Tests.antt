-- ===== src/Core/ReadFully/Tests.antt =====
-- Runs of the two loops, and their theorems at concrete inputs.
use mgkdb.Prelude.{ℕ, zero, suc, ◌≤◌, ◌≡◌, refl, some, [], ◌∷◌, arith}
use mgkdb.Core.ReadFully.{
  Result, ok, Answer, bytes, failed, read_loop, read_fully, write_loop, write_fully,
}
use mgkdb.Core.ReadFully.Total.{count, Ended, taken_by, Written, read_fully_lem, write_fully_lem}

-- Every call but the second gives one byte; that one is interrupted. EINTR is 4, and EIO is 5.
abbrev bytewise : ℕ → ℕ → Answer
bytewise (suc zero) n = failed 4
bytewise k zero = bytes []
bytewise k (suc n) = bytes (k ∷ [])

bytewise-lawful : (k n : ℕ) → count (bytewise k n) ≤ n
bytewise-lawful (suc zero) n = omega arith
bytewise-lawful zero zero = omega arith
bytewise-lawful zero (suc n) = omega arith
bytewise-lawful (suc (suc k)) zero = omega arith
bytewise-lawful (suc (suc k)) (suc n) = omega arith

read_three : read_fully 4 5 bytewise 12 3 ≡ some (ok 3, 0 ∷ 2 ∷ 3 ∷ [])
unfolding read_fully read_loop
read_three = refl

read_fully_lem_example : Ended 3 (read_fully 4 5 bytewise 12 3)
read_fully_lem_example = read_fully_lem 4 5 bytewise bytewise-lawful 12 3 (omega arith)

-- Every call but the second takes one byte; that one takes none.
abbrev one_each : ℕ → ℕ → Result
one_each (suc zero) n = ok 0
one_each k zero = ok 0
one_each k (suc n) = ok 1

one_each-lawful : (k n : ℕ) → taken_by (one_each k n) ≤ n
one_each-lawful (suc zero) n = omega arith
one_each-lawful zero zero = omega arith
one_each-lawful zero (suc n) = omega arith
one_each-lawful (suc (suc k)) zero = omega arith
one_each-lawful (suc (suc k)) (suc n) = omega arith

write_two : write_fully 4 5 one_each 9 (7 ∷ 8 ∷ []) ≡ some (ok 2, 7 ∷ 8 ∷ [])
unfolding write_fully write_loop
write_two = refl

write_fully_lem_example : Written (7 ∷ 8 ∷ []) (write_fully 4 5 one_each 9 (7 ∷ 8 ∷ []))
write_fully_lem_example = write_fully_lem 4 5 one_each one_each-lawful 9 (7 ∷ 8 ∷ []) (omega arith)
