-- ===== src/Core/ReadFully.antt =====
-- `io::read_fully` and `io::write_fully` (core/src/ReadFullyImpl.C). The system calls are functions
-- that take the number of the call and the count asked for, and the fuel bounds the calls.
pub mod Total
mod Tests
use mgkdb.Prelude.{
  ℕ, zero, suc, ◌+◌, ◌-◌, Bool, true, false, ◌&&◌, Option, none, some, List, [], ◌∷◌, ◌++◌, length,
  take, drop, ltb, ◌==◌, if◌then◌else◌,
}

-- `std::expected<ssize_t,int>`
pub data Result : Type 0 where
  ok err : ℕ → Result

-- What one call of `read` gives: bytes, none of them at the end of the file, or an error number.
pub data Answer : Type 0 where
  bytes : List ℕ → Answer
  failed : ℕ → Answer

-- The error numbers of the C library that the code names.
module _ (eintr eio : ℕ) where
  -- The loop of `read_fully`: the calls made, `tot`, `tries` and the bytes in the buffer.
  unfoldable pub read_loop :
      (read : ℕ → ℕ → Answer) → ℕ → ℕ → ℕ → ℕ → ℕ → List ℕ → Option (Result × List ℕ)
  read_loop read zero len k tot tries buf = if ltb tot len then none else some (ok tot, buf)
  read_loop read (suc fuel) len k tot tries buf =
      if ltb tot len
      then elim (read k (len - tot)) [
        | failed e ↦
            let again = read_loop read fuel len (k + 1) tot (tries + 1) buf in
            if (e == eintr) && ltb (tries + 1) 3 then again else some (err e, buf)
        | bytes [] ↦ some (ok tot, buf)
        | bytes (x ∷ xs) ↦
            read_loop read fuel len (k + 1) (tot + length (x ∷ xs)) 0 (buf ++ (x ∷ xs))
      ]
      else some (ok tot, buf)

  unfoldable pub read_fully : (read : ℕ → ℕ → Answer) → ℕ → ℕ → Option (Result × List ℕ)
  read_fully read fuel len = read_loop read fuel len 0 0 0 []

  -- The loop of `write_fully`, with the bytes that the calls have taken.
  unfoldable pub write_loop :
      (write : ℕ → ℕ → Result) → ℕ → List ℕ → ℕ → ℕ → ℕ → List ℕ → Option (Result × List ℕ)
  write_loop write zero src k tot tries out =
      if ltb tot (length src) then none else some (ok tot, out)
  write_loop write (suc fuel) src k tot tries out =
      if ltb tot (length src)
      then elim (write k (length src - tot)) [
        | err e ↦
            let again = write_loop write fuel src (k + 1) tot (tries + 1) out in
            if (e == eintr) && ltb (tries + 1) 3 then again else some (err e, out)
        | ok zero ↦
            let again = write_loop write fuel src (k + 1) tot (tries + 1) out in
            if ltb (tries + 1) 3 then again else some (err eio, out)
        | ok (suc n) ↦
            write_loop write fuel src (k + 1) (tot + suc n) 0 (out ++ take (suc n) (drop tot src))
      ]
      else some (ok tot, out)

  unfoldable pub write_fully : (write : ℕ → ℕ → Result) → ℕ → List ℕ → Option (Result × List ℕ)
  write_fully write fuel src = write_loop write fuel src 0 0 0 []
