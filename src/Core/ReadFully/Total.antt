-- ===== src/Core/ReadFully/Total.antt =====
-- How `read_fully` and `write_fully` (core/src/ReadFullyImpl.C) end.
use mgkdb.Prelude.{
  ℕ, zero, suc, ◌+◌, ◌-◌, ◌*◌, ◌≤◌, ◌<◌, ◌≡◌, ◌⊎◌, inl, inr, refl, sym, ap, ◌∙◌, ◌&&◌, Bool-cases,
  Option, some, List, [], ◌∷◌, ◌++◌, length, length-append, take, drop, ltb, ◌==◌, if◌then◌else◌,
  arith,
}
use mgkdb.Core.ReadFully.{
  Result, ok, err, Answer, bytes, failed, read_loop, read_fully, write_loop, write_fully,
}

-- How many bytes an answer has.
abbrev pub count : Answer → ℕ
count (bytes xs) = length xs
count (failed e) = 0

-- The call has ended with a result and with the bytes `buf`, `len` of them at most: the result is
-- their number, or an error number.
pub record Ended (len : ℕ) (r : Option (Result × List ℕ)) : Type 0 where
  pub result : Result
  pub buf : List ℕ
  pub done : r ≡ some (result, buf)
  pub fits : length buf ≤ len
  pub right : (result ≡ ok (length buf)) ⊎ ((e : ℕ) × (result ≡ err e))

module _ (eintr eio : ℕ) (read : ℕ → ℕ → Answer) (lawful : (k n : ℕ) → count (read k n) ≤ n) where
  -- What the rest of the loop does, with a smaller measure.
  ReadsOn : ℕ → ℕ → Type 0
  ReadsOn fuel len =
      (k tot tries : ℕ) (buf : List ℕ)
      → length buf ≡ tot
      → tot ≤ len
      → tries < 3
      → 3 * (len - tot) + (3 - tries) ≤ fuel
      → Ended len (read_loop eintr eio read fuel len k tot tries buf)

  after_answer :
      (fuel len k tot tries : ℕ) (buf : List ℕ) (a : Answer)
      → ReadsOn fuel len
      → length buf ≡ tot
      → tot < len
      → tries < 3
      → 3 * (len - tot) + (3 - tries) ≤ suc fuel
      → count a ≤ len - tot
      → Ended len (elim a [
        | failed e ↦
            let again = read_loop eintr eio read fuel len (k + 1) tot (tries + 1) buf in
            if (e == eintr) && ltb (tries + 1) 3 then again else some (err e, buf)
        | bytes [] ↦ some (ok tot, buf)
        | bytes (x ∷ xs) ↦
            read_loop eintr eio read fuel len (k + 1) (tot + length (x ∷ xs)) 0 (buf ++ (x ∷ xs))
      ])
  unfolding ReadsOn
  after_answer fuel len k tot tries buf (failed e) on h lt t f c =
      elim (Bool-cases ((e == eintr) && ltb (tries + 1) 3)) [
        | inl again ↦
            rw again (on (k + 1) tot (tries + 1) buf h (omega arith) (ground arith) (ground arith))
        | inr stop ↦ rw stop (record {
          result = err e;
          buf = buf;
          done = refl;
          fits = omega arith;
          right = inr (e, refl);
        })
      ]
  after_answer fuel len k tot tries buf (bytes []) on h lt t f c = record {
    result = ok tot;
    buf = buf;
    done = refl;
    fits = omega arith;
    right = inl (ap ok (sym h));
  }
  after_answer fuel len k tot tries buf (bytes (x ∷ xs)) on h lt t f c =
      on (k + 1) (tot + length (x ∷ xs)) 0 (buf ++ (x ∷ xs))
        (length-append buf (x ∷ xs) ∙ ap (λ n. n + length (x ∷ xs)) h) (omega arith) (omega arith)
        (omega arith)

  read_loop_lem : (fuel len : ℕ) → ReadsOn fuel len
  unfolding read_loop ReadsOn
  read_loop_lem zero len k tot tries buf h le t f = absurd (omega arith)
  read_loop_lem (suc fuel) len k tot tries buf h le t f = elim (Bool-cases (ltb tot len)) [
    | inr over ↦ rw over (record {
      result = ok tot;
      buf = buf;
      done = refl;
      fits = omega arith;
      right = inl (ap ok (sym h));
    })
    | inl more ↦ rw more (
        after_answer fuel len k tot tries buf (read k (len - tot)) (read_loop_lem fuel len) h
          (ground arith) t f (lawful k (len - tot)))
  ]

  -- With a `read` that never gives more bytes than asked for, `read_fully` ends after at most
  -- 3 * len + 3 calls, whatever errors the calls give: it has at most `len` bytes in the buffer, and
  -- returns their number, or an error number.
  pub read_fully_lem :
      (fuel len : ℕ) → 3 * len + 3 ≤ fuel → Ended len (read_fully eintr eio read fuel len)
  unfolding read_fully ReadsOn
  read_fully_lem fuel len f =
      read_loop_lem fuel len 0 0 0 [] refl (omega arith) (omega arith) (omega arith)

take-nil : (n : ℕ) → take {A = ℕ} n [] ≡ []
take-nil zero = refl
take-nil (suc n) = refl

take-snoc : (n m : ℕ) (xs : List ℕ) → take n xs ++ take m (drop n xs) ≡ take (n + m) xs
take-snoc zero m xs = let e : zero + m ≡ m = omega arith in rw e
take-snoc (suc n) m [] = rw (take-nil m, take-nil (suc n + m))
take-snoc (suc n) m (x ∷ xs) =
    let e : suc n + m ≡ suc (n + m) = omega arith in rw e (ap (λ t. x ∷ t) (take-snoc n m xs))

-- The call has ended with a result, and the first bytes of `src` have been taken, each once and in
-- order: the result is the length of `src`, and all are taken, or an error number.
pub record Written (src : List ℕ) (r : Option (Result × List ℕ)) : Type 0 where
  pub result : Result
  pub taken : ℕ
  pub done : r ≡ some (result, take taken src)
  pub right : ((result ≡ ok (length src)) × (taken ≡ length src)) ⊎ ((e : ℕ) × (result ≡ err e))

-- How many bytes a call of `write` has taken.
abbrev pub taken_by : Result → ℕ
taken_by (ok n) = n
taken_by (err e) = 0

module _ (eintr eio : ℕ) (write : ℕ → ℕ → Result)
    (lawful : (k n : ℕ) → taken_by (write k n) ≤ n) where
  WritesOn : ℕ → List ℕ → Type 0
  WritesOn fuel src =
      (k tot tries : ℕ)
      → tot ≤ length src
      → tries < 3
      → 3 * (length src - tot) + (3 - tries) ≤ fuel
      → Written src (write_loop eintr eio write fuel src k tot tries (take tot src))

  after_result :
      (fuel : ℕ) (src : List ℕ) (k tot tries : ℕ) (a : Result)
      → WritesOn fuel src
      → tot < length src
      → tries < 3
      → 3 * (length src - tot) + (3 - tries) ≤ suc fuel
      → taken_by a ≤ length src - tot
      → Written src (elim a [
        | err e ↦
            let again =
              write_loop eintr eio write fuel src (k + 1) tot (tries + 1) (take tot src) in
            if (e == eintr) && ltb (tries + 1) 3 then again else some (err e, take tot src)
        | ok zero ↦
            let again =
              write_loop eintr eio write fuel src (k + 1) tot (tries + 1) (take tot src) in
            if ltb (tries + 1) 3 then again else some (err eio, take tot src)
        | ok (suc n) ↦
            write_loop eintr eio write fuel src
              (k + 1)
              (tot + suc n)
              0
              (take tot src ++ take (suc n) (drop tot src))
      ])
  unfolding WritesOn
  after_result fuel src k tot tries (err e) on lt t f c =
      elim (Bool-cases ((e == eintr) && ltb (tries + 1) 3)) [
        | inl again ↦
            rw again (on (k + 1) tot (tries + 1) (omega arith) (ground arith) (ground arith))
        | inr stop ↦
            rw stop (record { result = err e; taken = tot; done = refl; right = inr (e, refl) })
      ]
  after_result fuel src k tot tries (ok zero) on lt t f c = elim (Bool-cases (ltb (tries + 1) 3)) [
    | inl again ↦ rw again (on (k + 1) tot (tries + 1) (omega arith) (ground arith) (ground arith))
    | inr stop ↦
        rw stop (record { result = err eio; taken = tot; done = refl; right = inr (eio, refl) })
  ]
  after_result fuel src k tot tries (ok (suc n)) on lt t f c =
      rw (take-snoc tot (suc n) src)
        (on (k + 1) (tot + suc n) 0 (omega arith) (omega arith) (omega arith))

  write_loop_lem : (fuel : ℕ) (src : List ℕ) → WritesOn fuel src
  unfolding write_loop WritesOn
  write_loop_lem zero src k tot tries le t f = absurd (omega arith)
  write_loop_lem (suc fuel) src k tot tries le t f = elim (Bool-cases (ltb tot (length src))) [
    | inr over ↦
        let e : tot ≡ length src = ground arith in
        rw over (record { result = ok tot; taken = tot; done = refl; right = inl (ap ok e, e) })
    | inl more ↦ rw more (
        after_result fuel src k tot tries (write k (length src - tot)) (write_loop_lem fuel src)
          (ground arith) t f (lawful k (length src - tot)))
  ]

  -- With a `write` that never takes more bytes than it is given, `write_fully` ends after at most
  -- 3 * length src + 3 calls, whatever errors the calls give: the bytes taken are the first of
  -- `src`, in order, and it returns the length of `src` and all are taken, or an error number.
  pub write_fully_lem :
      (fuel : ℕ) (src : List ℕ)
      → 3 * length src + 3 ≤ fuel
      → Written src (write_fully eintr eio write fuel src)
  unfolding write_fully WritesOn
  write_fully_lem fuel src f =
      write_loop_lem fuel src 0 0 0 (omega arith) (omega arith) (omega arith)
