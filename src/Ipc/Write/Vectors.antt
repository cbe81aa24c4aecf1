-- ===== src/Ipc/Write/Vectors.antt =====
-- `writeIntVector` (ipc++/src/KdbType.C) and the chunks of a vector.
use mgkdb.Prelude.{
  ℕ, zero, suc, ◌+◌, ◌-◌, ◌*◌, ◌/◌, ◌≤◌, ◌<◌, ◌≡◌, ◌⊎◌, inl, inr, refl, sym, ◌∙◌, true, false, List,
  [], ◌∷◌, length, length-append, concat, min, take, drop, ltb, leb, if◌then◌else◌, arith,
  Bool-cases, lt→ltb, length-drop,
}
use mgkdb.Prelude.Int.{neg_part, is_nonneg}
use mgkdb.Prelude.Bytes.{le_bytes, length-le_bytes}
use native.Mathlib.Nat.{div-mul-le_self, lt-div-mul-add, mul-div_cancel}
use mgkdb.Ipc.Types.{WriteResult, wr_ok, wr_incomplete}
use mgkdb.Ipc.WriteBuf.{WriteBuf, remaining, cursor_active, ffwd, put, write_ary}
use mgkdb.Ipc.Write.{skip_count, pass, write_elems}
use mgkdb.Ipc.Write.Encode.{cells}
use mgkdb.Ipc.Write.Chunks.{
  write_chunk, write_chunks, IsCut, put-put, put-nil, ffwd-ffwd, advance-zero, neg_part-advance,
  neg_part_of_nonneg, neg_part_of_negative, nonneg_of_neg_part,
}

remaining-put : (c : List ℕ) (b : WriteBuf) → remaining (put c b) ≡ remaining b - length c
unfolding put
remaining-put c b = omega (arith, length-append b.m_dst c)

active-put : (c : List ℕ) (b : WriteBuf) → cursor_active b ≡ true → cursor_active (put c b) ≡ true
unfolding put
active-put c b h =
    nonneg_of_neg_part _
      (omega (arith, neg_part-advance b.m_csr (length c), neg_part_of_nonneg b.m_csr h))

neg_part-ffwd : (n : ℕ) (b : WriteBuf) → neg_part (ffwd n b).m_csr ≡ neg_part b.m_csr - n
unfolding ffwd
neg_part-ffwd n b = neg_part-advance b.m_csr n

-- The result of a row of cells of which `n` are there and `elm` are written.
abbrev pub row_result : ℕ → ℕ → WriteResult
row_result elm n = if ltb elm n then wr_incomplete else wr_ok

-- With room for just `q` cells the first `q` are written.
row_active :
    (w : ℕ) (xs : List ℕ) (q : ℕ) (b : WriteBuf)
    → cursor_active b ≡ true
    → q * w ≤ remaining b
    → remaining b < q * w + w
    → write_chunks (cells w xs) b ≡ (
      row_result (min (length xs) q) (length xs),
      put (concat (cells w (take (min (length xs) q) xs))) b,
    )
unfolding write_chunks write_chunk
row_active w [] q b act lo hi = let e : min 0 q ≡ 0 = omega arith in rw (e, put-nil)
row_active w (x ∷ xs) zero b act lo hi =
    let e : min (suc (length xs)) 0 ≡ 0 = omega arith in
    let full : ltb (remaining b) (length (le_bytes w x)) ≡ true =
      lt→ltb _ _ (omega (arith, length-le_bytes w x)) in
    let some_left : ltb 0 (suc (length xs)) ≡ true = ground arith in
    rw (e, act, full, put-nil, some_left)
row_active w (x ∷ xs) (suc q) b act lo hi =
    let e : min (suc (length xs)) (suc q) ≡ suc (min (length xs) q) = omega arith in
    let fits : ltb (remaining b) (length (le_bytes w x)) ≡ false =
      ground (arith, length-le_bytes w x) in
    let test : ltb (suc (min (length xs) q)) (suc (length xs))
        ≡ ltb (min (length xs) q) (length xs) =
      ground arith in
    let c : List ℕ = le_bytes w x in
    rw (e, act, fits, test, ← put-put c _ b)
      (row_active w xs q (put c b) (active-put c b act)
        (omega (arith, remaining-put c b, length-le_bytes w x))
        (omega (arith, remaining-put c b, length-le_bytes w x)))

-- A cursor at least `j` cells before zero passes over `j` cells.
row_pass :
    (w j : ℕ) (xs : List ℕ) (b : WriteBuf)
    → 0 < w
    → j ≤ length xs
    → j * w ≤ neg_part b.m_csr
    → write_chunks (cells w xs) b ≡ write_chunks (cells w (drop j xs)) (ffwd (j * w) b)
unfolding write_chunks write_chunk
row_pass w zero xs b hw hj hk =
    let e : ffwd (zero * w) b ≡ b =
      unfold ffwd in let z : zero * w ≡ 0 = omega arith in rw (z, advance-zero) in
    rw e
row_pass w (suc j) [] b hw hj hk = absurd (omega arith)
row_pass w (suc j) (x ∷ xs) b hw hj hk = elim (Bool-cases (cursor_active b)) [
  | inl act ↦ absurd (omega (arith, neg_part_of_nonneg b.m_csr act))
  | inr neg ↦
      let e : suc j * w ≡ w + j * w = omega arith in
      rw (neg, length-le_bytes, e, ← ffwd-ffwd w (j * w) b)
        (row_pass w j xs (ffwd w b) hw (omega arith) (omega (arith, neg_part-ffwd w b)))
]

-- A cursor at the end of a cell: behind the last one, or inside the row.
cut_cases :
    (w : ℕ) (xs : List ℕ) (k : ℕ)
    → 0 < w
    → IsCut (cells w xs) k
    → (length xs * w ≤ k) ⊎ ((i : ℕ) × (i < length xs) × (k ≡ i * w))
cut_cases w [] k hw cut = inl (omega arith)
cut_cases w (x ∷ xs) k hw (inl e) = inr (0, omega arith, omega (arith, e))
cut_cases w (x ∷ xs) k hw (inr (h, cut)) =
    elim (cut_cases w xs (k - length (le_bytes w x)) hw cut) [
      | inl le ↦ inl (omega (arith, length-le_bytes w x))
      | inr (i, lt, e) ↦ inr (suc i, omega arith, omega (arith, length-le_bytes w x))
    ]

-- What the code does from element `skp` on, the cursor being active there.
row_tail :
    (w : ℕ) (xs : List ℕ) (skp : ℕ) (b : WriteBuf)
    → 0 < w
    → skp < length xs
    → cursor_active b ≡ true
    → (let (wrt, b2) = write_ary w xs skp b in (row_result (skp + wrt) (length xs), b2))
      ≡ write_chunks (cells w (drop skp xs)) b
unfolding write_ary
row_tail w xs skp b hw h act =
    let q = remaining b / w in
    let n = length xs - skp in
    let inside : leb (length xs) skp ≡ false = ground arith in
    let test : row_result (skp + min n q) (length xs) ≡ row_result (min n q) n = ground arith in
    let chunks =
      row_active w (drop skp xs) q b act (div-mul-le_self (remaining b) w)
        (omega (arith, lt-div-mul-add {a = remaining b} hw)) in
    rw (inside, test, chunks, length-drop)

module _ (w : ℕ) (xs : List ℕ) (b : WriteBuf) (hw : 0 < w) where
  -- The code's branches behind the count of elements to pass over.
  at_count : ℕ → WriteResult × WriteBuf
  unfolding write_ary
  at_count skp =
      let b1 = pass w skp b in
      if ltb skp (length xs)
      then (let (wrt, b2) = write_ary w xs skp b1 in (row_result (skp + wrt) (length xs), b2))
      else (wr_ok, b1)

  write_elems-at_count : write_elems w xs b ≡ at_count (skip_count w (length xs) b)
  unfolding write_elems at_count
  write_elems-at_count = refl

  pub pass-ffwd : (skp : ℕ) → pass w skp b ≡ ffwd (skp * w) b
  pass-ffwd zero = let e : zero * w ≡ 0 = omega arith in rw e (unfold ffwd in rw advance-zero)
  pass-ffwd (suc skp) = let t : ltb 0 (suc skp) ≡ true = lt→ltb _ _ (omega arith) in rw t

  -- All of the row was written before.
  at_end : length xs * w ≤ neg_part b.m_csr → at_count (length xs) ≡ write_chunks (cells w xs) b
  unfolding at_count write_chunks
  at_end h =
      let stop : ltb (length xs) (length xs) ≡ false = ground arith in
      rw (stop, pass-ffwd, row_pass w (length xs) xs b hw (omega arith) h, drop-length xs)
    where
      drop-length : (ys : List ℕ) → drop (length ys) ys ≡ []
      drop-length [] = refl
      drop-length (y ∷ ys) = drop-length ys

  -- The row goes on at element `skp`.
  at_elem :
      (skp : ℕ)
      → skp < length xs
      → neg_part b.m_csr ≡ skp * w
      → at_count skp ≡ write_chunks (cells w xs) b
  unfolding at_count
  at_elem skp h e =
      let go : ltb skp (length xs) ≡ true = lt→ltb _ _ h in
      let act : cursor_active (ffwd (skp * w) b) ≡ true =
        nonneg_of_neg_part _ (omega (arith, neg_part-ffwd (skp * w) b)) in
      rw (go, pass-ffwd, row_pass w skp xs b hw (omega arith) (omega arith))
        (row_tail w xs skp (ffwd (skp * w) b) hw h act)

  skip_count-end :
      length xs * w ≤ neg_part b.m_csr
      → 0 < neg_part b.m_csr
      → skip_count w (length xs) b ≡ length xs
  skip_count-end h p = elim (Bool-cases (is_nonneg b.m_csr)) [
    | inl act ↦ absurd (omega (arith, neg_part_of_nonneg b.m_csr act))
    | inr neg ↦
        let m : min (neg_part b.m_csr) (length xs * w) ≡ length xs * w = omega arith in
        rw (neg, m) (mul-div_cancel (length xs) hw)
  ]

  skip_count-elem :
      (i : ℕ) → i < length xs → neg_part b.m_csr ≡ i * w → skip_count w (length xs) b ≡ i
  skip_count-elem i h e = elim (Bool-cases (is_nonneg b.m_csr)) [
    | inl act ↦ rw act (sym (zero_of i (omega (arith, neg_part_of_nonneg b.m_csr act))))
    | inr neg ↦
        let m : min (neg_part b.m_csr) (length xs * w) ≡ i * w = grind arith in
        rw (neg, m) (mul-div_cancel i hw)
  ]
    where
      zero_of : (i : ℕ) → i * w ≡ 0 → i ≡ 0
      zero_of zero z = refl
      zero_of (suc i) z = absurd (omega arith)

  -- With the cursor at the end of an element, or behind them all, the elements of a vector are
  -- written as chunks.
  pub write_elems_lem :
      IsCut (cells w xs) (neg_part b.m_csr) → write_elems w xs b ≡ write_chunks (cells w xs) b
  write_elems_lem cut = write_elems-at_count ∙ elim (cut_cases w xs (neg_part b.m_csr) hw cut) [
    | inl le ↦ behind le
    | inr (i, lt, e) ↦ rw (skip_count-elem i lt e) (at_elem i lt e)
  ]
    where
      behind :
          length xs * w ≤ neg_part b.m_csr
          → at_count (skip_count w (length xs) b) ≡ write_chunks (cells w xs) b
      behind le = elim (Bool-cases (is_nonneg b.m_csr)) [
        | inl act ↦
            let z : neg_part b.m_csr ≡ 0 = neg_part_of_nonneg b.m_csr act in
            let n : length xs ≡ 0 = no_rows (length xs) (omega arith) in
            rw (at_zero act n) (at_end le)
        | inr neg ↦ rw (skip_count-end le (neg_part_of_negative b.m_csr neg)) (at_end le)
      ]
        where
          no_rows : (n : ℕ) → n * w ≤ 0 → n ≡ 0
          no_rows zero h = refl
          no_rows (suc n) h = absurd (omega arith)

          at_zero :
              is_nonneg b.m_csr ≡ true → length xs ≡ 0 → skip_count w (length xs) b ≡ length xs
          at_zero act n = rw (act, n)
