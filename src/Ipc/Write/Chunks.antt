-- ===== src/Ipc/Write/Chunks.antt =====
-- What resumable writing promises: a message is a row of chunks, each written whole or not at all,
-- and a call passes over the chunks that its cursor says were written before.
use mgkdb.Prelude.{
  ℕ, ◌+◌, ◌-◌, ◌≤◌, ◌<◌, ◌≡◌, ◌⊎◌, inl, refl, sym, ap, ◌∙◌, true, false, List, [], ◌∷◌, ◌++◌,
  append-nil, append_assoc, length, length-append, ltb, if◌then◌else◌, arith,
}
use mgkdb.Prelude.Int.{ℤ, pos, negsuc, neg_part, is_nonneg}
use mgkdb.Ipc.Types.{WriteResult, wr_ok, wr_incomplete}
use mgkdb.Ipc.WriteBuf.{WriteBuf, remaining, cursor_active, ffwd, put, advance}
use mgkdb.Ipc.Write.{and_then}

-- One chunk: passed over while the cursor is negative, else written if all of it fits.
unfoldable pub write_chunk : List ℕ → WriteBuf → WriteResult × WriteBuf
write_chunk c b =
    if cursor_active b
    then (if ltb (remaining b) (length c) then (wr_incomplete, b) else (wr_ok, put c b))
    else (wr_ok, ffwd (length c) b)

unfoldable pub write_chunks : List (List ℕ) → WriteBuf → WriteResult × WriteBuf
write_chunks [] b = (wr_ok, b)
write_chunks (c ∷ cs) b = and_then (write_chunk c b) (λ b'. write_chunks cs b')

-- `k` bytes are whole chunks from the front of `cs`, or all of them and more.
abbrev pub IsCut : List (List ℕ) → ℕ → Type 0
IsCut [] k = Unit
IsCut (c ∷ cs) k = (k ≡ 0) ⊎ ((length c ≤ k) × IsCut cs (k - length c))

abbrev pub longest : List (List ℕ) → ℕ
longest [] = 0
longest (c ∷ cs) = if ltb (longest cs) (length c) then length c else longest cs

pub IsCut-zero : (cs : List (List ℕ)) → IsCut cs 0
IsCut-zero [] = tt
IsCut-zero (c ∷ cs) = inl refl

pub advance-advance : (c : ℤ) (m n : ℕ) → advance (advance c m) n ≡ advance c (m + n)
advance-advance (pos x) m n = ground arith
advance-advance (negsuc x) m n = ground arith

pub advance-zero : (c : ℤ) → advance c 0 ≡ c
advance-zero (pos x) = ground arith
advance-zero (negsuc x) = ground arith

pub neg_part-advance : (c : ℤ) (n : ℕ) → neg_part (advance c n) ≡ neg_part c - n
neg_part-advance (pos x) n = ground arith
neg_part-advance (negsuc x) n = ground arith

pub neg_part_of_nonneg : (c : ℤ) → is_nonneg c ≡ true → neg_part c ≡ 0
neg_part_of_nonneg (pos x) h = refl
neg_part_of_nonneg (negsuc x) h = cc

pub neg_part_of_negative : (c : ℤ) → is_nonneg c ≡ false → 0 < neg_part c
neg_part_of_negative (pos x) h = absurd (cc)
neg_part_of_negative (negsuc x) h = omega arith

pub nonneg_of_neg_part : (c : ℤ) → neg_part c ≡ 0 → is_nonneg c ≡ true
nonneg_of_neg_part (pos x) h = refl
nonneg_of_neg_part (negsuc x) h = absurd (omega arith)

pub put-put : (a c : List ℕ) (b : WriteBuf) → put c (put a b) ≡ put (a ++ c) b
unfolding put
put-put a c b = rw (append_assoc, length-append, advance-advance)

pub put-nil : (b : WriteBuf) → put [] b ≡ b
unfolding put
put-nil b = rw (append-nil, advance-zero)

pub ffwd-ffwd : (m n : ℕ) (b : WriteBuf) → ffwd n (ffwd m b) ≡ ffwd (m + n) b
unfolding ffwd
ffwd-ffwd m n b = rw advance-advance

pub and_then_assoc :
    (m : WriteResult × WriteBuf) (f g : WriteBuf → WriteResult × WriteBuf)
    → and_then (and_then m f) g ≡ and_then m (λ b. and_then (f b) g)
and_then_assoc (wr_ok, b) f g = refl
and_then_assoc (wr_incomplete, b) f g = refl

pub write_chunks-append :
    (cs ds : List (List ℕ)) (b : WriteBuf)
    → write_chunks (cs ++ ds) b ≡ and_then (write_chunks cs b) (λ b'. write_chunks ds b')
unfolding write_chunks
write_chunks-append [] ds b = refl
write_chunks-append (c ∷ cs) ds b =
    ap (and_then (write_chunk c b)) (λ i b'. write_chunks-append cs ds b' i)
    ∙ sym (and_then_assoc (write_chunk c b) _ _)
