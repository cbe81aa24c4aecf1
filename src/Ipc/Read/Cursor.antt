-- ===== src/Ipc/Read/Cursor.antt =====
-- The cursor of a `ReadBuf` that still has to pass over bytes read before.
use mgkdb.Prelude.{ℕ, ◌+◌, ◌-◌, ◌<◌, ◌≡◌, refl, true, false, arith}
use mgkdb.Prelude.Int.{ℤ, neg_part, is_nonneg, pos, negsuc}
use mgkdb.Ipc.Write.Chunks.{advance-advance, neg_part-advance, nonneg_of_neg_part}
use mgkdb.Ipc.ReadBuf.{ReadBuf, cursor_active, ffwd, adj, pass}

pub ffwd-ffwd : (m n : ℕ) (b : ReadBuf) → ffwd n (ffwd m b) ≡ ffwd (m + n) b
unfolding ffwd
ffwd-ffwd m n b = rw advance-advance

pub neg_part-ffwd : (n : ℕ) (b : ReadBuf) → neg_part (ffwd n b).m_csr ≡ neg_part b.m_csr - n
unfolding ffwd
neg_part-ffwd n b = neg_part-advance b.m_csr n

pub m_rest-ffwd : (n : ℕ) (b : ReadBuf) → (ffwd n b).m_rest ≡ b.m_rest
unfolding ffwd
m_rest-ffwd n b = refl

pub m_off-ffwd : (n : ℕ) (b : ReadBuf) → (ffwd n b).m_off ≡ b.m_off
unfolding ffwd
m_off-ffwd n b = refl

pub behind_zero : (b : ReadBuf) → 0 < neg_part b.m_csr → cursor_active b ≡ false
behind_zero b h = negative b.m_csr h
  where
    negative : (c : ℤ) → 0 < neg_part c → is_nonneg c ≡ false
    negative (pos n) h' = absurd (omega arith)
    negative (negsuc n) h' = refl

pub at_zero : (b : ReadBuf) → neg_part b.m_csr ≡ 0 → cursor_active b ≡ true
at_zero b h = nonneg_of_neg_part b.m_csr h

pub behind-ffwd : (n : ℕ) (b : ReadBuf) → n < neg_part b.m_csr → cursor_active (ffwd n b) ≡ false
behind-ffwd n b h = behind_zero (ffwd n b) (omega (arith, neg_part-ffwd n b))

pub pass-behind : (n : ℕ) (b : ReadBuf) → 0 < neg_part b.m_csr → pass n b ≡ ffwd n b
unfolding pass
pass-behind n b h = rw (behind_zero b h)

-- Passing over a header of `n` bytes, whether or not the cursor is still before it.
pub neg_part-pass :
    (n j : ℕ) (b : ReadBuf) → 0 < n → neg_part b.m_csr ≡ n + j → neg_part (pass n b).m_csr ≡ j
neg_part-pass n j b hn h = rw (pass-behind n b (omega arith)) (omega (arith, neg_part-ffwd n b))

pub m_rest-pass : (n : ℕ) (b : ReadBuf) → (pass n b).m_rest ≡ b.m_rest
unfolding pass ffwd
m_rest-pass n b = ground arith

pub m_off-pass : (n : ℕ) (b : ReadBuf) → (pass n b).m_off ≡ b.m_off
unfolding pass ffwd
m_off-pass n b = ground arith

pub neg_part-adj : (n : ℕ) (b : ReadBuf) → neg_part (adj n b).m_csr ≡ neg_part b.m_csr - n
unfolding adj
neg_part-adj n b = neg_part-advance b.m_csr n

pub neg_part-pass_zero :
    (n : ℕ) (b : ReadBuf) → neg_part b.m_csr ≡ 0 → neg_part (pass n b).m_csr ≡ 0
unfolding pass
neg_part-pass_zero n b h = rw (at_zero b h) h
