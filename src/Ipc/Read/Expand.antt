-- ===== src/Ipc/Read/Expand.antt =====
-- The rounds of `KdbIpcDecompressor::uncompress`.
use mgkdb.Prelude.{
  ℕ, zero, suc, ◌+◌, ◌≤◌, ◌<◌, ◌≡◌, refl, ◌∙◌, ◌⊎◌, inl, inr, true, false, if◌then◌else◌, ◌||◌,
  List, length, set, length-set, get_or, ltb, leb, ltb→lt, ◌==◌, Bool-cases, arith,
}
use mathlib.Core.Path.{subst}
use mgkdb.Ipc.ReadBuf.{ReadBuf, remaining, adj, value}
use mgkdb.Ipc.Read.Inflate.{
  Inflater, Round, next, stop, wild, copy, enter_pairs, next_bit, referred, refer_to, refer, plain,
  coded, bit_set, round, block_read_sz,
}

-- The decompressor's place is within its array.
abbrev pub IsWithin : Inflater → Type 0
IsWithin z = z.m_off ≤ length z.m_dst

-- The bytes that were taken from the buffer are counted.
abbrev Counts : Inflater → ReadBuf → Inflater → ReadBuf → Type 0
Counts z b z' b' = z'.m_rdx + b.m_off ≡ z.m_rdx + b'.m_off

-- Behind the test for a block, an access outside: the buffer does not have the bytes of the
-- reference or the plain byte, or a reference reaches over the end of the array.
pub data Outside (z : Inflater) (b : ReadBuf) : Type 0 where
  cut : remaining b < (if bit_set z then 2 else 1) → Outside z b
  far :
      bit_set z ≡ true
      → (length z.m_dst < z.m_off + 2 + value 1 (adj 1 b))
        ⊎ (length z.m_dst < get_or z.m_lbh (value 1 b) 0 + 2 + value 1 (adj 1 b))
      → Outside z b

-- The same, or the array is full.
pub data Strays (z : Inflater) (b : ReadBuf) : Type 0 where
  outside : Outside z b → Strays z b
  full : length z.m_dst ≤ z.m_off → Strays z b

-- The place and the buffer in a round behind the test for a block, which reads the block's first byte.
abbrev started : Inflater → ReadBuf → Inflater
started z b =
    if z.m_idx == 0 then record z { m_bit = value 1 b; m_rdx = z.m_rdx + 1; m_idx = 1 } else z

abbrev behind : Inflater → ReadBuf → ReadBuf
behind z b = if z.m_idx == 0 then adj 1 b else b

started_lem : (z : Inflater) (b : ReadBuf) → 0 < z.m_idx → z ≡ started z b
started_lem z b i = let n : (z.m_idx == 0) ≡ false = ground arith in rw n

behind_lem : (z : Inflater) (b : ReadBuf) → 0 < z.m_idx → b ≡ behind z b
behind_lem z b i = let n : (z.m_idx == 0) ≡ false = ground arith in rw n

-- A round: it writes at least one byte within the array, or it stops where a block begins that the
-- buffer does not hold, or, never at such a block, it accesses something outside.
pub data Moves (z : Inflater) (b : ReadBuf) : Round → Type 0 where
  advanced :
      {z' : Inflater} {b' : ReadBuf}
      → z.m_off < z'.m_off
      → z'.m_msg_len ≡ z.m_msg_len
      → length z'.m_dst ≡ length z.m_dst
      → IsWithin z'
      → Counts z b z' b'
      → Moves z b (next z' b')
  waits : z.m_idx ≡ 0 → remaining b < block_read_sz z b → Moves z b (stop z b)
  strays :
      (z.m_idx ≡ 0 → block_read_sz z b ≤ remaining b)
      → Strays (started z b) (behind z b)
      → Moves z b wild

length-copy : (n to from : ℕ) (dst : List ℕ) → length (copy n to from dst) ≡ length dst
unfolding copy
length-copy zero to from dst = refl
length-copy (suc n) to from dst =
    length-copy n (to + 1) (from + 1) (set dst to (get_or dst from 0))
    ∙ length-set dst to (get_or dst from 0)

length-referred : (z : Inflater) (old rdn : ℕ) → length (referred z old rdn) ≡ length z.m_dst
unfolding referred
length-referred z old rdn =
    length-copy rdn (z.m_off + 2) (old + 2) _
    ∙ length-set (set z.m_dst z.m_off (get_or z.m_dst old 0)) (z.m_off + 1) _
    ∙ length-set z.m_dst z.m_off (get_or z.m_dst old 0)

kept : (z : Inflater) (b : ReadBuf) → 0 < z.m_idx → Strays z b → Strays (started z b) (behind z b)
kept z b i o =
    subst (λ c. Strays (started z b) c) (behind_lem z b i)
      (subst (λ y. Strays y b) (started_lem z b i) o)

refer_lem :
    (z : Inflater) (b : ReadBuf) (old rdn : ℕ)
    → 0 < z.m_idx
    → ((remaining b < 2) ⊎ (length z.m_dst < z.m_off + 2 + rdn) ⊎ (length z.m_dst < old + 2 + rdn)
        → Strays z b)
    → Moves z b (refer_to z b old rdn)
unfolding refer_to enter_pairs next_bit adj
refer_lem z b old rdn i stray =
    elim (Bool-cases (
      ltb (remaining b) 2
      || ltb (length z.m_dst) (z.m_off + 2 + rdn)
      || ltb (length z.m_dst) (old + 2 + rdn))) [
        | inl y ↦ rw y (strays (λ e. absurd (omega arith)) (kept z b i (stray (ground arith))))
        | inr n ↦ rw n (
            advanced (omega arith) refl (length-referred z old rdn)
              (ground (arith, length-referred z old rdn)) (omega arith))
      ]

plain_lem : (z : Inflater) (b : ReadBuf) → 0 < z.m_idx → bit_set z ≡ false → Moves z b (plain z b)
unfolding plain enter_pairs next_bit adj
plain_lem z b i bit = elim (Bool-cases (ltb (remaining b) 1 || leb (length z.m_dst) z.m_off)) [
  | inl y ↦ rw y (strays (λ e. absurd (omega arith)) (kept z b i (which (ground arith))))
  | inr n ↦ rw n (
      advanced (omega arith) refl (length-set z.m_dst z.m_off (value 1 b))
        (ground (arith, length-set z.m_dst z.m_off (value 1 b))) (omega arith))
]
  where
    which : (remaining b < 1) ⊎ (length z.m_dst ≤ z.m_off) → Strays z b
    which (inl c) = outside (cut (rw bit c))
    which (inr c) = full c

coded_lem : (z : Inflater) (b : ReadBuf) → 0 < z.m_idx → Moves z b (coded z b)
unfolding refer
coded_lem z b i = elim (Bool-cases (bit_set z)) [
  | inl y ↦ rw y (refer_lem z b _ _ i (which y))
  | inr n ↦ rw n (plain_lem z b i n)
]
  where
    which :
        bit_set z ≡ true
        → (remaining b < 2)
          ⊎ (length z.m_dst < z.m_off + 2 + value 1 (adj 1 b))
          ⊎ (length z.m_dst < get_or z.m_lbh (value 1 b) 0 + 2 + value 1 (adj 1 b))
        → Strays z b
    which y (inl c) = outside (cut (rw y c))
    which y (inr c) = outside (far y c)

pub round_lem : (z : Inflater) (b : ReadBuf) → Moves z b (round z b)
unfolding round adj
round_lem z b = elim (Bool-cases (z.m_idx == 0)) [
  | inl y ↦ elim (Bool-cases (ltb (remaining b) (block_read_sz z b))) [
    | inl few ↦ rw (y, few) (waits (ground arith) (ltb→lt _ _ few))
    | inr n ↦ rw (y, n) (begun _ y (ground arith) (coded_lem _ (adj 1 b) (omega arith)))
  ]
  | inr n ↦ rw n (coded_lem z b (ground arith))
]
  where
    begun :
        (r : Round)
        → (z.m_idx == 0) ≡ true
        → block_read_sz z b ≤ remaining b
        → Moves record z { m_bit = value 1 b; m_rdx = z.m_rdx + 1; m_idx = 1 } (adj 1 b) r
        → Moves z b r
    begun r y there (advanced a c d w k) = advanced a c d w (omega arith)
    begun r y there (waits a c) = absurd (omega arith)
    begun r y there (strays d o) = strays (λ e. there) (rw y o)

-- How `uncompress` ends: with all the bytes of the message, or in front of a block that the buffer
-- does not hold, or, in a round that does not begin at such a block, by an access outside.
pub data Ends (z : Inflater) (b : ReadBuf) : Round → Type 0 where
  expanded :
      {z' : Inflater} {b' : ReadBuf}
      → z'.m_msg_len ≡ z.m_msg_len
      → z.m_msg_len ≤ z'.m_off
      → length z'.m_dst ≡ length z.m_dst
      → IsWithin z'
      → Counts z b z' b'
      → Ends z b (stop z' b')
  at_block :
      {z' : Inflater} {b' : ReadBuf}
      → z'.m_idx ≡ 0
      → remaining b' < block_read_sz z' b'
      → length z'.m_dst ≡ length z.m_dst
      → IsWithin z'
      → z.m_off ≤ z'.m_off
      → z'.m_off < z.m_msg_len
      → Counts z b z' b'
      → Ends z b (stop z' b')
  out_of_bounds :
      (z' : Inflater) (b' : ReadBuf)
      → z.m_off ≤ z'.m_off
      → z'.m_off < z.m_msg_len
      → Counts z b z' b'
      → (z'.m_idx ≡ 0 → block_read_sz z' b' ≤ remaining b')
      → length z'.m_dst ≡ length z.m_dst
      → Outside (started z' b') (behind z' b')
      → Ends z b wild
