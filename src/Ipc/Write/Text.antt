-- ===== src/Ipc/Write/Text.antt =====
-- The copies of characters by KdbSymbolVector and KdbFunction (ipc++/src/KdbType.C).
use mgkdb.Prelude.{
  ℕ, ◌+◌, ◌-◌, ◌*◌, ◌/◌, ◌≤◌, ◌≡◌, inl, inr, true, false, List, length, min, ltb, leb,
  if◌then◌else◌, arith, Bool-cases, ◌==◌,
}
use mgkdb.Prelude.Int.{neg_part, is_nonneg}
use mgkdb.Ipc.Types.{WriteResult, wr_ok, wr_incomplete}
use mgkdb.Ipc.WriteBuf.{WriteBuf, remaining, ffwd, write_ary}
use mgkdb.Ipc.Write.{skip_count, pass, write_elems, write_data, write_text}
use mgkdb.Ipc.Write.Vectors.{pass-ffwd, row_result}

-- How many bytes a negative cursor still passes over, at most `n`.
abbrev byte_count : ℕ → WriteBuf → ℕ
byte_count n b = if is_nonneg b.m_csr then 0 else min (neg_part b.m_csr) n

skip_count-byte_count : (n : ℕ) (b : WriteBuf) → skip_count 1 n b ≡ byte_count n b
skip_count-byte_count n b = ground arith

data_pass :
    (xs : List ℕ) (b : WriteBuf)
    → (if is_nonneg b.m_csr then b else ffwd (byte_count (length xs) b) b)
      ≡ pass 1 (byte_count (length xs) b) b
data_pass xs b = elim (Bool-cases (is_nonneg b.m_csr)) [
  | inl act ↦ rw act
  | inr neg ↦
      let k = min (neg_part b.m_csr) (length xs) in
      let one : k * 1 ≡ k = omega arith in rw neg (rw (pass-ffwd 1 xs b (omega arith) k, one))
]

-- The copy of a symbol vector's characters is that of a vector of bytes.
pub write_data-eq-write_elems : (xs : List ℕ) (b : WriteBuf) → write_data xs b ≡ write_elems 1 xs b
unfolding write_data write_elems write_ary
write_data-eq-write_elems xs b =
    let skp = byte_count (length xs) b in
    let wrt = (write_ary 1 xs skp (pass 1 skp b)).0 in
    let comm : wrt + skp ≡ skp + wrt = omega arith in rw (skip_count-byte_count, data_pass, comm)

text_tail :
    (xs : List ℕ) (skp : ℕ) (b1 : WriteBuf)
    → skp ≤ length xs
    → ◌≡◌ {A = WriteResult × WriteBuf}
        (let (wrt, b2) = write_ary 1 xs skp b1 in
          (if skp + wrt == length xs then wr_ok else wr_incomplete, b2))
        (if ltb skp (length xs)
          then (let (wrt, b2) = write_ary 1 xs skp b1 in (row_result (skp + wrt) (length xs), b2))
          else (wr_ok, b1))
unfolding write_ary
text_tail xs skp b1 h = elim (Bool-cases (ltb skp (length xs))) [
  | inl lt ↦
      let inside : leb (length xs) skp ≡ false = ground arith in
      let elm = min (length xs - skp) (remaining b1 / 1) in
      let test : (if skp + elm == length xs then wr_ok else wr_incomplete)
          ≡ row_result (skp + elm) (length xs) =
        ground arith in
      rw (lt, inside, test)
  | inr ge ↦
      let behind : leb (length xs) skp ≡ true = ground arith in
      let all : (skp + 0 == length xs) ≡ true = ground arith in rw (ge, behind, all)
]

-- So is the copy of a function's text.
pub write_text-eq-write_elems : (xs : List ℕ) (b : WriteBuf) → write_text xs b ≡ write_elems 1 xs b
unfolding write_text write_elems write_ary
write_text-eq-write_elems xs b =
    let skp = byte_count (length xs) b in
    rw skip_count-byte_count (text_tail xs skp (pass 1 skp b) (ground arith))
