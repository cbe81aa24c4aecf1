-- ===== src/Ipc/WriteBuf.antt =====
-- `WriteBuf` (ipc++/include/MgKdbType.H, ipc++/src/KdbType.C): a buffer that is written from its
-- front, with a cursor that is negative while bytes written earlier have still to be passed over.
use mgkdb.Prelude.{
  ℕ, ◌+◌, ◌-◌, ◌/◌, Bool, true, false, List, [], ◌∷◌, ◌++◌, map, length, take, drop, concat, min,
  ltb, leb, if◌then◌else◌,
}
use mgkdb.Prelude.Int.{ℤ, pos_part, neg_part, sub_ℕ, is_nonneg}
use mgkdb.Prelude.Bytes.{le_bytes}
use mgkdb.Ipc.Types.{KdbType, i8typ, sz_vec_hdr}

-- `m_dst` holds the bytes below `m_off`, so that `m_off` is its length: every write is at `m_off`.
pub record WriteBuf : Type 0 where
  pub m_dst : List ℕ
  pub m_cap : ℕ
  pub m_csr : ℤ

abbrev pub m_off : WriteBuf → ℕ
m_off b = length b.m_dst

abbrev pub remaining : WriteBuf → ℕ
remaining b = b.m_cap - m_off b

abbrev pub can_write : WriteBuf → ℕ → Bool
can_write b bytes = leb (m_off b + bytes) b.m_cap

abbrev pub cursor_active : WriteBuf → Bool
cursor_active b = is_nonneg b.m_csr

-- `m_csr + n`
abbrev pub advance : ℤ → ℕ → ℤ
advance c n = sub_ℕ (pos_part c + n) (neg_part c)

unfoldable pub ffwd : ℕ → WriteBuf → WriteBuf
ffwd n b = record b { m_csr = advance b.m_csr n }

-- The bytes go to `m_dst + m_off`, and `adj` moves `m_off` and `m_csr` on.
unfoldable pub put : List ℕ → WriteBuf → WriteBuf
put bytes b = record b { m_dst = b.m_dst ++ bytes; m_csr = advance b.m_csr (length bytes) }

-- `write<T>(val)` for a T of `w` bytes.
unfoldable pub write_value : ℕ → ℕ → WriteBuf → Bool × WriteBuf
write_value w val b = if ltb (remaining b) w then (false, b) else (true, put (le_bytes w val) b)

unfoldable pub write_typ : KdbType → WriteBuf → Bool × WriteBuf
unfolding write_value
write_typ typ b = write_value 1 (i8typ typ) b

unfoldable pub write_att : ℕ → WriteBuf → Bool × WriteBuf
unfolding write_value
write_att att b = write_value 1 att b

unfoldable pub write_hdr : KdbType → ℕ → ℕ → WriteBuf → Bool × WriteBuf
unfolding write_value
write_hdr typ att len b =
    if ltb (remaining b) sz_vec_hdr
    then (false, b)
    else let b1 = (write_value 1 (i8typ typ) b).1 in
      let b2 = (write_value 1 att b1).1 in (true, (write_value 4 len b2).1)

unfoldable pub write_sym : List ℕ → WriteBuf → Bool × WriteBuf
write_sym sv b =
    if ltb (remaining b) (length sv + 1) then (false, b) else (true, put (0 ∷ []) (put sv b))

-- `writeAry(ary, off, cap)` for elements of `w` bytes, with the list for `ary[0..cap)`.
unfoldable pub write_ary : ℕ → List ℕ → ℕ → WriteBuf → ℕ × WriteBuf
write_ary w ary off b =
    if leb (length ary) off
    then (0, b)
    else let elm = min (length ary - off) (remaining b / w) in
      (elm, put (concat (map (le_bytes w) (take elm (drop off ary)))) b)
