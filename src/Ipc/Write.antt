-- ===== src/Ipc/Write.antt =====
-- The `write` methods of the object tree (ipc++/src/KdbType.C) and KdbIpcMessageWriter: each call
-- passes over what earlier calls wrote, while the cursor is negative, and writes what fits.
pub mod Chunks
pub mod Sent
pub mod Vectors
pub mod Text
pub mod Encode
pub mod Headers
pub mod Refine
pub mod Size
pub mod Message
pub mod Sending
pub mod Loop
mod Tests
use mgkdb.Prelude.{
  ℕ, zero, suc, ◌+◌, ◌-◌, ◌*◌, ◌/◌, Bool, true, false, List, [], ◌∷◌, ◌++◌, length, min, ltb, ◌==◌,
  if◌then◌else◌,
}
use mgkdb.Prelude.Int.{ℤ, neg_part, is_nonneg}
use mgkdb.Ipc.Types.{
  KdbType, Elem, Primitive, WriteResult, wr_ok, wr_incomplete, atom_type, vector_type, elem_size,
  primitive_type, sz_byte, sz_int, sz_vec_hdr, sz_guid,
}
use mgkdb.Ipc.WriteBuf.{
  WriteBuf, remaining, can_write, cursor_active, ffwd, write_value, write_typ, write_att, write_hdr,
  write_sym, write_ary,
}
use mgkdb.Ipc.Object.{
  SymbolVector, Kdb, exception, atom, symbol_atom, vector, symbol_vector, list, table, dict,
  function, primitive, projection, Kdbs, nil, cons, size,
}

-- `writeIntAtom`
pub write_int_atom : KdbType → ℕ → ℕ → WriteBuf → WriteResult × WriteBuf
unfolding write_typ write_value
write_int_atom typ w val buf =
    if cursor_active buf
    then if can_write buf (sz_byte + w)
      then (wr_ok, (write_value w val (write_typ typ buf).1).1)
      else (wr_incomplete, buf)
    else (wr_ok, ffwd (sz_byte + w) buf)

-- `KdbException::write` and `KdbSymbolAtom::write`
pub write_sym_atom : KdbType → List ℕ → WriteBuf → WriteResult × WriteBuf
unfolding write_typ write_value write_sym
write_sym_atom typ val buf =
    let sz = sz_byte + length val + sz_byte in
    if cursor_active buf
    then if can_write buf sz
      then (wr_ok, (write_sym val (write_typ typ buf).1).1)
      else (wr_incomplete, buf)
    else (wr_ok, ffwd sz buf)

-- How many whole elements of `w` bytes the negative cursor still has to pass over, at most `n`.
abbrev pub skip_count : ℕ → ℕ → WriteBuf → ℕ
skip_count w n buf = if is_nonneg buf.m_csr then 0 else min (neg_part buf.m_csr) (n * w) / w

-- `if (skp > 0) buf.ffwd(skp * sizeof(E))`
abbrev pub pass : ℕ → ℕ → WriteBuf → WriteBuf
pass w skp buf = if ltb 0 skp then ffwd (skp * w) buf else buf

-- What `writeIntVector` does behind the header.
pub write_elems : ℕ → List ℕ → WriteBuf → WriteResult × WriteBuf
unfolding write_ary
write_elems w xs buf =
    let skp = skip_count w (length xs) buf in
    let buf1 = pass w skp buf in
    if ltb skp (length xs)
    then (let (wrt, buf2) = write_ary w xs skp buf1 in
        (if ltb (skp + wrt) (length xs) then wr_incomplete else wr_ok, buf2))
    else (wr_ok, buf1)

-- `writeIntVector`
pub write_int_vector : KdbType → ℕ → ℕ → List ℕ → WriteBuf → WriteResult × WriteBuf
unfolding write_hdr write_elems
write_int_vector typ attr w xs buf =
    if cursor_active buf
    then (let (fits, buf1) = write_hdr typ attr (length xs) buf in
        if fits then write_elems w xs buf1 else (wr_incomplete, buf1))
    else write_elems w xs (ffwd sz_vec_hdr buf)

-- What `KdbSymbolVector::write` does behind the header.
pub write_data : List ℕ → WriteBuf → WriteResult × WriteBuf
unfolding write_ary
write_data data' buf =
    let skp = if is_nonneg buf.m_csr then 0 else min (neg_part buf.m_csr) (length data') in
    let buf1 = if is_nonneg buf.m_csr then buf else ffwd skp buf in
    if ltb skp (length data')
    then (let (wrt, buf2) = write_ary 1 data' skp buf1 in
        (if ltb (wrt + skp) (length data') then wr_incomplete else wr_ok, buf2))
    else (wr_ok, buf1)

-- `KdbSymbolVector::write`
pub write_symbol_vector : SymbolVector → WriteBuf → WriteResult × WriteBuf
unfolding write_hdr write_data
write_symbol_vector s buf =
    if cursor_active buf
    then (let (fits, buf1) = write_hdr KdbType.symbol_vector s.m_attr (length s.m_locs) buf in
        if fits then write_data s.m_data buf1 else (wr_incomplete, buf1))
    else write_data s.m_data (ffwd sz_vec_hdr buf)

-- What `KdbFunction::write` does behind the prologue. Its `m_vec.capacity()` is the size, as the
-- constructor that takes the text allocates just that.
pub write_text : List ℕ → WriteBuf → WriteResult × WriteBuf
unfolding write_ary
write_text vec buf =
    let skp = if is_nonneg buf.m_csr then 0 else min (neg_part buf.m_csr) (length vec) in
    let buf1 = pass 1 skp buf in
    let (wrt, buf2) = write_ary 1 vec skp buf1 in
    (if skp + wrt == length vec then wr_ok else wr_incomplete, buf2)

-- `KdbFunction::write`
pub write_function : List ℕ → WriteBuf → WriteResult × WriteBuf
unfolding write_typ write_att write_hdr write_value write_text
write_function vec buf =
    let sz = sz_byte + sz_byte + sz_vec_hdr in
    if cursor_active buf
    then if can_write buf sz
      then (let b1 = (write_typ KdbType.function buf).1 in
          let b2 = (write_att 0 b1).1 in
          write_text vec (write_hdr KdbType.char_vector 0 (length vec) b2).1)
      else (wr_incomplete, buf)
    else write_text vec (ffwd sz buf)

-- `KdbPrimitive<T>::write`
pub write_primitive : Primitive → ℕ → WriteBuf → WriteResult × WriteBuf
unfolding write_typ write_value
write_primitive p val buf =
    if cursor_active buf
    then if can_write buf (sz_byte + sz_byte)
      then (wr_ok, (write_value 1 val (write_typ (primitive_type p) buf).1).1)
      else (wr_incomplete, buf)
    else (wr_ok, ffwd (sz_byte + sz_byte) buf)

-- The header part of `KdbList::write`: whether to go on, and the buffer.
pub write_list_hdr : ℕ → ℕ → WriteBuf → WriteResult × WriteBuf
unfolding write_hdr
write_list_hdr attr n buf =
    if cursor_active buf
    then (let (fits, buf1) = write_hdr KdbType.list attr n buf in
        (if fits then wr_ok else wr_incomplete, buf1))
    else (wr_ok, ffwd sz_vec_hdr buf)

-- The header part of `KdbTable::write`.
pub write_table_hdr : WriteBuf → WriteResult × WriteBuf
unfolding write_typ write_att write_value
write_table_hdr buf =
    let sz = sz_byte + sz_byte + sz_byte in
    if cursor_active buf
    then if can_write buf sz
      then (let b1 = (write_typ KdbType.table buf).1 in
          let b2 = (write_att 0 b1).1 in (wr_ok, (write_typ KdbType.dict b2).1))
      else (wr_incomplete, buf)
    else (wr_ok, ffwd sz buf)

-- The header part of `KdbDict::write`.
pub write_dict_hdr : WriteBuf → WriteResult × WriteBuf
unfolding write_typ write_value
write_dict_hdr buf =
    if cursor_active buf
    then (let (fits, buf1) = write_typ KdbType.dict buf in
        (if fits then wr_ok else wr_incomplete, buf1))
    else (wr_ok, ffwd sz_byte buf)

-- The header part of `KdbProjection::write`.
pub write_projection_hdr : ℕ → WriteBuf → WriteResult × WriteBuf
unfolding write_typ write_value
write_projection_hdr n buf =
    let sz = sz_byte + sz_int in
    if cursor_active buf
    then if can_write buf sz
      then (wr_ok, (write_value 4 n (write_typ KdbType.projection buf).1).1)
      else (wr_incomplete, buf)
    else (wr_ok, ffwd sz buf)

-- `if (WriteResult wr = a(buf); WR_OK != wr) return wr; return b(buf)`
abbrev pub and_then :
    WriteResult × WriteBuf → (WriteBuf → WriteResult × WriteBuf) → WriteResult × WriteBuf
and_then (wr_ok, buf) k = k buf
and_then (wr_incomplete, buf) k = (wr_incomplete, buf)

-- The virtual `KdbBase::write`, and the loops of a list and a projection over their elements.
unfoldable mutual
  unfolding write_int_atom write_sym_atom write_int_vector write_symbol_vector write_function
      write_primitive write_list_hdr write_table_hdr write_dict_hdr write_projection_hdr

  pub write : Kdb → WriteBuf → WriteResult × WriteBuf
  write (exception msg) buf = write_sym_atom KdbType.exception msg buf
  write (atom e val) buf = write_int_atom (atom_type e) (elem_size e) val buf
  write (symbol_atom val) buf = write_sym_atom KdbType.symbol_atom val buf
  write (vector e attr xs) buf = write_int_vector (vector_type e) attr (elem_size e) xs buf
  write (symbol_vector s) buf = write_symbol_vector s buf
  write (list attr vs) buf = and_then (write_list_hdr attr (size vs) buf) (λ b. write_all vs b)
  write (table cols attr vs) buf = and_then (write_table_hdr buf) (λ b.
      and_then (write_symbol_vector cols b)
        (λ c. and_then (write_list_hdr attr (size vs) c) (λ d. write_all vs d)))
  write (dict k v) buf = and_then (write_dict_hdr buf) (λ b. and_then (write k b) (λ c. write v c))
  write (function vec) buf = write_function vec buf
  write (primitive p val) buf = write_primitive p val buf
  write (projection vs) buf = and_then (write_projection_hdr (size vs) buf) (λ b. write_all vs b)

  pub write_all : Kdbs → WriteBuf → WriteResult × WriteBuf
  write_all nil buf = (wr_ok, buf)
  write_all (cons v vs) buf = and_then (write v buf) (λ b. write_all vs b)
