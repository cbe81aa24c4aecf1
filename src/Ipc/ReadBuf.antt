-- ===== src/Ipc/ReadBuf.antt =====
-- `ReadBuf` (ipc++/include/MgKdbType.H, ipc++/src/KdbType.C): bytes that are read from their front,
-- with a cursor that is negative while bytes read from earlier buffers have still to be passed over.
use mgkdb.Prelude.{
  ℕ, zero, suc, ◌+◌, ◌*◌, ◌%◌, ◌^◌, Bool, List, [], ◌∷◌, ◌++◌, length, take, drop, ltb, leb, ◌==◌,
  if◌then◌else◌,
}
use mgkdb.Prelude.Int.{ℤ, is_nonneg}
use mgkdb.Prelude.Bytes.{le_value}
use mgkdb.Ipc.Types.{sz_byte}
use mgkdb.Ipc.WriteBuf.{advance}
use mgkdb.Ipc.Object.{LocInfo}

-- `threw`, an exception leaves the function, `undef`, a pointer that was never set is followed, and
-- `stuck`, the fuel is used up, are no values of the code's type.
pub data ReadResult : Type 0 where
  rd_unset rd_ok rd_incomplete rd_err_ipc rd_err_logic rd_err_alloc threw undef stuck : ReadResult

-- `m_rest` is the bytes from `m_src + m_off` to `m_src + m_len`.
pub record ReadBuf : Type 0 where
  pub m_rest : List ℕ
  pub m_off : ℕ
  pub m_csr : ℤ

abbrev pub remaining : ReadBuf → ℕ
remaining b = length b.m_rest

abbrev pub can_read : ℕ → ReadBuf → Bool
can_read n b = leb n (remaining b)

abbrev pub cursor_active : ReadBuf → Bool
cursor_active b = is_nonneg b.m_csr

unfoldable pub ffwd : ℕ → ReadBuf → ReadBuf
ffwd n b = record b { m_csr = advance b.m_csr n }

unfoldable pub adj : ℕ → ReadBuf → ReadBuf
adj n b = record b { m_rest = drop n b.m_rest; m_off = b.m_off + n; m_csr = advance b.m_csr n }

-- `if (!buf.cursorActive()) buf.ffwd(n)`, with which every `read` of an object begins.
unfoldable pub pass : ℕ → ReadBuf → ReadBuf
pass n b = if cursor_active b then b else ffwd n b

-- What `peek` and `read` return for a type of `w` bytes.
abbrev pub value : ℕ → ReadBuf → ℕ
value w b = le_value (take w b.m_rest)

-- What is inserted into a vector for `count` elements of `w` bytes.
abbrev pub elems : ℕ → ℕ → List ℕ → List ℕ
elems w zero src = []
elems w (suc count) src = le_value (take w src) ∷ elems w count (drop w src)

-- `read(vec, count)`: the number returned, the vector and the buffer behind it.
unfoldable pub read_vec : ℕ → List ℕ → ℕ → ReadBuf → ℕ × List ℕ × ReadBuf
read_vec w vec count b =
    if ltb (remaining b) (w * count)
    then (0, vec, b)
    else (count, vec ++ elems w count b.m_rest, adj (w * count) b)

-- `strnlen(src, n)` for the `n` bytes of the list.
unfoldable pub text_len : List ℕ → ℕ
text_len [] = 0
text_len (b ∷ bytes) = let n = text_len bytes in if b == 0 then 0 else suc n

-- A string behind `readSym`.
pub data SymOut : Type 0 where
  sym_out : ReadResult → List ℕ → ReadBuf → SymOut

unfoldable pub read_sym : List ℕ → ReadBuf → SymOut
read_sym str b =
    let n = text_len b.m_rest in
    if remaining b == 0
    then sym_out ReadResult.rd_incomplete str b
    else (if remaining b == n
        then sym_out ReadResult.rd_incomplete str b
        else sym_out ReadResult.rd_ok (take n b.m_rest) (adj (n + sz_byte) b))

-- The two vectors behind `readSyms`.
pub data SymsOut : Type 0 where
  syms_out : ReadResult → List LocInfo → List ℕ → ReadBuf → SymsOut

-- The entry for a symbol of `n` bytes that stands at `off`.
abbrev pub loc : ℕ → ℕ → LocInfo
loc off n = record { c_off = off % 2 ^ 32; c_len = (n + sz_byte) % 2 ^ 32 }

unfoldable pub syms_loop : ℕ → List LocInfo → List ℕ → ReadBuf → SymsOut
syms_loop zero locs syms b = syms_out ReadResult.rd_ok locs syms b
syms_loop (suc rqd) locs syms b =
    let n = text_len b.m_rest in
    if remaining b == n
    then syms_out ReadResult.rd_incomplete locs syms b
    else syms_loop rqd (locs ++ loc (length syms) n ∷ []) (syms ++ take (n + sz_byte) b.m_rest)
        (adj (n + sz_byte) b)

unfoldable pub read_syms : ℕ → List LocInfo → List ℕ → ReadBuf → SymsOut
unfolding syms_loop
read_syms rqd locs syms b =
    if ltb 0 (remaining b)
    then syms_loop rqd locs syms b
    else syms_out ReadResult.rd_incomplete locs syms b
