-- ===== src/Ipc/Object.antt =====
-- The object tree of ipc++/include/MgKdbType.H: one constructor for each kind of class derived from
-- KdbBase, complete objects as a program builds them for writing.
use mgkdb.Prelude.{ℕ, suc, ◌+◌, ◌*◌, ◌%◌, ◌^◌, List, [], ◌∷◌, ◌++◌, length}
use mgkdb.Ipc.Types.{Elem, Primitive, elem_size, sz_byte, sz_int, sz_vec_hdr}

pub record LocInfo : Type 0 where
  pub c_off : ℕ
  pub c_len : ℕ

-- Null-terminated symbols nose to tail in `m_data`, and where each is.
pub record SymbolVector : Type 0 where
  pub m_attr : ℕ
  pub m_locs : List LocInfo
  pub m_data : List ℕ

-- A value of a fixed-width element is the number that its bytes in memory stand for. The `ℕ` of
-- a vector or a list is its attribute byte. A table's columns are its `m_vals` list.
mutual
  pub data Kdb : Type 0 where
    exception : List ℕ → Kdb
    atom : Elem → ℕ → Kdb
    symbol_atom : List ℕ → Kdb
    vector : Elem → ℕ → List ℕ → Kdb
    symbol_vector : SymbolVector → Kdb
    list : ℕ → Kdbs → Kdb
    table : SymbolVector → ℕ → Kdbs → Kdb
    dict : Kdb → Kdb → Kdb
    function : List ℕ → Kdb
    primitive : Primitive → ℕ → Kdb
    projection : Kdbs → Kdb

  pub data Kdbs : Type 0 where
    nil : Kdbs
    cons : Kdb → Kdbs → Kdbs

-- `m_vals.size()`
abbrev pub size : Kdbs → ℕ
size nil = 0
size (cons v vs) = suc (size vs)

-- `_vec_wire_sz`, for elements of `w` bytes.
unfoldable pub vec_wire_sz : ℕ → List ℕ → ℕ
vec_wire_sz w xs = sz_vec_hdr + length xs * w

unfoldable mutual
  unfolding vec_wire_sz

  pub wire_sz : Kdb → ℕ
  wire_sz (exception msg) = sz_byte + length msg + sz_byte
  wire_sz (atom e val) = sz_byte + elem_size e
  wire_sz (symbol_atom val) = sz_byte + length val + sz_byte
  wire_sz (vector e attr xs) = vec_wire_sz (elem_size e) xs
  wire_sz (symbol_vector s) = sz_vec_hdr + length s.m_data
  wire_sz (list attr vs) = sz_vec_hdr + wire_szs vs
  wire_sz (table cols attr vs) =
      sz_byte + sz_byte + sz_byte + (sz_vec_hdr + length cols.m_data) + (sz_vec_hdr + wire_szs vs)
  wire_sz (dict k v) = sz_byte + wire_sz k + wire_sz v
  wire_sz (function vec) = sz_byte + sz_byte + sz_vec_hdr + length vec
  wire_sz (primitive p val) = sz_byte + sz_byte
  wire_sz (projection vs) = sz_byte + sz_int + wire_szs vs

  -- The loop's sum over the elements.
  pub wire_szs : Kdbs → ℕ
  wire_szs nil = 0
  wire_szs (cons v vs) = wire_sz v + wire_szs vs

-- `KdbSymbolVector::push`
unfoldable pub push : SymbolVector → List ℕ → SymbolVector
push s sym = record s {
  m_locs =
      s.m_locs
      ++ record { c_off = length s.m_data % 2 ^ 32; c_len = (length sym + sz_byte) % 2 ^ 32 } ∷ [];
  m_data = s.m_data ++ (sym ++ (0 ∷ []));
}
