-- ===== src/Ipc/Read/Made.antt =====
-- A value as a header, a body and the object that `newInstance` makes of the header.
use mgkdb.Prelude.{ℕ, ◌*◌, ◌≡◌, refl, List, [], ◌∷◌, ◌++◌, length, concat, arith}
use mgkdb.Prelude.Bytes.{le_bytes}
use mgkdb.Ipc.Types.{KdbType, i8typ, atom_type, vector_type, elem_size, primitive_type}
use mgkdb.Ipc.Object.{
  Kdb, exception, atom, symbol_atom, vector, symbol_vector, list, table, dict, function, primitive,
  projection, size,
}
use mgkdb.Ipc.Write.Encode.{cells, hdr, prologue, table_hdr, encode}
use mgkdb.Ipc.Read.Obj.{Obj, null, onil}
use mgkdb.Ipc.Read.Part.{
  IsPart, exception_part, atom_part, symbol_part, vector_part, symbols_part, list_part, table_part,
  dict_part, function_part, primitive_part, projection_part, neither, none_of, IsReadable, hdr_sz,
  encodes,
}

-- What stands behind the header.
abbrev pub body : Kdb → List ℕ
body (exception msg) = msg ++ (0 ∷ [])
body (atom e val) = le_bytes (elem_size e) val
body (symbol_atom val) = val ++ (0 ∷ [])
body (vector e attr xs) = concat (cells (elem_size e) xs)
body (symbol_vector s) = s.m_data
body (list attr vs) = encodes vs
body (table cols attr vs) = encode (symbol_vector cols) ++ encode (list attr vs)
body (dict k v) = encode k ++ encode v
body (function vec) = vec
body (primitive p val) = val ∷ []
body (projection vs) = encodes vs

-- The header.
abbrev pub head : Kdb → List ℕ
head (exception msg) = le_bytes 1 (i8typ KdbType.exception)
head (atom e val) = le_bytes 1 (i8typ (atom_type e))
head (symbol_atom val) = le_bytes 1 (i8typ KdbType.symbol_atom)
head (vector e attr xs) = hdr (vector_type e) attr (length xs)
head (symbol_vector s) = hdr KdbType.symbol_vector s.m_attr (length s.m_locs)
head (list attr vs) = hdr KdbType.list attr (size vs)
head (table cols attr vs) = table_hdr
head (dict k v) = le_bytes 1 (i8typ KdbType.dict)
head (function vec) = prologue (length vec)
head (primitive p val) = le_bytes 1 (i8typ (primitive_type p))
head (projection vs) = le_bytes 1 (i8typ KdbType.projection) ++ le_bytes 4 (size vs)

-- The object that `newInstance` makes.
abbrev pub fresh : Kdb → Obj
fresh (exception msg) = Obj.exception []
fresh (atom e val) = Obj.atom e 0
fresh (symbol_atom val) = Obj.symbol_atom []
fresh (vector e attr xs) = Obj.vector e attr (length xs) []
fresh (symbol_vector s) = Obj.symbol_vector s.m_attr (length s.m_locs) [] []
fresh (list attr vs) = Obj.list attr (size vs) onil
fresh (table cols attr vs) = Obj.table null null
fresh (dict k v) = Obj.dict null null
fresh (function vec) = Obj.function (length vec) []
fresh (primitive p val) = Obj.primitive p 0
fresh (projection vs) = Obj.projection (size vs) onil

pub length-head : (v : Kdb) → length (head v) ≡ hdr_sz v
length-head (exception msg) = refl
length-head (atom e val) = refl
length-head (symbol_atom val) = refl
length-head (vector e attr xs) = refl
length-head (symbol_vector s) = refl
length-head (list attr vs) = refl
length-head (table cols attr vs) = refl
length-head (dict k v) = refl
length-head (function vec) = refl
length-head (primitive p val) = refl
length-head (projection vs) = refl

-- A fresh object is a part to which nothing but the header went.
pub fresh-IsPart : (v : Kdb) → IsReadable v → IsPart v 0 (body v) (fresh v)
fresh-IsPart (exception msg) r = exception_part
fresh-IsPart (atom e val) r = atom_part
fresh-IsPart (symbol_atom val) r = symbol_part
fresh-IsPart (vector e attr xs) r =
    let z : elem_size e * 0 ≡ 0 = omega arith in rw (← z) (vector_part [] xs refl)
fresh-IsPart (symbol_vector s) (a, n, m) = symbols_part [] s.m_locs [] s.m_data refl refl m
fresh-IsPart (list attr vs) r = list_part none_of
fresh-IsPart (table cols attr vs) r = table_part neither
fresh-IsPart (dict k v) r = dict_part neither
fresh-IsPart (function vec) r = function_part [] vec refl
fresh-IsPart (primitive p val) r = primitive_part
fresh-IsPart (projection vs) r = projection_part none_of
