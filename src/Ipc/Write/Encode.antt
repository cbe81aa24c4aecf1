-- ===== src/Ipc/Write/Encode.antt =====
-- The bytes of an object on the wire, in the chunks that the writers do not split.
use mgkdb.Prelude.{ℕ, List, [], ◌∷◌, ◌++◌, map, length, concat}
use mgkdb.Prelude.Bytes.{le_bytes}
use mgkdb.Ipc.Types.{KdbType, i8typ, atom_type, vector_type, elem_size, primitive_type}
use mgkdb.Ipc.Object.{
  Kdb, exception, atom, symbol_atom, vector, symbol_vector, list, table, dict, function, primitive,
  projection, Kdbs, nil, cons, size,
}

-- The chunks of a vector: one for each element.
abbrev pub cells : ℕ → List ℕ → List (List ℕ)
cells w xs = map (le_bytes w) xs

-- The chunks of a vector's header, a list's too.
abbrev pub hdr : KdbType → ℕ → ℕ → List ℕ
hdr typ attr n = le_bytes 1 (i8typ typ) ++ (le_bytes 1 attr ++ le_bytes 4 n)

-- The prologue of a function is written as one.
abbrev pub prologue : ℕ → List ℕ
prologue n = le_bytes 1 (i8typ KdbType.function) ++ (le_bytes 1 0 ++ hdr KdbType.char_vector 0 n)

abbrev pub table_hdr : List ℕ
table_hdr = le_bytes 1 (i8typ KdbType.table) ++ (le_bytes 1 0 ++ le_bytes 1 (i8typ KdbType.dict))

-- The chunks that an object is sent as.
unfoldable mutual
  pub chunks : Kdb → List (List ℕ)
  chunks (exception msg) = (le_bytes 1 (i8typ KdbType.exception) ++ (msg ++ (0 ∷ []))) ∷ []
  chunks (atom e val) = (le_bytes 1 (i8typ (atom_type e)) ++ le_bytes (elem_size e) val) ∷ []
  chunks (symbol_atom val) = (le_bytes 1 (i8typ KdbType.symbol_atom) ++ (val ++ (0 ∷ []))) ∷ []
  chunks (vector e attr xs) = hdr (vector_type e) attr (length xs) ∷ cells (elem_size e) xs
  chunks (symbol_vector s) = hdr KdbType.symbol_vector s.m_attr (length s.m_locs) ∷ cells 1 s.m_data
  chunks (list attr vs) = hdr KdbType.list attr (size vs) ∷ all_chunks vs
  chunks (table cols attr vs) =
      table_hdr
      ∷ ((hdr KdbType.symbol_vector cols.m_attr (length cols.m_locs) ∷ cells 1 cols.m_data)
          ++ (hdr KdbType.list attr (size vs) ∷ all_chunks vs))
  chunks (dict k v) = le_bytes 1 (i8typ KdbType.dict) ∷ (chunks k ++ chunks v)
  chunks (function vec) = prologue (length vec) ∷ cells 1 vec
  chunks (primitive p val) = (le_bytes 1 (i8typ (primitive_type p)) ++ le_bytes 1 val) ∷ []
  chunks (projection vs) =
      (le_bytes 1 (i8typ KdbType.projection) ++ le_bytes 4 (size vs)) ∷ all_chunks vs

  pub all_chunks : Kdbs → List (List ℕ)
  all_chunks nil = []
  all_chunks (cons v vs) = chunks v ++ all_chunks vs

-- What the object is on the wire.
unfoldable pub encode : Kdb → List ℕ
encode v = concat (chunks v)
