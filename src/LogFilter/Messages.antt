-- ===== src/LogFilter/Messages.antt =====
-- What the log filter should do with a message that the writer sends: whether it is for one of the
-- tables, and its q object.
use mgkdb.Prelude.{
  ℕ, ◌*◌, ◌%◌, ◌^◌, ◌<◌, Bool, false, ◌||◌, List, [], ◌∷◌, length, concat, All, ◌==◌, if◌then◌else◌,
}
use mgkdb.Ipc.Types.{Elem, i8typ, atom_type, vector_type, elem_size}
use mgkdb.Ipc.Object.{
  SymbolVector, Kdb, exception, atom, symbol_atom, vector, symbol_vector, list, table, dict,
  function, primitive, projection, Kdbs, nil, cons, size,
}
use mgkdb.Ipc.Write.Encode.{cells}
use mgkdb.Ipc.Payload.Encoded.{IsText, IsSymbols}
use mgkdb.Ipc.Symbols.{same_text}
use mgkdb.LogFilter.Reify.{Kx}

abbrev pub IsNoGuid : Elem → Type 0
IsNoGuid Elem.guid = ⊥
IsNoGuid _ = Unit

-- The messages that the log filter supports: symbols have no byte 0, counts and sizes are not
-- negative as an int, values fit their bytes, and no vector of GUIDs, exception, function, primitive
-- or projection stands anywhere.
abbrev mutual
  pub IsLogged : Kdb → Type 0
  IsLogged (exception msg) = ⊥
  IsLogged (atom e val) = val < 256 ^ elem_size e
  IsLogged (symbol_atom val) = All IsText val
  IsLogged (vector e attr xs) = IsNoGuid e × (length xs * elem_size e < 2 ^ 31)
  IsLogged (symbol_vector s) = IsSymbols s
  IsLogged (list attr vs) = (size vs < 2 ^ 31) × AreLogged vs
  IsLogged (table cols attr vs) = IsSymbols cols × (size vs < 2 ^ 31) × AreLogged vs
  IsLogged (dict k v) = IsLogged k × IsLogged v
  IsLogged (function vec) = ⊥
  IsLogged (primitive p val) = ⊥
  IsLogged (projection vs) = ⊥

  pub AreLogged : Kdbs → Type 0
  AreLogged nil = Unit
  AreLogged (cons v vs) = IsLogged v × AreLogged vs

-- Texts that each end in a 0, one after the other.
abbrev pub longer : ℕ → List (List ℕ) → List (List ℕ)
longer b [] = (b ∷ []) ∷ []
longer b (t ∷ ts) = (b ∷ t) ∷ ts

unfoldable pub cut : List ℕ → List (List ℕ)
cut [] = []
cut (b ∷ bytes) = let rest = cut bytes in if b == 0 then [] ∷ rest else longer b rest

-- The table's name is one of the names.
unfoldable pub contains : List (List ℕ) → List ℕ → Bool
contains [] s = false
contains (name ∷ names) s = same_text name s || contains names s

-- The name, where the object is a symbol, is one of the names.
unfoldable pub names_it : List (List ℕ) → Kdb → Bool
unfolding contains
names_it names (symbol_atom s) = contains names s
names_it names v = false

-- The second element of the list.
unfoldable pub second : List (List ℕ) → Kdbs → Bool
unfolding names_it
second names (cons a (cons b vs)) = names_it names b
second names vs = false

-- A message is for one of the tables if its second element is a name of one: the second of a list,
-- as in (`upd;`table;data), or the values of a dictionary.
unfoldable pub is_relevant : List (List ℕ) → Kdb → Bool
unfolding second
is_relevant names (list attr vs) = second names vs
is_relevant names (dict k v) = names_it names v
is_relevant names v = false

module _ (kx : Kx) where
  open kx use {K, ka, ku, ks, ktn, ktn_syms, ktn_list, x_t, x_d}

  abbrev pub build_atom : Elem → ℕ → K
  build_atom Elem.guid val = ku val
  build_atom e val = ka (i8typ (atom_type e)) val

  abbrev pub build_symbols : SymbolVector → K
  build_symbols s = ktn_syms (s.m_attr % 256) (cut s.m_data)

  -- The q object of a supported message, made bottom up. The other kinds have none: any stands there.
  abbrev mutual
    pub build : Kdb → K
    build (atom e val) = build_atom e val
    build (symbol_atom val) = ks val
    build (vector e attr xs) =
        ktn (i8typ (vector_type e)) (attr % 256) (length xs) (concat (cells (elem_size e) xs))
    build (symbol_vector s) = build_symbols s
    build (list attr vs) = ktn_list (attr % 256) (builds vs)
    build (table cols attr vs) = x_t (x_d (build_symbols cols) (ktn_list (attr % 256) (builds vs)))
    build (dict k v) = x_d (build k) (build v)
    build (exception msg) = ks []
    build (function vec) = ks []
    build (primitive p val) = ks []
    build (projection vs) = ks []

    pub builds : Kdbs → List K
    builds nil = []
    builds (cons v vs) = build v ∷ builds vs
