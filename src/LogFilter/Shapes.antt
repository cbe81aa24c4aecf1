-- ===== src/LogFilter/Shapes.antt =====
-- The bytes of a written message as the walks over it (log_filter/src/log_filter.c) take them apart.
use mgkdb.Prelude.{
  ℕ, zero, suc, ◌+◌, ◌%◌, ◌≤◌, ◌≡◌, refl, ap, ◌∙◌, List, [], ◌∷◌, ◌++◌, append_assoc, length,
  concat, drop, arith,
}
use mgkdb.Prelude.Bytes.{le_bytes}
use mgkdb.Ipc.Types.{KdbType, Elem, i8typ, atom_type, vector_type, elem_size}
use mgkdb.Ipc.Object.{
  SymbolVector, Kdb, atom, symbol_atom, symbol_vector, list, table, dict, Kdbs, cons, size, wire_sz,
}
use mgkdb.Ipc.Write.Encode.{cells, chunks, all_chunks, encode}
use mgkdb.Ipc.Write.Size.{concat-append, wire_sz-eq-length-encode}
use mgkdb.Ipc.Payload.Encoded.{drop-on}
use mgkdb.Ipc.Payload.Walk.{append_nil}
use mgkdb.LogFilter.Memory.{Case, fixed, case_of}
use mgkdb.LogFilter.Messages.{IsNoGuid}

-- A number that is not 0 is a successor.
pub from_suc : (P : ℕ → Type 0) (n : ℕ) → 1 ≤ n → ((f : ℕ) → n ≡ suc f → P (suc f)) → P n
from_suc P zero h next = absurd (omega arith)
from_suc P (suc f) h next = next f refl

pub case_of-atom : (e : Elem) → case_of (i8typ (atom_type e)) ≡ fixed (elem_size e)
unfolding case_of
case_of-atom Elem.time = refl
case_of-atom _ = refl

pub case_of-vector : (e : Elem) → IsNoGuid e → case_of (i8typ (vector_type e)) ≡ Case.vector
unfolding case_of
case_of-vector Elem.time h = refl
case_of-vector Elem.guid h = elim h [ ]
case_of-vector _ h = refl

le_typ-atom : (e : Elem) → i8typ (atom_type e) % 256 ≡ i8typ (atom_type e)
le_typ-atom Elem.time = refl
le_typ-atom _ = refl

le_typ-vector : (e : Elem) → i8typ (vector_type e) % 256 ≡ i8typ (vector_type e)
le_typ-vector Elem.time = refl
le_typ-vector _ = refl

module _ (rest : List ℕ) where
  pub encode-atom :
      (e : Elem) (val : ℕ)
      → encode (atom e val) ++ rest ≡ i8typ (atom_type e) ∷ (le_bytes (elem_size e) val ++ rest)
  unfolding encode chunks
  encode-atom e val =
      ap (λ b. (i8typ (atom_type e) % 256) ∷ (b ++ rest)) (append_nil (le_bytes (elem_size e) val))
      ∙ ap (λ t. t ∷ (le_bytes (elem_size e) val ++ rest)) (le_typ-atom e)

  pub encode-symbol_atom :
      (s : List ℕ) → encode (symbol_atom s) ++ rest ≡ i8typ KdbType.symbol_atom ∷ (s ++ (0 ∷ rest))
  unfolding encode chunks
  encode-symbol_atom s =
      ap (λ b. i8typ KdbType.symbol_atom ∷ (b ++ rest)) (append_nil (s ++ (0 ∷ [])))
      ∙ ap (λ b. i8typ KdbType.symbol_atom ∷ b) (append_assoc s (0 ∷ []) rest)

  pub encode-vector :
      (e : Elem) (attr : ℕ) (xs : List ℕ)
      → encode (Kdb.vector e attr xs) ++ rest
        ≡ i8typ (vector_type e)
          ∷ (le_bytes 1 attr
              ++ (le_bytes 4 (length xs) ++ (concat (cells (elem_size e) xs) ++ rest)))
  unfolding encode chunks
  encode-vector e attr xs =
      ap
        (λ t.
          t
          ∷ (le_bytes 1 attr
              ++ (le_bytes 4 (length xs) ++ (concat (cells (elem_size e) xs) ++ rest))))
        (le_typ-vector e)

  pub encode-symbol_vector :
      (s : SymbolVector)
      → encode (symbol_vector s) ++ rest
        ≡ i8typ KdbType.symbol_vector
          ∷ (le_bytes 1 s.m_attr
              ++ (le_bytes 4 (length s.m_locs) ++ (concat (cells 1 s.m_data) ++ rest)))
  unfolding encode chunks
  encode-symbol_vector s = refl

  pub encode-list :
      (attr : ℕ) (vs : Kdbs)
      → encode (list attr vs) ++ rest
        ≡ i8typ KdbType.list
          ∷ (le_bytes 1 attr ++ (le_bytes 4 (size vs) ++ (concat (all_chunks vs) ++ rest)))
  unfolding encode chunks
  encode-list attr vs = refl

  pub encode-dict :
      (k v : Kdb)
      → encode (dict k v) ++ rest ≡ i8typ KdbType.dict ∷ (encode k ++ (encode v ++ rest))
  unfolding encode chunks
  encode-dict k v =
      ap (λ b. i8typ KdbType.dict ∷ (b ++ rest)) (concat-append (chunks k) (chunks v))
      ∙ ap (λ b. i8typ KdbType.dict ∷ b) (append_assoc (encode k) (encode v) rest)

  pub encode-table :
      (cols : SymbolVector) (attr : ℕ) (vs : Kdbs)
      → encode (table cols attr vs) ++ rest
        ≡ i8typ KdbType.table ∷ (0 ∷ (encode (dict (symbol_vector cols) (list attr vs)) ++ rest))
  unfolding encode chunks
  encode-table cols attr vs = refl

pub wire_sz-table :
    (cols : SymbolVector) (attr : ℕ) (vs : Kdbs)
    → 2 + wire_sz (dict (symbol_vector cols) (list attr vs)) ≡ wire_sz (table cols attr vs)
unfolding wire_sz
wire_sz-table cols attr vs = omega arith

pub wire_sz_pos : (v : Kdb) → 1 ≤ wire_sz v
unfolding wire_sz
wire_sz_pos (atom e val) = omega arith
wire_sz_pos _ = omega arith

-- An element of a list at the offset `off`, and what stands behind it.
pub element_at :
    (v : Kdb) (vs : Kdbs) (off : ℕ) (src rest : List ℕ)
    → drop off src ≡ concat (all_chunks (cons v vs)) ++ rest
    → drop off src ≡ encode v ++ (concat (all_chunks vs) ++ rest)
unfolding all_chunks encode
element_at v vs off src rest d =
    d
    ∙ ap (λ b. b ++ rest) (concat-append (chunks v) (all_chunks vs))
    ∙ append_assoc (concat (chunks v)) (concat (all_chunks vs)) rest

pub element_behind :
    (v : Kdb) (behind : List ℕ) (off : ℕ) (src : List ℕ)
    → drop off src ≡ encode v ++ behind
    → drop (off + wire_sz v) src ≡ behind
element_behind v behind off src d =
    ap (λ n. drop (off + n) src) (wire_sz-eq-length-encode v) ∙ drop-on off src (encode v) behind d
