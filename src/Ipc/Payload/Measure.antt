-- ===== src/Ipc/Payload/Measure.antt =====
-- `ipcPayloadLen` on any object that the writer produces and that it supports.
use mgkdb.Prelude.{
  ℕ, zero, suc, ◌+◌, ◌*◌, ◌^◌, ◌≤◌, ◌<◌, ◌≡◌, sym, ap, ◌∙◌, List, [], ◌∷◌, ◌++◌, All, ◌%◌, length,
  length-append, concat, arith,
}
use mgkdb.Prelude.Int.{pos}
use mgkdb.Prelude.Bytes.{le_bytes, length-le_bytes}
use mgkdb.Ipc.Types.{KdbType, Elem, i8typ, atom_type, elem_size}
use mgkdb.Ipc.Object.{
  SymbolVector, Kdb, exception, atom, symbol_atom, vector, symbol_vector, list, table, dict,
  function, primitive, projection, Kdbs, nil, cons, size, wire_sz,
}
use mgkdb.Ipc.Write.Encode.{cells, chunks, all_chunks, encode}
use mgkdb.Ipc.Write.Size.{concat-append, length-concat-cells, wire_sz-eq-length-encode}
use mgkdb.Ipc.Payload.{ret, ipc_payload_len}
use mgkdb.Ipc.Payload.Encoded.{
  IsText, IsMeasured, AreMeasured, depth, depths, atom_len, sym_atom_len, vector_len,
}
use mgkdb.Ipc.Payload.Walk.{
  Measures, MeasuresAll, append_nil, nil_lem, cons_lem, list_lem, symbols_lem, dict_lem, table_lem,
}

atom_case : (fuel : ℕ) (e : Elem) (val : ℕ) → Measures (suc fuel) (encode (atom e val))
unfolding encode chunks
atom_case fuel e val rest rem h small =
    let body : le_bytes (elem_size e) val ++ [] ≡ le_bytes (elem_size e) val =
      append_nil (le_bytes (elem_size e) val) in
    let full : length (le_bytes (elem_size e) val ++ []) ≡ elem_size e =
      ap (length {0}) body ∙ length-le_bytes (elem_size e) val in
    ap (λ b. ipc_payload_len (suc fuel) (i8typ (atom_type e) % 256 ∷ (b ++ rest)) rem) body
    ∙ atom_len fuel rest rem small e val (omega arith)
    ∙ ap (λ k. ret (pos (1 + k))) (sym full)
    ∙ ap (λ k. ret (pos k)) (omega arith)

symbol_atom_case :
    (fuel : ℕ) (s : List ℕ) → All IsText s → Measures (suc fuel) (encode (symbol_atom s))
unfolding encode chunks
symbol_atom_case fuel s t rest rem h small =
    let body : (s ++ (0 ∷ [])) ++ [] ≡ s ++ (0 ∷ []) = append_nil (s ++ (0 ∷ [])) in
    let len : length (s ++ (0 ∷ [])) ≡ length s + 1 = length-append s (0 ∷ []) in
    let full : length ((s ++ (0 ∷ [])) ++ []) ≡ length s + 1 = ap (length {0}) body ∙ len in
    ap (λ b. ipc_payload_len (suc fuel) (i8typ KdbType.symbol_atom % 256 ∷ (b ++ rest)) rem) body
    ∙ sym_atom_len fuel rest rem small s t (omega arith)
    ∙ ap (λ k. ret (pos (suc k))) (sym full)

vector_case :
    (fuel : ℕ) (e : Elem) (attr : ℕ) (xs : List ℕ)
    → length xs < 2 ^ 31
    → Measures (suc fuel) (encode (vector e attr xs))
unfolding encode chunks
vector_case fuel e attr xs n rest rem h small =
    let len : length (concat (cells (elem_size e) xs)) ≡ length xs * elem_size e =
      length-concat-cells (elem_size e) xs in
    vector_len fuel rest rem small e attr xs n (omega arith) ∙ ap (λ k. ret (pos k)) (omega arith)

absurd : {A : Type 0} → 1 ≤ 0 → A
absurd h = let no : ⊥ = omega arith in elim no [ ]

single_lem :
    (v : Kdb) (fuel : ℕ)
    → 1 ≤ fuel
    → ((f : ℕ) → Measures (suc f) (encode v))
    → Measures fuel (encode v)
single_lem v zero h m = absurd h
single_lem v (suc f) h m = m f

list_case :
    (fuel attr : ℕ) (vs : Kdbs)
    → size vs < 2 ^ 31
    → MeasuresAll fuel vs
    → Measures (suc fuel) (encode (list attr vs))
unfolding encode chunks
list_case fuel attr vs n all = list_lem fuel attr vs n all

-- Sizes of the parts.
length-encode_cons :
    (v : Kdb) (vs : Kdbs)
    → length (concat (all_chunks (cons v vs))) ≡ length (encode v) + length (concat (all_chunks vs))
unfolding all_chunks encode
length-encode_cons v vs =
    ap (length {0}) (concat-append (chunks v) (all_chunks vs))
    ∙ length-append (concat (chunks v)) (concat (all_chunks vs))

length-encode_list :
    (attr : ℕ) (vs : Kdbs) → length (encode (list attr vs)) ≡ 6 + length (concat (all_chunks vs))
unfolding encode chunks
length-encode_list attr vs = omega arith

length-encode_dict :
    (k v : Kdb) → length (encode (dict k v)) ≡ 1 + length (encode k) + length (encode v)
unfolding encode chunks
length-encode_dict k v =
    let e : length (concat (chunks k ++ chunks v))
        ≡ length (concat (chunks k)) + length (concat (chunks v)) =
      ap (length {0}) (concat-append (chunks k) (chunks v))
      ∙ length-append (concat (chunks k)) (concat (chunks v)) in
    omega arith

length-encode_table :
    (cols : SymbolVector) (attr : ℕ) (vs : Kdbs)
    → length (concat (all_chunks vs)) ≤ length (encode (table cols attr vs))
unfolding encode chunks
length-encode_table cols attr vs =
    let e = length-append (concat (chunks (symbol_vector cols))) (concat (chunks (list attr vs))) in
    let f = ap (length {0}) (concat-append (chunks (symbol_vector cols)) (chunks (list attr vs))) in
    omega arith

mutual
  pub measures :
      (v : Kdb) (fuel : ℕ)
      → IsMeasured v
      → depth v ≤ fuel
      → length (encode v) < 2 ^ 31
      → Measures fuel (encode v)
  measures (exception msg) fuel m d lt = elim m [ ]
  measures (atom e val) fuel m d lt = single_lem (atom e val) fuel d (λ f. atom_case f e val)
  measures (symbol_atom val) fuel m d lt =
      single_lem (symbol_atom val) fuel d (λ f. symbol_atom_case f val m)
  measures (vector e attr xs) fuel m d lt =
      single_lem (vector e attr xs) fuel d (λ f. vector_case f e attr xs m)
  measures (symbol_vector s) fuel m d lt =
      single_lem (symbol_vector s) fuel d (λ f. symbols_lem f s m)
  measures (list attr vs) zero m d lt = absurd (omega arith)
  measures (list attr vs) (suc fuel) (n, m) d lt =
      let len = length-encode_list attr vs in
      list_case fuel attr vs n (measures_all vs fuel m (omega arith) (omega arith))
  measures (table cols attr vs) zero m d lt = absurd (omega arith)
  measures (table cols attr vs) (suc zero) m d lt = absurd (omega arith)
  measures (table cols attr vs) (suc (suc fuel)) (c, n, m) d lt =
      let len = length-encode_table cols attr vs in
      table_lem fuel attr cols vs c n (measures_all vs fuel m (omega arith) (omega arith)) lt
  measures (dict k v) zero m d lt = absurd (omega arith)
  measures (dict k v) (suc fuel) (mk, mv) d lt =
      let len = length-encode_dict k v in
      dict_lem fuel k v (measures k fuel mk (omega arith) (omega arith))
        (measures v fuel mv (omega arith) (omega arith)) (omega arith)
  measures (function vec) fuel m d lt = elim m [ ]
  measures (primitive p val) fuel m d lt = elim m [ ]
  measures (projection vs) fuel m d lt = elim m [ ]

  measures_all :
      (vs : Kdbs) (fuel : ℕ)
      → AreMeasured vs
      → depths vs ≤ fuel
      → length (concat (all_chunks vs)) < 2 ^ 31
      → MeasuresAll fuel vs
  measures_all nil fuel m d lt = nil_lem fuel
  measures_all (cons v vs) fuel (m, ms) d lt =
      let len = length-encode_cons v vs in
      cons_lem fuel v vs (measures v fuel m (omega arith) (omega arith))
        (measures_all vs fuel ms (omega arith) (omega arith))

-- For every object of the supported kinds, whose encoding is shorter than 2^31 bytes and stands in
-- the `rem` bytes at the pointer, with anything behind it, `ipcPayloadLen` returns what `wireSz`
-- returns for the object, when the fuel is at least the object's depth.
pub ipc_payload_len-encode :
    (v : Kdb) (rest : List ℕ) (rem fuel : ℕ)
    → IsMeasured v
    → depth v ≤ fuel
    → length (encode v) < 2 ^ 31
    → length (encode v) ≤ rem
    → rem < 2 ^ 64
    → ipc_payload_len fuel (encode v ++ rest) rem ≡ ret (pos (wire_sz v))
ipc_payload_len-encode v rest rem fuel m d lt h small =
    measures v fuel m d lt rest rem h small
    ∙ ap (λ k. ret (pos k)) (sym (wire_sz-eq-length-encode v))
