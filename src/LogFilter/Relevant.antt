-- ===== src/LogFilter/Relevant.antt =====
-- `mg_chk_msg` (log_filter/src/log_filter.c) on what the writer sends.
use mgkdb.Prelude.{
  ℕ, suc, ◌+◌, ◌*◌, ◌%◌, ◌^◌, ◌≤◌, ◌<◌, ◌≡◌, refl, ap, ◌∙◌, Bool, true, false, ◌&&◌, ◌||◌, some,
  List, ◌∷◌, ◌++◌, length, length-append, concat, drop, All, ◌==◌, if◌then◌else◌, arith,
}
use mgkdb.Prelude.Int.{ℤ, pos, negsuc, ◌+ℤ◌}
use mgkdb.Prelude.Bytes.{le_bytes}
use mgkdb.Ipc.Types.{KdbType, Elem, i8typ, atom_type, vector_type, elem_size}
use mgkdb.Ipc.Object.{
  SymbolVector, Kdb, exception, atom, symbol_atom, vector, symbol_vector, list, table, dict,
  function, primitive, projection, Kdbs, nil, cons, size, wire_sz, wire_szs, vec_wire_sz,
}
use mgkdb.Ipc.Write.Encode.{cells, all_chunks, encode}
use mgkdb.Ipc.Write.Size.{wire_sz-eq-length-encode}
use mgkdb.Ipc.Payload.Encoded.{IsText, IsSymbols}
use mgkdb.LogFilter.Memory.{Case, fixed, case_of, Vec, vec_end, read_vec, elems, syms}
use mgkdb.LogFilter.Check.{
  got, matches, mark, check_symbol, check_vector, advance, and_then, check_loop, check_list,
  check_case, check, check_msg,
}
use mgkdb.LogFilter.Same.{end_of, read_vec_old_lem}
use mgkdb.LogFilter.Messages.{IsNoGuid, IsLogged, AreLogged, cut, contains, is_relevant}
use mgkdb.LogFilter.Hits.{or_false, or_assoc, hits, hits_all, hits-is_relevant}
use mgkdb.LogFilter.Vectors.{strlen_lem, matches_lem, vec_hdr_lem, read_vec-elems, read_vec-syms}
use mgkdb.LogFilter.Shapes.{
  from_suc, case_of-atom, case_of-vector, encode-atom, encode-symbol_atom, encode-vector,
  encode-symbol_vector, encode-list, encode-dict, encode-table, wire_sz-table, wire_sz_pos,
  element_at, element_behind,
}

pub level_up : (n : ℕ) → pos n +ℤ pos 1 ≡ pos (suc n)
unfolding ◌+ℤ◌
level_up n = ground arith

module _ (names : List (List ℕ)) where
  -- The check of the object's bytes at the level `n`, which is one above the caller's.
  abbrev pub Finds : Kdb → ℕ → Type 0
  Finds v fuel =
      (rest : List ℕ) (r : Bool) (level : ℤ) (n i : ℕ)
      → level +ℤ pos 1 ≡ pos n
      → check names fuel (encode v ++ rest) r level i ≡ got (wire_sz v) (r || hits names n i v)

  abbrev FindsAll : Kdbs → ℕ → Type 0
  FindsAll vs fuel =
      (off : ℕ) (src rest : List ℕ) (r : Bool) (n i : ℕ)
      → drop off src ≡ concat (all_chunks vs) ++ rest
      → check_loop names (λ s r' l j. check names fuel s r' l j) (size vs) i off src r (pos n)
        ≡ got (off + wire_szs vs) (r || hits_all names (suc n) i vs)

  -- Behind the switch.
  pub check-case :
      (fuel typ : ℕ) (c : Case) (src : List ℕ) (r : Bool) (level : ℤ) (n i : ℕ)
      → case_of typ ≡ c
      → level +ℤ pos 1 ≡ pos n
      → check names (suc fuel) (typ ∷ src) r level i
        ≡ check_case names (λ s r' l j. check names fuel s r' l j) c typ (typ ∷ src) r (pos n) i
  unfolding check
  check-case fuel typ c src r level n i e up =
      ap
        (λ c'.
          check_case names (λ s r' l j. check names fuel s r' l j) c' typ (typ ∷ src) r
            (level +ℤ pos 1) i)
        e
      ∙ ap (λ l. check_case names (λ s r' l j. check names fuel s r' l j) c typ (typ ∷ src) r l i)
          up

  Finds-atom : (fuel : ℕ) (e : Elem) (val : ℕ) → Finds (atom e val) (suc fuel)
  unfolding wire_sz hits
  Finds-atom fuel e val rest r level n i up =
      ap (λ s. check names (suc fuel) s r level i) (encode-atom rest e val)
      ∙ check-case fuel (i8typ (atom_type e)) (fixed (elem_size e))
          (le_bytes (elem_size e) val ++ rest) r level n i (case_of-atom e) up
      ∙ ap (got (1 + elem_size e)) (or_false r)

  mark_lem :
      (s rest : List ℕ) (r : Bool) (n i : ℕ)
      → All (All IsText) names
      → All IsText s
      → mark names (s ++ (0 ∷ rest)) r (pos n) i (length s)
        ≡ (r || (if n == 1 && i == 1 then contains names s else false))
  mark_lem s rest r n i p t = at_level (n == 1 && i == 1)
    where
      at_level :
          (b : Bool)
          → (if b then matches names (s ++ (0 ∷ rest)) (length s) r else r)
            ≡ (r || (if b then contains names s else false))
      at_level true = matches_lem names s rest r p t
      at_level false = or_false r

  Finds-symbol_atom :
      (fuel : ℕ) (s : List ℕ)
      → All (All IsText) names
      → All IsText s
      → Finds (symbol_atom s) (suc fuel)
  unfolding wire_sz hits case_of
  Finds-symbol_atom fuel s p t rest r level n i up =
      ap (λ b. check names (suc fuel) b r level i) (encode-symbol_atom rest s)
      ∙ check-case fuel (i8typ KdbType.symbol_atom) Case.symbol (s ++ (0 ∷ rest)) r level n i refl
          up
      ∙ ap (check_symbol names (s ++ (0 ∷ rest)) r (pos n) i) (strlen_lem s rest t)
      ∙ ap (got (1 + (1 + length s))) (mark_lem s rest r n i p t)
      ∙ ap (λ l. got l (r || (if n == 1 && i == 1 then contains names s else false))) (omega arith)

  check-vector :
      (fuel typ : ℕ) (src : List ℕ) (v : Vec) (r : Bool) (level : ℤ) (n i : ℕ)
      → case_of typ ≡ Case.vector
      → read_vec typ src ≡ some v
      → level +ℤ pos 1 ≡ pos n
      → check names (suc fuel) (typ ∷ src) r level i ≡ got (1 + vec_end v) (r || false)
  check-vector fuel typ src v r level n i e found up =
      check-case fuel typ Case.vector src r level n i e up
      ∙ ap (check_vector r) (read_vec_old_lem typ src)
      ∙ ap (λ o. check_vector r (end_of o)) found
      ∙ ap (got (1 + vec_end v)) (or_false r)

  Finds-vector :
      (fuel : ℕ) (e : Elem) (attr : ℕ) (xs : List ℕ)
      → IsNoGuid e
      → length xs * elem_size e < 2 ^ 31
      → Finds (vector e attr xs) (suc fuel)
  unfolding wire_sz vec_wire_sz hits
  Finds-vector fuel e attr xs g h rest r level n i up =
      ap (λ s. check names (suc fuel) s r level i) (encode-vector rest e attr xs)
      ∙ check-vector fuel (i8typ (vector_type e))
          (le_bytes 1 attr ++ (le_bytes 4 (length xs) ++ (concat (cells (elem_size e) xs) ++ rest)))
          (elems (attr % 256) (length xs) (concat (cells (elem_size e) xs))
            (5 + length xs * elem_size e))
          r level n i (case_of-vector e g) (read_vec-elems e attr xs rest h) up
      ∙ ap (λ l. got l (r || false)) (omega arith)

  Finds-symbol_vector :
      (fuel : ℕ) (s : SymbolVector) → IsSymbols s → Finds (symbol_vector s) (suc fuel)
  unfolding wire_sz hits case_of
  Finds-symbol_vector fuel s h rest r level n i up =
      ap (λ b. check names (suc fuel) b r level i) (encode-symbol_vector rest s)
      ∙ check-vector fuel (i8typ KdbType.symbol_vector)
          (le_bytes 1 s.m_attr
            ++ (le_bytes 4 (length s.m_locs) ++ (concat (cells 1 s.m_data) ++ rest)))
          (syms (s.m_attr % 256) (cut s.m_data) (5 + length s.m_data)) r level n i refl
          (read_vec-syms s rest h) up
      ∙ ap (λ l. got l (r || false)) (omega arith)

  Finds-list :
      (fuel attr : ℕ) (vs : Kdbs)
      → size vs < 2 ^ 31
      → FindsAll vs fuel
      → Finds (list attr vs) (suc fuel)
  unfolding wire_sz case_of hits
  Finds-list fuel attr vs few all rest r level n i up =
      let body : List ℕ =
        le_bytes 1 attr ++ (le_bytes 4 (size vs) ++ (concat (all_chunks vs) ++ rest)) in
      ap (λ b. check names (suc fuel) b r level i) (encode-list rest attr vs)
      ∙ check-case fuel (i8typ KdbType.list) Case.list body r level n i refl up
      ∙ ap
          (check_list names (λ s r' l j. check names fuel s r' l j) (i8typ KdbType.list ∷ body) r
            (pos n))
          (vec_hdr_lem attr (size vs) (concat (all_chunks vs) ++ rest) few)
      ∙ all 6 (i8typ KdbType.list ∷ body) rest r n 0 refl

  FindsAll-nil : (fuel : ℕ) → FindsAll nil fuel
  unfolding check_loop wire_szs hits_all
  FindsAll-nil fuel off src rest r n i d =
      ap (got off) (or_false r) ∙ ap (λ l. got l (r || false)) (omega arith)

  FindsAll-cons :
      (fuel : ℕ) (v : Kdb) (vs : Kdbs) → Finds v fuel → FindsAll vs fuel → FindsAll (cons v vs) fuel
  unfolding check_loop wire_szs hits_all
  FindsAll-cons fuel v vs one more off src rest r n i d =
      let behind : List ℕ = concat (all_chunks vs) ++ rest in
      let here : drop off src ≡ encode v ++ behind = element_at v vs off src rest d in
      let next = λ (l : ℕ) (r' : Bool).
        check_loop names (λ s r' l j. check names fuel s r' l j) (size vs) (i + 1) (off + l) src r'
          (pos n) in
      ap (λ s. and_then (check names fuel s r (pos n) i) next) here
      ∙ ap (λ m. and_then m next) (one behind r (pos n) (suc n) i (level_up n))
      ∙ more (off + wire_sz v) src rest (r || hits names (suc n) i v) n (i + 1)
          (element_behind v behind off src here)
      ∙ ap (got (off + wire_sz v + wire_szs vs))
          (or_assoc r (hits names (suc n) i v) (hits_all names (suc n) (i + 1) vs))
      ∙ ap (λ l. got l (r || (hits names (suc n) i v || hits_all names (suc n) (i + 1) vs)))
          (omega arith)

  Finds-dict : (fuel : ℕ) (k v : Kdb) → Finds k fuel → Finds v fuel → Finds (dict k v) (suc fuel)
  unfolding wire_sz case_of hits
  Finds-dict fuel k v first then' rest r level n i up =
      let src : List ℕ = i8typ KdbType.dict ∷ (encode k ++ (encode v ++ rest)) in
      let next =
        λ (l : ℕ) (r' : Bool). advance (1 + l) (check names fuel (drop (1 + l) src) r' (pos n) 1) in
      let r' : Bool = r || hits names (suc n) 0 k in
      ap (λ b. check names (suc fuel) b r level i) (encode-dict rest k v)
      ∙ check-case fuel (i8typ KdbType.dict) Case.dict (encode k ++ (encode v ++ rest)) r level n i
          refl up
      ∙ ap (λ m. and_then m next) (first (encode v ++ rest) r (pos n) (suc n) 0 (level_up n))
      ∙ ap (λ s. advance (1 + wire_sz k) (check names fuel s r' (pos n) 1))
          (element_behind k (encode v ++ rest) 1 src refl)
      ∙ ap (advance (1 + wire_sz k)) (then' rest r' (pos n) (suc n) 1 (level_up n))
      ∙ ap (got (1 + wire_sz k + wire_sz v))
          (or_assoc r (hits names (suc n) 0 k) (hits names (suc n) 1 v))

  Finds-table :
      (fuel : ℕ) (cols : SymbolVector) (attr : ℕ) (vs : Kdbs)
      → Finds (dict (symbol_vector cols) (list attr vs)) fuel
      → Finds (table cols attr vs) (suc fuel)
  unfolding case_of hits
  Finds-table fuel cols attr vs inner rest r level n i up =
      ap (λ b. check names (suc fuel) b r level i) (encode-table rest cols attr vs)
      ∙ check-case fuel (i8typ KdbType.table) Case.table
          (0 ∷ (encode (dict (symbol_vector cols) (list attr vs)) ++ rest)) r level n i refl up
      ∙ ap (advance 2) (inner rest r (pos n) (suc n) 0 (level_up n))
      ∙ ap (λ l. got l (r || hits_all names (suc (suc (suc n))) 0 vs)) (wire_sz-table cols attr vs)

  module _ (p : All (All IsText) names) where
    mutual
      unfolding wire_sz wire_szs

      pub finds : (v : Kdb) (fuel : ℕ) → IsLogged v → wire_sz v ≤ fuel → Finds v fuel
      finds (exception msg) fuel m h = elim m [ ]
      finds (atom e val) fuel m h =
          from_suc (Finds (atom e val)) fuel (omega arith) (λ f _. Finds-atom f e val)
      finds (symbol_atom val) fuel m h =
          from_suc (Finds (symbol_atom val)) fuel (omega arith) (λ f _. Finds-symbol_atom f val p m)
      finds (vector e attr xs) fuel (g, m) h =
          from_suc (Finds (vector e attr xs)) fuel (omega (arith, wire_sz_pos (vector e attr xs)))
            (λ f _. Finds-vector f e attr xs g m)
      finds (symbol_vector s) fuel m h =
          from_suc (Finds (symbol_vector s)) fuel (omega arith) (λ f _. Finds-symbol_vector f s m)
      finds (list attr vs) fuel (n, m) h =
          from_suc (Finds (list attr vs)) fuel (omega arith)
            (λ f e. Finds-list f attr vs n (finds_all vs f m (omega (arith, e))))
      finds (table cols attr vs) fuel (c, n, m) h =
          from_suc (Finds (table cols attr vs)) fuel (omega arith) (λ f e.
            Finds-table f cols attr vs (
              from_suc (Finds (dict (symbol_vector cols) (list attr vs))) f (omega (arith, e))
                (λ g e'.
                  Finds-dict g (symbol_vector cols) (list attr vs)
                    (from_suc (Finds (symbol_vector cols)) g (omega (arith, e, e'))
                      (λ i _. Finds-symbol_vector i cols c))
                    (from_suc (Finds (list attr vs)) g (omega (arith, e, e')) (λ i e''.
                      Finds-list i attr vs n (finds_all vs i m (omega (arith, e, e', e''))))))))
      finds (dict k v) fuel (mk, mv) h = from_suc (Finds (dict k v)) fuel (omega arith) (λ f e.
          Finds-dict f k v (finds k f mk (omega (arith, e))) (finds v f mv (omega (arith, e))))
      finds (function vec) fuel m h = elim m [ ]
      finds (primitive q val) fuel m h = elim m [ ]
      finds (projection vs) fuel m h = elim m [ ]

      finds_all : (vs : Kdbs) (fuel : ℕ) → AreLogged vs → wire_szs vs ≤ fuel → FindsAll vs fuel
      finds_all nil fuel m h = FindsAll-nil fuel
      finds_all (cons v vs) fuel (m, ms) h =
          FindsAll-cons fuel v vs (finds v fuel m (omega arith))
            (finds_all vs fuel ms (omega arith))

-- On a supported message that the writer sends, with anything behind it in the memory, `mg_chk_msg`
-- returns the message's `wireSz`, and finds it relevant exactly when it is for one of the tables.
pub check_msg-encode :
    (names : List (List ℕ)) (v : Kdb) (rest : List ℕ)
    → All (All IsText) names
    → IsLogged v
    → check_msg names (encode v ++ rest) ≡ got (wire_sz v) (is_relevant names v)
unfolding check_msg ◌+ℤ◌
check_msg-encode names v rest p m =
    finds names p v (suc (length (encode v ++ rest))) m
      (omega (arith, wire_sz-eq-length-encode v, length-append (encode v) rest)) rest false
      (negsuc 0) 0 0 refl
    ∙ ap (got (wire_sz v)) (hits-is_relevant names v)
