-- ===== src/LogFilter/Aborts.antt =====
-- `mg_chk_msg` (log_filter/src/log_filter.c) on messages with a part that it has no case for.
use mgkdb.Prelude.{
  ℕ, suc, ◌+◌, ◌^◌, ◌≤◌, ◌<◌, ◌≡◌, refl, ap, ◌∙◌, ◌⊎◌, inl, inr, Bool, false, ◌||◌, List, ◌∷◌, ◌++◌,
  length, length-append, concat, drop, All, arith,
}
use mgkdb.Prelude.Int.{ℤ, pos, negsuc, ◌+ℤ◌}
use mgkdb.Prelude.Bytes.{le_bytes}
use mgkdb.Ipc.Types.{KdbType, Elem, Primitive, unary, binary, ternary, i8typ}
use mgkdb.Ipc.Object.{
  SymbolVector, Kdb, exception, atom, symbol_atom, vector, symbol_vector, list, table, dict,
  function, primitive, projection, Kdbs, nil, cons, size, wire_sz, wire_szs,
}
use mgkdb.Ipc.Write.Encode.{chunks, all_chunks, encode}
use mgkdb.Ipc.Write.Size.{wire_sz-eq-length-encode}
use mgkdb.Ipc.Payload.Encoded.{IsText, IsSymbols}
use mgkdb.LogFilter.Memory.{Case, case_of}
use mgkdb.LogFilter.Check.{aborted, advance, and_then, check_loop, check_list, check, check_msg}
use mgkdb.LogFilter.Messages.{IsLogged}
use mgkdb.LogFilter.Hits.{hits}
use mgkdb.LogFilter.Vectors.{vec_hdr_lem}
use mgkdb.LogFilter.Shapes.{
  from_suc, encode-list, encode-dict, encode-table, wire_sz_pos, element_at, element_behind,
}
use mgkdb.LogFilter.Relevant.{Finds, finds, check-case, level_up}

abbrev IsGuid : Elem → Type 0
IsGuid Elem.guid = Unit
IsGuid _ = ⊥

-- A part that the log filter does not support stands in the message, with supported parts only in
-- front of it: a vector of GUIDs, an exception, a function, a primitive or a projection.
abbrev mutual
  pub IsRefused : Kdb → Type 0
  IsRefused (exception msg) = Unit
  IsRefused (atom e val) = ⊥
  IsRefused (symbol_atom val) = ⊥
  IsRefused (vector e attr xs) = IsGuid e
  IsRefused (symbol_vector s) = ⊥
  IsRefused (list attr vs) = (size vs < 2 ^ 31) × AreRefused vs
  IsRefused (table cols attr vs) = IsSymbols cols × (size vs < 2 ^ 31) × AreRefused vs
  IsRefused (dict k v) = IsRefused k ⊎ (IsLogged k × IsRefused v)
  IsRefused (function vec) = Unit
  IsRefused (primitive p val) = Unit
  IsRefused (projection vs) = Unit

  pub AreRefused : Kdbs → Type 0
  AreRefused nil = ⊥
  AreRefused (cons v vs) = IsRefused v ⊎ (IsLogged v × AreRefused vs)

module _ (names : List (List ℕ)) where
  abbrev Aborts : Kdb → ℕ → Type 0
  Aborts v fuel =
      (rest : List ℕ) (r : Bool) (level : ℤ) (n i : ℕ)
      → level +ℤ pos 1 ≡ pos n
      → check names fuel (encode v ++ rest) r level i ≡ aborted

  abbrev AbortsIn : Kdbs → ℕ → Type 0
  AbortsIn vs fuel =
      (off : ℕ) (src rest : List ℕ) (r : Bool) (n i : ℕ)
      → drop off src ≡ concat (all_chunks vs) ++ rest
      → check_loop names (λ s r' l j. check names fuel s r' l j) (size vs) i off src r (pos n)
        ≡ aborted

  Aborts-exception : (fuel : ℕ) (msg : List ℕ) → Aborts (exception msg) (suc fuel)
  unfolding check case_of encode chunks
  Aborts-exception fuel msg rest r level n i up = refl

  Aborts-vector :
      (fuel : ℕ) (e : Elem) (attr : ℕ) (xs : List ℕ)
      → IsGuid e
      → Aborts (vector e attr xs) (suc fuel)
  unfolding check case_of encode chunks
  Aborts-vector fuel Elem.guid attr xs h rest r level n i up = refl
  Aborts-vector fuel _ attr xs h rest r level n i up = elim h [ ]

  Aborts-function : (fuel : ℕ) (vec : List ℕ) → Aborts (function vec) (suc fuel)
  unfolding check case_of encode chunks
  Aborts-function fuel vec rest r level n i up = refl

  Aborts-primitive : (fuel : ℕ) (p : Primitive) (val : ℕ) → Aborts (primitive p val) (suc fuel)
  unfolding check case_of encode chunks
  Aborts-primitive fuel unary val rest r level n i up = refl
  Aborts-primitive fuel binary val rest r level n i up = refl
  Aborts-primitive fuel ternary val rest r level n i up = refl

  Aborts-projection : (fuel : ℕ) (vs : Kdbs) → Aborts (projection vs) (suc fuel)
  unfolding check case_of encode chunks
  Aborts-projection fuel vs rest r level n i up = refl

  Aborts-list :
      (fuel attr : ℕ) (vs : Kdbs)
      → size vs < 2 ^ 31
      → AbortsIn vs fuel
      → Aborts (list attr vs) (suc fuel)
  unfolding case_of
  Aborts-list fuel attr vs few all rest r level n i up =
      let body : List ℕ =
        le_bytes 1 attr ++ (le_bytes 4 (size vs) ++ (concat (all_chunks vs) ++ rest)) in
      ap (λ b. check names (suc fuel) b r level i) (encode-list rest attr vs)
      ∙ check-case names fuel (i8typ KdbType.list) Case.list body r level n i refl up
      ∙ ap
          (check_list names (λ s r' l j. check names fuel s r' l j) (i8typ KdbType.list ∷ body) r
            (pos n))
          (vec_hdr_lem attr (size vs) (concat (all_chunks vs) ++ rest) few)
      ∙ all 6 (i8typ KdbType.list ∷ body) rest r n 0 refl

  AbortsIn-here : (fuel : ℕ) (v : Kdb) (vs : Kdbs) → Aborts v fuel → AbortsIn (cons v vs) fuel
  unfolding check_loop
  AbortsIn-here fuel v vs one off src rest r n i d =
      let next = λ (l : ℕ) (r' : Bool).
        check_loop names (λ s r' l j. check names fuel s r' l j) (size vs) (i + 1) (off + l) src r'
          (pos n) in
      ap (λ s. and_then (check names fuel s r (pos n) i) next) (element_at v vs off src rest d)
      ∙ ap (λ m. and_then m next)
          (one (concat (all_chunks vs) ++ rest) r (pos n) (suc n) i (level_up n))

  AbortsIn-later :
      (fuel : ℕ) (v : Kdb) (vs : Kdbs)
      → Finds names v fuel
      → AbortsIn vs fuel
      → AbortsIn (cons v vs) fuel
  unfolding check_loop
  AbortsIn-later fuel v vs one more off src rest r n i d =
      let behind : List ℕ = concat (all_chunks vs) ++ rest in
      let here : drop off src ≡ encode v ++ behind = element_at v vs off src rest d in
      let next = λ (l : ℕ) (r' : Bool).
        check_loop names (λ s r' l j. check names fuel s r' l j) (size vs) (i + 1) (off + l) src r'
          (pos n) in
      ap (λ s. and_then (check names fuel s r (pos n) i) next) here
      ∙ ap (λ m. and_then m next) (one behind r (pos n) (suc n) i (level_up n))
      ∙ more (off + wire_sz v) src rest (r || hits names (suc n) i v) n (i + 1)
          (element_behind v behind off src here)

  Aborts-keys : (fuel : ℕ) (k v : Kdb) → Aborts k fuel → Aborts (dict k v) (suc fuel)
  unfolding case_of
  Aborts-keys fuel k v first rest r level n i up =
      let src : List ℕ = i8typ KdbType.dict ∷ (encode k ++ (encode v ++ rest)) in
      let next =
        λ (l : ℕ) (r' : Bool). advance (1 + l) (check names fuel (drop (1 + l) src) r' (pos n) 1) in
      ap (λ b. check names (suc fuel) b r level i) (encode-dict rest k v)
      ∙ check-case names fuel (i8typ KdbType.dict) Case.dict (encode k ++ (encode v ++ rest)) r
          level n i refl up
      ∙ ap (λ m. and_then m next) (first (encode v ++ rest) r (pos n) (suc n) 0 (level_up n))

  Aborts-values :
      (fuel : ℕ) (k v : Kdb) → Finds names k fuel → Aborts v fuel → Aborts (dict k v) (suc fuel)
  unfolding case_of
  Aborts-values fuel k v first then' rest r level n i up =
      let src : List ℕ = i8typ KdbType.dict ∷ (encode k ++ (encode v ++ rest)) in
      let next =
        λ (l : ℕ) (r' : Bool). advance (1 + l) (check names fuel (drop (1 + l) src) r' (pos n) 1) in
      let r' : Bool = r || hits names (suc n) 0 k in
      ap (λ b. check names (suc fuel) b r level i) (encode-dict rest k v)
      ∙ check-case names fuel (i8typ KdbType.dict) Case.dict (encode k ++ (encode v ++ rest)) r
          level n i refl up
      ∙ ap (λ m. and_then m next) (first (encode v ++ rest) r (pos n) (suc n) 0 (level_up n))
      ∙ ap (λ s. advance (1 + wire_sz k) (check names fuel s r' (pos n) 1))
          (element_behind k (encode v ++ rest) 1 src refl)
      ∙ ap (advance (1 + wire_sz k)) (then' rest r' (pos n) (suc n) 1 (level_up n))

  Aborts-table :
      (fuel : ℕ) (cols : SymbolVector) (attr : ℕ) (vs : Kdbs)
      → Aborts (dict (symbol_vector cols) (list attr vs)) fuel
      → Aborts (table cols attr vs) (suc fuel)
  unfolding case_of
  Aborts-table fuel cols attr vs inner rest r level n i up =
      ap (λ b. check names (suc fuel) b r level i) (encode-table rest cols attr vs)
      ∙ check-case names fuel (i8typ KdbType.table) Case.table
          (0 ∷ (encode (dict (symbol_vector cols) (list attr vs)) ++ rest)) r level n i refl up
      ∙ ap (advance 2) (inner rest r (pos n) (suc n) 0 (level_up n))

  module _ (p : All (All IsText) names) where
    mutual
      unfolding wire_sz wire_szs

      aborts : (v : Kdb) (fuel : ℕ) → IsRefused v → wire_sz v ≤ fuel → Aborts v fuel
      aborts (exception msg) fuel m h =
          from_suc (Aborts (exception msg)) fuel (omega arith) (λ f _. Aborts-exception f msg)
      aborts (atom e val) fuel m h = elim m [ ]
      aborts (symbol_atom val) fuel m h = elim m [ ]
      aborts (vector e attr xs) fuel m h =
          from_suc (Aborts (vector e attr xs)) fuel (omega (arith, wire_sz_pos (vector e attr xs)))
            (λ f _. Aborts-vector f e attr xs m)
      aborts (symbol_vector s) fuel m h = elim m [ ]
      aborts (list attr vs) fuel (n, m) h =
          from_suc (Aborts (list attr vs)) fuel (omega arith)
            (λ f e. Aborts-list f attr vs n (aborts_in vs f m (omega (arith, e))))
      aborts (table cols attr vs) fuel (c, n, m) h =
          from_suc (Aborts (table cols attr vs)) fuel (omega arith) (λ f e.
            Aborts-table f cols attr vs (
              from_suc (Aborts (dict (symbol_vector cols) (list attr vs))) f (omega (arith, e))
                (λ g e'.
                  Aborts-values g (symbol_vector cols) (list attr vs)
                    (finds names p (symbol_vector cols) g c (omega (arith, e, e')))
                    (from_suc (Aborts (list attr vs)) g (omega (arith, e, e')) (λ i e''.
                      Aborts-list i attr vs n (aborts_in vs i m (omega (arith, e, e', e''))))))))
      aborts (dict k v) fuel (inl m) h =
          from_suc (Aborts (dict k v)) fuel (omega arith)
            (λ f e. Aborts-keys f k v (aborts k f m (omega (arith, e))))
      aborts (dict k v) fuel (inr (mk, mv)) h =
          from_suc (Aborts (dict k v)) fuel (omega arith) (λ f e.
            Aborts-values f k v (finds names p k f mk (omega (arith, e)))
              (aborts v f mv (omega (arith, e))))
      aborts (function vec) fuel m h =
          from_suc (Aborts (function vec)) fuel (omega arith) (λ f _. Aborts-function f vec)
      aborts (primitive q val) fuel m h =
          from_suc (Aborts (primitive q val)) fuel (omega arith) (λ f _. Aborts-primitive f q val)
      aborts (projection vs) fuel m h =
          from_suc (Aborts (projection vs)) fuel (omega arith) (λ f _. Aborts-projection f vs)

      aborts_in : (vs : Kdbs) (fuel : ℕ) → AreRefused vs → wire_szs vs ≤ fuel → AbortsIn vs fuel
      aborts_in nil fuel m h = elim m [ ]
      aborts_in (cons v vs) fuel (inl m) h = AbortsIn-here fuel v vs (aborts v fuel m (omega arith))
      aborts_in (cons v vs) fuel (inr (m, ms)) h =
          AbortsIn-later fuel v vs (finds names p v fuel m (omega arith))
            (aborts_in vs fuel ms (omega arith))

-- On a message with a vector of GUIDs, an exception, a function, a primitive or a projection, and
-- supported parts only in front of it, `mg_chk_msg` aborts the process, whether or not the message
-- is for one of the tables.
pub check_msg-aborted :
    (names : List (List ℕ)) (v : Kdb) (rest : List ℕ)
    → All (All IsText) names
    → IsRefused v
    → check_msg names (encode v ++ rest) ≡ aborted
unfolding check_msg ◌+ℤ◌
check_msg-aborted names v rest p m =
    aborts names p v (suc (length (encode v ++ rest))) m
      (omega (arith, wire_sz-eq-length-encode v, length-append (encode v) rest)) rest false
      (negsuc 0) 0 0 refl
