-- ===== src/LogFilter/Built.antt =====
-- `mg_reify_msg` (log_filter/src/log_filter.c) on what the writer sends.
use mgkdb.Prelude.{
  ℕ, suc, ◌+◌, ◌*◌, ◌%◌, ◌^◌, ◌≤◌, ◌<◌, ◌≡◌, refl, sym, ap, ◌∙◌, false, some, List, [], ◌∷◌, ◌++◌,
  length, length-append, take, take-append_length, concat, drop, All, ltb, arith,
}
use mgkdb.Prelude.Bytes.{le_bytes, le_value, length-le_bytes, le_value-le_bytes}
use mgkdb.Ipc.Types.{KdbType, Elem, i8typ, atom_type, vector_type, elem_size}
use mgkdb.Ipc.Object.{
  SymbolVector, Kdb, exception, atom, symbol_atom, vector, symbol_vector, list, table, dict,
  function, primitive, projection, Kdbs, nil, cons, size, wire_sz, wire_szs, vec_wire_sz,
}
use mgkdb.Ipc.Write.Encode.{cells, all_chunks, encode}
use mgkdb.Ipc.Payload.Encoded.{IsText, IsSymbols}
use mgkdb.LogFilter.Memory.{Case, fixed, case_of, Vec, vec_end, read_vec, elems, syms}
use mgkdb.LogFilter.Same.{reify_case_of-eq-case_of}
use mgkdb.LogFilter.Reify.{
  Kx, made, made_list, and_make, and_list, add_elem, of_list, atom_of, make_fixed, make_symbol,
  make_vector, make_list, vec_of, reify_loop, reify_case, reify,
}
use mgkdb.LogFilter.Messages.{
  IsNoGuid, IsLogged, AreLogged, cut, build_atom, build_symbols, build, builds,
}
use mgkdb.LogFilter.Vectors.{strlen_lem, vec_hdr_lem, read_vec-elems, read_vec-syms}
use mgkdb.LogFilter.Shapes.{
  from_suc, case_of-atom, case_of-vector, encode-atom, encode-symbol_atom, encode-vector,
  encode-symbol_vector, encode-list, encode-dict, encode-table, wire_sz-table, wire_sz_pos,
  element_at, element_behind,
}

module _ (kx : Kx) where
  open kx use {K, ka, ku, ks, ktn, ktn_syms, ktn_list, x_t, x_d}

  -- The object is made of the message's bytes, whatever stands behind them.
  abbrev Reads : Kdb → ℕ → Type 0
  Reads v fuel = (rest : List ℕ) → reify kx fuel (encode v ++ rest) ≡ made (wire_sz v) (build kx v)

  abbrev ReadsAll : Kdbs → ℕ → Type 0
  ReadsAll vs fuel =
      (off : ℕ) (src rest : List ℕ)
      → drop off src ≡ concat (all_chunks vs) ++ rest
      → reify_loop kx (λ s. reify kx fuel s) (size vs) off src
        ≡ made_list (off + wire_szs vs) (builds kx vs)

  -- Behind the switch.
  reify-case :
      (fuel typ : ℕ) (c : Case) (src : List ℕ)
      → case_of typ ≡ c
      → reify kx (suc fuel) (typ ∷ src) ≡ reify_case kx (λ s. reify kx fuel s) c typ (typ ∷ src)
  unfolding reify
  reify-case fuel typ c src e =
      ap (λ c'. reify_case kx (λ s. reify kx fuel s) c' typ (typ ∷ src))
        (reify_case_of-eq-case_of typ ∙ e)

  make_fixed_lem :
      (w typ val : ℕ) (rest : List ℕ)
      → val < 256 ^ w
      → make_fixed kx w typ (le_bytes w val ++ rest) ≡ made (1 + w) (atom_of kx w typ val)
  make_fixed_lem w typ val rest h =
      let len : length (le_bytes w val) ≡ w = length-le_bytes w val in
      let all : ltb (length (le_bytes w val ++ rest)) w ≡ false =
        ground (arith, length-append {0} (le_bytes w val) rest, len) in
      let bytes : take w (le_bytes w val ++ rest) ≡ le_bytes w val =
        ap (λ k. take k (le_bytes w val ++ rest)) (sym len)
        ∙ take-append_length (le_bytes w val) rest in
      rw all (
        ap (λ b. made (1 + w) (atom_of kx w typ (le_value b))) bytes
        ∙ ap (λ n. made (1 + w) (atom_of kx w typ n)) (le_value-le_bytes w val h))

  atom_of_lem :
      (e : Elem) (val : ℕ)
      → atom_of kx (elem_size e) (i8typ (atom_type e)) val ≡ build_atom kx e val
  atom_of_lem Elem.time val = refl
  atom_of_lem _ val = refl

  Reads-atom :
      (fuel : ℕ) (e : Elem) (val : ℕ) → val < 256 ^ elem_size e → Reads (atom e val) (suc fuel)
  unfolding wire_sz
  Reads-atom fuel e val h rest =
      ap (reify kx (suc fuel)) (encode-atom rest e val)
      ∙ reify-case fuel (i8typ (atom_type e)) (fixed (elem_size e))
          (le_bytes (elem_size e) val ++ rest) (case_of-atom e)
      ∙ make_fixed_lem (elem_size e) (i8typ (atom_type e)) val rest h
      ∙ ap (made (1 + elem_size e)) (atom_of_lem e val)

  Reads-symbol_atom : (fuel : ℕ) (s : List ℕ) → All IsText s → Reads (symbol_atom s) (suc fuel)
  unfolding wire_sz case_of
  Reads-symbol_atom fuel s t rest =
      ap (reify kx (suc fuel)) (encode-symbol_atom rest s)
      ∙ reify-case fuel (i8typ KdbType.symbol_atom) Case.symbol (s ++ (0 ∷ rest)) refl
      ∙ ap (make_symbol kx (s ++ (0 ∷ rest))) (strlen_lem s rest t)
      ∙ ap (λ txt. made (1 + length s + 1) (ks txt)) (take-append_length s (0 ∷ rest))

  reify-vector :
      (fuel typ : ℕ) (src : List ℕ) (v : Vec)
      → case_of typ ≡ Case.vector
      → read_vec typ src ≡ some v
      → reify kx (suc fuel) (typ ∷ src) ≡ made (1 + vec_end v) (vec_of kx typ v)
  reify-vector fuel typ src v e r =
      reify-case fuel typ Case.vector src e ∙ ap (make_vector kx typ) r

  Reads-vector :
      (fuel : ℕ) (e : Elem) (attr : ℕ) (xs : List ℕ)
      → IsNoGuid e
      → length xs * elem_size e < 2 ^ 31
      → Reads (vector e attr xs) (suc fuel)
  unfolding wire_sz vec_wire_sz
  Reads-vector fuel e attr xs g h rest =
      ap (reify kx (suc fuel)) (encode-vector rest e attr xs)
      ∙ reify-vector fuel (i8typ (vector_type e))
          (le_bytes 1 attr ++ (le_bytes 4 (length xs) ++ (concat (cells (elem_size e) xs) ++ rest)))
          (elems (attr % 256) (length xs) (concat (cells (elem_size e) xs))
            (5 + length xs * elem_size e))
          (case_of-vector e g) (read_vec-elems e attr xs rest h)
      ∙ ap (λ n. made n (build kx (vector e attr xs))) (omega arith)

  Reads-symbol_vector :
      (fuel : ℕ) (s : SymbolVector) → IsSymbols s → Reads (symbol_vector s) (suc fuel)
  unfolding wire_sz case_of
  Reads-symbol_vector fuel s h rest =
      ap (reify kx (suc fuel)) (encode-symbol_vector rest s)
      ∙ reify-vector fuel (i8typ KdbType.symbol_vector)
          (le_bytes 1 s.m_attr
            ++ (le_bytes 4 (length s.m_locs) ++ (concat (cells 1 s.m_data) ++ rest)))
          (syms (s.m_attr % 256) (cut s.m_data) (5 + length s.m_data)) refl (read_vec-syms s rest h)
      ∙ ap (λ n. made n (build_symbols kx s)) (omega arith)

  Reads-list :
      (fuel attr : ℕ) (vs : Kdbs)
      → size vs < 2 ^ 31
      → ReadsAll vs fuel
      → Reads (list attr vs) (suc fuel)
  unfolding wire_sz case_of
  Reads-list fuel attr vs n all rest =
      let body : List ℕ =
        le_bytes 1 attr ++ (le_bytes 4 (size vs) ++ (concat (all_chunks vs) ++ rest)) in
      ap (reify kx (suc fuel)) (encode-list rest attr vs)
      ∙ reify-case fuel (i8typ KdbType.list) Case.list body refl
      ∙ ap (make_list kx (λ s. reify kx fuel s) (i8typ KdbType.list ∷ body))
          (vec_hdr_lem attr (size vs) (concat (all_chunks vs) ++ rest) n)
      ∙ ap (of_list kx (attr % 256)) (all 6 (i8typ KdbType.list ∷ body) rest refl)

  ReadsAll-nil : (fuel : ℕ) → ReadsAll nil fuel
  unfolding reify_loop wire_szs
  ReadsAll-nil fuel off src rest d = ap (λ n. made_list n []) (omega arith)

  ReadsAll-cons :
      (fuel : ℕ) (v : Kdb) (vs : Kdbs) → Reads v fuel → ReadsAll vs fuel → ReadsAll (cons v vs) fuel
  unfolding reify_loop wire_szs
  ReadsAll-cons fuel v vs one more off src rest d =
      let behind : List ℕ = concat (all_chunks vs) ++ rest in
      let here : drop off src ≡ encode v ++ behind = element_at v vs off src rest d in
      ap
        (λ s.
          and_list kx (reify kx fuel s)
            (λ l k. add_elem kx k (reify_loop kx (λ s. reify kx fuel s) (size vs) (off + l) src)))
        here
      ∙ ap
          (λ m.
            and_list kx m
              (λ l k. add_elem kx k (reify_loop kx (λ s. reify kx fuel s) (size vs) (off + l) src)))
          (one behind)
      ∙ ap (add_elem kx (build kx v))
          (more (off + wire_sz v) src rest (element_behind v behind off src here))
      ∙ ap (λ n. made_list n (builds kx (cons v vs))) (omega arith)

  Reads-dict : (fuel : ℕ) (k v : Kdb) → Reads k fuel → Reads v fuel → Reads (dict k v) (suc fuel)
  unfolding wire_sz case_of
  Reads-dict fuel k v first then' rest =
      let src : List ℕ = i8typ KdbType.dict ∷ (encode k ++ (encode v ++ rest)) in
      let next = λ (l : ℕ) (o : K).
        and_make kx (reify kx fuel (drop (1 + l) src)) (λ m p. made (1 + l + m) (x_d o p)) in
      ap (reify kx (suc fuel)) (encode-dict rest k v)
      ∙ reify-case fuel (i8typ KdbType.dict) Case.dict (encode k ++ (encode v ++ rest)) refl
      ∙ ap (λ m. and_make kx m next) (first (encode v ++ rest))
      ∙ ap
          (λ s.
            and_make kx (reify kx fuel s) (λ m p. made (1 + wire_sz k + m) (x_d (build kx k) p)))
          (element_behind k (encode v ++ rest) 1 src refl)
      ∙ ap (λ r. and_make kx r (λ m p. made (1 + wire_sz k + m) (x_d (build kx k) p))) (then' rest)

  Reads-table :
      (fuel : ℕ) (cols : SymbolVector) (attr : ℕ) (vs : Kdbs)
      → Reads (dict (symbol_vector cols) (list attr vs)) fuel
      → Reads (table cols attr vs) (suc fuel)
  unfolding case_of
  Reads-table fuel cols attr vs inner rest =
      ap (reify kx (suc fuel)) (encode-table rest cols attr vs)
      ∙ reify-case fuel (i8typ KdbType.table) Case.table
          (0 ∷ (encode (dict (symbol_vector cols) (list attr vs)) ++ rest)) refl
      ∙ ap (λ m. and_make kx m (λ l k. made (2 + l) (x_t k))) (inner rest)
      ∙ ap (λ n. made n (build kx (table cols attr vs))) (wire_sz-table cols attr vs)

  mutual
    unfolding wire_sz wire_szs reify_loop all_chunks

    reads : (v : Kdb) (fuel : ℕ) → IsLogged v → wire_sz v ≤ fuel → Reads v fuel
    reads (exception msg) fuel m h = elim m [ ]
    reads (atom e val) fuel m h =
        from_suc (Reads (atom e val)) fuel (omega arith) (λ f _. Reads-atom f e val m)
    reads (symbol_atom val) fuel m h =
        from_suc (Reads (symbol_atom val)) fuel (omega arith) (λ f _. Reads-symbol_atom f val m)
    reads (vector e attr xs) fuel (g, m) h =
        from_suc (Reads (vector e attr xs)) fuel (omega (arith, wire_sz_pos (vector e attr xs)))
          (λ f _. Reads-vector f e attr xs g m)
    reads (symbol_vector s) fuel m h =
        from_suc (Reads (symbol_vector s)) fuel (omega arith) (λ f _. Reads-symbol_vector f s m)
    reads (list attr vs) fuel (n, m) h =
        from_suc (Reads (list attr vs)) fuel (omega arith)
          (λ f e. Reads-list f attr vs n (reads_all vs f m (omega (arith, e))))
    reads (table cols attr vs) fuel (c, n, m) h =
        from_suc (Reads (table cols attr vs)) fuel (omega arith) (λ f e.
          Reads-table f cols attr vs (
            from_suc (Reads (dict (symbol_vector cols) (list attr vs))) f (omega (arith, e))
              (λ g e'.
                Reads-dict g (symbol_vector cols) (list attr vs)
                  (from_suc (Reads (symbol_vector cols)) g (omega (arith, e, e'))
                    (λ i _. Reads-symbol_vector i cols c))
                  (from_suc (Reads (list attr vs)) g (omega (arith, e, e')) (λ i e''.
                    Reads-list i attr vs n (reads_all vs i m (omega (arith, e, e', e''))))))))
    reads (dict k v) fuel (mk, mv) h = from_suc (Reads (dict k v)) fuel (omega arith) (λ f e.
        Reads-dict f k v (reads k f mk (omega (arith, e))) (reads v f mv (omega (arith, e))))
    reads (function vec) fuel m h = elim m [ ]
    reads (primitive p val) fuel m h = elim m [ ]
    reads (projection vs) fuel m h = elim m [ ]

    reads_all : (vs : Kdbs) (fuel : ℕ) → AreLogged vs → wire_szs vs ≤ fuel → ReadsAll vs fuel
    reads_all nil fuel m h = ReadsAll-nil fuel
    reads_all (cons v vs) fuel (m, ms) h =
        ReadsAll-cons fuel v vs (reads v fuel m (omega arith)) (reads_all vs fuel ms (omega arith))

  -- Of a supported message that the writer sends, with anything behind it in the memory, `mg_reify_msg`
  -- makes the q object, and its result is the message's `wireSz`.
  pub reify-encode :
      (v : Kdb) (rest : List ℕ) (fuel : ℕ)
      → IsLogged v
      → wire_sz v ≤ fuel
      → reify kx fuel (encode v ++ rest) ≡ made (wire_sz v) (build kx v)
  reify-encode v rest fuel m h = reads v fuel m h rest
