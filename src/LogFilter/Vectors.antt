-- ===== src/LogFilter/Vectors.antt =====
-- `mg_read_vec` and the comparison of names (log_filter/src/log_filter.c) on bytes that the writer
-- sends.
use mgkdb.Prelude.{
  ℕ, zero, suc, ◌+◌, ◌*◌, ◌%◌, ◌^◌, ◌≤◌, ◌<◌, ◌≡◌, refl, sym, ap, ◌∙◌, Bool, true, false, ◌||◌,
  some, List, [], ◌∷◌, ◌++◌, append_assoc, length, length-append, take, take-append_length, concat,
  drop, All, ltb, leb, ◌==◌, if◌then◌else◌, arith,
}
use mgkdb.Prelude.Bytes.{le_bytes, le_value}
use mgkdb.Ipc.Types.{KdbType, Elem, i8typ, vector_type, elem_size}
use mgkdb.Ipc.Object.{SymbolVector}
use mgkdb.Ipc.Write.Encode.{cells}
use mgkdb.Ipc.Write.Size.{length-concat-cells}
use mgkdb.Ipc.Payload.Encoded.{IsText, Syms, no_syms, more_syms, IsSymbols, drop-on}
use mgkdb.Ipc.Payload.Walk.{concat-cells-Syms}
use mgkdb.Ipc.Symbols.{same_text}
use mgkdb.LogFilter.Memory.{
  strlen, strncmp_same, elem_sz, vec_hdr, vec_elems, vec_body, vec_syms, vec_behind, copied,
  add_text, sym_texts, elems, syms, read_vec,
}
use mgkdb.LogFilter.Check.{matches}
use mgkdb.LogFilter.Messages.{cut, contains}

pub strlen_lem : (s rest : List ℕ) → All IsText s → strlen (s ++ (0 ∷ rest)) ≡ some (length s)
unfolding strlen
strlen_lem [] rest t = refl
strlen_lem (b ∷ s) rest (p, t) =
    let e : (b == 0) ≡ false = ground arith in rw (e, strlen_lem s rest t)

cut-text : (s tail : List ℕ) → All IsText s → cut (s ++ (0 ∷ tail)) ≡ s ∷ cut tail
unfolding cut
cut-text [] tail t = refl
cut-text (b ∷ s) tail (p, t) = let e : (b == 0) ≡ false = ground arith in rw (e, cut-text s tail t)

-- The comparison of a C string with a text and its terminator, the terminator included.
strncmp_same_lem :
    (name s rest : List ℕ)
    → All IsText name
    → All IsText s
    → strncmp_same (suc (length s)) (name ++ (0 ∷ [])) (s ++ (0 ∷ rest)) ≡ same_text name s
unfolding strncmp_same
strncmp_same_lem [] [] rest p q = refl
strncmp_same_lem [] (y ∷ s) rest p (b, q) = let e : (0 == y) ≡ false = ground arith in rw e
strncmp_same_lem (x ∷ name) [] rest (a, p) q = let e : (x == 0) ≡ false = ground arith in rw e
strncmp_same_lem (x ∷ name) (y ∷ s) rest (a, p) (b, q) =
    let e : (x == 0) ≡ false = ground arith in
    rw (e, strncmp_same_lem name s rest p q) (ground arith)

one_name : (same r c : Bool) → ((if same then true else r) || c) ≡ (r || (same || c))
one_name true true c = refl
one_name true false c = refl
one_name false r c = refl

pub matches_lem :
    (names : List (List ℕ)) (s rest : List ℕ) (r : Bool)
    → All (All IsText) names
    → All IsText s
    → matches names (s ++ (0 ∷ rest)) (length s) r ≡ (r || contains names s)
unfolding matches contains
matches_lem [] s rest true p t = refl
matches_lem [] s rest false p t = refl
matches_lem (name ∷ names) s rest r (a, p) t =
    let one : length s + 1 ≡ suc (length s) = omega arith in
    rw (one, strncmp_same_lem name s rest a t)
      (matches_lem names s rest (if same_text name s then true else r) p t
        ∙ one_name (same_text name s) r (contains names s))

pub vec_hdr_lem :
    (attr n : ℕ) (behind : List ℕ)
    → n < 2 ^ 31
    → vec_hdr (le_bytes 1 attr ++ (le_bytes 4 n ++ behind))
      ≡ some (record { att = attr % 256; len = n })
unfolding vec_hdr
vec_hdr_lem attr n behind h =
    let v : le_value (le_bytes 4 n) ≡ n = omega arith in
    let e : ltb (4 + length behind) 4 ≡ false = ground arith in
    let l : suc (suc (suc (suc (length behind)))) ≡ 4 + length behind = omega arith in
    let few : leb (2 ^ 31) n ≡ false = ground arith in rw (l, e, v, few)

-- The loop over the symbols `bytes`, at the offset `off`.
sym_texts_lem :
    (n off : ℕ) (bytes src rest : List ℕ)
    → Syms n bytes
    → drop off src ≡ bytes ++ rest
    → sym_texts n off src ≡ some (record { texts = cut bytes; end = off + length bytes })
unfolding sym_texts cut
sym_texts_lem zero off bytes src rest no_syms d =
    ap (λ k. some (record { texts = []; end = k })) (omega arith)
sym_texts_lem (suc n) off bytes src rest (more_syms {bytes = tail} s t e m) d =
    let len : length bytes ≡ length s + suc (length tail) =
      ap (length {0}) e ∙ length-append s (0 ∷ tail) in
    let here : drop off src ≡ s ++ (0 ∷ (tail ++ rest)) =
      d ∙ ap (λ b. b ++ rest) e ∙ append_assoc s (0 ∷ tail) rest in
    let next : drop (off + (length s + 1)) src ≡ tail ++ rest =
      ap (λ k. drop (off + k) src) (sym (length-append s (0 ∷ [])))
      ∙ drop-on off src (s ++ (0 ∷ [])) (tail ++ rest)
          (here ∙ sym (append_assoc s (0 ∷ []) (tail ++ rest))) in
    let sum : off + (length s + 1) + length tail ≡ off + length bytes = omega arith in
    let texts' : s ∷ cut tail ≡ cut bytes = sym (ap cut e ∙ cut-text s tail t) in
    rw
      (
        here,
        strlen_lem s (tail ++ rest) t,
        here,
        take-append_length s (0 ∷ (tail ++ rest)),
        sym_texts,
      )
      (ap (add_text s) (sym_texts_lem n (off + (length s + 1)) tail src rest m next)
        ∙ ap (λ k. some (record { texts = s ∷ cut tail; end = k })) sum
        ∙ ap (λ ts. some (record { texts = ts; end = off + length bytes })) texts')

copied_lem :
    (n w : ℕ) (bytes rest : List ℕ)
    → n * w < 2 ^ 31
    → length bytes ≡ n * w
    → copied n w (bytes ++ rest) ≡ some bytes
unfolding copied
copied_lem n w bytes rest h e =
    let few : leb (2 ^ 31) (n * w) ≡ false = ground arith in
    let all : ltb (length (bytes ++ rest)) (n * w) ≡ false =
      ground (arith, length-append {0} bytes rest, e) in
    rw (few, all)
      (ap (λ k. some (take k (bytes ++ rest))) (sym e) ∙ ap some (take-append_length bytes rest))

elem_sz_lem : (e : Elem) → elem_sz (i8typ (vector_type e)) ≡ some (elem_size e)
unfolding elem_sz
elem_sz_lem Elem.time = refl
elem_sz_lem _ = refl

le_size : (e : Elem) (n : ℕ) → n ≤ n * elem_size e
le_size Elem.time n = omega arith
le_size _ n = omega arith

-- A written vector, from its attribute on.
pub read_vec-elems :
    (e : Elem) (attr : ℕ) (xs rest : List ℕ)
    → length xs * elem_size e < 2 ^ 31
    → read_vec
        (i8typ (vector_type e))
        (le_bytes 1 attr ++ (le_bytes 4 (length xs) ++ (concat (cells (elem_size e) xs) ++ rest)))
      ≡ some (
          elems
            (attr % 256)
            (length xs)
            (concat (cells (elem_size e) xs))
            (5 + length xs * elem_size e))
unfolding read_vec
read_vec-elems e attr xs rest h =
    let bytes : List ℕ = concat (cells (elem_size e) xs) in
    let src : List ℕ = le_bytes 1 attr ++ (le_bytes 4 (length xs) ++ (bytes ++ rest)) in
    ap (vec_behind (i8typ (vector_type e)) src)
      (vec_hdr_lem attr (length xs) (bytes ++ rest) (omega (arith, le_size e (length xs))))
    ∙ ap (λ w. vec_body (record { att = attr % 256; len = length xs }) w src) (elem_sz_lem e)
    ∙ ap (vec_elems (record { att = attr % 256; len = length xs }) (elem_size e))
        (copied_lem (length xs) (elem_size e) bytes rest h (length-concat-cells (elem_size e) xs))

-- A written symbol vector, from its attribute on.
pub read_vec-syms :
    (s : SymbolVector) (rest : List ℕ)
    → IsSymbols s
    → read_vec (i8typ KdbType.symbol_vector) (
        le_bytes 1 s.m_attr
        ++ (le_bytes 4 (length s.m_locs) ++ (concat (cells 1 s.m_data) ++ rest)))
      ≡ some (syms (s.m_attr % 256) (cut s.m_data) (5 + length s.m_data))
unfolding read_vec elem_sz
read_vec-syms s rest (m, n) =
    let bytes : List ℕ = concat (cells 1 s.m_data) in
    let src : List ℕ = le_bytes 1 s.m_attr ++ (le_bytes 4 (length s.m_locs) ++ (bytes ++ rest)) in
    ap (vec_behind (i8typ KdbType.symbol_vector) src)
      (vec_hdr_lem s.m_attr (length s.m_locs) (bytes ++ rest) n)
    ∙ ap (vec_syms (record { att = s.m_attr % 256; len = length s.m_locs })) (
        sym_texts_lem (length s.m_locs) 5 s.m_data src rest m
          (ap (λ b. b ++ rest) (concat-cells-Syms (length s.m_locs) s.m_data m)))
