-- ===== src/Ipc/Journal/Filter.antt =====
-- Which messages pass the filter on a function's and a table's name.
use mgkdb.Prelude.{
  ℕ, zero, suc, ◌+◌, ◌-◌, ◌^◌, ◌≤◌, ◌<◌, ◌≡◌, refl, sym, ap, ◌∙◌, true, false, ◌&&◌, Bool-cases,
  inl, inr, some, List, [], ◌∷◌, ◌++◌, append_assoc, length, length-append, take, drop,
  take-append_length, get_elem?, concat, All, ltb, leb, ◌==◌, if◌then◌else◌, arith,
}
use mgkdb.Ipc.Types.{KdbType, i8typ}
use mgkdb.Ipc.Object.{symbol_atom, list, Kdbs, cons, size}
use mgkdb.Ipc.Write.Encode.{hdr, chunks, all_chunks, encode}
use mgkdb.Ipc.Payload.{sub64, strnlen, hdr_len}
use mgkdb.Ipc.Payload.Encoded.{IsText, sub64_lem, strnlen_lem, drop-on, hdr_len_lem}
use mgkdb.Ipc.Journal.{to_i64, minus, same, find, table_matches, filter_upd_msg}

get_elem?-drop : (n : ℕ) (xs : List ℕ) → get_elem? xs n ≡ get_elem? (drop n xs) 0
get_elem?-drop zero xs = refl
get_elem?-drop (suc n) [] = refl
get_elem?-drop (suc n) (x ∷ xs) = get_elem?-drop n xs

-- Behind the function's name.
table_matches_lem :
    (src tbl tail : List ℕ) (len off : ℕ) (names : List (List ℕ))
    → drop off src ≡ 245 ∷ (tbl ++ (0 ∷ tail))
    → All IsText tbl
    → table_matches src len off names ≡ some (if find names tbl then to_i64 len else minus len)
unfolding table_matches
table_matches_lem src tbl tail len off names d t =
    let typ : get_elem? src off ≡ some 245 = get_elem?-drop off src ∙ ap (λ b. get_elem? b 0) d in
    let at : drop (off + 1) src ≡ tbl ++ (0 ∷ tail) =
      drop-on off src (245 ∷ []) (tbl ++ (0 ∷ tail)) d in
    let n : strnlen (tbl ++ (0 ∷ tail)) (suc (length (tbl ++ (0 ∷ tail)))) ≡ some (length tbl) =
      strnlen_lem tbl tail _ t (omega (arith, length-append tbl (0 ∷ tail))) in
    let name : take (length tbl) (tbl ++ (0 ∷ tail)) ≡ tbl = take-append_length tbl (0 ∷ tail) in
    elim (Bool-cases (find names tbl)) [
      | inl found ↦ rw (typ, at, n, at, name, found, table_matches)
      | inr absent ↦ rw (typ, at, n, at, name, absent, table_matches)
    ]

length-same : (xs ys : List ℕ) → same xs ys ≡ true → length xs ≡ length ys
unfolding same
length-same [] [] e = refl
length-same [] (y ∷ ys) e = absurd (ground arith)
length-same (x ∷ xs) [] e = absurd (ground arith)
length-same (x ∷ xs) (y ∷ ys) e = ap suc (length-same xs ys (ground arith))

same-refuses : (xs ys : List ℕ) → (length ys == length xs) ≡ false → same xs ys ≡ false
same-refuses xs ys e = elim (Bool-cases (same xs ys)) [
  | inr differ ↦ differ
  | inl equal ↦ let l = length-same xs ys equal in absurd (ground arith)
]

-- A list of `n` elements of which the first two are the symbols `fn` and `tbl`.
abbrev pub call_bytes : ℕ → ℕ → List ℕ → List ℕ → List ℕ → List ℕ
call_bytes attr n fn tbl tail =
    hdr KdbType.list attr n ++ (245 ∷ (fn ++ (0 ∷ (245 ∷ (tbl ++ (0 ∷ tail))))))

call_bytes_lem :
    (attr n len : ℕ) (fn tbl tail name : List ℕ) (names : List (List ℕ))
    → 3 ≤ n
    → n < 2 ^ 31
    → All IsText fn
    → All IsText tbl
    → 8 + length fn ≤ len
    → len < 2 ^ 63
    → filter_upd_msg (call_bytes attr n fn tbl tail) len name names
      ≡ some (if same name fn && find names tbl then to_i64 len else minus len)
unfolding filter_upd_msg
call_bytes_lem attr n len fn tbl tail name names three small tf tt' room h =
    let behind : List ℕ = 245 ∷ (tbl ++ (0 ∷ tail)) in
    let src : List ℕ = call_bytes attr n fn tbl tail in
    let l : hdr_len src ≡ some n =
      hdr_len_lem (i8typ KdbType.list) attr n (245 ∷ (fn ++ (0 ∷ behind))) small in
    let few : ltb n 3 ≡ false = ground arith in
    let many : leb (2 ^ 31) n ≡ false = ground arith in
    let max : sub64 len 7 ≡ len - 7 = sub64_lem len 7 (omega arith) (omega arith) in
    let s : strnlen (fn ++ (0 ∷ behind)) (len - 7) ≡ some (length fn) =
      strnlen_lem fn behind (len - 7) tf (omega arith) in
    let f : take (length fn) (fn ++ (0 ∷ behind)) ≡ fn = take-append_length fn (0 ∷ behind) in
    let d : drop (7 + (length fn + 1)) src ≡ behind =
      ap (λ k. drop (7 + k) src) (sym (length-append fn (0 ∷ [])))
      ∙ drop-on 7 src (fn ++ (0 ∷ [])) behind (sym (append_assoc fn (0 ∷ []) behind)) in
    elim (Bool-cases (length fn == length name)) [
      | inr longer ↦ rw (l, few, many, max, s, longer, same-refuses name fn longer)
      | inl even ↦ elim (Bool-cases (same name fn)) [
        | inr differ ↦ rw (l, few, many, max, s, even, f, differ)
        | inl equal ↦
            rw (l, few, many, max, s, even, f, equal)
              (table_matches_lem src tbl tail len (7 + (length fn + 1)) names d tt')
      ]
    ]

-- The message of a call: a list of a function's name, a table's name and at least one more object, with
-- anything behind it in memory. `_filter_upd_msg`, given the message's length, below 2^63, answers
-- it if the function's name is `name` and the table's one of `names`, and else its negation.
pub filter_upd_msg-call :
    (attr : ℕ) (fn tbl name : List ℕ) (names : List (List ℕ)) (more : Kdbs) (rest : List ℕ)
    (len : ℕ)
    → All IsText fn
    → All IsText tbl
    → 1 ≤ size more
    → size more < 2 ^ 30
    → len ≡ length (encode (list attr (cons (symbol_atom fn) (cons (symbol_atom tbl) more))))
    → len < 2 ^ 63
    → filter_upd_msg
        (encode (list attr (cons (symbol_atom fn) (cons (symbol_atom tbl) more))) ++ rest)
        len
        name
        names
      ≡ some (if same name fn && find names tbl then to_i64 len else minus len)
unfolding encode chunks
filter_upd_msg-call attr fn tbl name names more rest len tf tt' one few e h =
    let tail : List ℕ = concat (all_chunks more) in
    let n : ℕ = suc (suc (size more)) in
    let inner : (tbl ++ (0 ∷ [])) ++ tail ≡ tbl ++ (0 ∷ tail) = append_assoc tbl (0 ∷ []) tail in
    let outer : (fn ++ (0 ∷ [])) ++ (245 ∷ (tbl ++ (0 ∷ tail)))
        ≡ fn ++ (0 ∷ (245 ∷ (tbl ++ (0 ∷ tail)))) =
      append_assoc fn (0 ∷ []) (245 ∷ (tbl ++ (0 ∷ tail))) in
    let text : encode (list attr (cons (symbol_atom fn) (cons (symbol_atom tbl) more)))
        ≡ call_bytes attr n fn tbl tail =
      ap (λ b. hdr KdbType.list attr n ++ (245 ∷ ((fn ++ (0 ∷ [])) ++ (245 ∷ b)))) inner
      ∙ ap (λ b. hdr KdbType.list attr n ++ (245 ∷ b)) outer in
    let more_rest : call_bytes attr n fn tbl tail ++ rest
        ≡ call_bytes attr n fn tbl (tail ++ rest) =
      ap (λ b. hdr KdbType.list attr n ++ (245 ∷ b))
        (append_assoc fn (0 ∷ (245 ∷ (tbl ++ (0 ∷ tail)))) rest
          ∙ ap (λ b. fn ++ (0 ∷ (245 ∷ b))) (append_assoc tbl (0 ∷ tail) rest)) in
    let size_of : length (call_bytes attr n fn tbl tail)
        ≡ 7 + length (fn ++ (0 ∷ (245 ∷ (tbl ++ (0 ∷ tail))))) =
      omega arith in
    let room : 8 + length fn ≤ len = omega (
      arith,
      e,
      ap (length {0}) text,
      size_of,
      length-append fn (0 ∷ (245 ∷ (tbl ++ (0 ∷ tail)))),
    ) in
    ap (λ b. filter_upd_msg b len name names) (ap (λ b. b ++ rest) text ∙ more_rest)
    ∙ call_bytes_lem attr n len fn tbl (tail ++ rest) name names (omega arith) (omega arith) tf tt'
        room h
