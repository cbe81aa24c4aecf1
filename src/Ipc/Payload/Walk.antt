-- ===== src/Ipc/Payload/Walk.antt =====
-- `ipcPayloadLen` on written lists, dictionaries and tables.
use mgkdb.Prelude.{
  ℕ, zero, suc, ◌+◌, ◌-◌, ◌%◌, ◌^◌, ◌≤◌, ◌<◌, ◌≡◌, refl, sym, ap, ap₂, ◌∙◌, true, false, List, [],
  ◌∷◌, ◌++◌, append_assoc, length, length-append, concat, drop, All, ltb, leb, ◌==◌, arith,
}
use mgkdb.Prelude.Int.{pos, ◌+ℤ◌}
use mgkdb.Ipc.Types.{KdbType, i8typ}
use mgkdb.Ipc.Object.{SymbolVector, Kdb, symbol_vector, list, table, dict, Kdbs, nil, cons, size}
use mgkdb.Ipc.Write.Encode.{cells, hdr, chunks, all_chunks, encode}
use mgkdb.Ipc.Write.Size.{concat-append}
use mgkdb.Prelude.{some}
use mgkdb.Ipc.Payload.{
  hdr_len, Len, ret, sub64, to_i32, list_loop, msg_len_list, msg_len_vary, msg_len_dict,
  ipc_payload_len,
}
use mgkdb.Ipc.Payload.Encoded.{
  IsText, Syms, no_syms, more_syms, IsSymbols, sub64_lem, drop-on, nonzero, hdr_len_lem, rounds_lem,
  room6, symbols_len,
}

pub append_nil : (xs : List ℕ) → xs ++ [] ≡ xs
append_nil [] = refl
append_nil (x ∷ xs) = ap (λ t. x ∷ t) (append_nil xs)

concat-cells_append :
    (xs ys : List ℕ) → concat (cells 1 (xs ++ ys)) ≡ concat (cells 1 xs) ++ concat (cells 1 ys)
concat-cells_append [] ys = refl
concat-cells_append (x ∷ xs) ys = ap (λ t. (x % 256) ∷ t) (concat-cells_append xs ys)

concat-cells_text : (s : List ℕ) → All IsText s → concat (cells 1 s) ≡ s
concat-cells_text [] t = refl
concat-cells_text (b ∷ s) ((p, q), t) =
    let e : b % 256 ≡ b = omega arith in rw e (ap (λ u. b ∷ u) (concat-cells_text s t))

pub concat-cells-Syms : (n : ℕ) (data' : List ℕ) → Syms n data' → concat (cells 1 data') ≡ data'
concat-cells-Syms zero data' no_syms = refl
concat-cells-Syms (suc n) data' (more_syms {bytes = tail} s t e m) =
    ap (λ b. concat (cells 1 b)) e
    ∙ concat-cells_append s (0 ∷ tail)
    ∙ ap₂ (λ a b. a ++ (0 ∷ b)) (concat-cells_text s t) (concat-cells-Syms n tail m)
    ∙ sym e

to_i32_lem : (n : ℕ) → n < 2 ^ 31 → to_i32 n ≡ pos n
to_i32_lem n h =
    let e : n % 2 ^ 32 ≡ n = omega arith in
    let b : ltb n (2 ^ 31) ≡ true = ground arith in rw (e, b)

-- A dictionary of the bytes `a` and `b`, each measured by `call`.
dict_len :
    (call : List ℕ → ℕ → Len) (typ : ℕ) (a b rest : List ℕ) (rem : ℕ)
    → rem < 2 ^ 64
    → 1 + length a + length b ≤ rem
    → 1 + length a + length b < 2 ^ 31
    → call (a ++ (b ++ rest)) (rem - 1) ≡ ret (pos (length a))
    → call (b ++ rest) (rem - 1 - length a) ≡ ret (pos (length b))
    → msg_len_dict call (typ ∷ (a ++ (b ++ rest))) rem ≡ ret (pos (1 + length a + length b))
unfolding msg_len_dict
dict_len call typ a b rest rem small h lt ca cb =
    let z : 0 + length a ≡ length a = omega arith in
    let s : sub64 rem 1 ≡ rem - 1 = sub64_lem rem 1 (omega arith) small in
    let s2 : sub64 (rem - 1) (length a) ≡ rem - 1 - length a =
      sub64_lem (rem - 1) (length a) (omega arith) (omega arith) in
    let ta : to_i32 (length a) ≡ pos (length a) = to_i32_lem (length a) (omega arith) in
    let tb : to_i32 (length b) ≡ pos (length b) = to_i32_lem (length b) (omega arith) in
    let d : drop (length a) (a ++ (b ++ rest)) ≡ b ++ rest =
      ap (λ k. drop k (a ++ (b ++ rest))) (sym z)
      ∙ drop-on 0 (a ++ (b ++ rest)) a (b ++ rest) refl in
    rw (s, ca, ta, s, s2, d, cb, tb, msg_len_dict)

-- `bytes` are measured with `fuel`, whatever stands behind them.
abbrev pub Measures : ℕ → List ℕ → Type 0
Measures fuel bytes =
    (rest : List ℕ) (rem : ℕ)
    → length bytes ≤ rem
    → rem < 2 ^ 64
    → ipc_payload_len fuel (bytes ++ rest) rem ≡ ret (pos (length bytes))

-- The loop over elements that are measured, at the offset `off`.
abbrev pub MeasuresAll : ℕ → Kdbs → Type 0
MeasuresAll fuel vs =
    (off : ℕ) (src rest : List ℕ) (rem : ℕ)
    → drop off src ≡ concat (all_chunks vs) ++ rest
    → off + length (concat (all_chunks vs)) ≤ rem
    → rem < 2 ^ 64
    → list_loop (ipc_payload_len fuel) (size vs) off src rem
      ≡ ret (pos (off + length (concat (all_chunks vs))))

pub nil_lem : (fuel : ℕ) → MeasuresAll fuel nil
unfolding list_loop all_chunks
nil_lem fuel off src rest rem d h small = ap (λ k. ret (pos k)) (omega arith)

pub cons_lem :
    (fuel : ℕ) (v : Kdb) (vs : Kdbs)
    → Measures fuel (encode v)
    → MeasuresAll fuel vs
    → MeasuresAll fuel (cons v vs)
unfolding list_loop all_chunks encode
cons_lem fuel v vs one more off src rest rem d h small =
    let a : List ℕ = concat (chunks v) in
    let b : List ℕ = concat (all_chunks vs) in
    let split : concat (chunks v ++ all_chunks vs) ≡ a ++ b =
      concat-append (chunks v) (all_chunks vs) in
    let len : length (concat (chunks v ++ all_chunks vs)) ≡ length a + length b =
      ap (length {0}) split ∙ length-append a b in
    let here : drop off src ≡ a ++ (b ++ rest) =
      d ∙ ap (λ t. t ++ rest) split ∙ append_assoc a b rest in
    let s : sub64 rem off ≡ rem - off = sub64_lem rem off (omega arith) small in
    let m : ipc_payload_len fuel (a ++ (b ++ rest)) (rem - off) ≡ ret (pos (length a)) =
      one (b ++ rest) (rem - off) (omega arith) (omega arith) in
    let sum : off + length a + length b ≡ off + (length a + length b) = omega arith in
    rw (s, here, m, len, list_loop)
      (more (off + length a) src rest rem (drop-on off src a (b ++ rest) here) (omega arith) small
        ∙ ap (λ k. ret (pos k)) sum)

list_dispatch :
    (fuel attr : ℕ) (vs : Kdbs) (behind : List ℕ) (rem : ℕ)
    → size vs < 2 ^ 31
    → 6 ≤ rem
    → ipc_payload_len (suc fuel) (hdr KdbType.list attr (size vs) ++ behind) rem
      ≡ list_loop (ipc_payload_len fuel) (size vs) 6 (hdr KdbType.list attr (size vs) ++ behind) rem
unfolding ipc_payload_len msg_len_list
list_dispatch fuel attr vs behind rem n h =
    let l : hdr_len (hdr KdbType.list attr (size vs) ++ behind) ≡ some (size vs) =
      hdr_len_lem (i8typ KdbType.list) attr (size vs) behind n in
    rw (nonzero rem 5 h, room6 rem h, l, rounds_lem (size vs) n)

pub list_lem :
    (fuel attr : ℕ) (vs : Kdbs)
    → size vs < 2 ^ 31
    → MeasuresAll fuel vs
    → Measures (suc fuel) (hdr KdbType.list attr (size vs) ++ concat (all_chunks vs))
list_lem fuel attr vs n all rest rem h small =
    let b : List ℕ = concat (all_chunks vs) in
    let len : length (hdr KdbType.list attr (size vs) ++ b) ≡ 6 + length b = omega arith in
    let go : list_loop (ipc_payload_len fuel) (size vs) 6
          (hdr KdbType.list attr (size vs) ++ (b ++ rest)) rem
        ≡ ret (pos (6 + length b)) =
      all 6 (hdr KdbType.list attr (size vs) ++ (b ++ rest)) rest rem refl (omega arith) small in
    list_dispatch fuel attr vs (b ++ rest) rem n (omega arith)
    ∙ go
    ∙ ap (λ k. ret (pos k)) (sym len)

pub symbols_lem :
    (fuel : ℕ) (s : SymbolVector) → IsSymbols s → Measures (suc fuel) (encode (symbol_vector s))
unfolding encode chunks
symbols_lem fuel s (m, n) rest rem h small =
    let b : List ℕ = concat (cells 1 s.m_data) in
    let e : b ≡ s.m_data = concat-cells-Syms (length s.m_locs) s.m_data m in
    let len : length (hdr KdbType.symbol_vector s.m_attr (length s.m_locs) ++ b) ≡ 6 + length b =
      omega arith in
    let same : length b ≡ length s.m_data = ap (length {0}) e in
    symbols_len fuel rest rem small s b (m, n) e (omega arith) ∙ ap (λ k. ret (pos k)) (omega arith)

pub dict_lem :
    (fuel : ℕ) (k v : Kdb)
    → Measures fuel (encode k)
    → Measures fuel (encode v)
    → 1 + length (encode k) + length (encode v) < 2 ^ 31
    → Measures (suc fuel) (encode (dict k v))
unfolding encode chunks ipc_payload_len msg_len_vary
dict_lem fuel k v mk mv lt rest rem h small =
    let a : List ℕ = concat (chunks k) in
    let b : List ℕ = concat (chunks v) in
    let split : concat (chunks k ++ chunks v) ≡ a ++ b = concat-append (chunks k) (chunks v) in
    let len : length (concat (chunks k ++ chunks v)) ≡ length a + length b =
      ap (length {0}) split ∙ length-append a b in
    let out : suc (length (concat (chunks k ++ chunks v))) ≡ 1 + length a + length b =
      omega arith in
    rw (nonzero rem 0 (omega arith), out, split, append_assoc a b rest)
      (dict_len (ipc_payload_len fuel) 99 a b rest rem small (omega arith) lt
        (mk (b ++ rest) (rem - 1) (omega arith) (omega arith))
        (mv rest (rem - 1 - length a) (omega arith) (omega arith)))

vary_dispatch :
    (fuel : ℕ) (src : List ℕ) (rem : ℕ)
    → 0 < rem
    → ipc_payload_len (suc fuel) (98 ∷ src) rem
      ≡ msg_len_vary (ipc_payload_len fuel) (suc fuel) (98 ∷ src) rem
unfolding ipc_payload_len
vary_dispatch fuel src rem h = rw (nonzero rem 0 h)

table_dispatch :
    (call : List ℕ → ℕ → Len) (fuel attr : ℕ) (src : List ℕ) (rem n : ℕ)
    → 2 < rem
    → rem < 2 ^ 64
    → msg_len_dict call (99 ∷ src) (rem - 2) ≡ ret (pos n)
    → msg_len_vary call (suc (suc fuel)) (98 ∷ (attr ∷ (99 ∷ src))) rem ≡ ret (pos (n + 2))
unfolding msg_len_vary ◌+ℤ◌
table_dispatch call fuel attr src rem n h small e =
    let s : sub64 rem 2 ≡ rem - 2 = sub64_lem rem 2 (omega arith) small in
    let nz : (rem - 2 == 0) ≡ false = ground arith in
    let z : leb 0 (n + 2) ≡ true = ground arith in
    let w : n + 2 - 0 ≡ n + 2 = omega arith in rw (nonzero rem 0 (omega arith), s, nz, e, z, w)

pub table_lem :
    (fuel attr : ℕ) (cols : SymbolVector) (vs : Kdbs)
    → IsSymbols cols
    → size vs < 2 ^ 31
    → MeasuresAll fuel vs
    → length (encode (table cols attr vs)) < 2 ^ 31
    → Measures (suc (suc fuel)) (encode (table cols attr vs))
unfolding encode chunks
table_lem fuel attr cols vs m n all lt rest rem h small =
    let a : List ℕ = encode (symbol_vector cols) in
    let b : List ℕ = hdr KdbType.list attr (size vs) ++ concat (all_chunks vs) in
    let split : concat (chunks (symbol_vector cols) ++ chunks (list attr vs)) ≡ a ++ b =
      concat-append (chunks (symbol_vector cols)) (chunks (list attr vs)) in
    let len : length (concat (chunks (symbol_vector cols) ++ chunks (list attr vs)))
        ≡ length a + length b =
      ap (length {0}) split ∙ length-append a b in
    let out : suc
          (suc (suc (length (concat (chunks (symbol_vector cols) ++ chunks (list attr vs))))))
        ≡ 1 + length a + length b + 2 =
      omega arith in
    let body : concat (chunks (symbol_vector cols) ++ chunks (list attr vs)) ++ rest
        ≡ a ++ (b ++ rest) =
      ap (λ u. u ++ rest) split ∙ append_assoc a b rest in
    let d : msg_len_dict (ipc_payload_len (suc fuel)) (99 ∷ (a ++ (b ++ rest))) (rem - 2)
        ≡ ret (pos (1 + length a + length b)) =
      dict_len (ipc_payload_len (suc fuel)) 99 a b rest (rem - 2) (omega arith) (omega arith)
        (omega arith)
        (symbols_lem fuel cols m (b ++ rest) (rem - 2 - 1) (omega arith) (omega arith))
        (list_lem fuel attr vs n all rest (rem - 2 - 1 - length a) (omega arith) (omega arith)) in
    ap (λ u. ipc_payload_len (suc (suc fuel)) (98 ∷ (0 ∷ (99 ∷ u))) rem) body
    ∙ vary_dispatch (suc fuel) (0 ∷ (99 ∷ (a ++ (b ++ rest)))) rem (omega arith)
    ∙ table_dispatch (ipc_payload_len (suc fuel)) fuel 0 (a ++ (b ++ rest)) rem
        (1 + length a + length b) (omega arith) small d
    ∙ ap (λ k. ret (pos k)) (sym out)
