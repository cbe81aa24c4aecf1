-- ===== src/Ipc/Payload/Encoded.antt =====
-- `ipcPayloadLen` on written atoms, vectors and symbol vectors.
use mgkdb.Prelude.{
  ℕ, zero, suc, ◌+◌, ◌-◌, ◌*◌, ◌%◌, ◌^◌, ◌≤◌, ◌<◌, ◌≡◌, refl, sym, ap, ◌∙◌, false, some, List, [],
  ◌∷◌, ◌++◌, append_assoc, length, length-append, concat, drop, All, ltb, leb, ◌==◌, arith,
}
use mgkdb.Prelude.Int.{pos}
use mgkdb.Prelude.Bytes.{le_bytes, le_value}
use mgkdb.Ipc.Types.{KdbType, Elem, i8typ, atom_type, vector_type, elem_size}
use mgkdb.Ipc.Object.{
  SymbolVector, Kdb, exception, atom, symbol_atom, vector, symbol_vector, list, table, dict,
  function, primitive, projection, Kdbs, nil, cons, size,
}
use mgkdb.Ipc.Write.Encode.{cells, hdr}
use mgkdb.Ipc.Payload.{
  ret, sub64, strnlen, hdr_len, rounds, sym_loop, msg_len_cmp, msg_len_vec, vec_width,
  msg_len_sym_vec, msg_len_atom, atom_width, msg_len_sym_atom, ipc_payload_len,
}

-- A byte of a symbol: not the terminator.
abbrev pub IsText : ℕ → Type 0
IsText b = (0 < b) × (b < 256)

-- `n` terminated symbols, one after the other.
pub data Syms : ℕ → List ℕ → Type 0 where
  no_syms : Syms zero []
  more_syms :
      {n : ℕ} {bytes : List ℕ} {all : List ℕ} (s : List ℕ)
      → All IsText s
      → all ≡ s ++ (0 ∷ bytes)
      → Syms n bytes
      → Syms (suc n) all

abbrev pub IsSymbols : SymbolVector → Type 0
IsSymbols s = Syms (length s.m_locs) s.m_data × (length s.m_locs < 2 ^ 31)

-- What `ipcPayloadLen` supports: symbols have no byte 0, counts are not negative as an int32_t,
-- and no exception, function, primitive or projection stands anywhere in the object.
abbrev mutual
  pub IsMeasured : Kdb → Type 0
  IsMeasured (exception msg) = ⊥
  IsMeasured (atom e val) = Unit
  IsMeasured (symbol_atom val) = All IsText val
  IsMeasured (vector e attr xs) = length xs < 2 ^ 31
  IsMeasured (symbol_vector s) = IsSymbols s
  IsMeasured (list attr vs) = (size vs < 2 ^ 31) × AreMeasured vs
  IsMeasured (table cols attr vs) = IsSymbols cols × (size vs < 2 ^ 31) × AreMeasured vs
  IsMeasured (dict k v) = IsMeasured k × IsMeasured v
  IsMeasured (function vec) = ⊥
  IsMeasured (primitive p val) = ⊥
  IsMeasured (projection vs) = ⊥

  pub AreMeasured : Kdbs → Type 0
  AreMeasured nil = Unit
  AreMeasured (cons v vs) = IsMeasured v × AreMeasured vs

-- How deep the calls nest.
abbrev mutual
  pub depth : Kdb → ℕ
  depth (list attr vs) = suc (depths vs)
  depth (table cols attr vs) = suc (suc (depths vs))
  depth (dict k v) = suc (depth k + depth v)
  depth (exception msg) = 1
  depth (atom e val) = 1
  depth (symbol_atom val) = 1
  depth (vector e attr xs) = 1
  depth (symbol_vector s) = 1
  depth (function vec) = 1
  depth (primitive p val) = 1
  depth (projection vs) = 1

  pub depths : Kdbs → ℕ
  depths nil = 0
  depths (cons v vs) = depth v + depths vs

pub sub64_lem : (a b : ℕ) → b ≤ a → a < 2 ^ 64 → sub64 a b ≡ a - b
sub64_lem a b h lt = omega arith

pub nonzero : (rem n : ℕ) → suc n ≤ rem → (rem == 0) ≡ false
nonzero rem n h = ground arith

pub strnlen_lem :
    (s rest : List ℕ) (max : ℕ)
    → All IsText s
    → length s < max
    → strnlen (s ++ (0 ∷ rest)) max ≡ some (length s)
unfolding strnlen
strnlen_lem s rest zero t h = elim h [ ]
strnlen_lem [] rest (suc max) t h = refl
strnlen_lem (b ∷ s) rest (suc max) (p, t) h =
    let e : (b == 0) ≡ false = ground arith in rw (e, strnlen_lem s rest max t (omega arith))

drop-drop : (m n : ℕ) (xs : List ℕ) → drop n (drop m xs) ≡ drop (m + n) xs
drop-drop zero n xs = let e : zero + n ≡ n = omega arith in rw e
drop-drop (suc m) zero [] = let e : suc m + 0 ≡ suc m = omega arith in rw e
drop-drop (suc m) (suc n) [] = let e : suc m + suc n ≡ suc (m + suc n) = omega arith in rw e
drop-drop (suc m) n (x ∷ xs) =
    let e : suc m + n ≡ suc (m + n) = omega arith in rw e (drop-drop m n xs)

-- Going on behind the bytes `front`.
pub drop-on :
    (off : ℕ) (src front rest : List ℕ)
    → drop off src ≡ front ++ rest
    → drop (off + length front) src ≡ rest
drop-on off src front rest h =
    sym (drop-drop off (length front) src) ∙ ap (drop (length front)) h ∙ behind front
  where
    behind : (xs : List ℕ) → drop (length xs) (xs ++ rest) ≡ rest
    behind [] = refl
    behind (x ∷ xs) = behind xs

pub hdr_len_lem :
    (typ attr n : ℕ) (rest : List ℕ)
    → n < 2 ^ 31
    → hdr_len ((le_bytes 1 typ ++ (le_bytes 1 attr ++ le_bytes 4 n)) ++ rest) ≡ some n
unfolding hdr_len
hdr_len_lem typ attr n rest h =
    let v : le_value (le_bytes 4 n) ≡ n = omega arith in
    let e : ltb (6 + length rest) 6 ≡ false = ground arith in
    let l : suc (suc (suc (suc (suc (suc (length rest)))))) ≡ 6 + length rest = omega arith in
    rw (l, e, v)

pub rounds_lem : (n : ℕ) → n < 2 ^ 31 → rounds n ≡ n
rounds_lem n h = ground arith

pub room6 : (rem : ℕ) → 6 ≤ rem → ltb rem 6 ≡ false
room6 rem h = ground arith

-- One lemma for each kind of object, at any bytes behind it.
module _ (fuel : ℕ) (rest : List ℕ) (rem : ℕ) (small : rem < 2 ^ 64) where
  pub atom_len :
      (e : Elem) (val : ℕ)
      → suc (elem_size e) ≤ rem
      → ipc_payload_len
          (suc fuel)
          ((le_bytes 1 (i8typ (atom_type e)) ++ le_bytes (elem_size e) val) ++ rest)
          rem
        ≡ ret (pos (1 + elem_size e))
  unfolding ipc_payload_len msg_len_atom atom_width
  atom_len Elem.time val h = rw (nonzero rem 4 h)
  atom_len _ val h = rw (nonzero rem _ h)

  pub sym_atom_len :
      (s : List ℕ)
      → All IsText s
      → suc (length s + 1) ≤ rem
      → ipc_payload_len
          (suc fuel)
          ((le_bytes 1 (i8typ KdbType.symbol_atom) ++ (s ++ (0 ∷ []))) ++ rest)
          rem
        ≡ ret (pos (suc (length s + 1)))
  unfolding ipc_payload_len msg_len_sym_atom
  sym_atom_len s t h =
      let two : ltb rem 2 ≡ false = ground arith in
      let more : (rem - 1 == length s) ≡ false = ground arith in
      let e : 1 + length s + 1 ≡ suc (length s + 1) = omega arith in
      rw (
        nonzero rem _ h,
        two,
        append_assoc s (0 ∷ []) rest,
        strnlen_lem s rest (rem - 1) t (omega arith),
        more,
        e,
      )

  vec_dispatch :
      (e : Elem) (src : List ℕ)
      → 0 < rem
      → ipc_payload_len (suc fuel) (i8typ (vector_type e) ∷ src) rem
        ≡ msg_len_vec (i8typ (vector_type e)) (i8typ (vector_type e) ∷ src) rem
  unfolding ipc_payload_len
  vec_dispatch Elem.time src h = rw (nonzero rem 0 h)
  vec_dispatch _ src h = rw (nonzero rem 0 h)

  vec_width_lem : (e : Elem) → vec_width (i8typ (vector_type e)) ≡ some (elem_size e)
  unfolding vec_width
  vec_width_lem Elem.time = refl
  vec_width_lem _ = refl

  le_typ : (e : Elem) → i8typ (vector_type e) % 256 ≡ i8typ (vector_type e)
  le_typ Elem.time = refl
  le_typ _ = refl

  pub vector_len :
      (e : Elem) (attr : ℕ) (xs : List ℕ)
      → length xs < 2 ^ 31
      → 6 + length xs * elem_size e ≤ rem
      → ipc_payload_len
          (suc fuel)
          ((hdr (vector_type e) attr (length xs) ++ concat (cells (elem_size e) xs)) ++ rest)
          rem
        ≡ ret (pos (6 + length xs * elem_size e))
  vector_len e attr xs n h =
      rw
        (append_assoc (hdr (vector_type e) attr (length xs)) (concat (cells (elem_size e) xs)) rest)
        (rw (le_typ e) (
          vec_dispatch e (le_bytes 1 attr ++ (le_bytes 4 (length xs) ++ behind)) (omega arith)
          ∙ measured))
    where
      behind : List ℕ
      behind = concat (cells (elem_size e) xs) ++ rest

      measured :
          msg_len_vec
            (i8typ (vector_type e))
            (i8typ (vector_type e) ∷ (le_bytes 1 attr ++ (le_bytes 4 (length xs) ++ behind)))
            rem
          ≡ ret (pos (6 + length xs * elem_size e))
      measured =
          let l : hdr_len
                (i8typ (vector_type e) ∷ (le_bytes 1 attr ++ (le_bytes 4 (length xs) ++ behind)))
              ≡ some (length xs) =
            rw (le_typ e) at (hdr_len_lem (i8typ (vector_type e)) attr (length xs) behind n) in
          unfold msg_len_vec msg_len_cmp in
          rw (room6 rem (omega arith), l, vec_width_lem e)
            (let few : leb (2 ^ 31) (length xs) ≡ false = ground arith in
              let fits : ltb rem (6 + length xs * elem_size e) ≡ false = ground arith in
              rw (few, fits))

  -- The loop over symbols, at the offset `off`.
  sym_loop_lem :
      (n off : ℕ) (bytes src : List ℕ)
      → Syms n bytes
      → drop off src ≡ bytes ++ rest
      → off + length bytes ≤ rem
      → sym_loop n off src rem ≡ ret (pos (off + length bytes))
  unfolding sym_loop
  sym_loop_lem zero off bytes src no_syms d h = ap (λ k. ret (pos k)) (omega arith)
  sym_loop_lem (suc n) off bytes src (more_syms {bytes = tail} s t e m) d h =
      let len : length bytes ≡ length s + suc (length tail) =
        ap (length {0}) e ∙ length-append s (0 ∷ tail) in
      let here : drop off src ≡ s ++ (0 ∷ (tail ++ rest)) =
        d ∙ ap (λ b. b ++ rest) e ∙ append_assoc s (0 ∷ tail) rest in
      let max : sub64 rem off ≡ rem - off = sub64_lem rem off (omega arith) small in
      let more : (rem - off == length s) ≡ false = ground arith in
      let next : drop (off + (length s + 1)) src ≡ tail ++ rest =
        ap (λ k. drop (off + k) src) (sym (length-append s (0 ∷ [])))
        ∙ drop-on off src (s ++ (0 ∷ [])) (tail ++ rest)
            (here ∙ sym (append_assoc s (0 ∷ []) (tail ++ rest))) in
      let sum : off + (length s + 1) + length tail ≡ off + length bytes = omega arith in
      rw (max, here, strnlen_lem s (tail ++ rest) (rem - off) t (omega arith), max, more, sym_loop)
        (sym_loop_lem n (off + (length s + 1)) tail src m next (omega arith)
          ∙ ap (λ k. ret (pos k)) sum)

  pub symbols_len :
      (s : SymbolVector) (data' : List ℕ)
      → IsSymbols s
      → data' ≡ s.m_data
      → 6 + length s.m_data ≤ rem
      → ipc_payload_len
          (suc fuel)
          ((hdr KdbType.symbol_vector s.m_attr (length s.m_locs) ++ data') ++ rest)
          rem
        ≡ ret (pos (6 + length s.m_data))
  unfolding ipc_payload_len msg_len_sym_vec
  symbols_len s data' (m, n) e h =
      let src : List ℕ = hdr KdbType.symbol_vector s.m_attr (length s.m_locs) ++ (data' ++ rest) in
      let l : hdr_len src ≡ some (length s.m_locs) =
        hdr_len_lem (i8typ KdbType.symbol_vector) s.m_attr (length s.m_locs) (data' ++ rest) n in
      rw (nonzero rem 5 (omega arith), room6 rem (omega arith), l, rounds_lem (length s.m_locs) n)
        (sym_loop_lem (length s.m_locs) 6 s.m_data src m (ap (λ b. b ++ rest) e) h)
