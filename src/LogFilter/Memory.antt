-- ===== src/LogFilter/Memory.antt =====
-- log_filter/src/log_filter.c: type codes, reads of the memory behind a pointer, and vectors. The
-- memory is the list of the bytes from the pointer on.
use mgkdb.Prelude.{
  ℕ, zero, suc, ◌+◌, ◌*◌, ◌^◌, Bool, true, false, ◌||◌, Option, none, some, List, [], ◌∷◌, length,
  take, drop, ltb, leb, ◌==◌, if◌then◌else◌,
}
use mgkdb.Prelude.Bytes.{le_value}

-- Sizes.
abbrev pub sz_i8 : ℕ
sz_i8 = 1

abbrev pub sz_i16 : ℕ
sz_i16 = 2

abbrev pub sz_i32 : ℕ
sz_i32 = 4

abbrev pub sz_i64 : ℕ
sz_i64 = 8

abbrev pub sz_uuid : ℕ
sz_uuid = 16

-- `strlen`: `none` is a text with no end in the memory.
unfoldable pub strlen : List ℕ → Option ℕ
strlen [] = none
strlen (b ∷ bytes) =
    let rest = strlen bytes in
    if b == 0 then some 0 else elim rest [ none ↦ none | some n ↦ some (suc n) ]

-- `0 == strncmp(a, b, n)`, with the bytes from the two pointers on.
unfoldable pub strncmp_same : ℕ → List ℕ → List ℕ → Bool
strncmp_same zero a b = true
strncmp_same (suc n) [] b = false
strncmp_same (suc n) (x ∷ a) [] = false
strncmp_same (suc n) (x ∷ a) (y ∷ b) =
    let rest = strncmp_same n a b in if x == y then (if x == 0 then true else rest) else false

-- The cases of a `switch` over the type byte of a message's part. The two walks over a message have each
-- their own `switch`: `case_of` is the one of `mg_chk_match_and_get_len`.
pub data Case : Type 0 where
  fixed : ℕ → Case
  symbol list vector table dict unsupported : Case

-- The type is an int8_t, so that -KT is the byte 237.
unfoldable pub case_of : ℕ → Case
case_of typ =
    if typ == 237
      || typ == 238
      || typ == 239
      || typ == 242
      || typ == 243
      || typ == 248
      || typ == 250
    then fixed sz_i32
    else if typ == 240 || typ == 241 || typ == 244 || typ == 247 || typ == 249
    then fixed sz_i64
    else if typ == 251
    then fixed sz_i16
    else if typ == 246 || typ == 252 || typ == 255
    then fixed sz_i8
    else if typ == 254
    then fixed sz_uuid
    else if typ == 245
    then symbol
    else if typ == 0
    then list
    else if typ == 1
        || typ == 10
        || typ == 4
        || typ == 5
        || typ == 6
        || typ == 8
        || typ == 13
        || typ == 14
        || typ == 17
        || typ == 18
        || typ == 19
        || typ == 7
        || typ == 9
        || typ == 12
        || typ == 15
        || typ == 16
        || typ == 11
    then vector
    else if typ == 98
    then table
    else if typ == 99
    then dict
    else unsupported

-- The `switch` of `mg_read_vec`: the size of an element, and `none` for symbols.
unfoldable pub elem_sz : ℕ → Option ℕ
elem_sz typ =
    if typ == 19 || typ == 18 || typ == 17 || typ == 14 || typ == 13 || typ == 8 || typ == 6
    then some sz_i32
    else if typ == 16 || typ == 15 || typ == 12 || typ == 9 || typ == 7
    then some sz_i64
    else if typ == 5
    then some sz_i16
    else if typ == 10 || typ == 4 || typ == 1
    then some sz_i8
    else if typ == 2
    then some sz_uuid
    else none

pub record VecHdr : Type 0 where
  pub att : ℕ
  pub len : ℕ

-- The attribute and the length in front of the elements. `none`: the bytes are not there, or the
-- int32_t is negative, which is no length for `ktn`.
unfoldable pub vec_hdr : List ℕ → Option VecHdr
vec_hdr [] = none
vec_hdr (a ∷ src) =
    let n = le_value (take sz_i32 src) in
    if ltb (length src) sz_i32
    then none
    else (if leb (2 ^ 31) n then none else some (record { att = a; len = n }))

-- The bytes of `n` elements of `w` bytes that `memcpy` takes. `none`: they are not all there, or
-- the product leaves the int.
unfoldable pub copied : ℕ → ℕ → List ℕ → Option (List ℕ)
copied n w src =
    if leb (2 ^ 31) (n * w)
    then none
    else (if ltb (length src) (n * w) then none else some (take (n * w) src))

-- The symbols of a vector that are read, and the offset behind them.
pub record Symbols : Type 0 where
  pub texts : List (List ℕ)
  pub end : ℕ

abbrev pub add_text : List ℕ → Option Symbols → Option Symbols
add_text t none = none
add_text t (some s) = some (record { texts = t ∷ s.texts; end = s.end })

-- The loop over the `n` symbols that are left, at the offset `off`.
unfoldable pub sym_texts : ℕ → ℕ → List ℕ → Option Symbols
sym_texts zero off src = some (record { texts = []; end = off })
sym_texts (suc n) off src = elim (strlen (drop off src)) [
  | none ↦ none
  | some l ↦ add_text (take l (drop off src)) (sym_texts n (off + (l + sz_i8)) src)
]

-- What a vector holds, and the offset behind it.
pub data Vec : Type 0 where
  elems : (att len : ℕ) → List ℕ → ℕ → Vec
  syms : (att : ℕ) → List (List ℕ) → ℕ → Vec

-- Behind the header, at the offset 5: the `switch`.
abbrev pub vec_elems : VecHdr → ℕ → Option (List ℕ) → Option Vec
vec_elems h w none = none
vec_elems h w (some bytes) = some (elems h.att h.len bytes (5 + h.len * w))

abbrev pub vec_syms : VecHdr → Option Symbols → Option Vec
vec_syms h none = none
vec_syms h (some s) = some (syms h.att s.texts s.end)

abbrev pub vec_body : VecHdr → Option ℕ → List ℕ → Option Vec
vec_body h (some w) src = vec_elems h w (copied h.len w (drop 5 src))
vec_body h none src = vec_syms h (sym_texts h.len 5 src)

abbrev pub vec_behind : ℕ → List ℕ → Option VecHdr → Option Vec
vec_behind typ src none = none
vec_behind typ src (some h) = vec_body h (elem_sz typ) src

-- `mg_read_vec`, from the attribute byte on, for the types that it is called with: the vector's
-- parts and the offset behind it. `none` is a read outside the memory.
unfoldable pub read_vec : ℕ → List ℕ → Option Vec
unfolding vec_hdr elem_sz copied sym_texts
read_vec typ src = vec_behind typ src (vec_hdr src)

abbrev pub vec_end : Vec → ℕ
vec_end (elems att len bytes off) = off
vec_end (syms att texts off) = off

-- The `switch` of `mg_read_vec_OLD`: the size of an element, and `none` for symbols.
unfoldable pub old_elem_sz : ℕ → Option ℕ
old_elem_sz typ =
    if typ == 19 || typ == 18 || typ == 17 || typ == 14 || typ == 13 || typ == 8 || typ == 6
    then some sz_i32
    else if typ == 16 || typ == 15 || typ == 12 || typ == 9 || typ == 7
    then some sz_i64
    else if typ == 5
    then some sz_i16
    else if typ == 10 || typ == 4 || typ == 1
    then some sz_i8
    else if typ == 2
    then some sz_uuid
    else none

-- Its loop over the `n` symbols that are left, at the offset `off`.
unfoldable pub old_sym_end : ℕ → ℕ → List ℕ → Option ℕ
old_sym_end zero off src = some off
old_sym_end (suc n) off src = elim (strlen (drop off src)) [
  | none ↦ none
  | some l ↦ old_sym_end n (off + (l + sz_i8)) src
]

abbrev pub old_elems_end : ℕ → ℕ → Option (List ℕ) → Option ℕ
old_elems_end len w none = none
old_elems_end len w (some bytes) = some (5 + len * w)

abbrev pub old_body : ℕ → Option ℕ → List ℕ → Option ℕ
old_body len (some w) src = old_elems_end len w (copied len w (drop 5 src))
old_body len none src = old_sym_end len 5 src

abbrev pub old_behind : ℕ → List ℕ → Option VecHdr → Option ℕ
old_behind typ src none = none
old_behind typ src (some h) = old_body h.len (old_elem_sz typ) src

-- `mg_read_vec_OLD`, from the attribute byte on, for the types that it is called with: the offset behind
-- the vector. The vector that it makes is not used.
unfoldable pub read_vec_old : ℕ → List ℕ → Option ℕ
unfolding vec_hdr old_elem_sz copied old_sym_end
read_vec_old typ src = old_behind typ src (vec_hdr src)
