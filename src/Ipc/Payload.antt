-- ===== src/Ipc/Payload.antt =====
-- `KdbUtil::ipcPayloadLen` and its helpers (ipc++/src/KdbType.C): the length of a message, found by
-- walking over its bytes.
pub mod Encoded
pub mod Limits
pub mod Measure
pub mod Walk
mod Tests
use mgkdb.Prelude.{
  ℕ, zero, suc, ◌+◌, ◌-◌, ◌*◌, ◌%◌, ◌^◌, Bool, true, false, ◌&&◌, ◌||◌, Option, none, some, List,
  [], ◌∷◌, length, take, drop, ltb, leb, ◌==◌, if◌then◌else◌,
}
use mgkdb.Prelude.Int.{ℤ, pos, negsuc, ◌+ℤ◌, is_nonneg, pos_part}
use mgkdb.Prelude.Bytes.{le_value}
use mgkdb.Ipc.Types.{KdbType, i8typ, sz_byte, sz_short, sz_int, sz_long, sz_guid, sz_vec_hdr}

-- An int64_t result. `oob` is a read outside the memory behind the pointer, and `stuck` is no
-- result of the code: the fuel, which bounds how deep the calls nest, ran out.
pub data Len : Type 0 where
  ret : ℤ → Len
  oob stuck : Len

-- The results -1, not all bytes are there, and -2, a part is not recognised.
abbrev pub incomplete : Len
incomplete = ret (negsuc 0)

abbrev pub unrecognised : Len
unrecognised = ret (negsuc 1)

-- uint64_t subtraction
abbrev pub sub64 : ℕ → ℕ → ℕ
sub64 a b = (a + 2 ^ 64 - b % 2 ^ 64) % 2 ^ 64

-- The conversion of an int64_t to int32_t.
abbrev pub to_i32 : ℕ → ℤ
to_i32 n = let m = n % 2 ^ 32 in if ltb m (2 ^ 31) then pos m else negsuc (2 ^ 32 - 1 - m)

-- `strnlen(p, max)` of the C library, with the bytes of memory from `p` on.
unfoldable pub strnlen : List ℕ → ℕ → Option ℕ
strnlen bytes zero = some 0
strnlen [] (suc max) = none
strnlen (b ∷ bytes) (suc max) =
    let rest = strnlen bytes max in
    if b == 0 then some 0 else elim rest [ none ↦ none | some n ↦ some (suc n) ]

-- `hdr->len` of a vector header, as the pattern of the int32_t.
unfoldable pub hdr_len : List ℕ → Option ℕ
hdr_len src = if ltb (length src) sz_vec_hdr then none else some (le_value (take 4 (drop 2 src)))

-- How often a loop `for (i = 0; i < len; i++)` goes round.
abbrev pub rounds : ℕ → ℕ
rounds len = if ltb len (2 ^ 31) then len else 0

-- `KdbUtil::isAtom` and `isVec`, on the byte of an int8_t: -19 is 237.
abbrev pub is_atom : ℕ → Bool
is_atom typ = leb 237 typ

abbrev pub is_vec : ℕ → Bool
is_vec typ = ltb 0 typ && leb typ 19

unfoldable pub msg_len_sym_atom : List ℕ → ℕ → Len
msg_len_sym_atom src rem =
    if ltb rem (sz_byte + sz_byte)
    then incomplete
    else let max = rem - sz_byte in
      elim (strnlen (drop 1 src) max) [
        | none ↦ oob
        | some len ↦ if max == len then incomplete else ret (pos (sz_byte + len + sz_byte))
      ]

-- The loop over the symbols that are left, with the offset reached.
unfoldable pub sym_loop : ℕ → ℕ → List ℕ → ℕ → Len
sym_loop zero off src rem = ret (pos off)
sym_loop (suc n) off src rem =
    let max = sub64 rem off in
    elim (strnlen (drop off src) max) [
      | none ↦ oob
      | some sln ↦ elim (max == sln) [
        | true ↦ incomplete
        | false ↦ sym_loop n (off + (sln + sz_byte)) src rem
      ]
    ]

unfoldable pub msg_len_sym_vec : List ℕ → ℕ → Len
msg_len_sym_vec src rem =
    if ltb rem sz_vec_hdr
    then incomplete
    else elim (hdr_len src) [ none ↦ oob | some len ↦ sym_loop (rounds len) sz_vec_hdr src rem ]

unfoldable pub msg_len_cmp : ℕ → ℕ → ℕ → Len
msg_len_cmp len width rem =
    if leb (2 ^ 31) len
    then incomplete
    else if ltb rem (sz_vec_hdr + len * width)
    then incomplete
    else ret (pos (sz_vec_hdr + len * width))

-- The `switch` of `msg_len_vec`: the size of an element.
unfoldable pub vec_width : ℕ → Option ℕ
vec_width typ =
    if typ == i8typ KdbType.bool_vector
      || typ == i8typ KdbType.byte_vector
      || typ == i8typ KdbType.char_vector
    then some sz_byte
    else if typ == i8typ KdbType.short_vector
    then some sz_short
    else if typ == i8typ KdbType.int_vector
        || typ == i8typ KdbType.real_vector
        || typ == i8typ KdbType.date_vector
        || typ == i8typ KdbType.month_vector
        || typ == i8typ KdbType.minute_vector
        || typ == i8typ KdbType.second_vector
        || typ == i8typ KdbType.time_vector
    then some sz_int
    else if typ == i8typ KdbType.long_vector
        || typ == i8typ KdbType.float_vector
        || typ == i8typ KdbType.timestamp_vector
        || typ == i8typ KdbType.timespan_vector
    then some sz_long
    else if typ == i8typ KdbType.guid_vector
    then some sz_guid
    else none

unfoldable pub msg_len_vec : ℕ → List ℕ → ℕ → Len
msg_len_vec typ src rem = if ltb rem sz_vec_hdr then incomplete else elim (hdr_len src) [
  | none ↦ oob
  | some len ↦ elim (vec_width typ) [ none ↦ unrecognised | some width ↦ msg_len_cmp len width rem ]
]

-- The `switch` of `msg_len_atom`: the size of the value.
unfoldable pub atom_width : ℕ → Option ℕ
atom_width typ =
    if typ == i8typ KdbType.guid_atom
    then some sz_guid
    else if typ == i8typ KdbType.bool_atom
        || typ == i8typ KdbType.byte_atom
        || typ == i8typ KdbType.char_atom
        || typ == i8typ KdbType.unary_primitive
        || typ == i8typ KdbType.binary_primitive
        || typ == i8typ KdbType.ternary_primitive
    then some sz_byte
    else if typ == i8typ KdbType.short_atom
    then some sz_short
    else if typ == i8typ KdbType.int_atom
        || typ == i8typ KdbType.real_atom
        || typ == i8typ KdbType.date_atom
        || typ == i8typ KdbType.month_atom
        || typ == i8typ KdbType.minute_atom
        || typ == i8typ KdbType.second_atom
        || typ == i8typ KdbType.time_atom
    then some sz_int
    else if typ == i8typ KdbType.long_atom
        || typ == i8typ KdbType.float_atom
        || typ == i8typ KdbType.timestamp_atom
        || typ == i8typ KdbType.timespan_atom
    then some sz_long
    else none

unfoldable pub msg_len_atom : ℕ → ℕ → Len
msg_len_atom typ rem =
    if rem == 0
    then incomplete
    else elim (atom_width typ) [ none ↦ unrecognised | some w ↦ ret (pos (sz_byte + w)) ]

-- The functions below call `ipcPayloadLen`, which is the argument `call`.
module _ (call : List ℕ → ℕ → Len) where
  -- The loop of `msg_len_list` over the elements that are left, with the length reached.
  unfoldable pub list_loop : ℕ → ℕ → List ℕ → ℕ → Len
  list_loop zero len src rem = ret (pos len)
  list_loop (suc n) len src rem = elim (call (drop len src) (sub64 rem len)) [
    | ret (pos eln) ↦ list_loop n (len + eln) src rem
    | ret (negsuc e) ↦ ret (negsuc e)
    | oob ↦ oob
    | stuck ↦ stuck
  ]

  unfoldable pub msg_len_list : List ℕ → ℕ → Len
  msg_len_list src rem =
      if ltb rem sz_vec_hdr
      then incomplete
      else elim (hdr_len src) [ none ↦ oob | some cnt ↦ list_loop (rounds cnt) sz_vec_hdr src rem ]

  -- The dictionary case of `msg_len_vary`; `len` and `tmp` are int32_t.
  unfoldable pub msg_len_dict : List ℕ → ℕ → Len
  msg_len_dict src rem = elim (call (drop 1 src) (sub64 rem 1)) [
    | ret (pos l) ↦ elim (to_i32 l) [
      | negsuc e ↦ ret (negsuc e)
      | pos len ↦ elim (call (drop len (drop 1 src)) (sub64 (sub64 rem 1) len)) [
        | ret (pos t) ↦ elim (to_i32 t) [
          | negsuc e ↦ ret (negsuc e)
          | pos tmp ↦ ret (pos (sz_byte + len + tmp))
        ]
        | ret (negsuc e) ↦ ret (negsuc e)
        | oob ↦ oob
        | stuck ↦ stuck
      ]
    ]
    | ret (negsuc e) ↦ ret (negsuc e)
    | oob ↦ oob
    | stuck ↦ stuck
  ]

  -- `msg_len_vary` calls itself for a table.
  unfoldable pub msg_len_vary : ℕ → List ℕ → ℕ → Len
  msg_len_vary zero src rem = stuck
  msg_len_vary (suc fuel) [] rem = if rem == 0 then incomplete else oob
  msg_len_vary (suc fuel) (typ ∷ src) rem =
      let inner = msg_len_vary fuel (drop 1 src) (sub64 rem 2) in
      if rem == 0
      then incomplete
      else if typ == i8typ KdbType.table
      then elim inner [ ret n ↦ ret (n +ℤ pos 2) | oob ↦ oob | stuck ↦ stuck ]
      else if typ == i8typ KdbType.dict || typ == i8typ KdbType.step_dict
      then msg_len_dict (typ ∷ src) rem
      else unrecognised

-- `KdbUtil::ipcPayloadLen(src, rem)`, with the bytes of memory from `src` on.
unfoldable pub ipc_payload_len : ℕ → List ℕ → ℕ → Len
ipc_payload_len zero src rem = stuck
ipc_payload_len (suc fuel) [] rem = if rem == 0 then incomplete else oob
ipc_payload_len (suc fuel) (typ ∷ src) rem =
    let call = λ (s : List ℕ) (r : ℕ). ipc_payload_len fuel s r in
    if rem == 0
    then incomplete
    else if typ == i8typ KdbType.list
    then msg_len_list call (typ ∷ src) rem
    else if is_atom typ
    then (if typ == i8typ KdbType.symbol_atom
        then msg_len_sym_atom (typ ∷ src) rem
        else msg_len_atom typ rem)
    else if is_vec typ
    then (if typ == i8typ KdbType.symbol_vector
        then msg_len_sym_vec (typ ∷ src) rem
        else msg_len_vec typ (typ ∷ src) rem)
    else msg_len_vary call (suc fuel) (typ ∷ src) rem
