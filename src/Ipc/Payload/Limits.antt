-- ===== src/Ipc/Payload/Limits.antt =====
-- `ipcPayloadLen` on messages that are cut off or have unknown parts.
use mgkdb.Prelude.{ℕ, suc, ◌+◌, ◌-◌, ◌^◌, ◌<◌, ◌≡◌, ◌≢◌, refl, List, [], ◌∷◌, false, ◌==◌, arith}
use mgkdb.Prelude.Int.{pos, ◌+ℤ◌}
use mgkdb.Ipc.Types.{Elem, Primitive, i8typ, atom_type, elem_size, primitive_type}
use mgkdb.Ipc.Payload.{
  ret, unrecognised, sub64, ipc_payload_len, msg_len_atom, atom_width, msg_len_vary,
}

-- A table of which two bytes are there measures 1, where -1 would say that bytes are missing.
pub ipc_payload_len-cut_table :
    (fuel attr : ℕ) (src : List ℕ)
    → ipc_payload_len (suc (suc fuel)) (98 ∷ (attr ∷ src)) 2 ≡ ret (pos 1)
unfolding ipc_payload_len msg_len_vary ◌+ℤ◌
ipc_payload_len-cut_table fuel attr [] = refl
ipc_payload_len-cut_table fuel attr (x ∷ src) = refl

-- A table whose third byte is no table's, dictionary's or step dictionary's type measures 0,
-- where -2 would say that a part is not recognised.
pub ipc_payload_len-odd_table :
    (fuel attr typ : ℕ) (src : List ℕ) (rem : ℕ)
    → 2 < rem
    → rem < 2 ^ 64
    → typ ≢ 98
    → typ ≢ 99
    → typ ≢ 127
    → ipc_payload_len (suc (suc fuel)) (98 ∷ (attr ∷ (typ ∷ src))) rem ≡ ret (pos 0)
unfolding ipc_payload_len msg_len_vary ◌+ℤ◌
ipc_payload_len-odd_table fuel attr typ src rem h small a b c =
    let s : sub64 rem 2 ≡ rem - 2 = omega arith in
    let nz : (rem == 0) ≡ false = ground arith in
    let nz2 : (rem - 2 == 0) ≡ false = ground arith in
    let ta : (typ == 98) ≡ false = ground arith in
    let tb : (typ == 99) ≡ false = ground arith in
    let tc : (typ == 127) ≡ false = ground arith in rw (nz, s, nz2, ta, tb, tc)

-- A fixed-width atom measures its whole width as soon as its first byte is there, however few of
-- the others are.
pub ipc_payload_len-atom_unchecked :
    (fuel : ℕ) (e : Elem) (src : List ℕ) (rem : ℕ)
    → 0 < rem
    → ipc_payload_len (suc fuel) (i8typ (atom_type e) ∷ src) rem ≡ ret (pos (1 + elem_size e))
unfolding ipc_payload_len msg_len_atom atom_width
ipc_payload_len-atom_unchecked fuel Elem.time src rem h =
    let nz : (rem == 0) ≡ false = ground arith in rw nz
ipc_payload_len-atom_unchecked fuel _ src rem h =
    let nz : (rem == 0) ≡ false = ground arith in rw nz

-- A primitive is not recognised, though `msg_len_atom` has a case for it.
pub ipc_payload_len-primitive :
    (fuel : ℕ) (p : Primitive) (src : List ℕ) (rem : ℕ)
    → 0 < rem
    → ipc_payload_len (suc fuel) (i8typ (primitive_type p) ∷ src) rem ≡ unrecognised
unfolding ipc_payload_len msg_len_vary
ipc_payload_len-primitive fuel Primitive.unary src rem h =
    let nz : (rem == 0) ≡ false = ground arith in rw nz
ipc_payload_len-primitive fuel _ src rem h = let nz : (rem == 0) ≡ false = ground arith in rw nz
