-- ===== src/Ipc/Write/Headers.antt =====
-- The writers' headers and the atoms (ipc++/src/KdbType.C), and their chunks.
use mgkdb.Prelude.{
  ℕ, ◌+◌, ◌≤◌, ◌<◌, ◌≡◌, ◌⊎◌, inl, inr, refl, true, false, List, [], ◌∷◌, ◌++◌, length,
  length-append, ltb, arith, Bool-cases, ltb_false→le,
}
use mgkdb.Prelude.Bytes.{le_bytes, length-le_bytes}
use mgkdb.Ipc.Types.{KdbType, Primitive, WriteResult, wr_ok, wr_incomplete, i8typ, primitive_type}
use mgkdb.Ipc.WriteBuf.{
  WriteBuf, remaining, can_write, cursor_active, put, write_value, write_typ, write_att, write_hdr,
  write_sym,
}
use mgkdb.Ipc.Object.{SymbolVector}
use mgkdb.Ipc.Write.{
  and_then, write_int_atom, write_sym_atom, write_elems, write_int_vector, write_data,
  write_symbol_vector, write_text, write_function, write_primitive, write_list_hdr, write_table_hdr,
  write_dict_hdr, write_projection_hdr,
}
use mgkdb.Ipc.Write.Chunks.{write_chunk, write_chunks, put-put}
use mgkdb.Ipc.Write.Encode.{hdr, prologue, table_hdr}

-- The header test of the writers: the chunk fits, or it does not.
pub fits_cases :
    (b : WriteBuf) (n : ℕ)
    → 0 < n
    → ((can_write b n ≡ true) × (ltb (remaining b) n ≡ false) × (n ≤ remaining b))
      ⊎ ((can_write b n ≡ false) × (ltb (remaining b) n ≡ true))
fits_cases b n h = ground arith

pub room_after :
    (c : List ℕ) (b : WriteBuf) (n : ℕ) → length c + n ≤ remaining b → n ≤ remaining (put c b)
unfolding put
room_after c b n h = omega (arith, length-append b.m_dst c)

pub value_fits :
    (w v : ℕ) (b : WriteBuf) → w ≤ remaining b → write_value w v b ≡ (true, put (le_bytes w v) b)
unfolding write_value
value_fits w v b h = let e : ltb (remaining b) w ≡ false = ground arith in rw e

-- Two values that fit together are written as one chunk.
pub values_fit :
    (v w x : ℕ) (b : WriteBuf)
    → 1 + w ≤ remaining b
    → (write_value w x (write_value 1 v b).1).1 ≡ put (le_bytes 1 v ++ le_bytes w x) b
values_fit v w x b h =
    rw
      (
        value_fits 1 v b (omega arith),
        value_fits w x (put (le_bytes 1 v) b)
            (room_after (le_bytes 1 v) b w (omega (arith, length-le_bytes 1 v))),
      )
      (put-put (le_bytes 1 v) (le_bytes w x) b)

pub and_then-ok : (m : WriteResult × WriteBuf) → and_then m (λ b. (wr_ok, b)) ≡ m
and_then-ok (wr_ok, b) = refl
and_then-ok (wr_incomplete, b) = refl

pub write_chunks-one : (c : List ℕ) (b : WriteBuf) → write_chunks (c ∷ []) b ≡ write_chunk c b
unfolding write_chunks
write_chunks-one c b = and_then-ok (write_chunk c b)

pub write_int_atom-Refines :
    (typ : KdbType) (w val : ℕ) (b : WriteBuf)
    → write_int_atom typ w val b ≡ write_chunk (le_bytes 1 (i8typ typ) ++ le_bytes w val) b
unfolding write_int_atom write_chunk
write_int_atom-Refines typ w val b =
    let n : length (le_bytes 1 (i8typ typ) ++ le_bytes w val) ≡ 1 + w = omega (
      arith,
      length-append (le_bytes 1 (i8typ typ)) (le_bytes w val),
      length-le_bytes w val,
      length-le_bytes 1 (i8typ typ),
    ) in
    elim (Bool-cases (cursor_active b)) [
      | inr neg ↦ rw (neg, n)
      | inl act ↦ elim (fits_cases b (1 + w) (omega arith)) [
        | inl (can, small, room) ↦ rw (act, can, n, small, values_fit (i8typ typ) w val b room)
        | inr (can, small) ↦ rw (act, can, n, small)
      ]
    ]

pub write_sym_atom-Refines :
    (typ : KdbType) (val : List ℕ) (b : WriteBuf)
    → write_sym_atom typ val b ≡ write_chunk (le_bytes 1 (i8typ typ) ++ (val ++ (0 ∷ []))) b
unfolding write_sym_atom write_chunk write_sym write_typ
write_sym_atom-Refines typ val b =
    let t : List ℕ = le_bytes 1 (i8typ typ) in
    let n : length (t ++ (val ++ (0 ∷ []))) ≡ 1 + length val + 1 = omega (
      arith,
      length-append t (val ++ (0 ∷ [])),
      length-append val (0 ∷ []),
      length-le_bytes 1 (i8typ typ),
    ) in
    elim (Bool-cases (cursor_active b)) [
      | inr neg ↦ rw (neg, n)
      | inl act ↦ elim (fits_cases b (1 + length val + 1) (omega arith)) [
        | inl (can, small, room) ↦
            let r : length val + 1 ≤ remaining (put t b) =
              room_after t b (length val + 1) (omega (arith, length-le_bytes 1 (i8typ typ))) in
            let test : ltb (remaining (put t b)) (length val + 1) ≡ false = ground arith in
            rw
              (act, can, n, small, value_fits 1 (i8typ typ) b (omega arith), test, put-put, put-put)
        | inr (can, small) ↦ rw (act, can, n, small)
      ]
    ]

pub write_primitive-Refines :
    (p : Primitive) (val : ℕ) (b : WriteBuf)
    → write_primitive p val b
      ≡ write_chunk (le_bytes 1 (i8typ (primitive_type p)) ++ le_bytes 1 val) b
unfolding write_primitive write_int_atom
write_primitive-Refines p val b = write_int_atom-Refines (primitive_type p) 1 val b

pub write_projection_hdr-Refines :
    (n : ℕ) (b : WriteBuf)
    → write_projection_hdr n b
      ≡ write_chunk (le_bytes 1 (i8typ KdbType.projection) ++ le_bytes 4 n) b
unfolding write_projection_hdr write_int_atom
write_projection_hdr-Refines n b = write_int_atom-Refines KdbType.projection 4 n b

pub write_dict_hdr-Refines :
    (b : WriteBuf) → write_dict_hdr b ≡ write_chunk (le_bytes 1 (i8typ KdbType.dict)) b
unfolding write_dict_hdr write_chunk write_typ write_value
write_dict_hdr-Refines b = ground arith

-- Three values that fit together are written as one chunk.
pub three_fit :
    (u v w x : ℕ) (b : WriteBuf)
    → 2 + w ≤ remaining b
    → (write_value w x (write_value 1 v (write_value 1 u b).1).1).1
      ≡ put (le_bytes 1 u ++ (le_bytes 1 v ++ le_bytes w x)) b
three_fit u v w x b h =
    rw
      (
        value_fits 1 u b (omega arith),
        values_fit v w x (put (le_bytes 1 u) b)
            (room_after (le_bytes 1 u) b (1 + w) (omega (arith, length-le_bytes 1 u))),
      )
      (put-put (le_bytes 1 u) (le_bytes 1 v ++ le_bytes w x) b)

pub write_table_hdr-Refines : (b : WriteBuf) → write_table_hdr b ≡ write_chunk table_hdr b
unfolding write_table_hdr write_chunk write_typ write_att
write_table_hdr-Refines b = elim (Bool-cases (cursor_active b)) [
  | inr neg ↦ rw neg
  | inl act ↦ elim (fits_cases b 3 (omega arith)) [
    | inl (can, small, room) ↦
        rw (act, can, small, three_fit (i8typ KdbType.table) 0 1 (i8typ KdbType.dict) b room)
    | inr (can, small) ↦ rw (act, can, small)
  ]
]

hdr_fits :
    (typ : KdbType) (attr n : ℕ) (b : WriteBuf)
    → 6 ≤ remaining b
    → write_hdr typ attr n b ≡ (true, put (hdr typ attr n) b)
unfolding write_hdr
hdr_fits typ attr n b h =
    let e : ltb (remaining b) 6 ≡ false = ground arith in rw (e, three_fit (i8typ typ) attr 4 n b h)

pub write_list_hdr-Refines :
    (attr n : ℕ) (b : WriteBuf) → write_list_hdr attr n b ≡ write_chunk (hdr KdbType.list attr n) b
unfolding write_list_hdr write_chunk
write_list_hdr-Refines attr n b = elim (Bool-cases (cursor_active b)) [
  | inr neg ↦ rw neg
  | inl act ↦ elim (Bool-cases (ltb (remaining b) 6)) [
    | inl full ↦ rw (act, full)
    | inr fits ↦ rw (act, fits, three_fit (i8typ KdbType.list) attr 4 n b (ltb_false→le _ _ fits))
  ]
]

-- A vector's writer is the chunk of its header, then its elements.
pub write_int_vector-header :
    (typ : KdbType) (attr w : ℕ) (xs : List ℕ) (b : WriteBuf)
    → write_int_vector typ attr w xs b
      ≡ and_then (write_chunk (hdr typ attr (length xs)) b) (λ b'. write_elems w xs b')
unfolding write_int_vector write_chunk
write_int_vector-header typ attr w xs b = elim (Bool-cases (cursor_active b)) [
  | inr neg ↦ rw neg
  | inl act ↦ elim (Bool-cases (ltb (remaining b) 6)) [
    | inl full ↦ rw (act, full)
    | inr fits ↦ rw (act, fits, three_fit (i8typ typ) attr 4 (length xs) b (ltb_false→le _ _ fits))
  ]
]

pub write_symbol_vector-header :
    (s : SymbolVector) (b : WriteBuf)
    → write_symbol_vector s b
      ≡ and_then
          (write_chunk (hdr KdbType.symbol_vector s.m_attr (length s.m_locs)) b)
          (λ b'. write_data s.m_data b')
unfolding write_symbol_vector write_chunk
write_symbol_vector-header s b = elim (Bool-cases (cursor_active b)) [
  | inr neg ↦ rw neg
  | inl act ↦ elim (Bool-cases (ltb (remaining b) 6)) [
    | inl full ↦ rw (act, full)
    | inr fits ↦ rw (
      act,
      fits,
      three_fit (i8typ KdbType.symbol_vector) s.m_attr 4 (length s.m_locs) b
          (ltb_false→le _ _ fits),
    )
  ]
]

pub write_function-header :
    (vec : List ℕ) (b : WriteBuf)
    → write_function vec b
      ≡ and_then (write_chunk (prologue (length vec)) b) (λ b'. write_text vec b')
unfolding write_function write_chunk write_typ write_att
write_function-header vec b = elim (Bool-cases (cursor_active b)) [
  | inr neg ↦ rw neg
  | inl act ↦ elim (fits_cases b 8 (omega arith)) [
    | inl (can, small, room) ↦
        let t : List ℕ = le_bytes 1 (i8typ KdbType.function) in
        let z : List ℕ = le_bytes 1 0 in
        let b2 = put z (put t b) in
        let r : 6 ≤ remaining b2 = room_after z (put t b) 6 (room_after t b 7 (omega arith)) in
        rw (
          act,
          can,
          small,
          value_fits 1 (i8typ KdbType.function) b (omega arith),
          value_fits 1 0 (put t b) (room_after t b 1 (omega arith)),
          hdr_fits KdbType.char_vector 0 (length vec) b2 r,
          put-put,
          put-put,
        )
    | inr (can, small) ↦ rw (act, can, small)
  ]
]
