-- ===== src/Ipc/Read/New.antt =====
-- `newInstance` and what it calls (ipc++/src/KdbType.C): an object is made from the bytes at the
-- buffer's front.
use mgkdb.Prelude.{ℕ, ◌+◌, ◌^◌, Option, none, some, List, [], ◌∷◌, ltb, leb, ◌==◌, if◌then◌else◌}
use mgkdb.Ipc.Types.{KdbType, i8typ, Elem, Primitive, sz_byte, sz_int, sz_vec_hdr}
use mgkdb.Ipc.ReadBuf.{ReadResult, ReadBuf, can_read, cursor_active, adj, value}
use mgkdb.Ipc.Read.Obj.{Obj, null, onil}

-- What `newInstance` did: the result and where the buffer is, or the object that it made.
pub data New : Type 0 where
  failed : ReadResult → ReadBuf → New
  made : Obj → ReadBuf → New

-- `newAtomFromType`, for the new object.
unfoldable pub new_atom : Obj → ReadBuf → New
new_atom o b = made o (adj sz_byte b)

-- A constructor that reserves: `std::vector` throws for the size that a negative count turns into.
abbrev pub reserved : ℕ → Obj → ReadBuf → New
reserved len o b = if ltb len (2 ^ 31) then made o b else failed ReadResult.threw b

-- `newVec32`, for a class with the attribute and the count as its constructor's arguments.
unfoldable pub new_vec32 : (ℕ → ℕ → Obj) → ReadBuf → New
new_vec32 mk b =
    if can_read sz_vec_hdr b
    then (let b1 = adj 1 b in
        let b2 = adj 1 b1 in reserved (value 4 b2) (mk (value 1 b1) (value 4 b2)) (adj 4 b2))
    else failed ReadResult.rd_incomplete b

-- `KdbTable::alloc`
unfoldable pub table_alloc : ReadBuf → New
table_alloc b =
    if can_read (sz_byte + sz_byte + sz_byte) b
    then made (Obj.table null null) (adj 1 (adj 1 (adj 1 b)))
    else failed ReadResult.rd_incomplete b

-- `KdbFunction::alloc` where the cursor is active, as it is wherever `newInstance` calls it.
unfoldable pub function_alloc : ReadBuf → New
function_alloc b =
    if can_read (sz_byte + sz_byte + sz_vec_hdr) b
    then (let b2 = adj 1 (adj 1 b) in
        let b4 = adj 1 (adj 1 b2) in
        if value 1 b2 == i8typ KdbType.char_vector
        then (if leb (2 ^ 31) (value 4 b4)
            then failed ReadResult.rd_err_ipc (adj 4 b4)
            else made (Obj.function (value 4 b4) []) (adj 4 b4))
        else failed ReadResult.rd_err_ipc (adj 4 b4))
    else failed ReadResult.rd_incomplete b

-- `KdbProjection::alloc`
unfoldable pub projection_alloc : ReadBuf → New
projection_alloc b =
    if can_read (sz_byte + sz_int) b
    then (let b1 = adj 1 b in
        if leb (2 ^ 31) (value 4 b1)
        then failed ReadResult.rd_err_ipc (adj 4 b1)
        else made (Obj.projection (value 4 b1) onil) (adj 4 b1))
    else failed ReadResult.rd_incomplete b

-- The types of the switch in `newInstance`.
abbrev pub known : List KdbType
known =
    KdbType.exception ∷ KdbType.time_atom ∷ KdbType.second_atom ∷ KdbType.minute_atom
    ∷ KdbType.timespan_atom ∷ KdbType.date_atom ∷ KdbType.month_atom ∷ KdbType.timestamp_atom
    ∷ KdbType.symbol_atom ∷ KdbType.char_atom ∷ KdbType.float_atom ∷ KdbType.real_atom
    ∷ KdbType.long_atom ∷ KdbType.int_atom ∷ KdbType.short_atom ∷ KdbType.byte_atom
    ∷ KdbType.guid_atom ∷ KdbType.bool_atom ∷ KdbType.list ∷ KdbType.bool_vector
    ∷ KdbType.guid_vector ∷ KdbType.byte_vector ∷ KdbType.short_vector ∷ KdbType.int_vector
    ∷ KdbType.long_vector ∷ KdbType.real_vector ∷ KdbType.float_vector ∷ KdbType.char_vector
    ∷ KdbType.symbol_vector ∷ KdbType.timestamp_vector ∷ KdbType.month_vector ∷ KdbType.date_vector
    ∷ KdbType.timespan_vector ∷ KdbType.minute_vector ∷ KdbType.second_vector ∷ KdbType.time_vector
    ∷ KdbType.table ∷ KdbType.dict ∷ KdbType.function ∷ KdbType.unary_primitive
    ∷ KdbType.binary_primitive ∷ KdbType.ternary_primitive ∷ KdbType.projection ∷ KdbType.step_dict
    ∷ []

-- The label of the switch that a type byte goes to, if any.
unfoldable pub label : List KdbType → ℕ → Option KdbType
label [] typ = none
label (t ∷ ts) typ = let rest = label ts typ in if i8typ t == typ then some t else rest

-- The cases of the switch, on the buffer that still has the type byte.
abbrev pub new_case : KdbType → ReadBuf → New
new_case KdbType.exception b = new_atom (Obj.exception []) b
new_case KdbType.time_atom b = new_atom (Obj.atom Elem.time 0) b
new_case KdbType.second_atom b = new_atom (Obj.atom Elem.second 0) b
new_case KdbType.minute_atom b = new_atom (Obj.atom Elem.minute 0) b
new_case KdbType.timespan_atom b = new_atom (Obj.atom Elem.timespan 0) b
new_case KdbType.date_atom b = new_atom (Obj.atom Elem.date 0) b
new_case KdbType.month_atom b = new_atom (Obj.atom Elem.month 0) b
new_case KdbType.timestamp_atom b = new_atom (Obj.atom Elem.timestamp 0) b
new_case KdbType.symbol_atom b = new_atom (Obj.symbol_atom []) b
new_case KdbType.char_atom b = new_atom (Obj.atom Elem.char 0) b
new_case KdbType.float_atom b = new_atom (Obj.atom Elem.float 0) b
new_case KdbType.real_atom b = new_atom (Obj.atom Elem.real 0) b
new_case KdbType.long_atom b = new_atom (Obj.atom Elem.long 0) b
new_case KdbType.int_atom b = new_atom (Obj.atom Elem.int 0) b
new_case KdbType.short_atom b = new_atom (Obj.atom Elem.short 0) b
new_case KdbType.byte_atom b = new_atom (Obj.atom Elem.byte 0) b
new_case KdbType.guid_atom b = new_atom (Obj.atom Elem.guid 0) b
new_case KdbType.bool_atom b = new_atom (Obj.atom Elem.bool 0) b
new_case KdbType.list b = new_vec32 (λ attr n. Obj.list attr n onil) b
new_case KdbType.bool_vector b = new_vec32 (λ attr n. Obj.vector Elem.bool attr n []) b
new_case KdbType.guid_vector b = new_vec32 (λ attr n. Obj.vector Elem.guid attr n []) b
new_case KdbType.byte_vector b = new_vec32 (λ attr n. Obj.vector Elem.byte attr n []) b
new_case KdbType.short_vector b = new_vec32 (λ attr n. Obj.vector Elem.short attr n []) b
new_case KdbType.int_vector b = new_vec32 (λ attr n. Obj.vector Elem.int attr n []) b
new_case KdbType.long_vector b = new_vec32 (λ attr n. Obj.vector Elem.long attr n []) b
new_case KdbType.real_vector b = new_vec32 (λ attr n. Obj.vector Elem.real attr n []) b
new_case KdbType.float_vector b = new_vec32 (λ attr n. Obj.vector Elem.float attr n []) b
new_case KdbType.char_vector b = new_vec32 (λ attr n. Obj.vector Elem.char attr n []) b
new_case KdbType.symbol_vector b = new_vec32 (λ attr n. Obj.symbol_vector attr n [] []) b
new_case KdbType.timestamp_vector b = new_vec32 (λ attr n. Obj.vector Elem.timestamp attr n []) b
new_case KdbType.month_vector b = new_vec32 (λ attr n. Obj.vector Elem.month attr n []) b
new_case KdbType.date_vector b = new_vec32 (λ attr n. Obj.vector Elem.date attr n []) b
new_case KdbType.timespan_vector b = new_vec32 (λ attr n. Obj.vector Elem.timespan attr n []) b
new_case KdbType.minute_vector b = new_vec32 (λ attr n. Obj.vector Elem.minute attr n []) b
new_case KdbType.second_vector b = new_vec32 (λ attr n. Obj.vector Elem.second attr n []) b
new_case KdbType.time_vector b = new_vec32 (λ attr n. Obj.vector Elem.time attr n []) b
new_case KdbType.table b = table_alloc b
new_case KdbType.dict b = new_atom (Obj.dict null null) b
new_case KdbType.function b = function_alloc b
new_case KdbType.unary_primitive b = new_atom (Obj.primitive Primitive.unary 0) b
new_case KdbType.binary_primitive b = new_atom (Obj.primitive Primitive.binary 0) b
new_case KdbType.ternary_primitive b = new_atom (Obj.primitive Primitive.ternary 0) b
new_case KdbType.projection b = projection_alloc b
new_case KdbType.step_dict b = new_atom (Obj.dict null null) b
new_case KdbType.datetime_atom b = failed ReadResult.rd_err_logic b
new_case KdbType.datetime_vector b = failed ReadResult.rd_err_logic b

abbrev pub new_label : Option KdbType → ReadBuf → New
new_label none b = failed ReadResult.rd_err_logic b
new_label (some t) b = new_case t b

-- Every caller passes a pointer that it has not set, which is followed where the cursor is negative.
unfoldable pub new_instance : ReadBuf → New
unfolding label
new_instance b =
    if cursor_active b
    then (if can_read sz_byte b
        then new_label (label known (value 1 b)) b
        else failed ReadResult.rd_incomplete b)
    else failed ReadResult.undef b
