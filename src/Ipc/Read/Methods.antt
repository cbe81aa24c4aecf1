-- ===== src/Ipc/Read/Methods.antt =====
-- The `read` methods (ipc++/src/KdbType.C): an object is filled by calls of `read`, each with a
-- buffer of its own.
use mgkdb.Prelude.{
  ℕ, zero, suc, ◌+◌, ◌-◌, ◌*◌, ◌/◌, Bool, true, Option, none, some, List, length, min, ltb, ◌==◌,
  if◌then◌else◌,
}
use mgkdb.Ipc.Types.{KdbType, i8typ, Elem, elem_size, Primitive, sz_byte, sz_int, sz_vec_hdr}
use mgkdb.Ipc.Object.{LocInfo}
use mgkdb.Ipc.ReadBuf.{
  ReadResult, ReadBuf, remaining, can_read, cursor_active, ffwd, adj, pass, value, read_vec, SymOut,
  sym_out, read_sym, SymsOut, syms_out, read_syms,
}
use mgkdb.Ipc.Read.Obj.{Obj, Slot, null, full, Objs, onil, ocons, osize, m_typ}
use mgkdb.Ipc.Read.New.{New, failed, made, new_instance}

-- The result of a call of `read`, the object and the buffer behind it.
pub data Out : Type 0 where
  out : ReadResult → Obj → ReadBuf → Out

-- The same for a member that points to an object, and for the elements of a list.
pub data SlotOut : Type 0 where
  slot_out : ReadResult → Slot → ReadBuf → SlotOut

pub data ListOut : Type 0 where
  list_out : ReadResult → Objs → ReadBuf → ListOut

abbrev pub from_sym : (List ℕ → Obj) → SymOut → Out
from_sym mk (sym_out rr str b) = out rr (mk str) b

abbrev pub from_syms : ℕ → ℕ → SymsOut → Out
from_syms attr cap (syms_out rr locs syms b) = out rr (Obj.symbol_vector attr cap locs syms) b

-- `KdbException::read` and `KdbSymbolAtom::read`
unfoldable pub read_text : (List ℕ → Obj) → List ℕ → ReadBuf → Out
read_text mk str b =
    let b1 = pass sz_byte b in
    if cursor_active b1
    then from_sym mk (read_sym str b1)
    else out ReadResult.rd_ok (mk str) (ffwd (length str + sz_byte) b1)

-- `readIntAtom`
unfoldable pub read_int_atom : Elem → ℕ → ReadBuf → Out
read_int_atom e val b =
    let b1 = pass sz_byte b in
    if cursor_active b1
    then (if ltb (remaining b1) (elem_size e)
        then out ReadResult.rd_incomplete (Obj.atom e val) b1
        else out ReadResult.rd_ok (Obj.atom e (value (elem_size e) b1)) (adj (elem_size e) b1))
    else out ReadResult.rd_ok (Obj.atom e val) (ffwd (elem_size e) b1)

-- What `readIntVector` does for `elm` elements that are there, to the result of its last line.
unfoldable pub insert : ℕ → ℕ → List ℕ → ℕ → ReadBuf → ReadResult × List ℕ × ReadBuf
unfolding read_vec
insert w cap vec elm b =
    if ltb 0 elm
    then (let r = read_vec w vec elm b in
        if elm == r.0
        then (if cap == length r.1 then ReadResult.rd_ok else ReadResult.rd_incomplete, r.1, r.2)
        else (ReadResult.rd_incomplete, r.1, r.2))
    else (if cap == length vec then ReadResult.rd_ok else ReadResult.rd_incomplete, vec, b)

-- `readIntVector`
unfoldable pub read_int_vector : Elem → ℕ → ℕ → List ℕ → ReadBuf → Out
unfolding insert
read_int_vector e attr cap vec b =
    let b1 = ffwd (elem_size e * length vec) (pass sz_vec_hdr b) in
    if length vec == cap
    then out ReadResult.rd_ok (Obj.vector e attr cap vec) b1
    else let elm = min (cap - length vec) (remaining b1 / elem_size e) in
      let r = insert (elem_size e) cap vec elm b1 in out r.0 (Obj.vector e attr cap r.1) r.2

-- `KdbSymbolVector::read`
unfoldable pub read_symbols : ℕ → ℕ → List LocInfo → List ℕ → ReadBuf → Out
read_symbols attr cap locs syms b =
    let b1 = ffwd (length syms) (pass sz_vec_hdr b) in
    if length locs == cap
    then out ReadResult.rd_ok (Obj.symbol_vector attr cap locs syms) b1
    else from_syms attr cap (read_syms (cap - length locs) locs syms b1)

-- What `KdbFunction::read` does for `elm` bytes that are there, of `rqd` that are missing.
unfoldable pub insert_bytes : ℕ → List ℕ → ℕ → ℕ → ReadBuf → Out
unfolding read_vec
insert_bytes cap vec rqd elm b =
    if ltb 0 elm
    then (let r = read_vec 1 vec elm b in
        out (if rqd == r.0 then ReadResult.rd_ok else ReadResult.rd_incomplete)
          (Obj.function cap r.1) r.2)
    else out ReadResult.rd_incomplete (Obj.function cap vec) b

-- `KdbFunction::read`
unfoldable pub read_function : ℕ → List ℕ → ReadBuf → Out
unfolding insert_bytes
read_function cap vec b =
    let b1 = ffwd (length vec) (pass (sz_byte + sz_byte + sz_vec_hdr) b) in
    if length vec == cap
    then out ReadResult.rd_ok (Obj.function cap vec) b1
    else let rqd = cap - length vec in insert_bytes cap vec rqd (min rqd (remaining b1)) b1

-- `KdbPrimitive<T>::read`
unfoldable pub read_primitive : Primitive → ℕ → ReadBuf → Out
read_primitive p val b =
    let b1 = pass sz_byte b in
    if cursor_active b1
    then (if can_read sz_byte b1
        then out ReadResult.rd_ok (Obj.primitive p (value 1 b1)) (adj 1 b1)
        else out ReadResult.rd_incomplete (Obj.primitive p val) b1)
    else out ReadResult.rd_ok (Obj.primitive p val) (ffwd sz_byte b1)

-- Is the object of the type that is asked for?
abbrev pub wanted : Option KdbType → Obj → Bool
wanted none o = true
wanted (some t) o = i8typ (m_typ o) == i8typ t

-- The results of the methods from those of their calls.
abbrev pub to_slot : Out → SlotOut
to_slot (out rr o b) = slot_out rr (full o) b

abbrev pub to_pair : (Slot → Slot → Obj) → Slot → SlotOut → Out
to_pair mk s (slot_out rr t b) = out rr (mk s t) b

abbrev pub before : Obj → ListOut → ListOut
before x (list_out rr xs b) = list_out rr (ocons x xs) b

abbrev pub to_list : (Objs → Obj) → ListOut → Out
to_list mk (list_out rr os b) = out rr (mk os) b

-- A loop's round behind the `read` of an element: it goes on where the result is RD_OK.
unfoldable pub onward : Out → Objs → (ReadBuf → ListOut) → ListOut
onward (out ReadResult.rd_ok o b) os go = before o (go b)
onward (out rr o b) os go = list_out rr (ocons o os) b

-- The methods that call `read` on what the object holds, with `call` for those calls.
module _ (call : Obj → ReadBuf → Out) where
  -- A member of a table or a dictionary: made where the cursor is active, if it is of the type that
  -- is asked for, and read.
  unfoldable pub read_made : Option KdbType → Slot → New → SlotOut
  unfolding m_typ
  read_made want slot (failed rr b) = slot_out rr slot b
  read_made want slot (made o b) =
      if wanted want o then to_slot (call o b) else slot_out ReadResult.rd_err_ipc slot b

  unfoldable pub read_held : Slot → ReadBuf → SlotOut
  read_held null b = slot_out ReadResult.undef null b
  read_held (full o) b = to_slot (call o b)

  unfoldable pub read_member : Option KdbType → Slot → ReadBuf → SlotOut
  unfolding read_made read_held
  read_member want slot b =
      if cursor_active b then read_made want slot (new_instance b) else read_held slot b

  -- The second member is read once the first is there.
  unfoldable pub read_second : (Slot → Slot → Obj) → Option KdbType → Slot → SlotOut → Out
  unfolding read_member
  read_second mk want t (slot_out ReadResult.rd_ok s b) = to_pair mk s (read_member want t b)
  read_second mk want t (slot_out rr s b) = out rr (mk s t) b

  -- `KdbTable::read`
  unfoldable pub read_table : Slot → Slot → ReadBuf → Out
  unfolding read_second
  read_table cols vals b =
      read_second Obj.table (some KdbType.list) vals
        (read_member (some KdbType.symbol_vector) cols (pass (sz_byte + sz_byte + sz_byte) b))

  -- `KdbDict::read`
  unfoldable pub read_dict : Slot → Slot → ReadBuf → Out
  unfolding read_second
  read_dict keys vals b = read_second Obj.dict none vals (read_member none keys (pass sz_byte b))

  -- The loop over the elements that are there.
  unfoldable pub read_olds : Objs → (ReadBuf → ListOut) → ReadBuf → ListOut
  unfolding onward
  read_olds onil go b = go b
  read_olds (ocons o os) go b = onward (call o b) os (λ b'. read_olds os go b')

  -- The loop from `m_vals.size()` to `cap`, with the elements it pushes.
  unfoldable pub read_news : ℕ → ReadBuf → ListOut
  unfolding onward
  read_news zero b = list_out ReadResult.rd_ok onil b
  read_news (suc n) b = elim (new_instance b) [
    | failed rr b' ↦ list_out rr onil b'
    | made o b' ↦ onward (call o b') onil (λ b''. read_news n b'')
  ]

  -- The two loops of `KdbList::read` and `KdbProjection::read`.
  unfoldable pub read_elements : ℕ → Objs → ReadBuf → ListOut
  unfolding read_olds read_news
  read_elements cap os b = read_olds os (λ b'. read_news (cap - osize os) b') b

  -- The method of the object's class.
  unfoldable pub read_method : Obj → ReadBuf → Out
  read_method (Obj.exception msg) b = read_text Obj.exception msg b
  read_method (Obj.atom e val) b = read_int_atom e val b
  read_method (Obj.symbol_atom val) b = read_text Obj.symbol_atom val b
  read_method (Obj.vector e attr cap xs) b = read_int_vector e attr cap xs b
  read_method (Obj.symbol_vector attr cap locs syms) b = read_symbols attr cap locs syms b
  read_method (Obj.list attr cap os) b =
      to_list (λ os'. Obj.list attr cap os') (read_elements cap os (pass sz_vec_hdr b))
  read_method (Obj.table cols vals) b = read_table cols vals b
  read_method (Obj.dict keys vals) b = read_dict keys vals b
  read_method (Obj.function cap vec) b = read_function cap vec b
  read_method (Obj.primitive p val) b = read_primitive p val b
  read_method (Obj.projection cap os) b =
      to_list (λ os'. Obj.projection cap os') (read_elements cap os (pass (sz_byte + sz_int) b))

-- `read`, with fuel for how deep the calls nest.
unfoldable pub read : ℕ → Obj → ReadBuf → Out
unfolding read_method
read zero o b = out ReadResult.stuck o b
read (suc fuel) o b = read_method (read fuel) o b
