-- ===== src/Ipc/Read/Obj.antt =====
-- The object tree of ipc++/include/MgKdbType.H while it is read.
use mgkdb.Prelude.{ℕ, suc, List}
use mgkdb.Ipc.Types.{KdbType, Elem, atom_type, vector_type, Primitive, primitive_type}
use mgkdb.Ipc.Object.{LocInfo}

-- The first `ℕ` of a vector or a list is its attribute; `cap` is the
-- `capacity()` of its vector, the number it was reserved for. A `Slot` is a unique_ptr.
mutual
  pub data Obj : Type 0 where
    exception : (msg : List ℕ) → Obj
    atom : Elem → (val : ℕ) → Obj
    symbol_atom : (val : List ℕ) → Obj
    vector : Elem → ℕ → (cap : ℕ) → List ℕ → Obj
    symbol_vector : ℕ → (cap : ℕ) → List LocInfo → List ℕ → Obj
    list : ℕ → (cap : ℕ) → Objs → Obj
    table : (cols vals : Slot) → Obj
    dict : (keys vals : Slot) → Obj
    function : (cap : ℕ) → List ℕ → Obj
    primitive : Primitive → (val : ℕ) → Obj
    projection : (cap : ℕ) → Objs → Obj

  pub data Slot : Type 0 where
    null : Slot
    full : Obj → Slot

  pub data Objs : Type 0 where
    onil : Objs
    ocons : Obj → Objs → Objs

-- `m_typ`
unfoldable pub m_typ : Obj → KdbType
m_typ (Obj.exception msg) = KdbType.exception
m_typ (Obj.atom e val) = atom_type e
m_typ (Obj.symbol_atom val) = KdbType.symbol_atom
m_typ (Obj.vector e attr cap xs) = vector_type e
m_typ (Obj.symbol_vector attr cap locs syms) = KdbType.symbol_vector
m_typ (Obj.list attr cap os) = KdbType.list
m_typ (Obj.table cols vals) = KdbType.table
m_typ (Obj.dict keys vals) = KdbType.dict
m_typ (Obj.function cap vec) = KdbType.function
m_typ (Obj.primitive p val) = primitive_type p
m_typ (Obj.projection cap os) = KdbType.projection

-- `m_vals.size()`
abbrev pub osize : Objs → ℕ
osize onil = 0
osize (ocons o os) = suc (osize os)
