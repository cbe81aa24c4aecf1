-- ===== src/Core/FreeList.antt =====
-- src/core/src/FreeList.C and include/MgFreeList.H: a stack of free slot indices in an array.
pub mod Stack
pub mod Clients
mod Tests
use mgkdb.Prelude.{
  ℕ, zero, suc, ◌+◌, ◌-◌, ◌%◌, ◌^◌, Bool, true, false, Option, none, some, List, [], ◌∷◌, length,
  set, get_elem?, ltb, ◌==◌, if◌then◌else◌,
}
use mgkdb.Prelude.Int.{ℤ, pos, negsuc}

abbrev pub uint32_max : ℕ
uint32_max = 0xffff_ffff

-- uint32_t `i + 1` and `i - 1`.
abbrev pub inc : ℕ → ℕ
inc i = (i + 1) % 2 ^ 32

abbrev pub dec : ℕ → ℕ
dec i = (i + 2 ^ 32 - 1) % 2 ^ 32

-- `m_idcs` is `none` for nullptr; the list has the array's length.
pub record FreeList : Type 0 where
  pub m_cap : ℕ
  pub m_next : ℕ
  pub m_idcs : Option (List ℕ)

-- The default constructor.
abbrev pub empty : FreeList
empty = record { m_cap = 0; m_next = 0; m_idcs = none }

-- `idcs[i] = cap - 1 - i` for the `n` indices from `i` on.
fill : ℕ → ℕ → ℕ → List ℕ
fill cap zero i = []
fill cap (suc n) i = (cap - 1 - i) ∷ fill cap n (i + 1)

-- The int that it returns, and the list; `fits` says whether `new uint32_t[cap]` succeeds.
pub alloc : FreeList → ℕ → Bool → ℤ × FreeList
unfolding fill
alloc list cap fits =
    if cap == 0
    then (negsuc 0, list)
    else if fits
    then (pos 0, record { m_cap = cap; m_next = cap - 1; m_idcs = some (fill cap cap 0) })
    else (negsuc 0, list)

-- `idcs[i] = v`; `none` is a write outside the array, or through nullptr.
store : Option (List ℕ) → ℕ → ℕ → Option (List ℕ)
store none i v = none
store (some xs) i v = if ltb i (length xs) then some (set xs i v) else none

load : Option (List ℕ) → ℕ → Option ℕ
load none i = none
load (some xs) i = get_elem? xs i

-- The result and the new list; `none` is undefined behaviour.
pub release : FreeList → ℕ → Option (ℕ × FreeList)
unfolding store
release l idx =
    if l.m_next == l.m_cap then some (uint32_max, l) else elim (store l.m_idcs (inc l.m_next) idx) [
      | none ↦ none
      | some a ↦ some (0, record l { m_next = inc l.m_next; m_idcs = some a })
    ]

pub next_slot : FreeList → Option (ℕ × FreeList)
unfolding store load
next_slot l =
    if l.m_next == uint32_max then some (uint32_max, l) else elim (load l.m_idcs l.m_next) [
      | none ↦ none
      | some idx ↦ elim (store l.m_idcs l.m_next uint32_max) [
        | none ↦ none
        | some a ↦ some (idx, record l { m_next = dec l.m_next; m_idcs = some a })
      ]
    ]

-- uint32_t `m_cap - m_next - 1`.
pub size : FreeList → ℕ
size l = (l.m_cap + 2 ^ 32 + 2 ^ 32 - l.m_next - 1) % 2 ^ 32

-- `move_from`: what the target and the source are afterwards.
pub move_from : FreeList → FreeList × FreeList
move_from rhs = (rhs, record { m_cap = 0; m_next = uint32_max; m_idcs = none })
