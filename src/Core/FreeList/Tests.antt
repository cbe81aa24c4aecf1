-- ===== src/Core/FreeList/Tests.antt =====
-- Runs of the free list, and its theorems at concrete inputs.
use mgkdb.Prelude.{◌+◌, ◌≡◌, refl, true, none, some, [], ◌∷◌, arith}
use mgkdb.Prelude.Int.{pos}
use mgkdb.Core.FreeList.{FreeList, uint32_max, alloc, store, load, release, next_slot, empty}
use mgkdb.Core.FreeList.Stack.{IsValid, Done, release_overrun}
use mgkdb.Core.FreeList.Clients.{
  World, Reach, here, next, take, fresh, count, slots_are_exclusive, held_slot_release,
}

abbrev two_left : FreeList
two_left = record { m_cap = 3; m_next = 1; m_idcs = some (2 ∷ 1 ∷ uint32_max ∷ []) }

abbrev all_free : FreeList
all_free = record { m_cap = 3; m_next = 2; m_idcs = some (2 ∷ 1 ∷ 0 ∷ []) }

two_left-IsValid : IsValid two_left
two_left-IsValid = record {
  array = refl;
  full_array = refl;
  nonempty = omega arith;
  small = omega arith;
  depth = omega arith;
  word = omega arith;
}

all_free-IsValid : IsValid all_free
all_free-IsValid = record {
  array = refl;
  full_array = refl;
  nonempty = omega arith;
  small = omega arith;
  depth = omega arith;
  word = omega arith;
}

alloc_three : alloc empty 3 true ≡ (pos 0, all_free)
unfolding alloc
alloc_three = refl

release_overrun_example : release all_free 1 ≡ none
release_overrun_example = release_overrun all_free 1 all_free-IsValid refl

-- A client has taken slot 0 of three.
abbrev one_taken : World
one_taken = record { slots = two_left; held = 0 ∷ [] }

one_taken-Reach : Reach (fresh 3) one_taken
unfolding alloc next_slot store load
one_taken-Reach = next here (take 0 refl (λ e. omega arith) refl)

slots_are_exclusive_example : count 0 (1 ∷ 2 ∷ []) + count 0 (0 ∷ []) ≡ 1
slots_are_exclusive_example =
    slots_are_exclusive 3 0 one_taken (omega arith) (omega arith) one_taken-Reach

held_slot_release_example : Done two_left (release two_left 0) 0 (0 ∷ 1 ∷ 2 ∷ [])
held_slot_release_example =
    held_slot_release 3 0 one_taken [] [] (omega arith) (omega arith) one_taken-Reach refl
