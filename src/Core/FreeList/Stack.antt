-- ===== src/Core/FreeList/Stack.antt =====
-- The abstract view of a FreeList (core/src/FreeList.C): the slots that are free, in order.
use mgkdb.Prelude.{
  ℕ, zero, suc, ◌+◌, ◌-◌, ◌≤◌, ◌<◌, ◌≡◌, refl, ap, ap₂, true, false, Option, none, some, List, [],
  ◌∷◌, length, set, get_elem?, get_or, ltb, ◌==◌, arith, length-set, get_or-set_self, get_or-set_ne,
  Bool-cases, lt→ltb, inl, inr, ◌∙◌,
}
use mgkdb.Prelude.Int.{pos, negsuc}
use mgkdb.Core.FreeList.{
  FreeList, uint32_max, inc, dec, fill, alloc, store, load, release, next_slot, size,
}

abbrev pub idcs : FreeList → List ℕ
idcs l = elim l.m_idcs [ none ↦ [] | some xs ↦ xs ]

-- The `n` first entries, the last of them first.
abbrev pub stack_below : List ℕ → ℕ → List ℕ
stack_below xs zero = []
stack_below xs (suc n) = get_or xs n 0 ∷ stack_below xs n

-- The slots that are free, the one that `next_slot` gives out next at the head.
abbrev pub free_slots : FreeList → List ℕ
free_slots l = stack_below (idcs l) (inc l.m_next)

pub record IsValid (l : FreeList) : Type 0 where
  pub array : l.m_idcs ≡ some (idcs l)
  pub full_array : length (idcs l) ≡ l.m_cap
  pub nonempty : 0 < l.m_cap
  pub small : l.m_cap < uint32_max
  pub depth : inc l.m_next ≤ l.m_cap
  pub word : l.m_next ≤ uint32_max

stack_below-set : (xs : List ℕ) (i v n : ℕ) → n ≤ i → stack_below (set xs i v) n ≡ stack_below xs n
stack_below-set xs i v zero h = refl
stack_below-set xs i v (suc n) h =
    ap₂ ◌∷◌ (get_or-set_ne xs v 0 (omega arith)) (stack_below-set xs i v n (omega arith))

pub length-stack_below : (xs : List ℕ) (n : ℕ) → length (stack_below xs n) ≡ n
length-stack_below xs zero = refl
length-stack_below xs (suc n) = ap suc (length-stack_below xs n)

get_elem?-in : (xs : List ℕ) (i : ℕ) → i < length xs → get_elem? xs i ≡ some (get_or xs i 0)
get_elem?-in [] i h = absurd (omega arith)
get_elem?-in (x ∷ xs) zero h = refl
get_elem?-in (x ∷ xs) (suc i) h = get_elem?-in xs i (omega arith)

stack_below_step : (xs : List ℕ) (n : ℕ) → stack_below xs (n + 1) ≡ get_or xs n 0 ∷ stack_below xs n
stack_below_step xs n = let e : n + 1 ≡ suc n = omega arith in rw e

-- `inc` and `dec` undo one another on words.
pub inc-dec : (n : ℕ) → n ≤ uint32_max → inc (dec n) ≡ n
inc-dec n h = omega arith

abbrev mk : ℕ → ℕ → Option (List ℕ) → FreeList
mk cap next o = record { m_cap = cap; m_next = next; m_idcs = o }

-- What an operation that gives `out` and leaves the slots `slots` free has done.
pub record Done (l : FreeList) (r : Option (ℕ × FreeList)) (out : ℕ) (slots : List ℕ) : Type 0 where
  pub after : FreeList
  pub returns : r ≡ some (out, after)
  pub slots_after : free_slots after ≡ slots
  pub valid_after : IsValid after
  pub cap_after : after.m_cap ≡ l.m_cap

-- The head of the stack, or UINT32_MAX.
abbrev pub top : List ℕ → ℕ
top [] = uint32_max
top (x ∷ xs) = x

abbrev pub rest : List ℕ → List ℕ
rest [] = []
rest (x ∷ xs) = xs

next_slot-mk :
    (cap next : ℕ) (o : Option (List ℕ))
    → (let l = mk cap next o in
        IsValid l → Done l (next_slot l) (top (free_slots l)) (rest (free_slots l)))
unfolding next_slot store load
next_slot-mk cap next none v = cc (v.array)
next_slot-mk cap next (some xs) v = elim (Bool-cases (next == uint32_max)) [
  | inl e ↦
      let z : inc next ≡ 0 = ground arith in
      record {
        after = mk cap next (some xs);
        returns = rw (e, z);
        slots_after = rw z;
        valid_after = v;
        cap_after = refl;
      }
  | inr e ↦
      let z : inc next ≡ suc next = ground (arith, v.word) in
      let d : inc (dec next) ≡ next = inc-dec next v.word in
      record {
        after = mk cap (dec next) (some (set xs next uint32_max));
        returns = rw (
          e,
          z,
          get_elem?-in xs next (omega (arith, v.depth, v.full_array)),
          lt→ltb next (length xs) (omega (arith, v.depth, v.full_array)),
        );
        slots_after = rw (d, z, stack_below-set xs next uint32_max next (omega arith));
        valid_after = record {
          array = refl;
          full_array = length-set xs next uint32_max ∙ v.full_array;
          nonempty = v.nonempty;
          small = v.small;
          depth = omega (arith, v.depth);
          word = omega arith;
        };
        cap_after = refl;
      }
]

release-mk :
    (cap next idx : ℕ) (o : Option (List ℕ))
    → (let l = mk cap next o in
        IsValid l → length (free_slots l) < cap → Done l (release l idx) 0 (idx ∷ free_slots l))
unfolding release store
release-mk cap next idx none v h = cc (v.array)
release-mk cap next idx (some xs) v h =
    let n : inc next < cap = omega (arith, h, length-stack_below xs (inc next)) in
    let e : (next == cap) ≡ false = ground (arith, n, v.small, v.word, v.depth) in
    let z : inc (inc next) ≡ suc (inc next) = omega (arith, v.small) in
    record {
      after = mk cap (inc next) (some (set xs (inc next) idx));
      returns = rw (e, lt→ltb (inc next) (length xs) (omega (arith, v.full_array)));
      slots_after = rw (
        z,
        get_or-set_self xs (inc next) idx 0 (omega (arith, v.full_array)),
        stack_below-set xs (inc next) idx (inc next) (omega arith),
      );
      valid_after = record {
        array = refl;
        full_array = length-set xs (inc next) idx ∙ v.full_array;
        nonempty = v.nonempty;
        small = v.small;
        depth = omega arith;
        word = omega (arith, v.small);
      };
      cap_after = refl;
    }

-- On a valid list `next_slot` returns the top free slot, or UINT32_MAX where there is none, and
-- takes it off; it stays inside the array and keeps the list valid.
pub next_slot_lem :
    (l : FreeList) → IsValid l → Done l (next_slot l) (top (free_slots l)) (rest (free_slots l))
next_slot_lem l v = next_slot-mk l.m_cap l.m_next l.m_idcs v

-- On a valid list with a slot in use `release` returns 0 and puts the slot on top of the free
-- ones; it stays inside the array and keeps the list valid.
pub release_lem :
    (l : FreeList) (idx : ℕ)
    → IsValid l
    → length (free_slots l) < l.m_cap
    → Done l (release l idx) 0 (idx ∷ free_slots l)
release_lem l idx v h = release-mk l.m_cap l.m_next idx l.m_idcs v h

release_overrun_mk :
    (cap next idx : ℕ) (o : Option (List ℕ))
    → (let l = mk cap next o in IsValid l → length (free_slots l) ≡ cap → release l idx ≡ none)
unfolding release store
release_overrun_mk cap next idx none v h = cc (v.array)
release_overrun_mk cap next idx (some xs) v h =
    let n : inc next ≡ cap = omega (arith, h, length-stack_below xs (inc next)) in
    let e : (next == cap) ≡ false = ground (arith, n, v.small, v.word, v.depth) in
    let f : ltb (inc next) (length xs) ≡ false = ground (arith, n, v.full_array) in rw (e, f)

-- On a valid list whose slots are all free `release` writes behind the array's end: its test of
-- `m_next == m_cap` does not see that list, whose `m_next` is `m_cap - 1`.
pub release_overrun :
    (l : FreeList) (idx : ℕ) → IsValid l → length (free_slots l) ≡ l.m_cap → release l idx ≡ none
release_overrun l idx v h = release_overrun_mk l.m_cap l.m_next idx l.m_idcs v h

-- On a valid list `size` and the number of free slots make up the capacity.
pub size-free_slots : (l : FreeList) → IsValid l → size l + length (free_slots l) ≡ l.m_cap
unfolding size
size-free_slots l v =
    omega (arith, length-stack_below (idcs l) (inc l.m_next), v.depth, v.word, v.small)

-- The numbers from `i` on, `n` of them.
abbrev pub iota : ℕ → ℕ → List ℕ
iota zero i = []
iota (suc n) i = i ∷ iota n (i + 1)

get_or-fill : (cap n i k : ℕ) → k < n → get_or (fill cap n i) k 0 ≡ cap - 1 - (i + k)
unfolding fill
get_or-fill cap zero i k h = elim h [ ]
get_or-fill cap (suc n) i zero h = omega arith
get_or-fill cap (suc n) i (suc k) h = omega (arith, get_or-fill cap n (i + 1) k (omega arith))

length-fill : (cap n i : ℕ) → length (fill cap n i) ≡ n
unfolding fill
length-fill cap zero i = refl
length-fill cap (suc n) i = ap suc (length-fill cap n (i + 1))

stack_below-fill : (cap m j : ℕ) → m + j ≡ cap → stack_below (fill cap cap 0) m ≡ iota m j
stack_below-fill cap zero j h = refl
stack_below-fill cap (suc m) j h =
    ap₂ ◌∷◌ (omega (arith, get_or-fill cap cap 0 m (omega arith)))
      (stack_below-fill cap m (j + 1) (omega arith))

-- `alloc` of a capacity from 1 to UINT32_MAX - 1, if the memory is there, returns 0 and a valid
-- list that gives out the slots 0, 1, … cap - 1 in that order; with capacity 0, or without the
-- memory, it returns -1 and leaves the list alone.
pub alloc_lem :
    (l : FreeList) (cap : ℕ)
    → 0 < cap
    → cap < uint32_max
    → (alloc l 0 true ≡ (negsuc 0, l))
      × (alloc l cap false ≡ (negsuc 0, l))
      × ((alloc l cap true).0 ≡ pos 0)
      × (free_slots (alloc l cap true).1 ≡ iota cap 0)
      × IsValid (alloc l cap true).1
unfolding alloc
alloc_lem l cap p h =
    let is_pos : (cap == 0) ≡ false = ground arith in
    let e : inc (cap - 1) ≡ cap = omega arith in
    (
      refl,
      ground arith,
      rw is_pos,
      rw (is_pos, e, stack_below-fill cap cap 0 (omega arith)),
      rw is_pos (record {
        array = refl;
        full_array = length-fill cap cap 0;
        nonempty = p;
        small = h;
        depth = omega arith;
        word = omega arith;
      }),
    )
