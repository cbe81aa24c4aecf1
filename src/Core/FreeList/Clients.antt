-- ===== src/Core/FreeList/Clients.antt =====
-- Clients that take slots and give back slots that they hold, in any order.
use mathlib.Core.Logic.{◌≢◌}
use mgkdb.Prelude.{
  ℕ, zero, suc, ◌+◌, ◌<◌, ◌≡◌, refl, ap, sym, ◌∙◌, none, some, List, [], ◌∷◌, ◌++◌, length, ◌==◌,
  ltb, leb, if◌then◌else◌, arith, length-append, true,
}
use mgkdb.Core.FreeList.{FreeList, uint32_max, alloc, release, next_slot}
use mgkdb.Core.FreeList.Stack.{
  free_slots, IsValid, Done, top, rest, iota, next_slot_lem, release_lem, alloc_lem,
}

-- How often `i` stands in a list.
abbrev pub count : ℕ → List ℕ → ℕ
count i [] = 0
count i (x ∷ xs) = (if i == x then 1 else 0) + count i xs

count-append : (i : ℕ) (xs ys : List ℕ) → count i (xs ++ ys) ≡ count i xs + count i ys
count-append i [] ys = omega arith
count-append i (x ∷ xs) ys = omega (arith, count-append i xs ys)

-- The list and the slots that clients hold.
pub record World : Type 0 where
  pub slots : FreeList
  pub held : List ℕ

-- A client takes a slot, if `next_slot` does not answer UINT32_MAX, or gives back one it holds.
pub data Step : World → World → Type 0 where
  take :
      {w w' : World} (i : ℕ)
      → next_slot w.slots ≡ some (i, w'.slots)
      → i ≢ uint32_max
      → w'.held ≡ i ∷ w.held
      → Step w w'
  give :
      {w w' : World} (i r : ℕ) (front back : List ℕ)
      → w.held ≡ front ++ (i ∷ back)
      → release w.slots i ≡ some (r, w'.slots)
      → w'.held ≡ front ++ back
      → Step w w'

pub data Reach (w : World) : World → Type 0 where
  here : Reach w w
  next : {u v : World} → Reach w u → Step u v → Reach w v

-- Every slot below the capacity is free once or held once.
pub record IsSound (cap : ℕ) (w : World) : Type 0 where
  pub valid : IsValid w.slots
  pub cap_kept : w.slots.m_cap ≡ cap
  pub total : length (free_slots w.slots) + length w.held ≡ cap
  pub split : (i : ℕ) → count i (free_slots w.slots) + count i w.held ≡ count i (iota cap 0)

module _ {cap : ℕ} {w w' : World} (s : IsSound cap w) where
  -- `after` of a known result is the list in that result.
  take-IsSound :
      (xs : List ℕ) (i : ℕ)
      → free_slots w.slots ≡ xs
      → Done w.slots (next_slot w.slots) (top xs) (rest xs)
      → next_slot w.slots ≡ some (i, w'.slots)
      → i ≢ uint32_max
      → w'.held ≡ i ∷ w.held
      → IsSound cap w'
  take-IsSound [] i e d r ne h = absurd (ne (ground (arith, d.returns)))
  take-IsSound (x ∷ xs) i e d r ne h =
      let k : i ≡ x = ground (arith, d.returns) in
      let a : d.after ≡ w'.slots = ground (arith, d.returns) in
      let f : free_slots w'.slots ≡ xs = rw a at d.slots_after in
      record {
        valid = rw a at d.valid_after;
        cap_kept = sym (ap (λ (l : FreeList). l.m_cap) a) ∙ d.cap_after ∙ s.cap_kept;
        total = rw (f, h) (omega (arith, s.total, ap (length {0}) e));
        split = λ j. rw (f, h, k) (omega (arith, s.split j, ap (count j) e));
      }

  give-IsSound :
      (i r : ℕ) (front back : List ℕ)
      → Done w.slots (release w.slots i) 0 (i ∷ free_slots w.slots)
      → w.held ≡ front ++ (i ∷ back)
      → release w.slots i ≡ some (r, w'.slots)
      → w'.held ≡ front ++ back
      → IsSound cap w'
  give-IsSound i r front back d h e h' =
      let a : d.after ≡ w'.slots = ground (arith, d.returns) in
      let f : free_slots w'.slots ≡ i ∷ free_slots w.slots = rw a at d.slots_after in
      record {
        valid = rw a at d.valid_after;
        cap_kept = sym (ap (λ (l : FreeList). l.m_cap) a) ∙ d.cap_after ∙ s.cap_kept;
        total =
            rw (f, h', length-append)
              (omega (arith, s.total, ap (length {0}) h, length-append front (i ∷ back)));
        split = λ j.
            rw (f, h', count-append)
              (omega (arith, s.split j, ap (count j) h, count-append j front (i ∷ back)));
      }

room :
    {cap : ℕ} {w : World} (i : ℕ) (front back : List ℕ)
    → IsSound cap w
    → w.held ≡ front ++ (i ∷ back)
    → length (free_slots w.slots) < w.slots.m_cap
room i front back s h =
    omega (arith, s.total, s.cap_kept, ap (length {0}) h, length-append front (i ∷ back))

Step-IsSound : {cap : ℕ} {w w' : World} → Step w w' → IsSound cap w → IsSound cap w'
Step-IsSound (take {w} i e ne h) s =
    take-IsSound s (free_slots w.slots) i refl (next_slot_lem w.slots s.valid) e ne h
Step-IsSound (give {w} i r front back h e h') s =
    give-IsSound s i r front back (release_lem w.slots i s.valid (room i front back s h)) h e h'

-- The world after `alloc`, before a client has called.
abbrev pub fresh : ℕ → World
fresh cap = record {
  slots = (alloc (record { m_cap = 0; m_next = 0; m_idcs = none }) cap true).1;
  held = [];
}

Reach-IsSound : {cap : ℕ} {w w' : World} → IsSound cap w → Reach w w' → IsSound cap w'
Reach-IsSound s here = s
Reach-IsSound s (next r st) = Step-IsSound st (Reach-IsSound s r)

length-iota : (n i : ℕ) → length (iota n i) ≡ n
length-iota zero i = refl
length-iota (suc n) i = ap suc (length-iota n (i + 1))

m_cap-alloc : (cap : ℕ) → 0 < cap → (fresh cap).slots.m_cap ≡ cap
unfolding alloc
m_cap-alloc cap p = ground arith

fresh-IsSound : (cap : ℕ) → 0 < cap → cap < uint32_max → IsSound cap (fresh cap)
fresh-IsSound cap p h =
    let a = alloc_lem (record { m_cap = 0; m_next = 0; m_idcs = none }) cap p h in
    record {
      valid = a.4;
      cap_kept = m_cap-alloc cap p;
      total = rw a.3 (omega (arith, length-iota cap 0));
      split = λ i. rw a.3 (omega arith);
    }

count-iota :
    (i n j : ℕ) → count i (iota n j) ≡ (if leb j i then (if ltb i (j + n) then 1 else 0) else 0)
count-iota i zero j = ground arith
count-iota i (suc n) j = ground (arith, count-iota i n (j + 1))

-- From a fresh list of `cap` slots, however clients take slots and give back slots that they
-- hold: each slot below `cap` is either free once or held once, and no other index is either.
pub slots_are_exclusive :
    (cap i : ℕ) (w : World)
    → 0 < cap
    → cap < uint32_max
    → Reach (fresh cap) w
    → count i (free_slots w.slots) + count i w.held ≡ (if ltb i cap then 1 else 0)
slots_are_exclusive cap i w p h r =
    let below : (if leb 0 i then (if ltb i (0 + cap) then 1 else 0) else 0)
        ≡ (if ltb i cap then 1 else 0) =
      ground arith in
    (Reach-IsSound (fresh-IsSound cap p h) r).split i ∙ count-iota i cap 0 ∙ below

-- From a fresh list of `cap` slots, however clients take slots and give back slots that they
-- hold: giving back a held slot answers 0, stays inside the array and makes it the first free slot.
pub held_slot_release :
    (cap i : ℕ) (w : World) (front back : List ℕ)
    → 0 < cap
    → cap < uint32_max
    → Reach (fresh cap) w
    → w.held ≡ front ++ (i ∷ back)
    → Done w.slots (release w.slots i) 0 (i ∷ free_slots w.slots)
held_slot_release cap i w front back p h r e =
    let s = Reach-IsSound (fresh-IsSound cap p h) r in
    release_lem w.slots i s.valid (room i front back s e)
