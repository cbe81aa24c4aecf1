-- ===== src/Core/Mem/Owned.antt =====
-- What a Mem owns.
use mgkdb.Prelude.{
  ℕ, List, ◌∷◌, ◌==◌, if◌then◌else◌, ◌≡◌, ap, ◌∙◌, ◌⊎◌, inl, inr, refl, Bool-cases, true, false,
  ==_iff,
}
use mgkdb.Prelude.Int.{pos, negsuc}
use mgkdb.Core.Mem.{Mem, Malloc, without, release_mem, move_mem, alloc_mem}

without-cons : (mem : ℕ) (blocks : List ℕ) → without mem (mem ∷ blocks) ≡ blocks
without-cons mem blocks = let same : mem == mem ≡ true = (==_iff mem mem).1 refl in rw same

-- `alloc_mem` answers -1 and changes nothing, or it answers 0 and the destination has the size asked
-- for and a new block. Releasing the destination then leaves the blocks that there were, also
-- the one that the destination held before.
release_mem-alloc_mem :
    (heap : Malloc) (blocks : List ℕ) (dst : Mem) (sz alignment : ℕ)
    → (alloc_mem heap blocks dst sz alignment ≡ (negsuc 0, blocks, dst))
      ⊎ (((alloc_mem heap blocks dst sz alignment).0 ≡ pos 0)
          × ((alloc_mem heap blocks dst sz alignment).2.m_sz ≡ sz)
          × ((release_mem
                (alloc_mem heap blocks dst sz alignment).1
                (alloc_mem heap blocks dst sz alignment).2).0
              ≡ blocks))
unfolding alloc_mem release_mem move_mem
release_mem-alloc_mem heap blocks dst sz alignment =
    let mem : ℕ = if alignment == 0 then heap.malloc sz else heap.aligned_alloc alignment sz in
    let given : (mem == 0) ≡ false
        → alloc_mem heap blocks dst sz alignment
          ≡ (pos 0, mem ∷ blocks, record { m_mem = mem; m_sz = sz }) =
      λ there. rw there in
    elim (Bool-cases (mem == 0)) [
      | inl none ↦ inl (rw none)
      | inr there ↦ inr (
        ap (λ r. r.0) (given there),
        ap (λ r. r.2.m_sz) (given there),
        ap (λ r. (release_mem r.1 r.2).0) (given there) ∙ rw there (without-cons mem blocks),
      )
    ]

-- Releasing again frees nothing.
release_mem-release_mem :
    (blocks : List ℕ) (m : Mem)
    → (release_mem (release_mem blocks m).0 (release_mem blocks m).1).0 ≡ (release_mem blocks m).0
unfolding release_mem
release_mem-release_mem blocks m = refl
