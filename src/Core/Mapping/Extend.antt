-- ===== src/Core/Mapping/Extend.antt =====
-- `ReservedMapping::extend_active_to_include` (core/src/MapTypes.C).
use mgkdb.Prelude.{
  ℕ, ◌+◌, ◌-◌, ◌*◌, ◌/◌, ◌^◌, ◌≤◌, ◌<◌, ◌≡◌, ◌⊎◌, inl, inr, refl, true, false, leb, if◌then◌else◌,
  arith,
}
use mgkdb.Prelude.Int.{pos, negsuc, is_nonneg}
use mgkdb.Core.Extents.{u64, less64, bytes64, difference, from_bytes_align_up}
use mgkdb.Core.Mapping.{
  MapResult, mapped, map_err, Os, ReservedMapping, end_addr, less_head, steal_head_pages,
  extend_active_to_include,
}

-- From `base` on, `total` pages: first the active mapping, then the reserved one.
pub record IsLaidOut (os : Os) (base total : ℕ) (p : ReservedMapping) : Type 0 where
  pub start : p.m_actv.m_addr ≡ base
  pub there : 0 < base
  pub pages : p.m_actv.m_pages + p.m_resv.m_pages ≡ total
  pub next : p.m_resv.m_addr ≡ base + p.m_actv.m_pages * 4096
  pub small : base + total * 4096 + 4096 < 2 ^ 64
  pub fixed : os.has_fixed p.m_actv.m_flags ≡ true

end_addr_lem :
    (os : Os) (base total : ℕ) (p : ReservedMapping)
    → IsLaidOut os base total p
    → end_addr p.m_actv ≡ base + p.m_actv.m_pages * 4096
unfolding end_addr bytes64
end_addr_lem os base total p l = ground (arith, l.start, l.there, l.pages, l.small)

-- How many pages `extend_active_to_include` takes to include `addr`.
abbrev pub pages_to : ReservedMapping → ℕ → ℕ
pages_to p addr = (addr - end_addr p.m_actv) / 4096 + 1

-- What `mmap` answers when it is to put `n` pages, of the file from behind the active mapping on where there
-- is one, at the head of the reserved mapping.
abbrev pub answer : Os → ReservedMapping → ℕ → MapResult
answer os p n =
    os.mmap p.m_resv.m_addr (bytes64 n) p.m_actv.m_prot p.m_actv.m_flags p.m_actv.m_fd
      (if is_nonneg p.m_actv.m_fd then u64 (bytes64 p.m_actv.m_pages + p.m_actv.m_offset) else 0)

mmap_cases : (r : MapResult) → ((a : ℕ) × (r ≡ mapped a)) ⊎ ((e : ℕ) × (r ≡ map_err e))
mmap_cases (mapped a) = inl (a, refl)
mmap_cases (map_err e) = inr (e, refl)

-- `n` pages have gone from the reserved mapping to the active one.
grown : ReservedMapping → ℕ → ReservedMapping
grown p n = record {
  m_resv = record p.m_resv {
    m_addr = u64 (p.m_resv.m_addr + bytes64 n);
    m_pages = less64 p.m_resv.m_pages n;
  };
  m_actv = record p.m_actv { m_pages = u64 (p.m_actv.m_pages + n) };
}

steal_lem :
    (os : Os) (p : ReservedMapping) (n : ℕ)
    → os.has_fixed p.m_actv.m_flags ≡ true
    → (((a : ℕ) × (answer os p n ≡ mapped a))
        × (steal_head_pages os p.m_actv p.m_resv n
            ≡ (pos 0, (grown p n).m_actv, (grown p n).m_resv)))
      ⊎ (((c : ℕ) × (answer os p n ≡ map_err c))
          × (steal_head_pages os p.m_actv p.m_resv n ≡ (negsuc 0, p.m_actv, p.m_resv)))
unfolding steal_head_pages less_head grown
steal_lem os p n f = elim (mmap_cases (answer os p n)) [
  | inl (a, e) ↦ inl ((a, e), rw (f, e))
  | inr (c, e) ↦ inr ((c, e), rw (f, e))
]

pages_lem :
    (os : Os) (base total addr : ℕ) (p : ReservedMapping)
    → IsLaidOut os base total p
    → end_addr p.m_actv < addr
    → addr < 2 ^ 63
    → from_bytes_align_up (difference (end_addr p.m_actv) addr) ≡ pages_to p addr
unfolding from_bytes_align_up difference
pages_lem os base total addr p l past small = ground arith

extend_steals :
    (os : Os) (base total addr : ℕ) (p : ReservedMapping)
    → IsLaidOut os base total p
    → end_addr p.m_actv < addr
    → addr < 2 ^ 63
    → (((a : ℕ) × (answer os p (pages_to p addr) ≡ mapped a))
        × (extend_active_to_include os p addr ≡ (pos 0, grown p (pages_to p addr))))
      ⊎ (((c : ℕ) × (answer os p (pages_to p addr) ≡ map_err c))
          × (extend_active_to_include os p addr ≡ (negsuc 0, p)))
unfolding extend_active_to_include
extend_steals os base total addr p l past small =
    let far : leb addr (end_addr p.m_actv) ≡ false = ground arith in
    let n = pages_lem os base total addr p l past small in
    elim (steal_lem os p (pages_to p addr) l.fixed) [
      | inl (a, e) ↦ inl (a, rw (far, n, e))
      | inr (c, e) ↦ inr (c, rw (far, n, e))
    ]

grown-IsLaidOut :
    (os : Os) (base total n : ℕ) (p : ReservedMapping)
    → IsLaidOut os base total p
    → n ≤ p.m_resv.m_pages
    → IsLaidOut os base total (grown p n)
unfolding grown bytes64
grown-IsLaidOut os base total n p l h = record {
  start = l.start;
  there = l.there;
  pages = omega (arith, l.pages, l.small);
  next = omega (arith, l.pages, l.small, l.next);
  small = l.small;
  fixed = l.fixed;
}

-- If the active and the reserved mapping are laid out side by side, below 2^64 and mapped with
-- MAP_FIXED, and the reserved one has the pages that are needed, for an address that the active mapping does
-- not reach, and that is below 2^63: where `mmap` of those pages at the head of the reserved mapping
-- succeeds, `extend_active_to_include` answers 0, the active mapping includes the address, and the
-- two mappings are laid out side by side as before; where it fails, the answer is -1 and nothing has
-- changed.
pub extend_active_to_include_lem :
    (os : Os) (base total addr : ℕ) (p : ReservedMapping)
    → IsLaidOut os base total p
    → end_addr p.m_actv < addr
    → addr < 2 ^ 63
    → pages_to p addr ≤ p.m_resv.m_pages
    → (((a : ℕ) × (answer os p (pages_to p addr) ≡ mapped a))
        × ((extend_active_to_include os p addr).0 ≡ pos 0)
        × (addr < end_addr (extend_active_to_include os p addr).1.m_actv)
        × IsLaidOut os base total (extend_active_to_include os p addr).1)
      ⊎ (((c : ℕ) × (answer os p (pages_to p addr) ≡ map_err c))
          × (extend_active_to_include os p addr ≡ (negsuc 0, p)))
unfolding grown
extend_active_to_include_lem os base total addr p l past small room =
    let g = grown-IsLaidOut os base total (pages_to p addr) p l room in
    let e = end_addr_lem os base total (grown p (pages_to p addr)) g in
    let f = end_addr_lem os base total p l in
    elim (extend_steals os base total addr p l past small) [
      | inl (a, d) ↦ inl (a, rw d refl, rw d (omega (arith, l.pages, l.small)), rw d g)
      | inr (c, d) ↦ inr (c, d)
    ]

-- If two mappings that are laid out side by side need more pages than the reserved one has, to include an address
-- below 2^63, and `mmap` of them at the head of the
-- reserved mapping, which asks for that fixed address, succeeds, `extend_active_to_include` answers 0: the page count of the reserved
-- mapping goes below 0 and wraps, and the active mapping runs on behind the reserved range.
pub extend_active_to_include_overrun :
    (os : Os) (base total addr : ℕ) (p : ReservedMapping)
    → IsLaidOut os base total p
    → answer os p (pages_to p addr) ≡ mapped p.m_resv.m_addr
    → addr < 2 ^ 63
    → end_addr p.m_actv < addr
    → p.m_resv.m_pages < pages_to p addr
    → ((extend_active_to_include os p addr).0 ≡ pos 0)
      × ((extend_active_to_include os p addr).1.m_resv.m_pages + pages_to p addr
          ≡ p.m_resv.m_pages + 2 ^ 64)
      × (base + total * 4096 < end_addr (extend_active_to_include os p addr).1.m_actv)
unfolding extend_active_to_include steal_head_pages less_head
extend_active_to_include_overrun os base total addr p l done small past short =
    let far : leb addr (end_addr p.m_actv) ≡ false = ground arith in
    let n = pages_lem os base total addr p l past small in
    let f = end_addr_lem os base total p l in
    rw (far, n, l.fixed, done)
      (
        refl,
        omega (arith, l.pages, l.small),
        unfold end_addr bytes64 in ground (arith, l.pages, l.small, l.start, l.there),
      )
