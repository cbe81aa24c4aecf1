-- ===== src/Core/Mapping/Reserve.antt =====
-- `ReservedMapping::reserve_and_alloc` (core/src/MapTypes.C).
use mgkdb.Prelude.{ℕ, ◌+◌, ◌*◌, ◌^◌, ◌≤◌, ◌<◌, ◌≡◌, ◌⊎◌, inl, inr, refl, ap, ◌∙◌, true, arith}
use mgkdb.Prelude.Int.{ℤ, pos, negsuc}
use mgkdb.Core.Extents.{u64, less64, bytes64}
use mgkdb.Core.Mapping.{
  mapped, map_err, Os, Mapping, ReservedMapping, less_head, unmap, create_reservation,
  create_mapping_from_resv, reserve_and_alloc, settle, alloc_head,
}
use mgkdb.Core.Mapping.Extend.{IsLaidOut}

-- The mapping that `create_reservation` makes at `base`.
abbrev pub reserved : Os → ℕ → ℕ → Mapping
reserved os base resv = record {
  m_addr = base;
  m_pages = resv;
  m_prot = os.prot_none;
  m_flags = os.resv_flags;
  m_fd = negsuc 0;
  m_offset = 0;
}

-- What is left of it without its head, and that head.
abbrev rest_of : Os → ℕ → ℕ → ℕ → Mapping
rest_of os base resv alloc = record (reserved os base resv) {
  m_addr = u64 (base + bytes64 alloc);
  m_pages = less64 resv alloc;
}

abbrev head_of : Os → ℕ → ℕ → ℕ → ℕ → ℤ → ℕ → Mapping
head_of os base alloc prot flags fd off = record {
  m_addr = base;
  m_pages = alloc;
  m_prot = prot;
  m_flags = os.with_fixed flags;
  m_fd = fd;
  m_offset = off;
}

create_reservation_lem :
    (os : Os) (dst : Mapping) (resv base : ℕ)
    → os.mmap 0 (bytes64 resv) os.prot_none os.resv_flags (negsuc 0) 0 ≡ mapped base
    → create_reservation os dst resv ≡ (pos 0, reserved os base resv)
unfolding create_reservation
create_reservation_lem os dst resv base m = rw (m, create_reservation)

head_mapped :
    (os : Os) (dst : Mapping) (base resv alloc prot flags : ℕ) (fd : ℤ) (off : ℕ)
    → os.mmap base (bytes64 alloc) prot (os.with_fixed flags) fd off ≡ mapped base
    → create_mapping_from_resv os
        (reserved os base resv)
        dst
        alloc
        prot
        (os.with_fixed flags)
        fd
        off
      ≡ (pos 0, rest_of os base resv alloc, head_of os base alloc prot flags fd off)
unfolding create_mapping_from_resv less_head
head_mapped os dst base resv alloc prot flags fd off m = rw (m, create_mapping_from_resv)

head_failed :
    (os : Os) (dst : Mapping) (base resv alloc prot flags : ℕ) (fd : ℤ) (off e : ℕ)
    → os.mmap base (bytes64 alloc) prot (os.with_fixed flags) fd off ≡ map_err e
    → create_mapping_from_resv os
        (reserved os base resv)
        dst
        alloc
        prot
        (os.with_fixed flags)
        fd
        off
      ≡ (negsuc 0, reserved os base resv, dst)
unfolding create_mapping_from_resv
head_failed os dst base resv alloc prot flags fd off e m = rw (m, create_mapping_from_resv)

-- If the system reserves `resv` pages at `base`, and `mmap` with MAP_FIXED answers the address asked for or
-- an error: `reserve_and_alloc` of at most as many pages answers 0, and the active mapping and the rest
-- of the reserved one lie side by side from `base` on, or it answers -1 and has unmapped the reserved one.
pub reserve_and_alloc_lem :
    (os : Os) (pair : ReservedMapping) (resv alloc prot flags : ℕ) (fd : ℤ) (off base : ℕ)
    → os.mmap 0 (bytes64 resv) os.prot_none os.resv_flags (negsuc 0) 0 ≡ mapped base
    → os.has_fixed (os.with_fixed flags) ≡ true
    → ((e : ℕ) × (os.mmap base (bytes64 alloc) prot (os.with_fixed flags) fd off ≡ map_err e))
      ⊎ (os.mmap base (bytes64 alloc) prot (os.with_fixed flags) fd off ≡ mapped base)
    → 0 < base
    → base + resv * 4096 + 4096 < 2 ^ 64
    → alloc ≤ resv
    → (((reserve_and_alloc os pair resv alloc prot flags fd off).0 ≡ pos 0)
        × IsLaidOut os base resv (reserve_and_alloc os pair resv alloc prot flags fd off).1)
      ⊎ (reserve_and_alloc os pair resv alloc prot flags fd off ≡ (
        negsuc 0,
        record { m_resv = (unmap os (reserved os base resv)).1; m_actv = pair.m_actv },
      ))
unfolding reserve_and_alloc
reserve_and_alloc_lem os pair resv alloc prot flags fd off base m set (inl (e, failed)) there small
      le =
    inr (
      ap (alloc_head os pair.m_actv alloc prot flags fd off)
        (create_reservation_lem os pair.m_resv resv base m)
      ∙ ap (settle os) (head_failed os pair.m_actv base resv alloc prot flags fd off e failed))
reserve_and_alloc_lem os pair resv alloc prot flags fd off base m set (inr fixed) there small le =
    let e =
      ap (alloc_head os pair.m_actv alloc prot flags fd off)
        (create_reservation_lem os pair.m_resv resv base m)
      ∙ ap (settle os) (head_mapped os pair.m_actv base resv alloc prot flags fd off fixed) in
    inl (
      rw e (
        refl,
        record {
          start = refl;
          there = there;
          pages = omega arith;
          next = unfold bytes64 in omega arith;
          small = small;
          fixed = set;
        },
      ))
