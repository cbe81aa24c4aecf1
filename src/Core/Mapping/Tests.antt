-- ===== src/Core/Mapping/Tests.antt =====
-- The theorems on mappings at concrete inputs.
use mgkdb.Prelude.{ℕ, ◌+◌, ◌*◌, ◌^◌, ◌<◌, ◌≡◌, ◌⊎◌, inr, refl, true, ◌==◌, if◌then◌else◌, arith}
use mgkdb.Prelude.Int.{pos, negsuc}
use mgkdb.Core.Extents.{bytes64}
use mgkdb.Core.Mapping.{
  mapped, map_err, Os, no_mapping, ReservedMapping, end_addr, unmap, reserve_and_alloc,
  extend_active_to_include,
}
use mgkdb.Core.Mapping.Extend.{
  IsLaidOut, pages_to, answer, extend_active_to_include_lem, extend_active_to_include_overrun,
}
use mgkdb.Core.Mapping.Reserve.{reserved, reserve_and_alloc_lem}

-- A system that maps what it is asked for, and otherwise at 8192.
abbrev place : ℕ → ℕ
place a = if a == 0 then 8192 else a

abbrev willing : Os
willing = record {
  mmap = λ a len prot flags fd off. mapped (place a);
  munmap = λ a len. true;
  prot_none = 0;
  resv_flags = 16418;
  with_fixed = λ f. f + 16;
  has_fixed = λ f. true;
}

-- A system that maps at any address.
abbrev obedient : Os
obedient = record willing { mmap = λ a len prot flags fd off. mapped a }

-- Two active pages and one reserved page.
abbrev three_pages : ReservedMapping
three_pages = record {
  m_resv = record no_mapping { m_addr = 16384; m_pages = 1 };
  m_actv = record no_mapping { m_addr = 8192; m_pages = 2; m_flags = 16 };
}

laid_out : (os : Os) → ((f : ℕ) → os.has_fixed f ≡ true) → IsLaidOut os 8192 3 three_pages
laid_out os f = record {
  start = refl;
  there = omega arith;
  pages = refl;
  next = refl;
  small = omega arith;
  fixed = f 16;
}

extend_active_to_include_lem_example :
    (((a : ℕ) × (answer willing three_pages (pages_to three_pages 17000) ≡ mapped a))
      × ((extend_active_to_include willing three_pages 17000).0 ≡ pos 0)
      × (17000 < end_addr (extend_active_to_include willing three_pages 17000).1.m_actv)
      × IsLaidOut willing 8192 3 (extend_active_to_include willing three_pages 17000).1)
    ⊎ (((c : ℕ) × (answer willing three_pages (pages_to three_pages 17000) ≡ map_err c))
        × (extend_active_to_include willing three_pages 17000 ≡ (negsuc 0, three_pages)))
unfolding end_addr bytes64
extend_active_to_include_lem_example =
    extend_active_to_include_lem willing 8192 3 17000 three_pages (laid_out willing (λ f. refl))
      (omega arith) (omega arith) (omega arith)

extend_active_to_include_overrun_example :
    ((extend_active_to_include obedient three_pages 24000).0 ≡ pos 0)
    × ((extend_active_to_include obedient three_pages 24000).1.m_resv.m_pages
          + pages_to three_pages 24000
        ≡ 1 + 2 ^ 64)
    × (8192 + 3 * 4096 < end_addr (extend_active_to_include obedient three_pages 24000).1.m_actv)
unfolding end_addr bytes64
extend_active_to_include_overrun_example =
    extend_active_to_include_overrun obedient 8192 3 24000 three_pages
      (laid_out obedient (λ f. refl)) refl (omega arith) (omega arith) (omega arith)

reserve_and_alloc_lem_example :
    (((reserve_and_alloc willing three_pages 3 2 3 1 (negsuc 0) 0).0 ≡ pos 0)
      × IsLaidOut willing 8192 3 (reserve_and_alloc willing three_pages 3 2 3 1 (negsuc 0) 0).1)
    ⊎ (reserve_and_alloc willing three_pages 3 2 3 1 (negsuc 0) 0 ≡ (
      negsuc 0,
      record { m_resv = (unmap willing (reserved willing 8192 3)).1; m_actv = three_pages.m_actv },
    ))
reserve_and_alloc_lem_example =
    reserve_and_alloc_lem willing three_pages 3 2 3 1 (negsuc 0) 0 8192 refl refl (inr refl)
      (omega arith) (omega arith) (omega arith)
