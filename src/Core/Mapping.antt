-- ===== src/Core/Mapping.antt =====
-- Mapping and ReservedMapping (core/include/MgMapTypes.H, core/src/MapTypes.C): a reserved range of
-- addresses, the head of which is mapped and grows.
pub mod Extend
pub mod Reserve
mod Tests
use mgkdb.Prelude.{ℕ, ◌+◌, ◌-◌, Bool, true, false, ltb, leb, ◌==◌, if◌then◌else◌}
use mgkdb.Prelude.Int.{ℤ, pos, negsuc, is_nonneg}
use mgkdb.Core.Extents.{u64, less64, bytes64, difference, from_bytes_align_up}

-- `std::expected<void*,int>`
pub data MapResult : Type 0 where
  mapped map_err : ℕ → MapResult

-- What the code takes from the system: `mmap` of an address, a length, protection, flags, a file
-- and an offset, `munmap`, which answers if it succeeded, and the constants of <sys/mman.h>.
pub record Os : Type 0 where
  pub mmap : ℕ → ℕ → ℕ → ℕ → ℤ → ℕ → MapResult
  pub munmap : ℕ → ℕ → Bool
  pub prot_none : ℕ
  pub resv_flags : ℕ
  pub with_fixed : ℕ → ℕ
  pub has_fixed : ℕ → Bool

pub record Mapping : Type 0 where
  pub m_addr : ℕ
  pub m_pages : ℕ
  pub m_prot : ℕ
  pub m_flags : ℕ
  pub m_fd : ℤ
  pub m_offset : ℕ

pub record ReservedMapping : Type 0 where
  pub m_resv : Mapping
  pub m_actv : Mapping

-- What `Mapping()` and `std::exchange` in `move_from` leave.
abbrev pub no_mapping : Mapping
no_mapping = record {
  m_addr = 0;
  m_pages = 0;
  m_prot = 0;
  m_flags = 0;
  m_fd = negsuc 0;
  m_offset = 0;
}

unfoldable pub end_addr : Mapping → ℕ
end_addr m = if m.m_addr == 0 then 0 else u64 (m.m_addr + bytes64 m.m_pages)

module _ (os : Os) where
  unfoldable pub unmap : Mapping → ℤ × Mapping
  unmap m =
      if ltb 0 (bytes64 m.m_pages)
      then (if os.munmap m.m_addr (bytes64 m.m_pages)
          then (pos 0, record m { m_addr = 0; m_pages = 0 })
          else (negsuc 0, m))
      else (pos 0, m)

  -- `dst = std::move(src)`: the two afterwards. The result of `unmap` is not looked at.
  unfoldable pub move_from : Mapping → Mapping → Mapping × Mapping
  unfolding unmap
  move_from dst src =
      let unmapped = (unmap dst).1 in
      (
        record unmapped {
          m_addr = src.m_addr;
          m_pages = src.m_pages;
          m_prot = src.m_prot;
          m_flags = src.m_flags;
          m_fd = src.m_fd;
          m_offset = src.m_offset;
        },
        no_mapping,
      )

  -- `ReservedMapping::move_from`: the two afterwards.
  unfoldable pub move_pair : ReservedMapping → ReservedMapping → ReservedMapping × ReservedMapping
  move_pair dst src =
      let resv = move_from dst.m_resv src.m_resv in
      let actv = move_from dst.m_actv src.m_actv in
      (record { m_resv = resv.0; m_actv = actv.0 }, record { m_resv = resv.1; m_actv = actv.1 })

  unfoldable pub create_reservation : Mapping → ℕ → ℤ × Mapping
  create_reservation dst pg_ct =
      elim (os.mmap 0 (bytes64 pg_ct) os.prot_none os.resv_flags (negsuc 0) 0) [
        | map_err e ↦ (negsuc 0, dst)
        | mapped a ↦ (
          pos 0,
          record {
            m_addr = a;
            m_pages = pg_ct;
            m_prot = os.prot_none;
            m_flags = os.resv_flags;
            m_fd = negsuc 0;
            m_offset = 0;
          },
        )
      ]

  -- `donor.m_addr += ct` and `donor.m_pages -= ct`
  unfoldable pub less_head : Mapping → ℕ → Mapping
  less_head donor ct = record donor {
    m_addr = u64 (donor.m_addr + bytes64 ct);
    m_pages = less64 donor.m_pages ct;
  }

  -- The result, the donor and the destination.
  unfoldable pub create_mapping_from_resv :
      Mapping → Mapping → ℕ → ℕ → ℕ → ℤ → ℕ → ℤ × Mapping × Mapping
  create_mapping_from_resv donor dst pg_ct prot flags fd offset =
      elim (os.mmap donor.m_addr (bytes64 pg_ct) prot flags fd offset) [
        | map_err e ↦ (negsuc 0, donor, dst)
        | mapped a ↦ (
          pos 0,
          less_head donor pg_ct,
          record {
            m_addr = a;
            m_pages = pg_ct;
            m_prot = prot;
            m_flags = flags;
            m_fd = fd;
            m_offset = offset;
          },
        )
      ]

  -- The result, the mapping that grows and the donor.
  unfoldable pub steal_head_pages : Mapping → Mapping → ℕ → ℤ × Mapping × Mapping
  steal_head_pages m donor ct =
      let offset = if is_nonneg m.m_fd then u64 (bytes64 m.m_pages + m.m_offset) else 0 in
      if os.has_fixed m.m_flags
      then elim (os.mmap donor.m_addr (bytes64 ct) m.m_prot m.m_flags m.m_fd offset) [
        | map_err e ↦ (negsuc 0, m, donor)
        | mapped a ↦ (pos 0, record m { m_pages = u64 (m.m_pages + ct) }, less_head donor ct)
      ]
      else (negsuc 0, m, donor)

  -- `reserve_and_alloc` from the second call's result on, and from the first's.
  abbrev pub settle : ℤ × Mapping × Mapping → ℤ × ReservedMapping
  settle (negsuc e, resv, actv) = (negsuc e, record { m_resv = (unmap resv).1; m_actv = actv })
  settle (pos n, resv, actv) = (pos 0, record { m_resv = resv; m_actv = actv })

  abbrev pub alloc_head : Mapping → ℕ → ℕ → ℕ → ℤ → ℕ → ℤ × Mapping → ℤ × ReservedMapping
  alloc_head actv alloc prot flags fd off (negsuc e, resv) =
      (negsuc e, record { m_resv = resv; m_actv = actv })
  alloc_head actv alloc prot flags fd off (pos n, resv) =
      settle (create_mapping_from_resv resv actv alloc prot (os.with_fixed flags) fd off)

  unfoldable pub reserve_and_alloc : ReservedMapping → ℕ → ℕ → ℕ → ℕ → ℤ → ℕ → ℤ × ReservedMapping
  reserve_and_alloc pair resv alloc prot flags fd off =
      alloc_head pair.m_actv alloc prot flags fd off (create_reservation pair.m_resv resv)

  unfoldable pub extend_active_to_include : ReservedMapping → ℕ → ℤ × ReservedMapping
  extend_active_to_include pair addr =
      let pages = from_bytes_align_up (difference (end_addr pair.m_actv) addr) in
      let s = steal_head_pages pair.m_actv pair.m_resv pages in
      if leb addr (end_addr pair.m_actv)
      then (pos 0, pair)
      else (s.0, record { m_resv = s.2; m_actv = s.1 })
