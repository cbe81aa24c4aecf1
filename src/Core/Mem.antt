-- ===== src/Core/Mem.antt =====
-- Mem (core/include/MgMapTypes.H, core/src/MapTypes.C): a block of memory and its owner.
pub mod Owned
use mgkdb.Prelude.{ℕ, Bool, List, [], ◌∷◌, ◌==◌, if◌then◌else◌}
use mgkdb.Prelude.Int.{ℤ, pos, negsuc}

-- `m_mem` is 0 where there is no block.
pub record Mem : Type 0 where
  pub m_mem : ℕ
  pub m_sz : ℕ

abbrev pub no_mem : Mem
no_mem = record { m_mem = 0; m_sz = 0 }

-- What the code takes from the C library: the block that is answered for a size, and for an alignment and a size.
pub record Malloc : Type 0 where
  pub malloc : ℕ → ℕ
  pub aligned_alloc : ℕ → ℕ → ℕ

-- The blocks that are allocated, without those that are freed. `free` of the null pointer does nothing.
abbrev pub without : ℕ → List ℕ → List ℕ
without mem [] = []
without mem (a ∷ rest) = if a == mem then rest else a ∷ without mem rest

abbrev pub free : ℕ → List ℕ → List ℕ
free mem blocks = if mem == 0 then blocks else without mem blocks

-- `Mem::release`
unfoldable pub release_mem : List ℕ → Mem → List ℕ × Mem
release_mem blocks m = (free m.m_mem blocks, record m { m_mem = 0 })

-- `dst = std::move(src)`: the two afterwards.
unfoldable pub move_mem : Mem → Mem → Mem × Mem
move_mem dst src = (src, no_mem)

-- `Mem::alloc`: the result, the blocks and the destination.
unfoldable pub alloc_mem : Malloc → List ℕ → Mem → ℕ → ℕ → ℤ × List ℕ × Mem
alloc_mem heap blocks dst sz alignment =
    let mem = if alignment == 0 then heap.malloc sz else heap.aligned_alloc alignment sz in
    if mem == 0
    then (negsuc 0, blocks, dst)
    else (pos 0, mem ∷ blocks, (move_mem dst (record { m_mem = mem; m_sz = sz })).0)
