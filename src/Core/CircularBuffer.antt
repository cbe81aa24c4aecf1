-- ===== src/Core/CircularBuffer.antt =====
-- CircularBuffer (core/include/MgCircularBuffer.H): positions in a mapping whose second half shows
-- the same memory as its first.
pub mod Queue
pub mod Moves
mod Tests
use mgkdb.Prelude.{
  ℕ, zero, suc, ◌+◌, ◌-◌, ◌*◌, ◌/◌, Bool, List, [], ◌∷◌, ltb, leb, ◌==◌, if◌then◌else◌,
}
use mgkdb.Core.Extents.{u64, less64}

-- `m_len` of the mapping's bytes are readable from `m_pos` on. `magic` is `m_mapping.extent()`.
pub record CircularBuffer : Type 0 where
  pub magic : ℕ
  pub m_pos : ℕ
  pub m_len : ℕ

unfoldable pub map_len : CircularBuffer → ℕ
map_len b = b.magic / 2

unfoldable pub write_offset : CircularBuffer → ℕ
write_offset b = u64 (b.m_pos + b.m_len)

abbrev pub readable : CircularBuffer → ℕ
readable b = b.m_len

unfoldable pub writeable : CircularBuffer → ℕ
unfolding map_len
writeable b = less64 (map_len b) b.m_len

unfoldable pub clear : CircularBuffer → CircularBuffer
clear b = record b { m_pos = 0; m_len = 0 }

unfoldable pub set_consumed : ℕ → CircularBuffer → CircularBuffer
unfolding map_len
set_consumed count b =
    let pos = u64 (b.m_pos + count) in
    let len = less64 b.m_len count in
    if leb (map_len b) pos
    then record b { m_pos = less64 pos (map_len b); m_len = len }
    else record b { m_pos = pos; m_len = len }

unfoldable pub set_appended : ℕ → CircularBuffer → CircularBuffer
set_appended count b = record b { m_len = u64 (b.m_len + count) }

-- What the kernel gives for two shared mappings of one file of `half` bytes, one behind the other:
-- the address at `off` is the file's byte `off`, or `off - half` in the second mapping.
abbrev pub in_file : ℕ → ℕ → ℕ
in_file half off = if ltb off half then off else off - half

-- The file's bytes, by their offset.
abbrev pub Memory : Type 0
Memory = ℕ → ℕ

-- `n` bytes read from the mapping, and bytes written to it, at an offset.
unfoldable pub peek : ℕ → Memory → ℕ → ℕ → List ℕ
peek half mem off zero = []
peek half mem off (suc n) = mem (in_file half off) ∷ peek half mem (off + 1) n

unfoldable pub poke : ℕ → Memory → ℕ → List ℕ → Memory
poke half mem off [] = mem
poke half mem off (x ∷ xs) =
    poke half (λ i. if i == in_file half off then x else mem i) (off + 1) xs
