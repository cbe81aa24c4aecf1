-- ===== src/Core/Extents/Round.antt =====
-- Rounding to pages.
use mgkdb.Prelude.{ℕ, ◌+◌, ◌^◌, ◌≤◌, ◌<◌, ◌≡◌, true, arith}
use mgkdb.Core.Extents.{
  align_up, align_to_next_mltpl, is_page_aligned, is_aligned, from_bytes, from_bytes_align_up,
  bytes64,
}

-- Rounding up to a page, where the sum does not wrap, gives an aligned value that is not smaller
-- and less than a page larger; going on to the next multiple gives an aligned value that is
-- larger, by a page at most.
pub align_up_lem :
    (value : ℕ)
    → value + 4096 < 2 ^ 64
    → (is_page_aligned (align_up 4096 value) ≡ true)
      × (value ≤ align_up 4096 value)
      × (align_up 4096 value < value + 4096)
      × (is_page_aligned (align_to_next_mltpl 4096 value) ≡ true)
      × (value < align_to_next_mltpl 4096 value)
      × (align_to_next_mltpl 4096 value ≤ value + 4096)
unfolding align_up align_to_next_mltpl is_page_aligned is_aligned
align_up_lem value h =
    (ground arith, omega arith, omega arith, ground arith, omega arith, omega arith)

-- The pages of `from_bytes_align_up` hold more bytes than asked for, by a page at most, and are one
-- more than the whole pages of `from_bytes`, also if the size is a multiple of the page size.
pub from_bytes_align_up_lem :
    (ext : ℕ)
    → ext + 4096 < 2 ^ 64
    → (ext < bytes64 (from_bytes_align_up ext))
      × (bytes64 (from_bytes_align_up ext) ≤ ext + 4096)
      × (from_bytes_align_up ext ≡ from_bytes ext + 1)
unfolding from_bytes_align_up bytes64 from_bytes
from_bytes_align_up_lem ext h = omega arith
