-- ===== src/Core/Extents.antt =====
-- Sizes, page counts and addresses (core/include/MgCore.H): 64-bit words, with wrap-around.
pub mod Round
mod Tests
use mgkdb.Prelude.{ℕ, ◌+◌, ◌-◌, ◌*◌, ◌/◌, ◌%◌, ◌^◌, Bool, ltb, leb, ◌==◌, if◌then◌else◌}

-- `PG_SZ`, which is `PAGE_SIZE_32` too.
abbrev pub pg_sz : ℕ
pg_sz = 4096

-- A value as a uint64_t, and uint64_t subtraction.
abbrev pub u64 : ℕ → ℕ
u64 n = n % 2 ^ 64

abbrev pub less64 : ℕ → ℕ → ℕ
less64 a b = (a + 2 ^ 64 - b % 2 ^ 64) % 2 ^ 64

-- `x & ~(Z - 1)` for a power of two `Z`: the bits below `Z` are cleared.
abbrev pub clear_low : ℕ → ℕ → ℕ
clear_low z x = x - x % z

-- `is_aligned`, for a power of two: `val & (align - 1)` is the remainder.
unfoldable pub is_aligned : ℕ → ℕ → Bool
is_aligned val align = val % align == 0

unfoldable pub is_page_aligned : ℕ → Bool
unfolding is_aligned
is_page_aligned val = is_aligned val pg_sz

-- `align_up<Z>` and `align_to_next_mltpl<Z>`, for a power of two `Z`
unfoldable pub align_up : ℕ → ℕ → ℕ
align_up z value = clear_low z (u64 (value + (z - 1)))

unfoldable pub align_to_next_mltpl : ℕ → ℕ → ℕ
align_to_next_mltpl z value = clear_low z (u64 (value + z))

-- `Extent::difference` and `Address::difference`
unfoldable pub difference : ℕ → ℕ → ℕ
difference size rhs = if ltb size rhs then rhs - size else size - rhs

-- `PageCount::from_bytes`
unfoldable pub from_bytes : ℕ → ℕ
from_bytes ext = ext / pg_sz

-- `PageCount::from_bytes_align_up`
unfoldable pub from_bytes_align_up : ℕ → ℕ
from_bytes_align_up ext = u64 (pg_sz + ext) / pg_sz

-- `PageCount::bytes64`
unfoldable pub bytes64 : ℕ → ℕ
bytes64 count = u64 (count * pg_sz)

-- `Address::operator-`
unfoldable pub addr_less : ℕ → ℕ → ℕ
addr_less addr sz = if ltb addr sz then 0 else addr - sz
