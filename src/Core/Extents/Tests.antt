-- ===== src/Core/Extents/Tests.antt =====
-- The theorems on rounding at concrete sizes.
use mgkdb.Prelude.{◌+◌, ◌≤◌, ◌<◌, ◌≡◌, true, arith}
use mgkdb.Core.Extents.{align_up, align_to_next_mltpl, is_page_aligned}
use mgkdb.Core.Extents.Round.{align_up_lem}

align_up_lem_example :
    (is_page_aligned (align_up 4096 5000) ≡ true)
    × (5000 ≤ align_up 4096 5000)
    × (align_up 4096 5000 < 5000 + 4096)
    × (is_page_aligned (align_to_next_mltpl 4096 5000) ≡ true)
    × (5000 < align_to_next_mltpl 4096 5000)
    × (align_to_next_mltpl 4096 5000 ≤ 5000 + 4096)
align_up_lem_example = align_up_lem 5000 (omega arith)
