-- ===== src/Core/FileDesc.antt =====
-- FileDesc (core/include/MgIoDefs.H, core/src/ReadFullyImpl.C): an open file and its size.
pub mod Size
use mgkdb.Prelude.{ℕ, zero, suc, Bool, true, false, List, [], ltb, if◌then◌else◌}
use mgkdb.Prelude.Int.{ℤ, pos, negsuc}

pub record FileDesc : Type 0 where
  pub m_path : List ℕ
  pub m_fd : ℤ
  pub m_sz : ℕ

-- `std::expected<int,int>` of a system call, or of `fstat` with the size in it.
pub data Answer : Type 0 where
  value error : ℕ → Answer

-- What is left of a file that has been moved from.
abbrev pub moved : FileDesc
moved = record { m_path = []; m_fd = negsuc 0; m_sz = 0 }

-- `move_from`: the two afterwards.
unfoldable pub move_from : FileDesc → FileDesc × FileDesc
move_from src = (src, moved)

-- `stat_size`, from what `fstat` answers. The result is an off_t.
unfoldable pub stat_size : Answer → FileDesc → ℤ × FileDesc
stat_size (error e) f = (negsuc 0, f)
stat_size (value size) f = (pos size, record f { m_sz = size })

-- `open`, from what `open` and `fstat` of the system answer. A size is not negative.
unfoldable pub open_file : Answer → Answer → FileDesc → ℤ × FileDesc
unfolding stat_size
open_file (error e) stat f = (negsuc 0, f)
open_file (value fd) (error e) f = (negsuc 0, record f { m_fd = pos fd })
open_file (value fd) (value size) f =
    (pos 0, (stat_size (value size) (record f { m_fd = pos fd })).1)

-- `close`: if the system's `close` is called, and the file afterwards.
unfoldable pub close_file : FileDesc → Bool × FileDesc
close_file f = elim f.m_fd [
  | negsuc n ↦ elim n [ zero ↦ (false, f) | suc m ↦ (true, record f { m_fd = negsuc 0 }) ]
  | pos n ↦ (true, record f { m_fd = negsuc 0 })
]

-- `set_size`, from what `ftruncate` answers.
unfoldable pub set_size : Answer → ℕ → FileDesc → ℤ × FileDesc
set_size (error e) size f = (negsuc 0, f)
set_size (value n) size f = (pos 0, record f { m_sz = size })

-- `grow_to`
unfoldable pub grow_to : Answer → ℕ → FileDesc → ℤ × FileDesc
unfolding set_size
grow_to truncated size f = if ltb f.m_sz size then set_size truncated size f else (pos 0, f)
