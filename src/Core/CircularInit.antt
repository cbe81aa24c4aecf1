-- ===== src/Core/CircularInit.antt =====
-- `init_circ_buffer` (core/src/CircularBuffer.C): the system calls that make the mapping, and the two
-- destructors that undo them when it returns early.
pub mod Cleanup
mod Tests
use mgkdb.Prelude.{ℕ, ◌+◌, ◌*◌, Bool, true, false, List, [], ◌∷◌, ◌++◌, ◌==◌, if◌then◌else◌}
use mgkdb.Core.Extents.{u64, bytes64, from_bytes}

-- `std::expected<T,int>` of a system call.
pub data Expected : Type 0 where
  value error : ℕ → Expected

-- The answers of the calls in turn: `mmap` of the range, `memfd_create`, `ftruncate`, and the two
-- `mmap` of the file.
pub record Answers : Type 0 where
  pub reserve : Expected
  pub memfd : Expected
  pub truncate : Expected
  pub first : Expected
  pub second : Expected

-- Where it returned.
pub data Outcome : Type 0 where
  made : ℕ → ℕ → ℕ → Outcome
  no_range no_file no_size no_first no_second moved_first moved_second : Outcome

-- What the destructors do.
pub data Undo : Type 0 where
  munmap : ℕ → ℕ → Undo
  close : ℕ → Undo

-- `MMapCleanup` and `MemFdCleanup`, as they stand when the function returns; the latter is
-- destroyed first.
unfoldable pub mmap_cleanup : ℕ → ℕ → List Undo
mmap_cleanup base len = if base == 0 then [] else (if len == 0 then [] else munmap base len ∷ [])

unfoldable pub mem_fd_cleanup : ℕ → List Undo
mem_fd_cleanup fd = if fd == 0 then [] else close fd ∷ []

-- How it returns, and what is undone. `made` has the base, the pages of the mapping and
-- the file.
unfoldable pub init_circ_buffer : Answers → ℕ → Outcome × List Undo
init_circ_buffer a map_pgs =
    let buf_len = bytes64 map_pgs in
    elim a.reserve [
      | error e ↦ (no_range, [])
      | value base ↦
          let undo_map = mmap_cleanup base (u64 (buf_len * 2)) in
          elim a.memfd [
            | error e ↦ (no_file, undo_map)
            | value mfd ↦
                let undo = mem_fd_cleanup mfd ++ undo_map in
                elim a.truncate [
                  | error e ↦ (no_size, undo)
                  | value z ↦ elim a.first [
                    | error e ↦ (no_first, undo)
                    | value p ↦
                        if p == base
                        then elim a.second [
                          | error e ↦ (no_second, undo)
                          | value q ↦
                              if q == u64 (base + buf_len)
                              then (
                                made base (from_bytes (u64 (buf_len * 2))) mfd,
                                mmap_cleanup 0 0 ++ mem_fd_cleanup 0,
                              )
                              else (moved_second, undo)
                        ]
                        else (moved_first, undo)
                  ]
                ]
          ]
    ]
