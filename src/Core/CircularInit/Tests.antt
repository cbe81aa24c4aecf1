-- ===== src/Core/CircularInit/Tests.antt =====
-- `init_circ_buffer` at concrete answers.
use mgkdb.Prelude.{◌≡◌, refl, [], ◌∷◌, arith, if◌then◌else◌}
use mgkdb.Core.Extents.{bytes64}
use mgkdb.Core.CircularInit.{
  value, error, Answers, munmap, close, init_circ_buffer, mmap_cleanup, mem_fd_cleanup,
}
use mgkdb.Core.CircularInit.Cleanup.{opened, is_made, init_circ_buffer_lem}

-- The file cannot be resized.
abbrev no_space : Answers
no_space = record {
  reserve = value 65536;
  memfd = value 3;
  truncate = error 28;
  first = error 22;
  second = error 22;
}

undo_both : (init_circ_buffer no_space 2).1 ≡ close 3 ∷ munmap 65536 16384 ∷ []
unfolding init_circ_buffer mmap_cleanup mem_fd_cleanup bytes64
undo_both = refl

init_circ_buffer_lem_example :
    (init_circ_buffer no_space 2).1
    ≡ (if is_made (init_circ_buffer no_space 2).0 then [] else opened no_space 2)
init_circ_buffer_lem_example = init_circ_buffer_lem no_space 2 refl refl (omega arith) (omega arith)
