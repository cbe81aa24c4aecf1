-- ===== src/Core/CircularBuffer/Moves.antt =====
-- Moving and destroying a CircularBuffer (core/include/MgCircularBuffer.H).
use mgkdb.Prelude.{ℕ, List, [], ◌∷◌, ◌++◌, ◌≡◌, refl}
use mgkdb.Prelude.Int.{ℤ, pos, negsuc}
use mgkdb.Core.Mapping.{Os, Mapping, no_mapping, unmap, move_from as move_mapping}

-- A CircularBuffer with what it owns.
pub record Owner : Type 0 where
  pub m_mapping : Mapping
  pub m_mem_fd : ℤ
  pub m_pos : ℕ
  pub m_len : ℕ

-- `CircularBuffer(base, pgs, mem_fd)`
abbrev pub new_buffer : Mapping → ℤ → Owner
new_buffer mapping mem_fd = record { m_mapping = mapping; m_mem_fd = mem_fd; m_pos = 0; m_len = 0 }

abbrev closed : ℤ → List ℤ
closed (pos fd) = pos fd ∷ []
closed (negsuc n) = []

-- The descriptors that the destructor closes.
unfoldable pub destroy : Owner → List ℤ
destroy b = closed b.m_mem_fd

closed_only : (fd : ℤ) → closed fd ++ [] ≡ closed fd
closed_only (pos fd) = refl
closed_only (negsuc n) = refl

module _ (os : Os) where
  -- `dst = std::move(src)`: the two afterwards.
  unfoldable pub move_buffer : Owner → Owner → Owner × Owner
  unfolding unmap
  move_buffer dst src =
      let moved = move_mapping os (unmap os dst.m_mapping).1 src.m_mapping in
      (
        record {
          m_mapping = moved.0;
          m_mem_fd = src.m_mem_fd;
          m_pos = src.m_pos;
          m_len = src.m_len;
        },
        new_buffer moved.1 (negsuc 0),
      )

  -- After `dst = std::move(src)` the destructors of the two close the descriptor of the source, and
  -- not the one that the destination had. The source is left without a mapping.
  destroy-move_buffer :
      (dst src : Owner)
      → (destroy (move_buffer dst src).0 ++ destroy (move_buffer dst src).1 ≡ destroy src)
        × ((move_buffer dst src).1.m_mapping ≡ no_mapping)
  unfolding move_buffer destroy move_mapping
  destroy-move_buffer dst src = (closed_only src.m_mem_fd, refl)
