-- ===== src/Core/CircularBuffer/Tests.antt =====
-- Runs of the circular buffer, and its theorems at concrete inputs.
use mgkdb.Prelude.{◌+◌, ◌≤◌, ◌≡◌, refl, [], ◌∷◌, ◌++◌, drop, arith}
use mgkdb.Core.CircularBuffer.{
  CircularBuffer, map_len, write_offset, writeable, set_consumed, set_appended, Memory, peek, poke,
}
use mgkdb.Core.CircularBuffer.Queue.{IsValid, contents, append_lem, consume_lem}

-- Four bytes, of which the last and the first are in the queue.
abbrev wrapped : CircularBuffer
wrapped = record { magic = 8; m_pos = 3; m_len = 2 }

abbrev counting : Memory
counting = λ i. i + 10

wrapped-IsValid : IsValid wrapped
unfolding map_len
wrapped-IsValid = record {
  half = omega arith;
  even = omega arith;
  small = omega arith;
  pos = omega arith;
  len = omega arith;
}

contents-wrapped : contents wrapped counting ≡ 13 ∷ 10 ∷ []
unfolding peek map_len
contents-wrapped = refl

append_lem_example :
    (write_offset wrapped + 2 ≤ 8)
    × (contents
          (set_appended 2 wrapped)
          (poke (map_len wrapped) counting (write_offset wrapped) (7 ∷ 8 ∷ []))
        ≡ contents wrapped counting ++ (7 ∷ 8 ∷ []))
    × IsValid (set_appended 2 wrapped)
append_lem_example =
    append_lem wrapped counting (7 ∷ 8 ∷ []) wrapped-IsValid
      (unfold writeable map_len in omega arith)

consume_lem_example :
    (contents (set_consumed 1 wrapped) counting ≡ drop 1 (contents wrapped counting))
    × IsValid (set_consumed 1 wrapped)
consume_lem_example = consume_lem wrapped counting 1 wrapped-IsValid (omega arith)
