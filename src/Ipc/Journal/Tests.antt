-- ===== src/Ipc/Journal/Tests.antt =====
-- Runs on journals, and the theorems at concrete inputs.
use mgkdb.Prelude.{ℕ, ◌≡◌, refl, true, false, some, length, List, [], ◌∷◌, ◌++◌, arith}
use mgkdb.Prelude.Int.{ℤ, pos, negsuc}
use mgkdb.Ipc.Types.{Elem}
use mgkdb.Ipc.Object.{Kdb, atom, symbol_atom, vector, wire_sz, vec_wire_sz, list, nil, cons}
use mgkdb.Ipc.Write.Encode.{chunks, encode}
use mgkdb.Ipc.Payload.{strnlen, hdr_len}
use mgkdb.Ipc.Journal.{counted, filter_msgs, counter, filter_upd_msg, same, find, table_matches}
use mgkdb.Ipc.Journal.Replay.{records, IsReplayable, visit, filter_msgs_lem}
use mgkdb.Ipc.Journal.Filter.{filter_upd_msg-call}
use mgkdb.Ipc.Journal.Init.{Options, Answers, journal, count_upon_init, init_journal}
use mgkdb.Ipc.Journal.Init.Owned.{Owns, Writes, init_journal_lem, init_journal-counts}
use mgkdb.Ipc.Journal.Standing.{filter_msgs-odd_table}

-- The call `upd`, of the table `t`.
abbrev upd_t : Kdb
upd_t = list 0 (
    cons (symbol_atom (117 ∷ 112 ∷ 100 ∷ []))
      (cons (symbol_atom (116 ∷ [])) (cons (atom Elem.bool 1) nil)))

upd_t-matches :
    filter_upd_msg (encode upd_t) 16 (117 ∷ 112 ∷ 100 ∷ []) ((113 ∷ []) ∷ (116 ∷ []) ∷ [])
    ≡ some (pos 16)
unfolding filter_upd_msg encode chunks same find table_matches strnlen hdr_len
upd_t-matches = refl

other_table :
    filter_upd_msg (encode upd_t) 16 (117 ∷ 112 ∷ 100 ∷ []) ((113 ∷ []) ∷ []) ≡ some (negsuc 15)
unfolding filter_upd_msg encode chunks same find table_matches strnlen hdr_len
other_table = refl

abbrev jnl_head : List ℕ
jnl_head = 255 ∷ 1 ∷ 0 ∷ 0 ∷ 0 ∷ 0 ∷ 0 ∷ 0 ∷ []

abbrev two_records : List Kdb
two_records = vector Elem.int 0 (1 ∷ []) ∷ atom Elem.bool 1 ∷ []

two_records-IsReplayable : IsReplayable 1 two_records
unfolding encode chunks
two_records-IsReplayable = (
  (omega arith, omega arith, omega arith, omega arith),
  ((tt, omega arith, omega arith, omega arith), tt),
)

-- The lengths of the messages, the last first.
abbrev note_len : ℕ → List ℕ → ℕ → List ℕ → List ℕ × ℤ
note_len ith src len s = (len ∷ s, pos 1)

lengths : visit note_len two_records 0 0 [] ≡ (2 ∷ 10 ∷ [], counted 2 2)
unfolding visit wire_sz vec_wire_sz
lengths = refl

filter_msgs_lem_example :
    filter_msgs note_len 1 (jnl_head ++ records two_records) 9 []
    ≡ visit note_len two_records 0 0 []
unfolding encode chunks
filter_msgs_lem_example =
    filter_msgs_lem note_len 1 9 jnl_head two_records [] refl two_records-IsReplayable (omega arith)
      (omega arith)

filter_msgs-odd_table_example :
    (filter_msgs counter 2 (jnl_head ++ (98 ∷ 0 ∷ 5 ∷ [])) 100 tt).1 ≡ counted 100 100
filter_msgs-odd_table_example =
    filter_msgs-odd_table 0 100 0 5 jnl_head [] refl (omega arith) (omega arith) (omega arith)
      (omega arith)

filter_upd_msg-call_example :
    filter_upd_msg (encode upd_t ++ (9 ∷ [])) 16 (117 ∷ 112 ∷ 100 ∷ []) ((116 ∷ []) ∷ [])
    ≡ some (pos 16)
unfolding encode chunks same find
filter_upd_msg-call_example =
    filter_upd_msg-call 0 (117 ∷ 112 ∷ 100 ∷ []) (116 ∷ []) (117 ∷ 112 ∷ 100 ∷ []) ((116 ∷ []) ∷ [])
      (cons (atom Elem.bool 1) nil) (9 ∷ []) 16
      ((omega arith, omega arith), ((omega arith, omega arith), ((omega arith, omega arith), tt)))
      ((omega arith, omega arith), tt) (omega arith) (omega arith) refl (omega arith)

abbrev counting : Options
counting = record { read_only = false; validate_and_count_upon_init = true; max_replay_count = 5 }

abbrev well : Answers
well = record {
  opened = some 3;
  sized = some (length (jnl_head ++ records two_records));
  wrote = some 8;
  sized_again = true;
  mapped = some (jnl_head ++ records two_records);
  sought = true;
}

init_journal-counts_example : init_journal 1 counting well ≡ journal counting 3 2 []
unfolding encode chunks
init_journal-counts_example =
    init_journal-counts 1 3 counting well jnl_head (vector Elem.int 0 (1 ∷ []))
      (atom Elem.bool 1 ∷ []) refl refl refl refl refl refl refl two_records-IsReplayable
      (omega arith) (omega arith)

init_journal_lem_example :
    Owns counting well (init_journal 1 counting well)
    × Writes counting well (init_journal 1 counting well)
init_journal_lem_example = init_journal_lem counting well 1

-- A new file gets the header.
new_file : init_journal 1 counting (record well { sized = some 0 }) ≡ journal counting 3 0 jnl_head
unfolding init_journal count_upon_init
new_file = refl
