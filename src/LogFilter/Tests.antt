-- ===== src/LogFilter/Tests.antt =====
-- Concrete journals for the log filter (log_filter/src/log_filter.c).
use mgkdb.Prelude.{
  ℕ, ◌+◌, ◌<◌, ◌≤◌, ◌≡◌, ◌≢◌, refl, inl, inr, true, none, some, List, [], ◌∷◌, ◌++◌, map, length,
  replicate, arith,
}
use mgkdb.Prelude.Int.{negsuc, ◌+ℤ◌}
use mgkdb.Ipc.Types.{Elem}
use mgkdb.Ipc.Object.{SymbolVector, Kdb, symbol_atom, vector, list, table, nil, cons, wire_sz}
use mgkdb.Ipc.Write.Encode.{chunks, encode}
use mgkdb.Ipc.Payload.Encoded.{IsSymbols, no_syms, more_syms}
use mgkdb.Ipc.Journal.Replay.{records}
use mgkdb.LogFilter.Memory.{
  strlen, strncmp_same, old_elem_sz, old_sym_end, read_vec_old, case_of, elem_sz, vec_hdr, copied,
  sym_texts, read_vec,
}
use mgkdb.LogFilter.Check.{got, aborted, matches, check_loop, check, check_msg}
use mgkdb.LogFilter.Reify.{Kx, made, reify_case_of, reify_loop, reify}
use mgkdb.LogFilter.Replay.{Reply, done, stop, replay_msgs, replay}
use mgkdb.LogFilter.Messages.{IsLogged, is_relevant, build}
use mgkdb.LogFilter.Agree.{Agrees, reify-check}
use mgkdb.LogFilter.Built.{reify-encode}
use mgkdb.LogFilter.Relevant.{check_msg-encode}
use mgkdb.LogFilter.Aborts.{IsRefused, check_msg-aborted}
use mgkdb.LogFilter.Ends.{replay_msgs_ends}
use mgkdb.LogFilter.Journals.{chosen, replay_lem, replay_empty}

-- Objects that say how they were made.
mutual
  data Tree : Type 0 where
    number : ℕ → ℕ → Tree
    guid : ℕ → Tree
    text : List ℕ → Tree
    numbers : ℕ → ℕ → ℕ → List ℕ → Tree
    texts : ℕ → List (List ℕ) → Tree
    trees : ℕ → Forest → Tree
    flip : Tree → Tree
    pairs : Tree → Tree → Tree

  data Forest : Type 0 where
    bare : Forest
    grown : Tree → Forest → Forest

abbrev forest : List Tree → Forest
forest [] = bare
forest (t ∷ ts) = grown t (forest ts)

abbrev plain : Kx
plain = record {
  K = Tree;
  ka = number;
  ku = guid;
  ks = text;
  ktn = numbers;
  ktn_syms = texts;
  ktn_list = λ att ts. trees att (forest ts);
  x_t = flip;
  x_d = pairs;
}

-- (`upd;`t;+(,`a)!,1 2i)
abbrev columns : SymbolVector
columns = record { m_attr = 0; m_locs = record { c_off = 0; c_len = 2 } ∷ []; m_data = 97 ∷ 0 ∷ [] }

abbrev update : ℕ → Kdb
update name = list 0 (
    cons (symbol_atom (117 ∷ [])) (
      cons (symbol_atom (name ∷ []))
        (cons (table columns 0 (cons (vector Elem.int 0 (1 ∷ 2 ∷ [])) nil)) nil)))

-- The same with a column of a GUID.
abbrev guids : Kdb
guids = list 0 (
    cons (symbol_atom (117 ∷ [])) (
      cons (symbol_atom (116 ∷ []))
        (cons (table columns 0 (cons (vector Elem.guid 0 (7 ∷ [])) nil)) nil)))

abbrev tables : List (List ℕ)
tables = (116 ∷ []) ∷ []

abbrev head : List ℕ
head = replicate 8 0

columns-IsSymbols : IsSymbols columns
columns-IsSymbols = (more_syms (97 ∷ []) (omega arith) refl no_syms, omega arith)

update-IsLogged : (name : ℕ) → 0 < name → name < 256 → IsLogged (update name)
update-IsLogged name p q = (
  omega arith,
  (omega arith, (omega arith, ((columns-IsSymbols, omega arith, ((tt, omega arith), tt)), tt))),
)

guids-IsRefused : IsRefused guids
guids-IsRefused = (
  omega arith,
  inr (omega arith, inr (omega arith, inl (columns-IsSymbols, omega arith, inl tt))),
)

check_msg-encode_example :
    check_msg tables (encode (update 116) ++ (1 ∷ []))
    ≡ got (wire_sz (update 116)) (is_relevant tables (update 116))
check_msg-encode_example =
    check_msg-encode tables (update 116) (1 ∷ []) (omega arith)
      (update-IsLogged 116 (omega arith) (omega arith))

reify-encode_example :
    reify plain 100 (encode (update 116) ++ (1 ∷ []))
    ≡ made (wire_sz (update 116)) (build plain (update 116))
unfolding wire_sz
reify-encode_example =
    reify-encode plain (update 116) (1 ∷ []) 100 (update-IsLogged 116 (omega arith) (omega arith))
      small
  where
    small : wire_sz (update 116) ≤ 100
    small = omega arith

reify-check_example :
    Agrees plain
      (reify plain 9 (99 ∷ 250 ∷ 1 ∷ 0 ∷ 0 ∷ 0 ∷ 251 ∷ 2 ∷ 0 ∷ []))
      (check tables 9 (99 ∷ 250 ∷ 1 ∷ 0 ∷ 0 ∷ 0 ∷ 251 ∷ 2 ∷ 0 ∷ []) true (negsuc 0) 0)
reify-check_example =
    reify-check plain tables 9 (99 ∷ 250 ∷ 1 ∷ 0 ∷ 0 ∷ 0 ∷ 251 ∷ 2 ∷ 0 ∷ []) true (negsuc 0) 0

replay_msgs_ends_example :
    (replay_msgs plain tables (head ++ (0 ∷ 0 ∷ [])) 8 10).reply ≢ Reply.stuck
replay_msgs_ends_example = replay_msgs_ends plain tables (head ++ (0 ∷ 0 ∷ [])) 8 10

check_msg-aborted_example : check_msg tables (encode guids ++ (1 ∷ [])) ≡ aborted
check_msg-aborted_example = check_msg-aborted tables guids (1 ∷ []) (omega arith) guids-IsRefused

replay_empty_example :
    replay plain (some tables) (record {
      file = some (true, 8);
      opened = true;
      header_read = true;
      mapped = true;
      mem = head ++ (encode (update 116) ++ (0 ∷ 0 ∷ []));
    })
    ≡ stop plain (build plain (update 116) ∷ []) (done 1)
replay_empty_example =
    replay_empty plain tables head (update 116) (0 ∷ 0 ∷ []) refl (omega arith)
      (update-IsLogged 116 (omega arith) (omega arith)) (unfold is_relevant in refl)

-- Of three messages the first and the last are for the table.
abbrev three : List Kdb
three = update 116 ∷ update 118 ∷ update 116 ∷ []

replay_lem_example :
    replay plain (some tables) (record {
      file = some (true, 8 + length (records three));
      opened = true;
      header_read = true;
      mapped = true;
      mem = head ++ (records three ++ (0 ∷ []));
    })
    ≡ stop plain (map (build plain) (chosen tables three)) (done (length (chosen tables three)))
replay_lem_example =
    replay_lem plain tables head (update 116) (update 118 ∷ update 116 ∷ []) (0 ∷ []) refl
      (omega arith)
      (
        update-IsLogged 116 (omega arith) (omega arith),
        (
          update-IsLogged 118 (omega arith) (omega arith),
          (update-IsLogged 116 (omega arith) (omega arith), tt),
        ),
      )

-- The model runs: the replay of the three messages evaluates two.
three_replayed :
    (replay plain (some tables) (record {
      file = some (true, 8 + length (records three));
      opened = true;
      header_read = true;
      mapped = true;
      mem = head ++ (records three ++ (0 ∷ []));
    })).reply
    ≡ done 2
unfolding replay replay_msgs encode chunks reify reify_loop check_msg check check_loop matches
    case_of reify_case_of elem_sz vec_hdr copied sym_texts read_vec old_elem_sz old_sym_end
    read_vec_old strlen strncmp_same ◌+ℤ◌
three_replayed = refl

names_missing :
    replay plain none
      (record { file = none; opened = true; header_read = true; mapped = true; mem = [] })
    ≡ stop plain [] Reply.names_type
unfolding replay
names_missing = refl
