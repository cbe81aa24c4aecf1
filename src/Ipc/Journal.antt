-- ===== src/Ipc/Journal.antt =====
-- Journals (KdbUpdMsgFilter and KdbJournal of ipc++/src/KdbType.C): messages nose to tail behind
-- eight bytes, which a client's function visits one after the other.
pub mod Replay
pub mod Standing
pub mod Filter
pub mod Short
pub mod Init
mod Tests
use mgkdb.Prelude.{
  ℕ, zero, suc, ◌+◌, ◌-◌, ◌%◌, ◌^◌, Bool, true, false, ◌&&◌, ◌||◌, Option, none, some, List, [],
  ◌∷◌, length, take, drop, get_elem?, ltb, leb, ◌==◌, if◌then◌else◌,
}
use mgkdb.Prelude.Int.{ℤ, pos, negsuc, ◌+ℤ◌, is_nonneg}
use mgkdb.Prelude.Bytes.{le_value}
use mgkdb.Ipc.Types.{KdbType, i8typ, sz_byte, sz_vec_hdr, sz_msg_hdr}
use mgkdb.Ipc.Payload.{Len, ret, oob, stuck, sub64, strnlen, hdr_len, ipc_payload_len}

-- A uint64_t as an int64_t, and `-len`, which is computed as a uint64_t.
abbrev pub to_i64 : ℕ → ℤ
to_i64 n = let m = n % 2 ^ 64 in if ltb m (2 ^ 63) then pos m else negsuc (2 ^ 64 - 1 - m)

abbrev pub minus : ℕ → ℤ
minus len = to_i64 (sub64 0 len)

-- Comparison of names.
unfoldable pub same : List ℕ → List ℕ → Bool
same [] [] = true
same [] (y ∷ ys) = false
same (x ∷ xs) [] = false
same (x ∷ xs) (y ∷ ys) = let rest = same xs ys in (x == y) && rest

unfoldable pub find : List (List ℕ) → List ℕ → Bool
unfolding same
find [] name = false
find (n ∷ ns) name = let rest = find ns name in same n name || rest

-- The tail of `_filter_upd_msg`, behind the check of the function's name. The table's name is what stands
-- in memory before the next 0.
unfoldable pub table_matches : List ℕ → ℕ → ℕ → List (List ℕ) → Option ℤ
table_matches src len off tbl_names = elim (get_elem? src off) [
  | none ↦ none
  | some typ ↦
      let at = drop (off + sz_byte) src in
      if typ == i8typ KdbType.symbol_atom
      then elim (strnlen at (suc (length at))) [
        | none ↦ none
        | some n ↦ if find tbl_names (take n at) then some (to_i64 len) else some (minus len)
      ]
      else some (minus len)
]

-- `_filter_upd_msg`, with the bytes of memory from `src` on; `none` is a read behind them.
unfoldable pub filter_upd_msg : List ℕ → ℕ → List ℕ → List (List ℕ) → Option ℤ
filter_upd_msg src len fn_name tbl_names = elim (get_elem? src 0) [
  | none ↦ none
  | some typ ↦
      if typ == i8typ KdbType.list
      then elim (hdr_len src) [
        | none ↦ none
        | some vln ↦
            if ltb vln 3 || leb (2 ^ 31) vln
            then some (minus len)
            else elim (get_elem? src sz_vec_hdr) [
              | none ↦ none
              | some t ↦
                  if t == i8typ KdbType.symbol_atom
                  then elim (strnlen (drop 7 src) (sub64 len 7)) [
                    | none ↦ none
                    | some fln ↦
                        if fln == length fn_name
                        then (if same fn_name (take fln (drop 7 src))
                            then table_matches src len (7 + (fln + sz_byte)) tbl_names
                            else some (minus len))
                        else some (minus len)
                  ]
                  else some (minus len)
            ]
      ]
      else some (minus len)
]

-- `KdbUpdMsgFilter::filter_msg`
unfoldable pub filter_msg : List ℕ → ℕ → List ℕ → List (List ℕ) → Option ℤ
filter_msg src rem fn_name tbl_names =
    if ltb rem sz_msg_hdr then some (negsuc 0) else elim (get_elem? src 0) [
      | none ↦ none
      | some e ↦
          if e == 1
          then (let len = le_value (take 4 (drop 4 src)) in
              if ltb (length src) sz_msg_hdr
              then none
              else if leb (2 ^ 31) len
              then some (negsuc 1)
              else if ltb rem len
              then some (negsuc 0)
              else elim (filter_upd_msg (drop sz_msg_hdr src) (sub64 len sz_msg_hdr) fn_name
                  tbl_names) [
                    | none ↦ none
                    | some res ↦
                        if is_nonneg res then some (res +ℤ pos 8) else some (res +ℤ negsuc 7)
                  ])
          else some (negsuc 1)
    ]

-- How `_filter_msgs` ends: the messages counted and used, or an error at an offset.
pub data Outcome : Type 0 where
  counted : ℕ → ℕ → Outcome
  incomplete_at bad_at : ℕ → Outcome
  no_answer : Outcome

-- The client's function has a state of its own, and gets a message's number, the memory from the
-- message on and its length.
module _ {S : Type 0} (fun : ℕ → List ℕ → ℕ → S → S × ℤ) (fuel : ℕ) (jnl : List ℕ) where
  -- The loop: how many messages may still be visited, the messages visited and used, the offset.
  unfoldable pub loop : ℕ → ℕ → ℕ → ℕ → S → S × Outcome
  loop zero msg_count use_count off s = (s, counted msg_count use_count)
  loop (suc n) msg_count use_count off s =
      if ltb off (length jnl)
      then elim (ipc_payload_len fuel (drop off jnl) (length jnl - off)) [
        | ret (negsuc zero) ↦ (s, incomplete_at off)
        | ret (negsuc (suc e)) ↦ (s, bad_at off)
        | oob ↦ (s, no_answer)
        | stuck ↦ (s, no_answer)
        | ret (pos len) ↦ elim (fun msg_count (drop off jnl) len s).1 [
          | pos r ↦
              loop n (msg_count + 1) (use_count + r) (off + len)
                (fun msg_count (drop off jnl) len s).0
          | negsuc r ↦ elim r [
            | zero ↦ ((fun msg_count (drop off jnl) len s).0, counted (msg_count + 1) use_count)
            | suc r' ↦
                loop n (msg_count + 1) (sub64 use_count (suc (suc r'))) (off + len)
                  (fun msg_count (drop off jnl) len s).0
          ]
        ]
      ]
      else (s, counted msg_count use_count)

  -- `KdbJournal::_filter_msgs`, once the journal is in memory.
  unfoldable pub filter_msgs : ℕ → S → S × Outcome
  filter_msgs max_count s = loop max_count 0 0 sz_msg_hdr s

-- The function that `KdbJournal::mk_upd_tbl_filter` makes: a message that matches goes to
-- `on_match`. `none` is a read behind the memory.
unfoldable pub mk_upd_tbl_filter :
    {S : Type 0}
    → ℕ
    → List ℕ
    → List (List ℕ)
    → (on_match : List ℕ → ℕ → S → S × ℤ) → ℕ
    → List ℕ
    → ℕ
    → S
    → Option (S × ℤ)
mk_upd_tbl_filter skip_first_n fn_name tbl_names on_match ith src len s =
    if leb skip_first_n ith
    then elim (filter_upd_msg src len fn_name tbl_names) [
      | none ↦ none
      | some (negsuc e) ↦ some (s, pos 0)
      | some (pos zero) ↦ some (s, pos 0)
      | some (pos (suc n)) ↦ some (on_match src len s)
    ]
    else some (s, pos 0)

-- The function with which `KdbJournal::init` counts.
abbrev pub counter : ℕ → List ℕ → ℕ → Unit {0} → Unit {0} × ℤ
counter ith src len s = (s, pos 1)
