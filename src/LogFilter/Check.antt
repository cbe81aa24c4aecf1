-- ===== src/LogFilter/Check.antt =====
-- `mg_chk_match_and_get_len` and `mg_chk_msg` (log_filter/src/log_filter.c): the length of a message,
-- and whether it names one of the tables.
use mgkdb.Prelude.{
  ℕ, zero, suc, ◌+◌, Bool, true, false, ◌&&◌, Option, none, some, List, [], ◌∷◌, ◌++◌, length, drop,
  ◌==◌, if◌then◌else◌,
}
use mgkdb.Prelude.Int.{ℤ, pos, negsuc, ◌+ℤ◌}
use mgkdb.LogFilter.Memory.{
  sz_i8, strlen, strncmp_same, Case, fixed, symbol, list, vector, table, dict, unsupported, case_of,
  VecHdr, vec_hdr, read_vec_old,
}

-- The length and `*relevant`. `outside` is a read outside the memory, `aborted` the call of `abort`,
-- and `stuck` no result of the code: the fuel, which bounds how deep the calls nest, ran out.
pub data Checked : Type 0 where
  got : ℕ → Bool → Checked
  outside aborted stuck : Checked

-- The names of the tables are C strings: bytes and a terminator.
unfoldable pub matches : List (List ℕ) → List ℕ → ℕ → Bool → Bool
matches [] txt len relevant = relevant
matches (name ∷ names) txt len relevant =
    matches names txt len
      (if strncmp_same (len + sz_i8) (name ++ (0 ∷ [])) txt then true else relevant)

abbrev pub is_one : ℤ → Bool
is_one (pos n) = n == 1
is_one (negsuc n) = false

-- `*relevant` after a symbol of `len` bytes at `txt`.
abbrev pub mark : List (List ℕ) → List ℕ → Bool → ℤ → ℕ → ℕ → Bool
mark names txt relevant level index len =
    if is_one level && index == 1 then matches names txt len relevant else relevant

abbrev pub check_symbol : List (List ℕ) → List ℕ → Bool → ℤ → ℕ → Option ℕ → Checked
check_symbol names txt relevant level index none = outside
check_symbol names txt relevant level index (some len) =
    got (1 + (sz_i8 + len)) (mark names txt relevant level index len)

abbrev pub check_vector : Bool → Option ℕ → Checked
check_vector relevant none = outside
check_vector relevant (some len) = got (1 + len) relevant

abbrev pub advance : ℕ → Checked → Checked
advance n (got l relevant) = got (n + l) relevant
advance n outside = outside
advance n aborted = aborted
advance n stuck = stuck

abbrev pub and_then : Checked → (ℕ → Bool → Checked) → Checked
and_then (got l relevant) f = f l relevant
and_then outside f = outside
and_then aborted f = aborted
and_then stuck f = stuck

-- The functions below call `mg_chk_match_and_get_len`, which is the argument `call`; `level` is the
-- level of the object that they are about.
module _ (names : List (List ℕ)) (call : List ℕ → Bool → ℤ → ℕ → Checked) where
  -- The loop over the elements that are left, from the element `i` at the offset `off`.
  unfoldable pub check_loop : ℕ → ℕ → ℕ → List ℕ → Bool → ℤ → Checked
  check_loop zero i off src relevant level = got off relevant
  check_loop (suc n) i off src relevant level =
      and_then (call (drop off src) relevant level i)
        (λ l r. check_loop n (i + 1) (off + l) src r level)

  abbrev pub check_list : List ℕ → Bool → ℤ → Option VecHdr → Checked
  check_list src relevant level none = outside
  check_list src relevant level (some h) = check_loop h.len 0 6 src relevant level

  -- `src` is the memory from the type byte on.
  abbrev pub check_case : Case → ℕ → List ℕ → Bool → ℤ → ℕ → Checked
  check_case (fixed w) typ src relevant level index = got (1 + w) relevant
  check_case symbol typ src relevant level index =
      check_symbol names (drop 1 src) relevant level index (strlen (drop 1 src))
  check_case list typ src relevant level index =
      check_list src relevant level (vec_hdr (drop 1 src))
  check_case vector typ src relevant level index =
      check_vector relevant (read_vec_old typ (drop 1 src))
  check_case table typ src relevant level index = advance 2 (call (drop 2 src) relevant level 0)
  check_case dict typ src relevant level index =
      and_then (call (drop 1 src) relevant level 0)
        (λ l r. advance (1 + l) (call (drop (1 + l) src) r level 1))
  check_case unsupported typ src relevant level index = aborted

-- `mg_chk_match_and_get_len(src, tbl_names, relevant, level, index)`
unfoldable pub check : List (List ℕ) → ℕ → List ℕ → Bool → ℤ → ℕ → Checked
check names zero src relevant level index = stuck
check names (suc fuel) [] relevant level index = outside
check names (suc fuel) (typ ∷ src) relevant level index =
    check_case names (λ s r l i. check names fuel s r l i) (case_of typ) typ (typ ∷ src) relevant
      (level +ℤ pos 1) index

-- `mg_chk_msg`, with `*relevant` 0 before. Calls nest at most as deep as there are bytes.
unfoldable pub check_msg : List (List ℕ) → List ℕ → Checked
unfolding check
check_msg names src = check names (suc (length src)) src false (negsuc 0) 0
