-- ===== src/LogFilter/Reify.antt =====
-- `mg_reify_msg` and `mg_read_vec` (log_filter/src/log_filter.c): the q object of a message. The
-- objects are made by kx's C interface.
use mgkdb.Prelude.{
  ℕ, zero, suc, ◌+◌, ◌||◌, ◌==◌, Option, none, some, List, [], ◌∷◌, length, take, drop, ltb,
  if◌then◌else◌,
}
use mgkdb.Prelude.Bytes.{le_value}
use mgkdb.LogFilter.Memory.{
  sz_i8, sz_i16, sz_i32, sz_i64, sz_uuid, strlen, Case, fixed, symbol, list, vector, table, dict,
  unsupported, VecHdr, vec_hdr, Vec, elems, syms, read_vec, vec_end,
}

-- The `switch` of `mg_reify_msg`. The size of an atom is what its reading function returns.
unfoldable pub reify_case_of : ℕ → Case
reify_case_of typ =
    if typ == 237
      || typ == 238
      || typ == 239
      || typ == 242
      || typ == 243
      || typ == 248
      || typ == 250
    then fixed sz_i32
    else if typ == 240 || typ == 241 || typ == 244 || typ == 247 || typ == 249
    then fixed sz_i64
    else if typ == 251
    then fixed sz_i16
    else if typ == 246 || typ == 252 || typ == 255
    then fixed sz_i8
    else if typ == 254
    then fixed sz_uuid
    else if typ == 245
    then symbol
    else if typ == 0
    then list
    else if typ == 1
        || typ == 10
        || typ == 4
        || typ == 5
        || typ == 6
        || typ == 8
        || typ == 13
        || typ == 14
        || typ == 17
        || typ == 18
        || typ == 19
        || typ == 7
        || typ == 9
        || typ == 12
        || typ == 15
        || typ == 16
        || typ == 11
    then vector
    else if typ == 98
    then table
    else if typ == 99
    then dict
    else unsupported

-- What the code has of k.h: the objects, each with its parts assigned as the code assigns them.
pub record Kx : Type 1 where
  pub K : Type 0
  -- `ka(typ)`, with its `g`, `h`, `i` or `j`.
  pub ka : ℕ → ℕ → K
  -- `ku`
  pub ku : ℕ → K
  -- `ks`
  pub ks : List ℕ → K
  -- `ktn(typ, len)`, with its attribute and the bytes of its elements.
  pub ktn : ℕ → ℕ → ℕ → List ℕ → K
  -- `ktn(KS, len)`, with its attribute and its symbols.
  pub ktn_syms : ℕ → List (List ℕ) → K
  -- `ktn(0, len)`, with its attribute and its elements.
  pub ktn_list : ℕ → List K → K
  pub x_t : K → K
  pub x_d : K → K → K

module _ (kx : Kx) where
  open kx use {K, ka, ku, ks, ktn, ktn_syms, ktn_list, x_t, x_d}

  -- The length and the object, as `Checked` of the check.
  pub data Made : Type 0 where
    made : ℕ → K → Made
    outside aborted stuck : Made

  pub data MadeList : Type 0 where
    made_list : ℕ → List K → MadeList
    list_outside list_aborted list_stuck : MadeList

  abbrev pub and_make : Made → (ℕ → K → Made) → Made
  and_make (made l k) f = f l k
  and_make outside f = outside
  and_make aborted f = aborted
  and_make stuck f = stuck

  abbrev pub and_list : Made → (ℕ → K → MadeList) → MadeList
  and_list (made l k) f = f l k
  and_list outside f = list_outside
  and_list aborted f = list_aborted
  and_list stuck f = list_stuck

  abbrev pub add_elem : K → MadeList → MadeList
  add_elem k (made_list l ks') = made_list l (k ∷ ks')
  add_elem k list_outside = list_outside
  add_elem k list_aborted = list_aborted
  add_elem k list_stuck = list_stuck

  abbrev pub of_list : ℕ → MadeList → Made
  of_list att (made_list l ks') = made l (ktn_list att ks')
  of_list att list_outside = outside
  of_list att list_aborted = aborted
  of_list att list_stuck = stuck

  -- `mg_read_i8_atom` to `mg_read_uuid_atom`, on the value's `w` bytes.
  abbrev pub atom_of : ℕ → ℕ → ℕ → K
  atom_of w typ val = if ltb w sz_uuid then ka typ val else ku val

  abbrev pub make_fixed : ℕ → ℕ → List ℕ → Made
  make_fixed w typ src =
      if ltb (length src) w then outside else made (1 + w) (atom_of w typ (le_value (take w src)))

  abbrev pub make_symbol : List ℕ → Option ℕ → Made
  make_symbol src none = outside
  make_symbol src (some len) = made (1 + len + sz_i8) (ks (take len src))

  abbrev pub vec_of : ℕ → Vec → K
  vec_of typ (elems att len bytes off) = ktn typ att len bytes
  vec_of typ (syms att texts off) = ktn_syms att texts

  abbrev pub make_vector : ℕ → Option Vec → Made
  make_vector typ none = outside
  make_vector typ (some v) = made (1 + vec_end v) (vec_of typ v)

  -- The functions below call `mg_reify_msg`, which is the argument `call`.
  module _ (call : List ℕ → Made) where
    -- The loop over the elements that are left, at the offset `off`.
    unfoldable pub reify_loop : ℕ → ℕ → List ℕ → MadeList
    reify_loop zero off src = made_list off []
    reify_loop (suc n) off src =
        and_list (call (drop off src)) (λ l k. add_elem k (reify_loop n (off + l) src))

    abbrev pub make_list : List ℕ → Option VecHdr → Made
    make_list src none = outside
    make_list src (some h) = of_list h.att (reify_loop h.len 6 src)

    abbrev pub reify_case : Case → ℕ → List ℕ → Made
    reify_case (fixed w) typ src = make_fixed w typ (drop 1 src)
    reify_case symbol typ src = make_symbol (drop 1 src) (strlen (drop 1 src))
    reify_case list typ src = make_list src (vec_hdr (drop 1 src))
    reify_case vector typ src = make_vector typ (read_vec typ (drop 1 src))
    reify_case table typ src = and_make (call (drop 2 src)) (λ l k. made (2 + l) (x_t k))
    reify_case dict typ src =
        and_make (call (drop 1 src))
          (λ l k. and_make (call (drop (1 + l) src)) (λ m v. made (1 + l + m) (x_d k v)))
    reify_case unsupported typ src = aborted

  -- `mg_reify_msg`
  unfoldable pub reify : ℕ → List ℕ → Made
  reify zero src = stuck
  reify (suc fuel) [] = outside
  reify (suc fuel) (typ ∷ src) = reify_case (λ s. reify fuel s) (reify_case_of typ) typ (typ ∷ src)
