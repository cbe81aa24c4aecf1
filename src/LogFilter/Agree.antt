-- ===== src/LogFilter/Agree.antt =====
-- `mg_chk_match_and_get_len` and `mg_reify_msg` walk over the same bytes.
use mgkdb.Prelude.{
  ℕ, zero, suc, ◌+◌, ◌≡◌, refl, sym, ap, Bool, Option, none, some, List, [], ◌∷◌, length, drop, ltb,
  arith, inl, inr, Bool-cases,
}
use mgkdb.Prelude.Int.{ℤ, pos, ◌+ℤ◌}
use mgkdb.LogFilter.Memory.{
  Case, fixed, symbol, list, vector, table, dict, unsupported, case_of, vec_hdr, read_vec, strlen,
  VecHdr, Vec,
}
use mgkdb.LogFilter.Same.{end_of, reify_case_of-eq-case_of, read_vec_old_lem}
use mathlib.Core.Path.{subst}
use mgkdb.LogFilter.Check.{
  Checked, got, mark, and_then, advance, check_loop, check_list, check_vector, check_symbol,
  check_case, check,
}
use mgkdb.LogFilter.Reify.{
  Kx, Made, MadeList, made, made_list, list_outside, list_aborted, list_stuck, and_make, and_list,
  add_elem, of_list, make_fixed, make_symbol, make_vector, make_list, reify_loop, reify_case, reify,
}

module _ (kx : Kx) where
  open kx use {K, x_t, x_d}

  -- The check ends as the reading does, and with its length.
  abbrev pub Agrees : Made kx → Checked → Type 0
  Agrees (made l k) c = (r : Bool) × (c ≡ got l r)
  Agrees Made.outside c = Unit
  Agrees Made.aborted c = c ≡ Checked.aborted
  Agrees Made.stuck c = c ≡ Checked.stuck

  abbrev AgreesList : MadeList kx → Checked → Type 0
  AgreesList (made_list l ks') c = (r : Bool) × (c ≡ got l r)
  AgreesList list_outside c = Unit
  AgreesList list_aborted c = c ≡ Checked.aborted
  AgreesList list_stuck c = c ≡ Checked.stuck

  Agrees-and_list :
      (m : Made kx) (c : Checked) (f : ℕ → K → MadeList kx) (g : ℕ → Bool → Checked)
      → Agrees m c
      → ((l : ℕ) (k : K) (r : Bool) → AgreesList (f l k) (g l r))
      → AgreesList (and_list kx m f) (and_then c g)
  Agrees-and_list (made l k) c f g (r, e) next = rw e (next l k r)
  Agrees-and_list Made.outside c f g h next = tt
  Agrees-and_list Made.aborted c f g h next = rw h
  Agrees-and_list Made.stuck c f g h next = rw h

  Agrees-and_make :
      (m : Made kx) (c : Checked) (f : ℕ → K → Made kx) (g : ℕ → Bool → Checked)
      → Agrees m c
      → ((l : ℕ) (k : K) (r : Bool) → Agrees (f l k) (g l r))
      → Agrees (and_make kx m f) (and_then c g)
  Agrees-and_make (made l k) c f g (r, e) next = rw e (next l k r)
  Agrees-and_make Made.outside c f g h next = tt
  Agrees-and_make Made.aborted c f g h next = rw h
  Agrees-and_make Made.stuck c f g h next = rw h

  Agrees-advance :
      (n : ℕ) (m : Made kx) (c : Checked) (f : K → K)
      → Agrees m c
      → Agrees (and_make kx m (λ l k. made (n + l) (f k))) (advance n c)
  Agrees-advance n (made l k) c f (r, e) = (r, ap (advance n) e)
  Agrees-advance n Made.outside c f h = tt
  Agrees-advance n Made.aborted c f h = rw h
  Agrees-advance n Made.stuck c f h = rw h

  AgreesList-add_elem :
      (k : K) (m : MadeList kx) (c : Checked) → AgreesList m c → AgreesList (add_elem kx k m) c
  AgreesList-add_elem k (made_list l ks') c h = h
  AgreesList-add_elem k list_outside c h = tt
  AgreesList-add_elem k list_aborted c h = h
  AgreesList-add_elem k list_stuck c h = h

  Agrees-of_list :
      (att : ℕ) (m : MadeList kx) (c : Checked) → AgreesList m c → Agrees (of_list kx att m) c
  Agrees-of_list att (made_list l ks') c h = h
  Agrees-of_list att list_outside c h = tt
  Agrees-of_list att list_aborted c h = h
  Agrees-of_list att list_stuck c h = h

  Agrees-make_fixed :
      (w typ : ℕ) (src : List ℕ) (r : Bool) → Agrees (make_fixed kx w typ src) (got (1 + w) r)
  Agrees-make_fixed w typ src r = elim (Bool-cases (ltb (length src) w)) [
    | inl short ↦ rw short tt
    | inr long ↦ rw long (r, refl)
  ]

  module _ (names : List (List ℕ)) (make : List ℕ → Made kx)
      (call : List ℕ → Bool → ℤ → ℕ → Checked)
      (same : (s : List ℕ) (r : Bool) (level : ℤ) (index : ℕ)
        → Agrees (make s) (call s r level index)) where
    Agrees-loop :
        (n i off : ℕ) (src : List ℕ) (r : Bool) (level : ℤ)
        → AgreesList (reify_loop kx make n off src) (check_loop names call n i off src r level)
    unfolding reify_loop check_loop
    Agrees-loop zero i off src r level = (r, refl)
    Agrees-loop (suc n) i off src r level =
        Agrees-and_list (make (drop off src)) (call (drop off src) r level i)
          (λ l k. add_elem kx k (reify_loop kx make n (off + l) src))
          (λ l r'. check_loop names call n (i + 1) (off + l) src r' level)
          (same (drop off src) r level i)
          (λ l k r'.
            AgreesList-add_elem k (reify_loop kx make n (off + l) src)
              (check_loop names call n (i + 1) (off + l) src r' level)
              (Agrees-loop n (i + 1) (off + l) src r' level))

    Agrees-list :
        (src : List ℕ) (r : Bool) (level : ℤ) (h : Option VecHdr)
        → Agrees (make_list kx make src h) (check_list names call src r level h)
    Agrees-list src r level none = tt
    Agrees-list src r level (some h) =
        Agrees-of_list h.att (reify_loop kx make h.len 6 src)
          (check_loop names call h.len 0 6 src r level) (Agrees-loop h.len 0 6 src r level)

    Agrees-symbol :
        (src : List ℕ) (r : Bool) (level : ℤ) (index : ℕ) (len : Option ℕ)
        → Agrees (make_symbol kx src len) (check_symbol names src r level index len)
    Agrees-symbol src r level index none = tt
    Agrees-symbol src r level index (some len) = (
      mark names src r level index len,
      ap (λ l. got l (mark names src r level index len)) (omega arith),
    )

    Agrees-vector :
        (typ : ℕ) (r : Bool) (v : Option Vec)
        → Agrees (make_vector kx typ v) (check_vector r (end_of v))
    Agrees-vector typ r none = tt
    Agrees-vector typ r (some v) = (r, refl)

    Agrees-case :
        (c : Case) (typ : ℕ) (src : List ℕ) (r : Bool) (level : ℤ) (index : ℕ)
        → Agrees (reify_case kx make c typ src) (check_case names call c typ src r level index)
    Agrees-case (fixed w) typ src r level index = Agrees-make_fixed w typ (drop 1 src) r
    Agrees-case symbol typ src r level index =
        Agrees-symbol (drop 1 src) r level index (strlen (drop 1 src))
    Agrees-case list typ src r level index = Agrees-list src r level (vec_hdr (drop 1 src))
    Agrees-case vector typ src r level index =
        subst (λ o. Agrees (make_vector kx typ (read_vec typ (drop 1 src))) (check_vector r o))
          (sym (read_vec_old_lem typ (drop 1 src)))
          (Agrees-vector typ r (read_vec typ (drop 1 src)))
    Agrees-case table typ src r level index =
        Agrees-advance 2 (make (drop 2 src)) (call (drop 2 src) r level 0) x_t
          (same (drop 2 src) r level 0)
    Agrees-case dict typ src r level index =
        Agrees-and_make (make (drop 1 src)) (call (drop 1 src) r level 0)
          (λ l k. and_make kx (make (drop (1 + l) src)) (λ m v. made (1 + l + m) (x_d k v)))
          (λ l r'. advance (1 + l) (call (drop (1 + l) src) r' level 1))
          (same (drop 1 src) r level 0)
          (λ l k r'.
            Agrees-advance (1 + l) (make (drop (1 + l) src)) (call (drop (1 + l) src) r' level 1)
              (x_d k) (same (drop (1 + l) src) r' level 1))
    Agrees-case unsupported typ src r level index = refl

  -- On any memory the check ends as the reading does, unless the reading leaves the memory: where
  -- `mg_reify_msg` makes an object, `mg_chk_match_and_get_len` finds the same length, whatever the
  -- tables, the level and the index are, and where it aborts the check aborts.
  pub reify-check :
      (names : List (List ℕ)) (fuel : ℕ) (src : List ℕ) (r : Bool) (level : ℤ) (index : ℕ)
      → Agrees (reify kx fuel src) (check names fuel src r level index)
  unfolding reify check
  reify-check names zero src r level index = refl
  reify-check names (suc fuel) [] r level index = tt
  reify-check names (suc fuel) (typ ∷ src) r level index =
      subst
        (λ c. Agrees (reify_case kx (λ s. reify kx fuel s) c typ (typ ∷ src)) (
          check_case names (λ s r' l i. check names fuel s r' l i) (case_of typ) typ (typ ∷ src) r
            (level +ℤ pos 1) index))
        (sym (reify_case_of-eq-case_of typ))
        (Agrees-case names (λ s. reify kx fuel s) (λ s r' l i. check names fuel s r' l i)
          (λ s r' l i. reify-check names fuel s r' l i) (case_of typ) typ (typ ∷ src) r
          (level +ℤ pos 1) index)
