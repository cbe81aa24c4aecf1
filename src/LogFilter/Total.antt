-- ===== src/LogFilter/Total.antt =====
-- Both walks over a message end: the fuel never runs out, and the replay's either.
use mgkdb.Prelude.{
  ℕ, zero, suc, ◌+◌, ◌≤◌, ◌<◌, Bool, false, Option, none, some, List, [], ◌∷◌, length, length-drop,
  drop, arith,
}
use mgkdb.Prelude.Int.{ℤ, pos, negsuc, ◌+ℤ◌}
use mgkdb.LogFilter.Memory.{
  Case, fixed, symbol, list, vector, table, dict, unsupported, case_of, vec_hdr, read_vec_old,
  strlen, VecHdr,
}
use mgkdb.LogFilter.Check.{
  Checked, got, outside, aborted, stuck, and_then, advance, check_loop, check_list, check_vector,
  check_symbol, check_case, check, check_msg,
}

-- The result is at least `n` where there is one, and it is not that the fuel ran out.
abbrev pub Reaches : ℕ → Checked → Type 0
Reaches n (got l relevant) = n ≤ l
Reaches n outside = Unit
Reaches n aborted = Unit
Reaches n stuck = ⊥

Reaches-and_then :
    (k n : ℕ) (c : Checked) (f : ℕ → Bool → Checked)
    → Reaches k c
    → ((l : ℕ) (r : Bool) → Reaches n (f l r))
    → Reaches n (and_then c f)
Reaches-and_then k n (got l r) f h next = next l r
Reaches-and_then k n outside f h next = tt
Reaches-and_then k n aborted f h next = tt
Reaches-and_then k n stuck f h next = elim h [ ]

Reaches-advance : (k n : ℕ) (c : Checked) → Reaches k c → Reaches n (advance n c)
Reaches-advance k n (got l r) h = omega arith
Reaches-advance k n outside h = tt
Reaches-advance k n aborted h = tt
Reaches-advance k n stuck h = elim h [ ]

Reaches-le : (k n : ℕ) (c : Checked) → n ≤ k → Reaches k c → Reaches n c
Reaches-le k n (got l r) le h = omega arith
Reaches-le k n outside le h = tt
Reaches-le k n aborted le h = tt
Reaches-le k n stuck le h = elim h [ ]

length-drop_lt : (n : ℕ) (xs : List ℕ) → 0 < n → 0 < length xs → length (drop n xs) < length xs
length-drop_lt n xs p q = omega (arith, length-drop n xs)

module _ (names : List (List ℕ)) (call : List ℕ → Bool → ℤ → ℕ → Checked) (src : List ℕ)
    (some_left : 0 < length src)
    (shorter : (s : List ℕ) (r : Bool) (level : ℤ) (index : ℕ)
      → length s < length src
      → Reaches 1 (call s r level index)) where
  Reaches-check_loop :
      (n i off : ℕ) (r : Bool) (level : ℤ)
      → 0 < off
      → Reaches off (check_loop names call n i off src r level)
  unfolding check_loop
  Reaches-check_loop zero i off r level h = omega arith
  Reaches-check_loop (suc n) i off r level h =
      Reaches-and_then 1 off (call (drop off src) r level i)
        (λ l r'. check_loop names call n (i + 1) (off + l) src r' level)
        (shorter (drop off src) r level i (length-drop_lt off src h some_left))
        (λ l r'.
          Reaches-le (off + l) off (check_loop names call n (i + 1) (off + l) src r' level)
            (omega arith) (Reaches-check_loop n (i + 1) (off + l) r' level (omega arith)))

  Reaches-check_list :
      (r : Bool) (level : ℤ) (h : Option VecHdr) → Reaches 1 (check_list names call src r level h)
  Reaches-check_list r level none = tt
  Reaches-check_list r level (some h) =
      Reaches-le 6 1 (check_loop names call h.len 0 6 src r level) (omega arith)
        (Reaches-check_loop h.len 0 6 r level (omega arith))

  Reaches-check_case :
      (c : Case) (typ : ℕ) (r : Bool) (level : ℤ) (index : ℕ)
      → Reaches 1 (check_case names call c typ src r level index)
  Reaches-check_case (fixed w) typ r level index = omega arith
  Reaches-check_case symbol typ r level index = of_symbol (strlen (drop 1 src))
    where
      of_symbol : (len : Option ℕ) → Reaches 1 (check_symbol names (drop 1 src) r level index len)
      of_symbol none = tt
      of_symbol (some len) = omega arith
  Reaches-check_case list typ r level index = Reaches-check_list r level (vec_hdr (drop 1 src))
  Reaches-check_case vector typ r level index = of_vector (read_vec_old typ (drop 1 src))
    where
      of_vector : (v : Option ℕ) → Reaches 1 (check_vector r v)
      of_vector none = tt
      of_vector (some v) = omega arith
  Reaches-check_case table typ r level index =
      Reaches-le 2 1 (advance 2 (call (drop 2 src) r level 0)) (omega arith) (
        Reaches-advance 1 2 (call (drop 2 src) r level 0)
          (shorter (drop 2 src) r level 0 (length-drop_lt 2 src (omega arith) some_left)))
  Reaches-check_case dict typ r level index =
      Reaches-and_then 1 1 (call (drop 1 src) r level 0)
        (λ l r'. advance (1 + l) (call (drop (1 + l) src) r' level 1))
        (shorter (drop 1 src) r level 0 (length-drop_lt 1 src (omega arith) some_left))
        (λ l r'.
          Reaches-le (1 + l) 1 (advance (1 + l) (call (drop (1 + l) src) r' level 1)) (omega arith)
            (Reaches-advance 1 (1 + l) (call (drop (1 + l) src) r' level 1) (
              shorter (drop (1 + l) src) r' level 1
                (length-drop_lt (1 + l) src (omega arith) some_left))))
  Reaches-check_case unsupported typ r level index = tt

-- On any memory with fewer bytes than the fuel, the check ends; a length that it finds is not zero.
pub check_lem :
    (names : List (List ℕ)) (fuel : ℕ) (src : List ℕ) (r : Bool) (level : ℤ) (index : ℕ)
    → length src < fuel
    → Reaches 1 (check names fuel src r level index)
unfolding check
check_lem names zero src r level index h = elim h [ ]
check_lem names (suc fuel) [] r level index h = tt
check_lem names (suc fuel) (typ ∷ src) r level index h =
    Reaches-check_case names (λ s r' l i. check names fuel s r' l i) (typ ∷ src) (omega arith)
      (λ s r' l i lt. check_lem names fuel s r' l i (omega arith)) (case_of typ) typ r
      (level +ℤ pos 1) index

-- `mg_chk_msg` on any memory.
pub check_msg-Reaches : (names : List (List ℕ)) (src : List ℕ) → Reaches 1 (check_msg names src)
unfolding check_msg
check_msg-Reaches names src =
    check_lem names (suc (length src)) src false (negsuc 0) 0 (omega arith)
