-- ===== src/LogFilter/Hits.antt =====
-- What the walk of `mg_chk_match_and_get_len` (log_filter/src/log_filter.c) looks for, level by level,
-- is the message's table name.
use mgkdb.Prelude.{
  ℕ, suc, ◌+◌, ◌≡◌, refl, ◌∙◌, Bool, true, false, ◌&&◌, ◌||◌, List, ◌==◌, if◌then◌else◌, arith,
}
use mgkdb.Ipc.Object.{
  Kdb, exception, atom, symbol_atom, vector, symbol_vector, list, table, dict, function, primitive,
  projection, Kdbs, nil, cons,
}
use mgkdb.LogFilter.Messages.{contains, names_it, second, is_relevant}

pub or_false : (b : Bool) → b ≡ (b || false)
or_false true = refl
or_false false = refl

pub or_assoc : (a b c : Bool) → ((a || b) || c) ≡ (a || (b || c))
or_assoc true b c = refl
or_assoc false b c = refl

module _ (names : List (List ℕ)) where
  -- What the walk finds in an object at the level `n`, with the index `i` there.
  unfoldable mutual
    pub hits : ℕ → ℕ → Kdb → Bool
    hits n i (symbol_atom s) = if n == 1 && i == 1 then contains names s else false
    hits n i (list attr vs) = hits_all (suc n) 0 vs
    hits n i (table cols attr vs) = hits_all (suc (suc (suc n))) 0 vs
    hits n i (dict k v) = hits (suc n) 0 k || hits (suc n) 1 v
    hits n i (exception msg) = false
    hits n i (atom e val) = false
    hits n i (vector e attr xs) = false
    hits n i (symbol_vector s) = false
    hits n i (function vec) = false
    hits n i (primitive p val) = false
    hits n i (projection vs) = false

    pub hits_all : ℕ → ℕ → Kdbs → Bool
    hits_all n i nil = false
    hits_all n i (cons v vs) = hits n i v || hits_all n (i + 1) vs

  mutual
    unfolding hits hits_all

    deep : (n i : ℕ) (v : Kdb) → hits (suc (suc n)) i v ≡ false
    deep n i (symbol_atom s) = let e : (suc (suc n) == 1) ≡ false = ground arith in rw e
    deep n i (list attr vs) = deep_all (suc n) 0 vs
    deep n i (table cols attr vs) = deep_all (suc (suc (suc n))) 0 vs
    deep n i (dict k v) = rw (deep (suc n) 0 k) (deep (suc n) 1 v)
    deep n i (exception msg) = refl
    deep n i (atom e val) = refl
    deep n i (vector e attr xs) = refl
    deep n i (symbol_vector s) = refl
    deep n i (function vec) = refl
    deep n i (primitive p val) = refl
    deep n i (projection vs) = refl

    deep_all : (n i : ℕ) (vs : Kdbs) → hits_all (suc (suc n)) i vs ≡ false
    deep_all n i nil = refl
    deep_all n i (cons v vs) = rw (deep n i v) (deep_all n (i + 1) vs)

  if_false : (b : Bool) → false ≡ (if b then false else false)
  if_false true = refl
  if_false false = refl

  -- Below the top only a symbol at the index 1 is looked at.
  at_one : (i : ℕ) (v : Kdb) → hits 1 i v ≡ (if i == 1 then names_it names v else false)
  unfolding hits names_it
  at_one i (symbol_atom s) = refl
  at_one i (list attr vs) = deep_all 0 0 vs ∙ if_false (i == 1)
  at_one i (table cols attr vs) = deep_all 2 0 vs ∙ if_false (i == 1)
  at_one i (dict k v) = rw (deep 0 0 k) (deep 0 1 v ∙ if_false (i == 1))
  at_one i (exception msg) = if_false (i == 1)
  at_one i (atom e val) = if_false (i == 1)
  at_one i (vector e attr xs) = if_false (i == 1)
  at_one i (symbol_vector s) = if_false (i == 1)
  at_one i (function vec) = if_false (i == 1)
  at_one i (primitive p val) = if_false (i == 1)
  at_one i (projection vs) = if_false (i == 1)

  later_ones : (i : ℕ) (vs : Kdbs) → hits_all 1 (suc (suc i)) vs ≡ false
  unfolding hits_all
  later_ones i nil = refl
  later_ones i (cons v vs) =
      let e : (suc (suc i) == 1) ≡ false = ground arith in
      let up : suc (suc i) + 1 ≡ suc (suc (suc i)) = omega arith in
      rw (at_one (suc (suc i)) v, e, up) (later_ones (suc i) vs)

  second_lem : (vs : Kdbs) → hits_all 1 0 vs ≡ second names vs
  unfolding hits_all second
  second_lem nil = refl
  second_lem (cons a nil) = rw (at_one 0 a)
  second_lem (cons a (cons b vs)) =
      rw (at_one 0 a, at_one 1 b, later_ones 0 vs) (back (names_it names b))
    where
      back : (c : Bool) → (c || false) ≡ c
      back true = refl
      back false = refl

  pub hits-is_relevant : (v : Kdb) → hits 0 0 v ≡ is_relevant names v
  unfolding hits is_relevant
  hits-is_relevant (symbol_atom s) = refl
  hits-is_relevant (list attr vs) = second_lem vs
  hits-is_relevant (table cols attr vs) = deep_all 1 0 vs
  hits-is_relevant (dict k v) = rw (at_one 0 k, at_one 1 v)
  hits-is_relevant (exception msg) = refl
  hits-is_relevant (atom e val) = refl
  hits-is_relevant (vector e attr xs) = refl
  hits-is_relevant (symbol_vector s) = refl
  hits-is_relevant (function vec) = refl
  hits-is_relevant (primitive p val) = refl
  hits-is_relevant (projection vs) = refl
