-- ===== src/Ipc/Symbols/Tests.antt =====
-- Runs on small symbol vectors.
use mgkdb.Prelude.{ℕ, ◌≡◌, refl, some, List, [], ◌∷◌, get_elem?, arith}
use mgkdb.Ipc.Object.{push}
use mgkdb.Ipc.Symbols.{of_vals, with_capacity, get_string, index_of}
use mgkdb.Ipc.Symbols.Layout.{get_string-of_vals}

abbrev ab_c : List (List ℕ)
ab_c = (97 ∷ 98 ∷ []) ∷ (99 ∷ []) ∷ []

get_string-of_vals_example : get_string (of_vals 0 ab_c) 1 ≡ get_elem? ab_c 1
get_string-of_vals_example = get_string-of_vals 0 ab_c 1 (omega arith)

index_of_test : index_of (of_vals 0 ab_c) (99 ∷ []) ≡ some 1
unfolding index_of of_vals
index_of_test = refl

pushed_test : push (push (with_capacity 0) (97 ∷ 98 ∷ [])) (99 ∷ []) ≡ of_vals 0 ab_c
unfolding push with_capacity of_vals
pushed_test = refl
