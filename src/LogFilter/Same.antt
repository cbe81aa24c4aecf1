-- ===== src/LogFilter/Same.antt =====
-- What the two walks of log_filter/src/log_filter.c have each a copy of: the `switch` over the type byte,
-- and `mg_read_vec` with `mg_read_vec_OLD`.
use mgkdb.Prelude.{ℕ, zero, suc, ◌+◌, ◌≡◌, refl, sym, ap, ◌∙◌, Option, none, some, List, drop, take}
use mgkdb.LogFilter.Memory.{
  sz_i8, case_of, strlen, elem_sz, old_elem_sz, VecHdr, vec_hdr, copied, Symbols, add_text,
  sym_texts, old_sym_end, Vec, vec_elems, vec_syms, vec_body, vec_behind, read_vec, vec_end,
  old_body, old_elems_end, old_behind, read_vec_old,
}
use mgkdb.LogFilter.Reify.{reify_case_of}

pub reify_case_of-eq-case_of : (typ : ℕ) → reify_case_of typ ≡ case_of typ
unfolding reify_case_of case_of
reify_case_of-eq-case_of typ = refl

old_elem_sz-eq-elem_sz : (typ : ℕ) → old_elem_sz typ ≡ elem_sz typ
unfolding old_elem_sz elem_sz
old_elem_sz-eq-elem_sz typ = refl

abbrev pub end_of : Option Vec → Option ℕ
end_of none = none
end_of (some v) = some (vec_end v)

abbrev end_of_syms : Option Symbols → Option ℕ
end_of_syms none = none
end_of_syms (some s) = some s.end

end_of_syms-add_text :
    (t : List ℕ) (s : Option Symbols) → end_of_syms (add_text t s) ≡ end_of_syms s
end_of_syms-add_text t none = refl
end_of_syms-add_text t (some s) = refl

old_sym_end_lem :
    (n off : ℕ) (src : List ℕ) → old_sym_end n off src ≡ end_of_syms (sym_texts n off src)
unfolding old_sym_end sym_texts
old_sym_end_lem zero off src = refl
old_sym_end_lem (suc n) off src =
    by (strlen (drop off src)) (λ l. old_sym_end_lem n (off + (l + sz_i8)) src)
  where
    by :
        (len : Option ℕ)
        → ((l : ℕ)
            → old_sym_end n (off + (l + sz_i8)) src
              ≡ end_of_syms (sym_texts n (off + (l + sz_i8)) src))
        → elim len [ none ↦ none | some l ↦ old_sym_end n (off + (l + sz_i8)) src ]
          ≡ end_of_syms (elim len [
            | none ↦ none
            | some l ↦ add_text (take l (drop off src)) (sym_texts n (off + (l + sz_i8)) src)
          ])
    by none ih = refl
    by (some l) ih =
        ih l
        ∙ sym (end_of_syms-add_text (take l (drop off src)) (sym_texts n (off + (l + sz_i8)) src))

end_of-vec_elems :
    (h : VecHdr) (w : ℕ) (bytes : Option (List ℕ))
    → old_elems_end h.len w bytes ≡ end_of (vec_elems h w bytes)
end_of-vec_elems h w none = refl
end_of-vec_elems h w (some bytes) = refl

end_of-vec_syms : (h : VecHdr) (s : Option Symbols) → end_of_syms s ≡ end_of (vec_syms h s)
end_of-vec_syms h none = refl
end_of-vec_syms h (some s) = refl

end_of-vec_body :
    (h : VecHdr) (w : Option ℕ) (src : List ℕ) → old_body h.len w src ≡ end_of (vec_body h w src)
end_of-vec_body h (some w) src = end_of-vec_elems h w (copied h.len w (drop 5 src))
end_of-vec_body h none src = old_sym_end_lem h.len 5 src ∙ end_of-vec_syms h (sym_texts h.len 5 src)

end_of-vec_behind :
    (typ : ℕ) (src : List ℕ) (h : Option VecHdr)
    → old_behind typ src h ≡ end_of (vec_behind typ src h)
end_of-vec_behind typ src none = refl
end_of-vec_behind typ src (some h) =
    ap (λ w. old_body h.len w src) (old_elem_sz-eq-elem_sz typ)
    ∙ end_of-vec_body h (elem_sz typ) src

-- `mg_read_vec_OLD` returns the offset behind the vector that `mg_read_vec` makes of the same bytes.
pub read_vec_old_lem : (typ : ℕ) (src : List ℕ) → read_vec_old typ src ≡ end_of (read_vec typ src)
unfolding read_vec_old read_vec
read_vec_old_lem typ src = end_of-vec_behind typ src (vec_hdr src)
