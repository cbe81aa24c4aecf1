-- ===== src/Ipc/Read/Total.antt =====
-- How many bytes a part and what is still to come are.
use mgkdb.Prelude.{
  ℕ, ◌+◌, ◌*◌, ◌≡◌, sym, ap, ◌∙◌, List, [], ◌∷◌, ◌++◌, length, length-append, concat, arith,
}
use mgkdb.Prelude.Bytes.{length-le_bytes}
use mgkdb.Ipc.Types.{elem_size}
use mgkdb.Ipc.Object.{
  Kdb, exception, atom, symbol_atom, vector, symbol_vector, list, table, dict, function, primitive,
  projection, Kdbs, cons, wire_sz, wire_szs, vec_wire_sz,
}
use mgkdb.Ipc.Write.Encode.{cells, encode}
use mgkdb.Ipc.Write.Size.{wire_sz-eq-length-encode, wire_szs-all_chunks}
use mgkdb.Ipc.Read.Obj.{Obj, Slot, Objs}
use mgkdb.Ipc.Read.Elems.{length-cells}
use mgkdb.Ipc.Read.Part.{
  IsPart, exception_part, atom_part, symbol_part, vector_part, symbols_part, list_part, table_part,
  dict_part, function_part, primitive_part, projection_part, IsPair, neither, in_first, after_first,
  in_second, AreParts, none_of, last_of, more_of, hdr_sz, encodes,
}

rest_of : (xs ys zs : List ℕ) → xs ≡ ys ++ zs → length ys + length zs ≡ length xs
rest_of xs ys zs e = sym (length-append ys zs) ∙ sym (ap (length {0}) e)

cells_total :
    (w : ℕ) (xs ys zs : List ℕ)
    → xs ≡ ys ++ zs
    → w * length ys + length (concat (cells w zs)) ≡ length xs * w
cells_total w xs ys zs e =
    let n : length xs * w ≡ w * length ys + w * length zs =
      ap (λ k. k * w) (sym (rest_of xs ys zs e)) ∙ grind arith in
    omega (arith, n, length-cells w zs)

mutual
  unfolding wire_sz vec_wire_sz

  pub part_total :
      (v : Kdb) (n : ℕ) (tail : List ℕ) (o : Obj)
      → IsPart v n tail o
      → hdr_sz v + n + length tail ≡ wire_sz v
  part_total (exception msg) n tail o exception_part = omega (arith, length-append msg (0 ∷ []))
  part_total (atom e val) n tail o atom_part = omega (arith, length-le_bytes (elem_size e) val)
  part_total (symbol_atom val) n tail o symbol_part = omega (arith, length-append val (0 ∷ []))
  part_total (vector e attr xs) n tail o (vector_part ys zs eq) =
      omega (arith, cells_total (elem_size e) xs ys zs eq)
  part_total (symbol_vector s) n tail o (symbols_part ls ms ds es el ed m) =
      omega (arith, rest_of s.m_data ds es ed)
  part_total (list attr vs) n tail o (list_part {os = os} p) =
      omega (arith, parts_total vs n tail os p)
  part_total (table cols attr vs) n tail o (table_part {s = s} {t = t} p) =
      omega (arith, pair_total (symbol_vector cols) (list attr vs) n tail s t p)
  part_total (dict k v) n tail o (dict_part {s = s} {t = t} p) =
      omega (arith, pair_total k v n tail s t p)
  part_total (function vec) n tail o (function_part ys zs eq) = omega (arith, rest_of vec ys zs eq)
  part_total (primitive p val) n tail o primitive_part = omega arith
  part_total (projection vs) n tail o (projection_part {os = os} p) =
      omega (arith, parts_total vs n tail os p)

  pub pair_total :
      (u v : Kdb) (n : ℕ) (tail : List ℕ) (s t : Slot)
      → IsPair u v n tail s t
      → n + length tail ≡ wire_sz u + wire_sz v
  pair_total u v n tail s t neither = omega (
    arith,
    length-append (encode u) (encode v),
    wire_sz-eq-length-encode u,
    wire_sz-eq-length-encode v,
  )
  pair_total u v n tail s t (in_first {n = n'} {tail = tail'} {o = o} p) =
      omega (
        arith,
        length-append tail' (encode v),
        wire_sz-eq-length-encode v,
        part_total u n' tail' o p,
      )
  pair_total u v n tail s t after_first = omega (arith, wire_sz-eq-length-encode v)
  pair_total u v n tail s t (in_second {n = n'} {o = o} p) = omega (arith, part_total v n' tail o p)

  pub parts_total :
      (vs : Kdbs) (n : ℕ) (tail : List ℕ) (os : Objs)
      → AreParts vs n tail os
      → n + length tail ≡ wire_szs vs
  parts_total vs n tail os none_of = omega (arith, wire_szs-all_chunks vs)
  parts_total (cons v vs) n tail os (last_of {n = n'} {tail = tail'} {o = o} p) =
      omega
        (arith, length-append tail' (encodes vs), wire_szs-all_chunks vs, part_total v n' tail' o p)
  parts_total (cons v vs) n tail os (more_of {n = n'} {os = os'} p) =
      omega (arith, parts_total vs n' tail os' p)
