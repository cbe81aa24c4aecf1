-- ===== src/Ipc/Write/Size.antt =====
-- `wireSz` and the chunks of an object.
use mgkdb.Prelude.{
  ℕ, ◌+◌, ◌*◌, ◌≡◌, refl, List, [], ◌∷◌, ◌++◌, append_assoc, length, length-append, concat, arith,
}
use mgkdb.Prelude.Bytes.{le_bytes, length-le_bytes}
use mgkdb.Ipc.Types.{KdbType, elem_size}
use mgkdb.Ipc.Object.{
  Kdb, exception, atom, symbol_atom, vector, symbol_vector, list, table, dict, function, primitive,
  projection, Kdbs, nil, cons, wire_sz, size, wire_szs, vec_wire_sz,
}
use mgkdb.Ipc.Write.Encode.{hdr, cells, chunks, all_chunks, encode}

pub concat-append :
    {A : Type 0} (cs ds : List (List A)) → concat (cs ++ ds) ≡ concat cs ++ concat ds
concat-append [] ds = refl
concat-append (c ∷ cs) ds = rw (concat-append cs ds, append_assoc)

pub length-concat-cells : (w : ℕ) (xs : List ℕ) → length (concat (cells w xs)) ≡ length xs * w
length-concat-cells w [] = omega arith
length-concat-cells w (x ∷ xs) = omega (
  arith,
  length-append (le_bytes w x) (concat (cells w xs)),
  length-le_bytes w x,
  length-concat-cells w xs,
)

pub total-append :
    (cs ds : List (List ℕ)) → length (concat (cs ++ ds)) ≡ length (concat cs) + length (concat ds)
total-append cs ds = rw concat-append (length-append (concat cs) (concat ds))

mutual
  unfolding chunks wire_sz vec_wire_sz

  wire_sz-chunks : (v : Kdb) → length (concat (chunks v)) ≡ wire_sz v
  wire_sz-chunks (exception msg) =
      omega (arith, length-append (msg ++ (0 ∷ [])) [], length-append msg (0 ∷ []))
  wire_sz-chunks (atom e val) =
      omega
        (arith, length-append (le_bytes (elem_size e) val) [], length-le_bytes (elem_size e) val)
  wire_sz-chunks (symbol_atom val) =
      omega (arith, length-append (val ++ (0 ∷ [])) [], length-append val (0 ∷ []))
  wire_sz-chunks (vector e attr xs) = omega (arith, length-concat-cells (elem_size e) xs)
  wire_sz-chunks (symbol_vector s) = omega (arith, length-concat-cells 1 s.m_data)
  wire_sz-chunks (list attr vs) = omega (arith, wire_szs-all_chunks vs)
  wire_sz-chunks (table cols attr vs) = omega (
    arith,
    total-append (hdr KdbType.symbol_vector cols.m_attr (length cols.m_locs) ∷ cells 1 cols.m_data)
        (hdr KdbType.list attr (size vs) ∷ all_chunks vs),
    length-concat-cells 1 cols.m_data,
    wire_szs-all_chunks vs,
  )
  wire_sz-chunks (dict k v) =
      omega (arith, total-append (chunks k) (chunks v), wire_sz-chunks k, wire_sz-chunks v)
  wire_sz-chunks (function vec) = omega (arith, length-concat-cells 1 vec)
  wire_sz-chunks (primitive p val) = omega arith
  wire_sz-chunks (projection vs) = omega (arith, wire_szs-all_chunks vs)

  pub wire_szs-all_chunks : (vs : Kdbs) → length (concat (all_chunks vs)) ≡ wire_szs vs
  wire_szs-all_chunks nil = omega arith
  wire_szs-all_chunks (cons v vs) =
      omega
        (arith, total-append (chunks v) (all_chunks vs), wire_sz-chunks v, wire_szs-all_chunks vs)

-- `wireSz` of any object is the number of bytes that its `write` sends.
pub wire_sz-eq-length-encode : (v : Kdb) → wire_sz v ≡ length (encode v)
unfolding encode
wire_sz-eq-length-encode v = omega (arith, wire_sz-chunks v)
