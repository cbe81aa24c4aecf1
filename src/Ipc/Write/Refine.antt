-- ===== src/Ipc/Write/Refine.antt =====
-- All `write` methods (ipc++/src/KdbType.C) and the chunk specification.
use mgkdb.Prelude.{
  ℕ, ◌+◌, ◌-◌, ◌<◌, ◌≡◌, inl, inr, refl, sym, ap, ◌∙◌, List, [], ◌∷◌, ◌++◌, length, length-append,
  concat, arith,
}
use mgkdb.Prelude.Int.{neg_part}
use mgkdb.Ipc.Types.{
  KdbType, Elem, WriteResult, wr_ok, wr_incomplete, atom_type, vector_type, elem_size,
}
use mgkdb.Ipc.WriteBuf.{WriteBuf}
use mgkdb.Ipc.Object.{
  SymbolVector, Kdb, exception, atom, symbol_atom, vector, symbol_vector, list, table, dict,
  function, primitive, projection, Kdbs, nil, cons, size,
}
use mgkdb.Ipc.Write.{
  and_then, write_elems, write_data, write_symbol_vector, write_text, write, write_all,
}
use mgkdb.Ipc.Write.Chunks.{
  write_chunk, write_chunks, IsCut, IsCut-zero, neg_part-advance, write_chunks-append,
}
use mgkdb.Ipc.Write.Sent.{Sent, write_chunks_lem}
use mgkdb.Ipc.Write.Encode.{cells, hdr, chunks, all_chunks}
use mgkdb.Ipc.Write.Vectors.{write_elems_lem}
use mgkdb.Ipc.Write.Text.{write_data-eq-write_elems, write_text-eq-write_elems}
use mgkdb.Ipc.Write.Headers.{
  write_chunks-one, write_int_atom-Refines, write_sym_atom-Refines, write_primitive-Refines,
  write_projection_hdr-Refines, write_dict_hdr-Refines, write_table_hdr-Refines,
  write_list_hdr-Refines, write_int_vector-header, write_symbol_vector-header,
  write_function-header,
}

elem_size-pos : (e : Elem) → 0 < elem_size e
elem_size-pos Elem.time = omega arith
elem_size-pos _ = omega arith

pub IsCut-append_left : (cs ds : List (List ℕ)) (k : ℕ) → IsCut (cs ++ ds) k → IsCut cs k
IsCut-append_left [] ds k cut = tt
IsCut-append_left (c ∷ cs) ds k (inl e) = inl e
IsCut-append_left (c ∷ cs) ds k (inr (h, cut)) = inr (h, IsCut-append_left cs ds _ cut)

IsCut-append_right :
    (cs ds : List (List ℕ)) (k : ℕ) → IsCut (cs ++ ds) k → IsCut ds (k - length (concat cs))
IsCut-append_right [] ds k cut = let e : k - 0 ≡ k = omega arith in rw e cut
IsCut-append_right (c ∷ cs) ds k (inl e) =
    let z : k - length (c ++ concat cs) ≡ 0 = omega arith in rw z (IsCut-zero ds)
IsCut-append_right (c ∷ cs) ds k (inr (h, cut)) =
    let e : k - length (c ++ concat cs) ≡ k - length c - length (concat cs) =
      omega (arith, length-append c (concat cs)) in
    rw e (IsCut-append_right cs ds _ cut)

-- `f` is the writer of the chunks `cs`, at every cursor at the end of a chunk.
abbrev pub Refines : (WriteBuf → WriteResult × WriteBuf) → List (List ℕ) → Type 0
Refines f cs = (b : WriteBuf) → IsCut cs (neg_part b.m_csr) → f b ≡ write_chunks cs b

-- After the chunks `cs` the cursor is where the chunks behind them want it.
pub IsCut-after :
    (cs ds : List (List ℕ)) (b : WriteBuf) (r : WriteResult × WriteBuf)
    → IsCut (cs ++ ds) (neg_part b.m_csr)
    → Sent cs b (neg_part b.m_csr) r
    → r.0 ≡ wr_ok
    → IsCut ds (neg_part r.1.m_csr)
IsCut-after cs ds b r cut s ok =
    let e : neg_part r.1.m_csr ≡ neg_part b.m_csr - length (concat cs) =
      ap neg_part s.csr
      ∙ omega (
        arith,
        neg_part-advance b.m_csr (length s.skipped + length s.out),
        s.done ok,
        ap (length {0}) s.whole,
        length-append s.skipped (s.out ++ s.left),
        length-append s.out s.left,
      ) in
    rw e (IsCut-append_right cs ds (neg_part b.m_csr) cut)

-- The writers of two rows, one after the other, are the writer of the two rows.
pub seq :
    (f g : WriteBuf → WriteResult × WriteBuf) (cs ds : List (List ℕ))
    → Refines f cs
    → Refines g ds
    → Refines (λ b. and_then (f b) g) (cs ++ ds)
seq f g cs ds hf hg b cut =
    ap (λ m. and_then m g) (hf b (IsCut-append_left cs ds _ cut))
    ∙ go (write_chunks cs b)
        (IsCut-after cs ds b _ cut (write_chunks_lem cs b _ refl (IsCut-append_left cs ds _ cut)))
    ∙ sym (write_chunks-append cs ds b)
  where
    go :
        (r : WriteResult × WriteBuf)
        → (r.0 ≡ wr_ok → IsCut ds (neg_part r.1.m_csr))
        → and_then r g ≡ and_then r (λ b'. write_chunks ds b')
    go (wr_ok, b') h = hg b' (h refl)
    go (wr_incomplete, b') h = refl

-- One writer that is a chunk.
pub one :
    (f : WriteBuf → WriteResult × WriteBuf) (c : List ℕ)
    → ((b : WriteBuf) → f b ≡ write_chunk c b)
    → Refines f (c ∷ [])
one f c h b cut = h b ∙ sym (write_chunks-one c b)

-- A writer that is a chunk and then another writer.
headed :
    (f g : WriteBuf → WriteResult × WriteBuf) (c : List ℕ) (cs : List (List ℕ))
    → ((b : WriteBuf) → f b ≡ and_then (write_chunk c b) g)
    → Refines g cs
    → Refines f (c ∷ cs)
headed f g c cs h hg b cut =
    h b ∙ seq (λ b'. write_chunk c b') g (c ∷ []) cs (one _ c (λ b'. refl)) hg b cut

elems-Refines :
    (e : Elem) (xs : List ℕ)
    → Refines (λ b. write_elems (elem_size e) xs b) (cells (elem_size e) xs)
elems-Refines e xs b cut = write_elems_lem (elem_size e) xs b (elem_size-pos e) cut

data-Refines : (xs : List ℕ) → Refines (λ b. write_data xs b) (cells 1 xs)
data-Refines xs b cut = write_data-eq-write_elems xs b ∙ write_elems_lem 1 xs b (omega arith) cut

text-Refines : (xs : List ℕ) → Refines (λ b. write_text xs b) (cells 1 xs)
text-Refines xs b cut = write_text-eq-write_elems xs b ∙ write_elems_lem 1 xs b (omega arith) cut

symbols-Refines :
    (s : SymbolVector)
    → Refines
        (λ b. write_symbol_vector s b)
        (hdr KdbType.symbol_vector s.m_attr (length s.m_locs) ∷ cells 1 s.m_data)
symbols-Refines s =
    headed (λ b. write_symbol_vector s b) (λ b. write_data s.m_data b) _ _
      (write_symbol_vector-header s) (data-Refines s.m_data)

nothing : Refines (λ b. (wr_ok, b)) []
unfolding write_chunks
nothing b cut = refl

mutual
  unfolding write chunks

  write-chunks : (v : Kdb) → Refines (λ b. write v b) (chunks v)
  write-chunks (exception msg) = one _ _ (write_sym_atom-Refines KdbType.exception msg)
  write-chunks (atom e val) = one _ _ (write_int_atom-Refines (atom_type e) (elem_size e) val)
  write-chunks (symbol_atom val) = one _ _ (write_sym_atom-Refines KdbType.symbol_atom val)
  write-chunks (vector e attr xs) =
      headed _ (λ b. write_elems (elem_size e) xs b) _ _
        (write_int_vector-header (vector_type e) attr (elem_size e) xs) (elems-Refines e xs)
  write-chunks (symbol_vector s) = symbols-Refines s
  write-chunks (list attr vs) =
      seq _ (λ b. write_all vs b) _ _ (one _ _ (write_list_hdr-Refines attr (size vs)))
        (write_all-chunks vs)
  write-chunks (table cols attr vs) = seq _ _ _ _ (one _ _ write_table_hdr-Refines) (
      seq _ _ _ _ (symbols-Refines cols) (
        seq _ (λ b. write_all vs b) _ _ (one _ _ (write_list_hdr-Refines attr (size vs)))
          (write_all-chunks vs)))
  write-chunks (dict k v) =
      seq _ _ _ _ (one _ _ write_dict_hdr-Refines) (seq _ _ _ _ (write-chunks k) (write-chunks v))
  write-chunks (function vec) =
      headed _ (λ b. write_text vec b) _ _ (write_function-header vec) (text-Refines vec)
  write-chunks (primitive p val) = one _ _ (write_primitive-Refines p val)
  write-chunks (projection vs) =
      seq _ (λ b. write_all vs b) _ _ (one _ _ (write_projection_hdr-Refines (size vs)))
        (write_all-chunks vs)

  write_all-chunks : (vs : Kdbs) → Refines (λ b. write_all vs b) (all_chunks vs)
  write_all-chunks nil = nothing
  write_all-chunks (cons v vs) = seq _ _ _ _ (write-chunks v) (write_all-chunks vs)

-- From every cursor that stands at the end of a chunk, the `write` method of any object does
-- what the chunk specification does with the object's chunks: same result, same buffer.
pub write_refines :
    (v : Kdb) (b : WriteBuf)
    → IsCut (chunks v) (neg_part b.m_csr)
    → write v b ≡ write_chunks (chunks v) b
write_refines v b cut = write-chunks v b cut
