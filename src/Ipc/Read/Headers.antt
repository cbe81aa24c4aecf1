-- ===== src/Ipc/Read/Headers.antt =====
-- `newInstance` (ipc++/src/KdbType.C) on the header of a value.
use mgkdb.Prelude.{
  ℕ, ◌+◌, ◌*◌, ◌%◌, ◌^◌, ◌<◌, ◌≡◌, refl, sym, ap, ◌∙◌, true, false, List, [], ◌∷◌, ◌++◌, length,
  drop, take, leb, lt→ltb, arith, some,
}
use mgkdb.Prelude.Int.{neg_part}
use mgkdb.Prelude.Bytes.{le_bytes, le_value}
use mgkdb.Ipc.Types.{KdbType, Elem, Primitive, i8typ, atom_type, vector_type, primitive_type}
use mgkdb.Ipc.Write.Encode.{prologue, table_hdr}
use mgkdb.Ipc.ReadBuf.{ReadResult, ReadBuf, adj}
use mgkdb.Ipc.Read.Obj.{Obj, null, onil}
use mgkdb.Ipc.Read.New.{
  New, failed, made, new_instance, new_atom, new_vec32, new_case, label, known, table_alloc,
  function_alloc, projection_alloc,
}
use mgkdb.Ipc.Read.Cursor.{at_zero, neg_part-adj}
use mgkdb.Ipc.Read.Visible.{head_eq, Seen, all_seen, part_seen, Seen-cases, too_few}

pub atom_label : (e : Elem) → label known (i8typ (atom_type e) % 256 + 256 * 0) ≡ some (atom_type e)
unfolding label
atom_label Elem.time = refl
atom_label _ = refl

pub vector_label :
    (e : Elem) → label known (i8typ (vector_type e) % 256 + 256 * 0) ≡ some (vector_type e)
unfolding label
vector_label Elem.time = refl
vector_label _ = refl

pub primitive_label :
    (p : Primitive)
    → label known (i8typ (primitive_type p) % 256 + 256 * 0) ≡ some (primitive_type p)
unfolding label
primitive_label Primitive.unary = refl
primitive_label _ = refl

-- What `newInstance` may do on a header of `h` bytes: it makes the object and stands behind the
-- header, or it takes nothing from a buffer that ends within the header.
pub data Starts (o : Obj) (h : ℕ) (b : ReadBuf) (unseen behind : List ℕ) : New → Type 0 where
  started :
      {b' : ReadBuf}
      → neg_part b'.m_csr ≡ 0
      → b'.m_rest ++ unseen ≡ behind
      → b'.m_off ≡ b.m_off + h
      → Starts o h b unseen behind (made o b')
  waiting : length b.m_rest < h → Starts o h b unseen behind (failed ReadResult.rd_incomplete b)

module _ (b : ReadBuf) (unseen behind : List ℕ) (c : neg_part b.m_csr ≡ 0) where
  pub dispatch :
      (t : KdbType) (x : ℕ) (xs : List ℕ)
      → label known (x + 256 * 0) ≡ some t
      → b.m_rest ≡ x ∷ xs
      → new_instance b ≡ new_case t b
  unfolding new_instance
  dispatch t x xs l e =
      let room : leb 1 (length b.m_rest) ≡ true = ground (arith, ap (length {0}) e) in
      let v : le_value (take 1 b.m_rest) ≡ x + 256 * 0 = ap (λ us. le_value (take 1 us)) e in
      rw (at_zero b c, room, v, l)

  nothing_there :
      (o : Obj) (h : ℕ) → 0 < h → b.m_rest ≡ [] → Starts o h b unseen behind (new_instance b)
  unfolding new_instance
  nothing_there o h hp e =
      let few : length b.m_rest < h = omega (arith, ap (length {0}) e) in
      let l : leb 1 (length b.m_rest) ≡ false = ground (arith, ap (length {0}) e) in
      rw (at_zero b c, l) (waiting few)

  pub atom_starts :
      (o : Obj) (x : ℕ) (r : List ℕ)
      → b.m_rest ≡ x ∷ r
      → r ++ unseen ≡ behind
      → Starts o 1 b unseen behind (new_atom o b)
  unfolding new_atom adj
  atom_starts o x r e m =
      started {b' = adj 1 b} (omega (arith, neg_part-adj 1 b)) (rw e m) (omega arith)

  pub vec_starts :
      (mk : ℕ → ℕ → Obj) (typ attr n : ℕ) (r : List ℕ)
      → attr < 256
      → n < 2 ^ 31
      → b.m_rest ≡ (le_bytes 1 typ ++ (le_bytes 1 attr ++ le_bytes 4 n)) ++ r
      → r ++ unseen ≡ behind
      → Starts (mk attr n) 6 b unseen behind (new_vec32 mk b)
  unfolding new_vec32 adj
  vec_starts mk typ attr n r ha hn e m =
      let room : leb 6 (length b.m_rest) ≡ true = ground (arith, ap (length {0}) e) in
      let v : le_value (take 4 (drop 1 (drop 1 b.m_rest))) ≡ n =
        ap (λ us. le_value (take 4 (drop 1 (drop 1 us)))) e ∙ omega arith in
      let a : le_value (take 1 (drop 1 b.m_rest)) ≡ attr =
        ap (λ us. le_value (take 1 (drop 1 us))) e ∙ omega arith in
      rw (room, v, a, lt→ltb _ _ hn)
        (started {b' = adj 4 (adj 1 (adj 1 b))}
          (omega
            (arith, neg_part-adj 4 (adj 1 (adj 1 b)), neg_part-adj 1 (adj 1 b), neg_part-adj 1 b))
          (ap (λ us. drop 4 (drop 1 (drop 1 us)) ++ unseen) e ∙ m) (omega arith))

  pub vec_waits :
      (mk : ℕ → ℕ → Obj) (o : Obj)
      → length b.m_rest < 6
      → Starts o 6 b unseen behind (new_vec32 mk b)
  unfolding new_vec32
  vec_waits mk o few =
      let room : leb 6 (length b.m_rest) ≡ false = ground arith in rw room (waiting few)

  pub table_starts :
      (r : List ℕ)
      → b.m_rest ≡ table_hdr ++ r
      → r ++ unseen ≡ behind
      → Starts (Obj.table null null) 3 b unseen behind (table_alloc b)
  unfolding table_alloc adj
  table_starts r e m =
      let room : leb 3 (length b.m_rest) ≡ true = ground (arith, ap (length {0}) e) in
      rw room (
        started {b' = adj 1 (adj 1 (adj 1 b))}
          (omega
            (arith, neg_part-adj 1 (adj 1 (adj 1 b)), neg_part-adj 1 (adj 1 b), neg_part-adj 1 b))
          (ap (λ us. drop 1 (drop 1 (drop 1 us)) ++ unseen) e ∙ m) (omega arith))

  pub table_waits :
      length b.m_rest < 3 → Starts (Obj.table null null) 3 b unseen behind (table_alloc b)
  unfolding table_alloc
  table_waits few =
      let room : leb 3 (length b.m_rest) ≡ false = ground arith in rw room (waiting few)

  pub projection_starts :
      (n : ℕ) (r : List ℕ)
      → n < 2 ^ 31
      → b.m_rest ≡ (le_bytes 1 (i8typ KdbType.projection) ++ le_bytes 4 n) ++ r
      → r ++ unseen ≡ behind
      → Starts (Obj.projection n onil) 5 b unseen behind (projection_alloc b)
  unfolding projection_alloc adj
  projection_starts n r hn e m =
      let room : leb 5 (length b.m_rest) ≡ true = ground (arith, ap (length {0}) e) in
      let v : le_value (take 4 (drop 1 b.m_rest)) ≡ n =
        ap (λ us. le_value (take 4 (drop 1 us))) e ∙ omega arith in
      let small : leb (2 ^ 31) n ≡ false = ground arith in
      rw (room, v, small)
        (started {b' = adj 4 (adj 1 b)} (omega (arith, neg_part-adj 4 (adj 1 b), neg_part-adj 1 b))
          (ap (λ us. drop 4 (drop 1 us) ++ unseen) e ∙ m) (omega arith))

  pub projection_waits :
      (o : Obj) → length b.m_rest < 5 → Starts o 5 b unseen behind (projection_alloc b)
  unfolding projection_alloc
  projection_waits o few =
      let room : leb 5 (length b.m_rest) ≡ false = ground arith in rw room (waiting few)

  pub function_starts :
      (n : ℕ) (r : List ℕ)
      → n < 2 ^ 31
      → b.m_rest ≡ prologue n ++ r
      → r ++ unseen ≡ behind
      → Starts (Obj.function n []) 8 b unseen behind (function_alloc b)
  unfolding function_alloc adj
  function_starts n r hn e m =
      let room : leb 8 (length b.m_rest) ≡ true = ground (arith, ap (length {0}) e) in
      let t : le_value (take 1 (drop 1 (drop 1 b.m_rest))) ≡ 10 =
        ap (λ us. le_value (take 1 (drop 1 (drop 1 us)))) e in
      let v : le_value (take 4 (drop 1 (drop 1 (drop 1 (drop 1 b.m_rest))))) ≡ n =
        ap (λ us. le_value (take 4 (drop 1 (drop 1 (drop 1 (drop 1 us)))))) e ∙ omega arith in
      let small : leb (2 ^ 31) n ≡ false = ground arith in
      rw (room, t, v, small)
        (started {b' = adj 4 (adj 1 (adj 1 (adj 1 (adj 1 b))))}
          (omega (
            arith,
            neg_part-adj 4 (adj 1 (adj 1 (adj 1 (adj 1 b)))),
            neg_part-adj 1 (adj 1 (adj 1 (adj 1 b))),
            neg_part-adj 1 (adj 1 (adj 1 b)),
            neg_part-adj 1 (adj 1 b),
            neg_part-adj 1 b,
          ))
          (ap (λ us. drop 4 (drop 1 (drop 1 (drop 1 (drop 1 us)))) ++ unseen) e ∙ m) (omega arith))

  pub function_waits :
      (o : Obj) → length b.m_rest < 8 → Starts o 8 b unseen behind (function_alloc b)
  unfolding function_alloc
  function_waits o few =
      let room : leb 8 (length b.m_rest) ≡ false = ground arith in rw room (waiting few)

  -- A header of which the first byte is `x`, whether or not all of it is there.
  pub start :
      (o : Obj) (t : KdbType) (x : ℕ) (xs : List ℕ)
      → label known (x + 256 * 0) ≡ some t
      → b.m_rest ++ unseen ≡ (x ∷ xs) ++ behind
      → ((r : List ℕ)
          → b.m_rest ≡ (x ∷ xs) ++ r
          → r ++ unseen ≡ behind
          → Starts o (length (x ∷ xs)) b unseen behind (new_case t b))
      → (0 < length b.m_rest
          → length b.m_rest < length (x ∷ xs)
          → Starts o (length (x ∷ xs)) b unseen behind (new_case t b))
      → Starts o (length (x ∷ xs)) b unseen behind (new_instance b)
  start o t x xs l h go wait = by b.m_rest refl (Seen-cases b.m_rest unseen (x ∷ xs) behind h)
    where
      by :
          (us : List ℕ)
          → b.m_rest ≡ us
          → Seen b.m_rest unseen (x ∷ xs) behind
          → Starts o (length (x ∷ xs)) b unseen behind (new_instance b)
      by us u (all_seen r e m) = rw (dispatch t x (xs ++ r) l e) (go r e m)
      by [] u (part_seen y missing e) = nothing_there o (length (x ∷ xs)) (omega arith) u
      by (z ∷ us) u (part_seen y missing e) =
          let same : x ≡ z = head_eq (e ∙ ap (λ vs. vs ++ (y ∷ missing)) u) in
          let u' : b.m_rest ≡ x ∷ us = u ∙ ap (λ k. k ∷ us) (sym same) in
          rw (dispatch t x us l u')
            (wait (omega (arith, ap (length {0}) u)) (too_few b.m_rest (x ∷ xs) y missing e))
