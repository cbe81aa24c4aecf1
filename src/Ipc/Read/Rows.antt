-- ===== src/Ipc/Read/Rows.antt =====
-- `readIntVector` (ipc++/src/KdbType.C) on the cells of a vector.
use mgkdb.Prelude.{
  ℕ, zero, suc, ◌+◌, ◌-◌, ◌*◌, ◌≤◌, ◌<◌, ◌≡◌, refl, sym, ap, ◌∙◌, true, List, [], ◌∷◌, ◌++◌,
  append_assoc, append-nil, length, length-append, length-take, drop, take, take-append-drop,
  concat, All, ltb, lt→ltb, le→ltb_false, arith,
}
use mgkdb.Prelude.Int.{neg_part}
use native.Mathlib.Nat.{mul-le-mul_left}
use mgkdb.Ipc.Types.{Elem, elem_size}
use mgkdb.Ipc.Object.{vector}
use mgkdb.Ipc.Write.Encode.{cells}
use mgkdb.Ipc.ReadBuf.{ReadResult, ReadBuf, remaining, ffwd, adj, pass, elems, read_vec}
use mgkdb.Ipc.Read.Obj.{Obj}
use mgkdb.Ipc.Read.Methods.{out, read_int_vector, insert}
use mgkdb.Ipc.Read.Cursor.{m_rest-pass, m_rest-ffwd, neg_part-ffwd, neg_part-adj}
use mgkdb.Ipc.Read.Skip.{elem_size_pos}
use mgkdb.Ipc.Read.Part.{IsPart, vector_part, Reads, whole, short, OnOut, Fits}
use mgkdb.Ipc.Read.Elems.{
  Taken, elems_lem, concat-cells-take, length-cells, Elm, all_of, some_of, Elm-cases, mul_add,
  equal, differ, differ_down, adj-zero, take_all_of, drop_all_of, row_from,
}

module _ (w : ℕ) (ys zs : List ℕ) (b : ReadBuf) (unseen more : List ℕ) where
  insert_all :
      0 < length zs
      → w * length zs ≤ length b.m_rest
      → Taken w (length zs) zs b.m_rest unseen more
      → insert w (length (ys ++ zs)) ys (length zs) b
        ≡ (ReadResult.rd_ok, ys ++ zs, adj (w * length zs) b)
  unfolding insert read_vec
  insert_all pos_n room t =
      let v : elems w (length zs) b.m_rest ≡ zs = t.values ∙ take_all_of zs in
      rw (
        lt→ltb _ _ pos_n,
        le→ltb_false _ _ room,
        equal (length zs) (length zs) refl,
        v,
        equal (length (ys ++ zs)) (length (ys ++ zs)) refl,
      )

  insert_some :
      (q : ℕ)
      → q < length zs
      → w * q ≤ length b.m_rest
      → Taken w q zs b.m_rest unseen more
      → insert w (length (ys ++ zs)) ys q b
        ≡ (ReadResult.rd_incomplete, ys ++ take q zs, adj (w * q) b)
  unfolding insert read_vec
  insert_some zero lt room t =
      let z : w * 0 ≡ 0 = omega arith in
      rw (
        z,
        adj-zero,
        append-nil,
        differ_down (length (ys ++ zs)) (length ys) (omega (arith, length-append ys zs)),
      )
  insert_some (suc q) lt room t =
      let len : length (ys ++ take (suc q) zs) ≡ length ys + suc q =
        omega (arith, length-append ys (take (suc q) zs), length-take (suc q) zs) in
      let pos_q : ltb 0 (suc q) ≡ true = ground arith in
      rw (
        pos_q,
        le→ltb_false _ _ room,
        equal (suc q) (suc q) refl,
        t.values,
        len,
        differ_down (length (ys ++ zs)) (length ys + suc q) (omega (arith, length-append ys zs)),
      )

vector_fill :
    (e : Elem) (attr : ℕ) (xs ys zs : List ℕ) (b : ReadBuf) (unseen more : List ℕ) (elm : ℕ)
    → xs ≡ ys ++ zs
    → 0 < length zs
    → All (Fits (elem_size e)) zs
    → neg_part b.m_csr ≡ 0
    → b.m_rest ++ unseen ≡ concat (cells (elem_size e) zs) ++ more
    → Elm (elem_size e) (length zs) (remaining b) elm
    → let r = insert (elem_size e) (length xs) ys elm b in
      OnOut
        (Reads
          (IsPart (vector e attr xs))
          (Obj.vector e attr (length xs) xs)
          (elem_size e * length ys)
          (concat (cells (elem_size e) zs))
          b
          unseen
          more)
        (out r.0 (Obj.vector e attr (length xs) r.1) r.2)
vector_fill e attr xs ys zs b unseen more elm x n f c h (all_of room) =
    let t : Taken (elem_size e) (length zs) zs b.m_rest unseen more =
      elems_lem (elem_size e) (length zs) zs b.m_rest unseen more f (omega arith) room h in
    rw (x, insert_all (elem_size e) ys zs b unseen more n room t)
      (unfold adj in
        whole {b' = adj (elem_size e * length zs) b}
          (omega (arith, neg_part-adj (elem_size e * length zs) b))
          (t.behind ∙ ap (λ us. concat (cells (elem_size e) us) ++ more) (drop_all_of zs))
          (omega (arith, length-cells (elem_size e) zs)))
vector_fill e attr xs ys zs b unseen more elm x n f c h (some_of q lt room few) =
    let t : Taken (elem_size e) q zs b.m_rest unseen more =
      elems_lem (elem_size e) q zs b.m_rest unseen more f (omega arith) room h in
    rw (x, insert_some (elem_size e) ys zs b unseen more q lt room t)
      (unfold adj in
        short {b' = adj (elem_size e * q) b} (concat (cells (elem_size e) (take q zs)))
          (concat (cells (elem_size e) (drop q zs))) (concat-cells-take (elem_size e) q zs)
          (ap (λ k. b.m_off + k) (sym (len_of q lt)))
          (omega (arith, room_of q lt, length-cells (elem_size e) zs))
          (omega (arith, room, len_of q lt)) (part_of q lt))
  where
    len_of :
        (q : ℕ)
        → q < length zs
        → length (concat (cells (elem_size e) (take q zs))) ≡ elem_size e * q
    len_of q lt =
        length-cells (elem_size e) (take q zs)
        ∙ ap (λ k. elem_size e * k) (omega (arith, length-take q zs))

    room_of : (q : ℕ) → q < length zs → elem_size e * q + elem_size e ≤ elem_size e * length zs
    room_of q lt =
        let s : elem_size e * suc q ≡ elem_size e * q + elem_size e = grind arith in
        omega (arith, s, mul-le-mul_left {m = suc q} {n = length zs} (elem_size e) lt)

    part_of :
        (q : ℕ)
        → q < length zs
        → IsPart
            (vector e attr (ys ++ zs))
            (elem_size e * length ys + length (concat (cells (elem_size e) (take q zs))))
            (concat (cells (elem_size e) (drop q zs)))
            (Obj.vector e attr (length (ys ++ zs)) (ys ++ take q zs))
    part_of q lt =
        let n : elem_size e * length (ys ++ take q zs)
            ≡ elem_size e * length ys + length (concat (cells (elem_size e) (take q zs))) =
          ap (λ k. elem_size e * k) (length-append ys (take q zs))
          ∙ mul_add (elem_size e) (length ys) (length (take q zs))
          ∙ ap (λ k. elem_size e * length ys + k) (sym (length-cells (elem_size e) (take q zs))) in
        rw (← n) (
          vector_part (ys ++ take q zs) (drop q zs) (
            ap (λ us. ys ++ us) (sym (take-append-drop q zs))
            ∙ sym (append_assoc ys (take q zs) (drop q zs))))

-- `j` bytes of the object are read, as the cursor says.
pub vector_resume :
    (e : Elem) (attr : ℕ) (xs ys zs : List ℕ) (b : ReadBuf) (unseen more : List ℕ)
    → xs ≡ ys ++ zs
    → All (Fits (elem_size e)) zs
    → neg_part (pass 6 b).m_csr ≡ elem_size e * length ys
    → b.m_rest ++ unseen ≡ concat (cells (elem_size e) zs) ++ more
    → OnOut
        (Reads
          (IsPart (vector e attr xs))
          (Obj.vector e attr (length xs) xs)
          (elem_size e * length ys)
          (concat (cells (elem_size e) zs))
          b
          unseen
          more)
        (read_int_vector e attr (length xs) ys b)
unfolding read_int_vector
vector_resume e attr xs ys [] b unseen more x f c h =
    let x' : xs ≡ ys = x ∙ append-nil ys in
    let k : ℕ = elem_size e * length ys in
    let w : Reads (IsPart (vector e attr ys)) (Obj.vector e attr (length ys) ys) k []
        (ffwd k (pass 6 b)) unseen more ReadResult.rd_ok (Obj.vector e attr (length ys) ys)
        (ffwd k (pass 6 b)) =
      whole (omega (arith, neg_part-ffwd k (pass 6 b)))
        (ap (λ t. t ++ unseen) (m_rest-ffwd k (pass 6 b) ∙ m_rest-pass 6 b) ∙ h) (omega arith) in
    rw (x', equal (length ys) (length ys) refl) (row_from 6 k b w)
vector_resume e attr xs ys (z ∷ zs) b unseen more x f c h =
    let n : length xs ≡ length ys + suc (length zs) =
      ap (length {0}) x ∙ length-append ys (z ∷ zs) in
    let k : ℕ = elem_size e * length ys in
    let left : length xs - length ys ≡ suc (length zs) = omega arith in
    rw (differ (length ys) (length xs) (omega arith), left)
      (row_from 6 k b (
        vector_fill e attr xs ys (z ∷ zs) (ffwd k (pass 6 b)) unseen more _ x (omega arith) f
          (omega (arith, neg_part-ffwd k (pass 6 b)))
          (ap (λ t. t ++ unseen) (m_rest-ffwd k (pass 6 b) ∙ m_rest-pass 6 b) ∙ h)
          (Elm-cases (elem_size e) (suc (length zs)) (remaining (ffwd k (pass 6 b)))
            (elem_size_pos e))))
