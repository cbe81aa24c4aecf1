-- ===== src/Ipc/Read/Texts.antt =====
-- `readSym` and the objects that hold a text or a number.
use mgkdb.Prelude.{
  ℕ, suc, Bool, ◌+◌, ◌^◌, ◌<◌, ◌≡◌, refl, sym, ap, ◌∙◌, true, false, List, [], ◌∷◌, ◌++◌,
  append_assoc, length, length-append, take, take-append_length, All, ltb, leb, ◌==◌, lt→ltb,
  le→ltb_false, if◌then◌else◌, arith,
}
use mgkdb.Prelude.Int.{neg_part}
use mgkdb.Prelude.Bytes.{le_bytes, le_value, le_value-le_bytes, length-le_bytes}
use mgkdb.Ipc.Types.{Elem, Primitive, elem_size}
use mgkdb.Ipc.Object.{atom, primitive}
use mgkdb.Ipc.Payload.Encoded.{IsText}
use mgkdb.Ipc.ReadBuf.{
  ReadResult, ReadBuf, remaining, can_read, adj, pass, value, text_len, sym_out, read_sym,
}
use mgkdb.Ipc.Read.Obj.{Obj}
use mgkdb.Ipc.Read.Methods.{out, from_sym, read_text, read_int_atom, read_primitive}
use mgkdb.Ipc.Read.Cursor.{m_rest-pass, at_zero}
use mgkdb.Ipc.Read.Visible.{
  Seen, all_seen, part_seen, Seen-cases, head_eq, tail_eq, out_from, take_all, take_none, too_few,
}
use mgkdb.Ipc.Read.Part.{IsPart, atom_part, primitive_part, Reads, OnOut}

pub text_len_lem : (s rest : List ℕ) → All IsText s → text_len (s ++ (0 ∷ rest)) ≡ length s
unfolding text_len
text_len_lem [] rest t = refl
text_len_lem (b ∷ s) rest (p, t) =
    let e : (b == 0) ≡ false = ground arith in rw (e, text_len_lem s rest t)

-- Before the terminator every byte counts.
pub text_len_prefix :
    (s bytes p : List ℕ) (x : ℕ) (missing : List ℕ)
    → All IsText s
    → s ++ (0 ∷ []) ≡ p ++ (x ∷ missing)
    → text_len p ≡ length p
unfolding text_len
text_len_prefix s bytes [] x missing t e = refl
text_len_prefix [] bytes (y ∷ []) x missing t e = absurd (omega (arith, ap (length {0}) e))
text_len_prefix [] bytes (y ∷ z ∷ p) x missing t e = absurd (omega (arith, ap (length {0}) e))
text_len_prefix (b ∷ s) bytes (y ∷ p) x missing (l, t) e =
    let nz : (y == 0) ≡ false = ground (arith, head_eq e) in
    rw (nz, text_len_prefix s bytes p x missing t (tail_eq e))

differ : (m n : ℕ) → n < m → (m == n) ≡ false
differ m n h = ground arith

read_sym_lem :
    (P : ℕ → List ℕ → Obj → Type 0) (mk : List ℕ → Obj) {n : ℕ} (s old : List ℕ) (b : ReadBuf)
    (unseen more : List ℕ)
    → All IsText s
    → neg_part b.m_csr ≡ 0
    → b.m_rest ++ unseen ≡ (s ++ (0 ∷ [])) ++ more
    → P n (s ++ (0 ∷ [])) (mk old)
    → OnOut (Reads P (mk s) n (s ++ (0 ∷ [])) b unseen more) (from_sym mk (read_sym old b))
read_sym_lem P mk {n = n} s old b unseen more t c h p =
    by (Seen-cases b.m_rest unseen (s ++ (0 ∷ [])) more h)
  where
    by :
        Seen b.m_rest unseen (s ++ (0 ∷ [])) more
        → OnOut (Reads P (mk s) n (s ++ (0 ∷ [])) b unseen more) (from_sym mk (read_sym old b))
    by (all_seen rest e m) =
        let e' : b.m_rest ≡ s ++ (0 ∷ rest) = e ∙ append_assoc s (0 ∷ []) rest in
        let l : text_len b.m_rest ≡ length s = ap text_len e' ∙ text_len_lem s rest t in
        let r : remaining b ≡ length s + suc (length rest) =
          ap (length {0}) e' ∙ length-append s (0 ∷ rest) in
        let x : take (length s) b.m_rest ≡ s =
          ap (take (length s)) e' ∙ take-append_length s (0 ∷ rest) in
        unfold read_sym in
        rw
          (
            l,
            differ (remaining b) 0 (omega arith),
            differ (remaining b) (length s) (omega arith),
            x,
          )
          (take_all rest (length s + 1) c e m (sym (length-append s (0 ∷ []))))
    by (part_seen x missing e) =
        let l : text_len b.m_rest ≡ length b.m_rest = text_len_prefix s [] b.m_rest x missing t e in
        let same : (remaining b == remaining b) ≡ true = ground arith in
        unfold read_sym in rw (l, same) (none (remaining b == 0))
      where
        none :
            (q : Bool)
            → OnOut (Reads P (mk s) n (s ++ (0 ∷ [])) b unseen more) (
                from_sym mk (
                  if q
                  then sym_out ReadResult.rd_incomplete old b
                  else sym_out ReadResult.rd_incomplete old b))
        none true = take_none (too_few b.m_rest (s ++ (0 ∷ [])) x missing e) p
        none false = take_none (too_few b.m_rest (s ++ (0 ∷ [])) x missing e) p

pub text_resume :
    (P : ℕ → List ℕ → Obj → Type 0) (mk : List ℕ → Obj) (s : List ℕ) (b : ReadBuf)
    (unseen more : List ℕ)
    → All IsText s
    → neg_part (pass 1 b).m_csr ≡ 0
    → b.m_rest ++ unseen ≡ (s ++ (0 ∷ [])) ++ more
    → P 0 (s ++ (0 ∷ [])) (mk [])
    → OnOut (Reads P (mk s) 0 (s ++ (0 ∷ [])) b unseen more) (read_text mk [] b)
unfolding read_text
text_resume P mk s b unseen more t c h p = rw (at_zero (pass 1 b) c) (
    out_from _ _ _ _ 1 b unseen more (from_sym mk (read_sym [] (pass 1 b)))
      (read_sym_lem P mk s [] (pass 1 b) unseen more t c (rw (m_rest-pass 1 b) h) p))

-- A number of `w` bytes, of which too few may be there.
module _ (P : ℕ → List ℕ → Obj → Type 0) (old all : Obj) (w val : ℕ) (b : ReadBuf)
    (unseen more : List ℕ) (fits : val < 256 ^ w) (c : neg_part b.m_csr ≡ 0)
    (h : b.m_rest ++ unseen ≡ le_bytes w val ++ more) (p : P 0 (le_bytes w val) old) where
  pub number_read :
      (mk : ℕ → Obj)
      → mk val ≡ all
      → OnOut (Reads P all 0 (le_bytes w val) b unseen more) (
          if ltb (remaining b) w
          then out ReadResult.rd_incomplete old b
          else out ReadResult.rd_ok (mk (value w b)) (adj w b))
  number_read mk m = by (Seen-cases b.m_rest unseen (le_bytes w val) more h)
    where
      by :
          Seen b.m_rest unseen (le_bytes w val) more
          → OnOut (Reads P all 0 (le_bytes w val) b unseen more) (
              if ltb (remaining b) w
              then out ReadResult.rd_incomplete old b
              else out ReadResult.rd_ok (mk (value w b)) (adj w b))
      by (all_seen rest e n) =
          let l : ltb (remaining b) w ≡ false = le→ltb_false _ _ (
            omega (
              arith,
              ap (length {0}) e,
              length-append (le_bytes w val) rest,
              length-le_bytes w val,
            )) in
          let first : take w b.m_rest ≡ le_bytes w val =
            ap (take w) e
            ∙ ap (λ k. take k (le_bytes w val ++ rest)) (sym (length-le_bytes w val))
            ∙ take-append_length (le_bytes w val) rest in
          rw (l, first, le_value-le_bytes w val fits, m)
            (take_all rest w c e n (sym (length-le_bytes w val)))
      by (part_seen x missing e) =
          let few : length b.m_rest < length (le_bytes w val) =
            too_few b.m_rest (le_bytes w val) x missing e in
          let l : ltb (remaining b) w ≡ true = lt→ltb _ _ (omega (arith, length-le_bytes w val)) in
          rw l (take_none few p)

pub atom_resume :
    (e : Elem) (val : ℕ) (b : ReadBuf) (unseen more : List ℕ)
    → val < 256 ^ elem_size e
    → neg_part (pass 1 b).m_csr ≡ 0
    → b.m_rest ++ unseen ≡ le_bytes (elem_size e) val ++ more
    → OnOut
        (Reads (IsPart (atom e val)) (Obj.atom e val) 0 (le_bytes (elem_size e) val) b unseen more)
        (read_int_atom e 0 b)
unfolding read_int_atom
atom_resume e val b unseen more f c h = rw (at_zero (pass 1 b) c) (
    out_from _ _ _ _ 1 b unseen more _ (
      number_read (IsPart (atom e val)) (Obj.atom e 0) (Obj.atom e val) (elem_size e) val (pass 1 b)
        unseen more f c (rw (m_rest-pass 1 b) h) atom_part (λ x. Obj.atom e x) refl))

pub primitive_resume :
    (p : Primitive) (val : ℕ) (b : ReadBuf) (unseen more : List ℕ)
    → val < 256
    → neg_part (pass 1 b).m_csr ≡ 0
    → b.m_rest ++ unseen ≡ (val ∷ []) ++ more
    → OnOut
        (Reads (IsPart (primitive p val)) (Obj.primitive p val) 0 (val ∷ []) b unseen more)
        (read_primitive p 0 b)
unfolding read_primitive
primitive_resume p val b unseen more f c h =
    rw (at_zero (pass 1 b) c)
      (out_from _ _ _ _ 1 b unseen more _ (by (pass 1 b) c (rw (m_rest-pass 1 b) h)))
  where
    by :
        (b1 : ReadBuf)
        → neg_part b1.m_csr ≡ 0
        → b1.m_rest ++ unseen ≡ (val ∷ []) ++ more
        → OnOut
            (Reads (IsPart (primitive p val)) (Obj.primitive p val) 0 (val ∷ []) b1 unseen more)
            (if can_read 1 b1
              then out ReadResult.rd_ok (Obj.primitive p (value 1 b1)) (adj 1 b1)
              else out ReadResult.rd_incomplete (Obj.primitive p 0) b1)
    by b1 c' h' = at_hand (Seen-cases b1.m_rest unseen (val ∷ []) more h')
      where
        at_hand :
            Seen b1.m_rest unseen (val ∷ []) more
            → OnOut
                (Reads (IsPart (primitive p val)) (Obj.primitive p val) 0 (val ∷ []) b1 unseen more)
                (if can_read 1 b1
                  then out ReadResult.rd_ok (Obj.primitive p (value 1 b1)) (adj 1 b1)
                  else out ReadResult.rd_incomplete (Obj.primitive p 0) b1)
        at_hand (all_seen rest e n) =
            let l : leb 1 (length b1.m_rest) ≡ true = ground (arith, ap (length {0}) e) in
            let v : le_value (take 1 b1.m_rest) ≡ val =
              ap (λ xs. le_value (take 1 xs)) e ∙ omega arith in
            rw (l, v) (take_all rest 1 c' e n refl)
        at_hand (part_seen x missing e) =
            let few : length b1.m_rest < 1 = too_few b1.m_rest (val ∷ []) x missing e in
            let l : leb 1 (length b1.m_rest) ≡ false = ground arith in
            rw l (take_none few primitive_part)
