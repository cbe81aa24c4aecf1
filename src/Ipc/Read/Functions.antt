-- ===== src/Ipc/Read/Functions.antt =====
-- `KdbFunction::read` (ipc++/src/KdbType.C) on the bytes of a function.
use mgkdb.Prelude.{
  ℕ, zero, suc, ◌+◌, ◌-◌, ◌*◌, ◌≤◌, ◌<◌, ◌≡◌, refl, sym, ap, ◌∙◌, inl, inr, true, List, [], ◌∷◌,
  ◌++◌, append_assoc, append-nil, length, length-append, length-take, drop, take, take-append-drop,
  min, All, ltb, leb, lt→ltb, le→ltb_false, leb→le, Bool-cases, arith,
}
use mgkdb.Prelude.Int.{neg_part}
use mgkdb.Prelude.Bytes.{IsByte}
use mgkdb.Ipc.Object.{function}
use mgkdb.Ipc.ReadBuf.{ReadResult, ReadBuf, remaining, ffwd, adj, pass, elems, read_vec}
use mgkdb.Ipc.Read.Obj.{Obj}
use mgkdb.Ipc.Read.Methods.{read_function, insert_bytes}
use mgkdb.Ipc.Read.Cursor.{m_rest-pass, m_rest-ffwd, neg_part-ffwd, neg_part-adj}
use mgkdb.Ipc.Read.Visible.{take_none}
use mgkdb.Ipc.Read.Part.{IsPart, function_part, Reads, whole, short, OnOut, Fits}
use mgkdb.Ipc.Read.Elems.{
  Taken, elems_lem, Elm, all_of, some_of, equal, differ, differ_down, take_all_of, drop_all_of,
  row_from, row_out, cells-bytes,
}

Fits-one : (zs : List ℕ) → All IsByte zs → All (Fits 1) zs
Fits-one [] f = tt
Fits-one (z ∷ zs) (f, fs) = (f, Fits-one zs fs)

bytes_drop : (q : ℕ) (zs : List ℕ) → All IsByte zs → All IsByte (drop q zs)
bytes_drop zero zs f = f
bytes_drop (suc q) [] f = tt
bytes_drop (suc q) (z ∷ zs) (f, fs) = bytes_drop q zs fs

-- The bytes of a function that are read at once.
function_fill :
    (ys zs : List ℕ) (q : ℕ) (b : ReadBuf) (unseen more : List ℕ)
    → All IsByte zs
    → q ≤ length zs
    → q ≤ length b.m_rest
    → b.m_rest ++ unseen ≡ zs ++ more
    → (elems 1 q b.m_rest ≡ take q zs) × (drop (1 * q) b.m_rest ++ unseen ≡ drop q zs ++ more)
function_fill ys zs q b unseen more f hq hr h =
    let one : 1 * q ≡ q = omega arith in
    let t : Taken 1 q zs b.m_rest unseen more =
      elems_lem 1 q zs b.m_rest unseen more (Fits-one zs f) hq (omega (arith, one))
        (h ∙ ap (λ us. us ++ more) (sym (cells-bytes zs f))) in
    (t.values, t.behind ∙ ap (λ us. us ++ more) (cells-bytes (drop q zs) (bytes_drop q zs f)))

Elm-bytes : (n rem : ℕ) → Elm 1 n rem (min n rem)
Elm-bytes n rem = elim (Bool-cases (leb n rem)) [
  | inl h ↦
      let m : min n rem ≡ n = omega (arith, leb→le _ _ h) in
      rw m (all_of (omega (arith, leb→le _ _ h)))
  | inr h ↦
      let l : rem < n = ground arith in
      let m : min n rem ≡ rem = omega arith in rw m (some_of rem l (omega arith) (omega arith))
]

bytes_fill :
    (vec ys zs : List ℕ) (b : ReadBuf) (unseen more : List ℕ) (elm : ℕ)
    → vec ≡ ys ++ zs
    → 0 < length zs
    → All IsByte zs
    → neg_part b.m_csr ≡ 0
    → b.m_rest ++ unseen ≡ zs ++ more
    → Elm 1 (length zs) (remaining b) elm
    → OnOut
        (Reads (IsPart (function vec)) (Obj.function (length vec) vec) (length ys) zs b unseen more)
        (insert_bytes (length vec) ys (length zs) elm b)
unfolding insert_bytes read_vec
bytes_fill vec ys zs b unseen more elm x n f c h (all_of room) =
    let t = function_fill ys zs (length zs) b unseen more f (omega arith) (omega arith) h in
    rw
      (
        x,
        lt→ltb _ _ n,
        le→ltb_false _ _ room,
        equal (length zs) (length zs) refl,
        t.0,
        take_all_of zs,
      )
      (unfold adj in
        whole {b' = adj (1 * length zs) b} (omega (arith, neg_part-adj (1 * length zs) b))
          (t.1 ∙ ap (λ us. us ++ more) (drop_all_of zs)) (omega arith))
bytes_fill vec ys zs b unseen more zero x n f c h (some_of _ lt room few) =
    take_none (omega arith) (function_part ys zs x)
bytes_fill vec ys zs b unseen more (suc q) x n f c h (some_of _ lt room few) =
    let t = function_fill ys zs (suc q) b unseen more f (omega arith) (omega arith) h in
    let pos_q : ltb 0 (suc q) ≡ true = ground arith in
    let n' : length ys + length (take (suc q) zs) ≡ length (ys ++ take (suc q) zs) =
      sym (length-append ys (take (suc q) zs)) in
    rw (pos_q, le→ltb_false _ _ room, differ_down (length zs) (suc q) lt, t.0)
      (unfold adj in
        short {o = Obj.function (length vec) (ys ++ take (suc q) zs)} {b' = adj (1 * suc q) b}
          (take (suc q) zs) (drop (suc q) zs) (sym (take-append-drop (suc q) zs))
          (omega (arith, length-take (suc q) zs)) (omega arith)
          (omega (arith, length-take (suc q) zs))
          (rw n' (
            function_part (ys ++ take (suc q) zs) (drop (suc q) zs) (
              x
              ∙ ap (λ us. ys ++ us) (sym (take-append-drop (suc q) zs))
              ∙ sym (append_assoc ys (take (suc q) zs) (drop (suc q) zs))))))

pub function_resume :
    (vec ys zs : List ℕ) (b : ReadBuf) (unseen more : List ℕ)
    → vec ≡ ys ++ zs
    → All IsByte zs
    → neg_part (pass 8 b).m_csr ≡ length ys
    → b.m_rest ++ unseen ≡ zs ++ more
    → OnOut
        (Reads (IsPart (function vec)) (Obj.function (length vec) vec) (length ys) zs b unseen more)
        (read_function (length vec) ys b)
unfolding read_function read_vec
function_resume vec ys [] b unseen more x f c h =
    let x' : vec ≡ ys = x ∙ append-nil ys in
    let k : ℕ = length ys in
    let w : Reads (IsPart (function ys)) (Obj.function (length ys) ys) k [] (ffwd k (pass 8 b))
        unseen more ReadResult.rd_ok (Obj.function (length ys) ys) (ffwd k (pass 8 b)) =
      whole (omega (arith, neg_part-ffwd k (pass 8 b)))
        (ap (λ t. t ++ unseen) (m_rest-ffwd k (pass 8 b) ∙ m_rest-pass 8 b) ∙ h) (omega arith) in
    rw (x', equal (length ys) (length ys) refl) (row_from 8 k b w)
function_resume vec ys (z ∷ zs) b unseen more x f c h =
    let n : length vec ≡ length ys + suc (length zs) =
      ap (length {0}) x ∙ length-append ys (z ∷ zs) in
    let left : length vec - length ys ≡ suc (length zs) = omega arith in
    let m : (ffwd (length ys) (pass 8 b)).m_rest ≡ b.m_rest =
      m_rest-ffwd (length ys) (pass 8 b) ∙ m_rest-pass 8 b in
    let c' : neg_part (ffwd (length ys) (pass 8 b)).m_csr ≡ 0 =
      omega (arith, neg_part-ffwd (length ys) (pass 8 b)) in
    rw (differ (length ys) (length vec) (omega arith), left)
      (row_out _ _ _ _ 8 (length ys) b unseen more _ (
        bytes_fill vec ys (z ∷ zs) (ffwd (length ys) (pass 8 b)) unseen more _ x (omega arith) f c'
          (ap (λ t. t ++ unseen) m ∙ h)
          (Elm-bytes (suc (length zs)) (remaining (ffwd (length ys) (pass 8 b))))))
