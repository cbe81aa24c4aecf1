-- ===== src/Ipc/Read/Elems.antt =====
-- The cells at the front of a buffer, and how many of them a vector takes.
use mgkdb.Prelude.{
  ℕ, zero, suc, ◌+◌, ◌*◌, ◌/◌, ◌%◌, ◌≤◌, ◌<◌, ◌≡◌, refl, sym, ap, ◌∙◌, inl, inr, true, false, List,
  [], ◌∷◌, ◌++◌, append_assoc, length, length-append, drop, drop-append_length, take,
  take-append_length, concat, min, All, leb, ◌==◌, leb→le, Bool-cases, arith,
}
use mgkdb.Prelude.Bytes.{le_bytes, le_value-le_bytes, length-le_bytes, IsByte}
use native.Mathlib.Nat.{div-mul-le_self, lt-div-mul-add, mul-le-mul_right, mul_comm}
use mgkdb.Ipc.Write.Chunks.{advance-zero}
use mgkdb.Ipc.Write.Encode.{cells}
use mgkdb.Ipc.ReadBuf.{ReadResult, ReadBuf, ffwd, adj, pass, elems}
use mgkdb.Ipc.Read.Obj.{Obj}
use mgkdb.Ipc.Read.Methods.{Out, out}
use mgkdb.Ipc.Read.Cursor.{m_rest-pass, m_off-pass, m_rest-ffwd, m_off-ffwd}
use mgkdb.Ipc.Read.Visible.{Seen, all_seen, part_seen, Seen-cases, Reads-from, too_few}
use mgkdb.Ipc.Read.Part.{Reads, OnOut, Fits}

-- What stands behind the `q` cells that `elems` takes from the bytes.
pub record Taken (w q : ℕ) (zs seen unseen more : List ℕ) : Type 0 where
  pub values : elems w q seen ≡ take q zs
  pub behind : drop (w * q) seen ++ unseen ≡ concat (cells w (drop q zs)) ++ more

drop-drop : (m n : ℕ) (xs : List ℕ) → drop n (drop m xs) ≡ drop (m + n) xs
drop-drop zero n xs = let e : zero + n ≡ n = omega arith in rw e
drop-drop (suc m) zero [] = let e : suc m + 0 ≡ suc m = omega arith in rw e
drop-drop (suc m) (suc n) [] = let e : suc m + suc n ≡ suc (m + suc n) = omega arith in rw e
drop-drop (suc m) n (x ∷ xs) =
    let e : suc m + n ≡ suc (m + n) = omega arith in rw e (drop-drop m n xs)

pub elems_lem :
    (w q : ℕ) (zs seen unseen more : List ℕ)
    → All (Fits w) zs
    → q ≤ length zs
    → w * q ≤ length seen
    → seen ++ unseen ≡ concat (cells w zs) ++ more
    → Taken w q zs seen unseen more
elems_lem w zero zs seen unseen more f hq hs h =
    let z : w * 0 ≡ 0 = omega arith in record { values = refl; behind = rw z h }
elems_lem w (suc q) [] seen unseen more f hq hs h = absurd (omega arith)
elems_lem w (suc q) (z ∷ zs) seen unseen more (f, fs) hq hs h =
    by
      (Seen-cases seen unseen (le_bytes w z) (concat (cells w zs) ++ more)
        (h ∙ append_assoc (le_bytes w z) (concat (cells w zs)) more))
      (λ rest. elems_lem w q zs rest unseen more fs (omega arith))
  where
    n : w * suc q ≡ w + w * q
    n = grind arith

    by :
        Seen seen unseen (le_bytes w z) (concat (cells w zs) ++ more)
        → ((rest : List ℕ)
            → w * q ≤ length rest
            → rest ++ unseen ≡ concat (cells w zs) ++ more
            → Taken w q zs rest unseen more)
        → Taken w (suc q) (z ∷ zs) seen unseen more
    by (all_seen rest e m) ih =
        let front : take w seen ≡ le_bytes w z =
          ap (take w) e
          ∙ ap (λ k. take k (le_bytes w z ++ rest)) (sym (length-le_bytes w z))
          ∙ take-append_length (le_bytes w z) rest in
        let back : drop w seen ≡ rest =
          ap (drop w) e
          ∙ ap (λ k. drop k (le_bytes w z ++ rest)) (sym (length-le_bytes w z))
          ∙ drop-append_length (le_bytes w z) rest in
        let len : length seen ≡ w + length rest =
          omega
            (arith, ap (length {0}) e, length-append (le_bytes w z) rest, length-le_bytes w z) in
        let t : Taken w q zs rest unseen more = ih rest (omega (arith, n)) m in
        record {
          values = rw (front, back, le_value-le_bytes w z f) (ap (λ ys. z ∷ ys) t.values);
          behind = rw (n, ← drop-drop w (w * q) seen, back) t.behind;
        }
    by (part_seen x missing e) ih =
        absurd (omega (arith, n, too_few seen (le_bytes w z) x missing e, length-le_bytes w z))

pub concat-cells-take :
    (w q : ℕ) (zs : List ℕ)
    → concat (cells w zs) ≡ concat (cells w (take q zs)) ++ concat (cells w (drop q zs))
concat-cells-take w zero zs = refl
concat-cells-take w (suc q) [] = refl
concat-cells-take w (suc q) (z ∷ zs) =
    ap (λ t. le_bytes w z ++ t) (concat-cells-take w q zs)
    ∙ sym
        (append_assoc (le_bytes w z) (concat (cells w (take q zs))) (concat (cells w (drop q zs))))

pub length-cells : (w : ℕ) (zs : List ℕ) → length (concat (cells w zs)) ≡ w * length zs
length-cells w [] = omega arith
length-cells w (z ∷ zs) =
    let n : w * suc (length zs) ≡ w + w * length zs = grind arith in
    omega (
      arith,
      n,
      length-append (le_bytes w z) (concat (cells w zs)),
      length-le_bytes w z,
      length-cells w zs,
    )

-- The number of elements that are inserted: all that are missing, or as many as are there.
pub data Elm (w n rem : ℕ) : ℕ → Type 0 where
  all_of : w * n ≤ rem → Elm w n rem n
  some_of : (q : ℕ) → q < n → w * q ≤ rem → rem < w * q + w → Elm w n rem q

pub Elm-cases : (w n rem : ℕ) → 0 < w → Elm w n rem (min n (rem / w))
Elm-cases w n rem hw = elim (Bool-cases (leb n (rem / w))) [
  | inl h ↦
      let m : min n (rem / w) ≡ n = omega (arith, leb→le _ _ h) in
      rw m (
        all_of
          (omega (arith, mul_comm w n, mul-le-mul_right w (leb→le _ _ h), div-mul-le_self rem w)))
  | inr h ↦
      let l : rem / w < n = ground arith in
      let m : min n (rem / w) ≡ rem / w = omega arith in
      rw m (
        some_of (rem / w) l (omega (arith, mul_comm w (rem / w), div-mul-le_self rem w))
          (omega (arith, mul_comm w (rem / w), lt-div-mul-add {a = rem} hw)))
]

pub mul_add : (w m n : ℕ) → w * (m + n) ≡ w * m + w * n
mul_add w m n = grind arith

pub equal : (m n : ℕ) → m ≡ n → (m == n) ≡ true
equal m n h = ground arith

pub differ : (m n : ℕ) → m < n → (m == n) ≡ false
differ m n h = ground arith

pub differ_down : (m n : ℕ) → n < m → (m == n) ≡ false
differ_down m n h = ground arith

pub adj-zero : (b : ReadBuf) → adj 0 b ≡ b
unfolding adj
adj-zero b = let e : b.m_off + 0 ≡ b.m_off = omega arith in rw (advance-zero, e)

pub take_all_of : (zs : List ℕ) → take (length zs) zs ≡ zs
take_all_of [] = refl
take_all_of (z ∷ zs) = ap (λ us. z ∷ us) (take_all_of zs)

pub drop_all_of : (zs : List ℕ) → drop (length zs) zs ≡ []
drop_all_of [] = refl
drop_all_of (z ∷ zs) = drop_all_of zs

pub row_from :
    {P : ℕ → List ℕ → Obj → Type 0} {all : Obj} {n : ℕ} {tail : List ℕ} (k m : ℕ) (b : ReadBuf)
    {unseen more : List ℕ} {rr : ReadResult} {o : Obj} {b' : ReadBuf}
    → Reads P all n tail (ffwd m (pass k b)) unseen more rr o b'
    → Reads P all n tail b unseen more rr o b'
row_from k m b x =
    Reads-from (m_rest-ffwd m (pass k b) ∙ m_rest-pass k b)
      (m_off-ffwd m (pass k b) ∙ m_off-pass k b) x

pub cells-bytes : (zs : List ℕ) → All IsByte zs → concat (cells 1 zs) ≡ zs
cells-bytes [] f = refl
cells-bytes (z ∷ zs) (f, fs) = let e : z % 256 ≡ z = omega arith in rw (e, cells-bytes zs fs)

pub row_out :
    (P : ℕ → List ℕ → Obj → Type 0) (all : Obj) (n : ℕ) (tail : List ℕ) (k m : ℕ) (b : ReadBuf)
    (unseen more : List ℕ) (r : Out)
    → OnOut (Reads P all n tail (ffwd m (pass k b)) unseen more) r
    → OnOut (Reads P all n tail b unseen more) r
row_out P all n tail k m b unseen more (out rr o b') x = row_from k m b x
