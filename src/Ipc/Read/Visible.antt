-- ===== src/Ipc/Read/Visible.antt =====
-- How much of the bytes that are awaited a buffer shows.
use mgkdb.Prelude.{
  ℕ, ◌+◌, ◌<◌, ◌≡◌, refl, sym, ap, ap₂, ◌∙◌, List, [], ◌∷◌, ◌++◌, append_assoc, length,
  length-append, drop, drop-append_length, arith,
}
use mgkdb.Prelude.Int.{neg_part}
use mgkdb.Ipc.Read.Cursor.{neg_part-adj, m_rest-pass, m_off-pass}
use mgkdb.Ipc.ReadBuf.{ReadBuf, adj, pass, ReadResult}
use mgkdb.Ipc.Read.Obj.{Obj}
use mgkdb.Ipc.Read.Methods.{Out, out}
use mgkdb.Ipc.Read.Part.{Reads, whole, short, OnOut}

-- All of `tail` stands in front, or the buffer ends within it.
pub data Seen (seen unseen tail more : List ℕ) : Type 0 where
  all_seen :
      (rest : List ℕ) → seen ≡ tail ++ rest → rest ++ unseen ≡ more → Seen seen unseen tail more
  part_seen : (x : ℕ) (missing : List ℕ) → tail ≡ seen ++ (x ∷ missing) → Seen seen unseen tail more

pub head_eq : {x y : ℕ} {xs ys : List ℕ} → (x ∷ xs) ≡ (y ∷ ys) → x ≡ y
head_eq h = ap head h
  where
    head : List ℕ → ℕ
    head [] = 0
    head (z ∷ zs) = z

pub tail_eq : {x y : ℕ} {xs ys : List ℕ} → (x ∷ xs) ≡ (y ∷ ys) → xs ≡ ys
tail_eq h = ap (drop 1) h

pub Seen-cases :
    (seen unseen tail more : List ℕ) → seen ++ unseen ≡ tail ++ more → Seen seen unseen tail more
Seen-cases seen unseen [] more h = all_seen seen refl h
Seen-cases [] unseen (y ∷ tail) more h = part_seen y tail refl
Seen-cases (x ∷ seen) unseen (y ∷ tail) more h =
    one_more (head_eq h) (Seen-cases seen unseen tail more (tail_eq h))
  where
    one_more : x ≡ y → Seen seen unseen tail more → Seen (x ∷ seen) unseen (y ∷ tail) more
    one_more e (all_seen rest d m) = all_seen rest (ap₂ (λ z zs. z ∷ zs) e d) m
    one_more e (part_seen z missing d) = part_seen z missing (ap₂ (λ z zs. z ∷ zs) (sym e) d)

-- Where the bytes are all seen or too few by their number.
pub seen_length :
    (seen unseen tail more : List ℕ)
    → seen ++ unseen ≡ tail ++ more
    → length seen + length unseen ≡ length tail + length more
seen_length seen unseen tail more h =
    sym (length-append seen unseen) ∙ ap (length {0}) h ∙ length-append tail more

-- Two parts one behind the other: the first may be all there or not.
module _ {X Y : Type 0} {P : ℕ → List ℕ → X → Type 0} {Q : ℕ → List ℕ → Y → Type 0} (f : X → Y)
    {all : X} where
  -- The first part ends within the buffer's bytes.
  pub within_first :
      {n m : ℕ} (t u : List ℕ) {b : ReadBuf} {unseen more : List ℕ} {o : X} {b' : ReadBuf} (fin : Y)
      → ((k : ℕ) (rest : List ℕ) (x : X) → P (n + k) rest x → Q (m + k) (rest ++ u) (f x))
      → Reads P all n t b unseen (u ++ more) ReadResult.rd_incomplete o b'
      → Reads Q fin m (t ++ u) b unseen more ReadResult.rd_incomplete (f o) b'
  within_first t u fin up (short front rest e d l f p) =
      short front (rest ++ u) (ap (λ xs. xs ++ u) e ∙ append_assoc front rest u) d
        (omega (arith, length-append t u)) f (up (length front) rest _ p)

  -- The first part is all there, and the second is read from `b'`.
  pub behind_first :
      {n m : ℕ} (t u : List ℕ) {b b' b'' : ReadBuf} {unseen more : List ℕ} {rr : ReadResult} {x : X}
      → b.m_rest ++ unseen ≡ t ++ (u ++ more)
      → b'.m_rest ++ unseen ≡ u ++ more
      → b'.m_off ≡ b.m_off + length t
      → ((k : ℕ) (rest : List ℕ) (x : X) → P (n + k) rest x → Q (m + (length t + k)) rest (f x))
      → Reads P all n u b' unseen more rr x b''
      → Reads Q (f all) m (t ++ u) b unseen more rr (f x) b''
  behind_first t u {b = b} {b' = b'} {unseen = unseen} {more = more} h h' d up (whole c e d') =
      whole c e (omega (arith, length-append t u))
  behind_first t u {b = b} {b' = b'} {unseen = unseen} {more = more} h h' d up
        (short front rest e d' l f p) =
      short (t ++ front) rest (ap (λ xs. t ++ xs) e ∙ sym (append_assoc t front rest))
        (omega (arith, length-append t front))
        (omega (
          arith,
          length-append t u,
          seen_length b.m_rest unseen t (u ++ more) h,
          seen_length b'.m_rest unseen u more h',
          length-append u more,
        ))
        (omega (
          arith,
          length-append t front,
          seen_length b.m_rest unseen t (u ++ more) h,
          seen_length b'.m_rest unseen u more h',
          length-append u more,
        ))
        (rw (length-append t front) (up (length front) rest _ p))

-- A buffer with the same bytes.
pub Reads-from :
    {X : Type 0} {P : ℕ → List ℕ → X → Type 0} {all : X} {n : ℕ} {tail : List ℕ} {b c : ReadBuf}
    {unseen more : List ℕ} {rr : ReadResult} {x : X} {b' : ReadBuf}
    → c.m_rest ≡ b.m_rest
    → c.m_off ≡ b.m_off
    → Reads P all n tail c unseen more rr x b'
    → Reads P all n tail b unseen more rr x b'
Reads-from e d (whole c m o) = whole c m (omega arith)
Reads-from e d (short front rest f o l g p) =
    short front rest f (omega arith) (rw (← e) l) (rw (← e) g) p

-- `read` looks at the bytes of the buffer behind `pass`.
pub out_from :
    (P : ℕ → List ℕ → Obj → Type 0) (all : Obj) (n : ℕ) (tail : List ℕ) (k : ℕ) (b : ReadBuf)
    (unseen more : List ℕ) (r : Out)
    → OnOut (Reads P all n tail (pass k b) unseen more) r
    → OnOut (Reads P all n tail b unseen more) r
out_from P all n tail k b unseen more (out rr o b') x =
    Reads-from (m_rest-pass k b) (m_off-pass k b) x

module _ {X : Type 0} {P : ℕ → List ℕ → X → Type 0} {all : X} {n : ℕ} {tail : List ℕ} {b : ReadBuf}
    {unseen more : List ℕ} where
  -- All of the tail is taken at once.
  pub take_all :
      (rest : List ℕ) (k : ℕ)
      → neg_part b.m_csr ≡ 0
      → b.m_rest ≡ tail ++ rest
      → rest ++ unseen ≡ more
      → k ≡ length tail
      → Reads P all n tail b unseen more ReadResult.rd_ok all (adj k b)
  unfolding adj
  take_all rest k c e m h =
      whole (omega (arith, neg_part-adj k b)) (rw (h, e, drop-append_length tail rest) m) (rw h)

  -- Nothing is taken from a buffer that ends within the tail.
  pub take_none :
      {o : X}
      → length b.m_rest < length tail
      → P n tail o
      → Reads P all n tail b unseen more ReadResult.rd_incomplete o b
  take_none l p =
      short [] tail refl (omega arith) l (omega arith) (let e : n + 0 ≡ n = omega arith in rw e p)

pub too_few :
    (seen tail : List ℕ) (x : ℕ) (missing : List ℕ)
    → tail ≡ seen ++ (x ∷ missing)
    → length seen < length tail
too_few seen tail x missing e = omega (arith, ap (length {0}) e, length-append seen (x ∷ missing))

-- The same step of a larger object.
pub Reads-map :
    {X Y : Type 0} {P : ℕ → List ℕ → X → Type 0} {Q : ℕ → List ℕ → Y → Type 0} (f : X → Y) {all : X}
    {n m : ℕ} {tail : List ℕ} {b : ReadBuf} {unseen more : List ℕ} {rr : ReadResult} {x : X}
    {b' : ReadBuf}
    → ((k : ℕ) (rest : List ℕ) (y : X) → P (n + k) rest y → Q (m + k) rest (f y))
    → Reads P all n tail b unseen more rr x b'
    → Reads Q (f all) m tail b unseen more rr (f x) b'
Reads-map f up (whole c m o) = whole c m o
Reads-map f up (short front rest e o l g p) = short front rest e o l g (up (length front) rest _ p)
