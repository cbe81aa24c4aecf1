-- ===== src/Core/CircularBuffer/Queue.antt =====
-- The abstract view of a CircularBuffer: the bytes that are readable, in order.
use mgkdb.Prelude.{
  ℕ, zero, suc, ◌+◌, ◌-◌, ◌*◌, ◌/◌, ◌^◌, ◌≤◌, ◌<◌, ◌≡◌, refl, sym, ap, ap₂, ◌∙◌, true, false, List,
  [], ◌∷◌, ◌++◌, length, drop, leb, ◌==◌, if◌then◌else◌, arith, Bool-cases, inl, inr,
}
use mgkdb.Core.Extents.{u64, less64}
use mgkdb.Core.CircularBuffer.{
  CircularBuffer, map_len, write_offset, writeable, set_consumed, set_appended, in_file, Memory,
  peek, poke,
}

-- The mapping is not empty, and both positions are in range.
pub record IsValid (b : CircularBuffer) : Type 0 where
  pub half : 0 < map_len b
  pub even : b.magic ≡ 2 * map_len b
  pub small : b.magic < 2 ^ 63
  pub pos : b.m_pos < map_len b
  pub len : b.m_len ≤ map_len b

-- The bytes that are in the queue.
abbrev pub contents : CircularBuffer → Memory → List ℕ
contents b mem = peek (map_len b) mem b.m_pos b.m_len

peek-split :
    (half : ℕ) (mem : Memory) (off m n : ℕ)
    → peek half mem off (m + n) ≡ peek half mem off m ++ peek half mem (off + m) n
unfolding peek
peek-split half mem off zero n =
    let e : zero + n ≡ n = omega arith in let f : off + 0 ≡ off = omega arith in rw (e, f)
peek-split half mem off (suc m) n =
    let e : suc m + n ≡ suc (m + n) = omega arith in
    let f : off + suc m ≡ off + 1 + m = omega arith in
    rw (e, f, peek) (ap (λ t. mem (in_file half off) ∷ t) (peek-split half mem (off + 1) m n))

peek-same :
    (half : ℕ) (mem mem' : Memory) (off n : ℕ)
    → ((i : ℕ) → off ≤ i → i < off + n → mem (in_file half i) ≡ mem' (in_file half i))
    → peek half mem off n ≡ peek half mem' off n
unfolding peek
peek-same half mem mem' off zero h = refl
peek-same half mem mem' off (suc n) h =
    ap₂ ◌∷◌ (h off (omega arith) (omega arith))
      (peek-same half mem mem' (off + 1) n (λ i l u. h i (omega arith) (omega arith)))

-- A byte of the file at which the mapping is not written.
poke-other :
    (half : ℕ) (mem : Memory) (off : ℕ) (xs : List ℕ) (i : ℕ)
    → i < off
    → off + length xs ≤ i + half
    → off + length xs ≤ 2 * half
    → poke half mem off xs (in_file half i) ≡ mem (in_file half i)
unfolding poke
poke-other half mem off [] i l u m = refl
poke-other half mem off (x ∷ xs) i l u m =
    let far : (in_file half i == in_file half off) ≡ false = ground arith in
    poke-other half (λ j. if j == in_file half off then x else mem j) (off + 1) xs i (omega arith)
      (omega arith) (omega arith)
    ∙ rw far

peek-poke :
    (half : ℕ) (mem : Memory) (off : ℕ) (xs : List ℕ)
    → length xs ≤ half
    → off + length xs ≤ 2 * half
    → peek half (poke half mem off xs) off (length xs) ≡ xs
unfolding peek poke
peek-poke half mem off [] h m = refl
peek-poke half mem off (x ∷ xs) h m =
    let same : (in_file half off == in_file half off) ≡ true = ground arith in
    ap₂ ◌∷◌
      (poke-other half (λ j. if j == in_file half off then x else mem j) (off + 1) xs off
          (omega arith) (omega arith) (omega arith)
        ∙ rw same)
      (peek-poke half (λ j. if j == in_file half off then x else mem j) (off + 1) xs (omega arith)
        (omega arith))

drop-peek :
    (half : ℕ) (mem : Memory) (off m n : ℕ)
    → drop m (peek half mem off (m + n)) ≡ peek half mem (off + m) n
unfolding peek
drop-peek half mem off zero n =
    let e : zero + n ≡ n = omega arith in let f : off + 0 ≡ off = omega arith in rw (e, f)
drop-peek half mem off (suc m) n =
    let e : suc m + n ≡ suc (m + n) = omega arith in
    let f : off + suc m ≡ off + 1 + m = omega arith in
    rw (e, f, peek) (drop-peek half mem (off + 1) m n)

-- Half the mapping on, the same bytes are seen.
peek-wrapped :
    (half : ℕ) (mem : Memory) (off n : ℕ)
    → off + n ≤ half
    → peek half mem (off + half) n ≡ peek half mem off n
unfolding peek
peek-wrapped half mem off zero h = refl
peek-wrapped half mem off (suc n) h =
    let e : in_file half (off + half) ≡ in_file half off = ground arith in
    let f : off + half + 1 ≡ off + 1 + half = omega arith in
    ap₂ ◌∷◌ (ap mem e) (rw f (peek-wrapped half mem (off + 1) n (omega arith)))

-- A reader that appends at most `writeable` bytes, by writing them at `write_ptr` and calling
-- `set_appended`, stays inside the mapping and puts them at the end of the queue; the buffer stays valid.
pub append_lem :
    (b : CircularBuffer) (mem : Memory) (xs : List ℕ)
    → IsValid b
    → length xs ≤ writeable b
    → (write_offset b + length xs ≤ b.magic)
      × (contents (set_appended (length xs) b) (poke (map_len b) mem (write_offset b) xs)
          ≡ contents b mem ++ xs)
      × IsValid (set_appended (length xs) b)
unfolding set_appended write_offset writeable map_len
append_lem b mem xs v h =
    let off : u64 (b.m_pos + b.m_len) ≡ b.m_pos + b.m_len =
      omega (arith, v.small, v.even, v.pos, v.len) in
    let room : less64 (map_len b) b.m_len ≡ map_len b - b.m_len =
      omega (arith, v.small, v.even, v.len) in
    let new : u64 (b.m_len + length xs) ≡ b.m_len + length xs =
      omega (arith, v.small, v.even, v.len) in
    let in_map : b.m_pos + b.m_len + length xs ≤ 2 * map_len b = omega (arith, v.pos, v.len) in
    (
      omega (arith, v.even),
      rw (off, new)
          (peek-split (map_len b) (poke (map_len b) mem (b.m_pos + b.m_len) xs) b.m_pos b.m_len
              (length xs)
            ∙ ap₂ ◌++◌
                (peek-same (map_len b) (poke (map_len b) mem (b.m_pos + b.m_len) xs) mem b.m_pos
                  b.m_len
                  (λ i l u.
                    poke-other (map_len b) mem (b.m_pos + b.m_len) xs i (omega arith) (omega arith)
                      in_map))
                (peek-poke (map_len b) mem (b.m_pos + b.m_len) xs (omega arith) in_map)),
      record {
        half = v.half;
        even = v.even;
        small = v.small;
        pos = v.pos;
        len = rw new (omega arith);
      },
    )

consumed_pos :
    (b : CircularBuffer) (count : ℕ)
    → IsValid b
    → count ≤ b.m_len
    → (set_consumed count b).m_pos
      ≡ (if leb (map_len b) (b.m_pos + count) then b.m_pos + count - map_len b else b.m_pos + count)
unfolding set_consumed map_len
consumed_pos b count v h = ground (arith, v.small, v.even, v.pos, v.len)

consumed_len :
    (b : CircularBuffer) (count : ℕ)
    → IsValid b
    → count ≤ b.m_len
    → (set_consumed count b).m_len ≡ b.m_len - count
unfolding set_consumed map_len
consumed_len b count v h = ground (arith, v.small, v.even, v.pos, v.len)

consumed_map : (b : CircularBuffer) (count : ℕ) → (set_consumed count b).magic ≡ b.magic
unfolding set_consumed map_len
consumed_map b count = ground arith

-- A reader that calls `set_consumed` for at most `readable` bytes takes that many from the front of
-- the queue, and the buffer stays valid: the position never leaves the first half of the mapping.
pub consume_lem :
    (b : CircularBuffer) (mem : Memory) (count : ℕ)
    → IsValid b
    → count ≤ b.m_len
    → (contents (set_consumed count b) mem ≡ drop count (contents b mem))
      × IsValid (set_consumed count b)
unfolding map_len
consume_lem b mem count v h =
    let p = consumed_pos b count v h in
    let l = consumed_len b count v h in
    let m = consumed_map b count in
    (
      rw (m, l, p)
          (elim (Bool-cases (leb (b.magic / 2) (b.m_pos + count))) [
            | inl over ↦ rw over (back over ∙ sym rest)
            | inr under ↦ rw under (sym rest)
          ]),
      record {
        half = rw m v.half;
        even = rw m v.even;
        small = rw m v.small;
        pos = rw (m, p) (ground (arith, v.pos, v.len));
        len = rw (m, l) (omega (arith, v.len));
      },
    )
  where
    rest : drop count (contents b mem) ≡ peek (b.magic / 2) mem (b.m_pos + count) (b.m_len - count)
    rest =
        let e : b.m_len ≡ count + (b.m_len - count) = omega arith in
        ap (λ k. drop count (peek (b.magic / 2) mem b.m_pos k)) e
        ∙ drop-peek (b.magic / 2) mem b.m_pos count (b.m_len - count)

    back :
        leb (b.magic / 2) (b.m_pos + count) ≡ true
        → peek (b.magic / 2) mem (b.m_pos + count - b.magic / 2) (b.m_len - count)
          ≡ peek (b.magic / 2) mem (b.m_pos + count) (b.m_len - count)
    back over =
        let le : b.magic / 2 ≤ b.m_pos + count = ground arith in
        let e : b.m_pos + count - b.magic / 2 + b.magic / 2 ≡ b.m_pos + count = omega arith in
        sym (
          peek-wrapped (b.magic / 2) mem (b.m_pos + count - b.magic / 2) (b.m_len - count)
            (omega (arith, v.pos, v.len)))
        ∙ ap (λ k. peek (b.magic / 2) mem k (b.m_len - count)) e
