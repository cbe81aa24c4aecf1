-- ===== src/Ipc/Write/Sent.antt =====
-- What one call of `write_chunks` does.
use mgkdb.Prelude.{
  ℕ, ◌+◌, ◌-◌, ◌≤◌, ◌<◌, ◌≡◌, inl, inr, refl, sym, ap, ◌∙◌, true, false, List, [], ◌∷◌, ◌++◌,
  append-nil, append_assoc, length, length-append, concat, min, ltb, arith, Bool-cases,
  ltb_false→le, ltb→lt,
}
use mgkdb.Prelude.Int.{neg_part}
use mgkdb.Ipc.Types.{WriteResult, wr_ok, wr_incomplete}
use mgkdb.Ipc.WriteBuf.{WriteBuf, remaining, cursor_active, ffwd, put, advance}
use mgkdb.Ipc.Write.{and_then}
use mgkdb.Ipc.Write.Chunks.{
  write_chunk, write_chunks, IsCut, longest, IsCut-zero, advance-advance, advance-zero,
  neg_part-advance, neg_part_of_nonneg, neg_part_of_negative,
}

-- What one call of `write_chunks` on `b` with `k` bytes to pass over has done.
pub record Sent (cs : List (List ℕ)) (b : WriteBuf) (k : ℕ) (r : WriteResult × WriteBuf)
    : Type 0 where
  pub skipped : List ℕ
  pub out : List ℕ
  pub left : List ℕ
  pub whole : skipped ++ (out ++ left) ≡ concat cs
  pub skip_len : length skipped ≡ min k (length (concat cs))
  pub dst : r.1.m_dst ≡ b.m_dst ++ out
  pub cap : r.1.m_cap ≡ b.m_cap
  pub csr : r.1.m_csr ≡ advance b.m_csr (length skipped + length out)
  pub done : r.0 ≡ wr_ok → length left ≡ 0
  pub stopped : r.0 ≡ wr_incomplete → (0 < length left) × (remaining r.1 < longest cs)
  pub cut : IsCut cs (length skipped + length out)
  pub in_bounds : length b.m_dst ≤ b.m_cap → length b.m_dst + length out ≤ b.m_cap

longest-le :
    (c : List ℕ) (cs : List (List ℕ))
    → (length c ≤ longest (c ∷ cs)) × (longest cs ≤ longest (c ∷ cs))
longest-le c cs = ground arith

-- The chunk does not fit: nothing is written.
Sent-stop :
    (c : List ℕ) (cs : List (List ℕ)) (b : WriteBuf)
    → remaining b < length c
    → Sent (c ∷ cs) b 0 (wr_incomplete, b)
Sent-stop c cs b h = record {
  skipped = [];
  out = [];
  left = c ++ concat cs;
  whole = refl;
  skip_len = omega arith;
  dst = sym (append-nil b.m_dst);
  cap = refl;
  csr = sym (advance-zero b.m_csr);
  done = λ e. absurd (cc);
  stopped = λ e. omega (arith, length-append c (concat cs), longest-le c cs);
  cut = inl refl;
  in_bounds = λ f. omega arith;
}

-- The chunk is written, and what follows is done on the buffer behind it.
Sent-put :
    (c : List ℕ) (cs : List (List ℕ)) (b : WriteBuf) (r : WriteResult × WriteBuf)
    → length c ≤ remaining b
    → Sent cs (put c b) 0 r
    → Sent (c ∷ cs) b 0 r
unfolding put
Sent-put c cs b r h s =
    let z : length s.skipped ≡ 0 = omega (arith, s.skip_len) in
    record {
      skipped = [];
      out = c ++ s.out;
      left = s.left;
      whole = append_assoc c s.out s.left ∙ ap (λ t. c ++ t) (drop_nil s.skipped z s.whole);
      skip_len = omega arith;
      dst = s.dst ∙ append_assoc b.m_dst c s.out;
      cap = s.cap;
      csr =
          s.csr
          ∙ advance-advance b.m_csr (length c) (length s.skipped + length s.out)
          ∙ ap (advance b.m_csr) (omega (arith, z, length-append c s.out));
      done = s.done;
      stopped = λ e. omega (arith, s.stopped e, longest-le c cs);
      cut = inr (omega (arith, length-append c s.out), rw (count_eq z) s.cut);
      in_bounds = λ f. omega (
        arith,
        length-append c s.out,
        length-append b.m_dst c,
        s.in_bounds (omega (arith, length-append b.m_dst c)),
      );
    }
  where
    drop_nil :
        (p : List ℕ)
        → length p ≡ 0
        → {t : List ℕ} → p ++ (s.out ++ s.left) ≡ t
        → s.out ++ s.left ≡ t
    drop_nil [] e h = h
    drop_nil (x ∷ p) e h = absurd (omega arith)

    count_eq :
        length s.skipped ≡ 0 → 0 + length (c ++ s.out) - length c ≡ length s.skipped + length s.out
    count_eq z = omega (arith, z, length-append c s.out)

-- The chunk is passed over.
Sent-pass :
    (c : List ℕ) (cs : List (List ℕ)) (b : WriteBuf) (k : ℕ) (r : WriteResult × WriteBuf)
    → length c ≤ k
    → Sent cs (ffwd (length c) b) (k - length c) r
    → Sent (c ∷ cs) b k r
unfolding ffwd
Sent-pass c cs b k r h s = record {
  skipped = c ++ s.skipped;
  out = s.out;
  left = s.left;
  whole = append_assoc c s.skipped (s.out ++ s.left) ∙ ap (λ t. c ++ t) s.whole;
  skip_len = omega (arith, s.skip_len, length-append c s.skipped, length-append c (concat cs));
  dst = s.dst;
  cap = s.cap;
  csr =
      s.csr
      ∙ advance-advance b.m_csr (length c) (length s.skipped + length s.out)
      ∙ ap (advance b.m_csr) (omega (arith, length-append c s.skipped));
  done = s.done;
  stopped = λ e. omega (arith, s.stopped e, longest-le c cs);
  cut = inr (omega (arith, length-append c s.skipped), rw count_eq s.cut);
  in_bounds = s.in_bounds;
}
  where
    count_eq : length (c ++ s.skipped) + length s.out - length c ≡ length s.skipped + length s.out
    count_eq = omega (arith, length-append c s.skipped)

Sent-nil : (b : WriteBuf) (k : ℕ) → Sent [] b k (wr_ok, b)
Sent-nil b k = record {
  skipped = [];
  out = [];
  left = [];
  whole = refl;
  skip_len = omega arith;
  dst = sym (append-nil b.m_dst);
  cap = refl;
  csr = sym (advance-zero b.m_csr);
  done = λ e. refl;
  stopped = λ e. absurd (cc);
  cut = tt;
  in_bounds = λ f. omega arith;
}

module _ (c : List ℕ) (cs : List (List ℕ))
    (ih : (b : WriteBuf) (k : ℕ)
      → neg_part b.m_csr ≡ k
      → IsCut cs k
      → Sent cs b k (write_chunks cs b)) where
  Sent-front :
      (b : WriteBuf)
      → cursor_active b ≡ true
      → neg_part b.m_csr ≡ 0
      → Sent (c ∷ cs) b 0 (and_then (write_chunk c b) (λ b'. write_chunks cs b'))
  unfolding write_chunk
  Sent-front b act z = elim (Bool-cases (ltb (remaining b) (length c))) [
    | inl full ↦ rw (act, full) (Sent-stop c cs b (ltb→lt _ _ full))
    | inr fits ↦
        rw (act, fits)
          (Sent-put c cs b (write_chunks cs (put c b)) (ltb_false→le _ _ fits)
            (ih (put c b) 0 put_csr (IsCut-zero cs)))
  ]
    where
      put_csr : neg_part (put c b).m_csr ≡ 0
      put_csr = unfold put in omega (arith, neg_part-advance b.m_csr (length c))

  Sent-behind :
      (b : WriteBuf) (k : ℕ)
      → cursor_active b ≡ false
      → neg_part b.m_csr ≡ k
      → length c ≤ k
      → IsCut cs (k - length c)
      → Sent (c ∷ cs) b k (and_then (write_chunk c b) (λ b'. write_chunks cs b'))
  unfolding write_chunk
  Sent-behind b k neg e h cut = rw neg (
      Sent-pass c cs b k (write_chunks cs (ffwd (length c) b)) h
        (ih (ffwd (length c) b) (k - length c) ffwd_csr cut))
    where
      ffwd_csr : neg_part (ffwd (length c) b).m_csr ≡ k - length c
      ffwd_csr = unfold ffwd in omega (arith, e, neg_part-advance b.m_csr (length c))

-- From a cursor that stands `k` bytes before zero, at the end of a chunk, a call passes over those
-- `k` bytes and appends the chunks that follow, as many as fit.
pub write_chunks_lem :
    (cs : List (List ℕ)) (b : WriteBuf) (k : ℕ)
    → neg_part b.m_csr ≡ k
    → IsCut cs k
    → Sent cs b k (write_chunks cs b)
unfolding write_chunks
write_chunks_lem [] b k e cut = Sent-nil b k
write_chunks_lem (c ∷ cs) b k e cut = elim (Bool-cases (cursor_active b)) [
  | inl act ↦
      let z : neg_part b.m_csr ≡ 0 = neg_part_of_nonneg b.m_csr act in
      let k_zero : k ≡ 0 = sym e ∙ z in rw k_zero (Sent-front c cs (write_chunks_lem cs) b act z)
  | inr neg ↦ elim cut [
    | inl k_zero ↦ absurd (omega (arith, e, k_zero, neg_part_of_negative b.m_csr neg))
    | inr (h, cut') ↦ Sent-behind c cs (write_chunks_lem cs) b k neg e h cut'
  ]
]
