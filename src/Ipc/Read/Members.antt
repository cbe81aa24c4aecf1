-- ===== src/Ipc/Read/Members.antt =====
-- The two members of a table or a dictionary.
use mgkdb.Prelude.{
  ℕ, ◌+◌, ◌≡◌, sym, ap, ◌∙◌, true, Option, List, ◌++◌, append_assoc, length, length-append, arith,
}
use mgkdb.Prelude.Int.{neg_part}
use mgkdb.Ipc.Types.{KdbType}
use mgkdb.Ipc.Object.{Kdb, wire_sz}
use mgkdb.Ipc.Write.Encode.{encode}
use mgkdb.Ipc.Write.Size.{wire_sz-eq-length-encode}
use mgkdb.Ipc.ReadBuf.{ReadBuf, ffwd, pass}
use mgkdb.Ipc.Read.Obj.{Obj, Slot, null, full}
use mgkdb.Ipc.Read.New.{New, new_instance}
use mgkdb.Ipc.Read.Methods.{
  Out, out, to_slot, to_pair, wanted, read_made, read_held, read_member, read_second,
}
use mgkdb.Ipc.Read.Cursor.{
  neg_part-ffwd, neg_part-pass, neg_part-pass_zero, m_rest-ffwd, m_off-ffwd, m_rest-pass, at_zero,
  behind_zero,
}
use mgkdb.Ipc.Read.Skip.{Skips, wire_sz_pos}
use mgkdb.Ipc.Read.Visible.{within_first, behind_first, Reads-from, Reads-map, take_none, out_from}
use mgkdb.Ipc.Read.Made.{body, head, fresh, length-head, fresh-IsPart}
use mgkdb.Ipc.Read.Headers.{Starts, started, waiting}
use mgkdb.Ipc.Read.Starts.{encode-split, new_instance_lem}
use mgkdb.Ipc.Read.Total.{part_total}
use mgkdb.Ipc.Read.Elements.{hdr_pos}
use mgkdb.Ipc.Read.Part.{
  IsPart, IsPair, neither, in_first, after_first, in_second, IsReadable, Reads, whole, short, OnOut,
  Resumes, done, hdr_sz,
}

-- The object `mk s t` is a part where its members are.
module _ (call : Obj → ReadBuf → Out) (mk : Slot → Slot → Obj) (s_typ t_typ : Option KdbType)
    (u v : Kdb) (ru : IsReadable u) (rv : IsReadable v) (is_u : wanted s_typ (fresh u) ≡ true)
    (is_v : wanted t_typ (fresh v) ≡ true) (resume_u : Resumes call u) (resume_v : Resumes call v)
    (skip_u : Skips call u) (P : ℕ → List ℕ → Obj → Type 0)
    (up : (n : ℕ) (tail : List ℕ) (s t : Slot) → IsPair u v n tail s t → P n tail (mk s t)) where
  abbrev both : Obj
  both = mk (full (done u)) (full (done v))

  abbrev Goes : ℕ → List ℕ → ReadBuf → List ℕ → List ℕ → Out → Type 0
  Goes n tail b unseen more r = OnOut (Reads P both n tail b unseen more) r

  -- The call for the second member, of which `n` bytes behind its header are read.
  held_second :
      (n : ℕ) (tail : List ℕ) (b : ReadBuf) (unseen more : List ℕ) (r : Out)
      → OnOut (Reads (IsPart v) (done v) n tail b unseen more) r
      → Goes
          (wire_sz u + (hdr_sz v + n))
          tail
          b
          unseen
          more
          (to_pair mk (full (done u)) (to_slot r))
  held_second n tail b unseen more (out rr o b') x =
      Reads-map (λ o'. mk (full (done u)) (full o'))
        (λ k rest o' p.
          let e : wire_sz u + (hdr_sz v + n) + k ≡ wire_sz u + (hdr_sz v + (n + k)) = omega arith in
          rw e (up _ rest _ _ (in_second p)))
        x

  -- A member that is started: from behind its header to before it.
  from_header :
      (w : Kdb) (n m : ℕ) (tail : List ℕ) (b b' : ReadBuf) (unseen more : List ℕ) (r : Out)
      → m ≡ n + hdr_sz w
      → b.m_rest ++ unseen ≡ head w ++ (tail ++ more)
      → b'.m_rest ++ unseen ≡ tail ++ more
      → b'.m_off ≡ b.m_off + hdr_sz w
      → Goes m tail b' unseen more r
      → Goes n (head w ++ tail) b unseen more r
  from_header w n m tail b b' unseen more (out rr o b'') e h h' d x =
      behind_first (λ o'. o') (head w) tail h h' (omega (arith, length-head w))
        (λ k rest o' p.
          let s : m + k ≡ n + (length (head w) + k) = omega (arith, length-head w) in rw (← s) p)
        x

  whole_size : (w : Kdb) → IsReadable w → hdr_sz w + length (body w) ≡ wire_sz w
  whole_size w r = omega (arith, part_total w 0 (body w) (fresh w) (fresh-IsPart w r))

  encoded :
      (w : Kdb) (behind more : List ℕ)
      → IsReadable w
      → (encode w ++ behind) ++ more ≡ head w ++ (body w ++ (behind ++ more))
  encoded w behind more r =
      append_assoc (encode w) behind more
      ∙ ap (λ us. us ++ (behind ++ more)) (encode-split w r)
      ∙ append_assoc (head w) (body w) (behind ++ more)

  -- The second member where the first is there and the cursor is active.
  new_second :
      (b : ReadBuf) (unseen more : List ℕ)
      → neg_part b.m_csr ≡ 0
      → b.m_rest ++ unseen ≡ encode v ++ more
      → Goes
          (wire_sz u)
          (encode v)
          b
          unseen
          more
          (to_pair mk (full (done u)) (read_member call t_typ null b))
  unfolding read_member read_made
  new_second b unseen more c h =
      rw (at_zero b c)
        (by (new_instance b) (new_instance_lem v b unseen (body v ++ more) rv c split))
    where
      split : b.m_rest ++ unseen ≡ head v ++ (body v ++ more)
      split = h ∙ ap (λ us. us ++ more) (encode-split v rv) ∙ append_assoc (head v) (body v) more

      by :
          (m : New)
          → Starts (fresh v) (hdr_sz v) b unseen (body v ++ more) m
          → Goes
              (wire_sz u)
              (encode v)
              b
              unseen
              more
              (to_pair mk (full (done u)) (read_made call t_typ null m))
      by m (waiting few) =
          take_none (omega (arith, wire_sz-eq-length-encode v, whole_size v rv))
            (up _ _ _ _ after_first)
      by m (started {b' = b'} c' h' d) =
          rw (is_v, encode-split v rv)
            (from_header v (wire_sz u) (wire_sz u + (hdr_sz v + 0)) (body v) b b' unseen more _
              (omega arith) split h' d
              (held_second 0 (body v) b' unseen more (call (fresh v) b') (
                resume_v 0 (body v) (fresh v) b' unseen more (fresh-IsPart v rv)
                  (neg_part-pass_zero (hdr_sz v) b' c') h')))

  -- The call for the first member, and then the second.
  held_first :
      (n : ℕ) (tail : List ℕ) (b : ReadBuf) (unseen more : List ℕ) (r : Out)
      → hdr_sz u + n + length tail ≡ wire_sz u
      → b.m_rest ++ unseen ≡ tail ++ (encode v ++ more)
      → OnOut (Reads (IsPart u) (done u) n tail b unseen (encode v ++ more)) r
      → Goes
          (hdr_sz u + n)
          (tail ++ encode v)
          b
          unseen
          more
          (read_second call mk t_typ null (to_slot r))
  unfolding read_second
  held_first n tail b unseen more (out rr o b') e h (whole c h' d) =
      by b' (to_pair mk (full (done u)) (read_member call t_typ null b')) h' d
        (new_second b' unseen more c h')
    where
      by :
          (b1 : ReadBuf) (r : Out)
          → b1.m_rest ++ unseen ≡ encode v ++ more
          → b1.m_off ≡ b.m_off + length tail
          → Goes (wire_sz u) (encode v) b1 unseen more r
          → Goes (hdr_sz u + n) (tail ++ encode v) b unseen more r
      by b1 (out rr' o' b'') h1 d1 x =
          behind_first (λ q. q) tail (encode v) h h1 d1
            (λ k rest q p.
              let s : wire_sz u + k ≡ hdr_sz u + n + (length tail + k) = omega arith in rw (← s) p)
            x
  held_first n tail b unseen more (out rr o b') e h (short front rest e' d l f p) =
      within_first {P = IsPart u} (λ o'. mk (full o') null) {all = done u} {n = n} tail (encode v)
        both
        (λ k rest' o' q.
          let s : hdr_sz u + n + k ≡ hdr_sz u + (n + k) = omega arith in
          rw s (up _ _ _ _ (in_first q)))
        (short front rest e' d l f p)

  new_first :
      (b : ReadBuf) (unseen more : List ℕ)
      → neg_part b.m_csr ≡ 0
      → b.m_rest ++ unseen ≡ (encode u ++ encode v) ++ more
      → Goes 0
          (encode u ++ encode v)
          b
          unseen
          more
          (read_second call mk t_typ null (read_member call s_typ null b))
  unfolding read_member read_made read_second
  new_first b unseen more c h =
      rw (at_zero b c) (
        by (new_instance b) (new_instance_lem u b unseen (body u ++ (encode v ++ more)) ru c split))
    where
      split : b.m_rest ++ unseen ≡ head u ++ (body u ++ (encode v ++ more))
      split = h ∙ encoded u (encode v) more ru

      bytes : encode u ++ encode v ≡ head u ++ (body u ++ encode v)
      bytes =
          ap (λ us. us ++ encode v) (encode-split u ru) ∙ append_assoc (head u) (body u) (encode v)

      by :
          (m : New)
          → Starts (fresh u) (hdr_sz u) b unseen (body u ++ (encode v ++ more)) m
          → Goes 0
              (encode u ++ encode v)
              b
              unseen
              more
              (read_second call mk t_typ null (read_made call s_typ null m))
      by m (waiting few) =
          take_none
            (omega (
              arith,
              length-append (encode u) (encode v),
              wire_sz-eq-length-encode u,
              whole_size u ru,
            ))
            (up _ _ _ _ neither)
      by m (started {b' = b'} c' h' d) =
          rw (is_u, bytes)
            (from_header u 0 (hdr_sz u + 0) (body u ++ encode v) b b' unseen more _ (omega arith)
              (split ∙ ap (λ us. head u ++ us) (sym (append_assoc (body u) (encode v) more)))
              (h' ∙ sym (append_assoc (body u) (encode v) more)) d
              (held_first 0 (body u) b' unseen more (call (fresh u) b')
                (part_total u 0 (body u) (fresh u) (fresh-IsPart u ru)) h'
                (resume_u 0 (body u) (fresh u) b' unseen (encode v ++ more) (fresh-IsPart u ru)
                  (neg_part-pass_zero (hdr_sz u) b' c') h')))

  -- The first member as an earlier buffer left it, and the second.
  pair_held :
      (n : ℕ) (tail : List ℕ) (s t : Slot) (b : ReadBuf) (unseen more : List ℕ)
      → IsPair u v n tail s t
      → neg_part b.m_csr ≡ n
      → b.m_rest ++ unseen ≡ tail ++ more
      → Goes n tail b unseen more (read_second call mk t_typ t (read_member call s_typ s b))
  unfolding read_member read_held read_second
  pair_held n tail s t b unseen more neither c h = new_first b unseen more c h
  pair_held n tail s t b unseen more (in_first {n = n'} {tail = t'} {o = o} p) c h =
      let h' : b.m_rest ++ unseen ≡ t' ++ (encode v ++ more) =
        h ∙ append_assoc t' (encode v) more in
      rw (behind_zero b (omega (arith, hdr_pos u))) (
        held_first n' t' b unseen more (call o b) (part_total u n' t' o p) h' (
          resume_u n' t' o b unseen (encode v ++ more) p
            (neg_part-pass (hdr_sz u) n' b (hdr_pos u) c) h'))
  pair_held n tail s t b unseen more after_first c h =
      rw (behind_zero b (omega (arith, wire_sz_pos u)), skip_u b (omega arith), read_second)
        (by (to_pair mk (full (done u)) (read_member call t_typ null (ffwd (wire_sz u) b))) (
          new_second (ffwd (wire_sz u) b) unseen more (omega (arith, neg_part-ffwd (wire_sz u) b))
            (ap (λ us. us ++ unseen) (m_rest-ffwd (wire_sz u) b) ∙ h)))
    where
      by :
          (r : Out)
          → Goes (wire_sz u) (encode v) (ffwd (wire_sz u) b) unseen more r
          → Goes (wire_sz u) (encode v) b unseen more r
      by (out rr o b') x = Reads-from (m_rest-ffwd (wire_sz u) b) (m_off-ffwd (wire_sz u) b) x
  pair_held n tail s t b unseen more (in_second {n = n'} {o = o} p) c h =
      let b1 : ReadBuf = ffwd (wire_sz u) b in
      let c1 : neg_part b1.m_csr ≡ hdr_sz v + n' = omega (arith, neg_part-ffwd (wire_sz u) b) in
      rw
        (
          behind_zero b (omega (arith, wire_sz_pos u)),
          skip_u b (omega arith),
          read_second,
          behind_zero (ffwd (wire_sz u) b) (omega (arith, hdr_pos v, c1)),
        )
        (by (to_pair mk (full (done u)) (to_slot (call o (ffwd (wire_sz u) b)))) (
          held_second n' tail (ffwd (wire_sz u) b) unseen more (call o (ffwd (wire_sz u) b)) (
            resume_v n' tail o (ffwd (wire_sz u) b) unseen more p
              (neg_part-pass (hdr_sz v) n' (ffwd (wire_sz u) b) (hdr_pos v) c1)
              (ap (λ us. us ++ unseen) (m_rest-ffwd (wire_sz u) b) ∙ h))))
    where
      by :
          (r : Out)
          → Goes (wire_sz u + (hdr_sz v + n')) tail (ffwd (wire_sz u) b) unseen more r
          → Goes (wire_sz u + (hdr_sz v + n')) tail b unseen more r
      by (out rr o' b') x = Reads-from (m_rest-ffwd (wire_sz u) b) (m_off-ffwd (wire_sz u) b) x

  -- Both members behind a header of `k` bytes.
  pub pair_resume :
      (k n : ℕ) (tail : List ℕ) (s t : Slot) (b : ReadBuf) (unseen more : List ℕ)
      → IsPair u v n tail s t
      → neg_part (pass k b).m_csr ≡ n
      → b.m_rest ++ unseen ≡ tail ++ more
      → Goes n tail b unseen more
          (read_second call mk t_typ t (read_member call s_typ s (pass k b)))
  pair_resume k n tail s t b unseen more p c h = out_from P both n tail k b unseen more _ (
      pair_held n tail s t (pass k b) unseen more p c
        (ap (λ us. us ++ unseen) (m_rest-pass k b) ∙ h))
