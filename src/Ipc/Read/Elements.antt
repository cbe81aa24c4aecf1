-- ===== src/Ipc/Read/Elements.antt =====
-- The loops of `KdbList::read` and `KdbProjection::read`.
use mgkdb.Prelude.{
  ℕ, suc, ◌+◌, ◌-◌, ◌≤◌, ◌<◌, ◌≡◌, sym, ap, ◌∙◌, List, ◌++◌, append_assoc, length, length-append,
  arith,
}
use mgkdb.Prelude.Int.{neg_part}
use mgkdb.Ipc.Object.{Kdb, Kdbs, nil, cons, size, wire_sz}
use mgkdb.Ipc.Write.Encode.{encode, chunks, all_chunks}
use mgkdb.Ipc.Write.Size.{concat-append, wire_sz-eq-length-encode}
use mgkdb.Ipc.ReadBuf.{ReadBuf, ffwd, pass}
use mgkdb.Ipc.Read.Obj.{Obj, Objs, onil, ocons, osize}
use mgkdb.Ipc.Read.New.{New, failed, made, new_instance}
use mgkdb.Ipc.Read.Methods.{
  Out, out, ListOut, list_out, onward, before, read_olds, read_news, read_elements,
}
use mgkdb.Ipc.Read.Cursor.{
  neg_part-ffwd, neg_part-pass, neg_part-pass_zero, m_rest-ffwd, m_off-ffwd, m_rest-pass,
  m_off-pass,
}
use mgkdb.Ipc.Read.Skip.{Skips}
use mgkdb.Ipc.Read.Visible.{within_first, behind_first, Reads-from, Reads-map, take_none}
use mgkdb.Ipc.Read.Made.{body, head, fresh, length-head, fresh-IsPart}
use mgkdb.Ipc.Read.Headers.{Starts, started, waiting}
use mgkdb.Ipc.Read.Starts.{encode-split, new_instance_lem}
use mgkdb.Ipc.Read.Total.{part_total}
use mgkdb.Ipc.Read.Part.{
  IsPart, AreParts, none_of, last_of, more_of, IsReadable, AreReadable, Reads, whole, short, OnOut,
  OnList, Resumes, done, dones, nest, nests, hdr_sz, encodes,
}

pub hdr_pos : (v : Kdb) → 0 < hdr_sz v
hdr_pos (Kdb.exception msg) = omega arith
hdr_pos _ = omega arith

encodes-cons : (v : Kdb) (vs : Kdbs) → encodes (cons v vs) ≡ encode v ++ encodes vs
unfolding chunks encode
encodes-cons v vs = concat-append (chunks v) (all_chunks vs)

-- `fuel` bounds how deep the elements nest that `call` reads.
module _ (call : Obj → ReadBuf → Out) (fuel : ℕ)
    (ih : (v : Kdb) → nest v ≤ fuel → IsReadable v → Resumes call v)
    (skip : (v : Kdb) → nest v ≤ fuel → Skips call v) where
  abbrev News : Kdbs → ReadBuf → List ℕ → List ℕ → ListOut → Type 0
  News vs b unseen more r = OnList (Reads (AreParts vs) (dones vs) 0 (encodes vs) b unseen more) r

  -- Behind an element that is all there.
  after_element :
      (v : Kdb) (vs : Kdbs) (n : ℕ) (t : List ℕ) (b b' : ReadBuf) (unseen more : List ℕ)
      (r : ListOut)
      → n + length t ≡ wire_sz v
      → b.m_rest ++ unseen ≡ t ++ (encodes vs ++ more)
      → b'.m_rest ++ unseen ≡ encodes vs ++ more
      → b'.m_off ≡ b.m_off + length t
      → News vs b' unseen more r
      → OnList
          (Reads (AreParts (cons v vs)) (dones (cons v vs)) n (t ++ encodes vs) b unseen more)
          (before (done v) r)
  after_element v vs n t b b' unseen more (list_out rr os b'') e h h' d x =
      behind_first (λ os'. ocons (done v) os') t (encodes vs) h h' d
        (λ k rest os' p.
          let s : n + (length t + k) ≡ wire_sz v + k = omega arith in
          let z : 0 + k ≡ k = omega arith in rw s (more_of (rw z at p)))
        x

  -- An element behind its call, with the loop over those that are not there yet.
  go_on :
      (v : Kdb) (vs : Kdbs) (n : ℕ) (t : List ℕ) (b : ReadBuf) (unseen more : List ℕ)
      (go : ReadBuf → ListOut) (r : Out)
      → hdr_sz v + n + length t ≡ wire_sz v
      → b.m_rest ++ unseen ≡ t ++ (encodes vs ++ more)
      → ((b' : ReadBuf)
          → neg_part b'.m_csr ≡ 0
          → b'.m_rest ++ unseen ≡ encodes vs ++ more
          → News vs b' unseen more (go b'))
      → OnOut (Reads (IsPart v) (done v) n t b unseen (encodes vs ++ more)) r
      → OnList
          (Reads
            (AreParts (cons v vs))
            (dones (cons v vs))
            (hdr_sz v + n)
            (t ++ encodes vs)
            b
            unseen
            more)
          (onward r onil go)
  unfolding onward
  go_on v vs n t b unseen more go (out rr o b') e h news (whole c h' d) =
      after_element v vs (hdr_sz v + n) t b b' unseen more (go b') e h h' d (news b' c h')
  go_on v vs n t b unseen more go (out rr o b') e h news (short front rest e' d l f p) =
      within_first {P = IsPart v} (λ x. ocons x onil) {all = done v} {n = n} t (encodes vs)
        (dones (cons v vs))
        (λ k rest' x q.
          let s : hdr_sz v + n + k ≡ hdr_sz v + (n + k) = omega arith in rw s (last_of q))
        (short front rest e' d l f p)

  news_lem :
      (vs : Kdbs) (b : ReadBuf) (unseen more : List ℕ)
      → AreReadable vs
      → nests vs ≤ fuel
      → neg_part b.m_csr ≡ 0
      → b.m_rest ++ unseen ≡ encodes vs ++ more
      → News vs b unseen more (read_news call (size vs) b)
  unfolding read_news all_chunks
  news_lem nil b unseen more r f c h = whole c h (omega arith)
  news_lem (cons v vs) b unseen more (r, rs) f c h =
      by (new_instance b) (new_instance_lem v b unseen (body v ++ (encodes vs ++ more)) r c split)
        (λ b' c' h'. news_lem vs b' unseen more rs (omega arith) c' h')
    where
      split : b.m_rest ++ unseen ≡ head v ++ (body v ++ (encodes vs ++ more))
      split =
          h
          ∙ ap (λ us. us ++ more) (encodes-cons v vs)
          ∙ append_assoc (encode v) (encodes vs) more
          ∙ ap (λ us. us ++ (encodes vs ++ more)) (encode-split v r)
          ∙ append_assoc (head v) (body v) (encodes vs ++ more)

      size_of : length (encodes (cons v vs)) ≡ wire_sz v + length (encodes vs)
      size_of =
          ap (length {0}) (encodes-cons v vs)
          ∙ length-append (encode v) (encodes vs)
          ∙ ap (λ k. k + length (encodes vs)) (sym (wire_sz-eq-length-encode v))

      total : hdr_sz v + 0 + length (body v) ≡ wire_sz v
      total = part_total v 0 (body v) (fresh v) (fresh-IsPart v r)

      bytes : encodes (cons v vs) ≡ head v ++ (body v ++ encodes vs)
      bytes =
          encodes-cons v vs
          ∙ ap (λ us. us ++ encodes vs) (encode-split v r)
          ∙ append_assoc (head v) (body v) (encodes vs)

      -- From behind the header to before it.
      from_header :
          (b' : ReadBuf) (l : ListOut)
          → b'.m_rest ++ unseen ≡ body v ++ (encodes vs ++ more)
          → b'.m_off ≡ b.m_off + hdr_sz v
          → OnList
              (Reads
                (AreParts (cons v vs))
                (dones (cons v vs))
                (hdr_sz v + 0)
                (body v ++ encodes vs)
                b'
                unseen
                more)
              l
          → OnList
              (Reads
                (AreParts (cons v vs))
                (dones (cons v vs))
                0
                (head v ++ (body v ++ encodes vs))
                b
                unseen
                more)
              l
      from_header b' (list_out rr os b'') h' d x =
          behind_first (λ os'. os') (head v) (body v ++ encodes vs)
            (split ∙ ap (λ us. head v ++ us) (sym (append_assoc (body v) (encodes vs) more)))
            (h' ∙ sym (append_assoc (body v) (encodes vs) more)) (omega (arith, length-head v))
            (λ k rest os' p.
              let e : hdr_sz v + 0 + k ≡ 0 + (length (head v) + k) = omega (arith, length-head v) in
              rw (← e) p)
            x

      by :
          (m : New)
          → Starts (fresh v) (hdr_sz v) b unseen (body v ++ (encodes vs ++ more)) m
          → ((b' : ReadBuf)
              → neg_part b'.m_csr ≡ 0
              → b'.m_rest ++ unseen ≡ encodes vs ++ more
              → News vs b' unseen more (read_news call (size vs) b'))
          → News (cons v vs) b unseen more (elim m [
            | failed rr b' ↦ list_out rr onil b'
            | made o b' ↦ onward (call o b') onil (λ b''. read_news call (size vs) b'')
          ])
      by m (waiting few) news = take_none (omega (arith, size_of, total)) none_of
      by m (started {b' = b'} c' h' d) news = rw bytes (
          from_header b' (onward (call (fresh v) b') onil (λ b''. read_news call (size vs) b'')) h'
            d
            (go_on v vs 0 (body v) b' unseen more _ (call (fresh v) b') total h' news (
              ih v (omega arith) r 0 (body v) (fresh v) b' unseen (encodes vs ++ more)
                (fresh-IsPart v r) (neg_part-pass_zero (hdr_sz v) b' c') h')))

  olds_lem :
      (vs : Kdbs) (n : ℕ) (tail : List ℕ) (os : Objs) (b : ReadBuf) (unseen more : List ℕ)
      → AreParts vs n tail os
      → AreReadable vs
      → nests vs ≤ fuel
      → neg_part b.m_csr ≡ n
      → b.m_rest ++ unseen ≡ tail ++ more
      → OnList
          (Reads (AreParts vs) (dones vs) n tail b unseen more)
          (read_olds call os (λ b'. read_news call (size vs - osize os) b') b)
  unfolding read_olds
  olds_lem vs n tail os b unseen more none_of r f c h =
      let z : size vs - 0 ≡ size vs = omega arith in rw z (news_lem vs b unseen more r f c h)
  olds_lem (cons v vs) n tail os b unseen more (last_of {n = n'} {tail = t} {o = o} p) (r, rs) f c
        h =
      let z : suc (size vs) - suc 0 ≡ size vs = omega arith in
      let h' : b.m_rest ++ unseen ≡ t ++ (encodes vs ++ more) =
        h ∙ append_assoc t (encodes vs) more in
      rw z (
        go_on v vs n' t b unseen more _ (call o b) (part_total v n' t o p) h'
          (λ b' c' h''. news_lem vs b' unseen more rs (omega arith) c' h'')
          (ih v (omega arith) r n' t o b unseen (encodes vs ++ more) p
            (neg_part-pass (hdr_sz v) n' b (hdr_pos v) c) h'))
  olds_lem (cons v vs) n tail os b unseen more (more_of {n = n'} {os = os'} p) (r, rs) f c h =
      let z : suc (size vs) - suc (osize os') ≡ size vs - osize os' = omega arith in
      rw (z, skip v (omega arith) b (omega arith))
        (add v (ffwd (wire_sz v) b) _ (m_rest-ffwd (wire_sz v) b) (m_off-ffwd (wire_sz v) b) (
          olds_lem vs n' tail os' (ffwd (wire_sz v) b) unseen more p rs (omega arith)
            (omega (arith, neg_part-ffwd (wire_sz v) b))
            (ap (λ us. us ++ unseen) (m_rest-ffwd (wire_sz v) b) ∙ h)))
    where
      add :
          (u : Kdb) (b' : ReadBuf) (l : ListOut)
          → b'.m_rest ≡ b.m_rest
          → b'.m_off ≡ b.m_off
          → OnList (Reads (AreParts vs) (dones vs) n' tail b' unseen more) l
          → OnList
              (Reads (AreParts (cons u vs)) (dones (cons u vs)) (wire_sz u + n') tail b unseen more)
              (before (done u) l)
      add u b' (list_out rr os'' b'') e d x = Reads-from e d (
          Reads-map (λ xs. ocons (done u) xs)
            (λ k rest xs q.
              let s : wire_sz u + n' + k ≡ wire_sz u + (n' + k) = omega arith in rw s (more_of q))
            x)

  -- The loops behind a header of `k` bytes.
  pub elements_resume :
      (k : ℕ) (vs : Kdbs) (n : ℕ) (tail : List ℕ) (os : Objs) (b : ReadBuf) (unseen more : List ℕ)
      → AreParts vs n tail os
      → AreReadable vs
      → nests vs ≤ fuel
      → neg_part (pass k b).m_csr ≡ n
      → b.m_rest ++ unseen ≡ tail ++ more
      → OnList
          (Reads (AreParts vs) (dones vs) n tail b unseen more)
          (read_elements call (size vs) os (pass k b))
  unfolding read_elements
  elements_resume k vs n tail os b unseen more p r f c h = from_pass _ (
      olds_lem vs n tail os (pass k b) unseen more p r f c
        (ap (λ us. us ++ unseen) (m_rest-pass k b) ∙ h))
    where
      from_pass :
          (l : ListOut)
          → OnList (Reads (AreParts vs) (dones vs) n tail (pass k b) unseen more) l
          → OnList (Reads (AreParts vs) (dones vs) n tail b unseen more) l
      from_pass (list_out rr os' b') x = Reads-from (m_rest-pass k b) (m_off-pass k b) x
