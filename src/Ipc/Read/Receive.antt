-- ===== src/Ipc/Read/Receive.antt =====
-- Calls of `readMsg` on the bytes of a message that is not compressed.
use mgkdb.Prelude.{
  ℕ, ◌+◌, ◌≤◌, ◌<◌, ◌≡◌, refl, sym, ap, ◌∙◌, true, false, List, [], ◌++◌, append_assoc, length,
  length-append, if◌then◌else◌, arith,
}
use mgkdb.Prelude.Int.{neg_part}
use mgkdb.Ipc.Object.{Kdb}
use mgkdb.Ipc.Write.Encode.{encode}
use mgkdb.Ipc.Write.Size.{wire_sz-eq-length-encode}
use mgkdb.Ipc.ReadBuf.{ReadResult, ReadBuf}
use mgkdb.Ipc.Read.Obj.{Obj, Slot, null, full}
use mgkdb.Ipc.Read.New.{New, new_instance}
use mgkdb.Ipc.Read.Methods.{Out, out, read}
use mgkdb.Ipc.Read.Message.{
  ReadMsgResult, KdbIpcMessageReader, Step, read_data, read_msg_data, read_msg_data1, inflate_data,
  data_of, data_made, data_read, count_data,
}
use mgkdb.Ipc.Read.Cursor.{neg_part-pass, neg_part-pass_zero}
use mgkdb.Ipc.Read.Visible.{seen_length}
use mgkdb.Ipc.Read.Made.{body, head, fresh, length-head, fresh-IsPart}
use mgkdb.Ipc.Read.Headers.{Starts, started, waiting}
use mgkdb.Ipc.Read.Starts.{encode-split, new_instance_lem}
use mgkdb.Ipc.Read.Total.{part_total}
use mgkdb.Ipc.Read.Elements.{hdr_pos}
use mgkdb.Ipc.Read.Resume.{read-part}
use mgkdb.Ipc.Read.Part.{IsPart, IsReadable, Reads, whole, short, OnOut, done, nest, hdr_sz}

-- What the reader holds of `v` where `n` of its bytes are used and `rest` is still to come.
pub data Held (v : Kdb) (m_msg : Slot) : ℕ → List ℕ → Type 0 where
  no_object : m_msg ≡ null → Held v m_msg 0 (encode v)
  object :
      {n : ℕ} {rest : List ℕ} (o : Obj)
      → m_msg ≡ full o
      → IsPart v n rest o
      → Held v m_msg (hdr_sz v + n) rest

-- What the calls that read the data may do.
pub data Gets (v : Kdb) (r : KdbIpcMessageReader) (n : ℕ) (tail : List ℕ) (b : ReadBuf) (s : Step)
    : Type 0 where
  gets_all :
      s.complete ≡ true
      → s.res.result ≡ ReadResult.rd_ok
      → s.res.message ≡ full (done v)
      → s.buf.m_off ≡ b.m_off + length tail
      → length tail ≤ length b.m_rest
      → s.reader.m_byt_usd ≡ r.m_byt_usd
      → Gets v r n tail b s
  gets_part :
      (front rest : List ℕ)
      → s.complete ≡ false
      → s.res.result ≡ ReadResult.rd_incomplete
      → tail ≡ front ++ rest
      → s.buf.m_off ≡ b.m_off + length front
      → length b.m_rest < length tail
      → length front ≤ length b.m_rest
      → Held v s.reader.m_msg (n + length front) rest
      → (s.reader.m_ipc_len ≡ r.m_ipc_len)
        × (s.reader.m_compressed ≡ r.m_compressed)
        × (s.reader.m_byt_usd ≡ r.m_byt_usd)
      → Gets v r n tail b s

pub not_compressed :
    (fuel : ℕ) (r : KdbIpcMessageReader) (res : ReadMsgResult) (b : ReadBuf)
    → r.m_compressed ≡ false
    → read_data fuel r b res ≡ count_data b.m_off (read_msg_data1 fuel r b res)
unfolding read_data read_msg_data
not_compressed fuel r res b nc =
    ap (λ q. if q then inflate_data fuel r b res r.m_inflater else read_msg_data fuel r b res) nc

pub by_slot :
    (fuel : ℕ) (r : KdbIpcMessageReader) (res : ReadMsgResult) (b : ReadBuf) (s : Slot)
    → r.m_msg ≡ s
    → read_msg_data1 fuel r b res ≡ data_of fuel r b res s
unfolding read_msg_data1
by_slot fuel r res b s e = ap (λ q. data_of fuel r b res q) e

module _ (v : Kdb) (readable : IsReadable v) (fuel : ℕ) (enough : nest v ≤ fuel)
    (r : KdbIpcMessageReader) (res : ReadMsgResult) where
  gets_read :
      (n : ℕ) (tail : List ℕ) (b : ReadBuf) (unseen more : List ℕ) (x : Out)
      → b.m_rest ++ unseen ≡ tail ++ more
      → OnOut (Reads (IsPart v) (done v) n tail b unseen more) x
      → Gets v r (hdr_sz v + n) tail b (data_read r res x)
  unfolding data_read
  gets_read n tail b unseen more (out rr o b') h (whole c m d) =
      gets_all refl refl refl d
        (omega (
          arith,
          seen_length b.m_rest unseen tail more h,
          ap (length {0}) m,
          length-append b'.m_rest unseen,
        ))
        refl
  gets_read n tail b unseen more (out rr o b') h (short front rest e d l f p) =
      gets_part front rest refl refl e d l f
        (let s : hdr_sz v + n + length front ≡ hdr_sz v + (n + length front) = omega arith in
          rw s (object o refl p))
        (refl, refl, refl)

  gets_made :
      (b : ReadBuf) (unseen more : List ℕ) (m : New)
      → r.m_msg ≡ null
      → b.m_rest ++ unseen ≡ encode v ++ more
      → Starts (fresh v) (hdr_sz v) b unseen (body v ++ more) m
      → Gets v r 0 (encode v) b (data_made fuel r res m)
  unfolding data_made
  gets_made b unseen more m e h (waiting few) =
      gets_part [] (encode v) refl refl refl (omega arith)
        (omega (
          arith,
          part_total v 0 (body v) (fresh v) (fresh-IsPart v readable),
          wire_sz-eq-length-encode v,
        ))
        (omega arith) (let z : 0 + 0 ≡ 0 = omega arith in rw z (no_object e)) (refl, refl, refl)
  gets_made b unseen more m e h (started {b' = b'} c h' d) =
      from_body (data_read r res (read fuel (fresh v) b')) (
        gets_read 0 (body v) b' unseen more (read fuel (fresh v) b') h' (
          read-part fuel v enough readable 0 (body v) (fresh v) b' unseen more
            (fresh-IsPart v readable) (neg_part-pass_zero (hdr_sz v) b' c) h'))
    where
      header : length (encode v) ≡ hdr_sz v + length (body v)
      header =
          ap (length {0}) (encode-split v readable)
          ∙ length-append (head v) (body v)
          ∙ ap (λ k. k + length (body v)) (length-head v)

      lens : length b.m_rest + length (body v) ≡ length b'.m_rest + length (encode v)
      lens = omega (
        arith,
        seen_length b.m_rest unseen (encode v) more h,
        seen_length b'.m_rest unseen (body v) more h',
      )

      from_body : (s : Step) → Gets v r (hdr_sz v + 0) (body v) b' s → Gets v r 0 (encode v) b s
      from_body s (gets_all y z w o l u) =
          gets_all y z w (omega (arith, header)) (omega (arith, header, lens)) u
      from_body s (gets_part front rest y z e o l f q fields) =
          gets_part (head v ++ front) rest y z
            (encode-split v readable
              ∙ ap (λ us. head v ++ us) e
              ∙ sym (append_assoc (head v) front rest))
            (omega (arith, length-append (head v) front, length-head v))
            (omega (arith, header, lens))
            (omega (arith, length-append (head v) front, length-head v, lens, header))
            (let k : hdr_sz v + 0 + length front ≡ 0 + length (head v ++ front) =
                omega (arith, length-append (head v) front, length-head v) in
              rw (← k) q)
            fields

  counted :
      (n : ℕ) (tail : List ℕ) (b : ReadBuf) (s : Step)
      → Gets v r n tail b s
      → Gets v r n tail b (count_data b.m_off s)
  counted n tail b s (gets_all y z w o l u) = gets_all y z w o l u
  counted n tail b s (gets_part front rest y z e o l f q fields) =
      gets_part front rest y z e o l f q fields

  -- The data of a message that is not compressed, of which `n` bytes are used.
  pub data_lem :
      (n : ℕ) (tail : List ℕ) (b : ReadBuf) (unseen more : List ℕ)
      → r.m_compressed ≡ false
      → Held v r.m_msg n tail
      → neg_part b.m_csr ≡ n
      → b.m_rest ++ unseen ≡ tail ++ more
      → Gets v r n tail b (read_data fuel r b res)
  data_lem n tail b unseen more nc (no_object e) c h =
      rw (not_compressed fuel r res b nc, by_slot fuel r res b null e)
        (counted 0 (encode v) b _ (
          unfold data_of in
          gets_made b unseen more (new_instance b) e h (
            new_instance_lem v b unseen (body v ++ more) readable c (
              h
              ∙ ap (λ us. us ++ more) (encode-split v readable)
              ∙ append_assoc (head v) (body v) more))))
  data_lem n tail b unseen more nc (object {n = k} o e p) c h =
      rw (not_compressed fuel r res b nc, by_slot fuel r res b (full o) e)
        (counted (hdr_sz v + k) tail b _ (
          unfold data_of in
          gets_read k tail b unseen more (read fuel o b) h (
            read-part fuel v enough readable k tail o b unseen more p
              (neg_part-pass (hdr_sz v) k b (hdr_pos v) c) h)))
