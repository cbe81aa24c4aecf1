-- ===== src/Ipc/Read/Header.antt =====
-- Calls of `readMsg`, the header included.
use mgkdb.Prelude.{
  ℕ, ◌+◌, ◌-◌, ◌^◌, ◌≤◌, ◌<◌, ◌≡◌, refl, sym, ap, ◌∙◌, true, false, List, [], ◌++◌, append_assoc,
  length, length-append, drop, take, ltb, ◌==◌, lt→ltb, le→ltb_false, if◌then◌else◌, arith,
}
use mgkdb.Prelude.Int.{pos, neg, neg_part}
use mgkdb.Prelude.Bytes.{le_value}
use mgkdb.Ipc.Object.{Kdb}
use mgkdb.Ipc.Write.Encode.{encode}
use mgkdb.Ipc.Write.Message.{init, ipc_message_len}
use mgkdb.Ipc.Write.Sending.{message, msg_hdr}
use mgkdb.Ipc.ReadBuf.{ReadResult, ReadBuf, ffwd, adj}
use mgkdb.Ipc.Read.Obj.{null, full}
use mgkdb.Ipc.Read.Message.{
  ReadMsgResult, KdbIpcMessageReader, Heap, Step, step, read_msg, read_msg_hdr, new_hdr, old_hdr,
  behind_hdr, read_data, header_fields, count_used, extend,
}
use mgkdb.Ipc.Read.Cursor.{neg_part-ffwd, m_rest-ffwd}
use mgkdb.Ipc.Read.Visible.{Seen, all_seen, part_seen, Seen-cases, too_few}
use mgkdb.Ipc.Read.Receive.{Held, no_object, Gets, gets_all, gets_part, data_lem}
use mgkdb.Ipc.Read.Part.{IsReadable, done, nest}

abbrev pub start_buf : List ℕ → ℕ → ReadBuf
start_buf src used = record { m_rest = src; m_off = 0; m_csr = neg used }

-- The reader behind a header.
abbrev opened : ℕ → ℕ → KdbIpcMessageReader → KdbIpcMessageReader
opened typ len r = record r {
  m_msg_typ = typ;
  m_compressed = false;
  m_ipc_len = len;
  m_msg_len = len;
  m_byt_usd = 8;
  m_byt_dez = 0;
}

abbrev opened_buf : List ℕ → ReadBuf
opened_buf rest = record { m_rest = rest; m_off = 8; m_csr = pos 8 }

new_hdr_lem :
    (heap : Heap) (r : KdbIpcMessageReader) (typ len : ℕ) (src rest : List ℕ) (res : ReadMsgResult)
    → typ < 256
    → len < 2 ^ 31
    → src ≡ msg_hdr typ len ++ rest
    → new_hdr heap r (start_buf src 0) res
      ≡ step true (opened typ len r) (opened_buf rest) record res { msg_typ = typ }
unfolding new_hdr header_fields adj
new_hdr_lem heap r typ len src rest res ht hl e =
    let room : ltb (length src) 8 ≡ false = le→ltb_false _ _ (omega (arith, ap (length {0}) e)) in
    let v0 : le_value (take 1 src) ≡ 1 = ap (λ us. le_value (take 1 us)) e in
    let vt : le_value (take 1 (drop 1 src)) ≡ typ =
      ap (λ us. le_value (take 1 (drop 1 us))) e ∙ omega arith in
    let vc : le_value (take 1 (drop 1 (drop 1 src))) ≡ 0 =
      ap (λ us. le_value (take 1 (drop 1 (drop 1 us)))) e in
    let vl : le_value (take 4 (drop 1 (drop 1 (drop 1 (drop 1 src))))) ≡ len =
      ap (λ us. le_value (take 4 (drop 1 (drop 1 (drop 1 (drop 1 us)))))) e ∙ omega arith in
    let vr : drop 4 (drop 1 (drop 1 (drop 1 (drop 1 src)))) ≡ rest =
      ap (λ us. drop 4 (drop 1 (drop 1 (drop 1 (drop 1 us))))) e in
    let small : extend len ≡ len = ground arith in
    rw (room, v0, vt, vc, vl, vr, lt→ltb len (2 ^ 31) hl)

-- The reader in the middle of the message of type `typ` for `v`: the bytes that are still to come.
pub data IsReceiving (typ : ℕ) (v : Kdb) (r : KdbIpcMessageReader) : List ℕ → Type 0 where
  before_header :
      r.m_ipc_len ≡ 0
      → r.m_byt_usd ≡ 0
      → r.m_msg ≡ null
      → IsReceiving typ v r (message (init typ v))
  behind_header :
      {n : ℕ} {rest : List ℕ}
      → 0 < r.m_ipc_len
      → r.m_compressed ≡ false
      → r.m_byt_usd ≡ 8 + n
      → Held v r.m_msg n rest
      → IsReceiving typ v r rest

-- What a call of `readMsg` on the bytes `src` may do where `tail` is still to come: it delivers all of
-- the value, or it asks for more bytes, because `src` ends within `tail`.
pub data Receives (typ : ℕ) (v : Kdb) (r : KdbIpcMessageReader) (tail src : List ℕ) (s : Step)
    : Type 0 where
  delivered :
      s.complete ≡ true
      → s.res.result ≡ ReadResult.rd_ok
      → s.res.message ≡ full (done v)
      → s.reader.m_byt_usd ≡ r.m_byt_usd + length tail
      → length tail ≤ length src
      → Receives typ v r tail src s
  awaiting :
      (front rest : List ℕ)
      → s.complete ≡ false
      → s.res.result ≡ ReadResult.rd_incomplete
      → tail ≡ front ++ rest
      → s.reader.m_byt_usd ≡ r.m_byt_usd + length front
      → length src < length tail
      → length front ≤ length src
      → IsReceiving typ v s.reader rest
      → Receives typ v r tail src s

-- Behind the header the bytes of the data are counted.
count_lem :
    (typ : ℕ) (v : Kdb) (r : KdbIpcMessageReader) (n k : ℕ) (tail : List ℕ) (b : ReadBuf) (s : Step)
    → 0 < r.m_ipc_len
    → r.m_compressed ≡ false
    → r.m_byt_usd ≡ 8 + n
    → Gets v r n tail b s
    → Receives typ v r tail b.m_rest (count_used b.m_off s)
count_lem typ v r n k tail b s pos_len nc used (gets_all y z w o l u) =
    delivered y z w (omega arith) l
count_lem typ v r n k tail b s pos_len nc used (gets_part front rest y z e o l f q (u1, u2, u3)) =
    awaiting front rest y z e (omega arith) l f
      (behind_header (omega arith) (u2 ∙ nc) (omega arith) q)

pub from_header :
    (fuel : ℕ) (r : KdbIpcMessageReader) (b : ReadBuf) (res : ReadMsgResult)
    → behind_hdr fuel (step true r b res) ≡ count_used b.m_off (read_data fuel r b res)
unfolding behind_hdr
from_header fuel r b res = refl

pub read_old :
    (heap : Heap) (fuel : ℕ) (r : KdbIpcMessageReader) (src : List ℕ) (res : ReadMsgResult)
    → 0 < r.m_ipc_len
    → r.m_compressed ≡ false
    → read_msg heap fuel r src res
      ≡ behind_hdr fuel (step true r (ffwd 8 (start_buf src r.m_byt_usd)) res)
unfolding read_msg read_msg_hdr old_hdr
read_old heap fuel r src res pos_len nc =
    let old : (r.m_ipc_len == 0) ≡ false = ground arith in
    let b : ReadBuf = start_buf src r.m_byt_usd in
    ap (λ q. behind_hdr fuel (if q then new_hdr heap r b res else old_hdr r b res)) old
    ∙ ap (λ q. behind_hdr fuel (step true r (if q then ffwd 4 (ffwd 8 b) else ffwd 8 b) res)) nc

read_new :
    (heap : Heap) (fuel : ℕ) (r : KdbIpcMessageReader) (src : List ℕ) (res : ReadMsgResult)
    → r.m_ipc_len ≡ 0
    → r.m_byt_usd ≡ 0
    → read_msg heap fuel r src res ≡ behind_hdr fuel (new_hdr heap r (start_buf src 0) res)
unfolding read_msg read_msg_hdr
read_new heap fuel r src res no_len none_used =
    let new : (r.m_ipc_len == 0) ≡ true = ground arith in
    ap
      (λ q. behind_hdr fuel (
        if q
        then new_hdr heap r (start_buf src r.m_byt_usd) res
        else old_hdr r (start_buf src r.m_byt_usd) res))
      new
    ∙ ap (λ k. behind_hdr fuel (new_hdr heap r (start_buf src k) res)) none_used

module _ (heap : Heap) (fuel : ℕ) (typ : ℕ) (v : Kdb) (readable : IsReadable v)
    (enough : nest v ≤ fuel) (ht : typ < 256) (hl : ipc_message_len v < 2 ^ 31) where
  later_call :
      (r : KdbIpcMessageReader) (n : ℕ) (tail src unseen more : List ℕ) (res : ReadMsgResult)
      → 0 < r.m_ipc_len
      → r.m_compressed ≡ false
      → r.m_byt_usd ≡ 8 + n
      → Held v r.m_msg n tail
      → src ++ unseen ≡ tail ++ more
      → Receives typ v r tail src (read_msg heap fuel r src res)
  unfolding ffwd
  later_call r n tail src unseen more res pos_len nc used q h =
      let b : ReadBuf = ffwd 8 (start_buf src r.m_byt_usd) in
      let c : neg_part b.m_csr ≡ n =
        neg_part-ffwd 8 (start_buf src r.m_byt_usd) ∙ csr r.m_byt_usd used in
      let e : b.m_rest ≡ src = m_rest-ffwd 8 (start_buf src r.m_byt_usd) in
      rw
        (
          read_old heap fuel r src res pos_len nc,
          from_header fuel r (ffwd 8 (start_buf src r.m_byt_usd)) res,
        )
        (rw e at (
          count_lem typ v r n 0 tail b (read_data fuel r b res) pos_len nc used (
            data_lem v readable fuel enough r res n tail b unseen more nc q c
              (ap (λ us. us ++ unseen) e ∙ h))))
    where
      csr : (k : ℕ) → k ≡ 8 + n → neg_part (neg k) - 8 ≡ n
      csr k u = ground arith

  -- In a message that is not compressed, as the writer sends it, a call of `readMsg` before the header
  -- or anywhere behind it, with bytes of which as many as one likes may be missing: either the whole
  -- value is delivered, or RD_INCOMPLETE is and the reader stands further on in the same message.
  pub read_msg_lem :
      (r : KdbIpcMessageReader) (tail src unseen more : List ℕ) (res : ReadMsgResult)
      → IsReceiving typ v r tail
      → src ++ unseen ≡ tail ++ more
      → Receives typ v r tail src (read_msg heap fuel r src res)
  read_msg_lem r tail src unseen more res (behind_header pos_len nc used q) h =
      later_call r _ tail src unseen more res pos_len nc used q h
  read_msg_lem r tail src unseen more res (before_header no_len none_used no_msg) h =
      rw (read_new heap fuel r src res no_len none_used) (
        by (
          Seen-cases src unseen (msg_hdr typ len) (encode v ++ more)
            (h ∙ at_message ∙ append_assoc (msg_hdr typ len) (encode v) more)))
    where
      len : ℕ
      len = ipc_message_len v

      at_message : message (init typ v) ++ more ≡ (msg_hdr typ len ++ encode v) ++ more
      at_message = unfold init in refl

      by :
          Seen src unseen (msg_hdr typ len) (encode v ++ more)
          → Receives typ v r
              (message (init typ v))
              src
              (behind_hdr fuel (new_hdr heap r (start_buf src 0) res))
      by (part_seen x missing e) =
          let few : length src < 8 = too_few src (msg_hdr typ len) x missing e in
          let short_of : length src < length (message (init typ v)) =
            unfold init in omega (arith, length-append (msg_hdr typ len) (encode v)) in
          unfold new_hdr behind_hdr in
          rw (lt→ltb (length src) 8 few) (
            awaiting [] (message (init typ v)) refl refl refl (omega arith) short_of (omega arith)
              (before_header no_len none_used no_msg))
      by (all_seen rest e m) =
          rw
            (
              new_hdr_lem heap r typ len src rest res ht hl e,
              from_header fuel (opened typ len r) (opened_buf rest) record res { msg_typ = typ },
            )
            (opened_call rest e _ (
              data_lem v readable fuel enough (opened typ len r) record res { msg_typ = typ } 0
                (encode v) (opened_buf rest) unseen more refl (no_object no_msg) refl m))
        where
          at_front : message (init typ v) ≡ msg_hdr typ len ++ encode v
          at_front = unfold init in refl

          whole_len : length (message (init typ v)) ≡ 8 + length (encode v)
          whole_len = ap (length {0}) at_front ∙ length-append (msg_hdr typ len) (encode v)

          len_pos : 0 < len
          len_pos = unfold ipc_message_len in omega arith

          src_len :
              (rest' : List ℕ) → src ≡ msg_hdr typ len ++ rest' → length src ≡ 8 + length rest'
          src_len rest' e' = ap (length {0}) e' ∙ length-append (msg_hdr typ len) rest'

          opened_call :
              (rest' : List ℕ)
              → src ≡ msg_hdr typ len ++ rest'
              → (s : Step) → Gets v (opened typ len r) 0 (encode v) (opened_buf rest') s
              → Receives typ v r (message (init typ v)) src (count_used 8 s)
          opened_call rest' e' s (gets_all y z w o l u) =
              delivered y z w (omega (arith, whole_len))
                (omega (arith, whole_len, src_len rest' e'))
          opened_call rest' e' s (gets_part front rest'' y z e'' o l f q (u1, u2, u3)) =
              awaiting (msg_hdr typ len ++ front) rest'' y z
                (at_front
                  ∙ ap (λ us. msg_hdr typ len ++ us) e''
                  ∙ sym (append_assoc (msg_hdr typ len) front rest''))
                (omega (arith, length-append (msg_hdr typ len) front))
                (omega (arith, whole_len, src_len rest' e'))
                (omega (arith, length-append (msg_hdr typ len) front, src_len rest' e'))
                (behind_header (omega (arith, u1, len_pos)) u2 (omega arith) q)
