-- ===== src/Ipc/Read/RoundTrip.antt =====
-- A client that calls KdbIpcMessageReader::readMsg as bytes arrive, until it has a message.
use mgkdb.Prelude.{
  ℕ, ◌-◌, ◌^◌, ◌≤◌, ◌<◌, ◌≡◌, refl, sym, ap, ◌∙◌, Bool, true, false, List, [], ◌∷◌, ◌++◌,
  append_assoc, append-nil, length, length-append, length-drop, concat, drop, All, arith,
}
use mgkdb.Ipc.Object.{Kdb}
use mgkdb.Ipc.Write.Encode.{encode}
use mgkdb.Ipc.Write.Chunks.{longest}
use mgkdb.Ipc.Write.Message.{init, ipc_message_len}
use mgkdb.Ipc.Write.Sending.{message, msg_hdr, msg_chunks}
use mgkdb.Ipc.Write.Loop.{send, send_complete}
use mgkdb.Ipc.Read.Obj.{Slot, null, full}
use mgkdb.Ipc.Read.Message.{ReadMsgResult, KdbIpcMessageReader, Heap, Step, read_msg, new_reader}
use mgkdb.Ipc.Read.Header.{IsReceiving, before_header, Receives, delivered, awaiting, read_msg_lem}
use mgkdb.Ipc.Read.Visible.{seen_length}
use mgkdb.Ipc.Read.Part.{IsReadable, done, nest}

-- `left` is what no call used of the bytes that are there, and every piece that arrives is put behind
-- it for the next call.
unfoldable pub receive :
    Heap → ℕ → KdbIpcMessageReader → ReadMsgResult → List ℕ → List (List ℕ) → Slot
receive heap fuel r res left [] = null
receive heap fuel r res left (piece ∷ pieces) =
    let s = read_msg heap fuel r (left ++ piece) res in
    elim s.complete [
      | true ↦ s.res.message
      | false ↦
          receive heap fuel s.reader s.res (drop (s.reader.m_byt_usd - r.m_byt_usd) (left ++ piece))
            pieces
    ]

drop_front :
    (front us vs xs : List ℕ)
    → us ++ vs ≡ front ++ xs
    → length front ≤ length us
    → drop (length front) us ++ vs ≡ xs
drop_front [] us vs xs e h = e
drop_front (f ∷ front) [] vs xs e h = absurd (omega arith)
drop_front (f ∷ front) (u ∷ us) vs xs e h = drop_front front us vs xs (ap (drop 1) e) (omega arith)

module _ (heap : Heap) (fuel : ℕ) (typ : ℕ) (v : Kdb) (readable : IsReadable v)
    (enough : nest v ≤ fuel) (ht : typ < 256) (hl : ipc_message_len v < 2 ^ 31) where
  receive_tail :
      (pieces : List (List ℕ)) (r : KdbIpcMessageReader) (res : ReadMsgResult)
      (tail left more : List ℕ)
      → IsReceiving typ v r tail
      → length left < length tail
      → left ++ concat pieces ≡ tail ++ more
      → receive heap fuel r res left pieces ≡ full (done v)
  unfolding receive
  receive_tail [] r res tail left more i few h =
      absurd (omega (arith, seen_length left [] tail more h))
  receive_tail (piece ∷ pieces) r res tail left more i few h =
      by (read_msg heap fuel r (left ++ piece) res)
        (read_msg_lem heap fuel typ v readable enough ht hl r tail (left ++ piece) (concat pieces)
          more res i all)
        (λ s rest left'. receive_tail pieces s.reader s.res rest left' more)
    where
      all : (left ++ piece) ++ concat pieces ≡ tail ++ more
      all = append_assoc left piece (concat pieces) ∙ h

      by :
          (s : Step)
          → Receives typ v r tail (left ++ piece) s
          → ((s' : Step) (rest left' : List ℕ)
              → IsReceiving typ v s'.reader rest
              → length left' < length rest
              → left' ++ concat pieces ≡ rest ++ more
              → receive heap fuel s'.reader s'.res left' pieces ≡ full (done v))
          → elim s.complete [
            | true ↦ s.res.message
            | false ↦
                receive heap fuel s.reader s.res
                  (drop (s.reader.m_byt_usd - r.m_byt_usd) (left ++ piece))
                  pieces
          ]
            ≡ full (done v)
      by s (delivered y z w u l) ih = rw y w
      by s (awaiting front rest y z e u l f i') ih =
          let n : s.reader.m_byt_usd - r.m_byt_usd ≡ length front = omega arith in
          rw (y, n)
            (ih s rest (drop (length front) (left ++ piece)) i'
              (omega (
                arith,
                length-drop (length front) (left ++ piece),
                ap (length {0}) e,
                length-append front rest,
              ))
              (drop_front front (left ++ piece) (concat pieces) (rest ++ more)
                (all ∙ ap (λ us. us ++ more) e ∙ append_assoc front rest more) f))

  -- A message and whatever follows it, received in pieces of any sizes, gives the object that holds
  -- all of the value.
  pub receive_message :
      (msg_typ : ℕ) (compressed : Bool) (res : ReadMsgResult) (pieces : List (List ℕ))
      (more : List ℕ)
      → concat pieces ≡ message (init typ v) ++ more
      → receive heap fuel (new_reader msg_typ compressed) res [] pieces ≡ full (done v)
  receive_message msg_typ compressed res pieces more h =
      receive_tail pieces (new_reader msg_typ compressed) res (message (init typ v)) [] more
        (unfold new_reader in before_header refl refl refl)
        (unfold init in omega (arith, length-append (msg_hdr typ (ipc_message_len v)) (encode v))) h

  -- What the writer sends, by calls with a buffer of any size that holds the largest chunk, the reader
  -- delivers as the value that was written, in however many pieces the bytes arrive.
  pub receive-send :
      (msg_typ : ℕ) (compressed : Bool) (res : ReadMsgResult) (caps : List ℕ)
      (pieces : List (List ℕ))
      → All (λ c. longest (msg_chunks (init typ v)) ≤ c) caps
      → ipc_message_len v ≤ length caps
      → concat pieces ≡ send (init typ v) caps
      → receive heap fuel (new_reader msg_typ compressed) res [] pieces ≡ full (done v)
  receive-send msg_typ compressed res caps pieces big calls h =
      receive_message msg_typ compressed res pieces []
        (h ∙ send_complete typ v caps big calls ∙ sym (append-nil (message (init typ v))))
