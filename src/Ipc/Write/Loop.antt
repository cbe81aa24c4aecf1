-- ===== src/Ipc/Write/Loop.antt =====
-- A client that calls KdbIpcMessageWriter::write until it answers WR_OK.
use mgkdb.Prelude.{
  ℕ, ◌+◌, ◌-◌, ◌==◌, ◌⊎◌, if◌then◌else◌, ◌≤◌, ◌<◌, ◌≡◌, refl, sym, ap, ◌∙◌, List, [], ◌∷◌, ◌++◌,
  append-nil, append_assoc, length, length-append, arith, All, drop, drop-append_length,
}
use mgkdb.Ipc.Types.{WriteResult, wr_ok, wr_incomplete}
use mgkdb.Ipc.Object.{Kdb}
use mgkdb.Ipc.Write.Chunks.{longest}
use mgkdb.Ipc.Write.Message.{KdbIpcMessageWriter, ipc_message_len, init, write_message}
use mgkdb.Ipc.Write.Sending.{
  IsSending, Progress, message, msg_chunks, length-message', write_message_lem, init-IsSending,
}

-- The bytes of the calls, one call for each capacity, up to the first that answers WR_OK.
unfoldable pub send : KdbIpcMessageWriter → List ℕ → List ℕ
send w [] = []
send w (cap ∷ caps) =
    let (r, w', out) = write_message w cap in
    elim r [ wr_ok ↦ out | wr_incomplete ↦ out ++ send w' caps ]

suffix_unique : (p q p' q' : List ℕ) → p ++ q ≡ p' ++ q' → length p ≡ length p' → q ≡ q'
suffix_unique p q p' q' e n =
    sym (drop-append_length p q)
    ∙ ap (drop (length p)) e
    ∙ ap (λ k. drop k (p' ++ q')) n
    ∙ drop-append_length p' q'

no_bytes : (xs : List ℕ) → length xs ≡ 0 → xs ≡ []
no_bytes [] h = refl
no_bytes (x ∷ xs) h = absurd (omega arith)

finished : {n : ℕ} → wr_ok ≡ (if n == 0 then wr_ok else wr_incomplete) → n ≡ 0
finished e = ground arith

moves : {cap n most : ℕ} → (wr_incomplete ≡ wr_ok) ⊎ (cap < n + most) → most ≤ cap → 0 < n
moves f h = ground arith

-- What is still to be sent.
record Rest (w : KdbIpcMessageWriter) (bytes : List ℕ) : Type 0 where
  before : List ℕ
  pieces : before ++ bytes ≡ message w
  sent : length before ≡ w.m_ipc_len - w.m_byt_rem

Rest-done :
    (w : KdbIpcMessageWriter) (cap : ℕ) (w' : KdbIpcMessageWriter) (out : List ℕ)
    → Progress w cap (wr_ok, w', out)
    → Rest w out
Rest-done w cap w' out p = record {
  before = p.before;
  pieces =
      let e : p.after ≡ [] = no_bytes p.after (sym p.left_after ∙ finished p.status) in
      rw (e, append-nil) at p.pieces;
  sent = p.sent_before;
}

message-same :
    (w w' : KdbIpcMessageWriter)
    → (w'.m_root ≡ w.m_root) × (w'.m_msg_typ ≡ w.m_msg_typ) × (w'.m_ipc_len ≡ w.m_ipc_len)
    → message w' ≡ message w
message-same w w' (a, b, c) = rw (a, b, c)

longest-same :
    (w w' : KdbIpcMessageWriter)
    → (w'.m_root ≡ w.m_root) × (w'.m_msg_typ ≡ w.m_msg_typ) × (w'.m_ipc_len ≡ w.m_ipc_len)
    → longest (msg_chunks w') ≡ longest (msg_chunks w)
longest-same w w' (a, b, c) = rw a

Rest-more :
    (w : KdbIpcMessageWriter) (cap : ℕ) (w' : KdbIpcMessageWriter) (out more : List ℕ)
    → IsSending w
    → Progress w cap (wr_incomplete, w', out)
    → Rest w' more
    → Rest w (out ++ more)
Rest-more w cap w' out more s p r = record {
  before = p.before;
  pieces =
      let same : (p.before ++ out) ++ p.after ≡ message w =
        append_assoc p.before out p.after ∙ p.pieces in
      let len : length (p.before ++ out) ≡ length r.before = omega (
        arith,
        length-append p.before out,
        length-append p.before (out ++ p.after),
        length-append out p.after,
        ap (length {0}) p.pieces,
        length-message' w s,
        p.left_after,
        r.sent,
        p.same_message.2,
      ) in
      let e : p.after ≡ more =
        suffix_unique (p.before ++ out) p.after r.before more
          (same ∙ sym (r.pieces ∙ message-same w w' p.same_message)) len in
      rw e at p.pieces;
  sent = p.sent_before;
}

send-Rest :
    (caps : List ℕ) (w : KdbIpcMessageWriter)
    → IsSending w
    → All (λ c. longest (msg_chunks w) ≤ c) caps
    → w.m_byt_rem ≤ length caps
    → Rest w (send w caps)
unfolding send
send-Rest [] w s big enough = record {
  before = message w;
  pieces = append-nil (message w);
  sent = omega (arith, length-message' w s);
}
send-Rest (cap ∷ caps) w s (big, bigs) enough =
    go (write_message w cap) (write_message_lem w cap s) (λ w'. send-Rest caps w')
  where
    All-same :
        (w' : KdbIpcMessageWriter) (cs : List ℕ)
        → longest (msg_chunks w') ≡ longest (msg_chunks w)
        → All (λ c. longest (msg_chunks w) ≤ c) cs
        → All (λ c. longest (msg_chunks w') ≤ c) cs
    All-same w' [] e a = tt
    All-same w' (c ∷ cs) e (h, a) = (omega (arith, e), All-same w' cs e a)

    go :
        (r : WriteResult × KdbIpcMessageWriter × List ℕ)
        → Progress w cap r
        → ((w' : KdbIpcMessageWriter)
            → IsSending w'
            → All (λ c. longest (msg_chunks w') ≤ c) caps
            → w'.m_byt_rem ≤ length caps
            → Rest w' (send w' caps))
        → Rest w (elim r.0 [ wr_ok ↦ r.2 | wr_incomplete ↦ r.2 ++ send r.1 caps ])
    go (wr_ok, w', out) p ih = Rest-done w cap w' out p
    go (wr_incomplete, w', out) p ih = Rest-more w cap w' out (send w' caps) s p (
        ih w' p.sending (All-same w' caps (longest-same w w' p.same_message) bigs) (
          omega (
            arith,
            moves p.full big,
            p.left_after,
            p.sent_before,
            s.count,
            length-message' w s,
            ap (length {0}) p.pieces,
            length-append p.before (out ++ p.after),
            length-append out p.after,
          )))

-- Sending a message by calls of `write`, with a buffer of any size that holds the largest chunk
-- for each call and at least as many calls as the message has bytes, puts exactly the message on
-- the wire: the eight bytes of its header and the encoding of the object.
pub send_complete :
    (msg_typ : ℕ) (msg : Kdb) (caps : List ℕ)
    → All (λ c. longest (msg_chunks (init msg_typ msg)) ≤ c) caps
    → ipc_message_len msg ≤ length caps
    → send (init msg_typ msg) caps ≡ message (init msg_typ msg)
send_complete msg_typ msg caps big enough =
    let s = init-IsSending msg_typ msg in
    let r = send-Rest caps (init msg_typ msg) s big (unfold init in enough) in
    at_front r.before r.pieces r.sent
  where
    w : KdbIpcMessageWriter
    w = init msg_typ msg

    at_front :
        (p : List ℕ)
        → p ++ send w caps ≡ message w
        → length p ≡ w.m_ipc_len - w.m_byt_rem
        → send w caps ≡ message w
    at_front [] e n = e
    at_front (x ∷ p) e n = absurd (unfold init in omega arith)
