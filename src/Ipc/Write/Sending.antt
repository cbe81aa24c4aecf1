-- ===== src/Ipc/Write/Sending.antt =====
-- One call of KdbIpcMessageWriter::write, with a buffer of any size.
use mgkdb.Prelude.{
  ℕ, ◌+◌, ◌-◌, ◌==◌, ◌≤◌, ◌<◌, ◌≡◌, ◌⊎◌, inl, inr, refl, ap, ◌∙◌, true, List, [], ◌∷◌, ◌++◌, length,
  length-append, concat, arith, if◌then◌else◌, Bool-cases,
}
use mgkdb.Prelude.Int.{pos, neg, neg_part, is_nonneg}
use mgkdb.Prelude.Bytes.{le_bytes}
use mgkdb.Ipc.Types.{WriteResult, wr_ok, wr_incomplete}
use mgkdb.Ipc.WriteBuf.{WriteBuf, remaining, cursor_active, put, advance}
use mgkdb.Ipc.Object.{Kdb}
use mgkdb.Ipc.Write.{and_then, write}
use mgkdb.Ipc.Write.Chunks.{write_chunk, write_chunks, IsCut, IsCut-zero, longest, put-put}
use mgkdb.Ipc.Write.Sent.{Sent, write_chunks_lem}
use mgkdb.Ipc.Write.Encode.{chunks, encode}
use mgkdb.Ipc.Write.Headers.{fits_cases, room_after, value_fits, three_fit, write_chunks-one}
use mgkdb.Ipc.Write.Refine.{IsCut-append_left, IsCut-after, write_refines}
use mgkdb.Ipc.Write.Size.{wire_sz-eq-length-encode}
use mgkdb.Ipc.Write.Message.{
  KdbIpcMessageWriter, ipc_message_len, init, write_msg_hdr, less_cursor, write_message,
}

-- The eight bytes in front of every message.
abbrev pub msg_hdr : ℕ → ℕ → List ℕ
msg_hdr msg_typ len =
    le_bytes 1 1 ++ (le_bytes 1 msg_typ ++ (le_bytes 1 0 ++ (le_bytes 1 0 ++ le_bytes 4 len)))

abbrev pub msg_chunks : KdbIpcMessageWriter → List (List ℕ)
msg_chunks w = msg_hdr w.m_msg_typ w.m_ipc_len ∷ chunks w.m_root

-- The whole message.
abbrev pub message : KdbIpcMessageWriter → List ℕ
message w = msg_hdr w.m_msg_typ w.m_ipc_len ++ encode w.m_root

-- The writer counts right, and stands at the end of a chunk.
pub record IsSending (w : KdbIpcMessageWriter) : Type 0 where
  pub whole_len : w.m_ipc_len ≡ ipc_message_len w.m_root
  pub count : w.m_byt_rem ≤ w.m_ipc_len
  pub at_cut : IsCut (msg_chunks w) (w.m_ipc_len - w.m_byt_rem)

write_msg_hdr-Refines :
    (msg_typ len : ℕ) (b : WriteBuf)
    → write_msg_hdr msg_typ len b ≡ write_chunk (msg_hdr msg_typ len) b
unfolding write_msg_hdr write_chunk
write_msg_hdr-Refines msg_typ len b = elim (Bool-cases (cursor_active b)) [
  | inr idle ↦ rw idle
  | inl act ↦ elim (fits_cases b 8 (omega arith)) [
    | inl (can, small, room) ↦
        let one' : List ℕ = le_bytes 1 1 in
        let typ : List ℕ = le_bytes 1 msg_typ in
        let b2 = put typ (put one' b) in
        let r : 6 ≤ remaining b2 =
          room_after typ (put one' b) 6 (room_after one' b 7 (omega arith)) in
        rw (
          act,
          can,
          small,
          value_fits 1 1 b (omega arith),
          value_fits 1 msg_typ (put one' b) (room_after one' b 1 (omega arith)),
          three_fit 0 0 4 len b2 r,
          put-put,
          put-put,
        )
    | inr (can, small) ↦ rw (act, can, small)
  ]
]

start : KdbIpcMessageWriter → ℕ → WriteBuf
start w cap = record { m_dst = []; m_cap = cap; m_csr = neg (w.m_ipc_len - w.m_byt_rem) }

neg_part-neg : (n : ℕ) → neg_part (neg n) ≡ n
neg_part-neg n = ground arith

-- A header chunk that does not fit leaves the buffer, whose cursor is active.
write_chunk-incomplete :
    (c : List ℕ) (b : WriteBuf)
    → (write_chunk c b).0 ≡ wr_incomplete
    → ((write_chunk c b).1 ≡ b) × (cursor_active b ≡ true)
unfolding write_chunk
write_chunk-incomplete c b h = ground arith

module _ (w : KdbIpcMessageWriter) (cap : ℕ) (s : IsSending w) where
  -- The rest of the call, from what the header gave.
  after_hdr : WriteResult × WriteBuf → WriteResult × KdbIpcMessageWriter × List ℕ
  after_hdr h = elim h.0 [
    | wr_incomplete ↦ (wr_incomplete, w, h.1.m_dst)
    | wr_ok ↦
        let r = write w.m_root h.1 in
        (r.0, record w { m_byt_rem = less_cursor w.m_byt_rem r.1.m_csr }, r.1.m_dst)
  ]

  pub counted : WriteResult × WriteBuf → WriteResult × KdbIpcMessageWriter × List ℕ
  counted r = (r.0, record w { m_byt_rem = less_cursor w.m_byt_rem r.1.m_csr }, r.1.m_dst)

  after_hdr-counted :
      (h : WriteResult × WriteBuf)
      → (h.0 ≡ wr_ok → IsCut (chunks w.m_root) (neg_part h.1.m_csr))
      → (h.0 ≡ wr_incomplete → less_cursor w.m_byt_rem h.1.m_csr ≡ w.m_byt_rem)
      → after_hdr h ≡ counted (and_then h (λ b. write_chunks (chunks w.m_root) b))
  unfolding after_hdr counted
  after_hdr-counted (wr_ok, b) f g = rw (write_refines w.m_root b (f refl))
  after_hdr-counted (wr_incomplete, b) f g = rw (g refl)

  -- A call does what the specification does with the message's chunks.
  write_message-chunks : write_message w cap ≡ counted (write_chunks (msg_chunks w) (start w cap))
  unfolding write_message start write_chunks after_hdr
  write_message-chunks =
      ap after_hdr (write_msg_hdr-Refines w.m_msg_typ w.m_ipc_len (start w cap))
      ∙ after_hdr-counted (write_chunk c (start w cap)) ok_cut same
    where
      c : List ℕ
      c = msg_hdr w.m_msg_typ w.m_ipc_len

      k : ℕ
      k = w.m_ipc_len - w.m_byt_rem

      cut : IsCut ((c ∷ []) ++ chunks w.m_root) (neg_part (neg k))
      cut = rw (neg_part-neg k) s.at_cut

      sent : Sent (c ∷ []) (start w cap) (neg_part (neg k)) (write_chunk c (start w cap))
      sent = rw (write_chunks-one c (start w cap)) at (
          write_chunks_lem (c ∷ []) (start w cap) _ refl
            (IsCut-append_left (c ∷ []) (chunks w.m_root) _ cut))

      ok_cut :
          (write_chunk c (start w cap)).0 ≡ wr_ok
          → IsCut (chunks w.m_root) (neg_part (write_chunk c (start w cap)).1.m_csr)
      ok_cut e = IsCut-after (c ∷ []) (chunks w.m_root) (start w cap) _ cut sent e

      no_skip : (n : ℕ) → is_nonneg (neg n) ≡ true → less_cursor w.m_byt_rem (neg n) ≡ w.m_byt_rem
      no_skip n act = ground arith

      same :
          (write_chunk c (start w cap)).0 ≡ wr_incomplete
          → less_cursor w.m_byt_rem (write_chunk c (start w cap)).1.m_csr ≡ w.m_byt_rem
      same e =
          let (at_start, act) = write_chunk-incomplete c (start w cap) e in
          ap (λ (b : WriteBuf). less_cursor w.m_byt_rem b.m_csr) at_start ∙ no_skip k act

-- What a call of `write` with room for `cap` bytes has done.
pub record Progress (w : KdbIpcMessageWriter) (cap : ℕ)
    (r : WriteResult × KdbIpcMessageWriter × List ℕ) : Type 0 where
  pub before : List ℕ
  pub after : List ℕ
  pub pieces : before ++ (r.2 ++ after) ≡ message w
  pub sent_before : length before ≡ w.m_ipc_len - w.m_byt_rem
  pub left_after : r.1.m_byt_rem ≡ length after
  pub in_bounds : length r.2 ≤ cap
  pub status : r.0 ≡ (if r.1.m_byt_rem == 0 then wr_ok else wr_incomplete)
  pub full : (r.0 ≡ wr_ok) ⊎ (cap < length r.2 + longest (msg_chunks w))
  pub same_message :
      (r.1.m_root ≡ w.m_root) × (r.1.m_msg_typ ≡ w.m_msg_typ) × (r.1.m_ipc_len ≡ w.m_ipc_len)
  pub sending : IsSending r.1

cursor_after : (k m : ℕ) → advance (neg k) (k + m) ≡ pos m
cursor_after k m = ground arith

length-message :
    (w : KdbIpcMessageWriter) → IsSending w → length (concat (msg_chunks w)) ≡ w.m_ipc_len
unfolding ipc_message_len encode
length-message w s = omega (
  arith,
  s.whole_len,
  wire_sz-eq-length-encode w.m_root,
  length-append (msg_hdr w.m_msg_typ w.m_ipc_len) (concat (chunks w.m_root)),
)

pub length-message' : (w : KdbIpcMessageWriter) → IsSending w → length (message w) ≡ w.m_ipc_len
unfolding encode
length-message' w s = length-message w s

status_of :
    (r : WriteResult) {n left : ℕ}
    → n ≡ left
    → (r ≡ wr_ok → left ≡ 0)
    → (r ≡ wr_incomplete → 0 < left)
    → r ≡ (if n == 0 then wr_ok else wr_incomplete)
status_of wr_ok e f g = let z = f refl in ground arith
status_of wr_incomplete e f g = let z = g refl in ground arith

full_of : (r : WriteResult) {n len : ℕ} → (r ≡ wr_incomplete → n < len) → (r ≡ wr_ok) ⊎ (n < len)
full_of wr_ok f = inl refl
full_of wr_incomplete f = inr (f refl)

Progress-of_Sent :
    (w : KdbIpcMessageWriter) (cap : ℕ) (s : IsSending w) (r : WriteResult × WriteBuf)
    → Sent (msg_chunks w) (start w cap) (w.m_ipc_len - w.m_byt_rem) r
    → Progress w cap (counted w cap s r)
unfolding counted start encode
Progress-of_Sent w cap s r t =
    let total = length-message w s in
    let before : length t.skipped ≡ w.m_ipc_len - w.m_byt_rem = omega (arith, t.skip_len, total) in
    let parts : length t.skipped + (length t.out + length t.left) ≡ w.m_ipc_len = omega (
      arith,
      ap (length {0}) t.whole,
      total,
      length-append t.skipped (t.out ++ t.left),
      length-append t.out t.left,
    ) in
    let csr : r.1.m_csr ≡ pos (length t.out) =
      t.csr
      ∙ ap (λ n. advance (neg (w.m_ipc_len - w.m_byt_rem)) (n + length t.out)) before
      ∙ cursor_after (w.m_ipc_len - w.m_byt_rem) (length t.out) in
    let rem : less_cursor w.m_byt_rem r.1.m_csr ≡ length t.left =
      ap (less_cursor w.m_byt_rem) csr ∙ omega (arith, before, parts, s.count) in
    record {
      before = t.skipped;
      after = t.left;
      pieces = rw t.dst t.whole;
      sent_before = before;
      left_after = rem;
      in_bounds = rw t.dst (omega (arith, t.in_bounds (omega arith)));
      status = status_of r.0 rem t.done (λ e. (t.stopped e).0);
      full =
          full_of r.0
            (λ e. rw t.dst (omega (arith, (t.stopped e).1, t.cap, ap (length {0}) t.dst)));
      same_message = (refl, refl, refl);
      sending = record {
        whole_len = s.whole_len;
        count = rw rem (omega (arith, parts));
        at_cut =
            let e : w.m_ipc_len - less_cursor w.m_byt_rem r.1.m_csr
                ≡ length t.skipped + length t.out =
              omega (arith, rem, parts) in
            rw e t.cut;
      };
    }

-- A call of `write`, of a writer that stands at the end of a chunk of its message, with a buffer
-- of any size, puts the bytes of the message that come next at
-- `dst`, within `cap`; `bytesRemaining` is then the number of the bytes that are left, the result
-- is WR_OK if none are left and WR_INCOMPLETE if some are, and a call that does not finish leaves
-- less room than the longest chunk of the message takes. The message is the same, and the next
-- call may follow.
pub write_message_lem :
    (w : KdbIpcMessageWriter) (cap : ℕ) → IsSending w → Progress w cap (write_message w cap)
unfolding start
write_message_lem w cap s = rw (write_message-chunks w cap s) (
    Progress-of_Sent w cap s _ (
      write_chunks_lem (msg_chunks w) (start w cap) (w.m_ipc_len - w.m_byt_rem) (neg_part-neg _)
        s.at_cut))

-- A new writer is at the front of its message.
pub init-IsSending : (msg_typ : ℕ) (msg : Kdb) → IsSending (init msg_typ msg)
unfolding init
init-IsSending msg_typ msg = record {
  whole_len = refl;
  count = omega arith;
  at_cut =
      let z : ipc_message_len msg - ipc_message_len msg ≡ 0 = omega arith in
      rw z (IsCut-zero (msg_hdr msg_typ (ipc_message_len msg) ∷ chunks msg));
}
