-- ===== src/Ipc/Read/Unknown.antt =====
-- A type byte that `newInstance` has no case for.
use mgkdb.Prelude.{
  ℕ, ◌-◌, ◌<◌, ◌≡◌, ap, ◌∙◌, none, true, false, List, [], ◌∷◌, length, take, leb, arith,
}
use mgkdb.Prelude.Int.{neg_part}
use mgkdb.Prelude.Bytes.{le_value}
use mgkdb.Ipc.ReadBuf.{ReadResult, ReadBuf, ffwd}
use mgkdb.Ipc.Read.Obj.{null}
use mgkdb.Ipc.Read.New.{failed, label, known, new_instance}
use mgkdb.Ipc.Read.Message.{
  ReadMsgResult, KdbIpcMessageReader, Heap, step, read_msg, read_data, data_made, data_of,
  count_used, count_data, with_result,
}
use mgkdb.Ipc.Read.Cursor.{at_zero, neg_part-ffwd, m_rest-ffwd}
use mgkdb.Ipc.Read.Receive.{not_compressed, by_slot}
use mgkdb.Ipc.Read.Header.{start_buf, read_old, from_header}

unknown_type :
    (b : ReadBuf) (x : ℕ) (rest : List ℕ)
    → neg_part b.m_csr ≡ 0
    → b.m_rest ≡ x ∷ rest
    → label known x ≡ none
    → new_instance b ≡ failed ReadResult.rd_err_logic b
unfolding new_instance
unknown_type b x rest c e l =
    let room : leb 1 (length b.m_rest) ≡ true = ground (arith, ap (length {0}) e) in
    let v : le_value (take 1 b.m_rest) ≡ x = ap (λ us. le_value (take 1 us)) e ∙ omega arith in
    rw (at_zero b c, room, v, l)

-- Behind the header of a message that is not compressed, in front of its type byte.
pub record IsBeforeType (r : KdbIpcMessageReader) : Type 0 where
  pub pos_len : 0 < r.m_ipc_len
  pub plain : r.m_compressed ≡ false
  pub used : r.m_byt_usd ≡ 8
  pub none_made : r.m_msg ≡ null

one_call :
    (heap : Heap) (fuel : ℕ) (r : KdbIpcMessageReader) (x : ℕ) (rest : List ℕ) (res : ReadMsgResult)
    → IsBeforeType r
    → label known x ≡ none
    → let s = read_msg heap fuel r (x ∷ rest) res in
      (s.complete ≡ false) × (s.res.result ≡ ReadResult.rd_incomplete) × IsBeforeType s.reader
one_call heap fuel r x rest res i l =
    let b : ReadBuf = ffwd 8 (start_buf (x ∷ rest) r.m_byt_usd) in
    let c : neg_part b.m_csr ≡ 0 =
      neg_part-ffwd 8 (start_buf (x ∷ rest) r.m_byt_usd)
      ∙ ap (λ k. neg_part (start_buf (x ∷ rest) k).m_csr - 8) i.used in
    let e : b.m_rest ≡ x ∷ rest = m_rest-ffwd 8 (start_buf (x ∷ rest) r.m_byt_usd) in
    let m : data_of fuel r b res null ≡ step false r b (with_result ReadResult.rd_incomplete res) =
      unfold data_of data_made in ap (data_made fuel r res) (unknown_type b x rest c e l) in
    let d : read_data fuel r b res
        ≡ count_data b.m_off (step false r b (with_result ReadResult.rd_incomplete res)) =
      not_compressed fuel r res b i.plain
      ∙ ap (count_data b.m_off) (by_slot fuel r res b null i.none_made ∙ m) in
    let s : read_msg heap fuel r (x ∷ rest) res
        ≡ count_used b.m_off
            (count_data b.m_off (step false r b (with_result ReadResult.rd_incomplete res))) =
      read_old heap fuel r (x ∷ rest) res i.pos_len i.plain
      ∙ from_header fuel r b res
      ∙ ap (count_used b.m_off) d in
    (
      ap (λ t. t.complete) s,
      ap (λ t. t.res.result) s,
      record {
        pos_len = omega (arith, i.pos_len, ap (λ t. t.reader.m_ipc_len) s);
        plain = ap (λ t. t.reader.m_compressed) s ∙ i.plain;
        used = ap (λ t. t.reader.m_byt_usd) s ∙ omega (arith, i.used);
        none_made = ap (λ t. t.reader.m_msg) s ∙ i.none_made;
      },
    )

-- What the calls answer that are made one after the other, each with its bytes from the type byte `x` on
-- and with its result to fill: RD_INCOMPLETE, and the call is not complete.
unfoldable pub AsksOn : Heap → ℕ → KdbIpcMessageReader → ℕ → List (List ℕ × ReadMsgResult) → Type 0
AsksOn heap fuel r x [] = Unit
AsksOn heap fuel r x ((rest, res) ∷ calls) =
    let s = read_msg heap fuel r (x ∷ rest) res in
    (s.complete ≡ false)
    × (s.res.result ≡ ReadResult.rd_incomplete)
    × (s.reader.m_byt_usd ≡ 8)
    × AsksOn heap fuel s.reader x calls

-- Behind the header of a message that is not compressed, a type byte without a case in `newInstance`
-- (a datetime is one) is answered with RD_INCOMPLETE and not with an error by every call of a row
-- of calls of any length, whatever bytes follow it, and no call uses a byte: each meets the same
-- byte again.
pub read_msg-unknown :
    (heap : Heap) (fuel : ℕ) (r : KdbIpcMessageReader) (x : ℕ)
    (calls : List (List ℕ × ReadMsgResult))
    → IsBeforeType r
    → label known x ≡ none
    → AsksOn heap fuel r x calls
unfolding AsksOn
read_msg-unknown heap fuel r x [] i l = tt
read_msg-unknown heap fuel r x ((rest, res) ∷ calls) i l =
    let s = read_msg heap fuel r (x ∷ rest) res in
    let one = one_call heap fuel r x rest res i l in
    (one.0, one.1, one.2.used, read_msg-unknown heap fuel s.reader x calls one.2 l)
