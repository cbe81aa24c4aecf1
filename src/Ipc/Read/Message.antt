-- ===== src/Ipc/Read/Message.antt =====
-- KdbIpcMessageReader (ipc++/src/KdbType.C): a message is received by calls of `readMsg`, each with
-- the bytes that are there and that no earlier call used.
use mgkdb.Prelude.{
  ℕ, ◌+◌, ◌-◌, ◌^◌, Bool, true, false, Option, none, some, List, ltb, ◌==◌, if◌then◌else◌,
}
use mgkdb.Prelude.Int.{ℤ, neg}
use mgkdb.Ipc.Types.{sz_int, sz_msg_hdr}
use mgkdb.Ipc.Payload.{sub64}
use mgkdb.Ipc.ReadBuf.{ReadResult, ReadBuf, remaining, can_read, ffwd, adj, value}
use mgkdb.Ipc.Read.Obj.{Slot, null, full}
use mgkdb.Ipc.Read.New.{New, failed, made, new_instance}
use mgkdb.Ipc.Read.Methods.{Out, out, read}
use mgkdb.Ipc.Read.Inflate.{Inflater, inflater, Round, next, stop, wild, uncompress, get_read_buf}

pub record ReadMsgResult : Type 0 where
  pub result : ReadResult
  pub msg_typ : ℕ
  pub message : Slot

pub record KdbIpcMessageReader : Type 0 where
  pub m_msg_typ : ℕ
  pub m_ipc_len : ℕ
  pub m_msg_len : ℕ
  pub m_byt_usd : ℕ
  pub m_byt_dez : ℕ
  pub m_compressed : Bool
  pub m_msg : Slot
  pub m_inflater : Option Inflater

-- `reset`, which leaves `m_msg_typ` as it is.
unfoldable pub reset : KdbIpcMessageReader → KdbIpcMessageReader
reset r = record r {
  m_ipc_len = 0;
  m_msg_len = 0;
  m_byt_usd = 0;
  m_byt_dez = 0;
  m_compressed = false;
  m_msg = null;
  m_inflater = none;
}

-- A new reader: two members are not set.
unfoldable pub new_reader : ℕ → Bool → KdbIpcMessageReader
new_reader msg_typ compressed = record {
  m_msg_typ = msg_typ;
  m_ipc_len = 0;
  m_msg_len = 0;
  m_byt_usd = 0;
  m_byt_dez = 0;
  m_compressed = compressed;
  m_msg = null;
  m_inflater = none;
}

-- The memory that `new` answers with: whether it has an array of that many bytes, and what such an
-- array and the decompressor's table hold before they are written.
pub record Heap : Type 0 where
  pub has : ℕ → Bool
  pub bytes : ℕ → List ℕ
  pub table : List ℕ

-- What a call returns, and the reader, the buffer and the result behind it.
pub record Step : Type 0 where
  pub complete : Bool
  pub reader : KdbIpcMessageReader
  pub buf : ReadBuf
  pub res : ReadMsgResult

abbrev pub step : Bool → KdbIpcMessageReader → ReadBuf → ReadMsgResult → Step
step c r b res = record { complete = c; reader = r; buf = b; res = res }

abbrev pub with_result : ReadResult → ReadMsgResult → ReadMsgResult
with_result rr res = record res { result = rr }

-- An int32_t, given by its bytes, as a uint64_t.
abbrev pub extend : ℕ → ℕ
extend n = if ltb n (2 ^ 31) then n else n + 2 ^ 64 - 2 ^ 32

-- The first eight bytes, of which five are looked at.
unfoldable pub header_fields : KdbIpcMessageReader → ReadBuf → KdbIpcMessageReader × ReadBuf
header_fields r b =
    let b1 = adj 1 b in
    let b2 = adj 1 b1 in
    let b4 = adj 1 (adj 1 b2) in
    (
      record r {
        m_msg_typ = value 1 b1;
        m_compressed = value 1 b2 == 1;
        m_ipc_len = extend (value 4 b4);
      },
      adj 4 b4,
    )

-- The part for compressed messages: the length behind the header, and the array.
unfoldable pub inflate_hdr : Heap → KdbIpcMessageReader → ReadBuf → ReadMsgResult → Step
unfolding inflater
inflate_hdr heap r b res =
    if can_read sz_int b
    then (let r1 = record r { m_msg_len = extend (value 4 b) } in
        let size = sub64 r1.m_msg_len sz_msg_hdr in
        if heap.has size
        then step true
            record r1 {
              m_inflater = some (inflater r1.m_ipc_len r1.m_msg_len heap.table (heap.bytes size));
            }
            (adj 4 b) res
        else step false r1 (adj 4 b) (with_result ReadResult.rd_err_alloc res))
    else step false record r { m_ipc_len = 0 } b (with_result ReadResult.rd_incomplete res)

-- `m_byt_usd = buf.offset() - pos; m_byt_dez = 0;` where the header went well.
abbrev pub count_hdr : ℕ → Step → Step
count_hdr pos s =
    if s.complete
    then record s { reader = record s.reader { m_byt_usd = s.buf.m_off - pos; m_byt_dez = 0 } }
    else s

-- `readMsgHdr` where no header is read yet.
unfoldable pub new_hdr : Heap → KdbIpcMessageReader → ReadBuf → ReadMsgResult → Step
unfolding header_fields inflate_hdr
new_hdr heap r b res =
    if ltb (remaining b) 8
    then step false r b (with_result ReadResult.rd_incomplete res)
    else (if value 1 b == 1
        then (let f = header_fields r b in
            let res1 = record res { msg_typ = f.0.m_msg_typ } in
            count_hdr b.m_off (
              if f.0.m_compressed
              then inflate_hdr heap f.0 f.1 res1
              else step true record f.0 { m_msg_len = f.0.m_ipc_len } f.1 res1))
        else step false r (adj 1 b) (with_result ReadResult.rd_err_ipc res))

-- What an earlier call used is passed over.
unfoldable pub old_hdr : KdbIpcMessageReader → ReadBuf → ReadMsgResult → Step
old_hdr r b res =
    step true r (if r.m_compressed then ffwd sz_int (ffwd sz_msg_hdr b) else ffwd sz_msg_hdr b) res

-- `readMsgHdr`
unfoldable pub read_msg_hdr : Heap → KdbIpcMessageReader → ReadBuf → ReadMsgResult → Step
unfolding new_hdr old_hdr
read_msg_hdr heap r b res = if r.m_ipc_len == 0 then new_hdr heap r b res else old_hdr r b res

-- A failed `newInstance` as `readMsgData1` reports it.
abbrev pub reported : ReadResult → ReadResult
reported ReadResult.threw = ReadResult.threw
reported ReadResult.undef = ReadResult.undef
reported rr = ReadResult.rd_incomplete

-- Behind the call of `read`.
unfoldable pub data_read : KdbIpcMessageReader → ReadMsgResult → Out → Step
data_read r res (out ReadResult.rd_ok o b) =
    step true record r { m_msg = null } b record res { result = ReadResult.rd_ok; message = full o }
data_read r res (out rr o b) = step false record r { m_msg = full o } b (with_result rr res)

-- Behind the call of `newInstance`.
unfoldable pub data_made : ℕ → KdbIpcMessageReader → ReadMsgResult → New → Step
unfolding data_read read
data_made fuel r res (failed rr b) = step false r b (with_result (reported rr) res)
data_made fuel r res (made o b) = data_read r res (read fuel o b)

-- `readMsgData1`, for what `m_msg` holds.
unfoldable pub data_of : ℕ → KdbIpcMessageReader → ReadBuf → ReadMsgResult → Slot → Step
unfolding data_made
data_of fuel r b res null = data_made fuel r res (new_instance b)
data_of fuel r b res (full o) = data_read r res (read fuel o b)

-- `readMsgData1`
unfoldable pub read_msg_data1 : ℕ → KdbIpcMessageReader → ReadBuf → ReadMsgResult → Step
unfolding data_of
read_msg_data1 fuel r b res = data_of fuel r b res r.m_msg

abbrev pub count_data : ℕ → Step → Step
count_data pos s = record s {
  reader = record s.reader { m_byt_dez = s.reader.m_byt_dez + (s.buf.m_off - pos) };
}

-- `readMsgData`
unfoldable pub read_msg_data : ℕ → KdbIpcMessageReader → ReadBuf → ReadMsgResult → Step
unfolding read_msg_data1
read_msg_data fuel r b res = count_data b.m_off (read_msg_data1 fuel r b res)

abbrev pub count_used : ℕ → Step → Step
count_used pos s = record s {
  reader = record s.reader { m_byt_usd = s.reader.m_byt_usd + (s.buf.m_off - pos) };
}

-- The data of a compressed message: they are read from the array, and the buffer is the one behind
-- what was expanded.
unfoldable pub read_inflated : ℕ → KdbIpcMessageReader → ReadBuf → ReadMsgResult → Round → Step
unfolding read_msg_data get_read_buf
read_inflated fuel r b res wild = step false r b (with_result ReadResult.undef res)
read_inflated fuel r b res (next z b') = step false r b (with_result ReadResult.stuck res)
read_inflated fuel r b res (stop z b') =
    let s =
      read_msg_data fuel record r { m_inflater = some z } (get_read_buf z (ℤ.pos r.m_byt_dez))
        res in
    record s { buf = b' }

unfoldable pub inflate_data :
    ℕ → KdbIpcMessageReader → ReadBuf → ReadMsgResult → Option Inflater → Step
unfolding read_inflated uncompress
inflate_data fuel r b res none = step false r b (with_result ReadResult.undef res)
inflate_data fuel r b res (some z) = read_inflated fuel r b res (uncompress z b)

-- The two branches of `readMsg`.
unfoldable pub read_data : ℕ → KdbIpcMessageReader → ReadBuf → ReadMsgResult → Step
unfolding inflate_data read_msg_data
read_data fuel r b res =
    if r.m_compressed then inflate_data fuel r b res r.m_inflater else read_msg_data fuel r b res

-- Behind `readMsgHdr`.
unfoldable pub behind_hdr : ℕ → Step → Step
unfolding read_data
behind_hdr fuel s =
    if s.complete then count_used s.buf.m_off (read_data fuel s.reader s.buf s.res) else s

-- `readMsg(src, len, result)`, where `src` holds the `len` bytes.
unfoldable pub read_msg : Heap → ℕ → KdbIpcMessageReader → List ℕ → ReadMsgResult → Step
unfolding read_msg_hdr behind_hdr
read_msg heap fuel r src res =
    behind_hdr fuel
      (read_msg_hdr heap r record { m_rest = src; m_off = 0; m_csr = neg r.m_byt_usd } res)
