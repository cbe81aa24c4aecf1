-- ===== src/Ipc/Write/Message.antt =====
-- KdbIpcMessageWriter (ipc++/src/KdbType.C): a message is sent by calls of `write`, each with a
-- buffer of its own, until `bytesRemaining` is 0.
use mgkdb.Prelude.{ℕ, ◌+◌, ◌-◌, List, [], if◌then◌else◌}
use mgkdb.Prelude.Int.{ℤ, neg, pos_part, neg_part}
use mgkdb.Ipc.Types.{WriteResult, wr_ok, wr_incomplete, sz_msg_hdr}
use mgkdb.Ipc.WriteBuf.{WriteBuf, can_write, cursor_active, ffwd, write_value}
use mgkdb.Ipc.Object.{Kdb, wire_sz}
use mgkdb.Ipc.Write.{write}

-- `KdbUtil::ipcMessageLen`
unfoldable pub ipc_message_len : Kdb → ℕ
ipc_message_len payload = sz_msg_hdr + wire_sz payload

-- `m_root` is the object that the writer refers to.
pub record KdbIpcMessageWriter : Type 0 where
  pub m_msg_typ : ℕ
  pub m_ipc_len : ℕ
  pub m_root : Kdb
  pub m_byt_rem : ℕ

unfoldable pub init : ℕ → Kdb → KdbIpcMessageWriter
init msg_typ msg = record {
  m_msg_typ = msg_typ;
  m_ipc_len = ipc_message_len msg;
  m_root = msg;
  m_byt_rem = ipc_message_len msg;
}

-- The message header: little endian, type, two unused bytes, length.
unfoldable pub write_msg_hdr : ℕ → ℕ → WriteBuf → WriteResult × WriteBuf
unfolding write_value
write_msg_hdr msg_typ len buf =
    if cursor_active buf
    then (if can_write buf sz_msg_hdr
        then (let b1 = (write_value 1 1 buf).1 in
            let b2 = (write_value 1 msg_typ b1).1 in
            let b3 = (write_value 1 0 b2).1 in
            let b4 = (write_value 1 0 b3).1 in (wr_ok, (write_value 4 len b4).1))
        else (wr_incomplete, buf))
    else (wr_ok, ffwd sz_msg_hdr buf)

-- `m_byt_rem -= buf.cursorOff()`. The two are below 2 ^ 63, and the cursor is not negative behind
-- a call: no wrap.
abbrev pub less_cursor : ℕ → ℤ → ℕ
less_cursor n c = n + neg_part c - pos_part c

-- The call `write(dst, cap)`: its result, the writer and the bytes now at `dst`. Where the header
-- does not fit it returns before `m_byt_rem` is touched.
unfoldable pub write_message : KdbIpcMessageWriter → ℕ → WriteResult × KdbIpcMessageWriter × List ℕ
unfolding write_msg_hdr
write_message w cap =
    let buf : WriteBuf = record {
      m_dst = [];
      m_cap = cap;
      m_csr = neg (w.m_ipc_len - w.m_byt_rem);
    } in
    let hdr = write_msg_hdr w.m_msg_typ w.m_ipc_len buf in
    elim hdr.0 [
      | wr_incomplete ↦ (wr_incomplete, w, hdr.1.m_dst)
      | wr_ok ↦
          let r = write w.m_root hdr.1 in
          (r.0, record w { m_byt_rem = less_cursor w.m_byt_rem r.1.m_csr }, r.1.m_dst)
    ]
