-- ===== src/Ipc/Payload/Tests.antt =====
-- Runs of `ipcPayloadLen`, and its theorems at concrete inputs.
use mgkdb.Prelude.{◌≡◌, refl, [], ◌∷◌, ◌++◌, arith}
use mgkdb.Prelude.Int.{pos}
use mgkdb.Ipc.Types.{Elem}
use mgkdb.Ipc.Object.{SymbolVector, Kdb, vector, table, nil, cons, wire_sz}
use mgkdb.Ipc.Write.Encode.{chunks, all_chunks, encode}
use mgkdb.Ipc.Payload.{ret, ipc_payload_len}
use mgkdb.Ipc.Payload.Encoded.{no_syms, more_syms}
use mgkdb.Ipc.Payload.Measure.{ipc_payload_len-encode}

-- One column, `a`, of two ints.
abbrev column_a : SymbolVector
column_a = record {
  m_attr = 0;
  m_locs = (record { c_off = 0; c_len = 2 }) ∷ [];
  m_data = 97 ∷ 0 ∷ [];
}

abbrev trades : Kdb
trades = table column_a 0 (cons (vector Elem.int 0 (7 ∷ 8 ∷ [])) nil)

ipc_payload_len-encode_example :
    ipc_payload_len 5 (encode trades ++ (1 ∷ 2 ∷ [])) 40 ≡ ret (pos (wire_sz trades))
unfolding encode chunks all_chunks
ipc_payload_len-encode_example =
    ipc_payload_len-encode trades (1 ∷ 2 ∷ []) 40 5
      (
        (more_syms (97 ∷ []) ((omega arith, omega arith), tt) refl no_syms, omega arith),
        omega arith,
        (omega arith, tt),
      )
      (omega arith) (omega arith) (omega arith) (omega arith)
