-- ===== src/Ipc/Write/Tests.antt =====
-- Runs of the writer, and its theorems at concrete inputs.
use mgkdb.Prelude.{◌≡◌, inl, inr, refl, [], ◌∷◌, length, arith}
use mgkdb.Prelude.Int.{negsuc}
use mgkdb.Ipc.Types.{Elem}
use mgkdb.Ipc.WriteBuf.{WriteBuf}
use mgkdb.Ipc.Object.{Kdb, vector, dict, atom, wire_sz}
use mgkdb.Ipc.Write.{write}
use mgkdb.Ipc.Write.Encode.{chunks, encode}
use mgkdb.Ipc.Write.Chunks.{write_chunks}
use mgkdb.Ipc.Write.Refine.{write_refines}
use mgkdb.Ipc.Write.Size.{wire_sz-eq-length-encode}
use mgkdb.Ipc.Write.Message.{ipc_message_len, init, write_message}
use mgkdb.Ipc.Write.Sending.{Progress, message, init-IsSending, write_message_lem}
use mgkdb.Ipc.Write.Loop.{send, send_complete}

abbrev ints : Kdb
ints = vector Elem.int 0 (1 ∷ 2 ∷ [])

-- The header has been sent; there is room for one element.
abbrev second_call : WriteBuf
second_call = record { m_dst = []; m_cap = 5; m_csr = negsuc 5 }

write_refines_example : write ints second_call ≡ write_chunks (chunks ints) second_call
unfolding chunks
write_refines_example = write_refines ints second_call (inr (omega arith, inl refl))

wire_sz-eq-length-encode_example : wire_sz (dict ints ints) ≡ length (encode (dict ints ints))
wire_sz-eq-length-encode_example = wire_sz-eq-length-encode (dict ints ints)

write_message_lem_example : Progress (init 1 ints) 20 (write_message (init 1 ints) 20)
write_message_lem_example = write_message_lem (init 1 ints) 20 (init-IsSending 1 ints)

abbrev yes : Kdb
yes = atom Elem.bool 1

send_complete_example :
    send (init 1 yes) (8 ∷ 8 ∷ 8 ∷ 8 ∷ 8 ∷ 8 ∷ 8 ∷ 8 ∷ 8 ∷ 8 ∷ []) ≡ message (init 1 yes)
unfolding chunks init ipc_message_len wire_sz
send_complete_example =
    send_complete 1 yes (8 ∷ 8 ∷ 8 ∷ 8 ∷ 8 ∷ 8 ∷ 8 ∷ 8 ∷ 8 ∷ 8 ∷ [])
      (
        omega arith,
        (
          omega arith,
          (
            omega arith,
            (
              omega arith,
              (
                omega arith,
                (omega arith, (omega arith, (omega arith, (omega arith, (omega arith, tt))))),
              ),
            ),
          ),
        ),
      )
      (omega arith)
