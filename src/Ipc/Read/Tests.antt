-- ===== src/Ipc/Read/Tests.antt =====
-- Runs of the reader on small values.
use mgkdb.Prelude.{
  ℕ, ◌≡◌, refl, sym, ap, ◌∙◌, true, false, List, [], ◌∷◌, ◌++◌, append-nil, concat, take, drop,
  take-append-drop, none, arith,
}
use mgkdb.Prelude.Int.{pos, negsuc}
use mgkdb.Ipc.Types.{Elem}
use mgkdb.Ipc.Object.{Kdb, vector, atom, wire_sz}
use mgkdb.Ipc.Write.Encode.{cells, chunks, encode}
use mgkdb.Ipc.Write.Message.{init, ipc_message_len}
use mgkdb.Ipc.Write.Sending.{message}
use mgkdb.Ipc.Write.Loop.{send}
use mgkdb.Ipc.ReadBuf.{ReadResult, ReadBuf, ffwd, pass}
use mgkdb.Ipc.Read.Obj.{Obj, null, full}
use mgkdb.Ipc.Read.New.{new_instance, label}
use mgkdb.Ipc.Read.Methods.{read}
use mgkdb.Ipc.Read.Inflate.{Inflater}
use mgkdb.Ipc.Read.Message.{ReadMsgResult, KdbIpcMessageReader, Heap, new_reader, read_msg}
use mgkdb.Ipc.Read.Made.{fresh}
use mgkdb.Ipc.Read.Headers.{Starts}
use mgkdb.Ipc.Read.Starts.{new_instance_lem}
use mgkdb.Ipc.Read.Resume.{read_lem}
use mgkdb.Ipc.Read.Header.{before_header, Receives, read_msg_lem}
use mgkdb.Ipc.Read.RoundTrip.{receive, receive-send}
use mgkdb.Ipc.Read.Unknown.{AsksOn, read_msg-unknown}
use mgkdb.Ipc.Read.Part.{IsPart, IsReadable, vector_part, Reads, OnOut, done}

abbrev ints : Kdb
ints = vector Elem.int 0 (7 ∷ 300 ∷ [])

ints-IsReadable : IsReadable ints
ints-IsReadable = (omega arith, omega arith, (omega arith, (omega arith, tt)))

-- The header and the first element went before, and two bytes of the second are there.
abbrev two_bytes : ReadBuf
two_bytes = record { m_rest = 44 ∷ 1 ∷ []; m_off = 0; m_csr = negsuc 9 }

read_lem_example :
    OnOut
      (Reads (IsPart ints) (done ints) 4 (concat (cells 4 (300 ∷ []))) two_bytes (0 ∷ 0 ∷ []) [])
      (read 1 (Obj.vector Elem.int 0 2 (7 ∷ [])) two_bytes)
unfolding pass ffwd
read_lem_example =
    read_lem 1 ints 4 (concat (cells 4 (300 ∷ []))) (Obj.vector Elem.int 0 2 (7 ∷ [])) two_bytes
      (0 ∷ 0 ∷ []) [] (omega arith) ints-IsReadable (vector_part (7 ∷ []) (300 ∷ []) refl) refl refl

abbrev past : ReadBuf
past = record { m_rest = 1 ∷ []; m_off = 0; m_csr = negsuc 19 }

abbrev first_bytes : ReadBuf
first_bytes = record { m_rest = 6 ∷ 0 ∷ 2 ∷ 0 ∷ []; m_off = 0; m_csr = pos 0 }

new_instance_lem_example :
    Starts (fresh ints) 6 first_bytes (0 ∷ 0 ∷ 7 ∷ []) (7 ∷ []) (new_instance first_bytes)
new_instance_lem_example =
    new_instance_lem ints first_bytes (0 ∷ 0 ∷ 7 ∷ []) (7 ∷ []) ints-IsReadable refl refl

abbrev heap : Heap
heap = record { has = λ n. true; bytes = λ n. []; table = [] }

abbrev no_result : ReadMsgResult
no_result = record { result = ReadResult.rd_unset; msg_typ = 0; message = null }

abbrev yes : Kdb
yes = atom Elem.bool 1

abbrev wire : List ℕ
wire = 1 ∷ 2 ∷ 0 ∷ 0 ∷ 10 ∷ 0 ∷ 0 ∷ 0 ∷ 255 ∷ 1 ∷ []

wire_is : message (init 2 yes) ≡ wire
unfolding encode chunks init ipc_message_len wire_sz
wire_is = refl

read_msg_lem_example :
    Receives 2 yes
      (new_reader 0 false)
      (message (init 2 yes))
      (1 ∷ 2 ∷ 0 ∷ [])
      (read_msg heap 1 (new_reader 0 false) (1 ∷ 2 ∷ 0 ∷ []) no_result)
read_msg_lem_example =
    read_msg_lem heap 1 2 yes (omega arith) (omega arith) (omega arith)
      (unfold ipc_message_len wire_sz in omega arith) (new_reader 0 false) (message (init 2 yes))
      (1 ∷ 2 ∷ 0 ∷ []) (drop 3 wire) [] no_result
      (unfold new_reader in before_header refl refl refl)
      (sym (append-nil (message (init 2 yes)) ∙ wire_is))

abbrev eights : List ℕ
eights = 8 ∷ 8 ∷ 8 ∷ 8 ∷ 8 ∷ 8 ∷ 8 ∷ 8 ∷ 8 ∷ 8 ∷ []

abbrev halves : List (List ℕ)
halves = take 5 (send (init 2 yes) eights) ∷ drop 5 (send (init 2 yes) eights) ∷ []

halves-concat : concat halves ≡ send (init 2 yes) eights
halves-concat =
    ap (λ us. take 5 (send (init 2 yes) eights) ++ us)
      (append-nil (drop 5 (send (init 2 yes) eights)))
    ∙ take-append-drop 5 (send (init 2 yes) eights)

receive-send_example : receive heap 1 (new_reader 0 false) no_result [] halves ≡ full (done yes)
unfolding chunks init ipc_message_len wire_sz
receive-send_example =
    receive-send heap 1 2 yes (omega arith) (omega arith) (omega arith) (omega arith) 0 false
      no_result eights halves
      (
        omega arith,
        (
          omega arith,
          (
            omega arith,
            (
              omega arith,
              (
                omega arith,
                (omega arith, (omega arith, (omega arith, (omega arith, (omega arith, tt))))),
              ),
            ),
          ),
        ),
      )
      (omega arith) halves-concat

-- A block of plain bytes, of which the last is not there.
abbrev block : ReadBuf
block = record { m_rest = 0 ∷ 11 ∷ 12 ∷ 13 ∷ []; m_off = 12; m_csr = pos 12 }

abbrev deflated : Inflater
deflated = record {
  m_ipc_len = 9;
  m_msg_len = 4;
  m_idx = 0;
  m_off = 0;
  m_rdx = 0;
  m_chx = 0;
  m_bit = 0;
  m_lbh = [];
  m_dst = 0 ∷ 0 ∷ 0 ∷ 0 ∷ [];
}

abbrev opened : KdbIpcMessageReader
opened = record {
  m_msg_typ = 2;
  m_ipc_len = 17;
  m_msg_len = 17;
  m_byt_usd = 8;
  m_byt_dez = 0;
  m_compressed = false;
  m_msg = null;
  m_inflater = none;
}

read_msg-unknown_example :
    AsksOn heap 1 opened 241 ((0 ∷ 0 ∷ [], no_result) ∷ (0 ∷ 0 ∷ 0 ∷ [], no_result) ∷ [])
unfolding label
read_msg-unknown_example =
    read_msg-unknown heap 1 opened 241 ((0 ∷ 0 ∷ [], no_result) ∷ (0 ∷ 0 ∷ 0 ∷ [], no_result) ∷ [])
      (record { pos_len = omega arith; plain = refl; used = refl; none_made = refl }) refl
