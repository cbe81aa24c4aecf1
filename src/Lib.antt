-- ===== src/Lib.antt =====
-- Verification of the "Mg kdb+ Library": containers and system wrappers in C++ (core) and a library
-- that writes, measures, reads and replays kdb+ IPC messages (ipc++), with a q extension that replays some
-- tables of a journal (log_filter).
--
-- The parts, and how they interact. A program builds a tree of objects derived from KdbBase; a
-- KdbIpcMessageWriter sends the tree through a WriteBuf in as many calls as the caller's buffers
-- need, and each write method passes over what earlier calls have sent. A KdbIpcMessageReader builds
-- the tree again from a ReadBuf, in as many calls as the bytes need to arrive, and each read method passes
-- over what earlier calls have read. ipcPayloadLen finds the length of an object
-- in memory without building it, and KdbJournal walks with it over a tickerplant's log. CircularBuffer
-- holds received bytes, Mapping and ReservedMapping hold files in memory, FreeList gives out slots, and
-- read_fully and write_fully repeat system calls.
--
-- The files:
--   Prelude: library names passed on; lists, integers and bytes over the native numbers.
--   Core/FreeList: src/core/src/FreeList.C and src/core/include/MgFreeList.H; one function for each
--     method. Stack has the abstract view, Clients alternating clients.
--   Core/Extents: src/core/include/MgCore.H; sizes, page counts and addresses as 64-bit words.
--   Core/CircularBuffer: src/core/include/MgCircularBuffer.H; Queue has the abstract view, Moves
--     its descriptor.
--   Core/CircularInit: init_circ_buffer of src/core/src/CircularBuffer.C, on the answers of its calls.
--   Core/ReadFully: read_fully and write_fully of src/core/src/ReadFullyImpl.C.
--   Core/FileDesc: FileDesc of src/core/include/MgIoDefs.H and ReadFullyImpl.C.
--   Core/Mem: Mem of src/core/include/MgMapTypes.H; Owned is about the blocks that are allocated.
--   Core/Mapping: src/core/include/MgMapTypes.H and src/core/src/MapTypes.C, over mmap and munmap as
--     parameters (the record Os). Extend and Reserve are about ReservedMapping.
--   Ipc/Types, Ipc/Object: the type codes and the object tree of src/ipc++/include/MgKdbType.H. The
--     constructor atom stands for all fixed-width atom classes and vector for all fixed-width vector
--     classes; Elem says which, and a value is the number that its bytes stand for.
--   Ipc/Symbols: the constructors of KdbSymbolVector, getString and indexOf. Layout has a vector as the
--     list of its symbols.
--   Ipc/WriteBuf, Ipc/Write: WriteBuf and the write methods of src/ipc++/src/KdbType.C. Encode and Chunks
--     are the specification: an object is a list of chunks that are sent whole. Sent says what a
--     row of chunks does, Vectors, Text and Headers are about the parts of objects, Refine about all, Size
--     about wireSz. Write/Message is KdbIpcMessageWriter; Sending is about one call, Loop about all calls.
--   Ipc/ReadBuf, Ipc/Read: ReadBuf, newInstance, the read methods, KdbIpcMessageReader and
--     KdbIpcDecompressor of src/ipc++/src/KdbType.C. Obj has the objects while they are read, New is
--     newInstance, Methods the read methods, Message the reader of messages, Inflate the decompressor.
--     Part and Made are the specification: which objects hold which part of a value, and what is still to come.
--     Skip is about complete objects, Texts, Elems, Rows, Functions, Columns, Elements and Members about the parts
--     of objects, Headers and Starts about newInstance, Resume about one call, Receive and Header about one call of readMsg, RoundTrip about all
--     calls, Expand and Pieces about uncompress, Unknown about types without a case.
--   Ipc/Payload: ipcPayloadLen and its helpers in the same file. Encoded, Walk and Measure are about
--     written objects, Limits is about truncated and unknown ones.
--   Ipc/Journal: _filter_upd_msg, filter_msg, mk_upd_tbl_filter and the loop of _filter_msgs.
--     Replay is about whole journals, Filter about the filter, Standing and Short about odd input.
--     Init is KdbJournal::init and close, Init/Owned what init leaves behind and counts.
--   Ipc/Time: mg7x::time in the same file, the numbers of dates and timestamps. Calendar is about the
--     calendar, Civil about dates, Stamp about timestamps, Clock about times and months.
--   LogFilter: src/log_filter/src/log_filter.c, the q extension. Memory has the reads of memory and mg_read_vec, Check
--     mg_chk_match_and_get_len and mg_chk_msg, Reify mg_reify_msg, Replay mg_eval_msg, mg_replay_msgs
--     and mg_replay. Messages is the specification; Shapes, Vectors, Built, Hits and Relevant are about
--     messages that the writer sends, Same about what the source has two copies of, Agree and Total about any memory, Ends about the replay of any
--     memory, Aborts about parts without a case, Journals about whole journals.
--   The Tests modules have runs at concrete inputs.
--
-- Conventions. Numbers are natural numbers; where the source's words wrap, % 2 ^ 32 or % 2 ^ 64 is written out.
-- Bytes are numbers, an int8_t the number of its bit pattern. A read or a store outside an array or the
-- memory behind a pointer is none or oob. uint64_t sums of sizes of objects in memory (wireSz, m_off + bytes)
-- are taken not to wrap. In ipcPayloadLen the fuel bounds how deep the calls nest; the depth
-- of the object is enough. In read_fully and write_fully it bounds the calls; three for each byte and
-- three more are enough. In read it bounds how deep the calls nest, and the depth of the value that is
-- read is enough. A vector's capacity() is the number that it was reserved for. The loop of a journal
-- recurs on the messages that the limit still allows. The log filter's walks take as much fuel as there are
-- bytes, and its replay as much as the file has bytes; both are proved to be enough.
--
-- In Ipc/Time numbers are integers: values for which the source's int32_t or int64_t overflows are
-- outside the model, and the theorems on timestamps have the years that an int64_t holds as
-- hypotheses. Its division rounds towards 0 there, as in C++.
--
-- Parameters: mmap, munmap, read, write, malloc and the other system calls, with the values of EINTR and EIO, the
-- flags of mmap and a client's function, are arguments. What k.h declares is the record Kx, of which nothing is
-- asked. What is asked of them is that read and write
-- give no more bytes than asked for, and that mmap with MAP_FIXED answers the address asked for, or
-- an error.
--
-- Not modelled: the printing of values, the clocks, src/tpmux and src/ring (coroutines over epoll and
-- io_uring), src/krb5 (calls of GSS), the examples, and the JavaScript and q code.
pub mod Prelude
pub mod Core
pub mod Ipc
pub mod LogFilter
