-- ===== src/Ipc/Read/Inflate.antt =====
-- KdbIpcDecompressor (ipc++/src/KdbType.C): a compressed message is expanded as its bytes arrive.
use mgkdb.Prelude.{
  ℕ, zero, suc, ◌+◌, ◌-◌, ◌*◌, ◌/◌, ◌%◌, ◌^◌, Bool, ◌||◌, List, length, take, get_or, set, min, ltb,
  leb, ◌==◌, if◌then◌else◌,
}
use Prim.Native.Nat.{bit_xor}
use mgkdb.Prelude.Int.{ℤ}
use mgkdb.Ipc.Types.{sz_int, sz_msg_hdr}
use mgkdb.Ipc.Payload.{sub64}
use mgkdb.Ipc.ReadBuf.{ReadBuf, remaining, adj, value}

-- `m_dst` is the whole array behind the pointer and `m_lbh` the table of 256 places.
pub record Inflater : Type 0 where
  pub m_ipc_len : ℕ
  pub m_msg_len : ℕ
  pub m_idx : ℕ
  pub m_off : ℕ
  pub m_rdx : ℕ
  pub m_chx : ℕ
  pub m_bit : ℕ
  pub m_lbh : List ℕ
  pub m_dst : List ℕ

-- The constructor. `lbh` and `dst` are what the memory holds that it does not set.
unfoldable pub inflater : ℕ → ℕ → List ℕ → List ℕ → Inflater
inflater ipc_len msg_len lbh dst = record {
  m_ipc_len = sub64 (sub64 ipc_len sz_msg_hdr) sz_int;
  m_msg_len = sub64 msg_len sz_msg_hdr;
  m_idx = 0;
  m_off = 0;
  m_rdx = 0;
  m_chx = 0;
  m_bit = 0;
  m_lbh = lbh;
  m_dst = dst;
}

-- `std::popcount` of a byte, for the `n` low bits.
abbrev pub popcount : ℕ → ℕ → ℕ
popcount zero x = 0
popcount (suc n) x = x % 2 + popcount n (x / 2)

-- `0 != (m_bit & m_idx)`, where `m_idx` has one bit.
abbrev pub bit_set : Inflater → Bool
bit_set z = (z.m_bit / z.m_idx) % 2 == 1

unfoldable pub block_read_sz : Inflater → ReadBuf → ℕ
block_read_sz z b =
    if remaining b == 0
    then 2 ^ 64 - 1
    else let count = popcount 8 (value 1 b) in
      (1 + count * 2 + min (8 - count) (sub64 (sub64 (sub64 z.m_ipc_len z.m_rdx) (count * 2)) 1))
      % 2 ^ 64

-- The loop that copies `n` bytes from `from` to `to`, one by one.
unfoldable pub copy : ℕ → ℕ → ℕ → List ℕ → List ℕ
copy zero to from dst = dst
copy (suc n) to from dst = copy n (to + 1) (from + 1) (set dst to (get_or dst from 0))

-- The loop over `m_chx`, for the `n` rounds until it is `m_off - 1`.
unfoldable pub enter : ℕ → ℕ → List ℕ → List ℕ → List ℕ
enter zero chx dst lbh = lbh
enter (suc n) chx dst lbh =
    enter n (chx + 1) dst (set lbh (bit_xor (get_or dst chx 0) (get_or dst (chx + 1) 0)) chx)

unfoldable pub enter_pairs : Inflater → Inflater
unfolding enter
enter_pairs z = record z {
  m_lbh = enter (z.m_off - 1 - z.m_chx) z.m_chx z.m_dst z.m_lbh;
  m_chx = z.m_chx + (z.m_off - 1 - z.m_chx);
}

-- The end of a round.
unfoldable pub next_bit : Inflater → Inflater
next_bit z = record z { m_idx = if z.m_idx * 2 == 256 then 0 else z.m_idx * 2 }

-- `wild` is an access outside an array, or outside the bytes that the buffer has.
pub data Round : Type 0 where
  next : Inflater → ReadBuf → Round
  stop : Inflater → ReadBuf → Round
  wild : Round

-- The array behind the two bytes and the `rdn` more that are taken from `old` on.
unfoldable pub referred : Inflater → ℕ → ℕ → List ℕ
unfolding copy
referred z old rdn =
    let d1 = set z.m_dst z.m_off (get_or z.m_dst old 0) in
    let d2 = set d1 (z.m_off + 1) (get_or d1 (old + 1) 0) in copy rdn (z.m_off + 2) (old + 2) d2

-- The round with a reference to bytes that are there already, at `old`, and `rdn` more.
unfoldable pub refer_to : Inflater → ReadBuf → ℕ → ℕ → Round
unfolding referred enter_pairs next_bit
refer_to z b old rdn =
    if ltb (remaining b) 2
      || ltb (length z.m_dst) (z.m_off + 2 + rdn)
      || ltb (length z.m_dst) (old + 2 + rdn)
    then wild
    else let z1 =
        enter_pairs
          record z { m_rdx = z.m_rdx + 2; m_off = z.m_off + 2; m_dst = referred z old rdn } in
      next (next_bit record z1 { m_off = z1.m_off + rdn; m_chx = z1.m_off + rdn }) (adj 1 (adj 1 b))

unfoldable pub refer : Inflater → ReadBuf → Round
unfolding refer_to
refer z b = refer_to z b (get_or z.m_lbh (value 1 b) 0) (value 1 (adj 1 b))

-- The round with a plain byte.
unfoldable pub plain : Inflater → ReadBuf → Round
unfolding enter_pairs next_bit
plain z b =
    if ltb (remaining b) 1 || leb (length z.m_dst) z.m_off
    then wild
    else next
        (next_bit (
          enter_pairs record z {
            m_rdx = z.m_rdx + 1;
            m_off = z.m_off + 1;
            m_dst = set z.m_dst z.m_off (value 1 b);
          }))
        (adj 1 b)

abbrev pub coded : Inflater → ReadBuf → Round
coded z b = if bit_set z then refer z b else plain z b

-- A round of the loop in `uncompress`.
unfoldable pub round : Inflater → ReadBuf → Round
unfolding block_read_sz refer plain
round z b =
    if z.m_idx == 0
    then (if ltb (remaining b) (block_read_sz z b)
        then stop z b
        else coded record z { m_bit = value 1 b; m_rdx = z.m_rdx + 1; m_idx = 1 } (adj 1 b))
    else coded z b

-- The loop: every round writes a byte, so there are no more rounds than bytes that are missing.
unfoldable pub rounds_of : ℕ → Inflater → ReadBuf → Round
unfolding round
rounds_of zero z b = stop z b
rounds_of (suc n) z b =
    if ltb z.m_off z.m_msg_len
    then elim (round z b) [ next z' b' ↦ rounds_of n z' b' | stop z' b' ↦ stop z' b' | wild ↦ wild ]
    else stop z b

-- `uncompress`
unfoldable pub uncompress : Inflater → ReadBuf → Round
unfolding rounds_of
uncompress z b = rounds_of (z.m_msg_len - z.m_off) z b

unfoldable pub is_complete : Inflater → Bool
is_complete z = z.m_off == z.m_msg_len

-- `getReadBuf`: a buffer at the array's front, with the given cursor.
unfoldable pub get_read_buf : Inflater → ℤ → ReadBuf
get_read_buf z csr = record { m_rest = take z.m_off z.m_dst; m_off = 0; m_csr = csr }
