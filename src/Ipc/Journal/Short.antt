-- ===== src/Ipc/Journal/Short.antt =====
-- A message whose header gives a length below that of the header itself.
use mgkdb.Prelude.{
  ℕ, suc, ◌+◌, ◌-◌, ◌^◌, ◌≤◌, ◌<◌, ◌≡◌, ◌≢◌, true, false, some, List, [], ◌∷◌, length, ltb, leb,
  ◌==◌, arith,
}
use mgkdb.Prelude.Int.{pos, ◌+ℤ◌}
use mgkdb.Prelude.Bytes.{le_value}
use mgkdb.Ipc.Payload.{sub64}
use mgkdb.Ipc.Journal.{minus, filter_upd_msg, filter_msg}

refused :
    (typ len : ℕ) (tail name : List ℕ) (names : List (List ℕ))
    → typ ≢ 0
    → filter_upd_msg (typ ∷ tail) len name names ≡ some (minus len)
unfolding filter_upd_msg
refused typ len tail name names t = let other : (typ == 0) ≡ false = ground arith in rw other

-- A message that is not a list, and whose header gives a length `n` below 8, is answered as a match of 16 - n
-- bytes: the length without the header wraps below 0, and its negation is positive.
pub filter_msg-short :
    (b1 b2 b3 n typ rem : ℕ) (tail name : List ℕ) (names : List (List ℕ))
    → n < 8
    → 8 ≤ rem
    → typ ≢ 0
    → filter_msg (1 ∷ b1 ∷ b2 ∷ b3 ∷ n ∷ 0 ∷ 0 ∷ 0 ∷ typ ∷ tail) rem name names
      ≡ some (pos (16 - n))
unfolding filter_msg ◌+ℤ◌
filter_msg-short b1 b2 b3 n typ rem tail name names h room t =
    let enough : ltb rem 8 ≡ false = ground arith in
    let len : le_value (n ∷ 0 ∷ 0 ∷ 0 ∷ []) ≡ n = omega arith in
    let all : ltb (9 + length tail) 8 ≡ false = ground arith in
    let count : suc (suc (suc (suc (suc (suc (suc (suc (suc (length tail)))))))))
        ≡ 9 + length tail =
      omega arith in
    let small : leb (2 ^ 31) n ≡ false = ground arith in
    let fits : ltb rem n ≡ false = ground arith in
    let m : minus (sub64 n 8) ≡ pos (8 - n) = ground arith in
    let sum : leb 0 (8 - n + 8) ≡ true = ground arith in
    let out : 8 - n + 8 - 0 ≡ 16 - n = omega arith in
    rw
      (enough, count, all, len, small, fits, refused typ (sub64 n 8) tail name names t, m, sum, out)
