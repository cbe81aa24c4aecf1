-- ===== src/Ipc/Journal/Standing.antt =====
-- `KdbJournal::_filter_msgs` at a record that `ipcPayloadLen` gives no length.
use mgkdb.Prelude.{
  ℕ, zero, suc, ◌+◌, ◌-◌, ◌^◌, ◌<◌, ◌≡◌, ◌≢◌, sym, ap, ◌∙◌, true, List, ◌∷◌, ◌++◌, length,
  length-append, drop, drop-append_length, ltb, arith,
}
use mgkdb.Prelude.Int.{pos}
use mgkdb.Ipc.Payload.{ret, ipc_payload_len}
use mgkdb.Ipc.Payload.Limits.{ipc_payload_len-odd_table}
use mgkdb.Ipc.Journal.{counted, loop, filter_msgs, counter}

-- The loop stands at the offset `off`.
standing :
    (fuel attr typ off : ℕ) (jnl src : List ℕ) (n m u : ℕ)
    → drop off jnl ≡ 98 ∷ (attr ∷ (typ ∷ src))
    → off + 2 < length jnl
    → length jnl < 2 ^ 64
    → typ ≢ 98
    → typ ≢ 99
    → typ ≢ 127
    → loop counter (suc (suc fuel)) jnl n m u off tt ≡ (tt, counted (m + n) (u + n))
unfolding loop
standing fuel attr typ off jnl src zero m u d l small a b c =
    let x : m + 0 ≡ m = omega arith in let y : u + 0 ≡ u = omega arith in rw (x, y)
standing fuel attr typ off jnl src (suc n) m u d l small a b c =
    let inside : ltb off (length jnl) ≡ true = ground arith in
    let len : ipc_payload_len (suc (suc fuel)) (drop off jnl) (length jnl - off) ≡ ret (pos 0) =
      ap (λ k. ipc_payload_len (suc (suc fuel)) k (length jnl - off)) d
      ∙ ipc_payload_len-odd_table fuel attr typ src (length jnl - off) (omega arith) (omega arith) a
          b c in
    let x : m + suc n ≡ m + 1 + n = omega arith in
    let y : u + suc n ≡ u + 1 + n = omega arith in
    let z : off + 0 ≡ off = omega arith in
    rw (inside, len, x, y, z, loop)
      (standing fuel attr typ off jnl src n (m + 1) (u + 1) d l small a b c)

-- With a limit of `n` messages, a table whose third byte is no type of a dictionary is counted `n` times:
-- its length is 0, so the loop stays where it is, and no error is answered.
pub filter_msgs-odd_table :
    (fuel max_count attr typ : ℕ) (head src : List ℕ)
    → length head ≡ 8
    → length src < 2 ^ 32
    → typ ≢ 98
    → typ ≢ 99
    → typ ≢ 127
    → (filter_msgs counter (suc (suc fuel)) (head ++ (98 ∷ (attr ∷ (typ ∷ src)))) max_count tt).1
      ≡ counted max_count max_count
unfolding filter_msgs
filter_msgs-odd_table fuel max_count attr typ head src e small a b c =
    ap (λ r. r.1)
      (standing fuel attr typ 8 (head ++ (98 ∷ (attr ∷ (typ ∷ src)))) src max_count 0 0
        (ap (λ k. drop k (head ++ (98 ∷ (attr ∷ (typ ∷ src))))) (sym e) ∙ drop-append_length head _)
        (omega (arith, length-append head (98 ∷ (attr ∷ (typ ∷ src))), e))
        (omega (arith, length-append head (98 ∷ (attr ∷ (typ ∷ src))), e)) a b c)
    ∙ plain
  where
    plain : counted (0 + max_count) (0 + max_count) ≡ counted max_count max_count
    plain = let z : 0 + max_count ≡ max_count = omega arith in rw z
