-- ===== src/Ipc/Read/Part.antt =====
-- What has been read of an object: the specification that the reader is held against.
use mgkdb.Prelude.{ℕ, suc, ◌+◌, ◌*◌, ◌^◌, ◌≤◌, ◌<◌, ◌≡◌, List, [], ◌∷◌, ◌++◌, length, concat, All}
use mgkdb.Prelude.Int.{neg_part}
use mgkdb.Prelude.Bytes.{le_bytes, IsByte}
use mgkdb.Ipc.Types.{Elem, Primitive, sz_byte, sz_int, sz_vec_hdr, elem_size}
use mgkdb.Ipc.Object.{
  LocInfo, SymbolVector, Kdb, exception, atom, symbol_atom, vector, symbol_vector, list, table,
  dict, function, primitive, projection, Kdbs, nil, cons, size, wire_sz,
}
use mgkdb.Ipc.Write.Encode.{cells, all_chunks, encode}
use mgkdb.Ipc.Payload.Encoded.{IsText}
use mgkdb.Ipc.ReadBuf.{ReadResult, ReadBuf, loc, pass}
use mgkdb.Ipc.Read.Obj.{Obj, Slot, null, full, Objs, onil, ocons}
use mgkdb.Ipc.Read.Methods.{Out, out, ListOut, list_out}

-- The object that holds all of a value.
abbrev mutual
  pub done : Kdb → Obj
  done (exception msg) = Obj.exception msg
  done (atom e val) = Obj.atom e val
  done (symbol_atom val) = Obj.symbol_atom val
  done (vector e attr xs) = Obj.vector e attr (length xs) xs
  done (symbol_vector s) = Obj.symbol_vector s.m_attr (length s.m_locs) s.m_locs s.m_data
  done (list attr vs) = Obj.list attr (size vs) (dones vs)
  done (table cols attr vs) =
      Obj.table (full (Obj.symbol_vector cols.m_attr (length cols.m_locs) cols.m_locs cols.m_data))
        (full (Obj.list attr (size vs) (dones vs)))
  done (dict k v) = Obj.dict (full (done k)) (full (done v))
  done (function vec) = Obj.function (length vec) vec
  done (primitive p val) = Obj.primitive p val
  done (projection vs) = Obj.projection (size vs) (dones vs)

  pub dones : Kdbs → Objs
  dones nil = onil
  dones (cons v vs) = ocons (done v) (dones vs)

-- Symbols one after the other from `off` on, each with its entry.
pub data Symbols : ℕ → List LocInfo → List ℕ → Type 0 where
  no_symbols : {off : ℕ} → Symbols off [] []
  more_symbols :
      {off : ℕ} {l : LocInfo} {locs : List LocInfo} {bytes all : List ℕ} (s : List ℕ)
      → All IsText s
      → l ≡ loc off (length s)
      → all ≡ s ++ (0 ∷ bytes)
      → Symbols (off + (length s + 1)) locs bytes
      → Symbols off (l ∷ locs) all

abbrev pub IsColumns : SymbolVector → Type 0
IsColumns s = (s.m_attr < 256) × (length s.m_locs < 2 ^ 31) × Symbols 0 s.m_locs s.m_data

abbrev pub Fits : ℕ → ℕ → Type 0
Fits w x = x < 256 ^ w

-- The values that the wire format can express: numbers that fit their width, text without a byte 0
-- and counts that are not negative as an int32_t.
abbrev mutual
  pub IsReadable : Kdb → Type 0
  IsReadable (exception msg) = All IsText msg
  IsReadable (atom e val) = Fits (elem_size e) val
  IsReadable (symbol_atom val) = All IsText val
  IsReadable (vector e attr xs) = (attr < 256) × (length xs < 2 ^ 31) × All (Fits (elem_size e)) xs
  IsReadable (symbol_vector s) = IsColumns s
  IsReadable (list attr vs) = (attr < 256) × (size vs < 2 ^ 31) × AreReadable vs
  IsReadable (table cols attr vs) =
      IsColumns cols × ((attr < 256) × (size vs < 2 ^ 31) × AreReadable vs)
  IsReadable (dict k v) = IsReadable k × IsReadable v
  IsReadable (function vec) = (length vec < 2 ^ 31) × All IsByte vec
  IsReadable (primitive p val) = val < 256
  IsReadable (projection vs) = (size vs < 2 ^ 31) × AreReadable vs

  pub AreReadable : Kdbs → Type 0
  AreReadable nil = Unit
  AreReadable (cons v vs) = IsReadable v × AreReadable vs

-- How deep the calls nest.
abbrev mutual
  pub nest : Kdb → ℕ
  nest (list attr vs) = suc (nests vs)
  nest (table cols attr vs) = suc (suc (nests vs))
  nest (dict k v) = suc (nest k + nest v)
  nest (projection vs) = suc (nests vs)
  nest (exception msg) = 1
  nest (atom e val) = 1
  nest (symbol_atom val) = 1
  nest (vector e attr xs) = 1
  nest (symbol_vector s) = 1
  nest (function vec) = 1
  nest (primitive p val) = 1

  pub nests : Kdbs → ℕ
  nests nil = 0
  nests (cons v vs) = nest v + nests vs

-- What `newInstance` takes from the buffer.
abbrev pub hdr_sz : Kdb → ℕ
hdr_sz (exception msg) = sz_byte
hdr_sz (atom e val) = sz_byte
hdr_sz (symbol_atom val) = sz_byte
hdr_sz (vector e attr xs) = sz_vec_hdr
hdr_sz (symbol_vector s) = sz_vec_hdr
hdr_sz (list attr vs) = sz_vec_hdr
hdr_sz (table cols attr vs) = sz_byte + sz_byte + sz_byte
hdr_sz (dict k v) = sz_byte
hdr_sz (function vec) = sz_byte + sz_byte + sz_vec_hdr
hdr_sz (primitive p val) = sz_byte
hdr_sz (projection vs) = sz_byte + sz_int

abbrev pub encodes : Kdbs → List ℕ
encodes vs = concat (all_chunks vs)

-- `IsPart v n tail o`: of the value `v`, `o` holds what its header and the `n` bytes behind that
-- say, and `tail` is still to come. `IsPair` is for two members, one behind the other, and
-- `AreParts` for the elements of a list, the headers of the members and elements counted.
mutual
  pub data IsPart : Kdb → ℕ → List ℕ → Obj → Type 0 where
    exception_part : {msg : List ℕ} → IsPart (exception msg) 0 (msg ++ (0 ∷ [])) (Obj.exception [])
    atom_part :
        {e : Elem} {val : ℕ} → IsPart (atom e val) 0 (le_bytes (elem_size e) val) (Obj.atom e 0)
    symbol_part : {val : List ℕ} → IsPart (symbol_atom val) 0 (val ++ (0 ∷ [])) (Obj.symbol_atom [])
    vector_part :
        {e : Elem} {attr : ℕ} {xs : List ℕ} (ys zs : List ℕ)
        → xs ≡ ys ++ zs
        → IsPart
            (vector e attr xs)
            (elem_size e * length ys)
            (concat (cells (elem_size e) zs))
            (Obj.vector e attr (length xs) ys)
    symbols_part :
        {s : SymbolVector} (ls ms : List LocInfo) (ds es : List ℕ)
        → s.m_locs ≡ ls ++ ms
        → s.m_data ≡ ds ++ es
        → Symbols (length ds) ms es
        → IsPart
            (symbol_vector s)
            (length ds)
            es
            (Obj.symbol_vector s.m_attr (length s.m_locs) ls ds)
    list_part :
        {attr : ℕ} {vs : Kdbs} {n : ℕ} {tail : List ℕ} {os : Objs}
        → AreParts vs n tail os
        → IsPart (list attr vs) n tail (Obj.list attr (size vs) os)
    table_part :
        {cols : SymbolVector} {attr : ℕ} {vs : Kdbs} {n : ℕ} {tail : List ℕ} {s t : Slot}
        → IsPair (symbol_vector cols) (list attr vs) n tail s t
        → IsPart (table cols attr vs) n tail (Obj.table s t)
    dict_part :
        {k v : Kdb} {n : ℕ} {tail : List ℕ} {s t : Slot}
        → IsPair k v n tail s t
        → IsPart (dict k v) n tail (Obj.dict s t)
    function_part :
        {vec : List ℕ} (ys zs : List ℕ)
        → vec ≡ ys ++ zs
        → IsPart (function vec) (length ys) zs (Obj.function (length vec) ys)
    primitive_part :
        {p : Primitive} {val : ℕ} → IsPart (primitive p val) 0 (val ∷ []) (Obj.primitive p 0)
    projection_part :
        {vs : Kdbs} {n : ℕ} {tail : List ℕ} {os : Objs}
        → AreParts vs n tail os
        → IsPart (projection vs) n tail (Obj.projection (size vs) os)

  pub data IsPair : Kdb → Kdb → ℕ → List ℕ → Slot → Slot → Type 0 where
    neither : {u v : Kdb} → IsPair u v 0 (encode u ++ encode v) null null
    in_first :
        {u v : Kdb} {n : ℕ} {tail : List ℕ} {o : Obj}
        → IsPart u n tail o
        → IsPair u v (hdr_sz u + n) (tail ++ encode v) (full o) null
    after_first : {u v : Kdb} → IsPair u v (wire_sz u) (encode v) (full (done u)) null
    in_second :
        {u v : Kdb} {n : ℕ} {tail : List ℕ} {o : Obj}
        → IsPart v n tail o
        → IsPair u v (wire_sz u + (hdr_sz v + n)) tail (full (done u)) (full o)

  pub data AreParts : Kdbs → ℕ → List ℕ → Objs → Type 0 where
    none_of : {vs : Kdbs} → AreParts vs 0 (encodes vs) onil
    last_of :
        {v : Kdb} {vs : Kdbs} {n : ℕ} {tail : List ℕ} {o : Obj}
        → IsPart v n tail o
        → AreParts (cons v vs) (hdr_sz v + n) (tail ++ encodes vs) (ocons o onil)
    more_of :
        {v : Kdb} {vs : Kdbs} {n : ℕ} {tail : List ℕ} {os : Objs}
        → AreParts vs n tail os
        → AreParts (cons v vs) (wire_sz v + n) tail (ocons (done v) os)

-- What a call of `read` on a part may do, where the bytes that it sees and those `unseen` are its
-- tail and `more`: it ends with all of the object and the buffer behind it, or, if it does not see
-- the tail's last byte, with a part that more bytes went into.
pub data Reads {X : Type 0} (P : ℕ → List ℕ → X → Type 0) (all : X) (n : ℕ) (tail : List ℕ)
    (b : ReadBuf) (unseen more : List ℕ) : ReadResult → X → ReadBuf → Type 0 where
  whole :
      {b' : ReadBuf}
      → neg_part b'.m_csr ≡ 0
      → b'.m_rest ++ unseen ≡ more
      → b'.m_off ≡ b.m_off + length tail
      → Reads P all n tail b unseen more ReadResult.rd_ok all b'
  short :
      {o : X} {b' : ReadBuf} (front rest : List ℕ)
      → tail ≡ front ++ rest
      → b'.m_off ≡ b.m_off + length front
      → length b.m_rest < length tail
      → length front ≤ length b.m_rest
      → P (n + length front) rest o
      → Reads P all n tail b unseen more ReadResult.rd_incomplete o b'

abbrev pub OnOut : (ReadResult → Obj → ReadBuf → Type 0) → Out → Type 0
OnOut P (out rr o b) = P rr o b

abbrev pub OnList : (ReadResult → Objs → ReadBuf → Type 0) → ListOut → Type 0
OnList P (list_out rr os b) = P rr os b

-- A call of `read` that goes on with a part of `v`.
abbrev pub Resumes : (Obj → ReadBuf → Out) → Kdb → Type 0
Resumes call v =
    (n : ℕ) (tail : List ℕ) (o : Obj) (b : ReadBuf) (unseen more : List ℕ)
    → IsPart v n tail o
    → neg_part (pass (hdr_sz v) b).m_csr ≡ n
    → b.m_rest ++ unseen ≡ tail ++ more
    → OnOut (Reads (IsPart v) (done v) n tail b unseen more) (call o b)
