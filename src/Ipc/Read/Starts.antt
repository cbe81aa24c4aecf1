-- ===== src/Ipc/Read/Starts.antt =====
-- The bytes of a value are a header, from which `newInstance` makes the object, and a body.
use mgkdb.Prelude.{ℕ, ◌%◌, ◌≡◌, refl, List, [], ◌∷◌, ◌++◌, append-nil, length, All, arith}
use mgkdb.Prelude.Int.{neg_part}
use mgkdb.Prelude.Bytes.{le_bytes, IsByte}
use mgkdb.Ipc.Types.{KdbType, Elem, Primitive, i8typ, atom_type, vector_type, primitive_type}
use mgkdb.Ipc.Object.{
  LocInfo, Kdb, exception, atom, symbol_atom, vector, symbol_vector, list, table, dict, function,
  primitive, projection, size,
}
use mgkdb.Ipc.Write.Encode.{hdr, chunks, encode}
use mgkdb.Ipc.Write.Size.{concat-append}
use mgkdb.Ipc.Payload.Encoded.{IsText}
use mgkdb.Ipc.ReadBuf.{ReadBuf}
use mgkdb.Ipc.Read.Obj.{Obj}
use mgkdb.Ipc.Read.New.{label, new_instance, new_case, new_vec32, new_atom}
use mgkdb.Ipc.Read.Made.{body, head, fresh}
use mgkdb.Ipc.Read.Headers.{
  atom_label, vector_label, primitive_label, Starts, start, atom_starts, vec_starts, vec_waits,
  table_starts, table_waits, function_starts, function_waits, projection_starts, projection_waits,
}
use mgkdb.Ipc.Read.Elems.{cells-bytes}
use mgkdb.Ipc.Read.Part.{IsReadable, hdr_sz, Symbols, no_symbols, more_symbols}

text_bytes : (s : List ℕ) → All IsText s → All IsByte s
text_bytes [] t = tt
text_bytes (b ∷ s) ((p, q), t) = (q, text_bytes s t)

bytes_append : (s t : List ℕ) → All IsByte s → All IsByte t → All IsByte (s ++ t)
bytes_append [] t f g = g
bytes_append (x ∷ s) t (f, fs) g = (f, bytes_append s t fs g)

Symbols-bytes : (off : ℕ) (ls : List LocInfo) (es : List ℕ) → Symbols off ls es → All IsByte es
Symbols-bytes off ls es no_symbols = tt
Symbols-bytes off ls es (more_symbols {bytes = bytes} t text el e rest) =
    rw e
      (bytes_append t (0 ∷ bytes) (text_bytes t text) (omega arith, Symbols-bytes _ _ bytes rest))

pub encode-split : (v : Kdb) → IsReadable v → encode v ≡ head v ++ body v
unfolding encode chunks
encode-split (exception msg) r = rw append-nil
encode-split (atom e val) r = rw append-nil
encode-split (symbol_atom val) r = rw append-nil
encode-split (vector e attr xs) r = refl
encode-split (symbol_vector s) (a, n, m) =
    rw (cells-bytes s.m_data (Symbols-bytes 0 s.m_locs s.m_data m))
encode-split (list attr vs) r = refl
encode-split (table cols attr vs) r = rw concat-append
encode-split (dict k v) r = rw concat-append
encode-split (function vec) (n, f) = rw (cells-bytes vec f)
encode-split (primitive p val) r = let e : val % 256 ≡ val = omega arith in rw (append-nil, e)
encode-split (projection vs) r = refl

atom_case : (e : Elem) (b : ReadBuf) → new_case (atom_type e) b ≡ new_atom (Obj.atom e 0) b
atom_case Elem.time b = refl
atom_case _ b = refl

vector_case :
    (e : Elem) (b : ReadBuf)
    → new_case (vector_type e) b ≡ new_vec32 (λ attr n. Obj.vector e attr n []) b
vector_case Elem.time b = refl
vector_case _ b = refl

primitive_case :
    (p : Primitive) (b : ReadBuf) → new_case (primitive_type p) b ≡ new_atom (Obj.primitive p 0) b
primitive_case Primitive.unary b = refl
primitive_case _ b = refl

-- `newInstance`, with an active cursor and a buffer that shows as much as one likes of a value's
-- header and what follows, makes the empty object of the value's class, with its attribute and its
-- capacity, and takes just the header, or it answers RD_INCOMPLETE and takes nothing, which it does
-- only if the buffer ends within the header. It needs the value to be one that the wire format can
-- express.
pub new_instance_lem :
    (v : Kdb) (b : ReadBuf) (unseen behind : List ℕ)
    → IsReadable v
    → neg_part b.m_csr ≡ 0
    → b.m_rest ++ unseen ≡ head v ++ behind
    → Starts (fresh v) (hdr_sz v) b unseen behind (new_instance b)
unfolding label
new_instance_lem (exception msg) b u m r c h =
    start b u m c _ KdbType.exception 128 [] refl h (λ t e n. atom_starts b u m c _ 128 t e n)
      (λ p few. absurd (omega arith))
new_instance_lem (atom e val) b u m r c h =
    start b u m c (Obj.atom e 0) (atom_type e) (i8typ (atom_type e) % 256) [] (atom_label e) h
      (λ t e' n. rw (atom_case e b) (atom_starts b u m c _ _ t e' n))
      (λ p few. absurd (omega arith))
new_instance_lem (symbol_atom val) b u m r c h =
    start b u m c _ KdbType.symbol_atom 245 [] refl h (λ t e n. atom_starts b u m c _ 245 t e n)
      (λ p few. absurd (omega arith))
new_instance_lem (vector e attr xs) b u m (a, n, f) c h =
    start b u m c (Obj.vector e attr (length xs) []) (vector_type e) (i8typ (vector_type e) % 256)
      (le_bytes 1 attr ++ le_bytes 4 (length xs)) (vector_label e) h
      (λ t e' n'. rw (vector_case e b) (vec_starts b u m c _ _ attr (length xs) t a n e' n'))
      (λ p few. rw (vector_case e b) (vec_waits b u m c _ _ few))
new_instance_lem (symbol_vector s) b u m (a, n, f) c h =
    start b u m c _ KdbType.symbol_vector 11 (le_bytes 1 s.m_attr ++ le_bytes 4 (length s.m_locs))
      refl h (λ t e n'. vec_starts b u m c _ 11 s.m_attr (length s.m_locs) t a n e n')
      (λ p few. vec_waits b u m c _ _ few)
new_instance_lem (list attr vs) b u m (a, n, f) c h =
    start b u m c _ KdbType.list 0 (le_bytes 1 attr ++ le_bytes 4 (size vs)) refl h
      (λ t e n'. vec_starts b u m c _ 0 attr (size vs) t a n e n')
      (λ p few. vec_waits b u m c _ _ few)
new_instance_lem (table cols attr vs) b u m r c h =
    start b u m c _ KdbType.table 98 (0 ∷ 99 ∷ []) refl h (λ t e n. table_starts b u m c t e n)
      (λ p few. table_waits b u m c few)
new_instance_lem (dict k v) b u m r c h =
    start b u m c _ KdbType.dict 99 [] refl h (λ t e n. atom_starts b u m c _ 99 t e n)
      (λ p few. absurd (omega arith))
new_instance_lem (function vec) b u m (n, f) c h =
    start b u m c _ KdbType.function 100 (0 ∷ hdr KdbType.char_vector 0 (length vec)) refl h
      (λ t e n'. function_starts b u m c (length vec) t n e n')
      (λ p few. function_waits b u m c _ few)
new_instance_lem (primitive p val) b u m r c h =
    start b u m c (Obj.primitive p 0) (primitive_type p) (i8typ (primitive_type p) % 256) []
      (primitive_label p) h (λ t e n. rw (primitive_case p b) (atom_starts b u m c _ _ t e n))
      (λ q few. absurd (omega arith))
new_instance_lem (projection vs) b u m (n, f) c h =
    start b u m c _ KdbType.projection 104 (le_bytes 4 (size vs)) refl h
      (λ t e n'. projection_starts b u m c (size vs) t n e n')
      (λ p few. projection_waits b u m c _ few)
