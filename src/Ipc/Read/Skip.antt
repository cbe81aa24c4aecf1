-- ===== src/Ipc/Read/Skip.antt =====
-- Objects that an earlier buffer completed.
use mgkdb.Prelude.{
  ℕ, zero, suc, ◌+◌, ◌-◌, ◌*◌, ◌≤◌, ◌<◌, ◌≡◌, refl, ap, true, false, none, some, Option, List,
  length, ◌==◌, arith,
}
use mgkdb.Prelude.Int.{neg_part}
use mgkdb.Ipc.Types.{KdbType, Elem, Primitive, elem_size}
use mgkdb.Ipc.Object.{
  SymbolVector, Kdb, exception, atom, symbol_atom, vector, symbol_vector, list, table, dict,
  function, primitive, projection, Kdbs, nil, cons, size, wire_sz, wire_szs, vec_wire_sz,
}
use mgkdb.Ipc.ReadBuf.{ReadResult, ReadBuf, cursor_active, ffwd, pass}
use mgkdb.Ipc.Read.Obj.{Obj, Slot, full, onil, osize}
use mgkdb.Ipc.Read.Methods.{
  Out, out, ListOut, list_out, read, read_method, read_text, read_int_atom, read_int_vector,
  read_symbols, read_function, read_primitive, read_table, read_dict, read_member, read_held,
  read_second, read_olds, read_news, read_elements, onward, before, to_list,
}
use mgkdb.Ipc.Write.Chunks.{advance-zero}
use mgkdb.Ipc.Read.Cursor.{ffwd-ffwd, neg_part-ffwd, behind-ffwd, pass-behind}
use mgkdb.Ipc.Read.Part.{done, dones, nest, nests}

same : (n : ℕ) → (n == n) ≡ true
same n = ground arith

pub osize-dones : (vs : Kdbs) → osize (dones vs) ≡ size vs
osize-dones nil = refl
osize-dones (cons v vs) = ap suc (osize-dones vs)

text_skip :
    (mk : List ℕ → Obj) (s : List ℕ) (b : ReadBuf)
    → 1 + length s + 1 ≤ neg_part b.m_csr
    → read_text mk s b ≡ out ReadResult.rd_ok (mk s) (ffwd (1 + length s + 1) b)
unfolding read_text
text_skip mk s b h =
    let e : 1 + length s + 1 ≡ 1 + (length s + 1) = omega arith in
    rw (pass-behind 1 b (omega arith), behind-ffwd 1 b (omega arith), ffwd-ffwd, e)

vector_skip :
    (e : Elem) (attr : ℕ) (xs : List ℕ) (b : ReadBuf)
    → vec_wire_sz (elem_size e) xs ≤ neg_part b.m_csr
    → read_int_vector e attr (length xs) xs b
      ≡ out ReadResult.rd_ok
          (Obj.vector e attr (length xs) xs)
          (ffwd (vec_wire_sz (elem_size e) xs) b)
unfolding read_int_vector vec_wire_sz
vector_skip e attr xs b h =
    let c : 6 + elem_size e * length xs ≡ 6 + length xs * elem_size e = grind arith in
    rw (pass-behind 6 b (omega arith), same (length xs), ffwd-ffwd, c)

symbols_skip :
    (s : SymbolVector) (b : ReadBuf)
    → 6 + length s.m_data ≤ neg_part b.m_csr
    → read_symbols s.m_attr (length s.m_locs) s.m_locs s.m_data b
      ≡ out ReadResult.rd_ok (done (symbol_vector s)) (ffwd (6 + length s.m_data) b)
unfolding read_symbols
symbols_skip s b h = rw (pass-behind 6 b (omega arith), same (length s.m_locs), ffwd-ffwd)

function_skip :
    (vec : List ℕ) (b : ReadBuf)
    → 8 + length vec ≤ neg_part b.m_csr
    → read_function (length vec) vec b
      ≡ out ReadResult.rd_ok (Obj.function (length vec) vec) (ffwd (8 + length vec) b)
unfolding read_function
function_skip vec b h = rw (pass-behind 8 b (omega arith), same (length vec), ffwd-ffwd)

atom_skip :
    (e : Elem) (val : ℕ) (b : ReadBuf)
    → 0 < elem_size e
    → 1 + elem_size e ≤ neg_part b.m_csr
    → read_int_atom e val b ≡ out ReadResult.rd_ok (Obj.atom e val) (ffwd (1 + elem_size e) b)
unfolding read_int_atom
atom_skip e val b hw h =
    rw (pass-behind 1 b (omega arith), behind-ffwd 1 b (omega arith), ffwd-ffwd)

primitive_skip :
    (p : Primitive) (val : ℕ) (b : ReadBuf)
    → 2 ≤ neg_part b.m_csr
    → read_primitive p val b ≡ out ReadResult.rd_ok (Obj.primitive p val) (ffwd 2 b)
unfolding read_primitive
primitive_skip p val b h =
    rw (pass-behind 1 b (omega arith), behind-ffwd 1 b (omega arith), ffwd-ffwd)

pub elem_size_pos : (e : Elem) → 0 < elem_size e
elem_size_pos Elem.time = omega arith
elem_size_pos _ = omega arith

pub wire_sz_pos : (v : Kdb) → 0 < wire_sz v
unfolding wire_sz vec_wire_sz
wire_sz_pos (exception msg) = omega arith
wire_sz_pos (atom e val) = omega arith
wire_sz_pos (symbol_atom val) = omega arith
wire_sz_pos (vector e attr xs) = omega arith
wire_sz_pos (symbol_vector s) = omega arith
wire_sz_pos (list attr vs) = omega arith
wire_sz_pos (table cols attr vs) = omega arith
wire_sz_pos (dict k v) = omega arith
wire_sz_pos (function vec) = omega arith
wire_sz_pos (primitive p val) = omega arith
wire_sz_pos (projection vs) = omega arith

pub nest_pos : (v : Kdb) → 0 < nest v
nest_pos (list attr vs) = omega arith
nest_pos (table cols attr vs) = omega arith
nest_pos (dict k v) = omega arith
nest_pos (projection vs) = omega arith
nest_pos (exception msg) = omega arith
nest_pos (atom e val) = omega arith
nest_pos (symbol_atom val) = omega arith
nest_pos (vector e attr xs) = omega arith
nest_pos (symbol_vector s) = omega arith
nest_pos (function vec) = omega arith
nest_pos (primitive p val) = omega arith

-- The elements of a list that are all there.
abbrev pub befores : Kdbs → ListOut → ListOut
befores nil r = r
befores (cons v vs) r = before (done v) (befores vs r)

-- A call that passes over complete objects.
abbrev pub Skips : (Obj → ReadBuf → Out) → Kdb → Type 0
Skips call v =
    (b : ReadBuf)
    → wire_sz v ≤ neg_part b.m_csr
    → call (done v) b ≡ out ReadResult.rd_ok (done v) (ffwd (wire_sz v) b)

pub ffwd-zero : (b : ReadBuf) → ffwd 0 b ≡ b
unfolding ffwd
ffwd-zero b = rw advance-zero

module _ (call : Obj → ReadBuf → Out) where
  pub olds_skip :
      (vs : Kdbs) (go : ReadBuf → ListOut) (b : ReadBuf)
      → ((v : Kdb) → nest v ≤ nests vs → Skips call v)
      → wire_szs vs ≤ neg_part b.m_csr
      → read_olds call (dones vs) go b ≡ befores vs (go (ffwd (wire_szs vs) b))
  unfolding read_olds onward wire_szs
  olds_skip nil go b ih h = rw ffwd-zero
  olds_skip (cons v vs) go b ih h =
      rw (ih v (omega arith) b (omega arith), onward, ← ffwd-ffwd (wire_sz v) (wire_szs vs) b)
        (ap (before (done v)) (
          olds_skip vs go (ffwd (wire_sz v) b) (λ u l. ih u (omega arith))
            (omega (arith, neg_part-ffwd (wire_sz v) b))))

  befores-all :
      (vs : Kdbs) (b : ReadBuf)
      → befores vs (list_out ReadResult.rd_ok onil b) ≡ list_out ReadResult.rd_ok (dones vs) b
  befores-all nil b = refl
  befores-all (cons v vs) b = ap (before (done v)) (befores-all vs b)

  elements_skip :
      (n : ℕ) (vs : Kdbs) (b : ReadBuf)
      → 0 < n
      → ((v : Kdb) → nest v ≤ nests vs → Skips call v)
      → n + wire_szs vs ≤ neg_part b.m_csr
      → read_elements call (size vs) (dones vs) (pass n b)
        ≡ list_out ReadResult.rd_ok (dones vs) (ffwd (n + wire_szs vs) b)
  unfolding read_elements read_news
  elements_skip n vs b hn ih h =
      let none_left : size vs - osize (dones vs) ≡ 0 = omega (arith, osize-dones vs) in
      rw (
        pass-behind n b (omega arith),
        olds_skip vs _ (ffwd n b) ih (omega (arith, neg_part-ffwd n b)),
        none_left,
        befores-all,
        ffwd-ffwd,
      )

  pair_skip :
      (mk : Slot → Slot → Obj) (s t : Option KdbType) (n : ℕ) (u v : Kdb) (b : ReadBuf)
      → 0 < n
      → Skips call u
      → Skips call v
      → n + wire_sz u + wire_sz v ≤ neg_part b.m_csr
      → read_second call mk t (full (done v)) (read_member call s (full (done u)) (pass n b))
        ≡ out ReadResult.rd_ok
            (mk (full (done u)) (full (done v)))
            (ffwd (n + wire_sz u + wire_sz v) b)
  unfolding read_second read_member read_held
  pair_skip mk s t n u v b hn hu hv h =
      let a : cursor_active (ffwd n b) ≡ false = behind-ffwd n b (omega (arith, wire_sz_pos u)) in
      let a' : cursor_active (ffwd (n + wire_sz u) b) ≡ false =
        behind-ffwd (n + wire_sz u) b (omega (arith, wire_sz_pos v)) in
      rw (
        pass-behind n b (omega arith),
        a,
        hu (ffwd n b) (omega (arith, neg_part-ffwd n b)),
        ffwd-ffwd,
        read_second,
        a',
        hv (ffwd (n + wire_sz u) b) (omega (arith, neg_part-ffwd (n + wire_sz u) b)),
        ffwd-ffwd,
      )

-- A call with an object that is complete, and whose bytes are all to be passed over.
pub read-done : (fuel : ℕ) (v : Kdb) → nest v ≤ fuel → Skips (read fuel) v
unfolding read read_method wire_sz read_table read_dict
read-done zero v hn b h = absurd (omega (arith, nest_pos v))
read-done (suc fuel) (exception msg) hn b h = text_skip Obj.exception msg b h
read-done (suc fuel) (atom e val) hn b h = atom_skip e val b (elem_size_pos e) h
read-done (suc fuel) (symbol_atom val) hn b h = text_skip Obj.symbol_atom val b h
read-done (suc fuel) (vector e attr xs) hn b h = vector_skip e attr xs b h
read-done (suc fuel) (symbol_vector s) hn b h = symbols_skip s b h
read-done (suc fuel) (function vec) hn b h = function_skip vec b h
read-done (suc fuel) (primitive p val) hn b h = primitive_skip p val b h
read-done (suc fuel) (list attr vs) hn b h =
    ap (to_list (λ os. Obj.list attr (size vs) os))
      (elements_skip (read fuel) 6 vs b (omega arith) (λ v l. read-done fuel v (omega arith)) h)
read-done (suc fuel) (projection vs) hn b h =
    ap (to_list (λ os. Obj.projection (size vs) os))
      (elements_skip (read fuel) 5 vs b (omega arith) (λ v l. read-done fuel v (omega arith)) h)
read-done (suc fuel) (dict k v) hn b h =
    pair_skip (read fuel) Obj.dict none none 1 k v b (omega arith) (read-done fuel k (omega arith))
      (read-done fuel v (omega arith)) h
read-done (suc fuel) (table cols attr vs) hn b h =
    pair_skip (read fuel) Obj.table (some KdbType.symbol_vector) (some KdbType.list) 3
      (symbol_vector cols) (list attr vs) b (omega arith)
      (read-done fuel (symbol_vector cols) (omega arith))
      (read-done fuel (list attr vs) (omega arith)) h
