-- ===== src/Ipc/Read/Resume.antt =====
-- A call of `read` on a part of an object.
use mgkdb.Prelude.{ℕ, zero, suc, ◌≤◌, ◌≡◌, refl, none, some, List, [], ◌∷◌, ◌++◌, All, arith}
use mgkdb.Prelude.Int.{neg_part}
use mgkdb.Prelude.Bytes.{IsByte}
use mgkdb.Ipc.Types.{KdbType, elem_size}
use mgkdb.Ipc.Object.{
  Kdb, exception, atom, symbol_atom, vector, symbol_vector, list, table, dict, function, primitive,
  projection, size, wire_sz,
}
use mgkdb.Ipc.ReadBuf.{ReadResult, ReadBuf, ffwd, pass}
use mgkdb.Ipc.Read.Obj.{Obj, Objs, m_typ}
use mgkdb.Ipc.Read.Methods.{
  out, ListOut, list_out, to_list, read, read_method, read_table, read_dict,
}
use mgkdb.Ipc.Read.Skip.{read-done, nest_pos}
use mgkdb.Ipc.Read.Texts.{text_resume, atom_resume, primitive_resume}
use mgkdb.Ipc.Read.Functions.{function_resume}
use mgkdb.Ipc.Read.Rows.{vector_resume}
use mgkdb.Ipc.Read.Columns.{Symbols-resume}
use mgkdb.Ipc.Read.Visible.{Reads-map}
use mgkdb.Ipc.Read.Elements.{elements_resume}
use mgkdb.Ipc.Read.Members.{pair_resume}
use mgkdb.Ipc.Read.Part.{
  IsPart, exception_part, atom_part, symbol_part, vector_part, symbols_part, list_part, table_part,
  dict_part, function_part, primitive_part, projection_part, AreParts, Fits, IsReadable, Reads,
  OnOut, OnList, Resumes, done, dones, nest, hdr_sz,
}

All-behind : (P : ℕ → Type 0) (ys zs : List ℕ) → All P (ys ++ zs) → All P zs
All-behind P [] zs f = f
All-behind P (y ∷ ys) zs (f, fs) = All-behind P ys zs fs

All-rest : (P : ℕ → Type 0) (xs ys zs : List ℕ) → xs ≡ ys ++ zs → All P xs → All P zs
All-rest P xs ys zs e f = All-behind P ys zs (rw (← e) f)

on_list :
    (P : ℕ → List ℕ → Objs → Type 0) (Q : ℕ → List ℕ → Obj → Type 0) (mk : Objs → Obj) (all : Objs)
    (n : ℕ) (tail : List ℕ) (b : ReadBuf) (unseen more : List ℕ) (r : ListOut)
    → ((k : ℕ) (rest : List ℕ) (os : Objs) → P k rest os → Q k rest (mk os))
    → OnList (Reads P all n tail b unseen more) r
    → OnOut (Reads Q (mk all) n tail b unseen more) (to_list mk r)
on_list P Q mk all n tail b unseen more (list_out rr os b') up x =
    Reads-map mk (λ k rest os' p. up _ rest os' p) x

-- Any call of `read` on any part: the statement of `Resumes`.
pub read-part : (fuel : ℕ) (v : Kdb) → nest v ≤ fuel → IsReadable v → Resumes (read fuel) v
unfolding read read_method read_table read_dict
read-part zero v hn r n tail o b unseen more p c h = absurd (omega (arith, nest_pos v))
read-part (suc fuel) (exception msg) hn r n tail o b unseen more exception_part c h =
    text_resume _ Obj.exception msg b unseen more r c h exception_part
read-part (suc fuel) (atom e val) hn r n tail o b unseen more atom_part c h =
    atom_resume e val b unseen more r c h
read-part (suc fuel) (symbol_atom val) hn r n tail o b unseen more symbol_part c h =
    text_resume _ Obj.symbol_atom val b unseen more r c h symbol_part
read-part (suc fuel) (vector e attr xs) hn (a, l, f) n tail o b unseen more (vector_part ys zs eq) c
      h =
    vector_resume e attr xs ys zs b unseen more eq (All-rest (Fits (elem_size e)) xs ys zs eq f) c h
read-part (suc fuel) (symbol_vector s) hn r n tail o b unseen more
      (symbols_part ls ms ds es el ed m) c h =
    Symbols-resume s ls ms ds es b unseen more el ed m c h
read-part (suc fuel) (function vec) hn (l, f) n tail o b unseen more (function_part ys zs eq) c h =
    function_resume vec ys zs b unseen more eq (All-rest IsByte vec ys zs eq f) c h
read-part (suc fuel) (primitive p val) hn r n tail o b unseen more primitive_part c h =
    primitive_resume p val b unseen more r c h
read-part (suc fuel) (list attr vs) hn (a, l, rs) n tail o b unseen more (list_part {os = os} p) c
      h =
    on_list (AreParts vs) (IsPart (list attr vs)) (λ os'. Obj.list attr (size vs) os') (dones vs) n
      tail b unseen more _ (λ k rest os' q. list_part q)
      (elements_resume (read fuel) fuel (λ v m. read-part fuel v m) (λ v m. read-done fuel v m) 6 vs
        n tail os b unseen more p rs (omega arith) c h)
read-part (suc fuel) (projection vs) hn (l, rs) n tail o b unseen more (projection_part {os = os} p)
      c h =
    on_list (AreParts vs) (IsPart (projection vs)) (λ os'. Obj.projection (size vs) os') (dones vs)
      n tail b unseen more _ (λ k rest os' q. projection_part q)
      (elements_resume (read fuel) fuel (λ v m. read-part fuel v m) (λ v m. read-done fuel v m) 5 vs
        n tail os b unseen more p rs (omega arith) c h)
read-part (suc fuel) (dict k v) hn (rk, rv) n tail o b unseen more (dict_part {s = s} {t = t} p) c
      h =
    pair_resume (read fuel) Obj.dict none none k v rk rv refl refl
      (read-part fuel k (omega arith) rk) (read-part fuel v (omega arith) rv)
      (read-done fuel k (omega arith)) (IsPart (dict k v)) (λ n' tail' s' t' q. dict_part q) 1 n
      tail s t b unseen more p c h
read-part (suc fuel) (table cols attr vs) hn (rc, rs) n tail o b unseen more
      (table_part {s = s} {t = t} p) c h =
    pair_resume (read fuel) Obj.table (some KdbType.symbol_vector) (some KdbType.list)
      (symbol_vector cols) (list attr vs) rc rs (unfold m_typ in refl) (unfold m_typ in refl)
      (read-part fuel (symbol_vector cols) (omega arith) rc)
      (read-part fuel (list attr vs) (omega arith) rs)
      (read-done fuel (symbol_vector cols) (omega arith)) (IsPart (table cols attr vs))
      (λ n' tail' s' t' q. table_part q) 3 n tail s t b unseen more p c h

-- A call of `read` for an object that holds any part of a value, with a cursor that says how many
-- bytes of it went before, and a buffer with as much of what is to come as one likes, ends in one of
-- two ways: RD_OK, with all of the value in the object and the buffer just behind it, or
-- RD_INCOMPLETE, which it is only if the buffer ends within the value, with a part again that all the
-- bytes taken from the buffer went into. It needs the value to be one that the wire format can express.
pub read_lem :
    (fuel : ℕ) (v : Kdb) (n : ℕ) (tail : List ℕ) (o : Obj) (b : ReadBuf) (unseen more : List ℕ)
    → nest v ≤ fuel
    → IsReadable v
    → IsPart v n tail o
    → neg_part (pass (hdr_sz v) b).m_csr ≡ n
    → b.m_rest ++ unseen ≡ tail ++ more
    → OnOut (Reads (IsPart v) (done v) n tail b unseen more) (read fuel o b)
read_lem fuel v n tail o b unseen more enough r p c h =
    read-part fuel v enough r n tail o b unseen more p c h

-- A call of `read` for an object that is all there, with a cursor that still has to pass over all of
-- its bytes, changes neither the object nor the bytes of the buffer and moves the cursor on by just the
-- object's size on the wire.
pub read_done_lem :
    (fuel : ℕ) (v : Kdb) (b : ReadBuf)
    → nest v ≤ fuel
    → wire_sz v ≤ neg_part b.m_csr
    → read fuel (done v) b ≡ out ReadResult.rd_ok (done v) (ffwd (wire_sz v) b)
read_done_lem fuel v b enough h = read-done fuel v enough b h
