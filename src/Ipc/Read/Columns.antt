-- ===== src/Ipc/Read/Columns.antt =====
-- `readSyms` and `KdbSymbolVector::read`.
use mgkdb.Prelude.{
  ℕ, suc, ◌+◌, ◌-◌, ◌<◌, ◌≡◌, refl, sym, ap, ap₂, ◌∙◌, List, [], ◌∷◌, ◌++◌, append_assoc,
  append-nil, length, length-append, drop, drop-append_length, take, take-append_length, ltb,
  Bool-cases, inl, inr, arith,
}
use mgkdb.Prelude.Int.{neg_part}
use mgkdb.Ipc.Object.{LocInfo, SymbolVector, symbol_vector}
use mgkdb.Ipc.ReadBuf.{ReadBuf, remaining, ffwd, adj, pass, text_len, syms_loop, read_syms}
use mgkdb.Ipc.Read.Obj.{Obj}
use mgkdb.Ipc.Read.Methods.{Out, out, from_syms, read_symbols}
use mgkdb.Ipc.Read.Cursor.{m_rest-pass, m_rest-ffwd, neg_part-ffwd, neg_part-adj}
use mgkdb.Ipc.Read.Texts.{text_len_lem, text_len_prefix}
use mgkdb.Ipc.Read.Visible.{Seen, all_seen, part_seen, Seen-cases, take_none, too_few, behind_first}
use mgkdb.Ipc.Read.Elems.{row_from, row_out, equal, differ, differ_down}
use mgkdb.Ipc.Read.Part.{
  IsPart, symbols_part, Reads, whole, OnOut, Symbols, no_symbols, more_symbols,
}

-- The vector that is filled to `s`.
module _ (s : SymbolVector) (unseen more : List ℕ) where
  abbrev filled : Obj
  filled = Obj.symbol_vector s.m_attr (length s.m_locs) s.m_locs s.m_data

  abbrev Goes : List ℕ → List ℕ → ReadBuf → Out → Type 0
  Goes ds es b r = OnOut (Reads (IsPart (symbol_vector s)) filled (length ds) es b unseen more) r

  -- A symbol that is all there, and then the others.
  next_symbol :
      (t ds es : List ℕ) (b b' : ReadBuf) (r : Out)
      → b.m_rest ++ unseen ≡ t ++ (es ++ more)
      → b'.m_rest ++ unseen ≡ es ++ more
      → b'.m_off ≡ b.m_off + length t
      → Goes (ds ++ t) es b' r
      → Goes ds (t ++ es) b r
  next_symbol t ds es b b' (out rr o b'') h h' d g =
      behind_first (λ x. x) t es h h' d
        (λ k rest x p.
          let e : length (ds ++ t) + k ≡ length ds + (length t + k) =
            omega (arith, length-append ds t) in
          rw (← e) p)
        g

  loop_lem :
      (ls ms : List LocInfo) (ds es : List ℕ) (b : ReadBuf)
      → s.m_locs ≡ ls ++ ms
      → s.m_data ≡ ds ++ es
      → Symbols (length ds) ms es
      → neg_part b.m_csr ≡ 0
      → b.m_rest ++ unseen ≡ es ++ more
      → Goes ds es b (from_syms s.m_attr (length s.m_locs) (syms_loop (length ms) ls ds b))
  unfolding syms_loop
  loop_lem ls [] ds es b el ed no_symbols c h =
      let el' : ls ≡ s.m_locs = sym (el ∙ append-nil ls) in
      let ed' : ds ≡ s.m_data = sym (ed ∙ append-nil ds) in rw (el', ed') (whole c h (omega arith))
  loop_lem ls (l ∷ ms) ds es b el ed (more_symbols {bytes = es'} t text el' e rest) c h =
      by (Seen-cases b.m_rest unseen (t ++ (0 ∷ [])) (es' ++ more) h') (λ b'.
        loop_lem (ls ++ l ∷ []) ms (ds ++ (t ++ (0 ∷ []))) es' b'
          (el ∙ sym (append_assoc ls (l ∷ []) ms))
          (ed
            ∙ ap (λ us. ds ++ us) (e ∙ sym (append_assoc t (0 ∷ []) es'))
            ∙ sym (append_assoc ds (t ++ (0 ∷ [])) es'))
          (let n : length (ds ++ (t ++ (0 ∷ []))) ≡ length ds + (length t + 1) =
              omega (arith, length-append ds (t ++ (0 ∷ [])), length-append t (0 ∷ [])) in
            rw n rest))
    where
      h' : b.m_rest ++ unseen ≡ (t ++ (0 ∷ [])) ++ (es' ++ more)
      h' =
          h
          ∙ ap (λ us. us ++ more) e
          ∙ append_assoc t (0 ∷ es') more
          ∙ sym (append_assoc t (0 ∷ []) (es' ++ more))

      by :
          Seen b.m_rest unseen (t ++ (0 ∷ [])) (es' ++ more)
          → ((b' : ReadBuf)
              → neg_part b'.m_csr ≡ 0
              → b'.m_rest ++ unseen ≡ es' ++ more
              → Goes (ds ++ (t ++ (0 ∷ []))) es' b' (
                  from_syms s.m_attr
                    (length s.m_locs)
                    (syms_loop (length ms) (ls ++ l ∷ []) (ds ++ (t ++ (0 ∷ []))) b')))
          → Goes ds es b
              (from_syms s.m_attr (length s.m_locs) (syms_loop (suc (length ms)) ls ds b))
      by (all_seen r d m) ih =
          let d' : b.m_rest ≡ t ++ (0 ∷ r) = d ∙ append_assoc t (0 ∷ []) r in
          let n : text_len b.m_rest ≡ length t = ap text_len d' ∙ text_len_lem t r text in
          let len : length (t ++ (0 ∷ [])) ≡ length t + 1 = length-append t (0 ∷ []) in
          let more_there : remaining b ≡ length t + suc (length r) =
            ap (length {0}) d' ∙ length-append t (0 ∷ r) in
          let front : take (length t + 1) b.m_rest ≡ t ++ (0 ∷ []) =
            ap₂ (λ k us. take k us) (sym len) d ∙ take-append_length (t ++ (0 ∷ [])) r in
          let back : drop (length t + 1) b.m_rest ≡ r =
            ap₂ (λ k us. drop k us) (sym len) d ∙ drop-append_length (t ++ (0 ∷ [])) r in
          let all_eq : es ≡ (t ++ (0 ∷ [])) ++ es' = e ∙ sym (append_assoc t (0 ∷ []) es') in
          let left : (adj (length t + 1) b).m_rest ++ unseen ≡ es' ++ more =
            unfold adj in ap (λ us. us ++ unseen) back ∙ m in
          rw (n, differ_down (remaining b) (length t) (omega arith), front, ← el', all_eq)
            (next_symbol (t ++ (0 ∷ [])) ds es' b (adj (length t + 1) b) _ h' left
              (unfold adj in ap (λ k. b.m_off + k) (sym len))
              (ih (adj (length t + 1) b) (omega (arith, neg_part-adj (length t + 1) b)) left))
      by (part_seen x missing d) ih =
          let n : text_len b.m_rest ≡ length b.m_rest =
            text_len_prefix t [] b.m_rest x missing text d in
          let all_eq : es ≡ (t ++ (0 ∷ [])) ++ es' = e ∙ sym (append_assoc t (0 ∷ []) es') in
          let few : length b.m_rest < length es = omega (
            arith,
            too_few b.m_rest (t ++ (0 ∷ [])) x missing d,
            ap (length {0}) all_eq,
            length-append (t ++ (0 ∷ [])) es',
          ) in
          rw (n, equal (length b.m_rest) (length b.m_rest) refl)
            (take_none few (symbols_part ls (l ∷ ms) ds es el ed (more_symbols t text el' e rest)))

Symbols-pos :
    {off : ℕ} {l : LocInfo} {ms : List LocInfo} {es : List ℕ}
    → Symbols off (l ∷ ms) es
    → 0 < length es
Symbols-pos (more_symbols {bytes = bytes} t text el e rest) =
    omega (arith, ap (length {0}) e, length-append t (0 ∷ bytes))

-- `ds` is what an earlier buffer left in `m_data`.
pub Symbols-resume :
    (s : SymbolVector) (ls ms : List LocInfo) (ds es : List ℕ) (b : ReadBuf) (unseen more : List ℕ)
    → s.m_locs ≡ ls ++ ms
    → s.m_data ≡ ds ++ es
    → Symbols (length ds) ms es
    → neg_part (pass 6 b).m_csr ≡ length ds
    → b.m_rest ++ unseen ≡ es ++ more
    → OnOut
        (Reads
          (IsPart (symbol_vector s))
          (Obj.symbol_vector s.m_attr (length s.m_locs) s.m_locs s.m_data)
          (length ds)
          es
          b
          unseen
          more)
        (read_symbols s.m_attr (length s.m_locs) ls ds b)
unfolding read_symbols
Symbols-resume s ls [] ds es b unseen more el ed no_symbols c h =
    let el' : ls ≡ s.m_locs = sym (el ∙ append-nil ls) in
    let ed' : ds ≡ s.m_data = sym (ed ∙ append-nil ds) in
    let k : ℕ = length ds in
    rw (el', equal (length s.m_locs) (length s.m_locs) refl)
      (row_from 6 k b (
        rw ed' (
          whole {b' = ffwd (length s.m_data) (pass 6 b)}
            (omega (arith, neg_part-ffwd (length s.m_data) (pass 6 b), ap (length {0}) ed'))
            (ap (λ t. t ++ unseen) (m_rest-ffwd (length s.m_data) (pass 6 b) ∙ m_rest-pass 6 b) ∙ h)
            (omega arith))))
Symbols-resume s ls (l ∷ ms) ds es b unseen more el ed rest c h =
    let n : length s.m_locs ≡ length ls + suc (length ms) =
      ap (length {0}) el ∙ length-append ls (l ∷ ms) in
    let left : length s.m_locs - length ls ≡ suc (length ms) = omega arith in
    let m : (ffwd (length ds) (pass 6 b)).m_rest ≡ b.m_rest =
      m_rest-ffwd (length ds) (pass 6 b) ∙ m_rest-pass 6 b in
    rw (differ (length ls) (length s.m_locs) (omega arith), left)
      (row_out _ _ _ _ 6 (length ds) b unseen more _ (
        syms_lem (ffwd (length ds) (pass 6 b)) (ap (λ t. t ++ unseen) m ∙ h)
          (omega (arith, neg_part-ffwd (length ds) (pass 6 b)))))
  where
    syms_lem :
        (b' : ReadBuf)
        → b'.m_rest ++ unseen ≡ es ++ more
        → neg_part b'.m_csr ≡ 0
        → Goes s unseen more ds es b'
            (from_syms s.m_attr (length s.m_locs) (read_syms (suc (length ms)) ls ds b'))
    syms_lem b' h' c' = elim (Bool-cases (ltb 0 (remaining b'))) [
      | inl y ↦
          unfold read_syms in rw y (loop_lem s unseen more ls (l ∷ ms) ds es b' el ed rest c' h')
      | inr n' ↦
          let few : length b'.m_rest < length es = ground (arith, Symbols-pos rest) in
          unfold read_syms in rw n' (take_none few (symbols_part ls (l ∷ ms) ds es el ed rest))
    ]
