-- ===== src/Ipc/Symbols/Layout.antt =====
-- A symbol vector as the list of its symbols.
use mgkdb.Prelude.{
  ℕ, zero, suc, ◌+◌, ◌-◌, ◌%◌, ◌^◌, ◌<◌, ◌≡◌, refl, sym, ap, ap₂, ◌∙◌, some, List, [], ◌∷◌, ◌++◌,
  append_assoc, append-nil, length, length-append, take, take-append_length, drop-append_length,
  get_elem?, All, arith,
}
use mgkdb.Ipc.Object.{push}
use mgkdb.Ipc.Symbols.{locate, gather, of_vals, view, viewed, get_string}

-- The symbols nose to tail, each with its terminator.
abbrev pub joined : List (List ℕ) → List ℕ
joined [] = []
joined (v ∷ vals) = v ++ (0 ∷ joined vals)

-- A symbol whose entry can hold its length.
abbrev pub IsShort : List ℕ → Type 0
IsShort v = length v + 1 < 2 ^ 32

gather-joined :
    (cap : ℕ) (vals : List (List ℕ))
    → All IsShort vals
    → gather (locate cap vals) vals ≡ joined vals
unfolding gather locate
gather-joined cap [] s = refl
gather-joined cap (v ∷ vals) (h, hs) =
    let n : (length v + 1) % 2 ^ 32 - 1 ≡ length v = omega arith in
    let t : take (length v) v ≡ v =
      ap (take (length v)) (sym (append-nil v)) ∙ take-append_length v [] in
    rw (n, t, gather-joined (cap + (length v + 1)) vals hs)

joined-append :
    (vals : List (List ℕ)) (v : List ℕ) → joined (vals ++ v ∷ []) ≡ joined vals ++ (v ++ (0 ∷ []))
joined-append [] v = refl
joined-append (w ∷ vals) v =
    ap (λ us. w ++ (0 ∷ us)) (joined-append vals v)
    ∙ sym (append_assoc w (0 ∷ joined vals) (v ++ (0 ∷ [])))

locate-append :
    (cap : ℕ) (vals : List (List ℕ)) (v : List ℕ)
    → locate cap (vals ++ v ∷ []) ≡ locate cap vals ++ locate (cap + length (joined vals)) (v ∷ [])
unfolding locate
locate-append cap [] v = let z : cap + 0 ≡ cap = omega arith in rw z
locate-append cap (w ∷ vals) v =
    let n : cap + (length w + 1) + length (joined vals) ≡ cap + length (joined (w ∷ vals)) =
      omega (arith, length-append w (0 ∷ joined vals)) in
    rw (locate-append (cap + (length w + 1)) vals v, n)

All-append :
    (vals : List (List ℕ)) (v : List ℕ)
    → All IsShort vals
    → IsShort v
    → All IsShort (vals ++ v ∷ [])
All-append [] v s h = (h, tt)
All-append (w ∷ vals) v (s, ss) h = (s, All-append vals v ss h)

-- Pushing a symbol onto the vector that the constructor makes from a list gives the vector that the
-- constructor makes from the list with the symbol behind it. The symbols need lengths that the 32 bits of
-- an entry hold.
pub push-of_vals :
    (attr : ℕ) (vals : List (List ℕ)) (v : List ℕ)
    → All IsShort vals
    → IsShort v
    → push (of_vals attr vals) v ≡ of_vals attr (vals ++ v ∷ [])
unfolding push of_vals
push-of_vals attr vals v s h =
    let a : gather (locate 0 vals) vals ≡ joined vals = gather-joined 0 vals s in
    let b : gather (locate 0 (vals ++ v ∷ [])) (vals ++ v ∷ []) ≡ joined vals ++ (v ++ (0 ∷ [])) =
      gather-joined 0 (vals ++ v ∷ []) (All-append vals v s h) ∙ joined-append vals v in
    let c : locate 0 (vals ++ v ∷ [])
        ≡ locate 0 vals
          ++ record { c_off = length (joined vals) % 2 ^ 32; c_len = (length v + 1) % 2 ^ 32 }
            ∷ [] =
      locate-append 0 vals v
      ∙ ap (λ k. locate 0 vals ++ locate k (v ∷ [])) (omega arith)
      ∙ (unfold locate in refl) in
    ap₂ (λ ls ds. record { m_attr = attr; m_locs = ls; m_data = ds })
      (ap
          (λ us.
            locate 0 vals
            ++ record { c_off = length us % 2 ^ 32; c_len = (length v + 1) % 2 ^ 32 } ∷ [])
          a
        ∙ sym c)
      (ap (λ us. us ++ (v ++ (0 ∷ []))) a ∙ sym b)

view_lem :
    (front v back : List ℕ)
    → length front < 2 ^ 32
    → IsShort v
    → view
        (front ++ (v ++ back))
        record { c_off = length front % 2 ^ 32; c_len = (length v + 1) % 2 ^ 32 }
      ≡ v
unfolding view
view_lem front v back hf hv =
    let n : (length v + 1) % 2 ^ 32 - 1 ≡ length v = omega arith in
    let k : length front % 2 ^ 32 ≡ length front = omega arith in
    rw (n, k, drop-append_length front (v ++ back), take-append_length v back)

-- The entries and the bytes behind `front`.
at_place :
    (front : List ℕ) (vals : List (List ℕ)) (i : ℕ)
    → length front + length (joined vals) < 2 ^ 32
    → viewed (front ++ joined vals) (get_elem? (locate (length front) vals) i) ≡ get_elem? vals i
unfolding locate
at_place front [] i h = refl
at_place front (v ∷ vals) zero h = ap some (
    view_lem front v (0 ∷ joined vals) (omega arith)
      (omega (arith, length-append v (0 ∷ joined vals))))
at_place front (v ∷ vals) (suc i) h =
    let n : length front + (length v + 1) ≡ length (front ++ (v ++ (0 ∷ []))) = sym (
      length-append front (v ++ (0 ∷ []))
      ∙ ap (λ k. length front + k) (length-append v (0 ∷ []))) in
    let e : front ++ (v ++ (0 ∷ joined vals)) ≡ (front ++ (v ++ (0 ∷ []))) ++ joined vals =
      ap (λ us. front ++ us) (sym (append_assoc v (0 ∷ []) (joined vals)))
      ∙ sym (append_assoc front (v ++ (0 ∷ [])) (joined vals)) in
    ap₂ (λ k us. viewed us (get_elem? (locate k vals) i)) n e
    ∙ at_place (front ++ (v ++ (0 ∷ []))) vals i
        (omega (arith, n, length-append v (0 ∷ joined vals)))

All-IsShort : (vals : List (List ℕ)) → length (joined vals) < 2 ^ 32 → All IsShort vals
All-IsShort [] h = tt
All-IsShort (v ∷ vals) h = (
  omega (arith, length-append v (0 ∷ joined vals)),
  All-IsShort vals (omega (arith, length-append v (0 ∷ joined vals))),
)

-- What `getString` returns at any index of a vector that was made from a list is the symbol at that
-- index of the list, and it throws where the list has none. With their terminators the symbols are
-- fewer bytes than the 32 bits of an offset can count.
pub get_string-of_vals :
    (attr : ℕ) (vals : List (List ℕ)) (i : ℕ)
    → length (joined vals) < 2 ^ 32
    → get_string (of_vals attr vals) i ≡ get_elem? vals i
unfolding get_string of_vals
get_string-of_vals attr vals i h =
    let a : gather (locate 0 vals) vals ≡ joined vals = gather-joined 0 vals (All-IsShort vals h) in
    ap (λ us. viewed us (get_elem? (locate 0 vals) i)) a ∙ at_place [] vals i (omega arith)
