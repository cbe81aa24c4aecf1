-- ===== src/Ipc/Symbols.antt =====
-- KdbSymbolVector (ipc++/src/KdbType.C): how it is built and asked for its symbols.
pub mod Layout
mod Tests
use mgkdb.Prelude.{
  ℕ, zero, suc, ◌+◌, ◌-◌, ◌%◌, ◌^◌, Bool, true, false, ◌&&◌, Option, none, some, List, [], ◌∷◌,
  ◌++◌, length, take, drop, get_elem?, ◌==◌, if◌then◌else◌,
}
use mgkdb.Ipc.Types.{sz_byte}
use mgkdb.Ipc.Object.{LocInfo, SymbolVector}

-- The constructor with a capacity.
unfoldable pub with_capacity : ℕ → SymbolVector
with_capacity attr = record { m_attr = attr; m_locs = []; m_data = [] }

-- The first loop of the constructor from a list: the offsets from `cap` on, and the lengths.
unfoldable pub locate : ℕ → List (List ℕ) → List LocInfo
locate cap [] = []
locate cap (v ∷ vals) =
    let len = length v + sz_byte in
    record { c_off = cap % 2 ^ 32; c_len = len % 2 ^ 32 } ∷ locate (cap + len) vals

-- The second loop: of each value as many bytes as its length says.
unfoldable pub gather : List LocInfo → List (List ℕ) → List ℕ
gather locs [] = []
gather [] (v ∷ vals) = []
gather (l ∷ locs) (v ∷ vals) = take (l.c_len - sz_byte) v ++ (0 ∷ gather locs vals)

-- The constructor from a list.
unfoldable pub of_vals : ℕ → List (List ℕ) → SymbolVector
unfolding locate gather
of_vals attr vals = record {
  m_attr = attr;
  m_locs = locate 0 vals;
  m_data = gather (locate 0 vals) vals;
}

-- The string_view that an entry stands for.
unfoldable pub view : List ℕ → LocInfo → List ℕ
view syms l = take (l.c_len - 1) (drop l.c_off syms)

abbrev pub viewed : List ℕ → Option LocInfo → Option (List ℕ)
viewed syms none = none
viewed syms (some l) = some (view syms l)

-- `getString`; `none` is the exception.
unfoldable pub get_string : SymbolVector → ℕ → Option (List ℕ)
get_string s idx = viewed s.m_data (get_elem? s.m_locs idx)

-- Comparison of two string_views.
abbrev pub same_text : List ℕ → List ℕ → Bool
same_text [] [] = true
same_text [] (y ∷ ys) = false
same_text (x ∷ xs) [] = false
same_text (x ∷ xs) (y ∷ ys) = x == y && same_text xs ys

-- The loop of `indexOf` from the index `i` on; `none` is -1.
unfoldable pub index_loop : List ℕ → List ℕ → ℕ → List LocInfo → Option ℕ
unfolding view
index_loop syms col i [] = none
index_loop syms col i (l ∷ locs) =
    let rest = index_loop syms col (i + 1) locs in
    if same_text (view syms l) col then some i else rest

-- `indexOf`, for fewer than 2 ^ 31 symbols: the int32_t is the index.
unfoldable pub index_of : SymbolVector → List ℕ → Option ℕ
unfolding index_loop
index_of s col = index_loop s.m_data col 0 s.m_locs
