-- ===== src/Ipc/Read/Pieces.antt =====
-- `KdbIpcDecompressor::uncompress` (ipc++/src/KdbType.C) on bytes that arrive in pieces.
use mgkdb.Prelude.{ℕ, ◌-◌, ◌≡◌, List, ◌++◌}
use mgkdb.Ipc.ReadBuf.{ReadBuf}
use mgkdb.Ipc.Read.Inflate.{Inflater, Round, next, stop, wild, uncompress}

-- The buffer with more bytes behind it.
abbrev pub longer : ReadBuf → List ℕ → ReadBuf
longer b ys = record b { m_rest = b.m_rest ++ ys }

-- A round that goes on does so too with more bytes behind.
abbrev Extends : List ℕ → Round → Round → Type 0
Extends ys (next z b) r = r ≡ next z (longer b ys)
Extends ys (stop z b) r = Unit
Extends ys wild r = Unit

module _ (ys : List ℕ) where
  -- What is still missing.
  abbrev missing : Inflater → ℕ
  missing z = z.m_msg_len - z.m_off

  -- The end of the rounds on the shorter buffer, and the rounds on the longer one.
  abbrev pub Continues : Round → Round → Type 0
  Continues (next z b) r = Unit
  Continues (stop z b) r = r ≡ uncompress z (longer b ys)
  Continues wild r = Unit
