-- ===== src/Core/FileDesc/Size.antt =====
-- The size that a FileDesc keeps.
use mgkdb.Prelude.{
  ℕ, zero, suc, List, ◌<◌, ◌≡◌, ◌⊎◌, inl, inr, refl, Bool-cases, ltb, arith, if◌then◌else◌, false,
}
use mgkdb.Prelude.Int.{ℤ, pos, negsuc}
use mgkdb.Core.FileDesc.{FileDesc, Answer, value, error, set_size, grow_to, close_file}

-- `grow_to` answers 0, and the file then has the larger of the size asked for and its own, or it answers -1,
-- only where `ftruncate` fails and the file is smaller, and changes nothing.
pub grow_to_lem :
    (truncated : Answer) (size : ℕ) (f : FileDesc)
    → (grow_to truncated size f
        ≡ (pos 0, record f { m_sz = if ltb f.m_sz size then size else f.m_sz }))
      ⊎ ((f.m_sz < size)
          × ((e : ℕ) × (truncated ≡ error e))
          × (grow_to truncated size f ≡ (negsuc 0, f)))
unfolding grow_to set_size
grow_to_lem (value n) size f = elim (Bool-cases (ltb f.m_sz size)) [
  | inl less ↦ inl (rw less)
  | inr enough ↦ inl (rw enough)
]
grow_to_lem (error e) size f = elim (Bool-cases (ltb f.m_sz size)) [
  | inl less ↦ inr (ground arith, (e, refl), rw less)
  | inr enough ↦ inl (rw enough)
]

closed :
    (path : List ℕ) (fd : ℤ) (sz : ℕ) (f : FileDesc)
    → f ≡ record { m_path = path; m_fd = fd; m_sz = sz }
    → ((close_file f).1.m_fd ≡ negsuc 0) × (close_file (close_file f).1 ≡ (false, (close_file f).1))
unfolding close_file
closed path (pos n) sz f e = rw e (refl, refl)
closed path (negsuc zero) sz f e = rw e (refl, refl)
closed path (negsuc (suc n)) sz f e = rw e (refl, refl)

-- After `close` there is no descriptor, and closing again calls nothing and changes nothing.
pub close_file-close_file :
    (f : FileDesc)
    → ((close_file f).1.m_fd ≡ negsuc 0) × (close_file (close_file f).1 ≡ (false, (close_file f).1))
close_file-close_file f = closed f.m_path f.m_fd f.m_sz f refl
