-- ===== src/Fd/Open.antt =====
-- `FDManager::isOpen` against the handles.

use sbfs.Prelude.{ℕ, ◌<◌, ◌≡◌, ◌↔◌, true, some, List, [], ◌∷◌, length, arith, inl, inr, Bool-cases}
use sbfs.Position.{Inode, same_key, same_key_iff}
use sbfs.Fd.{u64, FdManager, find_fd, is_open, positive}
use sbfs.Fd.Counts.{Counts, Fresh, handles, handles-erase, handles-le-length, same_key_refl}

handles-find :
    (n : ℕ) (i : Inode) (m : List (ℕ × Inode))
    → Fresh n m
    → 0 < handles i m
    → (fd : ℕ) × (find_fd fd m ≡ some i)
unfolding handles find_fd
handles-find n i [] h p = absurd (omega arith)
handles-find n i ((k, j) ∷ m) h p = elim (Bool-cases (same_key j i)) [
  | inl e ↦ (k, ground (arith, same_key_iff j i))
  | inr e ↦ let (fd, found) = handles-find n i m h.3 (ground arith) in (fd, ground (arith, h.2))
]

find-handles : (fd : ℕ) (i : Inode) (m : List (ℕ × Inode)) → find_fd fd m ≡ some i → 0 < handles i m
find-handles fd i m h = ground (arith, handles-erase fd i i m h, same_key_refl i)

-- Where the reference counts are those of the handles, and there are fewer than 2 ^ 64 handles, an
-- inode counts as open exactly when some handle refers to it.
pub is_open_iff :
    (f : FdManager) (i : Inode)
    → Counts f
    → length f.fds < u64
    → (is_open i f ≡ true) ↔ ((fd : ℕ) × (find_fd fd f.fds ≡ some i))
unfolding is_open positive
is_open_iff f i c h =
    let l = handles-le-length i f.fds in
    let n = c.counts i in
    (
      λ e. handles-find f.fd_counter i f.fds c.fresh (ground arith),
      λ (fd, e). let p = find-handles fd i f.fds e in ground arith,
    )
