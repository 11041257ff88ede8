-- ===== src/Vfs/Rename/Missing.antt =====
-- `sb_rename` into a directory that does not exist.
use sbfs.Prelude.{ℕ, ◌≡◌, refl, true, some}
use sbfs.Store.{BlockStore}
use sbfs.Position.{Position, invalid}
use sbfs.Path.{Str}
use sbfs.Layout.{Fs}
use sbfs.Vfs.{Vfs, done, crash, existing, resolve_path, split_from_last_slash}
use sbfs.Vfs.Rename.{rename, unlink_child, usable, set_inode}

module _ (bs : BlockStore) (fs : Fs) (now : ℕ) where
  -- Where the directory of the new path does not resolve, the old entry is unlinked, and then a
  -- null pointer is followed.
  pub rename-missing :
      (old_path new_path : Str) (flags : ℕ) (p i : Position) (v v1 v2 : Vfs bs.State) (s : bs.State)
      → existing bs fs now (split_from_last_slash old_path).0 v ≡ (done p, v1)
      → resolve_path bs fs now (split_from_last_slash new_path).0 v1 ≡ (done invalid, v2)
      → unlink_child bs fs now p (split_from_last_slash old_path).1 v2.dev ≡ ((true, some i), s)
      → rename bs fs now old_path new_path flags v ≡ (crash, record v2 { dev = s })
  unfolding rename usable set_inode
  rename-missing old_path new_path flags p i v v1 v2 s h k l = rw (h, k, l) refl
