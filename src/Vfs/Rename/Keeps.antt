-- ===== src/Vfs/Rename/Keeps.antt =====
-- `sb_rename` leaves the table of handles as it is.
use sbfs.Prelude.{ℕ, Option, none, some}
use sbfs.Store.{BlockStore}
use sbfs.Position.{Position}
use sbfs.Path.{Str}
use sbfs.Layout.{Fs}
use sbfs.Vfs.Keeps.{
  IsKeeping, existing-IsKeeping, reply-IsKeeping, die-IsKeeping, resolve_path-IsKeeping, steps,
}
use sbfs.Vfs.Rename.{rename, set_inode, usable, exchange_child}

module _ (bs : BlockStore) (fs : Fs) (now : ℕ) where
  set_inode-IsKeeping : (o : Option Position) → IsKeeping (set_inode bs fs now o)
  unfolding set_inode
  set_inode-IsKeeping none = die-IsKeeping
  set_inode-IsKeeping (some p) = reply-IsKeeping p

  usable-IsKeeping : (p : Position) → IsKeeping (usable bs fs now p)
  unfolding usable
  usable-IsKeeping p = search (steps, die-IsKeeping)

  exchange_child-IsKeeping :
      (old_parent new_parent : Position) (old_child new_child : Str)
      → IsKeeping (exchange_child bs fs now old_parent new_parent old_child new_child)
  unfolding exchange_child
  exchange_child-IsKeeping old_parent new_parent old_child new_child =
      search (steps, set_inode-IsKeeping)

  pub rename-IsKeeping :
      (old_path new_path : Str) (flags : ℕ) → IsKeeping (rename bs fs now old_path new_path flags)
  unfolding rename
  rename-IsKeeping old_path new_path flags =
      search
        (
          steps, existing-IsKeeping, resolve_path-IsKeeping, set_inode-IsKeeping, usable-IsKeeping,
          exchange_child-IsKeeping,
        )
        depth 14
