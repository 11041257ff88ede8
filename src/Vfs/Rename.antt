-- ===== src/Vfs/Rename.antt =====
-- `sb_rename` of src/vfs.cpp.
pub mod Keeps
pub mod Missing
use sbfs.Prelude.{ℕ, Bool, true, false, not, ◌==◌, if◌then◌else◌, Option, none, some, bit_and}
use sbfs.Store.{BlockStore}
use sbfs.Position.{Position, is_valid}
use sbfs.Path.{Str}
use sbfs.Layout.{Fs}
use sbfs.Inode.{Target}
use sbfs.Inode.Links.{link, unlink}
use sbfs.Resolver.{remove_prefix}
use sbfs.Vfs.{
  Handler, enoent, ◌>>=◌, ◌>>◌, reply, refuse, die, attempt, run, on_resolver,
  split_from_last_slash, existing, resolve_path,
}

-- `RENAME_NOREPLACE` and `RENAME_EXCHANGE`.
abbrev pub noreplace : ℕ
noreplace = 1

abbrev pub exchange : ℕ
exchange = 2

abbrev pub has_flag : (flags flag : ℕ) → Bool
has_flag flags flag = not (bit_and flags flag == 0)

module _ {S : Type 0} where
  -- What `Inode::unlink` returned, and the inode that it filled.
  abbrev seen : Option (Unit {0}) × Target S → (Bool × Option Position) × S
  seen (none, t) = ((false, t.inode), t.dev)
  seen (some _, t) = ((true, t.inode), t.dev)

module _ (bs : BlockStore) (fs : Fs) (now : ℕ) where
  open bs use {State}

  pub unlink_child : Position → Str → State → (Bool × Option Position) × State
  unlink_child parent child s =
      seen (unlink bs fs now parent child (record { inode = none; dev = s }))

  -- The methods of an inode read its pointer to the file system, which is null in an invalid one.
  pub usable : Position → Handler State (Unit {0})
  usable p = if is_valid p then reply tt else die

  -- A filled inode; one that was never set has no pointer to the file system.
  pub set_inode : Option Position → Handler State Position
  set_inode none = die
  set_inode (some p) = reply p

  -- The new entry's inode gets the old entry's name. The results are not tested.
  pub exchange_child :
      (old_parent new_parent : Position) → (old_child new_child : Str) → Handler State (Unit {0})
  unfolding unlink_child set_inode
  exchange_child old_parent new_parent old_child new_child = do
    (_, o) ← run (unlink_child new_parent new_child)
    q ← set_inode o
    _ ← attempt (link bs fs now old_parent old_child q false)
    reply tt

  pub rename : (old_path new_path : Str) → (flags : ℕ) → Handler State (Unit {0})
  unfolding unlink_child usable set_inode exchange_child
  rename old_path new_path flags = do
    old_parent ← existing bs fs now (split_from_last_slash old_path).0
    new_parent ← resolve_path bs fs now (split_from_last_slash new_path).0
    (ok, o) ← run (unlink_child old_parent (split_from_last_slash old_path).1)
    if not ok then refuse enoent else (do
      old_inode ← set_inode o
      usable new_parent
      (if has_flag flags exchange
          then exchange_child old_parent new_parent (split_from_last_slash old_path).1
              (split_from_last_slash new_path).1
          else reply tt)
      _ ← attempt (
          link bs fs now new_parent (split_from_last_slash new_path).1 old_inode
            (not (has_flag flags noreplace)))
      on_resolver (remove_prefix old_path)
      on_resolver (remove_prefix new_path))
