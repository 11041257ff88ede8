-- ===== src/Vfs.antt =====
-- The handlers of src/vfs.cpp, which libfuse calls: the state that they share, their results, and
-- the steps that they have in common. The children have the handlers.
pub mod Attributes
pub mod Directories
pub mod Files
pub mod Rename
pub mod Paths
pub mod Keeps
pub mod Start
pub mod Restart
pub mod Requests
pub mod Session
pub mod Resolved
use sbfs.Prelude.{ℕ, ◌+◌, ◌==◌, if◌then◌else◌, Option, none, some, [], ◌∷◌, take, drop, M}
use sbfs.Store.{BlockStore}
use sbfs.Position.{Position, is_valid}
use sbfs.Path.{Str, slash}
use sbfs.Layout.{Fs}
use sbfs.DiskInode.{DiskInode}
use sbfs.DiskInode.Bytes.{read_inode, write_inode}
use sbfs.Inode.{find}
use sbfs.Resolver.{Resolver, Walk, resolve}
use sbfs.Fd.{FdManager, get_fd}

-- The error numbers that the handlers return, negated.
pub data Errno : Type 0 where
  enoent eio einval ebadf enotdir enotempty : Errno

-- A handler answers, or returns an error number, or crashes: it follows a pointer that is null or
-- was never set, or throws an exception.
pub data Reply (A : Type 0) : Type 0 where
  done : A → Reply A
  error : Errno → Reply A
  crash : Reply A

-- The device of `sbfs`, `path_resolver` and `fd_manager`.
pub record Vfs (S : Type 0) : Type 0 where
  pub dev : S
  pub resolver : Resolver
  pub fds : FdManager

abbrev pub Handler : Type 0 → Type 0 → Type 0
Handler S A = Vfs S → Reply A × Vfs S

abbrev pub and_then : {S A B : Type 0} → Reply A × Vfs S → (A → Handler S B) → Reply B × Vfs S
and_then (done a, v) k = k a v
and_then (error e, v) k = (error e, v)
and_then (crash, v) k = (crash, v)

infixl 5 ◌>>=◌ ◌>>◌
abbrev pub ◌>>=◌ : {S A B : Type 0} → Handler S A → (A → Handler S B) → Handler S B
◌>>=◌ m k v = and_then (m v) k

abbrev pub ◌>>◌ : {S B : Type 0} → Handler S (Unit {0}) → Handler S B → Handler S B
m >> k = m >>= λ _. k

abbrev pub reply : {S A : Type 0} → A → Handler S A
reply a v = (done a, v)

abbrev pub refuse : {S A : Type 0} → Errno → Handler S A
refuse e v = (error e, v)

abbrev pub die : {S A : Type 0} → Handler S A
die v = (crash, v)

module _ {S : Type 0} where
  -- A call whose failure is the error, and one whose result is looked at later or not at all.
  abbrev pub tested : {A : Type 0} → Errno → Option A × S → Vfs S → Reply A × Vfs S
  tested e (none, s) v = (error e, record v { dev = s })
  tested e (some a, s) v = (done a, record v { dev = s })

  abbrev pub or_error : {A : Type 0} → Errno → M S A → Handler S A
  or_error e m v = tested e (m v.dev) v

  abbrev pub attempt : {A : Type 0} → M S A → Handler S (Option A)
  attempt m v = let (o, s) = m v.dev in (done o, record v { dev = s })

  abbrev pub run : {A : Type 0} → (S → A × S) → Handler S A
  run f v = let (a, s) = f v.dev in (done a, record v { dev = s })

  abbrev pub removed : Option Resolver → Handler S (Unit {0})
  removed none v = (crash, v)
  removed (some r) v = (done tt, record v { resolver = r })

  -- `path_resolver->removePrefix`; nothing catches an exception.
  abbrev pub on_resolver : (Resolver → Option Resolver) → Handler S (Unit {0})
  on_resolver f v = removed (f v.resolver) v

  -- `fd_manager->get(fi->fh, &inode)`.
  abbrev pub opened : (fh : ℕ) → Handler S (Option Position)
  opened fh v = (done (get_fd fh v.fds), v)

-- `std::string::rfind` for a character.
pub rfind : ℕ → Str → Option ℕ
rfind c [] = none
rfind c (d ∷ s) = elim (rfind c s) [
  | none ↦ if d == c then some 0 else none
  | some n ↦ some (n + 1)
]

pub split_from_last_slash : Str → Str × Str
unfolding rfind
split_from_last_slash path = elim (rfind slash path) [
  | none ↦ ([], path)
  | some pos ↦ (take (pos + 1) path, drop (pos + 1) path)
]

module _ (bs : BlockStore) (fs : Fs) (now : ℕ) where
  open bs use {State}

  abbrev walked : Position × Walk State → Vfs State → Reply Position × Vfs State
  walked (p, w) v = (done p, record v { resolver = w.resolver; dev = w.dev })

  -- `path_resolver->resolve(path)`.
  unfoldable pub resolve_path : Str → Handler State Position
  resolve_path path v =
      walked
        (resolve (find bs fs now) fs.super_block.root_inode_pos path
          (record { resolver = v.resolver; dev = v.dev }))
        v

  abbrev pub check_valid : Position → Handler State Position
  check_valid p = if is_valid p then reply p else refuse enoent

  -- `resolve`, where an inode that is not valid is refused.
  unfoldable pub existing : Str → Handler State Position
  unfolding resolve_path
  existing path = do p ← resolve_path path; check_valid p

  -- The handle of `fi`, which may be null, or the path.
  unfoldable pub inode_of : Str → (fi : Option ℕ) → Handler State Position
  unfolding existing
  inode_of path none = existing path
  inode_of path (some fh) = do
    p ← opened fh
    elim p [ none ↦ existing path | some inode ↦ check_valid inode ]

  unfoldable pub rmw_diskinode :
      {A : Type 0} → Str → (fi : Option ℕ) → (DiskInode → Reply (A × DiskInode)) → Handler State A
  unfolding inode_of
  rmw_diskinode path fi func = do
    p ← inode_of path fi
    d ← or_error eio (read_inode bs p)
    (a, d') ← (λ v. (func d, v))
    or_error eio (write_inode bs p d')
    reply a
