-- ===== src/Vfs/Keeps.antt =====
-- Steps of the handlers that leave the table of handles as it is.
use sbfs.Prelude.{ℕ, Bool, true, false, if◌then◌else◌, ◌≡◌, refl, ◌∙◌, Option, none, some, M}
use sbfs.Store.{BlockStore}
use sbfs.Position.{Position}
use sbfs.Path.{Str}
use sbfs.Layout.{Fs}
use sbfs.DiskInode.{DiskInode}
use sbfs.Resolver.{Resolver}
use sbfs.Vfs.{
  Vfs, Reply, done, error, crash, Errno, Handler, and_then, ◌>>=◌, reply, refuse, die, or_error,
  on_resolver, removed, attempt, run, tested, opened, resolve_path, check_valid, existing, inode_of,
  rmw_diskinode,
}

module _ {S : Type 0} where
  -- The table of handles after a handler is the one before.
  pub record IsKeeping {A : Type 0} (m : Handler S A) : Type 0 where
    pub same : (v : Vfs S) → (m v).1.fds ≡ v.fds

  and_then-fds :
      {A B : Type 0} (r : Reply A × Vfs S) (k : A → Handler S B)
      → ((a : A) → IsKeeping (k a))
      → (and_then r k).1.fds ≡ r.1.fds
  and_then-fds (done a, v) k h = (h a).same v
  and_then-fds (error e, v) k h = refl
  and_then-fds (crash, v) k h = refl

  pub bind-IsKeeping :
      {A B : Type 0} {m : Handler S A} {k : A → Handler S B}
      → IsKeeping m
      → ((a : A) → IsKeeping (k a))
      → IsKeeping (m >>= k)
  bind-IsKeeping {m = m} {k = k} l h = record { same = (λ v. and_then-fds (m v) k h ∙ l.same v) }

  tested-fds :
      {A : Type 0} (e : Errno) (r : Option A × S) (v : Vfs S) → (tested e r v).1.fds ≡ v.fds
  tested-fds e (none, s) v = refl
  tested-fds e (some a, s) v = refl

  pub or_error-IsKeeping : {A : Type 0} (e : Errno) (m : M S A) → IsKeeping (or_error e m)
  or_error-IsKeeping e m = record { same = λ v. tested-fds e (m v.dev) v }

  pub reply-IsKeeping : {A : Type 0} → (a : A) → IsKeeping (reply a)
  reply-IsKeeping a = record { same = λ v. refl }

  pub refuse-IsKeeping : {A : Type 0} → (e : Errno) → IsKeeping {A = A} (refuse e)
  refuse-IsKeeping e = record { same = λ v. refl }

  pub die-IsKeeping : {A : Type 0} → IsKeeping {A = A} die
  die-IsKeeping = record { same = λ v. refl }

  pub attempt-IsKeeping : {A : Type 0} (m : M S A) → IsKeeping (attempt m)
  attempt-IsKeeping m = record { same = λ v. refl }

  pub run-IsKeeping : {A : Type 0} (f : S → A × S) → IsKeeping (run f)
  run-IsKeeping f = record { same = λ v. refl }

  removed-fds : (o : Option Resolver) (v : Vfs S) → (removed o v).1.fds ≡ v.fds
  removed-fds none v = refl
  removed-fds (some r) v = refl

  pub on_resolver-IsKeeping : (f : Resolver → Option Resolver) → IsKeeping (on_resolver f)
  on_resolver-IsKeeping f = record { same = λ v. removed-fds (f v.resolver) v }

  pub opened-IsKeeping : (fh : ℕ) → IsKeeping (opened fh)
  opened-IsKeeping fh = record { same = λ v. refl }

  pub if-IsKeeping :
      {A : Type 0} (c : Bool) {m k : Handler S A}
      → IsKeeping m
      → IsKeeping k
      → IsKeeping (if c then m else k)
  if-IsKeeping true l h = l
  if-IsKeeping false l h = h

  computed-IsKeeping : {A : Type 0} (r : Reply A) → IsKeeping (λ v. (r, v))
  computed-IsKeeping r = record { same = λ v. refl }

  -- The inode of a handle, or another step where there is none.
  pub found-IsKeeping :
      {A : Type 0} (o : Option Position) (m : Handler S A) (k : Position → Handler S A)
      → IsKeeping m
      → ((p : Position) → IsKeeping (k p))
      → IsKeeping (elim o [ none ↦ m | some p ↦ k p ])
  found-IsKeeping none m k l h = l
  found-IsKeeping (some p) m k l h = h p

pub ruleset steps = (
  bind-IsKeeping, if-IsKeeping, or_error-IsKeeping, attempt-IsKeeping, run-IsKeeping,
  on_resolver-IsKeeping, reply-IsKeeping, refuse-IsKeeping,
)

module _ (bs : BlockStore) (fs : Fs) (now : ℕ) where
  open bs use {State}

  check_valid-IsKeeping : (p : Position) → IsKeeping (check_valid bs fs now p)
  check_valid-IsKeeping p = search (if-IsKeeping, reply-IsKeeping, refuse-IsKeeping)

  pub resolve_path-IsKeeping : (path : Str) → IsKeeping (resolve_path bs fs now path)
  unfolding resolve_path
  resolve_path-IsKeeping path = record { same = λ v. refl }

  pub existing-IsKeeping : (path : Str) → IsKeeping (existing bs fs now path)
  unfolding existing
  existing-IsKeeping path = bind-IsKeeping (resolve_path-IsKeeping path) check_valid-IsKeeping

  inode_of-IsKeeping : (path : Str) (fi : Option ℕ) → IsKeeping (inode_of bs fs now path fi)
  unfolding inode_of
  inode_of-IsKeeping path none = existing-IsKeeping path
  inode_of-IsKeeping path (some fh) = bind-IsKeeping (opened-IsKeeping fh) (λ p.
      found-IsKeeping p (existing bs fs now path) (check_valid bs fs now) (existing-IsKeeping path)
        check_valid-IsKeeping)

  pub rmw_diskinode-IsKeeping :
      {A : Type 0} (path : Str) (fi : Option ℕ) (func : DiskInode → Reply (A × DiskInode))
      → IsKeeping (rmw_diskinode bs fs now path fi func)
  unfolding rmw_diskinode
  rmw_diskinode-IsKeeping path fi func =
      search (bind-IsKeeping, inode_of-IsKeeping, or_error-IsKeeping, computed-IsKeeping)
