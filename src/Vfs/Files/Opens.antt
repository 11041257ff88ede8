-- ===== src/Vfs/Files/Opens.antt =====
-- The handlers that open a file leave the table of handles as it is, or add one handle to it.
use mathlib.Core.Path.{subst}
use sbfs.Prelude.{ℕ, ◌≡◌, refl, ◌∙◌, sym, ap, ◌⊎◌, inl, inr}
use sbfs.Store.{BlockStore}
use sbfs.Position.{Position, Inode}
use sbfs.Path.{Str}
use sbfs.Layout.{Fs}
use sbfs.Fd.{FdManager, open_fd}
use sbfs.Vfs.{Vfs, Reply, done, error, crash, Handler, and_then, ◌>>=◌, existing}
use sbfs.Vfs.Keeps.{IsKeeping, existing-IsKeeping, run-IsKeeping}
use sbfs.Vfs.Files.{open_handle, create, open_file}

-- The table, or the table with one more handle.
abbrev pub Longer : FdManager → FdManager → Type 0
Longer f g = (g ≡ f) ⊎ ((i : Inode) × (g ≡ (open_fd i f).1))

-- An answer with an inode, and the table after it got the handle `fh`.
abbrev pub HandleOf : Reply Position → FdManager → ℕ → FdManager → Type 0
HandleOf r f fh g = (p : Position) × (r ≡ done p) × ((open_fd p f).0 ≡ fh) × ((open_fd p f).1 ≡ g)

module _ {S : Type 0} where
  pub record IsOpening {A : Type 0} (m : Handler S A) : Type 0 where
    pub grows : (v : Vfs S) → Longer v.fds (m v).1.fds

  keeps_first :
      {A B : Type 0} (f : FdManager) (r : Reply A × Vfs S) (k : A → Handler S B)
      → r.1.fds ≡ f
      → ((a : A) → IsOpening (k a))
      → Longer f (and_then r k).1.fds
  keeps_first f (done a, v) k e h = subst (λ g. Longer g (k a v).1.fds) e ((h a).grows v)
  keeps_first f (error x, v) k e h = inl e
  keeps_first f (crash, v) k e h = inl e

  keeps_last :
      {A B : Type 0} (f : FdManager) (r : Reply A × Vfs S) (k : A → Handler S B)
      → Longer f r.1.fds
      → ((a : A) → IsKeeping (k a))
      → Longer f (and_then r k).1.fds
  keeps_last f (done a, v) k e h = subst (Longer f) (sym ((h a).same v)) e
  keeps_last f (error x, v) k e h = e
  keeps_last f (crash, v) k e h = e

  pub before-IsOpening :
      {A B : Type 0} {m : Handler S A} {k : A → Handler S B}
      → IsKeeping m
      → ((a : A) → IsOpening (k a))
      → IsOpening (m >>= k)
  before-IsOpening {m = m} {k = k} l h = record {
    grows = λ v. keeps_first v.fds (m v) k (l.same v) h;
  }

  pub after-IsOpening :
      {A B : Type 0} {m : Handler S A} {k : A → Handler S B}
      → IsOpening m
      → ((a : A) → IsKeeping (k a))
      → IsOpening (m >>= k)
  after-IsOpening {m = m} {k = k} l h = record {
    grows = λ v. keeps_last v.fds (m v) k (l.grows v) h;
  }

  open_handle-IsOpening : (p : Position) → IsOpening (open_handle p)
  open_handle-IsOpening p = record { grows = λ v. inr (p, refl) }

  handle_of :
      (f : FdManager) (fh : ℕ) (r : Reply Position × Vfs S)
      → r.1.fds ≡ f
      → (and_then r open_handle).0 ≡ done fh
      → HandleOf r.0 f fh (and_then r open_handle).1.fds
  handle_of f fh (done p, v) e h =
      (p, refl, ap (λ g. (open_fd p g).0) (sym e) ∙ cc, ap (λ g. (open_fd p g).1) (sym e))
  handle_of f fh (error x, v) e h = cc
  handle_of f fh (crash, v) e h = cc

  handle_given :
      (p : Position) (r : Reply Position × Vfs S)
      → r.0 ≡ done p
      → (and_then r open_handle).0 ≡ done (open_fd p r.1.fds).0
  handle_given p (done q, v) h = cc
  handle_given p (error x, v) h = cc
  handle_given p (crash, v) h = cc

module _ (bs : BlockStore) (fs : Fs) (now : ℕ) where
  pub open_file-IsOpening : (path : Str) → IsOpening (open_file bs fs now path)
  unfolding open_file
  open_file-IsOpening path = search (before-IsOpening, open_handle-IsOpening, existing-IsKeeping)

  pub open_file-HandleOf :
      (path : Str) (fh : ℕ) (v : Vfs bs.State)
      → (open_file bs fs now path v).0 ≡ done fh
      → HandleOf (existing bs fs now path v).0 v.fds fh (open_file bs fs now path v).1.fds
  unfolding open_file
  open_file-HandleOf path fh v h =
      handle_of v.fds fh (existing bs fs now path v) ((existing-IsKeeping bs fs now path).same v) h

  -- `sb_open` of a path that leads to an inode.
  pub open_file-done :
      (path : Str) (p : Position) (v : Vfs bs.State)
      → (existing bs fs now path v).0 ≡ done p
      → (open_file bs fs now path v).0 ≡ done (open_fd p v.fds).0
  unfolding open_file
  open_file-done path p v h =
      handle_given p (existing bs fs now path v) h
      ∙ ap (λ f. done (open_fd p f).0) ((existing-IsKeeping bs fs now path).same v)

  pub create-IsOpening :
      (stale : Position) (uid gid : ℕ) (path : Str) (mode : ℕ)
      → IsOpening (create bs fs now stale uid gid path mode)
  unfolding create
  create-IsOpening stale uid gid path mode =
      search (before-IsOpening, open_handle-IsOpening, existing-IsKeeping, run-IsKeeping)
