-- ===== src/Vfs/Attributes/Keeps.antt =====
-- The handlers for attributes leave the table of handles as it is.
use sbfs.Prelude.{ℕ, refl, Option}
use sbfs.Store.{BlockStore}
use sbfs.Path.{Str}
use sbfs.Layout.{Fs}
use sbfs.Vfs.Keeps.{IsKeeping, rmw_diskinode-IsKeeping}
use sbfs.Vfs.Attributes.{getattr, chmod, chown, utimens, statfs}

module _ (bs : BlockStore) (fs : Fs) (now : ℕ) (path : Str) (fi : Option ℕ) where
  pub getattr-IsKeeping : IsKeeping (getattr bs fs now path fi)
  unfolding getattr
  getattr-IsKeeping = rmw_diskinode-IsKeeping bs fs now path fi _

  pub chmod-IsKeeping : (mode : ℕ) → IsKeeping (chmod bs fs now path mode fi)
  unfolding chmod
  chmod-IsKeeping mode = rmw_diskinode-IsKeeping bs fs now path fi _

  pub chown-IsKeeping : (uid gid : ℕ) → IsKeeping (chown bs fs now path uid gid fi)
  unfolding chown
  chown-IsKeeping uid gid = rmw_diskinode-IsKeeping bs fs now path fi _

  pub utimens-IsKeeping :
      (to_seconds : ℕ × ℕ → ℕ) (tv0 tv1 : ℕ × ℕ)
      → IsKeeping (utimens bs fs now to_seconds path tv0 tv1 fi)
  unfolding utimens
  utimens-IsKeeping to_seconds tv0 tv1 = rmw_diskinode-IsKeeping bs fs now path fi _

pub statfs-IsKeeping : {S : Type 0} → IsKeeping {S = S} statfs
unfolding statfs
statfs-IsKeeping = record { same = λ v. refl }
