-- ===== src/Main.antt =====
-- `main` of src/main.cpp: the options, the file system on the disk file, and the requests that
-- `fuse_main` serves until the file system is unmounted.
pub mod Idle
use sbfs.Prelude.{ℕ, Bool, not, ◌==◌, Option, none, some, List, [], ◌∷◌}
use sbfs.Block.{Block}
use sbfs.Storage.{Storage, IsHealthy}
use sbfs.Cache.{Device}
use sbfs.Device.{sync, sync_all}
use sbfs.Device.Laws.{device_store}
use sbfs.Device.Start.{Kernel}
use sbfs.Path.{Str}
use sbfs.Layout.{Fs}
use sbfs.Vfs.{Vfs, Reply, done, error, crash}
use sbfs.Vfs.Attributes.{disk_size}
use sbfs.Vfs.Restart.{boot, shutdown}
use sbfs.Vfs.Requests.{Call}
use sbfs.Vfs.Session.{serve_all}

-- `struct options`; `is_open` is an `int`, of which only 0 counts as false.
pub record Options : Type 0 where
  pub disk_path : Str
  pub is_open : ℕ

-- The options before the arguments are read: the path is `/tmp/disk`.
pub defaults : Options
defaults = record {
  disk_path = 47 ∷ 116 ∷ 109 ∷ 112 ∷ 47 ∷ 100 ∷ 105 ∷ 115 ∷ 107 ∷ [];
  is_open = 0;
}

-- The files of the kernel by their path: what `open` with O_CREAT returns, and what `stat` says of
-- the length.
pub record Files (st : Storage) : Type 0 where
  pub open_path : Str → Option st.Disk
  pub stat_path : Str → Option ℕ

module _ (st : Storage) (ok : IsHealthy st) (os : Kernel st) (fresh : ℕ → Block) where
  open st use {Disk}

  module _ (now uid gid : ℕ) (pad : Block) (to_seconds : ℕ × ℕ → ℕ) where
    -- The disk file after the requests; a crash leaves it without `sb_destroy`.
    ended : Fs → Reply (Unit {0}) × Vfs (Device st) → Disk
    ended fs (done _, v) = shutdown st ok os fresh fs now v
    ended fs (error _, v) = shutdown st ok os fresh fs now v
    ended fs (crash, v) = v.dev.disk

    -- Without a file system in `sbfs` the handlers have nothing to stand on.
    fuse_main : List Call → Option (Option Fs × Vfs (Device st)) → Option Disk
    unfolding ended device_store
    fuse_main calls none = none
    fuse_main calls (some (none, v)) = none
    fuse_main calls (some (some fs, v)) =
        some
          (ended fs (serve_all (device_store st ok) fs (sync st) (sync_all st) to_seconds calls v))

    run : Files st → List Call → Options → Option Disk
    unfolding fuse_main
    run files calls opt = fuse_main calls (
        boot st ok os fresh now uid gid pad (not (opt.is_open == 0)) disk_size
          (files.stat_path opt.disk_path) (files.open_path opt.disk_path))

    -- `fuse_opt_parse` tells whether it failed, which is only logged.
    pub main : (fuse_opt_parse : Options → Bool × Options) → Files st → List Call → Option Disk
    unfolding defaults run
    main fuse_opt_parse files calls = run files calls (fuse_opt_parse defaults).1
