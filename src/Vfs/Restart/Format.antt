-- ===== src/Vfs/Restart/Format.antt =====
-- A new file system on a disk file, from `init_vfs` to the next `init_vfs` on the file.
use mathlib.Core.Path.{subst}
use sbfs.Prelude.{ℕ, ◌/◌, ◌^◌, ◌≤◌, ◌<◌, ◌≡◌, ◌∙◌, sym, ap, true, false, Option, some}
use sbfs.Block.{Block, block_size}
use sbfs.Storage.{Storage, IsHealthy}
use sbfs.Cache.{Device}
use sbfs.Cache.Valid.{Valid, view}
use sbfs.Device.Laws.{device_store}
use sbfs.Device.Start.{Kernel, new_device-view}
use sbfs.Layout.{Fs}
use sbfs.Layout.Root.{create_fs, put_super}
use sbfs.Layout.Root.Blank.{
  Blank, made, made-IsStorable, made-magic, made_again, create_fs-IsFormatted,
}
use sbfs.Vfs.{Vfs}
use sbfs.Vfs.Attributes.{disk_size}
use sbfs.Vfs.Start.{init_vfs, fresh_vfs}
use sbfs.Vfs.Restart.{boot, shutdown, set_up, boot-shutdown}

module _ (st : Storage) (ok : IsHealthy st) (os : Kernel st) (fresh : ℕ → Block) where
  open st use {Disk, pread}

  module _ (now uid gid : ℕ) (pad : Block) where
    abbrev created_on : Device st → Fs × Device st
    unfolding device_store
    created_on w = create_fs (device_store st ok) now uid gid pad 4194304 1 w

    set_up-Formats :
        (w : Device st)
        → Valid st w
        → Blank (view st w)
        → Valid st (created_on w).1
          × (view st (created_on w).1 0 ≡ some (put_super pad made.super_block))
          × ((created_on w).0 ≡ made)
    unfolding device_store
    set_up-Formats w k b =
        let f = create_fs-IsFormatted (device_store st ok) now uid gid pad w k b in
        (f.good, f.super, f.made_it)

    -- On a healthy disk: where the file can be set to the size of the disk, and then has the first
    -- slots of both bitmaps free, `init_vfs` makes a file system on it. Where files can be set to a
    -- length from 1 block to 2 ^ 44 bytes, `init_vfs` on the file that `sb_destroy` leaves, with
    -- that length, opens the same file system, and its device has each block of the file as the
    -- first one.
    pub boot-boot :
        (d : Disk) (stat : Option ℕ) (size length : ℕ)
        → (os.ftruncate d disk_size).0 ≡ true
        → Blank (pread (os.ftruncate d disk_size).1)
        → block_size ≤ length
        → length < 2 ^ 44
        → ((e : Disk) → (os.ftruncate e length).0 ≡ true)
        → (v : Vfs (Device st)) × (u : Vfs (Device st)) × (boot st ok os fresh now uid gid pad false
              disk_size stat
              (some d)
            ≡ some (some made, v))
          × (boot st ok os fresh now uid gid pad true size
                (some length)
                (some (shutdown st ok os fresh made now v))
              ≡ some (some made, u))
          × ((i : ℕ) (b : Block)
              → i < length / block_size
              → view st v.dev i ≡ some b
              → view st u.dev i ≡ some b)
    unfolding boot set_up init_vfs fresh_vfs device_store
    boot-boot d stat size length t blank one small settable =
        let (w, runs, valid, blocks) = new_device-view st os disk_size fresh d t in
        let (k, e, made_it) =
          set_up-Formats w valid (subst Blank (λ j i. sym (blocks i) j) blank) in
        let v = fresh_vfs (created_on w).1 in
        let (u, opens, _, same) =
          boot-shutdown st ok os fresh now uid gid pad made v made.super_block size length k e
            made-IsStorable made-magic one small (settable (shutdown st ok os fresh made now v)) in
        (
          v,
          u,
          rw runs (ap (λ f. some (some f, v)) made_it),
          opens ∙ ap (λ f. some (some f, u)) made_again,
          same,
        )
