-- ===== src/Vfs/Restart.antt =====
-- The file system on a disk file, from `init_vfs` of src/vfs.cpp down to the constructor of the
-- device, and what `sb_destroy` leaves in the file for the next `init_vfs`.
pub mod Format
use sbfs.Prelude.{ℕ, ◌/◌, ◌^◌, ◌≤◌, ◌<◌, ◌≡◌, ◌∙◌, ap, Bool, true, false, Option, none, some, arith}
use sbfs.Block.{Block, block_size}
use sbfs.Storage.{Storage, IsHealthy}
use sbfs.Cache.{Device}
use sbfs.Cache.Valid.{Valid, view}
use sbfs.Cache.SyncAll.{sync_all-AllSynced}
use sbfs.Device.{sync, sync_all}
use sbfs.Device.Laws.{device_store}
use sbfs.Device.Start.{Kernel, Opened, new_device, new_device-Valid}
use sbfs.Layout.{SuperBlock, Fs, init_bitmap_and_block}
use sbfs.Layout.Root.{put_super, fs_magic}
use sbfs.Layout.Root.Saved.{IsStorable, open_fs-Leaves}
use sbfs.Vfs.{Vfs}
use sbfs.Vfs.Start.{init_vfs, fresh_vfs, opened}
use sbfs.Vfs.Files.{destroy}

module _ (st : Storage) (ok : IsHealthy st) (os : Kernel st) (fresh : ℕ → Block) where
  open st use {Disk, pread}

  module _ (now uid gid : ℕ) (pad : Block) where
    -- `none` stands for a file system without a device.
    set_up : (is_open : Bool) → Opened st → Option (Option Fs × Vfs (Device st))
    unfolding device_store
    set_up is_open o = elim o.device [
      | none ↦ none
      | some v ↦ some (init_vfs (device_store st ok) now uid gid pad is_open v)
    ]

    -- `init_vfs`, where `open` has returned `file` for the path, and `stat`, which only
    -- `SBFileSystem::open` asks, the length `stat`.
    unfoldable pub boot :
        (is_open : Bool)
        → (size : ℕ) → (stat : Option ℕ) → (file : Option Disk)
        → Option (Option Fs × Vfs (Device st))
    unfolding set_up
    boot false size stat file = set_up false (new_device st os size fresh file)
    boot true size none file = none
    boot true size (some length) file = set_up true (new_device st os length fresh file)

  -- `sb_destroy`, and the disk file that it leaves behind.
  unfoldable pub shutdown : (fs : Fs) (now : ℕ) → Vfs (Device st) → Disk
  unfolding device_store
  shutdown fs now v = (destroy (device_store st ok) fs now (sync st) (sync_all st) v).disk

  module _ (now uid gid : ℕ) (pad : Block) where
    set_up-Opens :
        (o : Opened st) (w : Device st) (sb : SuperBlock)
        → o.device ≡ some w
        → Valid st w
        → view st w 0 ≡ some (put_super pad sb)
        → IsStorable sb
        → sb.magic ≡ fs_magic
        → (u : Vfs (Device st)) × (set_up now uid gid pad true o
            ≡ some (some (init_bitmap_and_block sb), u))
          × Valid st u.dev
          × ((i : ℕ) → view st u.dev i ≡ view st w i)
    unfolding set_up device_store init_vfs
    set_up-Opens o w sb d k e h m =
        let l = open_fs-Leaves (device_store st ok) pad sb w k e h m in
        (fresh_vfs l.after, rw d (ap (λ r. some (opened r)) l.runs), l.good, l.holds)

    -- `init_vfs` opens the file system whose super block the file has.
    pub boot-Opens :
        (d : Disk) (sb : SuperBlock) (size length : ℕ)
        → pread d 0 ≡ some (put_super pad sb)
        → IsStorable sb
        → sb.magic ≡ fs_magic
        → block_size ≤ length
        → length < 2 ^ 44
        → (os.ftruncate d length).0 ≡ true
        → (u : Vfs (Device st)) × (boot now uid gid pad true size (some length) (some d)
            ≡ some (some (init_bitmap_and_block sb), u))
          × Valid st u.dev
          × ((i : ℕ) (b : Block)
              → i < length / block_size
              → pread d i ≡ some b
              → view st u.dev i ≡ some b)
    unfolding boot
    boot-Opens d sb size length e h m one small t =
        let (w, runs, valid, there, same) = new_device-Valid st os length fresh d t small in
        let (u, opens, good, blocks) =
          set_up-Opens (new_device st os length fresh (some d)) w sb (ap (λ o. o.device) runs) valid
            (same 0 _ (omega arith) e) h m in
        (u, opens, good, λ i b l x. blocks i ∙ same i b l x)

    -- The file that `sb_destroy` leaves has every block as the device has it.
    pub pread-shutdown :
        (fs : Fs) (v : Vfs (Device st))
        → Valid st v.dev
        → (i : ℕ) → pread (shutdown fs now v) i ≡ view st v.dev i
    unfolding shutdown device_store destroy sync_all
    pread-shutdown fs v k i =
        let a = sync_all-AllSynced st ok v.dev k in ap (λ r. pread r.1.disk i) a.runs ∙ a.on_disk i

    -- On a healthy disk: where the device of a mounted file system is valid and holds the bytes of
    -- a super block as its block 0, and the file has a length from 1 block to 2 ^ 44 bytes that
    -- `ftruncate` can set it to, `init_vfs` on the file that `sb_destroy` leaves opens the file
    -- system of that super block, with a valid device that has each block of the file as the
    -- device from before held it.
    pub boot-shutdown :
        (fs : Fs) (v : Vfs (Device st)) (sb : SuperBlock) (size length : ℕ)
        → Valid st v.dev
        → view st v.dev 0 ≡ some (put_super pad sb)
        → IsStorable sb
        → sb.magic ≡ fs_magic
        → block_size ≤ length
        → length < 2 ^ 44
        → (os.ftruncate (shutdown fs now v) length).0 ≡ true
        → (u : Vfs (Device st)) × (boot now uid gid pad true size
              (some length)
              (some (shutdown fs now v))
            ≡ some (some (init_bitmap_and_block sb), u))
          × Valid st u.dev
          × ((i : ℕ) (b : Block)
              → i < length / block_size
              → view st v.dev i ≡ some b
              → view st u.dev i ≡ some b)
    boot-shutdown fs v sb size length k e h m one small t =
        let (u, opens, good, blocks) =
          boot-Opens (shutdown fs now v) sb size length (pread-shutdown fs v k 0 ∙ e) h m one small
            t in
        (u, opens, good, λ i b l x. blocks i b l (pread-shutdown fs v k i ∙ x))
