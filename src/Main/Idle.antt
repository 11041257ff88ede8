-- ===== src/Main/Idle.antt =====
-- A run of the program without requests.
use sbfs.Prelude.{ℕ, ◌/◌, ◌^◌, ◌≤◌, ◌<◌, ◌≡◌, ◌∙◌, refl, Bool, true, false, ◌==◌, some, []}
use sbfs.Block.{Block, block_size}
use sbfs.Storage.{Storage, IsHealthy}
use sbfs.Device.Start.{Kernel}
use sbfs.Layout.{SuperBlock, init_bitmap_and_block}
use sbfs.Layout.Root.{put_super, fs_magic}
use sbfs.Layout.Root.Saved.{IsStorable}
use sbfs.Vfs.Attributes.{disk_size}
use sbfs.Vfs.Session.{serve_all}
use sbfs.Vfs.Restart.{shutdown, boot-Opens, pread-shutdown}
use sbfs.Main.{Options, defaults, Files, fuse_main, main, run, ended}

module _ (st : Storage) (ok : IsHealthy st) (os : Kernel st) (fresh : ℕ → Block) where
  open st use {Disk, pread}

  module _ (now uid gid : ℕ) (pad : Block) (to_seconds : ℕ × ℕ → ℕ) where
    -- On a healthy disk: where the arguments ask to open a file that has the bytes of a super
    -- block as its block 0, and a length from 1 block to 2 ^ 44 bytes that `ftruncate` can set it
    -- to, a run of the program without requests leaves a file with the same blocks.
    pub main-blocks :
        (fuse_opt_parse : Options → Bool × Options) (files : Files st) (opt : Options) (d : Disk)
        (sb : SuperBlock) (length : ℕ)
        → (fuse_opt_parse defaults).1 ≡ opt
        → (opt.is_open == 0) ≡ false
        → files.open_path opt.disk_path ≡ some d
        → files.stat_path opt.disk_path ≡ some length
        → pread d 0 ≡ some (put_super pad sb)
        → IsStorable sb
        → sb.magic ≡ fs_magic
        → block_size ≤ length
        → length < 2 ^ 44
        → (os.ftruncate d length).0 ≡ true
        → (e : Disk) × (main st ok os fresh now uid gid pad to_seconds fuse_opt_parse files []
            ≡ some e)
          × ((i : ℕ) (b : Block)
              → i < length / block_size
              → pread d i ≡ some b
              → pread e i ≡ some b)
    unfolding main run fuse_main ended serve_all
    main-blocks fuse_opt_parse files opt d sb length p asks there long s h m one small t =
        let (u, opens, good, blocks) =
          boot-Opens st ok os fresh now uid gid pad d sb disk_size length s h m one small t in
        let fs = init_bitmap_and_block sb in
        (
          shutdown st ok os fresh fs now u,
          rw (p, asks, there, long, opens) refl,
          λ i b l x. pread-shutdown st ok os fresh now uid gid pad fs u good i ∙ blocks i b l x,
        )
