-- ===== src/Vfs/Start.antt =====
-- `init_vfs` of src/vfs.cpp.
use sbfs.Prelude.{ℕ, ◌*◌, ◌/◌, Bool, Option, some, if◌then◌else◌}
use sbfs.Block.{Block, block_size}
use sbfs.Store.{BlockStore}
use sbfs.Layout.{Fs}
use sbfs.Layout.Root.{create_fs, open_fs}
use sbfs.Fd.{init}
use sbfs.Resolver.{new_resolver}
use sbfs.Vfs.{Vfs}
use sbfs.Vfs.Attributes.{disk_size, inode_bitmap_blocks}

-- `kPathCacheSize` and `kFSDataBlocks`.
abbrev path_cache_size : ℕ
path_cache_size = 32 * 1024 * 1024

abbrev fs_data_blocks : ℕ
fs_data_blocks = disk_size / block_size

module _ {S : Type 0} where
  -- The new resolver and the new manager of handles.
  unfoldable pub fresh_vfs : S → Vfs S
  fresh_vfs s = record { dev = s; resolver = new_resolver path_cache_size; fds = init }

  abbrev pub opened : Option Fs × S → Option Fs × Vfs S
  opened (o, s) = (o, fresh_vfs s)

module _ (bs : BlockStore) (now uid gid : ℕ) (pad : Block) where
  open bs use {State}

  abbrev pub created : Fs × State → Option Fs × Vfs State
  created (fs, s) = (some fs, fresh_vfs s)

  -- On the device that `create` or `open` has made. `none` stands for the file system that `open`
  -- leaves without a layout.
  unfoldable pub init_vfs : (is_open : Bool) → State → Option Fs × Vfs State
  unfolding fresh_vfs
  init_vfs is_open s =
      if is_open
      then opened (open_fs bs s)
      else created (create_fs bs now uid gid pad fs_data_blocks inode_bitmap_blocks s)
