-- ===== src/Vfs/Attributes.antt =====
-- The handlers of src/vfs.cpp for the attributes of a file, and `sb_statfs`.
pub mod Keeps
pub mod Updates
use sbfs.Prelude.{ℕ, ◌*◌, ◌/◌, ◌%◌, ◌^◌, Option}
use sbfs.Block.{block_size}
use sbfs.Store.{BlockStore}
use sbfs.Path.{Str}
use sbfs.Layout.{Fs}
use sbfs.DiskInode.{DiskInode, total_blocks}
use sbfs.Vfs.{done, Handler, reply, rmw_diskinode}

-- The fields of `struct stat` that `sb_getattr` sets.
pub record Stat : Type 0 where
  pub st_mode : ℕ
  pub st_atime : ℕ
  pub st_mtime : ℕ
  pub st_ctime : ℕ
  pub st_size : ℕ
  pub st_nlink : ℕ
  pub st_uid : ℕ
  pub st_gid : ℕ
  pub st_blocks : ℕ
  pub st_blksize : ℕ

pub stat_of : DiskInode → Stat
stat_of d = record {
  st_mode = d.mode;
  st_atime = d.access_time;
  st_mtime = d.modify_time;
  st_ctime = d.change_time;
  st_size = d.size;
  st_nlink = d.link_cnt;
  st_uid = d.uid;
  st_gid = d.gid;
  st_blocks = total_blocks d.size;
  st_blksize = block_size;
}

-- The fields of `struct statvfs` that `sb_statfs` sets.
pub record Statvfs : Type 0 where
  pub f_bsize : ℕ
  pub f_frsize : ℕ
  pub f_blocks : ℕ
  pub f_bfree : ℕ
  pub f_bavail : ℕ
  pub f_files : ℕ
  pub f_ffree : ℕ
  pub f_favail : ℕ
  pub f_namemax : ℕ

-- `kDiskSize` and `kInodeBitmapBlocks`.
abbrev pub disk_size : ℕ
disk_size = 16 * 1024 * 1024 * 1024

abbrev pub inode_bitmap_blocks : ℕ
inode_bitmap_blocks = 1

pub statfs : {S : Type 0} → Handler S Statvfs
statfs = reply (record {
  f_bsize = block_size;
  f_frsize = block_size;
  f_blocks = disk_size / block_size;
  f_bfree = disk_size / block_size;
  f_bavail = disk_size / block_size;
  f_files = inode_bitmap_blocks * block_size * 8;
  f_ffree = inode_bitmap_blocks * block_size * 8;
  f_favail = inode_bitmap_blocks * block_size * 8;
  f_namemax = 255;
})

module _ (bs : BlockStore) (fs : Fs) (now : ℕ) where
  open bs use {State}

  pub getattr : Str → (fi : Option ℕ) → Handler State Stat
  unfolding stat_of
  getattr path fi = rmw_diskinode bs fs now path fi (λ d. done (stat_of d, d))

  -- The fields of the disk inode are `uint16_t` here.
  pub chmod : Str → (mode : ℕ) → (fi : Option ℕ) → Handler State (Unit {0})
  chmod path mode fi =
      rmw_diskinode bs fs now path fi (λ d. done (tt, record d { mode = mode % 2 ^ 16 }))

  pub chown : Str → (uid gid : ℕ) → (fi : Option ℕ) → Handler State (Unit {0})
  chown path uid gid fi =
      rmw_diskinode bs fs now path fi
        (λ d. done (tt, record d { uid = uid % 2 ^ 16; gid = gid % 2 ^ 16 }))

  -- `to_seconds` stands for the sum of the seconds and the nanoseconds as a `double` and its
  -- conversion to `uint32_t`.
  pub utimens :
      (to_seconds : ℕ × ℕ → ℕ)
      → Str
      → (tv0 tv1 : ℕ × ℕ) → (fi : Option ℕ) → Handler State (Unit {0})
  utimens to_seconds path tv0 tv1 fi =
      rmw_diskinode bs fs now path fi
        (λ d. done (tt, record d { access_time = to_seconds tv0; modify_time = to_seconds tv1 }))
