-- ===== src/DiskInode/Bytes.antt =====
-- The bytes of a `DiskInode` in a block, as the struct of include/fs_layout.h lays them out, and
-- `Inode::read_inode` and `Inode::write_inode` of src/inode.cpp, which copy them.
pub mod Saved
pub mod Apart
pub mod Stored
use sbfs.Prelude.{ℕ, zero, suc, ◌+◌, ◌*◌, ◌==◌, if◌then◌else◌, M, pure, ◌>>=◌}
use sbfs.Block.{Block, get_le, put_le}
use sbfs.Store.{BlockStore}
use sbfs.Position.{Position}
use sbfs.DiskInode.{DiskInode, DiskInodeType, file, directory, direct_count}

-- `sizeof(DiskInode)`.
abbrev pub inode_bytes : ℕ
inode_bytes = 128

abbrev pub kind_id : DiskInodeType → ℕ
kind_id file = 0
kind_id directory = 1

-- `n` entries of an array of `uint32_t` at offset `o`.
pub put_words : ℕ → (ℕ → ℕ) → Block → ℕ → Block
put_words zero a b o = b
put_words (suc n) a b o = put_words n (λ i. a (i + 1)) (put_le 4 b o (a 0)) (o + 4)

pub put_inode : Block → ℕ → DiskInode → Block
unfolding put_words
put_inode b o d =
    let meta =
      put_le 4
        (put_le 4 (put_le 4 (put_le 4 b o d.size) (o + 4) d.access_time) (o + 8) d.change_time)
        (o + 12) d.modify_time in
    let owned =
      put_le 2
        (put_le 2 (put_le 2 (put_le 2 meta (o + 16) d.uid) (o + 18) d.gid) (o + 20) d.link_cnt)
        (o + 22) d.mode in
    put_le 4
      (put_le 4 (put_le 4 (put_words direct_count d.direct owned (o + 24)) (o + 116) d.indirect1)
        (o + 120) d.indirect2)
      (o + 124) (kind_id d.kind)

unfoldable pub get_inode : Block → ℕ → DiskInode
get_inode b o = record {
  size = get_le 4 b o;
  access_time = get_le 4 b (o + 4);
  change_time = get_le 4 b (o + 8);
  modify_time = get_le 4 b (o + 12);
  uid = get_le 2 b (o + 16);
  gid = get_le 2 b (o + 18);
  link_cnt = get_le 2 b (o + 20);
  mode = get_le 2 b (o + 22);
  direct = λ i. get_le 4 b (o + 24 + 4 * i);
  indirect1 = get_le 4 b (o + 116);
  indirect2 = get_le 4 b (o + 120);
  kind = if get_le 4 b (o + 124) == 0 then file else directory;
}

module _ (bs : BlockStore) where
  open bs use {State, read, write}

  pub read_inode : Position → M State DiskInode
  read_inode pos = do b ← read pos.block_id; pure (get_inode b pos.block_offset)

  pub write_inode : Position → DiskInode → M State (Unit {0})
  write_inode pos d = do b ← read pos.block_id; write pos.block_id (put_inode b pos.block_offset d)
