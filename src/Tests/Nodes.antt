-- ===== src/Tests/Nodes.antt =====
-- The theorems on inodes and super blocks in blocks, and on directory entries.
use sbfs.Prelude.{ℕ, ◌+◌, ◌*◌, inl, ◌≡◌, refl, Option, some, [], ◌∷◌, ◌==◌, if◌then◌else◌, arith}
use sbfs.Block.{Block, IsBytes, get_le}
use sbfs.Store.{BlockStore}
use sbfs.DiskInode.{DiskInode, directory}
use sbfs.DiskInode.Bytes.{get_inode, put_inode}
use sbfs.DiskInode.Bytes.Saved.{IsStorable, IsSame, get_inode-put_inode}
use sbfs.Inode.Entries.{new_entry}
use sbfs.Path.{Str}
use sbfs.DiskInode.{data_blocks}
use sbfs.DiskInode.Lookup.{Located}
use sbfs.DiskInode.Data.{copy}
use sbfs.DiskInode.Data.Range.{IsFile}
use sbfs.Inode.{find}
use sbfs.Position.{Position}
use sbfs.Inode.Entries.Hits.{dir_lookup}
use sbfs.Inode.Find.{answer, find-dir_lookup}
use sbfs.Layout.{Fs, create, init_bitmap_and_block}
use sbfs.Layout.Root.{create_fs, root_inode}
use sbfs.Layout.Root.Blank.{Blank, IsFormatted, create_fs-IsFormatted}
use sbfs.Word.{test_bit}
use sbfs.Tests.{filled}

abbrev node : DiskInode
node = record {
  size = 512;
  access_time = 3;
  change_time = 2;
  modify_time = 1;
  uid = 1000;
  gid = 100;
  link_cnt = 1;
  mode = 0o040755;
  direct = λ i. i + 7;
  indirect1 = 0;
  indirect2 = 0;
  kind = directory;
}

node-IsStorable : IsStorable node
node-IsStorable = record {
  size = omega arith;
  access_time = omega arith;
  change_time = omega arith;
  modify_time = omega arith;
  uid = omega arith;
  gid = omega arith;
  link_cnt = omega arith;
  mode = omega arith;
  direct = λ i h. omega arith;
  indirect1 = omega arith;
  indirect2 = omega arith;
}

get_inode-put_inode_example : IsSame (get_inode (put_inode (filled 9) 256 node) 256) node
get_inode-put_inode_example = get_inode-put_inode (filled 9) 256 node node-IsStorable

abbrev name : Str
name = 97 ∷ 98 ∷ []

abbrev other : Str
other = 97 ∷ []

-- A store that takes every write.
abbrev ram : BlockStore
ram = record {
  State = ℕ → Option Block;
  read = λ i s. (s i, s);
  write = λ i b s. (some tt, λ j. if i == j then some b else s j);
  Good = λ s. Unit {0};
  contents = λ s. s;
  read-Leaves = λ s i g h. record { after = s; runs = λ k. (h k, s); good = tt; holds = λ j. refl };
  write-Leaves = λ s i b g h. record {
    after = λ j. if i == j then some b else s j;
    runs = refl;
    good = tt;
    holds = λ j. refl;
  };
}

abbrev blank : ℕ → Option Block
blank = λ i. some (filled 0)

blank_block-IsBytes : IsBytes (filled 0)
blank_block-IsBytes = λ i. omega arith

blank-Blank : Blank blank
unfolding get_le test_bit
blank-Blank = record {
  super = filled 0;
  inodes = filled 0;
  bits = filled 0;
  data_bits = λ i. filled 0;
  entries = filled 0;
  super_there = refl;
  inodes_there = refl;
  entries_there = refl;
  bits_there = refl;
  bits_IsBytes = blank_block-IsBytes;
  data_bits_there = λ i h. refl;
  data_bits_IsBytes = λ i h. blank_block-IsBytes;
  inode_free = refl;
  data_free = refl;
}

create_fs-IsFormatted_example :
    IsFormatted ram
      (filled 0)
      (root_inode 5 0 0 1153)
      (create_fs ram 5 0 0 (filled 0) 4194304 1 blank)
create_fs-IsFormatted_example = create_fs-IsFormatted ram 5 0 0 (filled 0) blank tt blank-Blank

-- A directory of two entries: its inode in block 2, the entries in block 7.
abbrev node_block : Block
node_block = put_inode (filled 0) 0 node

abbrev entries : Block
entries = copy 256 0 256 (new_entry name 5) (new_entry (46 ∷ []) 0)

abbrev blocks : ℕ → Option Block
blocks = λ j. if j == 2 then some node_block else some entries

abbrev place : Position
place = record { block_id = 2; block_offset = 0 }

node-IsSame : IsSame (get_inode node_block 0) node
node-IsSame = get_inode-put_inode (filled 0) 0 node node-IsStorable

node-IsFile : IsFile blocks (get_inode node_block 0) (data_blocks (2 * 256)) (λ i. entries)
unfolding IsFile Located data_blocks
node-IsFile i h = (i + 7, inl (omega arith, node-IsSame.direct i (omega arith)), ground arith)

abbrev fs : Fs
fs = init_bitmap_and_block (create 1396855637 4194304 1)

find-dir_lookup_example :
    (w : ℕ → Option Block) × (find ram fs 9 place name blocks
      ≡ (answer fs (dir_lookup 2 (λ i. entries) name), w))
    × Unit {0}
    × ((j : ℕ) → w j ≡ blocks j)
unfolding data_blocks
find-dir_lookup_example =
    find-dir_lookup ram fs 9 2 (λ i. entries) name place blocks node_block tt refl node-IsSame.kind
      node-IsSame.size node-IsFile (omega arith) (omega arith) (omega arith) (refl, (refl, tt))
