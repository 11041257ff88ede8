-- ===== src/Tests/Grows.antt =====
-- The theorems on writes that make a file longer and on entries that make a directory longer, at an
-- inode in block 2 with one block, number 20; slot 0 of each bitmap is in use.
use mathlib.Core.Path.{subst}
use sbfs.Prelude.{
  ℕ, ◌+◌, ◌-◌, ◌*◌, ◌^◌, ◌≤◌, ◌<◌, ◌≡◌, refl, ◌∙◌, sym, ap, true, false, Option, some, ◌==◌,
  if◌then◌else◌, arith,
}
use sbfs.Block.{Block, get_le, block_size}
use sbfs.Word.{test_bit}
use sbfs.Position.{Position}
use sbfs.Bitmap.{Bitmap}
use sbfs.Bitmap.Alloc.{Ready, used}
use sbfs.Bitmap.Eventually.{Returned, alloc-Returned}
use sbfs.Layout.{Fs, create}
use sbfs.DiskInode.{DiskInode, DiskInodeType, file, data_blocks, total_blocks, direct_count}
use sbfs.DiskInode.Bytes.{put_inode}
use sbfs.DiskInode.Bytes.Saved.{IsStorable, get_inode-put_inode}
use sbfs.Inode.{write_data, read_data}
use sbfs.Inode.Written.{IsSmall}
use sbfs.DiskInode.Sizes.{increase-total_blocks}
use sbfs.DiskInode.Increase.{increase}
use sbfs.DiskInode.Increase.Direct.{HasSpare, Grown}
use sbfs.Inode.Grown.{HasSpace}
use sbfs.Inode.Grown.ReadBack.{read-write_longer}
use sbfs.Tests.{memory, filled}

abbrev pub fs : Fs
fs = record {
  super_block = create 1396855637 4194304 1;
  inode_bitmap = record { start_block_id = 1; num_blocks = 1; data_segment_offset = 2 };
  data_bitmap = record { start_block_id = 10; num_blocks = 1; data_segment_offset = 20 };
  inode_area_start = 2;
  data_area_start = 20;
}

abbrev pub node : DiskInodeType → ℕ → DiskInode
node kind size = record {
  size = size;
  access_time = 1;
  change_time = 1;
  modify_time = 1;
  uid = 0;
  gid = 0;
  link_cnt = 1;
  mode = 0o644;
  direct = λ i. i + 20;
  indirect1 = 0;
  indirect2 = 0;
  kind = kind;
}

pub node-IsStorable :
    (kind : DiskInodeType) (size : ℕ) → size < 2 ^ 32 → IsStorable (node kind size)
node-IsStorable kind size h = record {
  size = h;
  access_time = omega arith;
  change_time = omega arith;
  modify_time = omega arith;
  uid = omega arith;
  gid = omega arith;
  link_cnt = omega arith;
  mode = omega arith;
  direct = λ i h. omega arith;
  indirect1 = omega arith;
  indirect2 = omega arith;
}

abbrev pub place : Position
place = record { block_id = 2; block_offset = 0 }

abbrev pub first_used : Block
first_used o = if o == 0 then 1 else 0

abbrev pub node_block : DiskInodeType → ℕ → Block
node_block kind size = put_inode (filled 0) 0 (node kind size)

-- The one block of the file has the bytes of `content`.
abbrev pub blocks : DiskInodeType → ℕ → Block → ℕ → Option Block
blocks kind size content j =
    if j == 2
    then some (node_block kind size)
    else if j == 20
    then some content
    else if j == 1
    then some first_used
    else if j == 10
    then some first_used
    else some (filled 0)

pub one : (i : ℕ) → i < 1 → i ≡ 0
one i h = omega arith

pub blocks-IsSmall :
    (kind : DiskInodeType) (size : ℕ) (content : Block)
    → size ≤ block_size
    → IsSmall memory fs 7 place 1 (λ i. i + 20) (node kind size) content (blocks kind size content)
blocks-IsSmall kind size content h = record {
  good = tt;
  inode_block = node_block kind size;
  there = refl;
  same =
      get_inode-put_inode (filled 0) 0 (node kind size) (node-IsStorable kind size (omega arith));
  storable = node-IsStorable kind size (omega arith);
  size = omega arith;
  few = omega arith;
  direct = λ i h. refl;
  distinct = λ i j h k e. omega arith;
  own = λ i h e. omega arith;
  block = λ i h. (
    content,
    subst (λ i. blocks kind size content (i + 20) ≡ some content) (sym (one i h)) refl,
    λ q l. ap content (omega arith),
  );
}

first_used-lt : (o : ℕ) → first_used o < 256
first_used-lt o = ground arith

pub bitmap_ready :
    (m : Bitmap) (f : ℕ → Option Block)
    → m.num_blocks ≡ 1
    → f m.start_block_id ≡ some first_used
    → m.start_block_id ≤ 10
    → m.data_segment_offset ≤ 20
    → Ready m f
bitmap_ready m f n e h k = record {
  block = λ i. first_used;
  reads = λ i l. ap f (omega arith) ∙ e;
  bytes = λ i l o. first_used-lt o;
  fits = omega arith;
  ids_fit = omega arith;
}

slot_used :
    (kind : DiskInodeType) (size : ℕ) (content : Block)
    → used fs.data_bitmap (blocks kind size content) 0 ≡ true
unfolding get_le test_bit
slot_used kind size content = refl

slot_free :
    (kind : DiskInodeType) (size : ℕ) (content : Block)
    → used fs.data_bitmap (blocks kind size content) 1 ≡ false
unfolding get_le test_bit
slot_free kind size content = refl

-- A file of 100 bytes in block 20, and a data bitmap whose slot 1 is free.
abbrev file_blocks : ℕ → Option Block
file_blocks = blocks file 100 (filled 5)

file_blocks-HasSpace : HasSpace memory fs 7 place 1 (λ i. i + 20) 1 file_blocks
file_blocks-HasSpace = record {
  ready = bitmap_ready fs.data_bitmap file_blocks refl refl (omega arith) (omega arith);
  spare = record {
    spare = λ j. j + 1;
    in_range = λ j l. omega arith;
    is_free = λ j l.
        subst (λ j. used fs.data_bitmap file_blocks (j + 1) ≡ false) (sym (one j l))
          (slot_free file 100 (filled 5));
    rising = λ j k l u. omega arith;
  };
  stale = λ k. if k == 0 then filled 5 else filled 0;
  there = λ k l. data_block k;
  area = omega arith;
  inode_before = omega arith;
  file_area = λ i l. omega arith;
  file_used = λ i k l u free e. taken k (omega arith) free;
}
  where
    data_block : (k : ℕ) → file_blocks (k + 20) ≡ some (if k == 0 then filled 5 else filled 0)
    data_block k = ground arith

    taken : (k : ℕ) → k ≡ 0 → used fs.data_bitmap file_blocks k ≡ false → ⊥
    taken k e free =
        let u = slot_used file 100 (filled 5) in
        let f : used fs.data_bitmap file_blocks 0 ≡ false =
          subst (λ k. used fs.data_bitmap file_blocks k ≡ false) e free in
        cc

two_blocks :
    (1 ≡ data_blocks 100) × (1 < data_blocks (4000 + 200)) × (data_blocks (4000 + 200) ≤ 23)
unfolding data_blocks
two_blocks = (refl, omega arith, omega arith)

one_more : HasSpace memory fs 7 place 1 (λ i. i + 20) (data_blocks (4000 + 200) - 1) file_blocks
unfolding data_blocks
one_more = file_blocks-HasSpace

read-write_longer_example :
    (w : ℕ → Option Block) × (write_data memory fs 7 place 4000 (filled 3) 200 file_blocks
      ≡ (some 200, w))
    × ((o size : ℕ) (into : Block)
        → 0 < size
        → o + size ≤ 4000 + 200
        → (u : ℕ → Option Block) × (c : Block) × (read_data memory fs 8 place o into size w
            ≡ (some (size, c), u))
          × ((q : ℕ) → q < size → 4000 ≤ o + q → c q ≡ 3)
          × ((q : ℕ) → q < size → o + q < 4000 → o + q < 1 * block_size → c q ≡ 5))
read-write_longer_example =
    read-write_longer memory fs 7 8 place 1 (λ i. i + 20) (node file 100) (filled 5) file_blocks
      4000 200 (filled 3) (blocks-IsSmall file 100 (filled 5) (omega arith)) (omega arith)
      two_blocks.0 two_blocks.1 two_blocks.2 one_more

alloc-Returned_example : (k : ℕ) × (k ≤ 1) × Returned memory fs.data_bitmap k file_blocks (1 + 20)
alloc-Returned_example =
    alloc-Returned memory fs.data_bitmap 1 file_blocks tt
      (bitmap_ready fs.data_bitmap file_blocks refl refl (omega arith) (omega arith)) (omega arith)
      (slot_free file 100 (filled 5))

-- The last direct block.
last_direct : HasSpare fs.data_bitmap file_blocks (data_blocks 94208 - 22)
unfolding data_blocks
last_direct = file_blocks-HasSpace.spare

increase-total_blocks_example :
    Grown memory fs.data_bitmap file_blocks (data_blocks 94208 - 22) 22 (node file 90112) (
      increase memory fs.data_bitmap 22
        (data_blocks 94208)
        (record { node = node file 90112; dev = file_blocks }))
    × (total_blocks 94208
        ≡ (if data_blocks 94208 == direct_count then data_blocks 94208 + 1 else data_blocks 94208))
unfolding data_blocks
increase-total_blocks_example =
    increase-total_blocks memory fs.data_bitmap 22 94208 (node file 90112) file_blocks tt
      (bitmap_ready fs.data_bitmap file_blocks refl refl (omega arith) (omega arith)) last_direct
      (omega arith) (omega arith)
