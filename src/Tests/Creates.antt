-- ===== src/Tests/Creates.antt =====
-- The theorem on `create` and `find`, at a directory with one entry in a store in memory.
use mathlib.Core.Path.{subst}
use sbfs.Prelude.{
  ℕ, ◌+◌, ◌≤◌, ◌<◌, ◌≡◌, ◌≢◌, refl, sym, true, false, Option, none, some, [], ◌∷◌, length, inr,
  arith,
}
use sbfs.Block.{Block, get_le}
use sbfs.Word.{test_bit}
use sbfs.Path.{Str}
use sbfs.Bitmap.Alloc.{used}
use sbfs.Layout.{disk_inode_pos}
use sbfs.DiskInode.{file, directory, data_blocks}
use sbfs.DiskInode.Bytes.{get_inode}
use sbfs.DiskInode.Bytes.Saved.{IsSame}
use sbfs.Inode.{create, find}
use sbfs.Inode.Entries.{new_entry, max_name}
use sbfs.Inode.Entries.Names.{NulFree}
use sbfs.Inode.Create.Made.{HasRoom}
use sbfs.Inode.Create.Found.{find-create}
use sbfs.Tests.{memory}
use sbfs.Tests.Grows.{
  fs, node, node-IsStorable, place, node_block, blocks, blocks-IsSmall, bitmap_ready, one,
}

abbrev dot : Block
dot = new_entry (46 ∷ []) 0

abbrev dir_blocks : ℕ → Option Block
dir_blocks = blocks directory 256 dot

slot_0 : used fs.inode_bitmap dir_blocks 0 ≡ true
unfolding get_le test_bit
slot_0 = refl

slot_1 : used fs.inode_bitmap dir_blocks 1 ≡ false
unfolding get_le test_bit
slot_1 = refl

dir_blocks-HasRoom : HasRoom memory fs 7 place 1 (λ i. i + 20) 1 dir_blocks
unfolding disk_inode_pos
dir_blocks-HasRoom = record {
  ready = bitmap_ready fs.inode_bitmap dir_blocks refl refl (omega arith) (omega arith);
  below = omega arith;
  is_free = slot_1;
  first = λ k l. subst (λ k. used fs.inode_bitmap dir_blocks k ≡ true) (sym (one k l)) slot_0;
  block = node_block directory 256;
  there = refl;
  bitmap_inode = λ e. omega arith;
  bitmap_parent = λ e. omega arith;
  bitmap_file = λ i l e. omega arith;
  apart = inr (inr (omega arith));
  inode_file = λ i l e. omega arith;
}

same_blocks : data_blocks 256 ≡ data_blocks (256 + 256)
unfolding data_blocks
same_blocks = refl

-- `a`.
abbrev name : Str
name = 97 ∷ []

find-create_example :
    (w : ℕ → Option Block) × (create memory fs 7 place name
        (node file 0)
        (record { inode = none; dev = dir_blocks })
      ≡ (some tt, record { inode = some (disk_inode_pos fs 3); dev = w }))
    × ((other : Str)
        → 0 < length other
        → length other ≤ max_name
        → NulFree other
        → other ≢ name
        → (find memory fs 8 place other w).0 ≡ (find memory fs 7 place other dir_blocks).0)
    × ((find memory fs 7 place name dir_blocks).0 ≡ none
        → (find memory fs 8 place name w).0 ≡ some (disk_inode_pos fs 3))
    × ((x : Block) × (w (disk_inode_pos fs 3).block_id ≡ some x)
        × IsSame (get_inode x (disk_inode_pos fs 3).block_offset) (node file 0))
find-create_example =
    find-create memory fs 7 place 1 (λ i. i + 20) (omega arith) 1 1 8 (node directory 256) dot
      dir_blocks name (node file 0) none (blocks-IsSmall directory 256 dot (omega arith))
      dir_blocks-HasRoom refl refl (node-IsStorable file 0 (omega arith)) refl (omega arith)
      same_blocks (omega arith) (omega arith) (refl, tt)
