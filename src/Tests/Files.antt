-- ===== src/Tests/Files.antt =====
-- The theorems on the index and the data of a file, at a file of 5000 bytes in blocks 7 and 8.
use sbfs.Prelude.{◌/◌, ℕ, ◌-◌, ◌<◌, ◌≡◌, refl, inl, true, false, some, min, arith, ◌+◌, Option}
use sbfs.Block.{Block}
use sbfs.Store.{Leaves}
use sbfs.DiskInode.{DiskInode, file, Task, data_blocks, update_meta, direct_count}
use sbfs.DiskInode.Lookup.{Located, lookup-Leaves}
use sbfs.DiskInode.Data.{write_data, lookup, read_data}
use sbfs.Bitmap.{Bitmap}
use sbfs.DiskInode.Data.Copy.{file_copy}
use sbfs.DiskInode.Data.Range.{IsFile}
use sbfs.DiskInode.Data.Read.{read_data-bytes}
use sbfs.DiskInode.Data.Write.{put, IsApart, Has}
use sbfs.DiskInode.Data.Written.{write_data-Has}
use sbfs.Tests.{memory, filled}

abbrev inode : DiskInode
inode = record {
  size = 5000;
  access_time = 1;
  change_time = 1;
  modify_time = 1;
  uid = 0;
  gid = 0;
  link_cnt = 1;
  mode = 0o100644;
  direct = λ i. i + 7;
  indirect1 = 0;
  indirect2 = 0;
  kind = file;
}

abbrev blocks : ℕ → Option Block
blocks = λ i. some (filled i)

abbrev task : Task (ℕ → Option Block)
task = record { node = inode; dev = blocks }

abbrev bytes : ℕ → Block
bytes i = filled (i + 7)

located : (i : ℕ) → i < direct_count → Located blocks inode i (i + 7)
unfolding Located
located i h = inl (h, refl)

abbrev is_file : IsFile blocks inode (data_blocks 5000) bytes
unfolding IsFile data_blocks
is_file i h = (i + 7, located i (omega arith), refl)

read_data-bytes_example :
    (w : ℕ → Option Block) × (read_data memory 2 4000 (filled 0) 9000 task ≡ (
      some (min 9000 (5000 - 4000), file_copy (min 9000 (5000 - 4000)) 4000 0 bytes (filled 0)),
      record { node = update_meta 2 true false false inode; dev = w },
    ))
    × memory.Good w
    × ((j : ℕ) → memory.contents w j ≡ memory.contents blocks j)
read_data-bytes_example =
    read_data-bytes memory 2 4000 9000 (filled 0) task bytes tt is_file (omega arith) (omega arith)
      (omega arith) (inl (omega arith))

-- The bytes of the file.
abbrev content : ℕ → ℕ
content x = x / 4096 + 7

apart : IsApart memory inode 2 (λ i. i + 7) blocks
unfolding Located
apart = record { found = λ g h i l. inl (omega arith, refl); distinct = λ i j h k e. omega arith }

content-Has : Has memory inode 2 (λ i. i + 7) blocks content blocks
content-Has = record {
  good = tt;
  block = λ i h. (filled (i + 7), refl, λ q l. omega arith);
  others = λ j h. refl;
}

write_data-Has_example :
    (w : ℕ → Option Block) × (write_data memory 2 4000 (filled 1) 900 task
      ≡ (some 900, record { node = update_meta 2 true true false inode; dev = w }))
    × Has memory inode 2 (λ i. i + 7) blocks (put 900 4000 0 (filled 1) content) w
write_data-Has_example =
    write_data-Has memory inode 2 (λ i. i + 7) blocks apart 2 4000 900 (filled 1) content blocks
      (omega arith) (omega arith) (omega arith) (omega arith) content-Has

lookup-Leaves_example : Leaves memory.Good memory.contents (lookup memory inode 1 blocks) 8 blocks
lookup-Leaves_example = lookup-Leaves memory inode 1 8 blocks tt (located 1 (omega arith))

abbrev bitmap : Bitmap
bitmap = record { start_block_id = 1; num_blocks = 1; data_segment_offset = 2 }
