-- ===== src/Tests/Handlers.antt =====
-- The theorems on the handlers, with one inode open.
use sbfs.Prelude.{
  ==_of_ne, ◌+◌, ◌==◌, if◌then◌else◌, ℕ, ◌≡◌, refl, ◌∙◌, ◌↔◌, ◌<◌, true, Option, none, some, [],
  ==_refl, arith,
}
use sbfs.Block.{Block, get_le}
use sbfs.Position.{Inode}
use sbfs.DiskInode.Bytes.{get_inode}
use sbfs.DiskInode.Bytes.Saved.{IsStorable, get_inode-put_inode}
use sbfs.Layout.{Fs, init_bitmap_and_block, create}
use sbfs.Fd.{FdManager, init, open_fd, get_fd, is_open}
use sbfs.Fd.Counts.{Counts, init-Counts, open_fd-get, open_fd-Counts}
use sbfs.Fd.Histories.{start, opened, Reached-safe}
use sbfs.Vfs.{Vfs, done}
use sbfs.Vfs.Attributes.{stat_of, getattr, chmod}
use sbfs.Vfs.Attributes.Updates.{getattr-chmod}
use sbfs.Vfs.Files.{read, write}
use sbfs.Vfs.Files.ReadBack.{read-write}
use sbfs.Inode.Written.{IsSmall}
use sbfs.DiskInode.{DiskInode, file}
use sbfs.DiskInode.Bytes.{put_inode}
use sbfs.Tests.{memory, filled}

abbrev inode : Inode
inode = record { block_id = 5; block_offset = 128 }

abbrev one : FdManager
one = (open_fd inode init).1

abbrev fh : ℕ
fh = (open_fd inode init).0

one-Counts : Counts one
unfolding init
one-Counts = open_fd-Counts init inode (omega arith) init-Counts

fh-inode : get_fd fh one ≡ some inode
fh-inode = (open_fd-get init inode fh init-Counts).1 ∙ rw (==_refl fh) refl

Reached-safe_example :
    ((is_open inode one ≡ true) ↔ ((fd : ℕ) × (get_fd fd one ≡ some inode)))
    × (0 < (open_fd inode one).0)
    × (get_fd (open_fd inode one).0 one ≡ none)
Reached-safe_example = Reached-safe 1 one inode (omega arith) (opened {n = 0} inode start)

abbrev fs : Fs
fs = init_bitmap_and_block (create 1396855637 4194304 1)

abbrev vfs : Vfs (ℕ → Option Block)
vfs = record {
  dev = λ i. some (filled 0);
  resolver = record { before = []; after = []; cur_size = 0; max_size = 1000 };
  fds = one;
}

zeros-IsStorable : IsStorable (get_inode (filled 0) 128)
unfolding get_inode get_le
zeros-IsStorable = record {
  size = omega arith;
  access_time = omega arith;
  change_time = omega arith;
  modify_time = omega arith;
  uid = omega arith;
  gid = omega arith;
  link_cnt = omega arith;
  mode = omega arith;
  direct = λ i h. omega arith;
  indirect1 = omega arith;
  indirect2 = omega arith;
}

getattr-chmod_example :
    (after : Vfs (ℕ → Option Block)) × (chmod memory fs 7 [] 0o100644 (some fh) vfs
      ≡ (done tt, after))
    × ((getattr memory fs 7 [] (some fh) after).0
        ≡ done (record (stat_of (get_inode (filled 0) 128)) { st_mode = 0o100644 }))
getattr-chmod_example =
    getattr-chmod memory fs 7 [] fh inode vfs (filled 0) fh-inode refl tt refl zeros-IsStorable
      0o100644

-- A file of 5000 bytes in the blocks 7 and 8, with its inode in block 5.
abbrev node : DiskInode
node = record {
  size = 5000;
  access_time = 1;
  change_time = 1;
  modify_time = 1;
  uid = 0;
  gid = 0;
  link_cnt = 1;
  mode = 0o100644;
  direct = λ i. i + 7;
  indirect1 = 0;
  indirect2 = 0;
  kind = file;
}

node-IsStorable : IsStorable node
node-IsStorable = record {
  size = omega arith;
  access_time = omega arith;
  change_time = omega arith;
  modify_time = omega arith;
  uid = omega arith;
  gid = omega arith;
  link_cnt = omega arith;
  mode = omega arith;
  direct = λ i h. omega arith;
  indirect1 = omega arith;
  indirect2 = omega arith;
}

abbrev node_block : Block
node_block = put_inode (filled 0) 128 node

abbrev blocks : ℕ → Option Block
blocks j = if j == 5 then some node_block else some (filled 0)

blocks-IsSmall : IsSmall memory fs 7 inode 2 (λ i. i + 7) node (λ x. 0) blocks
blocks-IsSmall = record {
  good = tt;
  inode_block = node_block;
  there = refl;
  same = get_inode-put_inode (filled 0) 128 node node-IsStorable;
  storable = node-IsStorable;
  size = omega arith;
  few = omega arith;
  direct = λ i h. refl;
  distinct = λ i j h k e. omega arith;
  own = λ i h e. omega arith;
  block = λ i h. (filled 0, rw (==_of_ne (i + 7) 5 (λ e. omega arith)) refl, λ q l. refl);
}

abbrev small_vfs : Vfs (ℕ → Option Block)
small_vfs = record vfs { dev = blocks }

read-write_example :
    (after : Vfs (ℕ → Option Block)) × (last : Vfs (ℕ → Option Block)) × (got : Block) × (write
        memory fs 7
        (filled 3)
        900
        4000
        fh
        small_vfs
      ≡ (done 900, after))
    × (read memory fs 7 (filled 0) 900 4000 fh after ≡ (done (900, got), last))
    × ((q : ℕ) → q < 900 → got q ≡ 3)
read-write_example =
    read-write memory fs 7 inode 2 (λ i. i + 7) node (λ x. 0) (filled 3) (filled 0) 900 4000 fh
      small_vfs fh-inode blocks-IsSmall (omega arith) (omega arith)
