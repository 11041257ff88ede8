-- ===== src/Tests/Restarts.antt =====
-- The theorems on the start and the end of the block device, at a disk in memory with a super block.
use sbfs.Prelude.{
  ℕ, ◌+◌, ◌*◌, ◌≤◌, ◌<◌, ◌≡◌, refl, ◌∙◌, ap, Bool, true, false, Option, none, some, List, [], ◌∷◌,
  leb, ◌==◌, if◌then◌else◌, arith,
}
use sbfs.Block.{Block, block_size, IsBytes, get_le}
use sbfs.Word.{test_bit}
use sbfs.Layout.Root.Blank.{Blank, made}
use sbfs.Vfs.Attributes.{disk_size}
use sbfs.Vfs.Restart.Format.{boot-boot}
use sbfs.Cache.{Device, sync_all}
use sbfs.Cache.Valid.{Valid, view}
use sbfs.Cache.Start.{start, init_cache-Valid}
use sbfs.Cache.SyncAll.{AllSynced, sync_all-AllSynced}
use sbfs.Device.Start.{Kernel, new_device, new_device-Valid}
use sbfs.Store.Calls.{reads, writes, Call, AllThere}
use sbfs.BlockCache.Cached.{cached_answers, plain_answers, cached_answers-plain_answers}
use sbfs.Layout.{SuperBlock, create, remaining_blocks, inode_area, init_bitmap_and_block}
use sbfs.Layout.Root.{put_super, fs_magic}
use sbfs.Layout.Root.Saved.{IsStorable}
use sbfs.Fd.{init}
use sbfs.Vfs.{Vfs}
use sbfs.Vfs.Restart.{boot, shutdown, boot-shutdown}
use sbfs.Main.{Options, Files, main}
use sbfs.Main.Idle.{main-blocks}
use sbfs.Tests.{disk, ram_disk, ram_disk-IsHealthy, full, full-Valid, filled}

-- A file of the length, with zeros where it had nothing.
abbrev or_zeros : Option Block → Option Block
or_zeros none = some (filled 0)
or_zeros (some b) = some b

abbrev truncated : (ℕ → Option Block) → ℕ → ℕ → Option Block
truncated d size i = if leb ((i + 1) * block_size) size then or_zeros (d i) else none

or_zeros-some : (o : Option Block) → (b : Block) × (or_zeros o ≡ some b)
or_zeros-some none = (filled 0, refl)
or_zeros-some (some b) = (b, refl)

truncated-in :
    (d : ℕ → Option Block) (size i : ℕ)
    → (i + 1) * block_size ≤ size
    → truncated d size i ≡ or_zeros (d i)
truncated-in d size i h = ground arith

kept :
    (d : ℕ → Option Block) (size i : ℕ) (b : Block)
    → (i + 1) * block_size ≤ size
    → d i ≡ some b
    → truncated d size i ≡ some b
kept d size i b h e = truncated-in d size i h ∙ ap or_zeros e

zeros :
    (d : ℕ → Option Block) (size i : ℕ)
    → (i + 1) * block_size ≤ size
    → (b : Block) × (truncated d size i ≡ some b)
zeros d size i h = let (b, e) = or_zeros-some (d i) in (b, truncated-in d size i h ∙ e)

abbrev kernel : Kernel ram_disk
kernel = record {
  ftruncate = λ d size. (true, truncated d size);
  pread-ftruncate = λ d size i b t h e. kept d size i b h e;
  reads = λ d size i t h. zeros d size i h;
}

new_device-Valid_example :
    (v : Device ram_disk) × (new_device ram_disk kernel 8192 (λ i. filled 9) (some disk)
      ≡ record { device = some v; num_data_blocks = some 2 })
    × Valid ram_disk v
    × ((i : ℕ) → i < 2 → (b : Block) × (view ram_disk v i ≡ some b))
    × ((i : ℕ) (b : Block) → i < 2 → disk i ≡ some b → view ram_disk v i ≡ some b)
new_device-Valid_example =
    new_device-Valid ram_disk kernel 8192 (λ i. filled 9) disk refl (omega arith)

sync_all-AllSynced_example : AllSynced ram_disk full (sync_all ram_disk full)
sync_all-AllSynced_example = sync_all-AllSynced ram_disk ram_disk-IsHealthy full full-Valid

abbrev calls : List Call
calls = reads 3 ∷ writes 3 (filled 7) ∷ reads 3 ∷ []

calls-AllThere : AllThere disk calls
unfolding AllThere
calls-AllThere = ((filled 0, refl), ((filled 0, refl), ((filled 7, refl), tt)))

abbrev new : Device ram_disk
new = start ram_disk disk 2 (λ i. filled 9)

cached_answers-plain_answers_example :
    ((cached_answers ram_disk ram_disk-IsHealthy calls new).0
      ≡ (plain_answers ram_disk ram_disk-IsHealthy calls disk).0)
    × Valid ram_disk (cached_answers ram_disk ram_disk-IsHealthy calls new).1
    × ((j : ℕ)
        → view ram_disk (cached_answers ram_disk ram_disk-IsHealthy calls new).1 j
          ≡ (plain_answers ram_disk ram_disk-IsHealthy calls disk).1 j)
cached_answers-plain_answers_example =
    cached_answers-plain_answers ram_disk ram_disk-IsHealthy calls new disk
      (init_cache-Valid ram_disk disk 2 (λ i. filled 9) (omega arith)).0
      (init_cache-Valid ram_disk disk 2 (λ i. filled 9) (omega arith)).1 calls-AllThere

abbrev super : SuperBlock
super = create fs_magic 4194304 1

super-IsStorable : IsStorable super
unfolding create remaining_blocks inode_area
super-IsStorable = record {
  magic = omega arith;
  total_blocks = omega arith;
  inode_bitmap_blocks = omega arith;
  inode_area_blocks = omega arith;
  data_bitmap_blocks = omega arith;
  data_area_blocks = omega arith;
  block_id = omega arith;
  block_offset = omega arith;
}

super-magic : super.magic ≡ fs_magic
unfolding create
super-magic = refl

abbrev super_disk : ℕ → Option Block
super_disk i = if i == 0 then some (put_super (filled 0) super) else some (filled 1)

abbrev mounted : Vfs (Device ram_disk)
mounted = record {
  dev = start ram_disk super_disk 2 (λ i. filled 9);
  resolver = record { before = []; after = []; cur_size = 0; max_size = 1000 };
  fds = init;
}

boot-shutdown_example :
    (u : Vfs (Device ram_disk)) × (boot ram_disk ram_disk-IsHealthy kernel
        (λ i. filled 9)
        7
        0
        0
        (filled 0)
        true
        0
        (some 8192)
        (some (
          shutdown ram_disk ram_disk-IsHealthy kernel
            (λ i. filled 9)
            (init_bitmap_and_block super)
            7
            mounted))
      ≡ some (some (init_bitmap_and_block super), u))
    × Valid ram_disk u.dev
    × ((i : ℕ) (b : Block)
        → i < 2
        → view ram_disk mounted.dev i ≡ some b
        → view ram_disk u.dev i ≡ some b)
boot-shutdown_example =
    boot-shutdown ram_disk ram_disk-IsHealthy kernel (λ i. filled 9) 7 0 0 (filled 0)
      (init_bitmap_and_block super) mounted super 0 8192
      (init_cache-Valid ram_disk super_disk 2 (λ i. filled 9) (omega arith)).0
      ((init_cache-Valid ram_disk super_disk 2 (λ i. filled 9) (omega arith)).1 0) super-IsStorable
      super-magic (omega arith) (omega arith) refl

-- The path of the arguments is opened.
abbrev asked : Options
asked = record { disk_path = 47 ∷ 100 ∷ []; is_open = 1 }

abbrev parse : Options → Bool × Options
parse o = (false, asked)

abbrev files : Files ram_disk
files = record { open_path = λ p. some super_disk; stat_path = λ p. some 8192 }

main-blocks_example :
    (e : ℕ → Option Block) × (main ram_disk ram_disk-IsHealthy kernel
        (λ i. filled 9)
        7
        0
        0
        (filled 0)
        (λ t. t.0)
        parse
        files
        []
      ≡ some e)
    × ((i : ℕ) (b : Block) → i < 2 → super_disk i ≡ some b → e i ≡ some b)
main-blocks_example =
    main-blocks ram_disk ram_disk-IsHealthy kernel (λ i. filled 9) 7 0 0 (filled 0) (λ t. t.0) parse
      files asked super_disk super 8192 refl refl refl refl refl super-IsStorable super-magic
      (omega arith) (omega arith) refl

-- A new file.
abbrev new_disk : ℕ → Option Block
new_disk i = some (filled 0)

new_disk-IsBytes : IsBytes (filled 0)
new_disk-IsBytes = λ i. omega arith

new_disk-Blank : Blank (truncated new_disk disk_size)
unfolding get_le test_bit
new_disk-Blank = record {
  super = filled 0;
  inodes = filled 0;
  bits = filled 0;
  data_bits = λ i. filled 0;
  entries = filled 0;
  super_there = refl;
  inodes_there = refl;
  entries_there = refl;
  bits_there = refl;
  bits_IsBytes = new_disk-IsBytes;
  data_bits_there = λ i h. truncated-in new_disk disk_size (1026 + i) (omega arith);
  data_bits_IsBytes = λ i h. new_disk-IsBytes;
  inode_free = refl;
  data_free = refl;
}

boot-boot_example :
    (v : Vfs (Device ram_disk)) × (u : Vfs (Device ram_disk)) × (boot ram_disk ram_disk-IsHealthy
        kernel
        (λ i. filled 9)
        7
        0
        0
        (filled 0)
        false
        disk_size
        none
        (some new_disk)
      ≡ some (some made, v))
    × (boot ram_disk ram_disk-IsHealthy kernel
          (λ i. filled 9)
          7
          0
          0
          (filled 0)
          true
          0
          (some 8192)
          (some (shutdown ram_disk ram_disk-IsHealthy kernel (λ i. filled 9) made 7 v))
        ≡ some (some made, u))
    × ((i : ℕ) (b : Block)
        → i < 2
        → view ram_disk v.dev i ≡ some b
        → view ram_disk u.dev i ≡ some b)
boot-boot_example =
    boot-boot ram_disk ram_disk-IsHealthy kernel (λ i. filled 9) 7 0 0 (filled 0) new_disk none 0
      8192 refl new_disk-Blank (omega arith) (omega arith) (λ e. refl)
