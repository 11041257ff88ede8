-- ===== src/Layout/Root/Saved.antt =====
-- A super block that is written is read back.
use sbfs.Prelude.{ℕ, ◌^◌, ◌<◌, ◌≡◌, refl, ◌==◌, ==_refl, true, arith, ap, ◌∙◌, some, List, [], ◌∷◌}
use sbfs.Block.{Block}
use sbfs.Block.Fields.{Field, put_fields-Reads}
use sbfs.Store.{BlockStore, Leaves, Leaves-bind}
use sbfs.Layout.{
  SuperBlock, create, remaining_blocks, inode_area, disk_inode_pos, init_bitmap_and_block,
}
use sbfs.Layout.Root.{put_super, get_super, fs_magic, create_root, create_fs, open_fs, checked}

-- The members are `uint32_t`.
pub record IsStorable (sb : SuperBlock) : Type 0 where
  pub magic : sb.magic < 2 ^ 32
  pub total_blocks : sb.total_blocks < 2 ^ 32
  pub inode_bitmap_blocks : sb.inode_bitmap_blocks < 2 ^ 32
  pub inode_area_blocks : sb.inode_area_blocks < 2 ^ 32
  pub data_bitmap_blocks : sb.data_bitmap_blocks < 2 ^ 32
  pub data_area_blocks : sb.data_area_blocks < 2 ^ 32
  pub block_id : sb.root_inode_pos.block_id < 2 ^ 32
  pub block_offset : sb.root_inode_pos.block_offset < 2 ^ 32

abbrev members : SuperBlock → List Field
members sb =
    (4, 0, sb.magic)
    ∷ (4, 4, sb.total_blocks)
    ∷ (4, 8, sb.inode_bitmap_blocks)
    ∷ (4, 12, sb.inode_area_blocks)
    ∷ (4, 16, sb.data_bitmap_blocks)
    ∷ (4, 20, sb.data_area_blocks)
    ∷ (4, 24, sb.root_inode_pos.block_id)
    ∷ (4, 28, sb.root_inode_pos.block_offset)
    ∷ []

pub get_super-put_super :
    (pad : Block) (sb : SuperBlock) → IsStorable sb → get_super (put_super pad sb) ≡ sb
unfolding get_super put_super
get_super-put_super pad sb h =
    let (e0, (e1, (e2, (e3, (e4, (e5, (e6, (e7, _)))))))) =
      put_fields-Reads (members sb) pad 0 (ground arith) (
        h.magic,
        (
          h.total_blocks,
          (
            h.inode_bitmap_blocks,
            (
              h.inode_area_blocks,
              (h.data_bitmap_blocks, (h.data_area_blocks, (h.block_id, (h.block_offset, tt)))),
            ),
          ),
        ),
      ) in
    λ i. record {
      magic = e0 i;
      total_blocks = e1 i;
      inode_bitmap_blocks = e2 i;
      inode_area_blocks = e3 i;
      data_bitmap_blocks = e4 i;
      data_area_blocks = e5 i;
      root_inode_pos = record { block_id = e6 i; block_offset = e7 i };
    }

-- The super block of a new disk fits into its members.
pub create-IsStorable :
    (total bitmap_blocks id : ℕ)
    → total < 2 ^ 32
    → bitmap_blocks < 2 ^ 32
    → let sb = create fs_magic total bitmap_blocks in
      IsStorable (record sb { root_inode_pos = disk_inode_pos (init_bitmap_and_block sb) id })
unfolding create remaining_blocks inode_area disk_inode_pos init_bitmap_and_block
create-IsStorable total bitmap_blocks id h k = record {
  magic = omega arith;
  total_blocks = h;
  inode_bitmap_blocks = k;
  inode_area_blocks = omega arith;
  data_bitmap_blocks = omega arith;
  data_area_blocks = omega arith;
  block_id = omega arith;
  block_offset = omega arith;
}

checked-magic :
    (bs : BlockStore) (read sb : SuperBlock) (s : bs.State)
    → read ≡ sb
    → sb.magic ≡ fs_magic
    → checked bs read s ≡ (some (init_bitmap_and_block sb), s)
checked-magic bs read sb s e m =
    let test : (read.magic == fs_magic) ≡ true =
      ap (λ x. x.magic == fs_magic) e ∙ ap (λ x. x == fs_magic) m ∙ ==_refl fs_magic in
    rw test (ap (λ x. (some (init_bitmap_and_block x), s)) e)

-- `open` of a disk with a super block makes the file system of the super block, and changes no
-- block.
pub open_fs-Leaves :
    (bs : BlockStore) (pad : Block) (sb : SuperBlock) (s : bs.State)
    → bs.Good s
    → bs.contents s 0 ≡ some (put_super pad sb)
    → IsStorable sb
    → sb.magic ≡ fs_magic
    → Leaves bs.Good bs.contents (open_fs bs s) (init_bitmap_and_block sb) (bs.contents s)
unfolding open_fs
open_fs-Leaves bs pad sb s g c h m =
    Leaves-bind (bs.read 0) (λ b. checked bs (get_super b)) (bs.read-Leaves s 0 g c)
      (λ w good same. record {
        after = w;
        runs =
            checked-magic bs (get_super (put_super pad sb)) sb w (get_super-put_super pad sb h) m;
        good = good;
        holds = same;
      })

-- After `create` with counts of 32 bits, on a device in a good state whose block 0 has the super
-- block that was written last, `open` returns the file system that `create` returned, with the
-- position of its root.
pub open_fs-create_fs :
    (bs : BlockStore) (now uid gid : ℕ) (pad : Block) (total bitmap_blocks : ℕ) (s : bs.State)
    → total < 2 ^ 32
    → bitmap_blocks < 2 ^ 32
    → let (fs, s') = create_fs bs now uid gid pad total bitmap_blocks s in
      bs.Good s'
      → bs.contents s' 0 ≡ some (put_super pad fs.super_block)
      → (open_fs bs s').0 ≡ some fs
unfolding create_fs create_root create init_bitmap_and_block
open_fs-create_fs bs now uid gid pad total bitmap_blocks s h k g c =
    let (fs, s') = create_fs bs now uid gid pad total bitmap_blocks s in
    ap (λ r. r.0)
      (open_fs-Leaves bs pad fs.super_block s' g c (create-IsStorable total bitmap_blocks _ h k)
        refl).runs
