-- ===== src/Inode/Find.antt =====
-- `Inode::find` on a directory, against the list of its entries.
use mathlib.Core.Path.{subst}
use sbfs.Prelude.{
  ◌>>=◌, ℕ, ◌*◌, ◌^◌, ◌≤◌, ◌<◌, ◌≡◌, refl, ◌∙◌, sym, ap, Bool, if◌then◌else◌, Option, none, some,
  length, arith, M, pure, fail,
}
use sbfs.Block.{Block}
use sbfs.Store.{BlockStore}
use sbfs.Position.{Position}
use sbfs.Path.{Str}
use sbfs.Layout.{Fs, disk_inode_pos}
use sbfs.DiskInode.{DiskInode, file, directory, direct_count, data_blocks, total_blocks}
use sbfs.DiskInode.Bytes.{get_inode}
use sbfs.DiskInode.Bytes.Stored.{read_inode-Leaves}
use sbfs.DiskInode.Data.Range.{IsFile, same-IsFile}
use sbfs.Inode.{locate, search, find, is_directory}
use sbfs.Inode.Entries.{max_name, entry_bytes, fresh_block, entry_inode}
use sbfs.Inode.Entries.Names.{NulFree}
use sbfs.Inode.Entries.Pages.{fresh_block-Clean}
use sbfs.Inode.Entries.Hits.{dir_lookup, hit_inode, hit_inode-dir_lookup}
use sbfs.Inode.Locate.{IsDir, Hits, locate-Hits}

small_total : (size : ℕ) → data_blocks size < direct_count → total_blocks size ≡ data_blocks size
unfolding total_blocks
small_total size h = ground arith

-- The inode that `find` answers with.
abbrev pub answer : Fs → Option ℕ → Option Position
answer fs none = none
answer fs (some id) = some (disk_inode_pos fs id)

module _ (bs : BlockStore) (fs : Fs) (now : ℕ) where
  open bs use {State, Good, contents}

  search-Hits :
      (m : ℕ) (bytes : ℕ → Block) (name : Str) (pos : Position) (s : State) (b : Block)
      (short : length name ≤ max_name) (few : m * entry_bytes ≤ 2 ^ 31)
      → Good s
      → contents s pos.block_id ≡ some b
      → 0 < length name
      → NulFree name
      → (get_inode b pos.block_offset).kind ≡ directory
      → data_blocks (m * entry_bytes) < direct_count
      → IsDir bs fs now m bytes name short few (contents s) (get_inode b pos.block_offset)
      → Hits bs fs now m bytes name short few 0 s (search bs fs now pos name s)
  unfolding search
  search-Hits m bytes name pos s b short few g c h nul k n dir =
      let d = get_inode b pos.block_offset in
      let r = read_inode-Leaves bs pos s b g c in
      let next : Bool → M State (Option (ℕ × ℕ × Block) × DiskInode) =
        λ c. if c then locate bs fs now (total_blocks d.size) 0 name d fresh_block else fail in
      let blocks : total_blocks d.size ≡ data_blocks (m * entry_bytes) =
        ap total_blocks dir.size ∙ small_total (m * entry_bytes) n in
      let l =
        locate-Hits bs fs now m bytes name short few (total_blocks d.size) 0 d fresh_block r.after
          (omega (arith, blocks)) (fresh_block-Clean name h nul) r.good
          (record {
            size = dir.size;
            file = same-IsFile bs d (data_blocks d.size) bytes r.holds dir.file;
          }) in
      record {
        hit = l.hit;
        node = l.node;
        after = l.after;
        runs = rw r.runs (ap (λ c. next c r.after) (ap is_directory k) ∙ l.runs);
        good = l.good;
        same = λ j. l.same j ∙ r.holds j;
        entry = l.entry;
      }

  finish :
      (o : Option (ℕ × ℕ × Block)) (w : State)
      → (elim o as (λ _. M State Position) [
        | none ↦ fail
        | some (i, j, buf) ↦ pure (disk_inode_pos fs (entry_inode buf j))
      ])
          w
        ≡ (answer fs (hit_inode o), w)
  finish none w = refl
  finish (some (i, j, buf)) w = refl

  -- On a good device, where the inode at a position is a directory of `m` entries in fewer than
  -- 23 blocks that its index finds, `find` of a name of 1 to 251 characters without a NUL
  -- answers with the position of the inode in the first of the `m` entries that has the name,
  -- and fails where none has it; the device stays good and no block changes.
  pub find-dir_lookup :
      (m : ℕ) (bytes : ℕ → Block) (name : Str) (pos : Position) (s : State) (b : Block)
      → Good s
      → contents s pos.block_id ≡ some b
      → (get_inode b pos.block_offset).kind ≡ directory
      → (get_inode b pos.block_offset).size ≡ m * entry_bytes
      → IsFile (contents s) (get_inode b pos.block_offset) (data_blocks (m * entry_bytes)) bytes
      → data_blocks (m * entry_bytes) < direct_count
      → 0 < length name
      → length name ≤ max_name
      → NulFree name
      → (w : State) × (find bs fs now pos name s ≡ (answer fs (dir_lookup m bytes name), w))
        × Good w
        × ((j : ℕ) → contents w j ≡ contents s j)
  unfolding find data_blocks
  find-dir_lookup m bytes name pos s b g c k size there n h short nul =
      let few : m * entry_bytes ≤ 2 ^ 31 = omega arith in
      let dir : IsDir bs fs now m bytes name short few (contents s) (get_inode b pos.block_offset) =
        record {
          size = size;
          file =
              subst (λ z. IsFile (contents s) (get_inode b pos.block_offset) (data_blocks z) bytes)
                (sym size) there;
        } in
      let l = search-Hits m bytes name pos s b short few g c h nul k n dir in
      (
        l.after,
        rw l.runs (
            finish l.hit l.after
            ∙ ap (λ x. (answer fs x, l.after)) (hit_inode-dir_lookup m bytes name l.hit l.entry)),
        l.good,
        l.same,
      )

  -- A file has no entries.
  pub find-file :
      (name : Str) (pos : Position) (s : State) (b : Block)
      → Good s
      → contents s pos.block_id ≡ some b
      → (get_inode b pos.block_offset).kind ≡ file
      → (w : State) × (find bs fs now pos name s ≡ (none, w))
        × Good w
        × ((j : ℕ) → contents w j ≡ contents s j)
  unfolding find search
  find-file name pos s b g c k =
      let d = get_inode b pos.block_offset in
      let r = read_inode-Leaves bs pos s b g c in
      let next : Bool → M State Position = λ c.
        (if c then locate bs fs now (total_blocks d.size) 0 name d fresh_block else fail)
        >>= λ (hit, _). elim hit as (λ _. M State Position) [
          | none ↦ fail
          | some (i, j, buf) ↦ pure (disk_inode_pos fs (entry_inode buf j))
        ] in
      (r.after, rw r.runs (ap (λ c. next c r.after) (ap is_directory k)), r.good, r.holds)
