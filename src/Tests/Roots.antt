-- ===== src/Tests/Roots.antt =====
-- The theorem on the resolver over a disk, at a root directory whose one entry is itself.
use mathlib.Core.Path.{subst}
use mathlib.Core.Option.{some-injective, none-ne-some}
use sbfs.Prelude.{
  ℕ, ◌+◌, ◌*◌, ◌≡◌, refl, ◌∙◌, sym, ap, inl, inr, Bool-cases, Option, none, some, [], ◌∷◌, All,
  ◌==◌, if◌then◌else◌, arith,
}
use sbfs.Block.{Block}
use sbfs.Position.{Position}
use sbfs.Path.{Str, split, split_from, remove_end_slash}
use sbfs.DiskInode.{DiskInode, directory, data_blocks}
use sbfs.DiskInode.Bytes.{get_inode, put_inode}
use sbfs.DiskInode.Bytes.Saved.{IsStorable, IsSame, get_inode-put_inode}
use sbfs.DiskInode.Lookup.{Located}
use sbfs.DiskInode.Data.Range.{IsFile}
use sbfs.Layout.{Fs, create, init_bitmap_and_block, disk_inode_pos}
use sbfs.Fd.{init}
use sbfs.Inode.Entries.{new_entry}
use sbfs.Inode.Entries.Names.{has_name-new_entry}
use sbfs.Inode.Entries.Pages.{dir_has, dir_find, dir_inode}
use sbfs.Inode.Entries.Hits.{dir_lookup}
use sbfs.Inode.Find.{answer}
use sbfs.Resolver.Coherent.{Coherent, walk_path, parts_of}
use sbfs.Vfs.{Vfs, done, resolve_path}
use sbfs.Vfs.Resolved.{IsNode, Listing, entry_of, Holds, tree, resolve_path-walk_path, IsEntryName}
use sbfs.Tests.{memory, filled}

abbrev node : DiskInode
node = record {
  size = 256;
  access_time = 3;
  change_time = 2;
  modify_time = 1;
  uid = 1000;
  gid = 100;
  link_cnt = 1;
  mode = 0o040755;
  direct = λ i. i + 7;
  indirect1 = 0;
  indirect2 = 0;
  kind = directory;
}

node-IsStorable : IsStorable node
node-IsStorable = record {
  size = omega arith;
  access_time = omega arith;
  change_time = omega arith;
  modify_time = omega arith;
  uid = omega arith;
  gid = omega arith;
  link_cnt = omega arith;
  mode = omega arith;
  direct = λ i h. omega arith;
  indirect1 = omega arith;
  indirect2 = omega arith;
}

abbrev node_block : Block
node_block = put_inode (filled 0) 0 node

node-IsSame : IsSame (get_inode node_block 0) node
node-IsSame = get_inode-put_inode (filled 0) 0 node node-IsStorable

abbrev dot : Str
dot = 46 ∷ []

abbrev pub blocks : ℕ → Option Block
blocks = λ j. if j == 2 then some node_block else some (new_entry dot 0)

abbrev pub place : Position
place = record { block_id = 2; block_offset = 0 }

abbrev pub fs : Fs
fs = record (init_bitmap_and_block (create 1396855637 4194304 1)) {
  super_block = record (create 1396855637 4194304 1) { root_inode_pos = place };
}

-- Every position that is reached is the root.
abbrev listing : Position → Listing
listing p = some (1, λ i. new_entry dot 0)

node-IsFile : IsFile blocks (get_inode node_block 0) (data_blocks (1 * 256)) (λ i. new_entry dot 0)
unfolding IsFile Located data_blocks
node-IsFile i h = (i + 7, inl (omega arith, node-IsSame.direct i (omega arith)), ground arith)

place-IsNode : IsNode blocks place (listing place)
unfolding IsNode data_blocks
place-IsNode = (node_block, refl, node-IsSame.kind, node-IsSame.size, node-IsFile, omega arith)

dot_inode : dir_inode (λ i. new_entry dot 0) 0 ≡ 0
unfolding dir_inode
dot_inode = (has_name-new_entry dot [] 0 (omega arith) (omega arith) (refl, tt) tt).1

entry_of-place : (n : Str) (q : Position) → entry_of fs (listing place) n ≡ some q → place ≡ q
unfolding entry_of disk_inode_pos init_bitmap_and_block create dir_lookup
entry_of-place n q e = elim (Bool-cases (dir_has (λ i. new_entry dot 0) n 0)) [
  | inl t ↦
      let hit : dir_lookup 1 (λ i. new_entry dot 0) n ≡ some 0 =
        rw (dir_lookup, dir_find, t, dot_inode) refl in
      some-injective place q (sym (ap (answer fs) hit) ∙ e)
  | inr t ↦
      let miss : dir_lookup 1 (λ i. new_entry dot 0) n ≡ none = rw (dir_lookup, dir_find, t) refl in
      absurd (none-ne-some q (sym (ap (answer fs) miss) ∙ e))
]

abbrev pub start : Vfs (ℕ → Option Block)
start = record {
  dev = blocks;
  resolver = record { before = []; after = []; cur_size = 0; max_size = 1000 };
  fds = init;
}

-- `/./.`.
abbrev path : Str
path = 47 ∷ 46 ∷ 47 ∷ 46 ∷ []

names : All IsEntryName (parts_of path)
unfolding split split_from remove_end_slash
names = ((omega arith, omega arith, (refl, tt)), ((omega arith, omega arith, (refl, tt)), tt))

resolve_path-walk_path_example :
    (after : Vfs (ℕ → Option Block)) × (resolve_path memory fs 9 path start
      ≡ (done (walk_path (tree memory fs 9 blocks listing) place path), after))
    × Holds memory fs 9 blocks after.dev
    × Coherent (tree memory fs 9 blocks listing) place after.resolver
    × (after.fds ≡ init)
resolve_path-walk_path_example =
    resolve_path-walk_path memory fs 9 blocks listing path start
      (λ p n q h e. subst (λ x. IsNode blocks x (listing x)) (entry_of-place n q e) place-IsNode)
      place-IsNode names (tt, λ j. refl) (tt, tt)
