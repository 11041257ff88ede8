-- ===== src/Vfs/Resolved.antt =====
-- `path_resolver->resolve` as the handlers call it, on the disk that `Inode::find` reads.
use mathlib.Core.Path.{subst}
use sbfs.Prelude.{
  ℕ, ◌*◌, ◌<◌, ◌≤◌, ◌≡◌, refl, ◌∙◌, sym, ap, fun_ext, Option, none, some, length, All,
}
use sbfs.Block.{Block}
use sbfs.Store.{BlockStore}
use sbfs.Position.{Position}
use sbfs.Path.{Str}
use sbfs.Layout.{Fs}
use sbfs.DiskInode.{file, directory, direct_count, data_blocks}
use sbfs.DiskInode.Bytes.{get_inode}
use sbfs.DiskInode.Data.Range.{IsFile}
use sbfs.Inode.{find}
use sbfs.Inode.Entries.{max_name, entry_bytes}
use sbfs.Inode.Entries.Names.{NulFree}
use sbfs.Inode.Entries.Hits.{dir_lookup}
use sbfs.Inode.Find.{answer, find-dir_lookup, find-file}
use sbfs.Resolver.{Walk, resolve}
use sbfs.Resolver.Walks.{Tree}
use sbfs.Resolver.Coherent.{Coherent, walk_path, parts_of, resolve-walk_path}
use sbfs.Vfs.{Vfs, done, resolve_path}

-- A directory as the number of its entries and the blocks that they are in; a file has none.
abbrev pub Listing : Type 0
Listing = Option (ℕ × (ℕ → Block))

-- Among the blocks `f`, the inode at `p` is a directory with the listing, or a file.
unfoldable pub IsNode : (f : ℕ → Option Block) → Position → Listing → Type 0
IsNode f p none = (b : Block) × (f p.block_id ≡ some b) × ((get_inode b p.block_offset).kind ≡ file)
IsNode f p (some (m, bytes)) =
    (b : Block) × (f p.block_id ≡ some b)
    × ((get_inode b p.block_offset).kind ≡ directory)
    × ((get_inode b p.block_offset).size ≡ m * entry_bytes)
    × IsFile f (get_inode b p.block_offset) (data_blocks (m * entry_bytes)) bytes
    × (data_blocks (m * entry_bytes) < direct_count)

unfoldable pub entry_of : Fs → Listing → Str → Option Position
entry_of fs none name = none
entry_of fs (some (m, bytes)) name = answer fs (dir_lookup m bytes name)

-- A name that the entries can have.
abbrev pub IsEntryName : Str → Type 0
IsEntryName name = (0 < length name) × (length name ≤ max_name) × NulFree name

module _ (bs : BlockStore) (fs : Fs) (now : ℕ) (f : ℕ → Option Block) where
  open bs use {State, Good, contents}

  abbrev pub Holds : State → Type 0
  Holds s = Good s × ((j : ℕ) → contents s j ≡ f j)

  find-entry_of :
      (o : Listing) (p : Position) (name : Str) (s : State)
      → IsNode f p o
      → IsEntryName name
      → Holds s
      → ((find bs fs now p name s).0 ≡ entry_of fs o name) × Holds (find bs fs now p name s).1
  unfolding IsNode entry_of
  find-entry_of none p name s (b, c, k) n (g, h) =
      let (w, runs, gw, same) = find-file bs fs now name p s b g (h p.block_id ∙ c) k in
      (ap (λ r. r.0) runs, subst (λ r. Holds r.1) (sym runs) (gw, λ j. same j ∙ h j))
  find-entry_of (some (m, bytes)) p name s (b, c, k, size, is_file, few) (pos, short, nul) (g, h) =
      let there =
        subst (λ x. IsFile x (get_inode b p.block_offset) (data_blocks (m * entry_bytes)) bytes)
          (sym (fun_ext h)) is_file in
      let (w, runs, gw, same) =
        find-dir_lookup bs fs now m bytes name p s b g (h p.block_id ∙ c) k size there few pos short
          nul in
      (ap (λ r. r.0) runs, subst (λ r. Holds r.1) (sym runs) (gw, λ j. same j ∙ h j))

  module _ (listing : Position → Listing) where
    abbrev pub tree : Tree
    tree p name = entry_of fs (listing p) name

    abbrev pub root : Position
    root = fs.super_block.root_inode_pos

    -- On a good device with the blocks `f`, where the root is a directory, each entry of a
    -- directory that is reached from it names a file or a directory, and directories have fewer
    -- than 23 blocks that their index finds, the resolver as the handlers call it, with each key
    -- of its cache beside the inode that its parts lead to, answers for a path with parts of 1 to
    -- 251 characters without a NUL with the walk along the entries. The blocks and the handles are
    -- as before, and the keys stand with their inodes again.
    pub resolve_path-walk_path :
        (path : Str) (v : Vfs State)
        → ((p : Position) (n : Str) (q : Position)
            → IsNode f p (listing p)
            → tree p n ≡ some q
            → IsNode f q (listing q))
        → IsNode f root (listing root)
        → All IsEntryName (parts_of path)
        → Holds v.dev
        → Coherent tree root v.resolver
        → (after : Vfs State) × (resolve_path bs fs now path v
            ≡ (done (walk_path tree root path), after))
          × Holds after.dev
          × Coherent tree root after.resolver
          × (after.fds ≡ v.fds)
    unfolding resolve_path
    resolve_path-walk_path path v closed start ok g c =
        let w : Walk State = record { resolver = v.resolver; dev = v.dev } in
        let r =
          resolve-walk_path (find bs fs now) tree Holds (λ p. IsNode f p (listing p)) IsEntryName
            (λ p n s h k l. find-entry_of (listing p) p n s h k l) closed root start path w ok g
            c in
        let x = resolve (find bs fs now) root path w in
        (
          record v { resolver = x.1.resolver; dev = x.1.dev },
          ap (λ p. (done p, record v { resolver = x.1.resolver; dev = x.1.dev })) r.0,
          r.2,
          r.3,
          refl,
        )
