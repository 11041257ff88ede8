-- ===== src/Inode/Create/Found.antt =====
-- `Inode::find` in a directory with direct blocks, before and after `Inode::create`.
use mathlib.Core.Path.{subst}
use mathlib.Core.Option.{none-ne-some}
use sbfs.Prelude.{
  ℕ, suc, ◌+◌, ◌-◌, ◌*◌, ◌^◌, ◌≤◌, ◌<◌, ◌≡◌, ◌≢◌, refl, ◌∙◌, sym, ap, Bool, true, false, ◌&&◌, leb,
  ltb, if◌then◌else◌, Option, none, some, length, arith,
}
use sbfs.Block.{Block, block_size}
use sbfs.Store.{BlockStore}
use sbfs.Position.{Position}
use sbfs.Path.{Str}
use sbfs.Layout.{Fs}
use sbfs.DiskInode.{DiskInode, file, directory, direct_count, data_blocks}
use sbfs.DiskInode.Bytes.Saved.{IsStorable, IsSame}
use sbfs.DiskInode.Bytes.{get_inode}
use sbfs.DiskInode.Data.Copy.{byte}
use sbfs.DiskInode.Data.Range.{IsFile}
use sbfs.DiskInode.Data.Write.{put}
use sbfs.Inode.{create, find}
use sbfs.Inode.Entries.{max_name, entry_bytes, new_entry}
use sbfs.Inode.Entries.Names.{NulFree}
use sbfs.Inode.Entries.Hits.{dir_lookup}
use sbfs.Inode.Entries.Same.{byte_at, Agree, dir_lookup-same}
use sbfs.Inode.Entries.Appended.{dir_lookup-append}
use sbfs.Inode.Find.{answer, find-dir_lookup}
use sbfs.Inode.Written.{IsSmall}
use sbfs.Inode.ReadBack.{node, file_block, node-IsFile, file_block-bytes}
use sbfs.Inode.Create.Appended.{grown}
use sbfs.Inode.Create.Made.{HasRoom, new_id, new_pos, create-IsSmall, grown-size, grown-kind}

-- The blocks of a file, by its bytes.
abbrev pub pages : (ℕ → ℕ) → ℕ → Block
pages bytes i q = bytes (i * block_size + q)

byte_at-pages : (bytes : ℕ → ℕ) (x : ℕ) → byte_at (pages bytes) x ≡ bytes x
byte_at-pages bytes x = ap bytes (omega arith)

module _ (bs : BlockStore) (fs : Fs) (now : ℕ) (pos : Position) (n : ℕ) (ids : ℕ → ℕ)
    (few : n < direct_count) where
  open bs use {State, Good, contents}

  -- `find` in a directory of `m` entries with direct blocks.
  pub find-IsSmall :
      (later m : ℕ) (d : DiskInode) (bytes : ℕ → ℕ) (s : State) (name : Str)
      → IsSmall bs fs now pos n ids d bytes s
      → d.kind ≡ directory
      → d.size ≡ m * entry_bytes
      → 0 < length name
      → length name ≤ max_name
      → NulFree name
      → (w : State) × (find bs fs later pos name s
          ≡ (answer fs (dir_lookup m (pages bytes) name), w))
        × Good w
        × ((j : ℕ) → contents w j ≡ contents s j)
  unfolding data_blocks
  find-IsSmall later m d bytes s name small k size h short nul =
      let a = node bs fs now pos n ids d bytes s small in
      let blocks = file_block bs fs now pos n ids d bytes s small (contents s) in
      let whole : a.size ≡ m * entry_bytes = small.same.size ∙ size in
      let (w, runs, good, same) =
        find-dir_lookup bs fs later m blocks name pos s small.inode_block small.good small.there
          (small.same.kind ∙ k) whole
          (subst (λ z. IsFile (contents s) a (data_blocks z) blocks) whole
            (node-IsFile bs fs now pos n ids d bytes s small (contents s) (λ j. refl)))
          (omega (arith, small.size)) h short nul in
      let agree : Agree m (pages bytes) blocks = λ x l.
        unfold byte in
        (file_block-bytes bs fs now pos n ids d bytes s small (contents s) (λ j. refl) x
          (omega (arith, small.size)))
        ∙ sym (byte_at-pages bytes x) in
      (
        w,
        runs ∙ ap (λ o. (answer fs o, w)) (dir_lookup-same m (pages bytes) blocks name agree short),
        good,
        same,
      )

  -- The bytes of the directory with the new entry.
  module _ (m id : ℕ) (name : Str) (bytes : ℕ → ℕ) where
    abbrev after_append : ℕ → ℕ
    after_append = put entry_bytes (m * entry_bytes) 0 (new_entry name id) bytes

    after_append-Agree : Agree m (pages bytes) (pages after_append)
    unfolding put
    after_append-Agree x l =
        byte_at-pages after_append x
        ∙ before (leb (m * entry_bytes) x) (ground arith)
        ∙ sym (byte_at-pages bytes x)
      where
        before :
            (c : Bool)
            → c ≡ false
            → (if c && ltb x (m * entry_bytes + entry_bytes)
                then new_entry name id (0 + (x - m * entry_bytes))
                else bytes x)
              ≡ bytes x
        before c e = rw e refl

    after_append-last :
        (q : ℕ)
        → q < entry_bytes
        → byte_at (pages after_append) (m * entry_bytes + q) ≡ new_entry name id q
    unfolding put
    after_append-last q l =
        byte_at-pages after_append (m * entry_bytes + q)
        ∙ inside
            (leb (m * entry_bytes) (m * entry_bytes + q)
              && ltb (m * entry_bytes + q) (m * entry_bytes + entry_bytes))
            (ground arith)
        ∙ ap (new_entry name id) (omega arith)
      where
        inside :
            (c : Bool)
            → c ≡ true
            → (if c
                then new_entry name id (0 + (m * entry_bytes + q - m * entry_bytes))
                else bytes (m * entry_bytes + q))
              ≡ new_entry name id (0 + (m * entry_bytes + q - m * entry_bytes))
        inside c e = rw e refl

  answer-none : (o : Option ℕ) → answer fs o ≡ none → o ≡ none
  answer-none none e = refl
  answer-none (some id) e = absurd (none-ne-some _ (sym e))

  -- In a directory of `m` entries in fewer than 23 direct blocks, the last with room for an entry,
  -- where the inode bitmap has slot `slot` as its first free one: `create` of a file with a name
  -- of 1 to 251 characters without a NUL, and with members of the widths of their types, fills in
  -- the position of that slot, at which the new inode then stands. After it, `find` answers for
  -- every other such name as before, and for the new name with that position, if it found
  -- nothing before.
  pub find-create :
      (slot m later : ℕ) (d : DiskInode) (bytes : ℕ → ℕ) (s : State) (name : Str)
      (child : DiskInode) (o : Option Position)
      → IsSmall bs fs now pos n ids d bytes s
      → HasRoom bs fs now pos n ids slot (contents s)
      → d.kind ≡ directory
      → child.kind ≡ file
      → IsStorable child
      → d.size ≡ m * entry_bytes
      → d.size + entry_bytes ≤ n * block_size
      → data_blocks d.size ≡ data_blocks (d.size + entry_bytes)
      → 0 < length name
      → length name ≤ max_name
      → NulFree name
      → let p = new_pos bs fs now pos n ids slot in
        (w : State) × (create bs fs now pos name child (record { inode = o; dev = s })
          ≡ (some tt, record { inode = some p; dev = w }))
        × ((other : Str)
            → 0 < length other
            → length other ≤ max_name
            → NulFree other
            → other ≢ name
            → (find bs fs later pos other w).0 ≡ (find bs fs now pos other s).0)
        × ((find bs fs now pos name s).0 ≡ none → (find bs fs later pos name w).0 ≡ some p)
        × ((x : Block) × (contents w p.block_id ≡ some x)
            × IsSame (get_inode x p.block_offset) child)
  find-create slot m later d bytes s name child o small room k file_kind fits size more blocks
        pos_len short nul =
      let id = new_id bs fs now pos n ids slot in
      let (w, runs, new, made) =
        create-IsSmall bs fs now pos n ids d bytes s small slot name child o room k file_kind fits
          more blocks in
      let e : (grown now d).size ≡ suc m * entry_bytes =
        grown-size now d ∙ omega (arith, small.size) in
      let k' : (grown now d).kind ≡ directory = grown-kind now d ∙ k in
      let wide : id < 2 ^ 32 = omega (arith, room.below, room.ready.ids_fit) in
      let there : ℕ → ℕ = after_append m id name bytes in
      let new' : IsSmall bs fs now pos n ids (grown now d) there w =
        subst
          (λ z.
            IsSmall bs fs now pos n ids (grown now d)
              (put entry_bytes z 0 (new_entry name id) bytes) w)
          size new in
      let looked =
        dir_lookup-append m (pages bytes) (pages there) (after_append-Agree m id name bytes) name id
          short wide nul (after_append-last m id name bytes) in
      (
        w,
        runs,
        λ other h l u ne.
            ap (λ r. r.0) (find-IsSmall later (suc m) (grown now d) there w other new' k' e h l u).1
            ∙ ap (answer fs) ((looked other l u).0 ne)
            ∙ sym (ap (λ r. r.0) (find-IsSmall now m d bytes s other small k size h l u).1),
        λ absent.
            ap (λ r. r.0)
              (find-IsSmall later (suc m) (grown now d) there w name new' k' e pos_len short nul).1
            ∙ ap (answer fs) (
                (looked name short nul).1 (
                  answer-none (dir_lookup m (pages bytes) name) (
                    sym (
                      ap (λ r. r.0)
                        (find-IsSmall now m d bytes s name small k size pos_len short nul).1)
                    ∙ absent))),
        made,
      )
