-- ===== src/Inode/Create/Appended.antt =====
-- The new entry that `create` writes at the end of a directory.
use sbfs.Prelude.{
  ℕ, ◌+◌, ◌*◌, ◌%◌, ◌^◌, ◌≤◌, ◌<◌, ◌≡◌, refl, ◌∙◌, sym, ap, true, false, Option, some, arith, inl,
  and_then, pure, fail, ◌>>◌, Bool, if◌then◌else◌, ◌>>=◌, M,
}
use sbfs.Block.{Block, block_size}
use sbfs.Store.{BlockStore}
use sbfs.Bitmap.{sub32}
use sbfs.Path.{Str}
use sbfs.Layout.{Fs, disk_inode_pos, alloc_inode}
use sbfs.DiskInode.{DiskInode, file, directory, direct_count, data_blocks, update_meta}
use sbfs.DiskInode.Lookup.{Located}
use sbfs.DiskInode.Resize.Same.{resize-same_blocks}
use sbfs.DiskInode.Data
use sbfs.DiskInode.Data.Write.{put, Has}
use sbfs.DiskInode.Data.Written.{write_data-Has}
use sbfs.DiskInode.Bytes.{read_inode, write_inode}
use sbfs.Position.{Position}
use sbfs.Inode.{
  Target, lift, or_fail, fill, is_directory, create, with_dots, append_entry, keep, on_inode,
}
use sbfs.Inode.Entries.{entry_bytes, new_entry}

-- The inode of a directory with an entry more.
unfoldable pub grown : (now : ℕ) → DiskInode → DiskInode
unfolding update_meta
grown now d =
    update_meta now true true false
      (record (update_meta now true true true d) { size = (d.size + entry_bytes) % 2 ^ 32 })

module _ (bs : BlockStore) (fs : Fs) (now : ℕ) (a : DiskInode) (n : ℕ) (ids : ℕ → ℕ) where
  open bs use {State, Good, contents}

  abbrev resized : DiskInode
  resized = record (update_meta now true true true a) { size = (a.size + entry_bytes) % 2 ^ 32 }

  pub append_entry-Has :
      (f : ℕ → Option Block) (name : Str) (id : ℕ) (bytes : ℕ → ℕ) (s : State)
      → n ≤ direct_count
      → ((i : ℕ) → i < n → a.direct i ≡ ids i)
      → ((i j : ℕ) → i < n → j < n → ids i ≡ ids j → i ≡ j)
      → a.size + entry_bytes ≤ n * block_size
      → data_blocks a.size ≡ data_blocks (a.size + entry_bytes)
      → Has bs a n ids f bytes s
      → (w : State) × (append_entry bs fs now name id a s ≡ (some (grown now a), w))
        × Has bs a n ids f (put entry_bytes a.size 0 (new_entry name id) bytes) w
  unfolding append_entry grown update_meta Located
  append_entry-Has f name id bytes s few direct distinct room blocks has =
      let size : (a.size + entry_bytes) % 2 ^ 32 ≡ a.size + entry_bytes = omega arith in
      let back : sub32 resized.size entry_bytes ≡ a.size = omega arith in
      let e =
        resize-same_blocks bs fs.data_bitmap now ((a.size + entry_bytes) % 2 ^ 32)
          (record { node = a; dev = s }) (blocks ∙ ap data_blocks (sym size)) in
      let rest : Unit {0} × DiskInode → M State DiskInode = λ (_, d'). (do
        (_, d'') ←
            on_inode d'
              (Data.write_data bs now (sub32 d'.size entry_bytes) (new_entry name id) entry_bytes)
        pure d'') in
      let (w, runs, h) =
        write_data-Has bs resized n ids f
          (record { found = λ g h i l. inl (omega arith, direct i l); distinct = distinct }) now
          a.size entry_bytes (new_entry name id) bytes s (omega arith) (omega arith) (omega arith)
          (omega arith) (record { good = has.good; block = has.block; others = has.others }) in
      (
        w,
        ap (λ r. and_then (keep r) rest) e
            ∙ ap
                (λ o.
                  (on_inode resized (Data.write_data bs now o (new_entry name id) entry_bytes)
                      >>= λ (_, d''). pure d'')
                    s)
                back
            ∙ ap (λ r. and_then (keep r) (λ (_, d''). pure d'')) runs,
        record { good = h.good; block = h.block; others = h.others },
      )

module _ (bs : BlockStore) (fs : Fs) (now : ℕ) (pos : Position) (child : DiskInode) where
  open bs use {State}

  -- A file gets no entries.
  with_dots-file :
      (id : ℕ) (s : State)
      → child.kind ≡ file
      → with_dots bs fs now pos id child s ≡ (some child, s)
  unfolding with_dots
  with_dots-file id s k = chosen (is_directory child.kind) _ (pure child) s (ap is_directory k)
    where
      chosen :
          (c : Bool) (m m' : M State DiskInode) (s : State)
          → c ≡ false
          → (if c then m else m') s ≡ m' s
      chosen c m m' s e = rw e refl

  abbrev made : Str → (id : ℕ) → DiskInode → M (Target State) (Unit {0})
  made name id cur = do
    cur' ← lift (append_entry bs fs now name id cur)
    child' ← lift (with_dots bs fs now pos id child)
    lift (write_inode bs (disk_inode_pos fs id) child')
    lift (write_inode bs pos cur')

  -- The steps of `create` of a file, one after the other.
  pub create-runs :
      (name : Str) (cur cur' : DiskInode) (id : ℕ) (o : Option Position) (s0 s1 s2 s3 s4 s5 : State)
      → read_inode bs pos s0 ≡ (some cur, s1)
      → cur.kind ≡ directory
      → alloc_inode bs fs s1 ≡ (some id, s2)
      → append_entry bs fs now name id cur s2 ≡ (some cur', s3)
      → child.kind ≡ file
      → write_inode bs (disk_inode_pos fs id) child s3 ≡ (some tt, s4)
      → write_inode bs pos cur' s4 ≡ (some tt, s5)
      → create bs fs now pos name child (record { inode = o; dev = s0 })
        ≡ (some tt, record { inode = some (disk_inode_pos fs id); dev = s5 })
  unfolding create
  create-runs name cur cur' id o s0 s1 s2 s3 s4 s5 e0 k e1 e2 k' e3 e4 =
      let next : Bool → M (Target State) (Unit {0}) = λ c.
        if c
        then (do
          id ← lift (or_fail (alloc_inode bs fs))
          fill (disk_inode_pos fs id)
          made name id cur)
        else fail in
      rw e0 (
        ap (λ c. next c (record { inode = o; dev = s1 })) (ap is_directory k)
        ∙ rw (e1, e2, with_dots-file id s3 k', e3, e4) refl)
