-- ===== src/Inode/Locate.antt =====
-- The loop over the blocks of a directory, against the list of its entries.
use mathlib.Core.Path.{subst}
use sbfs.Prelude.{
  ℕ, zero, suc, ◌+◌, ◌-◌, ◌*◌, ◌%◌, ◌^◌, ◌≤◌, ◌<◌, ◌≡◌, refl, ◌∙◌, ap, true, false, Option, none,
  some, length, min, arith, Option-cases, M, pure, inl, inr, ltb, ltb→lt, Bool-cases,
}
use sbfs.Block.{Block, block_size}
use sbfs.Store.{BlockStore}
use sbfs.Path.{Str}
use sbfs.Layout.{Fs}
use sbfs.DiskInode.{DiskInode, data_blocks, update_meta}
use sbfs.DiskInode.Lookup.{Located}
use sbfs.DiskInode.Data.Range.{IsFile, IsInReach, same-IsFile}
use sbfs.DiskInode.Data.Read.{read_data-bytes}
use sbfs.DiskInode.Data
use sbfs.DiskInode.Data.Copy.{file_copy}
use sbfs.Inode.{on_inode, locate}
use sbfs.Inode.Entries.{max_name, entry_bytes, entries_in_block, find_entry}
use sbfs.Inode.Entries.Names.{IsFirst, find_entry-IsFirst}
use sbfs.Inode.Entries.Pages.{Clean, page}
use sbfs.Inode.Entries.Hits.{IsHit, page-IsHit, page-Clean, IsHit-before}

page_reach :
    (i size : ℕ)
    → i * block_size < size
    → size ≤ 2 ^ 31
    → IsInReach (i * block_size) (i * block_size + min block_size (size - i * block_size))
page_reach i size l h =
    elim (Bool-cases (ltb (i * block_size + min block_size (size - i * block_size)) (2 ^ 31))) [
      | inl e ↦ inl (ltb→lt _ (2 ^ 31) e)
      | inr e ↦ inr (ground arith)
    ]

module _ (bs : BlockStore) (fs : Fs) (now : ℕ) (m : ℕ) (bytes : ℕ → Block) (name : Str)
    (short : length name ≤ max_name) (few : m * entry_bytes ≤ 2 ^ 31) where
  open bs use {State, Good, contents}

  -- The inode finds the blocks of a directory of `m` entries.
  pub record IsDir (f : ℕ → Option Block) (d : DiskInode) : Type 0 where
    pub size : d.size ≡ m * entry_bytes
    pub file : IsFile f d (data_blocks d.size) bytes

  pub record Hits (i : ℕ) (s : State) (r : Option (Option (ℕ × ℕ × Block) × DiskInode) × State)
      : Type 0 where
    pub hit : Option (ℕ × ℕ × Block)
    pub node : DiskInode
    pub after : State
    pub runs : r ≡ (some (hit, node), after)
    pub good : Good after
    pub same : (j : ℕ) → contents after j ≡ contents s j
    pub entry : IsHit m i bytes name hit

  -- One block read into the buffer.
  record Loads (i : ℕ) (d : DiskInode) (buf : Block) (s : State) : Type 0 where
    len : ℕ
    node : DiskInode
    after : State
    runs :
        on_inode d (Data.read_data bs now (i * block_size % 2 ^ 32) buf block_size) s
        ≡ (some ((len, page m i bytes buf), node), after)
    good : Good after
    same : (j : ℕ) → contents after j ≡ contents s j
    dir : IsDir (contents after) node

  page-Loads :
      (i : ℕ) (d : DiskInode) (buf : Block) (s : State)
      → i < data_blocks (m * entry_bytes)
      → Good s
      → IsDir (contents s) d
      → Loads i d buf s
  unfolding data_blocks update_meta IsFile Located
  page-Loads i d buf s h g dir =
      let (w, runs, gw, same) =
        read_data-bytes bs now (i * block_size) block_size buf (record { node = d; dev = s }) bytes
          g dir.file (omega (arith, dir.size)) (omega arith) (omega (arith, dir.size))
          (page_reach i d.size (omega (arith, dir.size)) (omega (arith, dir.size))) in
      let off : i * block_size % 2 ^ 32 ≡ i * block_size = omega arith in
      record {
        len = min block_size (d.size - i * block_size);
        node = update_meta now true false false d;
        after = w;
        runs =
            rw (off, runs)
              (ap
                (λ z. (
                  some (
                    (
                      min block_size (d.size - i * block_size),
                      file_copy (min block_size (z - i * block_size)) (i * block_size) 0 bytes buf,
                    ),
                    update_meta now true false false d,
                  ),
                  w,
                ))
                dir.size);
        good = gw;
        same = same;
        dir = record {
          size = dir.size;
          file = same-IsFile bs d (data_blocks d.size) bytes same dir.file;
        };
      }

  pub locate-Hits :
      (n i : ℕ) (d : DiskInode) (buf : Block) (s : State)
      → i + n ≡ data_blocks (m * entry_bytes)
      → Clean name buf
      → Good s
      → IsDir (contents s) d
      → Hits i s (locate bs fs now n i name d buf s)
  unfolding locate IsHit data_blocks
  locate-Hits zero i d buf s e c g dir = record {
    hit = none;
    node = d;
    after = s;
    runs = refl;
    good = g;
    same = λ j. refl;
    entry = λ k low up. absurd (omega arith);
  }
  locate-Hits (suc n) i d buf s e c g dir =
      let r = page-Loads i d buf s (omega arith) g dir in
      let here = page m i bytes buf in
      let first = find_entry-IsFirst entries_in_block 0 name here in
      let next : Option ℕ → M State (Option (ℕ × ℕ × Block) × DiskInode) = λ o. elim o [
        | none ↦ locate bs fs now n (i + 1) name r.node here
        | some j ↦ pure (some (i, j, here), r.node)
      ] in
      elim (Option-cases (find_entry entries_in_block 0 name here)) [
        | inr (j, f) ↦ record {
          hit = some (i, j, here);
          node = r.node;
          after = r.after;
          runs = rw r.runs (ap (λ o. next o r.after) f);
          good = r.good;
          same = r.same;
          entry =
              page-IsHit m i bytes buf name short c j
                (subst (IsFirst entries_in_block 0 name here) f first);
        }
        | inl f ↦
            let clean =
              page-Clean m i bytes buf name short c
                (subst (IsFirst entries_in_block 0 name here) f first) in
            let on : locate bs fs now (suc n) i name d buf s
                ≡ locate bs fs now n (i + 1) name r.node here r.after =
              rw r.runs (ap (λ o. next o r.after) f) in
            let l = locate-Hits n (i + 1) r.node here r.after (omega arith) clean r.good r.dir in
            record {
              hit = l.hit;
              node = l.node;
              after = l.after;
              runs = on ∙ l.runs;
              good = l.good;
              same = λ j. l.same j ∙ r.same j;
              entry = IsHit-before m i bytes buf name short c l.hit clean l.entry;
            }
      ]
