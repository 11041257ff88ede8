-- ===== src/DiskInode/Lookup.antt =====
-- Where `block_id` finds a block of the file.
use sbfs.Prelude.{
  ℕ, ◌-◌, ◌/◌, ◌%◌, ◌≤◌, ◌<◌, ◌≡◌, ◌⊎◌, inl, inr, refl, ap, ◌∙◌, Option, some, arith, le→not_ltb,
  lt→ltb, leb, false,
}
use sbfs.Block.{Block}
use sbfs.Store.{BlockStore, Leaves}
use sbfs.DiskInode.{
  DiskInode, entry, direct_count, indirect_count, single_count, max_blocks, block_id, read_entry,
  double_entry, entry_or_fail,
}
use sbfs.DiskInode.Data.{lookup}

-- Block `i` of the file is the device's block `id`, by the index blocks among the blocks `f`.
unfoldable pub Located : (ℕ → Option Block) → DiskInode → (i id : ℕ) → Type 0
Located f d i id =
    ((i < direct_count) × (d.direct i ≡ id))
    ⊎ ((direct_count ≤ i)
        × (i < single_count)
        × ((p : Block) × (f d.indirect1 ≡ some p) × (entry p (i - direct_count) ≡ id)))
    ⊎ ((single_count ≤ i)
        × (i < max_blocks)
        × ((p : Block) × (q : Block) × (f d.indirect2 ≡ some p)
            × (f (entry p ((i - direct_count - indirect_count) / indirect_count)) ≡ some q)
            × (entry q ((i - direct_count - indirect_count) % indirect_count) ≡ id)))

module _ (bs : BlockStore) where
  open bs use {State, read, Good, contents, read-Leaves}

  below : (n i : ℕ) → i < n → leb n i ≡ false
  below n i h = ground arith

  block_id-direct :
      (d : DiskInode) (i : ℕ) (s : State) → i < direct_count → block_id bs d i s ≡ (d.direct i, s)
  unfolding block_id
  block_id-direct d i s h = rw (below max_blocks i (omega arith), lt→ltb i direct_count h)

  block_id-single :
      (d : DiskInode) (i : ℕ) (s : State)
      → direct_count ≤ i
      → i < single_count
      → block_id bs d i s ≡ read_entry bs d.indirect1 (i - direct_count) s
  unfolding block_id read_entry
  block_id-single d i s l h =
      rw (below max_blocks i (omega arith), le→not_ltb i direct_count l, lt→ltb i single_count h)

  block_id-double :
      (d : DiskInode) (i : ℕ) (s : State)
      → single_count ≤ i
      → i < max_blocks
      → block_id bs d i s ≡ double_entry bs (i - direct_count - indirect_count) (read d.indirect2 s)
  unfolding block_id
  block_id-double d i s l h =
      rw
        (below max_blocks i h, le→not_ltb i direct_count (omega arith), le→not_ltb i single_count l)

  ok : ℕ × State → Option ℕ × State
  ok (id, s) = (some id, s)

  read_entry-Leaves :
      (id i : ℕ) (p : Block) (s : State)
      → Good s
      → contents s id ≡ some p
      → Leaves Good contents (ok (read_entry bs id i s)) (entry p i) (contents s)
  unfolding read_entry entry_or_fail ok
  read_entry-Leaves id i p s g e =
      let l = read-Leaves s id g e in
      record {
        after = l.after;
        runs = ap (λ r. ok (entry_or_fail bs i r)) l.runs;
        good = l.good;
        holds = l.holds;
      }

  double_entry-Leaves :
      (id i : ℕ) (p q : Block) (s : State)
      → Good s
      → contents s id ≡ some p
      → contents s (entry p (i / indirect_count)) ≡ some q
      → Leaves Good contents
          (ok (double_entry bs i (read id s)))
          (entry q (i % indirect_count))
          (contents s)
  unfolding double_entry
  double_entry-Leaves id i p q s g e f =
      let l = read-Leaves s id g e in
      let n =
        read_entry-Leaves (entry p (i / indirect_count)) (i % indirect_count) q l.after l.good
          (l.holds (entry p (i / indirect_count)) ∙ f) in
      record {
        after = n.after;
        runs = ap (λ r. ok (double_entry bs i r)) l.runs ∙ n.runs;
        good = n.good;
        holds = λ j. n.holds j ∙ l.holds j;
      }

  -- Where the index blocks on the way to block `i` of the file can be read, `block_id` returns the
  -- id that they have for it, in each of the three ranges of the index, and no block changes.
  pub lookup-Leaves :
      (d : DiskInode) (i id : ℕ) (s : State)
      → Good s
      → Located (contents s) d i id
      → Leaves Good contents (lookup bs d i s) id (contents s)
  unfolding Located ok
  lookup-Leaves d i id s g (inl (l, e)) = record {
    after = s;
    runs = ap ok (block_id-direct d i s l) ∙ ap (λ k. (some k, s)) e;
    good = g;
    holds = λ j. refl;
  }
  lookup-Leaves d i id s g (inr (inl (l, h, (p, e, k)))) =
      let r = read_entry-Leaves d.indirect1 (i - direct_count) p s g e in
      record {
        after = r.after;
        runs = ap ok (block_id-single d i s l h) ∙ r.runs ∙ ap (λ k. (some k, r.after)) k;
        good = r.good;
        holds = r.holds;
      }
  lookup-Leaves d i id s g (inr (inr (l, h, (p, q, e, e', k)))) =
      let r = double_entry-Leaves d.indirect2 (i - direct_count - indirect_count) p q s g e e' in
      record {
        after = r.after;
        runs = ap ok (block_id-double d i s l h) ∙ r.runs ∙ ap (λ k. (some k, r.after)) k;
        good = r.good;
        holds = r.holds;
      }
