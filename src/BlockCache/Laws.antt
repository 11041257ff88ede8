-- ===== src/BlockCache/Laws.antt =====
-- The device without a cache as a block store.
use sbfs.Prelude.{
  ℕ, ◌≡◌, refl, ◌∙◌, sym, ap, some, ◌==◌, if◌then◌else◌, Bool-cases, inl, inr, ==_iff, and_then,
  arith,
}
use sbfs.Block.{Block}
use sbfs.Storage.{Storage, IsHealthy}
use sbfs.Store.{BlockStore, Leaves}
use sbfs.BlockCache.{upsert, read, write}

module _ (st : Storage) (ok : IsHealthy st) where
  open st use {Disk, pread, pwrite}

  -- Each block of the disk can be written.
  abbrev pub AllOk : Disk → Type 0
  AllOk d = Unit {0}

  pread-pwrite :
      (d : Disk) (i : ℕ) (b : Block) {old : Block} (j : ℕ)
      → pread d i ≡ some old
      → pread (pwrite d i b).1 j ≡ (if i == j then some b else pread d j)
  pread-pwrite d i b {old} j h = elim (Bool-cases (i == j)) [
    | inl p ↦ rw p (
        ap (pread (pwrite d i b).1) (sym ((==_iff i j).0 p))
        ∙ st.pread-pwrite_self d i b (ok.writes d i b old h))
    | inr n ↦ rw n (st.pread-pwrite_ne d i j b (λ e. ground (arith, ==_iff i j)))
  ]

  rewritten :
      (d : Disk) (i : ℕ) {b : Block} (j : ℕ)
      → pread d i ≡ some b
      → (if i == j then some b else pread d j) ≡ pread d j
  rewritten d i j h = elim (Bool-cases (i == j)) [
    | inl p ↦ rw p (sym h ∙ ap (pread d) ((==_iff i j).0 p))
    | inr n ↦ rw n
  ]

  pub write-pread :
      (d : Disk) (i : ℕ) (b : Block) {old : Block}
      → pread d i ≡ some old
      → Leaves AllOk pread (write st i b d) tt (λ j. if i == j then some b else pread d j)
  unfolding write
  write-pread d i b h = record {
    after = (pwrite d i b).1;
    runs = refl;
    good = tt;
    holds = λ j. pread-pwrite d i b j h;
  }

  -- A read writes the block back that it has read.
  pub read-pread :
      (d : Disk) (i : ℕ) {b : Block}
      → pread d i ≡ some b
      → Leaves AllOk pread (read st i d) b (pread d)
  unfolding read
  read-pread d i {b} h = record {
    after = (pwrite d i b).1;
    runs = ap (λ o. and_then (o, d) (λ c d'. (some c, (upsert st i c d').1))) h;
    good = tt;
    holds = λ j. pread-pwrite d i b j h ∙ rewritten d i j h;
  }

  unfoldable pub plain_store : BlockStore
  plain_store = record {
    State = Disk;
    read = read st;
    write = write st;
    Good = AllOk;
    contents = pread;
    read-Leaves = λ d i g h. read-pread d i h;
    write-Leaves = λ d i b g h. write-pread d i b h;
  }
