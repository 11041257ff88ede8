-- ===== src/Device/Laws.antt =====
-- `BlockDevice` as a block store, over the cache and the disk.

use sbfs.Prelude.{
  inr, ==_iff, inl, Bool-cases, ◌==◌, sym, if◌then◌else◌, ℕ, ◌≡◌, refl, ◌∙◌, ap, Option, none, some,
}
use sbfs.Block.{Block}
use sbfs.Storage.{Storage, IsHealthy}
use sbfs.Store.{BlockStore, Leaves}
use sbfs.Cache
use sbfs.Cache.{Device}
use sbfs.Cache.Valid.{view_at, Valid, view}
use sbfs.Cache.Contents.{read_from_disk_lem, upsert-Leaves, get-miss, get-Leaves}
use sbfs.Device.{and_then, write, read, read_cached, read_missed}

module _ (st : Storage) where
  open st use {pread}

  module _ (ok : IsHealthy st) where
    -- On a healthy disk, a read of a block that the device has returns the block that the device
    -- holds, cached or not, keeps the device valid and changes none of its blocks.
    pub read-view :
        (v : Device st) (i : ℕ) {b : Block}
        → Valid st v
        → view st v i ≡ some b
        → Leaves (Valid st) (view st) (read st i v) b (view st v)
    unfolding read read_cached read_missed
    read-view v i {b} k h = from (v.cache.table i) refl
      where
        kept : (j : ℕ) → (if i == j then some b else view st v j) ≡ view st v j
        kept j = elim (Bool-cases (i == j)) [
          | inl p ↦ rw p (sym h ∙ ap (view st v) ((==_iff i j).0 p))
          | inr n ↦ rw n
        ]

        from :
            (o : Option ℕ)
            → v.cache.table i ≡ o
            → Leaves (Valid st) (view st) (read st i v) b (view st v)
        from (some s) e =
            let g = get-Leaves st v i s k e in
            let found : some (v.cache.buffer s).block ≡ some b =
              ap (λ o. view_at st o v i) (sym e) ∙ h in
            let same : (v.cache.buffer s).block ≡ b = cc in
            record {
              after = g.after;
              runs = ap (read_cached st i) (g.runs ∙ ap (λ x. (some x, g.after)) same);
              good = g.good;
              holds = g.holds;
            }
        from none e =
            let u = upsert-Leaves st ok v i b k h in
            let missed : pread v.disk i ≡ some b = ap (λ o. view_at st o v i) (sym e) ∙ h in
            record {
              after = u.after;
              runs =
                  ap (read_cached st i) (get-miss st v i e)
                  ∙ ap (λ r. and_then r (λ c w. (some c, (Cache.upsert st i c w).1)))
                      (read_from_disk_lem st v i ∙ ap (λ o. (o, v)) missed)
                  ∙ ap (λ r. (some b, r.1)) u.runs;
              good = u.good;
              holds = λ j. u.holds j ∙ kept j;
            }

    -- On a healthy disk, a write to a block that the device has succeeds and keeps the device
    -- valid; the device then holds the new block there and what it held everywhere else, whatever
    -- the cache did in between.
    pub write-view :
        (v : Device st) (i : ℕ) (b : Block) {old : Block}
        → Valid st v
        → view st v i ≡ some old
        → Leaves
            (Valid st)
            (view st)
            (write st i b v)
            tt
            (λ j. if i == j then some b else view st v j)
    unfolding write
    write-view v i b k h = upsert-Leaves st ok v i b k h

    -- The block device implements the interface of the code above it.
    unfoldable pub device_store : BlockStore
    device_store = record {
      State = Device st;
      read = read st;
      write = write st;
      Good = Valid st;
      contents = view st;
      read-Leaves = read-view;
      write-Leaves = write-view;
    }

  -- A block that neither the cache nor the disk has cannot be read, and nothing changes.
  pub read-none :
      (v : Device st) (i : ℕ)
      → v.cache.table i ≡ none
      → pread v.disk i ≡ none
      → read st i v ≡ (none, v)
  unfolding read read_cached read_missed
  read-none v i e h =
      ap (read_cached st i) (get-miss st v i e)
      ∙ ap (λ r. and_then r (λ c w. (some c, (Cache.upsert st i c w).1)))
          (read_from_disk_lem st v i ∙ ap (λ o. (o, v)) h)
