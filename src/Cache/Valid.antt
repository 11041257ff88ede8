-- ===== src/Cache/Valid.antt =====
-- The invariant of the block cache beside its disk, and the contents that the pair stands for.
use sbfs.Prelude.{
  ℕ, ◌<◌, ◌%◌, ◌≡◌, ◌≢◌, refl, ◌∙◌, sym, ap, true, false, Option, none, some, List, ◌==◌, ◌⊎◌,
}
use sbfs.Block.{Block}
use sbfs.Storage.{Storage}
use sbfs.Cache.{Cache, Device, is_dirty, on_cache, touch}
use sbfs.Cache.Ring.{Ring, Same, has, touch-Ring, touch-Same, touch-ends, Ring-iff}

-- The table knows the slot under the block id that the slot names.
abbrev pub Used : Cache → ℕ → Type 0
Used c s = c.table (c.buffer s).id ≡ some s

module _ (st : Storage) where
  open st use {Disk, pread, pwrite}

  abbrev pub view_at : Option ℕ → Device st → ℕ → Option Block
  view_at none v i = pread v.disk i
  view_at (some s) v i = some (v.cache.buffer s).block

  -- Block `i` of the device: the cached copy if there is one, else the one on disk.
  abbrev pub view : Device st → ℕ → Option Block
  view v i = view_at (v.cache.table i) v i

  -- What holds of each entry of the table; and each dirty slot is in use.
  pub record Entries (v : Device st) : Type 0 where
    pub ids : (i s : ℕ) → v.cache.table i ≡ some s → (v.cache.buffer s).id ≡ i
    pub clean :
        (i s : ℕ)
        → v.cache.table i ≡ some s
        → is_dirty (v.cache.buffer s) ≡ false
        → pread v.disk i ≡ some (v.cache.buffer s).block
    pub readable : (i s : ℕ) → v.cache.table i ≡ some s → pread v.disk i ≢ none
    pub below : (i s : ℕ) → v.cache.table i ≡ some s → s < v.cache.size
    pub marked : (s : ℕ) → is_dirty (v.cache.buffer s) ≡ true → Used v.cache s

  pub record Valid (v : Device st) : Type 0 where
    pub spare : List ℕ
    pub ring : Ring (Used v.cache) spare v.cache
    pub entries : Entries v
    pub room : (s : ℕ) → has s spare ≡ true → s < v.cache.size
    pub some_slot : v.cache.free_first ≡ none → v.cache.lru_last ≢ none

  -- The device between `alloc` and the entry of the new block: slot `s` is taken, and unnamed.
  pub record Reserved (v : Device st) (s : ℕ) : Type 0 where
    pub spare : List ℕ
    pub ring : Ring (λ t. Used v.cache t ⊎ (t ≡ s)) spare v.cache
    pub entries : Entries v
    pub room : (t : ℕ) → has t spare ≡ true → t < v.cache.size
    pub last : v.cache.lru_last ≢ none
    pub unnamed : (i : ℕ) → v.cache.table i ≢ some s
    pub status : (v.cache.buffer s).status ≡ 0
    pub fits : s < v.cache.size

  -- Entries that a change leaves alone, with their slots and their blocks on disk.
  pub Entries-frame :
      (v w : Device st)
      → w.cache.size ≡ v.cache.size
      → ((i s : ℕ)
          → w.cache.table i ≡ some s
          → (v.cache.table i ≡ some s)
            × Same (w.cache.buffer s) (v.cache.buffer s)
            × (pread w.disk i ≡ pread v.disk i))
      → ((s : ℕ)
          → is_dirty (w.cache.buffer s) ≡ true
          → (is_dirty (v.cache.buffer s) ≡ true) × (Used v.cache s → Used w.cache s))
      → Entries v
      → Entries w
  Entries-frame v w z kept dirty e = record {
    ids = λ i s h. (kept i s h).1.id ∙ e.ids i s (kept i s h).0;
    clean = λ i s h k.
        let (old, same, read) = kept i s h in
        read
        ∙ e.clean i s old (ap (λ n. n % 2 == 1) (sym same.status) ∙ k)
        ∙ ap some (sym same.block);
    readable = λ i s h k. e.readable i s (kept i s h).0 (sym (kept i s h).2 ∙ k);
    below = λ i s h. rw z (e.below i s (kept i s h).0);
    marked = λ s h. (dirty s h).1 (e.marked s (dirty s h).0);
  }

  pub view-Same :
      (v w : Device st)
      → w.cache.table ≡ v.cache.table
      → w.disk ≡ v.disk
      → ((s : ℕ) → Same (w.cache.buffer s) (v.cache.buffer s))
      → (i : ℕ) → view w i ≡ view v i
  view-Same v w t d same i = ap (λ f. view_at (f i) w i) t ∙ at (v.cache.table i)
    where
      at : (o : Option ℕ) → view_at o w i ≡ view_at o v i
      at none = ap (λ x. pread x i) d
      at (some s) = ap some (same s).block

  module _ (v : Device st) (x : ℕ) where
    abbrev touched : Device st
    touched = on_cache st (touch x) v

    pub view-touch : (i : ℕ) → view touched i ≡ view v i
    unfolding touch
    view-touch i = view-Same v touched refl refl (touch-Same x v.cache) i

    -- A hit moves a slot in use to the front, and keeps the invariant.
    pub touch-Valid : (i : ℕ) → v.cache.table i ≡ some x → Valid v → Valid touched
    unfolding touch
    touch-Valid i h k = record {
      spare = k.spare;
      ring =
          Ring-iff (λ s u. ap v.cache.table (touch-Same x v.cache s).id ∙ u)
            (λ s u. ap v.cache.table (sym (touch-Same x v.cache s).id) ∙ u)
            (touch-Ring x (ap v.cache.table (k.entries.ids i x h) ∙ h) k.ring);
      entries =
          Entries-frame v touched refl (λ i s e. (e, touch-Same x v.cache s, refl))
            (λ s h. (
              ap (λ n. n % 2 == 1) (sym (touch-Same x v.cache s).status) ∙ h,
              λ u. ap v.cache.table (touch-Same x v.cache s).id ∙ u,
            ))
            k.entries;
      room = k.room;
      some_slot = λ e. (touch-ends x v.cache).1;
    }
