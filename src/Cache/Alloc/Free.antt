-- ===== src/Cache/Alloc/Free.antt =====
-- `alloc` where the free list has a slot.

use sbfs.Prelude.{
  ℕ, ◌<◌, ◌≡◌, ◌≢◌, refl, ◌∙◌, sym, ap, true, Option, none, some, List, ◌∷◌, arith, inl, ◌⊎◌,
  update_ne,
}
use sbfs.Storage.{Storage}
use sbfs.Cache.{Cache, Device, init_slot, modify, touch, alloc, alloc_from, alloc_free}
use sbfs.Cache.Ring.{adjoin-Closed, Ring, Same, has, OptIn-map, touch-ends}
use sbfs.Cache.Valid.{Used, view_at, Entries, Entries-frame}
use sbfs.Cache.Alloc.Taken.{Allocated, taken-Same, taken-status, taken-dirty, taken-Ring}

module _ (st : Storage) where
  open st use {Disk, pread, pwrite}

  module _ (v : Device st) (y : ℕ) (xs : List ℕ) (r : Ring (Used v.cache) (y ∷ xs) v.cache)
      (e : Entries st v) (room : (t : ℕ) → has t (y ∷ xs) ≡ true → t < v.cache.size) where
    abbrev pub from_free : Cache
    from_free = record v.cache {
      free_first = (v.cache.buffer y).next;
      buffer = modify v.cache.buffer y init_slot;
    }

    Used-ne : (t : ℕ) → Used v.cache t → t ≢ y
    Used-ne t u p = ground (arith, r.closed.apart t u)

    entry_ne : (i t : ℕ) → v.cache.table i ≡ some t → t ≢ y
    entry_ne i t h = Used-ne t (ap v.cache.table (e.ids i t h) ∙ h)

    from_free-Ring : Ring (λ t. Used v.cache t ⊎ (t ≡ y)) xs from_free
    from_free-Ring = record {
      closed =
          adjoin-Closed v.cache.buffer y (λ t u. (r.closed.prevs t u, r.closed.nexts t u))
            (λ t u. ground (arith, r.closed.apart t u)) r.closed.chain.1 r.closed.chain.2;
      free = r.closed.chain.0;
      first = OptIn-map v.cache.lru_first (λ s u. inl u) r.first;
      last = OptIn-map v.cache.lru_last (λ s u. inl u) r.last;
    }

    pub free-Allocated : Allocated st v y (record v { cache = touch y from_free })
    unfolding alloc alloc_from alloc_free touch
    free-Allocated = record {
      runs = rw r.free;
      reserved = record {
        spare = xs;
        ring =
            taken-Ring st v.cache from_free y refl xs
              (λ t n u. ap v.cache.table (ap (λ s. s.id) (sym (same t n))) ∙ u)
              (λ t n u. ap v.cache.table (ap (λ s. s.id) (same t n)) ∙ u) from_free-Ring;
        entries =
            Entries-frame st v w refl (λ i t h. (h, slot t (entry_ne i t h), refl))
              (λ t h.
                let (n, old) = taken-dirty st v.cache from_free y refl t h in
                (old, λ u. ap v.cache.table (slot t n).id ∙ u))
              e;
        room = λ t m. room t (ground arith);
        last = (touch-ends y from_free).1;
        unnamed = λ i h. entry_ne i y h refl;
        status = taken-status st v.cache from_free y refl;
        fits = room y (ground arith);
      };
      same_view = λ j. views j (v.cache.table j) refl;
      none_kept = λ j h. h;
    }
      where
        w : Device st
        w = record v { cache = touch y from_free }

        slot : (t : ℕ) → t ≢ y → Same ((touch y from_free).buffer t) (v.cache.buffer t)
        slot = taken-Same st v.cache from_free y refl

        same : (t : ℕ) → t ≢ y → from_free.buffer t ≡ v.cache.buffer t
        same t n = update_ne v.cache.buffer _ (λ p. n (sym p))

        views : (j : ℕ) (o : Option ℕ) → v.cache.table j ≡ o → view_at st o w j ≡ view_at st o v j
        views j none h = refl
        views j (some t) h = ap some (slot t (entry_ne j t h)).block
