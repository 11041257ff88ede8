-- ===== src/Cache/Victim.antt =====
-- Which slot the block cache evicts: `alloc` resets the slot's pointers before it unlinks it.
use mathlib.Core.Path.{subst}
use sbfs.Cache.Ring.{OptIn}
use sbfs.Prelude.{ℕ, ◌≡◌, ◌∙◌, ap, true, none, some, ==_refl}
use sbfs.Storage.{Storage, IsHealthy}
use sbfs.Cache.{
  Device, alloc, alloc_from, alloc_lru, alloc_written, evict, touch, lru_add, lru_remove,
}
use sbfs.Cache.Valid.{Valid, Used}
use sbfs.Cache.Alloc.Taken.{flush}

module _ (st : Storage) where
  evict-last :
      (v : Device st) (s : ℕ) → v.cache.lru_last ≡ some s → (evict st s v).cache.lru_last ≡ some s
  unfolding evict touch lru_add lru_remove
  evict-last v s h = rw (h, ==_refl s)

  evict-free :
      (v : Device st) (s : ℕ) → v.cache.free_first ≡ none → (evict st s v).cache.free_first ≡ none
  unfolding evict touch lru_add lru_remove
  evict-free v s e = e

  -- On a healthy disk and a valid device without a free slot, `alloc` takes the slot at the end of
  -- the list and leaves that slot at the end, still without a free slot, so that it is the next
  -- one to be evicted.
  pub alloc-same_victim :
      IsHealthy st
      → (v : Device st) (s : ℕ) → Valid st v
      → v.cache.free_first ≡ none
      → v.cache.lru_last ≡ some s
      → ((alloc st v).1 ≡ some s)
        × ((alloc st v).2.cache.free_first ≡ none)
        × ((alloc st v).2.cache.lru_last ≡ some s)
  unfolding alloc alloc_from alloc_lru alloc_written
  alloc-same_victim ok v s k e h =
      let used : Used v.cache s = subst (OptIn (Used v.cache)) h k.ring.last in
      let (d, f) = flush st ok v (v.cache.buffer s).id s k.entries used in
      let w : Device st = record v { disk = d } in
      let runs : alloc st v ≡ (true, some s, evict st s w) =
        ap (λ o. alloc_from st o v) e
        ∙ ap (λ o. alloc_lru st o v) h
        ∙ ap (alloc_written st s) f.runs in
      (
        ap (λ r. r.1) runs,
        ap (λ r. r.2.cache.free_first) runs ∙ evict-free w s e,
        ap (λ r. r.2.cache.lru_last) runs ∙ evict-last w s h,
      )
