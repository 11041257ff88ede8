-- ===== src/Cache/Alloc.antt =====
-- `alloc` of the block cache: a free slot if there is one, and else the slot at the end of the
-- list, whose block goes to disk first.
pub mod Taken
pub mod Free
pub mod Evict
use mathlib.Core.Path.{subst}
use sbfs.Prelude.{ℕ, ◌<◌, ◌≡◌, true, List, [], ◌∷◌, Option-cases, inl, inr}
use sbfs.Storage.{Storage, IsHealthy}
use sbfs.Cache.{Device, touch}
use sbfs.Cache.Ring.{Ring, has, OptIn}
use sbfs.Cache.Valid.{Used, Valid}
use sbfs.Cache.Alloc.Taken.{flush, Allocated}
use sbfs.Cache.Alloc.Free.{from_free, free-Allocated}
use sbfs.Cache.Alloc.Evict.{after, evict-Allocated}

module _ (st : Storage) where
  -- On a healthy disk, `alloc` never fails on a valid device: it returns a slot that is then
  -- clean, in use by no block of the table and among the linked slots, the rest of the invariant
  -- holds, and every block of the device reads as before.
  pub alloc_lem :
      IsHealthy st → (v : Device st) → Valid st v → (s : ℕ) × (w : Device st) × Allocated st v s w
  alloc_lem ok v k = from k.spare k.ring k.room
    where
      from :
          (xs : List ℕ)
          → Ring (Used v.cache) xs v.cache
          → ((t : ℕ) → has t xs ≡ true → t < v.cache.size)
          → (s : ℕ) × (w : Device st) × Allocated st v s w
      from (y ∷ xs) r room = (
        y,
        record v { cache = touch y (from_free st v y xs r k.entries room) },
        free-Allocated st v y xs r k.entries room,
      )
      from [] r room = elim (Option-cases v.cache.lru_last) [
        | inl h ↦ absurd (k.some_slot r.free h)
        | inr (s, h) ↦
            let used : Used v.cache s = subst (OptIn (Used v.cache)) h r.last in
            let (d, f) = flush st ok v (v.cache.buffer s).id s k.entries used in
            (
              s,
              after st v s [] r k.entries room used d f,
              evict-Allocated st v s [] r k.entries room used d f r.free h,
            )
      ]
