-- ===== src/Cache/Alloc/Evict.antt =====
-- `alloc` where every slot is in use: the slot at the end of the list is written back and taken.
use mathlib.Core.Path.{subst}
use sbfs.Prelude.{
  ℕ, ◌<◌, ◌≡◌, ◌≢◌, refl, ◌∙◌, sym, ap, true, false, Option, none, some, List, arith, ◌==◌, update,
  Bool-cases, inl, inr, ◌⊎◌, if◌then◌else◌, ==_refl, ==_iff, update_ne,
}
use sbfs.Storage.{Storage}
use sbfs.Cache.{
  Cache, Device, init_slot, modify, touch, alloc, alloc_from, alloc_lru, alloc_written, evict,
}
use sbfs.Cache.Ring.{adjoin-Closed, Ring, Same, has, OptIn-map, touch-ends, touch-Same}
use sbfs.Cache.Valid.{Used, view, view_at, Entries, Entries-frame}
use sbfs.Cache.Alloc.Taken.{Flushed, Allocated, taken-Same, taken-status, taken-dirty, taken-Ring}

module _ (st : Storage) where
  open st use {Disk, pread, pwrite}

  module _ (v : Device st) (s : ℕ) (xs : List ℕ) (r : Ring (Used v.cache) xs v.cache)
      (e : Entries st v) (room : (t : ℕ) → has t xs ≡ true → t < v.cache.size)
      (used : Used v.cache s) where
    abbrev pub victim : ℕ
    victim = (v.cache.buffer s).id

    abbrev pub evicted : Cache
    evicted = record v.cache {
      table = update v.cache.table victim none;
      buffer = modify v.cache.buffer s init_slot;
    }

    -- An entry that is left names another slot and another block.
    left :
        (i t : ℕ) → evicted.table i ≡ some t → (v.cache.table i ≡ some t) × (t ≢ s) × (victim ≢ i)
    left i t h = elim (Bool-cases (victim == i)) [
      | inl p ↦ absurd (ground arith)
      | inr n ↦
          let old : v.cache.table i ≡ some t = ground arith in
          (old, λ p. ground (arith, e.ids i t old), ground arith)
    ]

    kept-Used : (t : ℕ) → t ≢ s → Used v.cache t → Used evicted t
    kept-Used t n u = elim (Bool-cases (s == t)) [
      | inl p ↦ absurd (ground arith)
      | inr q ↦ rw q (elim (Bool-cases (victim == (v.cache.buffer t).id)) [
        | inl p ↦ absurd (ground arith)
        | inr p ↦ rw p u
      ])
    ]

    evicted-Ring : Ring (λ t. Used v.cache t ⊎ (t ≡ s)) xs evicted
    evicted-Ring = record {
      closed =
          adjoin-Closed v.cache.buffer s (λ t u. (r.closed.prevs t u, r.closed.nexts t u))
            r.closed.apart (r.closed.apart s used) r.closed.chain;
      free = r.free;
      first = OptIn-map v.cache.lru_first (λ t u. inl u) r.first;
      last = OptIn-map v.cache.lru_last (λ t u. inl u) r.last;
    }

    module _ (d : Disk) (f : Flushed st v victim s d) where
      abbrev pub after : Device st
      after = record { cache = touch s evicted; disk = d }

      slot-Same : (t : ℕ) → t ≢ s → Same (after.cache.buffer t) (v.cache.buffer t)
      slot-Same = taken-Same st v.cache evicted s refl

      view-victim : view st after victim ≡ view st v victim
      unfolding touch
      view-victim =
          ap (λ t. view_at st (if t then none else v.cache.table victim) after victim)
            (==_refl victim)
          ∙ f.self
          ∙ sym (ap (λ o. view_at st o v victim) used)

      view-other : (j : ℕ) → (victim == j) ≡ false → view st after j ≡ view st v j
      unfolding touch
      view-other j n =
          ap (λ t. view_at st (if t then none else v.cache.table j) after j) n
          ∙ at (v.cache.table j) refl
        where
          at : (o : Option ℕ) → v.cache.table j ≡ o → view_at st o after j ≡ view_at st o v j
          at none h = f.others j (ground arith)
          at (some t) h = ap some (slot-Same t (left j t (rw n h)).1).block

      view-after : (j : ℕ) → view st after j ≡ view st v j
      view-after j = elim (Bool-cases (victim == j)) [
        | inl p ↦ subst (λ i. view st after i ≡ view st v i) ((==_iff victim j).0 p) view-victim
        | inr n ↦ view-other j n
      ]

      pub evict-Allocated :
          v.cache.free_first ≡ none → v.cache.lru_last ≡ some s → Allocated st v s after
      unfolding alloc alloc_from alloc_lru alloc_written evict touch
      evict-Allocated none_free is_last = record {
        runs =
            ap (λ o. alloc_from st o v) none_free
            ∙ ap (λ o. alloc_lru st o v) is_last
            ∙ ap (alloc_written st s) f.runs;
        reserved = record {
          spare = xs;
          ring =
              taken-Ring st v.cache evicted s refl xs
                (λ t n u.
                  ap v.cache.table (ap (λ x. x.id) (sym (same t n)))
                  ∙ (left (evicted.buffer t).id t u).0)
                kept-Used evicted-Ring;
          entries =
              Entries-frame st v after refl
                (λ i t h. let (old, n, m) = left i t h in (old, slot-Same t n, f.others i m))
                (λ t h.
                  let (n, old) = taken-dirty st v.cache evicted s refl t h in
                  (old, λ u. ap evicted.table (touch-Same s evicted t).id ∙ kept-Used t n u))
                e;
          room = room;
          last = (touch-ends s evicted).1;
          unnamed = λ i h. (left i s h).1 refl;
          status = taken-status st v.cache evicted s refl;
          fits = e.below victim s used;
        };
        same_view = view-after;
        none_kept = λ j h. ground arith;
      }
        where
          same : (t : ℕ) → t ≢ s → evicted.buffer t ≡ v.cache.buffer t
          same t n = update_ne v.cache.buffer (init_slot (v.cache.buffer s)) (λ p. n (sym p))
