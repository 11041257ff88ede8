-- ===== src/Cache/Sync.antt =====
-- What `sync` of the block cache writes to the disk.

use mathlib.Core.Option.{none-ne-some, some-injective}
use mathlib.Core.Path.{subst}
use sbfs.Prelude.{
  ℕ, ◌≡◌, ◌≢◌, refl, ◌∙◌, sym, ap, true, false, none, some, Option, arith, ◌==◌, ==_iff, ==_of_ne,
  Bool-cases, Option-cases, inl, inr, ◌⊎◌,
}
use sbfs.Storage.{Storage, IsHealthy}
use sbfs.Cache.{
  Device, is_dirty, rev_dirty, on_slot, on_cache, touch, write_to_disk, sync, sync_at, sync_slot,
}
use sbfs.Cache.Ring.{Ring-iff}
use sbfs.Cache.Valid.{view, view_at, Valid, touch-Valid, view-touch}
use sbfs.Cache.Page.{payload-Ring}

-- A call that succeeds on a valid device, after which the disk has its block `i`.
pub record Synced (st : Storage) (v : Device st) (i : ℕ) (r : Option (Unit {0}) × Device st)
    : Type 0 where
  pub after : Device st
  pub runs : r ≡ (some tt, after)
  pub valid : Valid st after
  pub same_view : (j : ℕ) → view st after j ≡ view st v j
  pub on_disk : st.pread after.disk i ≡ view st v i

module _ (st : Storage) (v : Device st) (i s : ℕ) (k : Valid st v)
    (named : v.cache.table i ≡ some s)
    (written : (st.pwrite v.disk i (v.cache.buffer s).block).0 ≡ true) where
  open st use {pread, pwrite}

  abbrev cleaned : Device st
  cleaned = record (on_slot st s rev_dirty v) {
    disk = (pwrite v.disk i (v.cache.buffer s).block).1;
  }

  cleaned-Same :
      (t : ℕ)
      → ((cleaned.cache.buffer t).id ≡ (v.cache.buffer t).id)
        × ((cleaned.cache.buffer t).block ≡ (v.cache.buffer t).block)
  cleaned-Same t = elim (Bool-cases (s == t)) [
    | inl p ↦ rw (p, (==_iff s t).0 p) ((refl, refl))
    | inr n ↦ rw n ((refl, refl))
  ]

  disk_self : pread cleaned.disk i ≡ some (v.cache.buffer s).block
  disk_self = st.pread-pwrite_self v.disk i (v.cache.buffer s).block written

  disk_ne : (j : ℕ) → i ≢ j → pread cleaned.disk j ≡ pread v.disk j
  disk_ne j = st.pread-pwrite_ne v.disk i j (v.cache.buffer s).block

  view_cleaned :
      (j : ℕ) (o : Option ℕ) → v.cache.table j ≡ o → view_at st o cleaned j ≡ view_at st o v j
  view_cleaned j none h = disk_ne j λ e. none-ne-some s (sym h ∙ ap v.cache.table (sym e) ∙ named)
  view_cleaned j (some t) h = ap some (cleaned-Same t).1

  slot_ne : (j t : ℕ) → v.cache.table j ≡ some t → i ≢ j → (s == t) ≡ false
  slot_ne j t h ne = ==_of_ne s t λ p.
      ne (sym (k.entries.ids i s named) ∙ ap (λ x. (v.cache.buffer x).id) p ∙ k.entries.ids j t h)

  other :
      (t : ℕ)
      → is_dirty (cleaned.cache.buffer t) ≡ false
      → (s == t) ≡ false
      → is_dirty (v.cache.buffer t) ≡ false
  other t c n = rw n at c

  cleaned-clean :
      (j t : ℕ)
      → v.cache.table j ≡ some t
      → is_dirty (cleaned.cache.buffer t) ≡ false
      → pread cleaned.disk j ≡ some (cleaned.cache.buffer t).block
  cleaned-clean j t h c = elim (Bool-cases (i == j)) [
    | inl p ↦
        let e = (==_iff i j).0 p in
        let q : s ≡ t = some-injective s t (sym named ∙ ap v.cache.table e ∙ h) in
        ap (pread cleaned.disk) (sym e)
        ∙ disk_self
        ∙ ap (λ x. some (v.cache.buffer x).block) q
        ∙ ap some (sym (cleaned-Same t).1)
    | inr n ↦
        let ne : i ≢ j = ground arith in
        disk_ne j ne
        ∙ k.entries.clean j t h (other t c (slot_ne j t h ne))
        ∙ ap some (sym (cleaned-Same t).1)
  ]

  readable_after :
      (j t : ℕ)
      → v.cache.table j ≡ some t
      → pread cleaned.disk j ≡ none
      → ((i == j) ≡ true) ⊎ ((i == j) ≡ false)
      → ⊥
  readable_after j t h e (inl p) =
      none-ne-some (v.cache.buffer s).block
        (sym e ∙ ap (pread cleaned.disk) (sym ((==_iff i j).0 p)) ∙ disk_self)
  readable_after j t h e (inr n) = k.entries.readable j t h (sym (disk_ne j (ground arith)) ∙ e)

  cleaned-Valid : Valid st cleaned
  cleaned-Valid = record {
    spare = k.spare;
    ring =
        Ring-iff (λ t u. ap v.cache.table (cleaned-Same t).0 ∙ u)
          (λ t u. ap v.cache.table (sym (cleaned-Same t).0) ∙ u)
          (payload-Ring v.cache v.cache.table s rev_dirty (λ x. (refl, refl))
            (ap v.cache.table (k.entries.ids i s named) ∙ named) k.ring);
    entries = record {
      ids = λ j t h. (cleaned-Same t).0 ∙ k.entries.ids j t h;
      clean = cleaned-clean;
      readable = λ j t h e. readable_after j t h e (Bool-cases (i == j));
      below = k.entries.below;
      marked = λ t h. ap v.cache.table (cleaned-Same t).0 ∙ elim (Bool-cases (s == t)) [
        | inl p ↦
            subst (λ t. v.cache.table (v.cache.buffer t).id ≡ some t) ((==_iff s t).0 p)
              (ap v.cache.table (k.entries.ids i s named) ∙ named)
        | inr n ↦ k.entries.marked t (rw n at h)
      ];
    };
    room = k.room;
    some_slot = k.some_slot;
  }

module _ (st : Storage) where
  open st use {pread}

  sync_slot-Synced :
      IsHealthy st
      → (v : Device st) (i s : ℕ) → Valid st v
      → v.cache.table i ≡ some s
      → Synced st v i (sync_slot st i s v)
  unfolding sync_slot write_to_disk
  sync_slot-Synced ok v i s k h = elim (Bool-cases (is_dirty (v.cache.buffer s))) [
    | inr c ↦ record {
      after = v;
      runs = rw c;
      valid = k;
      same_view = λ j. refl;
      on_disk = k.entries.clean i s h c ∙ sym (ap (λ o. view_at st o v i) h);
    }
    | inl c ↦ elim (Option-cases (pread v.disk i)) [
      | inl n ↦ absurd (k.entries.readable i s h n)
      | inr (b, r) ↦
          let done = ok.writes v.disk i (v.cache.buffer s).block b r in
          record {
            after = cleaned st v i s k h done;
            runs = rw (c, done);
            valid = cleaned-Valid st v i s k h done;
            same_view = λ j. view_cleaned st v i s k h done j (v.cache.table j) refl;
            on_disk = disk_self st v i s k h done ∙ sym (ap (λ o. view_at st o v i) h);
          }
    ]
  ]

  -- On a healthy disk, `sync` of a block in the cache of a valid device succeeds: the disk then has
  -- the block as the device holds it, the device is valid, and no block of it reads differently.
  pub sync-Synced :
      IsHealthy st
      → (v : Device st) (i s : ℕ) → Valid st v
      → v.cache.table i ≡ some s
      → Synced st v i (sync st i v)
  unfolding sync sync_at touch
  sync-Synced ok v i s k h =
      let w = on_cache st (touch s) v in
      let r = sync_slot-Synced ok w i s (touch-Valid st v s i h k) h in
      record {
        after = r.after;
        runs = ap (λ o. sync_at st i o v) h ∙ r.runs;
        valid = r.valid;
        same_view = λ j. r.same_view j ∙ view-touch st v s j;
        on_disk = r.on_disk ∙ view-touch st v s i;
      }
