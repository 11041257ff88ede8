-- ===== src/Cache/SyncAll.antt =====
-- What `sync_all` of the block cache writes to the disk.
use mathlib.Core.Path.{subst}
use mathlib.Core.Option.{none-ne-some, some-injective}
use sbfs.Prelude.{
  ℕ, zero, suc, ◌+◌, ◌<◌, ◌≡◌, ◌≢◌, refl, ◌∙◌, sym, ap, false, none, some, Option, arith, ◌==◌,
  ==_iff, Bool-cases, inl, inr, ◌⊎◌, and_then,
}
use sbfs.Storage.{Storage, IsHealthy}
use sbfs.Cache.{Device, is_dirty, write_if_dirty, sync_from, sync_all}
use sbfs.Cache.Valid.{Used, view, view_at, Entries, Valid}
use sbfs.Cache.Alloc.Taken.{flush, Flushed}

-- A call that succeeds, writes to the disk alone, and leaves a valid device whose disk has each
-- block as the device holds it.
pub record AllSynced (st : Storage) (v : Device st) (r : Option (Unit {0}) × Device st)
    : Type 0 where
  pub after : Device st
  pub runs : r ≡ (some tt, after)
  pub valid : Valid st after
  pub cache : after.cache ≡ v.cache
  pub same_view : (j : ℕ) → view st after j ≡ view st v j
  pub on_disk : (j : ℕ) → st.pread after.disk j ≡ view st v j

module _ (st : Storage) where
  open st use {Disk, pread}

  abbrev on_disk_of : Device st → Disk → Device st
  on_disk_of v d = record v { disk = d }

  -- A slot that is used, after its block has been written.
  module _ (v : Device st) (i : ℕ) (e : Entries st v) (used : Used v.cache i) (d : Disk)
      (f : Flushed st v (v.cache.buffer i).id i d) where
    flushed_at :
        (j s : ℕ)
        → v.cache.table j ≡ some s
        → ((s ≡ i) × (pread d j ≡ some (v.cache.buffer s).block))
          ⊎ ((s ≢ i) × (pread d j ≡ pread v.disk j))
    flushed_at j s h = elim (Bool-cases ((v.cache.buffer i).id == j)) [
      | inl p ↦
          let q = (==_iff (v.cache.buffer i).id j).0 p in
          let same : s ≡ i = some-injective s i (sym h ∙ ap v.cache.table (sym q) ∙ used) in
          inl (
            same,
            ap (pread d) (sym q) ∙ f.self ∙ ap (λ x. some (v.cache.buffer x).block) (sym same),
          )
      | inr n ↦
          let ne : (v.cache.buffer i).id ≢ j = ground arith in
          inr (λ p. ne (ap (λ x. (v.cache.buffer x).id) (sym p) ∙ e.ids j s h), f.others j ne)
    ]

    flushed-Entries : Entries st (on_disk_of v d)
    flushed-Entries = record {
      ids = e.ids;
      clean =
          λ j s h c. elim (flushed_at j s h) [ inl (p, q) ↦ q | inr (n, q) ↦ q ∙ e.clean j s h c ];
      readable = λ j s h no. elim (flushed_at j s h) [
        | inl (p, q) ↦ none-ne-some (v.cache.buffer s).block (sym no ∙ q)
        | inr (n, q) ↦ e.readable j s h (sym q ∙ no)
      ];
      below = e.below;
      marked = e.marked;
    }

  -- The disk when the slots below `i` have been dealt with.
  record Saved (v : Device st) (i : ℕ) (d : Disk) : Type 0 where
    entries : Entries st (on_disk_of v d)
    saved : (j s : ℕ) → v.cache.table j ≡ some s → s < i → pread d j ≡ some (v.cache.buffer s).block
    others : (j : ℕ) → v.cache.table j ≡ none → pread d j ≡ pread v.disk j

  module _ (ok : IsHealthy st) (v : Device st) where
    step :
        (i : ℕ) (d : Disk)
        → Saved v i d
        → (d' : Disk) × (write_if_dirty st (v.cache.buffer i).id (v.cache.buffer i) (on_disk_of v d)
            ≡ (some tt, on_disk_of v d'))
          × Saved v (i + 1) d'
    step i d k = elim (Bool-cases (is_dirty (v.cache.buffer i))) [
      | inl c ↦
          let used = k.entries.marked i c in
          let (d', f) = flush st ok (on_disk_of v d) (v.cache.buffer i).id i k.entries used in
          (
            d',
            f.runs,
            record {
              entries = flushed-Entries (on_disk_of v d) i k.entries used d' f;
              saved = λ j s h l. elim (flushed_at (on_disk_of v d) i k.entries used d' f j s h) [
                | inl (p, q) ↦ q
                | inr (n, q) ↦ q ∙ k.saved j s h (ground arith)
              ];
              others = λ j h.
                  f.others j (λ p. none-ne-some i (sym h ∙ ap v.cache.table (sym p) ∙ used))
                  ∙ k.others j h;
            },
          )
      | inr c ↦ (
        d,
        unfold write_if_dirty in (rw c),
        record {
          entries = k.entries;
          saved = λ j s h l. elim (Bool-cases (i == s)) [
            | inl p ↦
                k.entries.clean j s h
                  (subst (λ x. is_dirty (v.cache.buffer x) ≡ false) ((==_iff i s).0 p) c)
            | inr n ↦ k.saved j s h (ground arith)
          ];
          others = k.others;
        },
      )
    ]

    sync_from-Saved :
        (n i : ℕ) (d : Disk)
        → Saved v i d
        → (d' : Disk) × (sync_from st n i (on_disk_of v d) ≡ (some tt, on_disk_of v d'))
          × Saved v (i + n) d'
    unfolding sync_from
    sync_from-Saved zero i d k = (d, refl, subst (λ x. Saved v x d) (omega arith) k)
    sync_from-Saved (suc n) i d k =
        let (d1, runs, k1) = step i d k in
        let (d2, rest, k2) = sync_from-Saved n (i + 1) d1 k1 in
        (
          d2,
          ap (λ r. and_then r (λ _ w. sync_from st n (i + 1) w)) runs ∙ rest,
          subst (λ x. Saved v x d2) (omega arith) k2,
        )

    -- On a healthy disk, `sync_all` of a valid device succeeds, and changes the disk alone: the
    -- disk then has every block as the device holds it, the device is valid, and none of its
    -- blocks reads differently.
    pub sync_all-AllSynced : Valid st v → AllSynced st v (sync_all st v)
    unfolding sync_all
    sync_all-AllSynced k =
        let (d, runs, saved) = sync_from-Saved v.cache.size 0 v.disk (record {
          entries = k.entries;
          saved = λ j s h l. absurd (omega arith);
          others = λ j h. refl;
        }) in
        let at : (j : ℕ) (o : Option ℕ) → v.cache.table j ≡ o → pread d j ≡ view_at st o v j =
          λ j o. elim o as (λ o. v.cache.table j ≡ o → pread d j ≡ view_at st o v j) [
            | none ↦ saved.others j
            | some s ↦ λ h. saved.saved j s h (omega (arith, k.entries.below j s h))
          ] in
        let kept : (j : ℕ) (o : Option ℕ)
            → v.cache.table j ≡ o
            → view_at st o (on_disk_of v d) j ≡ view_at st o v j =
          λ j o.
            elim o
              as (λ o. v.cache.table j ≡ o → view_at st o (on_disk_of v d) j ≡ view_at st o v j) [
                | none ↦ saved.others j
                | some s ↦ λ h. refl
              ] in
        record {
          after = on_disk_of v d;
          runs = runs;
          valid = record {
            spare = k.spare;
            ring = k.ring;
            entries = saved.entries;
            room = k.room;
            some_slot = k.some_slot;
          };
          cache = refl;
          same_view = λ j. kept j (v.cache.table j) refl;
          on_disk = λ j. at j (v.cache.table j) refl;
        }
