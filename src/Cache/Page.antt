-- ===== src/Cache/Page.antt =====
-- `get_page` and `upsert` of the block cache on a healthy disk.
use sbfs.Prelude.{
  ==_iff, update_self, ==_refl, List, ℕ, ◌≡◌, ◌≢◌, refl, ◌∙◌, sym, ap, false, none, some, arith,
  ◌==◌, update, Bool-cases, inl, inr, ◌⊎◌, if◌then◌else◌, Option,
}
use mathlib.Core.Path.{subst}
use sbfs.Block.{Block}
use sbfs.Storage.{Storage, IsHealthy}
use sbfs.Cache.{
  Slot, Cache, Device, is_dirty, modify, on_cache, on_slot, touch, fill, enter, read_from_disk,
  page_at, get_page,
}
use sbfs.Cache.Ring.{touch-table, OptIn, Ring, modify-Closed, Ring-iff}
use sbfs.Cache.Valid.{Used, view, view_at, Entries, Valid, Reserved, touch-Valid, view-touch}
use sbfs.Cache.Alloc.{alloc_lem}

-- Payloads may change where the pointers stay.
pub payload-Ring :
    {U : ℕ → Type 0} {xs : List ℕ} (c : Cache) (table : ℕ → Option ℕ) (s : ℕ) (f : Slot → Slot)
    → ((x : Slot) → ((f x).prev ≡ x.prev) × ((f x).next ≡ x.next))
    → U s
    → Ring U xs c
    → Ring U xs (record c { table = table; buffer = modify c.buffer s f })
payload-Ring {U} c table s f same u r = record {
  closed =
      modify-Closed s f u (subst (OptIn U) (sym (same (c.buffer s)).0) (r.closed.prevs s u))
        (subst (OptIn U) (sym (same (c.buffer s)).1) (r.closed.nexts s u)) r.closed;
  free = r.free;
  first = r.first;
  last = r.last;
}

module _ (st : Storage) where
  open st use {Disk, pread, pwrite}

  -- What `get_page` promises when it succeeds with slot `s`.
  pub record Paged (v : Device st) (i s : ℕ) (w : Device st) : Type 0 where
    pub runs : get_page st i v ≡ (some s, w)
    pub valid : Valid st w
    pub same_view : (j : ℕ) → view st w j ≡ view st v j
    pub named : w.cache.table i ≡ some s

  module _ (v : Device st) (i s : ℕ) (b : Block) (k : Reserved st v s)
      (miss : v.cache.table i ≡ none) (read : pread v.disk i ≡ some b) where
    abbrev filled : Device st
    filled =
        on_cache st (λ c. record c { table = update c.table i (some s) })
          (on_slot st s (λ x. record x { block = b }) (on_slot st s (λ x. record x { id = i }) v))

    fill-runs : fill st i (some s) v ≡ (some s, filled)
    unfolding fill read_from_disk enter
    fill-runs = rw read

    -- An entry is the new one, or an old one of another slot and another block.
    entry :
        (j t : ℕ)
        → filled.cache.table j ≡ some t
        → ((i ≡ j) × (t ≡ s))
          ⊎ ((i ≢ j) × (v.cache.table j ≡ some t) × (filled.cache.buffer t ≡ v.cache.buffer t))
    entry j t h = elim (Bool-cases (i == j)) [
      | inl p ↦ inl (ground arith, ground arith)
      | inr n ↦
          let old : v.cache.table j ≡ some t = ground arith in
          let other : (s == t) ≡ false = ground (arith, k.unnamed j) in
          inr (ground arith, old, rw other)
    ]

    record NewSlot (x : Slot) : Type 0 where
      block : x.block ≡ b
      status : x.status ≡ 0
      id : x.id ≡ i

    new : (t : ℕ) → t ≡ s → NewSlot (filled.cache.buffer t)
    new t e =
        subst (λ t. NewSlot (filled.cache.buffer t)) (sym e)
          (rw (==_refl s) (record { block = refl; status = k.status; id = refl }))

    filled-Entries : Entries st filled
    filled-Entries = record {
      ids = λ j t h. elim (entry j t h) [
        | inl (p, q) ↦ (new t q).id ∙ p
        | inr (n, old, same) ↦ ap (λ x. x.id) same ∙ k.entries.ids j t old
      ];
      clean = λ j t h c. elim (entry j t h) [
        | inl (p, q) ↦ ap (pread v.disk) (sym p) ∙ read ∙ ap some (sym (new t q).block)
        | inr (n, old, same) ↦
            k.entries.clean j t old (ap (λ x. is_dirty x) (sym same) ∙ c)
            ∙ ap (λ x. some x.block) (sym same)
      ];
      readable = λ j t h no. elim (entry j t h) [
        | inl (p, q) ↦ ground (arith, ap (pread v.disk) p)
        | inr (n, old, same) ↦ k.entries.readable j t old no
      ];
      below = λ j t h. elim (entry j t h) [
        | inl (p, q) ↦ rw q k.fits
        | inr (n, old, same) ↦ k.entries.below j t old
      ];
      marked = λ t h. elim (Bool-cases (s == t)) [
        | inl p ↦ let n = new t (ground arith) in absurd (ground (arith, n.status))
        | inr n ↦
            let used : Used v.cache t = k.entries.marked t (rw n at h) in
            elim (Bool-cases (i == (v.cache.buffer t).id)) [
              | inl p ↦ absurd (ground arith)
              | inr m ↦ rw (n, m) used
            ]
      ];
    }

    filled-Ring : Ring (Used filled.cache) k.spare filled.cache
    filled-Ring = Ring-iff there back (
        payload-Ring named filled.cache.table s (λ x. record x { block = b }) (λ x. (refl, refl))
          (inr refl)
          (payload-Ring v.cache v.cache.table s (λ x. record x { id = i }) (λ x. (refl, refl))
            (inr refl) k.ring))
      where
        named : Cache
        named = record v.cache { buffer = modify v.cache.buffer s (λ x. record x { id = i }) }

        there : (t : ℕ) → Used v.cache t ⊎ (t ≡ s) → Used filled.cache t
        there t u = elim (Bool-cases (s == t)) [
          | inl p ↦
              let q : t ≡ s = ground arith in
              ap filled.cache.table (new t q).id
              ∙ update_self v.cache.table i (some s)
              ∙ ap some (sym q)
          | inr n ↦ elim u [
            | inr e ↦ absurd (ground arith)
            | inl used ↦ elim (Bool-cases (i == (v.cache.buffer t).id)) [
              | inl p ↦ absurd (ground arith)
              | inr m ↦ rw (n, m) used
            ]
          ]
        ]

        back : (t : ℕ) → Used filled.cache t → Used v.cache t ⊎ (t ≡ s)
        back t u = elim (entry (filled.cache.buffer t).id t u) [
          | inl (p, q) ↦ inr q
          | inr (n, old, same) ↦ inl (ap v.cache.table (ap (λ x. x.id) (sym same)) ∙ old)
        ]

    filled-view : (j : ℕ) → view st filled j ≡ view st v j
    filled-view j = elim (Bool-cases (i == j)) [
      | inl p ↦ subst (λ j. view st filled j ≡ view st v j) ((==_iff i j).0 p) view-new
      | inr n ↦
          ap (λ t. view_at st (if t then some s else v.cache.table j) filled j) n
          ∙ at (v.cache.table j) refl
    ]
      where
        view-new : view st filled i ≡ view st v i
        view-new =
            ap (λ o. view_at st o filled i) (update_self v.cache.table i (some s))
            ∙ ap some (new s refl).block
            ∙ sym read
            ∙ ap (λ o. view_at st o v i) (sym miss)

        at : (o : Option ℕ) → v.cache.table j ≡ o → view_at st o filled j ≡ view_at st o v j
        at none h = refl
        at (some t) h = let e : (s == t) ≡ false = ground (arith, k.unnamed j) in rw e

    filled-Valid : Valid st filled
    filled-Valid = record {
      spare = k.spare;
      ring = filled-Ring;
      entries = filled-Entries;
      room = k.room;
      some_slot = λ e. k.last;
    }

  -- On a healthy disk, `get_page` at a block that the device has returns a slot that the table has
  -- for the block, keeps the device valid, and every block of the device reads as before.
  pub get_page_lem :
      IsHealthy st
      → (v : Device st) (i : ℕ) {b : Block} → Valid st v
      → view st v i ≡ some b
      → (s : ℕ) × (w : Device st) × Paged v i s w
  unfolding get_page page_at
  get_page_lem ok v i {b} k h = from (v.cache.table i) refl
    where
      from : (o : Option ℕ) → v.cache.table i ≡ o → (s : ℕ) × (w : Device st) × Paged v i s w
      from (some s) e = (
        s,
        on_cache st (touch s) v,
        record {
          runs = ap (λ o. page_at st i o v) e;
          valid = touch-Valid st v s i e k;
          same_view = view-touch st v s;
          named = ap (λ t. t i) (touch-table s v.cache) ∙ e;
        },
      )
      from none e =
          let (s, w, a) = alloc_lem st ok v k in
          let miss = a.none_kept i e in
          let read : pread w.disk i ≡ some b =
            ap (λ o. view_at st o w i) (sym miss) ∙ a.same_view i ∙ h in
          (
            s,
            filled w i s b a.reserved miss read,
            record {
              runs =
                  ap (λ o. page_at st i o v) e
                  ∙ ap (λ r. fill st i r.1 r.2) a.runs
                  ∙ fill-runs w i s b a.reserved miss read;
              valid = filled-Valid w i s b a.reserved miss read;
              same_view = λ j. filled-view w i s b a.reserved miss read j ∙ a.same_view j;
              named = update_self w.cache.table i (some s);
            },
          )
