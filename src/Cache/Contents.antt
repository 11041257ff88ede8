-- ===== src/Cache/Contents.antt =====
-- What `get` and `upsert` of the block cache do to the contents of the device.
use sbfs.Prelude.{
  ==_of_ne, ◌≢◌, ==_refl, update_self, ==_iff, ℕ, ◌≡◌, refl, ◌∙◌, sym, ap, true, false, none, some,
  arith, ◌==◌, Bool-cases, inl, inr, ◌⊎◌, if◌then◌else◌, Option,
}
use sbfs.Block.{Block}
use sbfs.Store.{Leaves}
use mathlib.Core.Path.{subst}
use sbfs.Storage.{Storage, IsHealthy}
use sbfs.Cache.{
  and_then, Slot, Device, is_dirty, rev_dirty, on_cache, on_slot, touch, read_from_disk, store,
  upsert, get, get_at,
}
use sbfs.Cache.Valid.{view, view_at, Valid, touch-Valid, view-touch}
use sbfs.Cache.Ring.{Ring-iff}
use sbfs.Cache.Page.{get_page_lem, payload-Ring}

-- The slot after a write to it.
abbrev put_block : Block → Slot → Slot
put_block b x = let y : Slot = record x { block = b } in if is_dirty y then y else rev_dirty y

put_block-dirty : (b : Block) (x : Slot) → is_dirty (put_block b x) ≡ true
put_block-dirty b x = ground arith

put_block-same :
    (b : Block) (x : Slot) → ((put_block b x).prev ≡ x.prev) × ((put_block b x).next ≡ x.next)
put_block-same b x = ground arith

put_block-payload :
    (b : Block) (x : Slot) → ((put_block b x).id ≡ x.id) × ((put_block b x).block ≡ b)
put_block-payload b x = ground arith

module _ (st : Storage) where
  open st use {Disk, pread, pwrite}

  module _ (v : Device st) (i s : ℕ) (b : Block) (k : Valid st v)
      (named : v.cache.table i ≡ some s) where
    abbrev stored : Device st
    stored = on_slot st s (put_block b) v

    stored-id : (t : ℕ) → (stored.cache.buffer t).id ≡ (v.cache.buffer t).id
    stored-id t = elim (Bool-cases (s == t)) [
      | inl p ↦ rw (p, (==_iff s t).0 p) (put_block-payload b (v.cache.buffer t)).0
      | inr n ↦ rw n
    ]

    stored-Valid : Valid st stored
    stored-Valid = record {
      spare = k.spare;
      ring =
          Ring-iff (λ t u. ap v.cache.table (stored-id t) ∙ u)
            (λ t u. ap v.cache.table (sym (stored-id t)) ∙ u)
            (payload-Ring v.cache v.cache.table s (put_block b) (put_block-same b)
              (ap v.cache.table (k.entries.ids i s named) ∙ named) k.ring);
      entries = record {
        ids = λ j t h. stored-id t ∙ k.entries.ids j t h;
        clean = λ j t h. at j t h (Bool-cases (s == t));
        readable = k.entries.readable;
        below = k.entries.below;
        marked = λ t h. ap v.cache.table (stored-id t) ∙ elim (Bool-cases (s == t)) [
          | inl p ↦
              subst (λ t. v.cache.table (v.cache.buffer t).id ≡ some t) ((==_iff s t).0 p)
                (ap v.cache.table (k.entries.ids i s named) ∙ named)
          | inr n ↦ k.entries.marked t (rw n at h)
        ];
      };
      room = k.room;
      some_slot = k.some_slot;
    }
      where
        at :
            (j t : ℕ)
            → v.cache.table j ≡ some t
            → ((s == t) ≡ true) ⊎ ((s == t) ≡ false)
            → is_dirty (stored.cache.buffer t) ≡ false
            → pread v.disk j ≡ some (stored.cache.buffer t).block
        at j t h (inl p) c =
            let d : is_dirty (stored.cache.buffer t) ≡ true =
              rw p (put_block-dirty b (v.cache.buffer s)) in
            cc
        at j t h (inr n) c = rw n (k.entries.clean j t h (rw n at c))

    stored-view : (j : ℕ) → view st stored j ≡ (if i == j then some b else view st v j)
    stored-view j = elim (Bool-cases (i == j)) [
      | inl p ↦
          subst (λ j. view st stored j ≡ (if i == j then some b else view st v j))
            ((==_iff i j).0 p) here
      | inr n ↦
          at (ground arith) (v.cache.table j) refl
          ∙ sym (ap (λ t. if t then some b else view st v j) n)
    ]
      where
        here : view st stored i ≡ (if i == i then some b else view st v i)
        here =
            ap (λ o. view_at st o stored i) named
            ∙ ap (λ x. some x.block) (update_self v.cache.buffer s (put_block b (v.cache.buffer s)))
            ∙ ap some (put_block-payload b (v.cache.buffer s)).1
            ∙ sym (ap (λ t. if t then some b else view st v i) (==_refl i))

        at : i ≢ j → (o : Option ℕ) → v.cache.table j ≡ o → view_at st o stored j ≡ view_at st o v j
        at ne none h = refl
        at ne (some t) h =
            let e = ==_of_ne s t (λ p. ne (
              sym (k.entries.ids i s named)
              ∙ ap (λ x. (v.cache.buffer x).id) p
              ∙ k.entries.ids j t h)) in
            rw e

  -- `upsert` succeeds at every block that the disk or the cache has. The device then holds the new
  -- block there and what it held everywhere else.
  pub upsert-Leaves :
      IsHealthy st
      → (v : Device st) (i : ℕ) (b : Block) {old : Block} → Valid st v
      → view st v i ≡ some old
      → Leaves
          (Valid st)
          (view st)
          (upsert st i b v)
          tt
          (λ j. if i == j then some b else view st v j)
  unfolding upsert store
  upsert-Leaves ok v i b k h =
      let (s, w, p) = get_page_lem st ok v i k h in
      record {
        after = stored w i s b p.valid p.named;
        runs = ap (λ r. and_then r (store st b)) p.runs;
        good = stored-Valid w i s b p.valid p.named;
        holds = λ j.
            stored-view w i s b p.valid p.named j
            ∙ ap (λ x. if i == j then some b else x) (p.same_view j);
      }

  -- A hit returns the block of the device.
  pub get-Leaves :
      (v : Device st) (i s : ℕ)
      → Valid st v
      → v.cache.table i ≡ some s
      → Leaves (Valid st) (view st) (get st i v) (v.cache.buffer s).block (view st v)
  unfolding get get_at
  get-Leaves v i s k h = record {
    after = on_cache st (touch s) v;
    runs = ap (λ o. get_at st o v) h;
    good = touch-Valid st v s i h k;
    holds = view-touch st v s;
  }

  -- A miss changes nothing.
  pub get-miss : (v : Device st) (i : ℕ) → v.cache.table i ≡ none → get st i v ≡ (none, v)
  unfolding get get_at
  get-miss v i h = rw h

  pub read_from_disk_lem : (v : Device st) (i : ℕ) → read_from_disk st i v ≡ (pread v.disk i, v)
  unfolding read_from_disk
  read_from_disk_lem v i = refl
