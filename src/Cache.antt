-- ===== src/Cache.antt =====
-- `LRUCacheManager` of include/lru_cache.h and src/lru_cache.cpp, with the two functions of
-- `BlockDevice` that it calls, `write_to_disk` and `read_from_disk` of src/blk_dev.cpp.
-- Slot numbers are `Option ℕ`, where `none` is the source's -1. The hash table is a function.
pub mod Page
pub mod Contents
pub mod Ring
pub mod Alloc
pub mod Valid
pub mod Start
pub mod Sync
pub mod SyncAll
pub mod Victim
use sbfs.Prelude.{
  ℕ, zero, suc, ◌+◌, ◌-◌, ◌%◌, ◌^◌, Bool, true, false, ◌||◌, Option, none, some, ◌==◌, ltb, leb,
  if◌then◌else◌, update, M, and_then, pure, ◌>>=◌,
}
use sbfs.Block.{Block}
use sbfs.Storage.{Storage}

-- A `Block *` of `_buffer` with its `BlockStatus`. `id` is kept as the `blk_id_t` that the `int`
-- converts to.
pub record Slot : Type 0 where
  pub block : Block
  pub status : ℕ
  pub prev : Option ℕ
  pub next : Option ℕ
  pub id : ℕ

abbrev pub no_id : ℕ
no_id = 2 ^ 32 - 1

-- Bit 0 of the status, and `status ^= 1`.
abbrev pub is_dirty : Slot → Bool
is_dirty s = s.status % 2 == 1

abbrev pub rev_dirty : Slot → Slot
rev_dirty s = record s { status = if is_dirty s then s.status - 1 else s.status + 1 }

abbrev pub init_slot : Slot → Slot
init_slot s = record s { status = 0; prev = none; next = none; id = no_id }

pub record Cache : Type 0 where
  pub free_first : Option ℕ
  pub lru_first : Option ℕ
  pub lru_last : Option ℕ
  pub table : ℕ → Option ℕ
  pub buffer : ℕ → Slot
  pub size : ℕ

-- Pointer tests and writes through a slot number.
abbrev pub is_slot : Option ℕ → ℕ → Bool
is_slot none s = false
is_slot (some t) s = t == s

abbrev pub or_else : Option ℕ → Option ℕ → Option ℕ
or_else none d = d
or_else (some t) d = some t

abbrev pub modify : (ℕ → Slot) → ℕ → (Slot → Slot) → ℕ → Slot
modify b s f = update b s (f (b s))

abbrev pub with_links : Option ℕ → Option ℕ → Slot → Slot
with_links p n s = record s { prev = p; next = n }

abbrev pub set_prev : (ℕ → Slot) → Option ℕ → Option ℕ → ℕ → Slot
set_prev b none p = b
set_prev b (some t) p = modify b t (λ s. with_links p s.next s)

abbrev pub set_next : (ℕ → Slot) → Option ℕ → Option ℕ → ℕ → Slot
set_next b none n = b
set_next b (some t) n = modify b t (λ s. with_links s.prev n s)

-- The constructor; `fresh` is what `new Block` leaves in the blocks. Only the slots below `size`
-- exist: the others are never reached.
unfoldable pub init_cache : ℕ → (ℕ → Block) → Cache
init_cache size fresh = record {
  free_first = some 0;
  lru_first = none;
  lru_last = none;
  table = λ i. none;
  buffer = λ i. record {
    block = fresh i;
    status = 0;
    prev = if i == 0 || leb size i then none else some (i - 1);
    next = if ltb (i + 1) size then some (i + 1) else none;
    id = 0;
  };
  size = size;
}

pub free_add : ℕ → Cache → Cache
free_add slot c = record c {
  buffer = set_next c.buffer (some slot) c.free_first;
  free_first = some slot;
}

pub lru_add : ℕ → Cache → Cache
lru_add slot c =
    let b = modify c.buffer slot (with_links none c.lru_first) in
    record c {
      buffer = set_prev b c.lru_first (some slot);
      lru_first = some slot;
      lru_last = or_else c.lru_last (some slot);
    }

-- `stu` is a reference, so each statement reads what the one above it wrote.
pub lru_remove : ℕ → Cache → Cache
lru_remove slot c =
    let b = c.buffer in
    let b1 = set_prev b (b slot).next (b slot).prev in
    let b2 = set_next b1 (b1 slot).prev (b1 slot).next in
    record c {
      lru_first = if is_slot c.lru_first slot then (b slot).next else c.lru_first;
      lru_last = if is_slot c.lru_last slot then (b slot).prev else c.lru_last;
      buffer = modify b2 slot (with_links none none);
    }

-- The pair of calls by which a slot is made the most recently used one.
pub touch : ℕ → Cache → Cache
unfolding lru_remove lru_add
touch slot c = lru_add slot (lru_remove slot c)

module _ (st : Storage) where
  open st use {Disk, pread, pwrite}

  -- A `BlockDevice`: its cache and its file.
  pub record Device : Type 0 where
    pub cache : Cache
    pub disk : Disk

  pub write_to_disk : ℕ → Block → M Device (Unit {0})
  write_to_disk id b v =
      let (done, d) = pwrite v.disk id b in (if done then some tt else none, record v { disk = d })

  pub read_from_disk : ℕ → M Device Block
  read_from_disk id v = (pread v.disk id, v)

  -- Changes to the cache alone.
  abbrev pub on_cache : (Cache → Cache) → Device → Device
  on_cache f v = record v { cache = f v.cache }

  abbrev pub on_slot : ℕ → (Slot → Slot) → Device → Device
  on_slot slot f = on_cache (λ c. record c { buffer = modify c.buffer slot f })

  pub write_if_dirty : ℕ → Slot → M Device (Unit {0})
  unfolding write_to_disk
  write_if_dirty id s = if is_dirty s then write_to_disk id s.block else pure tt

  -- The out parameter `slot` is set on every path, so it is returned beside the result.
  alloc_free : ℕ → Device → Bool × Option ℕ × Device
  unfolding touch
  alloc_free slot v =
      let next_free = (v.cache.buffer slot).next in
      let c = record v.cache { free_first = next_free } in
      let c' = record c { buffer = modify c.buffer slot init_slot } in
      (true, some slot, record v { cache = touch slot c' })

  evict : ℕ → Device → Device
  unfolding touch
  evict slot v =
      let c = v.cache in
      let c' = record c { table = update c.table (c.buffer slot).id none } in
      let c'' = record c' { buffer = modify c'.buffer slot init_slot } in
      record v { cache = touch slot c'' }

  alloc_written : ℕ → Option (Unit {0}) × Device → Bool × Option ℕ × Device
  unfolding evict
  alloc_written slot (none, v) = (false, some slot, v)
  alloc_written slot (some _, v) = (true, some slot, evict slot v)

  -- Each round of the source's loop over the slots returns, so there is one round at most.
  alloc_lru : Option ℕ → Device → Bool × Option ℕ × Device
  unfolding alloc_written write_if_dirty
  alloc_lru none v = (false, none, v)
  alloc_lru (some slot) v =
      let s = v.cache.buffer slot in alloc_written slot (write_if_dirty s.id s v)

  alloc_from : Option ℕ → Device → Bool × Option ℕ × Device
  unfolding alloc_free alloc_lru
  alloc_from none v = alloc_lru v.cache.lru_last v
  alloc_from (some slot) v = alloc_free slot v

  pub alloc : Device → Bool × Option ℕ × Device
  unfolding alloc_from
  alloc v = alloc_from v.cache.free_first v

  -- The block that was read goes to the slot, and the slot into the table.
  enter : ℕ → ℕ → Block → Device → Device
  enter id slot b v =
      on_cache (λ c. record c { table = update c.table id (some slot) })
        (on_slot slot (λ s. record s { block = b }) v)

  -- What follows `alloc` in `get_page`, which ignores its result. A slot of -1 would be an access
  -- out of bounds; the model fails there.
  fill : ℕ → Option ℕ → M Device ℕ
  unfolding read_from_disk enter
  fill id none v = (none, v)
  fill id (some slot) v =
      and_then (read_from_disk id (on_slot slot (λ s. record s { id = id }) v))
        (λ b w. (some slot, enter id slot b w))

  page_at : ℕ → Option ℕ → M Device ℕ
  unfolding fill alloc touch
  page_at id none v = let (_, slot, v') = alloc v in fill id slot v'
  page_at id (some slot) v = (some slot, on_cache (touch slot) v)

  pub get_page : ℕ → M Device ℕ
  unfolding page_at
  get_page id v = page_at id (v.cache.table id) v

  store : Block → ℕ → M Device (Unit {0})
  store b slot v = (
    some tt,
    on_slot slot (λ s. let s' = record s { block = b } in if is_dirty s' then s' else rev_dirty s')
        v,
  )

  pub upsert : ℕ → Block → M Device (Unit {0})
  unfolding get_page store
  upsert id b = do slot ← get_page id; store b slot

  get_at : Option ℕ → M Device Block
  unfolding touch
  get_at none v = (none, v)
  get_at (some slot) v = (some (v.cache.buffer slot).block, on_cache (touch slot) v)

  pub get : ℕ → M Device Block
  unfolding get_at
  get id v = get_at (v.cache.table id) v

  sync_slot : ℕ → ℕ → M Device (Unit {0})
  unfolding write_to_disk
  sync_slot id slot v =
      let s = v.cache.buffer slot in
      if is_dirty s then write_to_disk id s.block (on_slot slot rev_dirty v) else (some tt, v)

  sync_at : ℕ → Option ℕ → M Device (Unit {0})
  unfolding touch sync_slot
  sync_at id none v = (none, v)
  sync_at id (some slot) v = sync_slot id slot (on_cache (touch slot) v)

  pub sync : ℕ → M Device (Unit {0})
  unfolding sync_at
  sync id v = sync_at id (v.cache.table id) v

  -- The loop of `sync_all`, over the slots from `i` on with `n` of them left.
  sync_from : ℕ → ℕ → M Device (Unit {0})
  unfolding write_if_dirty
  sync_from zero i v = (some tt, v)
  sync_from (suc n) i v =
      let s = v.cache.buffer i in and_then (write_if_dirty s.id s v) (λ _ w. sync_from n (i + 1) w)

  pub sync_all : M Device (Unit {0})
  unfolding sync_from
  sync_all v = sync_from v.cache.size 0 v

  release : ℕ → ℕ → Device → Device
  unfolding lru_remove free_add
  release id slot =
      on_cache (λ c. free_add slot (lru_remove slot (record c { table = update c.table id none })))

  remove_at : ℕ → Option ℕ → M Device (Unit {0})
  unfolding write_if_dirty release
  remove_at id none v = (none, v)
  remove_at id (some slot) v =
      and_then (write_if_dirty id (v.cache.buffer slot) v) (λ _ w. (some tt, release id slot w))

  pub remove_page : ℕ → M Device (Unit {0})
  unfolding remove_at
  remove_page id v = remove_at id (v.cache.table id) v

  -- `LRUCacheManager::remove`.
  pub remove : ℕ → M Device (Unit {0})
  unfolding remove_page
  remove id = remove_page id
