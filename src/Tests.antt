-- ===== src/Tests.antt =====
-- Concrete inputs: a disk in memory, a block store in memory, a device with an empty cache of two
-- slots. The children apply the theorems to them.
mod Devices
mod Bitmaps
mod Files
mod Paths
mod Layouts
mod Resolvers
mod Nodes
mod Roots
mod Sessions
mod Handlers
mod Grows
mod Creates
mod Restarts
use mathlib.Core.Option.{none-ne-some}
use sbfs.Prelude.{
  ℕ, ◌≡◌, refl, ap, sym, true, false, Bool, Option, none, some, [], ◌∷◌, ◌==◌, if◌then◌else◌,
  update, update_self, update_ne, arith, ◌≢◌,
}
use sbfs.Block.{Block}
use sbfs.Storage.{Storage, IsHealthy}
use sbfs.Store.{BlockStore}
use sbfs.Cache.{Device, init_cache}
use sbfs.Cache.Valid.{Valid}

abbrev pub filled : ℕ → Block
filled n = λ o. n

abbrev pub disk : ℕ → Option Block
disk = λ i. some (filled 0)

-- A file that can be written where it can be read.
abbrev pwrite_at : Option Block → (ℕ → Option Block) → ℕ → Block → Bool × (ℕ → Option Block)
pwrite_at none d i b = (false, d)
pwrite_at (some old) d i b = (true, update d i (some b))

pub written :
    (d : ℕ → Option Block) (i : ℕ) (b : Block) (o : Option Block)
    → (pwrite_at o d i b).0 ≡ true
    → (pwrite_at o d i b).1 i ≡ some b
written d i b none h = ground arith
written d i b (some old) h = update_self d i (some b)

pub kept :
    (d : ℕ → Option Block) (i j : ℕ) (b : Block) (o : Option Block)
    → i ≢ j
    → (pwrite_at o d i b).1 j ≡ d j
kept d i j b none h = refl
kept d i j b (some old) h = update_ne d (some b) h

abbrev pub ram_disk : Storage
ram_disk = record {
  Disk = ℕ → Option Block;
  pread = λ d i. d i;
  pwrite = λ d i b. pwrite_at (d i) d i b;
  pread-pwrite_self = λ d i b. written d i b (d i);
  pread-pwrite_ne = λ d i j b. kept d i j b (d i);
}

pub ram_disk-IsHealthy : IsHealthy ram_disk
ram_disk-IsHealthy = record { writes = λ d i b c h. ap (λ o. (pwrite_at o d i b).0) h }

abbrev pub device : Device ram_disk
device = record { cache = init_cache 2 (λ i. filled 0); disk = disk }

pub device-Valid : Valid ram_disk device
unfolding init_cache
device-Valid = record {
  spare = 0 ∷ 1 ∷ [];
  ring = record {
    closed = record {
      prevs = λ s u. absurd (none-ne-some s u);
      nexts = λ s u. absurd (none-ne-some s u);
      apart = λ s u. absurd (none-ne-some s u);
      chain = (refl, refl, (refl, refl, tt));
    };
    free = refl;
    first = tt;
    last = tt;
  };
  entries = record {
    ids = λ i s h. absurd (none-ne-some s h);
    clean = λ i s h. absurd (none-ne-some s h);
    readable = λ i s h. absurd (none-ne-some s h);
    below = λ i s h. absurd (none-ne-some s h);
    marked = λ s h. ground arith;
  };
  room = λ s h. ground arith;
  some_slot = λ h. absurd (none-ne-some 0 (sym h));
}

-- A device whose cache has one slot, with a block 3 that the disk does not have yet.
abbrev known : ℕ → Option ℕ
known i = if i == 3 then some 0 else none

abbrev pub full : Device ram_disk
full = record {
  cache = record {
    free_first = none;
    lru_first = some 0;
    lru_last = some 0;
    table = known;
    buffer = λ s. record {
      block = filled 7;
      status = if s == 0 then 1 else 0;
      prev = none;
      next = none;
      id = 3;
    };
    size = 1;
  };
  disk = disk;
}

known-some : (i s : ℕ) → known i ≡ some s → (i ≡ 3) × (s ≡ 0)
known-some i s h = ground arith

pub full-Valid : Valid ram_disk full
full-Valid = record {
  spare = [];
  ring = record {
    closed = record { prevs = λ s u. tt; nexts = λ s u. tt; apart = λ s u. refl; chain = tt };
    free = refl;
    first = refl;
    last = refl;
  };
  entries = record {
    ids = λ i s h. sym (known-some i s h).0;
    clean = λ i s h c. ground arith;
    readable = λ i s h e. none-ne-some (filled 0) (sym e);
    below = λ i s h. omega (arith, (known-some i s h).1);
    marked = λ s h. ground arith;
  };
  room = λ s h. ground arith;
  some_slot = λ h e. none-ne-some 0 (sym e);
}

-- A store of blocks without a cache.
abbrev write_at :
    Option Block → ℕ → Block → (ℕ → Option Block) → Option (Unit {0}) × (ℕ → Option Block)
write_at none i b s = (none, s)
write_at (some old) i b s = (some tt, λ j. if i == j then some b else s j)

abbrev pub memory : BlockStore
memory = record {
  State = ℕ → Option Block;
  read = λ i s. (s i, s);
  write = λ i b s. write_at (s i) i b s;
  Good = λ s. Unit {0};
  contents = λ s. s;
  read-Leaves =
      λ s i g h. record { after = s; runs = ap (λ o. (o, s)) h; good = tt; holds = λ j. refl };
  write-Leaves = λ s i b g h. record {
    after = λ j. if i == j then some b else s j;
    runs = ap (λ o. write_at o i b s) h;
    good = tt;
    holds = λ j. refl;
  };
}
