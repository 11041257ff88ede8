-- ===== src/Cache/Start.antt =====
-- The cache that the constructor makes: every slot is in the chain of free slots.
use mathlib.Core.Option.{none-ne-some}
use sbfs.Prelude.{
  ℕ, zero, suc, ◌+◌, ◌<◌, ◌≡◌, refl, sym, true, false, none, some, List, [], ◌∷◌, ltb,
  if◌then◌else◌, arith,
}
use sbfs.Block.{Block}
use sbfs.Storage.{Storage}
use sbfs.Cache.{Device, Slot, init_cache}
use sbfs.Cache.Ring.{has, Chain}
use sbfs.Cache.Valid.{Valid, view}

-- The `n` slots from `k` on.
slots : ℕ → ℕ → List ℕ
slots zero k = []
slots (suc n) k = k ∷ slots n (k + 1)

has-slots : (n k s : ℕ) → s < k → has s (slots n k) ≡ false
unfolding slots
has-slots zero k s h = refl
has-slots (suc n) k s h = ground (arith, has-slots n (k + 1) s)

slots-has : (n k s : ℕ) → has s (slots n k) ≡ true → s < k + n
unfolding slots
slots-has zero k s h = ground arith
slots-has (suc n) k s h = ground (arith, slots-has n (k + 1) s)

slots-Chain :
    (n k size : ℕ) (b : ℕ → Slot)
    → k + n ≡ size
    → ((i : ℕ) → (b i).next ≡ (if ltb (i + 1) size then some (i + 1) else none))
    → Chain b (slots n k)
unfolding slots
slots-Chain zero k size b e h = tt
slots-Chain (suc zero) k size b e h = (ground (arith, h k), refl, tt)
slots-Chain (suc (suc n)) k size b e h = (
  ground (arith, h k),
  has-slots (suc n) (k + 1) k (omega arith),
  slots-Chain (suc n) (k + 1) size b (omega arith) h,
)

abbrev pub start : (st : Storage) → st.Disk → ℕ → (ℕ → Block) → Device st
start st d size fresh = record { cache = init_cache size fresh; disk = d }

-- The constructor, with room for at least one block, makes a valid device, whose blocks are those
-- of the disk.
pub init_cache-Valid :
    (st : Storage) (d : st.Disk) (size : ℕ) (fresh : ℕ → Block)
    → 0 < size
    → Valid st (start st d size fresh)
      × ((i : ℕ) → view st (start st d size fresh) i ≡ st.pread d i)
unfolding init_cache slots
init_cache-Valid st d (suc n) fresh h = (
  record {
    spare = slots (suc n) 0;
    ring = record {
      closed = record {
        prevs = λ s u. absurd (none-ne-some s u);
        nexts = λ s u. absurd (none-ne-some s u);
        apart = λ s u. absurd (none-ne-some s u);
        chain =
            slots-Chain (suc n) 0 (suc n) (init_cache (suc n) fresh).buffer (omega arith)
              (λ i. refl);
      };
      free = refl;
      first = tt;
      last = tt;
    };
    entries = record {
      ids = λ i s e. absurd (none-ne-some s e);
      clean = λ i s e. absurd (none-ne-some s e);
      readable = λ i s e. absurd (none-ne-some s e);
      below = λ i s e. absurd (none-ne-some s e);
      marked = λ s e. ground arith;
    };
    room = λ s e. ground (arith, slots-has (suc n) 0 s e);
    some_slot = λ e. absurd (none-ne-some 0 (sym e));
  },
  λ i. refl,
)
init_cache-Valid st d zero fresh h = absurd (omega arith)
