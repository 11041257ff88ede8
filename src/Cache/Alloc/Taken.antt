-- ===== src/Cache/Alloc/Taken.antt =====
-- `alloc` of the block cache: what it promises, the write-back of a block, and the slot that is
-- initialised and put in front of the list.

use sbfs.Prelude.{
  ℕ, ◌%◌, ◌≡◌, ◌≢◌, refl, ◌∙◌, sym, ap, true, none, some, List, arith, ◌==◌, Bool-cases,
  Option-cases, inl, inr, ◌⊎◌, update_ne,
}
use sbfs.Storage.{Storage, IsHealthy}
use sbfs.Cache.{
  Cache, Device, is_dirty, init_slot, modify, touch, alloc, write_if_dirty, write_to_disk,
}
use sbfs.Cache.Ring.{Ring, Same-trans, Same, touch-Ring, touch-Same, Ring-iff}
use sbfs.Cache.Valid.{Used, view, Entries, Reserved}

module _ (st : Storage) where
  open st use {Disk, pread, pwrite}

  -- A block in use can be written back: then the disk has it, and all others are as they were.
  pub record Flushed (v : Device st) (i s : ℕ) (d : Disk) : Type 0 where
    pub runs : write_if_dirty st i (v.cache.buffer s) v ≡ (some tt, record v { disk = d })
    pub self : pread d i ≡ some (v.cache.buffer s).block
    pub others : (j : ℕ) → i ≢ j → pread d j ≡ pread v.disk j

  pub flush :
      IsHealthy st
      → (v : Device st) (i s : ℕ) → Entries st v
      → v.cache.table i ≡ some s
      → (d : Disk) × Flushed v i s d
  unfolding write_if_dirty write_to_disk
  flush ok v i s e h = elim (Bool-cases (is_dirty (v.cache.buffer s))) [
    | inr c ↦ (v.disk, record { runs = rw c; self = e.clean i s h c; others = λ j n. refl })
    | inl c ↦ elim (Option-cases (pread v.disk i)) [
      | inl k ↦ absurd (e.readable i s h k)
      | inr (b, k) ↦
          let done = ok.writes v.disk i (v.cache.buffer s).block b k in
          (
            (pwrite v.disk i (v.cache.buffer s).block).1,
            record {
              runs = rw (c, done);
              self = st.pread-pwrite_self v.disk i _ done;
              others = λ j n. st.pread-pwrite_ne v.disk i j _ n;
            },
          )
    ]
  ]

  -- What `alloc` promises when it succeeds with slot `s`.
  pub record Allocated (v : Device st) (s : ℕ) (w : Device st) : Type 0 where
    pub runs : alloc st v ≡ (true, some s, w)
    pub reserved : Reserved st w s
    pub same_view : (j : ℕ) → view st w j ≡ view st v j
    pub none_kept : (j : ℕ) → v.cache.table j ≡ none → w.cache.table j ≡ none

  -- Slot `y` is initialised and put in front; `c` is the cache before, `d` after initialisation.
  module _ (c d : Cache) (y : ℕ) (init : d.buffer ≡ modify c.buffer y init_slot) where
    pub taken-Same : (t : ℕ) → t ≢ y → Same ((touch y d).buffer t) (c.buffer t)
    taken-Same t n = Same-trans (touch-Same y d t) (
        let e : d.buffer t ≡ c.buffer t =
          ap (λ f. f t) init ∙ update_ne c.buffer _ (λ p. n (sym p)) in
        rw e (record { block = refl; status = refl; id = refl }))

    pub taken-status : ((touch y d).buffer y).status ≡ 0
    taken-status = (touch-Same y d y).status ∙ ap (λ f. (f y).status) init ∙ (ground arith)

    pub taken-dirty :
        (t : ℕ) → is_dirty ((touch y d).buffer t) ≡ true → (t ≢ y) × (is_dirty (c.buffer t) ≡ true)
    taken-dirty t h =
        let n : t ≢ y = λ p. ground (arith, taken-status) in
        (n, ap (λ n. n % 2 == 1) (sym (taken-Same t n).status) ∙ h)

    -- The slots in use, with the one taken, are the same sets before and after.
    pub taken-Ring :
        (spare : List ℕ)
        → ((t : ℕ) → t ≢ y → Used d t → Used c t)
        → ((t : ℕ) → t ≢ y → Used c t → Used d t)
        → Ring (λ t. Used c t ⊎ (t ≡ y)) spare d
        → Ring (λ t. Used (touch y d) t ⊎ (t ≡ y)) spare (touch y d)
    unfolding touch
    taken-Ring spare to from r = Ring-iff there back (touch-Ring y (inr refl) r)
      where
        there : (t : ℕ) → Used c t ⊎ (t ≡ y) → Used (touch y d) t ⊎ (t ≡ y)
        there t u = elim (Bool-cases (y == t)) [
          | inl e ↦ inr (ground arith)
          | inr n ↦ elim u [
            | inr e ↦ inr e
            | inl v ↦ inl (ap d.table (touch-Same y d t).id ∙ from t (ground arith) v)
          ]
        ]

        back : (t : ℕ) → Used (touch y d) t ⊎ (t ≡ y) → Used c t ⊎ (t ≡ y)
        back t u = elim (Bool-cases (y == t)) [
          | inl e ↦ inr (ground arith)
          | inr n ↦ elim u [
            | inr e ↦ inr e
            | inl v ↦ inl (to t (ground arith) (ap d.table (sym (touch-Same y d t).id) ∙ v))
          ]
        ]
