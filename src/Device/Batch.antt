-- ===== src/Device/Batch.antt =====
-- `write_tx` of the block device: several writes, in their order.
use mathlib.Core.Path.{subst}
use sbfs.Prelude.{
  ℕ, ◌≡◌, refl, ◌∙◌, sym, ap, Option, some, List, [], ◌∷◌, ◌==◌, if◌then◌else◌, Bool-cases, inl,
  inr, and_then, fun_ext,
}
use sbfs.Block.{Block}
use sbfs.Storage.{Storage, IsHealthy}
use sbfs.Store.{Leaves}
use sbfs.Cache.{Device}
use sbfs.Cache.Valid.{Valid, view}
use sbfs.Device.{write_tx}
use sbfs.Device.Laws.{write-view}

-- The blocks after the writes of a list.
unfoldable pub after_writes : List (ℕ × Block) → (ℕ → Option Block) → ℕ → Option Block
after_writes [] f = f
after_writes ((i, b) ∷ rest) f = after_writes rest (λ j. if i == j then some b else f j)

-- Each block of the list is there.
unfoldable pub Present : (ℕ → Option Block) → List (ℕ × Block) → Type 0
Present f [] = Unit {0}
Present f ((i, b) ∷ rest) = ((old : Block) × (f i ≡ some old)) × Present f rest

Present-write :
    (f : ℕ → Option Block) (i : ℕ) (b : Block) (writes : List (ℕ × Block))
    → Present f writes
    → Present (λ j. if i == j then some b else f j) writes
unfolding Present
Present-write f i b [] h = tt
Present-write f i b ((k, c) ∷ rest) ((old, e), more) = elim (Bool-cases (i == k)) [
  | inl p ↦ ((b, rw p), Present-write f i b rest more)
  | inr n ↦ ((old, rw n e), Present-write f i b rest more)
]

module _ (st : Storage) (ok : IsHealthy st) where
  -- On a healthy disk, writes to blocks that a valid device has all succeed; the device is then
  -- valid, and its blocks are those after the writes in their order.
  pub write_tx-view :
      (v : Device st) (writes : List (ℕ × Block))
      → Valid st v
      → Present (view st v) writes
      → Leaves (Valid st) (view st) (write_tx st writes v) tt (after_writes writes (view st v))
  unfolding write_tx Present after_writes
  write_tx-view v [] k h = record { after = v; runs = refl; good = k; holds = λ j. refl }
  write_tx-view v ((i, b) ∷ rest) k ((old, e), more) =
      let l = write-view st ok v i b k e in
      let same = fun_ext l.holds in
      let n =
        write_tx-view l.after rest l.good
          (subst (λ f. Present f rest) (sym same) (Present-write (view st v) i b rest more)) in
      record {
        after = n.after;
        runs = ap (λ r. and_then r (λ _ w. write_tx st rest w)) l.runs ∙ n.runs;
        good = n.good;
        holds = λ j. n.holds j ∙ ap (λ f. after_writes rest f j) same;
      }
