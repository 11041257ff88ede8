-- ===== src/Store.antt =====
-- The interface between the block device and the code above it, bitmaps and disk inodes: the
-- operations `read` and `write` of include/blk_dev.h, with what their comments promise as laws.
pub mod Calls
use mathlib.Core.Path.{subst}
use sbfs.Prelude.{
  sym, Bool, true, false, ℕ, ◌≡◌, ◌∙◌, ap, Option, some, M, and_then, ◌>>=◌, ◌==◌, if◌then◌else◌,
}
use sbfs.Block.{Block}

-- An operation returns `a` in a good state, in which the blocks are those of `f`.
pub record Leaves {S A : Type 0} (Good : S → Type 0) (contents : S → ℕ → Option Block)
    (r : Option A × S) (a : A) (f : ℕ → Option Block) : Type 0 where
  pub after : S
  pub runs : r ≡ (some a, after)
  pub good : Good after
  pub holds : (j : ℕ) → contents after j ≡ f j

pub record BlockStore : Type 1 where
  pub State : Type 0
  pub read : ℕ → M State Block
  pub write : ℕ → Block → M State (Unit {0})
  pub Good : State → Type 0
  -- The block that a read returns; `none` where there is no such block.
  pub contents : State → ℕ → Option Block
  pub read-Leaves :
      (s : State) (i : ℕ) {b : Block}
      → Good s
      → contents s i ≡ some b
      → Leaves Good contents (read i s) b (contents s)
  pub write-Leaves :
      (s : State) (i : ℕ) (b : Block) {old : Block}
      → Good s
      → contents s i ≡ some old
      → Leaves Good contents (write i b s) tt (λ j. if i == j then some b else contents s j)

module _ {S A B : Type 0} {Good : S → Type 0} {contents : S → ℕ → Option Block} where
  -- A step, and what follows it from the state that it leaves.
  pub Leaves-bind :
      (m : M S A) (k : A → M S B) {s : S} {a : A} {b : B} {f g : ℕ → Option Block}
      → Leaves Good contents (m s) a f
      → ((w : S) → Good w → ((j : ℕ) → contents w j ≡ f j) → Leaves Good contents (k a w) b g)
      → Leaves Good contents ((m >>= k) s) b g
  Leaves-bind m k l next =
      let n = next l.after l.good l.holds in
      record {
        after = n.after;
        runs = ap (λ r. and_then r k) l.runs ∙ n.runs;
        good = n.good;
        holds = n.holds;
      }

module _ {S A : Type 0} {Good : S → Type 0} {contents : S → ℕ → Option Block} where
  -- The same, said of equal results and equal blocks.
  pub Leaves-to :
      {r : Option A × S} {a a' : A} {f g : ℕ → Option Block}
      → a ≡ a'
      → ((j : ℕ) → f j ≡ g j)
      → Leaves Good contents r a f
      → Leaves Good contents r a' g
  Leaves-to e h l = record {
    after = l.after;
    runs = l.runs ∙ ap (λ x. (some x, l.after)) e;
    good = l.good;
    holds = λ j. l.holds j ∙ h j;
  }

  -- A step under a test that is decided.
  pub Leaves-then :
      {c : Bool} (m m' : M S A) {s : S} {a : A} {f : ℕ → Option Block}
      → c ≡ true
      → Leaves Good contents (m s) a f
      → Leaves Good contents ((if c then m else m') s) a f
  Leaves-then m m' {s} {a} {f} e l =
      subst (λ c. Leaves Good contents ((if c then m else m') s) a f) (sym e) l

  pub Leaves-else :
      {c : Bool} (m m' : M S A) {s : S} {a : A} {f : ℕ → Option Block}
      → c ≡ false
      → Leaves Good contents (m' s) a f
      → Leaves Good contents ((if c then m else m') s) a f
  Leaves-else m m' {s} {a} {f} e l =
      subst (λ c. Leaves Good contents ((if c then m else m') s) a f) (sym e) l
