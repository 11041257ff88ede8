-- ===== src/Store/Calls.antt =====
-- Sequences of reads and writes of a block store, and what their caller sees.
use mathlib.Core.Path.{subst}
use sbfs.Prelude.{
  ℕ, ◌≡◌, refl, ◌∙◌, sym, ap, Option, none, some, List, [], ◌∷◌, ◌==◌, if◌then◌else◌, fun_ext,
}
use sbfs.Block.{Block}
use sbfs.Store.{BlockStore}

pub data Call : Type 0 where
  reads : ℕ → Call
  writes : ℕ → Block → Call

pub data Answer : Type 0 where
  block : Block → Answer
  stored : Answer
  failed : Answer

abbrev pub read_answer : Option Block → Answer
read_answer none = failed
read_answer (some b) = block b

abbrev pub write_answer : Option (Unit {0}) → Answer
write_answer none = failed
write_answer (some _) = stored

-- The blocks after a call.
abbrev pub after_call : Call → (ℕ → Option Block) → ℕ → Option Block
after_call (reads i) f = f
after_call (writes i b) f = λ j. if i == j then some b else f j

-- Each call is about a block that is there.
unfoldable pub AllThere : (ℕ → Option Block) → List Call → Type 0
AllThere f [] = Unit {0}
AllThere f (reads i ∷ calls) = ((b : Block) × (f i ≡ some b)) × AllThere f calls
AllThere f (writes i b ∷ calls) =
    ((old : Block) × (f i ≡ some old)) × AllThere (λ j. if i == j then some b else f j) calls

-- What the calls answer over the blocks alone.
unfoldable pub expected : List Call → (ℕ → Option Block) → List Answer
expected [] f = []
expected (reads i ∷ calls) f = read_answer (f i) ∷ expected calls f
expected (writes i b ∷ calls) f = stored ∷ expected calls (λ j. if i == j then some b else f j)

unfoldable pub final : List Call → (ℕ → Option Block) → ℕ → Option Block
final [] f = f
final (c ∷ calls) f = final calls (after_call c f)

module _ (bs : BlockStore) where
  open bs use {State, Good, contents, read, write}

  -- A call, in any state.
  abbrev perform : Call → State → Answer × State
  perform (reads i) s = let (o, s') = read i s in (read_answer o, s')
  perform (writes i b) s = let (o, s') = write i b s in (write_answer o, s')

  unfoldable pub answers : List Call → State → List Answer × State
  answers [] s = ([], s)
  answers (c ∷ calls) s =
      let (a, s') = perform c s in let (rest, s'') = answers calls s' in (a ∷ rest, s'')

  pub record Served (calls : List Call) (f : ℕ → Option Block) (r : List Answer × State)
      : Type 0 where
    pub after : State
    pub runs : r ≡ (expected calls f, after)
    pub good : Good after
    pub holds : (j : ℕ) → contents after j ≡ final calls f j

  pub answers-Served :
      (calls : List Call) (s : State)
      → Good s
      → AllThere (contents s) calls
      → Served calls (contents s) (answers calls s)
  unfolding answers expected final AllThere
  answers-Served [] s g h = record { after = s; runs = refl; good = g; holds = λ j. refl }
  answers-Served (reads i ∷ calls) s g ((b, e), more) =
      let l = bs.read-Leaves s i g e in
      let same = fun_ext l.holds in
      let n = answers-Served calls l.after l.good (subst (λ f. AllThere f calls) (sym same) more) in
      record {
        after = n.after;
        runs =
            ap (λ r. (read_answer r.0 ∷ (answers calls r.1).0, (answers calls r.1).1)) l.runs
            ∙ ap (λ x. (block b ∷ x.0, x.1)) n.runs
            ∙ ap (λ f. (block b ∷ expected calls f, n.after)) same
            ∙ ap (λ o. (read_answer o ∷ expected calls (contents s), n.after)) (sym e);
        good = n.good;
        holds = λ j. n.holds j ∙ ap (λ f. final calls f j) same;
      }
  answers-Served (writes i b ∷ calls) s g ((old, e), more) =
      let l = bs.write-Leaves s i b g e in
      let same = fun_ext l.holds in
      let n = answers-Served calls l.after l.good (subst (λ f. AllThere f calls) (sym same) more) in
      record {
        after = n.after;
        runs =
            ap (λ r. (write_answer r.0 ∷ (answers calls r.1).0, (answers calls r.1).1)) l.runs
            ∙ ap (λ x. (stored ∷ x.0, x.1)) n.runs
            ∙ ap (λ f. (stored ∷ expected calls f, n.after)) same;
        good = n.good;
        holds = λ j. n.holds j ∙ ap (λ f. final calls f j) same;
      }

-- Two stores with the same blocks answer alike, and keep the same blocks.
pub answers-same :
    (bs cs : BlockStore) (calls : List Call) (s : bs.State) (t : cs.State)
    → bs.Good s
    → cs.Good t
    → ((j : ℕ) → bs.contents s j ≡ cs.contents t j)
    → AllThere (cs.contents t) calls
    → ((answers bs calls s).0 ≡ (answers cs calls t).0)
      × bs.Good (answers bs calls s).1
      × ((j : ℕ) → bs.contents (answers bs calls s).1 j ≡ cs.contents (answers cs calls t).1 j)
answers-same bs cs calls s t g h same there =
    let f = fun_ext same in
    let l = answers-Served bs calls s g (subst (λ g. AllThere g calls) (sym f) there) in
    let r = answers-Served cs calls t h there in
    (
      ap (λ x. x.0) l.runs ∙ ap (expected calls) f ∙ sym (ap (λ x. x.0) r.runs),
      subst (λ x. bs.Good x.1) (sym l.runs) l.good,
      λ j.
          ap (λ x. bs.contents x.1 j) l.runs
          ∙ l.holds j
          ∙ ap (λ g. final calls g j) f
          ∙ sym (r.holds j)
          ∙ sym (ap (λ x. cs.contents x.1 j) r.runs),
    )
