-- ===== src/Resolver/Walks.antt =====
-- What `resolve` means: the walk from the root over the parts of a path, along a directory tree.
use mathlib.Core.Path.{subst}
use mathlib.Core.Option.{some-injective, none-ne-some}
use sbfs.Prelude.{
  Option-cases, ◌≡◌, refl, sym, ap, ◌∙◌, true, false, Option, none, some, ◌==◌, List, [], ◌∷◌, ◌++◌,
  Bool-cases, inl, inr, ==_iff, All, arith,
}
use sbfs.Position.{Position, invalid}
use sbfs.Path.{Str}
use sbfs.Resolver.{CacheEntry, find_key, str_eq}

abbrev pub Tree : Type 0
Tree = Position → Str → Option Position

unfoldable pub walk : Tree → List Str → Position → Option Position
walk tree [] p = some p
walk tree (n ∷ ns) p = elim (tree p n) [ none ↦ none | some q ↦ walk tree ns q ]

pub walk-append :
    (tree : Tree) (xs ys : List Str) (p q : Position)
    → walk tree xs p ≡ some q
    → walk tree (xs ++ ys) p ≡ walk tree ys q
unfolding walk
walk-append tree [] ys p q h = ap (walk tree ys) (some-injective p q h)
walk-append tree (n ∷ xs) ys p q h = elim (Option-cases (tree p n)) [
  | inl e ↦
      let stops : walk tree (n ∷ xs) p ≡ none = rw (walk, e) refl in
      absurd (none-ne-some q (sym stops ∙ h))
  | inr (m, e) ↦
      let goes_on : walk tree (n ∷ xs) p ≡ walk tree xs m = rw (walk, e) refl in
      let so : walk tree (n ∷ (xs ++ ys)) p ≡ walk tree (xs ++ ys) m = rw (walk, e) refl in
      so ∙ walk-append tree xs ys m q (sym goes_on ∙ h)
]

abbrev pub or_invalid : Option Position → Position
or_invalid none = invalid
or_invalid (some p) = p

str_eq-eq : (s t : Str) → str_eq s t ≡ true → s ≡ t
unfolding str_eq
str_eq-eq [] [] h = refl
str_eq-eq [] (d ∷ t) h = ground arith
str_eq-eq (c ∷ s) [] h = ground arith
str_eq-eq (c ∷ s) (d ∷ t) h = elim (Bool-cases (c == d)) [
  | inl e ↦ rw (str_eq-eq s t (sym (rw e refl) ∙ h), (==_iff c d).0 e)
  | inr e ↦ let differs : str_eq (c ∷ s) (d ∷ t) ≡ false = rw e refl in ground arith
]

-- What a lookup finds is an entry of the cache, with the key.
pub find_key-found :
    (Q : CacheEntry → Type 0) (key : Str) (es : List CacheEntry) (e : CacheEntry)
    → All Q es
    → find_key key es ≡ some e
    → (e.key ≡ key) × Q e
unfolding find_key
find_key-found Q key [] e h k = absurd (none-ne-some e k)
find_key-found Q key (x ∷ es) e (h, l) k = elim (Bool-cases (str_eq x.key key)) [
  | inl f ↦
      let same : x ≡ e = some-injective x e (sym (rw f refl) ∙ k) in
      subst (λ y. (y.key ≡ key) × Q y) same (str_eq-eq x.key key f, h)
  | inr f ↦ find_key-found Q key es e l (sym (rw f refl) ∙ k)
]
