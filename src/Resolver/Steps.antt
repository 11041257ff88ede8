-- ===== src/Resolver/Steps.antt =====
-- The parts of a path and the keys that `split` makes beside them: cutting a key gives the parts up
-- to its own.
use mathlib.Core.List.{append_assoc, append-nil}
use mathlib.Core.Path.{subst}
use sbfs.Prelude.{
  ℕ, ◌≡◌, refl, ◌∙◌, sym, ap, true, false, ◌==◌, if◌then◌else◌, List, [], ◌∷◌, ◌++◌, All,
  All-append, Bool-cases, inl, inr, map, ==_refl,
}
use sbfs.Path.{Str, split, split_from}
use sbfs.Path.Split.{heads, split-heads}
use sbfs.Resolver.{path_steps}

-- No delimiter in a string.
abbrev Plain : ℕ → Str → Type 0
Plain delim = All (λ c. (c == delim) ≡ false)

module _ (delim : ℕ) where
  -- What came before does not matter to the parts.
  split_from_seen :
      (seen seen' cur rest : Str)
      → split_from delim false seen cur rest ≡ split_from delim false seen' cur rest
  unfolding split_from
  split_from_seen seen seen' cur [] = refl
  split_from_seen seen seen' cur (c ∷ rest) = rw (
      split_from_seen (seen ++ (c ∷ [])) (seen' ++ (c ∷ []))
        (if c == delim then [] else cur ++ (c ∷ [])) rest)

  -- A part without a delimiter is cut off whole.
  split-part :
      (cur p rest seen : Str)
      → Plain delim p
      → split_from delim false seen cur (p ++ (delim ∷ rest))
        ≡ (cur ++ p) ∷ split_from delim false seen [] rest
  unfolding split_from
  split-part cur [] rest seen h =
      rw (==_refl delim, append-nil cur)
        (ap (λ r. cur ∷ r) (split_from_seen (seen ++ (delim ∷ [])) seen [] rest))
  split-part cur (c ∷ p) rest seen (e, h) = rw e (
      split-part (cur ++ (c ∷ [])) p rest (seen ++ (c ∷ [])) h
      ∙ (λ i. append_assoc cur (c ∷ []) p i ∷ split_from_seen (seen ++ (c ∷ [])) seen [] rest i))

  split-last :
      (cur p seen : Str) → Plain delim p → split_from delim false seen cur p ≡ (cur ++ p) ∷ []
  unfolding split_from
  split-last cur [] seen h = ap (λ x. x ∷ []) (sym (append-nil cur))
  split-last cur (c ∷ p) seen (e, h) = rw e (
      split-last (cur ++ (c ∷ [])) p (seen ++ (c ∷ [])) h
      ∙ ap (λ x. x ∷ []) (append_assoc cur (c ∷ []) p))

  split_from-Plain :
      (seen cur s : Str) → Plain delim cur → All (Plain delim) (split_from delim false seen cur s)
  unfolding split_from
  split_from-Plain seen cur [] h = (h, tt)
  split_from-Plain seen cur (c ∷ s) h = elim (Bool-cases (c == delim)) [
    | inl e ↦ rw e (h, split_from-Plain (seen ++ (c ∷ [])) [] s tt)
    | inr e ↦ rw e (
        split_from-Plain (seen ++ (c ∷ [])) (cur ++ (c ∷ [])) s
          (All-append (λ c. (c == delim) ≡ false) cur (c ∷ []) h (e, tt)))
  ]

-- Each key of the steps is cut into the parts `done` and those up to its own.
unfoldable pub Keyed : ℕ → List Str → List (Str × Str) → Type 0
Keyed delim done [] = Unit {0}
Keyed delim done ((p, k) ∷ steps) =
    (split k delim false ≡ done ++ (p ∷ [])) × Keyed delim (done ++ (p ∷ [])) steps

path_steps-Keyed :
    (delim : ℕ) (pre : Str) (done parts : List Str)
    → ((rest : Str) → split (pre ++ rest) delim false ≡ done ++ split rest delim false)
    → All (Plain delim) parts
    → Keyed delim done (path_steps parts (heads delim pre parts))
unfolding Keyed path_steps heads split
path_steps-Keyed delim pre done [] h plain = tt
path_steps-Keyed delim pre done (p ∷ parts) h (plain, more) = (
  h p ∙ ap (λ x. done ++ x) (split-last delim [] p [] plain),
  path_steps-Keyed delim (pre ++ (p ++ (delim ∷ []))) (done ++ (p ∷ [])) parts
      (λ rest.
        ap (λ x. split x delim false)
          (append_assoc pre (p ++ (delim ∷ [])) rest
            ∙ ap (λ x. pre ++ x) (append_assoc p (delim ∷ []) rest))
        ∙ h (p ++ (delim ∷ rest))
        ∙ ap (λ x. done ++ x) (split-part delim [] p rest [] plain)
        ∙ sym (append_assoc done (p ∷ []) (split rest delim false)))
      more,
)

pub split-Keyed :
    (delim : ℕ) (s : Str) → Keyed delim [] (path_steps (split s delim false) (split s delim true))
unfolding split
split-Keyed delim s =
    subst (λ keys. Keyed delim [] (path_steps (split s delim false) keys))
      (sym (split-heads s delim))
      (path_steps-Keyed delim [] [] (split s delim false) (λ rest. refl)
        (split_from-Plain delim [] [] s tt))

parts-heads :
    (delim : ℕ) (pre : Str) (parts : List Str)
    → map (λ x. x.0) (path_steps parts (heads delim pre parts)) ≡ parts
unfolding path_steps heads
parts-heads delim pre [] = refl
parts-heads delim pre (p ∷ parts) =
    ap (λ x. p ∷ x) (parts-heads delim (pre ++ (p ++ (delim ∷ []))) parts)

-- The parts of the steps are the parts of the path.
pub parts-path_steps :
    (delim : ℕ) (s : Str)
    → map (λ x. x.0) (path_steps (split s delim false) (split s delim true)) ≡ split s delim false
parts-path_steps delim s =
    ap (λ keys. map (λ x. x.0) (path_steps (split s delim false) keys)) (split-heads s delim)
    ∙ parts-heads delim [] (split s delim false)
