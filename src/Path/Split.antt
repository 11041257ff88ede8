-- ===== src/Path/Split.antt =====
-- What the two vectors of `split` have to do with each other and with the string.
use sbfs.Prelude.{
  ℕ, ◌≡◌, refl, ◌∙◌, sym, ap, true, false, ◌==◌, ==_iff, List, [], ◌∷◌, ◌++◌, Bool-cases, inl, inr,
}
use mathlib.Core.List.{append_assoc, append-nil}
use sbfs.Path.{Str, split, split_from}

-- The parts, joined again.
unfoldable pub joined : ℕ → List Str → Str
joined delim [] = []
joined delim (p ∷ []) = p
joined delim (p ∷ q ∷ ps) = p ++ (delim ∷ joined delim (q ∷ ps))

-- The string up to the end of each part, after what comes before.
unfoldable pub heads : ℕ → Str → List Str → List Str
heads delim pre [] = []
heads delim pre (p ∷ ps) = (pre ++ p) ∷ heads delim (pre ++ (p ++ (delim ∷ []))) ps

after_delim :
    (delim : ℕ) (pre seen cur : Str) (c : ℕ)
    → seen ≡ pre ++ cur
    → c ≡ delim
    → seen ++ (c ∷ []) ≡ pre ++ (cur ++ (delim ∷ [])) ++ []
after_delim delim pre seen cur c q e =
    rw (q, e, append-nil (pre ++ (cur ++ (delim ∷ []))), append_assoc pre cur (delim ∷ []))

split_from-heads :
    (delim : ℕ) (pre seen cur rest : Str)
    → seen ≡ pre ++ cur
    → split_from delim true seen cur rest ≡ heads delim pre (split_from delim false seen cur rest)
unfolding split_from heads
split_from-heads delim pre seen cur [] q = ap (λ s. s ∷ []) q
split_from-heads delim pre seen cur (c ∷ rest) q = elim (Bool-cases (c == delim)) [
  | inl e ↦ rw (
    e,
    split_from-heads delim (pre ++ (cur ++ (delim ∷ []))) (seen ++ (c ∷ [])) [] rest
        (after_delim delim pre seen cur c q ((==_iff c delim).0 e)),
    q,
  )
  | inr e ↦ rw (
    e,
    split_from-heads delim pre (seen ++ (c ∷ [])) (cur ++ (c ∷ [])) rest
        (ap (λ s. s ++ (c ∷ [])) q ∙ append_assoc pre cur (c ∷ [])),
  )
]

-- The vector of cache keys that `split` makes with `reserve_prev` has, for each part of the
-- string, the string up to the end of that part.
pub split-heads : (s : Str) (delim : ℕ) → split s delim true ≡ heads delim [] (split s delim false)
unfolding split
split-heads s delim = split_from-heads delim [] [] [] s refl

joined-cons :
    (delim : ℕ) (p seen cur rest : Str)
    → joined delim (p ∷ split_from delim false seen cur rest)
      ≡ p ++ (delim ∷ joined delim (split_from delim false seen cur rest))
unfolding split_from joined
joined-cons delim p seen cur [] = refl
joined-cons delim p seen cur (c ∷ rest) = elim (Bool-cases (c == delim)) [
  | inl e ↦ rw (e)
  | inr e ↦ rw (e, joined-cons delim p (seen ++ (c ∷ [])) (cur ++ (c ∷ [])) rest)
]

split_from-joined :
    (delim : ℕ) (seen cur rest : Str)
    → joined delim (split_from delim false seen cur rest) ≡ cur ++ rest
unfolding split_from joined
split_from-joined delim seen cur [] = sym (append-nil cur)
split_from-joined delim seen cur (c ∷ rest) = elim (Bool-cases (c == delim)) [
  | inl e ↦ rw (
    e,
    joined-cons delim cur (seen ++ (c ∷ [])) [] rest,
    split_from-joined delim (seen ++ (c ∷ [])) [] rest,
    (==_iff c delim).0 e,
  )
  | inr e ↦ rw (
    e,
    split_from-joined delim (seen ++ (c ∷ [])) (cur ++ (c ∷ [])) rest,
    append_assoc cur (c ∷ []) rest,
  )
]

-- The parts that `split` makes, joined by the delimiter, are the string again.
pub split-joined : (s : Str) (delim : ℕ) → joined delim (split s delim false) ≡ s
unfolding split
split-joined s delim = split_from-joined delim [] [] s
