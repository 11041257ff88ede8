-- ===== src/Path/Prefix.antt =====
-- Which entries of the path cache `removePrefix` leaves.
use sbfs.Prelude.{
  ℕ, ◌≡◌, ◌≢◌, refl, sym, ap, ◌∙◌, ◌↔◌, Bool, true, false, ◌==◌, ◌&&◌, if◌then◌else◌, List, [], ◌∷◌,
  ◌++◌, ==_iff, ==_refl, Bool-cases, inl, inr, Option, none, some, arith,
}
use sbfs.Path.{
  Str, slash, same_string, has_prefix, remove_end_slash, after_first, start_of, erase_prefix,
  remove_prefix,
}

same_string_refl : (s : Str) → same_string s s ≡ true
unfolding same_string
same_string_refl [] = refl
same_string_refl (c ∷ s) = rw (==_refl c, same_string_refl s)

has_prefix-cut : (p t : Str) → has_prefix p (p ++ t) ≡ true
unfolding has_prefix same_string
has_prefix-cut [] t = refl
has_prefix-cut (c ∷ p) t = rw (==_refl c, has_prefix-cut p t)

both_true : (a b : Bool) → (a && b) ≡ true → (a ≡ true) × (b ≡ true)
both_true true b h = (refl, h)
both_true false b h = ground arith

cut-has_prefix : (p k : Str) → has_prefix p k ≡ true → (t : Str) × (k ≡ p ++ t)
unfolding has_prefix same_string
cut-has_prefix [] k h = (k, refl)
cut-has_prefix (c ∷ p) [] h = ground arith
cut-has_prefix (c ∷ p) (d ∷ k) h =
    let both = both_true (d == c) (has_prefix p k) h in
    let (t, e) = cut-has_prefix p k both.1 in (t, rw (e, (==_iff d c).0 both.0))

-- The test of `removePrefix` holds for a key exactly when the key is the prefix with some string
-- after it.
pub has_prefix_iff : (p k : Str) → (has_prefix p k ≡ true) ↔ ((t : Str) × (k ≡ p ++ t))
has_prefix_iff p k = (cut-has_prefix p k, λ u. ap (has_prefix p) u.1 ∙ has_prefix-cut p u.0)

-- `std::map::find`.
unfoldable pub find : {A : Type 0} → Str → List (Str × A) → Option A
unfolding same_string
find key [] = none
find key ((k, v) ∷ rest) = if same_string k key then some v else find key rest

same_string-eq : (s t : Str) → same_string s t ≡ true → s ≡ t
unfolding same_string
same_string-eq [] [] h = refl
same_string-eq [] (d ∷ t) h = ground arith
same_string-eq (c ∷ s) [] h = ground arith
same_string-eq (c ∷ s) (d ∷ t) h =
    let both = both_true (c == d) (same_string s t) h in
    rw (same_string-eq s t both.1, (==_iff c d).0 both.0)

find-erase_prefix :
    {A : Type 0} (p key : Str) (cache : List (Str × A))
    → find key (erase_prefix p cache) ≡ (if has_prefix p key then none else find key cache)
unfolding find erase_prefix
find-erase_prefix p key [] = elim (Bool-cases (has_prefix p key)) [
  | inl e ↦ rw (e)
  | inr e ↦ rw (e)
]
find-erase_prefix p key ((k, v) ∷ rest) = elim (Bool-cases (has_prefix p k)) [
  | inl e ↦ elim (Bool-cases (same_string k key)) [
    | inl f ↦
        rw (e, find-erase_prefix p key rest, ap (has_prefix p) (sym (same_string-eq k key f)) ∙ e)
    | inr f ↦ rw (e, f, find-erase_prefix p key rest)
  ]
  | inr e ↦ elim (Bool-cases (same_string k key)) [
    | inl f ↦ rw (e, f, ap (has_prefix p) (sym (same_string-eq k key f)) ∙ e)
    | inr f ↦ rw (e, f, find-erase_prefix p key rest)
  ]
]

-- The path of a slash or another character and the string `p`, as it is or with a slash behind it.
pub data IsPathTo (c : ℕ) (p : Str) : Str → Type 0 where
  ends_in_slash : IsPathTo c p (c ∷ (p ++ (slash ∷ [])))
  ends_plain : ((q : Str) → (c ∷ p) ≢ q ++ (slash ∷ [])) → IsPathTo c p (c ∷ p)

remove_end_slash-slash : (c : ℕ) (p : Str) → remove_end_slash (c ∷ (p ++ (slash ∷ []))) ≡ c ∷ p
unfolding remove_end_slash
remove_end_slash-slash c [] = refl
remove_end_slash-slash c (d ∷ p) = ap (λ s. c ∷ s) (remove_end_slash-slash d p)

remove_end_slash-plain :
    (c : ℕ) (p : Str) → ((q : Str) → (c ∷ p) ≢ q ++ (slash ∷ [])) → remove_end_slash (c ∷ p) ≡ c ∷ p
unfolding remove_end_slash
remove_end_slash-plain c [] h = elim (Bool-cases (c == slash)) [
  | inl e ↦ absurd (h [] (ap (λ x. x ∷ []) ((==_iff c slash).0 e)))
  | inr e ↦ rw e refl
]
remove_end_slash-plain c (d ∷ p) h =
    ap (λ s. c ∷ s) (remove_end_slash-plain d p (λ q e. h (c ∷ q) (ap (λ s. c ∷ s) e)))

start_of-path : (c : ℕ) (p path : Str) → IsPathTo c p path → start_of path ≡ some p
unfolding start_of
start_of-path c p path ends_in_slash = ap after_first (remove_end_slash-slash c p)
start_of-path c p path (ends_plain h) = ap after_first (remove_end_slash-plain c p h)

-- For a path that has a character before `p` and perhaps a slash behind it, `removePrefix` returns
-- a cache that finds no key that begins with `p`, and finds for every other key what was found
-- before.
pub find-remove_prefix :
    {A : Type 0} (c : ℕ) (p path : Str) (cache : List (Str × A))
    → IsPathTo c p path
    → (after : List (Str × A)) × (remove_prefix path cache ≡ some after)
      × ((t : Str) → find (p ++ t) after ≡ none)
      × ((key : Str) → ((t : Str) → key ≢ p ++ t) → find key after ≡ find key cache)
unfolding remove_prefix
find-remove_prefix c p path cache h = (
  erase_prefix p cache,
  ap (λ o. elim o [ none ↦ none | some start ↦ some (erase_prefix start cache) ])
      (start_of-path c p path h),
  λ t. find-erase_prefix p (p ++ t) cache ∙ rw (has_prefix-cut p t) refl,
  λ key apart. find-erase_prefix p key cache ∙ elim (Bool-cases (has_prefix p key)) [
    | inl e ↦ let (t, cut) = cut-has_prefix p key e in absurd (apart t cut)
    | inr e ↦ rw e refl
  ],
)
