-- ===== src/Resolver/Clock.antt =====
-- The clock of the path cache: each round of the loops of `evict`.

use sbfs.Prelude.{
  ℕ, zero, suc, ◌+◌, ◌≤◌, ◌<◌, ◌≡◌, refl, ◌∙◌, inl, inr, false, if◌then◌else◌, List, [], ◌∷◌, ◌++◌,
  length, length-append, Bool-cases, arith,
}
use sbfs.Resolver.{CacheEntry, entry_size, wrap, unvisited, advance, take_entry}

-- The number of visited entries.
pub visits : List CacheEntry → ℕ
visits [] = 0
visits (e ∷ es) = (if e.visited then 1 else 0) + visits es

visits-append : (xs ys : List CacheEntry) → visits (xs ++ ys) ≡ visits xs + visits ys
unfolding visits
visits-append [] ys = omega arith
visits-append (e ∷ xs) ys = ground (arith, visits-append xs ys)

pub visits-le-length : (xs : List CacheEntry) → visits xs ≤ length xs
unfolding visits
visits-le-length [] = omega arith
visits-le-length (e ∷ xs) = ground (arith, visits-le-length xs)

-- The iterator is at an entry that is not visited.
pub AtVictim : List CacheEntry → Type 0
AtVictim [] = ⊥
AtVictim (e ∷ es) = e.visited ≡ false

-- Neither list matters alone: a fact about the entries of both, in any order.
pub wrap-visits :
    (b a : List CacheEntry) → visits (wrap b a).0 + visits (wrap b a).1 ≡ visits b + visits a
unfolding wrap visits
wrap-visits b [] = omega arith
wrap-visits b (e ∷ es) = refl

pub wrap-length :
    (b a : List CacheEntry) → length (wrap b a).0 + length (wrap b a).1 ≡ length b + length a
unfolding wrap
wrap-length b [] = omega arith
wrap-length b (e ∷ es) = refl

pub wrap-more : (b a : List CacheEntry) → 0 < length b + length a → 0 < length (wrap b a).1
unfolding wrap
wrap-more b [] h = omega arith
wrap-more b (e ∷ es) h = omega arith

-- With a round for each visited entry, the inner loop ends at an entry that is not visited.
pub advance-AtVictim :
    (fuel : ℕ) (b a : List CacheEntry)
    → visits b + visits a ≤ fuel
    → 0 < length a
    → AtVictim (advance fuel b a).1
unfolding advance visits AtVictim
advance-AtVictim zero b [] h k = absurd (omega arith)
advance-AtVictim zero b (e ∷ es) h k = ground arith
advance-AtVictim (suc fuel) b [] h k = absurd (omega arith)
advance-AtVictim (suc fuel) b (e ∷ es) h k = elim (Bool-cases e.visited) [
  | inr n ↦ rw n refl
  | inl v ↦
      let u = visits-append b (unvisited e ∷ []) in
      let w = wrap-visits (b ++ (unvisited e ∷ [])) es in
      let l = length-append b (unvisited e ∷ []) in
      let less : visits (e ∷ es) ≡ 1 + visits es = rw v refl in
      rw v (
        advance-AtVictim fuel (wrap (b ++ (unvisited e ∷ [])) es).0
          (wrap (b ++ (unvisited e ∷ [])) es).1 (omega arith)
          (wrap-more (b ++ (unvisited e ∷ [])) es (omega arith)))
]

-- What a step of the clock keeps: the number of entries, and their sizes.
unfoldable pub total : List CacheEntry → ℕ
total [] = 0
total (e ∷ es) = entry_size e.key + total es

pub total-append : (xs ys : List CacheEntry) → total (xs ++ ys) ≡ total xs + total ys
unfolding total
total-append [] ys = omega arith
total-append (e ∷ xs) ys = omega (arith, total-append xs ys)

pub wrap-total :
    (b a : List CacheEntry) → total (wrap b a).0 + total (wrap b a).1 ≡ total b + total a
unfolding wrap total
wrap-total b [] = omega arith
wrap-total b (e ∷ es) = refl

pub advance-length :
    (fuel : ℕ) (b a : List CacheEntry)
    → length (advance fuel b a).0 + length (advance fuel b a).1 ≡ length b + length a
unfolding advance
advance-length zero b a = refl
advance-length (suc fuel) b [] = refl
advance-length (suc fuel) b (e ∷ es) = elim (Bool-cases e.visited) [
  | inr n ↦ rw n refl
  | inl v ↦
      let l = length-append b (unvisited e ∷ []) in
      let w = wrap-length (b ++ (unvisited e ∷ [])) es in
      rw v (
        advance-length fuel (wrap (b ++ (unvisited e ∷ [])) es).0
          (wrap (b ++ (unvisited e ∷ [])) es).1
        ∙ w
        ∙ (omega arith))
]

pub advance-total :
    (fuel : ℕ) (b a : List CacheEntry)
    → total (advance fuel b a).0 + total (advance fuel b a).1 ≡ total b + total a
unfolding advance total
advance-total zero b a = refl
advance-total (suc fuel) b [] = refl
advance-total (suc fuel) b (e ∷ es) = elim (Bool-cases e.visited) [
  | inr n ↦ rw n refl
  | inl v ↦
      let l = total-append b (unvisited e ∷ []) in
      let w = wrap-total (b ++ (unvisited e ∷ [])) es in
      rw v (
        advance-total fuel (wrap (b ++ (unvisited e ∷ [])) es).0
          (wrap (b ++ (unvisited e ∷ [])) es).1
        ∙ w
        ∙ (omega arith))
]

pub take_entry-length : (a : List CacheEntry) → AtVictim a → length (take_entry a).1 + 1 ≡ length a
unfolding take_entry AtVictim
take_entry-length [] h = absurd h
take_entry-length (e ∷ es) h = omega arith

pub take_entry-le : (a : List CacheEntry) → length (take_entry a).1 ≤ length a
unfolding take_entry
take_entry-le [] = omega arith
take_entry-le (e ∷ es) = omega arith

pub take_entry-total : (a : List CacheEntry) → (take_entry a).0 + total (take_entry a).1 ≡ total a
unfolding take_entry total
take_entry-total [] = refl
take_entry-total (e ∷ es) = refl
