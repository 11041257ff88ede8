-- ===== src/Resolver/Evict.antt =====
-- The entries that `evict` leaves in the path cache, and the end of its loops.
use mathlib.Core.List.{cons-ne-nil}
use sbfs.Prelude.{
  ℕ, zero, suc, ◌+◌, ◌≤◌, ◌<◌, ◌≡◌, refl, ◌∙◌, ◌⊎◌, inl, inr, true, ltb, List, [], ◌∷◌, ◌++◌,
  length, length-append, Bool-cases, arith, ◌-◌, ◌^◌, ◌%◌, ltb→lt, not_ltb→le, lt→ltb,
}
use sbfs.Position.{Position}
use sbfs.Path.{Str}
use sbfs.Resolver.{
  CacheEntry, Resolver, entries, entry_size, wrap, advance, evict_one, evict_from, evict, remember,
  insert, put_at, put_entry,
}
use sbfs.Resolver.Clock.{
  visits-le-length, wrap-visits, wrap-length, wrap-more, advance-AtVictim, total, total-append,
  wrap-total, advance-length, advance-total, take_entry-length, take_entry-le, take_entry-total,
}

-- A round erases one entry if there is one, and counts its size.
record Erased (b a : List CacheEntry) (r : ℕ × List CacheEntry × List CacheEntry) : Type 0 where
  fewer : length r.1 + length r.2 ≤ length b + length a - 1
  freed : r.0 + (total r.1 + total r.2) ≡ total b + total a

evict_one-Erased : (b a : List CacheEntry) → Erased b a (evict_one b a)
unfolding evict_one
evict_one-Erased b a =
    let fuel = length b + length a in
    let w = wrap b a in
    let c = advance fuel w.0 w.1 in
    let same = advance-length fuel w.0 w.1 ∙ wrap-length b a in
    record {
      fewer = elim (Bool-cases (ltb 0 fuel)) [
        | inl p ↦
            let at =
              advance-AtVictim fuel w.0 w.1
                (omega (arith, wrap-visits b a, visits-le-length b, visits-le-length a))
                (wrap-more b a (ltb→lt 0 fuel p)) in
            omega (arith, take_entry-length c.1 at, same)
        | inr n ↦ omega (arith, take_entry-le c.1, same, not_ltb→le 0 fuel n)
      ];
      freed = omega (arith, take_entry-total c.1, advance-total fuel w.0 w.1, wrap-total b a);
    }

record Ended (size cur : ℕ) (b a : List CacheEntry) (r : ℕ × List CacheEntry × List CacheEntry)
    : Type 0 where
  done : (size ≤ r.0) ⊎ (length r.1 + length r.2 ≡ 0)
  sizes : r.0 + (total r.1 + total r.2) ≡ cur + (total b + total a)

evict_from-Ended :
    (fuel size cur : ℕ) (b a : List CacheEntry)
    → length b + length a ≤ fuel
    → Ended size cur b a (evict_from fuel size cur b a)
unfolding evict_from
evict_from-Ended zero size cur b a h = record { done = inr (omega arith); sizes = refl }
evict_from-Ended (suc fuel) size cur b a h = elim (Bool-cases (ltb cur size)) [
  | inr n ↦ rw n (record { done = inl (not_ltb→le cur size n); sizes = refl })
  | inl p ↦
      let e = evict_one-Erased b a in
      let r =
        evict_from-Ended fuel size (cur + (evict_one b a).0) (evict_one b a).1 (evict_one b a).2
          (omega (arith, e.fewer)) in
      rw p (record { done = r.done; sizes = r.sizes ∙ (omega (arith, e.freed)) })
]

both_empty : (b a : List CacheEntry) → length b + length a ≡ 0 → b ++ a ≡ []
both_empty [] [] h = refl
both_empty [] (e ∷ a) h = absurd (omega arith)
both_empty (e ∷ b) a h = absurd (omega arith)

-- Where `evict` ends, with a round for each entry, the condition of its loop is false: it has
-- freed the size, or the cache is empty. What it counts as freed is the sizes of the entries that
-- went.
pub evict-ends :
    (size : ℕ) (r : Resolver)
    → ((size ≤ (evict size r).cur_size) ⊎ (entries (evict size r) ≡ []))
      × ((evict size r).cur_size + total (entries (evict size r)) ≡ total (entries r))
unfolding evict
evict-ends size r =
    let (cur, b, a) = evict_from (length (entries r)) size 0 r.before r.after in
    let e =
      evict_from-Ended (length (entries r)) size 0 r.before r.after
        (omega (arith, length-append r.before r.after)) in
    (
      elim e.done [ inl h ↦ inl h | inr h ↦ inr (both_empty b a h) ],
      omega (arith, total-append b a, e.sizes, total-append r.before r.after),
    )

put_at-alone :
    (n : CacheEntry) (r : Resolver) (b a : List CacheEntry)
    → b ++ a ≡ []
    → entries (put_at n (record r { before = b; after = a }) a) ≡ n ∷ []
unfolding put_at put_entry
put_at-alone n r [] [] h = refl
put_at-alone n r [] (e ∷ a) h = absurd (cons-ne-nil e a h)
put_at-alone n r (e ∷ b) a h = absurd (cons-ne-nil e (b ++ a) h)

insert-alone : (n : CacheEntry) (r : Resolver) → entries r ≡ [] → entries (insert n r) ≡ n ∷ []
unfolding insert
insert-alone n r h = put_at-alone n r r.before r.after h

-- While the cache with a new entry is below its limit, and the limit with the sizes of all entries
-- is below 2 ^ 64, the size that `resolve` asks for wraps around, and `evict` empties the cache:
-- only the new entry is left.
pub remember-alone :
    (key : Str) (inode : Position) (r : Resolver)
    → r.cur_size + entry_size key < r.max_size
    → r.max_size + total (entries r) < 2 ^ 64
    → entries (remember key inode r) ≡ record { key = key; inode = inode; visited = true } ∷ []
unfolding remember
remember-alone key inode r h k =
    let size = (r.cur_size + entry_size key + 2 ^ 64 - r.max_size) % 2 ^ 64 in
    let large : total (entries r) < size = omega arith in
    let (ends, sizes) = evict-ends size r in
    let gone : entries (evict size r) ≡ [] = elim ends [
      | inl l ↦ absurd (omega arith)
      | inr e ↦ e
    ] in
    rw (lt→ltb 0 size (omega arith))
      (insert-alone (record { key = key; inode = inode; visited = true }) (evict size r) gone)
