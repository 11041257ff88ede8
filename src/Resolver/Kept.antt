-- ===== src/Resolver/Kept.antt =====
-- What holds of each key with its inode holds on, whatever the path cache does.
use mathlib.Core.Path.{subst}
use sbfs.Prelude.{
  refl, ℕ, zero, suc, ◌+◌, ◌-◌, ◌%◌, ◌^◌, ◌≡◌, Bool, true, false, ltb, if◌then◌else◌, List, [], ◌∷◌,
  ◌++◌, length, All, All-append, Bool-cases, inl, inr,
}
use sbfs.Position.{Position}
use sbfs.Path.{Str}
use sbfs.Resolver.{
  CacheEntry, Resolver, entries, entry_size, wrap, unvisited, advance, take_entry, evict_one,
  evict_from, evict, remember, insert, put_at, put_entry, visit_key, str_eq, str_lt,
}

holds_if : {A : Type 0} (Q : A → Type 0) {x y : A} (c : Bool) → Q x → Q y → Q (if c then x else y)
holds_if Q true h k = h
holds_if Q false h k = k

module _ (P : Str → Position → Type 0) where
  abbrev pub Holds : CacheEntry → Type 0
  Holds e = P e.key e.inode

  abbrev pub Both : List CacheEntry × List CacheEntry → Type 0
  Both (b, a) = All Holds b × All Holds a

  wrap-Both : (b a : List CacheEntry) → Both (b, a) → Both (wrap b a)
  unfolding wrap
  wrap-Both b [] h = (tt, h.0)
  wrap-Both b (e ∷ es) h = h

  advance-Both : (fuel : ℕ) (b a : List CacheEntry) → Both (b, a) → Both (advance fuel b a)
  unfolding advance
  advance-Both zero b a h = h
  advance-Both (suc fuel) b [] h = h
  advance-Both (suc fuel) b (e ∷ es) (h, k) =
      let next = wrap (b ++ (unvisited e ∷ [])) es in
      holds_if Both e.visited
        (advance-Both fuel next.0 next.1 (
          wrap-Both (b ++ (unvisited e ∷ [])) es
            (All-append Holds b (unvisited e ∷ []) h (k.0, tt), k.1)))
        (h, k)

  take_entry-All : (a : List CacheEntry) → All Holds a → All Holds (take_entry a).1
  unfolding take_entry
  take_entry-All [] h = tt
  take_entry-All (e ∷ es) h = h.1

  evict_one-Both :
      (b a : List CacheEntry) → Both (b, a) → Both ((evict_one b a).1, (evict_one b a).2)
  unfolding evict_one
  evict_one-Both b a h =
      let w = wrap b a in
      let fuel = length b + length a in
      let c = advance-Both fuel w.0 w.1 (wrap-Both b a h) in
      (c.0, take_entry-All (advance fuel w.0 w.1).1 c.1)

  evict_from-Both :
      (fuel size cur : ℕ) (b a : List CacheEntry)
      → Both (b, a)
      → Both ((evict_from fuel size cur b a).1, (evict_from fuel size cur b a).2)
  unfolding evict_from
  evict_from-Both zero size cur b a h = h
  evict_from-Both (suc fuel) size cur b a h = elim (Bool-cases (ltb cur size)) [
    | inl p ↦ rw p (
        evict_from-Both fuel size (cur + (evict_one b a).0) (evict_one b a).1 (evict_one b a).2
          (evict_one-Both b a h))
    | inr n ↦ rw n h
  ]

  put_entry-All :
      (n : CacheEntry) (es : List CacheEntry) → Holds n → All Holds es → All Holds (put_entry n es)
  unfolding put_entry
  put_entry-All n [] h k = (h, tt)
  put_entry-All n (e ∷ es) h k =
      holds_if (All Holds) (str_eq e.key n.key) (h, k.1)
        (holds_if (All Holds) (str_lt n.key e.key) (h, k) (k.0, put_entry-All n es h k.1))

  abbrev pub Kept : Resolver → Type 0
  Kept r = Both (r.before, r.after)

  put_at-Kept :
      (n : CacheEntry) (r : Resolver) (es : List CacheEntry)
      → r.after ≡ es
      → Holds n
      → Kept r
      → Kept (put_at n r es)
  unfolding put_at
  put_at-Kept n r [] e h k = (put_entry-All n r.before h k.0, k.1)
  put_at-Kept n r (x ∷ es) e h k =
      let l : All Holds (x ∷ es) = subst (All Holds) e k.1 in
      holds_if Kept (str_lt n.key x.key) (put_entry-All n r.before h k.0, k.1)
        (k.0, put_entry-All n (x ∷ es) h l)

  evict-Kept : (size : ℕ) (r : Resolver) → Kept r → Kept (evict size r)
  unfolding evict
  evict-Kept size r h = evict_from-Both (length (entries r)) size 0 r.before r.after h

  pub remember-Kept :
      (key : Str) (inode : Position) (r : Resolver)
      → P key inode
      → Kept r
      → Kept (remember key inode r)
  unfolding remember insert
  remember-Kept key inode r h k =
      let size = (r.cur_size + entry_size key + 2 ^ 64 - r.max_size) % 2 ^ 64 in
      let n : CacheEntry = record { key = key; inode = inode; visited = true } in
      let e : Resolver = if ltb 0 size then evict size r else r in
      put_at-Kept n e e.after refl h (holds_if Kept (ltb 0 size) (evict-Kept size r k) k)

  pub visit_key-All :
      (key : Str) (es : List CacheEntry) → All Holds es → All Holds (visit_key key es)
  unfolding visit_key
  visit_key-All key [] h = tt
  visit_key-All key (e ∷ es) h =
      (holds_if Holds (str_eq e.key key) h.0 h.0, visit_key-All key es h.1)
