-- ===== src/Resolver.antt =====
-- `PathResolver` of include/path_resolver.h and src/path_resolver.cpp: the path cache with its
-- clock, and `resolve`. The ordered map is two lists in the order of their keys, cut before the
-- entry that `clock_iter_` points to; the second is empty where the iterator is `end()`.
pub mod Clock
pub mod Evict
pub mod Kept
pub mod Steps
pub mod Walks
pub mod Coherent
use sbfs.Prelude.{
  ℕ, zero, suc, ◌+◌, ◌-◌, ◌%◌, ◌^◌, Bool, true, false, Option, none, some, ◌==◌, ltb, if◌then◌else◌,
  List, [], ◌∷◌, ◌++◌, length, M,
}
use sbfs.Position.{Position, invalid}
use sbfs.Path.{Str, slash, tail, split, remove_end_slash, start_of, has_prefix}

-- An entry of the map: the key, and `PathCacheValue`.
pub record CacheEntry : Type 0 where
  pub key : Str
  pub inode : Position
  pub visited : Bool

pub record Resolver : Type 0 where
  pub before : List CacheEntry
  pub after : List CacheEntry
  pub cur_size : ℕ
  pub max_size : ℕ

abbrev pub entries : Resolver → List CacheEntry
entries r = r.before ++ r.after

pub new_resolver : (max_size : ℕ) → Resolver
new_resolver max_size = record { before = []; after = []; cur_size = 0; max_size = max_size }

-- `size() + sizeof(path_cache_key_t) + sizeof(path_cache_val_t)`, with the sizes of a `std::string`
-- and of the value on a 64-bit machine.
abbrev pub entry_size : Str → ℕ
entry_size key = length key + 32 + 24

-- `std::string::operator<` and `==`.
pub str_lt : Str → Str → Bool
str_lt s [] = false
str_lt [] (d ∷ t) = true
str_lt (c ∷ s) (d ∷ t) = let rest = str_lt s t in if c == d then rest else ltb c d

pub str_eq : Str → Str → Bool
str_eq [] [] = true
str_eq [] (d ∷ t) = false
str_eq (c ∷ s) [] = false
str_eq (c ∷ s) (d ∷ t) = let rest = str_eq s t in if c == d then rest else false

-- `find`, and the mark that a hit leaves.
pub find_key : Str → List CacheEntry → Option CacheEntry
unfolding str_eq
find_key key [] = none
find_key key (e ∷ es) = let rest = find_key key es in if str_eq e.key key then some e else rest

pub visit_key : Str → List CacheEntry → List CacheEntry
unfolding str_eq
visit_key key [] = []
visit_key key (e ∷ es) =
    (if str_eq e.key key then record e { visited = true } else e) ∷ visit_key key es

-- `path_cache_[key] = ...`, in the order of the keys.
pub put_entry : CacheEntry → List CacheEntry → List CacheEntry
unfolding str_eq str_lt
put_entry n [] = n ∷ []
put_entry n (e ∷ es) =
    let rest = put_entry n es in
    if str_eq e.key n.key then n ∷ es else if str_lt n.key e.key then n ∷ e ∷ es else e ∷ rest

-- The iterator stays at its entry: a new one goes before it or after it.
put_at : CacheEntry → Resolver → List CacheEntry → Resolver
unfolding put_entry
put_at n r [] = record r { before = put_entry n r.before }
put_at n r (e ∷ es) =
    if str_lt n.key e.key
    then record r { before = put_entry n r.before }
    else record r { after = put_entry n (e ∷ es) }

pub insert : CacheEntry → Resolver → Resolver
unfolding put_at
insert n r = put_at n r r.after

-- The two lists, with an iterator at the end moved to the first entry: the test at the start of a
-- round of `evict`, and what `next` does after its step.
pub wrap : (before after : List CacheEntry) → List CacheEntry × List CacheEntry
wrap before [] = ([], before)
wrap before (e ∷ es) = (before, e ∷ es)

abbrev pub unvisited : CacheEntry → CacheEntry
unvisited e = record e { visited = false }

-- The inner loop of `evict`: visited entries lose their mark, until one has none. Each round takes
-- a mark away.
pub advance : (fuel : ℕ) → (before after : List CacheEntry) → List CacheEntry × List CacheEntry
unfolding wrap
advance zero before after = (before, after)
advance (suc fuel) before [] = (before, [])
advance (suc fuel) before (e ∷ es) =
    let (before', after') = wrap (before ++ (unvisited e ∷ [])) es in
    let rest = advance fuel before' after' in if e.visited then rest else (before, e ∷ es)

-- The size of the entry at the iterator, which is erased, and the rest.
pub take_entry : List CacheEntry → ℕ × List CacheEntry
take_entry [] = (0, [])
take_entry (e ∷ es) = (entry_size e.key, es)

-- A round of the outer loop.
pub evict_one : (before after : List CacheEntry) → ℕ × List CacheEntry × List CacheEntry
unfolding wrap advance take_entry
evict_one before after =
    let (before', after') = wrap before after in
    let (before'', after'') = advance (length before + length after) before' after' in
    let (freed, rest) = take_entry after'' in (freed, before'', rest)

pub evict_from :
    (fuel size cur : ℕ) → (before after : List CacheEntry) → ℕ × List CacheEntry × List CacheEntry
unfolding evict_one
evict_from zero size cur before after = (cur, before, after)
evict_from (suc fuel) size cur before after =
    let (freed, before', after') = evict_one before after in
    let rest = evict_from fuel size (cur + freed) before' after' in
    if ltb cur size then rest else (cur, before, after)

-- As many rounds as there are entries are enough: each erases one.
pub evict : (size : ℕ) → Resolver → Resolver
unfolding evict_from
evict size r =
    let (cur, before, after) = evict_from (length (entries r)) size 0 r.before r.after in
    record r { before = before; after = after; cur_size = cur }

-- A step of `resolve` after `find`: the size to evict is a `size_t`, which wraps around.
pub remember : Str → Position → Resolver → Resolver
unfolding evict insert
remember key inode r =
    let size = (r.cur_size + entry_size key + 2 ^ 64 - r.max_size) % 2 ^ 64 in
    insert (record { key = key; inode = inode; visited = true })
      (if ltb 0 size then evict size r else r)

-- The loop of `removePrefix`, over each of the two lists: the keys before `lower_bound(start)` are
-- smaller than the prefix, so they do not have it. Where the entry at `clock_iter_` is erased, the
-- iterator of the source is left dangling; here it stands at the entry after that.
pub erase_keys : (start : Str) → List CacheEntry → List CacheEntry
erase_keys start [] = []
erase_keys start (e ∷ es) =
    let kept = erase_keys start es in if has_prefix start e.key then kept else e ∷ kept

-- `none` where `substr` throws.
pub remove_prefix : Str → Resolver → Option Resolver
unfolding erase_keys start_of
remove_prefix prefix r = elim (start_of prefix) [
  | none ↦ none
  | some start ↦
      some (record r { before = erase_keys start r.before; after = erase_keys start r.after })
]

-- The lookups in the cache, over the keys of the path: the longest that is there decides where to
-- go on, with the parts after it.
pub lookup_keys :
    List (Str × Str)
    → Position
    → List (Str × Str)
    → Resolver
    → (Position × List (Str × Str)) × Resolver
unfolding find_key visit_key
lookup_keys [] inode left r = ((inode, left), r)
lookup_keys ((part, key) ∷ steps) inode left r = elim (find_key key (entries r)) [
  | none ↦ lookup_keys steps inode left r
  | some e ↦
      lookup_keys steps e.inode steps
        (record r { before = visit_key key r.before; after = visit_key key r.after })
]

-- The parts of a path, each with its key in the cache.
pub path_steps : List Str → List Str → List (Str × Str)
path_steps [] keys = []
path_steps (p ∷ parts) [] = []
path_steps (p ∷ parts) (k ∷ keys) = (p, k) ∷ path_steps parts keys

abbrev pub steps_of : Str → List (Str × Str)
steps_of path =
    let s = tail (remove_end_slash path) in path_steps (split s slash false) (split s slash true)

-- `path[0] != '/'`, where an empty string has a 0 there.
unfoldable pub is_absolute : Str → Bool
is_absolute [] = false
is_absolute (c ∷ s) = c == slash

-- A resolver beside the device.
pub record Walk (S : Type 0) : Type 0 where
  pub resolver : Resolver
  pub dev : S

module _ {S : Type 0} (find : Position → Str → M S Position) (root : Position) where
  abbrev found :
      Option Position × S → (Position → S → Position × Walk S) → Resolver → Position × Walk S
  found (none, s) k r = (invalid, record { resolver = r; dev = s })
  found (some p, s) k r = k p s

  -- The loop over the parts that are left.
  pub resolve_from : List (Str × Str) → Position → Walk S → Position × Walk S
  unfolding remember
  resolve_from [] inode w = (inode, w)
  resolve_from ((part, key) ∷ steps) inode w =
      found (find inode part w.dev)
        (λ p s. resolve_from steps p (record { resolver = remember key p w.resolver; dev = s }))
        w.resolver

  unfoldable pub resolve : Str → Walk S → Position × Walk S
  unfolding is_absolute lookup_keys resolve_from
  resolve path w =
      if is_absolute path
      then (if str_eq path (slash ∷ [])
          then (root, w)
          else (let ((inode, left), r) =
                lookup_keys (steps_of path) root (steps_of path) w.resolver in
              resolve_from left inode (record { resolver = r; dev = w.dev })))
      else (invalid, w)

  abbrev reached : Option Position × S → (Position → S → Position × S) → Position × S
  reached (none, s) k = (invalid, s)
  reached (some p, s) k = k p s

  -- The loop of `resolveNoCache`.
  pub resolve_parts : List Str → Position → S → Position × S
  resolve_parts [] inode s = (inode, s)
  resolve_parts (part ∷ parts) inode s = reached (find inode part s) (resolve_parts parts)

  pub resolve_no_cache : Str → S → Position × S
  unfolding is_absolute resolve_parts
  resolve_no_cache path s =
      if is_absolute path
      then (if str_eq path (slash ∷ [])
          then (root, s)
          else resolve_parts (split (tail (remove_end_slash path)) slash false) root s)
      else (invalid, s)
