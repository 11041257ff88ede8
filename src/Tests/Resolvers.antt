-- ===== src/Tests/Resolvers.antt =====
-- The theorems on the path cache, at a tree of two directories with one path in the cache.
use sbfs.Prelude.{
  All, List, ℕ, ◌+◌, ◌≡◌, refl, ◌⊎◌, ◌≤◌, true, none, some, [], ◌∷◌, ◌==◌, if◌then◌else◌, M, arith,
}
use sbfs.Position.{Position}
use sbfs.Path.{Str, split, split_from}
use sbfs.Resolver.{Resolver, Walk, entries, evict, remember, resolve, resolve_no_cache}
use sbfs.Resolver.Clock.{total}
use sbfs.Resolver.Evict.{evict-ends, remember-alone}
use sbfs.Resolver.Walks.{Tree, walk}
use sbfs.Resolver.Coherent.{Coherent, walk_path, parts_of, resolve-walk_path}

abbrev root : Position
root = record { block_id = 2; block_offset = 0 }

abbrev child : ℕ → Position
child c = record { block_id = 2; block_offset = c }

-- Every directory has the children of one character but `x`.
abbrev tree : Tree
tree p [] = none
tree p (c ∷ s) = if c == 120 then none else some (child c)

-- The state counts the calls.
abbrev find : Position → Str → M ℕ Position
find p n s = (tree p n, s + 1)

abbrev resolver : Resolver
resolver = record {
  before = [];
  after = record { key = 97 ∷ []; inode = child 97; visited = true } ∷ [];
  cur_size = 57;
  max_size = 1000;
}

resolver-Coherent : Coherent tree root resolver
unfolding walk split split_from
resolver-Coherent = (tt, (refl, tt))

abbrev start : Walk ℕ
start = record { resolver = resolver; dev = 0 }

-- `/a/b`.
abbrev path : Str
path = 47 ∷ 97 ∷ 47 ∷ 98 ∷ []

all_names : (ns : List Str) → All (λ n. Unit {0}) ns
all_names [] = tt
all_names (n ∷ ns) = (tt, all_names ns)

resolve-walk_path_example :
    ((resolve find root path start).0 ≡ walk_path tree root path)
    × ((resolve_no_cache find root path 0).0 ≡ walk_path tree root path)
    × Unit {0}
    × Coherent tree root (resolve find root path start).1.resolver
resolve-walk_path_example =
    resolve-walk_path find tree (λ s. Unit {0}) (λ p. Unit {0}) (λ n. Unit {0})
      (λ p n s h k g. (refl, tt)) (λ p n q h e. tt) root tt path start (all_names (parts_of path))
      tt resolver-Coherent

evict-ends_example :
    ((10 ≤ (evict 10 resolver).cur_size) ⊎ (entries (evict 10 resolver) ≡ []))
    × ((evict 10 resolver).cur_size + total (entries (evict 10 resolver))
        ≡ total (entries resolver))
evict-ends_example = evict-ends 10 resolver

remember-alone_example :
    entries (remember (97 ∷ 47 ∷ 98 ∷ []) (child 98) resolver)
    ≡ record { key = 97 ∷ 47 ∷ 98 ∷ []; inode = child 98; visited = true } ∷ []
unfolding total
remember-alone_example =
    remember-alone (97 ∷ 47 ∷ 98 ∷ []) (child 98) resolver (omega arith) (omega arith)
