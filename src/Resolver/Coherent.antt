-- ===== src/Resolver/Coherent.antt =====
-- `resolve` with the path cache, and `resolveNoCache`, against the walk along a tree of directories.
use mathlib.Core.Path.{subst}
use mathlib.Core.Option.{some-injective, none-ne-some}
use mathlib.Core.List.{append_assoc}
use sbfs.Prelude.{
  ◌≡◌, refl, sym, ap, ◌∙◌, false, Option, some, List, [], ◌∷◌, ◌++◌, Bool-cases, Option-cases, inl,
  inr, All-append, All-split, All, none, if◌then◌else◌, map, M,
}
use sbfs.Position.{Position, invalid}
use sbfs.Path.{Str, slash, tail, split, remove_end_slash}
use sbfs.Resolver.{
  Resolver, Walk, entries, find_key, visit_key, str_eq, lookup_keys, steps_of, is_absolute,
  remember, resolve_from, resolve, resolve_parts, resolve_no_cache,
}
use sbfs.Resolver.Kept.{Holds, Kept, remember-Kept, visit_key-All}
use sbfs.Resolver.Steps.{Keyed, split-Keyed, parts-path_steps}
use sbfs.Resolver.Walks.{Tree, walk, walk-append, or_invalid, find_key-found}

-- The cache keeps a key beside the inode that its parts lead to.
abbrev pub Leads : Tree → (root : Position) → Str → Position → Type 0
Leads tree root key inode = walk tree (split key slash false) root ≡ some inode

abbrev pub Coherent : Tree → (root : Position) → Resolver → Type 0
Coherent tree root = Kept (Leads tree root)

abbrev names : List (Str × Str) → List Str
names steps = map (λ x. x.0) steps

-- Where the lookups leave the path: the parts that are left start at an inode that the others lead
-- to.
record Ready (tree : Tree) (root : Position) (full : List Str)
    (x : (Position × List (Str × Str)) × Resolver) : Type 0 where
  done : List Str
  keyed : Keyed slash done x.0.1
  reached : walk tree done root ≡ some x.0.0
  all : done ++ names x.0.1 ≡ full
  kept : Coherent tree root x.1

lookup_keys-Ready :
    (tree : Tree) (root : Position) (full passed : List Str) (steps : List (Str × Str))
    (inode : Position) (left : List (Str × Str)) (r : Resolver)
    → Keyed slash passed steps
    → passed ++ names steps ≡ full
    → Ready tree root full ((inode, left), r)
    → Ready tree root full (lookup_keys steps inode left r)
unfolding lookup_keys Keyed
lookup_keys-Ready tree root full passed [] inode left r k e h = h
lookup_keys-Ready tree root full passed ((part, key) ∷ steps) inode left r (k, ks) e h =
    let e' : (passed ++ (part ∷ [])) ++ names steps ≡ full =
      append_assoc passed (part ∷ []) (names steps) ∙ e in
    elim (Option-cases (find_key key (entries r))) [
      | inl f ↦
          rw (lookup_keys, f)
            (lookup_keys-Ready tree root full (passed ++ (part ∷ [])) steps inode left r ks e' h)
      | inr (x, f) ↦
          let P = Leads tree root in
          let (same, leads) =
            find_key-found (Holds P) key (entries r) x
              (All-append (Holds P) r.before r.after h.kept.0 h.kept.1) f in
          rw (lookup_keys, f)
            (lookup_keys-Ready tree root full (passed ++ (part ∷ [])) steps x.inode steps
              (record r { before = visit_key key r.before; after = visit_key key r.after }) ks e'
              (record {
                done = passed ++ (part ∷ []);
                keyed = ks;
                reached =
                    ap (λ ps. walk tree ps root) (sym k ∙ ap (λ y. split y slash false) (sym same))
                    ∙ leads;
                all = e';
                kept =
                    (visit_key-All P key r.before h.kept.0, visit_key-All P key r.after h.kept.1);
              }))
    ]

-- The reference: the walk along the tree from the root, without a cache.
unfoldable pub walk_path : Tree → (root : Position) → Str → Position
unfolding is_absolute walk
walk_path tree root path =
    if is_absolute path
    then (if str_eq path (slash ∷ [])
        then root
        else or_invalid (walk tree (split (tail (remove_end_slash path)) slash false) root))
    else invalid

-- The parts of a path.
abbrev pub parts_of : Str → List Str
parts_of path = split (tail (remove_end_slash path)) slash false

-- `Place` holds at the root and at what the tree leads to from such a place; `Name` of the names
-- that `find` is asked for.
module _ {S : Type 0} (find : Position → Str → M S Position) (tree : Tree) (Good : S → Type 0)
    (Place : Position → Type 0) (Name : Str → Type 0)
    (finds : (p : Position) (n : Str) (s : S)
      → Place p
      → Name n
      → Good s
      → ((find p n s).0 ≡ tree p n) × Good (find p n s).1)
    (places : (p : Position) (n : Str) (q : Position) → Place p → tree p n ≡ some q → Place q)
    (root : Position) (start : Place root) where
  walk-Place : (ns : List Str) (p q : Position) → Place p → walk tree ns p ≡ some q → Place q
  unfolding walk
  walk-Place [] p q h e = subst Place (some-injective p q e) h
  walk-Place (n ∷ ns) p q h e = elim (Option-cases (tree p n)) [
    | inl f ↦
        let stops : walk tree (n ∷ ns) p ≡ none = rw (walk, f) refl in
        absurd (none-ne-some q (sym stops ∙ e))
    | inr (r, f) ↦
        let goes_on : walk tree (n ∷ ns) p ≡ walk tree ns r = rw (walk, f) refl in
        walk-Place ns r q (places p n r h f) (sym goes_on ∙ e)
  ]

  record Resolved (target : Option Position) (x : Position × Walk S) : Type 0 where
    inode : x.0 ≡ or_invalid target
    good : Good x.1.dev
    kept : Coherent tree root x.1.resolver

  resolve_from-Resolved :
      (steps : List (Str × Str)) (done : List Str) (inode : Position) (w : Walk S)
      → All Name (names steps)
      → Keyed slash done steps
      → walk tree done root ≡ some inode
      → Good w.dev
      → Coherent tree root w.resolver
      → Resolved (walk tree (names steps) inode) (resolve_from find root steps inode w)
  unfolding resolve_from Keyed walk
  resolve_from-Resolved [] done inode w ok k l g c = record { inode = refl; good = g; kept = c }
  resolve_from-Resolved ((part, key) ∷ steps) done inode w (ok, oks) (k, ks) l g c =
      let (o, s) = find inode part w.dev in
      let (e, g') = finds inode part w.dev (walk-Place done root inode start l) ok g in
      elim (Option-cases o) [
        | inl f ↦ rw (f, sym e ∙ f) (record { inode = refl; good = g'; kept = c })
        | inr (p, f) ↦
            let there : walk tree (done ++ (part ∷ [])) root ≡ some p =
              walk-append tree done (part ∷ []) root inode l ∙ rw (walk, sym e ∙ f) refl in
            rw (f, sym e ∙ f)
              (resolve_from-Resolved steps (done ++ (part ∷ [])) p
                (record { resolver = remember key p w.resolver; dev = s }) oks ks there g'
                (remember-Kept (Leads tree root) key p w.resolver
                  (ap (λ ps. walk tree ps root) k ∙ there) c))
      ]

  resolve_parts-Good :
      (parts : List Str) (p : Position) (s : S)
      → All Name parts
      → Place p
      → Good s
      → (resolve_parts find root parts p s).0 ≡ or_invalid (walk tree parts p)
  unfolding resolve_parts walk
  resolve_parts-Good [] p s ok h g = refl
  resolve_parts-Good (part ∷ parts) p s (ok, oks) h g =
      let (o, s') = find p part s in
      let (e, g') = finds p part s h ok g in
      elim (Option-cases o) [
        | inl f ↦ rw (f, walk, sym e ∙ f) refl
        | inr (q, f) ↦
            rw (f, walk, sym e ∙ f)
              (resolve_parts-Good parts q s' oks (places p part q h (sym e ∙ f)) g')
      ]

  -- The walk over the parts, from where the lookups in the cache end.
  resolve_left-Resolved :
      (path : Str) (w : Walk S)
      → All Name (parts_of path)
      → Good w.dev
      → Coherent tree root w.resolver
      → let ((inode, left), r) = lookup_keys (steps_of path) root (steps_of path) w.resolver in
        Resolved
          (walk tree (parts_of path) root)
          (resolve_from find root left inode (record { resolver = r; dev = w.dev }))
  unfolding walk
  resolve_left-Resolved path w ok g c =
      let s = tail (remove_end_slash path) in
      let full = parts_of path in
      let x =
        lookup_keys-Ready tree root full [] (steps_of path) root (steps_of path) w.resolver
          (split-Keyed slash s) (parts-path_steps slash s)
          (record {
            done = [];
            keyed = split-Keyed slash s;
            reached = refl;
            all = parts-path_steps slash s;
            kept = c;
          }) in
      let ((inode, left), r) = lookup_keys (steps_of path) root (steps_of path) w.resolver in
      let y =
        resolve_from-Resolved left x.done inode (record { resolver = r; dev = w.dev })
          (All-split Name x.done (names left) (subst (All Name) (sym x.all) ok)).1 x.keyed x.reached
          g x.kept in
      let same : walk tree (names left) inode ≡ walk tree full root =
        sym (walk-append tree x.done (names left) root inode x.reached)
        ∙ ap (λ ps. walk tree ps root) x.all in
      record { inode = y.inode ∙ ap or_invalid same; good = y.good; kept = y.kept }

  -- Where `find` reads a tree for the names of the path, at the root and at all that the tree
  -- leads to from there, in every good state and leaves a good one, and each key of the cache
  -- stands with the inode that its parts lead to, `resolve` answers with the walk along the tree,
  -- as `resolveNoCache` does, whatever the cache holds or evicts. The state stays good, and the
  -- keys stand with their inodes again.
  pub resolve-walk_path :
      (path : Str) (w : Walk S)
      → All Name (parts_of path)
      → Good w.dev
      → Coherent tree root w.resolver
      → ((resolve find root path w).0 ≡ walk_path tree root path)
        × ((resolve_no_cache find root path w.dev).0 ≡ walk_path tree root path)
        × Good (resolve find root path w).1.dev
        × Coherent tree root (resolve find root path w).1.resolver
  unfolding resolve resolve_no_cache walk_path
  resolve-walk_path path w ok g c = elim (Bool-cases (is_absolute path)) [
    | inr n ↦ rw n (refl, refl, g, c)
    | inl a ↦ elim (Bool-cases (str_eq path (slash ∷ []))) [
      | inl b ↦ rw (a, b) (refl, refl, g, c)
      | inr b ↦
          let y = resolve_left-Resolved path w ok g c in
          rw (a, b)
            (y.inode, resolve_parts-Good (parts_of path) root w.dev ok start g, y.good, y.kept)
    ]
  ]
