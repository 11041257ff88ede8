-- ===== src/Cache/Ring.antt =====
-- The pointers of the cache: how `LRU_add` and `LRU_remove` treat the slots in use, and why they
-- leave the chain of free slots alone. `U` stands for the set of the slots in use.
use sbfs.Prelude.{
  ℕ, ◌≡◌, ◌≢◌, refl, ◌∙◌, Bool, true, false, ◌||◌, Option, none, some, List, [], ◌∷◌, arith, ◌==◌,
  if◌then◌else◌, Bool-cases, inl, inr, ◌⊎◌,
}
use sbfs.Cache.{
  Slot, Cache, is_slot, or_else, modify, set_prev, set_next, init_slot, with_links, lru_add,
  lru_remove, touch,
}

abbrev pub has : ℕ → List ℕ → Bool
has a [] = false
has a (x ∷ xs) = (x == a) || has a xs

abbrev pub head : List ℕ → Option ℕ
head [] = none
head (x ∷ xs) = some x

-- A slot number is -1 or a slot in use.
abbrev pub OptIn : (ℕ → Type 0) → Option ℕ → Type 0
OptIn U none = Unit {0}
OptIn U (some s) = U s

-- From slot to slot through `next`.
abbrev pub Chain : (ℕ → Slot) → List ℕ → Type 0
Chain b [] = Unit {0}
Chain b (x ∷ xs) = ((b x).next ≡ head xs) × (has x xs ≡ false) × Chain b xs

-- What a buffer keeps when only pointers are written.
pub record Same (s t : Slot) : Type 0 where
  pub block : s.block ≡ t.block
  pub status : s.status ≡ t.status
  pub id : s.id ≡ t.id

abbrev pub SameAll : (ℕ → Slot) → (ℕ → Slot) → Type 0
SameAll b c = (s : ℕ) → Same (b s) (c s)

pub record Closed (U : ℕ → Type 0) (spare : List ℕ) (b : ℕ → Slot) : Type 0 where
  pub prevs : (s : ℕ) → U s → OptIn U (b s).prev
  pub nexts : (s : ℕ) → U s → OptIn U (b s).next
  pub apart : (s : ℕ) → U s → has s spare ≡ false
  pub chain : Chain b spare

pub record Ring (U : ℕ → Type 0) (spare : List ℕ) (c : Cache) : Type 0 where
  pub closed : Closed U spare c.buffer
  pub free : c.free_first ≡ head spare
  pub first : OptIn U c.lru_first
  pub last : OptIn U c.lru_last

Chain-frame :
    (b c : ℕ → Slot) (xs : List ℕ)
    → ((s : ℕ) → has s xs ≡ true → (c s).next ≡ (b s).next)
    → Chain b xs
    → Chain c xs
Chain-frame b c [] h k = tt
Chain-frame b c (x ∷ xs) h k =
    (h x (ground arith) ∙ k.0, k.1, Chain-frame b c xs (λ s m. h s (ground arith)) k.2)

OptIn-if :
    (U : ℕ → Type 0) (t : Bool) (a b : Option ℕ)
    → OptIn U a
    → OptIn U b
    → OptIn U (if t then a else b)
OptIn-if U true a b h k = h
OptIn-if U false a b h k = k

OptIn-or_else :
    (U : ℕ → Type 0) (o : Option ℕ) (s : ℕ) → OptIn U o → U s → OptIn U (or_else o (some s))
OptIn-or_else U none s h u = u
OptIn-or_else U (some t) s h u = h

pub OptIn-map : {U V : ℕ → Type 0} (o : Option ℕ) → ((s : ℕ) → U s → V s) → OptIn U o → OptIn V o
OptIn-map none f h = tt
OptIn-map (some s) f h = f s h

-- The sets of slots in use matter only by their elements.
pub Ring-iff :
    {U V : ℕ → Type 0} {spare : List ℕ} {c : Cache}
    → ((s : ℕ) → U s → V s)
    → ((s : ℕ) → V s → U s)
    → Ring U spare c
    → Ring V spare c
Ring-iff {c} f g r = record {
  closed = record {
    prevs = λ s v. OptIn-map (c.buffer s).prev f (r.closed.prevs s (g s v));
    nexts = λ s v. OptIn-map (c.buffer s).next f (r.closed.nexts s (g s v));
    apart = λ s v. r.closed.apart s (g s v);
    chain = r.closed.chain;
  };
  free = r.free;
  first = OptIn-map c.lru_first f r.first;
  last = OptIn-map c.lru_last f r.last;
}

module _ {U : ℕ → Type 0} {spare : List ℕ} where
  -- A write through a slot number of a slot in use.
  pub modify-Closed :
      {b : ℕ → Slot} (t : ℕ) (f : Slot → Slot)
      → U t
      → OptIn U (f (b t)).prev
      → OptIn U (f (b t)).next
      → Closed U spare b
      → Closed U spare (modify b t f)
  modify-Closed {b} t f u p n h = record {
    prevs = λ s us. at s us (λ x. OptIn U x.prev) p (h.prevs s us);
    nexts = λ s us. at s us (λ x. OptIn U x.next) n (h.nexts s us);
    apart = h.apart;
    chain = Chain-frame b (modify b t f) spare (λ s m. ground (arith, h.apart t u)) h.chain;
  }
    where
      at : (s : ℕ) → U s → (P : Slot → Type 0) → P (f (b t)) → P (b s) → P (modify b t f s)
      at s us P new old = elim (Bool-cases (t == s)) [ inl e ↦ rw e new | inr e ↦ rw e old ]

  set_prev-Closed :
      {b : ℕ → Slot} (o p : Option ℕ)
      → OptIn U o
      → OptIn U p
      → Closed U spare b
      → Closed U spare (set_prev b o p)
  set_prev-Closed none p u v h = h
  set_prev-Closed (some t) p u v h =
      modify-Closed t (λ s. with_links p s.next s) u v (h.nexts t u) h

  set_next-Closed :
      {b : ℕ → Slot} (o n : Option ℕ)
      → OptIn U o
      → OptIn U n
      → Closed U spare b
      → Closed U spare (set_next b o n)
  set_next-Closed none n u v h = h
  set_next-Closed (some t) n u v h =
      modify-Closed t (λ s. with_links s.prev n s) u (h.prevs t u) v h

  lru_remove-Ring : {c : Cache} (x : ℕ) → U x → Ring U spare c → Ring U spare (lru_remove x c)
  unfolding lru_remove
  lru_remove-Ring {c} x u r =
      let b = c.buffer in
      let b1 = set_prev b (b x).next (b x).prev in
      let k1 : Closed U spare b1 =
        set_prev-Closed (b x).next (b x).prev (r.closed.nexts x u) (r.closed.prevs x u) r.closed in
      let k2 = set_next-Closed (b1 x).prev (b1 x).next (k1.prevs x u) (k1.nexts x u) k1 in
      record {
        closed = modify-Closed x (with_links none none) u tt tt k2;
        free = r.free;
        first = OptIn-if U (is_slot c.lru_first x) _ _ (r.closed.nexts x u) r.first;
        last = OptIn-if U (is_slot c.lru_last x) _ _ (r.closed.prevs x u) r.last;
      }

  lru_add-Ring : {c : Cache} (x : ℕ) → U x → Ring U spare c → Ring U spare (lru_add x c)
  unfolding lru_add
  lru_add-Ring {c} x u r = record {
    closed =
        set_prev-Closed c.lru_first (some x) r.first u
          (modify-Closed x (with_links none c.lru_first) u tt r.first r.closed);
    free = r.free;
    first = u;
    last = OptIn-or_else U c.lru_last x r.last u;
  }

  pub touch-Ring : {c : Cache} (x : ℕ) → U x → Ring U spare c → Ring U spare (touch x c)
  unfolding touch
  touch-Ring x u r = lru_add-Ring x u (lru_remove-Ring x u r)

-- A slot that is initialised joins the slots in use.
pub adjoin-Closed :
    {V : ℕ → Type 0} {spare : List ℕ} (b : ℕ → Slot) (y : ℕ)
    → ((t : ℕ) → V t → OptIn V (b t).prev × OptIn V (b t).next)
    → ((t : ℕ) → V t → has t spare ≡ false)
    → has y spare ≡ false
    → Chain b spare
    → Closed (λ t. V t ⊎ (t ≡ y)) spare (modify b y init_slot)
adjoin-Closed {V} {spare} b y links apart out chain = record {
  prevs = λ t u. elim (Bool-cases (y == t)) [
    | inl e ↦ rw e tt
    | inr n ↦ rw n (OptIn-map (b t).prev (λ s v. inl v) (links t (old t u n)).0)
  ];
  nexts = λ t u. elim (Bool-cases (y == t)) [
    | inl e ↦ rw e tt
    | inr n ↦ rw n (OptIn-map (b t).next (λ s v. inl v) (links t (old t u n)).1)
  ];
  apart = λ t u. elim u [ inl v ↦ apart t v | inr e ↦ rw e out ];
  chain = Chain-frame b (modify b y init_slot) spare (λ s m. ground arith) chain;
}
  where
    old : (t : ℕ) → V t ⊎ (t ≡ y) → (y == t) ≡ false → V t
    old t (inl v) n = v
    old t (inr e) n = absurd (ground arith)

-- Pointers are all that the list operations write.
pub Same-trans : {a b c : Slot} → Same a b → Same b c → Same a c
Same-trans p q = record {
  block = p.block ∙ q.block;
  status = p.status ∙ q.status;
  id = p.id ∙ q.id;
}

links-Same : {p n : Option ℕ} (s : Slot) → Same (with_links p n s) s
links-Same s = record { block = refl; status = refl; id = refl }

modify-Same :
    (b : ℕ → Slot) (t : ℕ) (f : Slot → Slot)
    → ((s : Slot) → Same (f s) s)
    → SameAll (modify b t f) b
modify-Same b t f h s = ground (arith, h (b s))

set_prev-Same : (b : ℕ → Slot) (o p : Option ℕ) → SameAll (set_prev b o p) b
set_prev-Same b none p s = ground arith
set_prev-Same b (some t) p s = modify-Same b t (λ y. with_links p y.next y) (λ y. links-Same y) s

set_next-Same : (b : ℕ → Slot) (o n : Option ℕ) → SameAll (set_next b o n) b
set_next-Same b none n s = ground arith
set_next-Same b (some t) n s = modify-Same b t (λ y. with_links y.prev n y) (λ y. links-Same y) s

lru_remove-Same : (x : ℕ) (c : Cache) → SameAll (lru_remove x c).buffer c.buffer
unfolding lru_remove
lru_remove-Same x c s =
    let b = c.buffer in
    let b1 = set_prev b (b x).next (b x).prev in
    let b2 = set_next b1 (b1 x).prev (b1 x).next in
    Same-trans (modify-Same b2 x (with_links none none) links-Same s) (
      Same-trans (set_next-Same b1 (b1 x).prev (b1 x).next s)
        (set_prev-Same b (b x).next (b x).prev s))

lru_add-Same : (x : ℕ) (c : Cache) → SameAll (lru_add x c).buffer c.buffer
unfolding lru_add
lru_add-Same x c s =
    Same-trans
      (set_prev-Same (modify c.buffer x (with_links none c.lru_first)) c.lru_first (some x) s)
      (modify-Same c.buffer x (with_links none c.lru_first) links-Same s)

pub touch-Same : (x : ℕ) (c : Cache) → SameAll (touch x c).buffer c.buffer
unfolding touch
touch-Same x c s = Same-trans (lru_add-Same x (lru_remove x c) s) (lru_remove-Same x c s)

or_else-ne-none : (o : Option ℕ) (x : ℕ) → or_else o (some x) ≢ none
or_else-ne-none none x = λ h. cc
or_else-ne-none (some t) x = λ h. cc

-- The most recently used slot is the first, and there is a last one.
pub touch-ends :
    (x : ℕ) (c : Cache) → ((touch x c).lru_first ≡ some x) × ((touch x c).lru_last ≢ none)
unfolding touch lru_remove lru_add
touch-ends x c =
    (refl, or_else-ne-none (if is_slot c.lru_last x then (c.buffer x).prev else c.lru_last) x)

pub touch-table : (x : ℕ) (c : Cache) → (touch x c).table ≡ c.table
unfolding touch
touch-table x c = refl
