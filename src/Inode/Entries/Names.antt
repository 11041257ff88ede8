-- ===== src/Inode/Entries/Names.antt =====
-- The names of directory entries: what the constructor of `DirEntry` writes against `strcmp`, and
-- the entry that a scan of a block finds.
use sbfs.Prelude.{
  ℕ, zero, suc, ◌+◌, ◌*◌, ◌^◌, ◌≤◌, ◌<◌, ◌≡◌, refl, ◌∙◌, sym, ap, ◌↔◌, ◌≢◌, inl, inr, true, false,
  ◌==◌, Option, none, some, [], ◌∷◌, length, take, take_all, All, arith, Bool-cases, update,
  update_self, update_ne, ==_iff,
}
use sbfs.Block.{Block, put_le, put_le-below, get_le-put_le_self}
use sbfs.Path.{Str}
use sbfs.Inode.Entries.{
  max_name, entry_bytes, put_string, new_entry, entry_inode, has_name, find_entry,
}

-- A C string has no NUL before its end.
abbrev pub NulFree : Str → Type 0
NulFree = All (λ c. (c == 0) ≡ false)

-- The bytes at an offset are a C string.
abbrev Text : Block → ℕ → Str → Type 0
Text b o [] = b o ≡ 0
Text b o (c ∷ s) = (b o ≡ c) × Text b (o + 1) s

put_string-below : (s : Str) (b : Block) (o q : ℕ) → q < o → put_string s b o q ≡ b q
unfolding put_string
put_string-below [] b o q h = refl
put_string-below (c ∷ s) b o q h =
    put_string-below s (update b o c) (o + 1) q (omega arith) ∙ update_ne b c (omega arith)

put_string-Text :
    (s : Str) (b : Block) (o : ℕ) → ((q : ℕ) → o ≤ q → b q ≡ 0) → Text (put_string s b o) o s
unfolding put_string
put_string-Text [] b o h = h o (omega arith)
put_string-Text (c ∷ s) b o h = (
  put_string-below s (update b o c) (o + 1) o (omega arith) ∙ update_self b o c,
  put_string-Text s (update b o c) (o + 1) (λ q l. update_ne b c (omega arith) ∙ h q (omega arith)),
)

Text-cong :
    (s : Str) (b c : Block) (o : ℕ)
    → ((q : ℕ) → q ≤ o + length s → b q ≡ c q)
    → Text c o s
    → Text b o s
Text-cong [] b c o h t = h o (omega arith) ∙ t
Text-cong (x ∷ s) b c o h (e, t) =
    (h o (omega arith) ∙ e, Text-cong s b c (o + 1) (λ q l. h q (omega arith)) t)

-- `strcmp` compares the strings.
has_name_iff :
    (b : Block) (o : ℕ) (name other : Str)
    → Text b o name
    → NulFree name
    → NulFree other
    → (has_name b o other ≡ true) ↔ (other ≡ name)
unfolding has_name
has_name_iff b o [] [] t n m = (λ h. refl, λ e. ground (arith, t))
has_name_iff b o [] (d ∷ other) t n m = ground (arith, t, m)
has_name_iff b o (c ∷ name) [] t n m = ground (arith, t, n)
has_name_iff b o (c ∷ name) (d ∷ other) t n m =
    let rest = has_name_iff b (o + 1) name other t.1 n.1 m.1 in ground (arith, t, n, m, rest)

-- The entry that the constructor makes for a name of at most 251 characters without a NUL, and for
-- an inode's id of 32 bits, has by `strcmp` that name and no other, and has the id.
pub has_name-new_entry :
    (name other : Str) (id : ℕ)
    → length name ≤ max_name
    → id < 2 ^ 32
    → NulFree name
    → NulFree other
    → ((has_name (new_entry name id) 0 other ≡ true) ↔ (other ≡ name))
      × (entry_inode (new_entry name id) 0 ≡ id)
unfolding new_entry entry_inode
has_name-new_entry name other id l k n m =
    let b = put_string (take max_name name) (λ o. 0) 0 in
    let t : Text b 0 name =
      rw (take_all max_name name l) (put_string-Text name (λ o. 0) 0 (λ q h. refl)) in
    (
      has_name_iff (new_entry name id) 0 name other
          (Text-cong name (put_le 4 b (max_name + 1) id) b 0
            (λ q h. put_le-below 4 b (max_name + 1) id q (omega arith)) t)
          n m,
      get_le-put_le_self 4 b (max_name + 1) id k,
    )

-- The first of the `n` entries from entry `j` on, or none.
unfoldable pub IsFirst : (n j : ℕ) → Str → Block → Option ℕ → Type 0
IsFirst n j name b none = (i : ℕ) → j ≤ i → i < j + n → has_name b (entry_bytes * i) name ≡ false
IsFirst n j name b (some k) =
    (j ≤ k)
    × (k < j + n)
    × (has_name b (entry_bytes * k) name ≡ true)
    × ((i : ℕ) → j ≤ i → i < k → has_name b (entry_bytes * i) name ≡ false)

other_or_later :
    (j n : ℕ) (name : Str) (b : Block)
    → has_name b (entry_bytes * j) name ≡ false
    → ((i : ℕ) → j + 1 ≤ i → i < n → has_name b (entry_bytes * i) name ≡ false)
    → (i : ℕ) → j ≤ i
    → i < n
    → has_name b (entry_bytes * i) name ≡ false
other_or_later j n name b e h i l u = elim (Bool-cases (j == i)) [
  | inl q ↦ ap (λ x. has_name b (entry_bytes * x) name) (sym ((==_iff j i).0 q)) ∙ e
  | inr q ↦ let ne : j ≢ i = ground arith in h i (omega arith) u
]

IsFirst-before :
    (n j : ℕ) (name : Str) (b : Block) (o : Option ℕ)
    → has_name b (entry_bytes * j) name ≡ false
    → IsFirst n (j + 1) name b o
    → IsFirst (suc n) j name b o
unfolding IsFirst
IsFirst-before n j name b none e h =
    λ i l u. other_or_later j (j + suc n) name b e (λ i l' u'. h i l' (omega arith)) i l u
IsFirst-before n j name b (some k) e (l, u, f, h) =
    (omega arith, omega arith, f, other_or_later j k name b e h)

-- The scan of a block returns the first of its entries that has the name; where it returns none,
-- no entry has it.
pub find_entry-IsFirst :
    (n j : ℕ) (name : Str) (b : Block) → IsFirst n j name b (find_entry n j name b)
unfolding find_entry IsFirst
find_entry-IsFirst zero j name b = λ i h k. absurd (omega arith)
find_entry-IsFirst (suc n) j name b = elim (Bool-cases (has_name b (entry_bytes * j) name)) [
  | inl e ↦ rw e (omega arith, omega arith, e, λ i l u. absurd (omega arith))
  | inr e ↦ rw e (
      IsFirst-before n j name b (find_entry n (j + 1) name b) e
        (find_entry-IsFirst n (j + 1) name b))
]
