-- ===== src/Inode/Entries/Appended.antt =====
-- A directory with a new entry behind its entries, as a map from names to ids.
use mathlib.Core.Option.{none-ne-some}
use sbfs.Prelude.{
  ℕ, zero, suc, ◌+◌, ◌*◌, ◌/◌, ◌%◌, ◌^◌, ◌≤◌, ◌<◌, ◌≡◌, ◌≢◌, refl, ◌∙◌, sym, ap, Bool, true, false,
  if◌then◌else◌, Option, none, some, length, arith, Bool-cases, inl, inr,
}
use sbfs.Block.{Block, block_size}
use sbfs.Path.{Str}
use sbfs.Inode.Entries.{max_name, entry_bytes, entries_in_block, new_entry, entry_inode, has_name}
use sbfs.Inode.Entries.Names.{NulFree, has_name-new_entry}
use sbfs.Inode.Entries.Pages.{dir_has, dir_find, dir_inode}
use sbfs.Inode.Entries.Hits.{dir_lookup}
use sbfs.Inode.Entries.Same.{
  byte_at, Agree, dir_find-same, dir_find-lt, get_le-moved, has_name-moved, id_at, id_at-same,
}

abbrev or_else : Option ℕ → Option ℕ → Option ℕ
or_else none d = d
or_else (some y) d = some y

abbrev at_last : (ℕ → Block) → Str → ℕ → Option ℕ
at_last bytes name k = if dir_has bytes name k then some k else none

or_else-if :
    (c : Bool) (k : ℕ) (o d : Option ℕ)
    → (if c then some k else or_else o d) ≡ or_else (if c then some k else o) d
or_else-if true k o d = refl
or_else-if false k o d = refl

-- The last entry counts where no other has the name.
dir_find-last :
    (n k : ℕ) (bytes : ℕ → Block) (name : Str)
    → dir_find (suc n) k bytes name ≡ or_else (dir_find n k bytes name) (at_last bytes name (k + n))
unfolding dir_find
dir_find-last zero k bytes name = ap (at_last bytes name) (omega arith)
dir_find-last (suc n) k bytes name =
    ap (λ r. if dir_has bytes name k then some k else r) (dir_find-last n (k + 1) bytes name)
    ∙ ap
        (λ z.
          if dir_has bytes name k
          then some k
          else or_else (dir_find n (k + 1) bytes name) (at_last bytes name z))
        {x = k + 1 + n} {y = k + suc n} (omega arith)
    ∙ or_else-if (dir_has bytes name k) k (dir_find n (k + 1) bytes name)
        (at_last bytes name (k + suc n))

or_else-none : (o : Option ℕ) → or_else o none ≡ o
or_else-none none = refl
or_else-none (some y) = refl

id_at-none : (bytes : ℕ → Block) (o : Option ℕ) → id_at bytes o ≡ none → o ≡ none
id_at-none bytes none e = refl
id_at-none bytes (some k) e = absurd (none-ne-some (dir_inode bytes k) (sym e))

module _ (m : ℕ) (B C : ℕ → Block) (same : Agree m B C) (name : Str) (id : ℕ)
    (short : length name ≤ max_name) (small : id < 2 ^ 32) (nul : NulFree name)
    (last : (q : ℕ) → q < entry_bytes → byte_at C (m * entry_bytes + q) ≡ new_entry name id q) where
  last-place :
      (q : ℕ)
      → q < entry_bytes
      → C (m / entries_in_block) (entry_bytes * (m % entries_in_block) + q) ≡ new_entry name id q
  last-place q h =
      let block : (m * entry_bytes + q) / block_size ≡ m / entries_in_block = omega arith in
      let place : (m * entry_bytes + q) % block_size ≡ entry_bytes * (m % entries_in_block) + q =
        omega arith in
      (λ i. C (sym block i) (sym place i)) ∙ last q h

  last-inode : dir_inode C m ≡ id
  unfolding dir_inode entry_inode
  last-inode =
      get_le-moved 4 (C (m / entries_in_block)) (new_entry name id)
        (entry_bytes * (m % entries_in_block) + max_name + 1) (entry_bytes * 0 + max_name + 1)
        (λ q l.
          ap (C (m / entries_in_block)) (omega arith)
          ∙ last-place (max_name + 1 + q) (omega arith)
          ∙ ap (new_entry name id) (omega arith))
      ∙ (has_name-new_entry name name id short small nul nul).1

  last-has :
      (other : Str)
      → length other ≤ max_name
      → dir_has C other m ≡ has_name (new_entry name id) 0 other
  unfolding dir_has
  last-has other h =
      has_name-moved other (C (m / entries_in_block)) (new_entry name id)
        (entry_bytes * (m % entries_in_block)) 0
        (λ q l. last-place q (omega arith) ∙ ap (new_entry name id) (omega arith))

  find-or_else :
      (other : Str)
      → length other ≤ max_name
      → dir_find (suc m) 0 C other ≡ or_else (dir_find m 0 B other) (at_last C other m)
  find-or_else other h =
      dir_find-last m 0 C other
      ∙ ap (λ k. or_else (dir_find m 0 C other) (at_last C other k)) {x = 0 + m} {y = m}
          (omega arith)
      ∙ ap (λ o. or_else o (at_last C other m)) (dir_find-same m B C same other m 0 h (omega arith))

  others :
      (other : Str)
      → length other ≤ max_name
      → dir_has C other m ≡ false
      → dir_lookup (suc m) C other ≡ dir_lookup m B other
  unfolding dir_lookup
  others other h absent =
      ap (id_at C) (
        find-or_else other h
        ∙ ap (λ c. or_else (dir_find m 0 B other) (if c then some m else none)) absent
        ∙ or_else-none (dir_find m 0 B other))
      ∙ id_at-same m B C same (dir_find m 0 B other)
          (λ y e. omega (arith, dir_find-lt m 0 y B other e))

  appended :
      dir_has C name m ≡ true → dir_lookup m B name ≡ none → dir_lookup (suc m) C name ≡ some id
  unfolding dir_lookup
  appended yes_last e =
      ap (id_at C) (
        find-or_else name short
        ∙ ap (λ c. or_else (dir_find m 0 B name) (if c then some m else none)) yes_last
        ∙ ap (λ o. or_else o (some m)) (id_at-none B (dir_find m 0 B name) e))
      ∙ ap some last-inode

  -- The new name is found where no entry had it, and each other name as before.
  pub dir_lookup-append :
      (other : Str)
      → length other ≤ max_name
      → NulFree other
      → (other ≢ name → dir_lookup (suc m) C other ≡ dir_lookup m B other)
        × (dir_lookup m B name ≡ none → dir_lookup (suc m) C name ≡ some id)
  dir_lookup-append other h n =
      let iff = (has_name-new_entry name other id short small nul n).0 in
      (
        λ ne. others other h (
            last-has other h ∙ elim (Bool-cases (has_name (new_entry name id) 0 other)) [
              | inl p ↦ absurd (ne (iff.0 p))
              | inr p ↦ p
            ]),
        appended
            (last-has name short ∙ (has_name-new_entry name name id short small nul nul).0.1 refl),
      )
