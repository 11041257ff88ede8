-- ===== src/Inode/Entries/Hits.antt =====
-- The entry that a loop over a directory finds, against the list of its entries.
use sbfs.Prelude.{
  ℕ, zero, suc, ◌+◌, ◌-◌, ◌*◌, ◌≤◌, ◌<◌, ◌≡◌, ◌≢◌, refl, ◌∙◌, sym, ap, Bool, true, false, ◌==◌,
  ==_iff, ltb, ltb→lt, not_ltb→le, Option, none, some, length, arith, Bool-cases, inl, inr,
}
use sbfs.Block.{Block}
use sbfs.Path.{Str}
use sbfs.Inode.Entries.{max_name, entry_bytes, entries_in_block, entry_inode, has_name}
use sbfs.Inode.Entries.Names.{IsFirst}
use sbfs.Inode.Entries.Pages.{
  dir_has, dir_find, dir_inode, Clean, page, page-has, page-past, page-inode,
}

-- The entry found is the first from block `i` on, or there is none.
unfoldable pub IsHit : (m i : ℕ) → (ℕ → Block) → Str → Option (ℕ × ℕ × Block) → Type 0
IsHit m i bytes name none =
    (k : ℕ) → i * entries_in_block ≤ k → k < m → dir_has bytes name k ≡ false
IsHit m i bytes name (some (x, j, b)) =
    (x * entries_in_block + j < m)
    × (dir_has bytes name (x * entries_in_block + j) ≡ true)
    × (entry_inode b j ≡ dir_inode bytes (x * entries_in_block + j))
    × ((k : ℕ)
        → i * entries_in_block ≤ k
        → k < x * entries_in_block + j
        → dir_has bytes name k ≡ false)

clash : {c : Bool} → c ≡ false → c ≡ true → ⊥
clash e h = ground arith

module _ (m i : ℕ) (bytes : ℕ → Block) (buf : Block) (name : Str) (short : length name ≤ max_name)
    (clean : Clean name buf) where
  abbrev here : Block
  here = page m i bytes buf

  -- An entry of block `i`.
  in_block :
      (n : ℕ)
      → ((j : ℕ) → j < n → has_name here (entry_bytes * j) name ≡ false)
      → n ≤ entries_in_block
      → (k : ℕ) → i * entries_in_block ≤ k
      → k < i * entries_in_block + n
      → k < m
      → dir_has bytes name k ≡ false
  in_block n h u k low up below =
      let j = k - i * entries_in_block in
      let at : i * entries_in_block + j ≡ k = omega arith in
      ap (dir_has bytes name) (sym at)
      ∙ sym (page-has m i bytes buf name j (omega arith) (omega arith) short)
      ∙ h j (omega arith)

  pub page-IsHit :
      (j : ℕ)
      → IsFirst entries_in_block 0 name here (some j)
      → IsHit m i bytes name (some (i, j, here))
  unfolding IsFirst IsHit
  page-IsHit j (_, u, f, h) =
      let inside : i * entries_in_block + j < m =
        elim (Bool-cases (ltb (i * entries_in_block + j) m)) [
          | inl p ↦ ltb→lt (i * entries_in_block + j) m p
          | inr p ↦
              let past =
                page-past m i bytes buf name j (not_ltb→le (i * entries_in_block + j) m p)
                ∙ clean j u in
              absurd (clash past f)
        ] in
      (
        inside,
        sym (page-has m i bytes buf name j u inside short) ∙ f,
        page-inode m i bytes buf name j u inside,
        λ k low up. in_block j (λ x y. h x (omega arith) y) (omega arith) k low up (omega arith),
      )

  pub page-Clean : IsFirst entries_in_block 0 name here none → Clean name here
  unfolding IsFirst
  page-Clean h = λ j u. h j (omega arith) u

  in_block_or_later :
      (n : ℕ)
      → Clean name here
      → n ≤ m
      → ((k : ℕ) → (i + 1) * entries_in_block ≤ k → k < n → dir_has bytes name k ≡ false)
      → (k : ℕ) → i * entries_in_block ≤ k
      → k < n
      → dir_has bytes name k ≡ false
  in_block_or_later n c le h k low up = elim (Bool-cases (ltb k ((i + 1) * entries_in_block))) [
    | inl p ↦
        let near = ltb→lt k ((i + 1) * entries_in_block) p in
        in_block entries_in_block c (omega arith) k low (omega arith) (omega arith)
    | inr p ↦ h k (not_ltb→le k ((i + 1) * entries_in_block) p) up
  ]

  pub IsHit-before :
      (o : Option (ℕ × ℕ × Block))
      → Clean name here
      → IsHit m (i + 1) bytes name o
      → IsHit m i bytes name o
  unfolding IsHit
  IsHit-before none c h = in_block_or_later m c (omega arith) h
  IsHit-before (some (x, j, b)) c (l, f, e, h) =
      (l, f, e, in_block_or_later (x * entries_in_block + j) c (omega arith) h)

-- The first entry with the name is what `dir_find` returns.
dir_find-none :
    (n k : ℕ) (bytes : ℕ → Block) (name : Str)
    → ((x : ℕ) → k ≤ x → x < k + n → dir_has bytes name x ≡ false)
    → dir_find n k bytes name ≡ none
unfolding dir_find
dir_find-none zero k bytes name h = refl
dir_find-none (suc n) k bytes name h =
    rw (h k (omega arith) (omega arith))
      (dir_find-none n (k + 1) bytes name (λ x l u. h x (omega arith) (omega arith)))

dir_find-some :
    (n k y : ℕ) (bytes : ℕ → Block) (name : Str)
    → k ≤ y
    → y < k + n
    → dir_has bytes name y ≡ true
    → ((x : ℕ) → k ≤ x → x < y → dir_has bytes name x ≡ false)
    → dir_find n k bytes name ≡ some y
unfolding dir_find
dir_find-some zero k y bytes name l u f h = absurd (omega arith)
dir_find-some (suc n) k y bytes name l u f h = elim (Bool-cases (k == y)) [
  | inl e ↦ let q = (==_iff k y).0 e in rw (q, f) refl
  | inr e ↦
      let ne : k ≢ y = ground arith in
      rw (h k (omega arith) (omega arith)) (
        dir_find-some n (k + 1) y bytes name (omega arith) (omega arith) f
          (λ x l u. h x (omega arith) u))
]

-- The directory as a map from names to ids.
unfoldable pub dir_lookup : (m : ℕ) → (ℕ → Block) → Str → Option ℕ
unfolding dir_find dir_inode
dir_lookup m bytes name = elim (dir_find m 0 bytes name) [
  | none ↦ none
  | some k ↦ some (dir_inode bytes k)
]

abbrev pub hit_inode : Option (ℕ × ℕ × Block) → Option ℕ
hit_inode none = none
hit_inode (some (x, j, b)) = some (entry_inode b j)

pub hit_inode-dir_lookup :
    (m : ℕ) (bytes : ℕ → Block) (name : Str) (o : Option (ℕ × ℕ × Block))
    → IsHit m 0 bytes name o
    → hit_inode o ≡ dir_lookup m bytes name
unfolding IsHit dir_lookup
hit_inode-dir_lookup m bytes name none h =
    sym (
      rw (dir_lookup, dir_find-none m 0 bytes name (λ x l u. h x (omega arith) (omega arith))) refl)
hit_inode-dir_lookup m bytes name (some (x, j, b)) (l, f, e, h) =
    ap some e
    ∙ sym (
        rw
          (
            dir_lookup,
            dir_find-some m 0 (x * entries_in_block + j) bytes name (omega arith) (omega arith) f
                (λ x l u. h x (omega arith) u),
          )
          refl)
