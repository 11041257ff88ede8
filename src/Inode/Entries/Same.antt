-- ===== src/Inode/Entries/Same.antt =====
-- Directories with the same bytes, and what is read from equal bytes at two places.
use mathlib.Core.Option.{none-ne-some}
use sbfs.Prelude.{
  ℕ, zero, suc, ◌+◌, ◌*◌, ◌/◌, ◌%◌, ◌≤◌, ◌<◌, ◌≡◌, refl, ◌∙◌, sym, ap, Option, none, some, length,
  [], ◌∷◌, ◌==◌, ◌&&◌, arith,
}
use sbfs.Block.{Block, block_size, get_le, get_le_congr}
use sbfs.Path.{Str}
use sbfs.Inode.Entries.{max_name, entry_bytes, entries_in_block, entry_inode, has_name}
use sbfs.Inode.Entries.Pages.{dir_has, dir_find, dir_inode, has_name-same}
use sbfs.Inode.Entries.Hits.{dir_lookup}

-- Byte `x` of the blocks.
abbrev pub byte_at : (ℕ → Block) → ℕ → ℕ
byte_at bytes x = bytes (x / block_size) (x % block_size)

abbrev pub Agree : (m : ℕ) → (ℕ → Block) → (ℕ → Block) → Type 0
Agree m B C = (x : ℕ) → x < m * entry_bytes → byte_at C x ≡ byte_at B x

-- Entry `k`, at its place in its block.
same_place :
    (B C : ℕ → Block) (k q : ℕ)
    → entry_bytes * (k % entries_in_block) ≤ q
    → q < entry_bytes * (k % entries_in_block) + entry_bytes
    → byte_at C (k / entries_in_block * block_size + q)
      ≡ byte_at B (k / entries_in_block * block_size + q)
    → C (k / entries_in_block) q ≡ B (k / entries_in_block) q
same_place B C k q l u h =
    let block : (k / entries_in_block * block_size + q) / block_size ≡ k / entries_in_block =
      omega arith in
    let place : (k / entries_in_block * block_size + q) % block_size ≡ q = omega arith in
    let at : (D : ℕ → Block)
        → byte_at D (k / entries_in_block * block_size + q) ≡ D (k / entries_in_block) q =
      λ D. λ i. D (block i) (place i) in
    sym (at C) ∙ h ∙ at B

module _ (m : ℕ) (B C : ℕ → Block) (same : Agree m B C) where
  dir_has-same :
      (name : Str) (k : ℕ) → length name ≤ max_name → k < m → dir_has C name k ≡ dir_has B name k
  unfolding dir_has
  dir_has-same name k h l =
      has_name-same name (C (k / entries_in_block)) (B (k / entries_in_block))
        (entry_bytes * (k % entries_in_block))
        (λ q low up. same_place B C k q low (omega arith) (same _ (omega arith)))

  dir_inode-same : (k : ℕ) → k < m → dir_inode C k ≡ dir_inode B k
  unfolding dir_inode entry_inode
  dir_inode-same k l =
      get_le_congr 4 (C (k / entries_in_block)) (B (k / entries_in_block)) _
        (λ q low up. same_place B C k q (omega arith) (omega arith) (same _ (omega arith)))

  pub dir_find-same :
      (name : Str) (n k : ℕ)
      → length name ≤ max_name
      → k + n ≤ m
      → dir_find n k C name ≡ dir_find n k B name
  unfolding dir_find
  dir_find-same name zero k h l = refl
  dir_find-same name (suc n) k h l =
      rw (dir_has-same name k h (omega arith), dir_find-same name n (k + 1) h (omega arith)) refl

-- The entry that is found lies in the range.
pub dir_find-lt :
    (n k y : ℕ) (bytes : ℕ → Block) (name : Str) → dir_find n k bytes name ≡ some y → y < k + n
unfolding dir_find
dir_find-lt zero k y bytes name h = absurd (none-ne-some y h)
dir_find-lt (suc n) k y bytes name h = ground (arith, dir_find-lt n (k + 1) y bytes name)

-- What is read from equal bytes at two places.
pub get_le-moved :
    (n : ℕ) (b c : Block) (o p : ℕ)
    → ((q : ℕ) → q < n → b (o + q) ≡ c (p + q))
    → get_le n b o ≡ get_le n c p
unfolding get_le
get_le-moved zero b c o p h = refl
get_le-moved (suc n) b c o p h =
    let first : b o ≡ c p =
      ap b {x = o} {y = o + 0} (omega arith) ∙ h 0 (omega arith) ∙ ap c (omega arith) in
    let rest = get_le-moved n b c (o + 1) (p + 1) λ q l.
      ap b {x = o + 1 + q} {y = o + (q + 1)} (omega arith)
      ∙ h (q + 1) (omega arith)
      ∙ ap c (omega arith) in
    λ i. first i + 256 * rest i

pub has_name-moved :
    (name : Str) (b c : Block) (o p : ℕ)
    → ((q : ℕ) → q ≤ length name → b (o + q) ≡ c (p + q))
    → has_name b o name ≡ has_name c p name
unfolding has_name
has_name-moved [] b c o p h =
    ap (λ x. x == 0)
      (ap b {x = o} {y = o + 0} (omega arith) ∙ h 0 (omega arith) ∙ ap c (omega arith))
has_name-moved (x ∷ name) b c o p h =
    let first : b o ≡ c p =
      ap b {x = o} {y = o + 0} (omega arith) ∙ h 0 (omega arith) ∙ ap c (omega arith) in
    let rest = has_name-moved name b c (o + 1) (p + 1) λ q l.
      ap b {x = o + 1 + q} {y = o + (q + 1)} (omega arith)
      ∙ h (q + 1) (omega arith)
      ∙ ap c (omega arith) in
    λ i. (first i == x) && rest i

abbrev pub id_at : (ℕ → Block) → Option ℕ → Option ℕ
id_at bytes none = none
id_at bytes (some k) = some (dir_inode bytes k)

pub id_at-same :
    (m : ℕ) (B C : ℕ → Block)
    → Agree m B C
    → (o : Option ℕ) → ((y : ℕ) → o ≡ some y → y < m)
    → id_at C o ≡ id_at B o
id_at-same m B C same none h = refl
id_at-same m B C same (some y) h = ap some (dir_inode-same m B C same y (h y refl))

-- Two lists of blocks with the same bytes are one directory.
pub dir_lookup-same :
    (m : ℕ) (B C : ℕ → Block) (name : Str)
    → Agree m B C
    → length name ≤ max_name
    → dir_lookup m C name ≡ dir_lookup m B name
unfolding dir_lookup
dir_lookup-same m B C name same h =
    ap (id_at C) (dir_find-same m B C same name m 0 h (omega arith))
    ∙ id_at-same m B C same (dir_find m 0 B name) (λ y e. omega (arith, dir_find-lt m 0 y B name e))
