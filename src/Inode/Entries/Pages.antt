-- ===== src/Inode/Entries/Pages.antt =====
-- The entries of a directory in the blocks of its file, against those in the buffer that the loops
-- over a directory read block after block.

use sbfs.Prelude.{
  ℕ, zero, suc, ◌+◌, ◌-◌, ◌*◌, ◌/◌, ◌%◌, ◌≤◌, ◌<◌, ◌≡◌, refl, ◌∙◌, ap, Bool, true, false, ◌==◌,
  ◌&&◌, if◌then◌else◌, leb, ltb, Option, none, some, [], ◌∷◌, length, min, arith,
}
use sbfs.Block.{Block, block_size, get_le_congr}
use sbfs.Path.{Str}
use sbfs.DiskInode.Data.Copy.{byte, file_copy, byte-block}
use sbfs.Inode.Entries.{max_name, entry_bytes, entries_in_block, entry_inode, fresh_block, has_name}
use sbfs.Inode.Entries.Names.{NulFree}

-- Entry `k` of a directory whose block `i` is `bytes i` has the name.
unfoldable pub dir_has : (ℕ → Block) → Str → (k : ℕ) → Bool
dir_has bytes name k =
    has_name (bytes (k / entries_in_block)) (entry_bytes * (k % entries_in_block)) name

-- The first of the `n` entries from entry `k` on that has the name.
unfoldable pub dir_find : (n k : ℕ) → (ℕ → Block) → Str → Option ℕ
unfolding dir_has
dir_find zero k bytes name = none
dir_find (suc n) k bytes name =
    let rest = dir_find n (k + 1) bytes name in if dir_has bytes name k then some k else rest

-- The inode's id in entry `k`.
unfoldable pub dir_inode : (ℕ → Block) → (k : ℕ) → ℕ
dir_inode bytes k = entry_inode (bytes (k / entries_in_block)) (k % entries_in_block)

-- No place of a buffer has the name.
abbrev pub Clean : Str → Block → Type 0
Clean name b = (j : ℕ) → j < entries_in_block → has_name b (entry_bytes * j) name ≡ false

pub fresh_block-Clean : (name : Str) → 0 < length name → NulFree name → Clean name fresh_block
unfolding has_name
fresh_block-Clean [] h n j u = absurd (omega arith)
fresh_block-Clean (c ∷ name) h n j u = ground (arith, n.0)

pub has_name-same :
    (name : Str) (b c : Block) (o : ℕ)
    → ((q : ℕ) → o ≤ q → q ≤ o + length name → b q ≡ c q)
    → has_name b o name ≡ has_name c o name
unfolding has_name
has_name-same [] b c o h = ap (λ x. x == 0) (h o (omega arith) (omega arith))
has_name-same (x ∷ name) b c o h =
    rw
      (
        h o (omega arith) (omega arith),
        has_name-same name b c (o + 1) (λ q l u. h q (omega arith) (omega arith)),
      )
      refl

-- The buffer after block `i` of a directory of `m` entries is read into it.
abbrev pub page : (m i : ℕ) → (ℕ → Block) → Block → Block
page m i bytes buf =
    file_copy (min block_size (m * entry_bytes - i * block_size)) (i * block_size) 0 bytes buf

module _ (m i : ℕ) (bytes : ℕ → Block) (buf : Block) (name : Str) where
  page-low :
      (q : ℕ)
      → q < min block_size (m * entry_bytes - i * block_size)
      → page m i bytes buf q ≡ bytes i q
  unfolding file_copy
  page-low q h =
      let test : (leb 0 q && ltb q (0 + min block_size (m * entry_bytes - i * block_size))) ≡ true =
        ground arith in
      let at : i * block_size + (q - 0) ≡ i * block_size + q = omega arith in
      rw test (ap (byte bytes) at ∙ byte-block bytes i q (omega arith))

  page-high :
      (q : ℕ) → min block_size (m * entry_bytes - i * block_size) ≤ q → page m i bytes buf q ≡ buf q
  unfolding file_copy
  page-high q h = ground arith

  quotient : (j : ℕ) → j < entries_in_block → (i * entries_in_block + j) / entries_in_block ≡ i
  quotient j h = omega arith

  remainder : (j : ℕ) → j < entries_in_block → (i * entries_in_block + j) % entries_in_block ≡ j
  remainder j h = omega arith

  pub page-has :
      (j : ℕ)
      → j < entries_in_block
      → i * entries_in_block + j < m
      → length name ≤ max_name
      → has_name (page m i bytes buf) (entry_bytes * j) name
        ≡ dir_has bytes name (i * entries_in_block + j)
  unfolding dir_has
  page-has j h k l =
      rw (quotient j h, remainder j h)
        (has_name-same name (page m i bytes buf) (bytes i) (entry_bytes * j)
          (λ q low up. page-low q (omega arith)))

  pub page-past :
      (j : ℕ)
      → m ≤ i * entries_in_block + j
      → has_name (page m i bytes buf) (entry_bytes * j) name ≡ has_name buf (entry_bytes * j) name
  page-past j h =
      has_name-same name (page m i bytes buf) buf (entry_bytes * j)
        (λ q low up. page-high q (omega arith))

  pub page-inode :
      (j : ℕ)
      → j < entries_in_block
      → i * entries_in_block + j < m
      → entry_inode (page m i bytes buf) j ≡ dir_inode bytes (i * entries_in_block + j)
  unfolding entry_inode dir_inode
  page-inode j h k =
      rw (quotient j h, remainder j h)
        (get_le_congr 4 (page m i bytes buf) (bytes i) (entry_bytes * j + max_name + 1)
          (λ q low up. page-low q (omega arith)))
