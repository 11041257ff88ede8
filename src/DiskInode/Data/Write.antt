-- ===== src/DiskInode/Data/Write.antt =====
-- What `write_data` leaves in the blocks of a file.
use mathlib.Core.Path.{subst}
use sbfs.Prelude.{
  ℕ, ◌+◌, ◌-◌, ◌*◌, ◌≤◌, ◌<◌, ◌≡◌, ◌≢◌, refl, ◌∙◌, sym, ◌==◌, ◌&&◌, ==_iff, ==_refl, ==_of_ne, leb,
  ltb, if◌then◌else◌, Option, some, arith, inl, inr, Bool-cases, not_ltb→le, ltb→lt,
}
use sbfs.Block.{Block, block_size}
use sbfs.Store.{BlockStore}
use sbfs.DiskInode.{DiskInode}
use sbfs.DiskInode.Lookup.{Located}
use sbfs.DiskInode.Data.{copy}

-- The bytes of a file with `n` bytes of a buffer, from offset `from` on, at its offsets from `o` on.
unfoldable pub put : (n o from : ℕ) → (buf : Block) → (ℕ → ℕ) → ℕ → ℕ
put n o from buf old x = if leb o x && ltb x (o + n) then buf (from + (x - o)) else old x

module _ (bs : BlockStore) (d : DiskInode) (n : ℕ) (ids : ℕ → ℕ) (f : ℕ → Option Block) where
  open bs use {State, Good, contents, read, write}

  -- The index finds block `i` of the file at `ids i`, also when the contents of the file's blocks
  -- are others, and no two blocks of the file are one block of the device.
  pub record IsApart : Type 0 where
    pub found :
        (g : ℕ → Option Block)
        → ((j : ℕ) → ((i : ℕ) → i < n → ids i ≢ j) → g j ≡ f j)
        → (i : ℕ) → i < n
        → Located g d i (ids i)
    pub distinct : (i j : ℕ) → i < n → j < n → ids i ≡ ids j → i ≡ j

  -- The file's bytes, by their offsets, are `bytes`; the other blocks of the device are those of `f`.
  pub record Has (bytes : ℕ → ℕ) (s : State) : Type 0 where
    pub good : Good s
    pub block :
        (i : ℕ)
        → i < n
        → (b : Block) × (contents s (ids i) ≡ some b)
          × ((q : ℕ) → q < block_size → b q ≡ bytes (i * block_size + q))
    pub others : (j : ℕ) → ((i : ℕ) → i < n → ids i ≢ j) → contents s j ≡ f j

  module _ (apart : IsApart) where
    written_block :
        (i : ℕ) (b : Block) (bytes bytes' : ℕ → ℕ) (s : State)
        → i < n
        → Has bytes s
        → ((q : ℕ) → q < block_size → b q ≡ bytes' (i * block_size + q))
        → ((x : ℕ) → x < i * block_size → bytes' x ≡ bytes x)
        → ((x : ℕ) → i * block_size + block_size ≤ x → bytes' x ≡ bytes x)
        → (k : ℕ) → k < n
        → (w : State) → ((j : ℕ) → contents w j ≡ (if ids i == j then some b else contents s j))
        → (c : Block) × (contents w (ids k) ≡ some c)
          × ((q : ℕ) → q < block_size → c q ≡ bytes' (k * block_size + q))
    written_block i b bytes bytes' s h has new low high k u w holds = elim (Bool-cases (i == k)) [
      | inl e ↦
          subst
            (λ k.
              (c : Block) × (contents w (ids k) ≡ some c)
              × ((q : ℕ) → q < block_size → c q ≡ bytes' (k * block_size + q)))
            ((==_iff i k).0 e) (b, holds (ids i) ∙ rw (==_refl (ids i)) refl, new)
      | inr e ↦
          let ne : i ≢ k = ground arith in
          let (c, there, same) = has.block k u in
          let test = ==_of_ne (ids i) (ids k) (λ p. ne (apart.distinct i k h u p)) in
          (
            c,
            holds (ids k) ∙ rw test there,
            λ q l.
                same q l
                ∙ sym (elim (Bool-cases (ltb k i)) [
                  | inl t ↦ let below = ltb→lt k i t in low (k * block_size + q) (omega arith)
                  | inr t ↦ let above = not_ltb→le k i t in high (k * block_size + q) (omega arith)
                ]),
          )
    ]

    -- One block is written over.
    pub write-Has :
        (i : ℕ) (b : Block) (bytes bytes' : ℕ → ℕ) (s : State)
        → i < n
        → Has bytes s
        → ((q : ℕ) → q < block_size → b q ≡ bytes' (i * block_size + q))
        → ((x : ℕ) → x < i * block_size → bytes' x ≡ bytes x)
        → ((x : ℕ) → i * block_size + block_size ≤ x → bytes' x ≡ bytes x)
        → (w : State) × (write (ids i) b s ≡ (some tt, w)) × Has bytes' w
    write-Has i b bytes bytes' s h has new low high =
        let (old, there, _) = has.block i h in
        let l = bs.write-Leaves s (ids i) b has.good there in
        (
          l.after,
          l.runs,
          record {
            good = l.good;
            block = λ k u. written_block i b bytes bytes' s h has new low high k u l.after l.holds;
            others = λ j out. l.holds j ∙ rw (==_of_ne (ids i) j (out i h)) (has.others j out);
          },
        )

    pub Has-same :
        (bytes : ℕ → ℕ) (s w : State)
        → Has bytes s
        → Good w
        → ((j : ℕ) → contents w j ≡ contents s j)
        → Has bytes w
    Has-same bytes s w has g same = record {
      good = g;
      block = λ i h. let (b, there, e) = has.block i h in (b, same (ids i) ∙ there, e);
      others = λ j out. same j ∙ has.others j out;
    }

    -- The part of block `id` that a copy changes.
    pub copy-put :
        (id len from at : ℕ) (buf b : Block) (bytes : ℕ → ℕ)
        → ((q : ℕ) → q < block_size → b q ≡ bytes (id * block_size + q))
        → (q : ℕ) → q < block_size
        → copy len from at buf b q
          ≡ put len (id * block_size + at) from buf bytes (id * block_size + q)
    unfolding copy put
    copy-put id len from at buf b bytes h q l = ground (arith, h q l)

    pub put-low :
        (len o from : ℕ) (buf : Block) (bytes : ℕ → ℕ) (x : ℕ)
        → x < o
        → put len o from buf bytes x ≡ bytes x
    unfolding put
    put-low len o from buf bytes x h = ground arith

    pub put-high :
        (len o from : ℕ) (buf : Block) (bytes : ℕ → ℕ) (x : ℕ)
        → o + len ≤ x
        → put len o from buf bytes x ≡ bytes x
    unfolding put
    put-high len o from buf bytes x h = ground arith
