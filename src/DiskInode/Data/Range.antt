-- ===== src/DiskInode/Data/Range.antt =====
-- The ranges that `read_data` copies into the buffer, block by block.
use sbfs.Prelude.{
  ℕ, zero, suc, ◌+◌, ◌-◌, ◌*◌, ◌/◌, ◌%◌, ◌^◌, ◌≤◌, ◌<◌, ◌≡◌, ◌⊎◌, refl, ap, sym, ◌∙◌, fun_ext,
  Option, some, false, ◌==◌, ltb, if◌then◌else◌, Bool-cases, inl, inr, M, and_then, ◌>>=◌, pure,
  arith, ltb→lt, ==_iff,
}
use mathlib.Core.Path.{subst}
use sbfs.Block.{Block, block_size}
use sbfs.Store.{BlockStore, Leaves, Leaves-bind, Leaves-to, Leaves-then, Leaves-else}
use sbfs.DiskInode.{DiskInode}
use sbfs.DiskInode.Lookup.{Located, lookup-Leaves}
use sbfs.DiskInode.Data.{
  copy, lookup, read_part, read_middle, read_span, read_range, block_no, rounds, block_no_small,
  rounds_small,
}
use sbfs.DiskInode.Data.Copy.{file_copy, copy-file_copy, file_copy-none, file_copy-file_copy}

-- Among the blocks `f`, the inode `d` finds its first `n` blocks, which are `bytes 0` and so on.
unfoldable pub IsFile : (f : ℕ → Option Block) → DiskInode → ℕ → (ℕ → Block) → Type 0
IsFile f d n bytes = (i : ℕ) → i < n → (id : ℕ) × Located f d i id × (f id ≡ some (bytes i))

pub same_range :
    {n n' o o' : ℕ} (bytes : ℕ → Block) (buf : ℕ → ℕ)
    → n ≡ n'
    → o ≡ o'
    → file_copy n o 0 bytes buf ≡ file_copy n' o' 0 bytes buf
same_range bytes buf e f = λ i. file_copy (e i) (f i) 0 bytes buf

-- A range that `int` reaches: up to below `2 ^ 31`, or within the last block before it.
abbrev pub IsInReach : (l r : ℕ) → Type 0
IsInReach l r = (r < 2 ^ 31) ⊎ ((2 ^ 31 ≤ l + block_size) × (r ≡ 2 ^ 31))

later : (a b : ℕ) → (a == b) ≡ false → a ≤ b → a < b
later a b e h = ground arith

module _ (bs : BlockStore) (d : DiskInode) (n : ℕ) (bytes : ℕ → Block) where
  open bs use {State, read, Good, contents, read-Leaves}

  -- A file stays where no block changes.
  pub same-IsFile :
      {s w : State}
      → ((j : ℕ) → contents w j ≡ contents s j)
      → IsFile (contents s) d n bytes
      → IsFile (contents w) d n bytes
  same-IsFile h file = subst (λ f. IsFile f d n bytes) (sym (fun_ext h)) file

  read_part-Leaves :
      (id len from at : ℕ) (buf : ℕ → ℕ) (s : State)
      → Good s
      → IsFile (contents s) d n bytes
      → id < n
      → from + len ≤ block_size
      → Leaves Good contents
          (read_part bs d id len from at buf s)
          (file_copy len (id * block_size + from) at bytes buf)
          (contents s)
  unfolding IsFile read_part
  read_part-Leaves id len from at buf s g file h k =
      let (blk, there, e) = file id h in
      Leaves-bind (lookup bs d id) (λ x. read x >>= λ b. pure (copy len from at b buf))
        (lookup-Leaves bs d id blk s g there)
        λ w gw same.
          let l = read-Leaves w blk gw (same blk ∙ e) in
          record {
            after = l.after;
            runs =
                ap (λ r. and_then r (λ b. pure (copy len from at b buf))) l.runs
                ∙ ap (λ b. (some b, l.after)) (copy-file_copy len id from at bytes buf k);
            good = l.good;
            holds = λ j. l.holds j ∙ same j;
          }

  read_middle-Leaves :
      (m id at : ℕ) (buf : ℕ → ℕ) (s : State)
      → Good s
      → IsFile (contents s) d n bytes
      → id + m ≤ n
      → id + m < 2 ^ 30
      → Leaves Good contents
          (read_middle bs m d id at buf s)
          (file_copy (m * block_size) (id * block_size) at bytes buf)
          (contents s)
  unfolding read_middle
  read_middle-Leaves zero id at buf s g file h small = record {
    after = s;
    runs = ap (λ b. (some b, s)) (sym (file_copy-none (id * block_size) at bytes buf));
    good = g;
    holds = λ j. refl;
  }
  read_middle-Leaves (suc m) id at buf s g file h small =
      let word : id % 2 ^ 32 ≡ id = omega arith in
      rw word (
        Leaves-bind (read_part bs d id block_size 0 at buf)
          (λ b. read_middle bs m d (id + 1) (at + block_size) b)
          (read_part-Leaves id block_size 0 at buf s g file (omega arith) (omega arith))
          λ w gw same.
            Leaves-to
              (file_copy-file_copy block_size (m * block_size) (id * block_size) at bytes buf
                (omega arith) (omega arith) (omega arith) (omega arith))
              same
              (read_middle-Leaves m (id + 1) (at + block_size) _ w gw (same-IsFile same file)
                (omega arith) (omega arith)))

  read_end-Leaves :
      (id len at : ℕ) (buf : ℕ → ℕ) (s : State)
      → Good s
      → IsFile (contents s) d n bytes
      → (0 < len → id < n)
      → len ≤ block_size
      → Leaves Good contents
          ((if ltb 0 len then read_part bs d id len 0 at buf else pure buf) s)
          (file_copy len (id * block_size) at bytes buf)
          (contents s)
  read_end-Leaves id len at buf s g file h k = elim (Bool-cases (ltb 0 len)) [
    | inl e ↦ Leaves-then (read_part bs d id len 0 at buf) (pure buf) e (
        Leaves-to
          (ap (λ o. file_copy len o at bytes buf) {x = id * block_size + 0} {y = id * block_size}
            (omega arith))
          (λ j. refl)
          (read_part-Leaves id len 0 at buf s g file (h (ltb→lt 0 len e)) (omega arith)))
    | inr e ↦
        let none_left : len ≡ 0 = ground arith in
        Leaves-else (read_part bs d id len 0 at buf) (pure buf) e (record {
          after = s;
          runs =
              ap (λ b. (some b, s))
                (sym (file_copy-none (id * block_size) at bytes buf)
                  ∙ ap (λ m. file_copy m (id * block_size) at bytes buf) (sym none_left));
          good = g;
          holds = λ j. refl;
        })
  ]

  read_span-Leaves :
      (lid rid loff roff : ℕ) (buf : ℕ → ℕ) (s : State)
      → Good s
      → IsFile (contents s) d n bytes
      → lid < rid
      → rid ≤ n
      → rid < 2 ^ 30
      → (0 < roff → rid < n)
      → loff ≤ block_size
      → roff ≤ block_size
      → Leaves Good contents
          (read_span bs d lid rid loff roff buf s)
          (file_copy
            (block_size - loff + ((rid - (lid + 1)) * block_size + roff))
            (lid * block_size + loff)
            0
            bytes
            buf)
          (contents s)
  unfolding read_span
  read_span-Leaves lid rid loff roff buf s g file h k small at_end hl hr =
      let m = rid - (lid + 1) in
      let at = block_size - loff + m * block_size in
      let end : (ℕ → ℕ) → M State (ℕ → ℕ) =
        λ most. if ltb 0 roff then read_part bs d rid roff 0 at most else pure most in
      rw (rounds_small lid rid (omega arith) small) (
        Leaves-bind (read_part bs d lid (block_size - loff) loff 0 buf)
          (λ first. read_middle bs m d (lid + 1) (block_size - loff) first >>= end)
          (read_part-Leaves lid (block_size - loff) loff 0 buf s g file (omega arith) (omega arith))
          λ w gw same.
            Leaves-to
              (file_copy-file_copy (block_size - loff) (m * block_size + roff)
                (lid * block_size + loff) 0 bytes buf (omega arith) (omega arith) (omega arith)
                (omega arith))
              same
              (Leaves-bind (read_middle bs m d (lid + 1) (block_size - loff) _) end
                (read_middle-Leaves m (lid + 1) (block_size - loff) _ w gw (same-IsFile same file)
                  (omega arith) (omega arith))
                λ v gv same'.
                  Leaves-to
                    (file_copy-file_copy (m * block_size) roff ((lid + 1) * block_size)
                      (block_size - loff) bytes _ (omega arith) (omega arith) (omega arith)
                      (omega arith))
                    same'
                    (read_end-Leaves rid roff at _ v gv (same-IsFile (λ j. same' j ∙ same j) file)
                      at_end hr)))

  -- The end of the range is a negative `int`, but the last block is then read as a whole.
  read_edge-Leaves :
      (l : ℕ) (buf : ℕ → ℕ) (s : State)
      → Good s
      → IsFile (contents s) d n bytes
      → l < 2 ^ 31
      → 2 ^ 31 ≤ l + block_size
      → 2 ^ 31 ≤ n * block_size
      → Leaves Good contents
          (read_range bs d l (2 ^ 31) buf s)
          (file_copy (2 ^ 31 - l) l 0 bytes buf)
          (contents s)
  unfolding read_range read_span read_middle block_no rounds
  read_edge-Leaves l buf s g file h edge k =
      let loff = l % block_size in
      let last : l / block_size ≡ 524287 = omega arith in
      rw (block_no_small l h, last)
        (Leaves-bind (read_part bs d 524287 (block_size - loff) loff 0 buf) (λ first. pure first)
          (read_part-Leaves 524287 (block_size - loff) loff 0 buf s g file (omega arith)
            (omega arith))
          λ w gw same. record {
            after = w;
            runs =
                ap (λ b. (some b, w))
                  (same_range {n = block_size - loff} {n' = 2 ^ 31 - l} bytes buf (omega arith)
                    (omega arith));
            good = gw;
            holds = same;
          })

  -- A range that is not empty and lies in the `n` blocks.
  read_low-Leaves :
      (l r : ℕ) (buf : ℕ → ℕ) (s : State)
      → Good s
      → IsFile (contents s) d n bytes
      → l < r
      → r ≤ n * block_size
      → r < 2 ^ 31
      → Leaves Good contents
          (read_range bs d l r buf s)
          (file_copy (r - l) l 0 bytes buf)
          (contents s)
  unfolding read_range
  read_low-Leaves l r buf s g file h k small =
      let lid = l / block_size in
      let rid = r / block_size in
      let loff = l % block_size in
      let roff = r % block_size in
      let one = read_part bs d lid (roff - loff) loff 0 buf in
      let many = read_span bs d lid rid loff roff buf in
      rw (block_no_small l (omega arith), block_no_small r small)
        (elim (Bool-cases (lid == rid)) [
          | inl e ↦
              let same : lid ≡ rid = (==_iff lid rid).0 e in
              Leaves-then one many e (
                Leaves-to (same_range bytes buf (omega arith) (omega arith)) (λ j. refl)
                  (read_part-Leaves lid (roff - loff) loff 0 buf s g file (omega arith)
                    (omega arith)))
          | inr e ↦
              let apart : lid < rid = later lid rid e (omega arith) in
              Leaves-else one many e (
                Leaves-to (same_range bytes buf (omega arith) (omega arith)) (λ j. refl)
                  (read_span-Leaves lid rid loff roff buf s g file apart (omega arith) (omega arith)
                    (λ p. omega arith) (omega arith) (omega arith)))
        ])

  pub read_range-Leaves :
      (l r : ℕ) (buf : ℕ → ℕ) (s : State)
      → Good s
      → IsFile (contents s) d n bytes
      → l < r
      → r ≤ n * block_size
      → IsInReach l r
      → Leaves Good contents
          (read_range bs d l r buf s)
          (file_copy (r - l) l 0 bytes buf)
          (contents s)
  read_range-Leaves l r buf s g file h k (inl small) = read_low-Leaves l r buf s g file h k small
  read_range-Leaves l r buf s g file h k (inr (edge, e)) =
      subst
        (λ x.
          Leaves Good contents (read_range bs d l x buf s) (file_copy (x - l) l 0 bytes buf)
            (contents s))
        (sym e) (read_edge-Leaves l buf s g file (omega (arith, e)) edge (omega (arith, e)))
