-- ===== src/DiskInode/Data/Written.antt =====
-- The bytes of a file after `write_data`.

use sbfs.Prelude.{
  ℕ, zero, suc, ◌+◌, ◌-◌, ◌*◌, ◌/◌, ◌%◌, ◌^◌, ◌≤◌, ◌<◌, ◌≡◌, ◌≢◌, refl, ◌∙◌, ap, true, false, ◌==◌,
  ==_iff, ==_of_ne, ltb, if◌then◌else◌, Option, some, arith, inl, inr, Bool-cases, M, pure,
  and_then, ◌>>=◌, ◌>>◌, not_ltb→le, le→not_ltb, ltb→lt,
}
use sbfs.Block.{Block, block_size}
use sbfs.Store.{BlockStore}
use sbfs.DiskInode.{DiskInode, update_meta, with_dev}
use sbfs.DiskInode.Lookup.{lookup-Leaves}
use sbfs.DiskInode.Data.{
  copy, clip, lookup, write_part, write_middle, write_range, write_span, write_data, block_no,
  rounds, block_no_small, rounds_small,
}
use sbfs.DiskInode.Data.Write.{put, IsApart, Has, write-Has, Has-same, copy-put, put-low, put-high}

module _ (bs : BlockStore) (d : DiskInode) (n : ℕ) (ids : ℕ → ℕ) (f : ℕ → Option Block)
    (apart : IsApart bs d n ids f) where
  open bs use {State, Good, contents, read, write}

  abbrev HasBytes : (ℕ → ℕ) → State → Type 0
  HasBytes = Has bs d n ids f

  Has-to :
      (bytes bytes' : ℕ → ℕ) (s : State)
      → ((x : ℕ) → bytes x ≡ bytes' x)
      → HasBytes bytes s
      → HasBytes bytes' s
  Has-to bytes bytes' s e has = record {
    good = has.good;
    block = λ i h.
        let (b, there, same) = has.block i h in
        (b, there, λ q l. same q l ∙ e (i * block_size + q));
    others = has.others;
  }

  -- Two ranges, one after the other.
  put-put :
      (k m o o' from from' l : ℕ) (buf : Block) (bytes : ℕ → ℕ) (x : ℕ)
      → o' ≡ o + k
      → from' ≡ from + k
      → l ≡ k + m
      → put m o' from' buf (put k o from buf bytes) x ≡ put l o from buf bytes x
  unfolding put
  put-put k m o o' from from' l buf bytes x e e' e'' = ground arith

  lookup-Has :
      (i : ℕ) (bytes : ℕ → ℕ) (s : State)
      → i < n
      → HasBytes bytes s
      → (w : State) × (lookup bs d i s ≡ (some (ids i), w)) × HasBytes bytes w
  lookup-Has i bytes s h has =
      let l = lookup-Leaves bs d i (ids i) s has.good (apart.found (contents s) has.others i h) in
      (l.after, l.runs, Has-same bs d n ids f apart bytes s l.after has l.good l.holds)

  write_part-Has :
      (id len from at : ℕ) (buf : Block) (bytes : ℕ → ℕ) (s : State)
      → id < n
      → at + len ≤ block_size
      → HasBytes bytes s
      → (w : State) × (b : Block) × (write_part bs d id len from at buf s ≡ (some b, w))
        × HasBytes (put len (id * block_size + at) from buf bytes) w
  unfolding write_part
  write_part-Has id len from at buf bytes s h k has =
      let (v, runs, hv) = lookup-Has id bytes s h has in
      let (b, there, same) = hv.block id h in
      let r = bs.read-Leaves v (ids id) hv.good there in
      let hr = Has-same bs d n ids f apart bytes v r.after hv r.good r.holds in
      let new = copy len from at buf b in
      let (w, wrote, hw) =
        write-Has bs d n ids f apart id new bytes (put len (id * block_size + at) from buf bytes)
          r.after h hr (λ q l. copy-put bs d n ids f apart id len from at buf b bytes same q l)
          (λ x l.
            put-low bs d n ids f apart len (id * block_size + at) from buf bytes x (omega arith))
          (λ x l.
            put-high bs d n ids f apart len (id * block_size + at) from buf bytes x
              (omega arith)) in
      let put_back : Block → ℕ → M State Block =
        λ b blk. write blk (copy len from at buf b) >> pure (copy len from at buf b) in
      (
        w,
        new,
        ap (λ z. and_then z (λ blk. read blk >>= λ b. put_back b blk)) runs
            ∙ ap (λ z. and_then z (λ b. put_back b (ids id))) r.runs
            ∙ ap (λ z. and_then z (λ _. pure new)) wrote,
        hw,
      )

  whole-block :
      (id from : ℕ) (buf last : Block) (bytes : ℕ → ℕ) (q : ℕ)
      → q < block_size
      → copy block_size from 0 buf last q
        ≡ put block_size (id * block_size) from buf bytes (id * block_size + q)
  unfolding copy put
  whole-block id from buf last bytes q h = ground arith

  write_middle-Has :
      (m id from : ℕ) (buf last : Block) (bytes : ℕ → ℕ) (s : State)
      → id + m ≤ n
      → id + m < 2 ^ 30
      → HasBytes bytes s
      → (w : State) × (write_middle bs m d id from buf last s ≡ (some tt, w))
        × HasBytes (put (m * block_size) (id * block_size) from buf bytes) w
  unfolding write_middle put
  write_middle-Has zero id from buf last bytes s h small has = (
    s,
    refl,
    Has-to bytes (put (0 * block_size) (id * block_size) from buf bytes) s (λ x. ground arith) has,
  )
  write_middle-Has (suc m) id from buf last bytes s h small has =
      let word : id % 2 ^ 32 ≡ id = omega arith in
      let (v, runs, hv) = lookup-Has id bytes s (omega arith) has in
      let new = copy block_size from 0 buf last in
      let mid = put block_size (id * block_size) from buf bytes in
      let more : M State (Unit {0}) = write_middle bs m d (id + 1) (from + block_size) buf new in
      let (u, wrote, hu) =
        write-Has bs d n ids f apart id new bytes mid v (omega arith) hv
          (λ q l. whole-block id from buf last bytes q l)
          (λ x l. put-low bs d n ids f apart block_size (id * block_size) from buf bytes x l)
          (λ x l. put-high bs d n ids f apart block_size (id * block_size) from buf bytes x l) in
      let (w, rest, hw) =
        write_middle-Has m (id + 1) (from + block_size) buf new mid u (omega arith) (omega arith)
          hu in
      (
        w,
        ap (λ z. and_then (lookup bs d z s) (λ blk. write blk new >> more)) word
            ∙ ap (λ z. and_then z (λ blk. write blk new >> more)) runs
            ∙ ap (λ z. and_then z (λ _. more)) wrote
            ∙ rest,
        Has-to (put (m * block_size) ((id + 1) * block_size) (from + block_size) buf mid)
            (put (suc m * block_size) (id * block_size) from buf bytes) w (λ x. ground arith) hw,
      )

  -- The part of the last block, if there is one.
  abbrev last_part : (rid roff from : ℕ) → Block → M State (Unit {0})
  last_part rid roff from buf =
      if ltb 0 roff then (do _ ← write_part bs d rid roff from 0 buf; pure tt) else pure tt

  last_part-Has :
      (rid roff from : ℕ) (buf : Block) (bytes : ℕ → ℕ) (s : State)
      → rid * block_size + roff ≤ n * block_size
      → roff ≤ block_size
      → HasBytes bytes s
      → (w : State) × (last_part rid roff from buf s ≡ (some tt, w))
        × HasBytes (put roff (rid * block_size) from buf bytes) w
  unfolding put
  last_part-Has rid roff from buf bytes s h k has = elim (Bool-cases (ltb 0 roff)) [
    | inl e ↦
        let some_left = ltb→lt 0 roff e in
        let (w, _, runs, hw) =
          write_part-Has rid roff from 0 buf bytes s (omega arith) (omega arith) has in
        let at : rid * block_size + 0 ≡ rid * block_size = omega arith in
        (
          w,
          rw e (ap (λ z. and_then z (λ _. pure tt)) runs),
          Has-to (put roff (rid * block_size + 0) from buf bytes)
              (put roff (rid * block_size) from buf bytes) w
              (λ x i. put roff (at i) from buf bytes x) hw,
        )
    | inr e ↦
        let none_left = not_ltb→le 0 roff e in
        (
          s,
          rw e refl,
          Has-to bytes (put roff (rid * block_size) from buf bytes) s (λ x. ground arith) has,
        )
  ]

  write_range-small :
      (l r : ℕ) (buf : Block)
      → l < 2 ^ 31
      → r < 2 ^ 31
      → write_range bs d l r buf
        ≡ write_span bs d
            (l / block_size)
            (r / block_size)
            (r / block_size - (l / block_size + 1))
            (l % block_size)
            (r % block_size)
            buf
  unfolding write_range
  write_range-small l r buf h k =
      ap
        (λ x.
          write_span bs d x (block_no r) (rounds x (block_no r)) (l % block_size) (r % block_size)
            buf)
        (block_no_small l h)
      ∙ ap
          (λ y.
            write_span bs d (l / block_size) y (rounds (l / block_size) y) (l % block_size)
              (r % block_size) buf)
          (block_no_small r k)
      ∙ ap
          (λ c.
            write_span bs d (l / block_size) (r / block_size) c (l % block_size) (r % block_size)
              buf)
          (rounds_small (l / block_size) (r / block_size) (omega arith) (omega arith))

  write_range-Has :
      (l r : ℕ) (buf : Block) (bytes : ℕ → ℕ) (s : State)
      → l < r
      → r ≤ n * block_size
      → r < 2 ^ 31
      → HasBytes bytes s
      → (w : State) × (write_range bs d l r buf s ≡ (some tt, w))
        × HasBytes (put (r - l) l 0 buf bytes) w
  unfolding write_span
  write_range-Has l r buf bytes s h k small has =
      let lid = l / block_size in
      let rid = r / block_size in
      let loff = l % block_size in
      let roff = r % block_size in
      let plain = ap (λ m. m s) (write_range-small l r buf (omega arith) small) in
      elim (Bool-cases (lid == rid)) [
        | inl e ↦
            let same = (==_iff lid rid).0 e in
            let (w, _, runs, hw) =
              write_part-Has lid (roff - loff) 0 loff buf bytes s (omega arith) (omega arith) has in
            let size : roff - loff ≡ r - l = omega arith in
            let at : lid * block_size + loff ≡ l = omega arith in
            (
              w,
              plain ∙ rw e (ap (λ z. and_then z (λ _. pure tt)) runs),
              Has-to (put (roff - loff) (lid * block_size + loff) 0 buf bytes)
                  (put (r - l) l 0 buf bytes) w (λ x i. put (size i) (at i) 0 buf bytes x) hw,
            )
        | inr e ↦
            let ne : lid ≢ rid = ground arith in
            let a = block_size - loff in
            let m = rid - (lid + 1) in
            let (u, last, first, hu) =
              write_part-Has lid a 0 loff buf bytes s (omega arith) (omega arith) has in
            let (v, middle, hv) =
              write_middle-Has m (lid + 1) a buf last (put a (lid * block_size + loff) 0 buf bytes)
                u (omega arith) (omega arith) hu in
            let most : HasBytes (put (a + m * block_size) l 0 buf bytes) v =
              Has-to _ (put (a + m * block_size) l 0 buf bytes) v
                (λ x.
                  ap
                    (λ o.
                      put (m * block_size) ((lid + 1) * block_size) a buf (put a o 0 buf bytes) x)
                    {x = lid * block_size + loff} {y = l} (omega arith)
                  ∙ put-put a (m * block_size) l ((lid + 1) * block_size) 0 a (a + m * block_size)
                      buf bytes x (omega arith) (omega arith) refl)
                hv in
            let (w, end, hw) =
              last_part-Has rid roff (a + m * block_size) buf
                (put (a + m * block_size) l 0 buf bytes) v (omega arith) (omega arith) most in
            let tail : M State (Unit {0}) = last_part rid roff (a + m * block_size) buf in
            (
              w,
              plain
                  ∙ rw e (
                      ap (λ z. and_then z (λ b. write_middle bs m d (lid + 1) a buf b >> tail))
                        first
                      ∙ ap (λ z. and_then z (λ _. tail)) middle
                      ∙ end),
              Has-to _ (put (r - l) l 0 buf bytes) w
                  (λ x.
                    put-put (a + m * block_size) roff l (rid * block_size) 0 (a + m * block_size)
                      (r - l) buf bytes x (omega arith) (omega arith) (omega arith))
                  hw,
            )
      ]

  -- Where the index finds the file's blocks, which are blocks of the device of their own, a
  -- write of a positive length within the size, which is below 2 ^ 31 and has its blocks,
  -- succeeds with that length. The file's bytes are then those of the buffer in the range and
  -- what they were elsewhere, and no other block changes. Of the inode it changes the times of
  -- access and modification.
  pub write_data-Has :
      (now offset len : ℕ) (buf : Block) (bytes : ℕ → ℕ) (s : State)
      → 0 < len
      → offset + len ≤ d.size
      → d.size ≤ n * block_size
      → d.size < 2 ^ 31
      → HasBytes bytes s
      → (w : State) × (write_data bs now offset buf len (record { node = d; dev = s })
          ≡ (some len, record { node = update_meta now true true false d; dev = w }))
        × HasBytes (put len offset 0 buf bytes) w
  unfolding write_data update_meta clip
  write_data-Has now offset len buf bytes s h k l u has =
      let (w, runs, hw) =
        write_range-Has offset (offset + len) buf bytes s (omega arith) (omega arith) (omega arith)
          has in
      let word : (offset + len) % 2 ^ 32 ≡ offset + len = omega arith in
      let c : clip d.size offset len ≡ len = ground arith in
      let size : offset + len - offset ≡ len = omega arith in
      (
        w,
        rw (==_of_ne len 0 (omega arith), le→not_ltb d.size offset (omega arith), c, word)
            (ap (λ r. and_then (with_dev (update_meta now true true false d) r) (λ _. pure len))
              runs),
        Has-to (put (offset + len - offset) offset 0 buf bytes) (put len offset 0 buf bytes) w
            (λ x i. put (size i) offset 0 buf bytes x) hw,
      )
