-- ===== src/DiskInode/Data/Copy.antt =====
-- The bytes of a file in its blocks, and ranges of them in a buffer.
use sbfs.Prelude.{
  ℕ, ◌+◌, ◌-◌, ◌*◌, ◌/◌, ◌%◌, ◌≤◌, ◌<◌, ◌≡◌, ◌&&◌, ap, sym, ◌∙◌, fun_ext, ltb, leb, if◌then◌else◌,
  Bool, true, arith, Bool-cases, inl, inr,
}
use sbfs.Block.{block_size}
use sbfs.DiskInode.Data.{copy}

-- The byte at an offset of the file whose block `i` is `bytes i`.
unfoldable pub byte : (ℕ → ℕ → ℕ) → ℕ → ℕ
byte bytes o = bytes (o / block_size) (o % block_size)

-- The buffer `buf` with the file's `n` bytes from offset `o` on at its offsets from `at` on.
unfoldable pub file_copy : (n o at : ℕ) → (bytes : ℕ → ℕ → ℕ) → (buf : ℕ → ℕ) → ℕ → ℕ
unfolding byte
file_copy n o at bytes buf q =
    if leb at q && ltb q (at + n) then byte bytes (o + (q - at)) else buf q

inside : (at n q : ℕ) → (leb at q && ltb q (at + n)) ≡ true → q - at < n
inside at n q h = ground arith

chosen : {c : Bool} (x y : ℕ) → c ≡ true → (if c then x else y) ≡ x
chosen x y e = rw (e)

-- A byte of the block `id`.
pub byte-block :
    (bytes : ℕ → ℕ → ℕ) (id x : ℕ) → x < block_size → byte bytes (id * block_size + x) ≡ bytes id x
unfolding byte
byte-block bytes id x h =
    ap (λ k. bytes k ((id * block_size + x) % block_size)) {x = (id * block_size + x) / block_size}
      {y = id} (omega arith)
    ∙ ap (bytes id) {x = (id * block_size + x) % block_size} {y = x} (omega arith)

-- A part of one block.
pub copy-file_copy :
    (n id from at : ℕ) (bytes : ℕ → ℕ → ℕ) (buf : ℕ → ℕ)
    → from + n ≤ block_size
    → copy n from at (bytes id) buf ≡ file_copy n (id * block_size + from) at bytes buf
unfolding copy file_copy
copy-file_copy n id from at bytes buf h = fun_ext λ q.
    elim (Bool-cases (leb at q && ltb q (at + n))) [
      | inl e ↦
          let k = inside at n q e in
          chosen _ _ e
          ∙ sym (byte-block bytes id (from + (q - at)) (omega arith))
          ∙ ap (byte bytes) {x = id * block_size + (from + (q - at))}
              {y = id * block_size + from + (q - at)} (omega arith)
          ∙ sym (chosen _ _ e)
      | inr e ↦ rw (e)
    ]

-- No bytes.
pub file_copy-none : (o at : ℕ) (bytes : ℕ → ℕ → ℕ) (buf : ℕ → ℕ) → file_copy 0 o at bytes buf ≡ buf
unfolding file_copy
file_copy-none o at bytes buf = fun_ext λ q. ground arith

-- Two ranges, one after the other.
pub file_copy-file_copy :
    (n m o at : ℕ) {start o' at' k : ℕ} (bytes : ℕ → ℕ → ℕ) (buf : ℕ → ℕ)
    → start ≡ o
    → o' ≡ o + n
    → at' ≡ at + n
    → k ≡ n + m
    → file_copy m o' at' bytes (file_copy n start at bytes buf) ≡ file_copy k o at bytes buf
unfolding file_copy
file_copy-file_copy n m o at {start} {o'} {at'} {k} bytes buf e e' f g = fun_ext λ q. ground arith
