-- ===== src/Bitmap/Eventually.antt =====
-- Every free slot of a bitmap is given out in the end, when `Bitmap::alloc` is called again and again.
use sbfs.Prelude.{
  ℕ, zero, suc, ◌+◌, ◌*◌, ◌≤◌, ◌<◌, ◌≡◌, refl, ◌∙◌, ap, Bool, true, false, ◌==◌, ==_iff, Bool-cases,
  ltb, ltb→lt, if◌then◌else◌, inl, inr, some, arith,
}
use sbfs.Store.{BlockStore}
use sbfs.Bitmap.{Bitmap, alloc, slot_per_block}
use sbfs.Bitmap.Alloc.{Ready, used}
use sbfs.Bitmap.Spare.{alloc-Gives}

clash : {c : Bool} → c ≡ false → c ≡ true → ⊥
clash e h = ground arith

module _ (bs : BlockStore) (m : Bitmap) where
  open bs use {State, Good, contents}

  -- `k` calls of `alloc` succeed, and the next one returns `id`.
  unfoldable pub Returned : (k : ℕ) → State → (id : ℕ) → Type 0
  Returned zero s id = (alloc bs m s).0 ≡ some id
  Returned (suc k) s id = (x : ℕ) × (w : State) × (alloc bs m s ≡ (some x, w)) × Returned k w id

  reached :
      (s : State) (n i f : ℕ)
      → n ≤ i
      → f ≤ n
      → used m (contents s) f ≡ false
      → ((k : ℕ) → k < i → used m (contents s) k ≡ true)
      → f ≡ n
  reached s n i f h l free low = elim (Bool-cases (f == n)) [
    | inl p ↦ (==_iff f n).0 p
    | inr p ↦ absurd (clash free (low f (ground arith)))
  ]

  -- One more slot is taken.
  taken_below :
      (s : State) (i f k : ℕ)
      → k < i + 1
      → used m (contents s) f ≡ false
      → ((k : ℕ) → k < f → used m (contents s) k ≡ true)
      → ((k : ℕ) → k < i → used m (contents s) k ≡ true)
      → (if f == k then true else used m (contents s) k) ≡ true
  taken_below s i f k l free earlier low = elim (Bool-cases (f == k)) [
    | inl p ↦ rw p refl
    | inr p ↦ rw p (elim (Bool-cases (ltb k i)) [
      | inl q ↦ low k (ltb→lt k i q)
      | inr q ↦ elim (Bool-cases (ltb f i)) [
        | inl z ↦ absurd (clash free (low f (ltb→lt f i z)))
        | inr z ↦ earlier k (ground arith)
      ]
    ])
  ]

  -- The same, where the slots below `i` are taken.
  arrives_from :
      (d i n : ℕ) (s : State)
      → i + d ≡ n
      → Good s
      → Ready m (contents s)
      → n < m.num_blocks * slot_per_block
      → used m (contents s) n ≡ false
      → ((k : ℕ) → k < i → used m (contents s) k ≡ true)
      → (k : ℕ) × (k ≤ d) × Returned k s (n + m.data_segment_offset)
  unfolding Returned
  arrives_from zero i n s e g r below free low =
      let a = alloc-Gives bs m (contents s) s n g (λ j. refl) r below free in
      let at : a.slot ≡ n = reached s n i a.slot (omega arith) a.first a.was_free low in
      (0, omega arith, ap (λ x. x.0) a.runs ∙ ap (λ x. some (x + m.data_segment_offset)) at)
  arrives_from (suc d) i n s e g r below free low =
      let a = alloc-Gives bs m (contents s) s n g (λ j. refl) r below free in
      elim (Bool-cases (a.slot == n)) [
        | inl p ↦ (
          0,
          omega arith,
          ap (λ x. x.0) a.runs ∙ ap (λ x. some (x + m.data_segment_offset)) ((==_iff a.slot n).0 p),
        )
        | inr p ↦
            let (k, le, rest) =
              arrives_from d (i + 1) n a.after (omega arith) a.good a.ready below
                (a.slots n below ∙ rw p free)
                (λ k l.
                  a.slots k (omega arith) ∙ taken_below s i a.slot k l a.was_free a.earlier low) in
            (suc k, omega arith, (a.slot + m.data_segment_offset, a.after, a.runs, rest))
      ]

  -- Where slot `n` of a bitmap that can be read is free, there are at most `n` calls of `alloc` in a
  -- row, all of them successful, after which the next call returns the id of that slot.
  pub alloc-Returned :
      (n : ℕ) (s : State)
      → Good s
      → Ready m (contents s)
      → n < m.num_blocks * slot_per_block
      → used m (contents s) n ≡ false
      → (k : ℕ) × (k ≤ n) × Returned k s (n + m.data_segment_offset)
  alloc-Returned n s g r below free =
      arrives_from n 0 n s (omega arith) g r below free (λ k l. absurd (omega arith))
