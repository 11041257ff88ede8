-- ===== src/Vfs/Directories/Others.antt =====
-- What `sb_rmdir` and `sb_readdir` see in a block of a directory.
use mathlib.Core.Path.{subst}
use sbfs.Prelude.{
  ℕ, zero, suc, ◌+◌, ◌*◌, ◌≤◌, ◌<◌, ◌≡◌, ◌≢◌, refl, ◌↔◌, sym, ◌∙◌, inl, inr, Bool, true, false, not,
  ◌&&◌, ◌==◌, ==_iff, Bool-cases, arith, [], ◌∷◌,
}
use sbfs.Block.{Block}
use sbfs.Inode.Entries.{entry_bytes, has_name}
use sbfs.Vfs.Directories.{is_entry, has_others}

-- An entry in use whose name is neither `.` nor `..`.
pub record IsOther (b : Block) (i : ℕ) : Type 0 where
  pub used : is_entry b i ≡ true
  pub not_self : has_name b (entry_bytes * i) (46 ∷ []) ≡ false
  pub not_parent : has_name b (entry_bytes * i) (46 ∷ 46 ∷ []) ≡ false

-- The test in the loop.
abbrev is_other : Block → ℕ → Bool
is_other b i =
    is_entry b i
    && not (has_name b (entry_bytes * i) (46 ∷ []))
    && not (has_name b (entry_bytes * i) (46 ∷ 46 ∷ []))

is_other_iff : (b : Block) (i : ℕ) → (is_other b i ≡ true) ↔ IsOther b i
is_other_iff b i = (
  λ h. record {
    used = ground (arith, h);
    not_self = ground (arith, h);
    not_parent = ground (arith, h);
  },
  λ o. rw (o.used, o.not_self, o.not_parent) refl,
)

abbrev Among : (n j : ℕ) → Block → Type 0
Among n j b = (i : ℕ) × (j ≤ i) × (i < j + n) × IsOther b i

clash : {c : Bool} → c ≡ false → c ≡ true → ⊥
clash e h = ground arith

-- The loop of `sb_rmdir` finds an entry that keeps a directory from being removed exactly when one
-- of the entries is in use under a name that is neither `.` nor `..`.
pub has_others_iff : (n j : ℕ) (b : Block) → (has_others n j b ≡ true) ↔ Among n j b
unfolding has_others
has_others_iff zero j b = (λ h. ground arith, λ (i, l, u, _). absurd (omega arith))
has_others_iff (suc n) j b =
    let (to, from) = has_others_iff n (j + 1) b in
    elim (Bool-cases (is_other b j)) [
      | inl e ↦ (λ h. (j, omega arith, omega arith, (is_other_iff b j).0 e), λ a. rw e refl)
      | inr e ↦ (
        λ h. let (i, l, u, o) = to (sym (rw e refl) ∙ h) in (i, omega arith, omega arith, o),
        λ (i, l, u, o). elim (Bool-cases (j == i)) [
          | inl q ↦
              absurd (clash e ((is_other_iff b j).1 (subst (IsOther b) (sym ((==_iff j i).0 q)) o)))
          | inr q ↦ let ne : j ≢ i = ground arith in rw e (from (i, omega arith, omega arith, o))
        ],
      )
    ]
