-- ===== src/Fd/Counts.antt =====
-- The handles of `FDManager` and its reference counts, from call to call.
use mathlib.Core.Path.{subst₂}
use sbfs.Prelude.{
  ℕ, ◌+◌, ◌-◌, ◌%◌, ◌<◌, ◌≤◌, ◌≡◌, refl, sym, ap, ◌∙◌, true, Option, none, some, List, [], ◌∷◌,
  ◌==◌, if◌then◌else◌, length, arith, inl, inr, Bool-cases, Option-cases,
}
use sbfs.Position.{Inode, same_key, same_key_iff}
use sbfs.Fd.{
  u64, FdManager, init, find_fd, find_count, insert_fd, erase_fd, add_count, delta_ref_cnt, open_fd,
  get_fd, close_fd, close_found,
}

-- The number of handles of an inode.
unfoldable pub handles : Inode → List (ℕ × Inode) → ℕ
handles i [] = 0
handles i ((k, j) ∷ m) = (if same_key j i then 1 else 0) + handles i m

abbrev count_of : Option ℕ → ℕ
count_of none = 0
count_of (some n) = n

-- The count that the table has for an inode.
abbrev pub counted : FdManager → Inode → ℕ
counted f i = count_of (find_count i f.reference_count)

-- Each handle is below the counter and stands once; the counts are those of the handles.
abbrev pub Fresh : ℕ → List (ℕ × Inode) → Type 0
Fresh n [] = Unit {0}
Fresh n ((k, i) ∷ m) = (k < n) × (0 < k) × (find_fd k m ≡ none) × Fresh n m

pub record Counts (f : FdManager) : Type 0 where
  pub fresh : Fresh f.fd_counter f.fds
  pub positive_counter : 0 < f.fd_counter
  pub counts : (i : Inode) → counted f i ≡ handles i f.fds % u64

-- A manager starts with no handle.
pub init-Counts : Counts init
unfolding init find_count handles
init-Counts = record { fresh = tt; positive_counter = omega arith; counts = λ i. refl }

pub find-Fresh : (n : ℕ) (m : List (ℕ × Inode)) → Fresh n m → find_fd n m ≡ none
unfolding find_fd
find-Fresh n [] h = refl
find-Fresh n ((k, i) ∷ m) h = ground (arith, find-Fresh n m h.3)

Fresh-mono : (n p : ℕ) (m : List (ℕ × Inode)) → n ≤ p → Fresh n m → Fresh p m
Fresh-mono n p [] l h = tt
Fresh-mono n p ((k, i) ∷ m) l h = (omega arith, h.1, h.2, Fresh-mono n p m l h.3)

-- One count goes up by `delta`, modulo the width, and the others stay.
find_count-add :
    (i j : Inode) (d : ℕ) (m : List (Inode × ℕ)) (n : ℕ)
    → find_count i m ≡ some n
    → find_count j (add_count i d m)
      ≡ (if same_key i j then some ((n + d) % u64) else find_count j m)
unfolding find_count add_count
find_count-add i j d [] n h = cc
find_count-add i j d ((k, c) ∷ m) n h =
    ground (arith, same_key_iff k i, same_key_iff k j, same_key_iff i j, find_count-add i j d m n)

counted-delta :
    (f : FdManager) (i j : Inode) (d : ℕ)
    → d < u64
    → counted (delta_ref_cnt i d f) j
      ≡ (if same_key i j then (counted f i + d) % u64 else counted f j)
unfolding delta_ref_cnt find_count
counted-delta f i j d h = elim (Option-cases (find_count i f.reference_count)) [
  | inl e ↦ ground (arith, same_key_iff i j)
  | inr (n, e) ↦ ground (arith, same_key_iff i j, find_count-add i j d f.reference_count n)
]

pub same_key_refl : (i : Inode) → same_key i i ≡ true
same_key_refl i = (same_key_iff i i).1 refl

pub delta-fields :
    (i : Inode) (d : ℕ) (f : FdManager)
    → ((delta_ref_cnt i d f).fds ≡ f.fds) × ((delta_ref_cnt i d f).fd_counter ≡ f.fd_counter)
unfolding delta_ref_cnt
delta-fields i d f = ground arith

pub insert-fresh :
    (fd : ℕ) (i : Inode) (m : List (ℕ × Inode))
    → find_fd fd m ≡ none
    → insert_fd fd i m ≡ (fd, i) ∷ m
unfolding insert_fd
insert-fresh fd i m h = ground arith

find-erase :
    (n fd gd : ℕ) (m : List (ℕ × Inode))
    → Fresh n m
    → find_fd gd (erase_fd fd m) ≡ (if fd == gd then none else find_fd gd m)
unfolding find_fd erase_fd
find-erase n fd gd [] h = ground arith
find-erase n fd gd ((k, i) ∷ m) h = ground (arith, find-erase n fd gd m h.3)

Fresh-erase : (n fd : ℕ) (m : List (ℕ × Inode)) → Fresh n m → Fresh n (erase_fd fd m)
unfolding erase_fd
Fresh-erase n fd [] h = tt
Fresh-erase n fd ((k, i) ∷ m) h = elim (Bool-cases (k == fd)) [
  | inl e ↦ rw e h.3
  | inr e ↦ rw e (h.0, h.1, ground (arith, find-erase n fd k m h.3), Fresh-erase n fd m h.3)
]

pub handles-erase :
    (fd : ℕ) (i j : Inode) (m : List (ℕ × Inode))
    → find_fd fd m ≡ some i
    → handles j m ≡ (if same_key i j then 1 else 0) + handles j (erase_fd fd m)
unfolding handles find_fd erase_fd
handles-erase fd i j [] h = cc
handles-erase fd i j ((k, l) ∷ m) h = ground (arith, handles-erase fd i j m)

pub handles-le-length : (i : Inode) (m : List (ℕ × Inode)) → handles i m ≤ length m
unfolding handles
handles-le-length i [] = omega arith
handles-le-length i ((k, j) ∷ m) = ground (arith, handles-le-length i m)

-- Under the invariant, opening an inode returns a number that was no handle; by it the inode is
-- then found, and every other number finds what it found before.
pub open_fd-get :
    (f : FdManager) (i : Inode) (fd : ℕ)
    → Counts f
    → (get_fd (open_fd i f).0 f ≡ none)
      × (get_fd fd (open_fd i f).1 ≡ (if fd == (open_fd i f).0 then some i else get_fd fd f))
unfolding open_fd get_fd find_fd
open_fd-get f i fd c =
    let n = f.fd_counter in
    let free = find-Fresh n f.fds c.fresh in
    let step = record f { fd_counter = (n + 1) % u64; fds = insert_fd n i f.fds } in
    ground (arith, free, (delta-fields i 1 step).0, insert-fresh n i f.fds free, c.positive_counter)

-- As long as the counter does not wrap, opening an inode keeps the invariant: each handle is below
-- the counter and stands once, and the reference counts are those of the handles.
pub open_fd-Counts :
    (f : FdManager) (i : Inode) → f.fd_counter + 1 < u64 → Counts f → Counts (open_fd i f).1
unfolding open_fd handles
open_fd-Counts f i h c =
    let n = f.fd_counter in
    let free = find-Fresh n f.fds c.fresh in
    let step = record f { fd_counter = (n + 1) % u64; fds = insert_fd n i f.fds } in
    let fds : (delta_ref_cnt i 1 step).fds ≡ (n, i) ∷ f.fds =
      (delta-fields i 1 step).0 ∙ insert-fresh n i f.fds free in
    record {
      fresh = subst₂ Fresh (sym (delta-fields i 1 step).1) (sym fds) (
        omega arith,
        c.positive_counter,
        free,
        Fresh-mono n ((n + 1) % u64) f.fds (omega arith) c.fresh,
      );
      positive_counter = rw ((delta-fields i 1 step).1) (omega arith);
      counts = λ j.
          counted-delta step i j 1 (omega arith)
          ∙ (ground (arith, same_key_iff i j, c.counts i, c.counts j))
          ∙ ap (λ m. handles j m % u64) (sym fds);
    }

-- Under the invariant, a closed handle is no longer found, and every other number finds what it
-- found before.
pub close_fd-get :
    (f : FdManager) (fd gd : ℕ)
    → Counts f
    → get_fd gd (close_fd fd f) ≡ (if fd == gd then none else get_fd gd f)
unfolding close_fd close_found get_fd
close_fd-get f fd gd c =
    ground (
      arith,
      find-erase f.fd_counter fd gd f.fds c.fresh,
      λ (i : Inode). delta-fields i (u64 - 1) f,
    )

close_found-Counts :
    (f : FdManager) (fd : ℕ) (i : Inode)
    → find_fd fd f.fds ≡ some i
    → Counts f
    → Counts (close_found fd (some i) f)
unfolding close_found
close_found-Counts f fd i h c = record {
  fresh =
      rw ((delta-fields i (u64 - 1) f).0, (delta-fields i (u64 - 1) f).1)
        (Fresh-erase f.fd_counter fd f.fds c.fresh);
  positive_counter = rw ((delta-fields i (u64 - 1) f).1) c.positive_counter;
  counts = λ j.
      rw ((delta-fields i (u64 - 1) f).0, counted-delta f i j (u64 - 1) (omega arith))
        (ground (
          arith,
          same_key_iff i j,
          same_key_refl i,
          c.counts i,
          c.counts j,
          handles-erase fd i i f.fds h,
          handles-erase fd i j f.fds h,
        ));
}

-- Closing any number, a handle in use or not, keeps the invariant on handles and reference counts.
pub close_fd-Counts : (f : FdManager) (fd : ℕ) → Counts f → Counts (close_fd fd f)
unfolding close_fd close_found
close_fd-Counts f fd c = elim (Bool-cases (fd == 0)) [
  | inl e ↦ rw e c
  | inr e ↦ elim (Option-cases (find_fd fd f.fds)) [
    | inl n ↦ rw (e, n) c
    | inr (i, h) ↦ rw (e, h) (close_found-Counts f fd i h c)
  ]
]
