-- ===== src/Fd/Histories.antt =====
-- `FDManager` after any sequence of calls of `open` and `close`.
use sbfs.Prelude.{
  ℕ, ◌+◌, ◌-◌, ◌%◌, ◌<◌, ◌≤◌, ◌≡◌, refl, ◌∙◌, ◌↔◌, true, none, some, List, [], ◌∷◌, ◌==◌, length,
  arith, Bool-cases, Option-cases, inl, inr,
}
use sbfs.Position.{Inode}
use sbfs.Fd.{
  u64, FdManager, init, find_fd, erase_fd, insert_fd, open_fd, get_fd, close_fd, close_found,
  is_open,
}
use sbfs.Fd.Counts.{
  Counts, Fresh, init-Counts, open_fd-Counts, close_fd-Counts, open_fd-get, delta-fields,
  insert-fresh, find-Fresh,
}
use sbfs.Fd.Open.{is_open_iff}

-- What calls make of a new manager, with the number of calls of `open` among them.
pub data Reached : ℕ → FdManager → Type 0 where
  start : Reached 0 init
  opened : {n : ℕ} {f : FdManager} → (i : Inode) → Reached n f → Reached (n + 1) (open_fd i f).1
  closed : {n : ℕ} {f : FdManager} → (fd : ℕ) → Reached n f → Reached n (close_fd fd f)

record Inv (n : ℕ) (f : FdManager) : Type 0 where
  counts : Counts f
  counter : f.fd_counter ≡ 10 + n
  few : length f.fds ≤ n

open_fd-Inv :
    (n : ℕ) (f : FdManager) (i : Inode) → n + 11 < u64 → Inv n f → Inv (n + 1) (open_fd i f).1
unfolding open_fd
open_fd-Inv n f i h v =
    let m = f.fd_counter in
    let step = record f { fd_counter = (m + 1) % u64; fds = insert_fd m i f.fds } in
    let same = insert-fresh m i f.fds (find-Fresh m f.fds v.counts.fresh) in
    record {
      counts = open_fd-Counts f i (omega (arith, v.counter)) v.counts;
      counter = (delta-fields i 1 step).1 ∙ omega (arith, v.counter);
      few = rw ((delta-fields i 1 step).0, same) (omega (arith, v.few));
    }

length-erase_fd : (fd : ℕ) (m : List (ℕ × Inode)) → length (erase_fd fd m) ≤ length m
unfolding erase_fd
length-erase_fd fd [] = omega arith
length-erase_fd fd ((k, i) ∷ m) = ground (arith, length-erase_fd fd m)

pub open_fd-counter :
    (f : FdManager) (i : Inode) → (open_fd i f).1.fd_counter ≡ (f.fd_counter + 1) % u64
unfolding open_fd
open_fd-counter f i = (delta-fields i 1 _).1

pub close_fd-fields :
    (f : FdManager) (fd : ℕ)
    → ((close_fd fd f).fd_counter ≡ f.fd_counter) × (length (close_fd fd f).fds ≤ length f.fds)
unfolding close_fd close_found
close_fd-fields f fd = elim (Bool-cases (fd == 0)) [
  | inl e ↦ rw e (refl, omega arith)
  | inr e ↦ elim (Option-cases (find_fd fd f.fds)) [
    | inl n ↦ rw (e, n) (refl, omega arith)
    | inr (i, h) ↦
        let d = delta-fields i (u64 - 1) f in rw (e, h) (d.1, rw d.0 (length-erase_fd fd f.fds))
  ]
]

close_fd-Inv : (n : ℕ) (f : FdManager) (fd : ℕ) → Inv n f → Inv n (close_fd fd f)
close_fd-Inv n f fd v =
    let (same, fewer) = close_fd-fields f fd in
    record {
      counts = close_fd-Counts f fd v.counts;
      counter = same ∙ v.counter;
      few = omega (arith, v.few);
    }

Reached-Inv : (n : ℕ) (f : FdManager) → n + 11 < u64 → Reached n f → Inv n f
unfolding init
Reached-Inv n f h start = record { counts = init-Counts; counter = refl; few = omega arith }
Reached-Inv n f h (opened {n = m} {f = g} i r) =
    open_fd-Inv m g i (omega arith) (Reached-Inv m g (omega arith) r)
Reached-Inv n f h (closed {f = g} fd r) = close_fd-Inv n g fd (Reached-Inv n g h r)

zero_closed : (n : ℕ) (m : List (ℕ × Inode)) → Fresh n m → find_fd 0 m ≡ none
unfolding find_fd
zero_closed n [] h = refl
zero_closed n ((k, i) ∷ m) h = ground (arith, zero_closed n m h.3)

-- After any sequence of `open` and `close` on a new manager with fewer than 2 ^ 64 - 11 calls of
-- `open`, an inode counts as open exactly when some handle leads to it, and the handle that the
-- next `open` returns is not 0 and is not in use.
pub Reached-safe :
    (n : ℕ) (f : FdManager) (i : Inode)
    → n + 11 < u64
    → Reached n f
    → ((is_open i f ≡ true) ↔ ((fd : ℕ) × (get_fd fd f ≡ some i)))
      × (0 < (open_fd i f).0)
      × (get_fd (open_fd i f).0 f ≡ none)
unfolding open_fd get_fd
Reached-safe n f i h r =
    let v = Reached-Inv n f h r in
    let z = zero_closed f.fd_counter f.fds v.counts.fresh in
    let (to, from) = is_open_iff f i v.counts (omega (arith, v.few)) in
    (
      (λ e. let (fd, found) = to e in (fd, ground arith), λ (fd, e). from (fd, ground arith)),
      v.counts.positive_counter,
      (open_fd-get f i 0 v.counts).0,
    )
