-- ===== src/Fd.antt =====
-- `FDManager` of include/fd_manager.h. A `std::map` is the list of its pairs, in any order; the
-- functions on it are those of the library that the source calls. Counters are `uint64_t`.
pub mod Counts
pub mod Open
pub mod Histories
use sbfs.Prelude.{
  ℕ, ◌+◌, ◌-◌, ◌%◌, ◌^◌, Bool, false, Option, none, some, List, [], ◌∷◌, ◌==◌, ltb, if◌then◌else◌,
}
use sbfs.Position.{Inode, same_key}

abbrev pub u64 : ℕ
u64 = 2 ^ 64

pub record FdManager : Type 0 where
  pub fds : List (ℕ × Inode)
  pub reference_count : List (Inode × ℕ)
  pub fd_counter : ℕ

-- `find` in the two maps.
pub find_fd : ℕ → List (ℕ × Inode) → Option Inode
find_fd fd [] = none
find_fd fd ((k, i) ∷ m) = if k == fd then some i else find_fd fd m

pub find_count : Inode → List (Inode × ℕ) → Option ℕ
find_count i [] = none
find_count i ((j, n) ∷ m) = if same_key j i then some n else find_count i m

-- `insert` keeps an entry that is there.
pub insert_fd : ℕ → Inode → List (ℕ × Inode) → List (ℕ × Inode)
unfolding find_fd
insert_fd fd i m = elim (find_fd fd m) [ none ↦ (fd, i) ∷ m | some j ↦ m ]

pub erase_fd : ℕ → List (ℕ × Inode) → List (ℕ × Inode)
erase_fd fd [] = []
erase_fd fd ((k, i) ∷ m) = if k == fd then m else (k, i) ∷ erase_fd fd m

-- `reference_count[inode] += delta`, at an entry that is there.
pub add_count : Inode → ℕ → List (Inode × ℕ) → List (Inode × ℕ)
add_count i d [] = []
add_count i d ((j, n) ∷ m) =
    if same_key j i then (j, (n + d) % u64) ∷ m else (j, n) ∷ add_count i d m

unfoldable pub init : FdManager
init = record { fds = []; reference_count = []; fd_counter = 10 }

-- A negative `delta` is the `uint64_t` that it converts to.
pub delta_ref_cnt : Inode → ℕ → FdManager → FdManager
unfolding find_count add_count
delta_ref_cnt i delta f = elim (find_count i f.reference_count) [
  | none ↦ record f { reference_count = (i, delta) ∷ f.reference_count }
  | some n ↦ record f { reference_count = add_count i delta f.reference_count }
]

pub open_fd : Inode → FdManager → ℕ × FdManager
unfolding insert_fd delta_ref_cnt
open_fd i f =
    let fd = f.fd_counter in
    (fd, delta_ref_cnt i 1 (record f { fd_counter = (fd + 1) % u64; fds = insert_fd fd i f.fds }))

pub get_fd : ℕ → FdManager → Option Inode
unfolding find_fd
get_fd fd f = if fd == 0 then none else find_fd fd f.fds

close_found : ℕ → Option Inode → FdManager → FdManager
unfolding erase_fd delta_ref_cnt
close_found fd none f = f
close_found fd (some i) f =
    let f' = delta_ref_cnt i (u64 - 1) f in record f' { fds = erase_fd fd f'.fds }

pub close_fd : ℕ → FdManager → FdManager
unfolding find_fd close_found
close_fd fd f = if fd == 0 then f else close_found fd (find_fd fd f.fds) f

positive : Option ℕ → Bool
positive none = false
positive (some n) = ltb 0 n

pub is_open : Inode → FdManager → Bool
unfolding find_count positive
is_open i f = positive (find_count i f.reference_count)
