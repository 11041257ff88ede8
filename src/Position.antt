-- ===== src/Position.antt =====
-- `Position` of include/fs_layout.h and `Inode` of include/inode.h. An inode is its position here:
-- the pointer beside it is the one file system of the program, and `operator<` ignores it.
use sbfs.Prelude.{ℕ, ◌^◌, ◌-◌, ◌≡◌, ◌↔◌, Bool, true, not, ◌&&◌, ◌||◌, ◌==◌, ltb, arith}

pub record Position : Type 0 where
  pub block_id : ℕ
  pub block_offset : ℕ

abbrev pub Inode : Type 0
Inode = Position

abbrev pub u32_max : ℕ
u32_max = 2 ^ 32 - 1

abbrev pub invalid : Position
invalid = record { block_id = u32_max; block_offset = u32_max }

abbrev pub is_valid : Position → Bool
is_valid p = not (p.block_id == u32_max)

-- `Inode::operator<`.
abbrev pub pos_lt : Position → Position → Bool
pos_lt a b =
    ltb a.block_id b.block_id || (a.block_id == b.block_id && ltb a.block_offset b.block_offset)

-- The equivalence of keys in a `std::map` ordered by it.
unfoldable pub same_key : Position → Position → Bool
same_key a b = not (pos_lt a b) && not (pos_lt b a)

-- Neither of two inodes is less than the other exactly when they are at one position, so that they
-- are one key of a map.
pub same_key_iff : (a b : Position) → (same_key a b ≡ true) ↔ (a ≡ b)
unfolding same_key
same_key_iff a b = ground arith
