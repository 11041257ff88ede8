-- ===== src/Inode/Entries.antt =====
-- Directory entries, `DirEntry` of include/fs_layout.h and `DirBlock` of include/inode.h.
pub mod Names
pub mod Pages
pub mod Hits
pub mod Same
pub mod Appended
use sbfs.Prelude.{
  ℕ, zero, suc, ◌+◌, ◌*◌, ◌/◌, Bool, ◌&&◌, Option, none, some, ◌==◌, if◌then◌else◌, [], ◌∷◌, take,
  update,
}
use sbfs.Block.{Block, block_size, get_le, put_le}
use sbfs.Path.{Str}
use sbfs.DiskInode.Data.{copy}

-- `kMaxDirNameLength`, `sizeof(DirEntry)` and `kDirEntries`.
abbrev pub max_name : ℕ
max_name = 251

abbrev pub entry_bytes : ℕ
entry_bytes = 256

abbrev pub entries_in_block : ℕ
entries_in_block = block_size / entry_bytes

-- A `DirBlock` of entries without a name, to read into. The constructor leaves the other bytes of
-- an entry open; they are 0 here, since no one looks behind the end of a name, and a block that is
-- written has been read as a whole.
abbrev pub fresh_block : Block
fresh_block = λ o. 0

pub put_string : Str → Block → ℕ → Block
put_string [] b o = b
put_string (c ∷ s) b o = put_string s (update b o c) (o + 1)

-- The constructor: `strncpy` of at most `max_name` characters over zeros.
pub new_entry : Str → (inode : ℕ) → Block
unfolding put_string
new_entry name inode = put_le 4 (put_string (take max_name name) (λ o. 0) 0) (max_name + 1) inode

pub dot_entries : (inode parent : ℕ) → Block
unfolding new_entry
dot_entries inode parent =
    copy entry_bytes 0 entry_bytes (new_entry (46 ∷ 46 ∷ []) parent) (new_entry (46 ∷ []) inode)

pub entry_inode : Block → ℕ → ℕ
entry_inode b j = get_le 4 b (entry_bytes * j + max_name + 1)

-- `strcmp(entry.name, name) == 0`, for the C string at offset `o`.
pub has_name : Block → ℕ → Str → Bool
has_name b o [] = b o == 0
has_name b o (c ∷ s) = (b o == c) && has_name b (o + 1) s

-- The first of the `n` entries from entry `j` on that has the name.
pub find_entry : (n j : ℕ) → Str → Block → Option ℕ
unfolding has_name
find_entry zero j name b = none
find_entry (suc n) j name b =
    let rest = find_entry n (j + 1) name b in
    if has_name b (entry_bytes * j) name then some j else rest
