-- ===== src/Inode/Create.antt =====
-- `Inode::create` in a directory with direct blocks, whose last block has room for an entry.
pub mod Appended
pub mod Made
pub mod Found
