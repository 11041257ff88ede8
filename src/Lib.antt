-- ===== src/Lib.antt =====
-- Verification of SBFS, a small file system on one disk file.
--
-- A block device serves blocks of 4096 bytes through a write-back cache. Two bitmaps on it say
-- which inodes and which data blocks are in use. A disk inode finds the blocks of its file through
-- 23 direct ids, one index block and one block of index blocks, and takes and gives back data
-- blocks as the file is resized. Above these stand the layout of the disk with its super block, the
-- inodes with the entries of directories, the path resolver with a cache of paths and a clock that
-- evicts from it, and the table of file handles. The handlers of libfuse call these one at a time,
-- under a mutex. The program is taken as its build files configure it, with BLOCK_CACHE, PATH_CACHE
-- and NDEBUG, under which `rt_assert` does nothing.
--
-- The files, and the code that they model (paths from the root of the repository):
--   Storage: `pread` and `pwrite` of the kernel, a parameter with the documented behaviour as laws;
--   Block: `Block` of include/blk.h, and little-endian words in it;
--   Cache and its children: `LRUCacheManager`, include/lru_cache.h and src/lru_cache.cpp;
--   Device: `BlockDevice`, src/blk_dev.cpp, with its constructor in Device.Start;
--   BlockCache: `BlockCacheManager`, src/blk_cache.cpp, and `BlockDevice` over it, as a build without
--     BLOCK_CACHE has them;
--   Store: the interface of the block device that bitmaps and inodes are written against, which
--     Device.Laws and BlockCache.Laws fill, with sequences of its calls in Store.Calls;
--   Word, Bitmap: `Bitmap`, src/bitmap.cpp, and the bit operations on its words;
--   Position, Fd: `Position`, the order of `Inode`s, `FDManager` of include/fd_manager.h;
--   DiskInode and its children: `DiskInode`, src/disk_inode.cpp, a file for each group of methods,
--     with `read_inode` and `write_inode` of src/inode.cpp in DiskInode.Bytes;
--   Layout: the counts and offsets of src/sbfs.cpp, and in Layout.Root its `createRoot`, `create`
--     and `open` on a device;
--   Inode and its children: the other methods of `Inode`, src/inode.cpp, with `remove`, `link` and
--     `unlink` in Inode.Links and the directory entries in Inode.Entries;
--   Path: the string functions of src/path_resolver.cpp, and `removePrefix` on a map of any values;
--   Resolver and its children: `PathResolver`, include/path_resolver.h and src/path_resolver.cpp;
--   Vfs and its children: src/vfs.cpp, `splitFromLastSlash` and `sb_rmw_diskinode` in Vfs, the
--     handlers in Attributes, Directories, Files and Rename, `init_vfs` in Start, and from the
--     device's constructor on, to the disk file that `sb_destroy` leaves, in Restart; the requests
--     of libfuse, as include/vfs.h declares them, in Requests, and sequences of them in Session;
--   Main: `main` of src/main.cpp;
--   Tests: concrete inputs, to which each theorem is applied.
--
-- A function that can fail is a state transformer that returns an `Option`: `none` is `kFail`, and
-- the state is what the source has changed until then. Where the source does not look at a result,
-- the model does not either. Loops are structural recursion on the number of their rounds, which
-- the caller computes from the loop's bounds, so no fuel is needed. Numbers are natural numbers;
-- where a sum, a product or a difference of the source can wrap, the model wraps. The variables of
-- type `int` in `read_data` and `write_data`, negative from the offset 2 ^ 31 on, are the `uint32_t`
-- with their bits.
--
-- An operation on an inode reads the clock once. A handler answers with a result, an error number,
-- or `crash` where the source throws or follows a pointer that is null or was never set; its state
-- is the device, the resolver and the table of handles. What a local variable holds before it is
-- set is a parameter, except for the bytes behind the name of an empty entry in a buffer that is
-- read into. The rounds of `evict` and of its inner loop are bounded by the number of entries: a
-- round of the one erases an entry, a round of the other takes a mark away. The map of the path
-- cache is two lists, cut at the entry where the clock stands; an entry counts the bytes that
-- `std::string` and the value have on a 64-bit machine. Where `removePrefix` erases the entry at
-- the clock, the iterator of the source dangles; the model goes on at the entry after it.
--
-- Not modelled: the destructors and the `posix_memalign` of `init_vfs`; the mutex of the handlers,
-- so that the program is sequential; the handlers on a file system that `open` refused, whose
-- members were never set; the arithmetic on `double` in `sb_utimens`, which is a parameter. `open`,
-- `stat` and `ftruncate` of the kernel and `fuse_opt_parse` are arguments of the model, `ftruncate`
-- with its documented laws.
pub mod Bitmap
pub mod Block
pub mod BlockCache
pub mod Cache
pub mod Device
pub mod DiskInode
pub mod Fd
pub mod Inode
pub mod Layout
pub mod Main
pub mod Path
pub mod Position
pub mod Prelude
pub mod Resolver
pub mod Storage
pub mod Store
pub mod Tests
pub mod Vfs
pub mod Word
