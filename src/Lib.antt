-- ===== src/Lib.antt =====
-- vexfs: the storage core of VexFS, a file system in user space, with a write-ahead journal.
--
-- The parts modelled, from the bottom: the byte I/O and the on-disk records (src/fs/disk.rs), the
-- write-ahead journal above them (src/fs/journal.rs), the list of free extents
-- (src/fs/free_list.rs), the inode table (src/fs/inode_table.rs), the disk manager that ties
-- these together (src/fs/mod.rs), and in memory the B+ tree of directory entries
-- (src/fs/btree.rs), the snapshots (src/fs/snapshot.rs), the write buffer (src/fs/buffer.rs),
-- compression (src/fs/compress.rs) and the ARC cache (src/cache/mod.rs), and above all of them
-- the calls of the kernel (src/fuse/mod.rs). A call looks names up in the index, keeps the bytes
-- of files in the cache, and passes them through the write buffer to the disk manager when they
-- are due or the cache is about to evict them. The disk manager hands its file to the journal,
-- the free list and the inode table in turn, and keeps the end of the data region of the
-- superblock and of the inode table in step.
--
-- - Base: the native natural numbers, tests, lists, words of 32 and 64 bits, little-endian bytes
--   (u64_to_le and its kin of src/fs/disk.rs), a stable sort for `sort_by_key`, and maps and sets
--   with distinct keys for HashMap and HashSet.
-- - File: std::fs::File as a size, its bytes, and a budget of writes, with read_bytes, read_vec
--   and write_bytes of src/fs/disk.rs. File/Ranges has reads after writes.
-- - Disk: src/fs/disk.rs. Disk/Result has the errors and verify_crc32; Disk/Superblock,
--   Disk/Inode and Disk/Snapshot have the records with to_bytes and from_bytes; Disk/Name has
--   get_name and set_name.
-- - Journal: src/fs/journal.rs. Journal/Records has the header and the entries on disk, Journal
--   itself the methods. Journal/Slots reads the region as a list of entries, Journal/Append,
--   Journal/Format and Journal/Split are about methods that succeed, Journal/Crash and
--   Journal/Prefix about methods that are cut off, Journal/Recovery and Journal/Replay about
--   `open`, Journal/Atomic puts them together, and Journal/Region is about the bytes outside the
--   journal.
-- - FreeList: src/fs/free_list.rs. FreeList/Cover has the bytes that a list covers and the merge,
--   FreeList/Free, FreeList/Alloc, FreeList/Account and FreeList/Rebuild the methods,
--   FreeList/Persist the list on disk and FreeList/Saved its round trip.
-- - InodeTable: src/fs/inode_table.rs. InodeTable/Slots is about the offsets of the slots,
--   InodeTable/Stored about what is read after a write, InodeTable/Search about alloc_inode,
--   InodeTable/Growth about its new blocks, InodeTable/Directory about the block directory.
-- - DiskManager: src/fs/mod.rs, opening, formatting, inodes and file data; DiskManager/Extents
--   has allocation, the snapshot table and flush, DiskManager/Replay the replay of a large write,
--   DiskManager/Write the method write_file_data; DiskManager/Applied says what replaying entries
--   does to the bytes, DiskManager/Crash what a write leaves that is cut off, DiskManager/Reopen
--   what `open` makes of it, and DiskManager/Durable puts these together; DiskManager/Allocation
--   is about alloc_data.
-- - Snapshots: src/fs/snapshot.rs, the manager in memory; Snapshots/Versions is about taking and
--   restoring.
-- - Cache: src/cache/mod.rs. Cache/Sets has the ordered sets, Cache/Invariant the invariant of
--   the cache, Cache/Eviction, Cache/Insert, Cache/Store, Cache/Methods and Cache/Ceiling the
--   methods.
-- - Btree: src/fs/btree.rs, the methods of BPlusTree. Btree/Order has the keys and their order,
--   Btree/Vec the methods of `Vec` that it calls, Btree/Tree the nodes. Btree/Entries is the
--   abstract view, a sorted list of entries, and Btree/View what lookup makes of it; Btree/Search
--   has the invariant of the nodes and `get`, Btree/Leaf, Btree/Overflow and Btree/Insert the
--   insertion, Btree/Remove the removal, Btree/Range the scans; Btree/Directory and Btree/Listing
--   are about the tree's methods, and Btree/Session about sequences of them.
-- - Buffer: src/fs/buffer.rs, the write buffer of files that are not yet on disk; Buffer/Due is
--   about which of them are due.
-- - Compress: src/fs/compress.rs, compression with a header; Compress/Stored is about what is
--   read back.
-- - Fuse: src/fuse/mod.rs, the state of VexFS. Fuse/Persist has the path of data to the disk,
--   Fuse/Names and Fuse/Edits the calls on directory entries, Fuse/Data the calls on data,
--   Fuse/Load the loader. Fuse/Steps is about methods as steps on the state, Fuse/Frame about
--   what the path to the disk leaves as it is; Fuse/Links and Fuse/Linked have the invariant of
--   the index and the files, Fuse/Entries, Fuse/Removal, Fuse/Moves, Fuse/Versions and Fuse/Calls
--   are about the calls, Fuse/Session about sequences of them; Fuse/Contents, Fuse/Holds and
--   Fuse/Writes are about reads after a write, Fuse/Refusals about rmdir, and Fuse/Rename about
--   the index after a rename.
-- - The modules named Runs hold tests and the theorems at concrete inputs.
--
-- How the code is modelled. A method on `&mut self` and a file is a function from a state to its
-- result and the state that it leaves, also when the result is an error; `panic` is a failed
-- assertion or an index out of range. The file's budget counts the writes that still succeed, and
-- every write after them fails, which stands for an I/O error and for a power cut at any point
-- between two writes; a single write_all is taken as whole. `flush` writes nothing that the model
-- holds back. The function crc32 of the crate crc32fast is a parameter; the codecs need that its
-- values fit 32 bits, and nothing else is assumed of it. The crate zstd is two functions, and the
-- round trip of compression assumes that what it encoded it decodes. The clock is an argument,
-- one value for a call. What the thread of the AI engine has left in its shared state, the
-- results that the virtual files show and the ranked names, is given to each call, and so is how
-- a query is trimmed. Sums and differences of u64 on disk offsets wrap around as in a release
-- build; the sizes of memory buffers (usize in the cache) are taken not to overflow. A name is
-- its bytes. The text of an error is left out.
--
-- Fuel. The loop of `insert` that evicts has one round for each resident key and one more,
-- `truncate_to` one for each key of the set, and `log_data_write_all` one for each byte; each
-- round uses up one of these.
--
-- Not modelled: the queries of src/fs/snapshot.rs that read in the order of a hash map, and of
-- the FUSE layer the events sent to the AI engine, the text of its telemetry file, release and
-- ai_status; the slab allocator (src/allocator), which has no operation that changes it; the AI
-- services (src/ai), and the command line and GUI (src/bin).
pub mod Base
pub mod Disk
pub mod File
pub mod Journal
pub mod FreeList
pub mod Cache
pub mod InodeTable
pub mod DiskManager
pub mod Snapshots
pub mod Btree
pub mod Buffer
pub mod Compress
pub mod Fuse
