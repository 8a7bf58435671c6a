-- ===== src/DiskManager.antt =====
-- src/fs/mod.rs: the disk manager, which ties the parts of an image together.
pub mod Extents
pub mod Replay
pub mod Write
pub mod Applied
pub mod Crash
pub mod Reopen
pub mod Durable
pub mod Allocation
mod Runs
use vexfs.Base.{
  ℕ, zero, suc, ◌+◌, ◌-◌, ◌*◌, ◌/◌, ◌%◌, ◌^◌, List, [], ◌∷◌, Option, none, some, Bool, true, false,
  ◌||◌, ltb, leb, ◌==◌, if◌then◌else◌, length, take, replicate, add_u64,
}
use vexfs.Disk.Result.{DiskResult, ok, err, panic, io, bad_magic}
use vexfs.Disk.Superblock.{SuperblockRaw, superblock_to_bytes, superblock_from_bytes}
use vexfs.Disk.Inode.{InodeRaw, inode_bytes, inode_to_bytes}
use vexfs.Disk.Snapshot.{
  SnapshotRaw, snapshot_bytes, empty_snapshot, snapshot_to_bytes, snapshot_from_bytes,
}
use vexfs.File.{File, Exec, after, ◌>>=◌, ◌>>◌, pure, read_bytes, read_vec, write_bytes}
use vexfs.Journal.{
  Journal, JournalFile, begin_tx, log_inode_write_at, log_data_write_all, commit, clear,
  needs_checkpoint, open_journal,
}
use vexfs.Journal
use vexfs.Journal.Records.{JournalEntry, entry_write_inode, entry_write_data, journal_payload_size}
use vexfs.FreeList.{FreeList, new, free, alloc}
use vexfs.FreeList.Persist.{save, load}
use vexfs.InodeTable.{
  InodeTable, TableFile, new_table, open_table, save_directory, inode_offset, capacity,
  inode_block_size, inodes_per_block, used_count,
}
use vexfs.InodeTable

abbrev pub disk_magic : ℕ
disk_magic = 0x5645584653000001

abbrev pub block_size : ℕ
block_size = 4096

abbrev pub max_files : ℕ
max_files = 65536

abbrev pub inode_table_offset : ℕ
inode_table_offset = 4096

abbrev pub snapshot_table_offset : ℕ
snapshot_table_offset = inode_table_offset + inode_block_size

abbrev pub snapshot_record_size : ℕ
snapshot_record_size = 512

abbrev pub max_snapshot_slots : ℕ
max_snapshot_slots = 256

-- Behind the journal.
abbrev pub data_offset : ℕ
data_offset = Journal.slot_offset Journal.max_journal_entries

-- A manager without its file.
pub record DiskManager : Type 0 where
  pub superblock : SuperblockRaw
  pub journal : Journal
  pub free_list : FreeList
  pub inode_table : InodeTable

pub record Image : Type 0 where
  pub manager : DiskManager
  pub file : File

-- A method of a part, run on the image.
abbrev pub on_file : {A : Type 0} → Exec File A → Exec Image A
on_file m s = let (r, f) = m s.file in (r, record s { file = f })

abbrev pub on_journal : {A : Type 0} → Exec JournalFile A → Exec Image A
on_journal m s =
    let (r, j) = m (record { journal = s.manager.journal; file = s.file }) in
    (r, record { manager = record s.manager { journal = j.journal }; file = j.file })

abbrev pub on_table : {A : Type 0} → Exec TableFile A → Exec Image A
on_table m s =
    let (r, t) = m (record { table = s.manager.inode_table; file = s.file }) in
    (r, record { manager = record s.manager { inode_table = t.table }; file = t.file })

-- A longer payload is out of its range.
unfoldable pub replay_entry : JournalEntry → Exec File (Unit {0})
replay_entry e f =
    if e.entry_type == entry_write_inode || e.entry_type == entry_write_data
    then (if leb e.payload_len journal_payload_size
        then write_bytes e.disk_offset (take e.payload_len e.payload) f
        else (panic, f))
    else (ok tt, f)

unfoldable pub replay_entries : List JournalEntry → Exec File (Unit {0})
replay_entries [] f = (ok tt, f)
replay_entries (e ∷ es) f = (do replay_entry e; replay_entries es) f

-- `unwrap_or_else(|_| FreeList::new())`.
unfoldable pub list_or_new : DiskResult FreeList → DiskResult FreeList
list_or_new (ok fl) = ok fl
list_or_new (err _) = ok new
list_or_new panic = panic

-- A read that leaves the file.
abbrev pub reading : {A : Type 0} → (File → DiskResult A) → Exec File A
reading m f = (m f, f)

module _ (crc : List ℕ → ℕ) where
  unfoldable pub read_superblock : File → DiskResult SuperblockRaw
  read_superblock f = elim (read_bytes 0 64 f) [
    | ok bytes ↦ elim (superblock_from_bytes crc bytes) [
      | ok sb ↦ if sb.magic == disk_magic then ok sb else err (bad_magic disk_magic sb.magic)
      | err x ↦ err x
      | panic ↦ panic
    ]
    | err x ↦ err x
    | panic ↦ panic
  ]

  -- The journal of `open`, cleared if anything was replayed.
  unfoldable pub replay : Journal → List JournalEntry → Exec File Journal
  replay j [] f = (ok j, f)
  replay j (e ∷ es) f =
      let (r, f') = replay_entries (e ∷ es) f in
      after r
        (λ _ f''.
          let (r', s) = clear crc (record { journal = j; file = f'' }) in
          after r' (λ _. pure s.journal) s.file)
        f'

  -- `DiskManager::open`.
  unfoldable pub open_disk : Exec File DiskManager
  open_disk = do
    superblock ← reading read_superblock
    opened ← reading (open_journal crc)
    journal ← replay opened.0 opened.1
    free_list ← reading (λ f. list_or_new (load crc f))
    table ← reading (open_table inode_table_offset superblock.next_data_offset)
    pure (record {
      superblock = superblock;
      journal = journal;
      free_list = free_list;
      inode_table = table;
    })

  -- `DiskManager::format`, at the time `now`.
  unfoldable pub format_disk : ℕ → ℕ → Exec File DiskManager
  format_disk size_bytes now =
      let superblock : SuperblockRaw = record {
        magic = disk_magic;
        version = 1;
        block_size = block_size;
        total_blocks = size_bytes / block_size;
        free_blocks = size_bytes / block_size;
        inode_count = 0;
        next_data_offset = data_offset;
        created_at = now;
        crc32 = 0;
      } in
      let table = new_table inode_table_offset data_offset in
      do
        write_bytes 0 (superblock_to_bytes crc superblock)
        write_bytes inode_table_offset (replicate (inodes_per_block * inode_bytes) 0)
        write_bytes snapshot_table_offset (replicate (max_snapshot_slots * snapshot_record_size) 0)
        journal ← Journal.format crc
        save_directory table
        pure (record {
          superblock = superblock;
          journal = journal;
          free_list = new;
          inode_table = table;
        })

  unfoldable pub write_superblock : Exec Image (Unit {0})
  write_superblock s = on_file (write_bytes 0 (superblock_to_bytes crc s.manager.superblock)) s

  -- `if self.journal.needs_checkpoint() { self.journal.clear(..)? }`.
  unfoldable pub checkpoint : Exec Image (Unit {0})
  checkpoint s = if needs_checkpoint s.manager.journal then on_journal (clear crc) s else (ok tt, s)

  -- `write_inode` for an index whose slot is at the offset.
  unfoldable pub write_inode_at : ℕ → ℕ → InodeRaw → Exec Image (Unit {0})
  write_inode_at index offset inode = do
    tx ← on_journal (begin_tx crc)
    on_journal (log_inode_write_at crc tx offset (inode_to_bytes crc inode))
    on_journal (commit crc tx)
    (λ s. on_file (InodeTable.write_inode crc s.manager.inode_table index inode) s)
    checkpoint

  unfoldable pub write_inode : ℕ → InodeRaw → Exec Image (Unit {0})
  write_inode index inode s =
      if ltb index max_files
      then (elim (inode_offset s.manager.inode_table index) [
        | none ↦ (err io, s)
        | some offset ↦ write_inode_at index offset inode s
      ])
      else (panic, s)

  unfoldable pub read_inode : ℕ → Image → DiskResult InodeRaw
  read_inode index s =
      if ltb index max_files
      then InodeTable.read_inode crc s.manager.inode_table index s.file
      else panic

  -- `write_file_data`.
  unfoldable pub write_file_data : ℕ → List ℕ → Exec Image (Unit {0})
  write_file_data offset [] s = (ok tt, s)
  write_file_data offset (b ∷ bs) s =
      (do
        tx ← on_journal (begin_tx crc)
        written ← on_journal (log_data_write_all crc tx offset (b ∷ bs))
        on_journal (commit crc tx)
        on_file (write_bytes offset (b ∷ bs))
        checkpoint)
        s
