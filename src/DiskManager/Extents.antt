-- ===== src/DiskManager/Extents.antt =====
-- src/fs/mod.rs: allocation, the snapshot table and `flush`.
use vexfs.Base.{
  ℕ, zero, suc, ◌+◌, ◌-◌, ◌*◌, ◌%◌, List, Option, none, some, Bool, true, false, ltb, ◌==◌,
  if◌then◌else◌, replicate, add_u64,
}
use vexfs.Disk.Result.{DiskResult, ok, err, panic}
use vexfs.Disk.Snapshot.{
  SnapshotRaw, snapshot_bytes, empty_snapshot, snapshot_to_bytes, snapshot_from_bytes,
}
use vexfs.File.{File, Exec, ◌>>◌, read_bytes, read_vec, write_bytes}
use vexfs.FreeList.{free, alloc}
use vexfs.FreeList.Persist.{save}
use vexfs.InodeTable.{InodeTable, save_directory, used_count, capacity}
use vexfs.InodeTable
use vexfs.DiskManager.{
  DiskManager, Image, on_file, on_table, write_superblock, snapshot_table_offset,
  snapshot_record_size, max_snapshot_slots,
}

-- The end of the data region, aligned to 512 bytes.
abbrev pub aligned : ℕ → ℕ
aligned offset = let rem = offset % 512 in if rem == 0 then offset else add_u64 offset (512 - rem)

-- `alloc_data` behind the end of the data region.
abbrev pub extend : ℕ → DiskManager → ℕ × DiskManager
extend size m =
    let offset = m.superblock.next_data_offset in
    let end = add_u64 offset size in
    (
      offset,
      record m {
        superblock = record m.superblock { next_data_offset = aligned end };
        inode_table = record m.inode_table {
          next_disk_end =
              if ltb m.inode_table.next_disk_end end then end else m.inode_table.next_disk_end;
        };
      },
    )

unfoldable pub alloc_data : ℕ → DiskManager → ℕ × DiskManager
alloc_data size m =
    let (found, fl) = alloc m.free_list size in
    elim found [ some offset ↦ (offset, record m { free_list = fl }) | none ↦ extend size m ]

unfoldable pub free_data : ℕ → ℕ → DiskManager → DiskManager
free_data offset length m = record m { free_list = free m.free_list offset length }

unfoldable pub read_file_data : ℕ → ℕ → Image → DiskResult (List ℕ)
read_file_data offset size s = read_vec offset size s.file

abbrev pub snapshot_offset : ℕ → ℕ
snapshot_offset index = snapshot_table_offset + index * snapshot_record_size

unfoldable pub zero_snapshot_slot : ℕ → Exec Image (Unit {0})
zero_snapshot_slot index s =
    if ltb index max_snapshot_slots
    then on_file (write_bytes (snapshot_offset index) (replicate snapshot_record_size 0)) s
    else (panic, s)

-- `superblock.next_data_offset` handed to the table, and back from it.
abbrev pub lend_end : Exec Image (Unit {0})
lend_end s = (
  ok tt,
  record s {
    manager = record s.manager {
      inode_table = record s.manager.inode_table {
        next_disk_end = s.manager.superblock.next_data_offset;
      };
    };
  },
)

abbrev pub take_end : Image → Image
take_end s = record s {
  manager = record s.manager {
    superblock = record s.manager.superblock {
      next_data_offset = s.manager.inode_table.next_disk_end;
    };
  };
}

-- `let _ = ..`: an error is dropped.
abbrev pub ignoring : {A : Type 0} → A → DiskResult (Unit {0}) × Image → DiskResult A × Image
ignoring a (ok _, s) = (ok a, s)
ignoring a (err _, s) = (ok a, s)
ignoring a (panic, s) = (panic, s)

module _ (crc : List ℕ → ℕ) where
  unfoldable pub write_snapshot : ℕ → SnapshotRaw → Exec Image (Unit {0})
  write_snapshot index snap s =
      if ltb index max_snapshot_slots
      then on_file (write_bytes (snapshot_offset index) (snapshot_to_bytes crc snap)) s
      else (panic, s)

  -- A record that is corrupt reads as an empty one.
  unfoldable pub snapshot_of : List ℕ → DiskResult SnapshotRaw
  snapshot_of bytes = elim (snapshot_from_bytes crc bytes) [
    | ok snap ↦ ok snap
    | err _ ↦ ok empty_snapshot
    | panic ↦ panic
  ]

  unfoldable pub read_snapshot : ℕ → File → DiskResult SnapshotRaw
  read_snapshot index f =
      if ltb index max_snapshot_slots
      then (elim (read_bytes (snapshot_offset index) snapshot_bytes f) [
        | ok bytes ↦ snapshot_of bytes
        | err x ↦ err x
        | panic ↦ panic
      ])
      else panic

  -- The loop of `find_free_snapshot_slot` over `count` slots from `index` on.
  unfoldable pub free_snapshot_from : ℕ → ℕ → File → DiskResult (Option ℕ)
  free_snapshot_from zero index f = ok none
  free_snapshot_from (suc count) index f =
      let rest = free_snapshot_from count (index + 1) f in
      elim (read_snapshot index f) [
        | ok snap ↦ if snap.is_used == 0 then ok (some index) else rest
        | err _ ↦ rest
        | panic ↦ panic
      ]

  unfoldable pub find_free_snapshot_slot : File → DiskResult (Option ℕ)
  find_free_snapshot_slot = free_snapshot_from max_snapshot_slots 0

  -- What `alloc_inode` makes of the answer of the table.
  unfoldable pub answered : DiskResult (Option (ℕ × Bool)) → Exec Image (Option ℕ)
  answered (ok (some (index, true))) s = ignoring (some index) (write_superblock crc (take_end s))
  answered (ok (some (index, false))) s = (ok (some index), s)
  answered (ok none) s = (ok none, s)
  answered (err _) s = (ok none, s)
  answered panic s = (panic, s)

  unfoldable pub alloc_inode : Exec Image (Option ℕ)
  alloc_inode s =
      let (r, s') = on_table (InodeTable.alloc_inode crc) (lend_end s).1 in answered r s'

  unfoldable pub free_inode : ℕ → Exec Image (Unit {0})
  free_inode index s = on_file (InodeTable.free_inode crc s.manager.inode_table index) s

  unfoldable pub used_inodes : Image → ℕ
  used_inodes s = used_count crc s.manager.inode_table s.file

  unfoldable pub flush : Exec Image (Unit {0})
  flush = do
    write_superblock crc
    (λ s. on_file (save crc s.manager.free_list) s)
    (λ s. on_file (save_directory s.manager.inode_table) s)

unfoldable pub inode_capacity : DiskManager → ℕ
inode_capacity m = capacity m.inode_table
