-- ===== src/Fuse/Load.antt =====
-- src/fuse/mod.rs: `VexFS::load`, up to the state of the AI engine.
use vexfs.Base.{
  ℕ, zero, suc, ◌+◌, ◌%◌, ◌^◌, List, [], ◌∷◌, ◌++◌, Option, none, some, false, ltb, leb, ◌==◌,
  if◌then◌else◌, length, max, add_u64,
}
use vexfs.Base.Map
use vexfs.Disk.Result.{ok, err, panic}
use vexfs.Disk.Inode.{InodeRaw, get_parent_ino}
use vexfs.Disk.Inode
use vexfs.Disk.Snapshot.{SnapshotRaw}
use vexfs.Disk.Snapshot
use vexfs.Disk.Name.{get_name}
use vexfs.DiskManager.{Image, read_inode}
use vexfs.DiskManager.Extents.{read_file_data, read_snapshot, inode_capacity}
use vexfs.Compress.{decompress}
use vexfs.Snapshots.{Snapshot, SnapshotManager, list_of}
use vexfs.Btree
use vexfs.Cache
use vexfs.Fuse.{VexFs, VexFile, World, make_attr, new}
use vexfs.Fuse.Data.{or_empty, snapshot_magic}

-- The bytes of an extent, empty if there are none or they cannot be read.
abbrev pub extent_bytes : ℕ → ℕ → Image → List ℕ
extent_bytes offset size image =
    if ltb 0 size then or_empty (read_file_data offset size image) else []

abbrev pub file_bytes : World → InodeRaw → Image → List ℕ
file_bytes w inode image =
    if ltb 0 inode.size
    then decompress w.encode w.decode (or_empty (read_file_data inode.data_offset inode.size image))
    else []

abbrev pub loaded_file : ℕ → InodeRaw → VexFile
loaded_file i inode = record {
  name = get_name inode.name;
  attr = make_attr inode.ino inode.size (inode.is_dir == 1);
  disk_index = i;
  dirty = false;
  open_since = none;
  parent_ino = get_parent_ino inode;
  data_offset = inode.data_offset;
}

-- An inode of a file enters the index, the map of files and the cache.
unfoldable pub load_file : World → ℕ → InodeRaw → VexFs → Option VexFs
load_file w i inode s = elim (Cache.insert s.cache inode.ino (file_bytes w inode s.disk)) [
  | none ↦ none
  | some cache ↦
      elim (Btree.insert (get_parent_ino inode) (get_name inode.name)
        (record { ino = inode.ino; size = inode.size; is_dir = inode.is_dir == 1; disk_index = i })
        s.index) [
          | none ↦ none
          | some index ↦ some (record s {
            index = index;
            files = Map.insert inode.ino (loaded_file i inode) s.files;
            cache = cache;
            next_inode = if leb s.next_inode inode.ino then add_u64 inode.ino 1 else s.next_inode;
          })
        ]
]

-- An inode that is not in use or has no name is left out.
unfoldable pub load_inode : World → ℕ → InodeRaw → VexFs → Option VexFs
load_inode w i inode s =
    if Inode.is_valid inode
    then if length (get_name inode.name) == 0 then some s else load_file w i inode s
    else some s

-- The loop over `count` inodes from `i` on, which ends at an inode that cannot be read.
unfoldable pub load_inodes : World → ℕ → ℕ → VexFs → Option VexFs
load_inodes w zero i s = some s
load_inodes w (suc count) i s = elim (read_inode w.crc i s.disk) [
  | err _ ↦ some s
  | panic ↦ none
  | ok inode ↦ elim (load_inode w i inode s) [
    | none ↦ none
    | some s' ↦ load_inodes w count (i + 1) s'
  ]
]

abbrev pub loaded_snapshot : ℕ → SnapshotRaw → Image → Snapshot
loaded_snapshot i snap image = record {
  id = snap.id;
  ino = snap.ino;
  name = get_name snap.name;
  size = snap.size;
  data_offset = snap.data_offset;
  timestamp = snap.timestamp;
  bytes = extent_bytes snap.data_offset snap.size image;
  disk_slot = i;
}

abbrev pub push_snapshot : Snapshot → SnapshotManager → SnapshotManager
push_snapshot snap m = record m {
  snapshots = Map.insert snap.ino (list_of snap.ino m ++ (snap ∷ [])) m.snapshots;
}

unfoldable pub load_snapshot : ℕ → SnapshotRaw → Image → SnapshotManager → SnapshotManager
load_snapshot i snap image m =
    if Snapshot.is_valid snap snapshot_magic
    then if length (get_name snap.name) == 0
      then m
      else push_snapshot (loaded_snapshot i snap image) m
    else m

unfoldable pub load_snapshots : World → ℕ → ℕ → Image → SnapshotManager → Option SnapshotManager
load_snapshots w zero i image m = some m
load_snapshots w (suc count) i image m = elim (read_snapshot w.crc i image.file) [
  | err _ ↦ some m
  | panic ↦ none
  | ok snap ↦ load_snapshots w count (i + 1) image (load_snapshot i snap image m)
]

-- The largest id of the snapshots.
unfoldable pub max_id : List Snapshot → ℕ
max_id [] = 0
max_id (s ∷ ss) = max s.id (max_id ss)

unfoldable pub max_id_of : List (ℕ × List Snapshot) → ℕ
max_id_of [] = 0
max_id_of ((ino, snaps) ∷ rest) = max (max_id snaps) (max_id_of rest)

-- `next_id` behind the snapshots that were loaded; with none it stays 1.
abbrev pub renumbered : SnapshotManager → SnapshotManager
renumbered m =
    if length m.snapshots == 0
    then m
    else record m { next_id = (max_id_of m.snapshots + 1) % 2 ^ 32 }

unfoldable pub load : World → Image → Option VexFs
load w disk = elim (load_inodes w (inode_capacity disk.manager) 0 (new disk)) [
  | none ↦ none
  | some s ↦ elim (load_snapshots w 256 0 disk s.snapshots) [
    | none ↦ none
    | some m ↦ some (record s { snapshots = renumbered m })
  ]
]
