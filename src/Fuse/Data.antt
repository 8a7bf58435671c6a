-- ===== src/Fuse/Data.antt =====
-- src/fuse/mod.rs: the calls on the data of a file. An offset is the value that the call gives it as
-- a `usize`.
use vexfs.Base.{
  ℕ, ◌+◌, ◌-◌, ◌*◌, ◌^◌, List, [], ◌∷◌, ◌++◌, Option, none, some, Bool, true, false, ◌&&◌, not, ltb,
  ◌==◌, if◌then◌else◌, length, take, drop, replicate, min,
}
use vexfs.Base.Map.{lookup}
use vexfs.Base.Map
use vexfs.Disk.Result.{DiskResult, ok, err, panic}
use vexfs.Disk.Snapshot.{SnapshotRaw, empty_snapshot}
use vexfs.Disk.Name.{set_name}
use vexfs.DiskManager.Extents.{read_file_data, find_free_snapshot_slot, write_snapshot}
use vexfs.Compress.{decompress}
use vexfs.Snapshots.{Snapshot, SnapshotManager, list_of}
use vexfs.Snapshots
use vexfs.Fuse.{
  VexFs, VexFile, FileAttr, World, Reply, replied, error, enoent, Fs, ◌>>=◌, ◌>>◌, skip, pure,
  modify, on_disk, ignore, update_file, cached, search_ino, telemetry_ino, ask_ino, context_ino,
  jarvis_ino, search_file_attr, ask_file_attr,
}
use vexfs.Fuse.Persist.{cache_insert, maybe_gc_snapshots, flush_file}

abbrev pub snapshot_magic : ℕ
snapshot_magic = 0x534E415000000001

-- `slice_bounds`.
unfoldable pub slice_bounds : ℕ → ℕ → ℕ → ℕ × ℕ
slice_bounds offset size data_len =
    let start = min offset data_len in (start, min (start + size) data_len)

-- `&data[s..e]` for the bounds of a slice.
unfoldable pub sliced : ℕ → ℕ → List ℕ → List ℕ
unfolding slice_bounds
sliced offset size bytes =
    let (start, end) = slice_bounds offset size (length bytes) in
    take (end - start) (drop start bytes)

abbrev pub virtual_bytes : World → ℕ → Option (List ℕ)
virtual_bytes w ino =
    if ino == context_ino
    then some w.context_result
    else if ino == jarvis_ino
    then some w.jarvis_result
    else if ino == ask_ino
    then some w.ask_result
    else if ino == search_ino
    then some w.search_result
    else if ino == telemetry_ino
    then some w.telemetry
    else none

-- `unwrap_or_default()` of a read.
abbrev pub or_empty : DiskResult (List ℕ) → List ℕ
or_empty (ok bytes) = bytes
or_empty (err _) = []
or_empty panic = []

-- A read that the cache does not have.
unfoldable pub read_disk : World → ℕ → VexFile → ℕ → ℕ → Fs (Reply (List ℕ))
read_disk w ino f offset size =
    (if ltb 0 f.attr.size
      then on_disk (λ i. (read_file_data f.data_offset f.attr.size i, i))
      else pure (ok []))
    >>= λ raw.
        let bytes = decompress w.encode w.decode (or_empty raw) in
        cache_insert w ino bytes >> pure (replied (sliced offset size bytes))

unfoldable pub read_file : World → ℕ → VexFile → ℕ → ℕ → Fs (Reply (List ℕ))
read_file w ino f offset size = do
  found ← cached ino
  elim found [
    | some bytes ↦ pure (replied (sliced offset size bytes))
    | none ↦ read_disk w ino f offset size
  ]

unfoldable pub read : World → ℕ → ℕ → ℕ → Fs (Reply (List ℕ))
read w ino offset size s = elim (virtual_bytes w ino) [
  | some bytes ↦ some (replied (sliced offset size bytes), s)
  | none ↦ elim (lookup ino s.files) [
    | none ↦ some (error enoent, s)
    | some f ↦ read_file w ino f offset size s
  ]
]

-- The id of the newest snapshot of the file, which the record on disk takes.
abbrev pub last_id : List Snapshot → ℕ
last_id [] = 1
last_id (x ∷ []) = x.id
last_id (x ∷ y ∷ xs) = last_id (y ∷ xs)

abbrev pub set_last_slot : ℕ → List Snapshot → List Snapshot
set_last_slot slot [] = []
set_last_slot slot (x ∷ []) = record x { disk_slot = slot } ∷ []
set_last_slot slot (x ∷ y ∷ xs) = x ∷ set_last_slot slot (y ∷ xs)

abbrev pub snapshot_record : World → ℕ → List ℕ → ℕ → ℕ → ℕ → SnapshotRaw
snapshot_record w ino name size offset id = record empty_snapshot {
  magic = snapshot_magic;
  ino = ino;
  size = size;
  data_offset = offset;
  timestamp = w.now;
  id = id;
  is_used = 1;
  name = set_name 208 name;
}

-- `if let Some(snaps) = self.snapshots.snapshots.get_mut(&ino) { .. }`.
unfoldable pub slot_taken : ℕ → ℕ → SnapshotManager → SnapshotManager
slot_taken ino slot m = elim (lookup ino m.snapshots) [
  | none ↦ m
  | some list ↦ record m { snapshots = Map.insert ino (set_last_slot slot list) m.snapshots }
]

-- The snapshot that was just taken on disk, in the slot.
unfoldable pub store_at : World → ℕ → List ℕ → ℕ → ℕ → ℕ → Fs (Unit {0})
store_at w ino name size offset slot s =
    (do
      ignore (
          write_snapshot w.crc slot
            (snapshot_record w ino name size offset (last_id (list_of ino s.snapshots))))
      modify (λ s. record s { snapshots = slot_taken ino slot s.snapshots }))
      s

-- The record on disk of a snapshot that was just taken, if a slot is free.
unfoldable pub store_snapshot : World → ℕ → List ℕ → ℕ → ℕ → Fs (Unit {0})
store_snapshot w ino name size offset = do
  slot ← on_disk (λ i. (find_free_snapshot_slot w.crc i.file, i))
  elim slot [
    | ok found ↦ elim found [ none ↦ skip | some n ↦ store_at w ino name size offset n ]
    | _ ↦ skip
  ]

-- A snapshot of the bytes that are about to be replaced.
unfoldable pub take_snapshot : World → ℕ → VexFile → List ℕ → Fs (Unit {0})
take_snapshot w ino f bytes = do
  modify (λ s. record s {
    snapshots = Snapshots.snapshot w.now ino f.name bytes f.data_offset s.snapshots;
  })
  store_snapshot w ino f.name (length bytes) f.data_offset

-- `resize` with zeroes.
unfoldable pub resize : ℕ → List ℕ → List ℕ
resize size bytes = take size bytes ++ replicate (size - length bytes) 0

-- The bytes of a file, with zeroes up to the end of a write if it is shorter.
unfoldable pub grown : ℕ → List ℕ → List ℕ → List ℕ
unfolding resize
grown offset bytes old =
    let end = offset + length bytes in if ltb (length old) end then resize end old else old

-- `copy_from_slice` of a write at the offset.
unfoldable pub spliced : ℕ → List ℕ → List ℕ → List ℕ
unfolding grown
spliced offset bytes old =
    let g = grown offset bytes old in take offset g ++ (bytes ++ drop (offset + length bytes) g)

abbrev pub written : World → ℕ → VexFile → VexFile
written w size f = record f { attr = record f.attr { size = size; mtime = w.now }; dirty = true }

-- A snapshot is taken where a write starts at byte 0 of a file that is not empty.
unfoldable pub write_file : World → ℕ → VexFile → ℕ → List ℕ → Fs (Reply ℕ)
write_file w ino f offset bytes = cached ino >>= λ found.
    let old : List ℕ = elim found [ none ↦ [] | some b ↦ b ] in
    let snaps = offset == 0 && not (length old == 0) in
    let new = spliced offset bytes old in
    do
      if snaps then take_snapshot w ino f old else skip
      modify (update_file ino (written w (length new)))
      if snaps then maybe_gc_snapshots else skip
      cache_insert w ino new
      pure (replied (length bytes))

-- `write`. The query of a virtual file is the text that is written, as `trimmed` trims it. The end
-- of a write behind `usize` is a panic.
unfoldable pub write : World → (List ℕ → List ℕ) → ℕ → ℕ → List ℕ → Fs (Reply ℕ)
write w trimmed ino offset bytes s =
    if ino == search_ino
    then some (replied (length bytes), record s { search_query = trimmed bytes })
    else if ino == ask_ino
    then some (replied (length bytes), record s { ask_query = trimmed bytes })
    else elim (lookup ino s.files) [
      | none ↦ some (error enoent, s)
      | some f ↦
          if ltb (offset + length bytes) (2 ^ 64) then write_file w ino f offset bytes s else none
    ]

-- `flush` and `fsync`.
unfoldable pub fsync : World → ℕ → Fs (Reply (Unit {0}))
fsync w ino = do flush_file w ino; pure (replied tt)

abbrev pub sized : ℕ → VexFile → VexFile
sized size f = record f { attr = record f.attr { size = size }; dirty = true }

-- A truncation or extension, with a snapshot of the old bytes.
unfoldable pub set_size : World → ℕ → VexFile → ℕ → Fs (Reply FileAttr)
set_size w ino f size = cached ino >>= λ found.
    let old : List ℕ = elim found [ none ↦ [] | some b ↦ b ] in
    do
      take_snapshot w ino f old
      modify (update_file ino (sized size))
      maybe_gc_snapshots
      cache_insert w ino (resize size old)
      pure (replied (sized size f).attr)

unfoldable pub set_file_attr : World → ℕ → Option ℕ → Fs (Reply FileAttr)
set_file_attr w ino size s = elim (lookup ino s.files) [
  | none ↦ some (error enoent, s)
  | some f ↦ elim size [
    | none ↦ some (replied f.attr, s)
    | some n ↦ if n == f.attr.size then some (replied f.attr, s) else set_size w ino f n s
  ]
]

-- `size == Some(0)`.
abbrev pub is_zero : Option ℕ → Bool
is_zero none = false
is_zero (some n) = n == 0

unfoldable pub setattr : World → ℕ → Option ℕ → Fs (Reply FileAttr)
setattr w ino size s =
    if ino == search_ino && is_zero size
    then some (replied (search_file_attr w), record s { search_query = [] })
    else if ino == ask_ino && is_zero size
    then some (replied (ask_file_attr w), record s { ask_query = [] })
    else set_file_attr w ino size s

-- `statfs`: blocks in all, free blocks, and inodes in all and free.
unfoldable pub statfs : VexFs → ℕ × ℕ × ℕ × ℕ
statfs s = (1024 * 1024, s.disk.manager.superblock.free_blocks, 1024, 1024 - length s.files)
