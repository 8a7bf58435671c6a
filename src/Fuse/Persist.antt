-- ===== src/Fuse/Persist.antt =====
-- src/fuse/mod.rs: the path of a file's data to the disk.
use vexfs.Base.{
  ℕ, List, [], ◌∷◌, Option, none, some, Bool, true, false, ◌&&◌, ltb, leb, if◌then◌else◌, length,
}
use vexfs.Base.Map.{lookup}
use vexfs.Disk.Result.{ok}
use vexfs.Disk.Inode.{InodeRaw, empty_inode}
use vexfs.Disk.Name.{set_name}
use vexfs.DiskManager.{data_offset, write_inode, write_file_data}
use vexfs.DiskManager.Extents.{alloc_data, free_data, flush, read_file_data, zero_snapshot_slot}
use vexfs.Compress.{compress, decompress}
use vexfs.Cache
use vexfs.Buffer
use vexfs.Buffer.{Pending}
use vexfs.Snapshots.{total_snapshots, gc_keep_per_file}
use vexfs.Fuse.{
  VexFs, VexFile, World, Fs, ◌>>=◌, ◌>>◌, skip, modify, on_disk, ignore, with_manager, update_file,
  set_dirty, cached, same_name, root_ino,
}

-- `free_data` where there is an extent to free.
abbrev pub free_extent : ℕ → ℕ → VexFs → VexFs
free_extent offset size s =
    if ltb 0 offset && ltb 0 size then with_manager (free_data offset size) s else s

-- Whether the tier of the name has `COLD` in it; a name that is not ranked is cold.
unfoldable pub is_cold : List ℕ → List (List ℕ × Bool) → Bool
is_cold name [] = true
is_cold name ((n, cold) ∷ ranked) =
    let rest = is_cold name ranked in if same_name n name then cold else rest

abbrev pub not_larger : List ℕ → List ℕ → List ℕ
not_larger c bytes = if ltb (length c) (length bytes) then c else bytes

unfoldable pub data_to_write : World → List ℕ → List ℕ → List ℕ
data_to_write w name bytes =
    if is_cold name w.ranked_files && leb 512 (length bytes)
    then not_larger (compress w.encode w.decode bytes) bytes
    else bytes

-- The offset of the data, which is allocated if there is any.
unfoldable pub place : List ℕ → VexFs → ℕ × VexFs
place [] s = (data_offset, s)
place (b ∷ bs) s =
    let (offset, m) = alloc_data (length (b ∷ bs)) s.disk.manager in
    (offset, record s { disk = record s.disk { manager = m } })

abbrev pub parent_of : ℕ → VexFs → ℕ
parent_of ino s = elim (lookup ino s.files) [ none ↦ root_ino | some f ↦ f.parent_ino ]

abbrev pub file_inode : World → ℕ → List ℕ → ℕ → ℕ → ℕ → InodeRaw
file_inode w ino name size offset parent_ino = record empty_inode {
  ino = ino;
  size = size;
  data_offset = offset;
  parent_ino = parent_ino;
  is_used = 1;
  is_dir = 0;
  created_at = w.now;
  modified_at = w.now;
  name = set_name 200 name;
}

-- The old extent of a file is freed, by the size of its attributes.
unfoldable pub free_old : ℕ → VexFs → VexFs
free_old ino s = elim (lookup ino s.files) [
  | none ↦ s
  | some f ↦ free_extent f.data_offset f.attr.size s
]

-- The writes of `persist_to_disk`. An empty buffer is no write of `write_file_data`.
unfoldable pub persist_at : World → ℕ → List ℕ → List ℕ → List ℕ → ℕ → ℕ → Fs (Unit {0})
persist_at w ino name bytes stored disk_index offset s =
    (do
      ignore (write_file_data w.crc offset stored)
      ignore (
          write_inode w.crc disk_index
            (file_inode w ino name (length bytes) offset (parent_of ino s)))
      ignore (flush w.crc)
      modify (update_file ino (λ f. record f { data_offset = offset })))
      s

unfoldable pub persist_to_disk : World → ℕ → List ℕ → List ℕ → ℕ → Fs (Unit {0})
persist_to_disk w ino name bytes disk_index s =
    let stored = data_to_write w name bytes in
    let (offset, s') = place stored (free_old ino s) in
    persist_at w ino name bytes stored disk_index offset s'

abbrev pub persist_pending : World → ℕ → Pending → Fs (Unit {0})
persist_pending w ino p = persist_to_disk w ino p.name p.bytes p.disk_index

-- `self.write_buffer.take(ino)`.
abbrev pub taken : ℕ → Fs (Option Pending)
taken ino s =
    let (found, b) = Buffer.take ino s.write_buffer in some (found, record s { write_buffer = b })

unfoldable pub flush_due : World → List ℕ → Fs (Unit {0})
flush_due w [] = skip
flush_due w (ino ∷ inos) = do
  found ← taken ino
  elim found [ none ↦ skip | some p ↦ persist_pending w ino p ]
  flush_due w inos

-- The data of a file enters the write buffer, and what is due leaves it.
unfoldable pub buffer_write : World → ℕ → VexFile → List ℕ → Fs (Unit {0})
buffer_write w ino f bytes s =
    let b = Buffer.write w.now ino f.name bytes f.disk_index s.write_buffer in
    flush_due w (Buffer.due_for_flush w.now b) (record s { write_buffer = b })

abbrev pub flush_dirty : World → ℕ → VexFile → Fs (Unit {0})
flush_dirty w ino f = do
  modify (update_file ino (set_dirty false))
  found ← cached ino
  elim found [ none ↦ skip | some bytes ↦ buffer_write w ino f bytes ]

unfoldable pub flush_file : World → ℕ → Fs (Unit {0})
flush_file w ino s = elim (lookup ino s.files) [
  | none ↦ skip s
  | some f ↦ if f.dirty then flush_dirty w ino f s else skip s
]

-- A dirty file that the cache is about to evict.
abbrev pub flush_candidate : World → ℕ → VexFile → Fs (Unit {0})
flush_candidate w ino f = do
  found ← taken ino
  elim found [
    | some p ↦ persist_pending w ino p
    | none ↦ do
      bytes ← cached ino
      elim bytes [ none ↦ skip | some b ↦ persist_to_disk w ino f.name b f.disk_index ]
  ]
  modify (update_file ino (set_dirty false))

unfoldable pub pre_eviction_flush : World → Fs (Unit {0})
pre_eviction_flush w s =
    if ltb s.cache.used_bytes s.cache.max_bytes
    then skip s
    else elim (Cache.peek_eviction_candidate s.cache) [
      | none ↦ skip s
      | some ino ↦ elim (lookup ino s.files) [
        | none ↦ skip s
        | some f ↦ if f.dirty then flush_candidate w ino f s else skip s
      ]
    ]

-- A dirty file that the cache has evicted: from the write buffer, or else from its old extent.
abbrev pub recover : World → ℕ → VexFile → Fs (Unit {0})
recover w ino f = do
  found ← taken ino
  elim found [
    | some p ↦ persist_pending w ino p
    | none ↦
        if ltb 0 f.data_offset && ltb 0 f.attr.size
        then (do
          raw ← on_disk (λ i. (read_file_data f.data_offset f.attr.size i, i))
          elim raw [
            | ok bytes ↦
                persist_to_disk w ino f.name (decompress w.encode w.decode bytes) f.disk_index
            | _ ↦ skip
          ])
        else skip
  ]
  modify (update_file ino (set_dirty false))

unfoldable pub flush_evicted : World → List ℕ → Fs (Unit {0})
flush_evicted w [] = skip
flush_evicted w (ino ∷ inos) = do
  (λ s. elim (lookup ino s.files) [
    | none ↦ skip s
    | some f ↦ if f.dirty then recover w ino f s else skip s
  ])
  flush_evicted w inos

unfoldable pub flush_cache_evictions : World → Fs (Unit {0})
flush_cache_evictions w s =
    let (evicted, c) = Cache.drain_evicted s.cache in
    flush_evicted w evicted (record s { cache = c })

unfoldable pub cache_insert : World → ℕ → List ℕ → Fs (Unit {0})
cache_insert w ino bytes = do
  pre_eviction_flush w
  (λ s. elim (Cache.insert s.cache ino bytes) [
    | none ↦ none
    | some c ↦ skip (record s { cache = c })
  ])
  flush_cache_evictions w

-- The slots of the collection, zeroed, and their data freed.
unfoldable pub free_slots : List (ℕ × ℕ × ℕ) → Fs (Unit {0})
free_slots [] = skip
free_slots ((slot, offset, size) ∷ slots) = do
  zeroed ← on_disk (zero_snapshot_slot slot)
  elim zeroed [ ok _ ↦ modify (free_extent offset size) | _ ↦ skip ]
  free_slots slots

unfoldable pub maybe_gc_snapshots : Fs (Unit {0})
maybe_gc_snapshots s =
    if ltb (total_snapshots s.snapshots) 200
    then skip s
    else let (freed, snapshots) = gc_keep_per_file 3 s.snapshots in
      free_slots freed (record s { snapshots = snapshots })

unfoldable pub persist_all : World → List (ℕ × Pending) → Fs (Unit {0})
persist_all w [] = skip
persist_all w ((ino, p) ∷ ps) = do persist_pending w ino p; persist_all w ps

-- `flush_all` up to the state of the AI engine.
unfoldable pub flush_all : World → Fs (Unit {0})
flush_all w s =
    let (all, b) = Buffer.take_all s.write_buffer in
    persist_all w all (record s { write_buffer = b })
