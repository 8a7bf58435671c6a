-- ===== src/FreeList/Persist.antt =====
-- src/fs/free_list.rs: the free list on disk.
use vexfs.Base.{
  ℕ, zero, suc, ◌+◌, ◌*◌, List, [], ◌∷◌, ◌++◌, ltb, ◌==◌, if◌then◌else◌, length, take, drop,
  replicate, min,
}
use vexfs.Base.Bytes.{u32_to_le, u64_to_le, le_to_u32, le_to_u64, slice}
use vexfs.Disk.Result.{DiskResult, ok, err, panic, verify_crc32}
use vexfs.File.{File, Exec, ◌>>◌, read_bytes, write_bytes}
use vexfs.FreeList.{FreeExtent, FreeList, new, max_persisted_extents}

abbrev pub free_list_magic : ℕ
free_list_magic = 0x4652454C49535400

abbrev pub free_list_offset : ℕ
free_list_offset = 512

abbrev pub free_list_header : ℕ
free_list_header = 32

abbrev pub free_extent_size : ℕ
free_extent_size = 16

unfoldable pub extent_to_bytes : FreeExtent → List ℕ
unfolding u64_to_le
extent_to_bytes e = u64_to_le e.offset ++ u64_to_le e.length

unfoldable pub extent_from_bytes : List ℕ → FreeExtent
extent_from_bytes b = record { offset = le_to_u64 (slice 0 8 b); length = le_to_u64 (slice 8 16 b) }

unfoldable pub extents_to_bytes : FreeList → List ℕ
extents_to_bytes [] = []
extents_to_bytes (e ∷ es) = extent_to_bytes e ++ extents_to_bytes es

-- `chunks_exact(FREE_EXTENT_SIZE)` over `count` chunks.
unfoldable pub extents_from_bytes : ℕ → List ℕ → FreeList
extents_from_bytes zero b = []
extents_from_bytes (suc count) b =
    extent_from_bytes (take free_extent_size b) ∷ extents_from_bytes count (drop free_extent_size b)

-- The extents that are persisted.
abbrev pub persisted : FreeList → FreeList
persisted fl = take (min (length fl) max_persisted_extents) fl

-- Bytes 0..12 of the header.
unfoldable pub list_head : ℕ → List ℕ
unfolding u64_to_le u32_to_le
list_head count = u64_to_le free_list_magic ++ u32_to_le count

module _ (crc : List ℕ → ℕ) where
  unfoldable pub list_header : FreeList → List ℕ
  unfolding list_head u32_to_le
  list_header es =
      list_head (length es)
      ++ (u32_to_le (crc (list_head (length es) ++ extents_to_bytes es)) ++ replicate 16 0)

  unfoldable pub save : FreeList → Exec File (Unit {0})
  save fl = do
    write_bytes free_list_offset (list_header (persisted fl))
    write_bytes (free_list_offset + free_list_header) (extents_to_bytes (persisted fl))

  -- The list that a header and the bytes behind it give. A checksum that does not match gives an
  -- empty list.
  unfoldable pub loaded : ℕ → List ℕ → List ℕ → FreeList
  loaded count hdr bytes =
      elim (verify_crc32 crc (take 12 hdr ++ bytes) (le_to_u32 (slice 12 16 hdr))) [
        | ok _ ↦ extents_from_bytes count bytes
        | err _ ↦ new
        | panic ↦ new
      ]

  -- `load` behind the magic number.
  unfoldable pub load_extents : ℕ → List ℕ → File → DiskResult FreeList
  load_extents count hdr f =
      if ltb max_persisted_extents count
      then ok new
      else elim (read_bytes (free_list_offset + free_list_header) (count * free_extent_size) f) [
        | ok bytes ↦ ok (loaded count hdr bytes)
        | err x ↦ err x
        | panic ↦ panic
      ]

  unfoldable pub load : File → DiskResult FreeList
  load f = elim (read_bytes free_list_offset free_list_header f) [
    | ok hdr ↦
        if le_to_u64 (slice 0 8 hdr) == free_list_magic
        then load_extents (le_to_u32 (slice 8 12 hdr)) hdr f
        else ok new
    | err x ↦ err x
    | panic ↦ panic
  ]
