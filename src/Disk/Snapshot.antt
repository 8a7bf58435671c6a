-- ===== src/Disk/Snapshot.antt =====
-- src/fs/disk.rs: the snapshot record.
use vexfs.Base.{
  ℕ, ◌<◌, ◌^◌, ◌≡◌, List, [], ◌∷◌, ◌++◌, Bool, ◌&&◌, arith, ◌==◌, take, replicate, get_or, length,
  take-append, length-append, length-replicate, IsU32, IsU64,
}
use vexfs.Base.Bytes.{
  u32_to_le, u64_to_le, le_to_u32, le_to_u64, slice, le_to_u32-u32_to_le, le_to_u64-u64_to_le,
}
use vexfs.Disk.Result.{DiskResult, ok, verify_crc32, ◌>>◌}

pub record SnapshotRaw : Type 0 where
  pub magic : ℕ
  pub ino : ℕ
  pub size : ℕ
  pub data_offset : ℕ
  pub timestamp : ℕ
  pub id : ℕ
  pub is_used : ℕ
  pub name : List ℕ

-- Every field fits its width on disk.
pub record IsRepresentable (s : SnapshotRaw) : Type 0 where
  pub magic : IsU64 s.magic
  pub ino : IsU64 s.ino
  pub size : IsU64 s.size
  pub data_offset : IsU64 s.data_offset
  pub timestamp : IsU64 s.timestamp
  pub id : IsU32 s.id
  pub name : length s.name ≡ 208

abbrev pub snapshot_bytes : ℕ
snapshot_bytes = 512

unfoldable pub empty_snapshot : SnapshotRaw
empty_snapshot = record {
  magic = 0;
  ino = 0;
  size = 0;
  data_offset = 0;
  timestamp = 0;
  id = 0;
  is_used = 0;
  name = replicate 208 0;
}

-- The bytes 0..45, which the checksum covers.
unfoldable pub snapshot_fields : SnapshotRaw → List ℕ
unfolding u32_to_le u64_to_le
snapshot_fields s =
    u64_to_le s.magic
    ++ (u64_to_le s.ino
        ++ (u64_to_le s.size
            ++ (u64_to_le s.data_offset
                ++ (u64_to_le s.timestamp ++ (u32_to_le s.id ++ (s.is_used ∷ []))))))

unfoldable pub is_valid : SnapshotRaw → ℕ → Bool
is_valid s magic = s.magic == magic && s.is_used == 1

module _ (crc : List ℕ → ℕ) where
  unfoldable pub snapshot_to_bytes : SnapshotRaw → List ℕ
  unfolding snapshot_fields
  snapshot_to_bytes s =
      snapshot_fields s ++ (u32_to_le (crc (snapshot_fields s)) ++ (s.name ++ replicate 255 0))

  unfoldable pub snapshot_from_bytes : List ℕ → DiskResult SnapshotRaw
  unfolding verify_crc32
  snapshot_from_bytes b =
      let stored = le_to_u32 (slice 45 49 b) in
      do
        verify_crc32 crc (take 45 b) stored
        ok (record {
          magic = le_to_u64 (slice 0 8 b);
          ino = le_to_u64 (slice 8 16 b);
          size = le_to_u64 (slice 16 24 b);
          data_offset = le_to_u64 (slice 24 32 b);
          timestamp = le_to_u64 (slice 32 40 b);
          id = le_to_u32 (slice 40 44 b);
          is_used = get_or b 44 0;
          name = slice 49 257 b;
        })

  pub length-snapshot_to_bytes :
      (s : SnapshotRaw) → length s.name ≡ 208 → length (snapshot_to_bytes s) ≡ snapshot_bytes
  unfolding snapshot_to_bytes
  length-snapshot_to_bytes s h =
      omega (arith, length-append s.name (replicate 255 0), length-replicate {A = ℕ} 255 0)

  -- A snapshot record that is written and read back is the same record.
  pub snapshot_round_trip :
      (s : SnapshotRaw)
      → IsRepresentable s
      → crc (snapshot_fields s) < 2 ^ 32
      → snapshot_from_bytes (snapshot_to_bytes s) ≡ ok s
  unfolding snapshot_to_bytes snapshot_from_bytes
  snapshot_round_trip s h bound = rw (take-append s.name (replicate 255 0) 208 h.name) (
      ground (
        arith,
        le_to_u32-u32_to_le (crc (snapshot_fields s)) bound,
        le_to_u64-u64_to_le s.magic h.magic,
        le_to_u64-u64_to_le s.ino h.ino,
        le_to_u64-u64_to_le s.size h.size,
        le_to_u64-u64_to_le s.data_offset h.data_offset,
        le_to_u64-u64_to_le s.timestamp h.timestamp,
        le_to_u32-u32_to_le s.id h.id,
      ))
