-- ===== src/Disk/Superblock.antt =====
-- src/fs/disk.rs: the superblock record. Every byte range is written once, in the order of the
-- offsets, so the array is the concatenation of the fields' bytes.
use vexfs.Base.{ℕ, ◌<◌, ◌^◌, ◌≡◌, List, ◌++◌, arith, take, replicate, IsU32, IsU64}
use vexfs.Base.Bytes.{
  u32_to_le, u64_to_le, le_to_u32, le_to_u64, slice, le_to_u32-u32_to_le, le_to_u64-u64_to_le,
}
use vexfs.Disk.Result.{DiskResult, ok, verify_crc32, ◌>>◌}

pub record SuperblockRaw : Type 0 where
  pub magic : ℕ
  pub version : ℕ
  pub block_size : ℕ
  pub total_blocks : ℕ
  pub free_blocks : ℕ
  pub inode_count : ℕ
  pub next_data_offset : ℕ
  pub created_at : ℕ
  pub crc32 : ℕ

-- Every field fits its width on disk.
pub record IsRepresentable (s : SuperblockRaw) : Type 0 where
  pub magic : IsU64 s.magic
  pub version : IsU32 s.version
  pub block_size : IsU32 s.block_size
  pub total_blocks : IsU64 s.total_blocks
  pub free_blocks : IsU64 s.free_blocks
  pub inode_count : IsU64 s.inode_count
  pub next_data_offset : IsU64 s.next_data_offset
  pub created_at : IsU64 s.created_at

-- The bytes 0..56, which the checksum covers.
unfoldable pub superblock_fields : SuperblockRaw → List ℕ
unfolding u32_to_le u64_to_le
superblock_fields s =
    u64_to_le s.magic
    ++ (u32_to_le s.version
        ++ (u32_to_le s.block_size
            ++ (u64_to_le s.total_blocks
                ++ (u64_to_le s.free_blocks
                    ++ (u64_to_le s.inode_count
                        ++ (u64_to_le s.next_data_offset ++ u64_to_le s.created_at))))))

module _ (crc : List ℕ → ℕ) where
  unfoldable pub superblock_to_bytes : SuperblockRaw → List ℕ
  unfolding superblock_fields
  superblock_to_bytes s =
      superblock_fields s ++ (u32_to_le (crc (superblock_fields s)) ++ replicate 4 0)

  unfoldable pub superblock_from_bytes : List ℕ → DiskResult SuperblockRaw
  unfolding verify_crc32
  superblock_from_bytes b =
      let stored = le_to_u32 (slice 56 60 b) in
      do
        verify_crc32 crc (take 56 b) stored
        ok (record {
          magic = le_to_u64 (slice 0 8 b);
          version = le_to_u32 (slice 8 12 b);
          block_size = le_to_u32 (slice 12 16 b);
          total_blocks = le_to_u64 (slice 16 24 b);
          free_blocks = le_to_u64 (slice 24 32 b);
          inode_count = le_to_u64 (slice 32 40 b);
          next_data_offset = le_to_u64 (slice 40 48 b);
          created_at = le_to_u64 (slice 48 56 b);
          crc32 = stored;
        })

  -- A superblock that is written and read back is the same, with the checksum of its fields.
  pub superblock_round_trip :
      (s : SuperblockRaw)
      → IsRepresentable s
      → crc (superblock_fields s) < 2 ^ 32
      → superblock_from_bytes (superblock_to_bytes s)
        ≡ ok (record s { crc32 = crc (superblock_fields s) })
  unfolding superblock_to_bytes superblock_from_bytes
  superblock_round_trip s h bound = ground (
    arith,
    le_to_u32-u32_to_le (crc (superblock_fields s)) bound,
    le_to_u64-u64_to_le s.magic h.magic,
    le_to_u32-u32_to_le s.version h.version,
    le_to_u32-u32_to_le s.block_size h.block_size,
    le_to_u64-u64_to_le s.total_blocks h.total_blocks,
    le_to_u64-u64_to_le s.free_blocks h.free_blocks,
    le_to_u64-u64_to_le s.inode_count h.inode_count,
    le_to_u64-u64_to_le s.next_data_offset h.next_data_offset,
    le_to_u64-u64_to_le s.created_at h.created_at,
  )
