-- ===== src/Disk/Inode.antt =====
-- src/fs/disk.rs: the inode record.
use vexfs.Base.{
  ℕ, ◌<◌, ◌^◌, ◌≡◌, List, [], ◌∷◌, ◌++◌, Bool, true, false, ◌&&◌, not, arith, ◌==◌, leb,
  if◌then◌else◌, take, replicate, get_or, length, take_of_length-le, IsU64,
}
use vexfs.Base.Bytes.{
  u32_to_le, u64_to_le, le_to_u32, le_to_u64, slice, le_to_u32-u32_to_le, le_to_u64-u64_to_le,
}
use vexfs.Disk.Result.{DiskResult, ok, verify_crc32, ◌>>◌}

pub record InodeRaw : Type 0 where
  pub ino : ℕ
  pub size : ℕ
  pub data_offset : ℕ
  pub created_at : ℕ
  pub modified_at : ℕ
  pub parent_ino : ℕ
  pub is_used : ℕ
  pub is_dir : ℕ
  pub name : List ℕ

-- Every field fits its width on disk.
pub record IsRepresentable (i : InodeRaw) : Type 0 where
  pub ino : IsU64 i.ino
  pub size : IsU64 i.size
  pub data_offset : IsU64 i.data_offset
  pub created_at : IsU64 i.created_at
  pub modified_at : IsU64 i.modified_at
  pub parent_ino : IsU64 i.parent_ino
  pub name : length i.name ≡ 200

abbrev pub inode_bytes : ℕ
inode_bytes = 256

unfoldable pub empty_inode : InodeRaw
empty_inode = record {
  ino = 0;
  size = 0;
  data_offset = 0;
  created_at = 0;
  modified_at = 0;
  parent_ino = 0;
  is_used = 0;
  is_dir = 0;
  name = replicate 200 0;
}

-- The bytes 0..50, which the checksum covers; a byte field is stored as it is.
unfoldable pub inode_fields : InodeRaw → List ℕ
unfolding u64_to_le
inode_fields i =
    u64_to_le i.ino
    ++ (u64_to_le i.size
        ++ (u64_to_le i.data_offset
            ++ (u64_to_le i.created_at
                ++ (u64_to_le i.modified_at
                    ++ (u64_to_le i.parent_ino ++ (i.is_used ∷ i.is_dir ∷ []))))))

-- A used inode with a name that begins with a graphic ASCII byte.
unfoldable pub is_valid : InodeRaw → Bool
is_valid i =
    let first = get_or i.name 0 0 in
    if i.is_used == 0
    then false
    else if first == 0
    then false
    else if not (leb 33 first && leb first 126)
    then false
    else true

-- The legacy value 0 reads as 1, the root.
unfoldable pub get_parent_ino : InodeRaw → ℕ
get_parent_ino i = if i.parent_ino == 0 then 1 else i.parent_ino

module _ (crc : List ℕ → ℕ) where
  unfoldable pub inode_to_bytes : InodeRaw → List ℕ
  unfolding inode_fields u32_to_le
  inode_to_bytes i =
      inode_fields i ++ (u32_to_le (crc (inode_fields i)) ++ (replicate 2 0 ++ i.name))

  unfoldable pub inode_from_bytes : List ℕ → DiskResult InodeRaw
  unfolding verify_crc32
  inode_from_bytes b =
      let stored = le_to_u32 (slice 50 54 b) in
      do
        verify_crc32 crc (take 50 b) stored
        ok (record {
          ino = le_to_u64 (slice 0 8 b);
          size = le_to_u64 (slice 8 16 b);
          data_offset = le_to_u64 (slice 16 24 b);
          created_at = le_to_u64 (slice 24 32 b);
          modified_at = le_to_u64 (slice 32 40 b);
          parent_ino = le_to_u64 (slice 40 48 b);
          is_used = get_or b 48 0;
          is_dir = get_or b 49 0;
          name = slice 56 256 b;
        })

  pub length-inode_to_bytes :
      (i : InodeRaw) → length i.name ≡ 200 → length (inode_to_bytes i) ≡ inode_bytes
  unfolding inode_to_bytes
  length-inode_to_bytes i h = omega arith

  -- An inode that is written and read back is the same inode, its name included, although the
  -- checksum does not cover the name.
  pub inode_round_trip :
      (i : InodeRaw)
      → IsRepresentable i
      → crc (inode_fields i) < 2 ^ 32
      → inode_from_bytes (inode_to_bytes i) ≡ ok i
  unfolding inode_to_bytes inode_from_bytes
  inode_round_trip i h bound = rw (take_of_length-le 200 i.name (omega arith)) (
      ground (
        arith,
        le_to_u32-u32_to_le (crc (inode_fields i)) bound,
        le_to_u64-u64_to_le i.ino h.ino,
        le_to_u64-u64_to_le i.size h.size,
        le_to_u64-u64_to_le i.data_offset h.data_offset,
        le_to_u64-u64_to_le i.created_at h.created_at,
        le_to_u64-u64_to_le i.modified_at h.modified_at,
        le_to_u64-u64_to_le i.parent_ino h.parent_ino,
      ))
