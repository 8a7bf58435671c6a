-- ===== src/Disk/Runs.antt =====
-- The on-disk records at concrete values, with a checksum to run with.
use vexfs.Base.{ℕ, ◌+◌, ◌*◌, ◌%◌, ◌^◌, ◌<◌, ◌≡◌, refl, List, [], ◌∷◌, replicate, arith}
use vexfs.Disk.Result.{ok}
use vexfs.Disk.Superblock.{SuperblockRaw}
use vexfs.Disk.Inode.{InodeRaw, inode_fields, inode_to_bytes, inode_from_bytes, inode_round_trip}
use vexfs.Disk.Snapshot.{SnapshotRaw}

unfoldable checksum : List ℕ → ℕ
checksum [] = 7
checksum (b ∷ bs) = (checksum bs * 31 + b) % 2 ^ 32

checksum_word : (bytes : List ℕ) → checksum bytes < 2 ^ 32
unfolding checksum
checksum_word [] = omega arith
checksum_word (b ∷ bs) = omega arith

-- The name "a/b" in a field of 8 bytes: a slash is not allowed, so the empty name is read.
abbrev superblock : SuperblockRaw
superblock = record {
  magic = 0x5645584653000001;
  version = 1;
  block_size = 4096;
  total_blocks = 16384;
  free_blocks = 16000;
  inode_count = 3;
  next_data_offset = 663552;
  created_at = 1700000000;
  crc32 = 0;
}

-- A file "a" of nine bytes.
abbrev inode : InodeRaw
inode = record {
  ino = 2;
  size = 9;
  data_offset = 663552;
  created_at = 1700000000;
  modified_at = 1700000001;
  parent_ino = 1;
  is_used = 1;
  is_dir = 0;
  name = 97 ∷ replicate 199 0;
}

inode_round_trip_example : inode_from_bytes checksum (inode_to_bytes checksum inode) ≡ ok inode
inode_round_trip_example =
    inode_round_trip checksum inode
      (record {
        ino = omega arith;
        size = omega arith;
        data_offset = omega arith;
        created_at = omega arith;
        modified_at = omega arith;
        parent_ino = omega arith;
        name = refl;
      })
      (checksum_word (inode_fields inode))

abbrev snapshot : SnapshotRaw
snapshot = record {
  magic = 0x534E415000000001;
  ino = 2;
  size = 9;
  data_offset = 663552;
  timestamp = 1700000000;
  id = 4;
  is_used = 1;
  name = 97 ∷ replicate 207 0;
}
