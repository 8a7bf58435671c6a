-- ===== src/DiskManager/Runs.antt =====
-- Runs of the disk manager, and the theorems at them.
use vexfs.Base.{refl, inl, ◌∙◌, ℕ, ◌+◌, ◌*◌, ◌%◌, ◌^◌, ◌<◌, ◌≡◌, List, [], ◌∷◌, replicate, arith}
use vexfs.Disk.Result.{ok}
use vexfs.Disk.Superblock.{
  SuperblockRaw, superblock_fields, superblock_to_bytes, superblock_from_bytes,
}
use vexfs.File.{File, overwrite, read_bytes}
use vexfs.Base.Bytes.{le_to_u32, le_to_u64}
use vexfs.Journal.{format, select, to_replay}
use vexfs.Journal.Region.{at-format}
use vexfs.DiskManager.Applied.{applied}
use vexfs.DiskManager.Reopen.{IsSettled, read_superblock_cong}
use vexfs.DiskManager.Durable.{IsDurable, write_file_data-IsDurable}
use vexfs.Journal.Records.{new_header}
use vexfs.Journal.Slots.{IsLogged}
use vexfs.Journal.Format.{format-IsLogged}
use vexfs.Journal.Split.{data_entries, length-data_entries}
use vexfs.FreeList.Free.{IsValid}
use vexfs.InodeTable.{new_table}
use vexfs.DiskManager.Extents.{alloc_data}
use vexfs.DiskManager.Allocation.{Allocates, alloc_data-Allocates}
use vexfs.DiskManager.{DiskManager, Image, read_superblock, replay_entries, write_file_data}
use vexfs.DiskManager.Replay.{Replays, replay_entries-data_entries}
use vexfs.DiskManager.Write.{journal_file, IsStored, write_file_data-IsStored}

unfoldable checksum : List ℕ → ℕ
checksum [] = 7
checksum (b ∷ bs) = (checksum bs * 31 + b) % 2 ^ 32

checksum_word : (bytes : List ℕ) → checksum bytes < 2 ^ 32
unfolding checksum
checksum_word [] = omega arith
checksum_word (b ∷ bs) = omega arith

abbrev superblock : SuperblockRaw
superblock = record {
  magic = 0x5645584653000001;
  version = 1;
  block_size = 4096;
  total_blocks = 512;
  free_blocks = 512;
  inode_count = 0;
  next_data_offset = 659520;
  created_at = 1700000000;
  crc32 = 0;
}

-- A file that has the superblock and nothing else.
abbrev blank : File
blank = record {
  size = 64;
  at = overwrite (λ i. 0) 0 (superblock_to_bytes checksum superblock);
  budget = 2000;
}

abbrev manager : DiskManager
manager = record {
  superblock = superblock;
  journal = record { header = new_header; next_slot = 0 };
  free_list = [];
  inode_table = new_table 4096 659520;
}

abbrev image : Image
image = record { manager = manager; file = (format checksum blank).1 }

image-IsLogged : IsLogged checksum (journal_file image) []
image-IsLogged =
    let (f, (eq, (g, spent))) = format-IsLogged checksum checksum_word blank (omega arith) in
    rw eq g

image_budget : image.file.budget ≡ 1487
image_budget =
    let (f, (eq, (g, spent))) = format-IsLogged checksum checksum_word blank (omega arith) in
    rw eq (omega (arith, spent))

-- 600 bytes at the start of the data region, in two entries.
abbrev bytes : List ℕ
bytes = 5 ∷ replicate 599 9

write_file_data-IsStored_example :
    IsStored checksum (write_file_data checksum 659520 bytes image) 659520 bytes image
write_file_data-IsStored_example =
    write_file_data-IsStored checksum checksum_word 659520 5 (replicate 599 9) image []
      image-IsLogged (omega arith) (omega arith) (omega arith) (omega (arith, image_budget))

replay_entries-data_entries_example :
    Replays (replay_entries (data_entries 600 1 659520 bytes) blank) 659520 bytes blank
replay_entries-data_entries_example =
    replay_entries-data_entries 600 1 659520 bytes blank (omega arith)
      (omega (arith, length-data_entries 600 1 659520 bytes (omega arith)))

-- 4096 free bytes, of which 1000 are handed out.
abbrev reused : DiskManager
reused = record manager {
  superblock = record manager.superblock { next_data_offset = 670000 };
  free_list = record { offset = 660000; length = 4096 } ∷ [];
}

reused-IsValid : IsValid reused.free_list
reused-IsValid = record {
  fits = ((omega arith, omega arith), tt);
  bounded = omega arith;
  disjoint = λ b. ground arith;
}

alloc_data-Allocates_example :
    Allocates reused 1000 (alloc_data 1000 reused).0 (alloc_data 1000 reused).1
alloc_data-Allocates_example =
    alloc_data-Allocates reused 1000 reused-IsValid (omega arith, tt) (omega arith)

blank-superblock :
    read_superblock checksum blank
    ≡ ok (record superblock { crc32 = checksum (superblock_fields superblock) })
unfolding read_superblock read_bytes superblock_from_bytes superblock_to_bytes checksum le_to_u32
    le_to_u64
blank-superblock = refl

image-superblock :
    read_superblock checksum image.file
    ≡ ok (record superblock { crc32 = checksum (superblock_fields superblock) })
image-superblock =
    read_superblock_cong checksum image.file blank (omega (arith, image-IsLogged.room))
      (omega arith) (λ i h. at-format checksum i (inl (omega arith)) blank)
    ∙ blank-superblock

nothing-IsSettled : (at : ℕ → ℕ) → IsSettled [] at
unfolding applied to_replay select
nothing-IsSettled at i out = refl

write_file_data-IsDurable_example :
    IsDurable checksum (write_file_data checksum 659520 bytes image) 2 659520 bytes image
write_file_data-IsDurable_example =
    write_file_data-IsDurable checksum checksum_word 659520 5 (replicate 599 9) image []
      (record superblock { crc32 = checksum (superblock_fields superblock) }) 2 image-IsLogged tt tt
      (nothing-IsSettled image.file.at) image-superblock (omega arith) (omega arith) (omega arith)
      (omega arith)
