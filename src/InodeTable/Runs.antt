-- ===== src/InodeTable/Runs.antt =====
-- The inode table of a fresh image of 2 MB, and the theorems at it.
use vexfs.InodeTable.Search.{IsUsed, IsUnused, alloc_inode_lem}
use vexfs.Base.{
  ℕ, zero, suc, ◌+◌, ◌*◌, ◌%◌, ◌^◌, ◌<◌, ◌≡◌, ◌≢◌, ◌⊎◌, inl, inr, refl, List, [], ◌∷◌, some,
  replicate, All, IsU64, arith, ◌/◌, false,
}
use vexfs.Disk.Result.{ok}
use vexfs.Disk.Inode.{InodeRaw, inode_fields}
use vexfs.File.{File}
use vexfs.InodeTable.{
  InodeTable, new_table, inode_offset, read_inode, write_inode, save_directory, open_table,
  TableFile, capacity, count_blocks, grow, alloc_inode,
}
use vexfs.InodeTable.Slots.{IsApart, base_of}
use vexfs.InodeTable.Growth.{get_or-zeroes}
use vexfs.InodeTable.Stored.{write_inode-read_inode, read_inode_total}
use vexfs.InodeTable.Directory.{open_table-save_directory}

unfoldable checksum : List ℕ → ℕ
checksum [] = 7
checksum (b ∷ bs) = (checksum bs * 31 + b) % 2 ^ 32

checksum_word : (bytes : List ℕ) → checksum bytes < 2 ^ 32
unfolding checksum
checksum_word [] = omega arith
checksum_word (b ∷ bs) = omega arith

abbrev image : File
image = record { size = 2097152; at = λ i. 0; budget = 4 }

abbrev fresh : InodeTable
fresh = new_table 4096 663552

-- One extension block.
abbrev offsets : List ℕ
offsets = 663552 ∷ replicate 62 0

abbrev two_blocks : InodeTable
two_blocks = record { block_offsets = 4096 ∷ offsets; next_disk_end = 925696 }

base_of-two_blocks :
    (b : ℕ)
    → ((b ≡ 0) × (base_of two_blocks b ≡ 4096))
      ⊎ (((b ≡ 1) × (base_of two_blocks b ≡ 663552)) ⊎ (base_of two_blocks b ≡ 0))
base_of-two_blocks zero = inl (refl, refl)
base_of-two_blocks (suc zero) = inr (inl (refl, refl))
base_of-two_blocks (suc (suc b)) = inr (inr (get_or-zeroes 62 b))

two_blocks-IsApart : IsApart two_blocks
two_blocks-IsApart = record {
  word = λ b. let at = base_of-two_blocks b in omega arith;
  apart = λ b c other pb pc.
      let at_b = base_of-two_blocks b in let at_c = base_of-two_blocks c in omega arith;
}

-- The first slot of the extension block.
slot_1024 : inode_offset two_blocks 1024 ≡ some 663552
unfolding inode_offset
slot_1024 = refl

slot_1023 : inode_offset fresh 1023 ≡ some 265984
unfolding inode_offset new_table
slot_1023 = refl

abbrev inode : InodeRaw
inode = record {
  ino = 3;
  size = 9;
  data_offset = 663552;
  created_at = 1700000000;
  modified_at = 1700000001;
  parent_ino = 1;
  is_used = 1;
  is_dir = 0;
  name = 97 ∷ replicate 199 0;
}

write_inode-read_inode_example :
    (f : File) × ((write_inode checksum two_blocks 1024 inode image ≡ (ok tt, f))
      × ((read_inode checksum two_blocks 1024 f ≡ ok inode)
          × ((j : ℕ) (x : InodeRaw)
              → j ≢ 1024
              → read_inode checksum two_blocks j image ≡ ok x
              → read_inode checksum two_blocks j f ≡ ok x)))
write_inode-read_inode_example =
    write_inode-read_inode checksum two_blocks 1024 663552 inode image two_blocks-IsApart slot_1024
      (record {
        ino = omega arith;
        size = omega arith;
        data_offset = omega arith;
        created_at = omega arith;
        modified_at = omega arith;
        parent_ino = omega arith;
        name = refl;
      })
      (checksum_word (inode_fields inode)) (omega arith)

All-zeroes : (n : ℕ) → All IsU64 (replicate n 0)
All-zeroes zero = tt
All-zeroes (suc n) = (omega arith, All-zeroes n)

open_table-save_directory_example :
    (f : File) × ((save_directory two_blocks image ≡ (ok tt, f))
      × (open_table 4096 925696 f ≡ ok two_blocks))
open_table-save_directory_example =
    open_table-save_directory 4096 925696 offsets image refl (omega arith)
      (omega arith, All-zeroes 62) (omega arith)

slot_of : (j : ℕ) → j < 1024 → inode_offset fresh j ≡ some (4096 + j * 256)
unfolding inode_offset new_table
slot_of j h =
    let block : j / 1024 ≡ 0 = omega arith in
    let slot : (4096 + j % 1024 * 256) % 2 ^ 64 ≡ 4096 + j * 256 = omega arith in rw (block, slot)

abbrev table_file : TableFile
table_file = record { table = fresh; file = image }

fresh-capacity : capacity fresh ≡ 1024
unfolding count_blocks new_table
fresh-capacity = refl

alloc_inode_lem_example :
    ((i : ℕ) × ((alloc_inode checksum table_file ≡ (ok (some (i, false)), table_file))
        × ((i < capacity fresh)
            × (IsUnused checksum fresh image i
                × ((j : ℕ) → j < i → IsUsed checksum fresh image j)))))
    ⊎ ((alloc_inode checksum table_file ≡ grow checksum table_file)
        × ((j : ℕ) → j < capacity fresh → IsUsed checksum fresh image j))
alloc_inode_lem_example = alloc_inode_lem checksum table_file (λ j h.
    read_inode_total checksum fresh j (4096 + j * 256) image
      (slot_of j (omega (arith, fresh-capacity))) (omega (arith, fresh-capacity)))
