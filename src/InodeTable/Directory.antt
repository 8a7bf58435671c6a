-- ===== src/InodeTable/Directory.antt =====
-- src/fs/inode_table.rs: the block directory, about `save_directory`, then `open`.
use vexfs.Base.{
  ℕ, zero, suc, ◌+◌, ◌-◌, ◌*◌, ◌<◌, ◌≡◌, refl, sym, ap, List, [], ◌∷◌, ◌++◌, drop, length, get_or,
  All, take-append, IsU64, arith,
}
use vexfs.Base.Bytes.{u64_to_le, slice, le_to_u64-u64_to_le}
use vexfs.Disk.Result.{ok}
use vexfs.File.{File}
use vexfs.File.Ranges.{bytes_at-overwrite}
use vexfs.Journal.Slots.{written, write_bytes_ok}
use vexfs.InodeTable.{
  inode_block_dir_offset, block_dir_bytes, max_inode_blocks, pointers, open_table, directory,
  save_directory,
}
use vexfs.InodeTable.Stored.{read_bytes_inside}

length-directory : (os : List ℕ) → length (directory os) ≡ length os * 8
unfolding directory u64_to_le
length-directory [] = refl
length-directory (o ∷ os) = omega (arith, length-directory os)

drop-append_more : (xs ys : List ℕ) (k : ℕ) → drop (length xs + k) (xs ++ ys) ≡ drop k ys
drop-append_more [] ys k = ap (λ n. drop n ys) (omega arith)
drop-append_more (x ∷ xs) ys k =
    let step : suc (length xs) + k ≡ suc (length xs + k) = omega arith in
    rw step (drop-append_more xs ys k)

length-u64_to_le : (v : ℕ) → length (u64_to_le v) ≡ 8
unfolding u64_to_le
length-u64_to_le v = refl

slice-directory :
    (i : ℕ) (os : List ℕ)
    → i < length os
    → slice (i * 8) (i * 8 + 8) (directory os) ≡ u64_to_le (get_or os i 0)
unfolding directory
slice-directory i [] h = absurd (omega arith)
slice-directory zero (o ∷ os) h = take-append (u64_to_le o) (directory os) 8 (length-u64_to_le o)
slice-directory (suc i) (o ∷ os) h =
    let here : suc i * 8 ≡ length (u64_to_le o) + i * 8 = omega (arith, length-u64_to_le o) in
    let width : suc i * 8 + 8 - suc i * 8 ≡ i * 8 + 8 - i * 8 = omega arith in
    rw (width, here, drop-append_more (u64_to_le o) (directory os) (i * 8))
      (slice-directory i os (omega arith))

drop-cons : (i : ℕ) (os : List ℕ) → i < length os → drop i os ≡ get_or os i 0 ∷ drop (i + 1) os
drop-cons i [] h = absurd (omega arith)
drop-cons zero (o ∷ os) h = refl
drop-cons (suc i) (o ∷ os) h =
    let step : suc i + 1 ≡ suc (i + 1) = omega arith in rw step (drop-cons i os (omega arith))

drop_all : (i : ℕ) (os : List ℕ) → i ≡ length os → drop i os ≡ []
drop_all zero [] h = refl
drop_all (suc i) [] h = refl
drop_all zero (o ∷ os) h = absurd (omega arith)
drop_all (suc i) (o ∷ os) h = drop_all i os (omega arith)

get_or-All : (i : ℕ) (os : List ℕ) → All IsU64 os → IsU64 (get_or os i 0)
get_or-All i [] h = omega arith
get_or-All zero (o ∷ os) h = h.0
get_or-All (suc i) (o ∷ os) h = get_or-All i os h.1

pointers-directory :
    (count i : ℕ) (os : List ℕ)
    → i + count ≡ length os
    → All IsU64 os
    → pointers count i (directory os) ≡ drop i os
unfolding pointers
pointers-directory zero i os total h = sym (drop_all i os (omega arith))
pointers-directory (suc count) i os total h = rw (
  slice-directory i os (omega arith),
  le_to_u64-u64_to_le (get_or os i 0) (get_or-All i os h),
  pointers-directory count (i + 1) os (omega arith) h,
  drop-cons i os (omega arith),
)

-- A table of 64 offsets, each a word, with a write of the file left: after the directory is saved,
-- opening the image gives the same offsets.
pub open_table-save_directory :
    (first next : ℕ) (os : List ℕ) (f : File)
    → length os ≡ max_inode_blocks - 1
    → IsU64 first
    → All IsU64 os
    → 0 < f.budget
    → (f' : File) × ((save_directory (record { block_offsets = first ∷ os; next_disk_end = next }) f
          ≡ (ok tt, f'))
        × (open_table first next f'
            ≡ ok (record { block_offsets = first ∷ os; next_disk_end = next })))
unfolding save_directory open_table
open_table-save_directory first next os f count word words budget =
    let long = length-directory (first ∷ os) in
    let f' = written inode_block_dir_offset (directory (first ∷ os)) f in
    (
      f',
      (
        write_bytes_ok inode_block_dir_offset (directory (first ∷ os)) f (omega (arith, long))
            budget,
        rw (
          read_bytes_inside inode_block_dir_offset block_dir_bytes f' (omega (arith, long)),
          open_table,
          bytes_at-overwrite f.at inode_block_dir_offset (directory (first ∷ os)) block_dir_bytes
              (omega (arith, long)),
          pointers-directory 63 1 (first ∷ os) (omega arith) (word, words),
        ),
      ),
    )
