-- ===== src/InodeTable.antt =====
-- src/fs/inode_table.rs: the inode table of 1024 slots and its extension blocks.
pub mod Slots
pub mod Stored
pub mod Search
pub mod Growth
pub mod Directory
mod Runs
use vexfs.Base.{
  ℕ, zero, suc, ◌+◌, ◌-◌, ◌*◌, ◌/◌, ◌%◌, List, [], ◌∷◌, ◌++◌, Option, none, some, Bool, true, false,
  ◌&&◌, ◌==◌, if◌then◌else◌, set, get_or, replicate, add_u64,
}
use vexfs.Base.Bytes.{u64_to_le, le_to_u64, slice}
use vexfs.Disk.Result.{DiskResult, ok, err, panic, io}
use vexfs.Disk.Inode.{
  InodeRaw, empty_inode, inode_bytes, inode_to_bytes, inode_from_bytes, is_valid,
}
use vexfs.File.{File, Exec, ◌>>=◌, ◌>>◌, pure, read_bytes, write_bytes}

abbrev pub inodes_per_block : ℕ
inodes_per_block = 1024

abbrev pub max_inode_blocks : ℕ
max_inode_blocks = 64

abbrev pub inode_block_size : ℕ
inode_block_size = inodes_per_block * inode_bytes

abbrev pub block_dir_bytes : ℕ
block_dir_bytes = max_inode_blocks * 8

abbrev pub inode_block_dir_offset : ℕ
inode_block_dir_offset = 3584

-- `_used_count` is 0 throughout, and is left out.
pub record InodeTable : Type 0 where
  pub block_offsets : List ℕ
  pub next_disk_end : ℕ

-- A method borrows the table and the file.
pub record TableFile : Type 0 where
  pub table : InodeTable
  pub file : File

abbrev on_file : {A : Type 0} → Exec File A → Exec TableFile A
on_file m s = let (r, f) = m s.file in (r, record s { file = f })

unfoldable pub new_table : ℕ → ℕ → InodeTable
new_table original_offset next_disk_end = record {
  block_offsets = original_offset ∷ replicate (max_inode_blocks - 1) 0;
  next_disk_end = next_disk_end;
}

-- The loop of `open` over the pointers `i`, `i + 1`, … of the directory.
unfoldable pub pointers : ℕ → ℕ → List ℕ → List ℕ
pointers zero i dir = []
pointers (suc count) i dir = le_to_u64 (slice (i * 8) (i * 8 + 8) dir) ∷ pointers count (i + 1) dir

-- `InodeTable::open`.
unfoldable pub open_table : ℕ → ℕ → File → DiskResult InodeTable
open_table original_offset next_disk_end f =
    elim (read_bytes inode_block_dir_offset block_dir_bytes f) [
      | ok dir ↦ ok (record {
        block_offsets = original_offset ∷ pointers (max_inode_blocks - 1) 1 dir;
        next_disk_end = next_disk_end;
      })
      | err x ↦ err x
      | panic ↦ panic
    ]

-- The bytes of the directory: the array has one offset for each of the 64 blocks.
unfoldable pub directory : List ℕ → List ℕ
directory [] = []
directory (o ∷ os) = u64_to_le o ++ directory os

unfoldable pub save_directory : InodeTable → Exec File (Unit {0})
save_directory t = write_bytes inode_block_dir_offset (directory t.block_offsets)

abbrev pub block_for : ℕ → ℕ
block_for index = index / inodes_per_block

abbrev pub slot_in_block : ℕ → ℕ
slot_in_block index = index % inodes_per_block

unfoldable pub inode_offset : InodeTable → ℕ → Option ℕ
inode_offset t index =
    let base = get_or t.block_offsets (block_for index) 0 in
    if base == 0 then none else some (add_u64 base (slot_in_block index * inode_bytes))

unfoldable pub count_blocks : List ℕ → ℕ
count_blocks [] = 0
count_blocks (o ∷ os) = let rest = count_blocks os in if o == 0 then rest else suc rest

abbrev pub block_count : InodeTable → ℕ
block_count t = count_blocks t.block_offsets

abbrev pub capacity : InodeTable → ℕ
capacity t = block_count t * inodes_per_block

-- The index of the first zero at `i` or behind it.
unfoldable pub position_zero : ℕ → List ℕ → Option ℕ
position_zero i [] = none
position_zero i (o ∷ os) = let rest = position_zero (i + 1) os in if o == 0 then some i else rest

-- `block_offsets.iter().skip(1).position(..)`, plus 1.
unfoldable pub first_empty : List ℕ → Option ℕ
first_empty [] = none
first_empty (o ∷ os) = position_zero 1 os

-- The block at `next_disk_end` is in the table, not yet in the directory on disk.
abbrev pub add_block : ℕ → Exec TableFile (Unit {0})
add_block slot s = (
  ok tt,
  record s {
    table = record {
      block_offsets = set s.table.block_offsets slot s.table.next_disk_end;
      next_disk_end = add_u64 s.table.next_disk_end inode_block_size;
    };
  },
)

unfoldable pub alloc_block : Exec TableFile (Option ℕ)
alloc_block s = elim (first_empty s.table.block_offsets) [
  | none ↦ (ok none, s)
  | some slot ↦
      (do
        on_file (write_bytes s.table.next_disk_end (replicate inode_block_size 0))
        add_block slot
        (λ s'. on_file (save_directory s'.table) s')
        pure (some slot))
        s
]

module _ (crc : List ℕ → ℕ) where
  -- `Err(_) => Ok(InodeRaw::empty())`.
  unfoldable pub decoded : List ℕ → DiskResult InodeRaw
  decoded bytes = elim (inode_from_bytes crc bytes) [
    | ok inode ↦ ok inode
    | err _ ↦ ok empty_inode
    | panic ↦ panic
  ]

  unfoldable pub read_inode : InodeTable → ℕ → File → DiskResult InodeRaw
  read_inode t index f = elim (inode_offset t index) [
    | none ↦ ok empty_inode
    | some offset ↦ elim (read_bytes offset inode_bytes f) [
      | ok bytes ↦ decoded bytes
      | err x ↦ err x
      | panic ↦ panic
    ]
  ]

  unfoldable pub write_inode : InodeTable → ℕ → InodeRaw → Exec File (Unit {0})
  write_inode t index inode f = elim (inode_offset t index) [
    | none ↦ (err io, f)
    | some offset ↦ write_bytes offset (inode_to_bytes crc inode) f
  ]

  -- The scan of `alloc_inode` over `count` slots from `index` on: the first one that is not used.
  unfoldable pub first_unused : ℕ → ℕ → InodeTable → File → DiskResult (Option ℕ)
  first_unused zero index t f = ok none
  first_unused (suc count) index t f = elim (read_inode t index f) [
    | ok inode ↦ elim (inode.is_used == 0) [
      | true ↦ ok (some index)
      | false ↦ first_unused count (index + 1) t f
    ]
    | err x ↦ err x
    | panic ↦ panic
  ]

  -- A new block, whose first slot is at the old capacity.
  unfoldable pub grow : Exec TableFile (Option (ℕ × Bool))
  grow s =
      (do
        block ← alloc_block
        elim block [ none ↦ pure none | some _ ↦ pure (some (capacity s.table, true)) ])
        s

  unfoldable pub alloc_inode : Exec TableFile (Option (ℕ × Bool))
  alloc_inode s = elim (first_unused (capacity s.table) 0 s.table s.file) [
    | ok (some index) ↦ (ok (some (index, false)), s)
    | ok none ↦ grow s
    | err x ↦ (err x, s)
    | panic ↦ (panic, s)
  ]

  unfoldable pub free_inode : InodeTable → ℕ → Exec File (Unit {0})
  free_inode t index f = elim (read_inode t index f) [
    | ok inode ↦ write_inode t index (record inode { is_used = 0 }) f
    | err x ↦ (err x, f)
    | panic ↦ (panic, f)
  ]

  -- What `for_each_used` calls its closure with, up to the end of `count` slots from `index` on; the
  -- closure here never stops it.
  unfoldable pub each_used : ℕ → ℕ → InodeTable → File → DiskResult (List (ℕ × InodeRaw))
  each_used zero index t f = ok []
  each_used (suc count) index t f = elim (read_inode t index f) [
    | ok inode ↦ elim (each_used count (index + 1) t f) [
      | ok rest ↦ ok (if inode.is_used == 1 && is_valid inode then (index, inode) ∷ rest else rest)
      | err x ↦ err x
      | panic ↦ panic
    ]
    | err x ↦ err x
    | panic ↦ panic
  ]

  -- A slot that cannot be read is not counted.
  unfoldable pub count_used : ℕ → ℕ → InodeTable → File → ℕ
  count_used zero index t f = 0
  count_used (suc count) index t f =
      let rest = count_used count (index + 1) t f in
      elim (read_inode t index f) [
        | ok inode ↦ if inode.is_used == 1 then suc rest else rest
        | err _ ↦ rest
        | panic ↦ rest
      ]

  unfoldable pub used_count : InodeTable → File → ℕ
  used_count t f = count_used (capacity t) 0 t f
