-- ===== src/InodeTable/Slots.antt =====
-- src/fs/inode_table.rs: where the slots of the inode table stand on disk.
use vexfs.Base.{ℕ, ◌+◌, ◌*◌, ◌^◌, ◌≤◌, ◌<◌, ◌≡◌, ◌≢◌, ◌⊎◌, inl, inr, ap, some, get_or, arith}
use vexfs.Disk.Inode.{inode_bytes}
use vexfs.InodeTable.{InodeTable, inode_block_size, block_for, slot_in_block, inode_offset}

abbrev pub base_of : InodeTable → ℕ → ℕ
base_of t block = get_or t.block_offsets block 0

-- The blocks that the table has lie apart, and their bytes below 2 ^ 64.
pub record IsApart (t : InodeTable) : Type 0 where
  pub word : (b : ℕ) → base_of t b + inode_block_size < 2 ^ 64
  pub apart :
      (b c : ℕ)
      → b ≢ c
      → base_of t b ≢ 0
      → base_of t c ≢ 0
      → (base_of t b + inode_block_size ≤ base_of t c)
        ⊎ (base_of t c + inode_block_size ≤ base_of t b)

-- The slot of an index lies in its block.
pub inode_offset-slot :
    (t : InodeTable) (index offset : ℕ)
    → IsApart t
    → inode_offset t index ≡ some offset
    → (base_of t (block_for index) ≢ 0)
      × (offset ≡ base_of t (block_for index) + slot_in_block index * inode_bytes)
unfolding inode_offset
inode_offset-slot t index offset g h =
    let w = g.word (block_for index) in (ground arith, ground arith)

-- Two indices have slots that do not overlap.
pub inode_offset_apart :
    (t : InodeTable) (i j a b : ℕ)
    → IsApart t
    → i ≢ j
    → inode_offset t i ≡ some a
    → inode_offset t j ≡ some b
    → (a + inode_bytes ≤ b) ⊎ (b + inode_bytes ≤ a)
inode_offset_apart t i j a b g other ha hb =
    let (pi, ea) = inode_offset-slot t i a g ha in
    let (pj, eb) = inode_offset-slot t j b g hb in
    let side : (block_for i ≡ block_for j) ⊎ (block_for i ≢ block_for j) = ground arith in
    elim side [
      | inl same ↦
          let bases : base_of t (block_for i) ≡ base_of t (block_for j) = ap (base_of t) same in
          omega arith
      | inr apart ↦ let split = g.apart (block_for i) (block_for j) apart pi pj in omega arith
    ]
