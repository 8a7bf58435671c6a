-- ===== src/InodeTable/Growth.antt =====
-- src/fs/inode_table.rs: about `alloc_block` and `alloc_inode`, and the place of the blocks.
use vexfs.Base.{
  ℕ, zero, suc, ◌+◌, ◌^◌, ◌≤◌, ◌<◌, ◌≡◌, ◌≢◌, ◌⊎◌, inl, inr, refl, ap, sym, List, [], ◌∷◌, Option,
  none, some, Bool, true, false, set, get_or, add_u64, replicate, Option-cases, arith,
}
use mathlib.Core.Path.{subst}
use vexfs.Disk.Result.{DiskResult, panic, ok, err}
use vexfs.File.{after, pure, write_bytes}
use vexfs.InodeTable.{
  InodeTable, TableFile, new_table, inode_block_size, first_empty, alloc_block, save_directory,
  first_unused, capacity, grow, alloc_inode,
}
use vexfs.InodeTable.Slots.{IsApart, base_of}

-- The blocks lie apart, and below the end of the disk.
pub record IsPlaced (t : InodeTable) : Type 0 where
  pub apart : IsApart t
  pub below : (b : ℕ) → base_of t b ≢ 0 → base_of t b + inode_block_size ≤ t.next_disk_end

pub get_or-zeroes : (n b : ℕ) → get_or {A = ℕ} (replicate n 0) b 0 ≡ 0
get_or-zeroes zero b = refl
get_or-zeroes (suc n) zero = refl
get_or-zeroes (suc n) (suc b) = get_or-zeroes n b

base_of-new_table :
    (o n b : ℕ) → ((b ≡ 0) × (base_of (new_table o n) b ≡ o)) ⊎ (base_of (new_table o n) b ≡ 0)
unfolding new_table
base_of-new_table o n zero = inl (refl, refl)
base_of-new_table o n (suc b) = inr (get_or-zeroes 63 b)

new_table-end : (o n : ℕ) → (new_table o n).next_disk_end ≡ n
unfolding new_table
new_table-end o n = refl

-- The blocks of a new table lie apart and below the end of the disk, if its first block ends below
-- the end of the disk.
pub new_table-IsPlaced :
    (o n : ℕ) → o + inode_block_size ≤ n → n < 2 ^ 64 → IsPlaced (new_table o n)
new_table-IsPlaced o n fits word = record {
  apart = record {
    word = λ b. let at = base_of-new_table o n b in omega arith;
    apart = λ b c other pb pc.
        let at_b = base_of-new_table o n b in
        let at_c = base_of-new_table o n c in absurd (omega arith);
  };
  below =
      λ b there. let at = base_of-new_table o n b in let stop = new_table-end o n in omega arith;
}

abbrev grown : ℕ → InodeTable → InodeTable
grown slot t = record {
  block_offsets = set t.block_offsets slot t.next_disk_end;
  next_disk_end = add_u64 t.next_disk_end inode_block_size;
}

get_or-set :
    (os : List ℕ) (i v b : ℕ)
    → (get_or (set os i v) b 0 ≡ get_or os b 0) ⊎ ((b ≡ i) × (get_or (set os i v) b 0 ≡ v))
get_or-set [] i v b = inl refl
get_or-set (o ∷ os) zero v zero = inr (refl, refl)
get_or-set (o ∷ os) zero v (suc b) = inl refl
get_or-set (o ∷ os) (suc i) v zero = inl refl
get_or-set (o ∷ os) (suc i) v (suc b) = elim (get_or-set os i v b) [
  | inl same ↦ inl same
  | inr (here, new) ↦ inr (ap suc here, new)
]

grown-IsPlaced :
    (slot : ℕ) (t : InodeTable)
    → IsPlaced t
    → t.next_disk_end + inode_block_size < 2 ^ 64
    → IsPlaced (grown slot t)
grown-IsPlaced slot t p word =
    let at = get_or-set t.block_offsets slot t.next_disk_end in
    record {
      apart = record {
        word = λ b. let x = at b in let w = p.apart.word b in omega arith;
        apart = λ b c other pb pc. elim (at b) [
          | inl old_b ↦ elim (at c) [
            | inl old_c ↦
                let split = p.apart.apart b c other (rw old_b at pb) (rw old_c at pc) in omega arith
            | inr (here, new) ↦ let low = p.below b (rw old_b at pb) in omega arith
          ]
          | inr (here_b, new_b) ↦ elim (at c) [
            | inl old_c ↦ let low = p.below c (rw old_c at pc) in omega arith
            | inr (here_c, new_c) ↦ absurd (omega arith)
          ]
        ];
      };
      below = λ b there. elim (at b) [
        | inl old ↦ let low = p.below b (rw old at there) in omega arith
        | inr (here, new) ↦ omega arith
      ];
    }

after-pure :
    {A : Type 0} (r : DiskResult (Unit {0})) (a : A) (s : TableFile)
    → (after r (λ _. pure a) s).1 ≡ s
after-pure (ok x) a s = refl
after-pure (err e) a s = refl
after-pure panic a s = refl

-- The end of `alloc_block`, behind the write of the zeroes, which returned `r`.
abbrev placed : ℕ → DiskResult (Unit {0}) → TableFile → TableFile
placed slot r s =
    (after r
      (λ _ s'.
        let grown_file = record s' { table = grown slot s'.table } in
        let (saved, f) = save_directory grown_file.table grown_file.file in
        after saved (λ _. pure (some slot)) (record grown_file { file = f }))
      s).1

placed-table :
    (slot : ℕ) (r : DiskResult (Unit {0})) (s : TableFile)
    → ((placed slot r s).table ≡ s.table) ⊎ ((placed slot r s).table ≡ grown slot s.table)
placed-table slot (ok x) s =
    let (saved, f) = save_directory (grown slot s.table) s.file in
    inr (
      ap (λ z. z.table)
        (after-pure saved (some slot) (record { table = grown slot s.table; file = f })))
placed-table slot (err e) s = inl refl
placed-table slot panic s = inl refl

-- `alloc_block` leaves the table as it is, or enters the end of the disk in a slot.
alloc_block-table :
    (s : TableFile)
    → ((alloc_block s).1.table ≡ s.table)
      ⊎ ((slot : ℕ) × ((alloc_block s).1.table ≡ grown slot s.table))
unfolding alloc_block
alloc_block-table s = elim (Option-cases (first_empty s.table.block_offsets)) [
  | inl full ↦ inl (rw (full, alloc_block) refl)
  | inr (slot, empty) ↦
      let (r, f) = write_bytes s.table.next_disk_end (replicate inode_block_size 0) s.file in
      elim (placed-table slot r (record s { file = f })) [
        | inl same ↦ inl (rw (empty, alloc_block) same)
        | inr more ↦ inr (slot, rw (empty, alloc_block) more)
      ]
]

-- A table whose blocks lie apart and below the end of the disk is so after `alloc_block`, whether it
-- adds a block, finds no slot for one or fails, if a block behind that end stays below 2^64.
pub alloc_block-IsPlaced :
    (s : TableFile)
    → IsPlaced s.table
    → s.table.next_disk_end + inode_block_size < 2 ^ 64
    → IsPlaced (alloc_block s).1.table
alloc_block-IsPlaced s p word = elim (alloc_block-table s) [
  | inl same ↦ subst IsPlaced (sym same) p
  | inr (slot, more) ↦ subst IsPlaced (sym more) (grown-IsPlaced slot s.table p word)
]

-- The end of `grow`, behind `alloc_block`, which returned `r`.
after-grow :
    (r : DiskResult (Option ℕ)) (index : ℕ) (s : TableFile)
    → (after {B = Option (ℕ × Bool)} r
        (λ block. elim block [ none ↦ pure none | some _ ↦ pure (some (index, true)) ])
        s).1
      ≡ s
after-grow (ok none) index s = refl
after-grow (ok (some slot)) index s = refl
after-grow (err e) index s = refl
after-grow panic index s = refl

grow-state : (crc : List ℕ → ℕ) (s : TableFile) → (grow crc s).1 ≡ (alloc_block s).1
unfolding grow
grow-state crc s = let (r, s') = alloc_block s in after-grow r (capacity s.table) s'

-- A table whose blocks lie apart and below the end of the disk is so after `alloc_inode`, whether it
-- finds a slot, grows the table or fails, if a block behind that end stays below 2^64.
pub alloc_inode-IsPlaced :
    (crc : List ℕ → ℕ) (s : TableFile)
    → IsPlaced s.table
    → s.table.next_disk_end + inode_block_size < 2 ^ 64
    → IsPlaced (alloc_inode crc s).1.table
unfolding alloc_inode
alloc_inode-IsPlaced crc s p word =
    let more =
      subst (λ z. IsPlaced z.table) (sym (grow-state crc s)) (alloc_block-IsPlaced s p word) in
    elim (first_unused crc (capacity s.table) 0 s.table s.file)
      as (λ r.
        let done : DiskResult (Option (ℕ × Bool)) × TableFile = elim r [
          | ok (some index) ↦ (ok (some (index, false)), s)
          | ok none ↦ grow crc s
          | err x ↦ (err x, s)
          | panic ↦ (panic, s)
        ] in
        IsPlaced done.1.table) [ ok (some index) ↦ p | ok none ↦ more | err x ↦ p | panic ↦ p ]
