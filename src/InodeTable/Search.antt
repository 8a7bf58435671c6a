-- ===== src/InodeTable/Search.antt =====
-- src/fs/inode_table.rs: about the search of `alloc_inode`.
use vexfs.Base.{
  ℕ, List, zero, suc, ◌+◌, ◌≤◌, ◌<◌, ◌≡◌, ◌≢◌, ◌⊎◌, inl, inr, refl, ◌∙◌, none, some, true, false,
  ◌==◌, Bool-cases, arith,
}
use vexfs.Disk.Result.{ok}
use vexfs.Disk.Inode.{InodeRaw}
use vexfs.File.{File}
use vexfs.InodeTable.{InodeTable, TableFile, capacity, read_inode, first_unused, grow, alloc_inode}

module _ (crc : List ℕ → ℕ) (t : InodeTable) (f : File) where
  -- The inode at the index can be read, and is used.
  abbrev pub IsUsed : ℕ → Type 0
  IsUsed index = (x : InodeRaw) × ((read_inode crc t index f ≡ ok x) × (x.is_used ≢ 0))

  -- The inode at the index can be read, and is not used.
  abbrev pub IsUnused : ℕ → Type 0
  IsUnused index = (x : InodeRaw) × ((read_inode crc t index f ≡ ok x) × (x.is_used ≡ 0))

  step_used :
      (count index : ℕ) (x : InodeRaw)
      → read_inode crc t index f ≡ ok x
      → x.is_used ≢ 0
      → first_unused crc (suc count) index t f ≡ first_unused crc count (index + 1) t f
  unfolding first_unused
  step_used count index x readable used =
      let busy : (x.is_used == 0) ≡ false = ground arith in rw (readable, first_unused, busy)

  step_unused :
      (count index : ℕ) (x : InodeRaw)
      → read_inode crc t index f ≡ ok x
      → x.is_used ≡ 0
      → first_unused crc (suc count) index t f ≡ ok (some index)
  unfolding first_unused
  step_unused count index x readable unused =
      let free : (x.is_used == 0) ≡ true = ground arith in rw (readable, first_unused, free)

  -- With every slot readable, the scan finds the first slot that is not used, or all are used.
  first_unused_lem :
      (count index : ℕ)
      → ((j : ℕ) → index ≤ j → j < index + count → (x : InodeRaw) × (read_inode crc t j f ≡ ok x))
      → ((i : ℕ) × ((first_unused crc count index t f ≡ ok (some i))
            × ((index ≤ i)
                × ((i < index + count) × (IsUnused i × ((j : ℕ) → index ≤ j → j < i → IsUsed j))))))
        ⊎ ((first_unused crc count index t f ≡ ok none)
            × ((j : ℕ) → index ≤ j → j < index + count → IsUsed j))
  unfolding first_unused
  first_unused_lem zero index readable = inr (refl, λ j lo hi. absurd (omega arith))
  first_unused_lem (suc count) index readable =
      let (x, here) = readable index (omega arith) (omega arith) in
      elim (Bool-cases (x.is_used == 0)) [
        | inl free ↦
            let unused : x.is_used ≡ 0 = ground arith in
            inl (
              index,
              (
                step_unused count index x here unused,
                (
                  omega arith,
                  (omega arith, ((x, (here, unused)), λ j lo hi. absurd (omega arith))),
                ),
              ),
            )
        | inr busy ↦
            let used : x.is_used ≢ 0 = ground arith in
            let more : (j : ℕ)
                → (j ≡ index) ⊎ (index + 1 ≤ j)
                → (index + 1 ≤ j → IsUsed j)
                → IsUsed j =
              λ j side later. elim side [
                | inl same ↦ rw same (x, (here, used))
                | inr above ↦ later above
              ] in
            elim (first_unused_lem count (index + 1)
              (λ j lo hi. readable j (omega arith) (omega arith))) [
                | inl (i, (found, (lo, (hi, (unused, below))))) ↦ inl (
                  i,
                  (
                    step_used count index x here used ∙ found,
                    (
                      omega arith,
                      (
                        omega arith,
                        (unused, λ j at_least lt. more j (omega arith) (λ above. below j above lt)),
                      ),
                    ),
                  ),
                )
                | inr (nothing, all) ↦ inr (
                  step_used count index x here used ∙ nothing,
                  λ j at_least lt. more j (omega arith) (λ above. all j above (omega arith)),
                )
              ]
      ]

-- With every slot of the table readable: `alloc_inode` hands out the first slot that is not used,
-- and changes nothing, or all are used, and it tries to grow the table.
pub alloc_inode_lem :
    (crc : List ℕ → ℕ) (s : TableFile)
    → ((j : ℕ) → j < capacity s.table → (x : InodeRaw) × (read_inode crc s.table j s.file ≡ ok x))
    → ((i : ℕ) × ((alloc_inode crc s ≡ (ok (some (i, false)), s))
          × ((i < capacity s.table)
              × (IsUnused crc s.table s.file i × ((j : ℕ) → j < i → IsUsed crc s.table s.file j)))))
      ⊎ ((alloc_inode crc s ≡ grow crc s)
          × ((j : ℕ) → j < capacity s.table → IsUsed crc s.table s.file j))
unfolding alloc_inode
alloc_inode_lem crc s readable =
    elim (first_unused_lem crc s.table s.file (capacity s.table) 0
      (λ j lo hi. readable j (omega arith))) [
        | inl (i, (found, (lo, (hi, (unused, below))))) ↦ inl (
          i,
          ((rw (found, alloc_inode)), (omega arith, (unused, λ j lt. below j (omega arith) lt))),
        )
        | inr (nothing, all) ↦
            inr ((rw (nothing, alloc_inode)), λ j lt. all j (omega arith) (omega arith))
      ]
