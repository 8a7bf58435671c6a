-- ===== src/FreeList/Free.antt =====
-- src/fs/free_list.rs: about `free`, by the bytes that the list covers.
use vexfs.Base.{
  ℕ, suc, ◌+◌, ◌≤◌, ◌<◌, ◌^◌, ◌≡◌, ◌≢◌, ◌∙◌, [], ◌∷◌, ◌++◌, true, ◌||◌, leb, ◌==◌, All, length,
  length-append, Bool-cases, inl, inr, arith,
}
use vexfs.FreeList.{FreeList, free, merge_adjacent, max_persisted_extents}
use vexfs.FreeList.Cover.{
  in_range, covers, owners, Fits, Merged, Merged-merge_adjacent, covers-append, All-append,
  owners-le-one,
}

-- The list is within its cap, no sum wraps, and no byte is free twice.
pub record IsValid (fl : FreeList) : Type 0 where
  pub fits : All Fits fl
  pub bounded : length fl ≤ max_persisted_extents
  pub disjoint : (b : ℕ) → owners fl b ≤ 1

abbrev pushed : FreeList → ℕ → ℕ → FreeList
pushed fl offset len = fl ++ (record { offset = offset; length = len } ∷ [])

module _ (fl : FreeList) (offset len : ℕ) where
  -- Neither the null extent nor a full list is changed.
  free_ignored :
      ((offset == 0 || len == 0) || leb max_persisted_extents (length fl)) ≡ true
      → free fl offset len ≡ fl
  unfolding free
  free_ignored h = ground arith

  free_merges :
      offset ≢ 0
      → len ≢ 0
      → length fl < max_persisted_extents
      → free fl offset len ≡ merge_adjacent (pushed fl offset len)
  unfolding free
  free_merges p q r = ground arith

  pub Merged-free :
      offset ≢ 0
      → len ≢ 0
      → length fl < max_persisted_extents
      → offset + len < 2 ^ 64
      → All Fits fl
      → Merged (pushed fl offset len) (free fl offset len)
  Merged-free p q r fit a =
      rw (free_merges p q r)
        (Merged-merge_adjacent (pushed fl offset len) (All-append fl _ a ((omega arith, fit), tt)))

  -- Below the cap, an extent behind byte 0 that is not empty is added: a byte is covered afterwards
  -- exactly if it was before or lies in the extent.
  pub covers-free :
      (b : ℕ)
      → offset ≢ 0
      → len ≢ 0
      → length fl < max_persisted_extents
      → offset + len < 2 ^ 64
      → All Fits fl
      → covers (free fl offset len) b ≡ (covers fl b || in_range offset len b)
  covers-free b p q r fit a =
      (Merged-free p q r fit a).same b
      ∙ ground (arith, covers-append fl (record { offset = offset; length = len } ∷ []) b)

  -- `free` keeps the invariant on every branch, the extent overlapping others or not.
  pub free-IsValid : offset + len < 2 ^ 64 → IsValid fl → IsValid (free fl offset len)
  free-IsValid fit v =
      elim (Bool-cases ((offset == 0 || len == 0) || leb max_persisted_extents (length fl))) [
        | inl skip ↦ rw (free_ignored skip) v
        | inr go ↦
            let m = Merged-free (ground arith) (ground arith) (ground arith) fit v.fits in
            record {
              fits = m.fits;
              bounded = ground (
                arith,
                m.bounded,
                length-append fl (record { offset = offset; length = len } ∷ []),
              );
              disjoint = λ b. owners-le-one 0 (free fl offset len) b m.separated;
            }
      ]

  -- `free` adds one extent at most.
  pub length-free-le :
      offset + len < 2 ^ 64 → All Fits fl → length (free fl offset len) ≤ suc (length fl)
  length-free-le fit a =
      elim (Bool-cases ((offset == 0 || len == 0) || leb max_persisted_extents (length fl))) [
        | inl skip ↦ rw (free_ignored skip) (omega arith)
        | inr go ↦
            let m = Merged-free (ground arith) (ground arith) (ground arith) fit a in
            ground
              (arith, m.bounded, length-append fl (record { offset = offset; length = len } ∷ []))
      ]
