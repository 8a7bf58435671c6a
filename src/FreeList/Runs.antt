-- ===== src/FreeList/Runs.antt =====
-- Runs of the free list, after the tests of src/fs/free_list.rs, and the theorems at them.
use vexfs.FreeList.Saved.{Words, load-save}
use vexfs.FreeList.Persist.{save, load}
use vexfs.File.{File}
use vexfs.Disk.Result.{ok}
use vexfs.Base.{
  ℕ, ◌+◌, ◌^◌, ◌≤◌, ◌<◌, ◌≡◌, refl, [], ◌∷◌, ◌&&◌, ◌||◌, not, none, some, ltb, leb, ◌⊎◌, All, arith,
  ◌*◌, ◌%◌, List,
}
use vexfs.FreeList.{FreeExtent, FreeList, new, free, alloc, total_length, rebuild_from_inodes}
use vexfs.FreeList.Cover.{in_range, covers, owners}
use vexfs.FreeList.Free.{IsValid, covers-free, free-IsValid}
use vexfs.FreeList.Alloc.{IsBestFit, hits}
use vexfs.FreeList.Account.{alloc-IsBestFit, owners-alloc, alloc-IsValid}
use vexfs.FreeList.Rebuild.{covers-rebuild_from_inodes}

abbrev extent : ℕ → ℕ → FreeExtent
extent offset len = record { offset = offset; length = len }

abbrev two : FreeList
two = extent 100000 4096 ∷ extent 200000 512 ∷ []

two-IsValid : IsValid two
two-IsValid = record {
  fits = (omega arith, (omega arith, tt));
  bounded = omega arith;
  disjoint = λ b. ground arith;
}

-- test_best_fit
best_fit_run : (alloc two 512).0 ≡ some 200000
unfolding alloc
best_fit_run = refl

-- test_remainder_returned_on_partial_alloc
remainder_run : alloc (extent 4096 8192 ∷ []) 512 ≡ (some 4096, extent 4608 7680 ∷ [])
unfolding alloc
remainder_run = refl

-- test_merge_adjacent
merge_run : free (free new 4096 512) 4608 512 ≡ extent 4096 1024 ∷ []
unfolding free
merge_run = refl

-- test_rebuild_from_inodes
rebuild_run :
    rebuild_from_inodes (extent 65536 4096 ∷ extent 131072 8192 ∷ []) 1048576 65536
    ≡ extent 69632 61440 ∷ extent 139264 909312 ∷ []
unfolding rebuild_from_inodes
rebuild_run = refl

covers-free_example :
    covers (free two 104096 100) 104100 ≡ (covers two 104100 || in_range 104096 100 104100)
covers-free_example =
    covers-free two 104096 100 104100 (omega arith) (omega arith) (omega arith) (omega arith)
      two-IsValid.fits

free-IsValid_example : IsValid (free two 104096 100)
free-IsValid_example = free-IsValid two 104096 100 (omega arith) two-IsValid

alloc-IsBestFit_example :
    ((i : ℕ) × (e : FreeExtent) × ((alloc two 512).0 ≡ some e.offset) × IsBestFit 512 two i e)
    ⊎ ((alloc two 512 ≡ (none, two)) × All (λ f. f.length < 512) two)
alloc-IsBestFit_example = alloc-IsBestFit two 512

owners-alloc_example :
    (hits 200000 512 200100 + owners (alloc two 512).1 200100 ≤ owners two 200100)
    × (owners two 200100 ≤ hits 200000 (512 + 511) 200100 + owners (alloc two 512).1 200100)
owners-alloc_example = owners-alloc two 512 200000 200100 two-IsValid.fits best_fit_run

two_word : total_length two < 2 ^ 64
unfolding total_length
two_word = omega arith

alloc-IsValid_example : IsValid (alloc two 512).1
alloc-IsValid_example = alloc-IsValid two 512 two-IsValid

covers-rebuild_from_inodes_example :
    (covers (rebuild_from_inodes (extent 65536 4096 ∷ []) 1048576 65536) 70000
      ≡ ((leb 65536 70000 && ltb 70000 1048576) && not (covers (extent 65536 4096 ∷ []) 70000)))
    × IsValid (rebuild_from_inodes (extent 65536 4096 ∷ []) 1048576 65536)
covers-rebuild_from_inodes_example =
    covers-rebuild_from_inodes (extent 65536 4096 ∷ []) 1048576 65536 70000 (omega arith)
      (omega arith) (omega arith) (omega arith) (omega arith, tt)

-- A checksum to run with.
unfoldable checksum : List ℕ → ℕ
checksum [] = 7
checksum (b ∷ bs) = (checksum bs * 31 + b) % 2 ^ 32

checksum_word : (bytes : List ℕ) → checksum bytes < 2 ^ 32
unfolding checksum
checksum_word [] = omega arith
checksum_word (b ∷ bs) = omega arith

abbrev image : File
image = record { size = 4096; at = λ i. 0; budget = 2 }

two-Words : All Words two
two-Words = ((omega arith, omega arith), ((omega arith, omega arith), tt))

load-save_example :
    (f : File) × ((save checksum two image ≡ (ok tt, f))
      × ((load checksum f ≡ ok two) × (2 ≤ 200 → two ≡ two)))
load-save_example = load-save checksum checksum_word two image two-Words (omega arith)
