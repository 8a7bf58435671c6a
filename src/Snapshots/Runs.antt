-- ===== src/Snapshots/Runs.antt =====
-- Runs of the snapshot manager, after the tests of src/fs/snapshot.rs, and the theorems at them.
use vexfs.Base.{ℕ, ◌≡◌, ◌≢◌, refl, [], ◌∷◌, none, some, arith}
use vexfs.Base.Map
use vexfs.Base.Sort.{sort_by_key}
use vexfs.Snapshots.{
  drop_oldest, get_version, find_version, gc_files, gc_list, freed_slots, SnapshotManager,
  new_manager, new_snapshot, list_of, snapshot, restore, gc_keep_per_file,
}
use vexfs.Snapshots.Versions.{Unnumbered, IsBounded, restore-snapshot}

-- Two versions of file 2 in a manager that keeps two.
abbrev two : SnapshotManager
two = record {
  snapshots =
      (2, new_snapshot 100 1 2 [] (7 ∷ []) 1000 ∷ new_snapshot 101 2 2 [] (8 ∷ []) 2000 ∷ []) ∷ [];
  next_id = 3;
  max_per_file = 2;
}

two_run : snapshot 101 2 [] (8 ∷ []) 2000 (snapshot 100 2 [] (7 ∷ []) 1000 (new_manager 2)) ≡ two
unfolding snapshot Map.insert drop_oldest list_of Map.lookup
two_run = refl

-- test_max_snapshots_enforced: the oldest goes.
third_run : restore 2 1 (snapshot 102 2 [] (9 ∷ []) 3000 two) ≡ none
unfolding restore snapshot Map.insert drop_oldest list_of Map.lookup get_version find_version
third_run = refl

-- Neither snapshot is on disk, so no slot is freed.
gc_run :
    gc_keep_per_file 1 two
    ≡ ([], record two { snapshots = (2, new_snapshot 101 2 2 [] (8 ∷ []) 2000 ∷ []) ∷ [] })
unfolding gc_keep_per_file gc_files gc_list freed_slots sort_by_key
gc_run = refl

two-Unnumbered : Unnumbered 3 (list_of 2 two)
unfolding list_of Map.lookup
two-Unnumbered = (omega arith, (omega arith, tt))

restore-snapshot_example :
    (restore 2 3 (snapshot 102 2 [] (9 ∷ []) 3000 two) ≡ some (9 ∷ []))
    × ((j : ℕ) → 2 ≢ j → list_of j (snapshot 102 2 [] (9 ∷ []) 3000 two) ≡ list_of j two)
restore-snapshot_example =
    restore-snapshot 102 2 [] (9 ∷ []) 3000 two (omega arith) (omega arith) two-Unnumbered

two-IsBounded : IsBounded two
unfolding list_of Map.lookup
two-IsBounded j = ground arith
