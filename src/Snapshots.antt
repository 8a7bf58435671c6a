-- ===== src/Snapshots.antt =====
-- src/fs/snapshot.rs: the snapshots of each file, newest last.
pub mod Versions
mod Runs
use vexfs.Base.{
  ℕ, ◌+◌, ◌-◌, ◌%◌, ◌^◌, List, [], ◌∷◌, ◌++◌, Option, none, some, Bool, true, false, ltb, leb, ◌==◌,
  if◌then◌else◌, length, take, drop,
}
use vexfs.Base.Map.{lookup, total}
use vexfs.Base.Map
use vexfs.Base.Sort.{sort_by_key}

pub record Snapshot : Type 0 where
  pub id : ℕ
  pub ino : ℕ
  pub name : List ℕ
  pub size : ℕ
  pub data_offset : ℕ
  pub timestamp : ℕ
  pub bytes : List ℕ
  pub disk_slot : ℕ

-- `usize::MAX`: not on disk.
abbrev pub no_slot : ℕ
no_slot = 2 ^ 64 - 1

pub record SnapshotManager : Type 0 where
  pub snapshots : List (ℕ × List Snapshot)
  pub next_id : ℕ
  pub max_per_file : ℕ

abbrev pub new_manager : ℕ → SnapshotManager
new_manager max_per_file = record { snapshots = []; next_id = 1; max_per_file = max_per_file }

-- `Snapshot::new` at the time `now`.
abbrev pub new_snapshot : ℕ → ℕ → ℕ → List ℕ → List ℕ → ℕ → Snapshot
new_snapshot now id ino name bytes data_offset = record {
  id = id;
  ino = ino;
  name = name;
  size = length bytes;
  data_offset = data_offset;
  timestamp = now;
  bytes = bytes;
  disk_slot = no_slot;
}

unfoldable pub list_of : ℕ → SnapshotManager → List Snapshot
list_of ino m = elim (lookup ino m.snapshots) [ none ↦ [] | some list ↦ list ]

-- `list.remove(0)` on a list that is too long.
unfoldable pub drop_oldest : ℕ → List Snapshot → List Snapshot
drop_oldest max list = if ltb max (length list) then drop 1 list else list

-- `SnapshotManager::snapshot` at the time `now`.
unfoldable pub snapshot : ℕ → ℕ → List ℕ → List ℕ → ℕ → SnapshotManager → SnapshotManager
snapshot now ino name bytes data_offset m = if length bytes == 0 then m else record m {
  next_id = (m.next_id + 1) % 2 ^ 32;
  snapshots =
      Map.insert ino
        (drop_oldest m.max_per_file
          (list_of ino m ++ (new_snapshot now m.next_id ino name bytes data_offset ∷ [])))
        m.snapshots;
}

unfoldable pub find_version : ℕ → List Snapshot → Option Snapshot
find_version version [] = none
find_version version (s ∷ ss) =
    let rest = find_version version ss in if s.id == version then some s else rest

unfoldable pub get_version : ℕ → ℕ → SnapshotManager → Option Snapshot
get_version ino version m = elim (lookup ino m.snapshots) [
  | none ↦ none
  | some list ↦ find_version version list
]

unfoldable pub restore : ℕ → ℕ → SnapshotManager → Option (List ℕ)
restore ino version m = elim (get_version ino version m) [ none ↦ none | some s ↦ some s.bytes ]

unfoldable pub total_snapshots : SnapshotManager → ℕ
total_snapshots m = total (λ list. length list) m.snapshots

unfoldable pub files_with_snapshots : SnapshotManager → ℕ
files_with_snapshots m = length m.snapshots

unfoldable pub remove_file : ℕ → SnapshotManager → SnapshotManager
remove_file ino m = record m { snapshots = Map.remove ino m.snapshots }

-- The slots of the removed snapshots that are on disk, with their data.
unfoldable pub freed_slots : List Snapshot → List (ℕ × ℕ × ℕ)
freed_slots [] = []
freed_slots (s ∷ ss) =
    let rest = freed_slots ss in
    if s.disk_slot == no_slot then rest else (s.disk_slot, s.data_offset, s.size) ∷ rest

-- One list of `gc_keep_per_file`: what is kept, and what is freed.
unfoldable pub gc_list : ℕ → List Snapshot → List Snapshot × List (ℕ × ℕ × ℕ)
gc_list keep snaps =
    if leb (length snaps) keep
    then (snaps, [])
    else let sorted = sort_by_key (λ s. s.timestamp) snaps in
      let to_remove = length snaps - keep in
      (drop to_remove sorted, freed_slots (take to_remove sorted))

unfoldable pub gc_files : ℕ → List (ℕ × List Snapshot) → List (ℕ × List Snapshot) × List (ℕ × ℕ × ℕ)
gc_files keep [] = ([], [])
gc_files keep ((ino, snaps) ∷ files) =
    let (kept, freed) = gc_list keep snaps in
    let (rest, freed') = gc_files keep files in ((ino, kept) ∷ rest, freed ++ freed')

-- `gc_keep_per_file`: the slots to zero, and the manager.
unfoldable pub gc_keep_per_file : ℕ → SnapshotManager → List (ℕ × ℕ × ℕ) × SnapshotManager
gc_keep_per_file keep m =
    let (files, freed) = gc_files keep m.snapshots in (freed, record m { snapshots = files })
