-- ===== src/Fuse/Versions.antt =====
-- src/fuse/mod.rs: about the snapshots that the calls take and collect.
use vexfs.Base.{ℕ, List, [], ◌∷◌, Option, none, some, ltb, length}
use vexfs.Disk.Result.{DiskResult, ok, err, panic}
use vexfs.DiskManager.Extents.{find_free_snapshot_slot, write_snapshot, zero_snapshot_slot}
use vexfs.Snapshots.{list_of, total_snapshots, gc_keep_per_file}
use vexfs.Snapshots
use vexfs.Fuse.{VexFs, VexFile, World, skip, modify}
use vexfs.Fuse.Persist.{free_extent, free_slots, maybe_gc_snapshots}
use vexfs.Fuse.Data.{snapshot_record, last_id, slot_taken, store_snapshot, store_at, take_snapshot}
use vexfs.Fuse.Steps.{
  Preserves, Leaves-if, Preserves-bind, Preserves-pure, Preserves-modify, Preserves-on_disk,
}
use vexfs.Snapshots.{SnapshotManager}
use vexfs.Fuse.Frame.{IsStable, Preserves-ignore, free_extent-keeps}

-- For what holds whatever the snapshots are.
module _ (P : VexFs → Type 0) (stable : IsStable P)
    (snaps : (s : VexFs) (m : SnapshotManager) → P s → P (record s { snapshots = m })) where
  Preserves-store_at :
      (w : World) (ino : ℕ) (name : List ℕ) (size offset slot : ℕ)
      → Preserves P (store_at w ino name size offset slot)
  unfolding store_at
  Preserves-store_at w ino name size offset slot = record {
    keeps = λ s.
        (Preserves-bind P
            (Preserves-ignore P stable (
              write_snapshot w.crc slot
                (snapshot_record w ino name size offset (last_id (list_of ino s.snapshots)))))
            (λ _.
              Preserves-modify P (λ s. record s { snapshots = slot_taken ino slot s.snapshots })
                (λ s. snaps s _))).keeps
          s;
  }

  Preserves-stored :
      (w : World) (ino : ℕ) (name : List ℕ) (size offset : ℕ) (slot : DiskResult (Option ℕ))
      → Preserves {A = Unit {0}} P (elim slot [
        | ok found ↦ elim found [ none ↦ skip | some n ↦ store_at w ino name size offset n ]
        | _ ↦ skip
      ])
  Preserves-stored w ino name size offset (ok none) = Preserves-pure P tt
  Preserves-stored w ino name size offset (ok (some n)) =
      Preserves-store_at w ino name size offset n
  Preserves-stored w ino name size offset (err e) = Preserves-pure P tt
  Preserves-stored w ino name size offset panic = Preserves-pure P tt

  pub Preserves-take_snapshot :
      (w : World) (ino : ℕ) (f : VexFile) (bytes : List ℕ)
      → Preserves P (take_snapshot w ino f bytes)
  unfolding take_snapshot store_snapshot
  Preserves-take_snapshot w ino f bytes =
      Preserves-bind P
        (Preserves-modify P
          (λ s. record s {
            snapshots = Snapshots.snapshot w.now ino f.name bytes f.data_offset s.snapshots;
          })
          (λ s. snaps s _))
        (λ _.
          Preserves-bind P
            (Preserves-on_disk P (λ i. (find_free_snapshot_slot w.crc i.file, i)) stable.disk)
            (Preserves-stored w ino f.name (length bytes) f.data_offset))

  Preserves-zeroed :
      (offset size : ℕ) (r : DiskResult (Unit {0}))
      → Preserves {A = Unit {0}} P (elim r [ ok _ ↦ modify (free_extent offset size) | _ ↦ skip ])
  Preserves-zeroed offset size (ok u) =
      Preserves-modify P (free_extent offset size) (free_extent-keeps P stable offset size)
  Preserves-zeroed offset size (err e) = Preserves-pure P tt
  Preserves-zeroed offset size panic = Preserves-pure P tt

  Preserves-free_slots : (slots : List (ℕ × ℕ × ℕ)) → Preserves P (free_slots slots)
  unfolding free_slots
  Preserves-free_slots [] = Preserves-pure P tt
  Preserves-free_slots ((slot, offset, size) ∷ slots) =
      Preserves-bind P (Preserves-on_disk P (zero_snapshot_slot slot) stable.disk)
        (λ r. Preserves-bind P (Preserves-zeroed offset size r) (λ _. Preserves-free_slots slots))

  pub Preserves-gc : Preserves P maybe_gc_snapshots
  unfolding maybe_gc_snapshots
  Preserves-gc = record {
    keeps = λ s p.
        Leaves-if (λ _. P) (skip s) _ (ltb (total_snapshots s.snapshots) 200) p
          ((Preserves-free_slots (gc_keep_per_file 3 s.snapshots).0).keeps _ (snaps s _ p));
  }
