-- ===== src/Fuse/Entries.antt =====
-- src/fuse/mod.rs: about the calls that make directory entries.
use mathlib.Core.Path.{subst}
use vexfs.Base.{ℕ, ◌+◌, ◌^◌, ◌<◌, sym, List, [], Option, none, some, true, false, arith}
use vexfs.Disk.Result.{DiskResult, ok, err, panic}
use vexfs.DiskManager.{write_inode}
use vexfs.DiskManager.Extents.{flush, alloc_inode}
use vexfs.Btree.Tree.{Value}
use vexfs.Fuse.{
  VexFs, FileAttr, World, Reply, replied, error, enospc, eexist, make_attr, Fs, pure, on_disk,
}
use vexfs.Fuse.Names.{
  find_entry, enter, parent_error, new_inode, create_at, mkdir_at, with_inode, checked, create,
  mkdir,
}
use vexfs.Fuse.Steps.{
  Leaves, Preserves, Leaves-bind, Leaves-imp, Leaves-option, Preserves-bind, Preserves-pure,
  Preserves-on_disk,
}
use vexfs.Fuse.Frame.{Preserves-ignore, Preserves-cache_insert}
use vexfs.Fuse.Linked.{Linked, Linked-IsStable, find_entry-find, enter-Linked}

-- A call on linked files leaves them linked, and takes at most one inode.
abbrev pub Relinks : {A : Type 0} → ℕ → Fs A → Type 0
Relinks bound m = (s : VexFs) → Linked bound s → Leaves (λ _. Linked (bound + 1)) (m s)

module _ (bound : ℕ) where
  abbrev P : VexFs → Type 0
  P = Linked bound

  abbrev Q : VexFs → Type 0
  Q = Linked (bound + 1)

  pub Linked-weaken : (s : VexFs) → P s → Q s
  Linked-weaken s (i, l, b) = (i, l, omega arith)

  pub weaken_at : {A : Type 0} (o : Option (A × VexFs)) → Leaves (λ _. P) o → Leaves (λ _. Q) o
  weaken_at o = Leaves-imp (λ _. P) (λ _. Q) o (λ _. Linked-weaken)

  pub Relinks-Preserves : {A : Type 0} (m : Fs A) → Preserves P m → Relinks bound m
  Relinks-Preserves m h s p = weaken_at (m s) (h.keeps s p)

  pub find_entry-keeps :
      (parent : ℕ) (name : List ℕ) (s : VexFs) → P s → Leaves (λ _. P) (find_entry parent name s)
  find_entry-keeps parent name s p =
      subst (Leaves (λ _. P)) (sym (find_entry-find parent name s p.0)) p

  module _ (w : World) (parent : ℕ) (name : List ℕ) (room : bound + 1 < 2 ^ 64) where
    create_at-Relinks : (disk_index : ℕ) → Relinks bound (create_at w parent name disk_index)
    unfolding create_at
    create_at-Relinks disk_index s p =
        Leaves-bind (λ _. Q) (λ _. Q) (enter parent name disk_index false (some w.now) s) _
          (enter-Linked bound parent name disk_index false (some w.now) s room p)
          (λ ino.
            (Preserves-bind Q
              (Preserves-cache_insert Q (Linked-IsStable (bound + 1)) w ino [] (λ s c p. p))
              (λ _.
                Preserves-bind Q
                  (Preserves-ignore Q (Linked-IsStable (bound + 1))
                    (write_inode w.crc disk_index (new_inode w ino parent name false)))
                  (λ _. Preserves-pure Q (replied (make_attr ino 0 false))))).keeps)

    mkdir_at-Relinks : (disk_index : ℕ) → Relinks bound (mkdir_at w parent name disk_index)
    unfolding mkdir_at
    mkdir_at-Relinks disk_index s p =
        Leaves-bind (λ _. Q) (λ _. Q) (enter parent name disk_index true none s) _
          (enter-Linked bound parent name disk_index true none s room p)
          (λ ino.
            (Preserves-bind Q
              (Preserves-ignore Q (Linked-IsStable (bound + 1))
                (write_inode w.crc disk_index (new_inode w ino parent name true)))
              (λ _.
                Preserves-bind Q (Preserves-ignore Q (Linked-IsStable (bound + 1)) (flush w.crc))
                  (λ _. Preserves-pure Q (replied (make_attr ino 0 true))))).keeps)

  module _ (w : World) (parent : ℕ) (name : List ℕ) (make : ℕ → Fs (Reply FileAttr))
      (h : (i : ℕ) → Relinks bound (make i)) where
    found_inode :
        (r : DiskResult (Option ℕ))
        → Relinks {A = Reply FileAttr} bound (elim r [
          | ok found ↦ elim found [ none ↦ pure (error enospc) | some i ↦ make i ]
          | _ ↦ pure (error enospc)
        ])
    found_inode (ok none) s p = Linked-weaken s p
    found_inode (ok (some i)) s p = h i s p
    found_inode (err e) s p = Linked-weaken s p
    found_inode panic s p = Linked-weaken s p

    with_inode-Relinks : Relinks bound (with_inode w make)
    with_inode-Relinks s p =
        Leaves-bind (λ _. Q) (λ _. P) (on_disk (alloc_inode w.crc) s) _
          ((Preserves-on_disk P (alloc_inode w.crc) (Linked-IsStable bound).disk).keeps s p)
          found_inode

    found_entry :
        (found : Option Value)
        → Relinks {A = Reply FileAttr} bound
            (elim found [ some _ ↦ pure (error eexist) | none ↦ with_inode w make ])
    found_entry none s p = with_inode-Relinks s p
    found_entry (some v) s p = Linked-weaken s p

    checked-Relinks : Relinks bound (checked w parent name make)
    checked-Relinks s p =
        Leaves-option (λ _. Q) _ (λ e. some (error e, s)) (parent_error parent s.files)
          (Leaves-bind (λ _. Q) (λ _. P) (find_entry parent name s) _
            (find_entry-keeps parent name s p) found_entry)
          (λ e. Linked-weaken s p)

  pub create-Relinks :
      (w : World) (parent : ℕ) (name : List ℕ)
      → bound + 1 < 2 ^ 64
      → Relinks bound (create w parent name)
  unfolding create
  create-Relinks w parent name room =
      checked-Relinks w parent name (create_at w parent name) (create_at-Relinks w parent name room)

  pub mkdir-Relinks :
      (w : World) (parent : ℕ) (name : List ℕ)
      → bound + 1 < 2 ^ 64
      → Relinks bound (mkdir w parent name)
  unfolding mkdir
  mkdir-Relinks w parent name room =
      checked-Relinks w parent name (mkdir_at w parent name) (mkdir_at-Relinks w parent name room)
