-- ===== src/Fuse/Moves.antt =====
-- src/fuse/mod.rs: about `rename` and `lookup`, and the index and the files behind them.
use mathlib.Core.Path.{subst}
use vexfs.Base.{ℕ, ◌≡◌, ◌∙◌, sym, refl, List, Option, none, some, not, ◌&&◌, ◌==◌, map}
use vexfs.Base.Map.{lookup, member}
use vexfs.Base.Map
use vexfs.Disk.Result.{DiskResult, ok, err, panic}
use vexfs.Disk.Inode.{InodeRaw}
use vexfs.DiskManager.{write_inode, read_inode}
use vexfs.DiskManager.Extents.{flush}
use vexfs.Btree.{new_key}
use vexfs.Btree.Tree.{Value}
use vexfs.Fuse.{
  VexFs, VexFile, FileAttr, World, Reply, replied, error, enoent, ◌>>◌, skip, ignore, update_file,
  root_ino,
}
use vexfs.Fuse.Names.{
  find_entry, insert_entry, remove_entry, opened, lookup_indexed, lookup_name, virtual_named,
}
use vexfs.Fuse.Edits.{rename_removed, moved, rewrite_inode, moved_inode, rename_entry, rename}
use vexfs.Fuse.Steps.{
  Leaves, Preserves, Leaves-bind, Leaves-option, Leaves-if, Preserves-bind, Preserves-pure,
  Preserves-on_disk,
}
use vexfs.Fuse.Frame.{IsStable, Preserves-ignore}
use vexfs.Fuse.Links.{Links-ext, with_entry, Links-move, Links-update}
use vexfs.Fuse.Linked.{
  Linked, Linked-IsStable, index_map, Reindexed, insert_entry-Reindexed, remove_entry-Reindexed,
}
use vexfs.Fuse.Entries.{Relinks, weaken_at, find_entry-keeps}
use vexfs.Fuse.Removal.{left_out}

module _ (P : VexFs → Type 0) (stable : IsStable P) where
  Preserves-rewritten :
      (w : World) (newparent : ℕ) (newname : List ℕ) (disk_index : ℕ) (read : DiskResult InodeRaw)
      → Preserves {A = Unit {0}} P (elim read [
        | ok inode ↦
            ignore (write_inode w.crc disk_index (moved_inode w newname newparent inode))
            >> ignore (flush w.crc)
        | _ ↦ skip
      ])
  Preserves-rewritten w newparent newname disk_index (ok inode) =
      Preserves-bind P
        (Preserves-ignore P stable
          (write_inode w.crc disk_index (moved_inode w newname newparent inode)))
        (λ _. Preserves-ignore P stable (flush w.crc))
  Preserves-rewritten w newparent newname disk_index (err e) = Preserves-pure P tt
  Preserves-rewritten w newparent newname disk_index panic = Preserves-pure P tt

  pub Preserves-rewrite_inode :
      (w : World) (newparent : ℕ) (newname : List ℕ) (disk_index : ℕ)
      → Preserves P (rewrite_inode w newparent newname disk_index)
  unfolding rewrite_inode
  Preserves-rewrite_inode w newparent newname disk_index =
      Preserves-bind P (Preserves-on_disk P (λ i. (read_inode w.crc disk_index i, i)) stable.disk)
        (Preserves-rewritten w newparent newname disk_index)

module _ (bound : ℕ) where
  abbrev P : VexFs → Type 0
  P = Linked bound

  update_file-some :
      (ino : ℕ) (g : VexFile → VexFile) (s : VexFs) (f : VexFile)
      → lookup ino s.files ≡ some f
      → update_file ino g s ≡ record s { files = Map.insert ino (g f) s.files }
  unfolding update_file
  update_file-some ino g s f at = rw (at, update_file) refl

  -- The entry and its file after both were changed.
  moved_to :
      (parent newparent : ℕ) (name newname : List ℕ) (v : Value) (s s' s'' : VexFs)
      → P s
      → index_map s (new_key parent name) ≡ some v
      → Reindexed (with_entry (new_key parent name) none (index_map s)) s s'
      → Reindexed (with_entry (new_key newparent newname) (some v) (index_map s')) s' s''
      → P (update_file v.ino (moved newname newparent) s'')
  moved_to parent newparent name newname v s s' s'' (i, l, b) there r t =
      let key = new_key parent name in
      let new = new_key newparent newname in
      let ((f, at, pf, nf), _) = l key v there in
      let files : s''.files ≡ s.files = t.files ∙ r.files in
      let next : s''.next_inode ≡ s.next_inode = t.next_inode ∙ r.next_inode in
      let map_eq : (k : _)
          → index_map s'' k ≡ with_entry new (some v) (with_entry key none (index_map s)) k =
        λ k. rw (t.map_eq k, r.map_eq k) refl in
      subst P (sym (update_file-some v.ino (moved newname newparent) s'' f (rw files at))) (
        t.index,
        rw (files, next)
            (Links-ext _ (index_map s'') _ _ map_eq (
              Links-move (index_map s) s.files s.next_inode l key new v (moved newname newparent f)
                there refl refl)),
        rw next b,
      )

  rename_found :
      (w : World) (parent newparent : ℕ) (name newname : List ℕ) (s s' : VexFs)
      (found : Option Value)
      → P s
      → found ≡ index_map s (new_key parent name)
      → Reindexed (with_entry (new_key parent name) none (index_map s)) s s'
      → Leaves (λ _. P) (rename_removed w newparent newname found s')
  unfolding rename_removed
  rename_found w parent newparent name newname s s' none p e r = left_out bound parent name s s' p r
  rename_found w parent newparent name newname s s' (some v) p e r =
      Leaves-bind (λ _. P)
        (λ _. Reindexed (with_entry (new_key newparent newname) (some v) (index_map s')) s')
        (insert_entry newparent newname v s') _
        (insert_entry-Reindexed newparent newname s' r.index v)
        (λ _ s'' t.
          (Preserves-bind P
              (Preserves-rewrite_inode P (Linked-IsStable bound) w newparent newname v.disk_index)
              (λ _. Preserves-pure P (replied tt))).keeps
            _ (moved_to parent newparent name newname v s s' s'' p (sym e) r t))

  pub rename-Relinks :
      (w : World) (parent : ℕ) (name : List ℕ) (newparent : ℕ) (newname : List ℕ)
      → Relinks bound (rename w parent name newparent newname)
  unfolding rename rename_entry
  rename-Relinks w parent name newparent newname s p = weaken_at bound _ (
      Leaves-if (λ _. P) (some (error enoent, s)) _
        (not (newparent == root_ino) && not (member newparent (map (λ e. e.0) s.files))) p
        (Leaves-bind (λ _. P)
          (λ found s'.
            (found ≡ index_map s (new_key parent name))
            × Reindexed (with_entry (new_key parent name) none (index_map s)) s s')
          (remove_entry parent name s) (rename_removed w newparent newname)
          (remove_entry-Reindexed parent name s p.0)
          (λ found s' e. rename_found w parent newparent name newname s s' found p e.0 e.1)))

  opened-keeps :
      (w : World) (found : Option Value) (s : VexFs) → P s → Leaves (λ _. P) (opened w found s)
  unfolding opened
  opened-keeps w none s p = p
  opened-keeps w (some v) s p = opened_at (lookup v.ino s.files) refl
    where
      opened_at :
          (o : Option VexFile)
          → lookup v.ino s.files ≡ o
          → Leaves {A = Reply FileAttr}
              (λ _. P)
              (elim o [
                | none ↦ some (error enoent, s)
                | some f ↦ some (
                  replied f.attr,
                  record s {
                    files = Map.insert v.ino (record f { open_since = some w.now }) s.files;
                  },
                )
              ])
      opened_at none at = p
      opened_at (some f) at = (
        p.0,
        Links-update (index_map s) s.files s.next_inode p.1 v.ino f
            (record f { open_since = some w.now }) at refl refl,
        p.2,
      )

  lookup_indexed-keeps :
      (w : World) (parent : ℕ) (name : List ℕ) (s : VexFs)
      → P s
      → Leaves (λ _. P) (lookup_indexed w parent name s)
  unfolding lookup_indexed
  lookup_indexed-keeps w parent name s p =
      Leaves-bind (λ _. P) (λ _. P) (find_entry parent name s) (opened w)
        (find_entry-keeps bound parent name s p) (opened-keeps w)

  pub lookup-Relinks :
      (w : World) (parent : ℕ) (name : List ℕ) → Relinks bound (lookup_name w parent name)
  unfolding lookup_name
  lookup-Relinks w parent name s p = weaken_at bound _ (
      Leaves-if (λ _. P) _ (lookup_indexed w parent name s) (parent == root_ino)
        (Leaves-option (λ _. P) (lookup_indexed w parent name s) (λ attr. some (replied attr, s))
          (virtual_named w name) (lookup_indexed-keeps w parent name s p) (λ attr. p))
        (lookup_indexed-keeps w parent name s p))
