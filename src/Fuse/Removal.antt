-- ===== src/Fuse/Removal.antt =====
-- src/fuse/mod.rs: about `unlink` and `rmdir`, and the index and the files behind them.
use vexfs.Base.{ℕ, ◌≡◌, sym, refl, List, Option, none, some, not}
use vexfs.Base.Map.{lookup, member}
use vexfs.Base.Map
use vexfs.DiskManager.Extents.{flush, free_inode}
use vexfs.Btree.{new_key}
use vexfs.Btree.Tree.{Value}
use vexfs.Fuse.{
  VexFs, VexFile, World, replied, error, enoent, enotdir, enotempty, ◌>>◌, pure, modify, ignore,
}
use vexfs.Fuse.Persist.{free_extent}
use vexfs.Fuse.Names.{find_entry, remove_entry}
use vexfs.Fuse.Edits.{uncache, unlink_removed, unlink, rmdir_entry, rmdir_at, is_empty_dir, rmdir}
use vexfs.Fuse.Steps.{
  Leaves, Preserves, Leaves-bind, Leaves-if, Leaves-some, Preserves-bind, Preserves-pure,
  Preserves-modify, Preserves-option,
}
use vexfs.Fuse.Frame.{Preserves-ignore, free_extent-keeps}
use vexfs.Fuse.Links.{Links-ext, with_entry, Links-remove, Links-remove_file}
use vexfs.Fuse.Linked.{
  Linked, Linked-IsStable, index_map, Reindexed, find_entry-find, remove_entry-Reindexed,
}
use vexfs.Fuse.Entries.{Relinks, weaken_at}

module _ (bound : ℕ) where
  abbrev P : VexFs → Type 0
  P = Linked bound

  -- An entry is taken out of the index, and its file out of the map.
  taken_out :
      (parent : ℕ) (name : List ℕ) (v : Value) (s s' : VexFs)
      → P s
      → index_map s (new_key parent name) ≡ some v
      → Reindexed (with_entry (new_key parent name) none (index_map s)) s s'
      → P (record s' { files = Map.remove v.ino s'.files })
  taken_out parent name v s s' (i, l, b) there r = (
    r.index,
    rw (r.files, r.next_inode)
        (Links-ext _ (index_map s') _ _ r.map_eq
          (Links-remove_file (index_map s) s.files s.next_inode l (new_key parent name) v there)),
    rw r.next_inode b,
  )

  pub left_out :
      (parent : ℕ) (name : List ℕ) (s s' : VexFs)
      → P s
      → Reindexed (with_entry (new_key parent name) none (index_map s)) s s'
      → P s'
  left_out parent name s s' (i, l, b) r = (
    r.index,
    rw (r.files, r.next_inode)
        (Links-ext _ (index_map s') _ _ r.map_eq
          (Links-remove (index_map s) s.files s.next_inode l (new_key parent name))),
    rw r.next_inode b,
  )

  Preserves-freed :
      (w : World) (f : VexFile) (ino : ℕ)
      → Preserves P (
          modify (free_extent f.data_offset f.attr.size)
          >> (ignore (free_inode w.crc f.disk_index)
              >> (modify (uncache ino) >> pure (replied tt))))
  Preserves-freed w f ino =
      Preserves-bind P
        (Preserves-modify P (free_extent f.data_offset f.attr.size)
          (free_extent-keeps P (Linked-IsStable bound) f.data_offset f.attr.size))
        (λ _.
          Preserves-bind P
            (Preserves-ignore P (Linked-IsStable bound) (free_inode w.crc f.disk_index))
            (λ _.
              Preserves-bind P (Preserves-modify P (uncache ino) (λ s p. p))
                (λ _. Preserves-pure P (replied tt))))

  unlink_found :
      (w : World) (parent : ℕ) (name : List ℕ) (s s' : VexFs) (found : Option Value)
      → P s
      → found ≡ index_map s (new_key parent name)
      → Reindexed (with_entry (new_key parent name) none (index_map s)) s s'
      → Leaves (λ _. P) (unlink_removed w found s')
  unfolding unlink_removed
  unlink_found w parent name s s' none p e r = left_out parent name s s' p r
  unlink_found w parent name s s' (some v) p e r =
      (Preserves-option P (lookup v.ino s'.files) (Preserves-pure P (error enoent))
          (λ f. Preserves-freed w f v.ino)).keeps
        _ (taken_out parent name v s s' p (sym e) r)

  pub unlink-Relinks :
      (w : World) (parent : ℕ) (name : List ℕ) → Relinks bound (unlink w parent name)
  unfolding unlink
  unlink-Relinks w parent name s p = weaken_at bound _ (
      Leaves-bind (λ _. P)
        (λ found s'.
          (found ≡ index_map s (new_key parent name))
          × Reindexed (with_entry (new_key parent name) none (index_map s)) s s')
        (remove_entry parent name s) (unlink_removed w) (remove_entry-Reindexed parent name s p.0)
        (λ found s' e. unlink_found w parent name s s' found p e.0 e.1))

  Preserves-emptied :
      (w : World) (f : VexFile)
      → Preserves P
          (ignore (free_inode w.crc f.disk_index) >> (ignore (flush w.crc) >> pure (replied tt)))
  Preserves-emptied w f =
      Preserves-bind P (Preserves-ignore P (Linked-IsStable bound) (free_inode w.crc f.disk_index))
        (λ _.
          Preserves-bind P (Preserves-ignore P (Linked-IsStable bound) (flush w.crc))
            (λ _. Preserves-pure P (replied tt)))

  rmdir_at-keeps :
      (w : World) (parent : ℕ) (name : List ℕ) (v : Value) (s : VexFs)
      → P s
      → index_map s (new_key parent name) ≡ some v
      → Leaves (λ _. P) (rmdir_at w parent name v.ino s)
  unfolding rmdir_at
  rmdir_at-keeps w parent name v s p there =
      Leaves-bind (λ _. P)
        (λ found s'.
          (found ≡ index_map s (new_key parent name))
          × Reindexed (with_entry (new_key parent name) none (index_map s)) s s')
        (remove_entry parent name s) _ (remove_entry-Reindexed parent name s p.0)
        (λ found s' e.
          (Preserves-option P (lookup v.ino s'.files) (Preserves-pure P (error enoent))
              (Preserves-emptied w)).keeps
            _ (taken_out parent name v s s' p there e.1))

  rmdir_found :
      (w : World) (parent : ℕ) (name : List ℕ) (s : VexFs) (found : Option Value)
      → P s
      → index_map s (new_key parent name) ≡ found
      → Leaves (λ _. P) (rmdir_entry w parent name found s)
  unfolding rmdir_entry
  rmdir_found w parent name s none p e = p
  rmdir_found w parent name s (some v) p e =
      Leaves-if (λ _. P) (some (error enotdir, s)) _ (not v.is_dir) p
        (Leaves-if (λ _. P) (some (error enotempty, s)) _ (not (is_empty_dir v.ino s)) p
          (rmdir_at-keeps w parent name v s p e))

  pub rmdir-Relinks : (w : World) (parent : ℕ) (name : List ℕ) → Relinks bound (rmdir w parent name)
  unfolding rmdir
  rmdir-Relinks w parent name s p = weaken_at bound _ (
      Leaves-some (λ _. P) none (λ r. rmdir_entry w parent name r.0 r.1) (find_entry parent name s)
        (index_map s (new_key parent name), s) (find_entry-find parent name s p.0)
        (rmdir_found w parent name s _ p refl))
