-- ===== src/Fuse/Edits.antt =====
-- src/fuse/mod.rs: the calls that remove and move directory entries.
use vexfs.Base.{
  ℕ, List, [], ◌∷◌, Option, none, some, Bool, true, false, ◌&&◌, not, ◌==◌, if◌then◌else◌, map,
}
use vexfs.Base.Map.{lookup, member}
use vexfs.Base.Map
use vexfs.Disk.Result.{ok}
use vexfs.Disk.Inode.{InodeRaw}
use vexfs.Disk.Name.{set_name}
use vexfs.DiskManager.{write_inode, read_inode}
use vexfs.DiskManager.Extents.{flush, free_inode}
use vexfs.Btree.Tree.{Value}
use vexfs.Btree
use vexfs.Cache
use vexfs.Fuse.{
  VexFs, VexFile, World, Reply, replied, error, enoent, enotdir, enotempty, Fs, ◌>>=◌, ◌>>◌, skip,
  pure, modify, on_disk, ignore, update_file, root_ino,
}
use vexfs.Fuse.Persist.{free_extent}
use vexfs.Fuse.Names.{find_entry, insert_entry, remove_entry}

-- `self.files.remove(&ino)`.
abbrev pub remove_file : ℕ → Fs (Option VexFile)
remove_file ino s = some (lookup ino s.files, record s { files = Map.remove ino s.files })

abbrev pub uncache : ℕ → VexFs → VexFs
uncache ino s = record s { cache = (Cache.remove s.cache ino).1 }

-- `unlink` behind the removal from the index.
unfoldable pub unlink_removed : World → Option Value → Fs (Reply (Unit {0}))
unlink_removed w none = pure (error enoent)
unlink_removed w (some value) = do
  file ← remove_file value.ino
  elim file [
    | none ↦ pure (error enoent)
    | some f ↦ do
      modify (free_extent f.data_offset f.attr.size)
      ignore (free_inode w.crc f.disk_index)
      modify (uncache value.ino)
      pure (replied tt)
  ]

unfoldable pub unlink : World → ℕ → List ℕ → Fs (Reply (Unit {0}))
unlink w parent name = do removed ← remove_entry parent name; unlink_removed w removed

-- `rmdir` of a directory that is empty.
unfoldable pub rmdir_at : World → ℕ → List ℕ → ℕ → Fs (Reply (Unit {0}))
rmdir_at w parent name ino = do
  _ ← remove_entry parent name
  file ← remove_file ino
  elim file [
    | none ↦ pure (error enoent)
    | some f ↦ do ignore (free_inode w.crc f.disk_index); ignore (flush w.crc); pure (replied tt)
  ]

-- `list_dir(ino).is_empty()`.
unfoldable pub is_empty_dir : ℕ → VexFs → Bool
is_empty_dir ino s = elim (Btree.list_dir ino s.index) [ [] ↦ true | x ∷ xs ↦ false ]

-- `rmdir` behind the lookup in the index.
unfoldable pub rmdir_entry : World → ℕ → List ℕ → Option Value → Fs (Reply (Unit {0}))
rmdir_entry w parent name none s = some (error enoent, s)
rmdir_entry w parent name (some value) s =
    if not value.is_dir
    then some (error enotdir, s)
    else if not (is_empty_dir value.ino s)
    then some (error enotempty, s)
    else rmdir_at w parent name value.ino s

unfoldable pub rmdir : World → ℕ → List ℕ → Fs (Reply (Unit {0}))
rmdir w parent name = do found ← find_entry parent name; rmdir_entry w parent name found

abbrev pub moved : List ℕ → ℕ → VexFile → VexFile
moved name parent f = record f { name = name; parent_ino = parent; dirty = true }

abbrev pub moved_inode : World → List ℕ → ℕ → InodeRaw → InodeRaw
moved_inode w name parent inode = record inode {
  parent_ino = parent;
  modified_at = w.now;
  name = set_name 200 name;
}

-- The inode on disk of a file that is renamed.
unfoldable pub rewrite_inode : World → ℕ → List ℕ → ℕ → Fs (Unit {0})
rewrite_inode w newparent newname disk_index = do
  read ← on_disk (λ i. (read_inode w.crc disk_index i, i))
  elim read [
    | ok inode ↦ do
      ignore (write_inode w.crc disk_index (moved_inode w newname newparent inode))
      ignore (flush w.crc)
    | _ ↦ skip
  ]

-- `rename` behind the removal from the index.
unfoldable pub rename_removed : World → ℕ → List ℕ → Option Value → Fs (Reply (Unit {0}))
rename_removed w newparent newname none = pure (error enoent)
rename_removed w newparent newname (some value) = do
  insert_entry newparent newname value
  modify (update_file value.ino (moved newname newparent))
  rewrite_inode w newparent newname value.disk_index
  pure (replied tt)

unfoldable pub rename_entry : World → ℕ → List ℕ → ℕ → List ℕ → Fs (Reply (Unit {0}))
rename_entry w parent name newparent newname = do
  removed ← remove_entry parent name
  rename_removed w newparent newname removed

unfoldable pub rename : World → ℕ → List ℕ → ℕ → List ℕ → Fs (Reply (Unit {0}))
rename w parent name newparent newname s =
    if not (newparent == root_ino) && not (member newparent (map (λ e. e.0) s.files))
    then some (error enoent, s)
    else rename_entry w parent name newparent newname s
