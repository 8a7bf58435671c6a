-- ===== src/Fuse/Names.antt =====
-- src/fuse/mod.rs: the calls on directory entries.
use vexfs.Base.{
  ℕ, List, [], ◌∷◌, ◌++◌, Option, none, some, Bool, true, false, not, ◌==◌, if◌then◌else◌, map,
  drop, add_u64,
}
use vexfs.Base.Map.{lookup, member}
use vexfs.Base.Map
use vexfs.Disk.Result.{ok}
use vexfs.Disk.Inode.{InodeRaw, empty_inode}
use vexfs.Disk.Name.{set_name}
use vexfs.DiskManager.{data_offset, write_inode}
use vexfs.DiskManager.Extents.{flush, alloc_inode}
use vexfs.Btree.Tree.{Value}
use vexfs.Btree.Order.{Key}
use vexfs.Btree
use vexfs.Fuse.{
  VexFs, VexFile, FileAttr, FileType, directory, regular_file, World, Reply, replied, error, Errno,
  enoent, enospc, eexist, enotdir, Fs, ◌>>=◌, ◌>>◌, pure, modify, on_disk, ignore, same_name,
  root_ino, make_attr, root_attr, search_ino, telemetry_ino, ask_ino, context_ino, jarvis_ino,
  search_filename, telemetry_filename, ask_filename, context_filename, jarvis_filename,
  search_file_attr, telemetry_file_attr, ask_file_attr, context_file_attr, jarvis_file_attr,
}
use vexfs.Fuse.Persist.{cache_insert}

-- `self.index.get(parent, name)`.
abbrev pub find_entry : ℕ → List ℕ → Fs (Option Value)
find_entry parent name s = elim (Btree.get parent name s.index) [
  | none ↦ none
  | some found ↦ some (found, s)
]

abbrev pub insert_entry : ℕ → List ℕ → Value → Fs (Unit {0})
insert_entry parent name value s = elim (Btree.insert parent name value s.index) [
  | none ↦ none
  | some index ↦ some (tt, record s { index = index })
]

abbrev pub remove_entry : ℕ → List ℕ → Fs (Option Value)
remove_entry parent name s = elim (Btree.remove parent name s.index) [
  | none ↦ none
  | some (index, removed) ↦ some (removed, record s { index = index })
]

-- The virtual files of the root.
abbrev pub virtual_named : World → List ℕ → Option FileAttr
virtual_named w name =
    if same_name name search_filename
    then some (search_file_attr w)
    else if same_name name telemetry_filename
    then some telemetry_file_attr
    else if same_name name ask_filename
    then some (ask_file_attr w)
    else if same_name name context_filename
    then some (context_file_attr w)
    else if same_name name jarvis_filename
    then some (jarvis_file_attr w)
    else none

abbrev pub virtual_attr_of : World → ℕ → Option FileAttr
virtual_attr_of w ino =
    if ino == search_ino
    then some (search_file_attr w)
    else if ino == telemetry_ino
    then some telemetry_file_attr
    else if ino == ask_ino
    then some (ask_file_attr w)
    else if ino == context_ino
    then some (context_file_attr w)
    else if ino == jarvis_ino
    then some (jarvis_file_attr w)
    else none

-- `lookup` of an entry of the index, which opens the file.
unfoldable pub opened : World → Option Value → Fs (Reply FileAttr)
opened w none s = some (error enoent, s)
opened w (some value) s = elim (lookup value.ino s.files) [
  | none ↦ some (error enoent, s)
  | some f ↦ some (
    replied f.attr,
    record s { files = Map.insert value.ino (record f { open_since = some w.now }) s.files },
  )
]

unfoldable pub lookup_indexed : World → ℕ → List ℕ → Fs (Reply FileAttr)
lookup_indexed w parent name = do found ← find_entry parent name; opened w found

unfoldable pub lookup_name : World → ℕ → List ℕ → Fs (Reply FileAttr)
lookup_name w parent name s =
    if parent == root_ino
    then elim (virtual_named w name) [
      | some attr ↦ some (replied attr, s)
      | none ↦ lookup_indexed w parent name s
    ]
    else lookup_indexed w parent name s

unfoldable pub getattr : World → ℕ → Fs (Reply FileAttr)
getattr w ino s =
    if ino == root_ino then some (replied root_attr, s) else elim (virtual_attr_of w ino) [
      | some attr ↦ some (replied attr, s)
      | none ↦ elim (lookup ino s.files) [
        | some f ↦ some (replied f.attr, s)
        | none ↦ some (error enoent, s)
      ]
    ]

-- Why nothing can be made in the directory.
unfoldable pub parent_error : ℕ → List (ℕ × VexFile) → Option Errno
parent_error parent files = if parent == root_ino then none else elim (lookup parent files) [
  | none ↦ some enoent
  | some f ↦ elim f.attr.kind [ directory ↦ none | regular_file ↦ some enotdir ]
]

abbrev pub new_inode : World → ℕ → ℕ → List ℕ → Bool → InodeRaw
new_inode w ino parent name is_dir = record empty_inode {
  ino = ino;
  parent_ino = parent;
  is_used = 1;
  is_dir = if is_dir then 1 else 0;
  created_at = w.now;
  modified_at = w.now;
  name = set_name 200 name;
}

abbrev pub new_file : List ℕ → ℕ → ℕ → ℕ → Bool → Option ℕ → VexFile
new_file name ino parent disk_index is_dir open_since = record {
  name = name;
  attr = make_attr ino 0 is_dir;
  disk_index = disk_index;
  dirty = not is_dir;
  open_since = open_since;
  parent_ino = parent;
  data_offset = data_offset;
}

-- The next inode in the index and in the map of files.
abbrev pub enter : ℕ → List ℕ → ℕ → Bool → Option ℕ → Fs ℕ
enter parent name disk_index is_dir open_since s =
    let ino = s.next_inode in
    (do
      modify (λ s. record s { next_inode = add_u64 s.next_inode 1 })
      insert_entry parent name
          (record { ino = ino; size = 0; is_dir = is_dir; disk_index = disk_index })
      modify (λ s. record s {
        files = Map.insert ino (new_file name ino parent disk_index is_dir open_since) s.files;
      })
      pure ino)
      s

-- `create` and `mkdir` behind their checks.
unfoldable pub create_at : World → ℕ → List ℕ → ℕ → Fs (Reply FileAttr)
create_at w parent name disk_index = do
  ino ← enter parent name disk_index false (some w.now)
  cache_insert w ino []
  ignore (write_inode w.crc disk_index (new_inode w ino parent name false))
  pure (replied (make_attr ino 0 false))

unfoldable pub mkdir_at : World → ℕ → List ℕ → ℕ → Fs (Reply FileAttr)
mkdir_at w parent name disk_index = do
  ino ← enter parent name disk_index true none
  ignore (write_inode w.crc disk_index (new_inode w ino parent name true))
  ignore (flush w.crc)
  pure (replied (make_attr ino 0 true))

-- The disk index of a new inode.
abbrev pub with_inode : World → (ℕ → Fs (Reply FileAttr)) → Fs (Reply FileAttr)
with_inode w make = do
  index ← on_disk (alloc_inode w.crc)
  elim index [
    | ok found ↦ elim found [ none ↦ pure (error enospc) | some i ↦ make i ]
    | _ ↦ pure (error enospc)
  ]

-- The checks that `create` and `mkdir` make.
abbrev pub checked : World → ℕ → List ℕ → (ℕ → Fs (Reply FileAttr)) → Fs (Reply FileAttr)
checked w parent name make s = elim (parent_error parent s.files) [
  | some e ↦ some (error e, s)
  | none ↦
      (do
        found ← find_entry parent name
        elim found [ some _ ↦ pure (error eexist) | none ↦ with_inode w make ])
        s
]

unfoldable pub create : World → ℕ → List ℕ → Fs (Reply FileAttr)
create w parent name = checked w parent name (create_at w parent name)

unfoldable pub mkdir : World → ℕ → List ℕ → Fs (Reply FileAttr)
mkdir w parent name = checked w parent name (mkdir_at w parent name)

-- An entry of `readdir`.
pub record DirEntry : Type 0 where
  pub ino : ℕ
  pub kind : FileType
  pub name : List ℕ

abbrev pub dot_entries : ℕ → ℕ → List DirEntry
dot_entries ino parent =
    record { ino = ino; kind = directory; name = 46 ∷ [] }
    ∷ record { ino = parent; kind = directory; name = 46 ∷ 46 ∷ [] }
    ∷ []

abbrev pub virtual_entries : List DirEntry
virtual_entries =
    record { ino = search_ino; kind = regular_file; name = search_filename }
    ∷ record { ino = telemetry_ino; kind = regular_file; name = telemetry_filename }
    ∷ record { ino = ask_ino; kind = regular_file; name = ask_filename }
    ∷ record { ino = context_ino; kind = regular_file; name = context_filename }
    ∷ record { ino = jarvis_ino; kind = regular_file; name = jarvis_filename }
    ∷ []

abbrev pub child_entry : Key × Value → DirEntry
child_entry (key, value) = record {
  ino = value.ino;
  kind = if value.is_dir then directory else regular_file;
  name = key.name;
}

unfoldable pub entries : ℕ → VexFs → List DirEntry
entries ino s =
    let parent =
      if ino == root_ino
      then root_ino
      else elim (lookup ino s.files) [ none ↦ root_ino | some f ↦ f.parent_ino ] in
    dot_entries ino parent
    ++ (if ino == root_ino then virtual_entries else [])
    ++ map child_entry (Btree.list_dir ino s.index)

-- What `readdir` offers to the reply, which takes entries until it is full.
unfoldable pub readdir : ℕ → ℕ → VexFs → List DirEntry
readdir ino offset s = drop offset (entries ino s)
