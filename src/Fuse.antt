-- ===== src/Fuse.antt =====
-- src/fuse/mod.rs: the file system that the kernel calls. The index, the map of files, the cache, the
-- write buffer, the snapshots and the image are one state, and `none` is a panic.
pub mod Persist
pub mod Names
pub mod Edits
pub mod Data
pub mod Load
pub mod Steps
pub mod Frame
mod Links
pub mod Linked
pub mod Entries
pub mod Removal
pub mod Moves
pub mod Versions
pub mod Calls
pub mod Session
pub mod Contents
pub mod Holds
pub mod Writes
pub mod Refusals
pub mod Rename
mod Runs
use vexfs.Base.{
  ℕ, ◌+◌, ◌*◌, ◌/◌, ◌-◌, List, [], ◌∷◌, Option, none, some, Bool, true, false, ◌==◌, if◌then◌else◌,
  length, add_u64,
}
use vexfs.Base.Map
use vexfs.Disk.Result.{DiskResult, ok, err, panic}
use vexfs.File.{Exec}
use vexfs.DiskManager.{DiskManager, Image}
use vexfs.Btree.{BPlusTree}
use vexfs.Btree
use vexfs.Btree.Order.{name_cmp}
use Prim.Native.Nat.Ordering.{lt, eq, gt}
use vexfs.Snapshots.{SnapshotManager, new_manager}
use vexfs.Buffer.{WriteBuffer}
use vexfs.Buffer
use vexfs.Cache.{ArcCache}
use vexfs.Cache

-- The fields of `FileAttr` that are not the same for every file.
pub data FileType : Type 0 where
  directory : FileType
  regular_file : FileType

pub record FileAttr : Type 0 where
  pub ino : ℕ
  pub size : ℕ
  pub blocks : ℕ
  pub mtime : ℕ
  pub kind : FileType
  pub perm : ℕ
  pub nlink : ℕ

pub record VexFile : Type 0 where
  pub name : List ℕ
  pub attr : FileAttr
  pub disk_index : ℕ
  pub dirty : Bool
  pub open_since : Option ℕ
  pub parent_ino : ℕ
  pub data_offset : ℕ

pub record VexFs : Type 0 where
  pub index : BPlusTree
  pub files : List (ℕ × VexFile)
  pub next_inode : ℕ
  pub disk : Image
  pub snapshots : SnapshotManager
  pub write_buffer : WriteBuffer
  pub cache : ArcCache
  pub search_query : List ℕ
  pub ask_query : List ℕ

-- What the file system is given: the checksum, the codec of zstd, the time of the call, and what
-- the thread of the AI engine has left in its shared state.
pub record World : Type 0 where
  pub crc : List ℕ → ℕ
  pub encode : List ℕ → Option (List ℕ)
  pub decode : List ℕ → List ℕ
  pub now : ℕ
  -- The names that are ranked, with whether the text of their tier has `COLD` in it.
  pub ranked_files : List (List ℕ × Bool)
  pub search_result : List ℕ
  pub ask_result : List ℕ
  pub context_result : List ℕ
  pub jarvis_result : List ℕ
  -- The text of the telemetry file.
  pub telemetry : List ℕ

-- The reply to a call.
pub data Errno : Type 0 where
  enoent : Errno
  enospc : Errno
  eexist : Errno
  enotdir : Errno
  enotempty : Errno

pub data Reply (A : Type 0) : Type 0 where
  replied : A → Reply A
  error : Errno → Reply A

-- A method of `VexFS`.
abbrev pub Fs : Type 0 → Type 0
Fs A = VexFs → Option (A × VexFs)

infixl 10 ◌>>=◌ ◌>>◌
abbrev pub ◌>>=◌ : {A B : Type 0} → Fs A → (A → Fs B) → Fs B
◌>>=◌ m f s = elim (m s) [ none ↦ none | some (a, s') ↦ f a s' ]

abbrev pub ◌>>◌ : {B : Type 0} → Fs (Unit {0}) → Fs B → Fs B
m >> n = m >>= λ _. n

abbrev pub pure : {A : Type 0} → A → Fs A
pure a s = some (a, s)

abbrev pub skip : Fs (Unit {0})
skip = pure tt

abbrev pub modify : (VexFs → VexFs) → Fs (Unit {0})
modify f s = some (tt, f s)

-- A method of the disk manager.
unfoldable pub on_disk : {A : Type 0} → Exec Image A → Fs (DiskResult A)
on_disk m s =
    let (r, image) = m s.disk in
    elim r [
      | ok a ↦ some (ok a, record s { disk = image })
      | err e ↦ some (err e, record s { disk = image })
      | panic ↦ none
    ]

-- `let _ = self.disk...;`.
abbrev pub ignore : {A : Type 0} → Exec Image A → Fs (Unit {0})
ignore m = do _ ← on_disk m; skip

-- A method of the disk manager that does no I/O.
abbrev pub with_manager : (DiskManager → DiskManager) → VexFs → VexFs
with_manager f s = record s { disk = record s.disk { manager = f s.disk.manager } }

-- `if let Some(f) = self.files.get_mut(&ino) { .. }`.
unfoldable pub update_file : ℕ → (VexFile → VexFile) → VexFs → VexFs
update_file ino f s = elim (Map.lookup ino s.files) [
  | none ↦ s
  | some file ↦ record s { files = Map.insert ino (f file) s.files }
]

abbrev pub set_dirty : Bool → VexFile → VexFile
set_dirty dirty f = record f { dirty = dirty }

-- `self.cache.get(ino).cloned()`.
abbrev pub cached : ℕ → Fs (Option (List ℕ))
cached ino s = let (found, c) = Cache.get s.cache ino in some (found, record s { cache = c })

-- `name == other`.
abbrev pub same_name : List ℕ → List ℕ → Bool
same_name a b = elim (name_cmp a b) [ eq ↦ true | _ ↦ false ]

abbrev pub root_ino : ℕ
root_ino = 1

abbrev pub search_ino : ℕ
search_ino = 0xFFFFFFFE

abbrev pub telemetry_ino : ℕ
telemetry_ino = 0xFFFFFFFD

abbrev pub ask_ino : ℕ
ask_ino = 0xFFFFFFFC

abbrev pub context_ino : ℕ
context_ino = 0xFFFFFFFB

abbrev pub jarvis_ino : ℕ
jarvis_ino = 0xFFFFFFFA

-- `.vexfs-search`.
abbrev pub search_filename : List ℕ
search_filename = 46 ∷ 118 ∷ 101 ∷ 120 ∷ 102 ∷ 115 ∷ 45 ∷ 115 ∷ 101 ∷ 97 ∷ 114 ∷ 99 ∷ 104 ∷ []

-- `.vexfs-telemetry.json`.
abbrev pub telemetry_filename : List ℕ
telemetry_filename =
    46 ∷ 118 ∷ 101 ∷ 120 ∷ 102 ∷ 115 ∷ 45 ∷ 116 ∷ 101 ∷ 108 ∷ 101 ∷ 109 ∷ 101 ∷ 116 ∷ 114 ∷ 121 ∷ 46
    ∷ 106 ∷ 115 ∷ 111 ∷ 110 ∷ []

-- `.vexfs-ask`.
abbrev pub ask_filename : List ℕ
ask_filename = 46 ∷ 118 ∷ 101 ∷ 120 ∷ 102 ∷ 115 ∷ 45 ∷ 97 ∷ 115 ∷ 107 ∷ []

-- `.vexfs-context`.
abbrev pub context_filename : List ℕ
context_filename =
    46 ∷ 118 ∷ 101 ∷ 120 ∷ 102 ∷ 115 ∷ 45 ∷ 99 ∷ 111 ∷ 110 ∷ 116 ∷ 101 ∷ 120 ∷ 116 ∷ []

-- `.vexfs-jarvis`.
abbrev pub jarvis_filename : List ℕ
jarvis_filename = 46 ∷ 118 ∷ 101 ∷ 120 ∷ 102 ∷ 115 ∷ 45 ∷ 106 ∷ 97 ∷ 114 ∷ 118 ∷ 105 ∷ 115 ∷ []

abbrev pub make_attr : ℕ → ℕ → Bool → FileAttr
make_attr ino size is_dir = record {
  ino = ino;
  size = size;
  blocks = (size + 511) / 512;
  mtime = 0;
  kind = if is_dir then directory else regular_file;
  perm = if is_dir then 493 else 420;
  nlink = if is_dir then 2 else 1;
}

abbrev pub root_attr : FileAttr
root_attr = record {
  ino = root_ino;
  size = 0;
  blocks = 0;
  mtime = 0;
  kind = directory;
  perm = 493;
  nlink = 2;
}

-- The attributes of the virtual files.
abbrev pub virtual_attr : ℕ → ℕ → ℕ → ℕ → FileAttr
virtual_attr ino size blocks perm = record {
  ino = ino;
  size = size;
  blocks = blocks;
  mtime = 0;
  kind = regular_file;
  perm = perm;
  nlink = 1;
}

abbrev pub search_file_attr : World → FileAttr
search_file_attr w = virtual_attr search_ino (length w.search_result) 1 438

abbrev pub telemetry_file_attr : FileAttr
telemetry_file_attr = virtual_attr telemetry_ino 4096 8 292

abbrev pub ask_file_attr : World → FileAttr
ask_file_attr w = virtual_attr ask_ino (length w.ask_result) 1 438

abbrev pub context_file_attr : World → FileAttr
context_file_attr w = virtual_attr context_ino (length w.context_result) 1 292

abbrev pub jarvis_file_attr : World → FileAttr
jarvis_file_attr w = virtual_attr jarvis_ino (length w.jarvis_result) 1 292

-- `VexFS::new` on an image.
abbrev pub new : Image → VexFs
new disk = record {
  index = Btree.new;
  files = [];
  next_inode = 2;
  disk = disk;
  snapshots = new_manager 10;
  write_buffer = Buffer.new 32 5;
  cache = Cache.new (64 * 1024 * 1024);
  search_query = [];
  ask_query = [];
}
