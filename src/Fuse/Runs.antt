-- ===== src/Fuse/Runs.antt =====
-- Runs of the file system on a new image, and the theorems at them.
use vexfs.Base.{
  ℕ, ◌+◌, ◌*◌, ◌%◌, ◌^◌, ◌≡◌, refl, List, [], ◌∷◌, none, some, Bool, true, false, arith,
}
use vexfs.Base.Map.{lookup}
use vexfs.Disk.Superblock.{SuperblockRaw}
use vexfs.Journal.Records.{new_header}
use vexfs.InodeTable.{new_table}
use vexfs.DiskManager.{Image}
use vexfs.Btree.{new_key}
use vexfs.Btree.Order.{key_cmp, name_cmp, dir_end}
use vexfs.Btree.Tree.{Value, leaf, zip}
use vexfs.Btree.Entries.{find}
use vexfs.Btree.Search.{entries, IsSearch}
use vexfs.Btree.Directory.{IsIndex}
use vexfs.Cache.Methods.{new-IsValid}
use vexfs.Fuse.{VexFs, World, replied, error, enotempty, new, make_attr}
use vexfs.Fuse.Edits.{rmdir, rename}
use vexfs.Fuse.Data.{read, write}
use vexfs.Fuse.Steps.{Leaves}
use vexfs.Fuse.Linked.{Linked}
use vexfs.Fuse.Session.{
  Call, mkdir_call, create_call, rename_call, unlink_call, write_call, perform_all,
  perform_all-Linked,
}
use vexfs.Fuse.Rename.{Moved, rename_lem}
use vexfs.Fuse.Refusals.{rmdir_refuses}
use vexfs.Fuse.Holds.{Known}
use vexfs.Fuse.Writes.{read_back, read_lost}

unfoldable checksum : List ℕ → ℕ
checksum [] = 7
checksum (b ∷ bs) = (checksum bs * 31 + b) % 2 ^ 32

abbrev superblock : SuperblockRaw
superblock = record {
  magic = 0x5645584653000001;
  version = 1;
  block_size = 4096;
  total_blocks = 512;
  free_blocks = 512;
  inode_count = 0;
  next_data_offset = 659520;
  created_at = 1700000000;
  crc32 = 0;
}

abbrev image : Image
image = record {
  manager = record {
    superblock = superblock;
    journal = record { header = new_header; next_slot = 0 };
    free_list = [];
    inode_table = new_table 4096 659520;
  };
  file = record { size = 1000000; at = λ i. 0; budget = 2000 };
}

-- A codec that never compresses, no ranked file, and nothing in the virtual files.
abbrev world : World
world = record {
  crc = checksum;
  encode = λ bytes. none;
  decode = λ bytes. bytes;
  now = 1700000000;
  ranked_files = [];
  search_result = [];
  ask_result = [];
  context_result = [];
  jarvis_result = [];
  telemetry = [];
}

abbrev same : List ℕ → List ℕ
same query = query

-- A directory `d`, a file `a`, which is written, moves to `d/b` and is removed.
abbrev calls : List (World × Call)
calls =
    (world, mkdir_call 1 (100 ∷ []))
    ∷ ((world, create_call 1 (97 ∷ []))
        ∷ ((world, write_call 3 0 (1 ∷ 2 ∷ []))
            ∷ ((world, rename_call 1 (97 ∷ []) 2 (98 ∷ []))
                ∷ ((world, unlink_call 2 (98 ∷ [])) ∷ []))))

perform_all-Linked_example : Leaves (λ _. Linked 7) (perform_all same calls (new image))
perform_all-Linked_example = perform_all-Linked same calls image (omega arith)

-- A directory with an entry.
abbrev value : ℕ → Bool → Value
value ino is_dir = record { ino = ino; size = 0; is_dir = is_dir; disk_index = 0 }

abbrev full : VexFs
full = record (new image) {
  index = record {
    root =
        leaf (new_key 1 (100 ∷ []) ∷ (new_key 2 (97 ∷ []) ∷ []))
          (value 2 true ∷ (value 3 false ∷ []));
    size = 2;
  };
}

full-IsIndex : IsIndex full.index
unfolding IsSearch entries zip key_cmp name_cmp
full-IsIndex = (0, (refl, omega arith, ground arith, ground arith), refl)

rmdir_refuses_example : rmdir world 1 (100 ∷ []) full ≡ some (error enotempty, full)
unfolding find entries zip key_cmp name_cmp dir_end
rmdir_refuses_example =
    rmdir_refuses world 1 (100 ∷ []) full (value 2 true) (value 3 false) (new_key 2 (97 ∷ []))
      full-IsIndex (refl, (refl, tt)) refl refl refl refl

-- The file moves to the root.
rename_lem_example :
    Leaves
      (Moved world 2 (97 ∷ []) 1 (98 ∷ []) full (value 3 false))
      (rename world 2 (97 ∷ []) 1 (98 ∷ []) full)
unfolding find entries zip key_cmp name_cmp
rename_lem_example =
    rename_lem world 2 (97 ∷ []) 1 (98 ∷ []) full (value 3 false) full-IsIndex refl refl

-- A file of which the cache has nothing.
abbrev one_file : VexFs
one_file = record (new image) {
  files =
      (
        3,
        record {
          name = 97 ∷ [];
          attr = make_attr 3 4 false;
          disk_index = 0;
          dirty = false;
          open_since = none;
          parent_ino = 1;
          data_offset = 659520;
        },
      )
      ∷ [];
}

one_file-Known : Known 3 one_file
unfolding lookup
one_file-Known = (new-IsValid (64 * 1024 * 1024), (_, refl))

read_back_example :
    Leaves
      (λ r s'. (s'' : VexFs) × (read world 3 4 2 s' ≡ some (replied (8 ∷ 9 ∷ []), s'')))
      (write world same 3 4 (8 ∷ 9 ∷ []) one_file)
read_back_example = read_back world world same 3 4 (8 ∷ 9 ∷ []) one_file refl refl one_file-Known

read_lost_example :
    Leaves
      (λ r s'. (s'' : VexFs) × (read world 3 0 4 s' ≡ some (replied (0 ∷ 0 ∷ 0 ∷ 0 ∷ []), s'')))
      (write world same 3 4 (8 ∷ 9 ∷ []) one_file)
unfolding lookup
read_lost_example =
    read_lost world world same 3 4 (8 ∷ 9 ∷ []) one_file refl refl one_file-Known refl
