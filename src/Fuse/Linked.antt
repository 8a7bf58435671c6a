-- ===== src/Fuse/Linked.antt =====
-- src/fuse/mod.rs: the invariant of the index and the map of files, and the calls that change them.
use vexfs.Base.{ℕ, ◌+◌, ◌^◌, ◌<◌, ◌≤◌, ◌≡◌, refl, List, Option, none, some, Bool, arith, add_u64}
use vexfs.Btree.{new_key}
use vexfs.Btree.Order.{Key}
use vexfs.Btree.Tree.{Value}
use vexfs.Btree.Entries.{find}
use vexfs.Btree.Search.{entries-IsSorted}
use vexfs.Btree.View.{find-put, find-erase}
use vexfs.Btree.Directory.{IsIndex, Anything, contents, get-find, insert-put, remove-erase}
use vexfs.Fuse.{VexFs}
use vexfs.Fuse.Names.{find_entry, insert_entry, remove_entry, enter, new_file}
use vexfs.Fuse.Steps.{Leaves, Leaves-some, Leaves-bind}
use vexfs.Fuse.Frame.{IsStable, update_file_lem}
use vexfs.Fuse.Links.{Links, Links-ext, Links-add, Links-update, with_entry}

abbrev pub index_map : VexFs → Key → Option Value
index_map s k = find k (contents s.index)

-- The index is well formed, every entry of it has its file under its parent and name, and the
-- inodes in use are below the next one, which is at most the bound.
abbrev pub Linked : ℕ → VexFs → Type 0
Linked bound s = IsIndex s.index × Links (index_map s) s.files s.next_inode × (s.next_inode ≤ bound)

pub Linked-IsStable : (bound : ℕ) → IsStable (Linked bound)
Linked-IsStable bound = record {
  disk = λ s image p. p;
  buffer = λ s b p. p;
  file = λ ino f silent s p. update_file_lem (Linked bound) ino f s p (λ file at. (
    p.0,
    Links-update (index_map s) s.files s.next_inode p.1 ino file (f file) at (silent file).1
        (silent file).0,
    p.2,
  ));
  cached = λ ino s p. p;
}

-- The index after a change, and the rest of the state as before.
pub record Reindexed (m : Key → Option Value) (s s' : VexFs) : Type 0 where
  pub index : IsIndex s'.index
  pub map_eq : (k : Key) → index_map s' k ≡ m k
  pub files : s'.files ≡ s.files
  pub next_inode : s'.next_inode ≡ s.next_inode

module _ (parent : ℕ) (name : List ℕ) (s : VexFs) (i : IsIndex s.index) where
  abbrev key : Key
  key = new_key parent name

  pub find_entry-find : find_entry parent name s ≡ some (index_map s key, s)
  find_entry-find = rw (get-find parent name s.index i, find_entry) refl

  pub insert_entry-Reindexed :
      (v : Value)
      → Leaves
          (λ _. Reindexed (with_entry key (some v) (index_map s)) s)
          (insert_entry parent name v s)
  insert_entry-Reindexed v =
      let (t, run, i', c) = insert-put parent name v s.index i in
      Leaves-some _ none (λ index. some (tt, record s { index = index })) _ t run
        (record {
          index = i';
          map_eq = λ k. rw c (find-put key k v (contents s.index));
          files = refl;
          next_inode = refl;
        })

  pub remove_entry-Reindexed :
      Leaves
        (λ found s'. (found ≡ index_map s key) × Reindexed (with_entry key none (index_map s)) s s')
        (remove_entry parent name s)
  remove_entry-Reindexed =
      let (t, run, i', c) = remove-erase parent name s.index i in
      let sorted = entries-IsSorted Anything i.0 s.index.root i.1 in
      Leaves-some _ none (λ r. some (r.1, record s { index = r.0 })) _ (t, index_map s key) run
        (
          refl,
          record {
            index = i';
            map_eq = λ k. rw c (find-erase key k (contents s.index) sorted);
            files = refl;
            next_inode = refl;
          },
        )

-- `enter` with the next inode below the end of `u64`.
pub enter-Linked :
    (bound parent : ℕ) (name : List ℕ) (disk_index : ℕ) (is_dir : Bool) (open_since : Option ℕ)
    (s : VexFs)
    → bound + 1 < 2 ^ 64
    → Linked bound s
    → Leaves (λ ino. Linked (bound + 1)) (enter parent name disk_index is_dir open_since s)
enter-Linked bound parent name disk_index is_dir open_since s room (i, l, b) =
    let value : Value = record {
      ino = s.next_inode;
      size = 0;
      is_dir = is_dir;
      disk_index = disk_index;
    } in
    let file = new_file name s.next_inode parent disk_index is_dir open_since in
    let next : add_u64 s.next_inode 1 ≡ s.next_inode + 1 = omega arith in
    let start = record s { next_inode = add_u64 s.next_inode 1 } in
    Leaves-bind _
      (λ _. Reindexed (with_entry (new_key parent name) (some value) (index_map s)) start)
      (insert_entry parent name value start) _ (insert_entry-Reindexed parent name start i value)
      (λ _ s' r. (
        r.index,
        rw (r.files, r.next_inode, next)
            (Links-ext _ (index_map s') _ _ r.map_eq (
              Links-add (index_map s) s.files s.next_inode l (new_key parent name) value file refl
                refl refl)),
        rw (r.next_inode, next) (omega arith),
      ))
