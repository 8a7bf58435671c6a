-- ===== src/Btree.antt =====
-- src/fs/btree.rs: the B+ tree that indexes the directory entries. `none` is a panic.
pub mod Order
pub mod Vec
pub mod Tree
pub mod Entries
pub mod Search
mod Leaf
mod Overflow
mod Insert
mod Remove
mod Range
pub mod View
pub mod Directory
pub mod Listing
mod Session
mod Runs
use vexfs.Base.{ℕ, ◌+◌, ◌-◌, List, [], ◌∷◌, Option, none, some, ◌==◌, Bool}
use vexfs.Btree.Order.{Key, dir_start, dir_end}
use vexfs.Btree.Tree.{
  Value, Node, nil, cons, leaf, internal, InsertResult, ok, split, RemoveResult, removed, not_found,
}
use vexfs.Btree.Tree

pub record BPlusTree : Type 0 where
  pub root : Node
  pub size : ℕ

abbrev pub new : BPlusTree
new = record { root = leaf [] []; size = 0 }

unfoldable pub len : BPlusTree → ℕ
len t = t.size

unfoldable pub is_empty : BPlusTree → Bool
is_empty t = t.size == 0

abbrev pub new_key : ℕ → List ℕ → Key
new_key parent_ino name = record { parent_ino = parent_ino; name = name }

-- A root that was split becomes the left child of a new root.
unfoldable pub grow_root : Node × InsertResult → Node
grow_root (root, ok) = root
grow_root (root, split promoted right) = internal (promoted ∷ []) (cons root (cons right nil))

unfoldable pub counted : ℕ → Option Value → ℕ
counted size none = size + 1
counted size (some v) = size

unfoldable pub insert : ℕ → List ℕ → Value → BPlusTree → Option BPlusTree
unfolding grow_root counted
insert parent_ino name value t =
    let key = new_key parent_ino name in
    elim (Tree.get key t.root) [
      | none ↦ none
      | some old ↦ elim (Tree.insert key value t.root) [
        | none ↦ none
        | some r ↦ some (record { root = grow_root r; size = counted t.size old })
      ]
    ]

-- `size` is the number of entries, so the subtraction does not stop at 0.
unfoldable pub uncounted : ℕ → RemoveResult → ℕ × Option Value
uncounted size (removed (some v)) = (size - 1, some v)
uncounted size (removed none) = (size, none)
uncounted size not_found = (size, none)

unfoldable pub remove : ℕ → List ℕ → BPlusTree → Option (BPlusTree × Option Value)
unfolding uncounted
remove parent_ino name t = elim (Tree.remove (new_key parent_ino name) t.root) [
  | none ↦ none
  | some (root, r) ↦
      let (size, value) = uncounted t.size r in some (record { root = root; size = size }, value)
]

unfoldable pub get : ℕ → List ℕ → BPlusTree → Option (Option Value)
get parent_ino name t = Tree.get (new_key parent_ino name) t.root

unfoldable pub range_keys : Key → Key → BPlusTree → List (Key × Value)
range_keys start end t = Tree.collect_range start end t.root []

unfoldable pub list_dir : ℕ → BPlusTree → List (Key × Value)
unfolding range_keys
list_dir parent_ino t = range_keys (dir_start parent_ino) (dir_end parent_ino) t

unfoldable pub list_all : BPlusTree → List (Key × Value)
list_all t = Tree.collect_all t.root []
