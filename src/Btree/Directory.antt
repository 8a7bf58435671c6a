-- ===== src/Btree/Directory.antt =====
-- src/fs/btree.rs: the methods of `BPlusTree` against the entries of its leaves.
use mathlib.Core.List.{append-nil}
use mathlib.Core.Path.{subst}
use vexfs.Base.{ℕ, suc, ◌≡◌, refl, ◌∙◌, sym, ap, List, [], ◌++◌, Option, none, some, arith, length}
use vexfs.Btree.{
  BPlusTree, new, new_key, grow_root, counted, insert, uncounted, remove, get, range_keys, list_all,
}
use vexfs.Btree.Order.{Key}
use vexfs.Btree.Tree.{
  Value, Node, leaf, internal, nil, cons, zip, InsertResult, ok, split, RemoveResult, removed,
  not_found, in_range,
}
use vexfs.Btree.Tree
use vexfs.Btree.Entries.{Entries, IsSorted, find, put, erase}
use vexfs.Btree.Search.{entries, IsSearch, get-find_at, entries-IsSorted}
use vexfs.Btree.Leaf.{Inserted}
use vexfs.Btree.Insert.{insert-Inserted}
use vexfs.Btree.Remove.{Removed, value_of, remove-Removed}
use vexfs.Btree.Range.{collect_all_lem, collect_range_at}
use vexfs.Btree.View.{length-put, length-erase, length-erase_absent}

abbrev pub Anything : Key → Type 0
Anything k = Unit {0}

abbrev pub contents : BPlusTree → Entries
contents t = entries t.root

-- All leaves have the same height, the keys are in order, no node is too wide, and `size` counts
-- the entries.
abbrev pub IsIndex : BPlusTree → Type 0
IsIndex t = (d : ℕ) × IsSearch Anything d t.root × (t.size ≡ length (contents t))

pub new-IsIndex : IsIndex new
unfolding IsSearch zip entries
new-IsIndex = (0, (refl, omega arith, tt, tt), refl)

grow_root-IsSearch :
    (d : ℕ) (es : Entries) (r : Node × InsertResult)
    → Inserted Anything d es (some r)
    → (d' : ℕ) × IsSearch Anything d' (grow_root r) × (entries (grow_root r) ≡ es)
unfolding grow_root IsSearch entries
grow_root-IsSearch d es (n, ok) h = (d, h.0, h.1)
grow_root-IsSearch d es (n, split p right) h = (
  suc d,
  (omega arith, (h.1, tt, h.2, h.3)),
  ap (λ xs. entries n ++ xs) (append-nil (entries right)) ∙ h.4,
)

insert_root :
    (parent_ino : ℕ) (name : List ℕ) (value : Value) (t : BPlusTree) (d : ℕ)
    (o : Option (Node × InsertResult))
    → Tree.insert (new_key parent_ino name) value t.root ≡ o
    → Tree.get (new_key parent_ino name) t.root ≡ some (find (new_key parent_ino name) (contents t))
    → t.size ≡ length (contents t)
    → Inserted Anything d (put (new_key parent_ino name) value (contents t)) o
    → (t' : BPlusTree) × (insert parent_ino name value t ≡ some t')
      × IsIndex t'
      × (contents t' ≡ put (new_key parent_ino name) value (contents t))
unfolding insert
insert_root parent_ino name value t d none run found size h = absurd h
insert_root parent_ino name value t d (some r) run found size h =
    let key = new_key parent_ino name in
    let (d', s, e) = grow_root-IsSearch d (put key value (contents t)) r h in
    (
      record { root = grow_root r; size = counted t.size (find key (contents t)) },
      rw (found, run, insert),
      (d', s, rw (size, e) (sym (length-put key value (contents t)))),
      e,
    )

-- On a well-formed index, an insertion succeeds, leaves a well-formed index, and enters the value
-- among the entries at the place of its key, in place of an older value.
pub insert-put :
    (parent_ino : ℕ) (name : List ℕ) (value : Value) (t : BPlusTree)
    → IsIndex t
    → (t' : BPlusTree) × (insert parent_ino name value t ≡ some t')
      × IsIndex t'
      × (contents t' ≡ put (new_key parent_ino name) value (contents t))
insert-put parent_ino name value t (d, s, size) =
    let key = new_key parent_ino name in
    insert_root parent_ino name value t d (Tree.insert key value t.root) refl
      (get-find_at Anything d key t.root s) size (insert-Inserted Anything d key value t.root tt s)

uncounted_lem :
    (key : Key) (es : Entries) (r : RemoveResult)
    → value_of r ≡ find key es
    → uncounted (length es) r ≡ (length (erase key es), find key es)
unfolding uncounted
uncounted_lem key es (removed none) h = rw (length-erase_absent key es (sym h), ← h)
uncounted_lem key es (removed (some v)) h = ground (arith, length-erase key v es (sym h))
uncounted_lem key es not_found h = rw (length-erase_absent key es (sym h), ← h)

remove_root :
    (parent_ino : ℕ) (name : List ℕ) (t : BPlusTree) (d : ℕ) (o : Option (Node × RemoveResult))
    → Tree.remove (new_key parent_ino name) t.root ≡ o
    → t.size ≡ length (contents t)
    → Removed Anything d (new_key parent_ino name) (contents t) o
    → (t' : BPlusTree) × (remove parent_ino name t
        ≡ some (t', find (new_key parent_ino name) (contents t)))
      × IsIndex t'
      × (contents t' ≡ erase (new_key parent_ino name) (contents t))
unfolding remove
remove_root parent_ino name t d none run size h = absurd h
remove_root parent_ino name t d (some (n, r)) run size h =
    let key = new_key parent_ino name in
    (
      record { root = n; size = length (erase key (contents t)) },
      rw (run, remove, size, uncounted_lem key (contents t) r h.2),
      (d, h.0, sym (ap length h.1)),
      h.1,
    )

-- On a well-formed index, a removal succeeds, returns the value of the key if it has one, and leaves
-- a well-formed index with the other entries.
pub remove-erase :
    (parent_ino : ℕ) (name : List ℕ) (t : BPlusTree)
    → IsIndex t
    → (t' : BPlusTree) × (remove parent_ino name t
        ≡ some (t', find (new_key parent_ino name) (contents t)))
      × IsIndex t'
      × (contents t' ≡ erase (new_key parent_ino name) (contents t))
remove-erase parent_ino name t (d, s, size) =
    let key = new_key parent_ino name in
    remove_root parent_ino name t d (Tree.remove key t.root) refl size
      (remove-Removed Anything d key t.root s)

pub get-find :
    (parent_ino : ℕ) (name : List ℕ) (t : BPlusTree)
    → IsIndex t
    → get parent_ino name t ≡ some (find (new_key parent_ino name) (contents t))
unfolding get
get-find parent_ino name t (d, s, size) = get-find_at Anything d (new_key parent_ino name) t.root s

pub list_all_lem : (t : BPlusTree) → IsIndex t → (list_all t ≡ contents t) × IsSorted (list_all t)
unfolding list_all
list_all_lem t (d, s, size) =
    let e = collect_all_lem t.root [] in
    (e, subst IsSorted (sym e) (entries-IsSorted Anything d t.root s))

-- On a well-formed index, the range scan, which skips subtrees, returns what a filter of all entries
-- by the two ends of the range returns.
pub range_keys-in_range :
    (start end : Key) (t : BPlusTree)
    → IsIndex t
    → range_keys start end t ≡ in_range start end (contents t)
unfolding range_keys
range_keys-in_range start end t (d, s, size) = collect_range_at start end Anything d t.root [] s
