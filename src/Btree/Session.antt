-- ===== src/Btree/Session.antt =====
-- src/fs/btree.rs: a session of insertions and removals, against a map from keys to values.
use vexfs.Base.{ℕ, ◌≡◌, refl, List, [], ◌∷◌, Option, none, some, if◌then◌else◌, length}
use vexfs.Btree.{BPlusTree, new, new_key, insert, remove, get, list_all}
use vexfs.Btree.Order.{Key, key_eq}
use vexfs.Btree.Tree.{Value, zip}
use vexfs.Btree.Entries.{IsSorted, find}
use vexfs.Btree.Search.{entries, entries-IsSorted}
use vexfs.Btree.View.{find-put, find-erase}
use vexfs.Btree.Directory.{
  IsIndex, Anything, contents, new-IsIndex, insert-put, remove-erase, get-find, list_all_lem,
}

pub data Op : Type 0 where
  insert_entry : ℕ → List ℕ → Value → Op
  remove_entry : ℕ → List ℕ → Op

unfoldable pub step : Op → BPlusTree → Option BPlusTree
step (insert_entry parent_ino name value) t = insert parent_ino name value t
step (remove_entry parent_ino name) t = elim (remove parent_ino name t) [
  | none ↦ none
  | some (t', value) ↦ some t'
]

unfoldable pub run : List Op → BPlusTree → Option BPlusTree
run [] t = some t
run (op ∷ ops) t = elim (step op t) [ none ↦ none | some t' ↦ run ops t' ]

abbrev pub Mapping : Type 0
Mapping = Key → Option Value

-- What the operation does to a map.
unfoldable pub apply_op : Op → Mapping → Mapping
apply_op (insert_entry parent_ino name value) m j =
    if key_eq (new_key parent_ino name) j then some value else m j
apply_op (remove_entry parent_ino name) m j =
    if key_eq (new_key parent_ino name) j then none else m j

unfoldable pub apply_ops : List Op → Mapping → Mapping
apply_ops [] m = m
apply_ops (op ∷ ops) m = apply_ops ops (apply_op op m)

abbrev Represents : BPlusTree → Mapping → Type 0
Represents t m = (k : Key) → find k (contents t) ≡ m k

step-Represents :
    (op : Op) (t : BPlusTree) (m : Mapping)
    → IsIndex t
    → Represents t m
    → (t' : BPlusTree) × (step op t ≡ some t') × IsIndex t' × Represents t' (apply_op op m)
unfolding step apply_op
step-Represents (insert_entry parent_ino name value) t m i r =
    let (t', e, i', c) = insert-put parent_ino name value t i in
    (t', e, i', λ k. rw (c, find-put (new_key parent_ino name) k value (contents t), r k))
step-Represents (remove_entry parent_ino name) t m i r =
    let (t', e, i', c) = remove-erase parent_ino name t i in
    let sorted = entries-IsSorted Anything i.0 t.root i.1 in
    (
      t',
      rw (e, step),
      i',
      λ k. rw (c, find-erase (new_key parent_ino name) k (contents t) sorted, r k),
    )

run-Represents :
    (ops : List Op) (t : BPlusTree) (m : Mapping)
    → IsIndex t
    → Represents t m
    → (t' : BPlusTree) × (run ops t ≡ some t') × IsIndex t' × Represents t' (apply_ops ops m)
unfolding run apply_ops
run-Represents [] t m i r = (t, refl, i, r)
run-Represents (op ∷ ops) t m i r =
    let (u, e, i', r') = step-Represents op t m i r in
    let (t', e', i'', r'') = run-Represents ops u (apply_op op m) i' r' in
    (t', rw (e, run) e', i'', r'')

-- A session of insertions and removals from an empty tree never panics; the tree then answers each
-- lookup as a map from keys to values that is updated along the session, lists exactly the entries of
-- that map, with rising keys, and has their number as its size.
pub run-Refines :
    (ops : List Op)
    → (t : BPlusTree) × (run ops new ≡ some t)
      × ((parent_ino : ℕ) (name : List ℕ)
          → get parent_ino name t ≡ some (apply_ops ops (λ k. none) (new_key parent_ino name)))
      × ((k : Key) → find k (list_all t) ≡ apply_ops ops (λ k. none) k)
      × IsSorted (list_all t)
      × (t.size ≡ length (list_all t))
unfolding find zip entries
run-Refines ops =
    let (t, e, i, r) = run-Represents ops new (λ k. none) new-IsIndex (λ k. refl) in
    (
      t,
      e,
      λ parent_ino name. rw (get-find parent_ino name t i, r (new_key parent_ino name)),
      λ k. rw (list_all_lem t i).0 (r k),
      (list_all_lem t i).1,
      rw (list_all_lem t i).0 i.2,
    )
