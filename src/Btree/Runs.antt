-- ===== src/Btree/Runs.antt =====
-- Runs of the B+ tree, after the tests of src/fs/btree.rs, and the theorems at them.
use vexfs.Base.{ℕ, ◌+◌, ◌≡◌, refl, map, List, [], ◌∷◌, none, some, arith, length, false}
use vexfs.Btree.{BPlusTree, new, new_key, insert, remove, get, list_all, list_dir, range_keys}
use vexfs.Btree.Order.{Key, ◌≺◌, key_cmp, name_cmp, dir_start, dir_end}
use vexfs.Btree.Vec.{partition_point, insert_at, remove_index, split_off, pop}
use vexfs.Btree.Tree.{Value, leaf, internal, nil, cons, zip, split_leaf, key_at, in_range}
use vexfs.Btree.Tree
use vexfs.Btree.Entries.{Keys, IsSorted, find, put, erase}
use vexfs.Btree.Search.{entries, IsSearch}
use vexfs.Btree.Directory.{IsIndex, contents, insert-put, remove-erase, range_keys-in_range}
use vexfs.Btree.Listing.{children_of, IsPlain, list_dir-children_of, list_dir_misses}
use vexfs.Btree.Session.{Op, insert_entry, remove_entry, step, run, apply_ops, run-Refines}

abbrev val : ℕ → Value
val ino = record { ino = ino; size = 0; is_dir = false; disk_index = 0 }

abbrev name : ℕ → List ℕ
name n = (n + 97) ∷ []

abbrev file : ℕ → Op
file n = insert_entry 1 (name n) (val n)

-- Ten files, in no order, which split the leaf at the root, and a removal.
abbrev ops : List Op
ops =
    file 5
    ∷ (file 2
        ∷ (file 8
            ∷ (file 0
                ∷ (file 9
                    ∷ (file 1
                        ∷ (file 7
                            ∷ (file 3 ∷ (file 6 ∷ (file 4 ∷ (remove_entry 1 (name 2) ∷ []))))))))))

run-Refines_example :
    (t : BPlusTree) × (run ops new ≡ some t)
    × ((parent_ino : ℕ) (name : List ℕ)
        → get parent_ino name t ≡ some (apply_ops ops (λ k. none) (new_key parent_ino name)))
    × ((k : Key) → find k (list_all t) ≡ apply_ops ops (λ k. none) k)
    × IsSorted (list_all t)
    × (t.size ≡ length (list_all t))
run-Refines_example = run-Refines ops

-- A full leaf at the root.
abbrev keys : List Key
keys =
    new_key 1 (name 0)
    ∷ (new_key 1 (name 1)
        ∷ (new_key 1 (name 2)
            ∷ (new_key 1 (name 3)
                ∷ (new_key 2 (name 0) ∷ (new_key 2 (name 1) ∷ (new_key 2 (name 2) ∷ []))))))

abbrev vals : List Value
vals = val 0 ∷ (val 1 ∷ (val 2 ∷ (val 3 ∷ (val 4 ∷ (val 5 ∷ (val 6 ∷ []))))))

abbrev full : BPlusTree
full = record { root = leaf keys vals; size = 7 }

full-IsIndex : IsIndex full
unfolding IsSearch entries zip key_cmp name_cmp
full-IsIndex = (0, (refl, omega arith, ground arith, ground arith), refl)

insert-put_example :
    (t' : BPlusTree) × (insert 1 (name 7) (val 9) full ≡ some t')
    × IsIndex t'
    × (contents t' ≡ put (new_key 1 (name 7)) (val 9) (contents full))
insert-put_example = insert-put 1 (name 7) (val 9) full full-IsIndex

remove-erase_example :
    (t' : BPlusTree) × (remove 1 (name 2) full
      ≡ some (t', find (new_key 1 (name 2)) (contents full)))
    × IsIndex t'
    × (contents t' ≡ erase (new_key 1 (name 2)) (contents full))
remove-erase_example = remove-erase 1 (name 2) full full-IsIndex

range_keys-in_range_example :
    range_keys (new_key 1 (name 1)) (new_key 2 (name 0)) full
    ≡ in_range (new_key 1 (name 1)) (new_key 2 (name 0)) (contents full)
range_keys-in_range_example =
    range_keys-in_range (new_key 1 (name 1)) (new_key 2 (name 0)) full full-IsIndex

full-IsPlain : Keys IsPlain (contents full)
unfolding entries zip key_cmp name_cmp dir_end
full-IsPlain = ground arith

list_dir-children_of_example : list_dir 1 full ≡ children_of 1 (contents full)
list_dir-children_of_example = list_dir-children_of 1 full full-IsIndex full-IsPlain

-- A file whose name is U+10FFFF and a letter.
abbrev odd_key : Key
odd_key = new_key 1 (0xF4 ∷ (0x8F ∷ (0xBF ∷ (0xBF ∷ (97 ∷ [])))))

abbrev odd : BPlusTree
odd = record { root = leaf (odd_key ∷ []) (val 2 ∷ []); size = 1 }

odd-IsIndex : IsIndex odd
unfolding IsSearch entries zip
odd-IsIndex = (0, (refl, omega arith, (tt, tt), (tt, tt)), refl)

odd_key-beyond : dir_end 1 ≺ odd_key
unfolding key_cmp name_cmp dir_end
odd_key-beyond = refl

list_dir_misses_example : find odd_key (list_dir 1 odd) ≡ none
list_dir_misses_example = list_dir_misses 1 odd_key odd odd-IsIndex odd_key-beyond

-- What a session lists for a directory.
list_dir_after : List Op → ℕ → List ℕ
list_dir_after ops parent_ino = elim (run ops new) [
  | none ↦ []
  | some t ↦ map (λ e. e.1.ino) (list_dir parent_ino t)
]

ten_files : list_dir_after ops 1 ≡ 0 ∷ (1 ∷ (3 ∷ (4 ∷ (5 ∷ (6 ∷ (7 ∷ (8 ∷ (9 ∷ []))))))))
unfolding list_dir_after run step list_dir insert remove Tree.get Tree.insert Tree.remove
    Tree.collect_range Tree.insert_leaf Tree.insert_result zip key_at partition_point insert_at
    split_off pop key_cmp in_range dir_start dir_end remove_index
ten_files = refl
