-- ===== src/Btree/Listing.antt =====
-- src/fs/btree.rs: about `list_dir`, by the parents of the entries.
use Prim.Native.Nat.Ordering.{gt}
use vexfs.Base.{ℕ, ◌≡◌, refl, ◌∙◌, List, [], ◌∷◌, arith, if◌then◌else◌, true, ◌==◌, ◌≢◌, none}
use vexfs.Btree.{BPlusTree, list_dir}
use vexfs.Btree.Order.{Key, key_cmp, key_le, ◌≺◌, ◌≼◌, ≼-≺, name_cmp, dir_start, dir_end}
use vexfs.Btree.Tree.{in_range}
use vexfs.Btree.Entries.{Entries, Keys, find}
use vexfs.Btree.Directory.{IsIndex, contents, range_keys-in_range}

-- The entries of a directory, in order.
unfoldable pub children_of : ℕ → Entries → Entries
children_of parent_ino [] = []
children_of parent_ino ((k, v) ∷ es) =
    let rest = children_of parent_ino es in
    if k.parent_ino == parent_ino then (k, v) ∷ rest else rest

-- No name is above U+10FFFF, as those are that do not start with this character.
abbrev pub IsPlain : Key → Type 0
IsPlain k = key_le k (dir_end k.parent_ino) ≡ true

name_cmp-nil : (name : List ℕ) → name_cmp [] name ≢ gt
unfolding name_cmp
name_cmp-nil [] = λ h. cc
name_cmp-nil (b ∷ bs) = λ h. cc

in_range-children_of :
    (parent_ino : ℕ) (es : Entries)
    → Keys IsPlain es
    → in_range (dir_start parent_ino) (dir_end parent_ino) es ≡ children_of parent_ino es
unfolding in_range children_of key_cmp dir_start dir_end
in_range-children_of parent_ino [] h = refl
in_range-children_of parent_ino ((k, v) ∷ es) h =
    ground (arith, in_range-children_of parent_ino es, name_cmp-nil k.name)

-- On a well-formed index whose names are none above U+10FFFF, `list_dir` returns the entries of the
-- directory, all of them and in order.
pub list_dir-children_of :
    (parent_ino : ℕ) (t : BPlusTree)
    → IsIndex t
    → Keys IsPlain (contents t)
    → list_dir parent_ino t ≡ children_of parent_ino (contents t)
unfolding list_dir
list_dir-children_of parent_ino t i h =
    range_keys-in_range (dir_start parent_ino) (dir_end parent_ino) t i
    ∙ in_range-children_of parent_ino (contents t) h

find_beyond :
    (key : Key) (start end : Key) (es : Entries)
    → end ≺ key
    → find key (in_range start end es) ≡ none
unfolding find in_range
find_beyond key start end [] h = refl
find_beyond key start end ((k, v) ∷ es) h =
    ground (arith, find_beyond key start end es h, λ (le : k ≼ end). ≼-≺ k end key le h)

-- On a well-formed index, a key above the sentinel of the directory is not listed, whether the
-- index has it or not.
pub list_dir_misses :
    (parent_ino : ℕ) (key : Key) (t : BPlusTree)
    → IsIndex t
    → dir_end parent_ino ≺ key
    → find key (list_dir parent_ino t) ≡ none
unfolding list_dir
list_dir_misses parent_ino key t i h =
    rw (range_keys-in_range (dir_start parent_ino) (dir_end parent_ino) t i)
      (find_beyond key (dir_start parent_ino) (dir_end parent_ino) (contents t) h)
