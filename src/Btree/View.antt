-- ===== src/Btree/View.antt =====
-- src/fs/btree.rs: the list of entries as a map, after an insertion and after a removal.
use vexfs.Base.{◌≡◌, refl, [], ◌∷◌, none, some, arith, if◌then◌else◌, length, suc}
use vexfs.Btree.{counted}
use vexfs.Btree.Order.{
  Key, key_eq, ◌≺◌, lt_of_gt, gt_of_lt, ≺_trans, eq_of_key_cmp, key_lt_trans, key_cmp_refl,
}
use vexfs.Btree.Tree.{Value}
use vexfs.Btree.Entries.{Entries, Keys, IsSorted, find, put, erase, Keys-imp, find-above}

pub find-put :
    (key j : Key) (val : Value) (es : Entries)
    → find j (put key val es) ≡ (if key_eq key j then some val else find j es)
unfolding find put
find-put key j val [] = ground arith
find-put key j val ((k, v) ∷ es) = ground (
  arith,
  find-put key j val es,
  eq_of_key_cmp k key,
  eq_of_key_cmp key j,
  lt_of_gt k key,
  key_lt_trans j key k,
  lt_of_gt key j,
  gt_of_lt j k,
)

find_before : (j k : Key) (es : Entries) → j ≺ k → Keys (λ x. k ≺ x) es → find j es ≡ none
find_before j k es h ks =
    find-above j es (Keys-imp (λ x. k ≺ x) (λ x. j ≺ x) (λ x. ≺_trans j k x h) es ks)

pub find-erase :
    (key j : Key) (es : Entries)
    → IsSorted es
    → find j (erase key es) ≡ (if key_eq key j then none else find j es)
unfolding find erase
find-erase key j [] s = ground arith
find-erase key j ((k, v) ∷ es) s = ground (
  arith,
  find-erase key j es s.1,
  find-above k es s.0,
  λ (h : j ≺ k). find_before j k es h s.0,
  eq_of_key_cmp k key,
  eq_of_key_cmp key j,
  eq_of_key_cmp k j,
  lt_of_gt k key,
  key_cmp_refl k,
  key_lt_trans j key k,
  key_lt_trans key k j,
  lt_of_gt key j,
  lt_of_gt k j,
  gt_of_lt j k,
)

pub length-put :
    (key : Key) (val : Value) (es : Entries)
    → length (put key val es) ≡ counted (length es) (find key es)
unfolding find put counted
length-put key val [] = refl
length-put key val ((k, v) ∷ es) = ground (arith, length-put key val es)

pub length-erase :
    (key : Key) (v : Value) (es : Entries)
    → find key es ≡ some v
    → suc (length (erase key es)) ≡ length es
unfolding find erase
length-erase key v [] h = cc
length-erase key v ((k, w) ∷ es) h = ground (arith, length-erase key v es)

pub length-erase_absent :
    (key : Key) (es : Entries) → find key es ≡ none → length (erase key es) ≡ length es
unfolding find erase
length-erase_absent key [] h = refl
length-erase_absent key ((k, w) ∷ es) h = ground (arith, length-erase_absent key es)
