-- ===== src/Btree/Remove.antt =====
-- src/fs/btree.rs: `Node::remove`, which takes an entry out of its leaf and moves no other.
use mathlib.Core.Path.{subst}
use mathlib.Core.Option
use mathlib.Core.List.{append-nil}
use vexfs.Base.{
  ℕ, zero, suc, ◌<◌, ◌≡◌, refl, ◌∙◌, sym, List, [], ◌∷◌, ◌++◌, Option, none, some, length, arith,
  true, false, Bool-cases, inl, inr, All,
}
use vexfs.Btree.Order.{Key, ◌≺◌, ◌≼◌, key_lt, key_le, lt_of_gt}
use vexfs.Btree.Vec.{partition_point, remove_index}
use vexfs.Btree.Tree.{
  Value, order, Node, Nodes, leaf, internal, nil, cons, RemoveResult, removed, not_found, child_pos,
  remove, remove_child, key_at, leaf_pos, zip,
}
use vexfs.Btree.Entries.{
  Entries, Keys, IsSorted, find, erase, Keys-erase, erase-IsSorted, erase-append_below,
  erase-append_above, find-append_below, find-append_above,
}
use vexfs.Btree.Search.{entries, entries_all, IsSearch, AreSearch, entries_passed, entries_ahead}

abbrev pub value_of : RemoveResult → Option Value
value_of (removed v) = v
value_of not_found = none

-- What a removal leaves, and what it returns.
abbrev pub Removed : (Key → Type 0) → ℕ → Key → Entries → Option (Node × RemoveResult) → Type 0
Removed P d key es none = ⊥
Removed P d key es (some (n, r)) =
    IsSearch P d n × (entries n ≡ erase key es) × (value_of r ≡ find key es)

abbrev AllRemoved :
    (Key → Type 0) → ℕ → List Key → Key → Entries → Option (Nodes × RemoveResult) → Type 0
AllRemoved P d ks key es none = ⊥
AllRemoved P d ks key es (some (ns, r)) =
    AreSearch P d ks ns × (entries_all ns ≡ erase key es) × (value_of r ≡ find key es)

leaf_without :
    (key : Key) (keys : List Key) (vals : List Value)
    → key_at (leaf_pos key keys) key keys ≡ false
    → (erase key (zip keys vals) ≡ zip keys vals) × (find key (zip keys vals) ≡ none)
unfolding partition_point key_at zip erase find
leaf_without key [] vals h = (refl, refl)
leaf_without key (k ∷ keys) [] h = (refl, refl)
leaf_without key (k ∷ keys) (v ∷ vals) h = ground (arith, leaf_without key keys vals)

leaf_cut :
    (key : Key) (keys : List Key) (vals : List Value)
    → length keys ≡ length vals
    → key_at (leaf_pos key keys) key keys ≡ true
    → (k : Key) × (keys' : List Key) × (v : Value) × (vals' : List Value) × (remove_index
          (leaf_pos key keys)
          keys
        ≡ some (k, keys'))
      × (remove_index (leaf_pos key keys) vals ≡ some (v, vals'))
      × (zip keys' vals' ≡ erase key (zip keys vals))
      × (find key (zip keys vals) ≡ some v)
      × (length keys' ≡ length vals')
      × (suc (length keys') ≡ length keys)
unfolding remove_index partition_point key_at zip erase find
leaf_cut key [] vals e h = absurd (ground arith)
leaf_cut key (k ∷ keys) [] e h = absurd (omega arith)
leaf_cut key (k ∷ keys) (v ∷ vals) e h = elim (Bool-cases (key_lt k key)) [
  | inl before ↦
      let (j, keys', w, vals', r, s, z, f, l, m) =
        leaf_cut key keys vals (omega arith) (ground arith) in
      (
        j,
        k ∷ keys',
        w,
        v ∷ vals',
        rw (before, r),
        rw (before, s),
        ground arith,
        ground arith,
        omega (arith, l),
        omega (arith, m),
      )
  | inr stop ↦ (k, keys, v, vals, rw stop, rw stop, ground arith, ground arith, omega arith, refl)
]

remove_leaf-Removed :
    (P : Key → Type 0) (key : Key) (keys : List Key) (vals : List Value)
    → IsSearch P 0 (leaf keys vals)
    → Removed P 0 key (zip keys vals) (remove key (leaf keys vals))
unfolding remove IsSearch entries
remove_leaf-Removed P key keys vals h = elim (Bool-cases (key_at (leaf_pos key keys) key keys)) [
  | inl there ↦
      let (k, keys', v, vals', r, s, z, f, l, m) = leaf_cut key keys vals h.0 there in
      rw (there, r, s)
        (
          (
            l,
            omega (arith, m, h.1),
            subst IsSorted (sym z) (erase-IsSorted key (zip keys vals) h.2),
            subst (Keys P) (sym z) (Keys-erase P key (zip keys vals) h.3),
          ),
          z,
          sym f,
        )
  | inr missing ↦
      let (same, no_value) = leaf_without key keys vals missing in
      rw missing (h, sym same, sym no_value)
]

AllRemoved-only_child :
    (P : Key → Type 0) (d : ℕ) (key : Key) (es : Entries) (o : Option (Node × RemoveResult))
    → Removed P d key es o
    → AllRemoved P d [] key es (Option.map (λ r. (cons r.0 nil, r.1)) o)
unfolding AreSearch entries
AllRemoved-only_child P d key es none h = h
AllRemoved-only_child P d key es (some (n, r)) h = (h.0, append-nil (entries n) ∙ h.1, h.2)

module _ (P : Key → Type 0) (d : ℕ) (key k : Key) (ks : List Key) (pk : P k)
    (rising : All (λ x. k ≺ x) ks) (n : Node) (ns : Nodes)
    (first : IsSearch (λ x. P x × (x ≺ k)) d n)
    (rest : AreSearch (λ x. P x × (k ≼ x)) d ks ns) where
  AllRemoved-first_child :
      (o : Option (Node × RemoveResult))
      → key ≺ k
      → Removed (λ x. P x × (x ≺ k)) d key (entries n) o
      → AllRemoved P d
          (k ∷ ks)
          key
          (entries n ++ entries_all ns)
          (Option.map (λ r. (cons r.0 ns, r.1)) o)
  unfolding AreSearch entries
  AllRemoved-first_child none before h = h
  AllRemoved-first_child (some (n', r)) before h =
      let ahead = entries_ahead P d k key ks ns before rest in
      (
        (pk, rising, h.0, rest),
        rw (erase-append_above key (entries n) (entries_all ns) ahead, h.1),
        rw (find-append_above key (entries n) (entries_all ns) ahead) h.2,
      )

  AllRemoved-later_child :
      (o : Option (Nodes × RemoveResult))
      → k ≼ key
      → AllRemoved (λ x. P x × (k ≼ x)) d ks key (entries_all ns) o
      → AllRemoved P d
          (k ∷ ks)
          key
          (entries n ++ entries_all ns)
          (Option.map (λ r. (cons n r.0, r.1)) o)
  unfolding AreSearch entries
  AllRemoved-later_child none le h = h
  AllRemoved-later_child (some (ns', r)) le h =
      let passed = entries_passed P d k key n le first in
      (
        (pk, rising, first, h.0),
        rw (erase-append_below key (entries n) (entries_all ns) passed, h.1),
        rw (find-append_below key (entries n) (entries_all ns) passed) h.2,
      )

Removed-internal :
    (P : Key → Type 0) (d : ℕ) (keys : List Key) (key : Key) (es : Entries)
    (o : Option (Nodes × RemoveResult))
    → length keys < order
    → AllRemoved P d keys key es o
    → Removed P (suc d) key es (Option.map (λ r. (internal keys r.0, r.1)) o)
unfolding IsSearch entries
Removed-internal P d keys key es none w h = h
Removed-internal P d keys key es (some (ns, r)) w h = ((w, h.0), h.1, h.2)

mutual
  unfolding IsSearch entries remove partition_point

  pub remove-Removed :
      (P : Key → Type 0) (d : ℕ) (key : Key) (n : Node)
      → IsSearch P d n
      → Removed P d key (entries n) (remove key n)
  remove-Removed P zero key (leaf keys vals) h = remove_leaf-Removed P key keys vals h
  remove-Removed P zero key (internal keys ns) h = absurd h
  remove-Removed P (suc d) key (leaf keys vals) h = absurd h
  remove-Removed P (suc d) key (internal keys ns) h =
      Removed-internal P d keys key (entries_all ns) (remove_child key (child_pos key keys) ns) h.0
        (remove_child-AllRemoved P d key keys ns h.1)

  remove_child-AllRemoved :
      (P : Key → Type 0) (d : ℕ) (key : Key) (ks : List Key) (ns : Nodes)
      → AreSearch P d ks ns
      → AllRemoved P d ks key (entries_all ns) (remove_child key (child_pos key ks) ns)
  remove_child-AllRemoved P d key [] nil h = absurd h
  remove_child-AllRemoved P d key [] (cons n nil) h =
      rw append-nil
        (AllRemoved-only_child P d key (entries n) (remove key n) (remove-Removed P d key n h))
  remove_child-AllRemoved P d key [] (cons n (cons m ms)) h = absurd h
  remove_child-AllRemoved P d key (k ∷ ks) nil h = absurd h
  remove_child-AllRemoved P d key (k ∷ ks) (cons n ns) h = elim (Bool-cases (key_le k key)) [
    | inl le ↦ rw le (
        AllRemoved-later_child P d key k ks h.0 h.1 n ns h.2 h.3
          (remove_child key (child_pos key ks) ns) le
          (remove_child-AllRemoved (λ x. P x × (k ≼ x)) d key ks ns h.3))
    | inr gt ↦ rw gt (
        AllRemoved-first_child P d key k ks h.0 h.1 n ns h.2 h.3 (remove key n)
          (ground (arith, lt_of_gt k key)) (remove-Removed (λ x. P x × (x ≺ k)) d key n h.2))
  ]
