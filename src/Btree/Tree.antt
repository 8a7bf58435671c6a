-- ===== src/Btree/Tree.antt =====
-- src/fs/btree.rs: the nodes of the B+ tree and their methods. `none` is a panic: an index out of
-- range.
use mathlib.Core.Option
use vexfs.Base.{
  ℕ, zero, suc, ◌+◌, ◌-◌, ◌/◌, List, [], ◌∷◌, ◌++◌, Option, none, some, Bool, true, false, ◌&&◌,
  leb, if◌then◌else◌, length, get_elem?,
}
use vexfs.Btree.Order.{Key, key_lt, key_le, key_eq}
use vexfs.Btree.Vec.{partition_point, insert_at, replace_at, remove_index, split_off, pop}

abbrev pub order : ℕ
order = 8

pub record Value : Type 0 where
  pub ino : ℕ
  pub size : ℕ
  pub is_dir : Bool
  pub disk_index : ℕ

mutual
  pub data Node : Type 0 where
    leaf : List Key → List Value → Node
    internal : List Key → Nodes → Node

  -- `Vec<Node>`
  pub data Nodes : Type 0 where
    nil : Nodes
    cons : Node → Nodes → Nodes

pub data InsertResult : Type 0 where
  ok : InsertResult
  split : Key → Node → InsertResult

pub data RemoveResult : Type 0 where
  removed : Option Value → RemoveResult
  not_found : RemoveResult

unfoldable pub key_count : Node → ℕ
key_count (leaf keys vals) = length keys
key_count (internal keys children) = length keys

unfoldable pub is_full : Node → Bool
unfolding key_count
is_full n = leb (order - 1) (key_count n)

-- `Vec::insert` and `Vec::split_off` on children.
unfoldable pub insert_node : ℕ → Node → Nodes → Option Nodes
insert_node zero n ns = some (cons n ns)
insert_node (suc pos) n nil = none
insert_node (suc pos) n (cons m ms) = Option.map (cons m) (insert_node pos n ms)

unfoldable pub split_nodes : ℕ → Nodes → Option (Nodes × Nodes)
split_nodes zero ns = some (nil, ns)
split_nodes (suc at_) nil = none
split_nodes (suc at_) (cons n ns) = Option.map (λ r. (cons n r.0, r.1)) (split_nodes at_ ns)

-- `pos < keys.len() && &keys[pos] == key`.
unfoldable pub key_at : ℕ → Key → List Key → Bool
key_at pos key keys = elim (get_elem? keys pos) [ none ↦ false | some k ↦ key_eq k key ]

-- `keys.partition_point(|k| k < key)` and `keys.partition_point(|k| k <= key)`.
abbrev pub leaf_pos : Key → List Key → ℕ
leaf_pos key keys = partition_point (λ k. key_lt k key) keys

abbrev pub child_pos : Key → List Key → ℕ
child_pos key keys = partition_point (λ k. key_le k key) keys

-- `Node::get`, with the child at a position for `children[pos].get(key)`.
unfoldable mutual
  unfolding key_at

  pub get : Key → Node → Option (Option Value)
  get key (leaf keys vals) =
      let pos = leaf_pos key keys in
      if key_at pos key keys
      then elim (get_elem? vals pos) [ none ↦ none | some v ↦ some (some v) ]
      else some none
  get key (internal keys children) = get_child key (child_pos key keys) children

  pub get_child : Key → ℕ → Nodes → Option (Option Value)
  get_child key pos nil = none
  get_child key zero (cons n ns) = get key n
  get_child key (suc pos) (cons n ns) = get_child key pos ns

-- The right half of a full leaf goes into a new leaf, and its first key up.
unfoldable pub split_leaf : List Key → List Value → Option (Node × InsertResult)
split_leaf keys vals =
    let mid = length keys / 2 in
    elim (split_off mid keys) [
      | none ↦ none
      | some (left_keys, right_keys) ↦ elim (split_off mid vals) [
        | none ↦ none
        | some (left_vals, right_vals) ↦ elim right_keys [
          | [] ↦ none
          | promoted ∷ rest ↦
              some (leaf left_keys left_vals, split promoted (leaf (promoted ∷ rest) right_vals))
        ]
      ]
    ]

-- The leaf's part of `Node::insert`.
unfoldable pub insert_leaf : Key → Value → List Key → List Value → Option (Node × InsertResult)
unfolding key_at split_leaf
insert_leaf key val keys vals =
    let pos = leaf_pos key keys in
    if key_at pos key keys
    then elim (replace_at pos val vals) [ none ↦ none | some vals' ↦ some (leaf keys vals', ok) ]
    else elim (insert_at pos key keys) [
      | none ↦ none
      | some keys' ↦ elim (insert_at pos val vals) [
        | none ↦ none
        | some vals' ↦
            if leb order (length keys') then split_leaf keys' vals' else some (leaf keys' vals', ok)
      ]
    ]

-- The right half of a full internal node goes into a new one, and its middle key up.
unfoldable pub split_internal : List Key → Nodes → Option (Node × InsertResult)
split_internal keys children =
    let mid = length keys / 2 in
    elim (get_elem? keys mid) [
      | none ↦ none
      | some promoted ↦ elim (split_off (mid + 1) keys) [
        | none ↦ none
        | some (left_keys, right_keys) ↦ elim (split_nodes (mid + 1) children) [
          | none ↦ none
          | some (left, right) ↦
              some (internal (pop left_keys) left, split promoted (internal right_keys right))
        ]
      ]
    ]

-- What an internal node does when the child at `pos` was split.
unfoldable pub insert_split : ℕ → Key → Node → List Key → Nodes → Option (Node × InsertResult)
unfolding split_internal
insert_split pos promoted right keys children = elim (insert_at pos promoted keys) [
  | none ↦ none
  | some keys' ↦ elim (insert_node (pos + 1) right children) [
    | none ↦ none
    | some children' ↦
        if leb order (length keys')
        then split_internal keys' children'
        else some (internal keys' children', ok)
  ]
]

-- What an internal node does with the result of the child at `pos`.
unfoldable pub insert_result :
    ℕ → List Key → Option (Nodes × InsertResult) → Option (Node × InsertResult)
unfolding insert_split
insert_result pos keys none = none
insert_result pos keys (some (children, ok)) = some (internal keys children, ok)
insert_result pos keys (some (children, split promoted right)) =
    insert_split pos promoted right keys children

-- `Node::insert`; the child at a position is changed in place.
unfoldable mutual
  pub insert : Key → Value → Node → Option (Node × InsertResult)
  insert key val (leaf keys vals) = insert_leaf key val keys vals
  insert key val (internal keys children) =
      let pos = child_pos key keys in insert_result pos keys (insert_child key val pos children)

  pub insert_child : Key → Value → ℕ → Nodes → Option (Nodes × InsertResult)
  insert_child key val pos nil = none
  insert_child key val zero (cons n ns) = Option.map (λ r. (cons r.0 ns, r.1)) (insert key val n)
  insert_child key val (suc pos) (cons n ns) =
      Option.map (λ r. (cons n r.0, r.1)) (insert_child key val pos ns)

-- `Node::remove`.
unfoldable mutual
  unfolding key_at

  pub remove : Key → Node → Option (Node × RemoveResult)
  remove key (leaf keys vals) =
      let pos = leaf_pos key keys in
      if key_at pos key keys
      then elim (remove_index pos keys) [
        | none ↦ none
        | some (k, keys') ↦ elim (remove_index pos vals) [
          | none ↦ none
          | some (v, vals') ↦ some (leaf keys' vals', removed (some v))
        ]
      ]
      else some (leaf keys vals, not_found)
  remove key (internal keys children) =
      Option.map (λ r. (internal keys r.0, r.1)) (remove_child key (child_pos key keys) children)

  pub remove_child : Key → ℕ → Nodes → Option (Nodes × RemoveResult)
  remove_child key pos nil = none
  remove_child key zero (cons n ns) = Option.map (λ r. (cons r.0 ns, r.1)) (remove key n)
  remove_child key (suc pos) (cons n ns) =
      Option.map (λ r. (cons n r.0, r.1)) (remove_child key pos ns)

-- `keys.iter().zip(vals.iter())`.
unfoldable pub zip : List Key → List Value → List (Key × Value)
zip [] vals = []
zip (k ∷ keys) [] = []
zip (k ∷ keys) (v ∷ vals) = (k, v) ∷ zip keys vals

unfoldable mutual
  pub collect_all : Node → List (Key × Value) → List (Key × Value)
  collect_all (leaf keys vals) out = out ++ zip keys vals
  collect_all (internal keys children) out = collect_children children out

  pub collect_children : Nodes → List (Key × Value) → List (Key × Value)
  collect_children nil out = out
  collect_children (cons n ns) out = collect_children ns (collect_all n out)

-- The pairs with a key in the range, its ends included.
unfoldable pub in_range : Key → Key → List (Key × Value) → List (Key × Value)
in_range start end [] = []
in_range start end ((k, v) ∷ es) =
    let rest = in_range start end es in
    if key_le start k && key_le k end then (k, v) ∷ rest else rest

-- `keys.get(i - 1)` is at most the end, or there is none; `keys.get(i)` is at least the start, or
-- there is none.
unfoldable pub above_min : Key → ℕ → List Key → Bool
above_min end zero keys = true
above_min end (suc i) keys = elim (get_elem? keys i) [ none ↦ true | some k ↦ key_le k end ]

unfoldable pub below_max : Key → ℕ → List Key → Bool
below_max start i keys = elim (get_elem? keys i) [ none ↦ true | some k ↦ key_le start k ]

-- `collect_range`, with the children enumerated from `i`.
unfoldable mutual
  unfolding in_range above_min below_max

  pub collect_range : Key → Key → Node → List (Key × Value) → List (Key × Value)
  collect_range start end (leaf keys vals) out = out ++ in_range start end (zip keys vals)
  collect_range start end (internal keys children) out =
      range_children start end keys 0 children out

  pub range_children : Key → Key → List Key → ℕ → Nodes → List (Key × Value) → List (Key × Value)
  range_children start end keys i nil out = out
  range_children start end keys i (cons n ns) out = range_children start end keys (i + 1) ns (
      if above_min end i keys && below_max start i keys then collect_range start end n out else out)
