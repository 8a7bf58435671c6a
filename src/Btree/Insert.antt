-- ===== src/Btree/Insert.antt =====
-- src/fs/btree.rs: `Node::insert` at an internal node, with its split, and at any node.
use mathlib.Core.Path.{subst}
use mathlib.Core.Option
use mathlib.Core.List.{append-nil, append_assoc}
use vexfs.Base.{
  ℕ, zero, suc, ◌+◌, ◌<◌, ◌≡◌, refl, ◌∙◌, sym, ap, List, [], ◌∷◌, ◌++◌, Option, none, some, length,
  arith, Bool-cases, inl, inr, leb, All,
}
use vexfs.Btree.Order.{Key, ◌≺◌, ◌≼◌, key_le, lt_of_gt, ≺-to-≼, ≺_trans, ≼-≺, ≼_trans}
use vexfs.Btree.Vec.{partition_point, insert_at, length-insert_at, All-insert_at, All-imp}
use vexfs.Btree.Tree.{
  Value, order, Node, Nodes, leaf, internal, nil, cons, InsertResult, ok, split, child_pos, insert,
  insert_child, insert_result, insert_split, split_internal, insert_node,
}
use vexfs.Btree.Entries.{Entries, put, put-append_below, put-append_above}
use vexfs.Btree.Search.{
  entries, entries_all, IsSearch, AreSearch, IsSearch-imp, AreSearch-imp, entries_passed,
  entries_ahead,
}
use vexfs.Btree.Overflow.{split_internal-Inserted}
use vexfs.Btree.Leaf.{Inserted, insert_leaf-Inserted}

-- What an insertion into the child at `pos` leaves: the children with the entries `es`, also when
-- the child was split and its right half and the key before it are put in their places.
abbrev Placed : (Key → Type 0) → ℕ → List Key → ℕ → Entries → Option (Nodes × InsertResult) → Type 0
Placed P d ks pos es none = ⊥
Placed P d ks pos es (some (ns, ok)) = AreSearch P d ks ns × (entries_all ns ≡ es)
Placed P d ks pos es (some (ns, split p right)) =
    ((x : Key) × P x × (x ≺ p))
    × P p
    × ((ks' : List Key) × (ns' : Nodes) × (insert_at pos p ks ≡ some ks')
        × (insert_node (suc pos) right ns ≡ some ns')
        × AreSearch P d ks' ns'
        × (entries_all ns' ≡ es))

Placed-only_child :
    (P : Key → Type 0) (d : ℕ) (es : Entries) (o : Option (Node × InsertResult))
    → Inserted P d es o
    → Placed P d [] 0 es (Option.map (λ r. (cons r.0 nil, r.1)) o)
unfolding AreSearch entries insert_at insert_node
Placed-only_child P d es none h = h
Placed-only_child P d es (some (n, ok)) h = (h.0, append-nil (entries n) ∙ h.1)
Placed-only_child P d es (some (n, split p right)) h = (
  h.0,
  h.1,
  (
    p ∷ [],
    cons n (cons right nil),
    refl,
    refl,
    (h.1, tt, h.2, h.3),
    ap (λ xs. entries n ++ xs) (append-nil (entries right)) ∙ h.4,
  ),
)

module _ (P : Key → Type 0) (d : ℕ) (k : Key) (ks : List Key) (pk : P k)
    (rising : All (λ x. k ≺ x) ks) where
  Placed-first_child :
      (ns : Nodes) (es : Entries) (o : Option (Node × InsertResult))
      → AreSearch (λ x. P x × (k ≼ x)) d ks ns
      → Inserted (λ x. P x × (x ≺ k)) d es o
      → Placed P d (k ∷ ks) 0 (es ++ entries_all ns) (Option.map (λ r. (cons r.0 ns, r.1)) o)
  unfolding AreSearch entries insert_at insert_node
  Placed-first_child ns es none rest h = h
  Placed-first_child ns es (some (n, ok)) rest h = ((pk, rising, h.0, rest), rw h.1)
  Placed-first_child ns es (some (n, split p right)) rest h =
      let before : p ≺ k = h.1.1 in
      (
        (h.0.0, h.0.1.0, h.0.2),
        h.1.0,
        (
          p ∷ (k ∷ ks),
          cons n (cons right ns),
          refl,
          refl,
          (
            h.1.0,
            (before, All-imp (λ x. k ≺ x) (λ x. p ≺ x) (λ x. ≺_trans p k x before) ks rising),
            IsSearch-imp (λ x. (P x × (x ≺ k)) × (x ≺ p)) (λ x. P x × (x ≺ p)) d n
                (λ x q. (q.0.0, q.1)) h.2,
            (
              (pk, ≺-to-≼ p k before),
              rising,
              IsSearch-imp (λ x. (P x × (x ≺ k)) × (p ≼ x)) (λ x. (P x × (p ≼ x)) × (x ≺ k)) d right
                  (λ x q. ((q.0.0, q.1), q.0.1)) h.3,
              AreSearch-imp (λ x. P x × (k ≼ x)) (λ x. (P x × (p ≼ x)) × (k ≼ x)) d ks ns
                  (λ x q. ((q.0, ≼_trans p k x (≺-to-≼ p k before) q.1), q.1)) rest,
            ),
          ),
          sym (append_assoc (entries n) (entries right) (entries_all ns))
              ∙ ap (λ xs. xs ++ entries_all ns) h.4,
        ),
      )

  Placed-later_child :
      (n : Node) (pos : ℕ) (es : Entries) (o : Option (Nodes × InsertResult))
      → IsSearch (λ x. P x × (x ≺ k)) d n
      → Placed (λ x. P x × (k ≼ x)) d ks pos es o
      → Placed P d (k ∷ ks) (suc pos) (entries n ++ es) (Option.map (λ r. (cons n r.0, r.1)) o)
  unfolding AreSearch entries insert_at insert_node
  Placed-later_child n pos es none first h = h
  Placed-later_child n pos es (some (ns, ok)) first h = ((pk, rising, first, h.0), rw h.1)
  Placed-later_child n pos es (some (ns, split p right)) first h =
      let ((x, px, below), pp, (ks', ns', ik, ins, s, e)) = h in
      (
        (x, px.0, below),
        pp.0,
        (
          k ∷ ks',
          cons n ns',
          rw ik,
          rw ins,
          (pk, All-insert_at (λ y. k ≺ y) pos p ks ks' (≼-≺ k x p px.1 below) rising ik, first, s),
          rw e,
        ),
      )

insert_result-Inserted :
    (P : Key → Type 0) (d pos : ℕ) (keys : List Key) (es : Entries)
    (o : Option (Nodes × InsertResult))
    → length keys < order
    → Placed P d keys pos es o
    → Inserted P (suc d) es (insert_result pos keys o)
unfolding insert_result insert_split IsSearch entries
insert_result-Inserted P d pos keys es none w h = h
insert_result-Inserted P d pos keys es (some (ns, ok)) w h = ((w, h.0), h.1)
insert_result-Inserted P d pos keys es (some (ns, split p right)) w h =
    let (below, pp, (ks', ns', ik, ins, s, e)) = h in
    let longer = length-insert_at pos p keys ks' ik in
    let ins' : insert_node (pos + 1) right ns ≡ some ns' =
      subst (λ i. insert_node i right ns ≡ some ns') (omega arith) ins in
    elim (Bool-cases (leb order (length ks'))) [
      | inl full ↦
          rw (ik, ins', full, insert_split)
            (subst (λ es. Inserted P (suc d) es (split_internal ks' ns')) e
              (split_internal-Inserted P d ks' ns' (ground arith) s))
      | inr room ↦ rw (ik, ins', room, insert_split) ((ground arith, s), e)
    ]

mutual
  unfolding IsSearch entries insert partition_point

  pub insert-Inserted :
      (P : Key → Type 0) (d : ℕ) (key : Key) (val : Value) (n : Node)
      → P key
      → IsSearch P d n
      → Inserted P d (put key val (entries n)) (insert key val n)
  insert-Inserted P zero key val (leaf keys vals) p h = insert_leaf-Inserted P key val keys vals p h
  insert-Inserted P zero key val (internal keys ns) p h = absurd h
  insert-Inserted P (suc d) key val (leaf keys vals) p h = absurd h
  insert-Inserted P (suc d) key val (internal keys ns) p h =
      insert_result-Inserted P d (child_pos key keys) keys (put key val (entries_all ns))
        (insert_child key val (child_pos key keys) ns) h.0
        (insert_child-Placed P d key val keys ns p h.1)

  insert_child-Placed :
      (P : Key → Type 0) (d : ℕ) (key : Key) (val : Value) (ks : List Key) (ns : Nodes)
      → P key
      → AreSearch P d ks ns
      → Placed P d ks
          (child_pos key ks)
          (put key val (entries_all ns))
          (insert_child key val (child_pos key ks) ns)
  insert_child-Placed P d key val [] nil p h = absurd h
  insert_child-Placed P d key val [] (cons n nil) p h = rw append-nil (
      Placed-only_child P d (put key val (entries n)) (insert key val n)
        (insert-Inserted P d key val n p h))
  insert_child-Placed P d key val [] (cons n (cons m ms)) p h = absurd h
  insert_child-Placed P d key val (k ∷ ks) nil p h = absurd h
  insert_child-Placed P d key val (k ∷ ks) (cons n ns) p h = elim (Bool-cases (key_le k key)) [
    | inl le ↦
        rw
          (
            le,
            put-append_below key val (entries n) (entries_all ns)
                (entries_passed P d k key n le h.2),
          )
          (Placed-later_child P d k ks h.0 h.1 n (child_pos key ks) (put key val (entries_all ns))
            (insert_child key val (child_pos key ks) ns) h.2
            (insert_child-Placed (λ x. P x × (k ≼ x)) d key val ks ns (p, le) h.3))
    | inr gt ↦
        let before : key ≺ k = ground (arith, lt_of_gt k key) in
        rw
          (
            gt,
            put-append_above key val (entries n) (entries_all ns)
                (entries_ahead P d k key ks ns before h.3),
          )
          (Placed-first_child P d k ks h.0 h.1 ns (put key val (entries n)) (insert key val n) h.3
            (insert-Inserted (λ x. P x × (x ≺ k)) d key val n (p, before) h.2))
  ]
