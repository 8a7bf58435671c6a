-- ===== src/Btree/Overflow.antt =====
-- src/fs/btree.rs: an internal node that has become too wide, and is split at its middle key.
use mathlib.Core.Path.{subst}
use mathlib.Core.List.{append-nil, append_assoc}
use vexfs.Base.{
  ℕ, suc, ◌+◌, ◌/◌, ◌≡◌, refl, ◌∙◌, sym, ap, List, [], ◌∷◌, ◌++◌, some, length, arith,
  length-append, get_elem?,
}
use vexfs.Btree.Order.{Key, ◌≺◌, ◌≼◌, ≺_trans}
use vexfs.Btree.Vec.{split_off, split_off_lem, split_at, pop-append, All-split, get_elem?-append}
use vexfs.Btree.Tree.{order, Nodes, internal, nil, cons, split, split_internal, split_nodes}
use vexfs.Btree.Search.{entries, entries_all, IsSearch, AreSearch, IsSearch-imp, AreSearch-imp}
use vexfs.Btree.Leaf.{Inserted}

-- The children of a node fall in two at one of its keys.
split_children :
    (P : Key → Type 0) (d : ℕ) (a : List Key) (k : Key) (b : List Key) (ns : Nodes)
    → AreSearch P d (a ++ k ∷ b) ns
    → (left : Nodes) × (right : Nodes) × (split_nodes (suc (length a)) ns ≡ some (left, right))
      × P k
      × AreSearch (λ x. P x × (x ≺ k)) d a left
      × AreSearch (λ x. P x × (k ≼ x)) d b right
      × (entries_all left ++ entries_all right ≡ entries_all ns)
unfolding AreSearch split_nodes entries
split_children P d [] k b nil h = absurd h
split_children P d [] k b (cons n ns) h = (cons n nil, ns, refl, h.0, h.2, h.3, rw append-nil)
split_children P d (a ∷ as') k b nil h = absurd h
split_children P d (a ∷ as') k b (cons n ns) h =
    let (left, right, r, pk, l, m, e) = split_children (λ x. P x × (a ≼ x)) d as' k b ns h.3 in
    let (rising, at_) = All-split (λ x. a ≺ x) as' (k ∷ b) h.1 in
    (
      cons n left,
      right,
      rw r,
      pk.0,
      (
        (h.0, at_.0),
        rising,
        IsSearch-imp (λ x. P x × (x ≺ a)) (λ x. (P x × (x ≺ k)) × (x ≺ a)) d n
            (λ x p. ((p.0, ≺_trans x a k p.1 at_.0), p.1)) h.2,
        AreSearch-imp (λ x. (P x × (a ≼ x)) × (x ≺ k)) (λ x. (P x × (x ≺ k)) × (a ≼ x)) d as' left
            (λ x p. ((p.0.0, p.1), p.0.1)) l,
      ),
      AreSearch-imp (λ x. (P x × (a ≼ x)) × (k ≼ x)) (λ x. P x × (k ≼ x)) d b right
          (λ x p. (p.0.0, p.1)) m,
      append_assoc (entries n) (entries_all left) (entries_all right)
          ∙ ap (λ es. entries n ++ es) e,
    )

first_key :
    (P : Key → Type 0) (d : ℕ) (k : Key) (ks : List Key) (ns : Nodes)
    → AreSearch P d (k ∷ ks) ns
    → P k
unfolding AreSearch
first_key P d k ks nil h = absurd h
first_key P d k ks (cons n ns) h = h.0

split_internal_run :
    (keys : List Key) (x : Key) (a : List Key) (k : Key) (b : List Key) (ns left right : Nodes)
    → length keys ≡ order
    → keys ≡ (x ∷ a) ++ k ∷ b
    → length a ≡ 3
    → split_nodes (suc (length (x ∷ a))) ns ≡ some (left, right)
    → split_internal keys ns ≡ some (internal (x ∷ a) left, split k (internal b right))
unfolding split_internal
split_internal_run keys x a k b ns left right lk e la r =
    let mid : length keys / 2 ≡ length (x ∷ a) = omega arith in
    let found : get_elem? keys (length keys / 2) ≡ some k = rw mid (
      subst (λ ks. get_elem? ks (length (x ∷ a)) ≡ some k) (sym e)
        (get_elem?-append (x ∷ a) k b)) in
    let parts : split_off (length keys / 2 + 1) keys ≡ some ((x ∷ a) ++ k ∷ [], b) =
      split_off_lem (length keys / 2 + 1) keys ((x ∷ a) ++ k ∷ []) b
        (e ∙ sym (append_assoc (x ∷ a) (k ∷ []) b))
        (omega (arith, length-append (x ∷ a) (k ∷ []))) in
    let next : length keys / 2 + 1 ≡ suc (length (x ∷ a)) = omega arith in
    let children : split_nodes (length keys / 2 + 1) ns ≡ some (left, right) = rw next r in
    rw (found, parts, children, split_internal, pop-append (x ∷ a) k)

split_middle :
    (P : Key → Type 0) (d : ℕ) (keys a b : List Key) (ns : Nodes)
    → length keys ≡ order
    → keys ≡ a ++ b
    → length a ≡ 4
    → AreSearch P d keys ns
    → Inserted P (suc d) (entries_all ns) (split_internal keys ns)
unfolding IsSearch entries
split_middle P d keys a [] ns lk e la h = absurd (omega (arith, ap length e, length-append a []))
split_middle P d keys [] (k ∷ b) ns lk e la h = absurd (omega arith)
split_middle P d keys (x ∷ a) (k ∷ b) ns lk e la h =
    let (left, right, r, pk, l, m, en) =
      split_children P d (x ∷ a) k b ns (subst (λ ks. AreSearch P d ks ns) e h) in
    let lb : length b ≡ 3 = omega (arith, ap length e, length-append a (k ∷ b)) in
    rw (split_internal_run keys x a k b ns left right lk e (omega arith) r) (
      let q = first_key (λ y. P y × (y ≺ k)) d x a left l in (x, q.0, q.1),
      pk,
      (omega arith, l),
      (omega arith, m),
      en,
    )

pub split_internal-Inserted :
    (P : Key → Type 0) (d : ℕ) (keys : List Key) (ns : Nodes)
    → length keys ≡ order
    → AreSearch P d keys ns
    → Inserted P (suc d) (entries_all ns) (split_internal keys ns)
split_internal-Inserted P d keys ns lk h =
    let (a, b, e, la) = split_at 4 keys (omega arith) in split_middle P d keys a b ns lk e la h
