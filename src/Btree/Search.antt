-- ===== src/Btree/Search.antt =====
-- src/fs/btree.rs: the invariant of the nodes, their entries, and what `get` finds.
use mathlib.Core.List.{append-nil}
use vexfs.Base.{
  ℕ, zero, suc, ◌<◌, ◌≡◌, refl, List, [], ◌∷◌, ◌++◌, some, length, All, arith, Bool-cases, inl, inr,
}
use vexfs.Btree.Order.{Key, key_le, ◌≺◌, ◌≼◌, lt_of_gt, ≺-≼}
use vexfs.Btree.Vec.{partition_point}
use vexfs.Btree.Tree.{
  Value, order, Node, Nodes, leaf, internal, nil, cons, zip, get, get_child, key_at, child_pos,
}
use vexfs.Btree.Entries.{
  Entries, Keys, IsSorted, find, Keys-imp, Keys-append, IsSorted-append, find-append_below,
  find-append_above,
}

unfoldable mutual
  unfolding zip

  pub entries : Node → Entries
  entries (leaf keys vals) = zip keys vals
  entries (internal keys children) = entries_all children

  pub entries_all : Nodes → Entries
  entries_all nil = []
  entries_all (cons n ns) = entries n ++ entries_all ns

-- A node at a height above the leaves whose keys satisfy `P`: the keys rise, each key between two
-- children bounds both, and no node is too wide.
unfoldable mutual
  unfolding zip

  pub IsSearch : (Key → Type 0) → ℕ → Node → Type 0
  IsSearch P zero (leaf keys vals) =
      (length keys ≡ length vals)
      × (length keys < order)
      × IsSorted (zip keys vals)
      × Keys P (zip keys vals)
  IsSearch P zero (internal keys children) = ⊥
  IsSearch P (suc d) (leaf keys vals) = ⊥
  IsSearch P (suc d) (internal keys children) = (length keys < order) × AreSearch P d keys children

  pub AreSearch : (Key → Type 0) → ℕ → List Key → Nodes → Type 0
  AreSearch P d [] nil = ⊥
  AreSearch P d [] (cons n nil) = IsSearch P d n
  AreSearch P d [] (cons n (cons m ms)) = ⊥
  AreSearch P d (k ∷ ks) nil = ⊥
  AreSearch P d (k ∷ ks) (cons n ns) =
      P k
      × All (λ x. k ≺ x) ks
      × IsSearch (λ x. P x × (x ≺ k)) d n
      × AreSearch (λ x. P x × (k ≼ x)) d ks ns

mutual
  unfolding IsSearch

  pub IsSearch-imp :
      (P Q : Key → Type 0) (d : ℕ) (n : Node)
      → ((k : Key) → P k → Q k)
      → IsSearch P d n
      → IsSearch Q d n
  IsSearch-imp P Q zero (leaf keys vals) f h = (h.0, h.1, h.2, Keys-imp P Q f _ h.3)
  IsSearch-imp P Q zero (internal keys children) f h = h
  IsSearch-imp P Q (suc d) (leaf keys vals) f h = h
  IsSearch-imp P Q (suc d) (internal keys children) f h =
      (h.0, AreSearch-imp P Q d keys children f h.1)

  pub AreSearch-imp :
      (P Q : Key → Type 0) (d : ℕ) (ks : List Key) (ns : Nodes)
      → ((k : Key) → P k → Q k)
      → AreSearch P d ks ns
      → AreSearch Q d ks ns
  AreSearch-imp P Q d [] nil f h = h
  AreSearch-imp P Q d [] (cons n nil) f h = IsSearch-imp P Q d n f h
  AreSearch-imp P Q d [] (cons n (cons m ms)) f h = h
  AreSearch-imp P Q d (k ∷ ks) nil f h = h
  AreSearch-imp P Q d (k ∷ ks) (cons n ns) f h = (
    f k h.0,
    h.1,
    IsSearch-imp (λ x. P x × (x ≺ k)) (λ x. Q x × (x ≺ k)) d n (λ x p. (f x p.0, p.1)) h.2,
    AreSearch-imp (λ x. P x × (k ≼ x)) (λ x. Q x × (k ≼ x)) d ks ns (λ x p. (f x p.0, p.1)) h.3,
  )

mutual
  unfolding IsSearch entries

  pub Keys-entries : (P : Key → Type 0) (d : ℕ) (n : Node) → IsSearch P d n → Keys P (entries n)
  Keys-entries P zero (leaf keys vals) h = h.3
  Keys-entries P zero (internal keys children) h = absurd h
  Keys-entries P (suc d) (leaf keys vals) h = absurd h
  Keys-entries P (suc d) (internal keys children) h = Keys-entries_all P d keys children h.1

  pub Keys-entries_all :
      (P : Key → Type 0) (d : ℕ) (ks : List Key) (ns : Nodes)
      → AreSearch P d ks ns
      → Keys P (entries_all ns)
  Keys-entries_all P d [] nil h = absurd h
  Keys-entries_all P d [] (cons n nil) h = Keys-append P (entries n) [] (Keys-entries P d n h) tt
  Keys-entries_all P d [] (cons n (cons m ms)) h = absurd h
  Keys-entries_all P d (k ∷ ks) nil h = absurd h
  Keys-entries_all P d (k ∷ ks) (cons n ns) h =
      Keys-append P (entries n) (entries_all ns)
        (Keys-imp _ P (λ x p. p.0) (entries n) (Keys-entries (λ x. P x × (x ≺ k)) d n h.2))
        (Keys-imp _ P (λ x p. p.0) (entries_all ns)
          (Keys-entries_all (λ x. P x × (k ≼ x)) d ks ns h.3))

-- The keys of a child, and of the children behind it, by the key between them.
module _ (P : Key → Type 0) (d : ℕ) (k : Key) where
  pub entries_below : (n : Node) → IsSearch (λ x. P x × (x ≺ k)) d n → Keys (λ x. x ≺ k) (entries n)
  entries_below n h = Keys-imp _ (λ x. x ≺ k) (λ x p. p.1) (entries n) (Keys-entries _ d n h)

  pub entries_from :
      (ks : List Key) (ns : Nodes)
      → AreSearch (λ x. P x × (k ≼ x)) d ks ns
      → Keys (λ x. k ≼ x) (entries_all ns)
  entries_from ks ns h =
      Keys-imp _ (λ x. k ≼ x) (λ x p. p.1) (entries_all ns) (Keys-entries_all _ d ks ns h)

  -- A key at or behind the one between two children is above the first of them.
  pub entries_passed :
      (key : Key) (n : Node)
      → k ≼ key
      → IsSearch (λ x. P x × (x ≺ k)) d n
      → Keys (λ x. x ≺ key) (entries n)
  entries_passed key n le h =
      Keys-imp (λ x. x ≺ k) (λ x. x ≺ key) (λ x p. ≺-≼ x k key p le) (entries n) (entries_below n h)

  -- A key before it is below all entries of the others.
  pub entries_ahead :
      (key : Key) (ks : List Key) (ns : Nodes)
      → key ≺ k
      → AreSearch (λ x. P x × (k ≼ x)) d ks ns
      → Keys (λ x. key ≺ x) (entries_all ns)
  entries_ahead key ks ns before h =
      Keys-imp (λ x. k ≼ x) (λ x. key ≺ x) (λ x p. ≺-≼ key k x before p) (entries_all ns)
        (entries_from ks ns h)

mutual
  unfolding IsSearch entries

  pub entries-IsSorted :
      (P : Key → Type 0) (d : ℕ) (n : Node) → IsSearch P d n → IsSorted (entries n)
  entries-IsSorted P zero (leaf keys vals) h = h.2
  entries-IsSorted P zero (internal keys children) h = absurd h
  entries-IsSorted P (suc d) (leaf keys vals) h = absurd h
  entries-IsSorted P (suc d) (internal keys children) h = entries_all-IsSorted P d keys children h.1

  pub entries_all-IsSorted :
      (P : Key → Type 0) (d : ℕ) (ks : List Key) (ns : Nodes)
      → AreSearch P d ks ns
      → IsSorted (entries_all ns)
  entries_all-IsSorted P d [] nil h = absurd h
  entries_all-IsSorted P d [] (cons n nil) h = rw append-nil (entries-IsSorted P d n h)
  entries_all-IsSorted P d [] (cons n (cons m ms)) h = absurd h
  entries_all-IsSorted P d (k ∷ ks) nil h = absurd h
  entries_all-IsSorted P d (k ∷ ks) (cons n ns) h =
      IsSorted-append k (entries n) (entries_all ns) (entries-IsSorted _ d n h.2)
        (entries_all-IsSorted _ d ks ns h.3) (entries_below P d k n h.2)
        (entries_from P d k ks ns h.3)

leaf_get :
    (key : Key) (keys : List Key) (vals : List Value)
    → length keys ≡ length vals
    → get key (leaf keys vals) ≡ some (find key (zip keys vals))
unfolding get key_at partition_point find zip
leaf_get key [] vals e = refl
leaf_get key (k ∷ keys) [] e = absurd (omega arith)
leaf_get key (k ∷ keys) (v ∷ vals) e = ground (arith, leaf_get key keys vals)

mutual
  unfolding IsSearch entries get partition_point

  pub get-find_at :
      (P : Key → Type 0) (d : ℕ) (key : Key) (n : Node)
      → IsSearch P d n
      → get key n ≡ some (find key (entries n))
  get-find_at P zero key (leaf keys vals) h = leaf_get key keys vals h.0
  get-find_at P zero key (internal keys children) h = absurd h
  get-find_at P (suc d) key (leaf keys vals) h = absurd h
  get-find_at P (suc d) key (internal keys children) h = get_child-find P d key keys children h.1

  pub get_child-find :
      (P : Key → Type 0) (d : ℕ) (key : Key) (ks : List Key) (ns : Nodes)
      → AreSearch P d ks ns
      → get_child key (child_pos key ks) ns ≡ some (find key (entries_all ns))
  get_child-find P d key [] nil h = absurd h
  get_child-find P d key [] (cons n nil) h = rw append-nil (get-find_at P d key n h)
  get_child-find P d key [] (cons n (cons m ms)) h = absurd h
  get_child-find P d key (k ∷ ks) nil h = absurd h
  get_child-find P d key (k ∷ ks) (cons n ns) h = elim (Bool-cases (key_le k key)) [
    | inl le ↦
        rw
          (
            le,
            find-append_below key (entries n) (entries_all ns) (entries_passed P d k key n le h.2),
          )
          (get_child-find (λ x. P x × (k ≼ x)) d key ks ns h.3)
    | inr before ↦
        rw
          (
            before,
            find-append_above key (entries n) (entries_all ns)
                (entries_ahead P d k key ks ns (ground (arith, lt_of_gt k key)) h.3),
          )
          (get-find_at (λ x. P x × (x ≺ k)) d key n h.2)
  ]
