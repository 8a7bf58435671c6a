-- ===== src/Btree/Leaf.antt =====
-- src/fs/btree.rs: `Node::insert` at a leaf, with its split.
use mathlib.Core.Path.{subst}
use vexfs.Base.{
  ℕ, ◌/◌, ◌≡◌, refl, sym, ap, List, [], ◌∷◌, ◌++◌, Option, none, some, length, arith, true, false,
  Bool-cases, inl, inr, leb, length-append,
}
use vexfs.Btree.Order.{Key, ◌≺◌, ◌≼◌, key_lt, ≺-to-≼, key_cmp_refl}
use vexfs.Btree.Vec.{
  partition_point, insert_at, replace_at, split_off_lem, split_at, length-insert_at,
}
use vexfs.Btree.Tree.{
  Value, order, Node, leaf, zip, InsertResult, ok, split, key_at, leaf_pos, insert_leaf, split_leaf,
}
use vexfs.Btree.Entries.{Entries, Keys, IsSorted, put, Keys-imp, Keys-put, Keys-split, put-IsSorted}
use vexfs.Btree.Search.{entries, IsSearch}

-- What an insertion into a node leaves: a node with the entries `es`, or two with a key between
-- them, which has an allowed key below it.
abbrev pub Inserted : (Key → Type 0) → ℕ → Entries → Option (Node × InsertResult) → Type 0
Inserted P d es none = ⊥
Inserted P d es (some (n, ok)) = IsSearch P d n × (entries n ≡ es)
Inserted P d es (some (n, split p right)) =
    ((x : Key) × P x × (x ≺ p))
    × P p
    × IsSearch (λ x. P x × (x ≺ p)) d n
    × IsSearch (λ x. P x × (p ≼ x)) d right
    × (entries n ++ entries right ≡ es)

leaf_update :
    (key : Key) (val : Value) (keys : List Key) (vals : List Value)
    → length keys ≡ length vals
    → key_at (leaf_pos key keys) key keys ≡ true
    → (vals' : List Value) × (replace_at (leaf_pos key keys) val vals ≡ some vals')
      × (zip keys vals' ≡ put key val (zip keys vals))
      × (length vals' ≡ length vals)
unfolding replace_at partition_point key_at zip put
leaf_update key val [] vals e h = absurd (ground arith)
leaf_update key val (k ∷ keys) [] e h = absurd (omega arith)
leaf_update key val (k ∷ keys) (v ∷ vals) e h = elim (Bool-cases (key_lt k key)) [
  | inl before ↦
      let (vals', r, z, l) = leaf_update key val keys vals (omega arith) (ground arith) in
      (v ∷ vals', rw (before, r), ground arith, omega (arith, l))
  | inr stop ↦ (val ∷ vals, rw stop, ground arith, refl)
]

leaf_add :
    (key : Key) (val : Value) (keys : List Key) (vals : List Value)
    → length keys ≡ length vals
    → key_at (leaf_pos key keys) key keys ≡ false
    → (keys' : List Key) × (vals' : List Value) × (insert_at (leaf_pos key keys) key keys
        ≡ some keys')
      × (insert_at (leaf_pos key keys) val vals ≡ some vals')
      × (zip keys' vals' ≡ put key val (zip keys vals))
      × (length keys' ≡ length vals')
unfolding insert_at partition_point key_at zip put
leaf_add key val [] [] e h = (key ∷ [], val ∷ [], refl, refl, refl, refl)
leaf_add key val [] (v ∷ vals) e h = absurd (omega arith)
leaf_add key val (k ∷ keys) [] e h = absurd (omega arith)
leaf_add key val (k ∷ keys) (v ∷ vals) e h = elim (Bool-cases (key_lt k key)) [
  | inl before ↦
      let (keys', vals', r, s, z, l) = leaf_add key val keys vals (omega arith) (ground arith) in
      (k ∷ keys', v ∷ vals', rw (before, r), rw (before, s), ground arith, omega (arith, l))
  | inr stop ↦ (key ∷ (k ∷ keys), val ∷ (v ∷ vals), rw stop, rw stop, ground arith, omega arith)
]

zip-append :
    (ka kb : List Key) (va vb : List Value)
    → length ka ≡ length va
    → zip (ka ++ kb) (va ++ vb) ≡ zip ka va ++ zip kb vb
unfolding zip
zip-append [] kb [] vb e = refl
zip-append [] kb (v ∷ va) vb e = absurd (omega arith)
zip-append (k ∷ ka) kb [] vb e = absurd (omega arith)
zip-append (k ∷ ka) kb (v ∷ va) vb e = ap (◌∷◌ (k, v)) (zip-append ka kb va vb (omega arith))

Keys-and : (P Q : Key → Type 0) (es : Entries) → Keys P es → Keys Q es → Keys (λ x. P x × Q x) es
Keys-and P Q [] h k = tt
Keys-and P Q ((x, v) ∷ es) h k = ((h.0, k.0), Keys-and P Q es h.1 k.1)

-- The front of a sorted list lies below the first key of the rest.
IsSorted-split :
    (p : Key) (w : Value) (xs ys : Entries)
    → IsSorted (xs ++ (p, w) ∷ ys)
    → IsSorted xs × Keys (λ x. x ≺ p) xs × IsSorted ((p, w) ∷ ys)
IsSorted-split p w [] ys s = (tt, tt, s)
IsSorted-split p w ((x, v) ∷ xs) ys s =
    let (a, b, c) = IsSorted-split p w xs ys s.1 in
    let (front, at_) = Keys-split (λ y. x ≺ y) xs ((p, w) ∷ ys) s.0 in ((front, a), (at_.0, b), c)

Keys-from :
    (p : Key) (w : Value) (ys : Entries) → Keys (λ x. p ≺ x) ys → Keys (λ x. p ≼ x) ((p, w) ∷ ys)
Keys-from p w ys h =
    (ground (arith, key_cmp_refl p), Keys-imp (λ x. p ≺ x) (λ x. p ≼ x) (λ x. ≺-to-≼ p x) ys h)

halves :
    (P : Key → Type 0) (x p : Key) (u w : Value) (ka kb : List Key) (va vb : List Value)
    → length ka ≡ 3
    → length va ≡ 3
    → length kb ≡ 3
    → length vb ≡ 3
    → IsSorted (zip (x ∷ ka) (u ∷ va) ++ zip (p ∷ kb) (w ∷ vb))
    → Keys P (zip (x ∷ ka) (u ∷ va) ++ zip (p ∷ kb) (w ∷ vb))
    → Inserted P 0
        (zip (x ∷ ka) (u ∷ va) ++ zip (p ∷ kb) (w ∷ vb))
        (some (leaf (x ∷ ka) (u ∷ va), split p (leaf (p ∷ kb) (w ∷ vb))))
unfolding zip IsSearch entries
halves P x p u w ka kb va vb la lb lc ld s h =
    let left = zip (x ∷ ka) (u ∷ va) in
    let (sl, below, sr) = IsSorted-split p w left (zip kb vb) s in
    let (hl, hr) = Keys-split P left (zip (p ∷ kb) (w ∷ vb)) h in
    (
      (x, hl.0, below.0),
      hr.0,
      (omega arith, omega arith, sl, Keys-and P (λ y. y ≺ p) left hl below),
      (
        omega arith,
        omega arith,
        sr,
        Keys-and P (λ y. p ≼ y) (zip (p ∷ kb) (w ∷ vb)) hr (Keys-from p w (zip kb vb) sr.0),
      ),
      refl,
    )

split_halves :
    (P : Key → Type 0) (keys ka kb : List Key) (vals va vb : List Value)
    → length keys ≡ order
    → length vals ≡ order
    → keys ≡ ka ++ kb
    → vals ≡ va ++ vb
    → length ka ≡ 4
    → length va ≡ 4
    → IsSorted (zip keys vals)
    → Keys P (zip keys vals)
    → Inserted P 0 (zip keys vals) (split_leaf keys vals)
unfolding split_leaf
split_halves P keys [] kb vals va vb lk lv ek ev la lb s h = absurd (omega arith)
split_halves P keys (x ∷ ka) kb vals [] vb lk lv ek ev la lb s h = absurd (omega arith)
split_halves P keys (x ∷ ka) [] vals (u ∷ va) vb lk lv ek ev la lb s h =
    absurd (omega (arith, ap length ek, length-append ka []))
split_halves P keys (x ∷ ka) (p ∷ kb) vals (u ∷ va) [] lk lv ek ev la lb s h =
    absurd (omega (arith, ap length ev, length-append va []))
split_halves P keys (x ∷ ka) (p ∷ kb) vals (u ∷ va) (w ∷ vb) lk lv ek ev la lb s h =
    let z : zip keys vals ≡ zip (x ∷ ka) (u ∷ va) ++ zip (p ∷ kb) (w ∷ vb) =
      rw (ek, ev) (zip-append (x ∷ ka) (p ∷ kb) (u ∷ va) (w ∷ vb) (omega arith)) in
    let run : split_leaf keys vals
        ≡ some (leaf (x ∷ ka) (u ∷ va), split p (leaf (p ∷ kb) (w ∷ vb))) =
      rw (
        split_off_lem (length keys / 2) keys (x ∷ ka) (p ∷ kb) ek (omega arith),
        split_off_lem (length keys / 2) vals (u ∷ va) (w ∷ vb) ev (omega arith),
        split_leaf,
      ) in
    rw (run, z)
      (halves P x p u w ka kb va vb (omega arith) (omega arith)
        (omega (arith, ap length ek, length-append ka (p ∷ kb)))
        (omega (arith, ap length ev, length-append va (w ∷ vb))) (subst IsSorted z s)
        (subst (Keys P) z h))

split_leaf-Inserted :
    (P : Key → Type 0) (keys : List Key) (vals : List Value)
    → length keys ≡ order
    → length keys ≡ length vals
    → IsSorted (zip keys vals)
    → Keys P (zip keys vals)
    → Inserted P 0 (zip keys vals) (split_leaf keys vals)
split_leaf-Inserted P keys vals lk lv s h =
    let (ka, kb, ek, la) = split_at 4 keys (omega arith) in
    let (va, vb, ev, lb) = split_at 4 vals (omega arith) in
    split_halves P keys ka kb vals va vb lk (omega arith) ek ev la lb s h

-- A leaf takes a key: in place, as a new entry, or with a split.
pub insert_leaf-Inserted :
    (P : Key → Type 0) (key : Key) (val : Value) (keys : List Key) (vals : List Value)
    → P key
    → IsSearch P 0 (leaf keys vals)
    → Inserted P 0 (put key val (zip keys vals)) (insert_leaf key val keys vals)
unfolding insert_leaf IsSearch entries
insert_leaf-Inserted P key val keys vals p h =
    let s = put-IsSorted key val (zip keys vals) h.2 in
    let q = Keys-put P key val (zip keys vals) p h.3 in
    elim (Bool-cases (key_at (leaf_pos key keys) key keys)) [
      | inl old ↦
          let (vals', r, z, l) = leaf_update key val keys vals h.0 old in
          rw (old, r)
            ((omega (arith, l, h.0), h.1, subst IsSorted (sym z) s, subst (Keys P) (sym z) q), z)
      | inr fresh ↦
          let (keys', vals', r, r', z, l) = leaf_add key val keys vals h.0 fresh in
          let longer = length-insert_at (leaf_pos key keys) key keys keys' r in
          elim (Bool-cases (leb order (length keys'))) [
            | inl full ↦
                rw (fresh, r, r', full)
                  (subst (λ es. Inserted P 0 es (split_leaf keys' vals')) z
                    (split_leaf-Inserted P keys' vals' (ground (arith, h.1)) l
                      (subst IsSorted (sym z) s) (subst (Keys P) (sym z) q)))
            | inr room ↦
                rw (fresh, r, r', room)
                  ((l, ground arith, subst IsSorted (sym z) s, subst (Keys P) (sym z) q), z)
          ]
    ]
