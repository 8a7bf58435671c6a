-- ===== src/Btree/Entries.antt =====
-- src/fs/btree.rs: the abstract view of the tree, a list of entries in the order of the keys, with
-- its lookup, insertion and removal.
use Prim.Native.Nat.Ordering.{lt, eq, gt}
use vexfs.Base.{◌≡◌, refl, List, [], ◌∷◌, ◌++◌, Option, none, some, arith}
use vexfs.Btree.Order.{Key, key_cmp, ◌≺◌, ◌≼◌, lt_of_gt, gt_of_lt, ≺_trans, ≺-≼}
use vexfs.Btree.Tree.{Value}

abbrev pub Entries : Type 0
Entries = List (Key × Value)

unfoldable pub find : Key → Entries → Option Value
find key [] = none
find key ((k, v) ∷ es) = elim (key_cmp k key) [ lt ↦ find key es | eq ↦ some v | gt ↦ none ]

unfoldable pub put : Key → Value → Entries → Entries
put key val [] = (key, val) ∷ []
put key val ((k, v) ∷ es) = elim (key_cmp k key) [
  | lt ↦ (k, v) ∷ put key val es
  | eq ↦ (k, val) ∷ es
  | gt ↦ (key, val) ∷ ((k, v) ∷ es)
]

unfoldable pub erase : Key → Entries → Entries
erase key [] = []
erase key ((k, v) ∷ es) = elim (key_cmp k key) [
  | lt ↦ (k, v) ∷ erase key es
  | eq ↦ es
  | gt ↦ (k, v) ∷ es
]

-- Every key satisfies `P`.
abbrev pub Keys : (Key → Type 0) → Entries → Type 0
Keys P [] = Unit {0}
Keys P ((k, v) ∷ es) = P k × Keys P es

-- The keys rise.
abbrev pub IsSorted : Entries → Type 0
IsSorted [] = Unit {0}
IsSorted ((k, v) ∷ es) = Keys (λ x. k ≺ x) es × IsSorted es

pub Keys-imp :
    (P Q : Key → Type 0) → ((k : Key) → P k → Q k) → (es : Entries) → Keys P es → Keys Q es
Keys-imp P Q f [] h = tt
Keys-imp P Q f ((k, v) ∷ es) h = (f k h.0, Keys-imp P Q f es h.1)

pub Keys-append : (P : Key → Type 0) (xs ys : Entries) → Keys P xs → Keys P ys → Keys P (xs ++ ys)
Keys-append P [] ys h k = k
Keys-append P ((x, v) ∷ xs) ys h k = (h.0, Keys-append P xs ys h.1 k)

pub Keys-split : (P : Key → Type 0) (xs ys : Entries) → Keys P (xs ++ ys) → Keys P xs × Keys P ys
Keys-split P [] ys h = (tt, h)
Keys-split P ((x, v) ∷ xs) ys h = let (a, b) = Keys-split P xs ys h.1 in ((h.0, a), b)

pub Keys-put :
    (P : Key → Type 0) (key : Key) (val : Value) (es : Entries)
    → P key
    → Keys P es
    → Keys P (put key val es)
unfolding put
Keys-put P key val [] p h = (p, tt)
Keys-put P key val ((k, v) ∷ es) p h = ground (arith, Keys-put P key val es)

pub Keys-erase : (P : Key → Type 0) (key : Key) (es : Entries) → Keys P es → Keys P (erase key es)
unfolding erase
Keys-erase P key [] h = tt
Keys-erase P key ((k, v) ∷ es) h = ground (arith, Keys-erase P key es)

Keys-above : (key k : Key) (es : Entries) → key ≺ k → Keys (λ x. k ≺ x) es → Keys (λ x. key ≺ x) es
Keys-above key k es h = Keys-imp (λ x. k ≺ x) (λ x. key ≺ x) (λ x. ≺_trans key k x h) es

pub put-IsSorted :
    (key : Key) (val : Value) (es : Entries) → IsSorted es → IsSorted (put key val es)
unfolding put
put-IsSorted key val [] s = (tt, tt)
put-IsSorted key val ((k, v) ∷ es) s = ground (
  arith,
  put-IsSorted key val es,
  Keys-put (λ (x : Key). k ≺ x) key val es,
  lt_of_gt k key,
  Keys-above key k es,
)

pub erase-IsSorted : (key : Key) (es : Entries) → IsSorted es → IsSorted (erase key es)
unfolding erase
erase-IsSorted key [] s = tt
erase-IsSorted key ((k, v) ∷ es) s =
    ground (arith, erase-IsSorted key es, Keys-erase (λ (x : Key). k ≺ x) key es)

pub IsSorted-append :
    (k : Key) (xs ys : Entries)
    → IsSorted xs
    → IsSorted ys
    → Keys (λ x. x ≺ k) xs
    → Keys (λ x. k ≼ x) ys
    → IsSorted (xs ++ ys)
IsSorted-append k [] ys s t a b = t
IsSorted-append k ((x, v) ∷ xs) ys s t a b = (
  Keys-append (λ y. x ≺ y) xs ys s.0 (Keys-imp (λ y. k ≼ y) (λ y. x ≺ y) (λ y. ≺-≼ x k y a.0) ys b),
  IsSorted-append k xs ys s.1 t a.1 b,
)

-- Below the key: skipped. Above it: not reached.
pub find-append_below :
    (key : Key) (xs ys : Entries) → Keys (λ x. x ≺ key) xs → find key (xs ++ ys) ≡ find key ys
unfolding find
find-append_below key [] ys h = refl
find-append_below key ((x, v) ∷ xs) ys h = ground (arith, find-append_below key xs ys)

pub find-above : (key : Key) (ys : Entries) → Keys (λ x. key ≺ x) ys → find key ys ≡ none
unfolding find
find-above key [] h = refl
find-above key ((y, v) ∷ ys) h = ground (arith, gt_of_lt key y)

pub find-append_above :
    (key : Key) (xs ys : Entries) → Keys (λ x. key ≺ x) ys → find key (xs ++ ys) ≡ find key xs
unfolding find
find-append_above key [] ys h = find-above key ys h
find-append_above key ((x, v) ∷ xs) ys h = ground (arith, find-append_above key xs ys)

pub put-append_below :
    (key : Key) (val : Value) (xs ys : Entries)
    → Keys (λ x. x ≺ key) xs
    → put key val (xs ++ ys) ≡ xs ++ put key val ys
unfolding put
put-append_below key val [] ys h = refl
put-append_below key val ((x, v) ∷ xs) ys h = ground (arith, put-append_below key val xs ys)

pub put-above :
    (key : Key) (val : Value) (ys : Entries)
    → Keys (λ x. key ≺ x) ys
    → put key val ys ≡ (key, val) ∷ ys
unfolding put
put-above key val [] h = refl
put-above key val ((y, v) ∷ ys) h = ground (arith, gt_of_lt key y)

pub put-append_above :
    (key : Key) (val : Value) (xs ys : Entries)
    → Keys (λ x. key ≺ x) ys
    → put key val (xs ++ ys) ≡ put key val xs ++ ys
unfolding put
put-append_above key val [] ys h = put-above key val ys h
put-append_above key val ((x, v) ∷ xs) ys h = ground (arith, put-append_above key val xs ys)

pub erase-append_below :
    (key : Key) (xs ys : Entries)
    → Keys (λ x. x ≺ key) xs
    → erase key (xs ++ ys) ≡ xs ++ erase key ys
unfolding erase
erase-append_below key [] ys h = refl
erase-append_below key ((x, v) ∷ xs) ys h = ground (arith, erase-append_below key xs ys)

erase-above : (key : Key) (ys : Entries) → Keys (λ x. key ≺ x) ys → erase key ys ≡ ys
unfolding erase
erase-above key [] h = refl
erase-above key ((y, v) ∷ ys) h = ground (arith, gt_of_lt key y)

pub erase-append_above :
    (key : Key) (xs ys : Entries)
    → Keys (λ x. key ≺ x) ys
    → erase key (xs ++ ys) ≡ erase key xs ++ ys
unfolding erase
erase-append_above key [] ys h = erase-above key ys h
erase-append_above key ((x, v) ∷ xs) ys h = ground (arith, erase-append_above key xs ys)
