-- ===== src/Btree/Vec.antt =====
-- The methods of the standard library's `Vec` that src/fs/btree.rs calls; `none` is a panic.
use mathlib.Core.Option
use mathlib.Core.Path.{subst}
use vexfs.Base.{
  ℕ, zero, suc, ◌≤◌, ◌≡◌, refl, ap, List, [], ◌∷◌, ◌++◌, Option, none, some, Bool, if◌then◌else◌,
  length, arith, Option-cases, inl, inr, All, get_elem?,
}

-- `slice.partition_point`, on a slice where the elements that satisfy the test stand first.
unfoldable pub partition_point {ℓ} : {A : Type ℓ} → (A → Bool) → List A → ℕ
partition_point test [] = 0
partition_point test (x ∷ xs) = if test x then suc (partition_point test xs) else 0

module _ {ℓ} {A : Type ℓ} where
  -- `vec.insert(pos, x)`.
  unfoldable pub insert_at : ℕ → A → List A → Option (List A)
  insert_at zero x xs = some (x ∷ xs)
  insert_at (suc pos) x [] = none
  insert_at (suc pos) x (y ∷ ys) = Option.map (◌∷◌ y) (insert_at pos x ys)

  -- `vec[pos] = x`.
  unfoldable pub replace_at : ℕ → A → List A → Option (List A)
  replace_at pos x [] = none
  replace_at zero x (y ∷ ys) = some (x ∷ ys)
  replace_at (suc pos) x (y ∷ ys) = Option.map (◌∷◌ y) (replace_at pos x ys)

  -- `vec.remove(pos)`: the element and the rest.
  unfoldable pub remove_index : ℕ → List A → Option (A × List A)
  remove_index pos [] = none
  remove_index zero (y ∷ ys) = some (y, ys)
  remove_index (suc pos) (y ∷ ys) = Option.map (λ r. (r.0, y ∷ r.1)) (remove_index pos ys)

  -- `vec.split_off(at)`: what stays, and what is split off.
  unfoldable pub split_off : ℕ → List A → Option (List A × List A)
  split_off zero xs = some ([], xs)
  split_off (suc at_) [] = none
  split_off (suc at_) (x ∷ xs) = Option.map (λ r. (x ∷ r.0, r.1)) (split_off at_ xs)

  -- `vec.pop()`, its result dropped.
  unfoldable pub pop : List A → List A
  pop [] = []
  pop (x ∷ []) = []
  pop (x ∷ (y ∷ ys)) = x ∷ pop (y ∷ ys)

  pub split_off-append : (xs ys : List A) → split_off (length xs) (xs ++ ys) ≡ some (xs, ys)
  unfolding split_off
  split_off-append [] ys = refl
  split_off-append (x ∷ xs) ys = rw (split_off-append xs ys)

  pub pop-append : (xs : List A) (x : A) → pop (xs ++ x ∷ []) ≡ xs
  unfolding pop
  pop-append [] x = refl
  pop-append (y ∷ []) x = refl
  pop-append (y ∷ (z ∷ zs)) x = ap (◌∷◌ y) (pop-append (z ∷ zs) x)

  -- A list that is long enough falls in two at a place.
  pub split_at :
      (n : ℕ) (xs : List A)
      → n ≤ length xs
      → (ys : List A) × (zs : List A) × (xs ≡ ys ++ zs) × (length ys ≡ n)
  split_at zero xs h = ([], xs, refl, refl)
  split_at (suc n) [] h = absurd (omega arith)
  split_at (suc n) (x ∷ xs) h =
      let (ys, zs, e, l) = split_at n xs (omega arith) in (x ∷ ys, zs, ap (◌∷◌ x) e, ap suc l)

  pub split_off_lem :
      (n : ℕ) (xs ys zs : List A) → xs ≡ ys ++ zs → length ys ≡ n → split_off n xs ≡ some (ys, zs)
  split_off_lem n xs ys zs e l = rw (e, ← l) (split_off-append ys zs)

  pub length-insert_at :
      (n : ℕ) (x : A) (xs ys : List A) → insert_at n x xs ≡ some ys → length ys ≡ suc (length xs)
  unfolding insert_at
  length-insert_at zero x xs ys e = ground arith
  length-insert_at (suc n) x [] ys e = cc
  length-insert_at (suc n) x (z ∷ zs) ys e = elim (Option-cases (insert_at n x zs)) [
    | inl no_room ↦ absurd (ground (arith, no_room))
    | inr (r, e') ↦ ground (arith, length-insert_at n x zs r e')
  ]

  pub All-insert_at :
      (P : A → Type 0) (n : ℕ) (x : A) (xs ys : List A)
      → P x
      → All P xs
      → insert_at n x xs ≡ some ys
      → All P ys
  unfolding insert_at
  All-insert_at P zero x xs ys p h e = subst (All P) {x = x ∷ xs} (ground arith) (p, h)
  All-insert_at P (suc n) x [] ys p h e = cc
  All-insert_at P (suc n) x (z ∷ zs) ys p h e = elim (Option-cases (insert_at n x zs)) [
    | inl no_room ↦ absurd (ground (arith, no_room))
    | inr (r, e') ↦
        subst (All P) {x = z ∷ r} (ground arith) (h.0, All-insert_at P n x zs r p h.1 e')
  ]

  pub All-split : (P : A → Type 0) (xs ys : List A) → All P (xs ++ ys) → All P xs × All P ys
  All-split P [] ys h = (tt, h)
  All-split P (x ∷ xs) ys h = let (a, b) = All-split P xs ys h.1 in ((h.0, a), b)

  pub All-imp : (P Q : A → Type 0) → ((x : A) → P x → Q x) → (xs : List A) → All P xs → All Q xs
  All-imp P Q f [] h = tt
  All-imp P Q f (x ∷ xs) h = (f x h.0, All-imp P Q f xs h.1)

  pub get_elem?-append :
      (xs : List A) (x : A) (ys : List A) → get_elem? (xs ++ x ∷ ys) (length xs) ≡ some x
  get_elem?-append [] x ys = refl
  get_elem?-append (z ∷ zs) x ys = get_elem?-append zs x ys
