-- ===== src/Base/Sort.antt =====
-- A stable sort by a numeric key, for the standard library's `sort_by_key`.
use Prim.Native.Nat.{ℕ, ◌≤◌, suc}
use mathlib.Core.Path.{◌≡◌, refl}
use mathlib.Core.List.{List, [], ◌∷◌}
use native.Mathlib.Omega.{arith}
use vexfs.Base.Tests.{leb, if◌then◌else◌}
use vexfs.Base.Lists.{length}

module _ {ℓ} {A : Type ℓ} (key : A → ℕ) where
  unfoldable pub insert_by_key : A → List A → List A
  insert_by_key x [] = x ∷ []
  insert_by_key x (y ∷ ys) = if leb (key x) (key y) then x ∷ (y ∷ ys) else y ∷ insert_by_key x ys

  unfoldable pub sort_by_key : List A → List A
  unfolding insert_by_key
  sort_by_key [] = []
  sort_by_key (x ∷ xs) = insert_by_key x (sort_by_key xs)

  -- The keys do not fall, and none is below `lo`.
  abbrev pub SortedFrom : ℕ → List A → Type 0
  SortedFrom lo [] = Unit {0}
  SortedFrom lo (x ∷ xs) = (lo ≤ key x) × SortedFrom (key x) xs

  insert_by_key-SortedFrom :
      (lo : ℕ) (x : A) (xs : List A)
      → lo ≤ key x
      → SortedFrom lo xs
      → SortedFrom lo (insert_by_key x xs)
  unfolding insert_by_key
  insert_by_key-SortedFrom lo x [] h s = (h, tt)
  insert_by_key-SortedFrom lo x (y ∷ ys) h s = ground (arith, insert_by_key-SortedFrom (key y) x ys)

  pub sort_by_key-SortedFrom : (xs : List A) → SortedFrom 0 (sort_by_key xs)
  unfolding sort_by_key
  sort_by_key-SortedFrom [] = tt
  sort_by_key-SortedFrom (x ∷ xs) =
      insert_by_key-SortedFrom 0 x (sort_by_key xs) (omega arith) (sort_by_key-SortedFrom xs)

  length-insert_by_key : (x : A) (xs : List A) → length (insert_by_key x xs) ≡ suc (length xs)
  unfolding insert_by_key
  length-insert_by_key x [] = refl
  length-insert_by_key x (y ∷ ys) = ground (arith, length-insert_by_key x ys)

  pub length-sort_by_key : (xs : List A) → length (sort_by_key xs) ≡ length xs
  unfolding sort_by_key
  length-sort_by_key [] = refl
  length-sort_by_key (x ∷ xs) =
      omega (arith, length-insert_by_key x (sort_by_key xs), length-sort_by_key xs)
