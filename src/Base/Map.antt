-- ===== src/Base/Map.antt =====
-- A hash map or hash set with `u64` keys, as a list: the program's results that are modelled do not
-- depend on the order of iteration.
use Prim.Native.Nat.{ℕ, ◌+◌, ◌≤◌, ◌<◌}
use mathlib.Core.Path.{◌≡◌, refl, ◌∙◌}
use mathlib.Core.Logic.{◌≢◌}
use mathlib.Core.Bool.{Bool, true, false, not, ◌&&◌, ◌||◌}
use mathlib.Core.Option.{Option, none, some}
use mathlib.Core.List.{List, [], ◌∷◌, ◌++◌}
use native.Mathlib.Omega.{arith}
use vexfs.Base.Tests.{◌==◌, if◌then◌else◌}
use vexfs.Base.Lists.{length}

-- `set.contains(&k)`.
unfoldable pub member : ℕ → List ℕ → Bool
member k [] = false
member k (x ∷ xs) = x == k || member k xs

-- `set.remove(&k)`.
unfoldable pub without : ℕ → List ℕ → List ℕ
without k [] = []
without k (x ∷ xs) = let rest = without k xs in if x == k then rest else x ∷ rest

pub member-append : (k : ℕ) (xs ys : List ℕ) → member k (xs ++ ys) ≡ (member k xs || member k ys)
unfolding member
member-append k [] ys = refl
member-append k (x ∷ xs) ys = ground (arith, member-append k xs ys)

pub member-without :
    (k j : ℕ) (xs : List ℕ) → member j (without k xs) ≡ (not (k == j) && member j xs)
unfolding member without
member-without k j [] = ground arith
member-without k j (x ∷ xs) = ground (arith, member-without k j xs)

pub length-without-le : (k : ℕ) (xs : List ℕ) → length (without k xs) ≤ length xs
unfolding without
length-without-le k [] = omega arith
length-without-le k (x ∷ xs) = ground (arith, length-without-le k xs)

pub length-without-lt :
    (k : ℕ) (xs : List ℕ) → member k xs ≡ true → length (without k xs) < length xs
unfolding member without
length-without-lt k [] h = absurd (ground arith)
length-without-lt k (x ∷ xs) h = ground (arith, length-without-lt k xs, length-without-le k xs)

module _ {ℓ} {V : Type ℓ} where
  unfoldable pub lookup : ℕ → List (ℕ × V) → Option V
  lookup key [] = none
  lookup key ((j, value) ∷ pairs) = if j == key then some value else lookup key pairs

  unfoldable pub insert : ℕ → V → List (ℕ × V) → List (ℕ × V)
  insert key value [] = (key, value) ∷ []
  insert key value ((j, w) ∷ pairs) =
      if j == key then (key, value) ∷ pairs else (j, w) ∷ insert key value pairs

  unfoldable pub remove : ℕ → List (ℕ × V) → List (ℕ × V)
  remove key [] = []
  remove key ((j, w) ∷ pairs) =
      let rest = remove key pairs in if j == key then pairs else (j, w) ∷ rest

  -- The keys of a map are distinct.
  abbrev pub Distinct : List (ℕ × V) → Type ℓ
  Distinct [] = Unit {ℓ}
  Distinct ((j, w) ∷ pairs) = (lookup j pairs ≡ none) × Distinct pairs

  pub lookup-insert :
      (key j : ℕ) (value : V) (pairs : List (ℕ × V))
      → lookup j (insert key value pairs) ≡ (if key == j then some value else lookup j pairs)
  unfolding lookup insert
  lookup-insert key j value [] = refl
  lookup-insert key j value ((i, w) ∷ pairs) = ground (arith, lookup-insert key j value pairs)

  pub lookup-remove_ne :
      (key j : ℕ) (pairs : List (ℕ × V)) → key ≢ j → lookup j (remove key pairs) ≡ lookup j pairs
  unfolding lookup remove
  lookup-remove_ne key j [] h = refl
  lookup-remove_ne key j ((i, w) ∷ pairs) h = ground (arith, lookup-remove_ne key j pairs)

  pub lookup-remove_self :
      (key : ℕ) (pairs : List (ℕ × V)) → Distinct pairs → lookup key (remove key pairs) ≡ none
  unfolding lookup remove
  lookup-remove_self key [] d = refl
  lookup-remove_self key ((i, w) ∷ pairs) d = ground (arith, lookup-remove_self key pairs d.1)

  pub Distinct-insert :
      (key : ℕ) (value : V) (pairs : List (ℕ × V))
      → Distinct pairs
      → Distinct (insert key value pairs)
  unfolding lookup insert
  Distinct-insert key value [] d = (refl, d)
  Distinct-insert key value ((i, w) ∷ pairs) d =
      ground (arith, Distinct-insert key value pairs d.1, lookup-insert key i value pairs)

  Distinct-if :
      (b : Bool) (pairs n : List (ℕ × V))
      → Distinct pairs
      → (b ≡ false → Distinct n)
      → Distinct (if b then pairs else n)
  Distinct-if true pairs n d e = d
  Distinct-if false pairs n d e = e refl

  pub Distinct-remove :
      (key : ℕ) (pairs : List (ℕ × V)) → Distinct pairs → Distinct (remove key pairs)
  unfolding lookup remove
  Distinct-remove key [] d = d
  Distinct-remove key ((i, w) ∷ pairs) d =
      Distinct-if (i == key) pairs ((i, w) ∷ remove key pairs) d.1
        λ other. (lookup-remove_ne key i pairs (ground arith) ∙ d.0, Distinct-remove key pairs d.1)

  -- The sum of a measure over the values.
  unfoldable pub total : (V → ℕ) → List (ℕ × V) → ℕ
  total f [] = 0
  total f ((j, w) ∷ pairs) = f w + total f pairs

  pub total-remove :
      (f : V → ℕ) (key : ℕ) (value : V) (pairs : List (ℕ × V))
      → lookup key pairs ≡ some value
      → total f (remove key pairs) + f value ≡ total f pairs
  unfolding lookup remove total
  total-remove f key value [] h = absurd (ground arith)
  total-remove f key value ((i, w) ∷ pairs) h = ground (arith, total-remove f key value pairs)

  pub total-insert_new :
      (f : V → ℕ) (key : ℕ) (value : V) (pairs : List (ℕ × V))
      → lookup key pairs ≡ none
      → total f (insert key value pairs) ≡ total f pairs + f value
  unfolding lookup insert total
  total-insert_new f key value [] h = omega arith
  total-insert_new f key value ((i, w) ∷ pairs) h =
      ground (arith, total-insert_new f key value pairs)

  pub total-insert_old :
      (f : V → ℕ) (key : ℕ) (value w : V) (pairs : List (ℕ × V))
      → lookup key pairs ≡ some w
      → total f (insert key value pairs) + f w ≡ total f pairs + f value
  unfolding lookup insert total
  total-insert_old f key value w [] h = absurd (ground arith)
  total-insert_old f key value w ((i, u) ∷ pairs) h =
      ground (arith, total-insert_old f key value w pairs)
