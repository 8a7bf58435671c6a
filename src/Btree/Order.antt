-- ===== src/Btree/Order.antt =====
-- src/fs/btree.rs: the composite key of a directory entry, and its order.
use Prim.Native.Nat.{compare, Ordering}
use Prim.Native.Nat.Ordering.{lt, eq, gt}
use vexfs.Base.{ℕ, ◌≡◌, refl, List, [], ◌∷◌, Bool, true, false, arith}

-- A name is its UTF-8 bytes: `String` compares by them.
pub record Key : Type 0 where
  pub parent_ino : ℕ
  pub name : List ℕ

-- `Ordering::then_with`.
abbrev pub then_with : Ordering → Ordering → Ordering
then_with eq second = second
then_with lt second = lt
then_with gt second = gt

unfoldable pub name_cmp : List ℕ → List ℕ → Ordering
name_cmp [] [] = eq
name_cmp [] (b ∷ bs) = lt
name_cmp (a ∷ as') [] = gt
name_cmp (a ∷ as') (b ∷ bs) = then_with (compare a b) (name_cmp as' bs)

unfoldable pub key_cmp : Key → Key → Ordering
unfolding name_cmp
key_cmp a b = then_with (compare a.parent_ino b.parent_ino) (name_cmp a.name b.name)

-- The operators `<`, `<=` and `==` on keys.
abbrev pub key_lt : Key → Key → Bool
key_lt a b = elim (key_cmp a b) [ lt ↦ true | _ ↦ false ]

abbrev pub key_le : Key → Key → Bool
key_le a b = elim (key_cmp a b) [ gt ↦ false | _ ↦ true ]

abbrev pub key_eq : Key → Key → Bool
key_eq a b = elim (key_cmp a b) [ eq ↦ true | _ ↦ false ]

infix 50 ◌≺◌ ◌≼◌
abbrev pub ◌≺◌ : Key → Key → Type 0
a ≺ b = key_lt a b ≡ true

abbrev pub ◌≼◌ : Key → Key → Type 0
a ≼ b = key_le a b ≡ true

-- The sentinels of a directory's range: the empty name, and U+10FFFF in UTF-8.
unfoldable pub dir_start : ℕ → Key
dir_start parent_ino = record { parent_ino = parent_ino; name = [] }

unfoldable pub dir_end : ℕ → Key
dir_end parent_ino = record { parent_ino = parent_ino; name = 0xF4 ∷ 0x8F ∷ 0xBF ∷ 0xBF ∷ [] }

name_cmp_refl : (a : List ℕ) → name_cmp a a ≡ eq
unfolding name_cmp
name_cmp_refl [] = refl
name_cmp_refl (a ∷ as') = ground (arith, name_cmp_refl as')

eq_of_name_cmp : (a b : List ℕ) → name_cmp a b ≡ eq → a ≡ b
unfolding name_cmp
eq_of_name_cmp [] [] h = refl
eq_of_name_cmp [] (b ∷ bs) h = cc
eq_of_name_cmp (a ∷ as') [] h = cc
eq_of_name_cmp (a ∷ as') (b ∷ bs) h = ground (arith, eq_of_name_cmp as' bs)

name_cmp_flip : (a b : List ℕ) → (name_cmp a b ≡ gt) → name_cmp b a ≡ lt
unfolding name_cmp
name_cmp_flip [] [] h = cc
name_cmp_flip [] (b ∷ bs) h = cc
name_cmp_flip (a ∷ as') [] h = refl
name_cmp_flip (a ∷ as') (b ∷ bs) h = ground (arith, name_cmp_flip as' bs)

name_cmp_flip_lt : (a b : List ℕ) → (name_cmp a b ≡ lt) → name_cmp b a ≡ gt
unfolding name_cmp
name_cmp_flip_lt [] [] h = cc
name_cmp_flip_lt [] (b ∷ bs) h = refl
name_cmp_flip_lt (a ∷ as') [] h = cc
name_cmp_flip_lt (a ∷ as') (b ∷ bs) h = ground (arith, name_cmp_flip_lt as' bs)

name_lt_trans : (a b c : List ℕ) → name_cmp a b ≡ lt → name_cmp b c ≡ lt → name_cmp a c ≡ lt
unfolding name_cmp
name_lt_trans [] [] c h k = cc
name_lt_trans [] (b ∷ bs) [] h k = cc
name_lt_trans [] (b ∷ bs) (c ∷ cs) h k = refl
name_lt_trans (a ∷ as') [] c h k = cc
name_lt_trans (a ∷ as') (b ∷ bs) [] h k = cc
name_lt_trans (a ∷ as') (b ∷ bs) (c ∷ cs) h k = ground (arith, name_lt_trans as' bs cs)

pub key_cmp_refl : (a : Key) → key_cmp a a ≡ eq
unfolding key_cmp
key_cmp_refl a = ground (arith, name_cmp_refl a.name)

pub eq_of_key_cmp : (a b : Key) → key_cmp a b ≡ eq → a ≡ b
unfolding key_cmp
eq_of_key_cmp a b h = ground (arith, eq_of_name_cmp a.name b.name)

pub lt_of_gt : (a b : Key) → key_cmp a b ≡ gt → key_cmp b a ≡ lt
unfolding key_cmp
lt_of_gt a b h = ground (arith, name_cmp_flip a.name b.name)

pub gt_of_lt : (a b : Key) → key_cmp a b ≡ lt → key_cmp b a ≡ gt
unfolding key_cmp
gt_of_lt a b h = ground (arith, name_cmp_flip_lt a.name b.name)

pub key_lt_trans : (a b c : Key) → key_cmp a b ≡ lt → key_cmp b c ≡ lt → key_cmp a c ≡ lt
unfolding key_cmp
key_lt_trans a b c h k = ground (arith, name_lt_trans a.name b.name c.name)

pub ≺_trans : (a b c : Key) → a ≺ b → b ≺ c → a ≺ c
≺_trans a b c h k = ground (arith, key_lt_trans a b c)

pub ≼-≺ : (a b c : Key) → a ≼ b → b ≺ c → a ≺ c
≼-≺ a b c h k = ground (arith, key_lt_trans a b c, eq_of_key_cmp a b)

pub ≺-≼ : (a b c : Key) → a ≺ b → b ≼ c → a ≺ c
≺-≼ a b c h k = ground (arith, key_lt_trans a b c, eq_of_key_cmp b c)

pub ≺-to-≼ : (a b : Key) → a ≺ b → a ≼ b
≺-to-≼ a b h = ground arith

pub ≼_trans : (a b c : Key) → a ≼ b → b ≼ c → a ≼ c
≼_trans a b c h k = ground (arith, key_lt_trans a b c, eq_of_key_cmp a b, eq_of_key_cmp b c)
