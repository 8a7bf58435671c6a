-- ===== src/Base/Bytes.antt =====
-- src/fs/disk.rs: the little-endian bytes of a word, and slices of a byte array.
use Prim.Native.Nat.{ℕ, ◌+◌, ◌-◌, ◌*◌, ◌/◌, ◌%◌, ◌^◌, ◌<◌}
use mathlib.Core.Path.{◌≡◌}
use mathlib.Core.List.{List, [], ◌∷◌}
use native.Mathlib.Omega.{arith}
use vexfs.Base.Lists.{take, drop}

-- `v.to_le_bytes()` of a `u32`.
unfoldable pub u32_to_le : ℕ → List ℕ
u32_to_le v = v % 256 ∷ v / 2 ^ 8 % 256 ∷ v / 2 ^ 16 % 256 ∷ v / 2 ^ 24 % 256 ∷ []

-- `u32::from_le_bytes`; every caller passes four bytes.
unfoldable pub le_to_u32 : List ℕ → ℕ
le_to_u32 (a ∷ b ∷ c ∷ d ∷ []) = a + 2 ^ 8 * b + 2 ^ 16 * c + 2 ^ 24 * d
le_to_u32 _ = 0

-- `v.to_le_bytes()` of a `u64`.
unfoldable pub u64_to_le : ℕ → List ℕ
u64_to_le v =
    v % 256
    ∷ v / 2 ^ 8 % 256
    ∷ v / 2 ^ 16 % 256
    ∷ v / 2 ^ 24 % 256
    ∷ v / 2 ^ 32 % 256
    ∷ v / 2 ^ 40 % 256
    ∷ v / 2 ^ 48 % 256
    ∷ v / 2 ^ 56 % 256
    ∷ []

-- `u64::from_le_bytes`; every caller passes eight bytes.
unfoldable pub le_to_u64 : List ℕ → ℕ
le_to_u64 (a ∷ b ∷ c ∷ d ∷ e ∷ f ∷ g ∷ h ∷ []) =
    a + 2 ^ 8 * b + 2 ^ 16 * c + 2 ^ 24 * d + 2 ^ 32 * e + 2 ^ 40 * f + 2 ^ 48 * g + 2 ^ 56 * h
le_to_u64 _ = 0

-- `&b[lo..hi]`, inside the array.
abbrev pub slice : ℕ → ℕ → List ℕ → List ℕ
slice lo hi b = take (hi - lo) (drop lo b)

pub le_to_u32-u32_to_le : (v : ℕ) → v < 2 ^ 32 → le_to_u32 (u32_to_le v) ≡ v
unfolding le_to_u32 u32_to_le
le_to_u32-u32_to_le v h = omega arith

pub le_to_u64-u64_to_le : (v : ℕ) → v < 2 ^ 64 → le_to_u64 (u64_to_le v) ≡ v
unfolding le_to_u64 u64_to_le
le_to_u64-u64_to_le v h = omega arith
