-- ===== src/Disk/Name.antt =====
-- src/fs/disk.rs: `get_name` and `set_name` of the records that hold a NUL-padded name.
use vexfs.Base.{
  ℕ, suc, ◌-◌, ◌≡◌, refl, List, [], ◌∷◌, ◌++◌, Bool, true, false, ◌&&◌, ◌||◌, arith, leb, ◌==◌,
  if◌then◌else◌, length, take, replicate, ◌<◌, length-append, length-take, length-replicate,
}

-- `name.iter().position(|&b| b == 0)` and the slice up to it.
pub until_nul : List ℕ → List ℕ
until_nul [] = []
until_nul (b ∷ bs) = elim (b == 0) [ true ↦ [] | false ↦ b ∷ until_nul bs ]

-- `c.is_ascii() && (c.is_alphanumeric() || "._- ".contains(c))`. A byte that is not ASCII becomes
-- some character that is not ASCII in `from_utf8_lossy`, which fails the test as the byte does.
unfoldable pub allowed : ℕ → Bool
allowed c =
    (leb b'0' c && leb c b'9')
    || (leb b'A' c && leb c b'Z')
    || (leb b'a' c && leb c b'z')
    || c == b'.'
    || c == b'_'
    || c == b'-'
    || c == b' '

unfoldable pub all_allowed : List ℕ → Bool
unfolding allowed
all_allowed [] = true
all_allowed (c ∷ cs) = allowed c && all_allowed cs

unfoldable pub get_name : List ℕ → List ℕ
unfolding until_nul all_allowed
get_name name = let s = until_nul name in if all_allowed s then s else []

-- The field of `size` bytes after `set_name`: at most `size - 1` bytes, then zeroes.
unfoldable pub set_name : ℕ → List ℕ → List ℕ
set_name size name = let bytes = take (size - 1) name in bytes ++ replicate (size - length bytes) 0

until_nul-append-zeroes :
    (bytes : List ℕ) (n : ℕ) → until_nul (bytes ++ replicate (suc n) 0) ≡ until_nul bytes
unfolding until_nul
until_nul-append-zeroes [] n = refl
until_nul-append-zeroes (b ∷ bs) n = ground (arith, until_nul-append-zeroes bs n)

until_nul-all_allowed : (s : List ℕ) → all_allowed s ≡ true → until_nul s ≡ s
unfolding until_nul all_allowed
until_nul-all_allowed [] h = refl
until_nul-all_allowed (b ∷ bs) h = ground (arith, until_nul-all_allowed bs)

length-set_name : (size : ℕ) (name : List ℕ) → 0 < size → length (set_name size name) ≡ size
unfolding set_name
length-set_name size name h = omega (
  arith,
  length-append (take (size - 1) name) (replicate (size - length (take (size - 1) name)) 0),
  length-take (size - 1) name,
  length-replicate {A = ℕ} (size - length (take (size - 1) name)) 0,
)

-- A name that was set is read back up to its first zero and cut to `size - 1` bytes, or as the
-- empty name if what is left has a byte that is not allowed. The field keeps its size.
pub get_name-set_name :
    (size : ℕ) (name : List ℕ)
    → 0 < size
    → (length (set_name size name) ≡ size)
      × (get_name (set_name size name)
          ≡ (let s = until_nul (take (size - 1) name) in if all_allowed s then s else []))
unfolding get_name set_name
get_name-set_name size name h = (length-set_name size name h, rw rest refl)
  where
    cut : List ℕ
    cut = take (size - 1) name

    pad : size - length cut ≡ suc (size - length cut - 1)
    pad = omega (arith, length-take (size - 1) name)

    rest : until_nul (cut ++ replicate (size - length cut) 0) ≡ until_nul cut
    rest = rw pad (until_nul-append-zeroes cut (size - length cut - 1))
