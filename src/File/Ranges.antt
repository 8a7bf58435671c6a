-- ===== src/File/Ranges.antt =====
-- The image file: reads after writes, in the range that was written and beside it.
use vexfs.Base.{
  ℕ, zero, suc, ◌+◌, ◌-◌, ◌≤◌, ◌<◌, ◌≡◌, ◌⊎◌, refl, ap, ◌∙◌, List, [], ◌∷◌, length, get_or, arith,
}
use vexfs.File.{overwrite, bytes_at}

pub length-bytes_at : (at : ℕ → ℕ) (offset len : ℕ) → length (bytes_at at offset len) ≡ len
unfolding bytes_at
length-bytes_at at offset zero = refl
length-bytes_at at offset (suc len) = ap suc (length-bytes_at at (offset + 1) len)

-- A range depends only on the bytes in it.
pub bytes_at_cong :
    (f g : ℕ → ℕ) (offset len : ℕ)
    → ((i : ℕ) → offset ≤ i → i < offset + len → f i ≡ g i)
    → bytes_at f offset len ≡ bytes_at g offset len
unfolding bytes_at
bytes_at_cong f g offset zero h = refl
bytes_at_cong f g offset (suc len) h =
    let ih = bytes_at_cong f g (offset + 1) len (λ i lo hi. h i (omega arith) (omega arith)) in
    let here = h offset (omega arith) (omega arith) in cc

pub overwrite_inside :
    (at : ℕ → ℕ) (offset : ℕ) (bytes : List ℕ) (i : ℕ)
    → offset ≤ i
    → i < offset + length bytes
    → overwrite at offset bytes i ≡ get_or bytes (i - offset) 0
overwrite_inside at offset bytes i lo hi = ground arith

pub overwrite_outside :
    (at : ℕ → ℕ) (offset : ℕ) (bytes : List ℕ) (i : ℕ)
    → (i < offset) ⊎ (offset + length bytes ≤ i)
    → overwrite at offset bytes i ≡ at i
overwrite_outside at offset bytes i h = ground arith

-- A range beside the write is not changed.
pub bytes_at-overwrite_apart :
    (at : ℕ → ℕ) (offset : ℕ) (bytes : List ℕ) (lo len : ℕ)
    → (lo + len ≤ offset) ⊎ (offset + length bytes ≤ lo)
    → bytes_at (overwrite at offset bytes) lo len ≡ bytes_at at lo len
bytes_at-overwrite_apart at offset bytes lo len h =
    bytes_at_cong (overwrite at offset bytes) at lo len
      λ i a b. overwrite_outside at offset bytes i (ground arith)

bytes_at_of_list :
    (f : ℕ → ℕ) (offset : ℕ) (bytes : List ℕ)
    → ((i : ℕ) → i < length bytes → f (offset + i) ≡ get_or bytes i 0)
    → bytes_at f offset (length bytes) ≡ bytes
unfolding bytes_at
bytes_at_of_list f offset [] h = refl
bytes_at_of_list f offset (b ∷ bs) h =
    let step : (i : ℕ) → i < length bs → f (offset + 1 + i) ≡ get_or bs i 0 =
      λ i lt. ap f (omega arith) ∙ h (suc i) (omega arith) in
    let ih = bytes_at_of_list f (offset + 1) bs step in
    let here : f offset ≡ b = ap f (omega arith) ∙ h 0 (omega arith) in cc

-- What was written is read back.
bytes_at-overwrite_self :
    (at : ℕ → ℕ) (offset : ℕ) (bytes : List ℕ)
    → bytes_at (overwrite at offset bytes) offset (length bytes) ≡ bytes
bytes_at-overwrite_self at offset bytes =
    bytes_at_of_list (overwrite at offset bytes) offset bytes λ i lt.
      overwrite_inside at offset bytes (offset + i) (omega arith) (omega arith)
      ∙ ap (λ (k : ℕ). get_or bytes k 0) (omega arith)

pub bytes_at-overwrite :
    (at : ℕ → ℕ) (offset : ℕ) (bytes : List ℕ) (len : ℕ)
    → length bytes ≡ len
    → bytes_at (overwrite at offset bytes) offset len ≡ bytes
bytes_at-overwrite at offset bytes len e = rw (← e) (bytes_at-overwrite_self at offset bytes)
