-- ===== src/Fuse/Contents.antt =====
-- src/fuse/mod.rs: about the bytes of a file, after a write.
use vexfs.Base.{
  ℕ, ◌+◌, ◌-◌, ◌≤◌, ◌≡◌, ◌∙◌, refl, List, [], ◌∷◌, ◌++◌, ltb, length, take, drop, replicate, min,
  zero, suc, ap, length-append, length-take, length-drop, length-replicate, take-append,
  drop-append, arith, Bool-cases, inl, inr,
}
use vexfs.Fuse.Data.{slice_bounds, sliced, grown, resize, spliced}

drop-min : (n : ℕ) (xs : List ℕ) → drop (min n (length xs)) xs ≡ drop n xs
drop-min zero xs = let e : min 0 (length xs) ≡ 0 = omega arith in rw e refl
drop-min (suc n) [] = let e : min (suc n) 0 ≡ 0 = omega arith in rw e refl
drop-min (suc n) (x ∷ xs) =
    let e : min (suc n) (suc (length xs)) ≡ suc (min n (length xs)) = omega arith in
    rw e (drop-min n xs)

take-min : (n : ℕ) (xs : List ℕ) → take (min n (length xs)) xs ≡ take n xs
take-min zero xs = let e : min 0 (length xs) ≡ 0 = omega arith in rw e refl
take-min (suc n) [] = let e : min (suc n) 0 ≡ 0 = omega arith in rw e refl
take-min (suc n) (x ∷ xs) =
    let e : min (suc n) (suc (length xs)) ≡ suc (min n (length xs)) = omega arith in
    rw e (ap (◌∷◌ x) (take-min n xs))

-- A slice within the bounds is the bytes from the offset on, as many as there are.
pub sliced-drop :
    (offset size : ℕ) (bytes : List ℕ) → sliced offset size bytes ≡ take size (drop offset bytes)
unfolding sliced slice_bounds
sliced-drop offset size bytes =
    let L = length bytes in
    let e : min (min offset L + size) L - min offset L ≡ min size (length (drop offset bytes)) =
      omega (arith, length-drop offset bytes) in
    rw (drop-min offset bytes, e) (take-min size (drop offset bytes))

grown-length : (offset : ℕ) (bytes old : List ℕ) → offset ≤ length (grown offset bytes old)
unfolding grown resize
grown-length offset bytes old = ground (
  arith,
  length-append (take (offset + length bytes) old)
      (replicate (offset + length bytes - length old) 0),
  length-take (offset + length bytes) old,
  length-replicate {A = ℕ} (offset + length bytes - length old) 0,
)

-- What was written is there.
pub sliced-spliced :
    (offset : ℕ) (bytes old : List ℕ)
    → sliced offset (length bytes) (spliced offset bytes old) ≡ bytes
unfolding spliced
sliced-spliced offset bytes old =
    let g = grown offset bytes old in
    let front : length (take offset g) ≡ offset =
      length-take offset g ∙ omega (arith, grown-length offset bytes old) in
    sliced-drop offset (length bytes) (spliced offset bytes old)
    ∙ (ap (take (length bytes))
          (drop-append (take offset g) (bytes ++ drop (offset + length bytes) g) offset front)
        ∙ take-append bytes (drop (offset + length bytes) g) (length bytes) refl)

take-nil : (n : ℕ) → take {A = ℕ} n [] ≡ []
take-nil zero = refl
take-nil (suc n) = refl

take-replicate : (n m : ℕ) → n ≤ m → take n (replicate m 0) ≡ replicate {A = ℕ} n 0
take-replicate zero m h = refl
take-replicate (suc n) zero h = absurd (omega arith)
take-replicate (suc n) (suc m) h = ap (◌∷◌ 0) (take-replicate n m (omega arith))

resize-nil : (n : ℕ) → resize n [] ≡ replicate n 0
unfolding resize
resize-nil n = let e : n - 0 ≡ n = omega arith in rw (take-nil n, e) refl

grown-nil :
    (offset : ℕ) (bytes : List ℕ) → grown offset bytes [] ≡ replicate (offset + length bytes) 0
unfolding grown
grown-nil offset bytes = elim (Bool-cases (ltb 0 (offset + length bytes))) [
  | inl some_room ↦ rw some_room (resize-nil (offset + length bytes))
  | inr no_room ↦
      let e : offset + length bytes ≡ 0 = ground (arith, no_room) in rw (no_room, e) refl
]

-- A write to no bytes has zeroes before it.
pub sliced-front :
    (offset : ℕ) (bytes : List ℕ) → sliced 0 offset (spliced offset bytes []) ≡ replicate offset 0
unfolding spliced
sliced-front offset bytes =
    let g = grown offset bytes [] in
    let front : length (take offset g) ≡ offset =
      length-take offset g ∙ omega (arith, grown-length offset bytes []) in
    sliced-drop 0 offset (spliced offset bytes [])
    ∙ (take-append (take offset g) (bytes ++ drop (offset + length bytes) g) offset front
        ∙ rw (grown-nil offset bytes) (take-replicate offset (offset + length bytes) (omega arith)))
