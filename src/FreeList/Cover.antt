-- ===== src/FreeList/Cover.antt =====
-- src/fs/free_list.rs: the bytes that a list of extents covers, under sorting and merging.
use vexfs.Base.{
  ℕ, suc, length, ◌∙◌, ◌+◌, ◌≤◌, ◌<◌, ◌^◌, ◌≡◌, refl, List, [], ◌∷◌, ◌++◌, Bool, true, false, ◌||◌,
  ◌&&◌, ltb, leb, if◌then◌else◌, All, Bool-cases, inl, inr, arith, max,
}
use vexfs.Base.Sort.{
  insert_by_key, sort_by_key, SortedFrom, sort_by_key-SortedFrom, length-sort_by_key,
}
use vexfs.FreeList.{FreeExtent, end_of, widen, merge_loop, merge_sorted, merge_adjacent}

-- The byte `b` lies in the range of `len` bytes from `offset`.
abbrev pub in_range : ℕ → ℕ → ℕ → Bool
in_range offset len b = leb offset b && ltb b (offset + len)

abbrev pub covers : List FreeExtent → ℕ → Bool
covers [] b = false
covers (e ∷ es) b = in_range e.offset e.length b || covers es b

-- How many extents hold the byte.
abbrev pub owners : List FreeExtent → ℕ → ℕ
owners [] b = 0
owners (e ∷ es) b = (if in_range e.offset e.length b then 1 else 0) + owners es b

-- An extent is behind byte 0, and its end fits a word, so no sum of the module wraps.
abbrev pub Fits : FreeExtent → Type 0
Fits e = (0 < e.offset) × (e.offset + e.length < 2 ^ 64)

-- Each extent begins behind the end of the one before it: none touch, none overlap.
abbrev pub SeparatedFrom : ℕ → List FreeExtent → Type 0
SeparatedFrom lo [] = Unit {0}
SeparatedFrom lo (e ∷ es) = (lo < e.offset) × SeparatedFrom (e.offset + e.length) es

abbrev by_offset : FreeExtent → ℕ
by_offset e = e.offset

covers-insert :
    (x : FreeExtent) (es : List FreeExtent) (b : ℕ)
    → covers (insert_by_key by_offset x es) b ≡ (in_range x.offset x.length b || covers es b)
unfolding insert_by_key
covers-insert x [] b = refl
covers-insert x (e ∷ es) b = ground (arith, covers-insert x es b)

pub covers-sort : (es : List FreeExtent) (b : ℕ) → covers (sort_by_key by_offset es) b ≡ covers es b
unfolding sort_by_key
covers-sort [] b = refl
covers-sort (e ∷ es) b =
    ground (arith, covers-insert e (sort_by_key by_offset es) b, covers-sort es b)

All-insert :
    (x : FreeExtent) (es : List FreeExtent)
    → Fits x
    → All Fits es
    → All Fits (insert_by_key by_offset x es)
unfolding insert_by_key
All-insert x [] f a = (f, tt)
All-insert x (e ∷ es) f a = ground (arith, All-insert x es)

pub All-sort : (es : List FreeExtent) → All Fits es → All Fits (sort_by_key by_offset es)
unfolding sort_by_key
All-sort [] a = tt
All-sort (e ∷ es) a = All-insert e (sort_by_key by_offset es) a.0 (All-sort es a.1)

pub covers-append :
    (xs ys : List FreeExtent) (b : ℕ) → covers (xs ++ ys) b ≡ (covers xs b || covers ys b)
covers-append [] ys b = refl
covers-append (x ∷ xs) ys b = ground (arith, covers-append xs ys b)

pub All-append : (xs ys : List FreeExtent) → All Fits xs → All Fits ys → All Fits (xs ++ ys)
All-append [] ys a c = c
All-append (x ∷ xs) ys a c = (a.0, All-append xs ys a.1 c)

-- `widen` joins two extents that touch.
widen_lem :
    (last e : FreeExtent)
    → Fits last
    → Fits e
    → last.offset ≤ e.offset
    → (widen last e).offset + (widen last e).length
      ≡ max (e.offset + e.length) (last.offset + last.length)
widen_lem last e f g h = omega arith

Fits-widen :
    (last e : FreeExtent) → Fits last → Fits e → last.offset ≤ e.offset → Fits (widen last e)
Fits-widen last e f g h = omega arith

SortedFrom-weaken :
    (lo hi : ℕ) (es : List FreeExtent)
    → lo ≤ hi
    → SortedFrom by_offset hi es
    → SortedFrom by_offset lo es
SortedFrom-weaken lo hi [] h s = tt
SortedFrom-weaken lo hi (e ∷ es) h s = (omega arith, s.1)

merge_loop_touching :
    (last e : FreeExtent) (es : List FreeExtent)
    → leb e.offset (end_of last) ≡ true
    → merge_loop last (e ∷ es) ≡ merge_loop (widen last e) es
unfolding merge_loop
merge_loop_touching last e es h = ground arith

merge_loop_apart :
    (last e : FreeExtent) (es : List FreeExtent)
    → leb e.offset (end_of last) ≡ false
    → merge_loop last (e ∷ es) ≡ last ∷ merge_loop e es
unfolding merge_loop
merge_loop_apart last e es h = ground arith

covers-merge_loop :
    (last : FreeExtent) (es : List FreeExtent) (b : ℕ)
    → Fits last
    → All Fits es
    → SortedFrom by_offset last.offset es
    → covers (merge_loop last es) b ≡ (in_range last.offset last.length b || covers es b)
unfolding merge_loop
covers-merge_loop last [] b f a s = refl
covers-merge_loop last (e ∷ es) b f a s = elim (Bool-cases (leb e.offset (end_of last))) [
  | inl touch ↦
      let ih =
        covers-merge_loop (widen last e) es b (Fits-widen last e f a.0 s.0) a.1
          (SortedFrom-weaken last.offset e.offset es s.0 s.1) in
      rw (merge_loop_touching last e es touch, ih) (ground (arith, widen_lem last e f a.0 s.0))
  | inr apart ↦
      rw (merge_loop_apart last e es apart) (ground (arith, covers-merge_loop e es b a.0 a.1 s.1))
]

SeparatedFrom-merge_loop :
    (lo : ℕ) (last : FreeExtent) (es : List FreeExtent)
    → lo < last.offset
    → Fits last
    → All Fits es
    → SortedFrom by_offset last.offset es
    → SeparatedFrom lo (merge_loop last es)
unfolding merge_loop
SeparatedFrom-merge_loop lo last [] h f a s = (h, tt)
SeparatedFrom-merge_loop lo last (e ∷ es) h f a s = elim (Bool-cases (leb e.offset (end_of last))) [
  | inl touch ↦ rw (merge_loop_touching last e es touch) (
      SeparatedFrom-merge_loop lo (widen last e) es h (Fits-widen last e f a.0 s.0) a.1
        (SortedFrom-weaken last.offset e.offset es s.0 s.1))
  | inr apart ↦
      rw (merge_loop_apart last e es apart)
        (h, SeparatedFrom-merge_loop (last.offset + last.length) e es (ground arith) a.0 a.1 s.1)
]

All-merge_loop :
    (last : FreeExtent) (es : List FreeExtent)
    → Fits last
    → All Fits es
    → SortedFrom by_offset last.offset es
    → All Fits (merge_loop last es)
unfolding merge_loop
All-merge_loop last [] f a s = (f, tt)
All-merge_loop last (e ∷ es) f a s = elim (Bool-cases (leb e.offset (end_of last))) [
  | inl touch ↦ rw (merge_loop_touching last e es touch) (
      All-merge_loop (widen last e) es (Fits-widen last e f a.0 s.0) a.1
        (SortedFrom-weaken last.offset e.offset es s.0 s.1))
  | inr apart ↦ rw (merge_loop_apart last e es apart) (f, All-merge_loop e es a.0 a.1 s.1)
]

length-merge_loop-le :
    (last : FreeExtent) (es : List FreeExtent) → length (merge_loop last es) ≤ suc (length es)
unfolding merge_loop
length-merge_loop-le last [] = omega arith
length-merge_loop-le last (e ∷ es) =
    ground (arith, length-merge_loop-le (widen last e) es, length-merge_loop-le e es)

-- `merge_adjacent` keeps what is covered, separates the extents and adds none.
pub record Merged (fl out : List FreeExtent) : Type 0 where
  pub fits : All Fits out
  pub separated : SeparatedFrom 0 out
  pub bounded : length out ≤ length fl
  pub same : (b : ℕ) → covers out b ≡ covers fl b

Merged-merge_sorted :
    (es : List FreeExtent) → All Fits es → SortedFrom by_offset 0 es → Merged es (merge_sorted es)
unfolding merge_sorted
Merged-merge_sorted [] a s = record {
  fits = tt;
  separated = tt;
  bounded = omega arith;
  same = λ b. refl;
}
Merged-merge_sorted (e ∷ es) a s = record {
  fits = All-merge_loop e es a.0 a.1 s.1;
  separated = SeparatedFrom-merge_loop 0 e es (omega arith) a.0 a.1 s.1;
  bounded = length-merge_loop-le e es;
  same = λ b. covers-merge_loop e es b a.0 a.1 s.1;
}

pub Merged-merge_adjacent : (fl : List FreeExtent) → All Fits fl → Merged fl (merge_adjacent fl)
unfolding merge_adjacent
Merged-merge_adjacent [] a = record {
  fits = a;
  separated = tt;
  bounded = omega arith;
  same = λ b. refl;
}
Merged-merge_adjacent (e ∷ []) a = record {
  fits = a;
  separated = (omega arith, tt);
  bounded = omega arith;
  same = λ b. refl;
}
Merged-merge_adjacent (e ∷ f ∷ es) a =
    let sorted = sort_by_key by_offset (e ∷ f ∷ es) in
    let m =
      Merged-merge_sorted sorted (All-sort (e ∷ f ∷ es) a)
        (sort_by_key-SortedFrom by_offset (e ∷ f ∷ es)) in
    rw two (record {
      fits = m.fits;
      separated = m.separated;
      bounded = omega (arith, m.bounded, length-sort_by_key by_offset (e ∷ f ∷ es));
      same = λ b. m.same b ∙ covers-sort (e ∷ f ∷ es) b;
    })
  where
    two : ltb (length (e ∷ f ∷ es)) 2 ≡ false
    two = ground arith

pub owners-zero :
    (lo : ℕ) (es : List FreeExtent) (b : ℕ) → SeparatedFrom lo es → b ≤ lo → owners es b ≡ 0
owners-zero lo [] b s h = refl
owners-zero lo (e ∷ es) b s h = ground (arith, owners-zero (e.offset + e.length) es b)

pub owners-le-one : (lo : ℕ) (es : List FreeExtent) (b : ℕ) → SeparatedFrom lo es → owners es b ≤ 1
owners-le-one lo [] b s = omega arith
owners-le-one lo (e ∷ es) b s =
    ground (arith, owners-zero (e.offset + e.length) es b, owners-le-one (e.offset + e.length) es b)
