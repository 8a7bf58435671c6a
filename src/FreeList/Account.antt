-- ===== src/FreeList/Account.antt =====
-- src/fs/free_list.rs: about `alloc`: the fit, the bytes that leave the list, the invariant.
use vexfs.Base.{
  ◌^◌, ◌<◌, ℕ, suc, ◌+◌, ◌-◌, ◌≤◌, ◌≡◌, ◌⊎◌, inl, inr, List, [], ◌∷◌, ◌++◌, none, some, leb,
  add_u64, All, length, length-append, Bool-cases, arith,
}
use vexfs.FreeList.{FreeExtent, FreeList, keep_remainder, alloc, total_length, total_free_bytes}
use vexfs.FreeList.Cover.{owners, Fits, All-append}
use vexfs.FreeList.Free.{IsValid}
use vexfs.FreeList.Alloc.{IsBestFit, Claimed-alloc, hits, alloc_cases}

owners-append : (xs ys : List FreeExtent) (b : ℕ) → owners (xs ++ ys) b ≡ owners xs b + owners ys b
owners-append [] ys b = omega arith
owners-append (x ∷ xs) ys b = omega (arith, owners-append xs ys b)

total-append :
    (xs ys : List FreeExtent) → total_length (xs ++ ys) ≡ total_length xs + total_length ys
unfolding total_length
total-append [] ys = omega arith
total-append (x ∷ xs) ys = omega (arith, total-append xs ys)

-- An allocation succeeds exactly with a best fit: the extent at some index is large enough, none
-- that is large enough is smaller, and its first byte is the result. It fails exactly if every
-- extent is too small, and then it changes nothing.
pub alloc-IsBestFit :
    (fl : FreeList) (n : ℕ)
    → ((i : ℕ) × (e : FreeExtent) × ((alloc fl n).0 ≡ some e.offset) × IsBestFit n fl i e)
      ⊎ (((alloc fl n) ≡ (none, fl)) × All (λ f. f.length < n) fl)
alloc-IsBestFit fl n = elim (alloc_cases fl n) [
  | inl miss ↦ inr miss
  | inr (off, h) ↦
      let c = Claimed-alloc fl n off h in inl (c.index, c.extent, rw (← c.offset) h, c.best)
]

module _ (n : ℕ) (e : FreeExtent) (rest : List FreeExtent) (b : ℕ) (fit : Fits e)
    (large : n ≤ e.length) where
  owners-keep_remainder :
      (hits e.offset n b + owners (keep_remainder n e rest) b
        ≤ hits e.offset e.length b + owners rest b)
      × (hits e.offset e.length b + owners rest b
          ≤ hits e.offset (n + 511) b + owners (keep_remainder n e rest) b)
  owners-keep_remainder = ground (
    arith,
    owners-append rest (record { offset = add_u64 e.offset n; length = e.length - n } ∷ []) b,
  )

-- The bytes that `alloc` hands out leave the list, at most 511 bytes behind them are lost, and
-- every other byte keeps its number of owners.
pub owners-alloc :
    (fl : FreeList) (n off b : ℕ)
    → All Fits fl
    → (alloc fl n).0 ≡ some off
    → (hits off n b + owners (alloc fl n).1 b ≤ owners fl b)
      × (owners fl b ≤ hits off (n + 511) b + owners (alloc fl n).1 b)
owners-alloc fl n off b a h =
    let c = Claimed-alloc fl n off h in
    let f = c.removed.fits a in
    rw (c.left, c.offset, c.removed.owned b)
      (owners-keep_remainder n c.extent c.rest b f.0 c.best.enough)

total-keep_remainder :
    (n : ℕ) (e : FreeExtent) (rest : List FreeExtent)
    → n ≤ e.length
    → (total_length (keep_remainder n e rest) + n ≤ e.length + total_length rest)
      × (e.length + total_length rest ≤ total_length (keep_remainder n e rest) + n + 511)
unfolding total_length
total-keep_remainder n e rest h =
    ground (
      arith,
      total-append rest (record { offset = add_u64 e.offset n; length = e.length - n } ∷ []),
    )

total_length-alloc :
    (fl : FreeList) (n off : ℕ)
    → (alloc fl n).0 ≡ some off
    → (total_length (alloc fl n).1 + n ≤ total_length fl)
      × (total_length fl ≤ total_length (alloc fl n).1 + n + 511)
total_length-alloc fl n off h =
    let c = Claimed-alloc fl n off h in
    rw (c.left, c.removed.total) (total-keep_remainder n c.extent c.rest c.best.enough)

-- With a count of free bytes that fits a word: it falls by the size of the request, and by the
-- remainder that is dropped, which is below 512.
pub total_free_bytes-alloc :
    (fl : FreeList) (n off : ℕ)
    → total_length fl < 2 ^ 64
    → (alloc fl n).0 ≡ some off
    → (total_free_bytes (alloc fl n).1 + n ≤ total_free_bytes fl)
      × (total_free_bytes fl ≤ total_free_bytes (alloc fl n).1 + n + 511)
unfolding total_free_bytes
total_free_bytes-alloc fl n off word h =
    let (low, high) = total_length-alloc fl n off h in (omega arith, omega arith)

Fits-keep_remainder :
    (n : ℕ) (e : FreeExtent) (rest : List FreeExtent)
    → n ≤ e.length
    → Fits e
    → All Fits rest
    → All Fits (keep_remainder n e rest) × (length (keep_remainder n e rest) ≤ suc (length rest))
Fits-keep_remainder n e rest h f a = elim (Bool-cases (leb 512 (e.length - n))) [
  | inl large ↦ rw large (
    All-append rest _ a (omega arith, tt),
    omega (
      arith,
      length-append rest (record { offset = add_u64 e.offset n; length = e.length - n } ∷ []),
    ),
  )
  | inr small ↦ rw small (a, omega arith)
]

-- `alloc` keeps the invariant, whether it finds an extent or not.
pub alloc-IsValid : (fl : FreeList) (n : ℕ) → IsValid fl → IsValid (alloc fl n).1
alloc-IsValid fl n v = elim (alloc_cases fl n) [
  | inl (same, _) ↦ rw same v
  | inr (off, h) ↦
      let c = Claimed-alloc fl n off h in
      let f = c.removed.fits v.fits in
      let kept = Fits-keep_remainder n c.extent c.rest c.best.enough f.0 f.1 in
      record {
        fits = rw c.left kept.0;
        bounded = rw c.left (omega (arith, kept.1, c.removed.count, v.bounded));
        disjoint = λ b. omega (arith, (owners-alloc fl n off b v.fits h).0, v.disjoint b);
      }
]
