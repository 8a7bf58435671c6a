-- ===== src/FreeList/Rebuild.antt =====
-- src/fs/free_list.rs: about `rebuild_from_inodes`, by the bytes that live data uses.
use vexfs.Base.{
  ℕ, suc, ◌+◌, ◌-◌, ◌≤◌, ◌<◌, ◌^◌, ◌≡◌, refl, ◌∙◌, List, [], ◌∷◌, Bool, true, false, not, ◌&&◌,
  ◌||◌, ltb, leb, if◌then◌else◌, All, length, Bool-cases, inl, inr, max, arith,
}
use vexfs.Base.Sort.{
  insert_by_key, sort_by_key, SortedFrom, sort_by_key-SortedFrom, length-sort_by_key,
}
use vexfs.FreeList.{
  FreeExtent, FreeList, new, free, rebuild_loop, rebuild_from_inodes, max_persisted_extents, end_of,
}
use vexfs.FreeList.Cover.{covers, Fits, covers-sort}
use vexfs.FreeList.Free.{IsValid, free-IsValid, covers-free, length-free-le}

-- An extent of live data: its end is at most the limit.
abbrev pub Ends : ℕ → FreeExtent → Type 0
Ends limit e = e.offset + e.length ≤ limit

below_sorted :
    (lo : ℕ) (es : List FreeExtent) (b : ℕ)
    → SortedFrom (λ e. e.offset) lo es
    → b < lo
    → covers es b ≡ false
below_sorted lo [] b s h = refl
below_sorted lo (e ∷ es) b s h = ground (arith, below_sorted e.offset es b)

-- The free list after one gap.
gap : ℕ → FreeList → FreeExtent → FreeList
gap cursor fl e = if ltb cursor e.offset then free fl cursor (e.offset - cursor) else fl

covers-gap :
    (cursor : ℕ) (fl : FreeList) (e : FreeExtent) (b : ℕ)
    → 0 < cursor
    → e.offset < 2 ^ 64
    → length fl < max_persisted_extents
    → All Fits fl
    → covers (gap cursor fl e) b ≡ (covers fl b || (leb cursor b && ltb b e.offset))
unfolding gap
covers-gap cursor fl e b pos fit room a = elim (Bool-cases (ltb cursor e.offset)) [
  | inl wide ↦ rw wide (
      covers-free fl cursor (e.offset - cursor) b (ground arith) (ground arith) room (ground arith)
        a
      ∙ ground arith)
  | inr shut ↦ rw shut (ground arith)
]

gap-IsValid :
    (cursor : ℕ) (fl : FreeList) (e : FreeExtent)
    → e.offset < 2 ^ 64
    → IsValid fl
    → IsValid (gap cursor fl e)
unfolding gap
gap-IsValid cursor fl e fit v = elim (Bool-cases (ltb cursor e.offset)) [
  | inl wide ↦ rw wide (free-IsValid fl cursor (e.offset - cursor) (ground arith) v)
  | inr shut ↦ rw shut v
]

length-gap-le :
    (cursor : ℕ) (fl : FreeList) (e : FreeExtent)
    → All Fits fl
    → 0 < cursor
    → e.offset < 2 ^ 64
    → length (gap cursor fl e) ≤ suc (length fl)
unfolding gap
length-gap-le cursor fl e a pos fit = ground (arith, length-free-le fl cursor (e.offset - cursor))

-- What the loop has done when it ends.
record Rebuilt (limit cursor : ℕ) (fl : FreeList) (es : List FreeExtent) : Type 0 where
  valid : IsValid (rebuild_loop cursor fl es).1
  bounded : length (rebuild_loop cursor fl es).1 ≤ length fl + length es
  lower : cursor ≤ (rebuild_loop cursor fl es).0
  upper : (rebuild_loop cursor fl es).0 ≤ limit
  passed : (b : ℕ) → covers es b ≡ true → b < (rebuild_loop cursor fl es).0
  same :
      (b : ℕ)
      → covers (rebuild_loop cursor fl es).1 b ≡ (
          covers fl b
          || ((leb cursor b && ltb b (rebuild_loop cursor fl es).0) && not (covers es b)))

rebuild_loop_step :
    (cursor : ℕ) (fl : FreeList) (e : FreeExtent) (es : List FreeExtent)
    → rebuild_loop cursor fl (e ∷ es) ≡ rebuild_loop (max (end_of e) cursor) (gap cursor fl e) es
unfolding rebuild_loop gap
rebuild_loop_step cursor fl e es = refl

module _ (limit : ℕ) (word : limit < 2 ^ 64) where
  Rebuilt-step :
      (cursor : ℕ) (fl : FreeList) (e : FreeExtent) (es : List FreeExtent)
      → 0 < cursor
      → Ends limit e
      → SortedFrom (λ e. e.offset) e.offset es
      → length fl < max_persisted_extents
      → IsValid fl
      → Rebuilt limit (max (end_of e) cursor) (gap cursor fl e) es
      → Rebuilt limit cursor fl (e ∷ es)
  Rebuilt-step cursor fl e es pos fit s room v r =
      let step = rebuild_loop_step cursor fl e es in
      record {
        valid = rw step r.valid;
        bounded =
            rw step (omega (arith, r.bounded, length-gap-le cursor fl e v.fits pos (omega arith)));
        lower = rw step (omega (arith, r.lower));
        upper = rw step r.upper;
        passed = λ b h. rw step (ground (arith, r.passed b, r.lower));
        same = λ b. rw step (
            r.same b
            ∙ ground (
              arith,
              covers-gap cursor fl e b pos (omega arith) room v.fits,
              below_sorted e.offset es b s,
              r.lower,
            ));
      }

  Rebuilt-loop :
      (lo cursor : ℕ) (fl : FreeList) (es : List FreeExtent)
      → 0 < cursor
      → cursor ≤ limit
      → All (Ends limit) es
      → SortedFrom (λ e. e.offset) lo es
      → length fl + length es ≤ max_persisted_extents
      → IsValid fl
      → Rebuilt limit cursor fl es
  unfolding rebuild_loop
  Rebuilt-loop lo cursor fl [] pos le a s room v = record {
    valid = v;
    bounded = omega arith;
    lower = omega arith;
    upper = le;
    passed = λ b h. absurd (cc);
    same = λ b. ground arith;
  }
  Rebuilt-loop lo cursor fl (e ∷ es) pos le a s room v =
      Rebuilt-step cursor fl e es pos a.0 s.1 (omega arith) v (
        Rebuilt-loop e.offset (max (end_of e) cursor) (gap cursor fl e) es (omega arith)
          (omega arith) a.1 s.1 (omega (arith, length-gap-le cursor fl e v.fits pos (omega arith)))
          (gap-IsValid cursor fl e (omega arith) v))

All-Ends-insert :
    (limit : ℕ) (x : FreeExtent) (es : List FreeExtent)
    → Ends limit x
    → All (Ends limit) es
    → All (Ends limit) (insert_by_key (λ e. e.offset) x es)
unfolding insert_by_key
All-Ends-insert limit x [] f a = (f, tt)
All-Ends-insert limit x (e ∷ es) f a = ground (arith, All-Ends-insert limit x es)

All-Ends-sort :
    (limit : ℕ) (es : List FreeExtent)
    → All (Ends limit) es
    → All (Ends limit) (sort_by_key (λ e. e.offset) es)
unfolding sort_by_key
All-Ends-sort limit [] a = tt
All-Ends-sort limit (e ∷ es) a =
    All-Ends-insert limit e (sort_by_key (λ e. e.offset) es) a.0 (All-Ends-sort limit es a.1)

new-IsValid : IsValid new
new-IsValid = record { fits = tt; bounded = omega arith; disjoint = λ b. omega arith }

-- The space after the last used extent.
finish : ℕ → FreeList → ℕ → FreeList
finish cursor fl disk = if ltb cursor disk then free fl cursor (disk - cursor) else fl

covers-finish :
    (cursor : ℕ) (fl : FreeList) (disk b : ℕ)
    → 0 < cursor
    → disk < 2 ^ 64
    → length fl < max_persisted_extents
    → IsValid fl
    → (covers (finish cursor fl disk) b ≡ (covers fl b || (leb cursor b && ltb b disk)))
      × IsValid (finish cursor fl disk)
unfolding finish
covers-finish cursor fl disk b pos word room v = elim (Bool-cases (ltb cursor disk)) [
  | inl more ↦ rw more (
    covers-free fl cursor (disk - cursor) b (ground arith) (ground arith) room (ground arith) v.fits
        ∙ ground arith,
    free-IsValid fl cursor (disk - cursor) (ground arith) v,
  )
  | inr full ↦ rw full (ground arith, v)
]

rebuild_eq :
    (e : FreeExtent) (es : List FreeExtent) (disk start : ℕ)
    → rebuild_from_inodes (e ∷ es) disk start
      ≡ finish
          (rebuild_loop start new (sort_by_key (λ u. u.offset) (e ∷ es))).0
          (rebuild_loop start new (sort_by_key (λ u. u.offset) (e ∷ es))).1
          disk
unfolding rebuild_from_inodes finish
rebuild_eq e es disk start = refl

live_bytes :
    (start cursor disk b : ℕ) (live : Bool)
    → start ≤ cursor
    → cursor ≤ disk
    → (live ≡ true → b < cursor)
    → ((false || ((leb start b && ltb b cursor) && not live)) || (leb cursor b && ltb b disk))
      ≡ ((leb start b && ltb b disk) && not live)
live_bytes start cursor disk b true h k passed = let below = passed refl in ground arith
live_bytes start cursor disk b false h k passed = ground arith

-- After a rebuild from fewer than 200 extents of live data, all inside the disk, a byte is free
-- exactly if it lies in the data region and no live extent holds it; and the list is valid.
pub covers-rebuild_from_inodes :
    (used : List FreeExtent) (disk_size data_start b : ℕ)
    → length used < max_persisted_extents
    → 0 < data_start
    → data_start ≤ disk_size
    → disk_size < 2 ^ 64
    → All (Ends disk_size) used
    → (covers (rebuild_from_inodes used disk_size data_start) b
        ≡ ((leb data_start b && ltb b disk_size) && not (covers used b)))
      × IsValid (rebuild_from_inodes used disk_size data_start)
unfolding rebuild_from_inodes
covers-rebuild_from_inodes [] disk start b few pos le word a = (
  ground arith,
  record { fits = (omega arith, tt); bounded = omega arith; disjoint = λ c. ground arith },
)
covers-rebuild_from_inodes (e ∷ es) disk start b few pos le word a =
    let used = sort_by_key (λ (u : FreeExtent). u.offset) (e ∷ es) in
    let r =
      Rebuilt-loop disk word 0 start new used pos le (All-Ends-sort disk (e ∷ es) a)
        (sort_by_key-SortedFrom (λ u. u.offset) (e ∷ es))
        (omega (arith, length-sort_by_key (λ (u : FreeExtent). u.offset) (e ∷ es))) new-IsValid in
    let f =
      covers-finish (rebuild_loop start new used).0 (rebuild_loop start new used).1 disk b
        (omega (arith, r.lower)) word
        (omega (arith, r.bounded, length-sort_by_key (λ (u : FreeExtent). u.offset) (e ∷ es)))
        r.valid in
    rw (rebuild_eq e es disk start) (
      f.0
          ∙ rw (r.same b, ← covers-sort (e ∷ es) b)
              (live_bytes start (rebuild_loop start new used).0 disk b (covers used b) r.lower
                r.upper (r.passed b)),
      f.1,
    )
