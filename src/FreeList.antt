-- ===== src/FreeList.antt =====
-- src/fs/free_list.rs: the extents of the image that can be used again.
pub mod Cover
pub mod Free
pub mod Alloc
pub mod Account
pub mod Rebuild
pub mod Persist
pub mod Saved
mod Runs
use vexfs.Base.{
  ℕ, zero, suc, ◌+◌, ◌-◌, ◌%◌, ◌^◌, List, [], ◌∷◌, ◌++◌, Option, none, some, true, false, ◌||◌, ltb,
  leb, ◌==◌, if◌then◌else◌, length, add_u64, sub_u64, max,
}
use vexfs.Base.Sort.{sort_by_key}

pub record FreeExtent : Type 0 where
  pub offset : ℕ
  pub length : ℕ

-- `FreeList::extents`.
abbrev pub FreeList : Type 0
FreeList = List FreeExtent

abbrev pub max_persisted_extents : ℕ
max_persisted_extents = 200

abbrev pub new : FreeList
new = []

-- `e.offset + e.length`.
abbrev pub end_of : FreeExtent → ℕ
end_of e = add_u64 e.offset e.length

-- `last` after an extent that touches it: `new_end - last.offset` is the new length.
abbrev pub widen : FreeExtent → FreeExtent → FreeExtent
widen last e = record last { length = sub_u64 (max (end_of e) (end_of last)) last.offset }

-- The loop of `merge_adjacent`: `last` is `merged.last_mut()`, and what stands before it in
-- `merged` has been given out. The list is the rest of the sorted extents.
pub merge_loop : FreeExtent → List FreeExtent → List FreeExtent
merge_loop last [] = last ∷ []
merge_loop last (e ∷ es) = elim (leb e.offset (end_of last)) [
  | true ↦ merge_loop (widen last e) es
  | false ↦ last ∷ merge_loop e es
]

pub merge_sorted : List FreeExtent → List FreeExtent
unfolding merge_loop
merge_sorted [] = []
merge_sorted (e ∷ es) = merge_loop e es

pub merge_adjacent : FreeList → FreeList
unfolding merge_sorted sort_by_key
merge_adjacent fl = if ltb (length fl) 2 then fl else merge_sorted (sort_by_key (λ e. e.offset) fl)

unfoldable pub free : FreeList → ℕ → ℕ → FreeList
unfolding merge_adjacent
free fl offset len =
    if offset == 0 || len == 0
    then fl
    else if leb max_persisted_extents (length fl)
    then fl
    else merge_adjacent (fl ++ (record { offset = offset; length = len } ∷ []))

-- One step of `filter(..).min_by_key(..)`, which keeps the first of equal keys: the index of the
-- best extent so far, and its length.
abbrev pub better : ℕ → ℕ → FreeExtent → Option (ℕ × ℕ) → Option (ℕ × ℕ)
better min_size i e none = if leb min_size e.length then some (i, e.length) else none
better min_size i e (some (j, best)) =
    if leb min_size e.length
    then (if ltb e.length best then some (i, e.length) else some (j, best))
    else some (j, best)

pub best_fit : ℕ → ℕ → Option (ℕ × ℕ) → List FreeExtent → Option (ℕ × ℕ)
best_fit min_size i best [] = best
best_fit min_size i best (e ∷ es) = best_fit min_size (i + 1) (better min_size i e best) es

-- `extents.remove(idx)`: the element, and the vector without it; `none` is a panic.
pub remove_at : ℕ → List FreeExtent → Option (FreeExtent × List FreeExtent)
remove_at i [] = none
remove_at zero (e ∷ es) = some (e, es)
remove_at (suc i) (e ∷ es) = elim (remove_at i es) [
  | none ↦ none
  | some (found, rest) ↦ some (found, e ∷ rest)
]

-- The part of a claimed extent behind the first `min_size` bytes, if it is worth keeping.
abbrev pub keep_remainder : ℕ → FreeExtent → List FreeExtent → List FreeExtent
keep_remainder min_size extent rest =
    let remainder = extent.length - min_size in
    if leb 512 remainder
    then rest ++ (record { offset = add_u64 extent.offset min_size; length = remainder } ∷ [])
    else rest

-- The branch for an index out of range is not reached: `Claimed-alloc` of FreeList/Alloc.
abbrev pub claim : ℕ → FreeList → Option (FreeExtent × List FreeExtent) → Option ℕ × FreeList
claim min_size fl none = (none, fl)
claim min_size fl (some (extent, rest)) = (some extent.offset, keep_remainder min_size extent rest)

unfoldable pub alloc : FreeList → ℕ → Option ℕ × FreeList
unfolding best_fit remove_at
alloc fl min_size = elim (best_fit min_size 0 none fl) [
  | none ↦ (none, fl)
  | some (idx, _) ↦ claim min_size fl (remove_at idx fl)
]

unfoldable pub total_length : FreeList → ℕ
total_length [] = 0
total_length (e ∷ es) = e.length + total_length es

-- The sum of `u64`, with the wrap-around of a release build.
unfoldable pub total_free_bytes : FreeList → ℕ
total_free_bytes fl = total_length fl % 2 ^ 64

-- The loop of `rebuild_from_inodes` over the sorted extents: the cursor and the list at the end.
pub rebuild_loop : ℕ → FreeList → List FreeExtent → ℕ × FreeList
unfolding free
rebuild_loop cursor fl [] = (cursor, fl)
rebuild_loop cursor fl (e ∷ es) =
    rebuild_loop (max (end_of e) cursor)
      (if ltb cursor e.offset then free fl cursor (e.offset - cursor) else fl) es

-- A pair (offset, length) of the argument is an extent here.
unfoldable pub rebuild_from_inodes : List FreeExtent → ℕ → ℕ → FreeList
unfolding rebuild_loop sort_by_key
rebuild_from_inodes [] disk_size data_start =
    record { offset = data_start; length = disk_size - data_start } ∷ []
rebuild_from_inodes (e ∷ es) disk_size data_start =
    let (cursor, fl) = rebuild_loop data_start new (sort_by_key (λ u. u.offset) (e ∷ es)) in
    if ltb cursor disk_size then free fl cursor (disk_size - cursor) else fl
