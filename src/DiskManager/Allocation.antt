-- ===== src/DiskManager/Allocation.antt =====
-- src/fs/mod.rs: about `alloc_data` and `total_free_bytes`.
use vexfs.Base.{
  ℕ, zero, suc, ◌+◌, ◌%◌, ◌^◌, ◌≤◌, ◌≡◌, inl, inr, refl, [], ◌∷◌, some, none, get_elem?, All, arith,
}
use vexfs.FreeList.{FreeExtent, FreeList, alloc}
use vexfs.FreeList.Cover.{owners}
use vexfs.FreeList.Free.{IsValid}
use vexfs.FreeList.Alloc.{hits}
use vexfs.FreeList.Account.{alloc-IsBestFit, owners-alloc, alloc-IsValid}
use vexfs.FreeList.Rebuild.{Ends}
use vexfs.DiskManager.{DiskManager}
use vexfs.DiskManager.Extents.{aligned, extend, alloc_data}

abbrev pub end_of_data : DiskManager → ℕ
end_of_data m = m.superblock.next_data_offset

owners-beyond :
    (limit : ℕ) (fl : FreeList) (b : ℕ) → All (Ends limit) fl → limit ≤ b → owners fl b ≡ 0
owners-beyond limit [] b h le = refl
owners-beyond limit (e ∷ es) b (h, hs) le = ground (arith, owners-beyond limit es b hs le)

get_elem?-All :
    (limit i : ℕ) (fl : FreeList) (e : FreeExtent)
    → All (Ends limit) fl
    → get_elem? fl i ≡ some e
    → Ends limit e
get_elem?-All limit i [] e h at = absurd (cc)
get_elem?-All limit zero (x ∷ es) e h at = ground arith
get_elem?-All limit (suc i) (x ∷ es) e h at = get_elem?-All limit i es e h.1 at

le-aligned : (v : ℕ) → v + 512 ≤ 2 ^ 64 → v ≤ aligned v
le-aligned v h = ground arith

-- What `alloc_data` leaves.
pub record Allocates (m : DiskManager) (size : ℕ) (off : ℕ) (m' : DiskManager) : Type 0 where
  pub inside : off + size ≤ end_of_data m'
  pub grows : end_of_data m ≤ end_of_data m'
  pub apart : (b : ℕ) → hits off size b + owners m'.free_list b ≤ 1
  pub valid : IsValid m'.free_list

alloc_data_found :
    (m : DiskManager) (size off : ℕ)
    → (alloc m.free_list size).0 ≡ some off
    → alloc_data size m ≡ (off, record m { free_list = (alloc m.free_list size).1 })
unfolding alloc_data
alloc_data_found m size off h = rw (h, alloc_data)

alloc_data_extends :
    (m : DiskManager) (size : ℕ)
    → (alloc m.free_list size).0 ≡ none
    → alloc_data size m ≡ extend size m
unfolding alloc_data
alloc_data_extends m size h = rw (h, alloc_data)

-- With a valid free list inside the data region, and an end of the region that stays a word:
-- `alloc_data` hands out bytes below the new end of the region that no free extent holds, the
-- region does not shrink, and the free list stays valid.
pub alloc_data-Allocates :
    (m : DiskManager) (size : ℕ)
    → IsValid m.free_list
    → All (Ends (end_of_data m)) m.free_list
    → end_of_data m + size + 512 ≤ 2 ^ 64
    → Allocates m size (alloc_data size m).0 (alloc_data size m).1
alloc_data-Allocates m size v ends word = elim (alloc-IsBestFit m.free_list size) [
  | inl (i, e, found, best) ↦
      let end = get_elem?-All (end_of_data m) i m.free_list e ends best.at in
      rw (alloc_data_found m size e.offset found) (record {
        inside = omega (arith, best.enough);
        grows = omega arith;
        apart = λ b.
            omega (arith, (owners-alloc m.free_list size e.offset b v.fits found).0, v.disjoint b);
        valid = alloc-IsValid m.free_list size v;
      })
  | inr (same, small) ↦
      let failed : (alloc m.free_list size).0 ≡ none = rw same in
      let end : (end_of_data m + size) % 2 ^ 64 ≡ end_of_data m + size = omega arith in
      let above = le-aligned (end_of_data m + size) (omega arith) in
      rw (alloc_data_extends m size failed, end)
        (record {
          inside = above;
          grows = omega (arith, above);
          apart =
              λ b. ground (arith, owners-beyond (end_of_data m) m.free_list b ends, v.disjoint b);
          valid = v;
        })
]
