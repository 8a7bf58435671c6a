-- ===== src/Snapshots/Versions.antt =====
-- src/fs/snapshot.rs: about `snapshot` and `restore`, and the number of versions of a file.
use vexfs.Base.{
  ltb-false→le, Option-cases, ℕ, ◌≤◌, ◌<◌, ◌≡◌, ◌≢◌, inl, inr, List, [], ◌∷◌, ◌++◌, some, true,
  false, ltb, ◌==◌, if◌then◌else◌, length, All, length-append, length-drop, Bool-cases, arith,
}
use vexfs.Base.Map.{lookup, lookup-insert}
use vexfs.Snapshots.{
  Snapshot, SnapshotManager, new_snapshot, list_of, drop_oldest, snapshot, find_version,
  get_version, restore,
}

abbrev pub Unnumbered : ℕ → List Snapshot → Type 0
Unnumbered id = All (λ s. s.id ≢ id)

find_version-last :
    (list : List Snapshot) (s : Snapshot)
    → Unnumbered s.id list
    → find_version s.id (list ++ (s ∷ [])) ≡ some s
unfolding find_version
find_version-last [] s h = ground arith
find_version-last (x ∷ list) s (h, hs) =
    let ih = find_version-last list s hs in
    let other : (x.id == s.id) ≡ false = ground arith in rw other ih

find_version-drop_oldest :
    (max : ℕ) (list : List Snapshot) (s : Snapshot)
    → 0 < max
    → Unnumbered s.id list
    → find_version s.id (drop_oldest max (list ++ (s ∷ []))) ≡ some s
unfolding drop_oldest
find_version-drop_oldest max [] s pos h =
    let few : ltb max 1 ≡ false = ground arith in rw few (find_version-last [] s h)
find_version-drop_oldest max (x ∷ list) s pos (h, hs) =
    elim (Bool-cases (ltb max (length ((x ∷ list) ++ (s ∷ []))))) [
      | inl over ↦ rw over (find_version-last list s hs)
      | inr under ↦ rw under (find_version-last (x ∷ list) s (h, hs))
    ]

==-false→≢ : (a b : ℕ) → (a == b) ≡ false → a ≢ b
==-false→≢ a b h = ground arith

length-drop_oldest-le :
    (max : ℕ) (list : List Snapshot) (s : Snapshot)
    → length list ≤ max
    → length (drop_oldest max (list ++ (s ∷ []))) ≤ max
unfolding drop_oldest
length-drop_oldest-le max list s h =
    let long = length-append list (s ∷ []) in
    elim (Bool-cases (ltb max (length (list ++ (s ∷ []))))) [
      | inl over ↦ rw over (omega (arith, long, length-drop 1 (list ++ (s ∷ []))))
      | inr under ↦ rw under (ltb-false→le max (length (list ++ (s ∷ []))) under)
    ]

-- No file has more snapshots than the manager allows.
abbrev pub IsBounded : SnapshotManager → Type 0
IsBounded m = (ino : ℕ) → length (list_of ino m) ≤ m.max_per_file

get_version-list_of :
    (ino version : ℕ) (m : SnapshotManager)
    → get_version ino version m ≡ find_version version (list_of ino m)
unfolding get_version list_of find_version
get_version-list_of ino version m = elim (Option-cases (lookup ino m.snapshots)) [
  | inl miss ↦ rw (miss, get_version, list_of)
  | inr (list, hit) ↦ rw (hit, get_version, list_of)
]

module _ (now ino : ℕ) (name bytes : List ℕ) (data_offset : ℕ) (m : SnapshotManager) where
  snapshot_none : (length bytes == 0) ≡ true → snapshot now ino name bytes data_offset m ≡ m
  unfolding snapshot
  snapshot_none empty = rw empty

  max_per_file-snapshot : (snapshot now ino name bytes data_offset m).max_per_file ≡ m.max_per_file
  unfolding snapshot
  max_per_file-snapshot = elim (Bool-cases (length bytes == 0)) [
    | inl empty ↦ rw empty
    | inr full ↦ rw full
  ]

  list_of-snapshot :
      (j : ℕ)
      → length bytes ≢ 0
      → list_of j (snapshot now ino name bytes data_offset m) ≡ (
          if ino == j
          then drop_oldest m.max_per_file
              (list_of ino m ++ (new_snapshot now m.next_id ino name bytes data_offset ∷ []))
          else list_of j m)
  unfolding snapshot list_of
  list_of-snapshot j some_bytes =
      let full : (length bytes == 0) ≡ false = ground arith in
      elim (Bool-cases (ino == j)) [
        | inl here ↦ rw (
          full,
          list_of,
          lookup-insert ino j
              (drop_oldest m.max_per_file
                (list_of ino m ++ (new_snapshot now m.next_id ino name bytes data_offset ∷ [])))
              m.snapshots,
          here,
        )
        | inr other ↦ rw (
          full,
          list_of,
          lookup-insert ino j
              (drop_oldest m.max_per_file
                (list_of ino m ++ (new_snapshot now m.next_id ino name bytes data_offset ∷ [])))
              m.snapshots,
          other,
        )
      ]

  -- With room for at least one snapshot of each file, after a snapshot of bytes that are not empty,
  -- with an id that no snapshot of the file has, the id restores the bytes, and the lists of the
  -- other files are as before.
  pub restore-snapshot :
      length bytes ≢ 0
      → 0 < m.max_per_file
      → Unnumbered m.next_id (list_of ino m)
      → (restore ino m.next_id (snapshot now ino name bytes data_offset m) ≡ some bytes)
        × ((j : ℕ) → ino ≢ j → list_of j (snapshot now ino name bytes data_offset m) ≡ list_of j m)
  unfolding restore
  restore-snapshot some_bytes pos fresh =
      let s = new_snapshot now m.next_id ino name bytes data_offset in
      let here : (ino == ino) ≡ true = ground arith in
      let list = (rw here at (list_of-snapshot ino some_bytes)) in
      (
        rw (
          get_version-list_of ino m.next_id (snapshot now ino name bytes data_offset m),
          restore,
          list,
          find_version-drop_oldest m.max_per_file (list_of ino m) s pos fresh,
        ),
        λ j other.
            let apart : (ino == j) ≡ false = ground arith in
            rw apart at (list_of-snapshot j some_bytes),
      )

  -- A snapshot keeps the bound on the snapshots of each file.
  pub snapshot-IsBounded : IsBounded m → IsBounded (snapshot now ino name bytes data_offset m)
  snapshot-IsBounded g j = elim (Bool-cases (length bytes == 0)) [
    | inl empty ↦ rw (snapshot_none empty) (g j)
    | inr full ↦
        let max = max_per_file-snapshot in
        elim (Bool-cases (ino == j)) [
          | inl here ↦
              rw (list_of-snapshot j (==-false→≢ (length bytes) 0 full), here, max)
                (length-drop_oldest-le m.max_per_file (list_of ino m)
                  (new_snapshot now m.next_id ino name bytes data_offset) (g ino))
          | inr other ↦ rw (list_of-snapshot j (==-false→≢ (length bytes) 0 full), other, max) (g j)
        ]
  ]
