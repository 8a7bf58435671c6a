-- ===== src/InodeTable/Stored.antt =====
-- src/fs/inode_table.rs: about `write_inode`, then `read_inode`.
use vexfs.Base.Bytes.{le_to_u32, slice}
use vexfs.Base.{
  refl, ℕ, ◌+◌, ◌^◌, ◌≤◌, ◌<◌, ◌≡◌, ◌≢◌, inl, inr, ◌∙◌, List, none, some, true, leb, leb→le, le→leb,
  length, Bool-cases, Option-cases, arith, ◌⊎◌, take, ◌==◌,
}
use vexfs.Disk.Result.{DiskResult, panic, ok, DiskError, err, verify_crc32}
use vexfs.Disk.Inode.{
  InodeRaw, IsRepresentable, empty_inode, inode_bytes, inode_fields, inode_to_bytes,
  inode_round_trip, length-inode_to_bytes, inode_from_bytes,
}
use vexfs.File.{File, read_bytes, bytes_at}
use vexfs.File.Ranges.{bytes_at-overwrite, bytes_at-overwrite_apart}
use vexfs.Journal.Slots.{written, write_bytes_ok}
use vexfs.InodeTable.{InodeTable, inode_offset, decoded, read_inode, write_inode}
use vexfs.InodeTable.Slots.{IsApart, inode_offset_apart}

pub read_bytes_inside :
    (offset len : ℕ) (f : File)
    → offset + len ≤ f.size
    → read_bytes offset len f ≡ ok (bytes_at f.at offset len)
unfolding read_bytes
read_bytes_inside offset len f h =
    let inside : leb (offset + len) f.size ≡ true = le→leb (offset + len) f.size h in rw inside

pub read_bytes-bounded :
    (offset len : ℕ) (f : File) (bytes : List ℕ)
    → read_bytes offset len f ≡ ok bytes
    → (offset + len ≤ f.size) × (bytes ≡ bytes_at f.at offset len)
unfolding read_bytes
read_bytes-bounded offset len f bytes h = ground arith

module _ (crc : List ℕ → ℕ) where
  write_inode_found :
      (t : InodeTable) (index offset : ℕ) (inode : InodeRaw) (f : File)
      → inode_offset t index ≡ some offset
      → length inode.name ≡ 200
      → 0 < f.budget
      → write_inode crc t index inode f ≡ (ok tt, written offset (inode_to_bytes crc inode) f)
  unfolding write_inode
  write_inode_found t index offset inode f found name budget =
      rw (found, write_inode)
        (write_bytes_ok offset (inode_to_bytes crc inode) f
          (omega (arith, length-inode_to_bytes crc inode name)) budget)

  read_inode_found :
      (t : InodeTable) (index offset : ℕ) (f : File)
      → inode_offset t index ≡ some offset
      → offset + inode_bytes ≤ f.size
      → read_inode crc t index f ≡ decoded crc (bytes_at f.at offset inode_bytes)
  unfolding read_inode
  read_inode_found t index offset f found inside =
      rw (found, read_inode, read_bytes_inside offset inode_bytes f inside)

  read_inode_unallocated :
      (t : InodeTable) (index : ℕ) (f : File)
      → inode_offset t index ≡ none
      → read_inode crc t index f ≡ ok empty_inode
  unfolding read_inode
  read_inode_unallocated t index f missing = rw (missing, read_inode)

  -- A read that succeeds is inside the file.
  read_inode-inside :
      (t : InodeTable) (index offset : ℕ) (f : File) (x : InodeRaw)
      → inode_offset t index ≡ some offset
      → read_inode crc t index f ≡ ok x
      → offset + inode_bytes ≤ f.size
  unfolding read_inode read_bytes
  read_inode-inside t index offset f x found h =
      elim (Bool-cases (leb (offset + inode_bytes) f.size)) [
        | inl inside ↦ leb→le (offset + inode_bytes) f.size inside
        | inr outside ↦ absurd (let stuck = rw (found, read_inode, outside) at h in cc)
      ]

  -- On a table whose blocks do not overlap, with their bytes below 2^64, a write of an inode that
  -- fits its widths, to an index that the table has, with a write of the file left and a checksum of
  -- 32 bits: it succeeds, the inode is read back from the index, and what is read from another index
  -- is as before.
  pub write_inode-read_inode :
      (t : InodeTable) (index offset : ℕ) (inode : InodeRaw) (f : File)
      → IsApart t
      → inode_offset t index ≡ some offset
      → IsRepresentable inode
      → crc (inode_fields inode) < 2 ^ 32
      → 0 < f.budget
      → (f' : File) × ((write_inode crc t index inode f ≡ (ok tt, f'))
          × ((read_inode crc t index f' ≡ ok inode)
              × ((j : ℕ) (x : InodeRaw)
                  → j ≢ index
                  → read_inode crc t j f ≡ ok x
                  → read_inode crc t j f' ≡ ok x)))
  unfolding decoded
  write_inode-read_inode t index offset inode f g found fits word budget =
      let long = length-inode_to_bytes crc inode fits.name in
      let f' = written offset (inode_to_bytes crc inode) f in
      (
        f',
        (
          write_inode_found t index offset inode f found fits.name budget,
          (
            (read_inode_found t index offset f' found (omega (arith, long))
                ∙ rw (
                  bytes_at-overwrite f.at offset (inode_to_bytes crc inode) inode_bytes long,
                  decoded,
                  inode_round_trip crc inode fits word,
                )),
            λ j x other before. elim (Option-cases (inode_offset t j)) [
              | inl missing ↦
                  read_inode_unallocated t j f' missing
                  ∙ (rw (read_inode_unallocated t j f missing) at before)
              | inr (b, there) ↦
                  let inside = read_inode-inside t j b f x there before in
                  let apart = inode_offset_apart t j index b offset g other there found in
                  read_inode_found t j b f' there (omega arith)
                  ∙ (rw
                      (bytes_at-overwrite_apart f.at offset (inode_to_bytes crc inode) b inode_bytes
                        (omega (arith, long)))
                      (rw (read_inode_found t j b f there inside) at before))
            ],
          ),
        ),
      )

DiskResult-cases :
    (r : DiskResult InodeRaw)
    → r ≢ panic
    → ((x : InodeRaw) × (r ≡ ok x)) ⊎ ((e : DiskError) × (r ≡ err e))
DiskResult-cases (ok x) h = inl (x, refl)
DiskResult-cases (err e) h = inr (e, refl)
DiskResult-cases panic h = absurd (h refl)

module _ (crc : List ℕ → ℕ) where
  inode_from_bytes_returns : (b : List ℕ) → inode_from_bytes crc b ≢ panic
  unfolding inode_from_bytes verify_crc32
  inode_from_bytes_returns b h = elim (Bool-cases (crc (take 50 b) == le_to_u32 (slice 50 54 b))) [
    | inl same ↦ absurd (let stuck = rw same at h in cc)
    | inr other ↦ absurd (let stuck = rw other at h in cc)
  ]

  -- A slot inside the file can be read, also when its bytes are no inode.
  pub read_inode_total :
      (t : InodeTable) (index offset : ℕ) (f : File)
      → inode_offset t index ≡ some offset
      → offset + inode_bytes ≤ f.size
      → (x : InodeRaw) × (read_inode crc t index f ≡ ok x)
  unfolding decoded
  read_inode_total t index offset f found inside =
      let step = read_inode_found crc t index offset f found inside in
      elim (DiskResult-cases (inode_from_bytes crc (bytes_at f.at offset inode_bytes))
        (inode_from_bytes_returns (bytes_at f.at offset inode_bytes))) [
          | inl (x, good) ↦ (x, step ∙ rw (good, decoded))
          | inr (e, bad) ↦ (empty_inode, step ∙ rw (bad, decoded))
        ]
