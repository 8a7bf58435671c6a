-- ===== src/FreeList/Saved.antt =====
-- src/fs/free_list.rs: about `save`, then `load`.
use vexfs.InodeTable.Stored.{read_bytes_inside}
use vexfs.Base.{
  ◌*◌, ℕ, ◌+◌, ◌^◌, ◌≤◌, ◌<◌, ◌≡◌, inl, refl, ◌∙◌, List, [], ◌∷◌, ◌++◌, take, length, All,
  length-append, take-append, drop-append, IsU64, arith, zero, suc, ltb, false, min, length-take,
  take_of_length-le,
}
use vexfs.Base.Bytes.{
  u32_to_le, u64_to_le, le_to_u32, slice, le_to_u32-u32_to_le, le_to_u64-u64_to_le, le_to_u64,
}
use vexfs.Disk.Result.{ok, verify_crc32}
use vexfs.File.{read_bytes, File, bytes_at, write_bytes}
use vexfs.File.Ranges.{bytes_at-overwrite, bytes_at-overwrite_apart}
use vexfs.Journal.Slots.{written, write_bytes_ok}
use vexfs.FreeList.{FreeExtent, FreeList, max_persisted_extents}
use vexfs.FreeList.Persist.{
  extent_to_bytes, extent_from_bytes, extents_to_bytes, extents_from_bytes, persisted, list_head,
  list_header, save, loaded, load, load_extents, free_list_offset, free_list_header,
  free_list_magic, free_extent_size,
}

-- The offset and the length are words.
abbrev pub Words : FreeExtent → Type 0
Words e = IsU64 e.offset × IsU64 e.length

extent_from_bytes-extent_to_bytes :
    (e : FreeExtent) → Words e → extent_from_bytes (extent_to_bytes e) ≡ e
unfolding extent_from_bytes extent_to_bytes
extent_from_bytes-extent_to_bytes e h =
    ground (arith, le_to_u64-u64_to_le e.offset h.0, le_to_u64-u64_to_le e.length h.1)

length-extent_to_bytes : (e : FreeExtent) → length (extent_to_bytes e) ≡ 16
unfolding extent_to_bytes u64_to_le
length-extent_to_bytes e = refl

length-extents_to_bytes : (es : FreeList) → length (extents_to_bytes es) ≡ length es * 16
unfolding extents_to_bytes
length-extents_to_bytes [] = refl
length-extents_to_bytes (e ∷ es) = omega (
  arith,
  length-append (extent_to_bytes e) (extents_to_bytes es),
  length-extent_to_bytes e,
  length-extents_to_bytes es,
)

extents_from_bytes-extents_to_bytes :
    (es : FreeList) → All Words es → extents_from_bytes (length es) (extents_to_bytes es) ≡ es
unfolding extents_from_bytes extents_to_bytes
extents_from_bytes-extents_to_bytes [] h = refl
extents_from_bytes-extents_to_bytes (e ∷ es) (h, hs) = rw (
  take-append (extent_to_bytes e) (extents_to_bytes es) 16 (length-extent_to_bytes e),
  drop-append (extent_to_bytes e) (extents_to_bytes es) 16 (length-extent_to_bytes e),
  extent_from_bytes-extent_to_bytes e h,
  extents_from_bytes-extents_to_bytes es hs,
)

write_bytes_none : (offset : ℕ) (f : File) → write_bytes offset (extents_to_bytes []) f ≡ (ok tt, f)
unfolding write_bytes extents_to_bytes
write_bytes_none offset f = refl

module _ (crc : List ℕ → ℕ) (word : (bytes : List ℕ) → crc bytes < 2 ^ 32) where
  length-list_header : (es : FreeList) → length (list_header crc es) ≡ 32
  unfolding list_header list_head u64_to_le u32_to_le
  length-list_header es = refl

  -- What the two writes of `save` leave.
  record Written (es : FreeList) (f : File) : Type 0 where
    header : bytes_at f.at 512 32 ≡ list_header crc es
    extents : bytes_at f.at 544 (length es * 16) ≡ extents_to_bytes es
    inside : 544 + length es * 16 ≤ f.size

  Written-header : (f : File) → Written [] (written 512 (list_header crc []) f)
  unfolding bytes_at extents_to_bytes
  Written-header f = record {
    header = bytes_at-overwrite f.at 512 (list_header crc []) 32 (length-list_header []);
    extents = refl;
    inside = omega (arith, length-list_header []);
  }

  Written-both :
      (es : FreeList) (f : File)
      → Written es (written 544 (extents_to_bytes es) (written 512 (list_header crc es) f))
  Written-both es f =
      let f1 = written 512 (list_header crc es) f in
      record {
        header =
            bytes_at-overwrite_apart f1.at 544 (extents_to_bytes es) 512 32 (inl (omega arith))
            ∙ bytes_at-overwrite f.at 512 (list_header crc es) 32 (length-list_header es);
        extents =
            bytes_at-overwrite f1.at 544 (extents_to_bytes es) (length es * 16)
              (length-extents_to_bytes es);
        inside = omega (arith, length-extents_to_bytes es);
      }

  save-Written :
      (fl es : FreeList) (f : File)
      → persisted fl ≡ es
      → 2 ≤ f.budget
      → (f' : File) × ((save crc fl f ≡ (ok tt, f')) × Written es f')
  unfolding save
  save-Written fl [] f same budget =
      let first =
        write_bytes_ok 512 (list_header crc []) f (omega (arith, length-list_header []))
          (omega arith) in
      (
        written 512 (list_header crc []) f,
        (
          rw (same, save, first, write_bytes_none 544 (written 512 (list_header crc []) f)),
          Written-header f,
        ),
      )
  save-Written fl (e ∷ es) f same budget =
      let long = length-list_header (e ∷ es) in
      let f1 = written 512 (list_header crc (e ∷ es)) f in
      let first =
        write_bytes_ok 512 (list_header crc (e ∷ es)) f (omega (arith, long)) (omega arith) in
      let second =
        write_bytes_ok 544 (extents_to_bytes (e ∷ es)) f1
          (omega (arith, length-extents_to_bytes (e ∷ es))) (omega arith) in
      (
        written 544 (extents_to_bytes (e ∷ es)) f1,
        (rw (same, save, first, second), Written-both (e ∷ es) f),
      )

  checked :
      (es : FreeList)
      → verify_crc32 crc
          (take 12 (list_header crc es) ++ extents_to_bytes es)
          (le_to_u32 (slice 12 16 (list_header crc es)))
        ≡ ok tt
  unfolding verify_crc32 list_header list_head
  checked es = ground (
    arith,
    le_to_u32-u32_to_le (crc (list_head (length es) ++ extents_to_bytes es))
        (word (list_head (length es) ++ extents_to_bytes es)),
  )

  loaded-list_header :
      (es : FreeList)
      → All Words es
      → loaded crc (length es) (list_header crc es) (extents_to_bytes es) ≡ es
  unfolding loaded
  loaded-list_header es h = rw (checked es, loaded) (extents_from_bytes-extents_to_bytes es h)

  All-take : (n : ℕ) (fl : FreeList) → All Words fl → All Words (take n fl)
  All-take zero fl h = tt
  All-take (suc n) [] h = tt
  All-take (suc n) (e ∷ es) (h, hs) = (h, All-take n es hs)

  magic-list_header : (es : FreeList) → le_to_u64 (slice 0 8 (list_header crc es)) ≡ free_list_magic
  unfolding list_header list_head
  magic-list_header es = le_to_u64-u64_to_le free_list_magic (omega arith)

  count-list_header :
      (es : FreeList)
      → length es ≤ max_persisted_extents
      → le_to_u32 (slice 8 12 (list_header crc es)) ≡ length es
  unfolding list_header list_head
  count-list_header es h = le_to_u32-u32_to_le (length es) (omega arith)

  load_found :
      (f : File) (hdr : List ℕ)
      → read_bytes free_list_offset free_list_header f ≡ ok hdr
      → le_to_u64 (slice 0 8 hdr) ≡ free_list_magic
      → load crc f ≡ load_extents crc (le_to_u32 (slice 8 12 hdr)) hdr f
  unfolding load
  load_found f hdr readable magic = rw (readable, load, magic)

  load_extents_found :
      (count : ℕ) (hdr bytes : List ℕ) (f : File)
      → count ≤ max_persisted_extents
      → read_bytes (free_list_offset + free_list_header) (count * free_extent_size) f ≡ ok bytes
      → load_extents crc count hdr f ≡ ok (loaded crc count hdr bytes)
  unfolding load_extents
  load_extents_found count hdr bytes f few readable =
      let small : ltb max_persisted_extents count ≡ false = ground arith in
      rw (small, readable, load_extents)

  load-Written :
      (es : FreeList) (f : File)
      → length es ≤ max_persisted_extents
      → All Words es
      → Written es f
      → load crc f ≡ ok es
  load-Written es f few h w =
      let hdr =
        (let read =
            read_bytes_inside free_list_offset free_list_header f (omega (arith, w.inside)) in
          rw w.header at read) in
      let bytes =
        (let read = read_bytes_inside 544 (length es * free_extent_size) f w.inside in
          rw w.extents at read) in
      rw (
        load_found f (list_header crc es) hdr (magic-list_header es),
        count-list_header es few,
        load_extents_found (length es) (list_header crc es) (extents_to_bytes es) f few bytes,
        loaded-list_header es h,
      )

  -- Saving a list of extents whose numbers are words, with two writes of the file left, succeeds,
  -- and loading gives its first 200 extents in order, which is the whole list if it has no more.
  pub load-save :
      (fl : FreeList) (f : File)
      → All Words fl
      → 2 ≤ f.budget
      → (f' : File) × ((save crc fl f ≡ (ok tt, f'))
          × ((load crc f' ≡ ok (persisted fl))
              × (length fl ≤ max_persisted_extents → persisted fl ≡ fl)))
  load-save fl f h budget =
      let (f', (saved, w)) = save-Written fl (persisted fl) f refl budget in
      (
        f',
        (
          saved,
          (
            load-Written (persisted fl) f'
                (omega (arith, length-take (min (length fl) max_persisted_extents) fl))
                (All-take (min (length fl) max_persisted_extents) fl h) w,
            λ few. take_of_length-le (min (length fl) max_persisted_extents) fl (omega arith),
          ),
        ),
      )
