-- ===== src/Fuse/Frame.antt =====
-- src/fuse/mod.rs: about the path of data to the disk, for any property of the state.
use vexfs.Base.{
  ℕ, ◌≡◌, refl, length, ◌&&◌, ltb, List, [], ◌∷◌, Option, none, some, Bool, true, false,
  if◌then◌else◌,
}
use vexfs.Base.Map.{lookup}
use vexfs.Base.Map
use vexfs.Disk.Result.{DiskResult, ok, err, panic}
use vexfs.Buffer.{WriteBuffer, Pending}
use vexfs.Cache
use vexfs.Cache.{ArcCache}
use vexfs.DiskManager.{Image, write_file_data, write_inode}
use vexfs.DiskManager.Extents.{flush, read_file_data}
use vexfs.Compress.{decompress}
use vexfs.Fuse.{VexFs, VexFile, World, Fs, skip, modify, ignore, update_file, cached, set_dirty}
use vexfs.Fuse.Persist.{
  file_inode, parent_of, free_extent, place, free_old, persist_at, persist_to_disk, taken,
  flush_due, flush_file, flush_candidate, pre_eviction_flush, recover, flush_evicted,
  flush_cache_evictions, persist_all, flush_all, cache_insert, buffer_write, flush_dirty,
}
use vexfs.Fuse.Steps.{
  Leaves, Preserves, Leaves-option, Leaves-if, Preserves-bind, Preserves-pure, Preserves-modify,
  Preserves-option, Preserves-if, Preserves-on_disk,
}

-- The file keeps its name and its parent.
abbrev pub IsSilent : (VexFile → VexFile) → Type 0
IsSilent f = (g : VexFile) → ((f g).name ≡ g.name) × ((f g).parent_ino ≡ g.parent_ino)

-- Holds of a state whatever the image, the write buffer, and the dirty marks and offsets of files
-- are, and however the cache is read.
pub record IsStable (P : VexFs → Type 0) : Type 0 where
  pub disk : (s : VexFs) (image : Image) → P s → P (record s { disk = image })
  pub buffer : (s : VexFs) (b : WriteBuffer) → P s → P (record s { write_buffer = b })
  pub file :
      (ino : ℕ) (f : VexFile → VexFile) → IsSilent f → (s : VexFs) → P s → P (update_file ino f s)
  pub cached : (ino : ℕ) (s : VexFs) → P s → P (record s { cache = (Cache.get s.cache ino).1 })

module _ (P : VexFs → Type 0) (stable : IsStable P) where
  pub Preserves-ignore : {A : Type 0} (m : _) → Preserves P (ignore {A = A} m)
  Preserves-ignore m =
      Preserves-bind P (Preserves-on_disk P m stable.disk) (λ a. Preserves-pure P tt)

  pub Preserves-update :
      (ino : ℕ) (f : VexFile → VexFile) → IsSilent f → Preserves P (modify (update_file ino f))
  Preserves-update ino f h = Preserves-modify P _ (stable.file ino f h)

  Preserves-taken : (ino : ℕ) → Preserves P (taken ino)
  Preserves-taken ino = record { keeps = λ s p. stable.buffer s _ p }

  pub Preserves-cached : (ino : ℕ) → Preserves P (cached ino)
  Preserves-cached ino = record { keeps = stable.cached ino }

  kept_if : (b : Bool) (x y : VexFs) → P x → P y → P (if b then x else y)
  kept_if true x y h k = h
  kept_if false x y h k = k

  pub free_extent-keeps : (offset size : ℕ) (s : VexFs) → P s → P (free_extent offset size s)
  free_extent-keeps offset size s p = kept_if _ _ s (stable.disk s _ p) p

  free_old_at :
      (s : VexFs)
      → P s
      → (o : Option VexFile)
      → P (elim o [ none ↦ s | some f ↦ free_extent f.data_offset f.attr.size s ])
  free_old_at s p none = p
  free_old_at s p (some f) = free_extent-keeps f.data_offset f.attr.size s p

  place-keeps : (bytes : List ℕ) (s : VexFs) → P s → P (place bytes s).1
  unfolding place
  place-keeps [] s p = p
  place-keeps (b ∷ bs) s p = stable.disk s _ p

  Preserves-persist_at :
      (w : World) (ino : ℕ) (name bytes stored : List ℕ) (disk_index offset : ℕ)
      → Preserves P (persist_at w ino name bytes stored disk_index offset)
  unfolding persist_at
  Preserves-persist_at w ino name bytes stored disk_index offset = record {
    keeps = λ s.
        let inode = file_inode w ino name (length bytes) offset (parent_of ino s) in
        (Preserves-bind P (Preserves-ignore (write_file_data w.crc offset stored)) (λ _.
            Preserves-bind P (Preserves-ignore (write_inode w.crc disk_index inode)) (λ _.
              Preserves-bind P (Preserves-ignore (flush w.crc)) (λ _.
                Preserves-update ino (λ f. record f { data_offset = offset })
                  (λ g. (refl, refl)))))).keeps
          s;
  }

  pub Preserves-persist_to_disk :
      (w : World) (ino : ℕ) (name bytes : List ℕ) (disk_index : ℕ)
      → Preserves P (persist_to_disk w ino name bytes disk_index)
  unfolding persist_to_disk free_old
  Preserves-persist_to_disk w ino name bytes disk_index = record {
    keeps = λ s p.
        (Preserves-persist_at w ino name bytes _ disk_index _).keeps _
          (place-keeps _ _ (free_old_at s p (lookup ino s.files)));
  }

  Preserves-pending :
      (w : World) (ino : ℕ) (o : Option Pending) (m : Fs (Unit {0}))
      → Preserves P m
      → Preserves P
          (elim o [ some p ↦ persist_to_disk w ino p.name p.bytes p.disk_index | none ↦ m ])
  Preserves-pending w ino none m h = h
  Preserves-pending w ino (some p) m h = Preserves-persist_to_disk w ino p.name p.bytes p.disk_index

  Preserves-flush_due : (w : World) (inos : List ℕ) → Preserves P (flush_due w inos)
  unfolding flush_due
  Preserves-flush_due w [] = Preserves-pure P tt
  Preserves-flush_due w (ino ∷ inos) = Preserves-bind P (Preserves-taken ino) (λ found.
      Preserves-bind P (Preserves-pending w ino found skip (Preserves-pure P tt))
        (λ _. Preserves-flush_due w inos))

  Preserves-flush_candidate :
      (w : World) (ino : ℕ) (f : VexFile) → Preserves P (flush_candidate w ino f)
  Preserves-flush_candidate w ino f = Preserves-bind P (Preserves-taken ino) (λ found.
      Preserves-bind P
        (Preserves-pending w ino found _ (
          Preserves-bind P (Preserves-cached ino) (λ bytes.
            Preserves-option P bytes (Preserves-pure P tt)
              (λ b. Preserves-persist_to_disk w ino f.name b f.disk_index))))
        (λ _. Preserves-update ino (set_dirty false) (λ g. (refl, refl))))

  -- A call on the file of an inode, if it is dirty.
  Leaves-dirty :
      (m : VexFile → Fs (Unit {0}))
      → ((f : VexFile) → Preserves P (m f))
      → (s : VexFs) → P s
      → (o : Option VexFile)
      → Leaves (λ _. P) (elim o [ none ↦ skip s | some f ↦ if f.dirty then m f s else skip s ])
  Leaves-dirty m h s p none = p
  Leaves-dirty m h s p (some f) = Leaves-if (λ _. P) _ _ f.dirty ((h f).keeps s p) p

  pub Preserves-pre_eviction_flush : (w : World) → Preserves P (pre_eviction_flush w)
  unfolding pre_eviction_flush
  Preserves-pre_eviction_flush w = record {
    keeps = λ s p.
        Leaves-if (λ _. P) (skip s) _ (ltb s.cache.used_bytes s.cache.max_bytes) p
          (Leaves-option (λ _. P) (skip s) _ (Cache.peek_eviction_candidate s.cache) p
            (λ ino.
              Leaves-dirty (flush_candidate w ino) (Preserves-flush_candidate w ino) s p
                (lookup ino s.files)));
  }

  Preserves-recovered :
      (w : World) (ino : ℕ) (f : VexFile) (raw : DiskResult (List ℕ))
      → Preserves P (elim raw [
        | ok bytes ↦ persist_to_disk w ino f.name (decompress w.encode w.decode bytes) f.disk_index
        | _ ↦ skip
      ])
  Preserves-recovered w ino f (ok bytes) = Preserves-persist_to_disk w ino f.name _ f.disk_index
  Preserves-recovered w ino f (err e) = Preserves-pure P tt
  Preserves-recovered w ino f panic = Preserves-pure P tt

  Preserves-recover : (w : World) (ino : ℕ) (f : VexFile) → Preserves P (recover w ino f)
  Preserves-recover w ino f = Preserves-bind P (Preserves-taken ino) (λ found.
      Preserves-bind P
        (Preserves-pending w ino found _ (
          Preserves-if P (ltb 0 f.data_offset && ltb 0 f.attr.size)
            (Preserves-bind P
              (Preserves-on_disk P (λ i. (read_file_data f.data_offset f.attr.size i, i))
                stable.disk)
              (Preserves-recovered w ino f))
            (Preserves-pure P tt)))
        (λ _. Preserves-update ino (set_dirty false) (λ g. (refl, refl))))

  pub Preserves-flush_evicted : (w : World) (inos : List ℕ) → Preserves P (flush_evicted w inos)
  unfolding flush_evicted
  Preserves-flush_evicted w [] = Preserves-pure P tt
  Preserves-flush_evicted w (ino ∷ inos) =
      Preserves-bind P
        (record {
          keeps = λ s p.
              Leaves-dirty (recover w ino) (Preserves-recover w ino) s p (lookup ino s.files);
        })
        (λ _. Preserves-flush_evicted w inos)

  Preserves-flush_cache_evictions :
      (w : World)
      → ((s : VexFs) (c : ArcCache) → P s → P (record s { cache = c }))
      → Preserves P (flush_cache_evictions w)
  unfolding flush_cache_evictions
  Preserves-flush_cache_evictions w any = record {
    keeps = λ s p. (Preserves-flush_evicted w _).keeps _ (any s _ p);
  }

  -- For what holds whatever the cache is.
  pub Preserves-cache_insert :
      (w : World) (ino : ℕ) (bytes : List ℕ)
      → ((s : VexFs) (c : ArcCache) → P s → P (record s { cache = c }))
      → Preserves P (cache_insert w ino bytes)
  unfolding cache_insert
  Preserves-cache_insert w ino bytes any = Preserves-bind P (Preserves-pre_eviction_flush w) (λ _.
      Preserves-bind P
        (record {
          keeps = λ s p.
              Leaves-option (λ _. P) none (λ c. skip (record s { cache = c }))
                (Cache.insert s.cache ino bytes) tt (λ c. any s c p);
        })
        (λ _. Preserves-flush_cache_evictions w any))

  Preserves-persist_all : (w : World) (ps : List (ℕ × Pending)) → Preserves P (persist_all w ps)
  unfolding persist_all
  Preserves-persist_all w [] = Preserves-pure P tt
  Preserves-persist_all w ((ino, p) ∷ ps) =
      Preserves-bind P (Preserves-persist_to_disk w ino p.name p.bytes p.disk_index)
        (λ _. Preserves-persist_all w ps)

  pub Preserves-flush_all : (w : World) → Preserves P (flush_all w)
  unfolding flush_all
  Preserves-flush_all w = record {
    keeps = λ s p. (Preserves-persist_all w _).keeps _ (stable.buffer s _ p);
  }

  Preserves-buffer_write :
      (w : World) (ino : ℕ) (f : VexFile) (bytes : List ℕ)
      → Preserves P (buffer_write w ino f bytes)
  unfolding buffer_write
  Preserves-buffer_write w ino f bytes = record {
    keeps = λ s p. (Preserves-flush_due w _).keeps _ (stable.buffer s _ p);
  }

  Preserves-flush_dirty : (w : World) (ino : ℕ) (f : VexFile) → Preserves P (flush_dirty w ino f)
  Preserves-flush_dirty w ino f =
      Preserves-bind P (Preserves-update ino (set_dirty false) (λ g. (refl, refl))) (λ _.
        Preserves-bind P (Preserves-cached ino) (λ found.
          Preserves-option P found (Preserves-pure P tt) (Preserves-buffer_write w ino f)))

  pub Preserves-flush_file : (w : World) (ino : ℕ) → Preserves P (flush_file w ino)
  unfolding flush_file
  Preserves-flush_file w ino = record {
    keeps = λ s p.
        Leaves-dirty (flush_dirty w ino) (Preserves-flush_dirty w ino) s p (lookup ino s.files);
  }

module _ (P : VexFs → Type 0) (ino : ℕ) (f : VexFile → VexFile) (s : VexFs) where
  update_file_at :
      P s
      → ((file : VexFile)
          → lookup ino s.files ≡ some file
          → P (record s { files = Map.insert ino (f file) s.files }))
      → (o : Option VexFile) → lookup ino s.files ≡ o
      → P (elim o [ none ↦ s | some file ↦ record s { files = Map.insert ino (f file) s.files } ])
  update_file_at p h none at = p
  update_file_at p h (some file) at = h file at

  -- A file that is there is replaced, and else nothing changes.
  pub update_file_lem :
      P s
      → ((file : VexFile)
          → lookup ino s.files ≡ some file
          → P (record s { files = Map.insert ino (f file) s.files }))
      → P (update_file ino f s)
  unfolding update_file
  update_file_lem p h = update_file_at p h (lookup ino s.files) refl
