-- ===== src/Fuse/Calls.antt =====
-- src/fuse/mod.rs: about sessions of calls.
use vexfs.Base.{
  ℕ, ◌+◌, ◌^◌, refl, List, [], Option, none, some, not, ◌&&◌, ◌==◌, ltb, if◌then◌else◌, length,
}
use vexfs.Base.Map.{lookup}
use vexfs.Disk.Result.{ok}
use vexfs.DiskManager.Extents.{read_file_data}
use vexfs.Compress.{decompress}
use vexfs.Fuse.{VexFs, VexFile, World, replied, error, enoent, search_ino, ask_ino}
use vexfs.Fuse.Data.{
  or_empty, sliced, virtual_bytes, read_disk, read_file, read, resize, spliced, written, write_file,
  write, fsync, sized, set_size, set_file_attr, is_zero, setattr,
}
use vexfs.Fuse.Steps.{
  Leaves, Preserves, Leaves-option, Leaves-if, Preserves-bind, Preserves-pure, Preserves-option,
  Preserves-if, Preserves-on_disk,
}
use vexfs.Fuse.Frame.{
  Preserves-update, Preserves-cached, Preserves-cache_insert, Preserves-flush_file,
}
use vexfs.Fuse.Versions.{Preserves-take_snapshot, Preserves-gc}
use vexfs.Fuse.Linked.{Linked, Linked-IsStable}

module _ (bound : ℕ) where
  abbrev P : VexFs → Type 0
  P = Linked bound

  Preserves-read_disk :
      (w : World) (ino : ℕ) (f : VexFile) (offset size : ℕ)
      → Preserves P (read_disk w ino f offset size)
  unfolding read_disk
  Preserves-read_disk w ino f offset size =
      Preserves-bind P
        (Preserves-if P (ltb 0 f.attr.size)
          (Preserves-on_disk P (λ i. (read_file_data f.data_offset f.attr.size i, i))
            (Linked-IsStable bound).disk)
          (Preserves-pure P (ok [])))
        (λ raw.
          let bytes = decompress w.encode w.decode (or_empty raw) in
          Preserves-bind P
            (Preserves-cache_insert P (Linked-IsStable bound) w ino bytes (λ s c p. p))
            (λ _. Preserves-pure P (replied (sliced offset size bytes))))

  Preserves-read_file :
      (w : World) (ino : ℕ) (f : VexFile) (offset size : ℕ)
      → Preserves P (read_file w ino f offset size)
  unfolding read_file
  Preserves-read_file w ino f offset size =
      Preserves-bind P (Preserves-cached P (Linked-IsStable bound) ino) (λ found.
        Preserves-option P found (Preserves-read_disk w ino f offset size)
          (λ bytes. Preserves-pure P (replied (sliced offset size bytes))))

  pub Preserves-read : (w : World) (ino offset size : ℕ) → Preserves P (read w ino offset size)
  unfolding read
  Preserves-read w ino offset size = record {
    keeps = λ s p.
        Leaves-option (λ _. P) _ (λ bytes. some (replied (sliced offset size bytes), s))
          (virtual_bytes w ino)
          (Leaves-option (λ _. P) (some (error enoent, s)) (λ f. read_file w ino f offset size s)
            (lookup ino s.files) p (λ f. (Preserves-read_file w ino f offset size).keeps s p))
          (λ bytes. p);
  }

  Preserves-write_file :
      (w : World) (ino : ℕ) (f : VexFile) (offset : ℕ) (bytes : List ℕ)
      → Preserves P (write_file w ino f offset bytes)
  unfolding write_file
  Preserves-write_file w ino f offset bytes =
      Preserves-bind P (Preserves-cached P (Linked-IsStable bound) ino) (λ found.
        let old : List ℕ = elim found [ none ↦ [] | some b ↦ b ] in
        let snaps = offset == 0 && not (length old == 0) in
        let new = spliced offset bytes old in
        Preserves-bind P
          (Preserves-if P snaps
            (Preserves-take_snapshot P (Linked-IsStable bound) (λ s m p. p) w ino f old)
            (Preserves-pure P tt))
          (λ _.
            Preserves-bind P
              (Preserves-update P (Linked-IsStable bound) ino (written w (length new))
                (λ g. (refl, refl)))
              (λ _.
                Preserves-bind P
                  (Preserves-if P snaps (Preserves-gc P (Linked-IsStable bound) (λ s m p. p))
                    (Preserves-pure P tt))
                  (λ _.
                    Preserves-bind P
                      (Preserves-cache_insert P (Linked-IsStable bound) w ino new (λ s c p. p))
                      (λ _. Preserves-pure P (replied (length bytes)))))))

  pub Preserves-write :
      (w : World) (trimmed : List ℕ → List ℕ) (ino offset : ℕ) (bytes : List ℕ)
      → Preserves P (write w trimmed ino offset bytes)
  unfolding write
  Preserves-write w trimmed ino offset bytes = record {
    keeps = λ s p.
        Leaves-if (λ _. P)
          (some (replied (length bytes), record s { search_query = trimmed bytes })) _
          (ino == search_ino) p
          (Leaves-if (λ _. P)
            (some (replied (length bytes), record s { ask_query = trimmed bytes })) _
            (ino == ask_ino) p
            (Leaves-option (λ _. P) (some (error enoent, s))
              (λ f.
                if ltb (offset + length bytes) (2 ^ 64)
                then write_file w ino f offset bytes s
                else none)
              (lookup ino s.files) p
              (λ f.
                Leaves-if (λ _. P) (write_file w ino f offset bytes s) none
                  (ltb (offset + length bytes) (2 ^ 64))
                  ((Preserves-write_file w ino f offset bytes).keeps s p) tt)));
  }

  Preserves-set_size :
      (w : World) (ino : ℕ) (f : VexFile) (size : ℕ) → Preserves P (set_size w ino f size)
  unfolding set_size
  Preserves-set_size w ino f size =
      Preserves-bind P (Preserves-cached P (Linked-IsStable bound) ino) (λ found.
        let old : List ℕ = elim found [ none ↦ [] | some b ↦ b ] in
        Preserves-bind P
          (Preserves-take_snapshot P (Linked-IsStable bound) (λ s m p. p) w ino f old)
          (λ _.
            Preserves-bind P
              (Preserves-update P (Linked-IsStable bound) ino (sized size) (λ g. (refl, refl)))
              (λ _. Preserves-bind P (Preserves-gc P (Linked-IsStable bound) (λ s m p. p)) (λ _.
                Preserves-bind P
                  (Preserves-cache_insert P (Linked-IsStable bound) w ino (resize size old)
                    (λ s c p. p))
                  (λ _. Preserves-pure P (replied (sized size f).attr))))))

  set_file_attr-keeps :
      (w : World) (ino : ℕ) (size : Option ℕ) (s : VexFs)
      → P s
      → Leaves (λ _. P) (set_file_attr w ino size s)
  unfolding set_file_attr
  set_file_attr-keeps w ino size s p =
      Leaves-option (λ _. P) (some (error enoent, s)) _ (lookup ino s.files) p
        (λ f.
          Leaves-option (λ _. P) (some (replied f.attr, s))
            (λ n. if n == f.attr.size then some (replied f.attr, s) else set_size w ino f n s) size
            p
            (λ n.
              Leaves-if (λ _. P) (some (replied f.attr, s)) (set_size w ino f n s)
                (n == f.attr.size) p ((Preserves-set_size w ino f n).keeps s p)))

  pub Preserves-setattr : (w : World) (ino : ℕ) (size : Option ℕ) → Preserves P (setattr w ino size)
  unfolding setattr
  Preserves-setattr w ino size = record {
    keeps = λ s p.
        Leaves-if (λ _. P) (some (replied _, record s { search_query = [] })) _
          (ino == search_ino && is_zero size) p
          (Leaves-if (λ _. P) (some (replied _, record s { ask_query = [] })) _
            (ino == ask_ino && is_zero size) p (set_file_attr-keeps w ino size s p));
  }

  pub Preserves-fsync : (w : World) (ino : ℕ) → Preserves P (fsync w ino)
  unfolding fsync
  Preserves-fsync w ino =
      Preserves-bind P (Preserves-flush_file P (Linked-IsStable bound) w ino)
        (λ _. Preserves-pure P (replied tt))
