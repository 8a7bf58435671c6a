-- ===== src/Fuse/Writes.antt =====
-- src/fuse/mod.rs: about a read behind a write.
use vexfs.Base.{
  ℕ, ◌+◌, ◌^◌, ◌≡◌, ◌∙◌, sym, ap, refl, List, [], Option, none, some, false, not, ◌==◌, ◌&&◌, ltb,
  if◌then◌else◌, length, replicate, Bool-cases, inl, inr, arith,
}
use mathlib.Core.Path.{subst}
use vexfs.Base.Map.{lookup}
use vexfs.Cache.{ArcCache}
use vexfs.Cache
use vexfs.Cache.Methods.{get_lem}
use vexfs.Fuse.{
  VexFs, VexFile, World, Reply, replied, error, enoent, Fs, skip, pure, modify, update_file,
  search_ino, ask_ino,
}
use vexfs.Fuse.Persist.{maybe_gc_snapshots, cache_insert}
use vexfs.Fuse.Data.{
  sliced, spliced, read, read_file, read_disk, write, write_file, take_snapshot, written,
  virtual_bytes,
}
use vexfs.Fuse.Steps.{
  Leaves, Leaves-bind, Leaves-imp, Leaves-if, Leaves-some, Preserves-pure, Preserves-if,
}
use vexfs.Fuse.Frame.{Preserves-update}
use vexfs.Fuse.Versions.{Preserves-take_snapshot, Preserves-gc}
use vexfs.Fuse.Holds.{Known, Holds, Known-IsStable, cache_insert-Holds}
use vexfs.Fuse.Contents.{sliced-spliced, sliced-front}

-- The bytes that a write starts from: those of the cache, or none.
abbrev pub old_bytes : ℕ → VexFs → List ℕ
old_bytes ino s = elim (Cache.get s.cache ino).0 [ none ↦ [] | some b ↦ b ]

write_file-Holds :
    (w : World) (ino : ℕ) (f : VexFile) (offset : ℕ) (bytes : List ℕ) (s : VexFs)
    → Known ino s
    → Leaves
        (λ r s'.
          (r ≡ replied (length bytes)) × Holds ino (spliced offset bytes (old_bytes ino s)) s')
        (write_file w ino f offset bytes s)
unfolding write_file
write_file-Holds w ino f offset bytes s p =
    let old = old_bytes ino s in
    let snaps = offset == 0 && not (length old == 0) in
    let new = spliced offset bytes old in
    let K = Known ino in
    let stable = Known-IsStable ino in
    let Q = λ (r : Reply ℕ) (t : VexFs). (r ≡ replied (length bytes)) × Holds ino new t in
    let s1 = record s { cache = (Cache.get s.cache ino).1 } in
    Leaves-bind Q (λ _. K) ((if snaps then take_snapshot w ino f old else skip) s1) _
      ((Preserves-if K snaps (Preserves-take_snapshot K stable (λ s m p. p) w ino f old)
          (Preserves-pure K tt)).keeps
        s1 (stable.cached ino s p))
      (λ _ t q.
        Leaves-bind Q (λ _. K) (modify (update_file ino (written w (length new))) t) _
          ((Preserves-update K stable ino (written w (length new)) (λ g. (refl, refl))).keeps t q)
          (λ _ t q.
            Leaves-bind Q (λ _. K) ((if snaps then maybe_gc_snapshots else skip) t) _
              ((Preserves-if K snaps (Preserves-gc K stable (λ s m p. p))
                  (Preserves-pure K tt)).keeps
                t q)
              (λ _ t q.
                Leaves-bind Q (λ _. Holds ino new) (cache_insert w ino new t)
                  (λ _. pure (replied (length bytes))) (cache_insert-Holds w ino new t q)
                  (λ _ t h. (refl, h)))))

-- A file in the cache is read from there.
read_file-hit :
    (w : World) (ino : ℕ) (f : VexFile) (offset size : ℕ) (bytes : List ℕ) (s : VexFs)
    → (Cache.get s.cache ino).0 ≡ some bytes
    → read_file w ino f offset size s
      ≡ some (replied (sliced offset size bytes), record s { cache = (Cache.get s.cache ino).1 })
unfolding read_file
read_file-hit w ino f offset size bytes s e =
    let t = record s { cache = (Cache.get s.cache ino).1 } in
    let r : Option (Reply (List ℕ) × VexFs) = some (replied (sliced offset size bytes), t) in
    subst
      (λ (o : Option (List ℕ)).
        Path (Option (Reply (List ℕ) × VexFs))
          ((elim o as (λ _. Fs (Reply (List ℕ))) [
            | some b ↦ pure (replied (sliced offset size b))
            | none ↦ read_disk w ino f offset size
          ])
            t)
          r)
      (sym e) refl

read-Holds :
    (w : World) (ino offset size : ℕ) (bytes : List ℕ) (s : VexFs)
    → virtual_bytes w ino ≡ none
    → Holds ino bytes s
    → (s' : VexFs) × (read w ino offset size s ≡ some (replied (sliced offset size bytes), s'))
unfolding read
read-Holds w ino offset size bytes s real ((v, (f, at)), hit) =
    let (_, _, found) = get_lem s.cache ino v in
    let e : (Cache.get s.cache ino).0 ≡ some bytes = found ∙ rw hit refl in
    (
      record s { cache = (Cache.get s.cache ino).1 },
      rw (read, real, at) (read_file-hit w ino f offset size bytes s e),
    )

real_ino :
    (w : World) (ino : ℕ)
    → virtual_bytes w ino ≡ none
    → ((ino == search_ino) ≡ false) × ((ino == ask_ino) ≡ false)
real_ino w ino h = elim (Bool-cases (ino == search_ino)) [
  | inl is_search ↦ absurd (ground (arith, h, is_search))
  | inr other ↦ elim (Bool-cases (ino == ask_ino)) [
    | inl is_ask ↦ absurd (ground (arith, h, is_ask))
    | inr real ↦ (other, real)
  ]
]

write-Holds :
    (w : World) (trimmed : List ℕ → List ℕ) (ino offset : ℕ) (bytes : List ℕ) (s : VexFs)
    → virtual_bytes w ino ≡ none
    → Known ino s
    → Leaves
        (λ r s'.
          (r ≡ replied (length bytes)) × Holds ino (spliced offset bytes (old_bytes ino s)) s')
        (write w trimmed ino offset bytes s)
unfolding write
write-Holds w trimmed ino offset bytes s real (v, (f, at)) =
    let Q = λ (r : Reply ℕ) (s' : VexFs).
      (r ≡ replied (length bytes)) × Holds ino (spliced offset bytes (old_bytes ino s)) s' in
    let (a, b) = real_ino w ino real in
    rw (a, b)
      (Leaves-some Q (some (error enoent, s)) _ (lookup ino s.files) f at (
        Leaves-if Q (write_file w ino f offset bytes s) none (ltb (offset + length bytes) (2 ^ 64))
          (write_file-Holds w ino f offset bytes s (v, (f, at))) tt))

-- On a valid cache, a write to a file that is there and is not a virtual one replies the number of
-- the bytes, if it does not panic, and every later read is answered from the old bytes in the cache,
-- or from none if it has none, with the new bytes spliced in at the offset.
pub read-write :
    (w w' : World) (trimmed : List ℕ → List ℕ) (ino offset : ℕ) (bytes : List ℕ) (s : VexFs)
    → virtual_bytes w ino ≡ none
    → virtual_bytes w' ino ≡ none
    → Known ino s
    → Leaves
        (λ r s'.
          (r ≡ replied (length bytes))
          × ((start size : ℕ)
              → (s'' : VexFs) × (read w' ino start size s'
                  ≡ some
                      (replied (sliced start size (spliced offset bytes (old_bytes ino s))), s''))))
        (write w trimmed ino offset bytes s)
read-write w w' trimmed ino offset bytes s real real' p =
    Leaves-imp _ _ (write w trimmed ino offset bytes s)
      (λ r s' h. (
        h.0,
        λ start size.
            read-Holds w' ino start size (spliced offset bytes (old_bytes ino s)) s' real' h.1,
      ))
      (write-Holds w trimmed ino offset bytes s real p)

-- On a valid cache, if a write to a file that is there and is not a virtual one does not panic, the
-- range that was written is read back.
pub read_back :
    (w w' : World) (trimmed : List ℕ → List ℕ) (ino offset : ℕ) (bytes : List ℕ) (s : VexFs)
    → virtual_bytes w ino ≡ none
    → virtual_bytes w' ino ≡ none
    → Known ino s
    → Leaves
        (λ r s'. (s'' : VexFs) × (read w' ino offset (length bytes) s' ≡ some (replied bytes, s'')))
        (write w trimmed ino offset bytes s)
read_back w w' trimmed ino offset bytes s real real' p =
    Leaves-imp _ _ (write w trimmed ino offset bytes s)
      (λ r s' h.
        let (s'', e) = h.1 offset (length bytes) in
        (
          s'',
          e ∙ ap (λ bs. some (replied bs, s'')) (sliced-spliced offset bytes (old_bytes ino s)),
        ))
      (read-write w w' trimmed ino offset bytes s real real' p)

-- On a valid cache, if a write to a file that is there, is not a virtual one and is not in the cache
-- does not panic, the bytes before the write are read as zeroes, whatever the disk has of the file.
pub read_lost :
    (w w' : World) (trimmed : List ℕ → List ℕ) (ino offset : ℕ) (bytes : List ℕ) (s : VexFs)
    → virtual_bytes w ino ≡ none
    → virtual_bytes w' ino ≡ none
    → Known ino s
    → lookup ino s.cache.entries ≡ none
    → Leaves
        (λ r s'.
          (s'' : VexFs) × (read w' ino 0 offset s' ≡ some (replied (replicate offset 0), s'')))
        (write w trimmed ino offset bytes s)
read_lost w w' trimmed ino offset bytes s real real' p miss =
    let (_, _, found) = get_lem s.cache ino p.0 in
    let e : (Cache.get s.cache ino).0 ≡ none = found ∙ rw miss refl in
    let none_old : old_bytes ino s ≡ [] = rw (e, old_bytes) refl in
    Leaves-imp _ _ (write w trimmed ino offset bytes s)
      (λ r s' h.
        let (s'', read_eq) = h.1 0 offset in
        (
          s'',
          read_eq
              ∙ ap (λ bs. some (replied bs, s''))
                  (ap (λ old. sliced 0 offset (spliced offset bytes old)) none_old
                    ∙ sliced-front offset bytes),
        ))
      (read-write w w' trimmed ino offset bytes s real real' p)
