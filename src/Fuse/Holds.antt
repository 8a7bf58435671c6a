-- ===== src/Fuse/Holds.antt =====
-- src/fuse/mod.rs: about the bytes of a file in the cache, and `cache_insert`.
use vexfs.Base.{ℕ, ◌≡◌, ◌∙◌, sym, ap, refl, List, [], none, some, ◌==◌, Bool-cases, inl, inr}
use mathlib.Core.Path.{subst}
use vexfs.Base.Map.{lookup, lookup-insert}
use vexfs.Base.Map
use vexfs.Cache.{ArcCache}
use vexfs.Cache
use vexfs.Cache.Invariant.{IsValid}
use vexfs.Cache.Store.{entry_of}
use vexfs.Cache.Methods.{get_lem}
use vexfs.Cache.Ceiling.{insert_total}
use vexfs.Fuse.{VexFs, VexFile, World, skip}
use vexfs.Fuse.Persist.{cache_insert, pre_eviction_flush, flush_cache_evictions}
use vexfs.Fuse.Steps.{Leaves, Leaves-bind, Leaves-some}
use vexfs.Fuse.Frame.{
  IsStable, update_file_lem, Preserves-pre_eviction_flush, Preserves-flush_evicted,
}

-- The cache is valid and the file is there.
abbrev pub Known : ℕ → VexFs → Type 0
Known ino s = IsValid s.cache × ((f : VexFile) × (lookup ino s.files ≡ some f))

-- The cache is valid, the file is there, and the cache has its bytes.
abbrev pub Holds : ℕ → List ℕ → VexFs → Type 0
Holds ino bytes s = Known ino s × (lookup ino s.cache.entries ≡ some (entry_of bytes))

known_file :
    (ino i : ℕ) (g : VexFile) (files : List (ℕ × VexFile))
    → ((f : VexFile) × (lookup ino files ≡ some f))
    → (f : VexFile) × (lookup ino (Map.insert i g files) ≡ some f)
known_file ino i g files (f, at) = elim (Bool-cases (i == ino)) [
  | inl same ↦ (g, rw (lookup-insert i ino g files, same) refl)
  | inr other ↦ (f, rw (lookup-insert i ino g files, other) at)
]

pub Known-IsStable : (ino : ℕ) → IsStable (Known ino)
Known-IsStable ino = record {
  disk = λ s image p. p;
  buffer = λ s b p. p;
  file = λ i f silent s p.
      update_file_lem (Known ino) i f s p (λ file at. (p.0, known_file ino i (f file) s.files p.1));
  cached = λ i s p. ((get_lem s.cache i p.0).0, p.1);
}

Holds-IsStable : (ino : ℕ) (bytes : List ℕ) → IsStable (Holds ino bytes)
Holds-IsStable ino bytes = record {
  disk = λ s image p. p;
  buffer = λ s b p. p;
  file = λ i f silent s p.
      update_file_lem (Holds ino bytes) i f s p
        (λ file at. ((p.0.0, known_file ino i (f file) s.files p.0.1), p.1));
  cached =
      λ i s p. let (v, e, g) = get_lem s.cache i p.0.0 in ((v, p.0.1), ap (lookup ino) e ∙ p.1);
}

drained-IsValid : (c : ArcCache) → IsValid c → IsValid (record c { evicted = [] })
drained-IsValid c v = record {
  tracked1 = v.tracked1;
  tracked2 = v.tracked2;
  ghost1 = v.ghost1;
  ghost2 = v.ghost2;
  distinct = v.distinct;
  listed = v.listed;
  sized = v.sized;
  used = v.used;
}

-- Evictions of other files, and even of this one before, do not matter.
pub cache_insert-Holds :
    (w : World) (ino : ℕ) (bytes : List ℕ) (s : VexFs)
    → Known ino s
    → Leaves (λ _. Holds ino bytes) (cache_insert w ino bytes s)
unfolding cache_insert flush_cache_evictions Cache.drain_evicted
cache_insert-Holds w ino bytes s p =
    Leaves-bind (λ _. Holds ino bytes) (λ _. Known ino) (pre_eviction_flush w s) _
      ((Preserves-pre_eviction_flush (Known ino) (Known-IsStable ino) w).keeps s p)
      (λ _ s' q.
        let (d, run, inserted) = insert_total s'.cache ino bytes q.0 in
        let s'' = record s' { cache = record d { evicted = [] } } in
        Leaves-bind (λ _. Holds ino bytes) (λ _ t. t ≡ record s' { cache = d })
          (elim (Cache.insert s'.cache ino bytes) [
            | none ↦ none
            | some c ↦ skip (record s' { cache = c })
          ])
          _ (Leaves-some _ none (λ c. skip (record s' { cache = c })) _ d run refl)
          (λ _ t e.
            subst (λ u. Leaves (λ _. Holds ino bytes) (flush_cache_evictions w u)) (sym e)
              ((Preserves-flush_evicted (Holds ino bytes) (Holds-IsStable ino bytes) w
                  d.evicted).keeps
                s'' ((drained-IsValid d inserted.valid, q.1), inserted.stored))))
