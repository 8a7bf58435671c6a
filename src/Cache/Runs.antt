-- ===== src/Cache/Runs.antt =====
-- Runs of the cache, after the tests of src/cache/mod.rs, and the theorems at them.
use vexfs.Base.{ℕ, ◌<◌, ◌≡◌, refl, [], ◌∷◌, ◌++◌, none, some, arith}
use mathlib.Core.Path.{subst}
use vexfs.Base.Map.{lookup}
use vexfs.Cache.{
  OrderedSet, ArcCache, new, insert, get, evict_one, peek_eviction_candidate, first_live, push_back,
  empty_set,
}
use vexfs.Cache.Invariant.{IsValid}
use vexfs.Cache.Methods.{new-IsValid}
use vexfs.Cache.Eviction.{Evicts, source_list, evict_one-Evicts}
use vexfs.Cache.Ceiling.{Inserted, insert_total, insert_exceeds, peek-evict_one}

-- The cache after `insert(1, [7, 8])` into an empty cache of three bytes.
abbrev one : ArcCache
one = record (new 3) {
  t1 = record { order = 1 ∷ []; set = 1 ∷ [] };
  entries = (1, record { bytes = 7 ∷ 8 ∷ []; size = 2 }) ∷ [];
  used_bytes = 2;
}

insert_run : insert (new 3) 1 (7 ∷ 8 ∷ []) ≡ some one
unfolding insert
insert_run = refl

-- test_evicted_list_populated
evict_run :
    insert one 2 (5 ∷ 6 ∷ [])
    ≡ some (record one {
      t1 = record { order = 2 ∷ []; set = 2 ∷ [] };
      b1 = record { order = 1 ∷ []; set = 1 ∷ [] };
      entries = (2, record { bytes = 5 ∷ 6 ∷ []; size = 2 }) ∷ [];
      evicted = 1 ∷ [];
    })
unfolding insert
evict_run = refl

-- test_promotion_t1_to_t2
promote_run : (get one 1).1.t2 ≡ record { order = 1 ∷ []; set = 1 ∷ [] }
unfolding get
promote_run = refl

one-IsValid : IsValid one
one-IsValid =
    let (d, eq, i) = insert_total (new 3) 1 (7 ∷ 8 ∷ []) (new-IsValid 3) in
    let same : d ≡ one = cc (eq, insert_run) in subst IsValid same i.valid

insert_total_example : (d : ArcCache) × (insert one 2 (5 ∷ []) ≡ some d) × Inserted one 2 (5 ∷ []) d
insert_total_example = insert_total one 2 (5 ∷ []) one-IsValid

insert_exceeds_example :
    (d : ArcCache) × (insert one 2 (5 ∷ 5 ∷ 5 ∷ 5 ∷ []) ≡ some d)
    × (lookup 2 d.entries ≡ some (record { bytes = 5 ∷ 5 ∷ 5 ∷ 5 ∷ []; size = 4 }))
    × (d.max_bytes < d.used_bytes)
insert_exceeds_example =
    insert_exceeds one 2 (5 ∷ 5 ∷ 5 ∷ 5 ∷ []) one-IsValid two_missing (omega arith)
  where
    two_missing : lookup 2 one.entries ≡ none
    two_missing = unfold lookup in refl

evict_one-Evicts_example :
    (key : ℕ) × (first_live (source_list one).set (source_list one).order ≡ some key)
    × Evicts one (evict_one one) key
evict_one-Evicts_example = evict_one-Evicts one one-IsValid (omega arith)

abbrev full : ArcCache
full = record one { max_bytes = 2 }

full-IsValid : IsValid full
full-IsValid = record {
  tracked1 = one-IsValid.tracked1;
  tracked2 = one-IsValid.tracked2;
  ghost1 = one-IsValid.ghost1;
  ghost2 = one-IsValid.ghost2;
  distinct = one-IsValid.distinct;
  listed = one-IsValid.listed;
  sized = one-IsValid.sized;
  used = one-IsValid.used;
}

peek-evict_one_example :
    (key : ℕ) × (peek_eviction_candidate full ≡ some key)
    × ((evict_one full).evicted ≡ full.evicted ++ (key ∷ []))
peek-evict_one_example = peek-evict_one full full-IsValid (omega arith) (omega arith)

abbrev ghosts : OrderedSet
ghosts = push_back (push_back empty_set 1) 2
