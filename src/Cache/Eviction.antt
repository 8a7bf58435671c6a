-- ===== src/Cache/Eviction.antt =====
-- src/cache/mod.rs: one eviction, and the loop that makes room.
use vexfs.Base.{
  ℕ, ◌+◌, ◌<◌, ◌≡◌, refl, List, [], ◌∷◌, ◌++◌, none, some, true, not, ◌==◌, if◌then◌else◌, length,
  Bool-cases, Option-cases, inl, inr, arith,
}
use vexfs.Base.Map.{without, lookup, member-without, length-without-lt}
use vexfs.Cache.{
  OrderedSet, ArcCache, push_back, truncate_to, ghost_max, evict_from_t1, drop_entry, evicted_t1,
  evicted_t2, evict_one, first_live,
}
use vexfs.Cache.Sets.{
  Popped, pop_front-Popped, Tracked-Popped, Tracked-push_back, truncate_to-bounded,
}
use vexfs.Cache.Invariant.{
  IsValid, IsGhost, IsCounted, IsCounted_of, lookup-drop_entry, IsCounted-drop_entry,
}

-- How many keys T1 and T2 hold.
abbrev pub resident : ArcCache → ℕ
resident c = length c.t1.set + length c.t2.set

-- `d` is `c` after the eviction of `key`.
pub record Evicts (c d : ArcCache) (key : ℕ) : Type 0 where
  pub valid : IsValid d
  pub smaller : resident d < resident c
  pub max_bytes : d.max_bytes ≡ c.max_bytes
  pub reported : d.evicted ≡ c.evicted ++ (key ∷ [])
  pub others : (j : ℕ) → lookup j d.entries ≡ (if key == j then none else lookup j c.entries)

IsGhost-push :
    (s : OrderedSet) (key : ℕ) → IsGhost s → IsGhost (truncate_to (push_back s key) ghost_max)
IsGhost-push s key g =
    let t = truncate_to-bounded (push_back s key) ghost_max (Tracked-push_back s key g.tracked) in
    record { tracked = t.0; bounded = t.1 }

module _ (c : ArcCache) (key : ℕ) where
  -- Dropping an entry changes no list of keys.
  lists-drop_entry :
      ((drop_entry c key).t1 ≡ c.t1)
      × ((drop_entry c key).t2 ≡ c.t2)
      × ((drop_entry c key).b1 ≡ c.b1)
      × ((drop_entry c key).b2 ≡ c.b2)
      × ((drop_entry c key).max_bytes ≡ c.max_bytes)
  unfolding drop_entry
  lists-drop_entry = elim (Option-cases (lookup key c.entries)) [
    | inl miss ↦ rw (miss, drop_entry) (refl, refl, refl, refl, refl)
    | inr (e, hit) ↦ rw (hit, drop_entry) (refl, refl, refl, refl, refl)
  ]

module _ (c : ArcCache) (key : ℕ) (rest : List ℕ) (v : IsValid c) where
  counted : IsCounted (drop_entry c key).used_bytes (drop_entry c key).entries
  counted = IsCounted-drop_entry c key (IsCounted_of v)

  entry_of :
      (j : ℕ)
      → lookup j (drop_entry c key).entries ≡ (if key == j then none else lookup j c.entries)
  entry_of = lookup-drop_entry c key (IsCounted_of v)

  evicted_t1-Evicts :
      Popped c.t1 key rest
      → Evicts c (evicted_t1 c (some key, record { order = rest; set = without key c.t1.set })) key
  unfolding evicted_t1
  evicted_t1-Evicts q =
      let l = lists-drop_entry c key in
      record {
        valid = record {
          tracked1 = Tracked-Popped c.t1 key rest v.tracked1 q;
          tracked2 = rw l.1 v.tracked2;
          ghost1 = IsGhost-push c.b1 key v.ghost1;
          ghost2 = rw l.3 v.ghost2;
          distinct = counted.distinct;
          listed = λ k e h.
              rw l.1 (ground (arith, entry_of k, v.listed k e, member-without key k c.t1.set));
          sized = counted.sized;
          used = counted.used_eq;
        };
        smaller = rw l.1 (omega (arith, length-without-lt key c.t1.set q.live));
        max_bytes = l.4;
        reported = refl;
        others = entry_of;
      }

  evicted_t2-Evicts :
      Popped c.t2 key rest
      → Evicts c (evicted_t2 c (some key, record { order = rest; set = without key c.t2.set })) key
  unfolding evicted_t2
  evicted_t2-Evicts q =
      let l = lists-drop_entry c key in
      record {
        valid = record {
          tracked1 = rw l.0 v.tracked1;
          tracked2 = Tracked-Popped c.t2 key rest v.tracked2 q;
          ghost1 = rw l.2 v.ghost1;
          ghost2 = IsGhost-push c.b2 key v.ghost2;
          distinct = counted.distinct;
          listed = λ k e h.
              rw l.0 (ground (arith, entry_of k, v.listed k e, member-without key k c.t2.set));
          sized = counted.sized;
          used = counted.used_eq;
        };
        smaller = rw l.0 (omega (arith, length-without-lt key c.t2.set q.live));
        max_bytes = l.4;
        reported = refl;
        others = entry_of;
      }

-- The list that the next eviction takes from.
abbrev pub source_list : ArcCache → OrderedSet
source_list c = if evict_from_t1 c then c.t1 else c.t2

-- If any key is resident, `evict_one` takes the first live key of the list that the target `p`
-- selects: it leaves the cache valid, drops that key's entry alone and reports it.
pub evict_one-Evicts :
    (c : ArcCache)
    → IsValid c
    → 0 < resident c
    → (key : ℕ) × (first_live (source_list c).set (source_list c).order ≡ some key)
      × Evicts c (evict_one c) key
unfolding evict_one
evict_one-Evicts c v some_key = elim (Bool-cases (evict_from_t1 c)) [
  | inl left ↦
      let (key, rest, q) = pop_front-Popped c.t1 v.tracked1 (ground arith) in
      let here : not (length c.t1.set == 0) ≡ true = ground arith in
      (key, rw left q.first, rw (left, here, q.out) (evicted_t1-Evicts c key rest v q))
  | inr right ↦
      let (key, rest, q) = pop_front-Popped c.t2 v.tracked2 (ground arith) in
      let here : not (length c.t2.set == 0) ≡ true = ground arith in
      (key, rw right q.first, rw (right, here, q.out) (evicted_t2-Evicts c key rest v q))
]
