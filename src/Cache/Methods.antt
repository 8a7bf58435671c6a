-- ===== src/Cache/Methods.antt =====
-- src/cache/mod.rs: the methods of the cache other than `insert`.
use vexfs.Base.{
  ℕ, ◌-◌, ◌≡◌, refl, List, none, some, true, ◌||◌, ◌==◌, if◌then◌else◌, Bool-cases, Option-cases,
  inl, inr, arith,
}
use vexfs.Base.Map.{member, lookup, remove as map_remove, total, member-without}
use vexfs.Cache.{
  Entry, OrderedSet, ArcCache, push_back, remove_key, promote, get, adapt, remove, new,
}
use vexfs.Cache.Sets.{
  Tracked, Tracked-empty, Tracked-push_back, Tracked-remove_key, member-push_back,
}
use vexfs.Cache.Invariant.{
  IsValid, IsCounted, IsCounted_of, IsCounted-map_remove, lookup-map_remove,
}

pub new-IsValid : (max_bytes : ℕ) → IsValid (new max_bytes)
unfolding lookup total
new-IsValid max_bytes = record {
  tracked1 = Tracked-empty;
  tracked2 = Tracked-empty;
  ghost1 = record { tracked = Tracked-empty; bounded = omega arith };
  ghost2 = record { tracked = Tracked-empty; bounded = omega arith };
  distinct = tt;
  listed = λ k e h. absurd (cc);
  sized = λ k e h. absurd (cc);
  used = refl;
}

-- Keys may move between T1 and T2 as long as none is lost.
relist-IsValid :
    (c : ArcCache) (x y : OrderedSet)
    → IsValid c
    → Tracked x
    → Tracked y
    → ((k : ℕ)
        → (member k c.t1.set || member k c.t2.set) ≡ true
        → (member k x.set || member k y.set) ≡ true)
    → IsValid (record c { t1 = x; t2 = y })
relist-IsValid c x y v tx ty covered = record {
  tracked1 = tx;
  tracked2 = ty;
  ghost1 = v.ghost1;
  ghost2 = v.ghost2;
  distinct = v.distinct;
  listed = λ k e h. covered k (v.listed k e h);
  sized = v.sized;
  used = v.used;
}

-- New lists of keys and new entries, consistent with one another.
pub rebuilt-IsValid :
    (c : ArcCache) (x y : OrderedSet) (used : ℕ) (entries : List (ℕ × Entry))
    → IsValid c
    → Tracked x
    → Tracked y
    → IsCounted used entries
    → ((k : ℕ) (e : Entry) → lookup k entries ≡ some e → (member k x.set || member k y.set) ≡ true)
    → IsValid (record c { t1 = x; t2 = y; used_bytes = used; entries = entries })
rebuilt-IsValid c x y used entries v tx ty counted listed = record {
  tracked1 = tx;
  tracked2 = ty;
  ghost1 = v.ghost1;
  ghost2 = v.ghost2;
  distinct = counted.distinct;
  listed = listed;
  sized = counted.sized;
  used = counted.used_eq;
}

module _ (c : ArcCache) (key : ℕ) (v : IsValid c) where
  pub promote-IsValid : IsValid (promote c key)
  unfolding promote remove_key
  promote-IsValid = elim (Bool-cases (member key c.t1.set)) [
    | inl found ↦
        rw (found, promote)
          (relist-IsValid c (remove_key c.t1 key).1 (push_back c.t2 key) v
            (Tracked-remove_key c.t1 key v.tracked1) (Tracked-push_back c.t2 key v.tracked2)
            (λ k. ground (arith, member-without key k c.t1.set, member-push_back c.t2 key k)))
    | inr missing ↦
        rw (missing, promote)
          (relist-IsValid c (remove_key c.t1 key).1 c.t2 v (Tracked-remove_key c.t1 key v.tracked1)
            v.tracked2 (λ k. ground (arith, member-without key k c.t1.set)))
  ]

  entries-promote :
      ((promote c key).entries ≡ c.entries) × ((promote c key).used_bytes ≡ c.used_bytes)
  unfolding promote
  entries-promote = ground arith

  adapt-IsValid : IsValid (adapt c key)
  adapt-IsValid = record {
    tracked1 = v.tracked1;
    tracked2 = v.tracked2;
    ghost1 = v.ghost1;
    ghost2 = v.ghost2;
    distinct = v.distinct;
    listed = v.listed;
    sized = v.sized;
    used = v.used;
  }

  -- `get` keeps the invariant and returns the stored bytes, and it changes no entry.
  pub get_lem :
      IsValid (get c key).1
      × ((get c key).1.entries ≡ c.entries)
      × ((get c key).0 ≡ elim (lookup key c.entries) [ none ↦ none | some e ↦ some e.bytes ])
  unfolding get
  get_lem = elim (Option-cases (lookup key c.entries)) [
    | inl miss ↦ rw (miss, get) (adapt-IsValid, refl, refl)
    | inr (e, hit) ↦ rw (hit, get) (promote-IsValid, entries-promote.0, refl)
  ]

  -- `remove` returns the stored bytes, takes the key out and leaves every other entry.
  pub remove_lem :
      IsValid (remove c key).1
      × ((remove c key).0 ≡ elim (lookup key c.entries) [ none ↦ none | some e ↦ some e.bytes ])
      × ((j : ℕ)
          → lookup j (remove c key).1.entries ≡ (if key == j then none else lookup j c.entries))
  unfolding remove remove_key
  remove_lem = elim (Option-cases (lookup key c.entries)) [
    | inl miss ↦ rw (miss, remove) (v, refl, λ j. ground arith)
    | inr (e, hit) ↦
        rw (hit, remove)
          (
            rebuilt-IsValid c (remove_key c.t1 key).1 (remove_key c.t2 key).1
                (c.used_bytes - e.size) (map_remove key c.entries) v
                (Tracked-remove_key c.t1 key v.tracked1) (Tracked-remove_key c.t2 key v.tracked2)
                (IsCounted-map_remove c.used_bytes key e c.entries hit (IsCounted_of v))
                (λ k f h. ground (
                  arith,
                  lookup-map_remove key k c.entries v.distinct,
                  v.listed k f,
                  member-without key k c.t1.set,
                  member-without key k c.t2.set,
                )),
            refl,
            λ j. lookup-map_remove key j c.entries v.distinct,
          )
  ]
