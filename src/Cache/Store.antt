-- ===== src/Cache/Store.antt =====
-- src/cache/mod.rs: the part of `insert` that stores the value, for a new key and for a known one.
use vexfs.Base.{
  ℕ, ◌+◌, ◌-◌, ◌≡◌, List, none, some, true, not, ◌&&◌, ◌||◌, ◌==◌, length, Bool-cases, inl, inr,
  arith,
}
use vexfs.Base.Map.{
  member, lookup, insert as map_insert, total, lookup-insert, Distinct-insert, total-insert_new,
  total-insert_old, total-remove,
}
use vexfs.Cache.{Entry, OrderedSet, ArcCache, push_back, store, update}
use vexfs.Cache.Sets.{Tracked-push_back, member-push_back}
use vexfs.Cache.Invariant.{IsValid, IsCounted, weight}
use vexfs.Cache.Methods.{rebuilt-IsValid, promote-IsValid}

abbrev pub entry_of : List ℕ → Entry
entry_of value = record { bytes = value; size = length value }

module _ (c : ArcCache) (key : ℕ) (v : IsValid c) where
  IsCounted-map_insert :
      (value : List ℕ) (used : ℕ)
      → used ≡ total weight (map_insert key (entry_of value) c.entries)
      → IsCounted used (map_insert key (entry_of value) c.entries)
  IsCounted-map_insert value used same = record {
    distinct = Distinct-insert key (entry_of value) c.entries v.distinct;
    sized = λ k e h. ground (arith, lookup-insert key k (entry_of value) c.entries, v.sized k e);
    used_eq = same;
  }

  listed-insert :
      (x y : OrderedSet) (value : List ℕ)
      → (member key x.set || member key y.set) ≡ true
      → ((k : ℕ)
          → (member k c.t1.set || member k c.t2.set) ≡ true
          → (member k x.set || member k y.set) ≡ true)
      → (k : ℕ) (e : Entry) → lookup k (map_insert key (entry_of value) c.entries) ≡ some e
      → (member k x.set || member k y.set) ≡ true
  listed-insert x y value here wider k e h =
      let law = lookup-insert key k (entry_of value) c.entries in
      elim (Bool-cases (key == k)) [
        | inl same ↦ let eq : key ≡ k = ground arith in rw (← eq) here
        | inr other ↦ wider k (v.listed k e (ground (arith, law)))
      ]

  counted-store :
      (value : List ℕ)
      → lookup key c.entries ≡ none
      → IsCounted (c.used_bytes + length value) (map_insert key (entry_of value) c.entries)
  counted-store value miss =
      IsCounted-map_insert value (c.used_bytes + length value)
        (omega (arith, total-insert_new weight key (entry_of value) c.entries miss, v.used))

  pub store-IsValid : (value : List ℕ) → lookup key c.entries ≡ none → IsValid (store key value c)
  unfolding store
  store-IsValid value miss =
      elim (Bool-cases (not (member key c.t1.set) && not (member key c.t2.set))) [
        | inl fresh ↦ rw fresh (
            rebuilt-IsValid c (push_back c.t1 key) c.t2 (c.used_bytes + length value)
              (map_insert key (entry_of value) c.entries) v (Tracked-push_back c.t1 key v.tracked1)
              v.tracked2 (counted-store value miss)
              (listed-insert (push_back c.t1 key) c.t2 value
                (ground (arith, member-push_back c.t1 key key))
                (λ k. ground (arith, member-push_back c.t1 key k))))
        | inr known ↦ rw known (
            rebuilt-IsValid c c.t1 c.t2 (c.used_bytes + length value)
              (map_insert key (entry_of value) c.entries) v v.tracked1 v.tracked2
              (counted-store value miss) (listed-insert c.t1 c.t2 value (ground arith) (λ k h. h)))
      ]

  replaced-IsValid :
      (value : List ℕ) (e : Entry)
      → lookup key c.entries ≡ some e
      → IsValid (record c {
        used_bytes = c.used_bytes - e.size + length value;
        entries = map_insert key (entry_of value) c.entries;
      })
  replaced-IsValid value e hit =
      rebuilt-IsValid c c.t1 c.t2 (c.used_bytes - e.size + length value)
        (map_insert key (entry_of value) c.entries) v v.tracked1 v.tracked2
        (IsCounted-map_insert value (c.used_bytes - e.size + length value) (
          omega (
            arith,
            total-insert_old weight key (entry_of value) e c.entries hit,
            total-remove weight key e c.entries hit,
            v.used,
            v.sized key e hit,
          )))
        (listed-insert c.t1 c.t2 value (v.listed key e hit) (λ k h. h))

pub update-IsValid :
    (c : ArcCache) (key : ℕ) (value : List ℕ) (e : Entry)
    → IsValid c
    → lookup key c.entries ≡ some e
    → IsValid (update key value e c)
unfolding update
update-IsValid c key value e v hit =
    promote-IsValid
      (record c {
        used_bytes = c.used_bytes - e.size + length value;
        entries = map_insert key (entry_of value) c.entries;
      })
      key (replaced-IsValid c key v value e hit)
