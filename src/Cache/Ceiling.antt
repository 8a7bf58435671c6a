-- ===== src/Cache/Ceiling.antt =====
-- src/cache/mod.rs: `insert` as a whole, about the memory ceiling.
use vexfs.Base.{
  ℕ, ◌+◌, ◌≤◌, ◌<◌, ◌≡◌, ◌≢◌, ◌⊎◌, refl, ◌∙◌, List, [], ◌∷◌, ◌++◌, none, some, true, false, ltb,
  length, Bool-cases, Option-cases, inl, inr, arith,
}
use vexfs.Base.Map.{member, lookup, insert as map_insert, lookup-insert, total}
use vexfs.Cache.{
  Entry, ArcCache, promote, make_room, room_fuel, store, update, insert, is_empty,
  peek_eviction_candidate, evict_one, evict_from_t1,
}
use vexfs.Cache.Invariant.{IsValid, weight}
use vexfs.Cache.Eviction.{resident, evict_one-Evicts}
use vexfs.Cache.Insert.{Room, make_room-Room}
use vexfs.Cache.Store.{entry_of, store-IsValid, update-IsValid}

-- What `insert key value` leaves of `c`.
pub record Inserted (c : ArcCache) (key : ℕ) (value : List ℕ) (d : ArcCache) : Type 0 where
  pub valid : IsValid d
  pub stored : lookup key d.entries ≡ some (entry_of value)
  pub others :
      (k : ℕ) (e : Entry)
      → key ≢ k
      → lookup k c.entries ≡ some e
      → (lookup k d.entries ≡ some e) ⊎ (member k d.evicted ≡ true)
  pub ceiling :
      lookup key c.entries ≡ none → length value ≤ c.max_bytes → d.used_bytes ≤ d.max_bytes

module _ (key : ℕ) (value : List ℕ) (d : ArcCache) where
  store_fields :
      ((store key value d).entries ≡ map_insert key (entry_of value) d.entries)
      × ((store key value d).evicted ≡ d.evicted)
      × ((store key value d).used_bytes ≡ d.used_bytes + length value)
      × ((store key value d).max_bytes ≡ d.max_bytes)
  unfolding store
  store_fields = ground arith

  update_fields :
      (e : Entry) → (update key value e d).entries ≡ map_insert key (entry_of value) d.entries
  unfolding update promote
  update_fields e = ground arith

used-empty : (m : List (ℕ × Entry)) → is_empty m ≡ true → total weight m ≡ 0
unfolding total
used-empty [] h = refl
used-empty (x ∷ m) h = absurd (cc)

Inserted-store :
    (c d : ArcCache) (key : ℕ) (value : List ℕ)
    → lookup key c.entries ≡ none
    → Room (length value) c d
    → Inserted c key value (store key value d)
Inserted-store c d key value miss r =
    let f = store_fields key value d in
    let law = λ (k : ℕ). lookup-insert key k (entry_of value) d.entries in
    record {
      valid = store-IsValid d key r.valid value (r.accounts.absent key miss);
      stored = rw f.0 (law key ∙ ground arith);
      others = λ k e ne at. elim (r.accounts.kept k e at) [
        | inl still ↦ inl (rw f.0 (law k ∙ ground arith))
        | inr gone ↦ inr (rw f.1 gone)
      ];
      ceiling = λ new fits.
          ground (arith, f.2, f.3, r.enough, r.max_bytes, used-empty d.entries, r.valid.used);
    }

Inserted-update :
    (c : ArcCache) (key : ℕ) (value : List ℕ) (e : Entry)
    → IsValid c
    → lookup key c.entries ≡ some e
    → Inserted c key value (update key value e c)
Inserted-update c key value e v hit =
    let f = update_fields key value c e in
    let law = λ (k : ℕ). lookup-insert key k (entry_of value) c.entries in
    record {
      valid = update-IsValid c key value e v hit;
      stored = rw f (law key ∙ ground arith);
      others = λ k g ne at. inl (rw f (law k ∙ ground arith));
      ceiling = λ new fits. absurd (cc);
    }

insert_miss :
    (c d : ArcCache) (key : ℕ) (value : List ℕ)
    → lookup key c.entries ≡ none
    → make_room (room_fuel c) (length value) c ≡ some d
    → insert c key value ≡ some (store key value d)
unfolding insert
insert_miss c d key value miss room = rw (miss, insert, room)

insert_hit :
    (c : ArcCache) (key : ℕ) (value : List ℕ) (e : Entry)
    → lookup key c.entries ≡ some e
    → insert c key value ≡ some (update key value e c)
unfolding insert
insert_hit c key value e hit = rw (hit, insert)

-- On a valid cache `insert` returns, and the result is valid and holds the value. Every other entry
-- is still there unchanged or is in the list of evicted keys. If the key is new and the value is no
-- larger than the ceiling, the bytes in use are at most the ceiling.
pub insert_total :
    (c : ArcCache) (key : ℕ) (value : List ℕ)
    → IsValid c
    → (d : ArcCache) × (insert c key value ≡ some d) × Inserted c key value d
insert_total c key value v = elim (Option-cases (lookup key c.entries)) [
  | inl miss ↦
      let (d, eq, r) = make_room-Room (room_fuel c) (length value) c v (omega arith) in
      (store key value d, insert_miss c d key value miss eq, Inserted-store c d key value miss r)
  | inr (e, hit) ↦
      (update key value e c, insert_hit c key value e hit, Inserted-update c key value e v hit)
]

-- On a valid cache, a new value larger than the ceiling is stored all the same: it is the entry of
-- its key then, and the bytes in use exceed the ceiling.
pub insert_exceeds :
    (c : ArcCache) (key : ℕ) (value : List ℕ)
    → IsValid c
    → lookup key c.entries ≡ none
    → c.max_bytes < length value
    → (d : ArcCache) × (insert c key value ≡ some d)
      × (lookup key d.entries ≡ some (entry_of value))
      × (d.max_bytes < d.used_bytes)
insert_exceeds c key value v miss large =
    let (d, eq, r) = make_room-Room (room_fuel c) (length value) c v (omega arith) in
    let f = store_fields key value d in
    (
      store key value d,
      insert_miss c d key value miss eq,
      (Inserted-store c d key value miss r).stored,
      rw (f.2, f.3, r.max_bytes) (omega arith),
    )

-- When the cache is full and not empty, `peek_eviction_candidate` names the key that `evict_one`
-- takes.
pub peek-evict_one :
    (c : ArcCache)
    → IsValid c
    → 0 < resident c
    → c.max_bytes ≤ c.used_bytes
    → (key : ℕ) × (peek_eviction_candidate c ≡ some key)
      × ((evict_one c).evicted ≡ c.evicted ++ (key ∷ []))
unfolding peek_eviction_candidate
peek-evict_one c v some_key full =
    let (key, first, x) = evict_one-Evicts c v some_key in
    let open_tap : ltb c.used_bytes c.max_bytes ≡ false = ground arith in
    (
      key,
      rw open_tap (elim (Bool-cases (evict_from_t1 c)) [
        | inl left ↦ rw left (rw left at first)
        | inr right ↦ rw right (rw right at first)
      ]),
      x.reported,
    )
