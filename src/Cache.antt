-- ===== src/Cache.antt =====
-- src/cache/mod.rs: the adaptive replacement cache.
pub mod Sets
pub mod Invariant
pub mod Eviction
pub mod Insert
pub mod Methods
pub mod Store
pub mod Ceiling
mod Runs
use vexfs.Base.{
  ℕ, zero, suc, ◌+◌, ◌-◌, List, [], ◌∷◌, ◌++◌, Option, none, some, Bool, true, false, not, ◌&&◌,
  ◌||◌, ltb, ◌==◌, if◌then◌else◌, length, min,
}
use vexfs.Base.Map.{member, without, lookup, insert as map_insert, remove as map_remove}

pub record Entry : Type 0 where
  pub bytes : List ℕ
  pub size : ℕ

-- `order` may hold keys that have left `set`.
pub record OrderedSet : Type 0 where
  pub order : List ℕ
  pub set : List ℕ

abbrev pub empty_set : OrderedSet
empty_set = record { order = []; set = [] }

unfoldable pub push_back : OrderedSet → ℕ → OrderedSet
unfolding member
push_back s key =
    if member key s.set then s else record { order = s.order ++ (key ∷ []); set = key ∷ s.set }

-- The loop of `pop_front` over `order`.
pub pop_loop : List ℕ → List ℕ → Option ℕ × OrderedSet
unfolding member without
pop_loop set [] = (none, record { order = []; set = set })
pop_loop set (key ∷ keys) =
    if member key set
    then (some key, record { order = keys; set = without key set })
    else pop_loop set keys

unfoldable pub pop_front : OrderedSet → Option ℕ × OrderedSet
unfolding pop_loop
pop_front s = pop_loop s.set s.order

-- `OrderedSet::remove`: the entry in `order` stays behind.
unfoldable pub remove_key : OrderedSet → ℕ → Bool × OrderedSet
unfolding member without
remove_key s key = (member key s.set, record s { set = without key s.set })

-- Each round takes a key out of `set`, so `length s.set` rounds are enough.
pub truncate_loop : ℕ → ℕ → OrderedSet → OrderedSet
unfolding pop_front
truncate_loop zero max s = s
truncate_loop (suc fuel) max s = elim (ltb max (length s.set)) [
  | true ↦ elim (pop_front s).0 [
    | some _ ↦ truncate_loop fuel max (pop_front s).1
    | none ↦ (pop_front s).1
  ]
  | false ↦ s
]

unfoldable pub truncate_to : OrderedSet → ℕ → OrderedSet
unfolding truncate_loop
truncate_to s max = truncate_loop (length s.set) max s

pub record ArcCache : Type 0 where
  pub t1 : OrderedSet
  pub t2 : OrderedSet
  pub b1 : OrderedSet
  pub b2 : OrderedSet
  pub entries : List (ℕ × Entry)
  pub p : ℕ
  pub max_bytes : ℕ
  pub used_bytes : ℕ
  pub evicted : List ℕ

abbrev pub new : ℕ → ArcCache
new max_bytes = record {
  t1 = empty_set;
  t2 = empty_set;
  b1 = empty_set;
  b2 = empty_set;
  entries = [];
  p = 0;
  max_bytes = max_bytes;
  used_bytes = 0;
  evicted = [];
}

unfoldable pub drain_evicted : ArcCache → List ℕ × ArcCache
drain_evicted c = (c.evicted, record c { evicted = [] })

-- `self.data.contains_key(&key)`.
unfoldable pub contains : ArcCache → ℕ → Bool
unfolding lookup
contains c key = elim (lookup key c.entries) [ none ↦ false | some _ ↦ true ]

unfoldable pub promote : ArcCache → ℕ → ArcCache
unfolding remove_key push_back
promote c key =
    let (found, t1) = remove_key c.t1 key in
    if found then record c { t1 = t1; t2 = push_back c.t2 key } else record c { t1 = t1 }

abbrev pub evict_from_t1 : ArcCache → Bool
evict_from_t1 c = ltb c.p (length c.t1.set) || length c.t2.set == 0

abbrev pub ghost_max : ℕ
ghost_max = 1000

-- `if let Some(entry) = self.data.remove(&key) { self.used_bytes -= entry.size; }`. The size
-- of an entry is counted in `used_bytes` by the invariant of Cache/Invariant, so nothing wraps.
pub drop_entry : ArcCache → ℕ → ArcCache
unfolding lookup map_remove
drop_entry c key = elim (lookup key c.entries) [
  | none ↦ c
  | some entry ↦ record c {
    entries = map_remove key c.entries;
    used_bytes = c.used_bytes - entry.size;
  }
]

-- The bodies of the two branches of `evict_one`, behind the pop.
pub evicted_t1 : ArcCache → Option ℕ × OrderedSet → ArcCache
unfolding drop_entry truncate_to push_back
evicted_t1 c (none, t1) = record c { t1 = t1 }
evicted_t1 c (some key, t1) =
    let d = drop_entry c key in
    record d {
      t1 = t1;
      evicted = c.evicted ++ (key ∷ []);
      b1 = truncate_to (push_back c.b1 key) ghost_max;
    }

pub evicted_t2 : ArcCache → Option ℕ × OrderedSet → ArcCache
unfolding drop_entry truncate_to push_back
evicted_t2 c (none, t2) = record c { t2 = t2 }
evicted_t2 c (some key, t2) =
    let d = drop_entry c key in
    record d {
      t2 = t2;
      evicted = c.evicted ++ (key ∷ []);
      b2 = truncate_to (push_back c.b2 key) ghost_max;
    }

unfoldable pub evict_one : ArcCache → ArcCache
unfolding evicted_t1 evicted_t2 pop_front
evict_one c =
    if evict_from_t1 c && not (length c.t1.set == 0)
    then evicted_t1 c (pop_front c.t1)
    else if not (length c.t2.set == 0)
    then evicted_t2 c (pop_front c.t2)
    else c

-- `self.data.is_empty()`.
abbrev pub is_empty {ℓ} : {A : Type ℓ} → List A → Bool
is_empty [] = true
is_empty (x ∷ xs) = false

-- The `while` loop of `insert`; `none` means that the fuel ran out.
pub make_room : ℕ → ℕ → ArcCache → Option ArcCache
unfolding evict_one
make_room zero size c = none
make_room (suc fuel) size c =
    elim (not (is_empty c.entries) && ltb c.max_bytes (c.used_bytes + size)) [
      | true ↦ make_room fuel size (evict_one c)
      | false ↦ some c
    ]

-- Each eviction takes a key out of T1 or T2: `insert_total`.
abbrev pub room_fuel : ArcCache → ℕ
room_fuel c = length c.t1.set + length c.t2.set + 1

-- The end of `insert` for a key without an entry.
pub store : ℕ → List ℕ → ArcCache → ArcCache
unfolding map_insert push_back member
store key value c =
    let d = record c {
      used_bytes = c.used_bytes + length value;
      entries = map_insert key (record { bytes = value; size = length value }) c.entries;
    } in
    if not (member key c.t1.set) && not (member key c.t2.set)
    then record d { t1 = push_back c.t1 key }
    else d

-- `insert` for a key that has an entry.
pub update : ℕ → List ℕ → Entry → ArcCache → ArcCache
unfolding map_insert promote
update key value entry c =
    promote
      (record c {
        used_bytes = c.used_bytes - entry.size + length value;
        entries = map_insert key (record { bytes = value; size = length value }) c.entries;
      })
      key

unfoldable pub insert : ArcCache → ℕ → List ℕ → Option ArcCache
unfolding update make_room store lookup
insert c key value = elim (lookup key c.entries) [
  | some entry ↦ some (update key value entry c)
  | none ↦ elim (make_room (room_fuel c) (length value) c) [
    | none ↦ none
    | some d ↦ some (store key value d)
  ]
]

-- A ghost hit moves the target `p`.
abbrev pub adapt : ArcCache → ℕ → ArcCache
adapt c key = record c {
  p =
      if member key c.b1.set
      then min (c.p + 1) c.max_bytes
      else if member key c.b2.set
      then c.p - 1
      else c.p;
}

unfoldable pub get : ArcCache → ℕ → Option (List ℕ) × ArcCache
unfolding lookup promote member
get c key = elim (lookup key c.entries) [
  | some entry ↦ (some entry.bytes, promote c key)
  | none ↦ (none, adapt c key)
]

unfoldable pub remove : ArcCache → ℕ → Option (List ℕ) × ArcCache
unfolding lookup map_remove remove_key
remove c key = elim (lookup key c.entries) [
  | none ↦ (none, c)
  | some entry ↦ (
    some entry.bytes,
    record c {
      entries = map_remove key c.entries;
      used_bytes = c.used_bytes - entry.size;
      t1 = (remove_key c.t1 key).1;
      t2 = (remove_key c.t2 key).1;
    },
  )
]

-- `order.iter().find(|k| set.contains(k))`.
pub first_live : List ℕ → List ℕ → Option ℕ
unfolding member
first_live set [] = none
first_live set (key ∷ keys) = if member key set then some key else first_live set keys

unfoldable pub peek_eviction_candidate : ArcCache → Option ℕ
unfolding first_live
peek_eviction_candidate c =
    if ltb c.used_bytes c.max_bytes
    then none
    else if evict_from_t1 c
    then first_live c.t1.set c.t1.order
    else first_live c.t2.set c.t2.order
