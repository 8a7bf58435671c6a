-- ===== src/Cache/Invariant.antt =====
-- src/cache/mod.rs: the invariant of the cache's lists and byte count.
use vexfs.Base.{
  ℕ, ◌-◌, ◌≤◌, ◌≡◌, List, none, some, true, ◌||◌, ◌==◌, if◌then◌else◌, length, Bool-cases,
  Option-cases, inl, inr, arith,
}
use vexfs.Base.Map.{
  member, lookup, remove as map_remove, Distinct, total, lookup-remove_ne, lookup-remove_self,
  Distinct-remove, total-remove,
}
use vexfs.Cache.{Entry, OrderedSet, ArcCache, ghost_max, drop_entry}
use vexfs.Cache.Sets.{Tracked}

-- The bytes that an entry keeps in memory.
abbrev pub weight : Entry → ℕ
weight e = length e.bytes

pub record IsGhost (s : OrderedSet) : Type 0 where
  pub tracked : Tracked s
  pub bounded : length s.set ≤ ghost_max

-- Every entry's key is in T1 or T2, the byte count is the sum of the entries, and the ghost lists
-- are bounded.
pub record IsValid (c : ArcCache) : Type 0 where
  pub tracked1 : Tracked c.t1
  pub tracked2 : Tracked c.t2
  pub ghost1 : IsGhost c.b1
  pub ghost2 : IsGhost c.b2
  pub distinct : Distinct c.entries
  pub listed :
      (k : ℕ) (e : Entry)
      → lookup k c.entries ≡ some e
      → (member k c.t1.set || member k c.t2.set) ≡ true
  pub sized : (k : ℕ) (e : Entry) → lookup k c.entries ≡ some e → e.size ≡ length e.bytes
  pub used : c.used_bytes ≡ total weight c.entries

-- The part of the invariant that speaks of the entries alone.
pub record IsCounted (used : ℕ) (entries : List (ℕ × Entry)) : Type 0 where
  pub distinct : Distinct entries
  pub sized : (k : ℕ) (e : Entry) → lookup k entries ≡ some e → e.size ≡ length e.bytes
  pub used_eq : used ≡ total weight entries

pub IsCounted_of : {c : ArcCache} → IsValid c → IsCounted c.used_bytes c.entries
IsCounted_of v = record { distinct = v.distinct; sized = v.sized; used_eq = v.used }

pub lookup-map_remove :
    (key j : ℕ) (m : List (ℕ × Entry))
    → Distinct m
    → lookup j (map_remove key m) ≡ (if key == j then none else lookup j m)
lookup-map_remove key j m d = elim (Bool-cases (key == j)) [
  | inl same ↦ let e : key ≡ j = ground arith in rw (same, ← e) (lookup-remove_self key m d)
  | inr other ↦ rw other (lookup-remove_ne key j m (ground arith))
]

pub IsCounted-map_remove :
    (used key : ℕ) (e : Entry) (m : List (ℕ × Entry))
    → lookup key m ≡ some e
    → IsCounted used m
    → IsCounted (used - e.size) (map_remove key m)
IsCounted-map_remove used key e m at v = record {
  distinct = Distinct-remove key m v.distinct;
  sized = λ k f h. ground (arith, lookup-map_remove key k m v.distinct, v.sized k f);
  used_eq = omega (arith, total-remove weight key e m at, v.sized key e at, v.used_eq);
}

module _ (c : ArcCache) (key : ℕ) (v : IsCounted c.used_bytes c.entries) where
  pub lookup-drop_entry :
      (j : ℕ)
      → lookup j (drop_entry c key).entries ≡ (if key == j then none else lookup j c.entries)
  unfolding drop_entry
  lookup-drop_entry j = ground (arith, lookup-map_remove key j c.entries v.distinct)

  pub IsCounted-drop_entry : IsCounted (drop_entry c key).used_bytes (drop_entry c key).entries
  unfolding drop_entry
  IsCounted-drop_entry = elim (Option-cases (lookup key c.entries)) [
    | inl miss ↦ rw (miss, drop_entry) v
    | inr (e, hit) ↦ rw (hit, drop_entry) (IsCounted-map_remove c.used_bytes key e c.entries hit v)
  ]
