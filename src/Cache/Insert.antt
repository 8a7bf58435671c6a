-- ===== src/Cache/Insert.antt =====
-- src/cache/mod.rs: the loop of `insert`, and what it reports as evicted.
use vexfs.Base.{
  ℕ, zero, suc, ◌+◌, ◌≤◌, ◌<◌, ◌≡◌, ◌⊎◌, refl, ◌∙◌, List, [], ◌∷◌, none, some, true, false, not,
  ◌&&◌, ltb, ◌==◌, length, Bool-cases, inl, inr, arith,
}
use vexfs.Base.Map.{member, lookup, member-append}
use vexfs.Cache.{Entry, ArcCache, evict_one, make_room, is_empty}
use vexfs.Cache.Invariant.{IsValid}
use vexfs.Cache.Eviction.{resident, Evicts, evict_one-Evicts}

-- No entry of `c` is lost in `d` without a report, and none is new.
pub record Accounts (c d : ArcCache) : Type 0 where
  pub kept :
      (k : ℕ) (e : Entry)
      → lookup k c.entries ≡ some e
      → (lookup k d.entries ≡ some e) ⊎ (member k d.evicted ≡ true)
  pub reported : (k : ℕ) → member k c.evicted ≡ true → member k d.evicted ≡ true
  pub absent : (k : ℕ) → lookup k c.entries ≡ none → lookup k d.entries ≡ none

Accounts-refl : (c : ArcCache) → Accounts c c
Accounts-refl c = record { kept = λ k e h. inl h; reported = λ k h. h; absent = λ k h. h }

Accounts-evict : (c d : ArcCache) (key : ℕ) → Evicts c d key → Accounts c d
unfolding member
Accounts-evict c d key x = record {
  kept = λ k e h. elim (Bool-cases (key == k)) [
    | inl same ↦ inr (rw x.reported (member-append k c.evicted (key ∷ []) ∙ ground arith))
    | inr other ↦ inl (x.others k ∙ rw other h)
  ];
  reported = λ k h. rw x.reported (member-append k c.evicted (key ∷ []) ∙ ground arith);
  absent = λ k h. x.others k ∙ ground arith;
}

Accounts-trans : (b c d : ArcCache) → Accounts b c → Accounts c d → Accounts b d
Accounts-trans b c d p q = record {
  kept = λ k e h. elim (p.kept k e h) [
    | inl still ↦ q.kept k e still
    | inr gone ↦ inr (q.reported k gone)
  ];
  reported = λ k h. q.reported k (p.reported k h);
  absent = λ k h. q.absent k (p.absent k h);
}

some_entry :
    (m : List (ℕ × Entry)) → not (is_empty m) ≡ true → (k : ℕ) × (e : Entry) × (lookup k m ≡ some e)
unfolding lookup
some_entry [] h = absurd (cc)
some_entry ((k, e) ∷ m) h = (k, e, ground arith)

length_of_member : (k : ℕ) (xs : List ℕ) → member k xs ≡ true → 0 < length xs
unfolding member
length_of_member k [] h = absurd (cc)
length_of_member k (x ∷ xs) h = omega arith

resident_of_entry : (c : ArcCache) → IsValid c → not (is_empty c.entries) ≡ true → 0 < resident c
resident_of_entry c v h =
    let (k, e, at) = some_entry c.entries h in
    ground (arith, v.listed k e at, length_of_member k c.t1.set, length_of_member k c.t2.set)

-- What the loop leaves.
pub record Room (size : ℕ) (c d : ArcCache) : Type 0 where
  pub valid : IsValid d
  pub max_bytes : d.max_bytes ≡ c.max_bytes
  pub accounts : Accounts c d
  pub enough : (is_empty d.entries ≡ true) ⊎ (d.used_bytes + size ≤ d.max_bytes)

make_room_more :
    (fuel size : ℕ) (c : ArcCache)
    → (not (is_empty c.entries) && ltb c.max_bytes (c.used_bytes + size)) ≡ true
    → make_room (suc fuel) size c ≡ make_room fuel size (evict_one c)
unfolding make_room
make_room_more fuel size c h = rw (h, make_room)

make_room_done :
    (fuel size : ℕ) (c : ArcCache)
    → (not (is_empty c.entries) && ltb c.max_bytes (c.used_bytes + size)) ≡ false
    → make_room (suc fuel) size c ≡ some c
unfolding make_room
make_room_done fuel size c h = rw (h, make_room)

pub make_room-Room :
    (fuel size : ℕ) (c : ArcCache)
    → IsValid c
    → resident c < fuel
    → (d : ArcCache) × (make_room fuel size c ≡ some d) × Room size c d
make_room-Room zero size c v h = absurd (omega arith)
make_room-Room (suc fuel) size c v h =
    elim (Bool-cases (not (is_empty c.entries) && ltb c.max_bytes (c.used_bytes + size))) [
      | inl more ↦
          let (key, _, x) = evict_one-Evicts c v (resident_of_entry c v (ground arith)) in
          let (d, eq, r) =
            make_room-Room fuel size (evict_one c) x.valid (omega (arith, x.smaller)) in
          (
            d,
            make_room_more fuel size c more ∙ eq,
            record {
              valid = r.valid;
              max_bytes = r.max_bytes ∙ x.max_bytes;
              accounts =
                  Accounts-trans c (evict_one c) d (Accounts-evict c (evict_one c) key x)
                    r.accounts;
              enough = r.enough;
            },
          )
      | inr done ↦ (
        c,
        make_room_done fuel size c done,
        record { valid = v; max_bytes = refl; accounts = Accounts-refl c; enough = ground arith },
      )
    ]
