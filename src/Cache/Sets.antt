-- ===== src/Cache/Sets.antt =====
-- src/cache/mod.rs: the ordered set, about `pop_front` and `truncate_to`.
use vexfs.Base.{
  ℕ, zero, suc, ◌+◌, ◌≤◌, ◌<◌, ◌≡◌, List, [], ◌∷◌, some, true, false, ◌||◌, ltb, ◌==◌, length,
  Bool-cases, inl, inr, arith,
}
use vexfs.Base.Map.{member, without, member-append, member-without, length-without-lt}
use vexfs.Cache.{
  OrderedSet, empty_set, push_back, pop_loop, pop_front, remove_key, truncate_loop, truncate_to,
  first_live,
}

-- Every key of the set still stands in the order.
pub record Tracked (s : OrderedSet) : Type 0 where
  pub at : (j : ℕ) → member j s.set ≡ true → member j s.order ≡ true

pub Tracked-empty : Tracked empty_set
unfolding member
Tracked-empty = record { at = λ j h. h }

pub Tracked-push_back : (s : OrderedSet) (key : ℕ) → Tracked s → Tracked (push_back s key)
unfolding push_back member
Tracked-push_back s key t = record {
  at = λ j. ground (arith, t.at j, member-append j s.order (key ∷ []));
}

pub Tracked-remove_key : (s : OrderedSet) (key : ℕ) → Tracked s → Tracked (remove_key s key).1
unfolding remove_key
Tracked-remove_key s key t = record {
  at = λ j h. t.at j (ground (arith, member-without key j s.set));
}

pub member-push_back :
    (s : OrderedSet) (key j : ℕ) → member j (push_back s key).set ≡ (key == j || member j s.set)
unfolding push_back member
member-push_back s key j = ground arith

pub length-push_back-le :
    (s : OrderedSet) (key : ℕ) → length (push_back s key).set ≤ length s.set + 1
unfolding push_back
length-push_back-le s key = ground arith

-- `pop_front` takes `key`, the first in the order that is in the set.
pub record Popped (s : OrderedSet) (key : ℕ) (rest : List ℕ) : Type 0 where
  pub out : pop_front s ≡ (some key, record { order = rest; set = without key s.set })
  pub live : member key s.set ≡ true
  pub first : first_live s.set s.order ≡ some key
  pub kept :
      (j : ℕ) → member j s.order ≡ true → member j s.set ≡ true → (key == j || member j rest) ≡ true

pop_loop-Popped :
    (set order : List ℕ) (x : ℕ)
    → member x set ≡ true
    → member x order ≡ true
    → (key : ℕ) × (rest : List ℕ) × Popped (record { order = order; set = set }) key rest
unfolding pop_front pop_loop first_live member
pop_loop-Popped set [] x here there = absurd (ground arith)
pop_loop-Popped set (y ∷ ys) x here there = elim (Bool-cases (member y set)) [
  | inl live ↦ (
    y,
    ys,
    record {
      out = rw (live, pop_loop);
      live = live;
      first = rw (live, first_live);
      kept = λ j h k. h;
    },
  )
  | inr dead ↦
      let (key, rest, p) = pop_loop-Popped set ys x here (ground arith) in
      (
        key,
        rest,
        record {
          out = rw (dead, pop_loop) p.out;
          live = p.live;
          first = rw (dead, first_live) p.first;
          kept = λ j h k. p.kept j (ground arith) k;
        },
      )
]

some_member : (xs : List ℕ) → 0 < length xs → (x : ℕ) × (member x xs ≡ true)
unfolding member
some_member [] h = absurd (omega arith)
some_member (x ∷ xs) h = (x, ground arith)

-- A set that is not empty gives a key.
pub pop_front-Popped :
    (s : OrderedSet)
    → Tracked s
    → 0 < length s.set
    → (key : ℕ) × (rest : List ℕ) × Popped s key rest
pop_front-Popped s t h =
    let (x, here) = some_member s.set h in pop_loop-Popped s.set s.order x here (t.at x here)

pub Tracked-Popped :
    (s : OrderedSet) (key : ℕ) (rest : List ℕ)
    → Tracked s
    → Popped s key rest
    → Tracked (record { order = rest; set = without key s.set })
Tracked-Popped s key rest t p = record {
  at = λ j h. ground (arith, member-without key j s.set, t.at j, p.kept j);
}

truncate_loop_over :
    (fuel max : ℕ) (s s' : OrderedSet) (key : ℕ)
    → ltb max (length s.set) ≡ true
    → pop_front s ≡ (some key, s')
    → truncate_loop (suc fuel) max s ≡ truncate_loop fuel max s'
unfolding truncate_loop
truncate_loop_over fuel max s s' key over out = ground arith

truncate_loop_under :
    (fuel max : ℕ) (s : OrderedSet)
    → ltb max (length s.set) ≡ false
    → truncate_loop (suc fuel) max s ≡ s
unfolding truncate_loop
truncate_loop_under fuel max s under = ground arith

truncate_loop-bounded :
    (fuel max : ℕ) (s : OrderedSet)
    → Tracked s
    → length s.set ≤ fuel
    → Tracked (truncate_loop fuel max s) × (length (truncate_loop fuel max s).set ≤ max)
unfolding truncate_loop
truncate_loop-bounded zero max s t h = (t, omega arith)
truncate_loop-bounded (suc fuel) max s t h = elim (Bool-cases (ltb max (length s.set))) [
  | inl over ↦
      let (key, rest, p) = pop_front-Popped s t (ground arith) in
      let s' : OrderedSet = record { order = rest; set = without key s.set } in
      let ih =
        truncate_loop-bounded fuel max s' (Tracked-Popped s key rest t p)
          (omega (arith, length-without-lt key s.set p.live)) in
      rw (truncate_loop_over fuel max s s' key over p.out) ih
  | inr under ↦ rw (truncate_loop_under fuel max s under) (t, ground arith)
]

-- A ghost list is cut to its bound, and the fuel of the loop is enough.
pub truncate_to-bounded :
    (s : OrderedSet) (max : ℕ)
    → Tracked s
    → Tracked (truncate_to s max) × (length (truncate_to s max).set ≤ max)
unfolding truncate_to
truncate_to-bounded s max t = truncate_loop-bounded (length s.set) max s t (omega arith)
