-- ===== src/FreeList/Alloc.antt =====
-- src/fs/free_list.rs: lemmas on the search and the split of `alloc`.
use vexfs.Base.{
  ℕ, zero, suc, ◌+◌, ◌≤◌, ◌<◌, ◌≡◌, ◌⊎◌, inl, inr, refl, ap, List, [], ◌∷◌, Option, none, some,
  ◌&&◌, ltb, leb, if◌then◌else◌, All, get_elem?, length, Bool-cases, Option-cases, arith,
}
use vexfs.FreeList.{
  FreeExtent, FreeList, best_fit, better, remove_at, keep_remainder, alloc, total_length,
}
use vexfs.FreeList.Cover.{in_range, owners, Fits}

-- `i` holds a best fit of `es`: it is large enough, and no extent that is large enough is smaller.
pub record IsBestFit (min_size : ℕ) (es : List FreeExtent) (i : ℕ) (e : FreeExtent) : Type 0 where
  pub at : get_elem? es i ≡ some e
  pub enough : min_size ≤ e.length
  pub least : All (λ f. min_size ≤ f.length → e.length ≤ f.length) es

-- Where the extent found by the search from index `i` comes from.
abbrev Source : ℕ → ℕ → Option (ℕ × ℕ) → List FreeExtent → ℕ → ℕ → Type 0
Source n i best es k l =
    (best ≡ some (k, l))
    ⊎ ((j : ℕ) × (e : FreeExtent) × (k ≡ i + j)
        × (get_elem? es j ≡ some e)
        × (e.length ≡ l)
        × (n ≤ l))

Source-suc :
    (n i : ℕ) (best : Option (ℕ × ℕ)) (e : FreeExtent) (es : List FreeExtent) (k l : ℕ)
    → Source n (i + 1) (better n i e best) es k l
    → Source n i best (e ∷ es) k l
Source-suc n i none e es k l (inl h) = inr (0, e, ground arith, refl, ground arith, ground arith)
Source-suc n i (some (j, b)) e es k l (inl h) =
    elim (Bool-cases (leb n e.length && ltb e.length b)) [
      | inl taken ↦ inr (0, e, ground arith, refl, ground arith, ground arith)
      | inr kept ↦ inl (ground arith)
    ]
Source-suc n i best e es k l (inr (j, f, at, found, len, fit)) =
    inr (suc j, f, omega arith, found, len, fit)

best_fit-Source :
    (n i : ℕ) (best : Option (ℕ × ℕ)) (es : List FreeExtent) (k l : ℕ)
    → best_fit n i best es ≡ some (k, l)
    → Source n i best es k l
unfolding best_fit
best_fit-Source n i best [] k l h = inl h
best_fit-Source n i best (e ∷ es) k l h =
    Source-suc n i best e es k l (best_fit-Source n (i + 1) (better n i e best) es k l h)

abbrev NoLarger : Option (ℕ × ℕ) → ℕ → Type 0
NoLarger none l = Unit {0}
NoLarger (some (_, b)) l = l ≤ b

best_fit_least :
    (n i : ℕ) (best : Option (ℕ × ℕ)) (es : List FreeExtent) (k l : ℕ)
    → best_fit n i best es ≡ some (k, l)
    → NoLarger best l × All (λ f. n ≤ f.length → l ≤ f.length) es
unfolding best_fit
best_fit_least n i none [] k l h = (tt, tt)
best_fit_least n i (some (j, b)) [] k l h = (ground arith, tt)
best_fit_least n i none (e ∷ es) k l h =
    let ih = best_fit_least n (i + 1) (better n i e none) es k l h in
    (tt, ((λ p. ground (arith, ih.0)), ih.1))
best_fit_least n i (some (j, b)) (e ∷ es) k l h =
    let ih = best_fit_least n (i + 1) (better n i e (some (j, b))) es k l h in
    (ground (arith, ih.0), ((λ p. ground (arith, ih.0)), ih.1))

best_fit-none :
    (n i : ℕ) (best : Option (ℕ × ℕ)) (es : List FreeExtent)
    → best_fit n i best es ≡ none
    → (best ≡ none) × All (λ f. f.length < n) es
unfolding best_fit
best_fit-none n i best [] h = (h, tt)
best_fit-none n i none (e ∷ es) h = ground (arith, best_fit-none n (i + 1) (better n i e none) es h)
best_fit-none n i (some (j, b)) (e ∷ es) h =
    ground (arith, best_fit-none n (i + 1) (better n i e (some (j, b))) es h)

abbrev pub hits : ℕ → ℕ → ℕ → ℕ
hits offset len b = if in_range offset len b then 1 else 0

-- `rest` is `es` without one occurrence of `e`.
pub record Removed (es : List FreeExtent) (e : FreeExtent) (rest : List FreeExtent) : Type 0 where
  pub owned : (b : ℕ) → owners es b ≡ hits e.offset e.length b + owners rest b
  pub total : total_length es ≡ e.length + total_length rest
  pub count : length es ≡ suc (length rest)
  pub fits : All Fits es → Fits e × All Fits rest

Removed-remove_at :
    (i : ℕ) (es : List FreeExtent) (e : FreeExtent)
    → get_elem? es i ≡ some e
    → (rest : List FreeExtent) × (remove_at i es ≡ some (e, rest)) × Removed es e rest
unfolding remove_at total_length
Removed-remove_at i [] e h = cc
Removed-remove_at zero (f ∷ es) e h = (
  es,
  ground arith,
  record {
    owned = λ b. ground arith;
    total = ground arith;
    count = refl;
    fits = λ a. ground arith;
  },
)
Removed-remove_at (suc i) (f ∷ es) e h =
    let (rest, eq, r) = Removed-remove_at i es e h in
    (
      f ∷ rest,
      rw eq,
      record {
        owned = λ b. omega (arith, r.owned b);
        total = omega (arith, r.total);
        count = ap suc r.count;
        fits = λ a. ((r.fits a.1).0, (a.0, (r.fits a.1).1));
      },
    )

-- What a successful `alloc` does, with the index gone.
pub record Claimed (fl : FreeList) (n off : ℕ) : Type 0 where
  pub extent : FreeExtent
  pub index : ℕ
  pub rest : List FreeExtent
  pub best : IsBestFit n fl index extent
  pub removed : Removed fl extent rest
  pub offset : off ≡ extent.offset
  pub left : (alloc fl n).1 ≡ keep_remainder n extent rest

alloc_step :
    (fl : FreeList) (n k l : ℕ) (e : FreeExtent) (rest : List FreeExtent)
    → best_fit n 0 none fl ≡ some (k, l)
    → remove_at k fl ≡ some (e, rest)
    → alloc fl n ≡ (some e.offset, keep_remainder n e rest)
unfolding alloc
alloc_step fl n k l e rest hit out = rw (hit, out, alloc)

Claimed-Source :
    (fl : FreeList) (n off k l : ℕ)
    → (alloc fl n).0 ≡ some off
    → best_fit n 0 none fl ≡ some (k, l)
    → Source n 0 none fl k l
    → Claimed fl n off
Claimed-Source fl n off k l h hit (inl none_found) = absurd (cc)
Claimed-Source fl n off k l h hit (inr (j, e, at, found, len, fit)) =
    let same : k ≡ j = omega arith in
    let found' : get_elem? fl k ≡ some e = rw same found in
    let (rest, out, removed) = Removed-remove_at k fl e found' in
    let step = alloc_step fl n k l e rest hit out in
    record {
      extent = e;
      index = k;
      rest = rest;
      best = record {
        at = found';
        enough = omega arith;
        least = rw len (best_fit_least n 0 none fl k l hit).1;
      };
      removed = removed;
      offset = ground arith;
      left = ap (λ (p : Option ℕ × FreeList). p.1) step;
    }

alloc-none : (fl : FreeList) (n : ℕ) → best_fit n 0 none fl ≡ none → alloc fl n ≡ (none, fl)
unfolding alloc
alloc-none fl n miss = rw (miss, alloc)

pub Claimed-alloc : (fl : FreeList) (n off : ℕ) → (alloc fl n).0 ≡ some off → Claimed fl n off
Claimed-alloc fl n off h = elim (Option-cases (best_fit n 0 none fl)) [
  | inl miss ↦ absurd (cc (ap (λ (p : Option ℕ × FreeList). p.0) (alloc-none fl n miss)))
  | inr ((k, l), hit) ↦ Claimed-Source fl n off k l h hit (best_fit-Source n 0 none fl k l hit)
]

alloc-Source :
    (fl : FreeList) (n k l : ℕ)
    → best_fit n 0 none fl ≡ some (k, l)
    → Source n 0 none fl k l
    → (off : ℕ) × ((alloc fl n).0 ≡ some off)
alloc-Source fl n k l hit (inl none_found) = absurd (cc)
alloc-Source fl n k l hit (inr (j, e, at, found, len, fit)) =
    let same : k ≡ j = omega arith in
    let found' : get_elem? fl k ≡ some e = rw same found in
    let (rest, out, removed) = Removed-remove_at k fl e found' in
    (e.offset, ap (λ (p : Option ℕ × FreeList). p.0) (alloc_step fl n k l e rest hit out))

-- Either every extent is too small and nothing changes, or an extent is found.
pub alloc_cases :
    (fl : FreeList) (n : ℕ)
    → ((alloc fl n ≡ (none, fl)) × All (λ f. f.length < n) fl)
      ⊎ ((off : ℕ) × ((alloc fl n).0 ≡ some off))
alloc_cases fl n = elim (Option-cases (best_fit n 0 none fl)) [
  | inl miss ↦ inl (alloc-none fl n miss, (best_fit-none n 0 none fl miss).1)
  | inr ((k, l), hit) ↦ inr (alloc-Source fl n k l hit (best_fit-Source n 0 none fl k l hit))
]
