-- ===== src/Btree/Range.antt =====
-- src/fs/btree.rs: `collect_all` and `collect_range`, with the subtrees that the range prunes.
use mathlib.Core.Path.{subst}
use mathlib.Core.List.{append-nil, append_assoc}
use vexfs.Base.{
  ℕ, zero, suc, ◌+◌, ◌≡◌, refl, ◌∙◌, sym, ap, List, [], ◌∷◌, ◌++◌, none, some, get_elem?, arith,
  Bool, true, false, if◌then◌else◌, ◌&&◌,
}
use vexfs.Btree.Order.{Key, ◌≺◌, ◌≼◌, lt_of_gt, gt_of_lt, ≺_trans, ≺-≼}
use vexfs.Btree.Tree.{
  Node, Nodes, leaf, internal, nil, cons, collect_all, collect_children, collect_range,
  range_children, in_range, above_min, below_max,
}
use vexfs.Btree.Entries.{Entries, Keys, Keys-imp}
use vexfs.Btree.Search.{entries, entries_all, IsSearch, AreSearch, Keys-entries, entries_below}

mutual
  unfolding collect_all entries

  pub collect_all_lem : (n : Node) (out : Entries) → collect_all n out ≡ out ++ entries n
  collect_all_lem (leaf keys vals) out = refl
  collect_all_lem (internal keys ns) out = collect_children_lem ns out

  collect_children_lem :
      (ns : Nodes) (out : Entries) → collect_children ns out ≡ out ++ entries_all ns
  collect_children_lem nil out = sym (append-nil out)
  collect_children_lem (cons n ns) out =
      collect_children_lem ns (collect_all n out)
      ∙ ap (λ o. o ++ entries_all ns) (collect_all_lem n out)
      ∙ append_assoc out (entries n) (entries_all ns)

at_first :
    (keys : List Key) (i : ℕ) (ks : List Key)
    → ((j : ℕ) → get_elem? keys (i + j) ≡ get_elem? ks j)
    → get_elem? keys i ≡ get_elem? ks 0
at_first keys i ks shift =
    subst (λ j. get_elem? keys j ≡ get_elem? ks 0) {x = i + 0} (omega arith) (shift 0)

module _ (start end : Key) where
  pub in_range-append :
      (xs ys : Entries)
      → in_range start end (xs ++ ys) ≡ in_range start end xs ++ in_range start end ys
  unfolding in_range
  in_range-append [] ys = refl
  in_range-append ((k, v) ∷ xs) ys = ground (arith, in_range-append xs ys)

  in_range-below : (es : Entries) → Keys (λ x. x ≺ start) es → in_range start end es ≡ []
  unfolding in_range
  in_range-below [] h = refl
  in_range-below ((k, v) ∷ es) h = ground (arith, in_range-below es, gt_of_lt k start)

  in_range-above : (es : Entries) → Keys (λ x. end ≺ x) es → in_range start end es ≡ []
  unfolding in_range
  in_range-above [] h = refl
  in_range-above ((k, v) ∷ es) h = ground (arith, in_range-above es, gt_of_lt end k)

  -- A child is visited, or none of its entries is in the range.
  visited :
      (low high : Bool) (es out visit : Entries)
      → visit ≡ out ++ in_range start end es
      → (low ≡ false → Keys (λ x. end ≺ x) es)
      → (high ≡ false → Keys (λ x. x ≺ start) es)
      → (if low && high then visit else out) ≡ out ++ in_range start end es
  visited true true es out visit v a b = v
  visited true false es out visit v a b = rw (in_range-below es (b refl)) (sym (append-nil out))
  visited false high es out visit v a b = rw (in_range-above es (a refl)) (sym (append-nil out))

  -- What the tests at the child `i` say, by the key behind it.
  below_max_last :
      (i : ℕ) (keys : List Key) → get_elem? keys i ≡ none → below_max start i keys ≡ false → ⊥
  unfolding below_max
  below_max_last i keys e b = ground (arith, e)

  below_max_key :
      (i : ℕ) (keys : List Key) (k : Key)
      → get_elem? keys i ≡ some k
      → below_max start i keys ≡ false
      → k ≺ start
  unfolding below_max
  below_max_key i keys k e b = ground (arith, e, lt_of_gt start k)

  above_min_key :
      (i : ℕ) (keys : List Key) (k : Key)
      → get_elem? keys i ≡ some k
      → above_min end (i + 1) keys ≡ false
      → end ≺ k
  unfolding above_min
  above_min_key i keys k e b =
      let next : i + 1 ≡ suc i = omega arith in
      let b' = subst (λ j. above_min end j keys ≡ false) next b in
      ground (arith, e, b', lt_of_gt k end)

  mutual
    unfolding collect_range entries IsSearch

    pub collect_range_at :
        (P : Key → Type 0) (d : ℕ) (n : Node) (out : Entries)
        → IsSearch P d n
        → collect_range start end n out ≡ out ++ in_range start end (entries n)
    collect_range_at P zero (leaf keys vals) out h = refl
    collect_range_at P zero (internal keys ns) out h = absurd h
    collect_range_at P (suc d) (leaf keys vals) out h = absurd h
    collect_range_at P (suc d) (internal keys ns) out h =
        range_children_lem P d keys 0 keys ns out (λ j. ap (get_elem? keys) (omega arith))
          (λ b x p. cc) h.1

    -- From the child `i` on, with the keys `ks` behind it.
    range_children_lem :
        (P : Key → Type 0) (d : ℕ) (keys : List Key) (i : ℕ) (ks : List Key) (ns : Nodes)
        (out : Entries)
        → ((j : ℕ) → get_elem? keys (i + j) ≡ get_elem? ks j)
        → (above_min end i keys ≡ false → (x : Key) → P x → end ≺ x)
        → AreSearch P d ks ns
        → range_children start end keys i ns out ≡ out ++ in_range start end (entries_all ns)
    range_children_lem P d keys i [] nil out shift low h = absurd h
    range_children_lem P d keys i [] (cons n nil) out shift low h = rw append-nil (
        visited (above_min end i keys) (below_max start i keys) (entries n) out
          (collect_range start end n out) (collect_range_at P d n out h)
          (λ b. Keys-imp P (λ x. end ≺ x) (low b) (entries n) (Keys-entries P d n h))
          (λ b. absurd (below_max_last i keys (at_first keys i [] shift) b)))
    range_children_lem P d keys i [] (cons n (cons m ms)) out shift low h = absurd h
    range_children_lem P d keys i (k ∷ ks) nil out shift low h = absurd h
    range_children_lem P d keys i (k ∷ ks) (cons n ns) out shift low h =
        let at_ = at_first keys i (k ∷ ks) shift in
        let Q : Key → Type 0 = λ x. P x × (x ≺ k) in
        let this =
          visited (above_min end i keys) (below_max start i keys) (entries n) out
            (collect_range start end n out) (collect_range_at Q d n out h.2)
            (λ b.
              Keys-imp Q (λ x. end ≺ x) (λ x q. low b x q.0) (entries n) (Keys-entries Q d n h.2))
            (λ b.
              Keys-imp (λ x. x ≺ k) (λ x. x ≺ start)
                (λ x q. ≺_trans x k start q (below_max_key i keys k at_ b)) (entries n)
                (entries_below P d k n h.2)) in
        range_children_lem (λ x. P x × (k ≼ x)) d keys (i + 1) ks ns
          (if above_min end i keys && below_max start i keys
            then collect_range start end n out
            else out)
          (λ j. ap (get_elem? keys) (omega arith) ∙ shift (suc j))
          (λ b x q. ≺-≼ end k x (above_min_key i keys k at_ b) q.1) h.3
        ∙ ap (λ o. o ++ in_range start end (entries_all ns)) this
        ∙ append_assoc out (in_range start end (entries n)) (in_range start end (entries_all ns))
        ∙ ap (λ es. out ++ es) (sym (in_range-append (entries n) (entries_all ns)))
