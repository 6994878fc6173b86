-- ===== src/Cluster/Balance/Split.antt =====
-- What the split into over- and under-loaded groups promises.
use kafka_utils.Base.{
  ℕ, ◌+◌, ◌-◌, ◌/◌, ◌%◌, ◌≤◌, ◌<◌, List, [], ◌∷◌, ◌++◌, true, ◌==◌, if◌then◌else◌, ltb, ◌≡◌, refl,
  arith, ◌≢◌, ◌⊎◌, inl, inr, Bool-cases, length, keep, sorted_up, sorted_down, Returns, count,
  count-append, count-sorted_up, count-sorted_down, Each, Each-append, Each-contains, contains-Each,
  contains, contains-count, Each-sorted_up, Each-sorted_down, IsAscending, IsDescending,
  sorted_up-IsAscending, sorted_down-IsDescending,
}
use kafka_utils.Cluster.Balance.{Loads, separate_from, separate_groups}

module _ (key : ℕ → ℕ) where
  count-separate_from :
      (c optimum extra : ℕ) (gs : List ℕ)
      → count c (separate_from key optimum extra gs).over_loaded
          + count c (separate_from key optimum extra gs).under_loaded
          + count c (separate_from key optimum extra gs).optimal
        ≡ count c gs
  unfolding separate_from count
  count-separate_from c optimum extra [] = refl
  count-separate_from c optimum extra (g ∷ gs) =
      ground (arith, count-separate_from c optimum (extra - (if extra == 0 then 0 else 1)) gs)

  record Bounds (optimum : ℕ) (loads : Loads) : Type 0 where
    over : Each (λ g. optimum < key g) loads.over_loaded
    under : Each (λ g. key g ≤ optimum) loads.under_loaded
    optimal : Each (λ g. (key g ≡ optimum) ⊎ (key g ≡ optimum + 1)) loads.optimal

  separate_from-Bounds :
      (optimum extra : ℕ) (gs : List ℕ) → Bounds optimum (separate_from key optimum extra gs)
  unfolding separate_from
  separate_from-Bounds optimum extra [] = record { over = tt; under = tt; optimal = tt }
  separate_from-Bounds optimum extra (g ∷ gs) =
      let rec = separate_from-Bounds optimum (extra - (if extra == 0 then 0 else 1)) gs in
      record { over = ground arith; under = ground arith; optimal = ground arith }

  -- Groups that are optimal are split between the two sides by their one extra element.
  count-halves :
      (c optimum : ℕ) (gs : List ℕ)
      → Each (λ g. (key g ≡ optimum) ⊎ (key g ≡ optimum + 1)) gs
      → count c (keep (λ g. ltb optimum (key g)) gs) + count c (keep (λ g. key g == optimum) gs)
        ≡ count c gs
  unfolding count
  count-halves c optimum [] h = refl
  count-halves c optimum (g ∷ gs) h = ground (arith, count-halves c optimum gs h.1)

  keep-over :
      (optimum : ℕ) (gs : List ℕ) → Each (λ g. optimum < key g) (keep (λ g. ltb optimum (key g)) gs)
  keep-over optimum [] = tt
  keep-over optimum (g ∷ gs) = ground (arith, keep-over optimum gs)

  keep-under :
      (optimum : ℕ) (gs : List ℕ) → Each (λ g. key g ≤ optimum) (keep (λ g. key g == optimum) gs)
  keep-under optimum [] = tt
  keep-under optimum (g ∷ gs) = ground (arith, keep-under optimum gs)

  -- With no remainder the optimum is exact.
  record Exact (optimum : ℕ) (loads : Loads) : Type 0 where
    low : Each (λ g. key g < optimum) loads.under_loaded
    level : Each (λ g. key g ≡ optimum) loads.optimal

  separate_from-Exact : (optimum : ℕ) (gs : List ℕ) → Exact optimum (separate_from key optimum 0 gs)
  unfolding separate_from
  separate_from-Exact optimum [] = record { low = tt; level = tt }
  separate_from-Exact optimum (g ∷ gs) =
      let rec = separate_from-Exact optimum gs in
      record { low = ground arith; level = ground arith }

  count-level :
      (c optimum : ℕ) (gs : List ℕ)
      → Each (λ g. key g ≡ optimum) gs
      → key c ≢ optimum
      → count c gs ≡ 0
  unfolding count
  count-level c optimum [] h ne = refl
  count-level c optimum (g ∷ gs) h ne = ground (arith, count-level c optimum gs h.1 ne)

  -- The sides keep the order of the sorted groups.
  Each-separate_from :
      (P : ℕ → Type 0) (optimum extra : ℕ) (gs : List ℕ)
      → Each P gs
      → Each P (separate_from key optimum extra gs).over_loaded
        × Each P (separate_from key optimum extra gs).under_loaded
  unfolding separate_from
  Each-separate_from P optimum extra [] h = (tt, tt)
  Each-separate_from P optimum extra (g ∷ gs) h =
      let rec = Each-separate_from P optimum (extra - (if extra == 0 then 0 else 1)) gs h.1 in
      (ground arith, ground arith)

  separate_from-IsDescending :
      (optimum extra : ℕ) (gs : List ℕ)
      → IsDescending key gs
      → IsDescending key (separate_from key optimum extra gs).over_loaded
        × IsDescending key (separate_from key optimum extra gs).under_loaded
  unfolding separate_from
  separate_from-IsDescending optimum extra [] h = (tt, tt)
  separate_from-IsDescending optimum extra (g ∷ gs) h =
      let left = extra - (if extra == 0 then 0 else 1) in
      let rec = separate_from-IsDescending optimum left gs h.1 in
      let below = Each-separate_from (λ x. key x ≤ key g) optimum left gs h.0 in
      (ground arith, ground arith)

  pub record IsSplit (groups : List ℕ) (total : ℕ) (loads : List ℕ × List ℕ) : Type 0 where
    pub over : Each (λ g. total / length groups < key g) loads.0
    pub under : Each (λ g. key g ≤ total / length groups) loads.1
    pub exact : total % length groups ≡ 0 → Each (λ g. key g < total / length groups) loads.1
    pub covered :
        (c : ℕ)
        → (total % length groups ≢ 0) ⊎ (key c ≢ total / length groups)
        → count c loads.0 + count c loads.1 ≡ count c groups
    pub over_order : IsDescending key loads.0
    pub under_order : total % length groups ≢ 0 → IsAscending key loads.1
    pub even_order : total % length groups ≡ 0 → IsDescending key loads.1

  module _ (groups : List ℕ) (total : ℕ) where
    abbrev loads : Loads
    loads =
        separate_from key (total / length groups) (total % length groups) (sorted_down key groups)

    abbrev optimum : ℕ
    optimum = total / length groups

    even-IsSplit :
        total % length groups ≡ 0 → IsSplit groups total (loads.over_loaded, loads.under_loaded)
    even-IsSplit e =
        let b = separate_from-Bounds optimum (total % length groups) (sorted_down key groups) in
        let order =
          separate_from-IsDescending optimum (total % length groups) (sorted_down key groups)
            (sorted_down-IsDescending key groups) in
        let x : Exact optimum loads = rw e (separate_from-Exact optimum (sorted_down key groups)) in
        record {
          over = b.over;
          under = b.under;
          exact = λ _. x.low;
          covered = λ c h. ground (
            arith,
            count-separate_from c optimum (total % length groups) (sorted_down key groups),
            count-sorted_down key c groups,
            count-level c optimum loads.optimal x.level,
          );
          over_order = order.0;
          under_order = λ ne. absurd (ne e);
          even_order = λ _. order.1;
        }

    uneven-IsSplit :
        total % length groups ≢ 0
        → IsSplit groups total (
          sorted_down key (loads.over_loaded ++ keep (λ g. ltb optimum (key g)) loads.optimal),
          sorted_up key (loads.under_loaded ++ keep (λ g. key g == optimum) loads.optimal),
        )
    uneven-IsSplit ne =
        let b = separate_from-Bounds optimum (total % length groups) (sorted_down key groups) in
        record {
          over =
              Each-sorted_down key _ _
                (Each-append _ loads.over_loaded _ b.over (keep-over optimum loads.optimal));
          under =
              Each-sorted_up key _ _
                (Each-append _ loads.under_loaded _ b.under (keep-under optimum loads.optimal));
          exact = λ e. absurd (ne e);
          covered = λ c h. omega (
            arith,
            count-sorted_down key c
                (loads.over_loaded ++ keep (λ g. ltb optimum (key g)) loads.optimal),
            count-sorted_up key c
                (loads.under_loaded ++ keep (λ g. key g == optimum) loads.optimal),
            count-append c loads.over_loaded (keep (λ g. ltb optimum (key g)) loads.optimal),
            count-append c loads.under_loaded (keep (λ g. key g == optimum) loads.optimal),
            count-halves c optimum loads.optimal b.optimal,
            count-separate_from c optimum (total % length groups) (sorted_down key groups),
            count-sorted_down key c groups,
          );
          over_order = sorted_down-IsDescending key _;
          under_order = λ _. sorted_up-IsAscending key _;
          even_order = λ e. absurd (ne e);
        }

-- With at least one group the split succeeds. Over-loaded groups hold more than the optimum, that
-- is the total divided by the number of groups, under-loaded ones at most the optimum, and fewer
-- if there is no remainder. Every group is on exactly one side, but for those at the optimum when
-- there is no remainder. The over-loaded side is in descending order; the under-loaded one is
-- ascending if there is a remainder, and descending if there is none.
pub separate_groups-IsSplit :
    (key : ℕ → ℕ) (groups : List ℕ) (total : ℕ)
    → 0 < length groups
    → Returns (IsSplit key groups total) (separate_groups key groups total)
unfolding separate_groups
separate_groups-IsSplit key groups total h = elim (Bool-cases (length groups == 0)) [
  | inl e ↦ absurd (ground arith)
  | inr e ↦ rw e (elim (Bool-cases ((total % length groups) == 0)) [
    | inl z ↦ rw z (even-IsSplit key groups total (ground arith))
    | inr z ↦ rw z (uneven-IsSplit key groups total (ground arith))
  ])
]

-- Both sides hold only groups that were given.
pub IsSplit-mem :
    (key : ℕ → ℕ) (groups : List ℕ) (total : ℕ) (loads : List ℕ × List ℕ)
    → IsSplit key groups total loads
    → Each (λ g. contains g groups ≡ true) loads.0 × Each (λ g. contains g groups ≡ true) loads.1
IsSplit-mem key groups total (over, under) h = (
  Each-contains _ over (λ g m.
      let big = contains-Each _ over g h.over m in
      ground
        (arith, h.covered g (inr (omega arith)), contains-count g over, contains-count g groups)),
  Each-contains _ under (λ g m. elim (Bool-cases ((total % length groups) == 0)) [
    | inl z ↦
        let small = contains-Each _ under g (h.exact (ground arith)) m in
        ground
          (arith, h.covered g (inr (omega arith)), contains-count g under, contains-count g groups)
    | inr z ↦
        ground
          (arith, h.covered g (inl (ground arith)), contains-count g under, contains-count g groups)
  ]),
)
