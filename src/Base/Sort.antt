-- ===== src/Base/Sort.antt =====
-- Python's `sorted`, `min` and `max` with a key: stable, and the first of the best.
use Prim.Native.Nat.{ℕ, ◌+◌}
use mathlib.Core.Path.{◌≡◌, subst, refl}
use mathlib.Core.List.{List, [], ◌∷◌}
use mathlib.Core.Option.{Option, none, some}
use native.Mathlib.Omega.{arith}
use Prim.Native.Nat.{◌≤◌}
use native.Mathlib.Nat.{le_trans}
use mathlib.Core.Bool.{true, false}
use mathlib.Core.Logic.{◌⊎◌, inl, inr}
use kafka_utils.Base.Tests.{Bool-cases, leb→le, ltb, leb, if◌then◌else◌}
use kafka_utils.Base.Count.{count, same, contains}
use kafka_utils.Base.Lists.{Each, Each-map, sum_of}

module _ (key : ℕ → ℕ) where
  insert_up : ℕ → List ℕ → List ℕ
  insert_up a [] = a ∷ []
  insert_up a (x ∷ xs) =
      let rest = insert_up a xs in if leb (key a) (key x) then a ∷ x ∷ xs else x ∷ rest

  -- `sorted(xs, key=key)`
  unfoldable pub sorted_up : List ℕ → List ℕ
  unfolding insert_up
  sorted_up [] = []
  sorted_up (x ∷ xs) = insert_up x (sorted_up xs)

  insert_down : ℕ → List ℕ → List ℕ
  insert_down a [] = a ∷ []
  insert_down a (x ∷ xs) =
      let rest = insert_down a xs in if leb (key x) (key a) then a ∷ x ∷ xs else x ∷ rest

  -- `sorted(xs, key=key, reverse=True)`, which keeps the order of equal keys too.
  unfoldable pub sorted_down : List ℕ → List ℕ
  unfolding insert_down
  sorted_down [] = []
  sorted_down (x ∷ xs) = insert_down x (sorted_down xs)

  count-insert_up : (c a : ℕ) (xs : List ℕ) → count c (insert_up a xs) ≡ same c a + count c xs
  unfolding insert_up count
  count-insert_up c a [] = refl
  count-insert_up c a (x ∷ xs) = ground (arith, count-insert_up c a xs)

  pub count-sorted_up : (c : ℕ) (xs : List ℕ) → count c (sorted_up xs) ≡ count c xs
  unfolding sorted_up count
  count-sorted_up c [] = refl
  count-sorted_up c (x ∷ xs) =
      ground (arith, count-insert_up c x (sorted_up xs), count-sorted_up c xs)

  count-insert_down : (c a : ℕ) (xs : List ℕ) → count c (insert_down a xs) ≡ same c a + count c xs
  unfolding insert_down count
  count-insert_down c a [] = refl
  count-insert_down c a (x ∷ xs) = ground (arith, count-insert_down c a xs)

  pub count-sorted_down : (c : ℕ) (xs : List ℕ) → count c (sorted_down xs) ≡ count c xs
  unfolding sorted_down count
  count-sorted_down c [] = refl
  count-sorted_down c (x ∷ xs) =
      ground (arith, count-insert_down c x (sorted_down xs), count-sorted_down c xs)

  -- The scans of `min(xs, key=key)` and `max(xs, key=key)`, from the best so far.
  abbrev pub min_from : ℕ → List ℕ → ℕ
  min_from best [] = best
  min_from best (x ∷ xs) = min_from (if ltb (key x) (key best) then x else best) xs

  abbrev pub max_from : ℕ → List ℕ → ℕ
  max_from best [] = best
  max_from best (x ∷ xs) = max_from (if ltb (key best) (key x) then x else best) xs

  -- `none` for an empty list, where Python raises ValueError.
  unfoldable pub min_by : List ℕ → Option ℕ
  min_by [] = none
  min_by (x ∷ xs) = some (min_from x xs)

  unfoldable pub max_by : List ℕ → Option ℕ
  max_by [] = none
  max_by (x ∷ xs) = some (max_from x xs)

  abbrev pub IsAscending : List ℕ → Type 0
  IsAscending [] = Unit
  IsAscending (x ∷ xs) = Each (λ y. key x ≤ key y) xs × IsAscending xs

  abbrev pub IsDescending : List ℕ → Type 0
  IsDescending [] = Unit
  IsDescending (x ∷ xs) = Each (λ y. key y ≤ key x) xs × IsDescending xs

  module _ (P : ℕ → Type 0) where
    Each-insert_up : (a : ℕ) (xs : List ℕ) → P a → Each P xs → Each P (insert_up a xs)
    unfolding insert_up
    Each-insert_up a [] h k = (h, tt)
    Each-insert_up a (x ∷ xs) h k = elim (Bool-cases (leb (key a) (key x))) [
      | inl e ↦ rw e (h, k)
      | inr e ↦ rw e (k.0, Each-insert_up a xs h k.1)
    ]

    pub Each-sorted_up : (xs : List ℕ) → Each P xs → Each P (sorted_up xs)
    unfolding sorted_up
    Each-sorted_up [] h = tt
    Each-sorted_up (x ∷ xs) h = Each-insert_up x (sorted_up xs) h.0 (Each-sorted_up xs h.1)

    Each-insert_down : (a : ℕ) (xs : List ℕ) → P a → Each P xs → Each P (insert_down a xs)
    unfolding insert_down
    Each-insert_down a [] h k = (h, tt)
    Each-insert_down a (x ∷ xs) h k = elim (Bool-cases (leb (key x) (key a))) [
      | inl e ↦ rw e (h, k)
      | inr e ↦ rw e (k.0, Each-insert_down a xs h k.1)
    ]

    pub Each-sorted_down : (xs : List ℕ) → Each P xs → Each P (sorted_down xs)
    unfolding sorted_down
    Each-sorted_down [] h = tt
    Each-sorted_down (x ∷ xs) h = Each-insert_down x (sorted_down xs) h.0 (Each-sorted_down xs h.1)

  insert_up-IsAscending : (a : ℕ) (xs : List ℕ) → IsAscending xs → IsAscending (insert_up a xs)
  unfolding insert_up
  insert_up-IsAscending a [] h = (tt, tt)
  insert_up-IsAscending a (x ∷ xs) h = elim (Bool-cases (leb (key a) (key x))) [
    | inl e ↦ rw e (
      (leb→le _ _ e, Each-map (λ y. key x ≤ key y) _ (λ y m. le_trans (leb→le _ _ e) m) xs h.0),
      h,
    )
    | inr e ↦ rw e (
      Each-insert_up (λ y. key x ≤ key y) a xs (ground arith) h.0,
      insert_up-IsAscending a xs h.1,
    )
  ]

  pub sorted_up-IsAscending : (xs : List ℕ) → IsAscending (sorted_up xs)
  unfolding sorted_up
  sorted_up-IsAscending [] = tt
  sorted_up-IsAscending (x ∷ xs) = insert_up-IsAscending x (sorted_up xs) (sorted_up-IsAscending xs)

  insert_down-IsDescending :
      (a : ℕ) (xs : List ℕ) → IsDescending xs → IsDescending (insert_down a xs)
  unfolding insert_down
  insert_down-IsDescending a [] h = (tt, tt)
  insert_down-IsDescending a (x ∷ xs) h = elim (Bool-cases (leb (key x) (key a))) [
    | inl e ↦ rw e (
      (leb→le _ _ e, Each-map (λ y. key y ≤ key x) _ (λ y m. le_trans m (leb→le _ _ e)) xs h.0),
      h,
    )
    | inr e ↦ rw e (
      Each-insert_down (λ y. key y ≤ key x) a xs (ground arith) h.0,
      insert_down-IsDescending a xs h.1,
    )
  ]

  pub sorted_down-IsDescending : (xs : List ℕ) → IsDescending (sorted_down xs)
  unfolding sorted_down
  sorted_down-IsDescending [] = tt
  sorted_down-IsDescending (x ∷ xs) =
      insert_down-IsDescending x (sorted_down xs) (sorted_down-IsDescending xs)

-- The elements of a scan: one of the candidates, and no other is smaller (larger).
module _ (key : ℕ → ℕ) where
  min_from-mem :
      (best : ℕ) (xs : List ℕ)
      → (min_from key best xs ≡ best) ⊎ (contains (min_from key best xs) xs ≡ true)
  unfolding contains
  min_from-mem best [] = inl refl
  min_from-mem best (x ∷ xs) =
      ground (arith, min_from-mem (if ltb (key x) (key best) then x else best) xs)

  pub min_by-mem : (xs : List ℕ) (a : ℕ) → min_by key xs ≡ some a → contains a xs ≡ true
  unfolding min_by contains
  min_by-mem [] a h = cc
  min_by-mem (x ∷ xs) a h = ground (arith, min_from-mem x xs)

  max_from-mem :
      (best : ℕ) (xs : List ℕ)
      → (max_from key best xs ≡ best) ⊎ (contains (max_from key best xs) xs ≡ true)
  unfolding contains
  max_from-mem best [] = inl refl
  max_from-mem best (x ∷ xs) =
      ground (arith, max_from-mem (if ltb (key best) (key x) then x else best) xs)

  pub max_by-mem : (xs : List ℕ) (a : ℕ) → max_by key xs ≡ some a → contains a xs ≡ true
  unfolding max_by contains
  max_by-mem [] a h = cc
  max_by-mem (x ∷ xs) a h = ground (arith, max_from-mem x xs)

  min_from-le :
      (best : ℕ) (xs : List ℕ)
      → (key (min_from key best xs) ≤ key best) × Each (λ y. key (min_from key best xs) ≤ key y) xs
  min_from-le best [] = (omega arith, tt)
  min_from-le best (x ∷ xs) =
      let (h, k) = min_from-le (if ltb (key x) (key best) then x else best) xs in
      (ground arith, (ground arith, k))

  -- The element found is one of the smallest.
  pub min_by-le : (xs : List ℕ) (a : ℕ) → min_by key xs ≡ some a → Each (λ y. key a ≤ key y) xs
  unfolding min_by
  min_by-le [] a h = cc
  min_by-le (x ∷ xs) a h =
      let e : min_from key x xs ≡ a = cc in
      subst (λ b. Each (λ y. key b ≤ key y) (x ∷ xs)) e (min_from-le x xs)

  pub min_by-none : (xs : List ℕ) → min_by key xs ≡ none → (a : ℕ) → contains a xs ≡ false
  unfolding min_by contains
  min_by-none [] h a = refl
  min_by-none (x ∷ xs) h a = cc

  max_from-le :
      (best : ℕ) (xs : List ℕ)
      → (key best ≤ key (max_from key best xs)) × Each (λ y. key y ≤ key (max_from key best xs)) xs
  max_from-le best [] = (omega arith, tt)
  max_from-le best (x ∷ xs) =
      let (h, k) = max_from-le (if ltb (key best) (key x) then x else best) xs in
      (ground arith, (ground arith, k))

  -- The element found is one of the largest.
  pub max_by-le : (xs : List ℕ) (a : ℕ) → max_by key xs ≡ some a → Each (λ y. key y ≤ key a) xs
  unfolding max_by
  max_by-le [] a h = cc
  max_by-le (x ∷ xs) a h =
      let e : max_from key x xs ≡ a = cc in
      subst (λ b. Each (λ y. key y ≤ key b) (x ∷ xs)) e (max_from-le x xs)

  -- Sorting keeps a sum.
  module _ (f : ℕ → ℕ) where
    sum_of-insert_down : (a : ℕ) (xs : List ℕ) → sum_of f (insert_down key a xs) ≡ f a + sum_of f xs
    unfolding insert_down
    sum_of-insert_down a [] = refl
    sum_of-insert_down a (x ∷ xs) = ground (arith, sum_of-insert_down a xs)

    pub sum_of-sorted_down : (xs : List ℕ) → sum_of f (sorted_down key xs) ≡ sum_of f xs
    unfolding sorted_down
    sum_of-sorted_down [] = refl
    sum_of-sorted_down (x ∷ xs) =
        ground (arith, sum_of-insert_down x (sorted_down key xs), sum_of-sorted_down xs)
