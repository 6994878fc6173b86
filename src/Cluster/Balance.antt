-- ===== src/Cluster/Balance.antt =====
-- Which groups of elements are over- and under-loaded (cluster_info/util.py). A group is a
-- reference, and `key` gives the number of its elements.
pub mod Split
use kafka_utils.Base.{
  ℕ, ◌+◌, ◌-◌, ◌/◌, ◌%◌, List, [], ◌∷◌, ◌++◌, Bool, true, false, ◌==◌, if◌then◌else◌, ltb, Result,
  ok, raise, zero_division_error, ◌>>=◌, length, keep, sorted_up, sorted_down,
}

-- The quotient and the remainder.
unfoldable pub compute_optimum : ℕ → ℕ → Result (ℕ × ℕ)
compute_optimum groups elements =
    if groups == 0 then raise zero_division_error else ok (elements / groups, elements % groups)

pub record Loads : Type 0 where
  pub over_loaded : List ℕ
  pub under_loaded : List ℕ
  pub optimal : List ℕ

module _ (key : ℕ → ℕ) where
  -- The loop over the sorted groups; `extra` is what is left of the remainder.
  unfoldable pub separate_from : ℕ → ℕ → List ℕ → Loads
  separate_from optimum extra [] = record { over_loaded = []; under_loaded = []; optimal = [] }
  separate_from optimum extra (g ∷ gs) =
      let additional_element : ℕ = if extra == 0 then 0 else 1 in
      let rest = separate_from optimum (extra - additional_element) gs in
      if ltb (optimum + additional_element) (key g)
      then record rest { over_loaded = g ∷ rest.over_loaded }
      else (if key g == (optimum + additional_element)
          then record rest { optimal = g ∷ rest.optimal }
          else record rest { under_loaded = g ∷ rest.under_loaded })

  unfoldable pub smart_separate_groups : List ℕ → ℕ → Result Loads
  unfolding separate_from compute_optimum
  smart_separate_groups groups total = do
    (optimum, extra) ← compute_optimum (length groups) total
    ok (separate_from optimum extra (sorted_down key groups))

  -- The over-loaded groups, descending, and the under-loaded ones, ascending.
  unfoldable pub separate_groups : List ℕ → ℕ → Result (List ℕ × List ℕ)
  unfolding smart_separate_groups compute_optimum
  separate_groups groups total = do
    (optimum, extra) ← compute_optimum (length groups) total
    loads ← smart_separate_groups groups total
    (if extra == 0
        then ok (loads.over_loaded, loads.under_loaded)
        else ok (
          sorted_down key (loads.over_loaded ++ keep (λ g. ltb optimum (key g)) loads.optimal),
          sorted_up key (loads.under_loaded ++ keep (λ g. key g == optimum) loads.optimal),
        ))
