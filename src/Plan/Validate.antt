-- ===== src/Plan/Validate.antt =====
-- `validate_plan`, `_validate_plan` and `_validate_plan_base` (util/validation.py). Messages to
-- the log are left out.
use kafka_utils.Base.{
  ℕ, String, List, [], ◌∷◌, ◌++◌, Bool, true, false, not, ◌&&◌, ◌==◌, if◌then◌else◌, all_of, any_of,
  is_nil, keep, length, map, none, some, ℤ, Eq, pair_eq, string_eq, Result, ok, raise, key_error,
  ◌>>=◌, lookup, insert, Dict,
}
use kafka_utils.Plan.Json.{Json, truthy}
use kafka_utils.Plan.Entry.{PData, int_eq, duplicates}
use kafka_utils.Plan.Format.{validate_format, read_plan}

-- `(p_data['topic'], p_data['partition'])`
abbrev pub PName : Type 0
PName = String × ℤ

abbrev pub name : PData → PName
name p = (p.topic, p.partition)

abbrev pub name_eq : Eq PName
name_eq = pair_eq

-- `n in ns`
abbrev pub named : PName → List PName → Bool
named n ns = any_of (λ m. name_eq.beq m n) ns

-- The loop over the replication factors, with the factors seen so far.
unfoldable pub same_factor : List PData → Dict String ℕ → Bool
same_factor [] seen = true
same_factor (p ∷ ps) seen =
    let factor = length p.replicas in
    elim (lookup p.topic seen) [
      | some known ↦ (known == factor) && same_factor ps seen
      | none ↦ same_factor ps (insert p.topic factor seen)
    ]

-- The checks of `_validate_plan` after the format.
unfoldable pub check_plan : List PData → Bool
unfolding same_factor duplicates
check_plan ps =
    is_nil (duplicates (map name ps))
    && all_of (λ p. is_nil (duplicates p.replicas)) ps
    && same_factor ps []

-- `_validate_plan`
unfoldable pub validate_one : Json → Result Bool
unfolding check_plan validate_format read_plan
validate_one plan = do
  good ← validate_format plan
  elim good [ false ↦ ok false | true ↦ do ps ← read_plan plan; ok (check_plan ps) ]

-- The partitions that the check for a subset, or for equality, refuses.
unfoldable pub invalid_partitions : List PName → List PName → Bool → List PName
invalid_partitions new base true = keep (λ n. not (named n base)) new
invalid_partitions new base false = keep (λ n. not (named n new && named n base)) (new ++ base)

-- The dictionary of the replicas by partition: a later entry replaces an earlier one.
unfoldable pub replicas_by_name : List PData → Dict PName (List ℤ) → Dict PName (List ℤ)
replicas_by_name [] d = d
replicas_by_name (p ∷ ps) d = replicas_by_name ps (insert (name p) p.replicas d)

-- The loop over the new partitions: every factor is compared.
unfoldable pub same_counts : Dict PName (List ℤ) → Dict PName (List ℤ) → Result Bool
same_counts base [] = ok true
same_counts base ((n, replicas) ∷ more) = elim (lookup n base) [
  | none ↦ raise key_error
  | some old ↦ do others ← same_counts base more; ok ((length replicas == length old) && others)
]

-- `_validate_plan_base`
unfoldable pub validate_base : List PData → List PData → Bool → Bool → Result Bool
unfolding invalid_partitions replicas_by_name same_counts
validate_base new base is_partition_subset allow_rf_change =
    if is_nil (invalid_partitions (map name new) (map name base) is_partition_subset)
    then (if allow_rf_change
        then ok true
        else same_counts (replicas_by_name base []) (replicas_by_name new []))
    else ok false

-- `validate_plan`; the base plan is `null` where none is given.
unfoldable pub validate_plan : Json → Json → Bool → Bool → Result Bool
unfolding validate_one validate_base truthy read_plan
validate_plan new base is_partition_subset allow_rf_change = do
  good ← validate_one new
  elim (good && truthy base) [
    | false ↦ ok good
    | true ↦ do
      base_good ← validate_one base
      elim base_good [
        | false ↦ ok false
        | true ↦ do
          ns ← read_plan new
          bs ← read_plan base
          validate_base ns bs is_partition_subset allow_rf_change
      ]
  ]
