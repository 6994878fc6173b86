-- ===== src/Plan/Convert.antt =====
-- `plan_to_assignment` and `assignment_to_plan` (util/validation.py), on the entries of a plan.
use kafka_utils.Base.{
  List, [], ◌∷◌, map, ◌≡◌, ◌≢◌, Each, refl, ap, ◌∙◌, ℤ, Dict, IsDict, Absent, pair_eq, string_eq,
}
use kafka_utils.Plan.Entry.{PData, IsDistinct, int_eq}
use kafka_utils.Plan.Against.{item, nil-Absent, replicas_by_name-item}
use kafka_utils.Plan.Accept.{Each-of-names}
use kafka_utils.Plan.Validate.{PName, name, replicas_by_name}

-- `plan_to_assignment`: the dictionary of the replicas by (topic, partition).
unfoldable pub plan_to_assignment : List PData → Dict PName (List ℤ)
unfolding replicas_by_name
plan_to_assignment ps = replicas_by_name ps []

-- `assignment_to_plan`: the entries under 'partitions'; the version is always 1.
unfoldable pub assignment_to_plan : Dict PName (List ℤ) → List PData
assignment_to_plan [] = []
assignment_to_plan ((n, replicas) ∷ more) =
    record { topic = n.0; partition = n.1; replicas = replicas } ∷ assignment_to_plan more

map-item-plan : (a : Dict PName (List ℤ)) → map item (assignment_to_plan a) ≡ a
unfolding assignment_to_plan
map-item-plan [] = refl
map-item-plan ((n, replicas) ∷ more) = ap (λ xs. (n, replicas) ∷ xs) (map-item-plan more)

plan-Absent :
    (k : PName) (a : Dict PName (List ℤ))
    → Absent k a
    → Each (λ p. name p ≢ k) (assignment_to_plan a)
unfolding assignment_to_plan
plan-Absent k [] h = tt
plan-Absent k ((n, replicas) ∷ more) h = (h.0, plan-Absent k more h.1)

plan-distinct : (a : Dict PName (List ℤ)) → IsDict a → IsDistinct (map name (assignment_to_plan a))
unfolding assignment_to_plan
plan-distinct [] h = tt
plan-distinct ((n, replicas) ∷ more) h = (
  (Each-of-names (λ m. m ≢ n) (assignment_to_plan more)).0 (plan-Absent n more h.0),
  plan-distinct more h.1,
)

plan-map-item : (ps : List PData) → assignment_to_plan (map item ps) ≡ ps
unfolding assignment_to_plan
plan-map-item [] = refl
plan-map-item (p ∷ ps) = ap (λ xs. p ∷ xs) (plan-map-item ps)

-- A dictionary, each key once, becomes a plan and the plan the same dictionary, in the same order.
pub plan_to_assignment-assignment_to_plan :
    (a : Dict PName (List ℤ)) → IsDict a → plan_to_assignment (assignment_to_plan a) ≡ a
unfolding plan_to_assignment
plan_to_assignment-assignment_to_plan a h =
    replicas_by_name-item (assignment_to_plan a) [] (nil-Absent (assignment_to_plan a))
      (plan-distinct a h)
    ∙ map-item-plan a

-- A plan that names each partition once becomes an assignment and comes back the same.
pub assignment_to_plan-plan_to_assignment :
    (ps : List PData) → IsDistinct (map name ps) → assignment_to_plan (plan_to_assignment ps) ≡ ps
unfolding plan_to_assignment
assignment_to_plan-plan_to_assignment ps h =
    ap assignment_to_plan (replicas_by_name-item ps [] (nil-Absent ps) h) ∙ plan-map-item ps
