-- ===== src/Plan/Tests.antt =====
-- Plans as the program reads them, and the theorems at them.
use kafka_utils.Base.{
  ℕ, List, [], ◌∷◌, true, false, ◌≡◌, ◌↔◌, refl, ℤ, pos, ok, Returns, lookup, insert, string_eq,
  pair_eq,
}
use kafka_utils.Plan.Json.{Json, Items, null, int, text, arr, obj, nil, cons, end, field, truthy}
use kafka_utils.Plan.Entry.{PData, int_eq}
use kafka_utils.Plan.Format.{validate_format, read_plan}
use kafka_utils.Plan.Validate.{PName, validate_plan}
use kafka_utils.Plan.Readable.{IsReadable, read_plan_total}
use kafka_utils.Plan.Valid.{IsValid}
use kafka_utils.Plan.Accept.{IsWithin, validate_plan_iff, validate_plan_alone_iff}
use kafka_utils.Plan.Convert.{
  plan_to_assignment, assignment_to_plan, plan_to_assignment-assignment_to_plan,
  assignment_to_plan-plan_to_assignment,
}
use kafka_utils.Plan.Written.{write_plan, read_plan-write_plan}

abbrev entry : ℕ → Json → Json
entry p replicas =
    obj (field "topic" (text "t") (field "partition" (int (pos p)) (field "replicas" replicas end)))

abbrev two : Json
two = arr (cons (int (pos 1)) (cons (int (pos 2)) nil))

abbrev plan_of : Items → Json
plan_of es = obj (field "version" (int (pos 1)) (field "partitions" (arr es) end))

abbrev base_plan : Json
base_plan = plan_of (cons (entry 0 two) (cons (entry 1 two) nil))

abbrev new_plan : Json
new_plan = plan_of (cons (entry 1 two) nil)

-- The same partition twice.
abbrev twice : Json
twice = plan_of (cons (entry 1 two) (cons (entry 1 two) nil))

subset_run : validate_plan new_plan base_plan true false ≡ ok true
unfolding validate_plan lookup insert
subset_run = refl

-- A plan with brokers that the base plan does not have.
abbrev elsewhere : Json
elsewhere = arr (cons (int (pos 7)) (cons (int (pos 8)) nil))

elsewhere_run :
    validate_plan (plan_of (cons (entry 1 elsewhere) nil)) base_plan true false ≡ ok true
unfolding validate_plan lookup insert
elsewhere_run = refl

covering_run : validate_plan new_plan base_plan false false ≡ ok false
unfolding validate_plan lookup insert
covering_run = refl

twice_run : validate_plan twice null true false ≡ ok false
unfolding validate_plan lookup
twice_run = refl

read_plan_total_example : Returns IsReadable (read_plan base_plan)
unfolding validate_format lookup
read_plan_total_example = read_plan_total base_plan refl

validate_plan_iff_example :
    (ns : List PData) × (bs : List PData) × (read_plan new_plan ≡ ok ns)
    × (read_plan base_plan ≡ ok bs)
    × ((validate_plan new_plan base_plan true false ≡ ok true)
        ↔ (IsValid ns × IsValid bs × IsWithin ns bs true false))
unfolding validate_format lookup
validate_plan_iff_example = validate_plan_iff new_plan base_plan true false refl refl

validate_plan_alone_iff_example :
    (ns : List PData) × (read_plan new_plan ≡ ok ns)
    × ((validate_plan new_plan null false false ≡ ok true) ↔ IsValid ns)
unfolding validate_format truthy lookup
validate_plan_alone_iff_example = validate_plan_alone_iff new_plan null false false refl refl

abbrev one_entry : List (PName × List ℤ)
one_entry = (("t", pos 0), pos 1 ∷ pos 2 ∷ []) ∷ []

plan_to_assignment-assignment_to_plan_example :
    plan_to_assignment (assignment_to_plan one_entry) ≡ one_entry
plan_to_assignment-assignment_to_plan_example =
    plan_to_assignment-assignment_to_plan one_entry (tt, tt)

abbrev one_item : List PData
one_item = record { topic = "t"; partition = pos 0; replicas = pos 1 ∷ pos 2 ∷ [] } ∷ []

assignment_to_plan-plan_to_assignment_example :
    assignment_to_plan (plan_to_assignment one_item) ≡ one_item
assignment_to_plan-plan_to_assignment_example =
    assignment_to_plan-plan_to_assignment one_item (tt, tt)

read_plan-write_plan_example :
    (read_plan (write_plan one_item) ≡ ok one_item)
    × (validate_format (write_plan one_item) ≡ ok true)
read_plan-write_plan_example = read_plan-write_plan one_item
