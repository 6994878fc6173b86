-- ===== src/Commands/Tests.antt =====
-- The small cluster as a proposal, and the theorems at it.
use kafka_utils.Base.{
  ℕ, List, [], ◌∷◌, false, true, none, some, pos, IsDict, Returns, ok, raise, value_error, lookup,
  insert, contains, max_by, sorted_down, if◌then◌else◌, ◌==◌, ◌≡◌, ◌≢◌, ap, refl, arith,
}
use kafka_utils.Cluster.Objects.{Partition}
use kafka_utils.Cluster.Sample.{cluster, small, partition_at}
use kafka_utils.Cluster.Group.{count_replica}
use kafka_utils.Commands.Movement.{fits, too_small, reaches_ideal, check_movement_size}
use kafka_utils.Commands.Accepted.{HasVerdict, check_movement_size_lem}
use kafka_utils.Commands.Rebalance.{replication_group_imbalance}
use kafka_utils.Cluster.Topology.{Name, Assignment, assignment, gather, sorted_items, insert_item}
use kafka_utils.Commands.Actions.{Action, extract_actions_unique_topics}
use kafka_utils.Commands.Kept.{Extracted}
use kafka_utils.Commands.Extract.{extract_actions_unique_topics-Extracted}
use kafka_utils.Commands.Reduce.{size_of, get_reduced_assignment}
use kafka_utils.Commands.Bounded.{IsReduced}
use kafka_utils.Cluster.Topology.{Topology}
use kafka_utils.Plan.Json.{Json}
use kafka_utils.Plan.Entry.{duplicates}
use kafka_utils.Plan.Format.{validate_format, read_plan}
use kafka_utils.Plan.Validate.{validate_plan}
use kafka_utils.Plan.Written.{write_plan}
use kafka_utils.Commands.Send.{Session, sent, plan_of, propose}
use kafka_utils.Commands.Sent.{IsSent, propose-IsSent}
use kafka_utils.Commands.Reduced.{get_reduced_assignment-IsReduced}

abbrev counts : List Action
counts = (("events", 0), 2) ∷ (("events", 1), 1) ∷ (("clicks", 0), 2) ∷ []

extract_actions_unique_topics-Extracted_example :
    Returns
      (Extracted (λ k. 5) 4 (some 12) counts)
      (extract_actions_unique_topics (λ k. 5) 4 (some 12) counts)
extract_actions_unique_topics-Extracted_example =
    extract_actions_unique_topics-Extracted (λ k. 5) 4 (some 12) counts

-- The replicas of the first partition change their order, those of the second change.
abbrev original : Assignment
original =
    (("events", 0), 11 ∷ 10 ∷ []) ∷ (("events", 1), 10 ∷ 11 ∷ []) ∷ (("events", 2), 10 ∷ []) ∷ []

apart : (i j : ℕ) → i ≢ j → ◌≢◌ {A = Name} ("events", i) ("events", j)
apart i j h e = h (ap (λ n. n.1) e)

original-IsDict : IsDict original
original-IsDict = (
  (apart 1 0 (λ e. omega arith), (apart 2 0 (λ e. omega arith), tt)),
  ((apart 2 1 (λ e. omega arith), tt), (tt, tt)),
)

get_reduced_assignment-IsReduced_example :
    Returns
      (IsReduced original (assignment cluster) (size_of cluster) 1 1 none)
      (get_reduced_assignment original cluster (pos 1) (pos 1) none false)
unfolding assignment gather sorted_items insert_item insert lookup
get_reduced_assignment-IsReduced_example =
    get_reduced_assignment-IsReduced original cluster (pos 1) (pos 1) none original-IsDict
      ((10 ∷ 11 ∷ [], refl), ((10 ∷ 12 ∷ [], refl), ((10 ∷ [], refl), tt)))

reduced_run :
    get_reduced_assignment original cluster (pos 1) (pos 1) none false
    ≡ ok ((("events", 1), 10 ∷ 12 ∷ []) ∷ (("events", 0), 10 ∷ 11 ∷ []) ∷ [])
unfolding get_reduced_assignment assignment gather sorted_items insert_item insert lookup contains
    extract_actions_unique_topics
reduced_run = refl

-- With only orders to change, forced progress has no smallest size.
forced_run :
    get_reduced_assignment ((("events", 0), 11 ∷ 10 ∷ []) ∷ []) cluster (pos 1) (pos 1) none true
    ≡ raise value_error
unfolding get_reduced_assignment assignment gather sorted_items insert_item insert lookup contains
    extract_actions_unique_topics
forced_run = refl

-- A cluster of the first two partitions alone, whose plans the check accepts.
abbrev pair : Topology
pair = record cluster { partitions = (("events", 0), 0) ∷ (("events", 1), 1) ∷ [] }

abbrev before : Assignment
before = (("events", 0), 11 ∷ 10 ∷ []) ∷ (("events", 1), 10 ∷ 11 ∷ []) ∷ []

abbrev session : Session
session = record {
  apply = true;
  no_confirm = true;
  confirmed = false;
  execute_plan = λ plan allow. true;
}

abbrev reduced_plan : Json
reduced_plan =
    write_plan (plan_of ((("events", 1), 10 ∷ 12 ∷ []) ∷ (("events", 0), 10 ∷ 11 ∷ []) ∷ []))

sent_run : propose session before pair (pos 1) (pos 1) none false ≡ ok (sent reduced_plan)
unfolding propose get_reduced_assignment assignment gather sorted_items insert_item insert lookup
    contains extract_actions_unique_topics validate_plan write_plan validate_format read_plan
    duplicates plan_of
sent_run = refl

propose-IsSent_example : IsSent session before pair 1 1 none reduced_plan
unfolding assignment gather sorted_items insert_item insert lookup plan_of
propose-IsSent_example =
    propose-IsSent session before pair (pos 1) (pos 1) none reduced_plan
      ((apart 1 0 (λ e. omega arith), tt), (tt, tt))
      ((10 ∷ 11 ∷ [], refl), ((10 ∷ 12 ∷ [], refl), tt)) refl refl sent_run

-- Three partitions of the weight 5 and the sizes 10, 5 and 3, all on broker 0.
abbrev sized_at : ℕ → Partition
sized_at p = record (partition_at p) {
  weight = 5;
  size = if p == 0 then 10 else (if p == 1 then 5 else 3);
}

abbrev sized : Topology
sized = record cluster { store = record small { partition = sized_at } }

check_movement_size_lem_example :
    Returns (HasVerdict false sized 2) (check_movement_size false sized 2)
check_movement_size_lem_example = check_movement_size_lem false sized 2 (omega arith) (omega arith)

-- The size that the error message asks for is refused in turn.
required_run : check_movement_size false sized 2 ≡ ok (too_small 3)
unfolding check_movement_size max_by sorted_down
required_run = refl

refused_run : check_movement_size false sized 3 ≡ ok (too_small 5)
unfolding check_movement_size max_by sorted_down
refused_run = refl

accepted_run : check_movement_size false sized 10 ≡ ok fits
unfolding check_movement_size max_by sorted_down
accepted_run = refl

imbalance_run : replication_group_imbalance small (0 ∷ []) (0 ∷ 1 ∷ 2 ∷ []) ≡ ok 0
unfolding replication_group_imbalance count_replica contains
imbalance_run = refl

-- Seven on one broker reach an ideal of 7.5 only where it is rounded down.
rounded_run : reaches_ideal true 30 4 7 ≡ true
rounded_run = refl

exact_run : reaches_ideal false 30 4 7 ≡ false
exact_run = refl
