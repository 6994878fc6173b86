-- ===== src/Cluster/Group/Elect.antt =====
-- The brokers of a replication group, and the choice of a source and of a destination.
use kafka_utils.Base.{
  ℕ, String, List, [], ◌∷◌, ◌++◌, not, ◌&&◌, Option, none, some, if◌then◌else◌, Result, ok, raise,
  attribute_error, assertion_error, not_eligible_group, require, ◌>>◌, length, keep, any_of, is_nil,
  sorted_up, sorted_down, min_by, max_by, contains,
}
use kafka_utils.Cluster.Objects.{Store, Group, set_group, replicas, partitions}
use kafka_utils.Cluster.Broker.{remove_partition, add_partition, move_partition, count_partitions}

-- `ReplicationGroup.__init__`, with no brokers.
abbrev pub create : Option String → Group
create id = record { id = id; brokers = [] }

abbrev pub brokers : Store → ℕ → List ℕ
brokers s g = (s.group g).brokers

abbrev pub load : Store → ℕ → ℕ
load s b = length (partitions s b)

unfoldable pub active_brokers : Store → ℕ → List ℕ
active_brokers s g =
    keep (λ b. not (s.broker b).inactive && not (s.broker b).decommissioned) (brokers s g)

-- A broker that is present already is left alone.
unfoldable pub add_broker : Store → ℕ → ℕ → Store
add_broker s g b =
    if contains b (brokers s g)
    then s
    else set_group s g (record (s.group g) { brokers = b ∷ brokers s g })

-- `partitions`: those of every broker, one after the other.
unfoldable pub group_partitions : Store → List ℕ → List ℕ
group_partitions s [] = []
group_partitions s (b ∷ bs) = partitions s b ++ group_partitions s bs

unfoldable pub count_replica : Store → ℕ → ℕ → ℕ
count_replica s g p = length (keep (λ b. contains b (brokers s g)) (replicas s p))

-- `_elect_source_broker`; `subset` is `[]` where no subset is given.
unfoldable pub elect_source_broker : Store → ℕ → ℕ → List ℕ → Option ℕ
elect_source_broker s g victim subset =
    let candidates = if is_nil subset then brokers s g else subset in
    let over_loaded =
      sorted_down (load s)
        (keep (λ b. contains victim (partitions s b) && not (s.broker b).inactive) candidates) in
    max_by (λ b. count_partitions s b (s.partition victim).topic) over_loaded

-- `_elect_dest_broker`
unfoldable pub elect_dest_broker : Store → ℕ → ℕ → Option ℕ
elect_dest_broker s g victim =
    let under_loaded = sorted_up (load s) (
      keep
        (λ b.
          not (contains victim (partitions s b))
          && not (s.broker b).inactive
          && not (s.broker b).decommissioned)
        (brokers s g)) in
    min_by (λ b. count_partitions s b (s.partition victim).topic)
      (keep (λ b. not (contains victim (partitions s b))) under_loaded)

unfoldable pub acquire_partition : Store → ℕ → ℕ → ℕ → Result Store
acquire_partition s g p source = elim (elect_dest_broker s g p) [
  | none ↦ raise not_eligible_group
  | some dest ↦ move_partition s source p dest
]

-- `move_partition`, to the group `dest`. A missing broker has no `id`.
unfoldable pub move_to_group : Store → ℕ → ℕ → ℕ → Result Store
move_to_group s g dest victim = elim (elect_source_broker s g victim []) [
  | none ↦ raise attribute_error
  | some source ↦ elim (elect_dest_broker s dest victim) [
    | none ↦ raise attribute_error
    | some b ↦ move_partition s source victim b
  ]
]

unfoldable pub get_active_brokers : Store → ℕ → List ℕ
get_active_brokers s g = keep (λ b. not (s.broker b).inactive) (brokers s g)

-- `_get_eligible_broker_pair`
unfoldable pub get_eligible_broker_pair : Store → ℕ → ℕ → ℕ → Option ℕ × Option ℕ
get_eligible_broker_pair s g under p = (
  max_by (load s) (keep (λ b. contains p (partitions s b)) (brokers s g)),
  min_by (load s) (keep (λ b. not (contains p (partitions s b))) (brokers s under)),
)

unfoldable pub move_partition_replica : Store → ℕ → ℕ → ℕ → Result Store
unfolding get_eligible_broker_pair
move_partition_replica s g under p = elim (get_eligible_broker_pair s g under p).0 [
  | none ↦ ok s
  | some source ↦ elim (get_eligible_broker_pair s g under p).1 [
    | none ↦ ok s
    | some dest ↦ move_partition s source p dest
  ]
]

unfoldable pub add_replica : Store → ℕ → ℕ → Result Store
add_replica s g p = elim (elect_dest_broker s g p) [
  | none ↦ raise attribute_error
  | some b ↦ add_partition s b p
]

unfoldable pub remove_replica : Store → ℕ → ℕ → List ℕ → Result Store
remove_replica s g p subset = do
  require (not (any_of (λ b. not (contains b (brokers s g))) subset)) assertion_error
  elim (elect_source_broker s g p subset) [
    | none ↦ raise attribute_error
    | some b ↦ remove_partition s b p
  ]
