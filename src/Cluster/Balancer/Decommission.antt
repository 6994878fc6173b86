-- ===== src/Cluster/Balancer/Decommission.antt =====
-- `decommission_brokers` (cluster_info/partition_count_balancer.py).
pub mod Emptied
pub mod Decommissioned
pub mod Marked
use kafka_utils.Base.{
  ℕ, List, [], ◌∷◌, ◌++◌, Bool, true, false, not, ◌&&◌, ◌==◌, if◌then◌else◌, Option, none, some,
  lookup, Eq, option_eq, nat_eq, Result, ok, raise, Error, ◌>>=◌, invalid_broker_id,
  broker_decommission, not_eligible_group, empty_replication_group, attribute_error, keep, any_of,
  sorted_up,
}
use kafka_utils.Cluster.Objects.{Store, partitions}
use kafka_utils.Cluster.Broker.{mark_decommissioned, empty}
use kafka_utils.Cluster.Group.{brokers, count_replica, acquire_partition}
use kafka_utils.Cluster.Group.Rebalance.{rebalance_brokers}
use kafka_utils.Cluster.Topology.{Topology}
use kafka_utils.Cluster.Balancer.Leaders.{all_groups}

abbrev pub is_not_eligible : Error → Bool
is_not_eligible not_eligible_group = true
is_not_eligible _ = false

abbrev pub is_empty_group : Error → Bool
is_empty_group empty_replication_group = true
is_empty_group _ = false

-- The inner loop: the first group that can take the partition.
unfoldable pub try_groups : Store → ℕ → ℕ → List ℕ → Result Store
try_groups s p b [] = ok s
try_groups s p b (g ∷ gs) = elim (acquire_partition s g p b) [
  | ok t ↦ ok t
  | raise e ↦ elim (is_not_eligible e) [ true ↦ try_groups s p b gs | false ↦ raise e ]
]

-- The outer loop, over a copy of the partitions.
unfoldable pub reassign : Store → ℕ → List ℕ → List ℕ → Result Store
unfolding try_groups
reassign s b available [] = ok s
reassign s b available (p ∷ ps) = do
  s' ← try_groups s p b (sorted_up (λ g. count_replica s g p) available)
  reassign s' b available ps

-- `rg is not broker.replication_group`
abbrev pub is_other_group : Option ℕ → ℕ → Bool
is_other_group none g = true
is_other_group (some own) g = not (g == own)

unfoldable pub force_broker_decommission : Topology → Store → ℕ → Result Store
unfolding reassign
force_broker_decommission c s b =
    reassign s b (keep (is_other_group (s.broker b).replication_group) (all_groups c))
      (partitions s b)

unfoldable pub decommission_each : Topology → Store → List ℕ → Result Store
unfolding force_broker_decommission
decommission_each c s [] = ok s
decommission_each c s (b ∷ bs) = elim ((s.broker b).decommissioned && not (empty s b)) [
  | false ↦ decommission_each c s bs
  | true ↦ do
    s' ← force_broker_decommission c s b
    elim (empty s' b) [ false ↦ raise broker_decommission | true ↦ decommission_each c s' bs ]
]

-- `group.rebalance_brokers()` with its exception handled; it raises EmptyReplicationGroupError
-- before it changes anything.
unfoldable pub try_rebalance : Store → ℕ → Result Store
try_rebalance s g = elim (rebalance_brokers s g) [
  | ok t ↦ ok t
  | raise e ↦ elim (is_empty_group e) [ true ↦ ok s | false ↦ raise e ]
]

unfoldable pub decommission_brokers_in_group : Topology → Store → ℕ → Result Store
unfolding try_rebalance decommission_each
decommission_brokers_in_group c s g = do
  s' ← try_rebalance s g
  decommission_each c s' (brokers s' g)

-- The loop over the set of groups; a broker without a group adds None.
unfoldable pub decommission_groups : Topology → Store → List (Option ℕ) → Result Store
unfolding decommission_brokers_in_group
decommission_groups c s [] = ok s
decommission_groups c s (none ∷ gs) = raise attribute_error
decommission_groups c s (some g ∷ gs) = do
  s' ← decommission_brokers_in_group c s g
  decommission_groups c s' gs

abbrev pub add_group : Option ℕ → List (Option ℕ) → List (Option ℕ)
add_group g gs =
    let e : Eq (Option ℕ) = option_eq in if any_of (e.beq g) gs then gs else gs ++ g ∷ []

-- The loop over the ids: the brokers are marked and their groups collected.
unfoldable pub mark_each :
    Topology → Store → List (Option ℕ) → List ℕ → Result (Store × List (Option ℕ))
mark_each c s gs [] = ok (s, gs)
mark_each c s gs (i ∷ is) = elim (lookup i c.brokers) [
  | none ↦ raise invalid_broker_id
  | some b ↦ mark_each c (mark_decommissioned s b) (add_group (s.broker b).replication_group gs) is
]

unfoldable pub decommission_brokers : Topology → Store → List ℕ → Result Store
unfolding mark_each decommission_groups
decommission_brokers c s broker_ids = do
  (s', groups) ← mark_each c s [] broker_ids
  decommission_groups c s' groups
