-- ===== src/Commands/Rebalance.antt =====
-- The rebalance command with the partition count balancer
-- (kafka_cluster_manager/cmds/rebalance.py, cluster_info/stats.py). The balancer gives no score.
use kafka_utils.Base.{
  ℕ, ◌+◌, ◌-◌, suc, List, [], ◌∷◌, map, Bool, true, false, Option, none, some, if◌then◌else◌, ltb,
  length, ℤ, Result, ok, ◌>>=◌,
}
use kafka_utils.Cluster.Objects.{Store, replicas}
use kafka_utils.Cluster.Topology.{Topology, Assignment, assignment}
use kafka_utils.Cluster.Balance.{compute_optimum}
use kafka_utils.Cluster.Group.{count_replica}
use kafka_utils.Cluster.Balancer.Leaders.{all_groups, all_partitions}
use kafka_utils.Cluster.Balancer.Groups.{Arguments, rebalance}
use kafka_utils.Commands.Movement.{fits, too_small, size, check_movement_size}
use kafka_utils.Plan.Validate.{validate_plan}
use kafka_utils.Plan.Written.{write_plan}
use kafka_utils.Commands.Send.{Session, Finish, exited, idle, largest, plan_of, propose}

-- The extra elements, and what is left of the ones allowed.
unfoldable pub get_extra_element_count : ℕ → ℕ → ℕ → ℕ × ℕ
get_extra_element_count curr_count opt_count extra_allowed_cnt =
    if ltb opt_count curr_count
    then (if ltb 0 extra_allowed_cnt
        then (curr_count - opt_count - 1, extra_allowed_cnt - 1)
        else (curr_count - opt_count, extra_allowed_cnt))
    else (0, extra_allowed_cnt)

-- The loop over the groups for one partition: its extra replicas.
unfoldable pub extra_replicas : Store → ℕ → ℕ → ℕ → List ℕ → ℕ
unfolding get_extra_element_count
extra_replicas s p opt_count extra_allowed [] = 0
extra_replicas s p opt_count extra_allowed (g ∷ gs) =
    let (extra, left) = get_extra_element_count (count_replica s g p) opt_count extra_allowed in
    extra + extra_replicas s p opt_count left gs

-- The net imbalance over all groups; the counts per group are only summed.
unfoldable pub replication_group_imbalance : Store → List ℕ → List ℕ → Result ℕ
unfolding extra_replicas compute_optimum
replication_group_imbalance s rgs [] = ok 0
replication_group_imbalance s rgs (p ∷ ps) = do
  (opt_count, extra_allowed) ← compute_optimum (length rgs) (length (replicas s p))
  rest ← replication_group_imbalance s rgs ps
  ok (extra_replicas s p opt_count extra_allowed rgs + rest)

-- The limit after the check: `none` where the command has to exit.
unfoldable pub checked_limit : Bool → Topology → Option ℕ → Bool → Result (Option (Option ℕ))
unfolding check_movement_size largest
checked_limit floors c (some (suc n)) auto_max_movement_size = do
  verdict ← check_movement_size floors c (suc n)
  elim verdict [ fits ↦ ok (some (some (suc n))) | too_small required ↦ ok none ]
checked_limit floors c max_movement_size true = do
  n ← largest (map (size c.store) (all_partitions c))
  ok (some (some n))
checked_limit floors c max_movement_size false = ok (some max_movement_size)

-- After the balance. Without a score a threshold for its improvement ends the command.
unfoldable pub propose_improved : Session → Assignment → Topology → ℤ → ℤ → Bool → Result Finish
unfolding propose
propose_improved session base c max_partition_movements max_leader_changes has_threshold =
    elim has_threshold [
      | false ↦ propose session base c max_partition_movements max_leader_changes none false
      | true ↦ do
        good ←
            validate_plan (write_plan (plan_of (assignment c))) (write_plan (plan_of base)) true
              false
        ok (if good then idle else exited)
    ]

-- `RebalanceCmd.run_command`; `floors` says whether the ideal weight is rounded down.
unfoldable pub rebalance_command :
    Bool → Session → Topology → Arguments → Bool → ℤ → ℤ → Bool → Result Finish
unfolding propose_improved checked_limit replication_group_imbalance rebalance
rebalance_command floors session c args auto_max_movement_size max_partition_movements
      max_leader_changes has_threshold =
    do
      limit ← checked_limit floors c args.max_movement_size auto_max_movement_size
      elim limit [
        | none ↦ ok exited
        | some max_movement_size ↦ do
          rg_imbalance ← replication_group_imbalance c.store (all_groups c) (all_partitions c)
          s ← rebalance c (record args { max_movement_size = max_movement_size }) c.store
          new_rg_imbalance ← replication_group_imbalance s (all_groups c) (all_partitions c)
          propose_improved session (assignment c) (record c { store = s }) max_partition_movements
              max_leader_changes has_threshold
      ]
