-- ===== src/Commands/Send.antt =====
-- The commands that change a cluster, from its topology to what they send to ZooKeeper
-- (kafka_cluster_manager/cmds/command.py, replace.py, revoke_leadership.py, decommission.py).
use kafka_utils.Base.{
  ℕ, zero, suc, List, [], ◌∷◌, ◌++◌, map, Bool, true, false, not, ◌&&◌, ◌||◌, ◌==◌, ltb,
  if◌then◌else◌, Option, none, some, lookup, nat_eq, Dict, ℤ, pos, Result, ok, raise, ◌>>=◌,
  key_error, value_error, is_nil,
}
use kafka_utils.Cluster.Objects.{partitions}
use kafka_utils.Cluster.Topology.{Topology, Assignment, assignment, replace_broker}
use kafka_utils.Cluster.Balancer.Leaders.{revoke_leadership}
use kafka_utils.Cluster.Balancer.Decommission.{decommission_brokers}
use kafka_utils.Plan.Json.{Json}
use kafka_utils.Plan.Entry.{PData}
use kafka_utils.Plan.Validate.{PName, validate_plan}
use kafka_utils.Plan.Convert.{assignment_to_plan}
use kafka_utils.Plan.Written.{write_plan}
use kafka_utils.Commands.Reduce.{get_reduced_assignment}

-- The options that all commands share, the answer to the request for a confirmation, and what
-- `zk.execute_plan` returns for a plan.
pub record Session : Type 0 where
  pub apply : Bool
  pub no_confirm : Bool
  pub confirmed : Bool
  pub execute_plan : Json → (allow_rf_change : Bool) → Bool

-- How a command ends: an exit, nothing to do, or a plan that is shown or sent.
pub data Finish : Type 0 where
  exited idle : Finish
  shown : (plan : Json) → Finish
  sent : (plan : Json) → Finish

-- The names and ids as the plan has them.
abbrev pub entries : Assignment → Dict PName (List ℤ)
entries [] = []
entries ((k, v) ∷ more) = ((k.0, pos k.1), map pos v) ∷ entries more

unfoldable pub plan_of : Assignment → List PData
unfolding assignment_to_plan
plan_of a = assignment_to_plan (entries a)

unfoldable pub should_execute : Session → Bool
should_execute session = session.apply && (session.no_confirm || session.confirmed)

unfoldable pub execute_plan : Session → Json → Bool → Finish
unfolding should_execute
execute_plan session plan allow_rf_change =
    if should_execute session
    then (if session.execute_plan plan allow_rf_change then sent plan else exited)
    else shown plan

unfoldable pub process_assignment : Session → Assignment → Bool → Finish
unfolding execute_plan
process_assignment session a allow_rf_change =
    execute_plan session (write_plan (plan_of a)) allow_rf_change

-- What the commands do once the topology has changed.
unfoldable pub propose : Session → Assignment → Topology → ℤ → ℤ → Option ℤ → Bool → Result Finish
unfolding process_assignment
propose session base c max_partition_movements max_leader_changes max_movement_size force_progress =
    do
      good ←
          validate_plan (write_plan (plan_of (assignment c))) (write_plan (plan_of base)) true false
      elim good [
        | false ↦ ok exited
        | true ↦ do
          reduced ←
              get_reduced_assignment base c max_partition_movements max_leader_changes
                max_movement_size force_progress
          ok (if is_nil reduced then idle else process_assignment session reduced false)
      ]

-- `ReplaceBrokerCmd.run_command`
unfoldable pub replace_command : Session → Topology → ℕ → ℕ → ℤ → ℤ → Result Finish
unfolding propose
replace_command session c source_broker dest_broker max_partition_movements max_leader_changes =
    elim (source_broker == dest_broker) [
      | true ↦ ok exited
      | false ↦ do
        c' ← replace_broker c source_broker dest_broker
        propose session (assignment c) c' max_partition_movements max_leader_changes none false
    ]

-- `RevokeLeadershipCmd.run_command`
unfoldable pub revoke_command : Session → Topology → List ℕ → ℤ → Result Finish
unfolding propose
revoke_command session c broker_ids max_leader_changes = do
  s ← revoke_leadership c c.store broker_ids
  propose session (assignment c) (record c { store = s }) (pos 0) max_leader_changes none false

-- The partitions of the brokers, with those of each one after the other.
unfoldable pub partitions_to_move : Topology → List ℕ → Result (List ℕ)
partitions_to_move c [] = ok []
partitions_to_move c (i ∷ is) = elim (lookup i c.brokers) [
  | none ↦ raise key_error
  | some b ↦ do rest ← partitions_to_move c is; ok (partitions c.store b ++ rest)
]

-- `max` of the sizes, a ValueError if there is none.
unfoldable pub largest : List ℕ → Result ℕ
largest [] = raise value_error
largest (x ∷ []) = ok x
largest (x ∷ y ∷ more) = do m ← largest (y ∷ more); ok (if ltb x m then m else x)

-- `max_movement_size and max_movement_size < largest_size`
abbrev pub too_small : Option ℕ → ℕ → Bool
too_small none n = false
too_small (some zero) n = false
too_small (some (suc m)) n = ltb (suc m) n

abbrev pub as_limit : Option ℕ → Option ℤ
as_limit none = none
as_limit (some n) = some (pos n)

-- `DecommissionCmd.run_command`; an infinite size is `none`.
unfoldable pub decommission_command :
    Session → Topology → List ℕ → ℤ → ℤ → Option ℕ → Bool → Bool → Result Finish
unfolding propose partitions_to_move largest
decommission_command session c broker_ids max_partition_movements max_leader_changes
      max_movement_size auto_max_movement_size force_progress =
    elim (force_progress && elim max_movement_size [ none ↦ true | some n ↦ false ]) [
      | true ↦ ok exited
      | false ↦ do
        moving ← partitions_to_move c broker_ids
        largest_size ← largest (map (λ p. (c.store.partition p).size) moving)
        let limit = if auto_max_movement_size then some largest_size else max_movement_size
        elim (too_small limit largest_size && not force_progress) [
          | true ↦ ok exited
          | false ↦ do
            s ← decommission_brokers c c.store broker_ids
            propose session (assignment c) (record c { store = s }) max_partition_movements
                max_leader_changes (as_limit limit) force_progress
        ]
    ]
