-- ===== src/Commands/Factor.antt =====
-- The command that sets the replication factor of a topic
-- (kafka_cluster_manager/cmds/set_replication_factor.py). `isr` is what ZooKeeper answers for a
-- partition: the ids of its replicas that are in sync.
use kafka_utils.Base.{
  ℕ, ◌+◌, ◌-◌, ◌*◌, String, List, [], ◌∷◌, map, true, false, not, ◌==◌, none, some, ltb, length,
  keep, contains, lookup, string_eq, pos, Result, ok, ◌>>=◌,
}
use kafka_utils.Cluster.Objects.{Store, replicas}
use kafka_utils.Cluster.Topology.{Topology, Name, assignment}
use kafka_utils.Cluster.Balancer.Factor.{add_replica, remove_replica}
use kafka_utils.Commands.Reduce.{get_reduced_assignment}
use kafka_utils.Commands.Send.{Session, Finish, exited, idle, process_assignment}

-- `partition.name`
abbrev pub name_of : Store → ℕ → Name
name_of s p = ((s.topic (s.partition p).topic).id, (s.partition p).partition_id)

unfoldable pub add_each : Topology → ℕ → List ℕ → Store → Result Store
unfolding add_replica
add_each c count [] s = ok s
add_each c count (p ∷ ps) s = do s' ← add_replica c s (name_of s p) count; add_each c count ps s'

-- `[b.id for b in partition.replicas if b.id not in isr]`
abbrev pub osr_broker_ids : Store → ℕ → List ℕ → List ℕ
osr_broker_ids s p isr =
    keep (λ i. not (contains i isr)) (map (λ b. (s.broker b).id) (replicas s p))

unfoldable pub remove_each : (Name → Result (List ℕ)) → Topology → ℕ → List ℕ → Store → Result Store
unfolding remove_replica
remove_each isr c count [] s = ok s
remove_each isr c count (p ∷ ps) s = do
  in_sync ← isr (name_of s p)
  s' ← remove_replica c s (name_of s p) (osr_broker_ids s p in_sync) count
  remove_each isr c count ps s'

-- `abs(m - n)`
abbrev pub distance : ℕ → ℕ → ℕ
distance m n = (m - n) + (n - m)

unfoldable pub change_factor : (Name → Result (List ℕ)) → Topology → ℕ → ℕ → Result Store
unfolding add_each remove_each
change_factor isr c t replication_factor =
    let topic = c.store.topic t in
    let count = distance replication_factor topic.replication_factor in
    elim (ltb topic.replication_factor replication_factor) [
      | true ↦ add_each c count topic.partitions c.store
      | false ↦ remove_each isr c count topic.partitions c.store
    ]

-- `SetReplicationFactorCmd.run_command`
unfoldable pub set_replication_factor_command :
    (Name → Result (List ℕ)) → Session → Topology → String → ℕ → Result Finish
unfolding change_factor get_reduced_assignment
set_replication_factor_command isr session c topic_id replication_factor =
    elim (lookup topic_id c.topics) [
      | none ↦ ok exited
      | some t ↦
          let topic = c.store.topic t in
          elim (topic.replication_factor == replication_factor) [
            | true ↦ ok idle
            | false ↦ elim (ltb (length c.brokers) replication_factor) [
              | true ↦ ok exited
              | false ↦ do
                s ← change_factor isr c t replication_factor
                let count = distance replication_factor topic.replication_factor
                reduced ←
                    get_reduced_assignment (assignment c) (record c { store = s })
                      (pos (length topic.partitions * count)) (pos 0) none false
                ok (process_assignment session reduced true)
            ]
          ]
    ]
