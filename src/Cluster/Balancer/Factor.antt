-- ===== src/Cluster/Balancer/Factor.antt =====
-- `add_replica` and `remove_replica` (cluster_info/partition_count_balancer.py).
use kafka_utils.Base.{
  ℕ, zero, suc, ◌+◌, List, [], ◌∷◌, true, false, ◌&&◌, ◌==◌, ltb, leb, if◌then◌else◌, Option, none,
  some, lookup, pair_eq, string_eq, nat_eq, Result, ok, raise, ◌>>=◌, invalid_partition,
  invalid_replication_factor, invalid_broker_id, value_error, length, keep, any_of, contains, erase,
  sum_of, max_by, min_by,
}
use kafka_utils.Cluster.Objects.{Store, replicas}
use kafka_utils.Cluster.Partition.{replication_factor, swap_leader}
use kafka_utils.Cluster.Balance.{compute_optimum}
use kafka_utils.Cluster.Broker.{count_preferred_replica}
use kafka_utils.Cluster.Group.{brokers, count_replica}
use kafka_utils.Cluster.Group
use kafka_utils.Cluster.Topology.{Topology, Name}
use kafka_utils.Cluster.Balancer.Leaders.{all_groups, min_key}
use kafka_utils.Cluster.Balancer.Groups.{group_load}

-- `xs or ys`
abbrev pub or_else : List ℕ → List ℕ → List ℕ
or_else [] ys = ys
or_else (x ∷ xs) ys = x ∷ xs

-- The group that `min` or `max` chose; ValueError for no groups.
abbrev pub chosen : Option ℕ → Result ℕ
chosen none = raise value_error
chosen (some g) = ok g

module _ (p : ℕ) where
  unfoldable pub add_group_for : Store → List ℕ → Result ℕ
  add_group_for s non_full_rgs = do
    (opt_replicas, rest) ←
        compute_optimum (length non_full_rgs) (sum_of (λ g. count_replica s g p) non_full_rgs)
    let under_replicated_rgs = keep (λ g. ltb (count_replica s g p) opt_replicas) non_full_rgs
    chosen (min_by (group_load s) (or_else under_replicated_rgs non_full_rgs))

  unfoldable pub add_times : ℕ → Store → List ℕ → Result Store
  unfolding add_group_for
  add_times zero s non_full_rgs = ok s
  add_times (suc n) s non_full_rgs = do
    g ← add_group_for s non_full_rgs
    s' ← Group.add_replica s g p
    add_times n s' (
        if leb (length (brokers s' g)) (count_replica s' g p)
        then erase g non_full_rgs
        else non_full_rgs)

unfoldable pub add_replica : Topology → Store → Name → ℕ → Result Store
unfolding add_times
add_replica c s name count = elim (lookup name c.partitions) [
  | none ↦ raise invalid_partition
  | some p ↦ elim (ltb (length c.brokers) (replication_factor s p + count)) [
    | true ↦ raise invalid_replication_factor
    | false ↦
        add_times p count s
          (keep (λ g. ltb (count_replica s g p) (length (brokers s g))) (all_groups c))
  ]
]

unfoldable pub out_of_sync : Topology → List ℕ → Result (List ℕ)
out_of_sync c [] = ok []
out_of_sync c (i ∷ is) = elim (lookup i c.brokers) [
  | none ↦ raise invalid_broker_id
  | some b ↦ do rest ← out_of_sync c is; ok (b ∷ rest)
]

module _ (p : ℕ) where
  unfoldable pub remove_group_for : Store → List ℕ → Result ℕ
  remove_group_for s candidate_rgs = do
    (opt_replica_cnt, rest) ←
        compute_optimum (length candidate_rgs) (sum_of (λ g. count_replica s g p) candidate_rgs)
    let over_replicated_rgs = keep (λ g. ltb opt_replica_cnt (count_replica s g p)) candidate_rgs
    chosen (max_by (group_load s) (or_else over_replicated_rgs candidate_rgs))

  unfoldable pub remove_times : ℕ → Store → List ℕ → List ℕ → List ℕ → Result Store
  unfolding remove_group_for
  remove_times zero s osr rgs_with_osr non_empty_rgs = ok s
  remove_times (suc n) s osr rgs_with_osr non_empty_rgs = do
    g ← remove_group_for s (or_else rgs_with_osr non_empty_rgs)
    let osr_in_rg = keep (λ b. contains b osr) (brokers s g)
    s' ← Group.remove_replica s g p osr_in_rg
    remove_times n s' (keep (λ b. contains b (replicas s' p)) osr)
        (if contains g rgs_with_osr && (length osr_in_rg == 1)
          then erase g rgs_with_osr
          else rgs_with_osr)
        (if count_replica s' g p == 0 then erase g non_empty_rgs else non_empty_rgs)

unfoldable pub remove_replica : Topology → Store → Name → List ℕ → ℕ → Result Store
unfolding out_of_sync remove_times
remove_replica c s name osr_broker_ids count = elim (lookup name c.partitions) [
  | none ↦ raise invalid_partition
  | some p ↦ elim (leb (replication_factor s p) count) [
    | true ↦ raise invalid_replication_factor
    | false ↦ do
      osr ← out_of_sync c osr_broker_ids
      let non_empty_rgs = keep (λ g. ltb 0 (count_replica s g p)) (all_groups c)
      let rgs_with_osr = keep (λ g. any_of (λ b. contains b osr) (brokers s g)) non_empty_rgs
      s' ← remove_times p count s osr rgs_with_osr non_empty_rgs
      new_leader ← min_key (count_preferred_replica s') (replicas s' p)
      (t, old) ← swap_leader s' p new_leader
      ok t
  ]
]
