-- ===== src/Cluster/Balancer/Groups.antt =====
-- The balance of replicas and of partitions over the replication groups
-- (cluster_info/cluster_balancer.py and cluster_info/partition_count_balancer.py).
use kafka_utils.Base.{
  ℕ, zero, suc, ◌+◌, ◌-◌, ◌*◌, ◌/◌, List, [], ◌∷◌, Bool, true, false, not, ◌&&◌, ◌||◌, ◌==◌, ltb,
  leb, if◌then◌else◌, Option, none, some, Result, ok, raise, ◌>>=◌, ◌>>◌, require, rebalance_error,
  value_error, system_exit, out_of_fuel, length, is_nil, keep, any_of, sum_of, max_by, min_by,
  contains,
}
use kafka_utils.Cluster.Objects.{Store}
use kafka_utils.Cluster.Partition.{replication_factor}
use kafka_utils.Cluster.Balance.{separate_groups, compute_optimum}
use kafka_utils.Cluster.Group.{
  brokers, count_replica, group_partitions, move_to_group, move_partition_replica,
}
use kafka_utils.Cluster.Group.Rebalance.{rebalance_brokers}
use kafka_utils.Cluster.Topology.{Topology}
use kafka_utils.Cluster.Balancer.Leaders.{
  all_brokers, all_groups, all_partitions, rebalance_leaders,
}

-- `_elect_dest_replication_group`, of a list that is not empty; `- 1` is moved to the other side.
unfoldable pub elect_dest_group : Store → ℕ → ℕ → List ℕ → Option ℕ
elect_dest_group s p replica_count_source under = elim (min_by (λ g. count_replica s g p) under) [
  | none ↦ none
  | some g ↦ if ltb (count_replica s g p + 1) replica_count_source then some g else none
]

-- `_elect_source_replication_group`
unfoldable pub elect_source_group : Store → ℕ → List ℕ → Option ℕ
elect_source_group s p over = max_by (λ g. count_replica s g p) over

-- What the moves have left: the number of moves and the bytes, `none` where there is no limit.
abbrev pub allows : Option ℕ → Option ℕ → ℕ → ℕ → ℕ → Bool
allows max_count max_size size count moved =
    elim max_size [ none ↦ true | some m ↦ leb (moved + size) m ]
    && elim max_count [ none ↦ true | some m ↦ ltb count m ]

module _ (c : Topology) (p : ℕ) (max_movement_count max_movement_size : Option ℕ) where
  -- The loop of `_rebalance_partition_replicas`, on the rounds left: the store, the number of
  -- moves and their size.
  unfoldable pub move_replicas : ℕ → Store → ℕ → ℕ → Result (Store × ℕ × ℕ)
  unfolding elect_dest_group elect_source_group
  move_replicas zero s count moved = raise out_of_fuel
  move_replicas (suc fuel) s count moved = do
    (over, under) ←
        separate_groups (λ g. count_replica s g p) (all_groups c) (replication_factor s p)
    elim (not (is_nil under)
        && not (is_nil over)
        && allows max_movement_count max_movement_size (s.partition p).size count moved) [
          | false ↦ ok (s, count, moved)
          | true ↦ elim (elect_source_group s p over) [
            | none ↦ raise value_error
            | some source ↦ elim (elect_dest_group s p (count_replica s source p) under) [
              | none ↦ ok (s, count, moved)
              | some dest ↦ do
                s' ← move_to_group s source dest p
                move_replicas fuel s' (count + 1) (moved + (s.partition p).size)
            ]
          ]
        ]

  -- Each move brings the counts of two groups closer, so the squares of the counts, at most the
  -- square of the number of replicas together, become less.
  unfoldable pub rebalance_partition_replicas : Store → Result (Store × ℕ × ℕ)
  unfolding move_replicas
  rebalance_partition_replicas s =
      move_replicas (replication_factor s p * replication_factor s p + 1) s 0 0

-- `None if not limit else limit - used`, where never more than the limit is used.
abbrev pub remaining : Option ℕ → ℕ → Option ℕ
remaining none used = none
remaining (some zero) used = none
remaining (some (suc n)) used = some (suc n - used)

module _ (c : Topology) (max_movement_count max_movement_size : Option ℕ) where
  unfoldable pub rebalance_each : List ℕ → Store → ℕ → ℕ → Result (Store × ℕ × ℕ)
  unfolding rebalance_partition_replicas
  rebalance_each [] s count moved = ok (s, count, moved)
  rebalance_each (p ∷ ps) s count moved = do
    (s', n, m) ←
        rebalance_partition_replicas c p (remaining max_movement_count count)
          (remaining max_movement_size moved) s
    rebalance_each ps s' (count + n) (moved + m)

  unfoldable pub rebalance_replicas : Store → Result (Store × ℕ × ℕ)
  unfolding rebalance_each
  rebalance_replicas s = rebalance_each (all_partitions c) s 0 0

-- `len(rg.partitions)`
abbrev pub group_load : Store → ℕ → ℕ
group_load s g = length (group_partitions s (brokers s g))

-- `set(xs)`
unfoldable pub distinct : List ℕ → List ℕ
distinct [] = []
distinct (x ∷ xs) = let rest = distinct xs in if contains x rest then rest else x ∷ rest

unfoldable pub eligible_partitions : Topology → Store → ℕ → ℕ → List ℕ
unfolding distinct
eligible_partitions c s over under =
    let opt : ℕ → ℕ = λ p. replication_factor s p / length c.rgs in
    distinct (
      keep (λ p. ltb (opt p) (count_replica s over p) && leb (count_replica s under p) (opt p))
        (group_partitions s (brokers s over)))

module _ (c : Topology) (opt_partition_cnt : ℕ) where
  -- The loop over the eligible partitions.
  unfoldable pub move_eligible : ℕ → ℕ → List ℕ → Store → Result Store
  move_eligible over under [] s = ok s
  move_eligible over under (p ∷ ps) s = elim (ltb (group_load s under + 1) (group_load s over)) [
    | false ↦ ok s
    | true ↦ do
      s' ← move_partition_replica s over under p
      elim (group_load s' under == opt_partition_cnt || group_load s' over == opt_partition_cnt) [
        | true ↦ ok s'
        | false ↦ move_eligible over under ps s'
      ]
  ]

  unfoldable pub fill_groups : ℕ → List ℕ → Store → Result Store
  unfolding move_eligible eligible_partitions
  fill_groups over [] s = ok s
  fill_groups over (under ∷ more) s = do
    s' ← move_eligible over under (eligible_partitions c s over under) s
    elim (group_load s' over == opt_partition_cnt) [
      | true ↦ ok s'
      | false ↦ fill_groups over more s'
    ]

  unfoldable pub drain_groups : List ℕ → List ℕ → Store → Result Store
  unfolding fill_groups
  drain_groups [] under s = ok s
  drain_groups (over ∷ more) under s = do s' ← fill_groups over under s; drain_groups more under s'

unfoldable pub rebalance_groups_partition_cnt : Topology → Store → Result Store
unfolding drain_groups
rebalance_groups_partition_cnt c s = do
  let total_elements = sum_of (group_load s) (all_groups c)
  (over, under) ← separate_groups (group_load s) (all_groups c) total_elements
  elim (not (is_nil over) && not (is_nil under)) [
    | false ↦ ok s
    | true ↦ do
      (opt_partition_cnt, rest) ← compute_optimum (length c.rgs) total_elements
      drain_groups c opt_partition_cnt over under s
  ]

unfoldable pub rebalance_replication_groups : Topology → Store → Result Store
unfolding rebalance_replicas rebalance_groups_partition_cnt
rebalance_replication_groups c s = do
  require (not (any_of (λ b. (s.broker b).inactive) (all_brokers c))) rebalance_error
  (s', n, m) ← rebalance_replicas c none none s
  rebalance_groups_partition_cnt c s'

-- `rebalance_brokers`, over the groups of the cluster.
unfoldable pub rebalance_brokers_each : List ℕ → Store → Result Store
rebalance_brokers_each [] s = ok s
rebalance_brokers_each (g ∷ gs) s = do s' ← rebalance_brokers s g; rebalance_brokers_each gs s'

pub record Arguments : Type 0 where
  pub replication_groups : Bool
  pub brokers : Bool
  pub leaders : Bool
  pub max_movement_size : Option ℕ

unfoldable pub rebalance : Topology → Arguments → Store → Result Store
unfolding rebalance_replication_groups rebalance_brokers_each rebalance_leaders
rebalance c args s = do
  require (elim args.max_movement_size [ none ↦ true | some zero ↦ true | some (suc n) ↦ false ])
      system_exit
  s1 ← elim args.replication_groups [ true ↦ rebalance_replication_groups c s | false ↦ ok s ]
  s2 ← elim args.brokers [ true ↦ rebalance_brokers_each (all_groups c) s1 | false ↦ ok s1 ]
  elim args.leaders [ true ↦ rebalance_leaders c s2 | false ↦ ok s2 ]
