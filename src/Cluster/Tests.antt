-- ===== src/Cluster/Tests.antt =====
-- Small clusters, what the program does on them, and the theorems at them.
use kafka_utils.Base.{
  ℕ, ◌+◌, ◌≤◌, List, [], ◌∷◌, true, false, some, ◌≡◌, ◌⊎◌, inl, inr, refl, arith, ok, raise, ◌>>=◌,
  not_eligible_group, Returns, count, contains, erase, lookup, string_eq, nat_eq, pair_eq, Eq,
  Bool-cases,
}
use kafka_utils.Cluster.Objects.{Store, replicas, partitions}
use kafka_utils.Cluster.Partition.{swap_leader, swap_first, index, exchange}
use kafka_utils.Cluster.Broker.{
  IsMoved, IsReordered, IsSwapped, count_preferred_replica, sum_leading, removed, moved,
  remove_partition, add_partition, move_partition, remove_partition_lem, count_partitions,
  move_partition_lem, move_partition-IsMoved, swap_leader-IsSwapped,
}
use kafka_utils.Cluster.Broker.Leadership.{Search, request_leadership}
use kafka_utils.Cluster.Broker.Leadership.Total.{request_leadership_total}
use kafka_utils.Cluster.Broker.Donate.{Donation, donate_leadership}
use kafka_utils.Cluster.Broker.Donate.Ends.{Holds, donate_leadership_total}
use kafka_utils.Cluster.Balance.{separate_groups}
use kafka_utils.Cluster.Balance.Split.{IsSplit, separate_groups-IsSplit}
use kafka_utils.Cluster.Group.{brokers, acquire_partition}
use kafka_utils.Cluster.Group.Acquire.{IsEligible, acquire_partition_cases}
use kafka_utils.Cluster.Group.Rebalance.{rebalance_brokers}
use kafka_utils.Cluster.Group.Rebalance.Rebalanced.{IsRebalanced}
use kafka_utils.Cluster.Group.Rebalance.Total.{rebalance_brokers_total}
use kafka_utils.Cluster.Topology.{Name, Assignment, update_cluster_topology, replace_broker}
use kafka_utils.Cluster.Topology.Update.{
  IsWellFormed, IsKnown, IsUpdated, update_cluster_topology-IsUpdated,
}
use kafka_utils.Cluster.Topology.Replace.{
  IsReplaced, replace_broker-IsReplaced, replace_broker_twice,
}
use kafka_utils.Cluster.Sample.{
  small, replicas_after, small-IsLinked, group-distinct, cluster, small-known,
}

remove_partition_lem_example : remove_partition small 1 0 ≡ ok (removed small 1 0)
unfolding contains
remove_partition_lem_example = remove_partition_lem small 1 0 small-IsLinked

move_partition_lem_example : move_partition small 0 2 3 ≡ ok (moved small 0 2 3)
unfolding contains
move_partition_lem_example = move_partition_lem small 0 2 3 small-IsLinked

move_partition-IsMoved_example : Returns (IsMoved small 0 2 3) (move_partition small 0 2 3)
unfolding contains
move_partition-IsMoved_example = move_partition-IsMoved small 0 2 3 small-IsLinked refl refl

swap_leader-IsSwapped_example : Returns (IsSwapped small 1 2) (swap_leader small 1 2)
unfolding contains
swap_leader-IsSwapped_example = swap_leader-IsSwapped small 1 2 refl

separate_groups-IsSplit_example :
    Returns (IsSplit (λ g. g) (5 ∷ 1 ∷ 2 ∷ []) 8) (separate_groups (λ g. g) (5 ∷ 1 ∷ 2 ∷ []) 8)
separate_groups-IsSplit_example = separate_groups-IsSplit (λ g. g) (5 ∷ 1 ∷ 2 ∷ []) 8 (omega arith)

acquire_partition_cases_example :
    ((acquire_partition small 0 2 0 ≡ raise not_eligible_group)
      × ((c : ℕ) → ¬ IsEligible small 0 2 c))
    ⊎ ((dest : ℕ) × (t : Store) × (acquire_partition small 0 2 0 ≡ ok t)
        × IsEligible small 0 2 dest
        × ((c : ℕ)
            → IsEligible small 0 2 c
            → count_partitions small dest 0 ≤ count_partitions small c 0)
        × IsMoved small 0 2 dest t)
unfolding contains
acquire_partition_cases_example = acquire_partition_cases small 0 2 0 small-IsLinked refl

rebalance_brokers_total_example :
    Returns (IsRebalanced (brokers small 0) small) (rebalance_brokers small 0)
unfolding contains
rebalance_brokers_total_example =
    rebalance_brokers_total small 0 3 small-IsLinked group-distinct refl refl refl

cluster-broker_keys : (i b : ℕ) → lookup i cluster.brokers ≡ some b → b + 10 ≡ i
unfolding lookup
cluster-broker_keys i b h = ground arith

abbrev key_eq : Eq Name
key_eq = pair_eq

found-key :
    (k n : Name) (v p : ℕ) (d : List (Name × ℕ))
    → lookup n ((k, v) ∷ d) ≡ some p
    → ((k ≡ n) × (v ≡ p)) ⊎ (lookup n d ≡ some p)
unfolding lookup
found-key k n v p d h = elim (Bool-cases (key_eq.beq k n)) [
  | inl e ↦ inl ((key_eq.beq_iff k n).0 e, ground arith)
  | inr e ↦ inr (rw e at h)
]

cluster-partition_keys :
    (n : Name) (p : ℕ) → lookup n cluster.partitions ≡ some p → ("events", p) ≡ n
unfolding lookup
cluster-partition_keys n p h =
    elim (found-key ("events", 0) n 0 p ((("events", 1), 1) ∷ (("events", 2), 2) ∷ []) h) [
      | inl (e, v) ↦ cc (e, v)
      | inr h₁ ↦ elim (found-key ("events", 1) n 1 p ((("events", 2), 2) ∷ []) h₁) [
        | inl (e, v) ↦ cc (e, v)
        | inr h₂ ↦ elim (found-key ("events", 2) n 2 p [] h₂) [
          | inl (e, v) ↦ cc (e, v)
          | inr h₃ ↦ ground (arith, h₃)
        ]
      ]
    ]

cluster-IsWellFormed : IsWellFormed cluster
cluster-IsWellFormed = record {
  views = small-IsLinked;
  broker_keys = cluster-broker_keys;
  partition_keys = cluster-partition_keys;
}

abbrev wanted : Assignment
wanted = (("events", 1), 13 ∷ 10 ∷ []) ∷ []

wanted-IsKnown : IsKnown cluster (("events", 1), 13 ∷ 10 ∷ [])
unfolding lookup count
wanted-IsKnown = record {
  partition = 1;
  found = refl;
  brokers = ((3, refl), ((0, refl), tt));
  once = λ i. ground arith;
}

update_cluster_topology-IsUpdated_example :
    Returns (IsUpdated cluster wanted) (update_cluster_topology cluster wanted)
update_cluster_topology-IsUpdated_example =
    update_cluster_topology-IsUpdated cluster wanted cluster-IsWellFormed (tt, tt)
      (wanted-IsKnown, tt)

apart : (q : ℕ) → contains q (partitions small 0) ≡ true → contains q (partitions small 3) ≡ false
unfolding contains
apart q h = refl

replace_broker-IsReplaced_example :
    Returns (λ t. IsReplaced small 0 3 t.store) (replace_broker cluster 10 13)
unfolding lookup
replace_broker-IsReplaced_example =
    replace_broker-IsReplaced cluster 10 13 0 3 small-IsLinked refl refl (omega arith) apart

replace_broker_twice_example :
    Returns (λ t. count 1 (replicas t.store 0) ≡ 2) (replace_broker cluster 10 11)
unfolding lookup contains
replace_broker_twice_example =
    replace_broker_twice cluster 10 11 0 1 0 small-IsLinked refl refl (omega arith) refl refl

abbrev begin : Search
begin = record { store = small; skip_brokers = []; skip_partitions = [] }

request_leadership_total_example :
    Returns (λ st. IsReordered small st.store) (request_leadership 1 4 1 begin)
unfolding contains
request_leadership_total_example =
    request_leadership_total 1 (0 ∷ 1 ∷ 2 ∷ []) 1 begin small-IsLinked small-known

-- Broker 11 becomes the leader of the first partition.
request_run :
    replicas_after (do st ← request_leadership 1 4 1 begin; ok st.store) 0 ≡ some (1 ∷ 0 ∷ [])
unfolding request_leadership contains swap_leader count_preferred_replica sum_leading swap_first
    index exchange
request_run = refl

move_run : replicas_after (move_partition small 0 0 3) 0 ≡ some (1 ∷ 3 ∷ [])
unfolding move_partition remove_partition add_partition contains erase
move_run = refl

update_run :
    replicas_after (do c ← update_cluster_topology cluster wanted; ok c.store) 1 ≡ some (3 ∷ 0 ∷ [])
unfolding update_cluster_topology lookup remove_partition contains erase add_partition
update_run = refl

abbrev offer : Donation
offer = record { store = small; skip_brokers = []; used_edges = [] }

donate_leadership_total_example : Returns (Holds small offer) (donate_leadership 0 4 0 offer)
unfolding contains
donate_leadership_total_example =
    donate_leadership_total 0 (0 ∷ 1 ∷ 2 ∷ []) 0 offer small-IsLinked small-known

-- Broker 10 leads all three partitions and hands the first one to broker 11.
donate_run :
    replicas_after (do st ← donate_leadership 0 4 0 offer; ok st.store) 0 ≡ some (1 ∷ 0 ∷ [])
unfolding donate_leadership contains swap_leader count_preferred_replica sum_leading swap_first
    index exchange
donate_run = refl
