-- ===== src/Cluster/Broker/Links.antt =====
-- The two views of the assignment, kept in step: the partitions of each broker, and the replicas
-- of each partition.
use kafka_utils.Base.{
  ℕ, ◌≤◌, [], ◌∷◌, ◌++◌, false, if◌then◌else◌, ok, raise, value_error, assertion_error, ◌≡◌, arith,
  count, contains, erase, contains-count, count-erase, count-snoc,
}
use kafka_utils.Cluster.Objects.{Store, set_broker, replicas, partitions}
use kafka_utils.Cluster.Partition.{set_replicas}
use kafka_utils.Cluster.Broker.Calls.{remove_partition, add_partition}

-- A broker lists a partition exactly as often as the partition lists the broker, at most once.
pub record IsLinked (s : Store) : Type 0 where
  pub linked : (b p : ℕ) → count p (partitions s b) ≡ count b (replicas s p)
  pub distinct : (b p : ℕ) → count b (replicas s p) ≤ 1

abbrev pub removed : Store → ℕ → ℕ → Store
removed s b p =
    set_replicas (set_broker s b (record (s.broker b) { partitions = erase p (partitions s b) })) p
      (erase b (replicas s p))

abbrev pub added : Store → ℕ → ℕ → Store
added s b p =
    set_replicas (set_broker s b (record (s.broker b) { partitions = p ∷ partitions s b })) p
      (replicas s p ++ b ∷ [])

module _ (s : Store) (b p : ℕ) (v : IsLinked s) where
  removed-linked :
      (c q : ℕ) → count q (partitions (removed s b p) c) ≡ count c (replicas (removed s b p) q)
  removed-linked c q = ground (
    arith,
    count-erase q p (partitions s b),
    count-erase c b (replicas s p),
    v.linked c q,
    v.linked b p,
    v.linked c p,
    v.linked b q,
  )

  removed-distinct : (c q : ℕ) → count c (replicas (removed s b p) q) ≤ 1
  removed-distinct c q = ground (arith, count-erase c b (replicas s p), v.distinct c q)

  pub removed-IsLinked : IsLinked (removed s b p)
  removed-IsLinked = record { linked = removed-linked; distinct = removed-distinct }

module _ (s : Store) (b p : ℕ) (v : IsLinked s) (new : contains p (partitions s b) ≡ false) where
  added-linked :
      (c q : ℕ) → count q (partitions (added s b p) c) ≡ count c (replicas (added s b p) q)
  unfolding count
  added-linked c q =
      ground (
        arith,
        count-snoc c b (replicas s p),
        v.linked c q,
        v.linked b p,
        v.linked c p,
        v.linked b q,
      )

  added-distinct : (c q : ℕ) → count c (replicas (added s b p) q) ≤ 1
  added-distinct c q = ground (
    arith,
    count-snoc c b (replicas s p),
    v.distinct c q,
    v.linked b p,
    contains-count p (partitions s b),
  )

  pub added-IsLinked : IsLinked (added s b p)
  added-IsLinked = record { linked = added-linked; distinct = added-distinct }

-- On linked views a partition is removed from a broker exactly if the broker lists it, on both
-- sides, and ValueError is raised otherwise.
pub remove_partition_lem :
    (s : Store) (b p : ℕ)
    → IsLinked s
    → remove_partition s b p
      ≡ (if contains p (partitions s b) then ok (removed s b p) else raise value_error)
unfolding remove_partition
remove_partition_lem s b p v =
    ground (arith, contains-count p (partitions s b), contains-count b (replicas s p), v.linked b p)

-- A partition is added exactly if the broker does not list it.
pub add_partition_lem :
    (s : Store) (b p : ℕ)
    → add_partition s b p
      ≡ (if contains p (partitions s b) then raise assertion_error else ok (added s b p))
unfolding add_partition
add_partition_lem s b p = ground arith

pub remove_partition-IsLinked :
    (s : Store) (b p : ℕ) {t : Store} → IsLinked s → remove_partition s b p ≡ ok t → IsLinked t
remove_partition-IsLinked s b p v e =
    ground (arith, remove_partition_lem s b p v, removed-IsLinked s b p v)
