-- ===== src/Cluster/Sample.antt =====
-- A small cluster, on which the theorems are tried.
use kafka_utils.Base.{
  ℕ, zero, suc, ◌+◌, ◌≤◌, ◌<◌, List, [], ◌∷◌, true, false, Option, none, some, ◌≡◌, refl, arith,
  Result, ok, raise, count, contains, string_eq, nat_eq, pair_eq,
}
use kafka_utils.Cluster.Objects.{Topic, Partition, Broker, Group, Store, replicas}
use kafka_utils.Cluster.Broker.{IsLinked}
use kafka_utils.Cluster.Group.{brokers}
use kafka_utils.Cluster.Topology.{Topology}

-- Brokers 10, 11, 12 and 13 of one group; the first two partitions of a topic are on 10 and 11
-- and on 10 and 12, the third on 10 alone. Broker 13 has none.
abbrev pub topic_at : ℕ → Topic
topic_at t = record { id = "events"; replication_factor = 2; partitions = 0 ∷ 1 ∷ 2 ∷ [] }

abbrev pub replicas_at : ℕ → List ℕ
replicas_at zero = 0 ∷ 1 ∷ []
replicas_at (suc zero) = 0 ∷ 2 ∷ []
replicas_at (suc (suc zero)) = 0 ∷ []
replicas_at p = []

abbrev pub partition_at : ℕ → Partition
partition_at p = record {
  topic = 0;
  partition_id = p;
  replicas = replicas_at p;
  weight = 1;
  size = 1;
}

abbrev pub partitions_at : ℕ → List ℕ
partitions_at zero = 0 ∷ 1 ∷ 2 ∷ []
partitions_at (suc zero) = 0 ∷ []
partitions_at (suc (suc zero)) = 1 ∷ []
partitions_at b = []

abbrev pub broker_at : ℕ → Broker
broker_at b = record {
  id = b + 10;
  metadata = ("host", "h") ∷ [];
  partitions = partitions_at b;
  decommissioned = false;
  revoked_leadership = false;
  inactive = false;
  replication_group = some 0;
}

abbrev pub group_at : ℕ → Group
group_at g = record { id = some "rack"; brokers = 0 ∷ 1 ∷ 2 ∷ 3 ∷ [] }

abbrev pub small : Store
small = record { topic = topic_at; partition = partition_at; broker = broker_at; group = group_at }

pub small-linked : (b p : ℕ) → count p (partitions_at b) ≡ count b (replicas_at p)
unfolding count
small-linked zero zero = refl
small-linked zero (suc zero) = refl
small-linked zero (suc (suc zero)) = refl
small-linked zero (suc (suc (suc p))) = ground arith
small-linked (suc zero) zero = refl
small-linked (suc zero) (suc zero) = refl
small-linked (suc zero) (suc (suc p)) = ground arith
small-linked (suc (suc zero)) zero = refl
small-linked (suc (suc zero)) (suc zero) = refl
small-linked (suc (suc zero)) (suc (suc p)) = ground arith
small-linked (suc (suc (suc b))) p = ground arith

-- The replicas of a partition after an operation.
abbrev pub replicas_after : Result Store → ℕ → Option (List ℕ)
replicas_after (ok s) p = some (replicas s p)
replicas_after (raise e) p = none

pub small-distinct : (b p : ℕ) → count b (replicas_at p) ≤ 1
unfolding count
small-distinct b zero = ground arith
small-distinct b (suc zero) = ground arith
small-distinct b (suc (suc zero)) = ground arith
small-distinct b (suc (suc (suc p))) = ground arith

pub small-IsLinked : IsLinked small
small-IsLinked = record { linked = small-linked; distinct = small-distinct }

pub group-distinct : (c : ℕ) → count c (brokers small 0) ≤ 1
unfolding count
group-distinct c = ground arith

abbrev pub cluster : Topology
cluster = record {
  store = small;
  topics = ("events", 0) ∷ [];
  rgs = (some "rack", 0) ∷ [];
  brokers = (10, 0) ∷ (11, 1) ∷ (12, 2) ∷ (13, 3) ∷ [];
  partitions = (("events", 0), 0) ∷ (("events", 1), 1) ∷ (("events", 2), 2) ∷ [];
}

pub small-known : (p c : ℕ) → 0 < count c (replicas small p) → contains c (0 ∷ 1 ∷ 2 ∷ []) ≡ true
unfolding count contains
small-known zero c h = ground arith
small-known (suc zero) c h = ground arith
small-known (suc (suc zero)) c h = ground arith
small-known (suc (suc (suc p))) c h = ground arith
