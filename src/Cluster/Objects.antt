-- ===== src/Cluster/Objects.antt =====
-- The objects of a cluster (cluster_info/partition.py, topic.py, broker.py, rg.py).
-- An object that the program shares by reference stands in a store under a number, and two
-- references are one object exactly when the numbers are equal: the classes define no `__eq__`.
-- A Python set is a list, in some order of iteration, that the operations keep free of repeats.
use kafka_utils.Base.{ℕ, String, List, Bool, Option, ◌==◌, if◌then◌else◌}

-- `Partition`; `topic` and `replicas` are references.
pub record Partition : Type 0 where
  pub topic : ℕ
  pub partition_id : ℕ
  pub replicas : List ℕ
  pub weight : ℕ
  pub size : ℕ

pub record Topic : Type 0 where
  pub id : String
  pub replication_factor : ℕ
  pub partitions : List ℕ

-- `metadata` is the content of the broker's node, `[]` also where Python has None.
pub record Broker : Type 0 where
  pub id : ℕ
  pub metadata : List (String × String)
  pub partitions : List ℕ
  pub decommissioned : Bool
  pub revoked_leadership : Bool
  pub inactive : Bool
  pub replication_group : Option ℕ

-- The id of a group is None where the cluster gives its brokers none.
pub record Group : Type 0 where
  pub id : Option String
  pub brokers : List ℕ

pub record Store : Type 0 where
  pub topic : ℕ → Topic
  pub partition : ℕ → Partition
  pub broker : ℕ → Broker
  pub group : ℕ → Group

abbrev pub update {ℓ} : {A : Type ℓ} → (ℕ → A) → ℕ → A → ℕ → A
update f k v j = if j == k then v else f j

abbrev pub set_topic : Store → ℕ → Topic → Store
set_topic s t v = record s { topic = update s.topic t v }

abbrev pub set_partition : Store → ℕ → Partition → Store
set_partition s p v = record s { partition = update s.partition p v }

abbrev pub set_broker : Store → ℕ → Broker → Store
set_broker s b v = record s { broker = update s.broker b v }

abbrev pub set_group : Store → ℕ → Group → Store
set_group s g v = record s { group = update s.group g v }

-- Shorthands for what the properties of the classes read.
abbrev pub replicas : Store → ℕ → List ℕ
replicas s p = (s.partition p).replicas

abbrev pub partitions : Store → ℕ → List ℕ
partitions s b = (s.broker b).partitions
