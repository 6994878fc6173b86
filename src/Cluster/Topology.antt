-- ===== src/Cluster/Topology.antt =====
-- `ClusterTopology` (cluster_info/cluster_topology.py).
pub mod Exchange
pub mod Update
pub mod Rounds
pub mod Replace
use Prim.Native.Nat.{Ordering}
use Prim.Native.String.{compare}
use kafka_utils.Base.{
  ℕ, zero, suc, ◌+◌, String, List, [], ◌∷◌, ◌++◌, Bool, true, false, not, ◌&&◌, ◌||◌, Option, none,
  some, if◌then◌else◌, ◌==◌, leb, ltb, Result, ok, raise, invalid_broker_id, invalid_partition,
  ◌>>=◌, ◌>>◌, length, keep, is_nil, map, contains, erase, Dict, lookup, insert, has_key, pair_eq,
  string_eq, nat_eq, option_eq, ℤ,
}
use kafka_utils.Cluster.Objects.{
  Store, Topic, Broker, set_topic, set_partition, set_broker, set_group, replicas, partitions,
}
use kafka_utils.Cluster.Partition
use kafka_utils.Cluster.Broker
use kafka_utils.Cluster.Broker.{mark_inactive, set_partitions, remove_partition, add_partition}
use kafka_utils.Cluster.Group
use kafka_utils.Cluster.Group.{add_broker}

abbrev pub Name : Type 0
Name = String × ℕ

abbrev pub Assignment : Type 0
Assignment = Dict Name (List ℕ)

-- The dictionaries of a cluster hold references into its store.
pub record Topology : Type 0 where
  pub store : Store
  pub topics : Dict String ℕ
  pub rgs : Dict (Option String) ℕ
  pub brokers : Dict ℕ ℕ
  pub partitions : Dict Name ℕ

-- What the cluster asks of its caller: the group of a broker, and the measures of a partition.
module _ (extract_group : Broker → Option String) where
  -- `self.rgs.setdefault(rg_id, ReplicationGroup(rg_id))`
  unfoldable pub default_group : Topology → Option String → Topology × ℕ
  default_group c rg_id = elim (lookup rg_id c.rgs) [
    | some g ↦ (c, g)
    | none ↦
        let g = length c.rgs in
        (
          record c { store = set_group c.store g (Group.create rg_id); rgs = insert rg_id g c.rgs },
          g,
        )
  ]

  -- `_create_broker`: the cluster and the new broker.
  unfoldable pub create_broker : Topology → ℕ → List (String × String) → Topology × ℕ
  unfolding default_group
  create_broker c broker_id metadata =
      let b = length c.brokers in
      let made = set_broker c.store b (Broker.create broker_id metadata) in
      let marked = if is_nil metadata then mark_inactive made b else made in
      let (c', g) = default_group (record c { store = marked }) (extract_group (marked.broker b)) in
      let joined = add_broker c'.store g b in
      (
        record c' {
          store = set_broker joined b (record (joined.broker b) { replication_group = some g });
        },
        b,
      )

  unfoldable pub build_brokers : Topology → Dict ℕ (List (String × String)) → Topology
  unfolding create_broker
  build_brokers c [] = c
  build_brokers c ((broker_id, metadata) ∷ more) =
      let (c', b) = create_broker c broker_id metadata in
      build_brokers (record c' { brokers = insert broker_id b c'.brokers }) more

  -- A broker that an assignment names, made without metadata if the cluster has none.
  unfoldable pub broker_or_create : Topology → ℕ → Topology × ℕ
  unfolding create_broker
  broker_or_create c broker_id = elim (lookup broker_id c.brokers) [
    | some b ↦ (c, b)
    | none ↦
        let (c', b) = create_broker c broker_id [] in
        (record c' { brokers = insert broker_id b c'.brokers }, b)
  ]

  unfoldable pub build_replicas : Topology → ℕ → List ℕ → Result Topology
  unfolding broker_or_create
  build_replicas c p [] = ok c
  build_replicas c p (broker_id ∷ more) = do
    let (c', b) = broker_or_create c broker_id
    s ← add_partition c'.store b p
    build_replicas (record c' { store = s }) p more

  module _ (get_weight get_size : Name → ℤ) where
    -- `self.topics.setdefault(topic_id, Topic(topic_id, …))`
    unfoldable pub default_topic : Topology → String → ℕ → Topology × ℕ
    default_topic c topic_id factor = elim (lookup topic_id c.topics) [
      | some t ↦ (c, t)
      | none ↦
          let t = length c.topics in
          (
            record c {
              store =
                  set_topic c.store t
                    (record { id = topic_id; replication_factor = factor; partitions = [] });
              topics = insert topic_id t c.topics;
            },
            t,
          )
    ]

    unfoldable pub build_partitions : Topology → Assignment → Result Topology
    unfolding default_topic build_replicas
    build_partitions c [] = ok c
    build_partitions c ((name, replica_ids) ∷ more) = do
      let (c', t) = default_topic c name.0 (length replica_ids)
      made ← Partition.create t name.1 (get_weight name) (get_size name)
      let p = length c'.partitions
      let topic = c'.store.topic t
      c'' ←
          build_replicas
            (record c' {
              store =
                  set_topic (set_partition c'.store p made) t
                    (record topic { partitions = p ∷ topic.partitions });
              partitions = insert name p c'.partitions;
            })
            p replica_ids
      build_partitions c'' more

    -- `__init__`, over a store with no objects of the cluster.
    unfoldable pub build : Store → Dict ℕ (List (String × String)) → Assignment → Result Topology
    unfolding build_brokers build_partitions
    build s brokers assignment =
        build_partitions
          (build_brokers
            (record { store = s; topics = []; rgs = []; brokers = []; partitions = [] }) brokers)
          assignment

unfoldable pub active_brokers : Topology → List ℕ
active_brokers c =
    keep (λ b. not (c.store.broker b).inactive && not (c.store.broker b).decommissioned)
      (map (λ e. e.1) c.brokers)

-- The order of Python's tuples (topic, partition).
abbrev pub name_le : Name → Name → Bool
name_le (t, i) (u, j) = elim (compare t u) [
  | Ordering.lt ↦ true
  | Ordering.eq ↦ leb i j
  | Ordering.gt ↦ false
]

unfoldable pub insert_item : Name × List ℕ → Assignment → Assignment
insert_item e [] = e ∷ []
insert_item e (x ∷ xs) =
    let rest = insert_item e xs in if name_le e.0 x.0 then e ∷ x ∷ xs else x ∷ rest

unfoldable pub sorted_items : Assignment → Assignment
unfolding insert_item
sorted_items [] = []
sorted_items (e ∷ xs) = insert_item e (sorted_items xs)

abbrev pub broker_ids : Store → List ℕ → List ℕ
broker_ids s bs = map (λ b. (s.broker b).id) bs

-- The name that the objects of a partition give it.
abbrev pub name_of : Store → ℕ → Name
name_of s p = ((s.topic (s.partition p).topic).id, (s.partition p).partition_id)

-- The loop of `assignment`, over the values of `partitions`.
unfoldable pub gather : Store → List ℕ → Assignment → Assignment
gather s [] acc = acc
gather s (p ∷ ps) acc = gather s ps (insert (name_of s p) (broker_ids s (replicas s p)) acc)

unfoldable pub assignment : Topology → Assignment
unfolding gather sorted_items
assignment c = sorted_items (gather c.store (map (λ e. e.1) c.partitions) [])

-- The loop of `replace_broker`.
unfoldable pub replace_in : Store → ℕ → ℕ → List ℕ → Store
replace_in s source dest [] = s
replace_in s source dest (p ∷ ps) =
    let s' = set_partitions s source (erase p (partitions s source)) in
    let s'' =
      set_partitions s' dest
        (if contains p (partitions s' dest) then partitions s' dest else p ∷ partitions s' dest) in
    replace_in (Partition.replace s'' p source dest) source dest ps

unfoldable pub replace_broker : Topology → ℕ → ℕ → Result Topology
unfolding replace_in
replace_broker c source_id dest_id = elim (lookup source_id c.brokers) [
  | none ↦ raise invalid_broker_id
  | some source ↦ elim (lookup dest_id c.brokers) [
    | none ↦ raise invalid_broker_id
    | some dest ↦
        ok (record c { store = replace_in c.store source dest (partitions c.store source) })
  ]
]

-- `[self.brokers[b_id] for b_id in replica_ids]`
unfoldable pub brokers_of : Topology → List ℕ → Result (List ℕ)
brokers_of c [] = ok []
brokers_of c (i ∷ is) = elim (lookup i c.brokers) [
  | none ↦ raise invalid_broker_id
  | some b ↦ do bs ← brokers_of c is; ok (b ∷ bs)
]

abbrev pub same_list : List ℕ → List ℕ → Bool
same_list [] [] = true
same_list (x ∷ xs) (y ∷ ys) = (x == y) && same_list xs ys
same_list _ _ = false

unfoldable pub remove_all : Store → ℕ → List ℕ → Result Store
remove_all s p [] = ok s
remove_all s p (b ∷ bs) = do s' ← remove_partition s b p; remove_all s' p bs

unfoldable pub add_all : Store → ℕ → List ℕ → Result Store
add_all s p [] = ok s
add_all s p (b ∷ bs) = do s' ← add_partition s b p; add_all s' p bs

-- The replicas of one partition, replaced unless they are the same.
unfoldable pub set_new_replicas : Store → ℕ → List ℕ → Result Store
unfolding remove_all add_all
set_new_replicas s p new =
    if same_list new (replicas s p)
    then ok s
    else (do s' ← remove_all s p (replicas s p); add_all s' p new)

unfoldable pub update_cluster_topology : Topology → Assignment → Result Topology
unfolding brokers_of set_new_replicas
update_cluster_topology c [] = ok c
update_cluster_topology c ((name, replica_ids) ∷ more) = do
  new ← brokers_of c replica_ids
  elim (lookup name c.partitions) [
    | none ↦ raise invalid_partition
    | some p ↦ do
      s ← set_new_replicas c.store p new
      update_cluster_topology (record c { store = s }) more
  ]
