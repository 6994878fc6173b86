-- ===== src/Cluster/Balancer/Leaders.antt =====
-- The balance of leaders (cluster_info/partition_count_balancer.py).
pub mod Reordered
pub mod Revoked
pub mod Marks
pub mod Revocation
use kafka_utils.Base.{
  ℕ, zero, suc, ◌+◌, ◌-◌, ◌/◌, List, [], ◌∷◌, ◌++◌, map, Bool, true, false, not, ◌&&◌, ◌==◌, ltb,
  leb, if◌then◌else◌, Option, none, some, lookup, nat_eq, Result, ok, raise, ◌>>=◌, ◌>>◌, require,
  assertion_error, value_error, invalid_broker_id, zero_division_error, length, is_nil, keep,
}
use kafka_utils.Cluster.Objects.{Store, replicas, partitions}
use kafka_utils.Cluster.Partition.{leader, followers, replication_factor, swap_leader}
use kafka_utils.Cluster.Broker.{count_preferred_replica, mark_revoked_leadership}
use kafka_utils.Cluster.Broker.Leadership.{Search, request_leadership}
use kafka_utils.Cluster.Broker.Donate.{Donation, donate_leadership}
use kafka_utils.Cluster.Topology.{Topology}

-- The objects that the dictionaries of a cluster hold, in order.
abbrev pub all_brokers : Topology → List ℕ
all_brokers c = map (λ e. e.1) c.brokers

abbrev pub all_partitions : Topology → List ℕ
all_partitions c = map (λ e. e.1) c.partitions

abbrev pub all_groups : Topology → List ℕ
all_groups c = map (λ e. e.1) c.rgs

-- A filter whose test can raise.
unfoldable pub filter {ℓ} : {A : Type ℓ} → (A → Result Bool) → List A → Result (List A)
filter test [] = ok []
filter test (x ∷ xs) = do good ← test x; rest ← filter test xs; ok (if good then x ∷ rest else rest)

-- `min(xs, key=…)` where the key can raise: the first of the smallest.
unfoldable pub min_key : (ℕ → Result ℕ) → List ℕ → Result ℕ
min_key key [] = raise value_error
min_key key (x ∷ []) = do i ← key x; ok x
min_key key (x ∷ y ∷ more) = do
  i ← key x
  m ← min_key key (y ∷ more)
  j ← key m
  ok (if leb i j then x else m)

-- The nested calls that a search through the cluster is given.
abbrev pub depth : Topology → ℕ
depth c = suc (length (all_brokers c))

module _ (c : Topology) (opt_cnt : ℕ) where
  -- The loops over the under- and over-balanced brokers.
  unfoldable pub request_each : List ℕ → Search → Result Search
  request_each [] st = ok st
  request_each (b ∷ bs) st = do
    st' ←
        request_leadership opt_cnt (depth c) b
          (record st { skip_brokers = st.skip_brokers ++ b ∷ [] })
    request_each bs st'

  unfoldable pub donate_each : List ℕ → Donation → Result Donation
  donate_each [] st = ok st
  donate_each (b ∷ bs) st = do
    st' ←
        donate_leadership opt_cnt (depth c) b
          (record st { skip_brokers = st.skip_brokers ++ b ∷ [] })
    donate_each bs st'

  unfoldable pub is_under : Store → ℕ → Result Bool
  is_under s b = do
    n ← count_preferred_replica s b
    ok (ltb n opt_cnt && not (s.broker b).revoked_leadership)

  unfoldable pub is_over : Store → ℕ → Result Bool
  is_over s b = do n ← count_preferred_replica s b; ok (ltb (opt_cnt + 1) n)

  -- A loop over no brokers changes nothing, so the tests for an empty list are left out.
  unfoldable pub rebalancing_non_followers : Store → Result Store
  unfolding request_each donate_each is_under is_over filter
  rebalancing_non_followers s = do
    under_brokers ← filter (is_under s) (all_brokers c)
    st ← request_each under_brokers (record { store = s; skip_brokers = []; skip_partitions = [] })
    over_brokers ← filter (is_over st.store) (all_brokers c)
    st' ← donate_each over_brokers (record { store = st.store; skip_brokers = []; used_edges = [] })
    ok st'.store

unfoldable pub rebalance_leaders : Topology → Store → Result Store
unfolding rebalancing_non_followers
rebalance_leaders c s =
    if is_nil c.brokers
    then raise zero_division_error
    else rebalancing_non_followers c (length c.partitions / length c.brokers) s

unfoldable pub leads : Store → ℕ → ℕ → Result Bool
leads s b p = do l ← leader s p; ok (b == l)

-- The body of the loop of `_force_revoke_leadership`.
unfoldable pub force_revoke_partition : Store → ℕ → Result Store
unfolding min_key
force_revoke_partition s p = elim (replication_factor s p == 1) [
  | true ↦ ok s
  | false ↦ do
    let eligible_followers = keep (λ b. not (s.broker b).revoked_leadership) (followers s p)
    elim (is_nil eligible_followers) [
      | true ↦ ok s
      | false ↦ do
        best_fit_follower ← min_key (count_preferred_replica s) eligible_followers
        (t, old) ← swap_leader s p best_fit_follower
        ok t
    ]
]

unfoldable pub force_revoke_partitions : Store → List ℕ → Result Store
unfolding force_revoke_partition
force_revoke_partitions s [] = ok s
force_revoke_partitions s (p ∷ ps) = do
  s' ← force_revoke_partition s p
  force_revoke_partitions s' ps

unfoldable pub force_revoke_leadership : Store → ℕ → Result Store
unfolding filter leads force_revoke_partitions
force_revoke_leadership s b = do
  owned_partitions ← filter (leads s b) (partitions s b)
  force_revoke_partitions s owned_partitions

unfoldable pub force_revoke_each : Store → List ℕ → Result Store
unfolding force_revoke_leadership
force_revoke_each s [] = ok s
force_revoke_each s (b ∷ bs) = do s' ← force_revoke_leadership s b; force_revoke_each s' bs

-- The first loop: the brokers of the ids are marked.
unfoldable pub mark_revoked : Topology → Store → List ℕ → Result Store
mark_revoked c s [] = ok s
mark_revoked c s (i ∷ is) = elim (lookup i c.brokers) [
  | none ↦ raise invalid_broker_id
  | some b ↦ mark_revoked c (mark_revoked_leadership s b) is
]

unfoldable pub is_pending : Store → ℕ → Result Bool
is_pending s b = elim (s.broker b).revoked_leadership [
  | false ↦ ok false
  | true ↦ do n ← count_preferred_replica s b; ok (ltb 0 n)
]

unfoldable pub revoke_leadership : Topology → Store → List ℕ → Result Store
unfolding mark_revoked rebalancing_non_followers is_pending force_revoke_each
revoke_leadership c s broker_ids = do
  s' ← mark_revoked c s broker_ids
  require (ltb (length broker_ids) (length c.brokers)) assertion_error
  let opt_leader_cnt = length c.partitions / (length c.brokers - length broker_ids)
  s'' ← rebalancing_non_followers c opt_leader_cnt s'
  pending_brokers ← filter (is_pending s'') (all_brokers c)
  force_revoke_each s'' pending_brokers
