-- ===== src/Cluster/Broker/Leadership.antt =====
-- `request_leadership` (cluster_info/broker.py).
pub mod Keeps
pub mod Total
use kafka_utils.Base.{
  ℕ, zero, suc, ◌+◌, ◌-◌, ◌≤◌, ◌<◌, List, [], ◌∷◌, ◌++◌, Bool, true, false, not, ◌&&◌, ◌||◌, ◌==◌,
  if◌then◌else◌, ltb, leb, Result, ok, raise, value_error, out_of_fuel, require, ◌>>=◌, ◌>>◌, count,
  contains, erase,
}
use kafka_utils.Cluster.Objects.{Store, replicas, partitions}
use kafka_utils.Cluster.Partition.{leader, replication_factor, swap_leader}
use kafka_utils.Cluster.Broker.Calls.{count_preferred_replica}

-- What a search reads and changes: the cluster and its two lists of what to leave alone.
pub record Search : Type 0 where
  pub store : Store
  pub skip_brokers : List ℕ
  pub skip_partitions : List ℕ

-- The partitions with followers that the broker does not lead.
unfoldable pub led_by_others : Store → ℕ → List ℕ → Result (List ℕ)
led_by_others s b [] = ok []
led_by_others s b (p ∷ ps) = do
  l ← leader s p
  qs ← led_by_others s b ps
  ok (if not (b == l) && ltb 1 (replication_factor s p) then p ∷ qs else qs)

module _ (opt_count : ℕ) where
  -- Whether the broker has enough partitions to lead, with the search as it stands.
  unfoldable pub settle : ℕ → Search → Result (Bool × Search)
  settle b st = do n ← count_preferred_replica st.store b; ok (leb opt_count n, st)

  -- The branches after the recursive call: revert the grant, or let it stand.
  unfoldable pub conclude : ℕ → ℕ → ℕ → Search → Result (Bool × Search)
  unfolding settle
  conclude b p prev st = do
    n ← count_preferred_replica st.store prev
    elim (ltb n opt_count) [
      | true ↦ do
        require (contains p st.skip_partitions) value_error
        (s, _) ← swap_leader st.store p prev
        ok (false, record st { store = s; skip_partitions = erase p st.skip_partitions })
      | false ↦ do
        require (contains prev st.skip_brokers) value_error
        settle b (record st {
          skip_partitions = st.skip_partitions ++ p ∷ [];
          skip_brokers = erase prev st.skip_brokers;
        })
    ]

  -- One round of the loop for an available partition; `again` is the recursive call.
  unfoldable pub grant : (ℕ → Search → Result Search) → ℕ → Search → ℕ → Result (Bool × Search)
  unfolding settle conclude
  grant again b st p = do
    (s, prev) ← swap_leader st.store p b
    let granted = record st { store = s; skip_partitions = st.skip_partitions ++ p ∷ [] }
    n ← count_preferred_replica s prev
    elim (leb opt_count n || (s.broker prev).revoked_leadership) [
      | true ↦ settle b granted
      | false ↦ do
        searched ← again prev (record granted { skip_brokers = st.skip_brokers ++ prev ∷ [] })
        conclude b p prev searched
    ]

  -- The body of the loop, with `true` for `return`.
  unfoldable pub visit : (ℕ → Search → Result Search) → ℕ → Search → ℕ → Result (Bool × Search)
  unfolding grant
  visit again b st p = do
    l ← leader st.store p
    elim (contains l st.skip_brokers || contains p st.skip_partitions) [
      | true ↦ ok (false, st)
      | false ↦ grant again b st p
    ]

  unfoldable pub request_from : (ℕ → Search → Result Search) → ℕ → Search → List ℕ → Result Search
  unfolding visit
  request_from again b st [] = ok st
  request_from again b st (p ∷ ps) = do
    (done, st') ← visit again b st p
    elim done [ true ↦ ok st' | false ↦ request_from again b st' ps ]

  -- The recursion, on the number of nested calls left.
  unfoldable pub request_leadership : ℕ → ℕ → Search → Result Search
  unfolding request_from led_by_others
  request_leadership zero b st = raise out_of_fuel
  request_leadership (suc depth) b st = do
    owned ← led_by_others st.store b (partitions st.store b)
    request_from (request_leadership depth) b st owned
