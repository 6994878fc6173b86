-- ===== src/Cluster/Broker/Calls.antt =====
-- The methods of `Broker`, but the searches for leaders.
use kafka_utils.Base.{
  ℕ, String, ◌+◌, List, [], ◌∷◌, Bool, true, false, not, Option, none, some, ◌==◌, if◌then◌else◌,
  Result, ok, raise, value_error, key_error, assertion_error, require, ◌>>=◌, ◌>>◌, contains, erase,
  length, sum_of, keep, ℤ, ltb_ℤ,
}
use kafka_utils.Cluster.Objects.{Broker, Store, set_broker, replicas, partitions}
use kafka_utils.Cluster.Partition.{leader, set_replicas, add_replica}

-- `Broker.__init__`.
abbrev pub create : ℕ → List (String × String) → Broker
create id metadata = record {
  id = id;
  metadata = metadata;
  partitions = [];
  decommissioned = false;
  revoked_leadership = false;
  inactive = false;
  replication_group = none;
}

abbrev pub mark_decommissioned : Store → ℕ → Store
mark_decommissioned s b = set_broker s b (record (s.broker b) { decommissioned = true })

abbrev pub mark_revoked_leadership : Store → ℕ → Store
mark_revoked_leadership s b = set_broker s b (record (s.broker b) { revoked_leadership = true })

abbrev pub mark_inactive : Store → ℕ → Store
mark_inactive s b = set_broker s b (record (s.broker b) { inactive = true })

abbrev pub set_partitions : Store → ℕ → List ℕ → Store
set_partitions s b ps = set_broker s b (record (s.broker b) { partitions = ps })

abbrev pub weight : Store → ℕ → ℕ
weight s b = sum_of (λ p. (s.partition p).weight) (partitions s b)

abbrev pub size : Store → ℕ → ℕ
size s b = sum_of (λ p. (s.partition p).size) (partitions s b)

abbrev pub empty : Store → ℕ → Bool
empty s b = length (partitions s b) == 0

-- The sums over `partition.leader == self`. A partition with no replicas raises.
unfoldable pub sum_leading : (ℕ → ℕ) → Store → ℕ → List ℕ → Result ℕ
sum_leading f s b [] = ok 0
sum_leading f s b (p ∷ ps) = do
  l ← leader s p
  n ← sum_leading f s b ps
  ok ((if l == b then f p else 0) + n)

unfoldable pub leader_weight : Store → ℕ → Result ℕ
leader_weight s b = sum_leading (λ p. (s.partition p).weight) s b (partitions s b)

unfoldable pub count_preferred_replica : Store → ℕ → Result ℕ
count_preferred_replica s b = sum_leading (λ p. 1) s b (partitions s b)

unfoldable pub remove_partition : Store → ℕ → ℕ → Result Store
remove_partition s b p =
    if contains p (partitions s b)
    then (do
      let s' = set_partitions s b (erase p (partitions s b))
      require (contains b (replicas s' p)) value_error
      ok (set_replicas s' p (erase b (replicas s' p))))
    else raise value_error

unfoldable pub add_partition : Store → ℕ → ℕ → Result Store
unfolding add_replica
add_partition s b p = do
  require (not (contains p (partitions s b))) assertion_error
  let s' = set_partitions s b (p ∷ partitions s b)
  ok (add_replica s' p b)

unfoldable pub move_partition : Store → ℕ → ℕ → ℕ → Result Store
move_partition s b p dest = do s' ← remove_partition s b p; add_partition s' dest p

unfoldable pub count_partitions : Store → ℕ → ℕ → ℕ
count_partitions s b t = length (keep (λ p. contains p (partitions s b)) (s.topic t).partitions)

-- The scan of `min` over the distances of the partitions' topics; a missing topic raises.
unfoldable pub nearest : (ℕ → Option ℤ) → Store → ℕ → List ℕ → Result ℕ
nearest distance s best [] = ok best
nearest distance s best (p ∷ ps) = elim (distance (s.partition best).topic) [
  | none ↦ raise key_error
  | some d ↦ elim (distance (s.partition p).topic) [
    | none ↦ raise key_error
    | some e ↦ nearest distance s (if ltb_ℤ e d then p else best) ps
  ]
]

-- `none` where no partition is eligible.
unfoldable pub get_preferred_partition : Store → ℕ → ℕ → (ℕ → Option ℤ) → Result (Option ℕ)
get_preferred_partition s b dest distance =
    elim (keep (λ p. not (contains p (partitions s dest))) (partitions s b)) [
      | [] ↦ ok none
      | p ∷ ps ↦ do best ← nearest distance s p (p ∷ ps); ok (some best)
    ]
