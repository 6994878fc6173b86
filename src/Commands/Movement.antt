-- ===== src/Commands/Movement.antt =====
-- The limit on the size of a movement that the rebalance command accepts
-- (kafka_cluster_manager/cmds/rebalance.py). The ideal weight of a broker is a quotient.
-- `floors` says whether it is rounded down, as Python 2.7 does with integers; else a comparison
-- with it is written with the product, which is exact.
use kafka_utils.Base.{
  ℕ, ◌-◌, ◌*◌, ◌/◌, Bool, true, false, List, [], ◌∷◌, Option, none, some, if◌then◌else◌, ltb, leb,
  length, keep, sum_of, max_by, sorted_down, Result, ok, raise, zero_division_error,
  unbound_local_error,
}
use kafka_utils.Cluster.Objects.{Store, partitions}
use kafka_utils.Cluster.Topology.{Topology}
use kafka_utils.Cluster.Balancer.Leaders.{all_brokers, all_partitions}

-- The limit is enough, or the one that the error message asks for.
pub data Verdict : Type 0 where
  fits : Verdict
  too_small : (required : ℕ) → Verdict

abbrev pub size : Store → ℕ → ℕ
size s p = (s.partition p).size

abbrev pub weight : Store → ℕ → ℕ
weight s p = (s.partition p).weight

-- `partition.size > self.args.max_movement_size`
abbrev pub unmovable : Store → ℕ → ℕ → List ℕ
unmovable s limit b = keep (λ p. ltb limit (size s p)) (partitions s b)

abbrev pub unmovable_weight : Store → ℕ → ℕ → ℕ
unmovable_weight s limit b = sum_of (weight s) (unmovable s limit b)

abbrev pub total_weight : Topology → ℕ
total_weight c = sum_of (weight c.store) (all_partitions c)

-- The weights of the partitions stay within `left`, from which they are taken. A natural number is
-- at most a quotient exactly if it is at most the quotient rounded down.
unfoldable pub required_size : Store → (total broker_count left : ℕ) → List ℕ → Option ℕ
required_size s total broker_count left [] = none
required_size s total broker_count left (p ∷ ps) =
    let rest = required_size s total broker_count (left - weight s p) ps in
    if leb ((left - weight s p) * broker_count) total then some (size s p) else rest

-- `weight >= optimal_weight`
abbrev pub reaches_ideal : Bool → (total broker_count w : ℕ) → Bool
reaches_ideal true total broker_count w = leb (total / broker_count) w
reaches_ideal false total broker_count w = leb total (w * broker_count)

-- Python raises UnboundLocalError where the loop assigns no required size.
unfoldable pub check_broker : Bool → Topology → ℕ → ℕ → Result Verdict
unfolding required_size
check_broker floors c limit b =
    let s = c.store in
    let left = unmovable_weight s limit b in
    if reaches_ideal floors (total_weight c) (length c.brokers) left
    then elim (required_size s (total_weight c) (length c.brokers) left
        (sorted_down (size s) (unmovable s limit b))) [
          | some required ↦ ok (too_small required)
          | none ↦ raise unbound_local_error
        ]
    else ok fits

unfoldable pub check_movement_size : Bool → Topology → ℕ → Result Verdict
unfolding check_broker
check_movement_size floors c limit =
    elim (max_by (unmovable_weight c.store limit) (all_brokers c)) [
      | none ↦ raise zero_division_error
      | some b ↦ check_broker floors c limit b
    ]
