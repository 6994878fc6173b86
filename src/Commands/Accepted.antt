-- ===== src/Commands/Accepted.antt =====
-- Which limits on the size of a movement the check accepts
-- (kafka_cluster_manager/cmds/rebalance.py).
use kafka_utils.Base.{
  ℕ, ◌*◌, ◌/◌, Bool, false, ◌≤◌, ◌<◌, [], ◌∷◌, true, none, some, length, sum_of, max_by, max_by-le,
  max_by-mem, sorted_down, sum_of-sorted_down, sorted_down-IsDescending, Each, Each-map, contains,
  leb→le, Bool-cases, Option-cases, Dict, map, ◌≢◌, raise, zero_division_error, Returns, ◌≡◌, inl,
  inr, subst, ap, sym, arith,
}
use native.Mathlib.Nat.{lt_of_le_of_lt, lt_of_lt_of_le, mul-le-mul_right}
use kafka_utils.Cluster.Topology.{Topology}
use kafka_utils.Cluster.Balancer.Leaders.{all_brokers}
use kafka_utils.Commands.Movement.{
  Verdict, fits, too_small, size, weight, unmovable, unmovable_weight, total_weight, reaches_ideal,
  check_broker, check_movement_size,
}
use kafka_utils.Commands.Required.{
  IsRequired, pos-factor, required_size_lem, required_size-total, IsRequired-sorted_down,
}

max_by-nonempty :
    (load : ℕ → ℕ) (brokers : Dict ℕ ℕ)
    → 0 < length brokers
    → max_by load (map (λ e. e.1) brokers) ≢ none
unfolding max_by
max_by-nonempty load [] h e = omega arith
max_by-nonempty load (b ∷ bs) h e = cc

-- Weights below the ideal, weights that reach it, and an ideal above zero.
abbrev pub IsLight : Bool → (total broker_count w : ℕ) → Type 0
IsLight true total broker_count w = w < total / broker_count
IsLight false total broker_count w = w * broker_count < total

abbrev pub IsHeavy : Bool → (total broker_count w : ℕ) → Type 0
IsHeavy true total broker_count w = total / broker_count ≤ w
IsHeavy false total broker_count w = total ≤ w * broker_count

abbrev pub HasIdeal : Bool → (total broker_count : ℕ) → Type 0
HasIdeal true total broker_count = 0 < total / broker_count
HasIdeal false total broker_count = 0 < total

abbrev pub HasVerdict : Bool → Topology → ℕ → Verdict → Type 0
HasVerdict floors c limit fits =
    Each
      (λ b. IsLight floors (total_weight c) (length c.brokers) (unmovable_weight c.store limit b))
      (all_brokers c)
HasVerdict floors c limit (too_small required) =
    (b : ℕ) × (contains b (all_brokers c) ≡ true)
    × IsHeavy floors (total_weight c) (length c.brokers) (unmovable_weight c.store limit b)
    × IsRequired c.store (total_weight c) (length c.brokers) required (unmovable c.store limit b)

reaches-IsHeavy :
    (floors : Bool) (total n w : ℕ)
    → reaches_ideal floors total n w ≡ true
    → IsHeavy floors total n w
reaches-IsHeavy true total n w h = leb→le _ _ h
reaches-IsHeavy false total n w h = leb→le _ _ h

-- A weight that is no larger than one below the ideal is below it.
below-IsLight :
    (floors : Bool) (total n v w : ℕ)
    → v ≤ w
    → reaches_ideal floors total n w ≡ false
    → IsLight floors total n v
below-IsLight true total n v w h k = ground arith
below-IsLight false total n v w h k =
    let less : w * n < total = ground arith in lt_of_le_of_lt (mul-le-mul_right n h) less

heavy-positive :
    (floors : Bool) (total n w : ℕ) → HasIdeal floors total n → IsHeavy floors total n w → 0 < w
heavy-positive true total n w h k = lt_of_lt_of_le h k
heavy-positive false total n w h k = pos-factor w n (lt_of_lt_of_le h k)

check_broker_lem :
    (floors : Bool) (c : Topology) (limit b : ℕ)
    → HasIdeal floors (total_weight c) (length c.brokers)
    → contains b (all_brokers c) ≡ true
    → Each
        (λ a. unmovable_weight c.store limit a ≤ unmovable_weight c.store limit b)
        (all_brokers c)
    → Returns (HasVerdict floors c limit) (check_broker floors c limit b)
unfolding check_broker
check_broker_lem floors c limit b h m largest =
    let s = c.store in
    let total = total_weight c in
    let n = length c.brokers in
    let left = unmovable_weight s limit b in
    let sorted = sorted_down (size s) (unmovable s limit b) in
    elim (Bool-cases (reaches_ideal floors total n left)) [
      | inl k ↦
          let sum : left ≡ sum_of (weight s) sorted =
            sym (sum_of-sorted_down (size s) (weight s) (unmovable s limit b)) in
          let heavy = reaches-IsHeavy floors total n left k in
          let positive = heavy-positive floors total n left h heavy in
          let (r, found) = required_size-total s total n left sorted sum positive in
          let right =
            required_size_lem s total n left sorted r
              (sorted_down-IsDescending (size s) (unmovable s limit b)) sum found in
          rw k
            (rw found (b, m, heavy, IsRequired-sorted_down s total n r (unmovable s limit b) right))
      | inr k ↦ rw k (
          Each-map _ _ (λ a j. below-IsLight floors total n (unmovable_weight s limit a) left j k)
            (all_brokers c) largest)
    ]

check_movement_size-some :
    (floors : Bool) (c : Topology) (limit b : ℕ)
    → max_by (unmovable_weight c.store limit) (all_brokers c) ≡ some b
    → check_movement_size floors c limit ≡ check_broker floors c limit b
unfolding check_movement_size
check_movement_size-some floors c limit b e =
    ap (λ o. elim o [ none ↦ raise zero_division_error | some a ↦ check_broker floors c limit a ]) e

-- With an ideal above zero the check returns. It accepts a limit on the size of a movement exactly if
-- on every broker the partitions above the limit weigh less than the ideal. Otherwise there is a
-- broker on which those weigh no less than the ideal, and of these partitions the check names the
-- size at which the loop, from the largest on, stops: that of one of them, such that the smaller ones
-- weigh no more than the ideal, while, if there are larger ones, those up to that size weigh more. The
-- ideal is the quotient of the weight of all partitions and the number of brokers, exact or rounded
-- down.
pub check_movement_size_lem :
    (floors : Bool) (c : Topology) (limit : ℕ)
    → 0 < length c.brokers
    → HasIdeal floors (total_weight c) (length c.brokers)
    → Returns (HasVerdict floors c limit) (check_movement_size floors c limit)
check_movement_size_lem floors c limit some_broker h =
    let load = unmovable_weight c.store limit in
    elim (Option-cases (max_by load (all_brokers c))) [
      | inl e ↦ absurd (max_by-nonempty load c.brokers some_broker e)
      | inr (b, e) ↦
          subst (Returns (HasVerdict floors c limit))
            (sym (check_movement_size-some floors c limit b e))
            (check_broker_lem floors c limit b h (max_by-mem load (all_brokers c) b e)
              (max_by-le load (all_brokers c) b e))
    ]
