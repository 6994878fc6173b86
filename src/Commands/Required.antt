-- ===== src/Commands/Required.antt =====
-- What the check of the movement size finds (kafka_cluster_manager/cmds/rebalance.py).
use kafka_utils.Base.{
  ℕ, ◌-◌, ◌*◌, ◌≤◌, ◌<◌, zero, suc, List, [], ◌∷◌, true, some, if◌then◌else◌, ltb, leb, sum_of,
  sorted_down, sum_of-sorted_down, IsDescending, Each-sorted_down, Each-contains, Each, contains,
  contains-Each, leb→le, contains-count, count-sorted_down, ◌⊎◌, refl, Bool-cases, ◌≡◌, inl, inr,
  subst, arith,
}
use native.Mathlib.Nat.{le_trans, lt_of_lt_of_le, mul-le-mul_right}
use kafka_utils.Cluster.Objects.{Store}
use kafka_utils.Commands.Movement.{size, weight, required_size}

-- The weight of the partitions of a list that are smaller than a size.
abbrev pub weight_below : Store → ℕ → List ℕ → ℕ
weight_below s r ps = sum_of (λ p. if ltb (size s p) r then weight s p else 0) ps

-- The weight of the partitions of a list that are at most of a size.
abbrev pub weight_up_to : Store → ℕ → List ℕ → ℕ
weight_up_to s r ps = sum_of (λ p. if leb (size s p) r then weight s p else 0) ps

-- The loop takes the partitions away from the largest on, and ends at the first after which the rest
-- weighs no more than the ideal. So `r` is the size of one of the partitions, the smaller ones weigh
-- no more than the ideal, and, if there is a larger one, those up to `r` weigh more than it.
pub record IsRequired (s : Store) (total broker_count r : ℕ) (ps : List ℕ) : Type 0 where
  pub of_one : (p : ℕ) × (contains p ps ≡ true) × (size s p ≡ r)
  pub below : weight_below s r ps * broker_count ≤ total
  pub first : Each (λ p. size s p ≤ r) ps ⊎ (total < weight_up_to s r ps * broker_count)

weight_below-le : (s : Store) (r : ℕ) (ps : List ℕ) → weight_below s r ps ≤ sum_of (weight s) ps
weight_below-le s r [] = omega arith
weight_below-le s r (p ∷ ps) = ground (arith, weight_below-le s r ps)

weight_below-cons :
    (s : Store) (r p : ℕ) (ps : List ℕ)
    → r ≤ size s p
    → weight_below s r (p ∷ ps) ≡ weight_below s r ps
weight_below-cons s r p ps h = ground arith

mul-le : (a b n t : ℕ) → a ≤ b → b * n ≤ t → a * n ≤ t
mul-le a b n t h k = le_trans (mul-le-mul_right n h) k

weight_up_to-all :
    (s : Store) (r : ℕ) (ps : List ℕ)
    → Each (λ p. size s p ≤ r) ps
    → weight_up_to s r ps ≡ sum_of (weight s) ps
weight_up_to-all s r [] h = refl
weight_up_to-all s r (p ∷ ps) h = ground (arith, weight_up_to-all s r ps h.1)

-- What is left after a partition at which the loop does not end is too heavy.
too_heavy :
    (s : Store) (total n r left p : ℕ) (ps : List ℕ)
    → left ≡ sum_of (weight s) ps
    → total < left * n
    → Each (λ q. size s q ≤ r) ps ⊎ (total < weight_up_to s r ps * n)
    → total < weight_up_to s r (p ∷ ps) * n
too_heavy s total n r left p ps e h before =
    let more : weight_up_to s r ps ≤ weight_up_to s r (p ∷ ps) = ground arith in
    elim before [
      | inl all ↦
          let same : left ≤ weight_up_to s r (p ∷ ps) =
            omega (arith, more, e, weight_up_to-all s r ps all) in
          lt_of_lt_of_le h (mul-le-mul_right n same)
      | inr less ↦ lt_of_lt_of_le less (mul-le-mul_right n more)
    ]

pub required_size_lem :
    (s : Store) (total broker_count left : ℕ) (ps : List ℕ) (r : ℕ)
    → IsDescending (size s) ps
    → left ≡ sum_of (weight s) ps
    → required_size s total broker_count left ps ≡ some r
    → IsRequired s total broker_count r ps
unfolding required_size contains
required_size_lem s total n left [] r d e h = cc
required_size_lem s total n left (p ∷ ps) r d e h =
    elim (Bool-cases (leb ((left - weight s p) * n) total)) [
      | inl k ↦
          let same : size s p ≡ r = ground arith in
          let rest : weight_below s r ps ≤ left - weight s p =
            ground (arith, weight_below-le s r ps) in
          record {
            of_one = (p, ground arith, same);
            below =
                rw (weight_below-cons s r p ps (ground arith))
                  (mul-le _ _ n total rest (leb→le _ _ k));
            first = inl (ground arith, subst (λ m. Each (λ q. size s q ≤ m) ps) same d.0);
          }
      | inr k ↦
          let taken : left - weight s p ≡ sum_of (weight s) ps = ground arith in
          let i = required_size_lem s total n (left - weight s p) ps r d.1 taken (ground arith) in
          let (q, m, same) = i.of_one in
          let larger = contains-Each (λ y. size s y ≤ size s p) ps q d.0 m in
          record {
            of_one = (q, ground arith, same);
            below = rw (weight_below-cons s r p ps (ground arith)) i.below;
            first = inr (too_heavy s total n r _ p ps taken (ground arith) i.first);
          }
    ]

required_size-some :
    (s : Store) (total broker_count left : ℕ) (p : ℕ) (ps : List ℕ)
    → left ≡ sum_of (weight s) (p ∷ ps)
    → (r : ℕ) × (required_size s total broker_count left (p ∷ ps) ≡ some r)
unfolding required_size
required_size-some s total n left p [] e =
    let nothing : left - weight s p ≡ 0 = ground arith in (size s p, rw nothing (ground arith))
required_size-some s total n left p (q ∷ ps) e =
    elim (Bool-cases (leb ((left - weight s p) * n) total)) [
      | inl k ↦ (size s p, ground arith)
      | inr k ↦
          let (r, found) = required_size-some s total n (left - weight s p) q ps (ground arith) in
          (r, rw k found)
    ]

pub pos-factor : (a n : ℕ) → 0 < a * n → 0 < a
pos-factor zero n h = omega arith
pos-factor (suc a) n h = omega arith

pub required_size-total :
    (s : Store) (total broker_count left : ℕ) (ps : List ℕ)
    → left ≡ sum_of (weight s) ps
    → 0 < left
    → (r : ℕ) × (required_size s total broker_count left ps ≡ some r)
required_size-total s total n left [] e h = absurd (omega arith)
required_size-total s total n left (p ∷ ps) e h = required_size-some s total n left p ps e

-- The order of the partitions does not matter to what is required.
pub IsRequired-sorted_down :
    (s : Store) (total broker_count r : ℕ) (ps : List ℕ)
    → IsRequired s total broker_count r (sorted_down (size s) ps)
    → IsRequired s total broker_count r ps
IsRequired-sorted_down s total n r ps i =
    let sorted = sorted_down (size s) ps in
    let (p, m, same) = i.of_one in
    let members : Each (λ q. contains q ps ≡ true) sorted =
      Each-sorted_down (size s) _ ps (Each-contains (λ q. contains q ps ≡ true) ps (λ q k. k)) in
    record {
      of_one = (p, contains-Each (λ q. contains q ps ≡ true) sorted p members m, same);
      below =
          subst (λ w. w * n ≤ total)
            (sum_of-sorted_down (size s) (λ q. if ltb (size s q) r then weight s q else 0) ps)
            i.below;
      first = elim i.first [
        | inl all ↦ inl (
            Each-contains (λ q. size s q ≤ r) ps
              (λ q k.
                contains-Each (λ y. size s y ≤ r) sorted q all
                  (ground (
                    arith,
                    contains-count q ps,
                    contains-count q sorted,
                    count-sorted_down (size s) q ps,
                  ))))
        | inr more ↦ inr (
            subst (λ w. total < w * n)
              (sum_of-sorted_down (size s) (λ q. if leb (size s q) r then weight s q else 0) ps)
              more)
      ];
    }
