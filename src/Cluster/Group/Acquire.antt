-- ===== src/Cluster/Group/Acquire.antt =====
-- The choice of a destination, and what acquiring a partition does.
use kafka_utils.Base.{
  ℕ, ◌≤◌, List, Bool, true, false, not, ◌&&◌, none, some, ok, raise, not_eligible_group, keep,
  contains, ◌≡◌, arith, ◌⊎◌, inl, inr, contains-Each, contains-keep, contains-count,
  count-sorted_up, sorted_up, min_by-mem, min_by-le, Option-cases, Returns-value, min_by-none, ap,
  sym, ◌∙◌, ltb,
}
use kafka_utils.Cluster.Objects.{Store, partitions}
use kafka_utils.Cluster.Broker.{
  IsLinked, IsMoved, move_partition, move_partition-IsMoved, count_partitions,
}
use kafka_utils.Cluster.Group.Elect.{brokers, load, elect_dest_broker, acquire_partition}

contains-sorted_up :
    (key : ℕ → ℕ) (a : ℕ) (xs : List ℕ) → contains a (sorted_up key xs) ≡ contains a xs
contains-sorted_up key a xs =
    contains-count a _ ∙ ap (ltb 0) (count-sorted_up key a xs) ∙ sym (contains-count a xs)

module _ (s : Store) (g victim : ℕ) where
  -- A broker of the group that may take the partition.
  pub record IsEligible (b : ℕ) : Type 0 where
    pub belongs : contains b (brokers s g) ≡ true
    pub lacks : contains victim (partitions s b) ≡ false
    pub running : (s.broker b).inactive ≡ false
    pub staying : (s.broker b).decommissioned ≡ false

  abbrev lacking : ℕ → Bool
  lacking b = not (contains victim (partitions s b))

  abbrev open_brokers : List ℕ
  open_brokers =
      keep (λ b. lacking b && not (s.broker b).inactive && not (s.broker b).decommissioned)
        (brokers s g)

  abbrev candidates : List ℕ
  candidates = keep lacking (sorted_up (load s) open_brokers)

  candidate→IsEligible : (b : ℕ) → contains b candidates ≡ true → IsEligible b
  candidate→IsEligible b m = ground (
    arith,
    contains-keep b lacking (sorted_up (load s) open_brokers),
    contains-sorted_up (load s) b open_brokers,
    contains-keep b (λ c. lacking c && not (s.broker c).inactive && not (s.broker c).decommissioned)
        (brokers s g),
  )

  IsEligible→candidate : (b : ℕ) → IsEligible b → contains b candidates ≡ true
  IsEligible→candidate b e = ground (
    arith,
    contains-keep b lacking (sorted_up (load s) open_brokers),
    contains-sorted_up (load s) b open_brokers,
    contains-keep b (λ c. lacking c && not (s.broker c).inactive && not (s.broker c).decommissioned)
        (brokers s g),
  )

  pub elect_dest_broker-some :
      (b : ℕ)
      → elect_dest_broker s g victim ≡ some b
      → IsEligible b
        × ((c : ℕ)
            → IsEligible c
            → count_partitions s b (s.partition victim).topic
              ≤ count_partitions s c (s.partition victim).topic)
  unfolding elect_dest_broker
  elect_dest_broker-some b e = (
    candidate→IsEligible b (min_by-mem _ candidates b e),
    λ c h. contains-Each _ candidates c (min_by-le _ candidates b e) (IsEligible→candidate c h),
  )

  pub elect_dest_broker-none : elect_dest_broker s g victim ≡ none → (c : ℕ) → ¬ IsEligible c
  unfolding elect_dest_broker
  elect_dest_broker-none e c h = cc (min_by-none _ candidates e c, IsEligible→candidate c h)

-- A source that lists the partition gives it away exactly if some broker of the group is eligible:
-- it belongs to the group, lacks the partition, and is neither inactive nor decommissioned. The
-- partition then goes to an eligible broker with the fewest partitions of the topic.
-- NotEligibleGroupError is raised if there is none.
pub acquire_partition_cases :
    (s : Store) (g p source : ℕ)
    → IsLinked s
    → contains p (partitions s source) ≡ true
    → ((acquire_partition s g p source ≡ raise not_eligible_group)
        × ((c : ℕ) → ¬ IsEligible s g p c))
      ⊎ ((dest : ℕ) × (t : Store) × (acquire_partition s g p source ≡ ok t)
          × IsEligible s g p dest
          × ((c : ℕ)
              → IsEligible s g p c
              → count_partitions s dest (s.partition p).topic
                ≤ count_partitions s c (s.partition p).topic)
          × IsMoved s source p dest t)
unfolding acquire_partition
acquire_partition_cases s g p source v held = elim (Option-cases (elect_dest_broker s g p)) [
  | inl e ↦ inl (rw (e, acquire_partition), elect_dest_broker-none s g p e)
  | inr (dest, e) ↦
      let (h, least) = elect_dest_broker-some s g p dest e in
      let (t, moves, m) =
        Returns-value (IsMoved s source p dest) (move_partition s source p dest)
          (move_partition-IsMoved s source p dest v held h.lacks) in
      inr (dest, t, rw (e, acquire_partition) moves, h, least, m)
]
