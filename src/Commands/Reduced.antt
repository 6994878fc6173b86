-- ===== src/Commands/Reduced.antt =====
-- The reduced assignment of the commands keeps to its limits.
use kafka_utils.Base.{
  ℕ, List, false, ◌&&◌, ◌||◌, Option, some, IsDict, lookup, pair_eq, string_eq, nat_eq, ℤ,
  is_negative, pos_part, Returns, Returns-bind, is_nil, Each, Each-map, Bool-cases, ◌≡◌, sym, subst,
  arith, inl, inr,
}
use kafka_utils.Cluster.Topology.{Topology, Assignment, assignment}
use kafka_utils.Commands.Actions.{Action}
use kafka_utils.Commands.Kept.{Extracted}
use kafka_utils.Commands.Extract.{extract_actions_unique_topics-Extracted}
use kafka_utils.Commands.Pool.{over_zero}
use kafka_utils.Commands.Parts.{Each-part, Each-lookup}
use kafka_utils.Commands.Reduce.{
  size_of, negative_size, size_limit, reduced_actions, get_reduced_assignment,
}
use kafka_utils.Commands.Changes.{
  IsMove, IsSwap, InBoth, Proposed, partition_change_count_lem, leaders_changes_lem, proposals_lem,
}
use kafka_utils.Commands.Bounded.{IsReduced, names_of, reduced, Each-both}

module _ (original_assignment : Assignment) (cluster_topology : Topology)
    (max_partition_movements max_leader_only_changes : ℤ) (max_movement_size : Option ℤ) where
  abbrev new_assignment : Assignment
  new_assignment = assignment cluster_topology

  both_found :
      IsDict original_assignment
      → Each (λ e. (v : List ℕ) × (lookup e.0 new_assignment ≡ some v)) original_assignment
      → InBoth original_assignment new_assignment original_assignment
  both_found d h = Each-both _ _ original_assignment (Each-lookup original_assignment d) h

  reduced_actions-Extracted :
      (counts : List Action)
      → Returns
          (Extracted
            (size_of cluster_topology)
            (pos_part max_partition_movements)
            (size_limit max_movement_size)
            counts)
          (reduced_actions original_assignment cluster_topology max_partition_movements
            max_leader_only_changes max_movement_size false counts)
  unfolding reduced_actions
  reduced_actions-Extracted counts =
      Returns-bind (Extracted _ _ _ counts) (Extracted _ _ _ counts) _ _
        (extract_actions_unique_topics-Extracted (size_of cluster_topology)
          (pos_part max_partition_movements) (size_limit max_movement_size) counts)
        (λ actions x.
          let unforced : (is_nil actions && false) ≡ false = ground arith in rw unforced x)

  -- Without forced progress, and if the original assignment is a dictionary of which every key is
  -- in the new one, the reduced assignment is returned. Each of its entries is the new one and
  -- differs from the original one; the replica movements, the bytes of the partitions of which the
  -- set of replicas changes, and the entries that only change the order are within their limits.
  pub get_reduced_assignment-IsReduced :
      IsDict original_assignment
      → Each (λ e. (v : List ℕ) × (lookup e.0 new_assignment ≡ some v)) original_assignment
      → Returns
          (IsReduced original_assignment new_assignment
            (size_of cluster_topology)
            (pos_part max_partition_movements)
            (pos_part max_leader_only_changes)
            (size_limit max_movement_size))
          (get_reduced_assignment original_assignment cluster_topology max_partition_movements
            max_leader_only_changes max_movement_size false)
  unfolding get_reduced_assignment
  get_reduced_assignment-IsReduced d h =
      let Good =
        IsReduced original_assignment new_assignment (size_of cluster_topology)
          (pos_part max_partition_movements) (pos_part max_leader_only_changes)
          (size_limit max_movement_size) in
      let found = both_found d h in
      let early =
        is_nil original_assignment
        || is_nil new_assignment
        || is_negative max_partition_movements
        || is_negative max_leader_only_changes
        || negative_size max_movement_size in
      elim (Bool-cases early) [
        | inl e ↦
            rw (e, get_reduced_assignment)
              (record {
                changes = tt;
                few_moves = omega arith;
                small = over_zero (size_limit max_movement_size);
                few_swaps = omega arith;
              })
        | inr e ↦
            rw (e, get_reduced_assignment)
              (Returns-bind (Each (IsSwap original_assignment new_assignment)) Good _ _
                (leaders_changes_lem original_assignment new_assignment original_assignment found)
                (λ leaders swapped.
                  Returns-bind (Each (IsMove original_assignment new_assignment)) Good _ _
                    (partition_change_count_lem original_assignment new_assignment
                      original_assignment found)
                    (λ counts moved.
                      Returns-bind (Extracted _ _ _ counts) Good _ _
                        (reduced_actions-Extracted counts)
                        (λ names x.
                          Returns-bind (Proposed original_assignment new_assignment names) Good _ _
                            (proposals_lem original_assignment new_assignment names (
                              subst (Each _) (sym x.named) (
                                Each-map _ _ (λ k m. (m.1, m.3)) _
                                  (names_of original_assignment new_assignment
                                    (size_of cluster_topology) x.chosen
                                    (Each-part _ counts x.chosen x.others x.split moved)))))
                            (λ changed proposed.
                              reduced original_assignment new_assignment (size_of cluster_topology)
                                _ _ _ counts names changed leaders moved x proposed swapped)))))
      ]
