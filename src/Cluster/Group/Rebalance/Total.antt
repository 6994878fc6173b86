-- ===== src/Cluster/Group/Rebalance/Total.antt =====
-- The rebalancing of a group ends, without an exception, and what it keeps.
use kafka_utils.Base.{
  ℕ, zero, suc, ◌≤◌, ◌<◌, List, true, false, ◌||◌, ◌&&◌, none, some, ◌≡◌, refl, arith, inl, inr,
  Bool-cases, ◌>>=◌, Returns, Returns-bind, Returns-map, Each, contains, count, contains-keep,
  is_nil, sum_of, contains-map, contains→is_nil, is_nil→length,
}
use kafka_utils.Cluster.Objects.{Store}
use kafka_utils.Cluster.Broker.{IsLinked, IsMoved, move_partition, move_partition-IsMoved}
use kafka_utils.Cluster.Group.Elect.{brokers, load, group_partitions}
use kafka_utils.Cluster.Group.Rebalance.{
  Distances, Target, sides, rounds, enough, rebalance_brokers, generate_sibling_distance,
  update_sibling_distance,
}
use kafka_utils.Cluster.Group.Rebalance.Choose.{IsMove, IsChoice, get_target_brokers_total}
use kafka_utils.Cluster.Group.Rebalance.Measure.{load-le-sum, share, share-falls}
use kafka_utils.Cluster.Group.Rebalance.Rebalanced.{
  IsRebalanced, IsRebalanced-refl, IsRebalanced-trans,
}
use kafka_utils.Cluster.Group.Rebalance.Start.{
  share-le, group_partitions-mem, blacklist, active, topics, active-mem, generate-Covers,
}
use kafka_utils.Cluster.Group.Rebalance.Steady.{
  Roster, Steady, Covers, IsSource, IsDest, AreSides, sides_total, defined, apart,
  moved-IsRebalanced, moved-Steady, update-Covers,
}

module _ (bs active blacklist topics : List ℕ) (total : ℕ)
    (roster : Roster bs active blacklist topics) where
  abbrev Ends : ℕ → Type 0
  Ends n =
      (s : Store) (ds : Distances) (over under : List ℕ)
      → (Steady bs active blacklist topics total roster) s
      → (Covers bs active blacklist topics total roster) ds
      → Each (IsSource bs active blacklist topics total roster) over
      → Each (IsDest bs active blacklist topics total roster) under
      → sum_of (share total s) bs < n
      → Returns (IsRebalanced bs s) (rounds active blacklist total n s ds over under)

  -- The rest of a round, once a move is chosen.
  move_on :
      (n : ℕ) (s : Store) (ds : Distances) (m : Target)
      (st : (Steady bs active blacklist topics total roster) s)
      (c : (Covers bs active blacklist topics total roster) ds)
      → Ends n
      → sum_of (share total s) bs < suc n
      → IsMove s ds
          (IsSource bs active blacklist topics total roster)
          (IsDest bs active blacklist topics total roster)
          ((defined bs active blacklist topics total roster) s ds st c)
          m
      → Returns (IsRebalanced bs s) (
          move_partition s m.source m.partition m.dest >>= λ s'.
          sides s' active blacklist total >>= λ r.
          rounds active blacklist total n s'
            (update_sibling_distance s' ds m.dest (s'.partition m.partition).topic)
            r.0
            r.1)
  move_on n s ds m st c ends f h =
      Returns-bind (IsMoved s m.source m.partition m.dest) (IsRebalanced bs s) _ _
        (move_partition-IsMoved s m.source m.partition m.dest st.views h.movable.held h.movable.new)
        (λ t mv.
          let ne =
            (apart bs active blacklist topics total roster) s m.source m.dest st h.to h.down in
          let held = h.movable.held in
          let less =
            share-falls s t m.source m.partition m.dest mv held bs total ne h.from
              (roster.active_in m.dest h.to) roster.once st.sums (st.staying m.dest h.to) h.down in
          let kept =
            (moved-IsRebalanced bs active blacklist topics total roster) s t m st mv held h.from
              h.to ne in
          Returns-bind (AreSides bs active blacklist topics total roster) (IsRebalanced bs s) _ _
            ((sides_total bs active blacklist topics total roster) t)
            (λ r k.
              Returns-map (IsRebalanced bs t) (IsRebalanced bs s) _
                (λ u later. IsRebalanced-trans kept later)
                (ends t _ r.0 r.1
                  ((moved-Steady bs active blacklist topics total roster) s t m st mv held h.from
                    h.to ne)
                  ((update-Covers bs active blacklist topics total roster) t ds m.dest
                    (t.partition m.partition).topic c)
                  k.0 k.1 (omega arith))))

  rounds_total : (n : ℕ) → Ends n
  unfolding rounds
  rounds_total zero s ds over under st c hs hd f = absurd (omega arith)
  rounds_total (suc n) s ds over under st c hs hd f =
      elim (Bool-cases (is_nil under || is_nil over)) [
        | inl e ↦ rw (e, rounds) (IsRebalanced-refl bs s st.views)
        | inr e ↦
            rw (e, rounds)
              (Returns-bind
                (IsChoice s ds (IsSource bs active blacklist topics total roster)
                  (IsDest bs active blacklist topics total roster)
                  ((defined bs active blacklist topics total roster) s ds st c))
                (IsRebalanced bs s) _ _
                (get_target_brokers_total s ds (IsSource bs active blacklist topics total roster)
                  (IsDest bs active blacklist topics total roster)
                  ((defined bs active blacklist topics total roster) s ds st c) over under hs hd)
                (elim [
                  | none ↦ λ _. IsRebalanced-refl bs s st.views
                  | some m ↦ λ h. move_on n s ds m st c (rounds_total n) f h
                ]))
      ]

-- In a linked cluster, a group that lists no broker twice and has a broker that is neither
-- inactive nor decommissioned is rebalanced: the loop ends within its fuel and nothing is raised.
-- The views stay linked, every partition keeps its replication factor, the brokers of the group
-- hold as many partitions in all as before, and no decommissioned broker gets a partition that it
-- did not have. The only changes are in the replicas of partitions and in the sets of partitions of
-- the brokers of the group: all else of a partition and of a broker, the other brokers, the topics and
-- the groups stay as they were.
pub rebalance_brokers_total :
    (s : Store) (g b : ℕ)
    → IsLinked s
    → ((c : ℕ) → count c (brokers s g) ≤ 1)
    → contains b (brokers s g) ≡ true
    → (s.broker b).inactive ≡ false
    → (s.broker b).decommissioned ≡ false
    → Returns (IsRebalanced (brokers s g) s) (rebalance_brokers s g)
unfolding rebalance_brokers
rebalance_brokers_total s g b v once hb up staying =
    let here : contains b (active s g) ≡ true = ground (arith, active-mem s g b) in
    let some_active = contains→is_nil b (active s g) here in
    let total = sum_of (load s) (brokers s g) in
    let roster : Roster (brokers s g) (active s g) (blacklist s g) (topics s g) = record {
      once = once;
      some_active = is_nil→length (active s g) some_active;
      active_in = λ c h. ground (arith, active-mem s g c);
      blacklist_in =
          λ c h. ground (arith, contains-keep c (λ d. (s.broker d).decommissioned) (brokers s g));
    } in
    let steady : Steady (brokers s g) (active s g) (blacklist s g) (topics s g) total roster s =
      record {
        views = v;
        sums = refl;
        staying = λ c h. ground (arith, active-mem s g c);
        known = λ c p hc hp.
            contains-map (λ q. (s.partition q).topic) p (group_partitions s (brokers s g))
              (group_partitions-mem s (brokers s g) c p hc hp);
      } in
    rw some_active (
      Returns-bind (AreSides (brokers s g) (active s g) (blacklist s g) (topics s g) total roster)
        (IsRebalanced (brokers s g) s) _ _
        (sides_total (brokers s g) (active s g) (blacklist s g) (topics s g) total roster s)
        (λ r k. elim (Bool-cases (is_nil r.0 && is_nil r.1)) [
          | inl e ↦ rw e (IsRebalanced-refl (brokers s g) s v)
          | inr e ↦ rw e (
              rounds_total (brokers s g) (active s g) (blacklist s g) (topics s g) total roster
                (enough total) s (generate_sibling_distance s g) r.0 r.1 steady
                (generate-Covers s g) k.0 k.1
                (let bound =
                    share-le total s (brokers s g)
                      (λ c m. load-le-sum (load s) c (brokers s g) m) in
                  omega arith))
        ]))
