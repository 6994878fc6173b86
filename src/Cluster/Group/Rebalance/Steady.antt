-- ===== src/Cluster/Group/Rebalance/Steady.antt =====
-- What stays true from round to round of `rebalance_brokers` (cluster_info/rg.py).
use kafka_utils.Base.{
  ℕ, ◌≤◌, ◌<◌, List, true, false, not, ◌&&◌, some, ◌==◌, ◌≡◌, ◌≢◌, refl, arith, inl, inr,
  Bool-cases, Returns, Returns-bind, Each, Each-append, Each-contains, Each-map, contains, count,
  contains-count, contains-keep, length, sum_of, ℤ, subst, ◌⊎◌, count-cons, count-erase, ◌∙◌, ap,
}
use kafka_utils.Cluster.Objects.{Store, Broker, Partition, partitions}
use kafka_utils.Cluster.Partition.{replication_factor}
use kafka_utils.Cluster.Broker.{IsLinked, IsMoved, empty}
use kafka_utils.Cluster.Balance.Split.{IsSplit, IsSplit-mem, separate_groups-IsSplit}
use kafka_utils.Cluster.Group.Elect.{load}
use kafka_utils.Cluster.Group.Rebalance.{Distances, Target, sides, update_sibling_distance}
use kafka_utils.Cluster.Group.Rebalance.Choose.{IsMovable, gives}
use kafka_utils.Cluster.Group.Rebalance.Measure.{load-total, load-source, load-other}
use kafka_utils.Cluster.Group.Rebalance.Rebalanced.{IsRebalanced}

-- The lists that a rebalancing computes once.
pub record Roster (bs active blacklist topics : List ℕ) : Type 0 where
  pub once : (c : ℕ) → count c bs ≤ 1
  pub some_active : 0 < length active
  pub active_in : (b : ℕ) → contains b active ≡ true → contains b bs ≡ true
  pub blacklist_in : (b : ℕ) → contains b blacklist ≡ true → contains b bs ≡ true

module _ (bs active blacklist topics : List ℕ) (total : ℕ)
    (roster : Roster bs active blacklist topics) where
  pub record Steady (s : Store) : Type 0 where
    pub views : IsLinked s
    pub sums : sum_of (load s) bs ≡ total
    pub staying : (b : ℕ) → contains b active ≡ true → (s.broker b).decommissioned ≡ false
    pub known :
        (b p : ℕ)
        → contains b bs ≡ true
        → contains p (partitions s b) ≡ true
        → contains (s.partition p).topic topics ≡ true

  abbrev pub Covers : Distances → Type 0
  Covers ds =
      (dest source t : ℕ)
      → contains dest bs ≡ true
      → contains source bs ≡ true
      → source ≢ dest
      → contains t topics ≡ true
      → (d : ℤ) × (ds.distance dest source t ≡ some d)

  abbrev pub IsSource : ℕ → Type 0
  IsSource b = contains b bs ≡ true

  abbrev pub IsDest : ℕ → Type 0
  IsDest b = contains b active ≡ true

  abbrev pub AreSides : List ℕ × List ℕ → Type 0
  AreSides r = Each IsSource r.0 × Each IsDest r.1

  pub sides_total : (s : Store) → Returns AreSides (sides s active blacklist total)
  unfolding sides
  sides_total s =
      Returns-bind (IsSplit (load s) active total) AreSides _ _
        (separate_groups-IsSplit (load s) active total roster.some_active)
        (λ r h.
          let m = IsSplit-mem (load s) active total r h in
          (
            Each-append IsSource r.0 _ (Each-map _ IsSource (λ b k. roster.active_in b k) r.0 m.0) (
                Each-contains IsSource _ (λ b k.
                  roster.blacklist_in b
                    (ground (arith, contains-keep b (λ c. not (empty s c)) blacklist)))),
            m.1,
          ))

  pub apart :
      (s : Store) (source dest : ℕ)
      → Steady s
      → IsDest dest
      → gives s source dest ≡ true
      → source ≢ dest
  apart s source dest st d g e =
      let same : gives s dest dest ≡ true = rw e at g in ground (arith, st.staying dest d)

  module _ (s t : Store) (m : Target) (st : Steady s) (mv : IsMoved s m.source m.partition m.dest t)
      (held : contains m.partition (partitions s m.source) ≡ true) (hs : IsSource m.source)
      (hd : IsDest m.dest) (ne : m.source ≢ m.dest) where
    listed_before :
        (b q : ℕ)
        → contains q (partitions t b) ≡ true
        → (contains q (partitions s b) ≡ true) ⊎ (q ≡ m.partition)
    listed_before b q h = elim (Bool-cases (b == m.dest)) [
      | inl e ↦
          let at_dest : b ≡ m.dest = ground arith in
          ground (
            arith,
            contains-count q (partitions t m.dest),
            contains-count q (partitions s m.dest),
            count-cons q m.partition (partitions s m.dest),
            mv.given,
          )
      | inr e ↦ elim (Bool-cases (b == m.source)) [
        | inl e' ↦
            let at_source : b ≡ m.source = ground arith in
            ground (
              arith,
              contains-count q (partitions t m.source),
              contains-count q (partitions s m.source),
              count-erase q m.partition (partitions s m.source),
              mv.taken,
            )
        | inr e' ↦ inl (
            subst (λ (r : Broker). contains q r.partitions ≡ true)
              (mv.other_broker b (ground arith) (ground arith)) h)
      ]
    ]

    moved-known :
        (b q : ℕ)
        → contains b bs ≡ true
        → contains q (partitions t b) ≡ true
        → contains (t.partition q).topic topics ≡ true
    moved-known b q hb hq = rw (mv.topic_of q) (elim (listed_before b q hq) [
      | inl before ↦ st.known b q hb before
      | inr now ↦ rw now (st.known m.source m.partition hs held)
    ])

    moved-sums : sum_of (load t) bs ≡ sum_of (load s) bs
    moved-sums =
        load-total s t m.source m.partition m.dest mv held bs ne hs (roster.active_in m.dest hd)
          roster.once

    pub moved-Steady : Steady t
    moved-Steady = record {
      views = mv.views;
      sums = moved-sums ∙ st.sums;
      staying = λ b h. (mv.flags b).0 ∙ st.staying b h;
      known = moved-known;
    }

    moved-factors : (p : ℕ) → replication_factor t p ≡ replication_factor s p
    moved-factors p = elim (Bool-cases (p == m.partition)) [
      | inl e ↦ let here : p ≡ m.partition = ground arith in rw here mv.factor
      | inr e ↦ ap (λ (x : Partition). length x.replicas) (mv.other_partition p (ground arith))
    ]

    moved-leaving : (b : ℕ) → (s.broker b).decommissioned ≡ true → load t b ≤ load s b
    moved-leaving b d = elim (Bool-cases (b == m.dest)) [
      | inl e ↦
          let here : b ≡ m.dest = ground arith in absurd (ground (arith, st.staying m.dest hd))
      | inr e ↦ elim (Bool-cases (b == m.source)) [
        | inl e' ↦
            let here : b ≡ m.source = ground arith in
            rw here (omega (arith, load-source s t m.source m.partition m.dest mv held))
        | inr e' ↦ omega (
          arith,
          load-other s t m.source m.partition m.dest mv held b (ground arith) (ground arith),
        )
      ]
    ]

    moved-gains_none :
        (b q : ℕ)
        → (s.broker b).decommissioned ≡ true
        → contains q (partitions t b) ≡ true
        → contains q (partitions s b) ≡ true
    moved-gains_none b q d h = elim (Bool-cases (b == m.dest)) [
      | inl e ↦
          let here : b ≡ m.dest = ground arith in absurd (ground (arith, st.staying m.dest hd))
      | inr e ↦ elim (Bool-cases (b == m.source)) [
        | inl e' ↦
            let here : b ≡ m.source = ground arith in
            ground (
              arith,
              contains-count q (partitions t m.source),
              contains-count q (partitions s m.source),
              count-erase q m.partition (partitions s m.source),
              mv.taken,
            )
        | inr e' ↦
            subst (λ (r : Broker). contains q r.partitions ≡ true)
              (mv.other_broker b (ground arith) (ground arith)) h
      ]
    ]

    pub moved-IsRebalanced : IsRebalanced bs s t
    moved-IsRebalanced = record {
      views = mv.views;
      factor = moved-factors;
      sums = moved-sums;
      outside = λ b out.
          mv.other_broker b (λ e. cc (rw e at out, hs))
            (λ e. cc (rw e at out, roster.active_in m.dest hd));
      flags = λ b. ((mv.flags b).0, (mv.flags b).1);
      leaving = moved-leaving;
      gains_none = moved-gains_none;
      only_partitions = mv.only_partitions;
      only_replicas = mv.only_replicas;
      topics = mv.topics;
      groups = mv.groups;
    }

  -- The distances that a choice reads are there.
  pub defined :
      (s : Store) (ds : Distances)
      → Steady s
      → Covers ds
      → (source dest p : ℕ) → IsSource source
      → IsDest dest
      → gives s source dest ≡ true
      → IsMovable s source dest p
      → (d : ℤ) × (ds.distance dest source (s.partition p).topic ≡ some d)
  defined s ds st c source dest p hs hd g mov =
      c dest source (s.partition p).topic (roster.active_in dest hd) hs
        (apart s source dest st hd g) (st.known source p hs mov.held)

  pub update-Covers :
      (s : Store) (ds : Distances) (dest topic : ℕ)
      → Covers ds
      → Covers (update_sibling_distance s ds dest topic)
  unfolding update_sibling_distance
  update-Covers s ds dest topic c d source t hd hs ne ht =
      let old = c d source t hd hs ne ht in
      elim (Bool-cases (d == dest && contains source (ds.sources dest) && t == topic)) [
        | inl e ↦ rw e (_, refl)
        | inr e ↦ rw e old
      ]
