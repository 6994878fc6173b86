-- ===== src/Cluster/Group/Rebalance/Rebalanced.antt =====
-- What `rebalance_brokers` keeps.
use kafka_utils.Base.{ℕ, ◌≤◌, List, true, false, ◌≡◌, refl, arith, contains, sum_of, ◌∙◌, ap}
use kafka_utils.Cluster.Objects.{Store, Broker, Partition, partitions, replicas}
use kafka_utils.Cluster.Partition.{replication_factor}
use kafka_utils.Cluster.Broker.{IsLinked}
use kafka_utils.Cluster.Group.Elect.{load}

-- What a rebalancing of the brokers `bs` keeps: it changes the replicas of partitions and the sets of
-- the brokers in `bs` alone, and a decommissioned broker gets no partition that it did not have.
pub record IsRebalanced (bs : List ℕ) (s t : Store) : Type 0 where
  pub views : IsLinked t
  pub factor : (p : ℕ) → replication_factor t p ≡ replication_factor s p
  pub sums : sum_of (load t) bs ≡ sum_of (load s) bs
  pub outside : (b : ℕ) → contains b bs ≡ false → t.broker b ≡ s.broker b
  pub flags :
      (b : ℕ)
      → ((t.broker b).decommissioned ≡ (s.broker b).decommissioned)
        × ((t.broker b).inactive ≡ (s.broker b).inactive)
  pub leaving : (b : ℕ) → (s.broker b).decommissioned ≡ true → load t b ≤ load s b
  pub gains_none :
      (b q : ℕ)
      → (s.broker b).decommissioned ≡ true
      → contains q (partitions t b) ≡ true
      → contains q (partitions s b) ≡ true
  pub only_partitions : (b : ℕ) → t.broker b ≡ record (s.broker b) { partitions = partitions t b }
  pub only_replicas : (p : ℕ) → t.partition p ≡ record (s.partition p) { replicas = replicas t p }
  pub topics : t.topic ≡ s.topic
  pub groups : t.group ≡ s.group

pub IsRebalanced-refl : (bs : List ℕ) (s : Store) → IsLinked s → IsRebalanced bs s s
IsRebalanced-refl bs s v = record {
  views = v;
  factor = λ p. refl;
  sums = refl;
  outside = λ b e. refl;
  flags = λ b. (refl, refl);
  leaving = λ b e. omega arith;
  gains_none = λ b q e h. h;
  only_partitions = λ b. refl;
  only_replicas = λ p. refl;
  topics = refl;
  groups = refl;
}

pub IsRebalanced-trans :
    {bs : List ℕ} {s t u : Store} → IsRebalanced bs s t → IsRebalanced bs t u → IsRebalanced bs s u
IsRebalanced-trans {u = u} h k = record {
  views = k.views;
  factor = λ p. k.factor p ∙ h.factor p;
  sums = k.sums ∙ h.sums;
  outside = λ b e. k.outside b e ∙ h.outside b e;
  flags = λ b. ((k.flags b).0 ∙ (h.flags b).0, (k.flags b).1 ∙ (h.flags b).1);
  leaving = λ b e. omega (arith, k.leaving b ((h.flags b).0 ∙ e), h.leaving b e);
  gains_none = λ b q e m. h.gains_none b q e (k.gains_none b q ((h.flags b).0 ∙ e) m);
  only_partitions = λ b.
      k.only_partitions b
      ∙ ap (λ (x : Broker). record x { partitions = partitions u b }) (h.only_partitions b);
  only_replicas = λ p.
      k.only_replicas p
      ∙ ap (λ (x : Partition). record x { replicas = replicas u p }) (h.only_replicas p);
  topics = k.topics ∙ h.topics;
  groups = k.groups ∙ h.groups;
}
