-- ===== src/Cluster/Topology/Replace.antt =====
-- `replace_broker` puts the destination in the place of the source, in every partition.
use kafka_utils.Base.{
  ℕ, ◌+◌, ◌≤◌, [], true, false, ◌&&◌, some, if◌then◌else◌, ◌==◌, ◌≡◌, ◌≢◌, inl, inr, refl, sym, ◌∙◌,
  ap, arith, Bool-cases, Returns, count, contains, contains-count, lookup, nat_eq,
}
use kafka_utils.Cluster.Objects.{Store, replicas, partitions}
use kafka_utils.Cluster.Partition.{replace_first}
use kafka_utils.Cluster.Broker.{IsLinked}
use kafka_utils.Cluster.Topology.{Topology, replace_in, replace_broker}
use kafka_utils.Cluster.Topology.Rounds.{
  count-replaced, count-nil, replace_in-replicas, source-after, dest-after, other-after,
}

module _ (s : Store) (source dest : ℕ) (v : IsLinked s) (ne : source ≢ dest) where
  abbrev replaced : Store
  replaced = replace_in s source dest (partitions s source)

  once : (q : ℕ) → count q (partitions s source) ≤ 1
  once q = omega (arith, v.linked source q, v.distinct source q)

  replaced-replicas : (q : ℕ) → replicas replaced q ≡ replace_first source dest (replicas s q)
  replaced-replicas =
      replace_in-replicas source dest ne (partitions s source) s (λ q. sym (v.linked source q)) once

  count-replicas :
      (b q : ℕ)
      → count b (replicas replaced q) ≡ (
          if b == source
          then 0
          else count b (replicas s q)
            + (if contains q (partitions s source) && b == dest then 1 else 0))
  count-replicas b q =
      ap (count b) (replaced-replicas q)
      ∙ ground (
        arith,
        count-replaced b source dest (replicas s q) ne (v.distinct source q),
        contains-count source (replicas s q),
        contains-count q (partitions s source),
        v.linked source q,
      )

  module _
      (apart : (q : ℕ)
        → contains q (partitions s source) ≡ true
        → contains q (partitions s dest) ≡ false) where
    replaced-linked : (b q : ℕ) → count q (partitions replaced b) ≡ count b (replicas replaced q)
    replaced-linked b q = elim (Bool-cases (b == source)) [
      | inl e ↦
          let here : b ≡ source = ground arith in
          rw (count-replicas b q, e, here, source-after source dest ne (partitions s source) s refl)
            (count-nil q)
      | inr e ↦ elim (Bool-cases (b == dest)) [
        | inl e' ↦
            let here : b ≡ dest = ground arith in
            rw
              (
                count-replicas b q,
                e,
                e',
                here,
                dest-after source dest ne (partitions s source) s once q,
              )
              (ground (arith, apart q, v.linked dest q))
        | inr e' ↦
            rw
              (
                count-replicas b q,
                e,
                e',
                other-after source dest ne (partitions s source) s b (ground arith) (ground arith),
              )
              (ground (arith, v.linked b q))
      ]
    ]

    replaced-distinct : (b q : ℕ) → count b (replicas replaced q) ≤ 1
    replaced-distinct b q = ground (
      arith,
      count-replicas b q,
      v.distinct b q,
      apart q,
      v.linked b q,
      contains-count q (partitions s dest),
    )

    replaced-IsLinked : IsLinked replaced
    replaced-IsLinked = record { linked = replaced-linked; distinct = replaced-distinct }

pub record IsReplaced (s : Store) (source dest : ℕ) (t : Store) : Type 0 where
  pub views : IsLinked t
  pub in_place : (q : ℕ) → replicas t q ≡ replace_first source dest (replicas s q)
  pub emptied : partitions t source ≡ []
  pub others : (b : ℕ) → b ≢ source → b ≢ dest → partitions t b ≡ partitions s b

-- In a linked cluster, between two different brokers of the given ids that share no partition, the
-- replacement succeeds and leaves the views linked:
-- the destination stands where the source stood in the replicas, leadership included, the source
-- has no partition left, and no third broker gains or loses one.
pub replace_broker-IsReplaced :
    (c : Topology) (source_id dest_id source dest : ℕ)
    → IsLinked c.store
    → lookup source_id c.brokers ≡ some source
    → lookup dest_id c.brokers ≡ some dest
    → source ≢ dest
    → ((q : ℕ)
        → contains q (partitions c.store source) ≡ true
        → contains q (partitions c.store dest) ≡ false)
    → Returns (λ t. IsReplaced c.store source dest t.store) (replace_broker c source_id dest_id)
unfolding replace_broker
replace_broker-IsReplaced c source_id dest_id source dest v es ed ne apart =
    rw (es, replace_broker)
      (rw ed (record {
        views = replaced-IsLinked c.store source dest v ne apart;
        in_place = replaced-replicas c.store source dest v ne;
        emptied = source-after source dest ne (partitions c.store source) c.store refl;
        others = other-after source dest ne (partitions c.store source) c.store;
      }))

-- In a linked cluster with two different brokers of the given ids, a partition that both hold
-- ends with the destination twice among its replicas, and no exception is raised.
pub replace_broker_twice :
    (c : Topology) (source_id dest_id source dest p : ℕ)
    → IsLinked c.store
    → lookup source_id c.brokers ≡ some source
    → lookup dest_id c.brokers ≡ some dest
    → source ≢ dest
    → contains p (partitions c.store source) ≡ true
    → contains p (partitions c.store dest) ≡ true
    → Returns (λ t. count dest (replicas t.store p) ≡ 2) (replace_broker c source_id dest_id)
unfolding replace_broker
replace_broker_twice c source_id dest_id source dest p v es ed ne hs hd =
    rw (es, replace_broker)
      (rw ed (
        ground (
          arith,
          count-replicas c.store source dest v ne dest p,
          v.linked dest p,
          v.distinct dest p,
          contains-count p (partitions c.store dest),
        )))
