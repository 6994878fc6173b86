-- ===== src/Cluster/Broker/Moves.antt =====
-- What moving a partition and swapping its leader do to the linked views.
use kafka_utils.Base.{
  ℕ, List, [], ◌∷◌, ◌++◌, true, false, if◌then◌else◌, ok, raise, value_error, assertion_error, ◌≡◌,
  refl, sym, ◌∙◌, arith, count, contains, erase, length-append, contains-count, length-erase, ◌≢◌,
  Returns, not, ◌&&◌, ◌==◌, Bool-cases, inl, inr, count-erase, subst, ap,
}
use kafka_utils.Cluster.Objects.{Store, Partition, replicas, partitions}
use kafka_utils.Cluster.Partition.{leader, first, replication_factor, swap_leader, swap_first-count}
use kafka_utils.Cluster.Broker.Calls.{move_partition}
use kafka_utils.Cluster.Broker.Links.{
  IsLinked, removed, added, removed-IsLinked, added-IsLinked, remove_partition_lem,
  add_partition_lem,
}

abbrev pub moved : Store → ℕ → ℕ → ℕ → Store
moved s b p dest = added (removed s b p) dest p

-- A move between two brokers.
move_apart :
    (s : Store) (b p dest : ℕ)
    → IsLinked s
    → b ≢ dest
    → move_partition s b p dest ≡ (
        if contains p (partitions s b)
        then (if contains p (partitions s dest)
            then raise assertion_error
            else ok (moved s b p dest))
        else raise value_error)
unfolding move_partition
move_apart s b p dest v ne =
    ground (arith, remove_partition_lem s b p v, add_partition_lem (removed s b p) dest p)

-- A broker that has given up a partition lists it no more.
removed-absent :
    (s : Store) (b p : ℕ) → IsLinked s → contains p (partitions (removed s b p) b) ≡ false
removed-absent s b p v = ground (
  arith,
  contains-count p (erase p (partitions s b)),
  count-erase p p (partitions s b),
  v.linked b p,
  v.distinct b p,
)

-- A move from a broker to itself.
move_same :
    (s : Store) (b p : ℕ)
    → IsLinked s
    → move_partition s b p b
      ≡ (if contains p (partitions s b) then ok (moved s b p b) else raise value_error)
unfolding move_partition
move_same s b p v = ground (
  arith,
  remove_partition_lem s b p v,
  add_partition_lem (removed s b p) b p,
  removed-absent s b p v,
)

-- All outcomes of a move on linked views: ValueError if the source lacks the partition, and
-- AssertionError if it has it and another broker, the destination, has it as well. In every other
-- case, the move from a broker to itself included, the source is taken out of the replicas, in place,
-- and the destination is put behind them.
pub move_partition_lem :
    (s : Store) (b p dest : ℕ)
    → IsLinked s
    → move_partition s b p dest ≡ (
        if contains p (partitions s b)
        then (if not (b == dest) && contains p (partitions s dest)
            then raise assertion_error
            else ok (moved s b p dest))
        else raise value_error)
move_partition_lem s b p dest v = elim (Bool-cases (b == dest)) [
  | inl e ↦
      let same : b ≡ dest = ground arith in
      subst
        (λ d. move_partition s b p d ≡ (
          if contains p (partitions s b)
          then (if not (b == d) && contains p (partitions s d)
              then raise assertion_error
              else ok (moved s b p d))
          else raise value_error))
        same (ground (arith, move_same s b p v))
  | inr e ↦ ground (arith, move_apart s b p dest v (λ f. ground arith))
]

pub record IsMoved (s : Store) (b p dest : ℕ) (t : Store) : Type 0 where
  pub views : IsLinked t
  pub target : replicas t p ≡ erase b (replicas s p) ++ dest ∷ []
  pub factor : replication_factor t p ≡ replication_factor s p
  pub taken : partitions t b ≡ erase p (partitions s b)
  pub given : partitions t dest ≡ p ∷ partitions s dest
  pub flags :
      (c : ℕ)
      → ((t.broker c).decommissioned ≡ (s.broker c).decommissioned)
        × ((t.broker c).inactive ≡ (s.broker c).inactive)
        × ((t.broker c).revoked_leadership ≡ (s.broker c).revoked_leadership)
        × ((t.broker c).replication_group ≡ (s.broker c).replication_group)
  pub topics : t.topic ≡ s.topic
  pub groups : t.group ≡ s.group
  pub topic_of : (q : ℕ) → (t.partition q).topic ≡ (s.partition q).topic
  pub other_partition : (q : ℕ) → q ≢ p → t.partition q ≡ s.partition q
  pub other_broker : (c : ℕ) → c ≢ b → c ≢ dest → t.broker c ≡ s.broker c
  pub only_replicas : (q : ℕ) → t.partition q ≡ record (s.partition q) { replicas = replicas t q }
  pub only_partitions : (c : ℕ) → t.broker c ≡ record (s.broker c) { partitions = partitions t c }

module _ (s : Store) (b p dest : ℕ) (v : IsLinked s) (held : contains p (partitions s b) ≡ true)
    (new : contains p (partitions s dest) ≡ false) where
  moved-ne : b ≢ dest
  moved-ne e = cc (rw e at held)

  moved-IsLinked : IsLinked (moved s b p dest)
  moved-IsLinked =
      added-IsLinked (removed s b p) dest p (removed-IsLinked s b p v)
        (let ne = moved-ne in ground arith)

  moved-target : replicas (moved s b p dest) p ≡ erase b (replicas s p) ++ dest ∷ []
  moved-target = ground arith

  moved-factor : replication_factor (moved s b p dest) p ≡ replication_factor s p
  moved-factor = rw moved-target (
      ground (
        arith,
        length-append (erase b (replicas s p)) (dest ∷ []),
        length-erase b (replicas s p),
        contains-count p (partitions s b),
        v.linked b p,
      ))

  moved-IsMoved : IsMoved s b p dest (moved s b p dest)
  moved-IsMoved = record {
    views = moved-IsLinked;
    target = moved-target;
    factor = moved-factor;
    taken = let ne = moved-ne in ground arith;
    given = let ne = moved-ne in ground arith;
    flags = λ c. (ground arith, ground arith, ground arith, ground arith);
    topics = refl;
    groups = refl;
    topic_of = λ q. ground arith;
    other_partition = λ q ne. ground arith;
    other_broker = λ c ne ne'. ground arith;
    only_replicas = λ q. ground arith;
    only_partitions = λ c. ground arith;
  }

-- On linked views the move of a partition from a broker that lists it to one that does not
-- succeeds: the views stay linked, the replicas are the old ones without the source and with the
-- destination at the end, as many as before. The partition leaves the source's set and enters the
-- destination's. No flag of a broker, no topic, no group, no other partition and no third broker
-- changes.
pub move_partition-IsMoved :
    (s : Store) (b p dest : ℕ)
    → IsLinked s
    → contains p (partitions s b) ≡ true
    → contains p (partitions s dest) ≡ false
    → Returns (IsMoved s b p dest) (move_partition s b p dest)
move_partition-IsMoved s b p dest v held new =
    rw (move_apart s b p dest v (moved-ne s b p dest v held new), held, new)
      (moved-IsMoved s b p dest v held new)

-- What a swap of leaders keeps: everything but the order of the replicas.
pub record IsReordered (s t : Store) : Type 0 where
  pub brokers : t.broker ≡ s.broker
  pub topics : t.topic ≡ s.topic
  pub groups : t.group ≡ s.group
  pub members : (p b : ℕ) → count b (replicas t p) ≡ count b (replicas s p)
  pub measures :
      (p : ℕ)
      → ((t.partition p).weight ≡ (s.partition p).weight)
        × ((t.partition p).size ≡ (s.partition p).size)
        × ((t.partition p).topic ≡ (s.partition p).topic)
  pub only_order : (p : ℕ) → t.partition p ≡ record (s.partition p) { replicas = replicas t p }

pub IsReordered-refl : (s : Store) → IsReordered s s
IsReordered-refl s = record {
  brokers = refl;
  topics = refl;
  groups = refl;
  members = λ p b. refl;
  measures = λ p. (refl, refl, refl);
  only_order = λ p. refl;
}

pub IsReordered-trans : {s t u : Store} → IsReordered s t → IsReordered t u → IsReordered s u
IsReordered-trans {u = u} h k = record {
  brokers = k.brokers ∙ h.brokers;
  topics = k.topics ∙ h.topics;
  groups = k.groups ∙ h.groups;
  members = λ p b. k.members p b ∙ h.members p b;
  measures = λ p. (
    (k.measures p).0 ∙ (h.measures p).0,
    (k.measures p).1 ∙ (h.measures p).1,
    (k.measures p).2 ∙ (h.measures p).2,
  );
  only_order = λ p.
      k.only_order p
      ∙ ap (λ (x : Partition). record x { replicas = replicas u p }) (h.only_order p);
}

pub IsReordered-IsLinked : {s t : Store} → IsReordered s t → IsLinked s → IsLinked t
IsReordered-IsLinked h v = record {
  linked = λ b p. rw h.brokers (v.linked b p ∙ sym (h.members p b));
  distinct = λ b p. rw (h.members p b) (v.distinct b p);
}

pub first-contains : (a : ℕ) (xs : List ℕ) → contains a xs ≡ true → (l : ℕ) × (first xs ≡ ok l)
unfolding contains
first-contains a [] h = cc
first-contains a (x ∷ xs) h = (x, refl)

abbrev pub IsSwapped : Store → ℕ → ℕ → Store × ℕ → Type 0
IsSwapped s p new r =
    IsReordered s r.0
    × (leader r.0 p ≡ ok new)
    × (leader s p ≡ ok r.1)
    × ((q : ℕ) → q ≢ p → replicas r.0 q ≡ replicas s q)

-- A member of the replicas becomes the leader, and the former leader is returned. Only the order
-- of the replicas of this partition changes.
pub swap_leader-IsSwapped :
    (s : Store) (p new : ℕ)
    → contains new (replicas s p) ≡ true
    → Returns (IsSwapped s p new) (swap_leader s p new)
unfolding swap_leader
swap_leader-IsSwapped s p new h =
    let (old, e) = first-contains new (replicas s p) h in
    rw (h, e)
      (
        record {
          brokers = refl;
          topics = refl;
          groups = refl;
          members = λ q b. ground (arith, swap_first-count b new (replicas s p) h);
          measures = λ q. (ground arith, ground arith, ground arith);
          only_order = λ q. ground arith;
        },
        ground (arith, swap_first-count 0 new (replicas s p) h),
        e,
        λ q ne. ground arith,
      )
