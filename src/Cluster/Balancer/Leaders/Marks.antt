-- ===== src/Cluster/Balancer/Leaders/Marks.antt =====
-- The marks that `revoke_leadership` sets (cluster_info/partition_count_balancer.py).
use kafka_utils.Base.{
  ℕ, ◌≤◌, List, [], ◌∷◌, true, ◌==◌, some, lookup, nat_eq, Returns, Returns-map, count, contains,
  Each, Bool-cases, ◌≡◌, refl, sym, ap, subst, ◌∙◌, arith, ◌⊎◌, inl, inr,
}
use kafka_utils.Cluster.Objects.{Store, Broker, partitions}
use kafka_utils.Cluster.Broker.{IsLinked, mark_revoked_leadership}
use kafka_utils.Cluster.Topology.{Topology}
use kafka_utils.Cluster.Balancer.Leaders.{mark_revoked}

-- A broker of which the id was given.
abbrev pub Asked : Topology → List ℕ → ℕ → Type 0
Asked c ids b = (i : ℕ) × (contains i ids ≡ true) × (lookup i c.brokers ≡ some b)

-- A broker after the marks: as before, or one that was asked for, with the mark and no other change.
abbrev pub IsMarkedOnly : Topology → Store → List ℕ → Store → ℕ → Type 0
IsMarkedOnly c s ids t b =
    (t.broker b ≡ s.broker b)
    ⊎ Asked c ids b × (t.broker b ≡ record (s.broker b) { revoked_leadership = true })

-- The marks of the brokers.
pub record Marked (c : Topology) (s : Store) (ids : List ℕ) (t : Store) : Type 0 where
  pub marks :
      Each
        (λ i. (b : ℕ) × (lookup i c.brokers ≡ some b) × ((t.broker b).revoked_leadership ≡ true))
        ids
  pub stay :
      (b : ℕ) → (s.broker b).revoked_leadership ≡ true → (t.broker b).revoked_leadership ≡ true
  pub lists : (b : ℕ) → partitions t b ≡ partitions s b
  pub same : t.partition ≡ s.partition
  pub only : (b : ℕ) → IsMarkedOnly c s ids t b
  pub topics : t.topic ≡ s.topic
  pub groups : t.group ≡ s.group

marked_first :
    (c : Topology) (s t : Store) (i b : ℕ) (is : List ℕ)
    → lookup i c.brokers ≡ some b
    → ((a : ℕ) → IsMarkedOnly c (mark_revoked_leadership s b) is t a)
    → (a : ℕ) → IsMarkedOnly c s (i ∷ is) t a
unfolding contains
marked_first c s t i b is e later a = elim (Bool-cases (a == b)) [
  | inl at_b ↦
      let same : a ≡ b = ground arith in
      let now : (mark_revoked_leadership s b).broker a
          ≡ record (s.broker a) { revoked_leadership = true } =
        ground arith in
      inr (
        (i, ground arith, e ∙ ap some (sym same)),
        elim (later a) [
          | inl kept ↦ kept ∙ now
          | inr (asked, marked) ↦
              marked ∙ ap (λ (x : Broker). record x { revoked_leadership = true }) now
        ],
      )
  | inr other ↦
      let now : (mark_revoked_leadership s b).broker a ≡ s.broker a = ground arith in
      elim (later a) [
        | inl kept ↦ inl (kept ∙ now)
        | inr ((j, listed, found), marked) ↦ inr (
          (j, ground arith, found),
          marked ∙ ap (λ (x : Broker). record x { revoked_leadership = true }) now,
        )
      ]
]

marked_lists : (s : Store) (b a : ℕ) → partitions (mark_revoked_leadership s b) a ≡ partitions s a
marked_lists s b a = elim (Bool-cases (a == b)) [
  | inl e ↦ let same : a ≡ b = ground arith in rw (e, partitions) (ap (partitions s) (sym same))
  | inr e ↦ rw (e, partitions) refl
]

pub mark_revoked_lem :
    (c : Topology) (s : Store) (ids : List ℕ)
    → Each (λ i. (b : ℕ) × (lookup i c.brokers ≡ some b)) ids
    → Returns (Marked c s ids) (mark_revoked c s ids)
unfolding mark_revoked
mark_revoked_lem c s [] h = record {
  marks = tt;
  stay = λ b e. e;
  lists = λ b. refl;
  same = refl;
  only = λ b. inl refl;
  topics = refl;
  groups = refl;
}
mark_revoked_lem c s (i ∷ is) ((b, e), h) =
    rw (e, mark_revoked)
      (Returns-map (Marked c (mark_revoked_leadership s b) is) _ _
        (λ t k. record {
          marks = ((b, e, k.stay b (ground arith)), k.marks);
          stay = λ a f. k.stay a (ground arith);
          lists = λ a. k.lists a ∙ marked_lists s b a;
          same = k.same;
          only = marked_first c s t i b is e k.only;
          topics = k.topics;
          groups = k.groups;
        })
        (mark_revoked_lem c (mark_revoked_leadership s b) is h))

pub Marked-IsLinked :
    (c : Topology) (s t : Store) (ids : List ℕ) → Marked c s ids t → IsLinked s → IsLinked t
Marked-IsLinked c s t ids m v = record {
  linked = λ b p.
      ap (count p) (m.lists b) ∙ v.linked b p ∙ ap (λ f. count b (f p).replicas) (sym m.same);
  distinct = λ b p. subst (λ f. count b (f p).replicas ≤ 1) (sym m.same) (v.distinct b p);
}
