-- ===== src/Cluster/Balancer/Decommission/Marked.antt =====
-- From the ids of brokers to a cluster without their replicas.
use kafka_utils.Base.{
  ℕ, ◌≤◌, List, [], ◌∷◌, ◌++◌, true, ◌==◌, Option, none, some, lookup, nat_eq, broker_decommission,
  Returns, Returns-map, length, count, contains, Each, Bool-cases, ◌≡◌, ◌≢◌, refl, sym, ap, subst,
  ◌∙◌, arith, inl, inr, Each-map,
}
use kafka_utils.Cluster.Objects.{Store, partitions}
use kafka_utils.Cluster.Partition.{replication_factor}
use kafka_utils.Cluster.Broker.{IsLinked, mark_decommissioned}
use kafka_utils.Cluster.Group.{brokers}
use kafka_utils.Cluster.Topology.{Topology}
use kafka_utils.Cluster.Balancer.Decommission.{mark_each, decommission_brokers}
use kafka_utils.Cluster.Balancer.Decommission.Emptied.{
  Yields, Yields-returned, Yields-map, IsDrained,
}
use kafka_utils.Base.{any_of, Each-append, Eq, option_eq}
use kafka_utils.Cluster.Balancer.Decommission.{add_group}
use kafka_utils.Cluster.Balancer.Decommission.Decommissioned.{
  OncePerGroup, OncePerGroup-groups, Member, EmptyIn, decommission_groups_lem,
}

abbrev group_eq : Eq (Option ℕ)
group_eq = option_eq

Member-any_of :
    (g : Option ℕ) (gs : List (Option ℕ)) → any_of (group_eq.beq g) gs ≡ true → Member g gs
Member-any_of g [] h = cc
Member-any_of g (x ∷ gs) h = elim (Bool-cases (group_eq.beq g x)) [
  | inl e ↦ inl ((group_eq.beq_iff g x).0 e)
  | inr e ↦ inr (Member-any_of g gs (rw e at h))
]

Member-append : (g x : Option ℕ) (gs : List (Option ℕ)) → Member g gs → Member g (gs ++ x ∷ [])
Member-append g x [] h = absurd h
Member-append g x (y ∷ gs) h = elim h [ inl e ↦ inl e | inr k ↦ inr (Member-append g x gs k) ]

Member-last : (g : Option ℕ) (gs : List (Option ℕ)) → Member g (gs ++ g ∷ [])
Member-last g [] = inl refl
Member-last g (y ∷ gs) = inr (Member-last g gs)

-- A group is added, and the others stay.
add_group_lem :
    (g : Option ℕ) (gs : List (Option ℕ))
    → g ≢ none
    → Each (λ x. x ≢ none) gs
    → Member g (add_group g gs)
      × ((x : Option ℕ) → Member x gs → Member x (add_group g gs))
      × Each (λ x. x ≢ none) (add_group g gs)
add_group_lem g gs n h = elim (Bool-cases (any_of (group_eq.beq g) gs)) [
  | inl e ↦ rw e (Member-any_of g gs e, λ x m. m, h)
  | inr e ↦
      rw e (Member-last g gs, λ x m. Member-append x g gs m, Each-append _ gs (g ∷ []) h (n, tt))
]

-- A broker of the cluster that stands in its own group.
abbrev pub Placed : Topology → Store → ℕ → Type 0
Placed c s i =
    (b : ℕ) × (g : ℕ) × (lookup i c.brokers ≡ some b)
    × ((s.broker b).replication_group ≡ some g)
    × (contains b (brokers s g) ≡ true)

record Marked (c : Topology) (s : Store) (gs : List (Option ℕ)) (ids : List ℕ)
    (r : Store × List (Option ℕ)) : Type 0 where
  lists : (b : ℕ) → partitions r.0 b ≡ partitions s b
  same : r.0.partition ≡ s.partition
  groups : r.0.group ≡ s.group
  stay : (b : ℕ) → (s.broker b).decommissioned ≡ true → (r.0.broker b).decommissioned ≡ true
  owned : Each (λ x. x ≢ none) r.1
  keeps : (x : Option ℕ) → Member x gs → Member x r.1
  marks :
      Each
        (λ i.
          (b : ℕ) × (g : ℕ) × (lookup i c.brokers ≡ some b)
          × ((r.0.broker b).decommissioned ≡ true)
          × (contains b (brokers s g) ≡ true)
          × Member (some g) r.1)
        ids

mark_lem :
    (s : Store) (b a : ℕ)
    → (partitions (mark_decommissioned s b) a ≡ partitions s a)
      × (((mark_decommissioned s b).broker a).replication_group ≡ (s.broker a).replication_group)
      × ((s.broker a).decommissioned ≡ true
          → ((mark_decommissioned s b).broker a).decommissioned ≡ true)
mark_lem s b a = elim (Bool-cases (a == b)) [
  | inl e ↦
      let same : a ≡ b = ground arith in
      rw (e, partitions)
        (
          ap (partitions s) (sym same),
          ap (λ x. (s.broker x).replication_group) (sym same),
          λ h. refl,
        )
  | inr e ↦ rw (e, partitions) (refl, refl, λ h. h)
]

mark_each_lem :
    (c : Topology) (s : Store) (gs : List (Option ℕ)) (ids : List ℕ)
    → Each (λ x. x ≢ none) gs
    → Each (Placed c s) ids
    → Returns (Marked c s gs ids) (mark_each c s gs ids)
unfolding mark_each
mark_each_lem c s gs [] o h = record {
  lists = λ b. refl;
  same = refl;
  groups = refl;
  stay = λ b e. e;
  owned = o;
  keeps = λ x m. m;
  marks = tt;
}
mark_each_lem c s gs (i ∷ is) o ((b, g, found, own, within), h) =
    let (here, kept, fine) = add_group_lem (s.broker b).replication_group gs (λ e. cc) o in
    rw (found, mark_each)
      (Returns-map
        (Marked c (mark_decommissioned s b) (add_group (s.broker b).replication_group gs) is)
        (Marked c s gs (i ∷ is)) _
        (λ r k. record {
          lists = λ a. k.lists a ∙ (mark_lem s b a).0;
          same = k.same;
          groups = k.groups;
          stay = λ a e. k.stay a ((mark_lem s b a).2 e);
          owned = k.owned;
          keeps = λ x m. k.keeps x (kept x m);
          marks = (
            (
              b,
              g,
              found,
              k.stay b (ground arith),
              within,
              k.keeps (some g)
                  (subst (λ x. Member x (add_group (s.broker b).replication_group gs)) own here),
            ),
            k.marks,
          );
        })
        (mark_each_lem c (mark_decommissioned s b) (add_group (s.broker b).replication_group gs) is
          fine (Each-map _ _ (λ j x. (x.0, x.1, x.2, (mark_lem s b x.0).1 ∙ x.3, x.4)) is h)))

Marked-IsLinked :
    (c : Topology) (s : Store) (gs : List (Option ℕ)) (ids : List ℕ) (r : Store × List (Option ℕ))
    → Marked c s gs ids r
    → IsLinked s
    → IsLinked r.0
Marked-IsLinked c s gs ids r m v = record {
  linked = λ b p.
      ap (count p) (m.lists b) ∙ v.linked b p ∙ ap (λ f. count b (f p).replicas) (sym m.same);
  distinct = λ b p. subst (λ f. count b (f p).replicas ≤ 1) (sym m.same) (v.distinct b p);
}

-- What a decommission leaves: the brokers of the ids are marked and empty.
pub record IsDecommissioned (c : Topology) (s : Store) (ids : List ℕ) (t : Store) : Type 0 where
  pub views : IsLinked t
  pub factor : (p : ℕ) → replication_factor t p ≡ replication_factor s p
  pub emptied :
      Each
        (λ i.
          (b : ℕ) × (lookup i c.brokers ≡ some b)
          × ((t.broker b).decommissioned ≡ true)
          × (partitions t b ≡ []))
        ids

empty_of : (xs : List ℕ) → length xs ≡ 0 → xs ≡ []
empty_of [] h = refl
empty_of (x ∷ xs) h = absurd (omega arith)

-- In a linked cluster whose groups list no broker twice, with ids of brokers that stand in their
-- groups: `decommission_brokers` ends. Either it returns, with the brokers marked and without any
-- partition and every partition with as many replicas as before, or it raises
-- BrokerDecommissionError, and no other exception.
pub decommission_brokers-IsDecommissioned :
    (c : Topology) (s : Store) (ids : List ℕ)
    → IsLinked s
    → OncePerGroup s
    → Each (Placed c s) ids
    → Yields
        (IsDecommissioned c s ids)
        (λ e. e ≡ broker_decommission)
        (decommission_brokers c s ids)
unfolding decommission_brokers EmptyIn
decommission_brokers-IsDecommissioned c s ids v once placed =
    Yields-returned (Marked c s [] ids) (IsDecommissioned c s ids) (λ e. e ≡ broker_decommission) _
      _ (mark_each_lem c s [] ids tt placed)
      (λ r m.
        Yields-map (λ t. IsDrained r.0 t × EmptyIn r.0 t r.1) (IsDecommissioned c s ids)
          (λ e. e ≡ broker_decommission) _
          (λ t k. record {
            views = k.0.views;
            factor = λ p. k.0.factor p ∙ ap (λ f. length (f p).replicas) m.same;
            emptied =
                Each-map _ _
                  (λ i x. (
                    x.0,
                    x.2,
                    (k.0.flags x.0).0 ∙ x.3,
                    empty_of (partitions t x.0) (
                        k.1 x.1 x.0 x.5
                          (subst (λ f. contains x.0 (f x.1).brokers ≡ true) (sym m.groups) x.4)
                          x.3),
                  ))
                  ids m.marks;
          })
          (decommission_groups_lem c r.0 r.1 (Marked-IsLinked c s [] ids r m v)
            (OncePerGroup-groups s r.0 m.groups once) m.owned))
