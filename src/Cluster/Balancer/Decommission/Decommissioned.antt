-- ===== src/Cluster/Balancer/Decommission/Decommissioned.antt =====
-- The whole of `decommission_brokers`.
use kafka_utils.Base.{
  ℕ, ◌≤◌, List, [], ◌∷◌, true, Option, none, some, nat_eq, raise, broker_decommission,
  empty_replication_group, Returns, Returns-value, count, contains, contains-Each, Each, ◌≡◌, ◌≢◌,
  refl, sym, ap, subst, ◌∙◌, arith, ◌⊎◌, inl, inr, Each-map,
}
use kafka_utils.Cluster.Objects.{Store}
use kafka_utils.Cluster.Broker.{IsLinked}
use kafka_utils.Cluster.Group.{brokers, load}
use kafka_utils.Cluster.Group.Rebalance.{rebalance_brokers}
use kafka_utils.Cluster.Group.Rebalance.Rebalanced.{IsRebalanced}
use kafka_utils.Cluster.Group.Rebalance.Total.{rebalance_brokers_total}
use kafka_utils.Cluster.Topology.{Topology}
use kafka_utils.Cluster.Balancer.Decommission.{
  try_rebalance, decommission_brokers_in_group, decommission_groups,
}
use kafka_utils.Cluster.Group.Rebalance.Start.{active, active-mem}
use kafka_utils.Cluster.Balancer.Decommission.Emptied.{
  Yields, Yields-bind, Yields-returned, Yields-map, IsDrained, IsDrained-refl, IsDrained-trans,
  IsRebalanced-IsDrained, AllEmpty, decommission_each_lem,
}

-- No broker stands in a group twice.
abbrev pub OncePerGroup : Store → Type 0
OncePerGroup s = (g b : ℕ) → count b (brokers s g) ≤ 1

-- Membership, in a list of groups.
abbrev pub Member : Option ℕ → List (Option ℕ) → Type 0
Member g [] = ⊥
Member g (x ∷ xs) = (g ≡ x) ⊎ Member g xs

list_cases : (xs : List ℕ) → (xs ≡ []) ⊎ (b : ℕ) × (contains b xs ≡ true)
unfolding contains
list_cases [] = inl refl
list_cases (x ∷ xs) = inr (x, ground arith)

rebalance_empty :
    (s : Store) (g : ℕ) → active s g ≡ [] → rebalance_brokers s g ≡ raise empty_replication_group
unfolding rebalance_brokers
rebalance_empty s g e = rw e refl

try_rebalance_lem :
    (s : Store) (g : ℕ) → IsLinked s → OncePerGroup s → Returns (IsDrained s) (try_rebalance s g)
unfolding try_rebalance
try_rebalance_lem s g v once = elim (list_cases (active s g)) [
  | inl e ↦ rw (rebalance_empty s g e, try_rebalance) (IsDrained-refl s v)
  | inr (b, m) ↦
      let (t, e, r) = Returns-value (IsRebalanced (brokers s g) s) (rebalance_brokers s g) (
        rebalance_brokers_total s g b v (once g) (ground (arith, active-mem s g b))
          (ground (arith, active-mem s g b)) (ground (arith, active-mem s g b))) in
      rw (e, try_rebalance) (IsRebalanced-IsDrained (brokers s g) s t r)
]

decommission_brokers_in_group_lem :
    (c : Topology) (s : Store) (g : ℕ)
    → IsLinked s
    → OncePerGroup s
    → Yields
        (λ t. IsDrained s t × AllEmpty s t (brokers s g))
        (λ e. e ≡ broker_decommission)
        (decommission_brokers_in_group c s g)
unfolding decommission_brokers_in_group
decommission_brokers_in_group_lem c s g v once =
    Yields-returned (IsDrained s) (λ t. IsDrained s t × AllEmpty s t (brokers s g))
      (λ e. e ≡ broker_decommission) _ _ (try_rebalance_lem s g v once)
      (λ s' d.
        Yields-map (λ t. IsDrained s' t × AllEmpty s' t (brokers s' g))
          (λ t. IsDrained s t × AllEmpty s t (brokers s g)) (λ e. e ≡ broker_decommission) _
          (λ t k. (
            IsDrained-trans s s' t d k.0,
            subst (AllEmpty s t) (ap (λ f. (f g).brokers) d.groups)
                (Each-map _ _ (λ b h e. h ((d.flags b).0 ∙ e)) (brokers s' g) k.1),
          ))
          (decommission_each_lem c s' (brokers s' g) d.views))

-- The members of groups are kept apart.
pub OncePerGroup-groups : (s t : Store) → t.group ≡ s.group → OncePerGroup s → OncePerGroup t
OncePerGroup-groups s t e once g b = subst (λ f. count b (f g).brokers ≤ 1) (sym e) (once g b)

-- Every broker that is to leave is empty, if its group is among the given ones.
unfoldable pub EmptyIn : Store → Store → List (Option ℕ) → Type 0
EmptyIn s t gs =
    (g b : ℕ)
    → Member (some g) gs
    → contains b (brokers s g) ≡ true
    → (s.broker b).decommissioned ≡ true
    → load t b ≡ 0

pub decommission_groups_lem :
    (c : Topology) (s : Store) (gs : List (Option ℕ))
    → IsLinked s
    → OncePerGroup s
    → Each (λ g. g ≢ none) gs
    → Yields
        (λ t. IsDrained s t × EmptyIn s t gs)
        (λ e. e ≡ broker_decommission)
        (decommission_groups c s gs)
unfolding decommission_groups EmptyIn
decommission_groups_lem c s [] v once h = (IsDrained-refl s v, λ g b m n d. absurd m)
decommission_groups_lem c s (none ∷ gs) v once h = absurd (h.0 refl)
decommission_groups_lem c s (some g ∷ gs) v once h =
    Yields-bind (λ t. IsDrained s t × AllEmpty s t (brokers s g))
      (λ t. IsDrained s t × EmptyIn s t (some g ∷ gs)) (λ e. e ≡ broker_decommission) _ _
      (decommission_brokers_in_group_lem c s g v once)
      (λ s' d.
        Yields-map (λ t. IsDrained s' t × EmptyIn s' t gs)
          (λ t. IsDrained s t × EmptyIn s t (some g ∷ gs)) (λ e. e ≡ broker_decommission) _
          (λ t k. (
            IsDrained-trans s s' t d.0 k.0,
            λ a b m n e. elim m [
              | inl same ↦
                  let found : g ≡ a = cc in
                  let now : load s' b ≡ 0 =
                    contains-Each (λ x. (s.broker x).decommissioned ≡ true → load s' x ≡ 0)
                      (brokers s g) b d.1
                      (subst (λ x. contains b (brokers s x) ≡ true) (sym found) n) e in
                  omega (arith, now, k.0.leaving b ((d.0.flags b).0 ∙ e))
              | inr later ↦
                  k.1 a b later (subst (λ f. contains b (f a).brokers ≡ true) (sym d.0.groups) n)
                    ((d.0.flags b).0 ∙ e)
            ],
          ))
          (decommission_groups_lem c s' gs d.0.views (OncePerGroup-groups s s' d.0.groups once)
            h.1))
