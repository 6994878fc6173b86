-- ===== src/Cluster/Balancer/Decommission/Emptied.antt =====
-- What `decommission_brokers` achieves: empty brokers, or its exception.
use kafka_utils.Base.{
  ℕ, ◌≤◌, List, [], ◌∷◌, true, false, not, ◌&&◌, ◌==◌, nat_eq, Result, ok, raise, ◌>>=◌, Error,
  broker_decommission, Returns, Returns-bind, Returns-map, length, count, contains, contains-count,
  count-erase, length-erase, Each, Bool-cases, ◌≡◌, ◌≢◌, refl, ap, ◌∙◌, arith, inl, inr, Each-map,
  sorted_up,
}
use kafka_utils.Cluster.Objects.{Store, partitions}
use kafka_utils.Cluster.Partition.{replication_factor}
use kafka_utils.Cluster.Broker.{IsLinked, IsMoved, empty}
use kafka_utils.Cluster.Group.{load, count_replica}
use kafka_utils.Cluster.Group.Acquire.{acquire_partition_cases}
use kafka_utils.Cluster.Group.Rebalance.Rebalanced.{IsRebalanced}
use kafka_utils.Cluster.Topology.{Topology}
use kafka_utils.Cluster.Balancer.Decommission.{
  try_groups, reassign, force_broker_decommission, decommission_each,
}

-- A call returns with the one property, or raises with the other.
abbrev pub Yields {ℓ} : {A : Type ℓ} → (A → Type 0) → (Error → Type 0) → Result A → Type 0
Yields P Q (ok a) = P a
Yields P Q (raise e) = Q e

pub Yields-bind {ℓ κ} :
    {A : Type ℓ} {B : Type κ} (P : A → Type 0) (R : B → Type 0) (Q : Error → Type 0) (m : Result A)
    (f : A → Result B)
    → Yields P Q m
    → ((a : A) → P a → Yields R Q (f a))
    → Yields R Q (m >>= f)
Yields-bind P R Q (ok a) f h k = k a h
Yields-bind P R Q (raise e) f h k = h

pub Yields-map {ℓ} :
    {A : Type ℓ} (P R : A → Type 0) (Q : Error → Type 0) (m : Result A)
    → ((a : A) → P a → R a)
    → Yields P Q m
    → Yields R Q m
Yields-map P R Q (ok a) f h = f a h
Yields-map P R Q (raise e) f h = h

pub Yields-returned {ℓ κ} :
    {A : Type ℓ} {B : Type κ} (P : A → Type 0) (R : B → Type 0) (Q : Error → Type 0) (m : Result A)
    (f : A → Result B)
    → Returns P m
    → ((a : A) → P a → Yields R Q (f a))
    → Yields R Q (m >>= f)
Yields-returned P R Q (ok a) f h k = k a h
Yields-returned P R Q (raise e) f h k = absurd h

-- Replicas have moved, and none to a broker that is to leave.
pub record IsDrained (s t : Store) : Type 0 where
  pub views : IsLinked t
  pub factor : (p : ℕ) → replication_factor t p ≡ replication_factor s p
  pub flags :
      (b : ℕ)
      → ((t.broker b).decommissioned ≡ (s.broker b).decommissioned)
        × ((t.broker b).inactive ≡ (s.broker b).inactive)
  pub leaving : (b : ℕ) → (s.broker b).decommissioned ≡ true → load t b ≤ load s b
  pub groups : t.group ≡ s.group

pub IsDrained-refl : (s : Store) → IsLinked s → IsDrained s s
IsDrained-refl s v = record {
  views = v;
  factor = λ p. refl;
  flags = λ b. (refl, refl);
  leaving = λ b e. omega arith;
  groups = refl;
}

pub IsDrained-trans : (s t u : Store) → IsDrained s t → IsDrained t u → IsDrained s u
IsDrained-trans s t u h k = record {
  views = k.views;
  factor = λ p. k.factor p ∙ h.factor p;
  flags = λ b. ((k.flags b).0 ∙ (h.flags b).0, (k.flags b).1 ∙ (h.flags b).1);
  leaving = λ b e. omega (arith, k.leaving b ((h.flags b).0 ∙ e), h.leaving b e);
  groups = k.groups ∙ h.groups;
}

pub IsRebalanced-IsDrained : (bs : List ℕ) (s t : Store) → IsRebalanced bs s t → IsDrained s t
IsRebalanced-IsDrained bs s t r = record {
  views = r.views;
  factor = r.factor;
  flags = r.flags;
  leaving = r.leaving;
  groups = r.groups;
}

-- A move to a broker that stays.
IsMoved-IsDrained :
    (s t : Store) (b p dest : ℕ)
    → contains p (partitions s b) ≡ true
    → (s.broker dest).decommissioned ≡ false
    → IsMoved s b p dest t
    → IsDrained s t
IsMoved-IsDrained s t b p dest held staying m = record {
  views = m.views;
  factor = λ q. elim (Bool-cases (q == p)) [
    | inl e ↦ let same : q ≡ p = ground arith in rw same m.factor
    | inr e ↦ ap (λ x. length x.replicas) (m.other_partition q (λ f. ground arith))
  ];
  flags = λ a. ((m.flags a).0, (m.flags a).1);
  leaving = λ a e. elim (Bool-cases (a == b)) [
    | inl f ↦
        let same : a ≡ b = ground arith in
        let lost =
          length-erase p (partitions s b) (ground (arith, contains-count p (partitions s b))) in
        rw (same, m.taken) (omega (arith, lost))
    | inr f ↦
        let apart : a ≢ b = λ g. ground arith in
        let elsewhere : a ≢ dest = λ g. cc (ap (λ x. (s.broker x).decommissioned) g, e, staying) in
        let same = ap (λ x. length x.partitions) (m.other_broker a apart elsewhere) in
        omega (arith, same)
  ];
  groups = m.groups;
}

module _ (b : ℕ) where
  try_groups_lem :
      (s : Store) (p : ℕ) (gs : List ℕ)
      → IsLinked s
      → contains p (partitions s b) ≡ true
      → Returns
          (λ t.
            IsDrained s t × ((q : ℕ) → q ≢ p → count q (partitions t b) ≡ count q (partitions s b)))
          (try_groups s p b gs)
  unfolding try_groups
  try_groups_lem s p [] v held = (IsDrained-refl s v, λ q n. refl)
  try_groups_lem s p (g ∷ gs) v held = elim (acquire_partition_cases s g p b v held) [
    | inl (e, absent) ↦ rw (e, try_groups) (try_groups_lem s p gs v held)
    | inr (dest, t, e, fit, least, m) ↦
        rw (e, try_groups)
          (
            IsMoved-IsDrained s t b p dest held fit.staying m,
            λ q n. rw m.taken (ground (arith, count-erase q p (partitions s b))),
          )
  ]

  -- The partitions of a list without repeats.
  reassign_lem :
      (s : Store) (available ps : List ℕ)
      → IsLinked s
      → ((q : ℕ) → count q ps ≤ count q (partitions s b))
      → ((q : ℕ) → count q ps ≤ 1)
      → Returns (IsDrained s) (reassign s b available ps)
  unfolding reassign count
  reassign_lem s available [] v part once = IsDrained-refl s v
  reassign_lem s available (p ∷ ps) v part once =
      let held : contains p (partitions s b) ≡ true =
        ground (arith, part p, contains-count p (partitions s b)) in
      let step = try_groups_lem s p (sorted_up (λ g. count_replica s g p) available) v held in
      Returns-bind
        (λ t.
          IsDrained s t × ((q : ℕ) → q ≢ p → count q (partitions t b) ≡ count q (partitions s b)))
        (IsDrained s) _ _ step
        (λ t d.
          Returns-map (IsDrained t) (IsDrained s) _ (λ u k. IsDrained-trans s t u d.0 k)
            (reassign_lem t available ps d.0.views
              (λ q. elim (Bool-cases (q == p)) [
                | inl e ↦ ground (arith, once q)
                | inr e ↦ ground (arith, d.1 q (λ f. ground arith), part q)
              ])
              (λ q. omega (arith, once q))))

force_broker_decommission_lem :
    (c : Topology) (s : Store) (b : ℕ)
    → IsLinked s
    → Returns (IsDrained s) (force_broker_decommission c s b)
unfolding force_broker_decommission
force_broker_decommission_lem c s b v =
    reassign_lem b s _ (partitions s b) v (λ q. omega arith)
      (λ q. omega (arith, v.linked b q, v.distinct b q))

-- The brokers that are to leave have left.
abbrev pub AllEmpty : Store → Store → List ℕ → Type 0
AllEmpty s t bs = Each (λ b. (s.broker b).decommissioned ≡ true → load t b ≡ 0) bs

pub decommission_each_lem :
    (c : Topology) (s : Store) (bs : List ℕ)
    → IsLinked s
    → Yields
        (λ t. IsDrained s t × AllEmpty s t bs)
        (λ e. e ≡ broker_decommission)
        (decommission_each c s bs)
unfolding decommission_each
decommission_each_lem c s [] v = (IsDrained-refl s v, tt)
decommission_each_lem c s (b ∷ bs) v =
    elim (Bool-cases ((s.broker b).decommissioned && not (empty s b))) [
      | inr e ↦
          rw (e, decommission_each)
            (Yields-map (λ t. IsDrained s t × AllEmpty s t bs)
              (λ t. IsDrained s t × AllEmpty s t (b ∷ bs)) (λ e. e ≡ broker_decommission) _
              (λ t k. (
                k.0,
                (
                  λ f. let now : load s b ≡ 0 = ground arith in omega (arith, now, k.0.leaving b f),
                  k.1,
                ),
              ))
              (decommission_each_lem c s bs v))
      | inl e ↦
          rw (e, decommission_each)
            (Yields-returned (IsDrained s) (λ t. IsDrained s t × AllEmpty s t (b ∷ bs))
              (λ e. e ≡ broker_decommission) _ _ (force_broker_decommission_lem c s b v)
              (λ s' d. elim (Bool-cases (empty s' b)) [
                | inr f ↦ rw f refl
                | inl f ↦ rw f (
                    Yields-map (λ t. IsDrained s' t × AllEmpty s' t bs)
                      (λ t. IsDrained s t × AllEmpty s t (b ∷ bs)) (λ e. e ≡ broker_decommission) _
                      (λ t k. (
                        IsDrained-trans s s' t d k.0,
                        (
                          λ g.
                              let now : load s' b ≡ 0 = ground arith in
                              omega (arith, now, k.0.leaving b ((d.flags b).0 ∙ g)),
                          Each-map _ _ (λ a h g. h ((d.flags a).0 ∙ g)) bs k.1,
                        ),
                      ))
                      (decommission_each_lem c s' bs d.views))
              ]))
    ]
