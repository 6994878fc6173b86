-- ===== src/Cluster/Balancer/Leaders/Revocation.antt =====
-- What `revoke_leadership` achieves: a revoked broker leads only what no other broker may lead.
use kafka_utils.Base.{
  ℕ, ◌+◌, ◌<◌, List, [], ◌∷◌, Bool, true, false, ◌==◌, ltb, if◌then◌else◌, some, lookup, nat_eq, ok,
  Returns, Returns-bind, Returns-map, length, count, contains, contains-count, Each-contains, Each,
  Each-map, Bool-cases, ◌≡◌, ◌≢◌, refl, sym, ap, subst, ◌∙◌, arith, ◌⊎◌, inl, inr,
}
use kafka_utils.Cluster.Objects.{Store, Partition, replicas, partitions}
use kafka_utils.Cluster.Partition.{leader, first}
use kafka_utils.Cluster.Broker.{
  IsLinked, IsReordered, IsReordered-refl, IsReordered-trans, IsReordered-IsLinked, first-contains,
  count_preferred_replica,
}
use kafka_utils.Cluster.Topology.{Topology}
use kafka_utils.Cluster.Balancer.Leaders.{
  all_brokers, force_revoke_each, is_pending, revoke_leadership,
}
use kafka_utils.Cluster.Balancer.Leaders.Marks.{
  IsMarkedOnly, Marked, mark_revoked_lem, Marked-IsLinked,
}
use kafka_utils.Cluster.Balancer.Leaders.Reordered.{
  Each-all, Known, rebalancing_non_followers_total,
}
use kafka_utils.Cluster.Broker.{sum_leading}
use kafka_utils.Cluster.Balancer.Leaders.Reordered.{Known-IsReordered}
use kafka_utils.Cluster.Balancer.Leaders.Revoked.{
  IsSettled, Settling, Settling-kept, force_revoke_leadership_lem, filter_keeps, first_contained,
  led_listed,
}

-- A partition is settled, or one of the brokers still to come leads it.
abbrev Waiting : Store → List ℕ → ℕ → Type 0
Waiting s bs p = IsSettled s p ⊎ (b : ℕ) × (leader s p ≡ ok b) × (contains b bs ≡ true)

force_revoke_each_lem :
    (s : Store) (bs : List ℕ)
    → IsLinked s
    → ((p : ℕ) → Waiting s bs p)
    → Returns (λ t. IsReordered s t × ((p : ℕ) → IsSettled t p)) (force_revoke_each s bs)
unfolding force_revoke_each contains
force_revoke_each_lem s [] v h =
    (IsReordered-refl s, λ p. elim (h p) [ inl e ↦ e | inr (b, e, m) ↦ cc ])
force_revoke_each_lem s (b ∷ bs) v h =
    Returns-bind (λ t. Settling s t × ((p : ℕ) → leader s p ≡ ok b → IsSettled t p)) _ _ _
      (force_revoke_leadership_lem s b v)
      (λ s' w.
        Returns-map (λ t. IsReordered s' t × ((p : ℕ) → IsSettled t p)) _ _
          (λ t k. (IsReordered-trans w.0.reordered k.0, k.1))
          (force_revoke_each_lem s' bs (IsReordered-IsLinked w.0.reordered v) (λ p. elim (h p) [
            | inl e ↦ inl (Settling-kept s s' p w.0 e)
            | inr (a, e, m) ↦ elim (Bool-cases (a == b)) [
              | inl same ↦ let found : a ≡ b = ground arith in inl (w.1 p (e ∙ ap ok found))
              | inr other ↦ elim (w.0.moved p) [
                | inl now ↦ inl now
                | inr unchanged ↦ inr (a, ap first unchanged ∙ e, ground arith)
              ]
            ]
          ])))

-- A broker counts the partitions that it leads.
leading_value :
    (s : Store) (l : ℕ) (ps : List ℕ)
    → Each (λ q. (a : ℕ) × (leader s q ≡ ok a)) ps
    → (n : ℕ) × (sum_leading (λ q. 1) s l ps ≡ ok n)
      × ((p : ℕ) → contains p ps ≡ true → leader s p ≡ ok l → 0 < n)
unfolding sum_leading contains
leading_value s l [] h = (0, refl, λ p m e. cc)
leading_value s l (q ∷ ps) ((a, e), h) =
    let (n, f, k) = leading_value s l ps h in
    (
      (if a == l then 1 else 0) + n,
      rw (e, f) refl,
      λ p m g. elim (Bool-cases (p == q)) [
        | inl same ↦
            let found : p ≡ q = ground arith in
            let leads_it : a ≡ l = cc (sym e ∙ ap (leader s) (sym found) ∙ g) in ground arith
        | inr other ↦ let more : 0 < n = k p (ground arith) g in omega (arith, more)
      ],
    )

leaders_of :
    (s : Store) (b : ℕ) → IsLinked s → Each (λ p. (a : ℕ) × (leader s p ≡ ok a)) (partitions s b)
leaders_of s b v = Each-contains _ (partitions s b) (λ p m. first-contains b (replicas s p) (
    ground
      (arith, contains-count p (partitions s b), contains-count b (replicas s p), v.linked b p)))

pending_total : (s : Store) (b : ℕ) → IsLinked s → (r : Bool) × (is_pending s b ≡ ok r)
unfolding is_pending count_preferred_replica
pending_total s b v = elim (Bool-cases (s.broker b).revoked_leadership) [
  | inl e ↦
      let (n, f, k) = leading_value s b (partitions s b) (leaders_of s b v) in
      (ltb 0 n, rw (e, is_pending) (rw f refl))
  | inr e ↦ (false, rw (e, is_pending) refl)
]

is_pending-leader :
    (s : Store) (l p : ℕ)
    → IsLinked s
    → leader s p ≡ ok l
    → (s.broker l).revoked_leadership ≡ true
    → is_pending s l ≡ ok true
unfolding is_pending count_preferred_replica
is_pending-leader s l p v e marked =
    let (n, f, k) = leading_value s l (partitions s l) (leaders_of s l v) in
    let some_led : ltb 0 n ≡ true = ground (arith, k p (led_listed s l p v e) e) in
    rw (marked, is_pending) (rw f (ap ok some_led))

first_cases : (xs : List ℕ) → ((l : ℕ) → first xs ≢ ok l) ⊎ (l : ℕ) × (first xs ≡ ok l)
first_cases [] = inl (λ l e. cc)
first_cases (x ∷ xs) = inr (x, refl)

-- Every partition of which the leader is revoked waits for a pending broker.
leaders-Waiting :
    (c : Topology) (s : Store) (bs : List ℕ)
    → IsLinked s
    → Known c s
    → ((a : ℕ)
        → contains a (all_brokers c) ≡ true
        → is_pending s a ≡ ok true
        → contains a bs ≡ true)
    → (p : ℕ) → Waiting s bs p
leaders-Waiting c s bs v known k p = elim (first_cases (replicas s p)) [
  | inl missing ↦ inl (record { settled = λ l e. absurd (missing l e) })
  | inr (l, e) ↦ elim (Bool-cases (s.broker l).revoked_leadership) [
    | inl marked ↦ inr (
      l,
      e,
      k l
          (known p l
            (ground (arith, first_contained l (replicas s p) e, contains-count l (replicas s p))))
          (is_pending-leader s l p v e marked),
    )
    | inr unmarked ↦ inl (record {
      settled = λ a f.
          let same : a ≡ l = cc (f, e) in
          inl (ap (λ x. (s.broker x).revoked_leadership) same ∙ unmarked);
    })
  ]
]

-- What a revocation of leadership leaves.
pub record LeadershipRevoked (c : Topology) (s : Store) (ids : List ℕ) (t : Store) : Type 0 where
  pub views : IsLinked t
  pub members : (p b : ℕ) → count b (replicas t p) ≡ count b (replicas s p)
  pub marks :
      Each
        (λ i. (b : ℕ) × (lookup i c.brokers ≡ some b) × ((t.broker b).revoked_leadership ≡ true))
        ids
  pub only_marks : (b : ℕ) → IsMarkedOnly c s ids t b
  pub only_order : (p : ℕ) → t.partition p ≡ record (s.partition p) { replicas = replicas t p }
  pub topics : t.topic ≡ s.topic
  pub groups : t.group ≡ s.group
  pub all_settled : (p : ℕ) → IsSettled t p

-- In a linked cluster whose replicas are all on its brokers, with ids of the cluster, fewer than it
-- has brokers: `revoke_leadership` returns. It marks the brokers of the ids, which is the only change
-- to a broker, and changes nothing else but the order of the replicas of partitions. Afterwards every
-- partition is led by a broker that is not marked, unless it has a single replica or its other
-- replicas are all on marked brokers.
pub revoke_leadership-LeadershipRevoked :
    (c : Topology) (s : Store) (ids : List ℕ)
    → IsLinked s
    → Known c s
    → Each (λ i. (b : ℕ) × (lookup i c.brokers ≡ some b)) ids
    → length ids < length c.brokers
    → Returns (LeadershipRevoked c s ids) (revoke_leadership c s ids)
unfolding revoke_leadership
revoke_leadership-LeadershipRevoked c s ids v known found few =
    Returns-bind (Marked c s ids) _ _ _ (mark_revoked_lem c s ids found) (λ s1 m.
      let v1 : IsLinked s1 = Marked-IsLinked c s s1 ids m v in
      let known1 : Known c s1 =
        λ p b h. known p b (subst (λ f. 0 < count b (f p).replicas) m.same h) in
      let enough : ltb (length ids) (length c.brokers) ≡ true = ground arith in
      rw enough (
        Returns-bind (IsReordered s1) (LeadershipRevoked c s ids) _ _
          (rebalancing_non_followers_total c _ s1 v1 known1)
          (λ s2 r.
            let v2 = IsReordered-IsLinked r v1 in
            Returns-bind
              (λ ys.
                (a : ℕ)
                → contains a (all_brokers c) ≡ true
                → is_pending s2 a ≡ ok true
                → contains a ys ≡ true)
              (LeadershipRevoked c s ids) _ _
              (filter_keeps (is_pending s2) (all_brokers c)
                (Each-all _ (all_brokers c) (λ b. pending_total s2 b v2)))
              (λ bs k.
                Returns-map (λ t. IsReordered s2 t × ((p : ℕ) → IsSettled t p)) _ _
                  (λ t w. record {
                    views = IsReordered-IsLinked w.0 v2;
                    members = λ p b.
                        w.0.members p b ∙ r.members p b ∙ ap (λ f. count b (f p).replicas) m.same;
                    marks =
                        Each-map _ _ (λ i x. (x.0, x.1, rw (w.0.brokers, r.brokers) x.2)) ids
                          m.marks;
                    only_marks = λ b.
                        subst (λ f. IsMarkedOnly c s ids (record t { broker = f }) b)
                          (sym (w.0.brokers ∙ r.brokers)) (m.only b);
                    only_order = λ p.
                        w.0.only_order p
                        ∙ ap (λ (x : Partition). record x { replicas = replicas t p })
                            (r.only_order p
                              ∙ ap
                                  (λ (f : ℕ → Partition). record (f p) { replicas = replicas s2 p })
                                  m.same);
                    topics = w.0.topics ∙ r.topics ∙ m.topics;
                    groups = w.0.groups ∙ r.groups ∙ m.groups;
                    all_settled = w.1;
                  })
                  (force_revoke_each_lem s2 bs v2
                    (leaders-Waiting c s2 bs v2 (Known-IsReordered c s1 s2 r known1) k))))))
