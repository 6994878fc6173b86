-- ===== src/Cluster/Balancer/Leaders/Revoked.antt =====
-- The forced revocation of one broker's leadership settles the partitions that it led.
use kafka_utils.Base.{
  ℕ, List, [], ◌∷◌, Bool, true, false, not, ◌==◌, leb, if◌then◌else◌, nat_eq, Result, ok, Returns,
  Returns-bind, Returns-map, length, is_nil, keep, contains, contains-count, contains-keep,
  Each-contains, contains-Each, Each, Bool-cases, ◌≡◌, ◌≢◌, refl, sym, ap, subst, ◌∙◌, arith, ◌⊎◌,
  inl, inr,
}
use kafka_utils.Cluster.Objects.{Store, Broker, replicas, partitions}
use kafka_utils.Cluster.Partition.{leader, followers, rest, first, replication_factor}
use kafka_utils.Cluster.Broker.{
  IsLinked, IsReordered, IsReordered-refl, IsReordered-trans, IsReordered-IsLinked, IsSwapped,
  swap_leader-IsSwapped, first-contains, count_preferred_replica,
}
use kafka_utils.Cluster.Broker.Leadership.Keeps.{count_preferred_replica_total}
use kafka_utils.Cluster.Balancer.Leaders.{
  filter, min_key, leads, force_revoke_partition, force_revoke_partitions, force_revoke_leadership,
}

-- The followers of a partition that may lead.
abbrev pub eligible : Store → ℕ → List ℕ
eligible s p = keep (λ b. not (s.broker b).revoked_leadership) (followers s p)

-- Replicas whose leader may lead, or none of the others could take over.
pub record MayStay (brokers : ℕ → Broker) (xs : List ℕ) : Type 0 where
  pub settled :
      (l : ℕ)
      → first xs ≡ ok l
      → ((brokers l).revoked_leadership ≡ false)
        ⊎ (length xs ≡ 1)
        ⊎ (keep (λ b. not (brokers b).revoked_leadership) (rest xs) ≡ [])

abbrev pub IsSettled : Store → ℕ → Type 0
IsSettled s p = MayStay s.broker (replicas s p)

-- What the forced revocations do: a partition is settled, or stays as it was.
pub record Settling (s t : Store) : Type 0 where
  pub reordered : IsReordered s t
  pub moved : (p : ℕ) → IsSettled t p ⊎ (replicas t p ≡ replicas s p)

pub Settling-kept : (s t : Store) (p : ℕ) → Settling s t → IsSettled s p → IsSettled t p
Settling-kept s t p h e = elim (h.moved p) [
  | inl now ↦ now
  | inr same ↦
      subst (λ f. MayStay f (replicas t p)) (sym h.reordered.brokers)
        (subst (MayStay s.broker) (sym same) e)
]

pub Settling-refl : (s : Store) → Settling s s
Settling-refl s = record { reordered = IsReordered-refl s; moved = λ p. inr refl }

pub Settling-trans : (s t u : Store) → Settling s t → Settling t u → Settling s u
Settling-trans s t u h k = record {
  reordered = IsReordered-trans h.reordered k.reordered;
  moved = λ p. elim (k.moved p) [
    | inl now ↦ inl now
    | inr same ↦ elim (h.moved p) [
      | inl before ↦ inl (Settling-kept t u p k before)
      | inr unchanged ↦ inr (same ∙ unchanged)
    ]
  ];
}

pick_mem :
    (good : Bool) (x m : ℕ) (xs : List ℕ)
    → contains x xs ≡ true
    → contains m xs ≡ true
    → contains (if good then x else m) xs ≡ true
pick_mem true x m xs h k = h
pick_mem false x m xs h k = k

min_key_mem :
    (key : ℕ → Result ℕ) (xs : List ℕ)
    → ((x : ℕ) → Returns (λ n. Unit {0}) (key x))
    → is_nil xs ≡ false
    → Returns (λ m. contains m xs ≡ true) (min_key key xs)
unfolding min_key contains
min_key_mem key [] h e = cc
min_key_mem key (x ∷ []) h e = Returns-bind (λ n. Unit {0}) _ _ _ (h x) (λ i _. ground arith)
min_key_mem key (x ∷ y ∷ more) h e =
    Returns-bind (λ n. Unit {0}) (λ m. contains m (x ∷ y ∷ more) ≡ true) _ _ (h x)
      (λ i _.
        Returns-bind (λ m. contains m (y ∷ more) ≡ true) (λ m. contains m (x ∷ y ∷ more) ≡ true) _ _
          (min_key_mem key (y ∷ more) h refl)
          (λ m k.
            Returns-bind (λ n. Unit {0}) (λ m. contains m (x ∷ y ∷ more) ≡ true) _ _ (h m)
              (λ j _. pick_mem (leb i j) x m (x ∷ y ∷ more) (ground arith) (ground (arith, k)))))

nil_of : (xs : List ℕ) → is_nil xs ≡ true → xs ≡ []
nil_of [] h = refl
nil_of (x ∷ xs) h = cc

rest-contains : (b : ℕ) (xs : List ℕ) → contains b (rest xs) ≡ true → contains b xs ≡ true
unfolding contains
rest-contains b [] h = h
rest-contains b (x ∷ xs) h = ground arith

-- What one step leaves: its partition settled, and the others as before.
record Revoked (s : Store) (p : ℕ) (t : Store) : Type 0 where
  reordered : IsReordered s t
  done : IsSettled t p
  others : (q : ℕ) → q ≢ p → replicas t q ≡ replicas s q

swap_settled :
    (s : Store) (p m : ℕ)
    → contains m (eligible s p) ≡ true
    → (r : Store × ℕ) → IsSwapped s p m r
    → Revoked s p r.0
swap_settled s p m h (t, old) (reordered, leads_now, led, others) = record {
  reordered = reordered;
  done = record {
    settled = λ l e.
        let same : l ≡ m = cc (e, leads_now) in
        let flag : (s.broker m).revoked_leadership ≡ false =
          ground
            (arith, contains-keep m (λ b. not (s.broker b).revoked_leadership) (followers s p)) in
        inl (rw (reordered.brokers, same) flag);
  };
  others = others;
}

force_revoke_partition_lem :
    (s : Store) (p : ℕ) → IsLinked s → Returns (Revoked s p) (force_revoke_partition s p)
unfolding force_revoke_partition
force_revoke_partition_lem s p v = elim (Bool-cases (replication_factor s p == 1)) [
  | inl e ↦
      let single : replication_factor s p ≡ 1 = ground arith in
      rw (e, force_revoke_partition)
        (record {
          reordered = IsReordered-refl s;
          done = record { settled = λ l _. inr (inl single) };
          others = λ q n. refl;
        })
  | inr e ↦
      rw (e, force_revoke_partition)
        (elim (Bool-cases (is_nil (eligible s p))) [
          | inl none_left ↦
              rw (none_left, force_revoke_partition)
                (record {
                  reordered = IsReordered-refl s;
                  done = record { settled = λ l _. inr (inr (nil_of (eligible s p) none_left)) };
                  others = λ q n. refl;
                })
          | inr some_left ↦
              rw (some_left, force_revoke_partition)
                (Returns-bind (λ m. contains m (eligible s p) ≡ true) (Revoked s p) _ _
                  (min_key_mem (count_preferred_replica s) (eligible s p)
                    (λ b. count_preferred_replica_total s b v) some_left)
                  (λ m h.
                    Returns-bind (IsSwapped s p m) (Revoked s p) _ _
                      (swap_leader-IsSwapped s p m (
                        rest-contains m (replicas s p) (
                          ground (
                            arith,
                            contains-keep m (λ b. not (s.broker b).revoked_leadership)
                                (followers s p),
                          ))))
                      (λ r w. swap_settled s p m h r w)))
        ])
]

Revoked-Settling : (s t : Store) (p : ℕ) → Revoked s p t → Settling s t
Revoked-Settling s t p r = record {
  reordered = r.reordered;
  moved = λ q. elim (Bool-cases (q == p)) [
    | inl same ↦ let found : p ≡ q = ground arith in inl (subst (IsSettled t) found r.done)
    | inr other ↦ inr (r.others q (λ f. ground arith))
  ];
}

force_revoke_partitions_lem :
    (s : Store) (ps : List ℕ)
    → IsLinked s
    → Returns (λ t. Settling s t × Each (IsSettled t) ps) (force_revoke_partitions s ps)
unfolding force_revoke_partitions
force_revoke_partitions_lem s [] v = (Settling-refl s, tt)
force_revoke_partitions_lem s (p ∷ ps) v =
    Returns-bind (Revoked s p) (λ t. Settling s t × Each (IsSettled t) (p ∷ ps)) _ _
      (force_revoke_partition_lem s p v)
      (λ s' r.
        Returns-map (λ t. Settling s' t × Each (IsSettled t) ps) _ _
          (λ t k. (
            Settling-trans s s' t (Revoked-Settling s s' p r) k.0,
            (Settling-kept s' t p k.0 r.done, k.1),
          ))
          (force_revoke_partitions_lem s' ps (IsReordered-IsLinked r.reordered v)))

-- A filter keeps what passes its test.
pub filter_keeps :
    (test : ℕ → Result Bool) (xs : List ℕ)
    → Each (λ x. (r : Bool) × (test x ≡ ok r)) xs
    → Returns
        (λ ys. (a : ℕ) → contains a xs ≡ true → test a ≡ ok true → contains a ys ≡ true)
        (filter test xs)
unfolding filter contains
filter_keeps test [] h = λ a m f. m
filter_keeps test (x ∷ xs) ((r, e), h) =
    rw (e, filter)
      (Returns-bind (λ ys. (a : ℕ) → contains a xs ≡ true → test a ≡ ok true → contains a ys ≡ true)
        _ _ _ (filter_keeps test xs h)
        (λ ys k a m f. elim (Bool-cases (a == x)) [
          | inl same ↦
              let found : a ≡ x = ground arith in
              let passed : r ≡ true = cc (sym e ∙ ap test (sym found) ∙ f) in
              rw passed (ground arith)
          | inr other ↦
              let kept : contains a ys ≡ true = k a (ground arith) f in
              elim (Bool-cases r) [ inl e ↦ rw e (ground arith) | inr e ↦ rw e kept ]
        ]))

pub first_contained : (b : ℕ) (xs : List ℕ) → first xs ≡ ok b → contains b xs ≡ true
unfolding contains
first_contained b [] h = cc
first_contained b (x ∷ xs) h = let same : x ≡ b = cc in ground arith

leads_total :
    (s : Store) (b : ℕ)
    → IsLinked s
    → Each (λ p. (r : Bool) × (leads s b p ≡ ok r)) (partitions s b)
unfolding leads
leads_total s b v = Each-contains _ (partitions s b) (λ p m.
    let held : contains b (replicas s p) ≡ true =
      ground
        (arith, contains-count p (partitions s b), contains-count b (replicas s p), v.linked b p) in
    let (l, e) = first-contains b (replicas s p) held in (b == l, rw e refl))

-- A leader lists the partitions that it leads.
pub led_listed :
    (s : Store) (b p : ℕ) → IsLinked s → leader s p ≡ ok b → contains p (partitions s b) ≡ true
led_listed s b p v h = ground (
  arith,
  first_contained b (replicas s p) h,
  contains-count p (partitions s b),
  contains-count b (replicas s p),
  v.linked b p,
)

leads_led : (s : Store) (b p : ℕ) → leader s p ≡ ok b → leads s b p ≡ ok true
unfolding leads
leads_led s b p e = rw e (let same : (b == b) ≡ true = ground arith in rw same refl)

-- One broker: all the partitions that it led are settled.
pub force_revoke_leadership_lem :
    (s : Store) (b : ℕ)
    → IsLinked s
    → Returns
        (λ t. Settling s t × ((p : ℕ) → leader s p ≡ ok b → IsSettled t p))
        (force_revoke_leadership s b)
unfolding force_revoke_leadership leads
force_revoke_leadership_lem s b v =
    Returns-bind
      (λ ys.
        (a : ℕ) → contains a (partitions s b) ≡ true → leads s b a ≡ ok true → contains a ys ≡ true)
      _ _ _ (filter_keeps (leads s b) (partitions s b) (leads_total s b v))
      (λ ys k.
        Returns-map (λ t. Settling s t × Each (IsSettled t) ys) _ _
          (λ t w. (
            w.0,
            λ p e.
                contains-Each (IsSettled t) ys p w.1
                  (k p (led_listed s b p v e) (leads_led s b p e)),
          ))
          (force_revoke_partitions_lem s ys v))
