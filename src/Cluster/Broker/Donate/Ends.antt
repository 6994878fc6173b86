-- ===== src/Cluster/Broker/Donate/Ends.antt =====
-- Donations of leadership end, without an exception, and only reorder replicas.
use kafka_utils.Base.{
  ℕ, zero, suc, ◌+◌, ◌≤◌, ◌<◌, List, [], ◌∷◌, ◌++◌, Bool, true, false, not, ◌&&◌, ◌==◌, ltb, leb,
  Option, Option-cases, Result, count, contains, keep, ◌≡◌, arith, Returns, Returns-bind,
  Returns-map, Each, Each-contains, Each-map, length, contains-count, contains-keep, count-snoc,
  count-erase, Bool-cases, inl, inr,
}
use kafka_utils.Cluster.Objects.{Store, replicas, partitions}
use kafka_utils.Cluster.Partition.{followers, rest, replication_factor}
use kafka_utils.Cluster.Broker.Links.{IsLinked}
use kafka_utils.Cluster.Broker.Moves.{
  IsReordered, IsReordered-refl, IsReordered-trans, IsReordered-IsLinked, IsSwapped,
  swap_leader-IsSwapped,
}
use kafka_utils.Cluster.Broker.Leadership.Keeps.{
  free, free_mono, free-le, free-snoc, leader-mem, listed-pos, count_preferred_replica_total,
}
use kafka_utils.Cluster.Broker.Donate.{
  Donation, led_by_self, is_used, relieve, judge, give, give_one_of, donate_from, donate_leadership,
}

led_by_self_total :
    (s : Store) (b : ℕ) (ps : List ℕ)
    → Each (λ p. 0 < count b (replicas s p)) ps
    → Returns (Each (λ p. 0 < count b (replicas s p))) (led_by_self s b ps)
unfolding led_by_self
led_by_self_total s b [] h = tt
led_by_self_total s b (p ∷ ps) h =
    Returns-bind (λ l. 0 < count l (replicas s p)) _ _ _ (leader-mem (replicas s p) b h.0)
      (λ l _.
        Returns-bind (Each (λ p. 0 < count b (replicas s p))) _ _ _ (led_by_self_total s b ps h.1)
          (λ qs hq. elim (Bool-cases ((b == l) && ltb 1 (replication_factor s p))) [
            | inl e ↦ rw e (h.0, hq)
            | inr e ↦ rw e hq
          ]))

-- What every part of the donations keeps, from the cluster `s₀` in which they began.
pub record Holds (s₀ : Store) (st st' : Donation) : Type 0 where
  pub reordered : IsReordered s₀ st'.store
  pub more_brokers : (c : ℕ) → count c st.skip_brokers ≤ count c st'.skip_brokers

rest-count : (a : ℕ) (xs : List ℕ) → count a (rest xs) ≤ count a xs
unfolding count
rest-count a [] = omega arith
rest-count a (x ∷ xs) = ground arith

module _ (s₀ : Store) (us : List ℕ) (v₀ : IsLinked s₀)
    (known : (p c : ℕ) → 0 < count c (replicas s₀ p) → contains c us ≡ true) (opt_count : ℕ) where
  abbrev Held : Donation → Option Bool × Donation → Type 0
  Held st r = Holds s₀ st r.1

  relieve_total :
      (b : ℕ) (st st' : Donation) → Holds s₀ st st' → Returns (Held st) (relieve opt_count b st')
  unfolding relieve
  relieve_total b st st' k =
      Returns-bind (λ n. Unit {0}) _ _ _
        (count_preferred_replica_total st'.store b (IsReordered-IsLinked k.reordered v₀)) (λ n _. k)

  member :
      {s : Store} (p c : ℕ)
      → IsReordered s₀ s
      → 0 < count c (replicas s₀ p)
      → contains c (replicas s p) ≡ true
  member {s} p c r h = ground (arith, r.members p c, contains-count c (replicas s p))

  -- After the recursive call for the follower `f`.
  record After (f : ℕ) (st st' : Donation) : Type 0 where
    reordered : IsReordered s₀ st'.store
    grown : (c : ℕ) → count c (st.skip_brokers ++ f ∷ []) ≤ count c st'.skip_brokers

  judge_total :
      (b p f : ℕ) (st st' : Donation)
      → 0 < count b (replicas s₀ p)
      → After f st st'
      → Returns (Held st) (judge opt_count b p f st')
  unfolding judge
  judge_total b p f st st' m k =
      Returns-bind (λ n. Unit {0}) (Held st) _ _
        (count_preferred_replica_total st'.store f (IsReordered-IsLinked k.reordered v₀))
        (λ n _. elim (Bool-cases (ltb (opt_count + 1) n)) [
          | inl many ↦ rw many (
              Returns-bind (IsSwapped st'.store p b) (Held st) _ _
                (swap_leader-IsSwapped st'.store p b (member p b k.reordered m))
                (λ r w. record {
                  reordered = IsReordered-trans k.reordered w.0;
                  more_brokers = λ c. ground (arith, k.grown c, count-snoc c f st.skip_brokers);
                }))
          | inr few ↦
              let listed : contains f st'.skip_brokers ≡ true = ground (
                arith,
                k.grown f,
                count-snoc f f st.skip_brokers,
                contains-count f st'.skip_brokers,
              ) in
              rw (few, listed)
                (relieve_total b st _ (record {
                  reordered = k.reordered;
                  more_brokers = λ c. ground (
                    arith,
                    k.grown c,
                    count-snoc c f st.skip_brokers,
                    count-erase c f st'.skip_brokers,
                  );
                }))
        ])

  -- What is asked of the recursive call.
  abbrev Donates : ℕ → (ℕ → Donation → Result Donation) → Type 0
  Donates depth again =
      (b : ℕ) (st : Donation)
      → IsReordered s₀ st.store
      → free us st.skip_brokers < depth
      → Returns (Holds s₀ st) (again b st)

  module _ (depth : ℕ) (again : ℕ → Donation → Result Donation) (rec : Donates depth again)
      (b p : ℕ) (m : 0 < count b (replicas s₀ p)) (base : Donation)
      (room : free us base.skip_brokers < suc depth) where
    -- A follower that was not to be left alone when the inner loop began.
    abbrev Asked : ℕ → Type 0
    Asked f = (0 < count f (replicas s₀ p)) × (contains f base.skip_brokers ≡ false)

    smaller :
        (f : ℕ) (st : Donation)
        → Asked f
        → Holds s₀ base st
        → free us (st.skip_brokers ++ f ∷ []) < depth
    smaller f st a k =
        let less = free-snoc us base.skip_brokers f (known p f a.0) a.1 in
        let more = free_mono us (base.skip_brokers ++ f ∷ []) (st.skip_brokers ++ f ∷ []) (λ c.
          omega (
            arith,
            k.more_brokers c,
            count-snoc c f base.skip_brokers,
            count-snoc c f st.skip_brokers,
          )) in
        omega (arith, less, more, room)

    give_total :
        (f : ℕ) (st : Donation)
        → Asked f
        → Holds s₀ base st
        → Returns (Held base) (give opt_count again b p f st)
    unfolding give
    give_total f st a k =
        Returns-bind (IsSwapped st.store p f) (Held base) _ _
          (swap_leader-IsSwapped st.store p f (member p f k.reordered a.0))
          (λ r w.
            let now : IsReordered s₀ r.0 = IsReordered-trans k.reordered w.0 in
            Returns-bind (λ n. Unit {0}) (Held base) _ _
              (count_preferred_replica_total r.0 f (IsReordered-IsLinked now v₀))
              (λ n _. elim (Bool-cases (leb n (opt_count + 1))) [
                | inl fine ↦ rw fine (
                    relieve_total b base _
                      (record { reordered = now; more_brokers = k.more_brokers }))
                | inr many ↦ rw many (
                    Returns-bind _ (Held base) _ _ (rec f _ now (smaller f st a k)) (λ st' l.
                      judge_total b p f base st' m (record {
                        reordered = l.reordered;
                        grown = λ c. omega (
                          arith,
                          k.more_brokers c,
                          l.more_brokers c,
                          count-snoc c f base.skip_brokers,
                          count-snoc c f st.skip_brokers,
                        );
                      })))
              ]))

    give_one_of_total :
        (fs : List ℕ) (st : Donation)
        → Each Asked fs
        → Holds s₀ base st
        → Returns (λ r. Holds s₀ base r.1) (give_one_of opt_count again b p fs st)
    unfolding give_one_of
    give_one_of_total [] st a k = k
    give_one_of_total (f ∷ fs) st a k = elim (Bool-cases (is_used p b f st.used_edges)) [
      | inl used ↦ rw (used, give_one_of) (give_one_of_total fs st a.1 k)
      | inr new ↦
          rw (new, give_one_of)
            (Returns-bind (Held base) _ _ _ (give_total f st a.0 k) (λ r l.
              elim (Option-cases r.0) [
                | inl e ↦ rw e (give_one_of_total fs r.1 a.1 l)
                | inr (d, e) ↦ rw e l
              ]))
    ]

  Holds-refl : (st : Donation) → IsReordered s₀ st.store → Holds s₀ st st
  Holds-refl st r = record { reordered = r; more_brokers = λ c. omega arith }

  -- The followers that a round of the outer loop asks.
  followers-asked :
      (p : ℕ) (st : Donation)
      → IsReordered s₀ st.store
      → Each
          (λ f. (0 < count f (replicas s₀ p)) × (contains f st.skip_brokers ≡ false))
          (keep (λ f. not (contains f st.skip_brokers)) (followers st.store p))
  followers-asked p st r = Each-contains _ _ (λ f h.
      let both = contains-keep f (λ c. not (contains c st.skip_brokers)) (followers st.store p) in
      (
        ground (
          arith,
          h,
          both,
          contains-count f (followers st.store p),
          rest-count f (replicas st.store p),
          r.members p f,
        ),
        ground (arith, h, both),
      ))

  donate_from_total :
      (depth : ℕ) (again : ℕ → Donation → Result Donation) (b : ℕ) (ps : List ℕ) (st : Donation)
      → Donates depth again
      → IsReordered s₀ st.store
      → free us st.skip_brokers < suc depth
      → Each (λ p. 0 < count b (replicas s₀ p)) ps
      → Returns (Holds s₀ st) (donate_from opt_count again b ps st)
  unfolding donate_from
  donate_from_total depth again b [] st rec r f h = Holds-refl st r
  donate_from_total depth again b (p ∷ ps) st rec r f h =
      Returns-bind (λ x. Holds s₀ st x.1) (Holds s₀ st) _ _
        (give_one_of_total depth again rec b p h.0 st f _ st (followers-asked p st r)
          (Holds-refl st r))
        (λ x k. elim (Bool-cases x.0) [
          | inl done ↦ rw done k
          | inr more ↦ rw more (
              Returns-map (Holds s₀ x.1) (Holds s₀ st) _
                (λ st' l. record {
                  reordered = l.reordered;
                  more_brokers = λ c. omega (arith, k.more_brokers c, l.more_brokers c);
                })
                (donate_from_total depth again b ps x.1 rec k.reordered
                  (let less = free_mono us st.skip_brokers x.1.skip_brokers k.more_brokers in
                    omega (arith, less, f))
                  h.1))
        ])

  donate_total : (depth : ℕ) → Donates depth (donate_leadership opt_count depth)
  unfolding donate_leadership
  donate_total zero b st r f = absurd (omega arith)
  donate_total (suc depth) b st r f =
      Returns-bind (Each (λ p. 0 < count b (replicas st.store p))) (Holds s₀ st) _ _
        (let v = IsReordered-IsLinked r v₀ in
          led_by_self_total st.store b (partitions st.store b) (listed-pos st.store b v))
        (λ owned h.
          donate_from_total depth (donate_leadership opt_count depth) b owned st
            (donate_total depth) r f
            (Each-map (λ p. 0 < count b (replicas st.store p)) (λ p. 0 < count b (replicas s₀ p))
              (λ p m. rw (← r.members p b) m) owned h))

-- With one more nested call than there are brokers that hold replicas, the donations of leadership
-- that a broker begins in a linked cluster return: nothing is raised and the depth does not run
-- out. The brokers, the topics and the groups stay as they are, each partition keeps its replicas
-- in another order, and no broker leaves the list of those to skip.
pub donate_leadership_total :
    (opt_count : ℕ) (us : List ℕ) (b : ℕ) (st : Donation)
    → IsLinked st.store
    → ((p c : ℕ) → 0 < count c (replicas st.store p) → contains c us ≡ true)
    → Returns (Holds st.store st) (donate_leadership opt_count (suc (length us)) b st)
donate_leadership_total opt_count us b st v known =
    donate_total st.store us v known opt_count (suc (length us)) b st (IsReordered-refl st.store)
      (omega (arith, free-le us st.skip_brokers))
