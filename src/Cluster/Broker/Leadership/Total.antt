-- ===== src/Cluster/Broker/Leadership/Total.antt =====
-- The search for leaders ends, without an exception, and only reorders replicas.
use kafka_utils.Base.{
  ℕ, zero, suc, ◌<◌, List, [], ◌∷◌, ◌++◌, Bool, true, false, ◌||◌, ltb, leb, Result, ok, count,
  contains, erase, ◌≡◌, arith, Returns, Returns-bind, Returns-step, Returns-map, Each, Each-map,
  length, contains-count, count-snoc, count-erase, Bool-cases, inl, inr,
}
use kafka_utils.Cluster.Objects.{Store, replicas, partitions}
use kafka_utils.Cluster.Partition.{leader}
use kafka_utils.Cluster.Broker.Links.{IsLinked}
use kafka_utils.Cluster.Broker.Moves.{
  IsReordered, IsReordered-refl, IsReordered-trans, IsReordered-IsLinked, IsSwapped,
  swap_leader-IsSwapped, first-contains,
}
use kafka_utils.Cluster.Broker.Leadership.{
  Search, settle, conclude, grant, visit, request_from, request_leadership,
}
use kafka_utils.Cluster.Broker.Leadership.Keeps.{
  free, free_mono, free-le, free-snoc, leader-mem, listed-pos, count_preferred_replica_total,
  led_by_others_total, Returns-at, Keeps, Keeps-from, Keeps-after,
}

module _ (s₀ : Store) (us : List ℕ) (v₀ : IsLinked s₀)
    (known : (p c : ℕ) → 0 < count c (replicas s₀ p) → contains c us ≡ true) (opt_count : ℕ) where
  abbrev Kept : Search → Bool × Search → Type 0
  Kept st r = Keeps s₀ st r.1

  settle_total :
      (b : ℕ) (st st' : Search) → Keeps s₀ st st' → Returns (Kept st) (settle opt_count b st')
  unfolding settle
  settle_total b st st' k =
      Returns-bind (λ n. Unit {0}) _ _ _
        (count_preferred_replica_total st'.store b (IsReordered-IsLinked k.reordered v₀)) (λ n _. k)

  member :
      {s : Store} (p c : ℕ)
      → IsReordered s₀ s
      → 0 < count c (replicas s₀ p)
      → contains c (replicas s p) ≡ true
  member {s} p c r h = ground (arith, r.members p c, contains-count c (replicas s p))

  abbrev granted : ℕ → ℕ → Search → Search
  granted p prev st = record st {
    skip_brokers = st.skip_brokers ++ prev ∷ [];
    skip_partitions = st.skip_partitions ++ p ∷ [];
  }

  reverted :
      (p prev : ℕ) (st st' : Search) (s : Store)
      → IsReordered st'.store s
      → Keeps s₀ (granted p prev st) st'
      → Keeps s₀ st (record st' { store = s; skip_partitions = erase p st'.skip_partitions })
  reverted p prev st st' s r k = record {
    reordered = IsReordered-trans k.reordered r;
    more_brokers = λ c. ground (arith, k.more_brokers c, count-snoc c prev st.skip_brokers);
    more_partitions = λ c. ground (
      arith,
      k.more_partitions c,
      count-snoc c p st.skip_partitions,
      count-erase c p st'.skip_partitions,
    );
  }

  accepted :
      (p prev : ℕ) (st st' : Search)
      → Keeps s₀ (granted p prev st) st'
      → Keeps s₀ st (record st' {
        skip_partitions = st'.skip_partitions ++ p ∷ [];
        skip_brokers = erase prev st'.skip_brokers;
      })
  accepted p prev st st' k = record {
    reordered = k.reordered;
    more_brokers = λ c. ground (
      arith,
      k.more_brokers c,
      count-snoc c prev st.skip_brokers,
      count-erase c prev st'.skip_brokers,
    );
    more_partitions = λ c. ground (
      arith,
      k.more_partitions c,
      count-snoc c p st.skip_partitions,
      count-snoc c p st'.skip_partitions,
    );
  }

  conclude_total :
      (b p prev : ℕ) (st st' : Search)
      → 0 < count prev (replicas s₀ p)
      → Keeps s₀ (granted p prev st) st'
      → Returns (Kept st) (conclude opt_count b p prev st')
  unfolding conclude
  conclude_total b p prev st st' m k =
      Returns-bind (λ n. Unit {0}) (Kept st) _ _
        (count_preferred_replica_total st'.store prev (IsReordered-IsLinked k.reordered v₀))
        (λ n _. elim (Bool-cases (ltb n opt_count)) [
          | inl few ↦
              let listed : contains p st'.skip_partitions ≡ true = ground (
                arith,
                k.more_partitions p,
                count-snoc p p st.skip_partitions,
                contains-count p st'.skip_partitions,
              ) in
              rw (few, listed)
                (Returns-bind (IsSwapped st'.store p prev) (Kept st) _ _
                  (swap_leader-IsSwapped st'.store p prev (member p prev k.reordered m))
                  (λ r w. reverted p prev st st' r.0 w.0 k))
          | inr enough ↦
              let listed : contains prev st'.skip_brokers ≡ true = ground (
                arith,
                k.more_brokers prev,
                count-snoc prev prev st.skip_brokers,
                contains-count prev st'.skip_brokers,
              ) in
              rw (enough, listed) (settle_total b st _ (accepted p prev st st' k))
        ])

  -- What is asked of the recursive call.
  abbrev Searches : ℕ → (ℕ → Search → Result Search) → Type 0
  Searches depth again =
      (b : ℕ) (st : Search)
      → IsReordered s₀ st.store
      → free us st.skip_brokers < depth
      → Returns (Keeps s₀ st) (again b st)

  former_pos :
      (st : Search) (p b l : ℕ)
      → IsReordered s₀ st.store
      → 0 < count b (replicas s₀ p)
      → leader st.store p ≡ ok l
      → 0 < count l (replicas s₀ p)
  former_pos st p b l r m e =
      let h : Returns (λ x. 0 < count x (replicas st.store p)) (leader st.store p) =
        leader-mem (replicas st.store p) b (omega (arith, r.members p b)) in
      omega (arith, Returns-at (λ x. 0 < count x (replicas st.store p)) e h, r.members p l)

  Keeps-grant :
      (st : Search) (p : ℕ) (s : Store)
      → IsReordered s₀ s
      → Keeps s₀ st (record st { store = s; skip_partitions = st.skip_partitions ++ p ∷ [] })
  Keeps-grant st p s r = record {
    reordered = r;
    more_brokers = λ c. omega arith;
    more_partitions = λ c. omega (arith, count-snoc c p st.skip_partitions);
  }

  grant_total :
      (depth : ℕ) (again : ℕ → Search → Result Search) (b : ℕ) (st : Search) (p l : ℕ)
      → Searches depth again
      → IsReordered s₀ st.store
      → free us st.skip_brokers < suc depth
      → 0 < count b (replicas s₀ p)
      → leader st.store p ≡ ok l
      → contains l st.skip_brokers ≡ false
      → Returns (Kept st) (grant opt_count again b st p)
  unfolding grant
  grant_total depth again b st p l rec r f m e unasked =
      Returns-bind (IsSwapped st.store p b) (Kept st) _ _
        (swap_leader-IsSwapped st.store p b (member p b r m))
        (λ r' w.
          let asked : IsReordered s₀ r'.0 = IsReordered-trans r w.0 in
          let m' : 0 < count r'.1 (replicas s₀ p) = former_pos st p b r'.1 r m w.2 in
          let unasked' : contains r'.1 st.skip_brokers ≡ false =
            Returns-at (λ x. contains x st.skip_brokers ≡ false) w.2 (rw e unasked) in
          Returns-bind (λ n. Unit {0}) (Kept st) _ _
            (count_preferred_replica_total r'.0 r'.1 (IsReordered-IsLinked asked v₀))
            (λ n _. elim (Bool-cases (leb opt_count n || (r'.0.broker r'.1).revoked_leadership)) [
              | inl fine ↦ rw fine (settle_total b st _ (Keeps-grant st p r'.0 asked))
              | inr few ↦ rw few (
                  Returns-bind (Keeps s₀ (granted p r'.1 (record st { store = r'.0 }))) (Kept st) _
                    _
                    (rec r'.1 (granted p r'.1 (record st { store = r'.0 })) asked (
                      let smaller = free-snoc us st.skip_brokers r'.1 (known p r'.1 m') unasked' in
                      omega arith))
                    (λ st' k. conclude_total b p r'.1 st st' m' (Keeps-from k)))
            ]))

  Keeps-refl : (st : Search) → IsReordered s₀ st.store → Keeps s₀ st st
  Keeps-refl st r = record {
    reordered = r;
    more_brokers = λ c. omega arith;
    more_partitions = λ c. omega arith;
  }

  visit_total :
      (depth : ℕ) (again : ℕ → Search → Result Search) (b : ℕ) (st : Search) (p : ℕ)
      → Searches depth again
      → IsReordered s₀ st.store
      → free us st.skip_brokers < suc depth
      → 0 < count b (replicas s₀ p)
      → Returns (Kept st) (visit opt_count again b st p)
  unfolding visit
  visit_total depth again b st p rec r f m =
      let (l, e) = first-contains b (replicas st.store p) (member p b r m) in
      Returns-step (Kept st) _ _ l e
        (elim (Bool-cases (contains l st.skip_brokers || contains p st.skip_partitions)) [
          | inl skip ↦ rw skip (Keeps-refl st r)
          | inr ask ↦ rw ask (grant_total depth again b st p l rec r f m e (ground arith))
        ])

  request_from_total :
      (depth : ℕ) (again : ℕ → Search → Result Search) (b : ℕ) (st : Search) (ps : List ℕ)
      → Searches depth again
      → IsReordered s₀ st.store
      → free us st.skip_brokers < suc depth
      → Each (λ p. 0 < count b (replicas s₀ p)) ps
      → Returns (Keeps s₀ st) (request_from opt_count again b st ps)
  unfolding request_from
  request_from_total depth again b st [] rec r f h = Keeps-refl st r
  request_from_total depth again b st (p ∷ ps) rec r f h =
      Returns-bind (Kept st) (Keeps s₀ st) _ _ (visit_total depth again b st p rec r f h.0) (λ r' k.
        elim (Bool-cases r'.0) [
          | inl done ↦ rw done k
          | inr more ↦ rw more (
              Returns-map (Keeps s₀ r'.1) (Keeps s₀ st) _ (λ st' l. Keeps-after k l)
                (request_from_total depth again b r'.1 ps rec k.reordered
                  (let less = free_mono us st.skip_brokers r'.1.skip_brokers k.more_brokers in
                    omega arith)
                  h.1))
        ])

  request_total : (depth : ℕ) → Searches depth (request_leadership opt_count depth)
  unfolding request_leadership
  request_total zero b st r f = absurd (omega arith)
  request_total (suc depth) b st r f =
      Returns-bind (Each (λ p. 0 < count b (replicas st.store p))) (Keeps s₀ st) _ _
        (let v = IsReordered-IsLinked r v₀ in
          led_by_others_total st.store b (partitions st.store b) (listed-pos st.store b v))
        (λ owned h.
          request_from_total depth (request_leadership opt_count depth) b st owned
            (request_total depth) r f
            (Each-map (λ p. 0 < count b (replicas st.store p)) (λ p. 0 < count b (replicas s₀ p))
              (λ p m. rw (← r.members p b) m) owned h))

-- With one more nested call than there are brokers that hold replicas, the search for leaders
-- that a broker begins in a linked cluster returns: it raises nothing and does not run out of
-- depth. It leaves the brokers, the topics and the groups alone, and each partition keeps its
-- replicas in another order.
pub request_leadership_total :
    (opt_count : ℕ) (us : List ℕ) (b : ℕ) (st : Search)
    → IsLinked st.store
    → ((p c : ℕ) → 0 < count c (replicas st.store p) → contains c us ≡ true)
    → Returns
        (λ st'. IsReordered st.store st'.store)
        (request_leadership opt_count (suc (length us)) b st)
request_leadership_total opt_count us b st v known =
    Returns-map (Keeps st.store st) _ _ (λ st' k. k.reordered)
      (request_total st.store us v known opt_count (suc (length us)) b st
        (IsReordered-refl st.store) (omega (arith, free-le us st.skip_brokers)))
