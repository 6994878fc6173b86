-- ===== src/Commands/Extract.antt =====
-- The choice of actions stays within its limits and is as large as they let it be.
use kafka_utils.Base.{
  ℕ, zero, suc, ◌+◌, ◌<◌, String, List, [], ◌∷◌, ◌++◌, true, false, ltb, Option, Dict, string_eq,
  Returns, length, sum_of, Each-append, Bool-cases, ◌≡◌, refl, sym, ◌∙◌, arith, ◌⊎◌, inl, inr,
}
use kafka_utils.Cluster.Topology.{Name}
use kafka_utils.Commands.Actions.{
  Action, group_actions, Extraction, exceeds, try_actions, try_topics, goes_on, rounds,
  extract_actions_unique_topics,
}
use kafka_utils.Commands.Pool.{
  sum_of-append, sum_of_ones, over_zero, pooled, left, left-pooled, left-group_actions, pooled-nil,
}
use kafka_utils.Commands.Kept.{Extracted, Kept, Kept-drop, Kept-take}

module _ (size : Name → ℕ) (max_movements : ℕ) (max_movement_size : Option ℕ) where
  -- A topic or all of them: either something was taken, or nothing is left.
  abbrev Moved : Extraction → ℕ → Extraction → ℕ → Type 0
  Moved x n x' n' =
      (x'.action_available ≡ true) × (n' < n)
      ⊎ (x'.action_available ≡ x.action_available) × (n' ≡ 0)

  Moved-then :
      (x x' x'' : Extraction) (n n' m m' : ℕ)
      → Moved x n x' n'
      → Moved x' m x'' m'
      → Moved x (n + m) x'' (n' + m')
  Moved-then x x' x'' n n' m m' h k = elim h [
    | inl (a, l) ↦ elim k [
      | inl (b, m) ↦ inl (b, omega arith)
      | inr (b, z) ↦ inl (b ∙ a, omega arith)
    ]
    | inr (a, z) ↦ elim k [
      | inl (b, l) ↦ inl (b, omega arith)
      | inr (b, y) ↦ inr (b ∙ a, omega arith)
    ]
  ]

  -- What is left of the pool of one topic.
  record Tried (actions : List Action) (rest : (Action → ℕ) → ℕ) (x : Extraction)
      (pool : List Action) (r : Extraction × List Action) : Type 0 where
    kept : Kept size max_movements max_movement_size actions (λ f. sum_of f r.1 + rest f) r.0
    moved : Moved x (sum_of (λ _. 1) pool) r.0 (sum_of (λ _. 1) r.1)

  try_actions_lem :
      (actions : List Action) (rest : (Action → ℕ) → ℕ) (pool : List Action) (x : Extraction)
      → Kept size max_movements max_movement_size actions (λ f. sum_of f pool + rest f) x
      → Tried actions rest x pool (try_actions size max_movements max_movement_size pool x)
  unfolding try_actions
  try_actions_lem actions rest [] x k = record { kept = k; moved = inr (refl, refl) }
  try_actions_lem actions rest (a ∷ pool) x k =
      elim (Bool-cases
        (exceeds size max_movements max_movement_size x.curr_movements x.curr_size a)) [
          | inl e ↦
              let t =
                try_actions_lem actions rest pool x
                  (Kept-drop size max_movements max_movement_size actions rest x a pool e k) in
              rw (e, try_actions)
                (record {
                  kept = t.kept;
                  moved = elim t.moved [ inl (b, l) ↦ inl (b, omega arith) | inr o ↦ inr o ];
                })
          | inr e ↦
              rw (e, try_actions)
                (record {
                  kept = Kept-take size max_movements max_movement_size actions rest x a pool e k;
                  moved = inl (refl, omega arith);
                })
        ]

  record Passed (actions : List Action) (rest : (Action → ℕ) → ℕ) (x : Extraction)
      (topics : Dict String (List Action)) (r : Extraction × Dict String (List Action))
      : Type 0 where
    kept : Kept size max_movements max_movement_size actions (λ f. left f r.1 + rest f) r.0
    moved : Moved x (left (λ _. 1) topics) r.0 (left (λ _. 1) r.1)

  Kept-swap :
      (actions : List Action) (p q : (Action → ℕ) → ℕ) (x : Extraction)
      → ((f : Action → ℕ) → p f ≡ q f)
      → Kept size max_movements max_movement_size actions p x
      → Kept size max_movements max_movement_size actions q x
  Kept-swap actions p q x h k = record {
    chosen = k.chosen;
    dropped = k.dropped;
    named = k.named;
    movements = k.movements;
    bytes = k.bytes;
    split = λ f. omega (arith, k.split f, h f);
    few = k.few;
    small = k.small;
    unfit = k.unfit;
  }

  try_topics_lem :
      (actions : List Action) (rest : (Action → ℕ) → ℕ) (topics : Dict String (List Action))
      (x : Extraction)
      → Kept size max_movements max_movement_size actions (λ f. left f topics + rest f) x
      → Passed actions rest x topics (try_topics size max_movements max_movement_size topics x)
  unfolding try_topics
  try_topics_lem actions rest [] x k = record { kept = k; moved = inr (refl, refl) }
  try_topics_lem actions rest ((topic, pool) ∷ more) x k =
      let t =
        try_actions_lem actions (λ f. left f more + rest f) pool x
          (Kept-swap actions _ _ x (λ f. omega arith) k) in
      let r = try_actions size max_movements max_movement_size pool x in
      let u =
        try_topics_lem actions (λ f. sum_of f r.1 + rest f) more r.0
          (Kept-swap actions _ _ r.0 (λ f. omega arith) t.kept) in
      record {
        kept = Kept-swap actions _ _ _ (λ f. omega arith) u.kept;
        moved =
            Moved-then x r.0 (try_topics size max_movements max_movement_size more r.0).0 _ _ _ _
              t.moved u.moved;
      }

  Kept-start :
      (actions : List Action) (topics : Dict String (List Action)) (x : Extraction)
      → Kept size max_movements max_movement_size actions (λ f. left f topics) x
      → Kept size max_movements max_movement_size actions
          (λ f. left f topics + 0)
          (record x { action_available = false })
  Kept-start actions topics x k = record {
    chosen = k.chosen;
    dropped = k.dropped;
    named = k.named;
    movements = k.movements;
    bytes = k.bytes;
    split = λ f. omega (arith, k.split f);
    few = k.few;
    small = k.small;
    unfit = k.unfit;
  }

  -- The end of the loop.
  finish :
      (actions : List Action) (topics : Dict String (List Action)) (x : Extraction)
      → Kept size max_movements max_movement_size actions (λ f. left f topics) x
      → goes_on size max_movements max_movement_size x ≡ false
      → (x.action_available ≡ true) ⊎ (left (λ _. 1) topics ≡ 0)
      → Extracted size max_movements max_movement_size actions x.extracted_actions
  finish actions topics x k stopped spent = record {
    chosen = k.chosen;
    others = k.dropped ++ pooled topics;
    named = k.named;
    split = λ f.
        omega (arith, k.split f, sum_of-append f k.dropped (pooled topics), left-pooled f topics);
    few = omega (arith, k.few, k.movements);
    small = rw (sym k.bytes) k.small;
    full = elim (Bool-cases (ltb x.curr_movements max_movements)) [
      | inr e ↦ inl (ground (arith, k.few, k.movements))
      | inl e ↦ elim spent [
        | inl available ↦ ground (arith, k.small)
        | inr empty ↦ inr (
            Each-append _ k.dropped (pooled topics) (rw (sym k.movements, sym k.bytes) k.unfit)
              (rw (pooled-nil topics empty) tt))
      ]
    ];
  }

  -- Another pass takes an action, or there was none left.
  abbrev Enough : ℕ → Dict String (List Action) → Extraction → Type 0
  Enough n topics x =
      (x.action_available ≡ true) × (left (λ _. 1) topics < n)
      ⊎ (x.action_available ≡ false) × (left (λ _. 1) topics ≡ 0)

  Enough-spent :
      (n : ℕ) (topics : Dict String (List Action)) (x : Extraction)
      → Enough n topics x
      → (x.action_available ≡ true) ⊎ (left (λ _. 1) topics ≡ 0)
  Enough-spent n topics x h = elim h [ inl a ↦ inl a.0 | inr a ↦ inr a.1 ]

  rounds_lem :
      (actions : List Action) (n : ℕ) (topics : Dict String (List Action)) (x : Extraction)
      → Kept size max_movements max_movement_size actions (λ f. left f topics) x
      → Enough n topics x
      → Returns
          (Extracted size max_movements max_movement_size actions)
          (rounds size max_movements max_movement_size n topics x)
  unfolding rounds
  rounds_lem actions zero topics x k enough = elim enough [
    | inl a ↦ absurd (omega (arith, a.1))
    | inr a ↦
        let stopped : goes_on size max_movements max_movement_size x ≡ false = ground arith in
        rw (stopped, rounds) (finish actions topics x k stopped (inr a.1))
  ]
  rounds_lem actions (suc n) topics x k enough =
      elim (Bool-cases (goes_on size max_movements max_movement_size x)) [
        | inl e ↦
            let t =
              try_topics_lem actions (λ _. 0) topics (record x { action_available = false })
                (Kept-start actions topics x k) in
            rw (e, rounds)
              (rounds_lem actions n _ _ (Kept-swap actions _ _ _ (λ f. omega arith) t.kept)
                (elim enough [
                  | inl a ↦ elim t.moved [
                    | inl m ↦ inl (m.0, omega (arith, m.1, a.1))
                    | inr m ↦ inr m
                  ]
                  | inr a ↦ ground arith
                ]))
        | inr e ↦
            rw (e, rounds) (finish actions topics x k e (Enough-spent (suc n) topics x enough))
      ]

  -- The choice of actions ends. The actions it chooses stay within the limits on movements and on
  -- bytes; the chosen ones and the others are together the given ones, each as often as given; and
  -- unless the movements are used up, every other action would go over a limit.
  pub extract_actions_unique_topics-Extracted :
      (movement_counts : List Action)
      → Returns
          (Extracted size max_movements max_movement_size movement_counts)
          (extract_actions_unique_topics size max_movements max_movement_size movement_counts)
  unfolding extract_actions_unique_topics
  extract_actions_unique_topics-Extracted movement_counts =
      rounds_lem movement_counts (suc (length movement_counts)) (group_actions movement_counts []) _
        (record {
          chosen = [];
          dropped = [];
          named = refl;
          movements = refl;
          bytes = refl;
          split = λ f. omega (arith, left-group_actions f movement_counts []);
          few = omega arith;
          small = over_zero max_movement_size;
          unfit = tt;
        })
        (inl (
          refl,
          omega
              (arith, left-group_actions (λ _. 1) movement_counts [], sum_of_ones movement_counts),
        ))
