-- ===== src/Commands/Kept.antt =====
-- What the choice of actions promises, and what its loops keep.
use kafka_utils.Base.{
  ℕ, ◌+◌, ◌≤◌, List, [], ◌∷◌, ◌++◌, map, true, false, Option, string_eq, sum_of, Each, Each-map,
  ◌≡◌, sym, ap, ◌∙◌, arith, ◌⊎◌,
}
use kafka_utils.Cluster.Topology.{Name}
use kafka_utils.Commands.Actions.{Action, over, Extraction, exceeds, take_action}
use kafka_utils.Commands.Pool.{sum_of-append, map-append, over_later}

module _ (size : Name → ℕ) (max_movements : ℕ) (max_movement_size : Option ℕ) where
  -- The actions chosen and the others: together all the actions, counted in any way. The chosen
  -- ones stay within both limits, and unless they use up the movements, no other one fits.
  pub record Extracted (actions : List Action) (names : List Name) : Type 0 where
    pub chosen : List Action
    pub others : List Action
    pub named : names ≡ map (λ a. a.0) chosen
    pub split : (f : Action → ℕ) → sum_of f chosen + sum_of f others ≡ sum_of f actions
    pub few : sum_of (λ a. a.1) chosen ≤ max_movements
    pub small : over max_movement_size (sum_of (λ a. size a.0) chosen) ≡ false
    pub full :
        (sum_of (λ a. a.1) chosen ≡ max_movements)
        ⊎ Each
            (λ a.
              exceeds size max_movements max_movement_size
                (sum_of (λ a. a.1) chosen)
                (sum_of (λ a. size a.0) chosen)
                a
              ≡ true)
            others

  -- What the loops keep; `rest` counts the actions still in the pool.
  pub record Kept (actions : List Action) (rest : (Action → ℕ) → ℕ) (x : Extraction) : Type 0 where
    pub chosen : List Action
    pub dropped : List Action
    pub named : x.extracted_actions ≡ map (λ a. a.0) chosen
    pub movements : x.curr_movements ≡ sum_of (λ a. a.1) chosen
    pub bytes : x.curr_size ≡ sum_of (λ a. size a.0) chosen
    pub split : (f : Action → ℕ) → sum_of f chosen + sum_of f dropped + rest f ≡ sum_of f actions
    pub few : x.curr_movements ≤ max_movements
    pub small : over max_movement_size x.curr_size ≡ false
    pub unfit :
        Each
          (λ a. exceeds size max_movements max_movement_size x.curr_movements x.curr_size a ≡ true)
          dropped

  -- What exceeds a limit exceeds it also later.
  pub exceeds_later :
      (m n b c : ℕ) (a : Action)
      → m ≤ n
      → b ≤ c
      → exceeds size max_movements max_movement_size m b a ≡ true
      → exceeds size max_movements max_movement_size n c a ≡ true
  exceeds_later m n b c a h k e =
      ground (arith, over_later max_movement_size (b + size a.0) (c + size a.0))

  pub Kept-drop :
      (actions : List Action) (rest : (Action → ℕ) → ℕ) (x : Extraction) (a : Action)
      (pool : List Action)
      → exceeds size max_movements max_movement_size x.curr_movements x.curr_size a ≡ true
      → Kept actions (λ f. sum_of f (a ∷ pool) + rest f) x
      → Kept actions (λ f. sum_of f pool + rest f) x
  Kept-drop actions rest x a pool e k = record {
    chosen = k.chosen;
    dropped = a ∷ k.dropped;
    named = k.named;
    movements = k.movements;
    bytes = k.bytes;
    split = λ f. omega (arith, k.split f);
    few = k.few;
    small = k.small;
    unfit = (e, k.unfit);
  }

  pub Kept-take :
      (actions : List Action) (rest : (Action → ℕ) → ℕ) (x : Extraction) (a : Action)
      (pool : List Action)
      → exceeds size max_movements max_movement_size x.curr_movements x.curr_size a ≡ false
      → Kept actions (λ f. sum_of f (a ∷ pool) + rest f) x
      → Kept actions
          (λ f. sum_of f pool + rest f)
          (take_action size max_movements max_movement_size x a)
  Kept-take actions rest x a pool e k = record {
    chosen = k.chosen ++ a ∷ [];
    dropped = k.dropped;
    named = ap (λ xs. xs ++ a.0 ∷ []) k.named ∙ sym (map-append (λ a. a.0) k.chosen (a ∷ []));
    movements = omega (arith, sum_of-append (λ a. a.1) k.chosen (a ∷ []), k.movements);
    bytes = omega (arith, sum_of-append (λ a. size a.0) k.chosen (a ∷ []), k.bytes);
    split = λ f. omega (arith, k.split f, sum_of-append f k.chosen (a ∷ []));
    few = ground arith;
    small = ground arith;
    unfit =
        Each-map _ _ (λ b. exceeds_later _ _ _ _ b (omega arith) (omega arith)) k.dropped k.unfit;
  }
