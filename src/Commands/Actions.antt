-- ===== src/Commands/Actions.antt =====
-- `Command._extract_actions_unique_topics` (kafka_cluster_manager/cmds/command.py).
use kafka_utils.Base.{
  ℕ, zero, suc, ◌+◌, String, List, [], ◌∷◌, ◌++◌, Bool, true, false, not, ◌&&◌, ◌||◌, ltb,
  if◌then◌else◌, Option, none, some, Dict, string_eq, Result, ok, raise, out_of_fuel, length,
}
use kafka_utils.Cluster.Topology.{Name}

-- A partition and its number of replica movements.
abbrev pub Action : Type 0
Action = Name × ℕ

-- `topic_actions[topic].append(action)`, of a `defaultdict(list)`.
unfoldable pub append_action :
    String → Action → Dict String (List Action) → Dict String (List Action)
append_action topic action [] = (topic, action ∷ []) ∷ []
append_action topic action ((t, actions) ∷ more) =
    let rest = append_action topic action more in
    if string_eq.beq t topic then (t, actions ++ action ∷ []) ∷ more else (t, actions) ∷ rest

unfoldable pub group_actions : List Action → Dict String (List Action) → Dict String (List Action)
unfolding append_action
group_actions [] topics = topics
group_actions (a ∷ more) topics = group_actions more (append_action a.0.0 a topics)

-- `n > limit`, where no limit is infinity.
abbrev pub over : Option ℕ → ℕ → Bool
over none n = false
over (some limit) n = ltb limit n

-- The variables of the loops.
pub record Extraction : Type 0 where
  pub extracted_actions : List Name
  pub curr_movements : ℕ
  pub curr_size : ℕ
  pub action_available : Bool

-- `size` stands for the sizes of the partitions of the topology.
module _ (size : Name → ℕ) (max_movements : ℕ) (max_movement_size : Option ℕ) where
  -- Whether an action goes over a limit after these numbers of movements and bytes.
  abbrev pub exceeds : ℕ → ℕ → Action → Bool
  exceeds movements bytes a =
      ltb max_movements (movements + a.1) || over max_movement_size (bytes + size a.0)

  abbrev pub take_action : Extraction → Action → Extraction
  take_action x a = record {
    extracted_actions = x.extracted_actions ++ a.0 ∷ [];
    curr_movements = x.curr_movements + a.1;
    curr_size = x.curr_size + size a.0;
    action_available = true;
  }

  -- The loop over the actions of a topic, with what is left of them. Those before the current
  -- action have been removed, so the action to remove is the first.
  unfoldable pub try_actions : List Action → Extraction → Extraction × List Action
  try_actions [] x = (x, [])
  try_actions (a ∷ more) x = elim (exceeds x.curr_movements x.curr_size a) [
    | true ↦ try_actions more x
    | false ↦ (take_action x a, more)
  ]

  -- The loop over the topics.
  unfoldable pub try_topics :
      Dict String (List Action) → Extraction → Extraction × Dict String (List Action)
  unfolding try_actions
  try_topics [] x = (x, [])
  try_topics ((topic, actions) ∷ more) x =
      let (x', left) = try_actions actions x in
      let (x'', topics) = try_topics more x' in (x'', (topic, left) ∷ topics)

  abbrev pub goes_on : Extraction → Bool
  goes_on x =
      ltb x.curr_movements max_movements
      && not (over max_movement_size x.curr_size)
      && x.action_available

  -- The outer loop, with the rounds left.
  unfoldable pub rounds : ℕ → Dict String (List Action) → Extraction → Result (List Name)
  unfolding try_topics
  rounds zero topics x = if goes_on x then raise out_of_fuel else ok x.extracted_actions
  rounds (suc n) topics x = elim (goes_on x) [
    | false ↦ ok x.extracted_actions
    | true ↦
        let (x', topics') = try_topics topics (record x { action_available = false }) in
        rounds n topics' x'
  ]

  unfoldable pub extract_actions_unique_topics : List Action → Result (List Name)
  unfolding group_actions rounds
  extract_actions_unique_topics movement_counts =
      rounds (suc (length movement_counts)) (group_actions movement_counts []) (record {
        extracted_actions = [];
        curr_movements = 0;
        curr_size = 0;
        action_available = true;
      })
