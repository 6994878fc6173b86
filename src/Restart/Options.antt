-- ===== src/Restart/Options.antt =====
-- The options of a rolling restart, and `run` (kafka_utils/kafka_rolling_restart/main.py).
use kafka_utils.Base.{
  ℕ, String, List, [], ◌∷◌, Bool, true, false, not, ◌&&◌, ◌||◌, if◌then◌else◌, Option, none, some,
  ℤ, pos, is_negative, pos_part, ltb_ℤ, contains, is_nil, keep, length, map, string_eq,
}
use kafka_utils.Restart.History.{
  Outcome, returned, failed, Action, Site, exited, task_failed, wait_timeout,
}
use kafka_utils.Restart.Execute.{execute_rolling_restart}

pub record Options : Type 0 where
  pub broker_ids : List ℕ
  pub check_interval : ℤ
  pub check_count : ℤ
  pub unhealthy_time_limit : ℤ
  pub skip : ℤ
  pub no_confirm : Bool

abbrev pub Brokers : Type 0
Brokers = List (ℕ × String)

unfoldable pub filter_broker_list : Brokers → List ℕ → Brokers
filter_broker_list brokers filter_by = keep (λ b. contains b.0 filter_by) brokers

-- `true` if the options are not valid.
unfoldable pub validate_opts : Options → ℕ → Bool
validate_opts opts brokers_num =
    (is_negative opts.skip || not (ltb_ℤ opts.skip (pos brokers_num)))
    || is_negative opts.check_count
    || is_negative opts.unhealthy_time_limit
    || is_negative opts.check_interval

-- The loop over the ids that the user gave.
unfoldable pub validate_broker_ids_subset : List ℕ → List ℕ → Bool
validate_broker_ids_subset all_ids [] = true
validate_broker_ids_subset all_ids (i ∷ is) =
    contains i all_ids && validate_broker_ids_subset all_ids is

-- The loop of `ask_confirmation`, on the answers of the user in lower case.
unfoldable pub ask_confirmation : List String → Option Bool
ask_confirmation [] = none
ask_confirmation (choice ∷ more) =
    let again = ask_confirmation more in
    if string_eq.beq choice "yes" || string_eq.beq choice "y"
    then some true
    else (if string_eq.beq choice "no" || string_eq.beq choice "n" then some false else again)

-- The brokers to restart, or `none` for an exit.
unfoldable pub chosen_brokers : Options → Brokers → Option Brokers
unfolding filter_broker_list validate_broker_ids_subset
chosen_brokers opts brokers =
    if is_nil opts.broker_ids
    then some brokers
    else (if validate_broker_ids_subset (map (λ b. b.0) brokers) opts.broker_ids
        then some (filter_broker_list brokers opts.broker_ids)
        else none)

-- The `except` clauses: each of the two exceptions becomes an exit.
unfoldable pub handle : Outcome (Unit {0}) → Outcome (Unit {0})
handle (returned a h) = returned a h
handle (failed s h) =
    failed (elim s [ task_failed ↦ exited | wait_timeout ↦ exited | other ↦ other ]) h

module _ (site : Site) (pre_stop_task post_stop_task : List String) where
  -- `run`, from the sorted brokers of the cluster and the tasks; `confirmed` is what the user says.
  unfoldable pub run : Options → Brokers → (confirmed : Bool) → Action (Unit {0})
  unfolding chosen_brokers validate_opts handle execute_rolling_restart
  run opts brokers confirmed h = elim (chosen_brokers opts brokers) [
    | none ↦ failed exited h
    | some chosen ↦ elim (validate_opts opts (length chosen)) [
      | true ↦ failed exited h
      | false ↦ elim (opts.no_confirm || confirmed) [
        | false ↦ returned tt h
        | true ↦ handle (
            execute_rolling_restart site chosen (pos_part opts.check_interval)
              (pos_part opts.check_count) (pos_part opts.unhealthy_time_limit) (pos_part opts.skip)
              pre_stop_task post_stop_task h)
      ]
    ]
  ]
