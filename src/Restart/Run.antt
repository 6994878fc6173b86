-- ===== src/Restart/Run.antt =====
-- What `run` restarts.
use kafka_utils.Base.{
  ◌<◌, ◌≤◌, String, List, map, length, Bool, true, false, ◌||◌, some, Option-cases, Bool-cases,
  pos_part, ◌≡◌, ◌≢◌, refl, ◌⊎◌, inl, inr, arith,
}
use kafka_utils.Restart.History.{
  History, Stop, Outcome, returned, failed, task_failed, wait_timeout, exited, ssh_failed,
  zero_division, bad_answer, Site, Ends, Ends-map,
}
use kafka_utils.Restart.Phases.{phase, streak, up}
use kafka_utils.Restart.Execute.{drop, execute_rolling_restart}
use kafka_utils.Restart.Safety.{InOrder, Restarted, execute_rolling_restart_lem}
use kafka_utils.Restart.Options.{Options, Brokers, chosen_brokers, validate_opts, handle, run}
use kafka_utils.Restart.Selection.{IsSelection, IsSelection-drop}

handle-Ends :
    (P : Unit {0} → History → Type 0) (Q : History → Type 0) (o : Outcome (Unit {0}))
    → Ends P (λ _. Q) o
    → Ends P (λ s h. Q h × (s ≢ task_failed) × (s ≢ wait_timeout)) (handle o)
unfolding handle
handle-Ends P Q (returned a h) e = e
handle-Ends P Q (failed task_failed h) e = (e, λ f. cc, λ f. cc)
handle-Ends P Q (failed wait_timeout h) e = (e, λ f. cc, λ f. cc)
handle-Ends P Q (failed exited h) e = (e, λ f. cc, λ f. cc)
handle-Ends P Q (failed ssh_failed h) e = (e, λ f. cc, λ f. cc)
handle-Ends P Q (failed zero_division h) e = (e, λ f. cc, λ f. cc)
handle-Ends P Q (failed bad_answer h) e = (e, λ f. cc, λ f. cc)

-- A confirmation by the user, or the option that makes it unnecessary.
abbrev pub IsSure : Options → (confirmed : Bool) → Type 0
IsSure opts confirmed = (opts.no_confirm ≡ true) ⊎ (confirmed ≡ true)

-- What `run` leaves when it returns: nothing was done without a confirmation, or there was one and
-- the selected hosts were restarted.
unfoldable pub Result : Options → Brokers → (confirmed : Bool) → History → History → Type 0
Result opts brokers confirmed h h' =
    ¬ IsSure opts confirmed × (h' ≡ h)
    ⊎ IsSure opts confirmed
      × ((hosts : List String) × IsSelection opts brokers hosts × Restarted h hosts h')

-- What `run` leaves when it ends early.
unfoldable pub Failure : Options → (confirmed : Bool) → History → Stop → History → Type 0
Failure opts confirmed h s h' =
    InOrder h' × (s ≢ task_failed) × (s ≢ wait_timeout) × (¬ IsSure opts confirmed → h' ≡ h)

sure :
    (opts : Options) (confirmed : Bool)
    → (opts.no_confirm || confirmed) ≡ true
    → IsSure opts confirmed
sure opts confirmed e = ground arith

unsure :
    (opts : Options) (confirmed : Bool)
    → (opts.no_confirm || confirmed) ≡ false
    → ¬ IsSure opts confirmed
unsure opts confirmed e (inl f) = cc (rw f at e)
unsure opts confirmed e (inr f) = ground arith

restarted_result :
    (opts : Options) (brokers chosen : Brokers) (confirmed : Bool) (h h' : History)
    → IsSure opts confirmed
    → chosen_brokers opts brokers ≡ some chosen
    → validate_opts opts (length chosen) ≡ false
    → Restarted h (drop (pos_part opts.skip) (map (λ b. b.1) chosen)) h'
    → Result opts brokers confirmed h h'
unfolding Result
restarted_result opts brokers chosen confirmed h h' given e good w = inr (
  given,
  (
    drop (pos_part opts.skip) (map (λ b. b.1) chosen),
    IsSelection-drop opts brokers chosen e good,
    w,
  ),
)

idle_result :
    (opts : Options) (brokers : Brokers) (confirmed : Bool) (h : History)
    → (opts.no_confirm || confirmed) ≡ false
    → Result opts brokers confirmed h h
unfolding Result
idle_result opts brokers confirmed h e = inl (unsure opts confirmed e, refl)

-- An exit before anything was done.
exit_failure :
    (opts : Options) (confirmed : Bool) (h : History)
    → phase h ≡ up
    → Failure opts confirmed h exited h
unfolding Failure
exit_failure opts confirmed h is_up = (inl is_up, λ f. cc, λ f. cc, λ _. refl)

sure_failure :
    (opts : Options) (confirmed : Bool) (h : History) (s : Stop) (h' : History)
    → IsSure opts confirmed
    → InOrder h' × (s ≢ task_failed) × (s ≢ wait_timeout)
    → Failure opts confirmed h s h'
unfolding Failure
sure_failure opts confirmed h s h' given (order, t, w) =
    (order, t, w, λ missing. absurd (missing given))

module _ (site : Site) (pre_stop_task post_stop_task : List String) where
  -- The restart, once it is confirmed.
  restart_lem :
      (opts : Options) (brokers chosen : Brokers) (confirmed : Bool) (h : History)
      → 0 < pos_part opts.check_interval
      → 0 < pos_part opts.check_count
      → phase h ≡ up
      → chosen_brokers opts brokers ≡ some chosen
      → validate_opts opts (length chosen) ≡ false
      → IsSure opts confirmed
      → Ends
          (λ _. Result opts brokers confirmed h)
          (Failure opts confirmed h)
          (handle (
            execute_rolling_restart site chosen
              (pos_part opts.check_interval)
              (pos_part opts.check_count)
              (pos_part opts.unhealthy_time_limit)
              (pos_part opts.skip)
              pre_stop_task
              post_stop_task
              h))
  restart_lem opts brokers chosen confirmed h positive checked is_up e good given =
      let Done = λ (_ : Unit {0}). Result opts brokers confirmed h in
      Ends-map Done Done (λ s h'. InOrder h' × (s ≢ task_failed) × (s ≢ wait_timeout))
        (Failure opts confirmed h) _ (λ _ h' w. w)
        (λ s h' w. sure_failure opts confirmed h s h' given w)
        (handle-Ends Done InOrder _ (
          Ends-map
            (λ _ h'.
              Restarted h (drop (pos_part opts.skip) (map (λ b. b.1) chosen)) h'
              × (pos_part opts.check_count ≤ streak h'))
            Done (λ _. InOrder) (λ _. InOrder) _
            (λ _ h' w. restarted_result opts brokers chosen confirmed h h' given e good w.0)
            (λ _ h' w. w)
            (execute_rolling_restart_lem site chosen (pos_part opts.check_interval)
              (pos_part opts.check_count) (pos_part opts.unhealthy_time_limit) (pos_part opts.skip)
              pre_stop_task post_stop_task h positive checked is_up)))

  -- From a cluster that is up, with a check interval and a check count above zero: if `run`
  -- returns, either it was not confirmed and nothing was done, or it was confirmed and the hosts that
  -- the options select were restarted in order, with all brokers up: of all brokers, or of those of
  -- the ids given, the hosts behind those that are skipped. Whenever it ends early, all brokers are up
  -- or the one stopped last is down, neither a failed task nor a timeout gets past it, and nothing was
  -- done unless it was confirmed. A confirmation is the user's or the option that makes it unnecessary.
  pub run_lem :
      (opts : Options) (brokers : Brokers) (confirmed : Bool) (h : History)
      → 0 < pos_part opts.check_interval
      → 0 < pos_part opts.check_count
      → phase h ≡ up
      → Ends
          (λ _. Result opts brokers confirmed h)
          (Failure opts confirmed h)
          (run site pre_stop_task post_stop_task opts brokers confirmed h)
  unfolding run
  run_lem opts brokers confirmed h positive checked is_up =
      elim (Option-cases (chosen_brokers opts brokers)) [
        | inl e ↦ rw (e, run) (exit_failure opts confirmed h is_up)
        | inr (chosen, e) ↦
            rw (e, run)
              (elim (Bool-cases (validate_opts opts (length chosen))) [
                | inl bad ↦ rw (bad, run) (exit_failure opts confirmed h is_up)
                | inr good ↦
                    rw (good, run)
                      (elim (Bool-cases (opts.no_confirm || confirmed)) [
                        | inr missing ↦
                            rw (missing, run) (idle_result opts brokers confirmed h missing)
                        | inl given ↦
                            rw (given, run)
                              (restart_lem opts brokers chosen confirmed h positive checked is_up e
                                good (sure opts confirmed given))
                      ])
              ])
      ]
