-- ===== src/Restart/Live.antt =====
-- A cluster that recovers in time is restarted to the end.
use kafka_utils.Base.{
  ℕ, suc, ◌+◌, ◌≤◌, ◌<◌, String, List, [], ◌∷◌, ◌==◌, map, if◌then◌else◌, ◌≡◌, refl, arith,
}
use kafka_utils.Restart.History.{
  History, Event, ran, stopped, started, Outcome, returned, failed, Action, Stop, Site, Ends,
  Ends-bind,
}
use kafka_utils.Restart.Phases.{phase, up}
use kafka_utils.Restart.Wait.{max_checks, wait_for_stable_cluster}
use kafka_utils.Restart.Execute.{
  drop, execute_task, connect, sudo_command, restart, restart_each, execute_rolling_restart,
}
use kafka_utils.Restart.Safety.{Restarted, execute_rolling_restart_lem}
use kafka_utils.Restart.Recover.{Recovers, Works, Returns, wait_for_stable_cluster_returns}

module _ (site : Site) (delay : ℕ) (recovers : Recovers delay site) where
  module _ (works : Works site) where
    connect_returns : (host : String) (h : History) → Returns (λ _ _. Unit) (connect site host h)
    unfolding connect
    connect_returns host h = rw (works.connects h host) tt

    execute_task_returns :
        (tasks : List String) (host : String) (h : History)
        → Returns (λ _ _. Unit) (execute_task site tasks host h)
    unfolding execute_task
    execute_task_returns [] host h = tt
    execute_task_returns (t ∷ ts) host h =
        rw (works.passes h t host, execute_task) (execute_task_returns ts host (ran t host ∷ h))

    sudo_command_returns :
        (event : Event) (host : String) (h : History)
        → Returns (λ _ _. Unit) (sudo_command site event host h)
    unfolding sudo_command
    sudo_command_returns event host h = rw (works.runs h host) tt

    abbrev then_returns :
        (o : Outcome (Unit {0})) (f : Unit {0} → Action (Unit {0}))
        → Returns (λ _ _. Unit) o
        → ((h : History) → Returns (λ _ _. Unit) (f tt h))
        → Returns (λ _ _. Unit) (elim o [ returned a h ↦ f a h | failed s h ↦ failed s h ])
    then_returns o f e k = Ends-bind (λ _ _. Unit) (λ _ _. Unit) (λ _ _. ⊥) o f e (λ _ h _. k h)

    module _ (all_hosts : List String) (check_interval check_count unhealthy_time_limit : ℕ)
        (pre_stop_task post_stop_task : List String) (positive : 0 < check_interval)
        (checked : 0 < check_count)
        (enough : delay + check_count ≤ suc (max_checks unhealthy_time_limit check_interval)) where
      wait_returns :
          (count : ℕ) (h : History)
          → count ≤ check_count
          → Returns
              (λ _ _. Unit)
              (wait_for_stable_cluster site all_hosts check_interval count unhealthy_time_limit h)
      wait_returns count h few =
          wait_for_stable_cluster_returns site delay recovers all_hosts count check_interval
            unhealthy_time_limit h positive (omega arith)

      restart_returns :
          (n : ℕ) (host : String) (h : History)
          → Returns
              (λ _ _. Unit)
              (restart site all_hosts check_interval check_count unhealthy_time_limit pre_stop_task
                post_stop_task n host h)
      unfolding restart
      restart_returns n host h = then_returns _ _ (connect_returns host h) (λ h1.
          then_returns _ _ (execute_task_returns pre_stop_task host h1) (λ h2.
            then_returns _ _ (wait_returns (if n == 0 then 1 else check_count) h2 (ground arith))
              (λ h3. then_returns _ _ (sudo_command_returns (stopped host) host h3) (λ h4.
                then_returns _ _ (execute_task_returns post_stop_task host h4) (λ h5.
                  then_returns _ _ (connect_returns host h5)
                    (λ h6. sudo_command_returns (started host) host h6))))))

      restart_each_returns :
          (n : ℕ) (hosts : List String) (h : History)
          → Returns
              (λ _ _. Unit)
              (restart_each site all_hosts check_interval check_count unhealthy_time_limit
                pre_stop_task post_stop_task n hosts h)
      unfolding restart_each
      restart_each_returns n [] h = tt
      restart_each_returns n (host ∷ hosts) h =
          then_returns _ _ (restart_returns n host h) (λ k. restart_each_returns (suc n) hosts k)

  Ends-Returns :
      (P : History → Type 0) (Q : Stop → History → Type 0) (o : Outcome (Unit {0}))
      → Ends (λ _. P) Q o
      → Returns (λ _ _. Unit) o
      → (h : History) × (o ≡ returned tt h) × P h
  Ends-Returns P Q (returned tt h) e r = (h, refl, e)
  Ends-Returns P Q (failed s h) e r = absurd r

  -- If every connection, task and command succeeds, no host answers with an error or
  -- with what cannot be read, every host is
  -- healthy once it has been polled `delay` times, and the checks allowed leave room for the delay
  -- and `check_count` polls, with a check interval and a check count that are not zero, then a
  -- restart of a cluster that is up returns, with all hosts but the skipped ones restarted in order.
  pub execute_rolling_restart_returns :
      (brokers : List (ℕ × String)) (check_interval check_count unhealthy_time_limit skip : ℕ)
      (pre_stop_task post_stop_task : List String) (h : History)
      → Works site
      → 0 < check_interval
      → 0 < check_count
      → delay + check_count ≤ suc (max_checks unhealthy_time_limit check_interval)
      → phase h ≡ up
      → (h' : History) × (execute_rolling_restart site brokers check_interval check_count
            unhealthy_time_limit skip pre_stop_task post_stop_task h
          ≡ returned tt h')
        × Restarted h (drop skip (map (λ b. b.1) brokers)) h'
  unfolding execute_rolling_restart
  execute_rolling_restart_returns brokers check_interval check_count unhealthy_time_limit skip pre
        post h works positive checked enough is_up =
      let all_hosts = map (λ b. b.1) brokers in
      let (l, e, w) =
        Ends-Returns _ _ _
          (execute_rolling_restart_lem site brokers check_interval check_count unhealthy_time_limit
            skip pre post h positive checked is_up)
          (then_returns works _ _
            (restart_each_returns works all_hosts check_interval check_count unhealthy_time_limit
              pre post positive checked enough 0 (drop skip all_hosts) h)
            (λ k.
              wait_returns works all_hosts check_interval check_count unhealthy_time_limit pre post
                positive checked enough check_count k (omega arith))) in
      (l, e, w.0)
