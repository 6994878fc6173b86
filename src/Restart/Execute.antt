-- ===== src/Restart/Execute.antt =====
-- `execute_rolling_restart` (kafka_utils/kafka_rolling_restart/main.py).
use kafka_utils.Base.{ℕ, zero, suc, ◌==◌, String, List, [], ◌∷◌, true, false, map, if◌then◌else◌}
use kafka_utils.Restart.History.{
  connected, ran, stopped, started, Event, returned, failed, Action, ◌>>◌, pure, Site, task_failed,
  ssh_failed,
}
use kafka_utils.Restart.Wait.{wait_for_stable_cluster}

-- `xs[n:]`
unfoldable pub drop {ℓ} : {A : Type ℓ} → ℕ → List A → List A
drop zero xs = xs
drop (suc n) [] = []
drop (suc n) (x ∷ xs) = drop n xs

module _ (site : Site) where
  unfoldable pub execute_task : List String → String → Action (Unit {0})
  execute_task [] host h = returned tt h
  execute_task (t ∷ ts) host h = elim (site.task_passes h t host) [
    | true ↦ execute_task ts host (ran t host ∷ h)
    | false ↦ failed task_failed h
  ]

  -- `with ssh(host=host, …) as connection`
  unfoldable pub connect : String → Action (Unit {0})
  connect host h =
      if site.connects h host then returned tt (connected host ∷ h) else failed ssh_failed h

  -- `stop_broker` and `start_broker`: a command that leaves its event behind.
  unfoldable pub sudo_command : Event → String → Action (Unit {0})
  sudo_command event host h =
      if site.command_runs h host then returned tt (event ∷ h) else failed ssh_failed h

  module _ (all_hosts : List String) (check_interval check_count unhealthy_time_limit : ℕ)
      (pre_stop_task post_stop_task : List String) where
    -- One round of the loop; `n` is its number.
    unfoldable pub restart : ℕ → String → Action (Unit {0})
    unfolding execute_task connect sudo_command
    restart n host = do
      connect host
      execute_task pre_stop_task host
      wait_for_stable_cluster site all_hosts check_interval (if n == 0 then 1 else check_count)
          unhealthy_time_limit
      sudo_command (stopped host) host
      execute_task post_stop_task host
      connect host
      sudo_command (started host) host

    unfoldable pub restart_each : ℕ → List String → Action (Unit {0})
    unfolding restart
    restart_each n [] = pure tt
    restart_each n (host ∷ hosts) = do restart n host; restart_each (suc n) hosts

  unfoldable pub execute_rolling_restart :
      List (ℕ × String) → ℕ → ℕ → ℕ → ℕ → List String → List String → Action (Unit {0})
  unfolding restart_each
  execute_rolling_restart brokers check_interval check_count unhealthy_time_limit skip pre_stop_task
        post_stop_task =
      do
        let all_hosts = map (λ b. b.1) brokers
        restart_each all_hosts check_interval check_count unhealthy_time_limit pre_stop_task
            post_stop_task 0 (drop skip all_hosts)
        wait_for_stable_cluster site all_hosts check_interval check_count unhealthy_time_limit
