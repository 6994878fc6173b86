-- ===== src/Restart/Wait.antt =====
-- `read_cluster_status` and `wait_for_stable_cluster` (kafka_utils/kafka_rolling_restart/main.py).
use kafka_utils.Base.{
  ℕ, zero, suc, ◌+◌, ◌-◌, ◌/◌, String, List, [], ◌∷◌, true, false, ◌&&◌, ◌==◌, leb, if◌then◌else◌,
  none, some,
}
use kafka_utils.Restart.History.{
  polled, slept, returned, failed, Action, ◌>>=◌, ◌>>◌, pure, stop, note, answered, down, Site,
  exited, wait_timeout, zero_division, bad_answer, garbled,
}

-- `int(math.ceil(unhealthy_time_limit / check_interval))`
unfoldable pub max_checks : ℕ → ℕ → ℕ
max_checks unhealthy_time_limit check_interval =
    (unhealthy_time_limit + (check_interval - 1)) / check_interval

module _ (site : Site) where
  -- The loop over the hosts, with the numbers of partitions and of brokers so far.
  unfoldable pub tally : List String → ℕ → ℕ → Action (ℕ × ℕ)
  tally [] partitions brokers h = returned (partitions, brokers) h
  tally (host ∷ hosts) partitions brokers h = elim (site.reply h host) [
    | down ↦ tally hosts partitions (brokers + 1) h
    | garbled status_code ↦
        failed (if leb 400 status_code && leb status_code 599 then exited else bad_answer) h
    | answered status_code value ↦ elim (leb 400 status_code && leb status_code 599) [
      | true ↦ failed exited h
      | false ↦ elim value [
        | none ↦ tally hosts partitions (brokers + 1) h
        | some n ↦ tally hosts (partitions + n) brokers h
      ]
    ]
  ]

  unfoldable pub read_cluster_status : List String → Action (ℕ × ℕ)
  unfolding tally
  read_cluster_status hosts = do
    (partitions, brokers) ← tally hosts 0 0
    note (polled partitions brokers)
    pure (partitions, brokers)

  module _ (hosts : List String) (check_count : ℕ) where
    -- The loop, with the number of checks left after this one, `max_checks - i`.
    unfoldable pub wait_from : ℕ → ℕ → Action (Unit {0})
    unfolding read_cluster_status
    wait_from zero stable_counter = do
      (partitions, brokers) ← read_cluster_status hosts
      if leb check_count (if partitions == 0 && brokers == 0 then stable_counter + 1 else 0)
          then pure tt
          else stop wait_timeout
    wait_from (suc left) stable_counter = do
      (partitions, brokers) ← read_cluster_status hosts
      let stable = if partitions == 0 && brokers == 0 then stable_counter + 1 else 0
      elim (leb check_count stable) [
        | true ↦ pure tt
        | false ↦ do note slept; wait_from left stable
      ]

  unfoldable pub wait_for_stable_cluster : List String → ℕ → ℕ → ℕ → Action (Unit {0})
  unfolding wait_from max_checks
  wait_for_stable_cluster hosts check_interval check_count unhealthy_time_limit =
      if check_interval == 0
      then stop zero_division
      else wait_from hosts check_count (max_checks unhealthy_time_limit check_interval) 0
