-- ===== src/Restart/Tests.antt =====
-- A cluster of three brokers that need one poll to come up, and the theorems at it.
use kafka_utils.Base.{
  Bool, ◌≢◌, ℕ, ◌≤◌, String, List, [], ◌∷◌, true, false, ◌==◌, if◌then◌else◌, some, pos, arith, ◌≡◌,
  refl, Bool-cases, ap, inl, inr, sym, ◌∙◌,
}
use kafka_utils.Restart.History.{
  History, returned, failed, Reply, answered, garbled, down, Site, Ends, zero_division,
}
use kafka_utils.Restart.Phases.{streak}
use kafka_utils.Restart.Wait.{wait_for_stable_cluster, max_checks}
use kafka_utils.Restart.Stable.{Stable, GaveUp, wait_for_stable_cluster_lem}
use kafka_utils.Restart.Execute.{drop, execute_rolling_restart}
use kafka_utils.Restart.Safety.{Restarted, InOrder, execute_rolling_restart_lem}
use kafka_utils.Restart.Recover.{patience, Recovers, Works}
use kafka_utils.Restart.Live.{execute_rolling_restart_returns}
use kafka_utils.Restart.Options.{Options, Brokers, run, validate_opts}
use kafka_utils.Restart.Run.{Result, Failure, run_lem}

abbrev slow_reply : History → String → Reply
slow_reply h host = if patience h == 0 then down else answered 200 (some 0)

abbrev slow_site : Site
slow_site = record {
  reply = slow_reply;
  connects = λ h host. true;
  task_passes = λ h t host. true;
  command_runs = λ h host. true;
}

abbrev three_brokers : Brokers
three_brokers = (1, "one") ∷ (2, "two") ∷ (3, "three") ∷ []

abbrev all_hosts : List String
all_hosts = "one" ∷ "two" ∷ "three" ∷ []

wait_for_stable_cluster_lem_example :
    Ends
      (λ _ h'. Stable 2 [] 4 h')
      (GaveUp [] 4)
      (wait_for_stable_cluster slow_site all_hosts 10 2 30 [])
unfolding max_checks
wait_for_stable_cluster_lem_example =
    wait_for_stable_cluster_lem slow_site all_hosts 2 10 30 [] (omega arith)

execute_rolling_restart_lem_example :
    Ends
      (λ _ h'. Restarted [] ("two" ∷ "three" ∷ []) h' × (2 ≤ streak h'))
      (λ _. InOrder)
      (execute_rolling_restart slow_site three_brokers 10 2 30 1 ("check" ∷ []) [] [])
unfolding drop
execute_rolling_restart_lem_example =
    execute_rolling_restart_lem slow_site three_brokers 10 2 30 1 ("check" ∷ []) [] [] (omega arith)
      (omega arith) refl

abbrev code : Reply → ℕ
code down = 200
code (answered c v) = c
code (garbled c) = c

is_garbled : Reply → Bool
is_garbled down = false
is_garbled (answered c v) = false
is_garbled (garbled c) = true

slow_readable : (h : History) (host : String) → is_garbled (slow_reply h host) ≡ false
unfolding is_garbled
slow_readable h host = elim (Bool-cases (patience h == 0)) [ inl e ↦ rw e refl | inr e ↦ rw e refl ]

slow_code : (h : History) (host : String) → code (slow_reply h host) ≡ 200
slow_code h host = elim (Bool-cases (patience h == 0)) [ inl e ↦ rw e refl | inr e ↦ rw e refl ]

slow_site_readable : (h : History) (host : String) (c : ℕ) → slow_reply h host ≢ garbled c
unfolding is_garbled
slow_site_readable h host c e = cc (sym (slow_readable h host) ∙ ap is_garbled e)

slow_site-Recovers : Recovers 1 slow_site
slow_site-Recovers = record {
  readable = slow_site_readable;
  polite = λ h host c v e. let c_is : c ≡ 200 = sym (ap code e) ∙ slow_code h host in rw c_is refl;
  healthy =
      λ h host k. let up_now : (patience h == 0) ≡ false = ground arith in rw up_now (200, refl);
}

slow_site-Works : Works slow_site
slow_site-Works = record {
  connects = λ h host. refl;
  passes = λ h t host. refl;
  runs = λ h host. refl;
}

execute_rolling_restart_returns_example :
    (h' : History) × (execute_rolling_restart slow_site three_brokers 10 2 30 1 ("check" ∷ []) [] []
      ≡ returned tt h')
    × Restarted [] ("two" ∷ "three" ∷ []) h'
unfolding max_checks drop
execute_rolling_restart_returns_example =
    execute_rolling_restart_returns slow_site 1 slow_site-Recovers three_brokers 10 2 30 1
      ("check" ∷ []) [] [] slow_site-Works (omega arith) (omega arith) (omega arith) refl

abbrev options : Options
options = record {
  broker_ids = 3 ∷ 2 ∷ [];
  check_interval = pos 10;
  check_count = pos 2;
  unhealthy_time_limit = pos 30;
  skip = pos 0;
  no_confirm = false;
}

run_lem_example :
    Ends
      (λ _. Result options three_brokers true [])
      (Failure options true [])
      (run slow_site [] [] options three_brokers true [])
run_lem_example =
    run_lem slow_site [] [] options three_brokers true [] (omega arith) (omega arith) refl

-- The options let a check interval of zero pass, and the restart divides by it.
zero_interval : validate_opts (record options { check_interval = pos 0 }) 2 ≡ false
unfolding validate_opts
zero_interval = refl

zero_interval_fails :
    wait_for_stable_cluster slow_site all_hosts 0 2 30 [] ≡ failed zero_division []
unfolding wait_for_stable_cluster
zero_interval_fails = refl
