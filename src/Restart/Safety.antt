-- ===== src/Restart/Safety.antt =====
-- What the whole restart keeps: one broker down at a time, and only in a healthy cluster.
use kafka_utils.Base.{
  ℕ, suc, ◌≤◌, ◌<◌, String, List, [], ◌∷◌, ◌++◌, true, ◌==◌, map, if◌then◌else◌, string_eq, ◌≡◌,
  refl, sym, ap, ◌∙◌, arith, Bool-cases, ◌⊎◌, inl, inr,
}
use mathlib.Core.List.{append_assoc, append-nil}
use kafka_utils.Restart.History.{
  History, Event, ran, stopped, started, Outcome, returned, failed, Action, Site, Ends, Ends-bind,
  Ends-map,
}
use kafka_utils.Restart.Phases.{streak, healthy_last, phase, restarts, Kept, Phase, up, one_down}
use kafka_utils.Restart.Wait.{max_checks, wait_for_stable_cluster}
use kafka_utils.Restart.Stable.{Stable, GaveUp, wait_for_stable_cluster_lem}
use kafka_utils.Restart.Execute.{
  drop, execute_task, connect, sudo_command, restart, restart_each, execute_rolling_restart,
}

-- All brokers are up, or one that the script stopped is down.
abbrev pub InOrder : History → Type 0
InOrder h = (phase h ≡ up) ⊎ (host : String) × (phase h ≡ one_down host)

-- The script has restarted some more hosts, and all brokers are up.
abbrev pub Restarted : History → List String → History → Type 0
Restarted h hosts h' = (phase h' ≡ up) × (restarts h' ≡ restarts h ++ hosts)

-- Both at the end and at a failure.
abbrev Always : (History → Type 0) → Outcome (Unit {0}) → Type 0
Always P o = Ends (λ _. P) (λ _. P) o

Kept-trans : (h k l : History) → Kept h k → Kept k l → Kept h l
Kept-trans h k l a b = record {
  same_phase = b.same_phase ∙ a.same_phase;
  same_restarts = b.same_restarts ∙ a.same_restarts;
}

Kept-Always :
    (h k : History) (o : Outcome (Unit {0})) → Kept h k → Always (Kept k) o → Always (Kept h) o
Kept-Always h k o a =
    Ends-map (λ _. Kept k) (λ _. Kept h) (λ _. Kept k) (λ _. Kept h) o (λ _ l. Kept-trans h k l a)
      (λ _ l. Kept-trans h k l a)

-- The phase that the script is in, with no more hosts restarted.
abbrev At : Phase → History → History → Type 0
At now h k = (phase k ≡ now) × (restarts k ≡ restarts h)

At-Kept : (now : Phase) (h k l : History) → At now h k → Kept k l → At now h l
At-Kept now h k l a b = (b.same_phase ∙ a.0, b.same_restarts ∙ a.1)

-- An action that keeps the phase, and what comes after it.
Kept-bind :
    (now : Phase) (R : Unit {0} → History → Type 0) (h k : History) (o : Outcome (Unit {0}))
    (f : Unit {0} → Action (Unit {0}))
    → ((l : History) → phase l ≡ now → InOrder l)
    → At now h k
    → Always (Kept k) o
    → ((l : History) → At now h l → Ends R (λ _. InOrder) (f tt l))
    → Ends R (λ _. InOrder) (elim o [ returned a l ↦ f a l | failed s l ↦ failed s l ])
Kept-bind now R h k o f fine at kept rest =
    Ends-bind (λ _. At now h) R (λ _. InOrder) o f
      (Ends-map (λ _. Kept k) (λ _. At now h) (λ _. Kept k) (λ _. InOrder) o
        (λ _ l e. At-Kept now h k l at e) (λ _ l e. fine l (At-Kept now h k l at e).0) kept)
      (λ _ l e. rest l e)

module _ (site : Site) where
  connect-Kept : (host : String) (h : History) → Always (Kept h) (connect site host h)
  unfolding connect
  connect-Kept host h = elim (Bool-cases (site.connects h host)) [
    | inl e ↦ rw e (record { same_phase = refl; same_restarts = refl })
    | inr e ↦ rw e (record { same_phase = refl; same_restarts = refl })
  ]

  execute_task-Kept :
      (tasks : List String) (host : String) (h : History)
      → Always (Kept h) (execute_task site tasks host h)
  unfolding execute_task
  execute_task-Kept [] host h = record { same_phase = refl; same_restarts = refl }
  execute_task-Kept (t ∷ ts) host h = elim (Bool-cases (site.task_passes h t host)) [
    | inl e ↦
        rw (e, execute_task)
          (Kept-Always h (ran t host ∷ h) _ (record { same_phase = refl; same_restarts = refl })
            (execute_task-Kept ts host (ran t host ∷ h)))
    | inr e ↦ rw (e, execute_task) (record { same_phase = refl; same_restarts = refl })
  ]

  sudo_command_lem :
      (event : Event) (host : String) (h : History)
      → Ends (λ _ h'. h' ≡ event ∷ h) (λ _ h'. h' ≡ h) (sudo_command site event host h)
  unfolding sudo_command
  sudo_command_lem event host h = elim (Bool-cases (site.command_runs h host)) [
    | inl e ↦ rw e refl
    | inr e ↦ rw e refl
  ]

  module _ (all_hosts : List String) (check_interval check_count unhealthy_time_limit : ℕ)
      (pre_stop_task post_stop_task : List String) (positive : 0 < check_interval)
      (checked : 0 < check_count) where
    -- A wait keeps what is up, and when it returns, the last poll was healthy.
    wait-Kept :
        (count : ℕ) (h : History)
        → 0 < count
        → Ends
            (λ _ h'. Kept h h' × (healthy_last h' ≡ true))
            (λ _. Kept h)
            (wait_for_stable_cluster site all_hosts check_interval count unhealthy_time_limit h)
    wait-Kept count h some_checks =
        let rounds = suc (max_checks unhealthy_time_limit check_interval) in
        Ends-map (λ _. Stable count h rounds) (λ _ h'. Kept h h' × (healthy_last h' ≡ true))
          (GaveUp h rounds) (λ _. Kept h) _
          (λ _ h' w. (w.waited.kept, elim w.last [ inl e ↦ e | inr e ↦ ground arith ]))
          (λ _ h' w. w.0.kept)
          (wait_for_stable_cluster_lem site all_hosts count check_interval unhealthy_time_limit h
            positive)

    -- The two commands around the second half of a round.
    stop_lem :
        (h k : History) (host : String)
        → At up h k
        → healthy_last k ≡ true
        → Ends (λ _. At (one_down host) h) (λ _. InOrder) (sudo_command site (stopped host) host k)
    stop_lem h k host at healthy =
        Ends-map (λ _ l. l ≡ stopped host ∷ k) (λ _. At (one_down host) h) (λ _ l. l ≡ k)
          (λ _. InOrder) _ (λ _ l e. rw (e, healthy, at.0) (refl, at.1)) (λ _ l e. rw e (inl at.0))
          (sudo_command_lem (stopped host) host k)

    start_lem :
        (h k : History) (host : String)
        → At (one_down host) h k
        → Ends
            (λ _. Restarted h (host ∷ []))
            (λ _. InOrder)
            (sudo_command site (started host) host k)
    start_lem h k host at =
        let same : string_eq.beq host host ≡ true = (string_eq.beq_iff host host).1 refl in
        Ends-map (λ _ l. l ≡ started host ∷ k) (λ _. Restarted h (host ∷ [])) (λ _ l. l ≡ k)
          (λ _. InOrder) _ (λ _ l e. rw (e, at.0, same, at.1) (refl, refl))
          (λ _ l e. rw e (inr (host, at.0))) (sudo_command_lem (started host) host k)

    abbrev count : ℕ → ℕ
    count n = if n == 0 then 1 else check_count

    restart_lem :
        (n : ℕ) (host : String) (h : History)
        → phase h ≡ up
        → Ends
            (λ _. Restarted h (host ∷ []))
            (λ _. InOrder)
            (restart site all_hosts check_interval check_count unhealthy_time_limit pre_stop_task
              post_stop_task n host h)
    unfolding restart
    restart_lem n host h is_up =
        let R : Unit {0} → History → Type 0 = λ _. Restarted h (host ∷ []) in
        Kept-bind up R h h _ _ (λ l. inl) (is_up, refl) (connect-Kept host h)
          (λ h1 a1.
            Kept-bind up R h h1 _ _ (λ l. inl) a1 (execute_task-Kept pre_stop_task host h1)
              (λ h2 a2.
                Ends-bind (λ _ k. At up h k × (healthy_last k ≡ true)) R (λ _. InOrder) _ _
                  (Ends-map (λ _ k. Kept h2 k × (healthy_last k ≡ true)) _ (λ _. Kept h2) _ _
                    (λ _ k e. (At-Kept up h h2 k a2 e.0, e.1))
                    (λ _ k e. inl (At-Kept up h h2 k a2 e).0)
                    (wait-Kept (count n) h2 (ground arith)))
                  (λ _ h3 a3.
                    Ends-bind (λ _. At (one_down host) h) R (λ _. InOrder) _ _
                      (stop_lem h h3 host a3.0 a3.1)
                      (λ _ h4 a4.
                        Kept-bind (one_down host) R h h4 _ _ (λ l e. inr (host, e)) a4
                          (execute_task-Kept post_stop_task host h4)
                          (λ h5 a5.
                            Kept-bind (one_down host) R h h5 _ _ (λ l e. inr (host, e)) a5
                              (connect-Kept host h5) (λ h6 a6. start_lem h h6 host a6))))))

    restart_each_lem :
        (n : ℕ) (hosts : List String) (h : History)
        → phase h ≡ up
        → Ends
            (λ _. Restarted h hosts)
            (λ _. InOrder)
            (restart_each site all_hosts check_interval check_count unhealthy_time_limit
              pre_stop_task post_stop_task n hosts h)
    unfolding restart_each
    restart_each_lem n [] h is_up = (is_up, sym (append-nil (restarts h)))
    restart_each_lem n (host ∷ hosts) h is_up =
        Ends-bind (λ _. Restarted h (host ∷ [])) (λ _. Restarted h (host ∷ hosts)) (λ _. InOrder) _
          _ (restart_lem n host h is_up)
          (λ _ k e.
            Ends-map (λ _. Restarted k hosts) (λ _. Restarted h (host ∷ hosts)) (λ _. InOrder)
              (λ _. InOrder) _
              (λ _ l f.
                (f.0, f.1 ∙ ap (λ x. x ++ hosts) e.1 ∙ append_assoc (restarts h) (host ∷ []) hosts))
              (λ _ l f. f) (restart_each_lem (suc n) hosts k e.0))

  -- From a cluster that is up, with a check interval and a check count that are not zero: whenever
  -- the restart ends, all brokers are up or the one stopped last is down; a broker was only stopped
  -- right after a healthy poll and with no other one down. When it returns, all are up, all hosts
  -- but the skipped ones were restarted once and in order, and the last polls, `check_count` of
  -- them, were healthy.
  pub execute_rolling_restart_lem :
      (brokers : List (ℕ × String)) (check_interval check_count unhealthy_time_limit skip : ℕ)
      (pre_stop_task post_stop_task : List String) (h : History)
      → 0 < check_interval
      → 0 < check_count
      → phase h ≡ up
      → Ends
          (λ _ h'. Restarted h (drop skip (map (λ b. b.1) brokers)) h' × (check_count ≤ streak h'))
          (λ _. InOrder)
          (execute_rolling_restart site brokers check_interval check_count unhealthy_time_limit skip
            pre_stop_task post_stop_task h)
  unfolding execute_rolling_restart
  execute_rolling_restart_lem brokers check_interval check_count unhealthy_time_limit skip pre post
        h positive checked is_up =
      let all_hosts = map (λ b. b.1) brokers in
      let hosts = drop skip all_hosts in
      let rounds = suc (max_checks unhealthy_time_limit check_interval) in
      Ends-bind (λ _. Restarted h hosts) (λ _ l. Restarted h hosts l × (check_count ≤ streak l))
        (λ _. InOrder) _ _
        (restart_each_lem all_hosts check_interval check_count unhealthy_time_limit pre post
          positive checked 0 hosts h is_up)
        (λ _ k e.
          Ends-map (λ _. Stable check_count k rounds) _ (GaveUp k rounds) (λ _. InOrder) _
            (λ _ l w. ((w.waited.kept.same_phase ∙ e.0, w.waited.kept.same_restarts ∙ e.1), w.long))
            (λ _ l w. inl (w.0.kept.same_phase ∙ e.0))
            (wait_for_stable_cluster_lem site all_hosts check_count check_interval
              unhealthy_time_limit k positive))
