-- ===== src/Restart/Recover.antt =====
-- A cluster that recovers in time is waited for with success.
use kafka_utils.Base.{
  ℕ, zero, suc, ◌+◌, ◌≤◌, ◌<◌, String, List, [], ◌∷◌, true, false, ◌&&◌, ◌==◌, leb, Option, some,
  ◌≡◌, ◌≢◌, refl, ap, arith, Bool-cases, Option-cases, ◌⊎◌, inl, inr,
}
use kafka_utils.Restart.History.{
  History, polled, slept, Outcome, returned, Reply-cases, answered, garbled, Site, Ends, Ends-bind,
}
use kafka_utils.Restart.Wait.{
  tally, read_cluster_status, wait_from, max_checks, wait_for_stable_cluster,
}
use kafka_utils.Restart.Stable.{next}

-- The number of polls since the last other event, pauses aside.
abbrev pub patience : History → ℕ
patience [] = 0
patience (polled p b ∷ h) = suc (patience h)
patience (slept ∷ h) = patience h
patience _ = 0

-- Every host is healthy once it has been polled `delay` times, and never answers with an error or
-- with what cannot be read.
pub record Recovers (delay : ℕ) (site : Site) : Type 0 where
  pub polite :
      (h : History) (host : String) (c : ℕ) (v : Option ℕ)
      → site.reply h host ≡ answered c v
      → (leb 400 c && leb c 599) ≡ false
  pub readable : (h : History) (host : String) (c : ℕ) → site.reply h host ≢ garbled c
  pub healthy :
      (h : History) (host : String)
      → delay ≤ patience h
      → (c : ℕ) × (site.reply h host ≡ answered c (some 0))

-- Every connection, task and command succeeds.
pub record Works (site : Site) : Type 0 where
  pub connects : (h : History) (host : String) → site.connects h host ≡ true
  pub passes : (h : History) (t host : String) → site.task_passes h t host ≡ true
  pub runs : (h : History) (host : String) → site.command_runs h host ≡ true

-- The action returns, with a property of the history.
abbrev pub Returns {ℓ} : {A : Type ℓ} → (A → History → Type 0) → Outcome A → Type 0
Returns P o = Ends P (λ _ _. ⊥) o

module _ (site : Site) (delay : ℕ) (recovers : Recovers delay site) where
  tally_returns :
      (hosts : List String) (p b : ℕ) (h : History)
      → Returns (λ _ h'. h' ≡ h) (tally site hosts p b h)
  unfolding tally
  tally_returns [] p b h = refl
  tally_returns (host ∷ hosts) p b h = elim (Reply-cases (site.reply h host)) [
    | inl e ↦ rw (e, tally) (tally_returns hosts p (b + 1) h)
    | inr (inr (c, e)) ↦ absurd (recovers.readable h host c e)
    | inr (inl (c, v, e)) ↦
        rw (e, tally, recovers.polite h host c v e)
          (elim (Option-cases v) [
            | inl m ↦ rw (m, tally) (tally_returns hosts p (b + 1) h)
            | inr (n, m) ↦ rw (m, tally) (tally_returns hosts (p + n) b h)
          ])
  ]

  tally_healthy :
      (hosts : List String) (p b : ℕ) (h : History)
      → delay ≤ patience h
      → tally site hosts p b h ≡ returned (p, b) h
  unfolding tally
  tally_healthy [] p b h k = refl
  tally_healthy (host ∷ hosts) p b h k =
      let (c, e) = recovers.healthy h host k in
      let zeros : p + 0 ≡ p = omega arith in
      rw (e, tally, recovers.polite h host c (some 0) e) (rw zeros (tally_healthy hosts p b h k))

  -- What one read leaves behind: a poll, healthy once the delay is over.
  Polled : History → ℕ × ℕ → History → Type 0
  Polled h r h' = (h' ≡ polled r.0 r.1 ∷ h) × (delay ≤ patience h → (r.0 ≡ 0) × (r.1 ≡ 0))

  read_returns :
      (hosts : List String) (h : History) → Returns (Polled h) (read_cluster_status site hosts h)
  unfolding read_cluster_status Polled
  read_returns hosts h = elim (Bool-cases (leb delay (patience h))) [
    | inl e ↦
        let zeros : tally site hosts 0 0 h ≡ returned (0, 0) h =
          tally_healthy hosts 0 0 h (ground arith) in
        Ends-bind {A = ℕ × ℕ} (λ r h'. (h' ≡ h) × (r.0 ≡ 0) × (r.1 ≡ 0)) (Polled h) (λ _ _. ⊥)
          (tally site hosts 0 0 h) _ (rw zeros (refl, refl, refl))
          (λ r h' e. (ap (λ x. polled r.0 r.1 ∷ x) e.0, λ _. (e.1, e.2)))
    | inr n ↦
        Ends-bind (λ _ h'. h' ≡ h) (Polled h) (λ _ _. ⊥) _ _ (tally_returns hosts 0 0 h)
          (λ r h' e. (ap (λ x. polled r.0 r.1 ∷ x) e, λ k. ground arith))
  ]

  module _ (hosts : List String) (check_count : ℕ) where
    -- The rounds left are enough, from what the counter and the delay still need.
    InTime : ℕ → ℕ → History → Type 0
    InTime left stable h =
        ((delay ≤ patience h) × (check_count ≤ stable + suc left))
        ⊎ ((patience h < delay) × (delay + check_count ≤ patience h + suc left))

    InTime-next :
        (left stable p b : ℕ) (h : History)
        → InTime (suc left) stable h
        → (delay ≤ patience h → (p ≡ 0) × (b ≡ 0))
        → leb check_count (next p b stable) ≡ false
        → InTime left (next p b stable) (slept ∷ polled p b ∷ h)
    unfolding InTime
    InTime-next left stable p b h t healthy few = elim t [
      | inl (k, enough) ↦
          let (e, f) = healthy k in
          let zero_next : next p b stable ≡ suc stable = rw (e, f) (omega arith) in
          inl (omega arith, omega arith)
      | inr (k, enough) ↦ elim (Bool-cases (leb delay (suc (patience h)))) [
        | inl e ↦ inl (ground arith, ground arith)
        | inr e ↦ inr (ground arith, omega arith)
      ]
    ]

    InTime-last :
        (stable p b : ℕ) (h : History)
        → InTime 0 stable h
        → (delay ≤ patience h → (p ≡ 0) × (b ≡ 0))
        → leb check_count (next p b stable) ≡ true
    unfolding InTime
    InTime-last stable p b h t healthy = elim t [
      | inl (k, enough) ↦ let (e, f) = healthy k in rw (e, f) (ground arith)
      | inr (k, enough) ↦ ground arith
    ]

    wait_from_returns :
        (left stable : ℕ) (h : History)
        → InTime left stable h
        → Returns (λ _ _. Unit) (wait_from site hosts check_count left stable h)
    unfolding wait_from Polled
    wait_from_returns zero stable h t =
        Ends-bind (Polled h) (λ _ _. Unit) (λ _ _. ⊥) _ _ (read_returns hosts h)
          (λ r h' e. rw (e.0, InTime-last stable r.0 r.1 h t e.1) tt)
    wait_from_returns (suc left) stable h t =
        Ends-bind (Polled h) (λ _ _. Unit) (λ _ _. ⊥) _ _ (read_returns hosts h)
          (λ r h' e. rw e.0 (elim (Bool-cases (leb check_count (next r.0 r.1 stable))) [
            | inl good ↦ rw good tt
            | inr few ↦
                rw few (wait_from_returns left _ _ (InTime-next left stable r.0 r.1 h t e.1 few))
          ]))

    pub wait_for_stable_cluster_returns :
        (check_interval unhealthy_time_limit : ℕ) (h : History)
        → 0 < check_interval
        → delay + check_count ≤ suc (max_checks unhealthy_time_limit check_interval)
        → Returns
            (λ _ _. Unit)
            (wait_for_stable_cluster site hosts check_interval check_count unhealthy_time_limit h)
    unfolding wait_for_stable_cluster InTime
    wait_for_stable_cluster_returns check_interval unhealthy_time_limit h positive enough =
        let nonzero : (check_interval == 0) ≡ false = ground arith in
        rw nonzero (
          wait_from_returns (max_checks unhealthy_time_limit check_interval) 0 h
            (elim (Bool-cases (leb delay (patience h))) [
              | inl e ↦ inl (ground arith, omega arith)
              | inr e ↦ inr (ground arith, omega arith)
            ]))
