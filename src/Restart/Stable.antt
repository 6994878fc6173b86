-- ===== src/Restart/Stable.antt =====
-- How long `wait_for_stable_cluster` waits, and what it waits for.
use kafka_utils.Base.{
  ◌≢◌, ℕ, zero, suc, ◌+◌, ◌≤◌, ◌<◌, String, List, [], ◌∷◌, true, false, ◌&&◌, ◌==◌, leb,
  if◌then◌else◌, ◌≡◌, refl, ap, arith, Bool-cases, Option-cases, ◌⊎◌, inl, inr,
}
use kafka_utils.Restart.History.{
  History, polled, slept, Stop, wait_timeout, Reply-cases, Site, Ends, Ends-bind, Ends-map,
}
use kafka_utils.Restart.Phases.{streak, polls, healthy_last, Kept}
use kafka_utils.Restart.Wait.{
  tally, read_cluster_status, wait_from, max_checks, wait_for_stable_cluster,
}

-- An exit before any event.
abbrev Exits : History → Stop → History → Type 0
Exits h s h' = (h' ≡ h) × (s ≢ wait_timeout)

-- What a wait that began at `h` leaves behind.
pub record Waited (h : History) (rounds : ℕ) (h' : History) : Type 0 where
  pub kept : Kept h h'
  pub some_polls : polls h ≤ polls h'
  pub few_polls : polls h' ≤ polls h + rounds

pub record Stable (check_count : ℕ) (h : History) (rounds : ℕ) (h' : History) : Type 0 where
  pub waited : Waited h rounds h'
  pub long : check_count ≤ streak h'
  pub last : healthy_last h' ≡ true ⊎ (check_count ≡ 0)

abbrev Reads : History → ℕ × ℕ → History → Type 0
Reads h r h' = h' ≡ polled r.0 r.1 ∷ h

-- A wait that failed; a timeout comes after all its rounds.
abbrev pub GaveUp : History → ℕ → Stop → History → Type 0
GaveUp h rounds s h' = Waited h rounds h' × (s ≡ wait_timeout → polls h' ≡ polls h + rounds)

Waited-refl : (h : History) (rounds : ℕ) → Waited h rounds h
Waited-refl h rounds = record {
  kept = record { same_phase = refl; same_restarts = refl };
  some_polls = omega arith;
  few_polls = omega arith;
}

-- The counter after a poll.
abbrev pub next : ℕ → ℕ → ℕ → ℕ
next p b stable = if p == 0 && b == 0 then stable + 1 else 0

polled_once : (h : History) (p b rounds : ℕ) → Waited h (suc rounds) (polled p b ∷ h)
polled_once h p b rounds = record {
  kept = record { same_phase = refl; same_restarts = refl };
  some_polls = omega arith;
  few_polls = omega arith;
}

enough :
    (check_count stable p b rounds : ℕ) (h : History)
    → stable ≤ streak h
    → leb check_count (next p b stable) ≡ true
    → Stable check_count h (suc rounds) (polled p b ∷ h)
enough check_count stable p b rounds h k e = record {
  waited = polled_once h p b rounds;
  long = ground arith;
  last = elim (Bool-cases (p == 0 && b == 0)) [
    | inl good ↦ inl good
    | inr bad ↦ inr (ground arith)
  ];
}

later :
    (h : History) (p b left : ℕ) (h' : History)
    → Waited (slept ∷ polled p b ∷ h) (suc left) h'
    → Waited h (suc (suc left)) h'
later h p b left h' w = record {
  kept = record { same_phase = w.kept.same_phase; same_restarts = w.kept.same_restarts };
  some_polls = omega (arith, w.some_polls);
  few_polls = omega (arith, w.few_polls);
}

module _ (site : Site) where
  tally_same :
      (hosts : List String) (p b : ℕ) (h : History)
      → Ends (λ _ h'. h' ≡ h) (Exits h) (tally site hosts p b h)
  unfolding tally
  tally_same [] p b h = refl
  tally_same (host ∷ hosts) p b h = elim (Reply-cases (site.reply h host)) [
    | inl e ↦ rw (e, tally) (tally_same hosts p (b + 1) h)
    | inr (inr (c, e)) ↦
        rw (e, tally)
          (elim (Bool-cases (leb 400 c && leb c 599)) [
            | inl bad ↦ rw bad (refl, λ f. cc)
            | inr good ↦ rw good (refl, λ f. cc)
          ])
    | inr (inl (c, v, e)) ↦
        rw (e, tally)
          (elim (Bool-cases (leb 400 c && leb c 599)) [
            | inl bad ↦ rw (bad, tally) (refl, λ f. cc)
            | inr good ↦
                rw (good, tally)
                  (elim (Option-cases v) [
                    | inl m ↦ rw (m, tally) (tally_same hosts p (b + 1) h)
                    | inr (n, m) ↦ rw (m, tally) (tally_same hosts (p + n) b h)
                  ])
          ])
  ]

  pub read_polls :
      (hosts : List String) (h : History)
      → Ends (λ r h'. h' ≡ polled r.0 r.1 ∷ h) (Exits h) (read_cluster_status site hosts h)
  unfolding read_cluster_status
  read_polls hosts h =
      Ends-bind (λ _ h'. h' ≡ h) (λ r h'. h' ≡ polled r.0 r.1 ∷ h) (Exits h) _ _
        (tally_same hosts 0 0 h) (λ r h' e. ap (λ x. polled r.0 r.1 ∷ x) e)

  read_waited :
      (hosts : List String) (h : History) (rounds : ℕ)
      → Ends (Reads h) (GaveUp h rounds) (read_cluster_status site hosts h)
  read_waited hosts h rounds =
      Ends-map (Reads h) (Reads h) (Exits h) (GaveUp h rounds) (read_cluster_status site hosts h)
        (λ r h' e. e) (λ s h' e. rw e.0 (Waited-refl h rounds, λ f. absurd (e.1 f)))
        (read_polls hosts h)

  module _ (hosts : List String) (check_count : ℕ) where
    wait_from_lem :
        (left stable : ℕ) (h : History)
        → stable ≤ streak h
        → Ends
            (λ _ h'. Stable check_count h (suc left) h')
            (GaveUp h (suc left))
            (wait_from site hosts check_count left stable h)
    unfolding wait_from
    wait_from_lem zero stable h k =
        Ends-bind (Reads h) (λ _ h'. Stable check_count h 1 h') (GaveUp h 1)
          (read_cluster_status site hosts h) _ (read_waited hosts h 1)
          (λ r h' e. rw e (elim (Bool-cases (leb check_count (next r.0 r.1 stable))) [
            | inl good ↦ rw good (enough check_count stable r.0 r.1 0 h k good)
            | inr few ↦ rw few (polled_once h r.0 r.1 0, λ f. omega arith)
          ]))
    wait_from_lem (suc left) stable h k =
        Ends-bind (Reads h) (λ _ h'. Stable check_count h (suc (suc left)) h')
          (GaveUp h (suc (suc left))) (read_cluster_status site hosts h) _
          (read_waited hosts h (suc (suc left)))
          (λ r h' e. rw e (elim (Bool-cases (leb check_count (next r.0 r.1 stable))) [
            | inl good ↦ rw good (enough check_count stable r.0 r.1 (suc left) h k good)
            | inr few ↦ rw few (
                Ends-map (λ _ h''. Stable check_count (slept ∷ polled r.0 r.1 ∷ h) (suc left) h'')
                  (λ _ h''. Stable check_count h (suc (suc left)) h'')
                  (GaveUp (slept ∷ polled r.0 r.1 ∷ h) (suc left)) (GaveUp h (suc (suc left))) _
                  (λ _ h'' w. record {
                    waited = later h r.0 r.1 left h'' w.waited;
                    long = w.long;
                    last = w.last;
                  })
                  (λ t h'' w. (later h r.0 r.1 left h'' w.0, λ f. omega (arith, w.1 f)))
                  (wait_from_lem left (next r.0 r.1 stable) (slept ∷ polled r.0 r.1 ∷ h)
                    (ground arith)))
          ]))

    -- The wait polls the cluster at most once more than the time limit has intervals. When it
    -- returns, the last polls, as many as were asked for, found nothing missing; when it times
    -- out, all polls were made. Nothing is stopped or started.
    pub wait_for_stable_cluster_lem :
        (check_interval unhealthy_time_limit : ℕ) (h : History)
        → 0 < check_interval
        → Ends
            (λ _ h'. Stable check_count h (suc (max_checks unhealthy_time_limit check_interval)) h')
            (GaveUp h (suc (max_checks unhealthy_time_limit check_interval)))
            (wait_for_stable_cluster site hosts check_interval check_count unhealthy_time_limit h)
    unfolding wait_for_stable_cluster
    wait_for_stable_cluster_lem check_interval unhealthy_time_limit h positive =
        let nonzero : (check_interval == 0) ≡ false = ground arith in
        rw nonzero
          (wait_from_lem (max_checks unhealthy_time_limit check_interval) 0 h (omega arith))
