-- ===== src/Restart/Phases.antt =====
-- What a history of a rolling restart says: who is down, what was restarted, how stable it is.
use kafka_utils.Base.{
  ℕ, suc, String, List, [], ◌∷◌, ◌++◌, Bool, true, false, ◌&&◌, ◌==◌, if◌then◌else◌, string_eq, ◌≡◌,
}
use kafka_utils.Restart.History.{History, connected, ran, polled, slept, stopped, started}

-- The number of healthy polls since the last other event, pauses aside.
abbrev pub streak : History → ℕ
streak [] = 0
streak (polled p b ∷ h) = if p == 0 && b == 0 then suc (streak h) else 0
streak (slept ∷ h) = streak h
streak (connected host ∷ h) = 0
streak (ran t host ∷ h) = 0
streak (stopped host ∷ h) = 0
streak (started host ∷ h) = 0

abbrev pub polls : History → ℕ
polls [] = 0
polls (polled p b ∷ h) = suc (polls h)
polls (slept ∷ h) = polls h
polls (connected host ∷ h) = polls h
polls (ran t host ∷ h) = polls h
polls (stopped host ∷ h) = polls h
polls (started host ∷ h) = polls h

-- Whether the last event is a poll without missing brokers or under-replicated partitions.
abbrev pub healthy_last : History → Bool
healthy_last (polled p b ∷ h) = p == 0 && b == 0
healthy_last _ = false

-- The hosts started, in order.
abbrev pub restarts : History → List String
restarts [] = []
restarts (started host ∷ h) = restarts h ++ host ∷ []
restarts (stopped host ∷ h) = restarts h
restarts (polled p b ∷ h) = restarts h
restarts (slept ∷ h) = restarts h
restarts (connected host ∷ h) = restarts h
restarts (ran t host ∷ h) = restarts h

-- All brokers up, one that the script stopped, or a history out of order: a broker stopped
-- while another was down or without a healthy poll just before, or one started that was up.
pub data Phase : Type 0 where
  up : Phase
  one_down : (host : String) → Phase
  disorder : Phase

abbrev pub on_stop : String → Bool → Phase → Phase
on_stop host true up = one_down host
on_stop host _ _ = disorder

abbrev pub on_start : String → Phase → Phase
on_start host (one_down other) = if string_eq.beq other host then up else disorder
on_start host _ = disorder

abbrev pub phase : History → Phase
phase [] = up
phase (stopped host ∷ h) = on_stop host (healthy_last h) (phase h)
phase (started host ∷ h) = on_start host (phase h)
phase (polled p b ∷ h) = phase h
phase (slept ∷ h) = phase h
phase (connected host ∷ h) = phase h
phase (ran t host ∷ h) = phase h

-- Nothing was stopped or started in between.
pub record Kept (h h' : History) : Type 0 where
  pub same_phase : phase h' ≡ phase h
  pub same_restarts : restarts h' ≡ restarts h
