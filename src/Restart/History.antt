-- ===== src/Restart/History.antt =====
-- What a rolling restart does, as a history of events, and what it asks of its surroundings
-- (kafka_utils/kafka_rolling_restart/main.py).
use kafka_utils.Base.{ℕ, String, List, ◌∷◌, Bool, Option, ◌≡◌, refl, ◌⊎◌, inl, inr}

-- A history is a list of events, the last one first.
pub data Event : Type 0 where
  connected : (host : String) → Event
  ran : (task : String) (host : String) → Event
  polled : (partitions : ℕ) (brokers : ℕ) → Event
  slept : Event
  stopped : (host : String) → Event
  started : (host : String) → Event

abbrev pub History : Type 0
History = List Event

-- Why the script ends early: `TaskFailedException`, `WaitTimeoutException`, `sys.exit(1)`, an
-- exception of the SSH connection, a division by zero, or a ValueError or TypeError at an answer.
pub data Stop : Type 0 where
  task_failed wait_timeout exited ssh_failed zero_division bad_answer : Stop

-- The events so far are kept when an exception is raised.
pub data Outcome {ℓ} (A : Type ℓ) : Type ℓ where
  returned : A → History → Outcome A
  failed : Stop → History → Outcome A

abbrev pub Action {ℓ} : Type ℓ → Type ℓ
Action A = History → Outcome A

infixl 5 ◌>>=◌ ◌>>◌
abbrev pub ◌>>=◌ {ℓ κ} : {A : Type ℓ} {B : Type κ} → Action A → (A → Action B) → Action B
◌>>=◌ m f h = elim (m h) [ returned a h' ↦ f a h' | failed s h' ↦ failed s h' ]

abbrev pub ◌>>◌ {ℓ κ} : {A : Type ℓ} {B : Type κ} → Action A → Action B → Action B
m >> k = m >>= λ _. k

abbrev pub pure {ℓ} : {A : Type ℓ} → A → Action A
pure a h = returned a h

abbrev pub stop {ℓ} : {A : Type ℓ} → Stop → Action A
stop s h = failed s h

abbrev pub note : Event → Action (Unit {0})
note e h = returned tt (e ∷ h)

-- What a host answers to the request for its number of under-replicated partitions: a status code
-- and the value, if the answer has the key, a status code and a content that is no JSON object or
-- of which the value is no number, or a `RequestException`.
pub data Reply : Type 0 where
  answered : (status_code : ℕ) (value : Option ℕ) → Reply
  garbled : (status_code : ℕ) → Reply
  down : Reply

pub Reply-cases :
    (r : Reply)
    → (r ≡ down) ⊎ ((c : ℕ) × (v : Option ℕ) × (r ≡ answered c v)) ⊎ ((c : ℕ) × (r ≡ garbled c))
Reply-cases down = inl refl
Reply-cases (answered c v) = inr (inl (c, v, refl))
Reply-cases (garbled c) = inr (inr (c, refl))

-- The surroundings decide by what has happened.
pub record Site : Type 0 where
  pub reply : History → String → Reply
  pub connects : History → String → Bool
  pub task_passes : History → String → String → Bool
  pub command_runs : History → String → Bool

-- A property of each way to end.
abbrev pub Ends {ℓ} :
    {A : Type ℓ} → (A → History → Type 0) → (Stop → History → Type 0) → Outcome A → Type 0
Ends P Q (returned a h) = P a h
Ends P Q (failed s h) = Q s h

pub Ends-bind {ℓ κ} :
    {A : Type ℓ} {B : Type κ} (P : A → History → Type 0) (R : B → History → Type 0)
    (Q : Stop → History → Type 0) (o : Outcome A) (f : A → Action B)
    → Ends P Q o
    → ((a : A) (h : History) → P a h → Ends R Q (f a h))
    → Ends R Q (elim o [ returned a h ↦ f a h | failed s h ↦ failed s h ])
Ends-bind P R Q (returned a h) f e k = k a h e
Ends-bind P R Q (failed s h) f e k = e

pub Ends-map {ℓ} :
    {A : Type ℓ} (P P' : A → History → Type 0) (Q Q' : Stop → History → Type 0) (o : Outcome A)
    → ((a : A) (h : History) → P a h → P' a h)
    → ((s : Stop) (h : History) → Q s h → Q' s h)
    → Ends P Q o
    → Ends P' Q' o
Ends-map P P' Q Q' (returned a h) f g e = f a h e
Ends-map P P' Q Q' (failed s h) f g e = g s h e
