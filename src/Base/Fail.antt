-- ===== src/Base/Fail.antt =====
-- Python's exceptions as values. `out_of_fuel` is no exception of the program: it marks a loop
-- that was given too few rounds, and the theorems show that it does not come up.
use mathlib.Core.Bool.{Bool, true, false}
use mathlib.Core.Path.{◌≡◌, refl}

pub data Error : Type 0 where
  value_error key_error assertion_error attribute_error type_error index_error : Error
  invalid_broker_id invalid_partition invalid_replication_factor : Error
  invalid_measurement empty_replication_group broker_decommission not_eligible_group : Error
  rebalance_error zero_division_error unknown_topic unknown_partitions kafka_error system_exit
        unbound_local_error out_of_fuel :
      Error

pub data Result {ℓ} (A : Type ℓ) : Type ℓ where
  ok : A → Result A
  raise : Error → Result A

-- `assert` and `if not …: raise …`.
abbrev pub require : Bool → Error → Result (Unit {0})
require true e = ok tt
require false e = raise e

-- What follows a call is skipped once it has raised.
infixl 5 ◌>>=◌ ◌>>◌
abbrev pub ◌>>=◌ {ℓ κ} : {A : Type ℓ} {B : Type κ} → Result A → (A → Result B) → Result B
◌>>=◌ (raise e) next = raise e
◌>>=◌ (ok value) next = next value

abbrev pub ◌>>◌ {ℓ} : {B : Type ℓ} → Result (Unit {0}) → Result B → Result B
call >> next = call >>= λ _. next

pub >>=-eq-ok {ℓ κ} :
    {A : Type ℓ} {B : Type κ} (call : Result A) (next : A → Result B) {c : B}
    → (call >>= next) ≡ ok c
    → (a : A) × (call ≡ ok a) × (next a ≡ ok c)
>>=-eq-ok (raise e) next h = cc
>>=-eq-ok (ok value) next h = (value, refl, h)

-- A Boolean result holds of its value; a raise has none.
abbrev pub OnOk {ℓ κ} : {A : Type ℓ} → (A → Type κ) → Result A → Type κ
OnOk P (ok a) = P a
OnOk P (raise e) = Unit

-- A call returns, with a value of which `P` holds: it does not raise.
abbrev pub Returns {ℓ} : {A : Type ℓ} → (A → Type 0) → Result A → Type 0
Returns P (ok a) = P a
Returns P (raise e) = ⊥

pub Returns-bind {ℓ κ} :
    {A : Type ℓ} {B : Type κ} (P : A → Type 0) (Q : B → Type 0) (m : Result A) (f : A → Result B)
    → Returns P m
    → ((a : A) → P a → Returns Q (f a))
    → Returns Q (m >>= f)
Returns-bind P Q (ok a) f h k = k a h
Returns-bind P Q (raise e) f h k = absurd h

pub Returns-value {ℓ} :
    {A : Type ℓ} (P : A → Type 0) (m : Result A) → Returns P m → (a : A) × (m ≡ ok a) × P a
Returns-value P (ok a) h = (a, refl, h)
Returns-value P (raise e) h = absurd h

pub Returns-step {ℓ κ} :
    {A : Type ℓ} {B : Type κ} (Q : B → Type 0) (m : Result A) (f : A → Result B) (a : A)
    → m ≡ ok a
    → Returns Q (f a)
    → Returns Q (m >>= f)
Returns-step Q (ok b) f a e h = let same : b ≡ a = cc in rw same h
Returns-step Q (raise x) f a e h = cc

pub Returns-map {ℓ} :
    {A : Type ℓ} (P Q : A → Type 0) (m : Result A)
    → ((a : A) → P a → Q a)
    → Returns P m
    → Returns Q m
Returns-map P Q (ok a) f h = f a h
Returns-map P Q (raise e) f h = h
