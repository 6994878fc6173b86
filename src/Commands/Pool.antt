-- ===== src/Commands/Pool.antt =====
-- The actions of all topics, counted in any way (kafka_cluster_manager/cmds/command.py).
use kafka_utils.Base.{
  ℕ, ◌+◌, ◌≤◌, String, List, [], ◌∷◌, ◌++◌, map, true, false, Option, none, some, Dict, string_eq,
  length, sum_of, Bool-cases, ◌≡◌, refl, ap, arith, inl, inr,
}
use kafka_utils.Commands.Actions.{Action, append_action, group_actions, over}

pub sum_of-append {ℓ} :
    {A : Type ℓ} (f : A → ℕ) (xs ys : List A) → sum_of f (xs ++ ys) ≡ sum_of f xs + sum_of f ys
sum_of-append f [] ys = omega arith
sum_of-append f (x ∷ xs) ys = omega (arith, sum_of-append f xs ys)

pub map-append {ℓ κ} :
    {A : Type ℓ} {B : Type κ} (f : A → B) (xs ys : List A) → map f (xs ++ ys) ≡ map f xs ++ map f ys
map-append f [] ys = refl
map-append f (x ∷ xs) ys = ap (λ zs. f x ∷ zs) (map-append f xs ys)

pub sum_of_ones {ℓ} : {A : Type ℓ} (xs : List A) → sum_of (λ _. 1) xs ≡ length xs
sum_of_ones [] = refl
sum_of_ones (x ∷ xs) = omega (arith, sum_of_ones xs)

pub over_zero : (limit : Option ℕ) → over limit 0 ≡ false
over_zero none = refl
over_zero (some l) = ground arith

-- The actions of all topics.
unfoldable pub pooled : Dict String (List Action) → List Action
pooled [] = []
pooled ((topic, actions) ∷ more) = actions ++ pooled more

abbrev pub left : (Action → ℕ) → Dict String (List Action) → ℕ
left f [] = 0
left f ((topic, actions) ∷ more) = sum_of f actions + left f more

pub left-pooled :
    (f : Action → ℕ) (topics : Dict String (List Action)) → sum_of f (pooled topics) ≡ left f topics
unfolding pooled
left-pooled f [] = refl
left-pooled f ((topic, actions) ∷ more) =
    omega (arith, sum_of-append f actions (pooled more), left-pooled f more)

pub left-append_action :
    (f : Action → ℕ) (topic : String) (a : Action) (topics : Dict String (List Action))
    → left f (append_action topic a topics) ≡ left f topics + f a
unfolding append_action
left-append_action f topic a [] = omega arith
left-append_action f topic a ((t, actions) ∷ more) = elim (Bool-cases (string_eq.beq t topic)) [
  | inl e ↦ rw e (omega (arith, sum_of-append f actions (a ∷ [])))
  | inr e ↦ rw e (omega (arith, left-append_action f topic a more))
]

pub left-group_actions :
    (f : Action → ℕ) (actions : List Action) (topics : Dict String (List Action))
    → left f (group_actions actions topics) ≡ left f topics + sum_of f actions
unfolding group_actions
left-group_actions f [] topics = omega arith
left-group_actions f (a ∷ more) topics = omega (
  arith,
  left-group_actions f more (append_action a.0.0 a topics),
  left-append_action f a.0.0 a topics,
)

-- No actions, if there is nothing to count.
pub left-zero :
    (f : Action → ℕ) (topics : Dict String (List Action))
    → left (λ _. 1) topics ≡ 0
    → left f topics ≡ 0
left-zero f [] h = refl
left-zero f ((topic, []) ∷ more) h = omega (arith, left-zero f more (omega arith))
left-zero f ((topic, a ∷ actions) ∷ more) h = absurd (omega arith)

pub pooled-nil :
    (topics : Dict String (List Action)) → left (λ _. 1) topics ≡ 0 → pooled topics ≡ []
unfolding pooled
pooled-nil [] h = refl
pooled-nil ((topic, []) ∷ more) h = pooled-nil more (omega arith)
pooled-nil ((topic, a ∷ actions) ∷ more) h = absurd (omega arith)

pub over_later : (limit : Option ℕ) (b c : ℕ) → b ≤ c → over limit b ≡ true → over limit c ≡ true
over_later none b c h e = e
over_later (some l) b c h e = ground arith
