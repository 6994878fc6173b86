-- ===== src/Commands/Parts.antt =====
-- Lists counted in any way, and dictionaries made from them.
use kafka_utils.Base.{
  ℕ, ◌+◌, ◌≤◌, ◌<◌, List, [], ◌∷◌, map, true, if◌then◌else◌, some, Dict, IsDict, Absent, lookup,
  insert, Eq, pair_eq, string_eq, nat_eq, length, sum_of, Each, Bool-cases, ◌≡◌, refl, sym, subst,
  arith, inl, inr,
}

-- The occurrences of an element.
abbrev occurrences {ℓ} : {A : Type ℓ} ⦃e : Eq A⦄ → A → List A → ℕ
occurrences ⦃e⦄ a xs = sum_of (λ x. if e.beq a x then 1 else 0) xs

Each-occurrences {ℓ} :
    {A : Type ℓ} ⦃e : Eq A⦄ (P : A → Type 0) (xs : List A) (a : A)
    → Each P xs
    → 0 < occurrences a xs
    → P a
Each-occurrences P [] a h k = absurd (omega arith)
Each-occurrences ⦃e⦄ P (x ∷ xs) a h k = elim (Bool-cases (e.beq a x)) [
  | inl same ↦ let found : x ≡ a = sym ((e.beq_iff a x).0 same) in subst P found h.0
  | inr other ↦ Each-occurrences P xs a h.1 (ground arith)
]

-- A part of a list, counted in any way.
pub Each-part {ℓ} :
    {A : Type ℓ} ⦃e : Eq A⦄ (P : A → Type 0) (xs ys zs : List A)
    → ((f : A → ℕ) → sum_of f ys + sum_of f zs ≡ sum_of f xs)
    → Each P xs
    → Each P ys
Each-part P xs [] zs split h = tt
Each-part ⦃e⦄ P xs (y ∷ ys) zs split h = (
  Each-occurrences P xs y h
      (ground (arith, split (λ x. if e.beq y x then 1 else 0), (e.beq_iff y y).1 refl)),
  Each-part P xs ys (y ∷ zs) (λ f. omega (arith, split f)) h,
)

pub sum_of-map {ℓ κ} :
    {A : Type ℓ} {B : Type κ} (f : B → ℕ) (g : A → B) (xs : List A)
    → sum_of f (map g xs) ≡ sum_of (λ x. f (g x)) xs
sum_of-map f g [] = refl
sum_of-map f g (x ∷ xs) = omega (arith, sum_of-map f g xs)

-- A sum of zeros and of ones.
pub sum_of-zero {ℓ} :
    {A : Type ℓ} (f : A → ℕ) (xs : List A) → Each (λ x. f x ≡ 0) xs → sum_of f xs ≡ 0
sum_of-zero f [] h = refl
sum_of-zero f (x ∷ xs) h = omega (arith, h.0, sum_of-zero f xs h.1)

pub sum_of-length {ℓ} :
    {A : Type ℓ} (f : A → ℕ) (xs : List A) → Each (λ x. f x ≤ 1) xs → sum_of f xs ≤ length xs
sum_of-length f [] h = omega arith
sum_of-length f (x ∷ xs) h = omega (arith, h.0, sum_of-length f xs h.1)

-- The same sum of two functions.
pub sum_of-same {ℓ} :
    {A : Type ℓ} (f g : A → ℕ) (xs : List A) → Each (λ x. f x ≡ g x) xs → sum_of f xs ≡ sum_of g xs
sum_of-same f g [] h = refl
sum_of-same f g (x ∷ xs) h = omega (arith, h.0, sum_of-same f g xs h.1)

module _ {ℓ κ} {K : Type ℓ} {V : Type κ} ⦃e : Eq K⦄ where
  -- A dictionary comprehension keeps what holds of its entries, and counts no key twice.
  pub Each-insert :
      (P : K × V → Type 0) (k : K) (v : V) (d : Dict K V)
      → P (k, v)
      → Each P d
      → Each P (insert k v d)
  unfolding insert
  Each-insert P k v [] p h = (p, tt)
  Each-insert P k v ((j, w) ∷ d) p h = elim (Bool-cases (e.beq j k)) [
    | inl same ↦
        let found : k ≡ j = sym ((e.beq_iff j k).0 same) in
        rw same (subst (λ x. P (x, v)) found p, h.1)
    | inr other ↦ rw other (h.0, Each-insert P k v d p h.1)
  ]

  pub sum_of-insert :
      (f : K → ℕ) (k : K) (v : V) (d : Dict K V)
      → sum_of (λ x. f x.0) (insert k v d) ≤ f k + sum_of (λ x. f x.0) d
  unfolding insert
  sum_of-insert f k v [] = omega arith
  sum_of-insert f k v ((j, w) ∷ d) = elim (Bool-cases (e.beq j k)) [
    | inl same ↦ rw same (omega arith)
    | inr other ↦ rw other (omega (arith, sum_of-insert f k v d))
  ]

  lookup-Absent :
      (k : K) (v : V) (d r : Dict K V)
      → Absent k r
      → Each (λ x. lookup x.0 d ≡ some x.1) r
      → Each (λ x. lookup x.0 ((k, v) ∷ d) ≡ some x.1) r
  unfolding lookup
  lookup-Absent k v d [] h l = tt
  lookup-Absent k v d ((j, w) ∷ r) h l = (
    elim (Bool-cases (e.beq k j)) [
      | inl same ↦ absurd (h.0 (sym ((e.beq_iff k j).0 same)))
      | inr other ↦ rw other l.0
    ],
    lookup-Absent k v d r h.1 l.1,
  )

  -- Every entry of a dictionary is found under its key.
  pub Each-lookup : (d : Dict K V) → IsDict d → Each (λ x. lookup x.0 d ≡ some x.1) d
  unfolding lookup
  Each-lookup [] h = tt
  Each-lookup ((k, v) ∷ d) h = (
    let same : e.beq k k ≡ true = (e.beq_iff k k).1 refl in rw same refl,
    lookup-Absent k v d d h.0 (Each-lookup d h.1),
  )
