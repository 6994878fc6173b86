-- ===== src/Plan/Entry.antt =====
-- The partition-data of a plan, read into a record, and lists without repeats.
use kafka_utils.Base.{
  ℕ, ◌+◌, ◌≤◌, String, List, [], ◌∷◌, Bool, true, false, ltb, if◌then◌else◌, ℤ, eqb_ℤ, eqb_ℤ→eq,
  ◌≡◌, ◌≢◌, ◌↔◌, inl, inr, refl, subst, arith, Eq, Each, Each-map, keep, is_nil, Bool-cases,
}

pub record PData : Type 0 where
  pub topic : String
  pub partition : ℤ
  pub replicas : List ℤ

pub eqb_ℤ_iff : (a b : ℤ) → (eqb_ℤ a b ≡ true) ↔ (a ≡ b)
eqb_ℤ_iff a b = (eqb_ℤ→eq a b, λ h. ground arith)

instance abbrev pub int_eq : Eq ℤ
int_eq = record { beq = eqb_ℤ; beq_iff = eqb_ℤ_iff }

module _ {ℓ} {A : Type ℓ} ⦃e : Eq A⦄ where
  -- `Counter(xs)[x]`
  unfoldable pub occurrences : A → List A → ℕ
  occurrences x [] = 0
  occurrences x (y ∷ ys) = (if e.beq y x then 1 else 0) + occurrences x ys

  -- The keys of `Counter(xs)` whose count is above 1, once for each occurrence.
  unfoldable pub duplicates : List A → List A
  unfolding occurrences
  duplicates xs = keep (λ x. ltb 1 (occurrences x xs)) xs

  -- No element stands twice.
  abbrev pub IsDistinct : List A → Type ℓ
  IsDistinct [] = Unit
  IsDistinct (x ∷ xs) = Each (λ y. y ≢ x) xs × IsDistinct xs

  absent-zero : (x : A) (ys : List A) → Each (λ y. y ≢ x) ys → occurrences x ys ≡ 0
  unfolding occurrences
  absent-zero x [] h = refl
  absent-zero x (y ∷ ys) h = ground (arith, absent-zero x ys h.1, e.beq_iff y x)

  zero-absent : (x : A) (ys : List A) → occurrences x ys ≡ 0 → Each (λ y. y ≢ x) ys
  unfolding occurrences
  zero-absent x [] h = tt
  zero-absent x (y ∷ ys) h = (ground (arith, e.beq_iff y x), zero-absent x ys (ground arith))

  few-distinct : (xs : List A) → Each (λ x. occurrences x xs ≤ 1) xs → IsDistinct xs
  unfolding occurrences
  few-distinct [] h = tt
  few-distinct (x ∷ xs) h = (
    zero-absent x xs (ground (arith, h.0, e.beq_iff x x)),
    few-distinct xs (
        Each-map (λ y. occurrences y (x ∷ xs) ≤ 1) (λ y. occurrences y xs ≤ 1) (λ y k. ground arith)
          xs h.1),
  )

  distinct-few : (xs : List A) → IsDistinct xs → (x : A) → occurrences x xs ≤ 1
  unfolding occurrences
  distinct-few [] h x = omega arith
  distinct-few (y ∷ ys) h x = elim (Bool-cases (e.beq y x)) [
    | inl k ↦
        let same : y ≡ x = (e.beq_iff y x).0 k in
        let gone : occurrences x ys ≡ 0 =
          subst (λ z. occurrences z ys ≡ 0) same (absent-zero y ys h.0) in
        rw k (omega (arith, gone))
    | inr k ↦ let rest = distinct-few ys h.1 x in rw k (omega arith)
  ]

  keep-nil :
      (test : A → Bool) (xs : List A) → is_nil (keep test xs) ≡ true → Each (λ x. test x ≡ false) xs
  keep-nil test [] h = tt
  keep-nil test (x ∷ xs) h = (ground arith, keep-nil test xs (ground arith))

  nil-keep :
      (test : A → Bool) (xs : List A) → ((x : A) → test x ≡ false) → is_nil (keep test xs) ≡ true
  nil-keep test [] h = refl
  nil-keep test (x ∷ xs) h = ground (arith, h x, nil-keep test xs h)

  -- `Counter` finds no repeat exactly in a list of different elements.
  pub duplicates-IsDistinct : (xs : List A) → (is_nil (duplicates xs) ≡ true) ↔ IsDistinct xs
  unfolding duplicates
  duplicates-IsDistinct xs = (
    λ h. few-distinct xs (
        Each-map (λ x. ltb 1 (occurrences x xs) ≡ false) (λ x. occurrences x xs ≤ 1)
          (λ x k. ground arith) xs (keep-nil (λ x. ltb 1 (occurrences x xs)) xs h)),
    λ h. nil-keep (λ x. ltb 1 (occurrences x xs)) xs (λ x. ground (arith, distinct-few xs h x)),
  )
