-- ===== src/Base/Count.antt =====
-- Lists of references: membership, removal of the first match, and occurrences.
use Prim.Native.Nat.{ℕ, ◌+◌, ◌-◌, ◌<◌}
use mathlib.Core.Path.{◌≡◌, refl}
use mathlib.Core.Bool.{Bool, true, false, ◌||◌}
use mathlib.Core.List.{List, [], ◌∷◌, ◌++◌}
use native.Mathlib.Omega.{arith}
use kafka_utils.Base.Tests.{◌==◌, ltb, if◌then◌else◌}
use mathlib.Core.List.{map}
use mathlib.Core.Path.{ap, subst}
use mathlib.Core.Logic.{inl, inr}
use mathlib.Core.Bool.{◌&&◌}
use kafka_utils.Base.Tests.{Bool-cases}
use kafka_utils.Base.Lists.{Each, keep, is_nil}
use kafka_utils.Base.Lists.{length}

-- 1 if the references are the same, else 0.
abbrev pub same : ℕ → ℕ → ℕ
same a b = if a == b then 1 else 0

unfoldable pub count : ℕ → List ℕ → ℕ
count a [] = 0
count a (x ∷ xs) = same a x + count a xs

-- `a in xs`
unfoldable pub contains : ℕ → List ℕ → Bool
contains a [] = false
contains a (x ∷ xs) = (a == x) || contains a xs

-- `xs.remove(a)`, for an `a` in `xs`.
unfoldable pub erase : ℕ → List ℕ → List ℕ
erase a [] = []
erase a (x ∷ xs) = let rest = erase a xs in if a == x then xs else x ∷ rest

pub contains-count : (a : ℕ) (xs : List ℕ) → contains a xs ≡ ltb 0 (count a xs)
unfolding contains count
contains-count a [] = refl
contains-count a (x ∷ xs) = ground (arith, contains-count a xs)

pub contains→pos : (a : ℕ) (xs : List ℕ) → contains a xs ≡ true → 0 < count a xs
contains→pos a xs h = ground (arith, contains-count a xs)

pub absent→zero : (a : ℕ) (xs : List ℕ) → contains a xs ≡ false → count a xs ≡ 0
absent→zero a xs h = ground (arith, contains-count a xs)

pub pos→contains : (a : ℕ) (xs : List ℕ) → 0 < count a xs → contains a xs ≡ true
pos→contains a xs h = ground (arith, contains-count a xs)

pub zero→absent : (a : ℕ) (xs : List ℕ) → count a xs ≡ 0 → contains a xs ≡ false
zero→absent a xs h = ground (arith, contains-count a xs)

pub count-erase : (a b : ℕ) (xs : List ℕ) → count a (erase b xs) ≡ count a xs - same a b
unfolding count erase
count-erase a b [] = ground arith
count-erase a b (x ∷ xs) = ground (arith, count-erase a b xs)

pub count-append : (a : ℕ) (xs ys : List ℕ) → count a (xs ++ ys) ≡ count a xs + count a ys
unfolding count
count-append a [] ys = omega arith
count-append a (x ∷ xs) ys = omega (arith, count-append a xs ys)

pub count-snoc : (a b : ℕ) (xs : List ℕ) → count a (xs ++ b ∷ []) ≡ count a xs + same a b
unfolding count
count-snoc a b xs = omega (arith, count-append a xs (b ∷ []))

pub length-erase : (a : ℕ) (xs : List ℕ) → 0 < count a xs → length (erase a xs) + 1 ≡ length xs
unfolding count erase
length-erase a [] h = absurd (omega arith)
length-erase a (x ∷ xs) h = ground (arith, length-erase a xs)

-- Filters and quantifiers over references.
pub count-keep :
    (a : ℕ) (test : ℕ → Bool) (xs : List ℕ)
    → count a (keep test xs) ≡ (if test a then count a xs else 0)
unfolding count
count-keep a test [] = ground arith
count-keep a test (x ∷ xs) = elim (Bool-cases (a == x)) [
  | inl e ↦
      let same : a ≡ x = ground arith in
      let agree : test a ≡ test x = ap test same in ground (arith, count-keep a test xs)
  | inr e ↦ ground (arith, count-keep a test xs)
]

pub contains-keep :
    (a : ℕ) (test : ℕ → Bool) (xs : List ℕ) → contains a (keep test xs) ≡ (contains a xs && test a)
contains-keep a test xs =
    ground (arith, contains-count a (keep test xs), contains-count a xs, count-keep a test xs)

module _ (P : ℕ → Type 0) where
  pub Each-contains : (xs : List ℕ) → ((a : ℕ) → contains a xs ≡ true → P a) → Each P xs
  unfolding contains
  Each-contains [] h = tt
  Each-contains (x ∷ xs) h = (h x (ground arith), Each-contains xs (λ a m. h a (ground arith)))

  pub contains-Each : (xs : List ℕ) (a : ℕ) → Each P xs → contains a xs ≡ true → P a
  unfolding contains
  contains-Each [] a h m = cc
  contains-Each (x ∷ xs) a h m = elim (Bool-cases (a == x)) [
    | inl e ↦ let same : x ≡ a = ground arith in subst P same h.0
    | inr e ↦ contains-Each xs a h.1 (ground arith)
  ]

pub count-cons : (a b : ℕ) (xs : List ℕ) → count a (b ∷ xs) ≡ same a b + count a xs
unfolding count
count-cons a b xs = refl

pub contains-append :
    (a : ℕ) (xs ys : List ℕ) → contains a (xs ++ ys) ≡ (contains a xs || contains a ys)
unfolding contains
contains-append a [] ys = refl
contains-append a (x ∷ xs) ys = ground (arith, contains-append a xs ys)

pub contains-map :
    (f : ℕ → ℕ) (a : ℕ) (xs : List ℕ) → contains a xs ≡ true → contains (f a) (map f xs) ≡ true
unfolding contains
contains-map f a [] h = cc
contains-map f a (x ∷ xs) h = elim (Bool-cases (a == x)) [
  | inl e ↦ let k : f a ≡ f x = ap f (ground arith) in ground arith
  | inr e ↦ let k = contains-map f a xs (ground arith) in ground arith
]

pub contains→is_nil : (a : ℕ) (xs : List ℕ) → contains a xs ≡ true → is_nil xs ≡ false
unfolding contains
contains→is_nil a [] h = cc
contains→is_nil a (x ∷ xs) h = refl

pub is_nil→length : (xs : List ℕ) → is_nil xs ≡ false → 0 < length xs
is_nil→length [] h = cc
is_nil→length (x ∷ xs) h = omega arith
