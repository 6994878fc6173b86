-- ===== src/Cluster/Group/Rebalance/Measure.antt =====
-- A number that falls with each move of a rebalancing.
use kafka_utils.Base.{
  ℕ, ◌+◌, ◌*◌, ◌≤◌, ◌<◌, List, [], ◌∷◌, true, false, ◌||◌, if◌then◌else◌, ltb, ◌==◌, ◌≡◌, ◌≢◌, inl,
  inr, refl, arith, length, length-erase, sum_of, contains, count, erase, Bool-cases,
  contains-count, count-erase, ==_refl, ap,
}
use kafka_utils.Cluster.Objects.{Broker, Store, partitions}
use kafka_utils.Cluster.Broker.{IsMoved}
use kafka_utils.Cluster.Group.Elect.{load}

sum_of-congr :
    (f f' : ℕ → ℕ) (xs : List ℕ)
    → ((c : ℕ) → 0 < count c xs → f' c ≡ f c)
    → sum_of f' xs ≡ sum_of f xs
unfolding count
sum_of-congr f f' [] h = refl
sum_of-congr f f' (x ∷ xs) h =
    let rest = sum_of-congr f f' xs (λ c k. h c (omega arith)) in
    let here = h x (ground arith) in omega arith

sum_of-erase :
    (f : ℕ → ℕ) (a : ℕ) (xs : List ℕ)
    → contains a xs ≡ true
    → sum_of f xs ≡ f a + sum_of f (erase a xs)
unfolding contains erase
sum_of-erase f a [] h = cc
sum_of-erase f a (x ∷ xs) h = elim (Bool-cases (a == x)) [
  | inl e ↦ let k : a ≡ x = ground arith in rw (k, ==_refl x) refl
  | inr e ↦ let rest = sum_of-erase f a xs (ground arith) in rw e (omega arith)
]

-- A sum changes by what two of its places change by.
pub sum_of-two :
    (f f' : ℕ → ℕ) (a b : ℕ) (xs : List ℕ)
    → ((c : ℕ) → c ≢ a → c ≢ b → f' c ≡ f c)
    → a ≢ b
    → contains a xs ≡ true
    → contains b xs ≡ true
    → ((c : ℕ) → count c xs ≤ 1)
    → sum_of f' xs + f a + f b ≡ sum_of f xs + f' a + f' b
sum_of-two f f' a b xs h ne ma mb once =
    let mb' : contains b (erase a xs) ≡ true =
      ground (arith, contains-count b xs, contains-count b (erase a xs), count-erase b a xs) in
    let rest = sum_of-congr f f' (erase b (erase a xs)) (λ c k.
      h c (λ e. ground (arith, once c, count-erase c b (erase a xs), count-erase c a xs))
        (λ e. ground (arith, once c, count-erase c b (erase a xs), count-erase c a xs))) in
    omega (
      arith,
      sum_of-erase f a xs ma,
      sum_of-erase f' a xs ma,
      sum_of-erase f b (erase a xs) mb',
      sum_of-erase f' b (erase a xs) mb',
    )

module _ (s t : Store) (b p dest : ℕ) (m : IsMoved s b p dest t)
    (held : contains p (partitions s b) ≡ true) where
  pub load-source : load t b + 1 ≡ load s b
  load-source =
      rw m.taken
        (length-erase p (partitions s b) (ground (arith, contains-count p (partitions s b))))

  pub load-dest : load t dest ≡ load s dest + 1
  load-dest = rw m.given (omega arith)

  pub load-other : (c : ℕ) → c ≢ b → c ≢ dest → load t c ≡ load s c
  load-other c ne ne' = ap (λ (r : Broker). length r.partitions) (m.other_broker c ne ne')

  pub load-total :
      (xs : List ℕ)
      → b ≢ dest
      → contains b xs ≡ true
      → contains dest xs ≡ true
      → ((c : ℕ) → count c xs ≤ 1)
      → sum_of (load t) xs ≡ sum_of (load s) xs
  load-total xs ne mb md once = omega (
    arith,
    load-source,
    load-dest,
    sum_of-two (load s) (load t) b dest xs load-other ne mb md once,
  )

-- Loads squared, and those of decommissioned brokers counted `2 * total` times.
abbrev pub share : ℕ → Store → ℕ → ℕ
share total s b = if (s.broker b).decommissioned then 2 * total * load s b else load s b * load s b

pub load-le-sum : (f : ℕ → ℕ) (a : ℕ) (xs : List ℕ) → contains a xs ≡ true → f a ≤ sum_of f xs
load-le-sum f a xs m = omega (arith, sum_of-erase f a xs m)

falls_even : (u y : ℕ) → y + 1 ≤ u → u * u + (y + 1) * (y + 1) < (u + 1) * (u + 1) + y * y
falls_even u y h = omega arith

falls_down :
    (u y total : ℕ)
    → y + 1 ≤ total
    → 2 * total * u + (y + 1) * (y + 1) < 2 * total * (u + 1) + y * y
falls_down u y total h = omega arith

module _ (s t : Store) (b p dest : ℕ) (m : IsMoved s b p dest t)
    (held : contains p (partitions s b) ≡ true) (xs : List ℕ) (total : ℕ) where
  share-other : (c : ℕ) → c ≢ b → c ≢ dest → share total t c ≡ share total s c
  share-other c k l = rw ((m.flags c).0, load-other s t b p dest m held c k l)

  two-le-sum :
      (f : ℕ → ℕ)
      → b ≢ dest
      → contains b xs ≡ true
      → contains dest xs ≡ true
      → f b + f dest ≤ sum_of f xs
  two-le-sum f ne mb md = omega (
    arith,
    sum_of-erase f b xs mb,
    load-le-sum f dest (erase b xs) (
        ground
          (arith, contains-count dest xs, contains-count dest (erase b xs), count-erase dest b xs)),
  )

  -- A move off a decommissioned broker, or to one with at least two partitions less.
  pub share-falls :
      b ≢ dest
      → contains b xs ≡ true
      → contains dest xs ≡ true
      → ((c : ℕ) → count c xs ≤ 1)
      → sum_of (load s) xs ≡ total
      → (s.broker dest).decommissioned ≡ false
      → (ltb (load s dest + 1) (load s b) || (s.broker b).decommissioned) ≡ true
      → sum_of (share total t) xs < sum_of (share total s) xs
  share-falls ne mb md once sums stays down =
      let other = sum_of-two (share total s) (share total t) b dest xs share-other ne mb md once in
      let u = load t b in
      let x : load s b ≡ u + 1 = omega (arith, load-source s t b p dest m held) in
      let w : load t dest ≡ load s dest + 1 = load-dest s t b p dest m held in
      let room = two-le-sum (load s) ne mb md in
      elim (Bool-cases (s.broker b).decommissioned) [
        | inl d ↦
            let less = falls_down u (load s dest) total (omega arith) in
            ground (arith, (m.flags b).0, (m.flags dest).0)
        | inr d ↦
            let less = falls_even u (load s dest) (ground arith) in
            ground (arith, (m.flags b).0, (m.flags dest).0)
      ]
