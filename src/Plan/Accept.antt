-- ===== src/Plan/Accept.antt =====
-- `validate_plan` accepts exactly the valid plans that keep to their base plan.
use kafka_utils.Base.{
  List, [], ◌∷◌, ◌++◌, Bool, true, false, not, ◌&&◌, is_nil, keep, map, ◌≡◌, ◌↔◌, inl, inr, refl,
  arith, Bool-cases, Each, Each-map, Each-append, ok, Returns-value, string_eq, pair_eq,
}
use kafka_utils.Plan.Json.{Json, obj, end, field, truthy}
use kafka_utils.Plan.Entry.{PData, IsDistinct, int_eq}
use kafka_utils.Plan.Format.{validate_format, read_plan}
use kafka_utils.Plan.Validate.{
  PName, name, name_eq, named, check_plan, validate_one, invalid_partitions, replicas_by_name,
  validate_base, validate_plan,
}
use kafka_utils.Plan.Valid.{IsValid, check_plan_iff}
use kafka_utils.Plan.Readable.{IsReadable, read_plan_total}
use kafka_utils.Plan.Against.{
  Keeps, item, replicas_by_name-item, nil-Absent, same_counts_sound, same_counts_complete,
}

-- What the base plan asks of a new plan: it names only partitions of the base, all of them unless
-- a subset will do, and keeps each replication factor unless that may change.
pub record IsWithin (new base : List PData) (is_partition_subset allow_rf_change : Bool)
    : Type 0 where
  pub subset : Each (λ p. named (name p) (map name base) ≡ true) new
  pub covering : is_partition_subset ≡ false → Each (λ q. named (name q) (map name new) ≡ true) base
  pub factors : allow_rf_change ≡ false → Each (Keeps base) new

keep-nil_iff :
    (test : PName → Bool) (xs : List PName)
    → (is_nil (keep test xs) ≡ true) ↔ Each (λ x. test x ≡ false) xs
keep-nil_iff test [] = (λ h. tt, λ h. refl)
keep-nil_iff test (x ∷ xs) =
    let (f, g) = keep-nil_iff test xs in
    (λ h. (ground arith, f (ground arith)), λ h. ground (arith, g h.1))

pub Each-of-names :
    (P : PName → Type 0) (ps : List PData) → Each (λ p. P (name p)) ps ↔ Each P (map name ps)
Each-of-names P [] = (λ h. h, λ h. h)
Each-of-names P (p ∷ ps) = let (f, g) = Each-of-names P ps in (λ h. (h.0, f h.1), λ h. (h.0, g h.1))

Each-split : (P : PName → Type 0) (xs ys : List PName) → Each P (xs ++ ys) → Each P xs × Each P ys
Each-split P [] ys h = (tt, h)
Each-split P (x ∷ xs) ys h = let (f, g) = Each-split P xs ys h.1 in ((h.0, f), g)

named-cons : (n m : PName) (ns : List PName) → named n ns ≡ true → named n (m ∷ ns) ≡ true
named-cons n m ns h = ground arith

named_self : (ns : List PName) → Each (λ n. named n ns ≡ true) ns
named_self [] = tt
named_self (n ∷ ns) = (
  ground (arith, name_eq.beq_iff n n),
  Each-map (λ m. named m ns ≡ true) (λ m. named m (n ∷ ns) ≡ true) (λ m h. named-cons m n ns h) ns
      (named_self ns),
)

Each-two :
    (P Q R : PName → Type 0)
    → ((n : PName) → P n → Q n → R n)
    → (ns : List PName) → Each P ns
    → Each Q ns
    → Each R ns
Each-two P Q R f [] h k = tt
Each-two P Q R f (n ∷ ns) h k = (f n h.0 k.0, Each-two P Q R f ns h.1 k.1)

module _ (new base : List PData) where
  abbrev Inside : List PData → List PData → Type 0
  Inside xs ys = Each (λ p. named (name p) (map name ys) ≡ true) xs

  invalid_partitions_iff :
      (sub : Bool)
      → (is_nil (invalid_partitions (map name new) (map name base) sub) ≡ true)
        ↔ (Inside new base × (sub ≡ false → Inside base new))
  unfolding invalid_partitions
  invalid_partitions_iff true =
      let (f, g) = keep-nil_iff (λ n. not (named n (map name base))) (map name new) in
      let (u, v) = Each-of-names (λ n. named n (map name base) ≡ true) new in
      (
        λ h. (v (Each-map _ _ (λ n k. ground arith) (map name new) (f h)), λ e. cc),
        λ h. g (Each-map _ _ (λ n k. ground arith) (map name new) (u h.0)),
      )
  invalid_partitions_iff false =
      let both : PName → Bool = λ n. not (named n (map name new) && named n (map name base)) in
      let (f, g) = keep-nil_iff both (map name new ++ map name base) in
      let (u, v) = Each-of-names (λ n. named n (map name base) ≡ true) new in
      let (u', v') = Each-of-names (λ n. named n (map name new) ≡ true) base in
      (
        λ h.
            let (x, y) = Each-split (λ n. both n ≡ false) (map name new) (map name base) (f h) in
            (
              v (Each-map _ _ (λ n k. ground arith) (map name new) x),
              λ _. v' (Each-map _ _ (λ n k. ground arith) (map name base) y),
            ),
        λ h. g (
            Each-append (λ n. both n ≡ false) (map name new) (map name base)
              (Each-two (λ n. named n (map name new) ≡ true) (λ n. named n (map name base) ≡ true)
                (λ n. both n ≡ false) (λ n k l. ground arith) (map name new)
                (named_self (map name new)) (u h.0))
              (Each-two (λ n. named n (map name new) ≡ true) (λ n. named n (map name base) ≡ true)
                (λ n. both n ≡ false) (λ n k l. ground arith) (map name base) (u' (h.1 refl))
                (named_self (map name base)))),
      )

  validate_base_iff :
      (sub allow : Bool)
      → IsDistinct (map name new)
      → IsDistinct (map name base)
      → (validate_base new base sub allow ≡ ok true) ↔ IsWithin new base sub allow
  unfolding validate_base
  validate_base_iff sub allow dn db = (sound, complete)
    where
      dict : (ps : List PData) → IsDistinct (map name ps) → replicas_by_name ps [] ≡ map item ps
      dict ps d = replicas_by_name-item ps [] (nil-Absent ps) d

      sound : validate_base new base sub allow ≡ ok true → IsWithin new base sub allow
      sound h =
          let inside = (invalid_partitions_iff sub).0 (ground arith) in
          record {
            subset = inside.0;
            covering = inside.1;
            factors =
                λ e. same_counts_sound base new db (ground (arith, dict base db, dict new dn));
          }

      complete : IsWithin new base sub allow → validate_base new base sub allow ≡ ok true
      complete w =
          let inside = (invalid_partitions_iff sub).1 (w.subset, w.covering) in
          elim (Bool-cases allow) [
            | inl e ↦ ground arith
            | inr e ↦
                let counts = same_counts_complete base new w.subset (w.factors e) in
                rw (inside, e, dict base db, dict new dn) counts
          ]

format-truthy : (plan : Json) → validate_format plan ≡ ok true → truthy plan ≡ true
unfolding validate_format truthy
format-truthy (obj end) h = ground arith
format-truthy (obj (field k j fs)) h = refl
format-truthy plan h = ground arith

validate_one_lem :
    (plan : Json) (ps : List PData)
    → validate_format plan ≡ ok true
    → read_plan plan ≡ ok ps
    → validate_one plan ≡ ok (check_plan ps)
unfolding validate_one
validate_one_lem plan ps f r = rw f (rw r)

ok-eq : {a b : Bool} → ok a ≡ ok b → a ≡ b
ok-eq e = cc

-- For two plans of the right format, the new one is accepted exactly if both are valid, each read
-- without an exception: partitions named once, no broker twice in a partition, one replication
-- factor for each topic; and if the new plan names only partitions of the base plan, all of them
-- unless a subset will do, and keeps each replication factor unless that may change. The brokers of
-- the two plans are not compared.
pub validate_plan_iff :
    (new base : Json) (sub allow : Bool)
    → validate_format new ≡ ok true
    → validate_format base ≡ ok true
    → (ns : List PData) × (bs : List PData) × (read_plan new ≡ ok ns)
      × (read_plan base ≡ ok bs)
      × ((validate_plan new base sub allow ≡ ok true)
          ↔ (IsValid ns × IsValid bs × IsWithin ns bs sub allow))
unfolding validate_plan
validate_plan_iff new base sub allow fn fb =
    let (ns, rn, _) = Returns-value IsReadable (read_plan new) (read_plan_total new fn) in
    let (bs, rb, _) = Returns-value IsReadable (read_plan base) (read_plan_total base fb) in
    let cn = check_plan_iff ns in
    let cb = check_plan_iff bs in
    (
      ns,
      bs,
      rn,
      rb,
      (
        λ h.
            let one : check_plan ns ≡ true =
              ground (arith, validate_one_lem new ns fn rn, format-truthy base fb) in
            let two : check_plan bs ≡ true = ground (
              arith,
              validate_one_lem new ns fn rn,
              validate_one_lem base bs fb rb,
              format-truthy base fb,
            ) in
            let vn = cn.0 one in
            let vb = cb.0 two in
            let last : validate_base ns bs sub allow ≡ ok true = ground (
              arith,
              validate_one_lem new ns fn rn,
              validate_one_lem base bs fb rb,
              format-truthy base fb,
            ) in
            (vn, vb, (validate_base_iff ns bs sub allow vn.names vb.names).0 last),
        λ h. ground (
          arith,
          validate_one_lem new ns fn rn,
          validate_one_lem base bs fb rb,
          format-truthy base fb,
          cn.1 h.0,
          cb.1 h.1,
          (validate_base_iff ns bs sub allow h.0.names h.1.names).1 h.2,
        ),
      ),
    )

-- Without a base plan, that is one that is false in a condition, a plan of the right format is
-- read without an exception and accepted exactly if it is valid.
pub validate_plan_alone_iff :
    (new base : Json) (sub allow : Bool)
    → validate_format new ≡ ok true
    → truthy base ≡ false
    → (ns : List PData) × (read_plan new ≡ ok ns)
      × ((validate_plan new base sub allow ≡ ok true) ↔ IsValid ns)
unfolding validate_plan
validate_plan_alone_iff new base sub allow fn no_base =
    let (ns, rn, _) = Returns-value IsReadable (read_plan new) (read_plan_total new fn) in
    let cn = check_plan_iff ns in
    (
      ns,
      rn,
      (
        λ h. cn.0 (ground (arith, validate_one_lem new ns fn rn)),
        λ v. ground (arith, validate_one_lem new ns fn rn, cn.1 v),
      ),
    )
