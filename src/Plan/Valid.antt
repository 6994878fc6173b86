-- ===== src/Plan/Valid.antt =====
-- What a plan that passes `_validate_plan` is like.
use kafka_utils.Base.{
  ℕ, ◌==◌, String, List, [], ◌∷◌, true, ◌&&◌, all_of, is_nil, length, map, some, ◌≡◌, ◌↔◌, inl, inr,
  refl, sym, ap, ◌∙◌, arith, Bool-cases, Option-cases, Each, Each-map, lookup, insert,
  lookup-insert_self, lookup-insert_ne, Dict, string_eq, pair_eq,
}
use kafka_utils.Plan.Entry.{PData, IsDistinct, duplicates, duplicates-IsDistinct, int_eq}
use kafka_utils.Plan.Validate.{name, same_factor, check_plan}

-- Entries of one topic have equally many replicas.
abbrev pub Agree : List PData → Type 0
Agree [] = Unit
Agree (p ∷ ps) = Each (λ q. q.topic ≡ p.topic → length q.replicas ≡ length p.replicas) ps × Agree ps

abbrev Fits : Dict String ℕ → PData → Type 0
Fits seen p = (n : ℕ) → lookup p.topic seen ≡ some n → length p.replicas ≡ n

same_factor_sound :
    (ps : List PData) (seen : Dict String ℕ)
    → same_factor ps seen ≡ true
    → Agree ps × Each (Fits seen) ps
unfolding same_factor
same_factor_sound [] seen h = (tt, tt)
same_factor_sound (p ∷ ps) seen h = elim (Option-cases (lookup p.topic seen)) [
  | inl new ↦
      let factor = length p.replicas in
      let longer = insert p.topic factor seen in
      let (agree, fits) = same_factor_sound ps longer (rw (new, same_factor) at h) in
      (
        (
          Each-map (Fits longer) _
              (λ q k e.
                k factor (ap (λ t. lookup t longer) e ∙ lookup-insert_self p.topic factor seen))
              ps fits,
          agree,
        ),
        (
          λ n e. cc (new, e),
          Each-map (Fits longer) (Fits seen)
              (λ q k n e. k n (
                lookup-insert_ne p.topic q.topic factor seen
                  (λ t. cc (ap (λ z. lookup z seen) t, new, e))
                ∙ e))
              ps fits,
        ),
      )
  | inr (known, old) ↦
      let h' : ((known == length p.replicas) && same_factor ps seen) ≡ true =
        rw (old, same_factor) at h in
      let (agree, fits) = same_factor_sound ps seen (ground arith) in
      let same : known ≡ length p.replicas = ground arith in
      (
        (
          Each-map (Fits seen) _ (λ q k e. k known (ap (λ t. lookup t seen) e ∙ old) ∙ same) ps
              fits,
          agree,
        ),
        (λ n e. cc (old, e, same), fits),
      )
]

some-eq : {a b : ℕ} → some a ≡ some b → a ≡ b
some-eq e = cc

Fits-nil : (ps : List PData) → Each (Fits []) ps
unfolding lookup
Fits-nil [] = tt
Fits-nil (p ∷ ps) = (λ n e. cc, Fits-nil ps)

Each-both :
    (P Q R : PData → Type 0)
    → ((p : PData) → P p → Q p → R p)
    → (ps : List PData) → Each P ps
    → Each Q ps
    → Each R ps
Each-both P Q R f [] h k = tt
Each-both P Q R f (p ∷ ps) h k = (f p h.0 k.0, Each-both P Q R f ps h.1 k.1)

same_factor_complete :
    (ps : List PData) (seen : Dict String ℕ)
    → Agree ps
    → Each (Fits seen) ps
    → same_factor ps seen ≡ true
unfolding same_factor
same_factor_complete [] seen a f = refl
same_factor_complete (p ∷ ps) seen a f = elim (Option-cases (lookup p.topic seen)) [
  | inl new ↦
      let factor = length p.replicas in
      rw (new, same_factor)
        (same_factor_complete ps (insert p.topic factor seen) a.1 (
          Each-both (λ q. q.topic ≡ p.topic → length q.replicas ≡ length p.replicas) (Fits seen)
            (Fits (insert p.topic factor seen))
            (λ q k l n e. elim (Bool-cases (string_eq.beq p.topic q.topic)) [
              | inl b ↦
                  let t : p.topic ≡ q.topic = (string_eq.beq_iff p.topic q.topic).0 b in
                  k (sym t)
                  ∙ some-eq (
                      sym (lookup-insert_self p.topic factor seen)
                      ∙ ap (λ z. lookup z (insert p.topic factor seen)) t
                      ∙ e)
              | inr b ↦ l n (
                  sym (
                    lookup-insert_ne p.topic q.topic factor seen
                      (λ t. cc (b, (string_eq.beq_iff p.topic q.topic).1 t)))
                  ∙ e)
            ])
            ps a.0 f.1))
  | inr (known, old) ↦
      let same : length p.replicas ≡ known = f.0 known old in
      rw (old, same_factor) (ground (arith, same_factor_complete ps seen a.1 f.1))
]

-- A plan whose partitions are named once, have no broker twice, and agree on the replication
-- factor of each topic.
pub record IsValid (ps : List PData) : Type 0 where
  pub names : IsDistinct (map name ps)
  pub brokers : Each (λ p. IsDistinct p.replicas) ps
  pub factors : Agree ps

all-duplicates :
    (ps : List PData)
    → (all_of (λ p. is_nil (duplicates p.replicas)) ps ≡ true)
      ↔ Each (λ p. IsDistinct p.replicas) ps
all-duplicates [] = (λ h. tt, λ h. refl)
all-duplicates (p ∷ ps) =
    let (f, g) = all-duplicates ps in
    let (d, u) = duplicates-IsDistinct p.replicas in
    (λ h. (d (ground arith), f (ground arith)), λ h. ground (arith, g h.1, u h.0))

pub check_plan_iff : (ps : List PData) → (check_plan ps ≡ true) ↔ IsValid ps
unfolding check_plan
check_plan_iff ps =
    let (d, u) = duplicates-IsDistinct (map name ps) in
    let (f, g) = all-duplicates ps in
    (
      λ h. record {
        names = d (ground arith);
        brokers = f (ground arith);
        factors = (same_factor_sound ps [] (ground arith)).0;
      },
      λ v.
          ground
            (arith, u v.names, g v.brokers, same_factor_complete ps [] v.factors (Fits-nil ps)),
    )
