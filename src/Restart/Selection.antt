-- ===== src/Restart/Selection.antt =====
-- The hosts that the options of a rolling restart select
-- (kafka_utils/kafka_rolling_restart/main.py).
use kafka_utils.Base.{
  ℕ, zero, suc, ◌<◌, ◌≤◌, String, List, [], ◌∷◌, ◌++◌, contains, map, length, true, false, some,
  Each, ℤ, pos, negsuc, pos_part, is_negative, is_nil, Bool-cases, ◌≡◌, ◌≢◌, refl, ap, subst, ◌⊎◌,
  inl, inr, arith,
}
use kafka_utils.Restart.Execute.{drop}
use kafka_utils.Restart.Options.{
  Options, Brokers, filter_broker_list, validate_broker_ids_subset, chosen_brokers, validate_opts,
}

-- The brokers that are picked by their ids, in the order of the cluster.
pub data IsPicked (ids : List ℕ) : Brokers → Brokers → Type 0 where
  none_left : IsPicked ids [] []
  taken :
      {b : ℕ × String} {all picked : Brokers}
      → contains b.0 ids ≡ true
      → IsPicked ids all picked
      → IsPicked ids (b ∷ all) (b ∷ picked)
  left_out :
      {b : ℕ × String} {all picked : Brokers}
      → contains b.0 ids ≡ false
      → IsPicked ids all picked
      → IsPicked ids (b ∷ all) picked

-- All brokers, if no ids are given, or those of the ids, which the cluster has to have.
abbrev pub IsChoice : Options → Brokers → Brokers → Type 0
IsChoice opts brokers chosen =
    (opts.broker_ids ≡ []) × (chosen ≡ brokers)
    ⊎ (opts.broker_ids ≢ [])
      × Each (λ i. contains i (map (λ b. b.0) brokers) ≡ true) opts.broker_ids
      × IsPicked opts.broker_ids brokers chosen

-- Options that are allowed for a number of brokers.
pub record IsAllowed (opts : Options) (brokers_num : ℕ) : Type 0 where
  pub skip : opts.skip ≡ pos (pos_part opts.skip)
  pub some_left : pos_part opts.skip < brokers_num
  pub check_count : opts.check_count ≡ pos (pos_part opts.check_count)
  pub unhealthy_time_limit : opts.unhealthy_time_limit ≡ pos (pos_part opts.unhealthy_time_limit)
  pub check_interval : opts.check_interval ≡ pos (pos_part opts.check_interval)

-- The hosts to restart: those of the chosen brokers but the first ones, which are skipped.
pub record IsSelection (opts : Options) (brokers : Brokers) (hosts : List String) : Type 0 where
  pub chosen : Brokers
  pub choice : IsChoice opts brokers chosen
  pub allowed : IsAllowed opts (length chosen)
  pub skipped : List String
  pub rest : map (λ b. b.1) chosen ≡ skipped ++ hosts
  pub skip : length skipped ≡ pos_part opts.skip

filter-IsPicked : (ids : List ℕ) (all : Brokers) → IsPicked ids all (filter_broker_list all ids)
unfolding filter_broker_list
filter-IsPicked ids [] = none_left
filter-IsPicked ids (b ∷ all) = elim (Bool-cases (contains b.0 ids)) [
  | inl e ↦ rw e (taken e (filter-IsPicked ids all))
  | inr e ↦ rw e (left_out e (filter-IsPicked ids all))
]

known-Each :
    (all ids : List ℕ)
    → validate_broker_ids_subset all ids ≡ true
    → Each (λ i. contains i all ≡ true) ids
unfolding validate_broker_ids_subset
known-Each all [] h = tt
known-Each all (i ∷ is) h = (ground arith, known-Each all is (ground arith))

is_nil-eq : (xs : List ℕ) → is_nil xs ≡ true → xs ≡ []
is_nil-eq [] h = refl
is_nil-eq (x ∷ xs) h = cc

chosen_brokers-IsChoice :
    (opts : Options) (brokers chosen : Brokers)
    → chosen_brokers opts brokers ≡ some chosen
    → IsChoice opts brokers chosen
unfolding chosen_brokers
chosen_brokers-IsChoice opts brokers chosen h = elim (Bool-cases (is_nil opts.broker_ids)) [
  | inl e ↦ inl (is_nil-eq opts.broker_ids e, let k = rw (e, chosen_brokers) at h in cc k)
  | inr e ↦
      elim (Bool-cases (validate_broker_ids_subset (map (λ b. b.0) brokers) opts.broker_ids)) [
        | inl f ↦
            let picked : filter_broker_list brokers opts.broker_ids ≡ chosen =
              let k = rw (e, f, chosen_brokers) at h in cc k in
            inr (
              λ g. let k = rw g at e in cc k,
              known-Each (map (λ b. b.0) brokers) opts.broker_ids f,
              subst (IsPicked opts.broker_ids brokers) picked
                  (filter-IsPicked opts.broker_ids brokers),
            )
        | inr f ↦ let k = rw (e, f, chosen_brokers) at h in cc k
      ]
]

not_negative : (i : ℤ) → is_negative i ≡ false → i ≡ pos (pos_part i)
not_negative (pos n) h = refl
not_negative (negsuc n) h = cc

allowed_lem : (opts : Options) (n : ℕ) → validate_opts opts n ≡ false → IsAllowed opts n
unfolding validate_opts
allowed_lem opts n h =
    let skip_pos = not_negative opts.skip (ground arith) in
    record {
      skip = skip_pos;
      some_left = ground (arith, rw skip_pos at h);
      check_count = not_negative opts.check_count (ground arith);
      unhealthy_time_limit = not_negative opts.unhealthy_time_limit (ground arith);
      check_interval = not_negative opts.check_interval (ground arith);
    }

drop-rest :
    (n : ℕ) (xs : List String)
    → n ≤ length xs
    → (skipped : List String) × (xs ≡ skipped ++ drop n xs) × (length skipped ≡ n)
unfolding drop
drop-rest zero xs h = ([], refl, refl)
drop-rest (suc n) [] h = absurd (omega arith)
drop-rest (suc n) (x ∷ xs) h =
    let (skipped, e, k) = drop-rest n xs (omega arith) in (x ∷ skipped, ap (λ l. x ∷ l) e, ap suc k)

length-hosts : (bs : Brokers) → length (map (λ b. b.1) bs) ≡ length bs
length-hosts [] = refl
length-hosts (b ∷ bs) = ap suc (length-hosts bs)

pub IsSelection-drop :
    (opts : Options) (brokers chosen : Brokers)
    → chosen_brokers opts brokers ≡ some chosen
    → validate_opts opts (length chosen) ≡ false
    → IsSelection opts brokers (drop (pos_part opts.skip) (map (λ b. b.1) chosen))
IsSelection-drop opts brokers chosen e good =
    let allowed = allowed_lem opts (length chosen) good in
    let (skipped, rest, n) =
      drop-rest (pos_part opts.skip) (map (λ b. b.1) chosen)
        (rw (length-hosts chosen) (omega (arith, allowed.some_left))) in
    record {
      chosen = chosen;
      choice = chosen_brokers-IsChoice opts brokers chosen e;
      allowed = allowed;
      skipped = skipped;
      rest = rest;
      skip = n;
    }
