-- ===== src/Check/Verdicts.antt =====
-- When the checks of topics are satisfied (kafka_utils/kafka_check/commands).
use kafka_utils.Base.{
  ℕ, zero, suc, negsuc, none, some, lookup, Option-cases, ◌≢◌, ◌⊎◌, sym, String, List, [], ◌∷◌,
  ◌++◌, false, Option, length, ℤ, pos, ltb_ℤ, Dict, string_eq, nat_eq, Result, ok, Each, ◌≡◌, ◌↔◌,
  refl, ap, ◌∙◌, ◌>>=◌, >>=-eq-ok, Bool-cases, inl, inr,
}
use kafka_utils.Check.Topics.{
  PartitionMetadata, Topics, NotInSync, Status, healthy, errcode, min_isr_of, get_min_isr,
  or_default, not_in_sync, process_metadata_response, min_isr_command,
}

module _ (topic_config : String → Option (Dict String String)) (to_int : String → Result ℤ)
    (default_min_isr : Option ℤ) where
  -- The minimum of a topic: its setting, where it has one that is not 0, and the default else.
  pub data IsMinimum (topic : String) (m : Option ℤ) : Type 0 where
    no_node : topic_config topic ≡ none → m ≡ default_min_isr → IsMinimum topic m
    not_set :
        (settings : Dict String String)
        → topic_config topic ≡ some settings
        → lookup "min.insync.replicas" settings ≡ none
        → m ≡ default_min_isr
        → IsMinimum topic m
    set :
        (settings : Dict String String) (text : String) (n : ℤ)
        → topic_config topic ≡ some settings
        → lookup "min.insync.replicas" settings ≡ some text
        → to_int text ≡ ok n
        → (n ≡ pos 0) × (m ≡ default_min_isr) ⊎ (n ≢ pos 0) × (m ≡ some n)
        → IsMinimum topic m

  or_default_lem :
      (n : ℤ) (m : Option ℤ)
      → (or_default default_min_isr (some n) ≡ m)
        ↔ ((n ≡ pos 0) × (m ≡ default_min_isr) ⊎ (n ≢ pos 0) × (m ≡ some n))
  or_default_lem (pos zero) m =
      (λ e. inl (refl, sym e), elim [ inl h ↦ sym h.1 | inr h ↦ absurd (h.0 refl) ])
  or_default_lem (pos (suc n)) m =
      (λ e. inr (λ f. cc, sym e), elim [ inl h ↦ cc (h.0) | inr h ↦ sym h.1 ])
  or_default_lem (negsuc n) m =
      (λ e. inr (λ f. cc, sym e), elim [ inl h ↦ cc (h.0) | inr h ↦ sym h.1 ])

  -- The three ways to read a setting.
  get_min_isr_no_node :
      (topic : String) → topic_config topic ≡ none → get_min_isr topic_config to_int topic ≡ ok none
  unfolding get_min_isr
  get_min_isr_no_node topic e = rw (e, get_min_isr) refl

  get_min_isr_not_set :
      (topic : String) (settings : Dict String String)
      → topic_config topic ≡ some settings
      → lookup "min.insync.replicas" settings ≡ none
      → get_min_isr topic_config to_int topic ≡ ok none
  unfolding get_min_isr
  get_min_isr_not_set topic settings e f = rw (e, get_min_isr) (rw f refl)

  get_min_isr_set :
      (topic text : String) (settings : Dict String String)
      → topic_config topic ≡ some settings
      → lookup "min.insync.replicas" settings ≡ some text
      → get_min_isr topic_config to_int topic ≡ (to_int text >>= λ n. ok (some n))
  unfolding get_min_isr
  get_min_isr_set topic text settings e f = rw (e, get_min_isr) (rw f refl)

  min_isr_of-IsMinimum :
      (topic : String) (m : Option ℤ)
      → min_isr_of topic_config to_int default_min_isr topic ≡ ok m
      → IsMinimum topic m
  unfolding min_isr_of
  min_isr_of-IsMinimum topic m h =
      let (setting, read, last) = >>=-eq-ok (get_min_isr topic_config to_int topic) _ h in
      elim (Option-cases (topic_config topic)) [
        | inl e ↦
            let same : setting ≡ none = cc (read, get_min_isr_no_node topic e) in
            no_node e (let k = rw same at last in cc k)
        | inr (settings, e) ↦ elim (Option-cases (lookup "min.insync.replicas" settings)) [
          | inl f ↦
              let same : setting ≡ none = cc (read, get_min_isr_not_set topic settings e f) in
              not_set settings e f (let k = rw same at last in cc k)
          | inr (text, f) ↦
              let (n, g, found) =
                >>=-eq-ok (to_int text) (λ n. ok (some n))
                  (sym (get_min_isr_set topic text settings e f) ∙ read) in
              let same : setting ≡ some n = cc found in
              let value : or_default default_min_isr (some n) ≡ m =
                ap (or_default default_min_isr) (sym same) ∙ cc last in
              set settings text n e f g ((or_default_lem n m).0 value)
        ]
      ]

  IsMinimum-min_isr_of :
      (topic : String) (m : Option ℤ)
      → IsMinimum topic m
      → min_isr_of topic_config to_int default_min_isr topic ≡ ok m
  unfolding min_isr_of
  IsMinimum-min_isr_of topic m (no_node e h) = rw (get_min_isr_no_node topic e) (ap ok (sym h))
  IsMinimum-min_isr_of topic m (not_set settings e f h) =
      rw (get_min_isr_not_set topic settings e f) (ap ok (sym h))
  IsMinimum-min_isr_of topic m (set settings text n e f g h) =
      rw (get_min_isr_set topic text settings e f) (rw g (ap ok ((or_default_lem n m).1 h)))

  -- Each partition has as many replicas in sync as a minimum asks for.
  abbrev pub Meets : Option ℤ → Dict ℕ PartitionMetadata → Type 0
  Meets none ps = Unit
  Meets (some m) ps = Each (λ e. ltb_ℤ (pos (length e.1.isr)) m ≡ false) ps

  -- The minimum of each topic can be read, and no partition is below it.
  abbrev pub IsInSync : Topics → Type 0
  IsInSync topics = Each (λ t. (m : Option ℤ) × IsMinimum t.0 m × Meets m t.1) topics

  not_in_sync-nil :
      (m : ℤ) (ps : Dict ℕ PartitionMetadata)
      → not_in_sync m ps ≡ []
      → Each (λ e. ltb_ℤ (pos (length e.1.isr)) m ≡ false) ps
  unfolding not_in_sync
  not_in_sync-nil m [] h = tt
  not_in_sync-nil m ((i, d) ∷ ps) h = elim (Bool-cases (ltb_ℤ (pos (length d.isr)) m)) [
    | inl e ↦ let k = rw e at h in cc k
    | inr e ↦ (e, not_in_sync-nil m ps (let k = rw e at h in k))
  ]

  nil-not_in_sync :
      (m : ℤ) (ps : Dict ℕ PartitionMetadata)
      → Each (λ e. ltb_ℤ (pos (length e.1.isr)) m ≡ false) ps
      → not_in_sync m ps ≡ []
  unfolding not_in_sync
  nil-not_in_sync m [] h = refl
  nil-not_in_sync m ((i, d) ∷ ps) h = rw (h.0) (nil-not_in_sync m ps h.1)

  append-nil : (xs ys : List NotInSync) → xs ++ ys ≡ [] → (xs ≡ []) × (ys ≡ [])
  append-nil [] ys h = (refl, h)
  append-nil (x ∷ xs) ys h = cc

  abbrev found_in : Option ℤ → Dict ℕ PartitionMetadata → List NotInSync → List NotInSync
  found_in setting ps rest = elim setting [ none ↦ rest | some m ↦ not_in_sync m ps ++ rest ]

  found_in-nil :
      (setting : Option ℤ) (ps : Dict ℕ PartitionMetadata) (rest : List NotInSync)
      → found_in setting ps rest ≡ []
      → Meets setting ps × (rest ≡ [])
  found_in-nil none ps rest h = (tt, h)
  found_in-nil (some m) ps rest h =
      let (here, there) = append-nil _ rest h in (not_in_sync-nil m ps here, there)

  nil-found_in :
      (setting : Option ℤ) (ps : Dict ℕ PartitionMetadata)
      → Meets setting ps
      → found_in setting ps [] ≡ []
  nil-found_in none ps h = refl
  nil-found_in (some m) ps h = rw (nil-not_in_sync m ps h) refl

  process-nil :
      (topics : Topics)
      → process_metadata_response topic_config to_int default_min_isr topics ≡ ok []
      → IsInSync topics
  unfolding process_metadata_response
  process-nil [] h = tt
  process-nil ((topic, ps) ∷ more) h =
      let (m, read, h1) = >>=-eq-ok (min_isr_of topic_config to_int default_min_isr topic) _ h in
      let (rest, done, h2) =
        >>=-eq-ok (process_metadata_response topic_config to_int default_min_isr more) _ h1 in
      let none_left : found_in m ps rest ≡ [] = cc h2 in
      let (here, there) = found_in-nil m ps rest none_left in
      ((m, min_isr_of-IsMinimum topic m read, here), process-nil more (done ∙ ap ok there))

  nil-process :
      (topics : Topics)
      → IsInSync topics
      → process_metadata_response topic_config to_int default_min_isr topics ≡ ok []
  unfolding process_metadata_response
  nil-process [] h = refl
  nil-process ((topic, ps) ∷ more) ((m, read, here), there) =
      rw (IsMinimum-min_isr_of topic m read, nil-process more there)
        (ap ok (nil-found_in m ps here))

  errcode-healthy :
      (all found : List NotInSync)
      → ◌≡◌ {A = Result (Status × List NotInSync)} (ok (errcode all, all)) (ok (healthy, found))
      → (all ≡ []) × (all ≡ found)
  errcode-healthy [] found h = (refl, cc h)
  errcode-healthy (x ∷ xs) found h = cc

  -- The check of the replicas in sync ends with the status OK exactly if the minimum of each topic
  -- can be read, its setting where it has one that is not 0 and the default else, and each partition
  -- has at least as many replicas in sync; a topic without a minimum is passed over.
  pub min_isr_command_iff :
      (topics : Topics)
      → ((found : List NotInSync) × (min_isr_command topic_config to_int default_min_isr topics
            ≡ ok (healthy, found)))
        ↔ IsInSync topics
  unfolding min_isr_command
  min_isr_command_iff topics = (
    λ (found, h).
        let (all, done, h1) =
          >>=-eq-ok (process_metadata_response topic_config to_int default_min_isr topics) _ h in
        let (clear, same) = errcode-healthy all found h1 in process-nil topics (done ∙ ap ok clear),
    λ h. ([], rw (nil-process topics h) refl),
  )
