-- ===== src/Pipeline/AssetBudget/Finish.antt =====
-- The end of a read in daemon/src/pipeline/asset_budget.rs keeps the ledger's bounds, and does not panic.
use import_lens.Prelude.{
  ℕ, ◌+◌, ◌-◌, ◌≤◌, ◌≡◌, inl, inr, String, Bool, true, List, ◌∷◌, Option, none, some, ltb, length,
  get, contains_key, contains, saturating_add, arith, length-insert_known, insert-DistinctKeys,
  contains_key-get, Bool-cases, Option-cases, if_cases,
}
use import_lens.Pipeline.AssetBudget.{
  AssetBudgetLimits, Result, BudgetState, CssReadReservation, Charge, continue, FileSystem,
  check_available, observed, CollectedAsset, AssetKind, file_bytes, css_work_reading,
  source_reading,
}
use import_lens.Pipeline.AssetBudget.Snapshot.{
  reconcile_css_work, check_file_bytes, reconcile_charged, reconcile_input, finish_read, from_read,
}
use import_lens.Pipeline.AssetBudget.Totals.{reserved, or_zero, charged-insert}
use import_lens.Pipeline.AssetBudget.Bounds.{
  AreFinite, Known, Within, Sound, Ensures, Ensures-bind, Ensures-weaken, check_available-Sound,
  record_limit-Sound, Known-insert,
}

module _ (limits : AssetBudgetLimits) (graph_source_bytes : ℕ) where
  module _ (finite : AreFinite limits) (fs : FileSystem) where
    -- A read whose work was reserved ends with the work of its bytes.
    pub reconcile_css_work-Sound :
        (rest : List CssReadReservation) (r : CssReadReservation) (bytes : ℕ) (s : BudgetState)
        → Sound limits graph_source_bytes (r ∷ rest) s
        → Ensures limits graph_source_bytes
            (Sound limits graph_source_bytes rest)
            (λ _ s'. Sound limits graph_source_bytes rest s' × Known s'.unique_files r)
            (reconcile_css_work limits fs r.path bytes r.css_work_reserved_bytes s)
    unfolding reconcile_css_work reserved
    reconcile_css_work-Sound rest r bytes s h = go r.css_work_reserved_bytes h.reserved_within
      where
        closed :
            (work : ℕ)
            → work ≤ limits.max_css_work_bytes
            → reserved rest ≤ work
            → Within limits graph_source_bytes s.unique_files s.input_bytes s.css_work_reads work
                s.module_limit_message rest
        closed work le fits = record {
          reads_within = h.reads_within;
          work_within = le;
          reserved_within = fits;
          files_within = h.files_within;
          total = h.total;
          distinct = h.distinct;
          known = h.known.1;
        }

        go :
            (o : Option ℕ)
            → or_zero o + reserved rest ≤ s.css_work_bytes
            → Ensures limits graph_source_bytes
                (Sound limits graph_source_bytes rest)
                (λ _ s'. Sound limits graph_source_bytes rest s' × Known s'.unique_files r)
                (reconcile_css_work limits fs r.path bytes o s)
        go none fits = (closed s.css_work_bytes h.work_within (omega (arith, fits)), h.known.0)
        go (some n) fits = elim (Bool-cases (ltb s.css_work_bytes n)) [
          | inl less ↦ absurd (ground (arith, less, fits))
          | inr enough ↦
              rw enough
                (elim (Bool-cases
                  (ltb limits.max_css_work_bytes (saturating_add (s.css_work_bytes - n) bytes))) [
                    | inl over ↦ rw over (
                        record_limit-Sound limits graph_source_bytes rest (css_work_reading r.path)
                          s (closed s.css_work_bytes h.work_within (omega (arith, fits))))
                    | inr within ↦ rw within (
                      closed _ (ground (arith, within)) (ground (arith, within, fits, finite.work)),
                      h.known.0,
                    )
                  ])
        ]

    reconcile_charged-Sound :
        (rest : List CssReadReservation) (path : String) (bytes charged_bytes : ℕ) (s : BudgetState)
        → get path s.unique_files ≡ some charged_bytes
        → Sound limits graph_source_bytes rest s
        → Ensures limits graph_source_bytes
            (Sound limits graph_source_bytes rest)
            (λ _ s'. Sound limits graph_source_bytes rest s')
            (reconcile_charged limits fs path bytes (some charged_bytes) s)
    unfolding reconcile_charged
    reconcile_charged-Sound rest path bytes charged_bytes s e h =
        elim (Bool-cases
          (ltb limits.max_input_bytes (saturating_add s.input_bytes (bytes - charged_bytes)))) [
            | inl over ↦
                rw over
                  (record_limit-Sound limits graph_source_bytes rest (source_reading path) s h)
            | inr within ↦ rw within (elim (Bool-cases (ltb charged_bytes bytes)) [
              | inl more ↦ rw more (record {
                reads_within = h.reads_within;
                work_within = h.work_within;
                reserved_within = h.reserved_within;
                files_within = elim h.files_within [
                  | inl m ↦ inl m
                  | inr (few, small) ↦ inr (
                    omega (arith, few, length-insert_known path bytes s.unique_files known),
                    ground (arith, within),
                  )
                ];
                total = ground (
                  arith,
                  within,
                  more,
                  finite.input,
                  h.total,
                  e,
                  charged-insert path bytes s.unique_files h.distinct,
                );
                distinct = insert-DistinctKeys path bytes s.unique_files h.distinct;
                known =
                    Known-insert limits graph_source_bytes finite fs path bytes s.unique_files rest
                      h.known;
              })
              | inr less ↦ rw less (record {
                reads_within = h.reads_within;
                work_within = h.work_within;
                reserved_within = h.reserved_within;
                files_within = elim h.files_within [
                  | inl m ↦ inl m
                  | inr (few, small) ↦ inr (few, ground (arith, within))
                ];
                total = ground (arith, within, less, finite.input, h.total);
                distinct = h.distinct;
                known = h.known;
              })
            ])
          ]
      where
        known : contains_key path s.unique_files ≡ true
        known = ground (arith, contains_key-get path s.unique_files, e)

    pub reconcile_input-Sound :
        (rest : List CssReadReservation) (path : String) (bytes : ℕ) (s : BudgetState)
        → contains_key path s.unique_files ≡ true
        → Sound limits graph_source_bytes rest s
        → Ensures limits graph_source_bytes
            (Sound limits graph_source_bytes rest)
            (λ _ s'. Sound limits graph_source_bytes rest s')
            (reconcile_input limits fs path bytes s)
    unfolding reconcile_input
    reconcile_input-Sound rest path bytes s known h =
        elim (Bool-cases (contains path s.graph_files)) [
          | inl graph ↦ rw graph h
          | inr other ↦ rw other (elim (Option-cases (get path s.unique_files)) [
            | inl absent ↦
                absurd (ground (arith, contains_key-get path s.unique_files, absent, known))
            | inr (c, e) ↦ rw e (reconcile_charged-Sound rest path bytes c s e h)
          ])
        ]

    closed_read :
        (rest : List CssReadReservation) (r : CssReadReservation) (s : BudgetState)
        → Sound limits graph_source_bytes (r ∷ rest) s
        → Sound limits graph_source_bytes rest s
    unfolding reserved
    closed_read rest r s h = record {
      reads_within = h.reads_within;
      work_within = h.work_within;
      reserved_within = omega (arith, h.reserved_within);
      files_within = h.files_within;
      total = h.total;
      distinct = h.distinct;
      known = h.known.1;
    }

    check_file_bytes-Sound :
        (rest : List CssReadReservation) (r : CssReadReservation) (bytes : ℕ) (s : BudgetState)
        → Sound limits graph_source_bytes rest s × Known s.unique_files r
        → Ensures limits graph_source_bytes
            (Sound limits graph_source_bytes rest)
            (λ _ s'. Sound limits graph_source_bytes rest s' × Known s'.unique_files r)
            (check_file_bytes limits fs r.path bytes s)
    unfolding check_file_bytes
    check_file_bytes-Sound rest r bytes s h = elim (Bool-cases (ltb limits.max_file_bytes bytes)) [
      | inl over ↦
          rw over (record_limit-Sound limits graph_source_bytes rest (file_bytes r.path) s h.0)
      | inr small ↦ rw small h
    ]

    -- The end of an open read: whether it is done or refused, the read is no longer open.
    pub finish_read-Sound :
        (rest : List CssReadReservation) (r : CssReadReservation) (expired : Bool)
        (kind : AssetKind) (bytes : List ℕ) (s : BudgetState)
        → Sound limits graph_source_bytes (r ∷ rest) s
        → Ensures limits graph_source_bytes
            (Sound limits graph_source_bytes rest)
            (λ _ s'. Sound limits graph_source_bytes rest s')
            (finish_read limits fs expired r kind bytes s)
    unfolding finish_read
    finish_read-Sound rest r expired kind bytes s h =
        bind (λ (_ : Unit {0}) s'. Sound limits graph_source_bytes (r ∷ rest) s')
          (check_available expired s) _
          (Ensures-weaken limits graph_source_bytes (Sound limits graph_source_bytes (r ∷ rest)) P _
            _ (check_available expired s) (closed_read rest r) (λ _ s1 h1. h1)
            (check_available-Sound limits graph_source_bytes (r ∷ rest) expired s h))
          (λ _ s1 h1.
            bind Q
              (reconcile_css_work limits fs r.path (length bytes) r.css_work_reserved_bytes
                (seen s1))
              _ (reconcile_css_work-Sound rest r (length bytes) (seen s1) h1)
              (λ _ s2 h2.
                bind Q (check_file_bytes limits fs r.path (length bytes) s2) _
                  (check_file_bytes-Sound rest r (length bytes) s2 h2)
                  (λ _ s3 h3.
                    bind (λ (_ : Unit {0}) s'. P s')
                      (reconcile_input limits fs r.path (length bytes) s3) _
                      (reconcile_input-Sound rest r.path (length bytes) s3 h3.1 h3.0)
                      (λ _ s4 h4.
                        if_cases P (contains_key r.path s4.snapshots) _ _ (λ _. h4) (λ _. h4)))))
      where
        P : BudgetState → Type 0
        P s' = Sound limits graph_source_bytes rest s'

        Q : Unit {0} → BudgetState → Type 0
        Q _ s' = P s' × Known s'.unique_files r

        seen : BudgetState → BudgetState
        seen s' = observed r.path (from_read limits fs r.path kind r.metadata bytes).fingerprint s'

        bind :
            {A : Type 0} (Q : A → BudgetState → Type 0) (m : Result A × BudgetState)
            (f : A → Charge CollectedAsset)
            → Ensures limits graph_source_bytes P Q m
            → ((a : A) (s : BudgetState)
                → Q a s
                → Ensures limits graph_source_bytes P (λ _ s'. P s') (f a s))
            → Ensures limits graph_source_bytes P (λ _ s'. P s') (continue m.0 f m.1)
        bind Q m f = Ensures-bind limits graph_source_bytes P Q (λ _ s'. P s') m f
