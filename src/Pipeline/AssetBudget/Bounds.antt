-- ===== src/Pipeline/AssetBudget/Bounds.antt =====
-- What every operation of daemon/src/pipeline/asset_budget.rs keeps true of the ledger.
use import_lens.Prelude.{
  get-absent, ℕ, ◌+◌, ◌≤◌, ◌<◌, ◌≡◌, ◌⊎◌, inl, inr, refl, String, Bool, true, false, ◌||◌, List,
  ◌∷◌, Option, none, some, ltb, length, insert, contains_key, saturating_add, u64_max, arith,
  DistinctKeys, All, All-mono, length-insert-le, insert-DistinctKeys, contains_key-insert,
  Bool-cases,
}
use import_lens.Cache.Fingerprint.{Metadata}
use import_lens.Pipeline.AssetBudget.{
  AssetBudgetLimits, LimitMessage, Result, done, refused, panicked, BudgetState, CssReadReservation,
  Charge, continue, FileSystem, canonical_path, stat_fingerprint, record_limit, available,
  check_available, charge_css_work, reserve_unique, observed, CollectedAsset, charge_css_snapshot,
  begin_css_read, begin_resource_read, css_work_loading, file_bytes, files_loading, source_loading,
}
use import_lens.Pipeline.AssetBudget.Totals.{charged, reserved, or_zero, charged-insert}

-- The limits are below the largest `usize`, so that a sum that saturates is above them.
pub record AreFinite (limits : AssetBudgetLimits) : Type 0 where
  pub files : limits.max_unique_files < u64_max
  pub input : limits.max_input_bytes < u64_max
  pub reads : limits.max_css_work_reads < u64_max
  pub work : limits.max_css_work_bytes < u64_max

abbrev pub Breached : Option LimitMessage → Type 0
Breached none = ⊥
Breached (some _) = Unit

abbrev pub Known : List (String × ℕ) → CssReadReservation → Type 0
Known unique_files r = contains_key r.path unique_files ≡ true

module _ (limits : AssetBudgetLimits) (graph_source_bytes : ℕ) where
  -- The work is within its limits, and what the open reads have reserved is part of it; the files and
  -- their bytes are, unless a breach was recorded; and the bytes are those of the graph and of each file.
  pub record Within (unique_files : List (String × ℕ)) (input reads work : ℕ)
      (message : Option LimitMessage) (open_reads : List CssReadReservation) : Type 0 where
    pub reads_within : reads ≤ limits.max_css_work_reads
    pub work_within : work ≤ limits.max_css_work_bytes
    pub reserved_within : reserved open_reads ≤ work
    pub files_within :
        Breached message
        ⊎ ((length unique_files ≤ limits.max_unique_files) × (input ≤ limits.max_input_bytes))
    pub total : input ≡ graph_source_bytes + charged unique_files
    pub distinct : DistinctKeys unique_files
    pub known : All (Known unique_files) open_reads

  abbrev pub Sound : List CssReadReservation → BudgetState → Type 0
  Sound open_reads s =
      Within s.unique_files s.input_bytes s.css_work_reads s.css_work_bytes s.module_limit_message
        open_reads

  -- An operation that is refused leaves what `P` says, one that is done what `Q` says, and none panics.
  abbrev pub Ensures :
      {A : Type 0}
      → (BudgetState → Type 0)
      → (A → BudgetState → Type 0)
      → Result A × BudgetState
      → Type 0
  Ensures P Q (done a, s) = Q a s
  Ensures P Q (refused e, s) = P s
  Ensures P Q (panicked, s) = ⊥

  pub Ensures-bind :
      {A B : Type 0} (P : BudgetState → Type 0) (Q : A → BudgetState → Type 0)
      (R : B → BudgetState → Type 0) (m : Result A × BudgetState) (f : A → Charge B)
      → Ensures P Q m
      → ((a : A) (s : BudgetState) → Q a s → Ensures P R (f a s))
      → Ensures P R (continue m.0 f m.1)
  Ensures-bind P Q R (done a, s) f h k = k a s h
  Ensures-bind P Q R (refused e, s) f h k = h
  Ensures-bind P Q R (panicked, s) f h k = h

  pub Ensures-weaken :
      {A : Type 0} (P P' : BudgetState → Type 0) (Q R : A → BudgetState → Type 0)
      (m : Result A × BudgetState)
      → ((s : BudgetState) → P s → P' s)
      → ((a : A) (s : BudgetState) → Q a s → R a s)
      → Ensures P Q m
      → Ensures P' R m
  Ensures-weaken P P' Q R (done a, s) j k h = k a s h
  Ensures-weaken P P' Q R (refused e, s) j k h = j s h
  Ensures-weaken P P' Q R (panicked, s) j k h = h

  opened :
      (open_reads : List CssReadReservation) (r : CssReadReservation) (s : BudgetState)
      → Sound open_reads s
      → Known s.unique_files r
      → or_zero r.css_work_reserved_bytes + reserved open_reads ≤ s.css_work_bytes
      → Sound (r ∷ open_reads) s
  unfolding reserved
  opened open_reads r s h known fits = record {
    reads_within = h.reads_within;
    work_within = h.work_within;
    reserved_within = fits;
    files_within = h.files_within;
    total = h.total;
    distinct = h.distinct;
    known = (known, h.known);
  }

  pub record_limit-Sound :
      (open_reads : List CssReadReservation) (message : LimitMessage) (s : BudgetState)
      → Sound open_reads s
      → Sound open_reads (record_limit message s)
  unfolding record_limit
  record_limit-Sound open_reads message s h = record {
    reads_within = h.reads_within;
    work_within = h.work_within;
    reserved_within = h.reserved_within;
    files_within = inl tt;
    total = h.total;
    distinct = h.distinct;
    known = h.known;
  }

  available-Sound :
      (open_reads : List CssReadReservation) (o : Option LimitMessage) (expired : Bool)
      (s : BudgetState)
      → Sound open_reads s
      → Ensures (Sound open_reads) (λ _ s. Sound open_reads s) (available o expired s)
  unfolding available
  available-Sound open_reads (some m) expired s h = h
  available-Sound open_reads none true s h = h
  available-Sound open_reads none false s h = h

  pub check_available-Sound :
      (open_reads : List CssReadReservation) (expired : Bool) (s : BudgetState)
      → Sound open_reads s
      → Ensures (Sound open_reads) (λ _ s. Sound open_reads s) (check_available expired s)
  unfolding check_available
  check_available-Sound open_reads expired s h =
      available-Sound open_reads s.module_limit_message expired s h

  module _ (finite : AreFinite limits) (fs : FileSystem) where
    -- The work that is done may be reserved by one more read.
    pub charge_css_work-Sound :
        (open_reads : List CssReadReservation) (bytes : ℕ) (path : String) (s : BudgetState)
        → Sound open_reads s
        → Ensures
            (Sound open_reads)
            (λ _ s. Sound open_reads s × (reserved open_reads + bytes ≤ s.css_work_bytes))
            (charge_css_work limits fs bytes path s)
    unfolding charge_css_work
    charge_css_work-Sound open_reads bytes path s h =
        elim (Bool-cases (
          ltb limits.max_css_work_reads (saturating_add s.css_work_reads 1)
          || ltb limits.max_css_work_bytes (saturating_add s.css_work_bytes bytes))) [
            | inl over ↦ rw over (record_limit-Sound open_reads (css_work_loading path) s h)
            | inr within ↦ rw within (
              record {
                reads_within = ground (arith, within);
                work_within = ground (arith, within);
                reserved_within = ground (arith, within, finite.work, h.reserved_within);
                files_within = h.files_within;
                total = h.total;
                distinct = h.distinct;
                known = h.known;
              },
              ground (arith, within, finite.work, h.reserved_within),
            )
          ]

    -- The path has a reservation, and the work is the same.
    abbrev pub Reserved : List CssReadReservation → String → ℕ → Unit {0} → BudgetState → Type 0
    Reserved open_reads path work _ s =
        Sound open_reads s × (contains_key path s.unique_files ≡ true) × (s.css_work_bytes ≡ work)

    pub Known-insert :
        (path : String) (bytes : ℕ) (m : List (String × ℕ)) (rs : List CssReadReservation)
        → All (Known m) rs
        → All (Known (insert path bytes m)) rs
    Known-insert path bytes m rs h =
        All-mono (Known m) (Known (insert path bytes m))
          (λ r k. ground (arith, contains_key-insert path r.path bytes m, k)) rs h

    pub reserve_unique-Sound :
        (open_reads : List CssReadReservation) (bytes : ℕ) (path : String) (s : BudgetState)
        → Sound open_reads s
        → Ensures
            (Sound open_reads)
            (Reserved open_reads path s.css_work_bytes)
            (reserve_unique limits fs path bytes s)
    unfolding reserve_unique
    reserve_unique-Sound open_reads bytes path s h =
        elim (Bool-cases (ltb limits.max_file_bytes bytes)) [
          | inl over ↦ rw over (record_limit-Sound open_reads (file_bytes path) s h)
          | inr small ↦ rw small (elim (Bool-cases (contains_key path s.unique_files)) [
            | inl known ↦ rw known (h, known, refl)
            | inr new ↦
                rw new
                  (elim (Bool-cases
                    (ltb limits.max_unique_files (saturating_add (length s.unique_files) 1))) [
                      | inl over ↦ rw over (record_limit-Sound open_reads (files_loading path) s h)
                      | inr few ↦
                          rw few
                            (elim (Bool-cases
                              (ltb limits.max_input_bytes (saturating_add s.input_bytes bytes))) [
                                | inl over ↦
                                    rw over
                                      (record_limit-Sound open_reads (source_loading path) s h)
                                | inr within ↦ rw within (
                                  inserted new few within,
                                  ground
                                      (arith, contains_key-insert path path bytes s.unique_files),
                                  refl,
                                )
                              ])
                    ])
          ])
        ]
      where
        inserted :
            contains_key path s.unique_files ≡ false
            → ltb limits.max_unique_files (saturating_add (length s.unique_files) 1) ≡ false
            → ltb limits.max_input_bytes (saturating_add s.input_bytes bytes) ≡ false
            → Within
                (insert path bytes s.unique_files)
                (saturating_add s.input_bytes bytes)
                s.css_work_reads
                s.css_work_bytes
                s.module_limit_message
                open_reads
        inserted new few within = record {
          reads_within = h.reads_within;
          work_within = h.work_within;
          reserved_within = h.reserved_within;
          files_within = inr (
            ground (arith, few, finite.files, length-insert-le path bytes s.unique_files),
            ground (arith, within),
          );
          total = ground (
            arith,
            within,
            finite.input,
            h.total,
            charged-insert path bytes s.unique_files h.distinct,
            get-absent path s.unique_files new,
          );
          distinct = insert-DistinctKeys path bytes s.unique_files h.distinct;
          known = Known-insert path bytes s.unique_files open_reads h.known;
        }

    pub charge_css_snapshot-Sound :
        (open_reads : List CssReadReservation) (expired : Bool) (asset : CollectedAsset)
        (s : BudgetState)
        → Sound open_reads s
        → Ensures
            (Sound open_reads)
            (λ _ s'. Sound open_reads s')
            (charge_css_snapshot limits fs expired asset s)
    unfolding charge_css_snapshot
    charge_css_snapshot-Sound open_reads expired asset s h =
        Ensures-bind (Sound open_reads) (λ _ s'. Sound open_reads s') (λ _ s'. Sound open_reads s')
          (check_available expired s) _ (check_available-Sound open_reads expired s h)
          (λ _ s1 h1.
            Ensures-weaken (Sound open_reads) (Sound open_reads) _ _
              (charge_css_work limits fs (length asset.bytes) asset.path
                (observed asset.path asset.fingerprint s1))
              (λ s2 h2. h2) (λ _ s2 h2. h2.0)
              (charge_css_work-Sound open_reads (length asset.bytes) asset.path
                (observed asset.path asset.fingerprint s1) h1))

    -- A read that begins is one more open read, whose path is charged.
    pub begin_css_read-Sound :
        (open_reads : List CssReadReservation) (expired : Bool) (requested : String)
        (metadata : Metadata) (s : BudgetState)
        → Sound open_reads s
        → Ensures
            (Sound open_reads)
            (λ r s'. Sound (r ∷ open_reads) s')
            (begin_css_read limits fs expired requested metadata s)
    unfolding begin_css_read reserved
    begin_css_read-Sound open_reads expired requested metadata s h =
        Ensures-bind (Sound open_reads) (λ _ s'. Sound open_reads s')
          (λ r s'. Sound (r ∷ open_reads) s') (check_available expired s) _
          (check_available-Sound open_reads expired s h)
          (λ _ s1 h1.
            Ensures-bind (Sound open_reads)
              (λ _ s'.
                Sound open_reads s' × (reserved open_reads + metadata.len ≤ s'.css_work_bytes))
              (λ r s'. Sound (r ∷ open_reads) s')
              (charge_css_work limits fs metadata.len path
                (observed path (stat_fingerprint limits fs path metadata) s1))
              _
              (charge_css_work-Sound open_reads metadata.len path
                (observed path (stat_fingerprint limits fs path metadata) s1) h1)
              (λ _ s2 h2.
                Ensures-bind (Sound open_reads) (Reserved open_reads path s2.css_work_bytes)
                  (λ r s'. Sound (r ∷ open_reads) s')
                  (reserve_unique limits fs path metadata.len s2) _
                  (reserve_unique-Sound open_reads metadata.len path s2 h2.0)
                  (λ _ s3 h3.
                    opened open_reads
                      (record {
                        path = path;
                        metadata = metadata;
                        css_work_reserved_bytes = some metadata.len;
                      })
                      s3 h3.0 h3.1 (omega (arith, h2.1, h3.2)))))
      where
        path : String
        path = canonical_path limits fs requested

    pub begin_resource_read-Sound :
        (open_reads : List CssReadReservation) (expired : Bool) (path : String)
        (metadata : Metadata) (s : BudgetState)
        → Sound open_reads s
        → Ensures
            (Sound open_reads)
            (λ r s'. Sound (r ∷ open_reads) s')
            (begin_resource_read limits fs expired path metadata s)
    unfolding begin_resource_read reserved
    begin_resource_read-Sound open_reads expired path metadata s h =
        Ensures-bind (Sound open_reads) (λ _ s'. Sound open_reads s')
          (λ r s'. Sound (r ∷ open_reads) s') (check_available expired s) _
          (check_available-Sound open_reads expired s h)
          (λ _ s1 h1.
            Ensures-bind (Sound open_reads) (Reserved open_reads path s1.css_work_bytes)
              (λ r s'. Sound (r ∷ open_reads) s')
              (reserve_unique limits fs path metadata.len
                (observed path (stat_fingerprint limits fs path metadata) s1))
              _
              (reserve_unique-Sound open_reads metadata.len path
                (observed path (stat_fingerprint limits fs path metadata) s1) h1)
              (λ _ s3 h3.
                opened open_reads
                  (record { path = path; metadata = metadata; css_work_reserved_bytes = none }) s3
                  h3.0 h3.1 (omega (arith, h3.0.reserved_within))))
