-- ===== src/Pipeline/AssetBudget/Snapshot.antt =====
-- daemon/src/pipeline/asset_budget.rs: the end of a read, the snapshot of a file, and what a read that
-- fails leaves in the ledger.
use import_lens.Prelude.{
  ℕ, ◌-◌, String, Bool, List, Option, none, some, ltb, if◌then◌else◌, length, get, insert,
  contains_key, contains, saturating_add,
}
use import_lens.Cache.Fingerprint.{
  Metadata, IoResult, ok, err, ErrorKind, not_found, other_error, modified_millis,
  absent_file_fingerprint, unverifiable_file_fingerprint,
}
use import_lens.Pipeline.AssetBudget.{
  AssetKind, CollectedAsset, AssetBudgetLimits, css_work_reading, file_bytes, source_reading,
  BudgetError, missing_file, read_failed, done, refused, panicked, BudgetState, CssReadReservation,
  Charge, ◌>>=◌, ◌>>◌, pure, modify, breach, check_available, FileSystem, observed,
  begin_resource_read, canonical_path, stat_fingerprint,
}

abbrev pub alias : String → String → BudgetState → BudgetState
alias requested path s = record s { aliases = insert requested path s.aliases }

abbrev pub or_insert_snapshot : String → CollectedAsset → BudgetState → BudgetState
or_insert_snapshot path asset s =
    if contains_key path s.snapshots
    then s
    else record s { snapshots = insert path asset s.snapshots }

module _ (limits : AssetBudgetLimits) (fs : FileSystem) where
  unfoldable pub from_read : String → AssetKind → Metadata → List ℕ → CollectedAsset
  from_read canonical_path kind metadata bytes = record {
    path = canonical_path;
    kind = kind;
    bytes = bytes;
    fingerprint = record {
      path = fs.identity canonical_path;
      len = metadata.len;
      modified_millis = modified_millis metadata;
      content_hash = some (fs.content_hash bytes);
    };
  }

  -- The work that was reserved by the metadata becomes that of the bytes.
  unfoldable pub reconcile_css_work : String → ℕ → Option ℕ → Charge (Unit {0})
  unfolding breach
  reconcile_css_work path actual_bytes none s = (done tt, s)
  reconcile_css_work path actual_bytes (some reserved_bytes) s =
      if ltb s.css_work_bytes reserved_bytes
      then (panicked, s)
      else let reconciled = saturating_add (s.css_work_bytes - reserved_bytes) actual_bytes in
        if ltb limits.max_css_work_bytes reconciled
        then breach (css_work_reading path) s
        else (done tt, record s { css_work_bytes = reconciled })

  unfoldable pub check_file_bytes : String → ℕ → Charge (Unit {0})
  unfolding breach
  check_file_bytes path actual_bytes s =
      if ltb limits.max_file_bytes actual_bytes then breach (file_bytes path) s else (done tt, s)

  unfoldable pub reconcile_charged : String → ℕ → Option ℕ → Charge (Unit {0})
  unfolding breach
  reconcile_charged path actual_bytes none s = (panicked, s)
  reconcile_charged path actual_bytes (some charged_bytes) s =
      let reconciled = saturating_add s.input_bytes (actual_bytes - charged_bytes) in
      if ltb limits.max_input_bytes reconciled then breach (source_reading path) s else (
        done tt,
        record s {
          input_bytes = reconciled;
          unique_files =
              if ltb charged_bytes actual_bytes
              then insert path actual_bytes s.unique_files
              else s.unique_files;
        },
      )

  unfoldable pub reconcile_input : String → ℕ → Charge (Unit {0})
  unfolding reconcile_charged
  reconcile_input path actual_bytes s =
      if contains path s.graph_files
      then (done tt, s)
      else reconcile_charged path actual_bytes (get path s.unique_files) s

  unfoldable pub finish_read :
      Bool → CssReadReservation → AssetKind → List ℕ → Charge CollectedAsset
  unfolding from_read check_available reconcile_css_work check_file_bytes reconcile_input
  finish_read expired reservation kind bytes =
      let asset = from_read reservation.path kind reservation.metadata bytes in
      do
        check_available expired
        modify (observed reservation.path asset.fingerprint)
        reconcile_css_work reservation.path (length bytes) reservation.css_work_reserved_bytes
        check_file_bytes reservation.path (length bytes)
        reconcile_input reservation.path (length bytes)
        modify (or_insert_snapshot reservation.path asset)
        pure asset

  unfoldable pub record_failed_path : String → ErrorKind → Charge (Unit {0})
  unfolding canonical_path
  record_failed_path requested kind =
      let path = canonical_path limits fs requested in
      modify (
        observed path (elim kind [
          | not_found ↦ absent_file_fingerprint (λ p. fs.identity (canonical_path limits fs p)) path
          | other_error ↦
              unverifiable_file_fingerprint (λ p. fs.identity (canonical_path limits fs p)) path
        ]))

  abbrev pub error_of : ErrorKind → BudgetError
  error_of not_found = missing_file
  error_of other_error = read_failed

  abbrev pub fail_with {ℓ} : {A : Type ℓ} → String → ErrorKind → Charge A
  fail_with path kind s = (refused (error_of kind), (record_failed_path path kind s).1)

  unfoldable pub observed_as : String → IoResult Metadata → Charge Metadata
  unfolding record_failed_path
  observed_as path (ok m) = do modify (observed path (stat_fingerprint limits fs path m)); pure m
  observed_as path (err kind) = fail_with path kind

  unfoldable pub observe_metadata : String → Charge Metadata
  unfolding observed_as
  observe_metadata path = observed_as path (fs.metadata path)

  abbrev pub identity_of : Option String → String → String
  identity_of none path = path
  identity_of (some canonical) path = canonical

  abbrev pub or_else {ℓ} : {A : Type ℓ} → Option A → Option A → Option A
  or_else none b = b
  or_else (some a) b = some a

  -- The snapshot that was taken of the path, by the canonical path it was asked for under before or has.
  unfoldable pub snapshot_if_present : String → BudgetState → Option CollectedAsset
  snapshot_if_present path s =
      or_else (get (identity_of (get path s.aliases) path) s.snapshots)
        (get (canonical_path limits fs path) s.snapshots)

  -- The reads of the file, under metadata-first admission.
  -- `expired n` is what the deadline answers at the n-th check.
  unfoldable pub read_snapshot : (ℕ → Bool) → AssetKind → String → Charge CollectedAsset
  unfolding begin_resource_read finish_read record_failed_path check_available
  read_snapshot expired kind path = do
    check_available (expired 0)
    elim (fs.metadata path) [
      | err error ↦ fail_with path error
      | ok m ↦ do
        reservation ← begin_resource_read limits fs (expired 1) path m
        elim (fs.read path) [
          | err error ↦ fail_with path error
          | ok bytes ↦ finish_read (expired 2) reservation kind bytes
        ]
    ]

  unfoldable pub snapshot : (ℕ → Bool) → AssetKind → String → Charge CollectedAsset
  unfolding snapshot_if_present read_snapshot canonical_path
  snapshot expired kind requested s = elim (snapshot_if_present requested s) [
    | some asset ↦ (do check_available (expired 0); pure asset) s
    | none ↦
        let path = canonical_path limits fs requested in
        read_snapshot expired kind path (alias requested path s)
  ]
