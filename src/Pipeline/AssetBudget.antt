-- ===== src/Pipeline/AssetBudget.antt =====
-- daemon/src/pipeline/asset_budget.rs: the ledger of what the files of a build's stylesheets cost. Each
-- operation runs under the ledger's mutex; `expired` is what the deadline answers when it is asked. A
-- message stands for its text by the format it is made from. A `usize` has 64 bits, so that the length
-- in the metadata always fits.
pub mod Snapshot
pub mod Calls
pub mod Totals
pub mod Bounds
pub mod Finish
pub mod Start
pub mod Ledger
mod Samples
use import_lens.Prelude.{
  ℕ, ◌+◌, ◌-◌, ◌*◌, String, Bool, true, false, not, ◌||◌, ◌&&◌, List, [], ◌∷◌, ◌++◌, map, Option,
  none, some, ltb, leb, if◌then◌else◌, length, get, insert, contains_key, contains, saturating_add,
}
use import_lens.Cache.Fingerprint.{
  Metadata, IoResult, ok, err, FileFingerprint, modified_millis, absent_file_fingerprint,
  unverifiable_file_fingerprint,
}

pub data AssetKind : Type 0 where
  css wasm font image : AssetKind

pub record CollectedAsset : Type 0 where
  pub path : String
  pub kind : AssetKind
  pub bytes : List ℕ
  pub fingerprint : FileFingerprint

pub record AssetBudgetLimits : Type 0 where
  pub max_unique_files : ℕ
  pub max_input_bytes : ℕ
  pub max_file_bytes : ℕ
  pub max_css_work_reads : ℕ
  pub max_css_work_bytes : ℕ

-- `AssetBudgetLimits::production`, with the total of `MAX_GRAPH_SOURCE_BYTES`.
abbrev pub production_limits : AssetBudgetLimits
production_limits = record {
  max_unique_files = 2000;
  max_input_bytes = 100 * 1024 * 1024;
  max_file_bytes = 20 * 1024 * 1024;
  max_css_work_reads = 512;
  max_css_work_bytes = 16 * 1024 * 1024;
}

-- The breaches, by where they are found.
pub data LimitMessage : Type 0 where
  files_at_start source_at_start : LimitMessage
  css_work_loading css_work_reading : String → LimitMessage
  file_bytes : String → LimitMessage
  files_loading source_loading source_reading : String → LimitMessage
  resource_limit : LimitMessage

pub data BudgetError : Type 0 where
  limit_error : LimitMessage → BudgetError
  deadline_expired : BudgetError
  missing_file read_failed : BudgetError

-- `panicked` is an `expect` that fails.
pub data Result {ℓ} (A : Type ℓ) : Type ℓ where
  done : A → Result A
  refused : BudgetError → Result A
  panicked : Result A

pub record BudgetState : Type 0 where
  pub unique_files : List (String × ℕ)
  pub graph_files : List String
  pub aliases : List (String × String)
  pub input_bytes : ℕ
  pub css_work_reads : ℕ
  pub css_work_bytes : ℕ
  pub snapshots : List (String × CollectedAsset)
  pub read_paths : List String
  pub fingerprints : List FileFingerprint
  pub module_limit_message : Option LimitMessage
  pub timed_out : Bool

pub record CssReadReservation : Type 0 where
  pub path : String
  pub metadata : Metadata
  pub css_work_reserved_bytes : Option ℕ

-- An operation on the ledger; what it wrote before an error stays written.
abbrev pub Charge {ℓ} : Type ℓ → Type ℓ
Charge A = BudgetState → Result A × BudgetState

module _ {ℓ} {A B : Type ℓ} where
  abbrev pub continue : Result A → (A → Charge B) → Charge B
  continue (done a) f s = f a s
  continue (refused e) f s = (refused e, s)
  continue panicked f s = (panicked, s)

  infixl 10 ◌>>=◌ ◌>>◌
  abbrev pub ◌>>=◌ : Charge A → (A → Charge B) → Charge B
  ◌>>=◌ m f s = let (r, s') = m s in continue r f s'

  abbrev pub ◌>>◌ : Charge A → Charge B → Charge B
  m >> n = m >>= λ _. n

abbrev pub pure {ℓ} : {A : Type ℓ} → A → Charge A
pure a s = (done a, s)

abbrev pub modify : (BudgetState → BudgetState) → Charge (Unit {0})
modify f s = (done tt, f s)

abbrev pub get_or_insert : Option LimitMessage → LimitMessage → LimitMessage
get_or_insert none message = message
get_or_insert (some first) message = first

unfoldable pub record_limit : LimitMessage → BudgetState → BudgetState
record_limit message s = record s {
  module_limit_message = some (get_or_insert s.module_limit_message message);
}

unfoldable pub limit_io_error : BudgetState → BudgetError
limit_io_error s = limit_error (get_or_insert s.module_limit_message resource_limit)

-- `record_limit`, and then the error.
unfoldable pub breach {ℓ} : {A : Type ℓ} → LimitMessage → Charge A
unfolding record_limit limit_io_error
breach message s = (refused (limit_io_error (record_limit message s)), record_limit message s)

available : Option LimitMessage → Bool → Charge (Unit {0})
unfolding limit_io_error
available (some _) expired s = (refused (limit_io_error s), s)
available none true s = (refused deadline_expired, record s { timed_out = true })
available none false s = (done tt, s)

unfoldable pub check_available : Bool → Charge (Unit {0})
unfolding available
check_available expired s = available s.module_limit_message expired s

-- What a build asks of the file system and of paths. `identity` is `identity_path_string`; a path's
-- parent comes with its file name.
pub record FileSystem : Type 0 where
  pub canonicalize : String → IoResult String
  pub metadata : String → IoResult Metadata
  pub read : String → IoResult (List ℕ)
  pub parent_and_name : String → Option (String × String)
  pub join : String → String → String
  pub identity : String → String
  pub content_hash : List ℕ → ℕ

abbrev pub observed : String → FileFingerprint → BudgetState → BudgetState
observed path fingerprint s = record s {
  read_paths = path ∷ s.read_paths;
  fingerprints = s.fingerprints ++ fingerprint ∷ [];
}

module _ (limits : AssetBudgetLimits) (fs : FileSystem) where
  in_canonical_parent : String → Option (String × String) → String
  in_canonical_parent path none = path
  in_canonical_parent path (some (parent, name)) = elim (fs.canonicalize parent) [
    | ok parent' ↦ fs.join parent' name
    | err _ ↦ path
  ]

  unfoldable pub canonical_path : String → String
  unfolding in_canonical_parent
  canonical_path path = elim (fs.canonicalize path) [
    | ok canonical ↦ canonical
    | err _ ↦ in_canonical_parent path (fs.parent_and_name path)
  ]

  unfoldable pub stat_fingerprint : String → Metadata → FileFingerprint
  stat_fingerprint path metadata = record {
    path = fs.identity path;
    len = metadata.len;
    modified_millis = modified_millis metadata;
    content_hash = none;
  }

  unfoldable pub charge_css_work : ℕ → String → Charge (Unit {0})
  unfolding breach
  charge_css_work bytes path s =
      let reads = saturating_add s.css_work_reads 1 in
      let next_css_work_bytes = saturating_add s.css_work_bytes bytes in
      if ltb limits.max_css_work_reads reads || ltb limits.max_css_work_bytes next_css_work_bytes
      then breach (css_work_loading path) s
      else (done tt, record s { css_work_reads = reads; css_work_bytes = next_css_work_bytes })

  unfoldable pub reserve_unique : String → ℕ → Charge (Unit {0})
  unfolding breach
  reserve_unique path bytes s =
      if ltb limits.max_file_bytes bytes
      then breach (file_bytes path) s
      else if contains_key path s.unique_files
      then (done tt, s)
      else if ltb limits.max_unique_files (saturating_add (length s.unique_files) 1)
      then breach (files_loading path) s
      else if ltb limits.max_input_bytes (saturating_add s.input_bytes bytes)
      then breach (source_loading path) s
      else (
        done tt,
        record s {
          unique_files = insert path bytes s.unique_files;
          input_bytes = saturating_add s.input_bytes bytes;
        },
      )

  unfoldable pub charge_css_snapshot : Bool → CollectedAsset → Charge (Unit {0})
  unfolding check_available charge_css_work
  charge_css_snapshot expired asset = do
    check_available expired
    modify (observed asset.path asset.fingerprint)
    charge_css_work (length asset.bytes) asset.path

  unfoldable pub begin_css_read : Bool → String → Metadata → Charge CssReadReservation
  unfolding check_available charge_css_work reserve_unique stat_fingerprint canonical_path
  begin_css_read expired requested metadata =
      let path = canonical_path requested in
      do
        check_available expired
        modify (observed path (stat_fingerprint path metadata))
        charge_css_work metadata.len path
        reserve_unique path metadata.len
        pure (record {
          path = path;
          metadata = metadata;
          css_work_reserved_bytes = some metadata.len;
        })

  unfoldable pub begin_resource_read : Bool → String → Metadata → Charge CssReadReservation
  unfolding check_available reserve_unique stat_fingerprint
  begin_resource_read expired path metadata = do
    check_available expired
    modify (observed path (stat_fingerprint path metadata))
    reserve_unique path metadata.len
    pure (record { path = path; metadata = metadata; css_work_reserved_bytes = none })
