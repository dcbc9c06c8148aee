-- ===== src/Pipeline/AssetBudget/Calls.antt =====
-- The ledger of daemon/src/pipeline/asset_budget.rs from its start, with the calls of any number of
-- threads in any order: each call is one hold of the mutex. The reads that have begun stand beside it.
use import_lens.Prelude.{
  ℕ, zero, suc, String, Bool, List, [], ◌∷◌, ◌++◌, map, Option, none, some, ltb, if◌then◌else◌,
  length, get_elem?, insert, contains_key, false,
}
use import_lens.Cache.Fingerprint.{Metadata, ErrorKind}
use import_lens.Pipeline.AssetBudget.{
  AssetKind, CollectedAsset, AssetBudgetLimits, files_at_start, source_at_start, Result, done,
  refused, panicked, BudgetState, CssReadReservation, FileSystem, record_limit, check_available,
  charge_css_snapshot, begin_css_read, begin_resource_read,
}
use import_lens.Pipeline.AssetBudget.Snapshot.{
  finish_read, record_failed_path, observe_metadata, alias,
}

-- `collect` into a map, with one value for every key.
unfoldable pub zero_each : List String → List (String × ℕ)
zero_each [] = []
zero_each (path ∷ paths) = insert path 0 (zero_each paths)

unfoldable pub snapshots_of : List CollectedAsset → List (String × CollectedAsset)
snapshots_of [] = []
snapshots_of (asset ∷ assets) = insert asset.path asset (snapshots_of assets)

unfoldable pub or_insert_lengths :
    List (String × CollectedAsset) → List (String × ℕ) → List (String × ℕ)
or_insert_lengths [] unique_files = unique_files
or_insert_lengths ((path, asset) ∷ snapshots) unique_files = or_insert_lengths snapshots (
    if contains_key path unique_files
    then unique_files
    else insert path (length asset.bytes) unique_files)

module _ (limits : AssetBudgetLimits) where
  unfoldable pub empty_ledger : ℕ → List String → List CollectedAsset → BudgetState
  unfolding zero_each snapshots_of or_insert_lengths
  empty_ledger graph_source_bytes graph_loaded_paths direct_assets =
      let graph_files : List String = graph_loaded_paths ++ map (λ a. a.path) direct_assets in
      record {
        unique_files = or_insert_lengths (snapshots_of direct_assets) (zero_each graph_files);
        graph_files = graph_files;
        aliases = map (λ a. (a.path, a.path)) direct_assets;
        input_bytes = graph_source_bytes;
        css_work_reads = 0;
        css_work_bytes = 0;
        snapshots = snapshots_of direct_assets;
        read_paths = [];
        fingerprints = map (λ a. a.fingerprint) direct_assets;
        module_limit_message = none;
        timed_out = false;
      }

  unfoldable pub check_files_at_start : BudgetState → BudgetState
  check_files_at_start s =
      if ltb limits.max_unique_files (length s.unique_files)
      then record s { module_limit_message = some files_at_start }
      else s

  unfoldable pub check_source_at_start : BudgetState → BudgetState
  unfolding record_limit
  check_source_at_start s =
      if ltb limits.max_input_bytes s.input_bytes then record_limit source_at_start s else s

  unfoldable pub new : ℕ → List String → List CollectedAsset → BudgetState
  unfolding empty_ledger check_files_at_start check_source_at_start
  new graph_source_bytes graph_loaded_paths direct_assets =
      check_source_at_start
        (check_files_at_start (empty_ledger graph_source_bytes graph_loaded_paths direct_assets))

pub record Ledger : Type 0 where
  pub state : BudgetState
  pub open_reads : List CssReadReservation

-- `finish` and `abandon` name the read by its place among the open ones.
pub data Call : Type 0 where
  check : (expired : Bool) → Call
  charge : (expired : Bool) → CollectedAsset → Call
  begin_css : (expired : Bool) → String → Metadata → Call
  begin_resource : (expired : Bool) → String → Metadata → Call
  finish : (expired : Bool) → ℕ → AssetKind → List ℕ → Call
  abandon : ℕ → Call
  observe : String → Call
  fail : String → ErrorKind → Call
  spell : String → String → Call

unfoldable pub remove_at {ℓ} : {A : Type ℓ} → ℕ → List A → List A
remove_at i [] = []
remove_at zero (x ∷ xs) = xs
remove_at (suc i) (x ∷ xs) = x ∷ remove_at i xs

abbrev pub began : List CssReadReservation → Result CssReadReservation × BudgetState → Ledger
began open_reads (done r, s) = record { state = s; open_reads = r ∷ open_reads }
began open_reads (refused e, s) = record { state = s; open_reads = open_reads }
began open_reads (panicked, s) = record { state = s; open_reads = open_reads }

module _ (limits : AssetBudgetLimits) (fs : FileSystem) where
  unfoldable pub finish_open :
      Bool → Option CssReadReservation → AssetKind → List ℕ → BudgetState → BudgetState
  unfolding finish_read
  finish_open expired none kind bytes s = s
  finish_open expired (some r) kind bytes s = (finish_read limits fs expired r kind bytes s).1

  unfoldable pub call : Call → Ledger → Ledger
  unfolding check_available charge_css_snapshot begin_css_read begin_resource_read finish_open
      observe_metadata record_failed_path remove_at
  call (check expired) l = record l { state = (check_available expired l.state).1 }
  call (charge expired asset) l = record l {
    state = (charge_css_snapshot limits fs expired asset l.state).1;
  }
  call (begin_css expired path metadata) l =
      began l.open_reads (begin_css_read limits fs expired path metadata l.state)
  call (begin_resource expired path metadata) l =
      began l.open_reads (begin_resource_read limits fs expired path metadata l.state)
  call (finish expired i kind bytes) l = record {
    state = finish_open expired (get_elem? l.open_reads i) kind bytes l.state;
    open_reads = remove_at i l.open_reads;
  }
  call (abandon i) l = record l { open_reads = remove_at i l.open_reads }
  call (observe path) l = record l { state = (observe_metadata limits fs path l.state).1 }
  call (fail path kind) l = record l { state = (record_failed_path limits fs path kind l.state).1 }
  call (spell requested path) l = record l { state = alias requested path l.state }

  unfoldable pub calls : List Call → Ledger → Ledger
  unfolding call
  calls [] l = l
  calls (c ∷ cs) l = calls cs (call c l)

abbrev pub started : BudgetState → Ledger
started s = record { state = s; open_reads = [] }
