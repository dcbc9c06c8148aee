-- ===== src/Pipeline/AssetBudget/Samples.antt =====
-- Runs of the ledger of daemon/src/pipeline/asset_budget.rs, and inputs where its theorems apply.
use import_lens.Prelude.{
  ◌≡◌, refl, false, List, [], ◌∷◌, none, some, arith, length, insert, remove, contains_key,
  text_dec,
}
use import_lens.Cache.Fingerprint.{Metadata, ok, not_found}
use import_lens.Pipeline.AssetBudget.{
  production_limits, css, panicked, CssReadReservation, FileSystem, canonical_path,
}
use import_lens.Pipeline.AssetBudget.Snapshot.{finish_read}
use import_lens.Pipeline.AssetBudget.Calls.{Call, begin_css, fail, calls, started, new, Ledger}
use import_lens.Pipeline.AssetBudget.Bounds.{AreFinite, Sound}
use import_lens.Pipeline.AssetBudget.Ledger.{calls-Sound, finish_read-ne-panicked}

abbrev disk : FileSystem
disk = record {
  canonicalize = λ path. ok path;
  metadata = λ path. ok (record { len = 3; modified = some 7 });
  read = λ path. ok (1 ∷ 2 ∷ 3 ∷ []);
  parent_and_name = λ path. none;
  join = λ parent name. name;
  identity = λ path. path;
  content_hash = λ bytes. length bytes;
}

finite : AreFinite production_limits
finite = record {
  files = omega arith;
  input = omega arith;
  reads = omega arith;
  work = omega arith;
}

abbrev sheet : Metadata
sheet = record { len = 3; modified = some 7 }

abbrev one_read : List Call
one_read =
    begin_css false "a.css" sheet ∷ fail "b.woff2" not_found ∷ begin_css false "c.css" sheet ∷ []

abbrev two_open : Ledger
two_open =
    calls production_limits disk one_read (started (new production_limits 100 ("index.js" ∷ []) []))

-- Two sheets of three bytes each are charged and reserved.
two_sheets_are_charged : (two_open.state.input_bytes ≡ 106) × (two_open.state.css_work_bytes ≡ 6)
unfolding calls new canonical_path insert remove contains_key text_dec
two_sheets_are_charged = (refl, refl)

calls-Sound_example : Sound production_limits 100 two_open.open_reads two_open.state
calls-Sound_example = calls-Sound production_limits 100 finite disk ("index.js" ∷ []) [] one_read

abbrev open_sheet : CssReadReservation
open_sheet = record { path = "a.css"; metadata = sheet; css_work_reserved_bytes = some 3 }

finish_read-ne-panicked_example : ¬ (
    (finish_read production_limits disk false open_sheet css (1 ∷ 2 ∷ 3 ∷ 4 ∷ []) two_open.state).0
    ≡ panicked)
unfolding calls new canonical_path insert remove contains_key text_dec
finish_read-ne-panicked_example =
    finish_read-ne-panicked production_limits 100 finite disk ("index.js" ∷ []) [] one_read 1
      open_sheet false css (1 ∷ 2 ∷ 3 ∷ 4 ∷ []) refl
