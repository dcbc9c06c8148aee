-- ===== src/Pipeline/Stage.antt =====
-- daemon/src/pipeline/stage.rs and the vocabularies of daemon/src/engine/mod.rs: which stage of an
-- outcome may be kept, and which build failure is the one that is reported.
pub mod Classes
use import_lens.Prelude.{
  ℕ, zero, suc, String, Bool, List, [], ◌∷◌, ◌++◌, Option, none, some, ite, text_dec, contains,
  length,
}

-- `engine::stage::ALL`, in rank order.
abbrev pub engine_stages : List String
engine_stages =
    "panic" ∷ "timeout" ∷ "engine_gone" ∷ "asset_io" ∷ "module_graph_limit" ∷ "resolve" ∷ "parse"
    ∷ "missing_export" ∷ "ambiguous_export" ∷ "link" ∷ "generate" ∷ "output_shape" ∷ []

-- `engine::diagnostic_stage::ALL`.
abbrev pub diagnostic_stages : List String
diagnostic_stages = "external" ∷ "uncounted_assets" ∷ "imprecise_assets" ∷ []

-- `pipeline::stage::ALL`.
abbrev pub pipeline_stages : List String
pipeline_stages =
    "package_validation" ∷ "package_resolution" ∷ "path_alias" ∷ "package_manifest"
    ∷ "entry_resolution" ∷ "no_root_entry" ∷ "entry_metadata" ∷ "oversized_entry" ∷ "minify"
    ∷ "compression" ∷ "protocol" ∷ "file_size_fallback" ∷ "types_only" ∷ "native_binary_only"
    ∷ "native_binary" ∷ []

abbrev pub transient_analysis_stages : List String
transient_analysis_stages =
    "panic" ∷ "timeout" ∷ "engine_gone" ∷ "asset_io" ∷ "entry_metadata" ∷ "compression" ∷ []

abbrev pub durable_result_stages : List String
durable_result_stages =
    "resolve" ∷ "parse" ∷ "link" ∷ "generate" ∷ "output_shape" ∷ "module_graph_limit"
    ∷ "missing_export" ∷ "ambiguous_export" ∷ "external" ∷ "uncounted_assets" ∷ "imprecise_assets"
    ∷ "package_validation" ∷ "package_resolution" ∷ "package_manifest" ∷ "entry_resolution"
    ∷ "no_root_entry" ∷ "oversized_entry" ∷ "minify" ∷ "types_only" ∷ "native_binary_only"
    ∷ "native_binary" ∷ []

abbrev pub non_budgetable_result_stages : List String
non_budgetable_result_stages = "imprecise_assets" ∷ []

-- The list within `marks_a_floor`.
abbrev pub floor_stages : List String
floor_stages = "uncounted_assets" ∷ "resolve" ∷ "missing_export" ∷ []

unfoldable pub is_transient : String → Bool
unfolding contains
is_transient stage = contains stage transient_analysis_stages

unfoldable pub may_enter_a_durable_store : String → Bool
unfolding contains
may_enter_a_durable_store stage = contains stage durable_result_stages

unfoldable pub prevents_budget_verdict : String → Bool
unfolding contains
prevents_budget_verdict stage = contains stage non_budgetable_result_stages

unfoldable pub marks_a_floor : String → Bool
unfolding contains
marks_a_floor stage = contains stage floor_stages

-- `iter().position`, or the length of the list.
unfoldable pub position_or_length : String → List String → ℕ
position_or_length k [] = 0
position_or_length k (j ∷ s) = let rest = position_or_length k s in ite (text_dec j k) 0 (suc rest)

-- `engine::stage::rank`.
unfoldable pub rank : String → ℕ
unfolding position_or_length
rank stage = position_or_length stage engine_stages
