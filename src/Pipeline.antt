-- ===== src/Pipeline.antt =====
-- daemon/src/pipeline: what one analysis goes through around the engine build.
pub mod AssetBudget
pub mod CssImportCycles
pub mod Stage
mod Samples
