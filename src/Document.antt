-- ===== src/Document.antt =====
-- daemon/src/document: what is read out of a document and of the files beside it.
pub mod Glob
pub mod Ignore
pub mod Positions
mod Samples
