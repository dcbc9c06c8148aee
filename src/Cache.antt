-- ===== src/Cache.antt =====
-- daemon/src/cache: what is kept, how it is verified and what is evicted.
pub mod Budget
pub mod Fingerprint
pub mod Hex
pub mod Identity
pub mod Memory
pub mod Disk
pub mod Import
pub mod Recency
mod Samples
