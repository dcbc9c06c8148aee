-- ===== src/Registry.antt =====
-- daemon/src/registry: hints from the npm registry, how often it is asked, and the shared store.
pub mod RateLimiter
pub mod Entry
pub mod Store
pub mod Compact
pub mod Lookup
pub mod Fetch
pub mod Hints
mod Samples
