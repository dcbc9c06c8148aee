-- ===== src/Lib.antt =====
-- import-lens: a model of the daemon that measures what the imports of a document cost, and theorems
-- about it. Paths are from the repository's root.
--
-- The daemon reads a document, drops the imports that an `.importlensignore` file rules out, builds each
-- of the others with a bundler, and keeps the sizes in a cache of shards, one per project; it asks the
-- npm registry for hints on the packages. The model takes the parts of it that decide something:
--
-- * Cache.Fingerprint (daemon/src/cache/key.rs): `check_fingerprint` and `check_fingerprints_strict`, by
--   which a kept result is found fresh, stale, gone or unknown, and the search for conflicting
--   snapshots. The disk is two functions, what `fs::metadata` and `fs::read` answer. Cache.Hex is the
--   hexadecimal codec of the cache keys.
-- * Cache.Identity (daemon/src/cache/key.rs): the key of an entry and what is decided from it, with the
--   serializer and the file system as parameters.
-- * Cache.Memory (daemon/src/cache/memory.rs): how long a verification counts, how one that fails is
--   reported, and which keys a shard offers to the evictor.
-- * Cache.Disk (daemon/src/cache/disk.rs): the tables of a shard, which a transaction changes row by row
--   with their summary and index, and Cache.Disk.Queue the queue of inserts before them, each with the
--   clear generation of its writer.
-- * Cache.Import (daemon/src/cache/memory.rs): the `ImportCache`, entries in memory before a disk cache: its
--   reads (Cache.Import.Reads, with what they get from the disk in Cache.Import.OnDisk), its writes and the
--   cap on the memory (Cache.Import.Writes), what goes over all keys (Cache.Import.Sweeps), and, as steps of
--   threads that interleave, the guarded insert against a clear (Cache.Import.Mirror). Cache.Import.Evicted
--   (daemon/src/cache/project.rs) is the `ShardTarget`, by which Cache.Budget evicts from such caches.
-- * Cache.Recency (daemon/src/cache/recency.rs): the counter that orders the accesses.
-- * Cache.Budget (daemon/src/cache/budget.rs): `BudgetCoordinator::evict` over shards of any kind that
--   offer the operations of the trait `EvictableShard`, as a record (Cache.Budget.Shard).
-- * Document.Glob and Document.Ignore (daemon/src/document/ignore.rs): the matcher with its memo, the
--   parser of rules and `should_ignore_import`. Document.Positions (daemon/src/document/positions.rs): the
--   `LineIndex`, from byte offsets to the positions of an editor.
-- * Pipeline.CssImportCycles (daemon/src/pipeline/css_import_cycles.rs): the walk that finds the
--   `@import` edges to cut. Pipeline.Stage (daemon/src/pipeline/stage.rs and the vocabularies of
--   daemon/src/engine/mod.rs): which outcomes may be kept, and which failure is reported.
--   Pipeline.AssetBudget (daemon/src/pipeline/asset_budget.rs): the ledger of the files that a build's
--   stylesheets reach, which admits and charges each read.
-- * Registry.RateLimiter, Registry.Lookup, Registry.Fetch and Registry.Hints
--   (daemon/src/registry/service.rs), and Registry.Store and Registry.Compact
--   (daemon/src/registry/cache.rs): when the network is asked, how often, what is kept of the answer,
--   the file that several daemons share, and its maintenance. A fetch takes slots of the limiter,
--   writes its entry into the store, and a lookup reads it there. Another daemon may replace the file
--   between the reading of it and the renaming of a new one into place, so that an operation is given
--   the file that it read and the one that it replaces.
-- * Threads.Lanes (daemon/src/lanes.rs): the queue of jobs and its runners, as steps that follow each
--   other in any order.
--   Threads.Flight (daemon/src/analysis_flight.rs): `run_or_join`, by which threads that want the same
--   result share one computation, as steps of each thread. Threads.Drain
--   (daemon/src/engine/scheduling.rs): the workers that drain a list of builds.
--
-- State goes in and out of a function as a record with the source's fields; a call under a mutex is one
-- step. A map keyed by text is an association list and a set the list of what was inserted. Text is a
-- string where it is only compared, and its bytes where the source looks into it. A `u64` is a natural
-- number; the source's saturating sums say so in their definitions. What panics in the source is a
-- result of its own where it is modelled: `none` for a slice of text off the boundaries of its chars.
--
-- Fuel: `evict_while` counts rounds, and Cache.Budget.Outcome has the number that is always enough;
-- `visit` counts its depth, which the number of sheets bounds (Pipeline.CssImportCycles.Acyclic). The
-- other loops are structural. `run_attempts` has the three attempts of `MAX_ATTEMPTS`.
--
-- Not modelled: the bundler, the parser, the database, the HTTP client, serialization, the operating
-- system and the editor's side; they are parameters where a modelled part calls them. Poisoned locks
-- are not modelled either, nor is a table of the database that alone fails to open in a clear.
pub mod Prelude
pub mod Cache
pub mod Document
pub mod Pipeline
pub mod Registry
pub mod Threads
