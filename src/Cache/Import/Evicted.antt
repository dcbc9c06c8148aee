-- ===== src/Cache/Import/Evicted.antt =====
-- daemon/src/cache/project.rs: the `ShardTarget`, by which the byte-budget evictor uses an `ImportCache`
-- (daemon/src/cache/memory.rs over daemon/src/cache/disk.rs). `iterate` is the order in which the database
-- lists a table.
pub mod Laws
mod Samples
use import_lens.Prelude.{
  ℕ, ◌≤◌, ◌≡◌, String, Bool, true, false, ◌||◌, List, [], ◌∷◌, map, Option, none, some, ltb, ◌==◌,
  if◌then◌else◌, length, u64_max,
}
use import_lens.Cache.Budget.Shard.{ShardRollup}
use import_lens.Cache.Memory.{filter_evictable, max_eviction_scan}
use import_lens.Cache.Recency.{observe}
use import_lens.Cache.Disk as Disk
use import_lens.Cache.Disk.{SeqIndex, Tables, empty_rollup}
use import_lens.Cache.Disk.Recount.{byte_total, IsAccurate}
use import_lens.Cache.Disk.Queue.{flush_pending_inserts}
use import_lens.Cache.Import.{CachedImport, ImportCache, World}
use import_lens.Cache.Import.Writes.{Memory}

-- The recency that the filter of the hot keys reads.
unfoldable pub last_seqs : Memory → List (String × ℕ)
last_seqs [] = []
last_seqs ((key, cached) ∷ memory) = (key, cached.last_seq) ∷ last_seqs memory

module _ (w : World) (iterate : SeqIndex → SeqIndex) where
  unfoldable pub flushed : ImportCache → ImportCache
  unfolding flush_pending_inserts
  flushed c = record c { disk = flush_pending_inserts w.committed w.now c.disk }

  abbrev pub rollup_of : Option Tables → ShardRollup
  rollup_of none = empty_rollup iterate
  rollup_of (some t) = Disk.shard_rollup iterate t

  abbrev pub clock_past : Option Tables → ℕ → ℕ
  clock_past none clock = clock
  clock_past (some t) clock = observe t.summary.max_seq clock

  unfoldable pub shard_rollup : ImportCache → ShardRollup × ImportCache
  unfolding flushed Disk.shard_rollup observe
  shard_rollup c =
      let c' = flushed c in
      (rollup_of c'.disk.db, record c' { clock = clock_past c'.disk.db c'.clock })

  abbrev pub lowest_of : Option Tables → ℕ → ℕ → List (String × ℕ)
  lowest_of none n floor = []
  lowest_of (some t) n floor = Disk.lowest_seq_keys iterate n floor t

  unfoldable pub lowest_seq_disk_keys : ℕ → ℕ → ImportCache → List String × ImportCache
  unfolding flushed Disk.lowest_seq_keys last_seqs filter_evictable
  lowest_seq_disk_keys n floor c =
      if n == 0
      then ([], c)
      else let c' = flushed c in
        let first = lowest_of c'.disk.db n floor in
        let cold = filter_evictable (last_seqs c'.memory) first n in
        if length cold == n || ltb (length first) n
        then (cold, c')
        else let c'' = flushed c' in
          (
            filter_evictable (last_seqs c''.memory) (lowest_of c''.disk.db max_eviction_scan floor)
                n,
            c'',
          )

-- Tables that are accurate and fit 64 bits.
abbrev pub SoundTables : Option Tables → Type 0
SoundTables none = Unit
SoundTables (some t) = IsAccurate t × (byte_total t.cache ≤ u64_max) × (length t.cache ≤ u64_max)

-- A shard between the calls of a pass: a flush left no queue, which the first rollup of a pass does.
pub record ShardTarget : Type 0 where
  pub shard_id : String
  pub cache : ImportCache
  pub quiet : cache.disk.pending_inserts ≡ []
  pub sound : SoundTables cache.disk.db
