-- ===== src/Cache/Import.antt =====
-- daemon/src/cache/memory.rs: the `ImportCache`, a memory of entries before a disk cache, as one thread
-- at a time sees it (Cache.Import.Mirror has the interleavings of an insert and a clear). What the
-- serializer and the file system answer are parameters (`World`). An `Arc` of a `last_seq` is the number
-- it was made under, `identity`.
pub mod OnDisk
pub mod Writes
pub mod Reads
pub mod Served
pub mod Verdicts
pub mod Candidates
pub mod Capped
pub mod Mirror
pub mod Sweeps
pub mod Invalidated
pub mod Flushed
pub mod Evicted
mod Samples
use Prim.Native.String.{compare as compare_text}
use Prim.Native.Nat.{lt, eq, gt}
use import_lens.Prelude.{
  ℕ, suc, ◌+◌, ◌-◌, ◌*◌, ◌/◌, String, Bool, true, false, not, ◌&&◌, ◌||◌, List, [], ◌∷◌, map,
  Option, none, some, ltb, leb, ◌==◌, if◌then◌else◌, length, get, insert, remove, retain, contains,
  contains_key, saturating_add, min, u64_max, any, codes,
}
use import_lens.Cache.Fingerprint.{
  Metadata, check_fingerprints_strict, IoResult, FileFingerprint, Freshness, fresh, gone, stale,
  unknown, fingerprints_are_reusable,
}
use import_lens.Cache.Identity.{CacheIdentity, cache_key_is_first_party}
use import_lens.Cache.Recency.{next_seq, observe}
use import_lens.Cache.Memory.{
  Verification, never, stamp, is_current, UnknownRetry, ResultFreshness, kind_fresh,
  stale as stale_result, record_unknown, clear_unknown,
}
use import_lens.Cache.Disk.Queue.{DiskCache, pending_insert, remove_keys, insert_at_generation}

abbrev pub max_memory_entries : ℕ
max_memory_entries = 4096

abbrev pub max_memory_weight_bytes : ℕ
max_memory_weight_bytes = 128 * 1024 * 1024

abbrev pub graph_row_weight_bytes : ℕ
graph_row_weight_bytes = 256

-- Of an `ImportResult`, what the cache reads or writes; `internal_contributions` is their number.
pub record ImportResult : Type 0 where
  pub body : String
  pub is_durable : Bool
  pub internal_contributions : ℕ
  pub cache_hit : Bool
  pub freshness : ResultFreshness

pub record CachedImport : Type 0 where
  pub result : ImportResult
  pub dependency_fingerprints : List FileFingerprint
  pub verification : Verification
  pub last_seq : ℕ
  pub persisted_seq : ℕ
  pub first_party : Bool
  pub identity : ℕ

-- The cache, with the process-wide recency clock and the number of the next `Arc`; the claims on a
-- revalidation are apart, in Cache.Import.Sweeps.
pub record ImportCache : Type 0 where
  pub memory : List (String × CachedImport)
  pub disk : DiskCache
  pub dirty : List String
  pub unknown_retry : List (String × UnknownRetry)
  pub clock : ℕ
  pub next_identity : ℕ

pub data StalePolicy : Type 0 where
  evict serve : StalePolicy

-- What is serialized behind the sequence of a row; of the contributions, their number.
pub record CacheEnvelope : Type 0 where
  pub analyzer_version : String
  pub result : ImportResult
  pub dependency_fingerprints : List FileFingerprint
  pub full_contributions : ℕ

-- What the cache asks at the time of a call: the generation of the caches, the milliseconds of the monotonic
-- clock and of the system clock, whether the database commits, what `fs::metadata` and `fs::read` answer, how bytes are hashed, the
-- version of the analyzer, what the codec makes of the bytes behind a row's sequence, and what Cache.Identity takes of the serializer and
-- the file system.
pub record World : Type 0 where
  pub generation : ℕ
  pub since_epoch : ℕ
  pub now : ℕ
  pub committed : Bool
  pub metadata : String → IoResult Metadata
  pub read_file : String → IoResult (List ℕ)
  pub hash : List ℕ → ℕ
  pub analyzer_version : String
  pub decode : List ℕ → Option CacheEnvelope
  pub encode : CachedImport → Option (List ℕ)
  pub to_vec : CacheIdentity → List ℕ
  pub from_slice : List ℕ → Option CacheIdentity
  pub symlink_metadata : String → IoResult (Unit {0})

abbrev pub result_fresh : ResultFreshness
result_fresh = record { kind = kind_fresh; revalidating = false; reason = none }

unfoldable pub memory_weight : CachedImport → ℕ
memory_weight c =
    min
      (saturating_add (length c.dependency_fingerprints + c.result.internal_contributions) 1
        * graph_row_weight_bytes)
      u64_max

abbrev pub hit : CachedImport → ImportResult
hit c = record c.result { cache_hit = true }

unfoldable pub forget_unknown : String → ImportCache → ImportCache
unfolding clear_unknown
forget_unknown key c = record c { unknown_retry = clear_unknown key c.unknown_retry }

abbrev pub is_identity : ℕ → Option CachedImport → Bool
is_identity identity none = false
is_identity identity (some current) = current.identity == identity

module _ (w : World) where
  unfoldable pub check_now : List FileFingerprint → Freshness
  unfolding check_fingerprints_strict
  check_now = check_fingerprints_strict w.metadata w.read_file w.hash

  unfoldable pub key_is_first_party : String → Bool
  unfolding cache_key_is_first_party
  key_is_first_party key = cache_key_is_first_party w.to_vec w.from_slice (codes key)

  unfoldable pub remove_from_disk : String → ImportCache → ImportCache
  remove_from_disk key c = record c { disk = (remove_keys w.committed (key ∷ []) c.disk).1 }

  unfoldable pub remove_from_memory_if_current : String → ℕ → ImportCache → Bool × ImportCache
  remove_from_memory_if_current key identity c =
      if is_identity identity (get key c.memory)
      then (true, record c { memory = remove key c.memory })
      else (false, c)

  unfoldable pub evict_if_current : String → ℕ → ImportCache → ImportCache
  unfolding remove_from_disk remove_from_memory_if_current
  evict_if_current key identity c =
      let (removed, c') = remove_from_memory_if_current key identity c in
      if removed then remove_from_disk key c' else c'

  abbrev pub promote_in : Bool → CachedImport → ImportCache → CachedImport × ImportCache
  promote_in false cached c = (cached, c)
  promote_in true cached c =
      (record cached { last_seq = (next_seq c.clock).0 }, record c { clock = (next_seq c.clock).1 })

  -- What a read makes of an entry in memory, once it is classified.
  unfoldable pub serve_classified :
      String
      → StalePolicy
      → Bool
      → Freshness
      → CachedImport
      → ImportCache
      → Option (ImportResult × Freshness) × ImportCache
  unfolding forget_unknown evict_if_current
  serve_classified key policy fast unknown cached c = (some (hit cached, unknown), c)
  serve_classified key serve fast stale cached c = (some (hit cached, stale), forget_unknown key c)
  serve_classified key evict fast stale cached c =
      (none, evict_if_current key cached.identity (forget_unknown key c))
  serve_classified key policy fast gone cached c =
      (none, evict_if_current key cached.identity (forget_unknown key c))
  serve_classified key policy true fresh cached c = (some (hit cached, fresh), c)
  serve_classified key policy false fresh cached c = (
    some (hit cached, fresh),
    (let c' = forget_unknown key c in
        if cached.first_party then c' else record c' {
          memory =
              insert key (record cached { verification = stamp w.since_epoch w.generation })
                c.memory;
        }),
  )

  unfoldable pub fast_path : Bool → CachedImport → Bool
  fast_path require_fresh cached =
      not require_fresh
      && not cached.first_party
      && is_current w.since_epoch w.generation cached.verification

  unfoldable pub lookup_memory :
      String
      → Bool
      → Bool
      → StalePolicy
      → CachedImport
      → ImportCache
      → Option (ImportResult × Freshness) × ImportCache
  unfolding serve_classified fast_path check_now
  lookup_memory key promote require_fresh policy found c =
      let (cached, c') = promote_in promote found c in
      let c'' : ImportCache = record c' { memory = insert key cached c'.memory } in
      let fast = fast_path require_fresh cached in
      serve_classified key policy fast
        (if fast then fresh else check_now cached.dependency_fingerprints) cached c''
