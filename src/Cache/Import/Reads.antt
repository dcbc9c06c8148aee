-- ===== src/Cache/Import/Reads.antt =====
-- daemon/src/cache/memory.rs: the reads of the `ImportCache`, all of them by `lookup`.
use import_lens.Prelude.{ℕ, String, Bool, true, false, Option, none, some, if◌then◌else◌, get}
use import_lens.Cache.Fingerprint.{Freshness, fresh, stale}
use import_lens.Cache.Memory.{stamp, ResultFreshness, stale as stale_result, record_unknown}
use import_lens.Cache.Import.{
  ImportResult, CachedImport, ImportCache, StalePolicy, evict, serve, World, result_fresh, hit,
  forget_unknown, promote_in, lookup_memory,
}
use import_lens.Cache.Import.OnDisk.{get_entry}
use import_lens.Cache.Import.Writes.{insert_into_memory_guarded, enforce_memory_cap}

module _ (w : World) where
  abbrev pub stamped : CachedImport → CachedImport
  stamped cached = record cached { verification = stamp w.since_epoch w.generation }

  -- The clear generation is the one before the probe of the disk.
  unfoldable pub hydrate :
      String
      → Bool
      → ℕ
      → CachedImport
      → Freshness
      → ImportCache
      → Option (ImportResult × Freshness) × ImportCache
  unfolding insert_into_memory_guarded enforce_memory_cap
  hydrate key promote generation found freshness c =
      let (cached, c') = promote_in w promote found c in
      (
        some (hit cached, freshness),
        enforce_memory_cap w (insert_into_memory_guarded w key cached generation c'),
      )

  -- `Stale` and `Gone` do not come from the disk.
  unfoldable pub serve_hydrated :
      String
      → Bool
      → Bool
      → ℕ
      → CachedImport
      → Freshness
      → ImportCache
      → Option (ImportResult × Freshness) × ImportCache
  unfolding hydrate forget_unknown
  serve_hydrated key promote require_fresh generation cached fresh c =
      hydrate key promote generation (stamped cached) fresh (forget_unknown key c)
  serve_hydrated key promote true generation cached freshness c = (none, c)
  serve_hydrated key promote false generation cached freshness c =
      hydrate key promote generation cached freshness c

  unfoldable pub lookup_disk :
      String → Bool → Bool → ImportCache → Option (ImportResult × Freshness) × ImportCache
  unfolding get_entry serve_hydrated
  lookup_disk key promote require_fresh c = elim (get_entry w key c).0 [
    | none ↦ (none, (get_entry w key c).1)
    | some (cached, freshness) ↦
        serve_hydrated key promote require_fresh c.disk.clear_generation cached freshness
          (get_entry w key c).1
  ]

  unfoldable pub lookup :
      String
      → Bool
      → Bool
      → StalePolicy
      → ImportCache
      → Option (ImportResult × Freshness) × ImportCache
  unfolding lookup_memory lookup_disk
  lookup key promote require_fresh policy c = elim (get key c.memory) [
    | none ↦ lookup_disk key promote require_fresh c
    | some found ↦ lookup_memory w key promote require_fresh policy found c
  ]

  abbrev pub accept : Bool → Option (ImportResult × Freshness) → Option ImportResult
  accept require_fresh none = none
  accept require_fresh (some (result, fresh)) = some result
  accept require_fresh (some (result, _)) = if require_fresh then none else some result

  unfoldable pub read : String → Bool → Bool → ImportCache → Option ImportResult × ImportCache
  unfolding lookup
  read key promote require_fresh c =
      let (found, c') = lookup key promote require_fresh evict c in (accept require_fresh found, c')

  unfoldable pub get_for_prewarm : String → ImportCache → Option ImportResult × ImportCache
  unfolding read
  get_for_prewarm key c = read key false false c

  unfoldable pub get_if_fresh : String → ImportCache → Option ImportResult × ImportCache
  unfolding read
  get_if_fresh key c = read key false true c

  unfoldable pub get_if_fresh_and_promote : String → ImportCache → Option ImportResult × ImportCache
  unfolding read
  get_if_fresh_and_promote key c = read key true true c

  abbrev pub served : ResultFreshness → ImportResult → ImportResult × ResultFreshness
  served freshness result = (record result { freshness = freshness }, freshness)

  unfoldable pub report :
      String
      → Option (ImportResult × Freshness)
      → ImportCache
      → Option (ImportResult × ResultFreshness) × ImportCache
  unfolding record_unknown
  report key none c = (none, c)
  report key (some (result, fresh)) c = (some (served result_fresh result), c)
  report key (some (result, stale)) c = (some (served (stale_result true) result), c)
  report key (some (result, _)) c =
      let (freshness, retries) = record_unknown w.since_epoch key c.unknown_retry in
      (some (served freshness result), record c { unknown_retry = retries })

  unfoldable pub get_with_result_freshness :
      String → ImportCache → Option (ImportResult × ResultFreshness) × ImportCache
  unfolding lookup report
  get_with_result_freshness key c =
      let (found, c') = lookup key true false serve c in report key found c'
