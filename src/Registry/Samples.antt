-- ===== src/Registry/Samples.antt =====
-- Runs of the modules on daemon/src/registry, and an input where each of their theorems applies.
use import_lens.Prelude.{
  ℕ, map, ◌+◌, ◌*◌, ◌≤◌, remove, ◌≡◌, ◌⊎◌, refl, String, true, false, List, [], ◌∷◌, ◌*◌, ◌++◌,
  codes, insert, inl, true, false, ap, Option, none, some, get, text_dec, max, min, All, arith,
  contains_key, ite, ℕ_discrete,
}
use import_lens.Registry.Entry.{RegistryPackageMetadataEntry, Entries}
use import_lens.Registry.RateLimiter.{
  new, apply_retry_after, Call, reserve, retry_after, requests, registry_rate_limit_requests,
  registry_max_backoff_ms,
}
use import_lens.Registry.RateLimiter.Windows.{in_second, starting, Timed, starting-requests}
use import_lens.Registry.RateLimiter.Backoff.{requests-after-apply_retry_after}
use import_lens.Registry.Store.{
  RegistrySnapshot, RegistryMetadataCache, load_snapshot, adopt_clear, persist_snapshot, clear,
}
use import_lens.Registry.Store.Merge.{DistinctKeys, entries_of, newest, persist_snapshot-newest}
use import_lens.Registry.Store.Clear.{
  Swept, SiblingWrite, merges, compacts, sibling_writes, clear-sticks,
}
use import_lens.Registry.Store.Written.{KeptOrCleared}
use import_lens.Registry.Lookup.{cached_lookup_from_entry, refresh_stale, force_refresh, from_cache}
use import_lens.Registry.Compact.{run_maintenance, evict_oldest_over_budget, comes_first}
use import_lens.Registry.Compact.Fits.{Fits}
use import_lens.Registry.Compact.Maintenance.{run_maintenance-Fits}
use import_lens.Registry.Hints.{
  RegistryHintService, cached_lookups_for_mode, cached_lookup_for_mode, hint_for, Hinted,
}
use import_lens.Registry.Hints.Batch.{cached_lookups_for_mode-map}
use import_lens.Registry.Hints.Cooldown.{hint_for-coalesces}
use import_lens.Registry.Fetch.{
  Fetched, Parsed, response, parsed, run_attempts, attempt_once, retries,
  fetch_package_with_retries, FetchResult,
}
use import_lens.Registry.Fetch.Outcome.{Answered, KeepsKnown, fetch-outcome, fetch-then-lookup}

abbrev calls : List Call
calls = reserve 0 true ∷ reserve 0 true ∷ retry_after 10 400 ∷ reserve 20 false ∷ []

starts_are_spaced :
    requests calls (new 0)
    ≡ record { window = 0; starts = 0 }
      ∷ record { window = 0; starts = 0 }
      ∷ record { window = 0; starts = 410 }
      ∷ []
unfolding requests new
starts_are_spaced = refl

starting-requests_example :
    (in_second 0 (requests calls (new 0)) ≤ registry_rate_limit_requests)
    × All (Timed 410) (requests calls (new 0))
    × (starting 411 (requests calls (new 0)) ≤ 2 * registry_rate_limit_requests)
starting-requests_example =
    starting-requests 0 calls 410 411 0 (omega arith) (tt, (tt, (omega arith, (tt, tt))))
      (omega arith)

requests-after-apply_retry_after_example :
    All
      (λ r. 10 + min 400 registry_max_backoff_ms ≤ r.starts)
      (requests calls (apply_retry_after 10 400 (new 0)))
requests-after-apply_retry_after_example = requests-after-apply_retry_after calls (new 0) 10 400

abbrev entry : ℕ → RegistryPackageMetadataEntry
entry at = record {
  metadata = none;
  updated_at = at;
  retry_after = none;
  error = none;
  not_found = true;
}

abbrev ours : RegistryMetadataCache
ours = record { entries = ("react", entry 50) ∷ []; cleared_at = 0; unpersisted_writes = 1 }

abbrev file : Option RegistrySnapshot
file = some (record {
  schema_version = 1;
  entries = ("react", entry 40) ∷ ("lodash", entry 60) ∷ [];
  cleared_at = 0;
})

persist_snapshot-newest_example :
    (get "react" (entries_of (persist_snapshot true ours file file).1.1)
      ≡ newest
          (get "react" (adopt_clear ((load_snapshot file).cleared_at) ours).entries)
          (get "react" (entries_of file)))
    × ((load_snapshot (persist_snapshot true ours file file).1.1).cleared_at
        ≡ max ours.cleared_at (load_snapshot file).cleared_at)
unfolding load_snapshot contains_key text_dec
persist_snapshot-newest_example = persist_snapshot-newest "react" ours file file distinct
  where
    distinct : DistinctKeys (entries_of file)
    distinct = (refl, (refl, tt))

-- A serializer that writes each key, and twelve bytes for each entry.
abbrev entries_to_vec : Entries → List ℕ
entries_to_vec [] = []
entries_to_vec ((key, e) ∷ m) = 1 ∷ 2 ∷ 3 ∷ 4 ∷ codes key ++ entries_to_vec m

abbrev to_vec : RegistrySnapshot → Option (List ℕ)
to_vec snapshot = some (entries_to_vec snapshot.entries)

abbrev entry_to_vec : RegistryPackageMetadataEntry → Option (List ℕ)
entry_to_vec e = some []

-- A merge that has read the file as the clear left it, and a maintenance that has read the same version.
abbrev siblings : List SiblingWrite
siblings = merges true 0 ours ∷ compacts true 1 100 5000 none ours ∷ []

clear-sticks_example :
    ((clear true 70 ours file).1.0.entries ≡ [])
    × Swept
        (max ours.cleared_at 70)
        (sibling_writes to_vec entry_to_vec siblings (clear true 70 ours file).1.1 [])
clear-sticks_example =
    clear-sticks to_vec entry_to_vec 70 ours file siblings
      (inl (omega arith), (inl (omega arith), tt))

-- The first attempt fails with a 503, and the second one is answered.
abbrev client : ℕ → Fetched
client n = ite (ℕ_discrete n 1) (response 503 none "") (response 200 none "{}")

abbrev parse : String → Parsed
parse body =
    parsed (record {
      latest_version = some "1.0.0";
      latest_published_at = none;
      deprecated_versions = [];
    })

abbrev clock : ℕ → ℕ × ℕ
clock n = (n, n)

-- The write is the sixteenth one, and its flush reads a file that records a clear.
abbrev full_batch : RegistryMetadataCache
full_batch = record { entries = ("lodash", entry 50) ∷ []; cleared_at = 0; unpersisted_writes = 15 }

abbrev cleared_file : ℕ → Option RegistrySnapshot
cleared_file at = some (record { schema_version = 1; entries = []; cleared_at = at })

abbrev fetched_react : FetchResult
fetched_react =
    fetch_package_with_retries client parse true false clock "react" 100 full_batch
      (cleared_file 60) (cleared_file 60)

react_is_not_lodash : ¬ (◌≡◌ {A = String} "react" "lodash")
unfolding text_dec
react_is_not_lodash e =
    let equal : true ≡ false = ap (λ k. ite (text_dec "react" k) true false) e in cc

fetch-outcome_example :
    KeptOrCleared full_batch
      (load_snapshot (cleared_file 60)).cleared_at
      (some fetched_react.entry)
      (get "react" fetched_react.cache.entries)
    × KeptOrCleared full_batch
        (load_snapshot (cleared_file 60)).cleared_at
        (get "lodash" full_batch.entries)
        (get "lodash" fetched_react.cache.entries)
    × (Answered 100 fetched_react.entry
        ⊎ KeepsKnown 100 (get "react" full_batch.entries) fetched_react.entry)
unfolding contains_key
fetch-outcome_example =
    fetch-outcome client parse true false clock "react" "lodash" 100 full_batch (cleared_file 60)
      (cleared_file 60) (refl, tt) react_is_not_lodash

-- The clear takes the older entry, and leaves the fetched one.
lodash_is_cleared :
    (get "lodash" fetched_react.cache.entries ≡ none)
    × (get "react" fetched_react.cache.entries ≡ some fetched_react.entry)
unfolding fetch_package_with_retries get text_dec ℕ_discrete insert remove
lodash_is_cleared = (refl, refl)

-- Two slots are taken, and no backoff is asked for.
react_takes_two_slots : fetched_react.calls ≡ reserve 1 false ∷ reserve 2 false ∷ []
unfolding fetch_package_with_retries ℕ_discrete
react_takes_two_slots = refl

abbrev fetched_later : FetchResult
fetched_later =
    fetch_package_with_retries client parse true false clock "react" 100 full_batch (cleared_file 0)
      (cleared_file 0)

fetch-then-lookup_example : ¬ (
    cached_lookup_from_entry (get "react" fetched_later.cache.entries) none refresh_stale 200 false
    ≡ none)
unfolding run_attempts attempt_once retries ℕ_discrete contains_key load_snapshot
fetch-then-lookup_example =
    fetch-then-lookup client parse true false clock "react" none 100 200 false full_batch
      (cleared_file 0) (cleared_file 0) (refl, tt) (omega arith) (omega arith)

abbrev three_entries : Entries
three_entries = ("react", entry 50) ∷ ("lodash", entry 30) ∷ ("vite", entry 40) ∷ []

oldest_is_evicted :
    evict_oldest_over_budget to_vec entry_to_vec three_entries 20
    ≡ (1, ("react", entry 50) ∷ ("vite", entry 40) ∷ [])
unfolding evict_oldest_over_budget comes_first get text_dec remove
oldest_is_evicted = refl

abbrev maintained : ℕ × (RegistryMetadataCache × Option RegistrySnapshot)
maintained =
    run_maintenance to_vec entry_to_vec true 100 20 (record ours { entries = three_entries }) file
      file

run_maintenance-Fits_example :
    Fits to_vec entry_to_vec 20 maintained.1.0.entries
    × ((load_snapshot maintained.1.1).entries ≡ maintained.1.0.entries)
run_maintenance-Fits_example =
    run_maintenance-Fits to_vec entry_to_vec 100 20 (record ours { entries = three_entries }) file
      file (omega arith)

-- `client` is answered at its second attempt.
abbrev service : RegistryHintService
service = record {
  cache = full_batch;
  rate_limiter = new 0;
  manual_cooldowns = ("lodash", 900) ∷ [];
}

cached_lookups_for_mode-map_example :
    cached_lookups_for_mode service
      (("react", none) ∷ ("lodash", some "4.0.0") ∷ [])
      force_refresh
      60
      1000
    ≡ map
        (λ (t : String × Option String).
          cached_lookup_for_mode service (t.0) (t.1) force_refresh 60 1000)
        (("react", none) ∷ ("lodash", some "4.0.0") ∷ [])
cached_lookups_for_mode-map_example =
    cached_lookups_for_mode-map service 60 1000 force_refresh
      (("react", none) ∷ ("lodash", some "4.0.0") ∷ [])

abbrev refreshed : Hinted
refreshed =
    hint_for client parse clock true (cleared_file 0) (cleared_file 0) service "react" none
      force_refresh 60 1000 2000

hint_for-coalesces_example :
    cached_lookup_for_mode refreshed.1.0 "react" none force_refresh 70 9000
    ≡ some (record refreshed.0 { origin = from_cache })
unfolding hint_for cached_lookup_for_mode fetch_package_with_retries get text_dec ℕ_discrete
    contains_key load_snapshot
hint_for-coalesces_example =
    hint_for-coalesces "react" none 70 9000 client parse clock true (cleared_file 0)
      (cleared_file 0) 60 service 1000 2000 (refl, tt) (omega arith) refl (omega arith) refl
