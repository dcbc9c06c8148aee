-- ===== src/Registry/Fetch.antt =====
-- daemon/src/registry/service.rs: a fetch of a package's metadata, with its retries. The client and the
-- parser of a response's body are parameters: the answer to each attempt, numbered from 1, and what
-- the body parses to.
pub mod Outcome
use import_lens.Prelude.{
  ℕ, zero, suc, ◌+◌, ◌*◌, String, Bool, true, false, not, ◌||◌, List, [], ◌∷◌, Option, none, some,
  ltb, leb, ◌==◌, if◌then◌else◌, ite, text_dec, min, saturating_add, get, insert,
}
use import_lens.Registry.Entry.{
  RegistryPackageMetadata, RegistryPackageMetadataEntry, RegistryError, rate_limit, responded_with,
  message, Entries,
}
use import_lens.Registry.RateLimiter.{Call, reserve, retry_after, registry_max_backoff_ms}
use import_lens.Registry.Store.{RegistrySnapshot, RegistryMetadataCache, write_entry}
use import_lens.Registry.Lookup.{not_found_ttl_ms}

pub data Fetched : Type 0 where
  response : (status : ℕ) (retry_after_ms : Option ℕ) (body : String) → Fetched
  failed : String → Fetched

pub data Parsed : Type 0 where
  parsed : RegistryPackageMetadata → Parsed
  malformed : String → Parsed

abbrev pub max_attempts : ℕ
max_attempts = 3

abbrev pub transient_error_retry_ms : ℕ
transient_error_retry_ms = 300000

abbrev pub registry_retry_base_delay_ms : ℕ
registry_retry_base_delay_ms = 100

abbrev pub registry_body_too_large_error : String
registry_body_too_large_error = "registry response body exceeds size limit"

unfoldable pub is_transient_status : ℕ → Bool
is_transient_status status = status == 408 || status == 425 || leb 500 status

unfoldable pub is_permanent_fetch_error : String → Bool
is_permanent_fetch_error error = ite (text_dec error registry_body_too_large_error) true false

abbrev pub transient_backoff_ms : ℕ → ℕ
transient_backoff_ms attempt = registry_retry_base_delay_ms * attempt

abbrev pub metadata_of : Option RegistryPackageMetadataEntry → Option RegistryPackageMetadata
metadata_of none = none
metadata_of (some entry) = entry.metadata

abbrev pub updated_at_of : Option RegistryPackageMetadataEntry → ℕ
updated_at_of none = 0
updated_at_of (some entry) = entry.updated_at

unfoldable pub failed_entry_from_cache :
    Option RegistryPackageMetadataEntry → RegistryError → ℕ → RegistryPackageMetadataEntry
failed_entry_from_cache cached error retry_at = record {
  metadata = metadata_of cached;
  updated_at = updated_at_of cached;
  retry_after = some retry_at;
  error = some error;
  not_found = false;
}

-- How the loop over the attempts ends: with the entry to write, or with the last error.
pub data Ended : Type 0 where
  fetched : RegistryPackageMetadata → Ended
  is_missing : Ended
  limited : (delay_ms : ℕ) → Ended
  gave_up : (permanent : Bool) → RegistryError → Ended

-- The entry that is returned, what its write leaves of the store and of the file, and the calls of the limiter.
pub record FetchResult : Type 0 where
  pub entry : RegistryPackageMetadataEntry
  pub cache : RegistryMetadataCache
  pub file : Option RegistrySnapshot
  pub calls : List Call

abbrev pub delay_of : Option ℕ → ℕ → ℕ
delay_of none attempt = transient_backoff_ms attempt
delay_of (some delay) attempt = delay

module _ (client : ℕ → Fetched) (parse : String → Parsed) where
  -- One attempt: the end of the loop, or the error after which the next attempt follows.
  unfoldable pub attempt_once : ℕ → Fetched → Ended
  attempt_once attempt (failed error) = gave_up (is_permanent_fetch_error error) (message error)
  attempt_once attempt (response status retry_after_ms body) =
      if status == 200
      then (elim (parse body) [
        | parsed metadata ↦ fetched metadata
        | malformed error ↦ gave_up false (message error)
      ])
      else if status == 404
      then is_missing
      else if status == 429
      then limited (min (delay_of retry_after_ms attempt) registry_max_backoff_ms)
      else gave_up false (responded_with status)

  -- Whether the loop goes on after the attempt, when there is another one.
  unfoldable pub retries : Fetched → Bool
  unfolding is_transient_status is_permanent_fetch_error
  retries (failed error) = not (is_permanent_fetch_error error)
  retries (response status retry_after_ms body) = is_transient_status status

  -- The loop: `left` attempts after this one.
  unfoldable pub run_attempts : ℕ → ℕ → Ended
  unfolding attempt_once retries
  run_attempts attempt zero = attempt_once attempt (client attempt)
  run_attempts attempt (suc left) =
      let rest = run_attempts (suc attempt) left in
      if retries (client attempt) then rest else attempt_once attempt (client attempt)

  unfoldable pub entry_of_end :
      Option RegistryPackageMetadataEntry → ℕ → Ended → RegistryPackageMetadataEntry
  unfolding failed_entry_from_cache
  entry_of_end cached now (fetched metadata) = record {
    metadata = some metadata;
    updated_at = now;
    retry_after = none;
    error = none;
    not_found = false;
  }
  entry_of_end cached now is_missing = record {
    metadata = none;
    updated_at = now;
    retry_after = none;
    error = none;
    not_found = true;
  }
  entry_of_end cached now (limited delay_ms) =
      failed_entry_from_cache cached rate_limit (saturating_add now delay_ms)
  entry_of_end cached now (gave_up true error) =
      failed_entry_from_cache cached error (now + not_found_ttl_ms)
  entry_of_end cached now (gave_up false error) =
      failed_entry_from_cache cached error (now + transient_error_retry_ms)

  -- The calls of the limiter: each attempt asks for a slot, and a 429 asks for a backoff. `clock` has the
  -- instants at which the attempt of a number asks and at which it is answered.
  abbrev pub backoff_calls : ℕ → Ended → List Call
  backoff_calls instant (fetched metadata) = []
  backoff_calls instant is_missing = []
  backoff_calls instant (limited delay_ms) = retry_after instant delay_ms ∷ []
  backoff_calls instant (gave_up permanent error) = []

  unfoldable pub limiter_calls : Bool → (clock : ℕ → ℕ × ℕ) → ℕ → ℕ → List Call
  unfolding attempt_once retries
  limiter_calls manual clock attempt zero =
      reserve (clock attempt).0 manual
      ∷ backoff_calls (clock attempt).1 (attempt_once attempt (client attempt))
  limiter_calls manual clock attempt (suc left) =
      let rest = limiter_calls manual clock (suc attempt) left in
      reserve (clock attempt).0 manual
      ∷ (if retries (client attempt)
          then rest
          else backoff_calls (clock attempt).1 (attempt_once attempt (client attempt)))

  -- `written`, `read` and `file` are of the flush that the write of the entry may bring about.
  unfoldable pub fetch_package_with_retries :
      (written manual : Bool) (clock : ℕ → ℕ × ℕ)
      → String
      → ℕ
      → RegistryMetadataCache
      → (read file : Option RegistrySnapshot) → FetchResult
  unfolding run_attempts entry_of_end write_entry limiter_calls
  fetch_package_with_retries written manual clock package_name now cache read file =
      let entry = entry_of_end (get package_name cache.entries) now (run_attempts 1 2) in
      let stored = write_entry written package_name entry cache read file in
      record {
        entry = entry;
        cache = stored.1.0;
        file = stored.1.1;
        calls = limiter_calls manual clock 1 2;
      }
