-- ===== src/Registry/Lookup.antt =====
-- daemon/src/registry/service.rs: when a hint is answered from the store.
pub mod Network
use import_lens.Prelude.{
  ℕ, ◌-◌, String, Bool, true, false, ◌&&◌, ◌||◌, List, [], ◌∷◌, Option, none, some, ltb, leb,
  if◌then◌else◌, ite, text_dec, contains,
}
use import_lens.Registry.Entry.{
  RegistryPackageMetadata, RegistryPackageMetadataEntry, RegistryError,
}
use import_lens.Registry.Store.{is_open}

pub data RegistryHintMode : Type 0 where
  off cached refresh_stale force_refresh : RegistryHintMode

pub data RegistryHintOrigin : Type 0 where
  from_cache from_network : RegistryHintOrigin

pub record RegistryHint : Type 0 where
  pub is_latest : Option Bool
  pub latest_version : Option String
  pub latest_published_at : Option String
  pub deprecated : Option Bool
  pub fetched_at : Option ℕ

pub record RegistryHintLookup : Type 0 where
  pub hint : Option RegistryHint
  pub error : Option RegistryError
  pub origin : RegistryHintOrigin

abbrev pub fresh_hint_ttl_ms : ℕ
fresh_hint_ttl_ms = 21600000

abbrev pub not_found_ttl_ms : ℕ
not_found_ttl_ms = 21600000

unfoldable pub is_latest_of : Option String → Option String → Option Bool
is_latest_of none latest = none
is_latest_of (some installed) none = none
is_latest_of (some installed) (some latest) = some (ite (text_dec installed latest) true false)

unfoldable pub deprecated_of : Option String → List String → Option Bool
deprecated_of none versions = none
deprecated_of (some version) versions = some (contains version versions)

unfoldable pub registry_hint_from_metadata :
    RegistryPackageMetadata → Option String → ℕ → RegistryHint
unfolding is_latest_of deprecated_of
registry_hint_from_metadata metadata installed_version fetched_at = record {
  is_latest = is_latest_of installed_version metadata.latest_version;
  latest_version = metadata.latest_version;
  latest_published_at = metadata.latest_published_at;
  deprecated = deprecated_of installed_version metadata.deprecated_versions;
  fetched_at = some fetched_at;
}

unfoldable pub hint_of : Option RegistryPackageMetadata → Option String → ℕ → Option RegistryHint
unfolding registry_hint_from_metadata
hint_of none installed_version fetched_at = none
hint_of (some metadata) installed_version fetched_at =
    some (registry_hint_from_metadata metadata installed_version fetched_at)

unfoldable pub lookup_from_entry :
    RegistryPackageMetadataEntry → Option String → RegistryHintOrigin → RegistryHintLookup
unfolding hint_of
lookup_from_entry entry installed_version origin = record {
  hint = hint_of entry.metadata installed_version entry.updated_at;
  error = entry.error;
  origin = origin;
}

unfoldable pub is_usable_without_fetch : RegistryPackageMetadataEntry → ℕ → Bool
is_usable_without_fetch entry now = elim (entry.metadata) [
  | some _ ↦ leb (now - entry.updated_at) fresh_hint_ttl_ms
  | none ↦ entry.not_found && leb (now - entry.updated_at) not_found_ttl_ms
]

abbrev pub no_hint : RegistryHintLookup
no_hint = record { hint = none; error = none; origin = from_cache }

unfoldable pub cached_lookup_from_entry :
    Option RegistryPackageMetadataEntry
    → Option String
    → RegistryHintMode
    → ℕ
    → Bool
    → Option RegistryHintLookup
unfolding is_usable_without_fetch is_open
cached_lookup_from_entry entry installed_version off now cooldown = some no_hint
cached_lookup_from_entry none installed_version cached now cooldown = some no_hint
cached_lookup_from_entry (some entry) installed_version cached now cooldown =
    some (lookup_from_entry entry installed_version from_cache)
cached_lookup_from_entry none installed_version refresh_stale now cooldown = none
cached_lookup_from_entry (some entry) installed_version refresh_stale now cooldown =
    if is_usable_without_fetch entry now || is_open now entry.retry_after
    then some (lookup_from_entry entry installed_version from_cache)
    else none
cached_lookup_from_entry none installed_version force_refresh now cooldown = none
cached_lookup_from_entry (some entry) installed_version force_refresh now cooldown =
    if cooldown then some (lookup_from_entry entry installed_version from_cache) else none
