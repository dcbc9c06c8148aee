-- ===== src/Registry/Hints.antt =====
-- daemon/src/registry/service.rs: a hint for one package or for many, and the cooldown of a refresh by
-- hand. `now` is the time of the clock in milliseconds; an `Instant` is the milliseconds of the monotonic
-- clock. A fetch is the one of the caller that leads it; the others wait for its entry.
pub mod Batch
pub mod Cooldown
pub mod Sweep
use import_lens.Prelude.{
  ℕ, ◌-◌, String, Bool, true, false, ◌&&◌, List, [], ◌∷◌, map, Option, none, some, ltb,
  if◌then◌else◌, get, insert, retain,
}
use import_lens.Registry.Entry.{RegistryPackageMetadataEntry, RegistryError, Entries}
use import_lens.Registry.Lookup.{
  RegistryHintMode, RegistryHintLookup, off, cached, refresh_stale, force_refresh, from_network,
  no_hint, cached_lookup_from_entry, lookup_from_entry,
}
use import_lens.Registry.RateLimiter.{RegistryRateLimiter, after_calls}
use import_lens.Registry.Store.{RegistrySnapshot, RegistryMetadataCache}
use import_lens.Registry.Fetch.{Fetched, Parsed, fetch_package_with_retries}

abbrev pub manual_refresh_cooldown_ms : ℕ
manual_refresh_cooldown_ms = 10000

-- The store, the limiter, and the instants of the last successful refreshes by hand.
pub record RegistryHintService : Type 0 where
  pub cache : RegistryMetadataCache
  pub rate_limiter : RegistryRateLimiter
  pub manual_cooldowns : List (String × ℕ)

unfoldable pub is_force : RegistryHintMode → Bool
is_force off = false
is_force cached = false
is_force refresh_stale = false
is_force force_refresh = true

unfoldable pub is_off : RegistryHintMode → Bool
is_off off = true
is_off cached = false
is_off refresh_stale = false
is_off force_refresh = false

abbrev pub is_some : Option RegistryPackageMetadataEntry → Bool
is_some none = false
is_some (some _) = true

unfoldable pub cooldown_running : ℕ → Option ℕ → Bool
cooldown_running instant none = false
cooldown_running instant (some last) = ltb (instant - last) manual_refresh_cooldown_ms

unfoldable pub manual_cooldown_active : RegistryHintService → String → ℕ → Bool
unfolding cooldown_running
manual_cooldown_active service package_name instant =
    cooldown_running instant (get package_name service.manual_cooldowns)

unfoldable pub manual_cooldown_hits : RegistryHintService → List String → ℕ → List Bool
unfolding cooldown_running
manual_cooldown_hits service package_names instant =
    map (λ key. cooldown_running instant (get key service.manual_cooldowns)) package_names

unfoldable pub record_manual_fetch : RegistryHintService → String → ℕ → RegistryHintService
record_manual_fetch service package_name instant = record service {
  manual_cooldowns = insert package_name instant service.manual_cooldowns;
}

unfoldable pub sweep_manual_cooldowns : RegistryHintService → ℕ → RegistryHintService
sweep_manual_cooldowns service instant = record service {
  manual_cooldowns =
      retain (λ e. ltb (instant - e.1) manual_refresh_cooldown_ms) service.manual_cooldowns;
}

unfoldable pub cached_lookup_for_mode :
    RegistryHintService
    → String
    → Option String
    → RegistryHintMode
    → ℕ
    → ℕ
    → Option RegistryHintLookup
unfolding manual_cooldown_active cached_lookup_from_entry is_force
cached_lookup_for_mode service package_name installed_version mode now instant =
    let entry = get package_name service.cache.entries in
    cached_lookup_from_entry entry installed_version mode now
      (is_force mode && is_some entry && manual_cooldown_active service package_name instant)

unfoldable pub get_many : List String → Entries → List (Option RegistryPackageMetadataEntry)
get_many package_names entries = map (λ name. get name entries) package_names

-- The `zip` of the targets with their entries and the cooldowns.
unfoldable pub answer_each :
    RegistryHintMode
    → ℕ
    → List (String × Option String)
    → List (Option RegistryPackageMetadataEntry)
    → List Bool
    → List (Option RegistryHintLookup)
unfolding cached_lookup_from_entry
answer_each mode now [] entries hits = []
answer_each mode now (target ∷ targets) [] hits = []
answer_each mode now (target ∷ targets) (entry ∷ entries) [] = []
answer_each mode now (target ∷ targets) (entry ∷ entries) (hit ∷ hits) =
    cached_lookup_from_entry entry (target.1) mode now hit
    ∷ answer_each mode now targets entries hits

unfoldable pub cached_lookups_for_mode :
    RegistryHintService
    → List (String × Option String)
    → RegistryHintMode
    → ℕ
    → ℕ
    → List (Option RegistryHintLookup)
unfolding answer_each get_many manual_cooldown_hits is_off is_force
cached_lookups_for_mode service targets mode now instant =
    if is_off mode
    then map (λ _. some no_hint) targets
    else answer_each mode now targets (get_many (map (λ t. t.0) targets) service.cache.entries) (
        if is_force mode
        then manual_cooldown_hits service (map (λ t. t.0) targets) instant
        else map (λ _. false) targets)

abbrev pub starts_cooldown : RegistryHintMode → Option RegistryError → Bool
starts_cooldown mode none = is_force mode
starts_cooldown mode (some _) = false

-- What a hint leaves: the service, and the file that the daemons share.
abbrev pub Hinted : Type 0
Hinted = RegistryHintLookup × (RegistryHintService × Option RegistrySnapshot)

module _ (client : ℕ → Fetched) (parse : String → Parsed) (clock : ℕ → ℕ × ℕ) (written : Bool)
    (read file : Option RegistrySnapshot) where
  -- `asked` is the instant of the request, `ended` the one when the fetch has ended.
  unfoldable pub hint_for :
      RegistryHintService → String → Option String → RegistryHintMode → ℕ → ℕ → ℕ → Hinted
  unfolding cached_lookup_for_mode fetch_package_with_retries record_manual_fetch lookup_from_entry
      is_force after_calls
  hint_for service package_name installed_version mode now asked ended =
      elim (cached_lookup_for_mode service package_name installed_version mode now asked) [
        | some lookup ↦ (lookup, (service, file))
        | none ↦
            let fetched =
              fetch_package_with_retries client parse written (is_force mode) clock package_name now
                service.cache read file in
            let after : RegistryHintService = record service {
              cache = fetched.cache;
              rate_limiter = after_calls fetched.calls service.rate_limiter;
            } in
            (
              lookup_from_entry fetched.entry installed_version from_network,
              (
                if starts_cooldown mode fetched.entry.error
                    then record_manual_fetch after package_name ended
                    else after,
                fetched.file,
              ),
            )
      ]
