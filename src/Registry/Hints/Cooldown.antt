-- ===== src/Registry/Hints/Cooldown.antt =====
-- The cooldown that a refresh by hand of daemon/src/registry/service.rs starts.
use import_lens.Prelude.{
  ℕ, Bool, DistinctKeys, ◌≤◌, ◌-◌, ◌<◌, ◌≡◌, refl, sym, subst, String, Option, none, some,
  if◌then◌else◌, get, get-insert_same, arith,
}
use import_lens.Registry.Entry.{RegistryPackageMetadataEntry}
use import_lens.Registry.Lookup.{
  RegistryHintLookup, force_refresh, from_cache, from_network, cached_lookup_from_entry,
  lookup_from_entry,
}
use import_lens.Registry.RateLimiter.{after_calls}
use import_lens.Registry.Store.{RegistrySnapshot, load_snapshot}
use import_lens.Registry.Fetch.{Fetched, Parsed, FetchResult, fetch_package_with_retries}
use import_lens.Registry.Fetch.Outcome.{fetch-stored}
use import_lens.Registry.Hints.{
  RegistryHintService, is_force, cooldown_running, manual_cooldown_active, record_manual_fetch,
  cached_lookup_for_mode, starts_cooldown, hint_for, Hinted, manual_refresh_cooldown_ms,
}

module _ (package_name : String) (version : Option String) (now later : ℕ) where
  abbrev again : RegistryHintService → Option RegistryHintLookup
  again service = cached_lookup_for_mode service package_name version force_refresh now later

  -- What is read of a service: the entry of the package, and whether its cooldown is running.
  again-stored :
      (service : RegistryHintService) (entry : RegistryPackageMetadataEntry) (last : ℕ)
      → get package_name service.cache.entries ≡ some entry
      → get package_name service.manual_cooldowns ≡ some last
      → later - last < manual_refresh_cooldown_ms
      → again service ≡ some (lookup_from_entry entry version from_cache)
  unfolding cached_lookup_for_mode cached_lookup_from_entry is_force manual_cooldown_active
      cooldown_running
  again-stored service entry last e c h = rw (e, c) (ground (arith, h))

  module _ (client : ℕ → Fetched) (parse : String → Parsed) (clock : ℕ → ℕ × ℕ) (written : Bool)
      (read file : Option RegistrySnapshot) (asked_at : ℕ) where
    abbrev fetched : RegistryHintService → FetchResult
    fetched service =
        fetch_package_with_retries client parse written (is_force force_refresh) clock package_name
          asked_at service.cache read file

    abbrev after : RegistryHintService → RegistryHintService
    after service = record service {
      cache = (fetched service).cache;
      rate_limiter = after_calls (fetched service).calls service.rate_limiter;
    }

    abbrev after_fetch : RegistryHintService → ℕ → Hinted
    after_fetch service ended = (
      lookup_from_entry (fetched service).entry version from_network,
      (
        if starts_cooldown force_refresh (fetched service).entry.error
            then record_manual_fetch (after service) package_name ended
            else after service,
        (fetched service).file,
      ),
    )

    abbrev Coalesces : Hinted → Type 0
    Coalesces r = r.0.error ≡ none → again r.1.0 ≡ some (record r.0 { origin = from_cache })

    after_fetch-Coalesces :
        (service : RegistryHintService) (ended : ℕ)
        → later - ended < manual_refresh_cooldown_ms
        → get package_name (fetched service).cache.entries ≡ some (fetched service).entry
        → Coalesces (after_fetch service ended)
    unfolding record_manual_fetch lookup_from_entry is_force
    after_fetch-Coalesces service ended h stored ok =
        subst
          (λ o.
            again (
              if starts_cooldown force_refresh o
              then record_manual_fetch (after service) package_name ended
              else after service)
            ≡ some (record (lookup_from_entry (fetched service).entry version from_network) {
              origin = from_cache;
            }))
          (sym ok)
          (again-stored (record_manual_fetch (after service) package_name ended)
            (fetched service).entry ended stored
            (get-insert_same package_name ended service.manual_cooldowns) h)

    hint_for-missed :
        (service : RegistryHintService) (asked ended : ℕ)
        → cached_lookup_for_mode service package_name version force_refresh asked_at asked ≡ none
        → hint_for client parse clock written read file service package_name version force_refresh
            asked_at asked ended
          ≡ after_fetch service ended
    unfolding hint_for
    hint_for-missed service asked ended missed = rw (missed, hint_for) refl

    -- A refresh by hand that went to the network and succeeded is what the next refresh of the package
    -- by hand is answered with, without the network, if that one comes within ten seconds of its end. The
    -- file that the write of the fetch may read records no clear that the store has not adopted.
    pub hint_for-coalesces :
        (service : RegistryHintService) (asked ended : ℕ)
        → DistinctKeys service.cache.entries
        → (load_snapshot read).cleared_at ≤ service.cache.cleared_at
        → cached_lookup_for_mode service package_name version force_refresh asked_at asked ≡ none
        → later - ended < manual_refresh_cooldown_ms
        → (hint_for client parse clock written read file service package_name version force_refresh
            asked_at asked ended).0.error
          ≡ none
        → let r =
            hint_for client parse clock written read file service package_name version force_refresh
              asked_at asked ended in
          cached_lookup_for_mode r.1.0 package_name version force_refresh now later
          ≡ some (record r.0 { origin = from_cache })
    unfolding hint_for
    hint_for-coalesces service asked ended d no_clear missed h =
        subst Coalesces (sym (hint_for-missed service asked ended missed)) (
          after_fetch-Coalesces service ended h (
            fetch-stored client parse written (is_force force_refresh) clock package_name asked_at
              service.cache read file d no_clear))
