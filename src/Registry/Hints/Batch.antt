-- ===== src/Registry/Hints/Batch.antt =====
-- Looking up many packages in daemon/src/registry/service.rs against looking up each of them.
use import_lens.Prelude.{
  ℕ, ◌≡◌, refl, ap, ◌∙◌, String, Bool, false, ◌&&◌, List, [], ◌∷◌, map, Option, none, some, get,
}
use import_lens.Registry.Entry.{RegistryPackageMetadataEntry}
use import_lens.Registry.Lookup.{
  RegistryHintMode, RegistryHintLookup, off, cached, refresh_stale, force_refresh, no_hint,
  cached_lookup_from_entry,
}
use import_lens.Registry.Hints.{
  RegistryHintService, is_force, is_off, is_some, manual_cooldown_active, manual_cooldown_hits,
  cached_lookup_for_mode, answer_each, get_many, cached_lookups_for_mode,
}

-- The cooldown counts only in a forced refresh, and only for a package with an entry.
cooldown_guard :
    (entry : Option RegistryPackageMetadataEntry) (version : Option String) (now : ℕ) (hit : Bool)
    → cached_lookup_from_entry entry version force_refresh now hit
      ≡ cached_lookup_from_entry entry version force_refresh now (is_some entry && hit)
unfolding cached_lookup_from_entry
cooldown_guard none version now hit = refl
cooldown_guard (some entry) version now hit = refl

module _ (service : RegistryHintService) (now instant : ℕ) where
  abbrev one : RegistryHintMode → String × Option String → Option RegistryHintLookup
  one mode target = cached_lookup_for_mode service (target.0) (target.1) mode now instant

  lookups-off :
      (targets : List (String × Option String))
      → map (λ _. some no_hint) targets ≡ map (one off) targets
  unfolding cached_lookup_for_mode cached_lookup_from_entry
  lookups-off [] = refl
  lookups-off (t ∷ targets) = ap (λ l. some no_hint ∷ l) (lookups-off targets)

  lookups-unforced :
      (mode : RegistryHintMode) (targets : List (String × Option String))
      → is_force mode ≡ false
      → answer_each mode now targets
          (get_many (map (λ t. t.0) targets) service.cache.entries)
          (map (λ _. false) targets)
        ≡ map (one mode) targets
  unfolding cached_lookup_for_mode answer_each get_many
  lookups-unforced mode [] h = refl
  lookups-unforced mode (t ∷ targets) h = rw (h, lookups-unforced mode targets h) refl

  lookups-forced :
      (targets : List (String × Option String))
      → answer_each force_refresh now targets
          (get_many (map (λ t. t.0) targets) service.cache.entries)
          (manual_cooldown_hits service (map (λ t. t.0) targets) instant)
        ≡ map (one force_refresh) targets
  unfolding cached_lookup_for_mode answer_each get_many manual_cooldown_hits is_force
      manual_cooldown_active
  lookups-forced [] = refl
  lookups-forced (t ∷ targets) =
      ap
        (λ l.
          l
          ∷ answer_each force_refresh now targets
              (get_many (map (λ t. t.0) targets) service.cache.entries)
              (manual_cooldown_hits service (map (λ t. t.0) targets) instant))
        (cooldown_guard (get (t.0) service.cache.entries) (t.1) now
          (manual_cooldown_active service (t.0) instant))
      ∙ ap (λ l. one force_refresh t ∷ l) (lookups-forced targets)

  -- Looking up many packages at once answers each of them as looking it up alone does, in the order of
  -- the targets, whatever the mode.
  pub cached_lookups_for_mode-map :
      (mode : RegistryHintMode) (targets : List (String × Option String))
      → cached_lookups_for_mode service targets mode now instant
        ≡ map (λ t. cached_lookup_for_mode service (t.0) (t.1) mode now instant) targets
  unfolding cached_lookups_for_mode is_off is_force
  cached_lookups_for_mode-map off targets = lookups-off targets
  cached_lookups_for_mode-map cached targets = lookups-unforced cached targets refl
  cached_lookups_for_mode-map refresh_stale targets = lookups-unforced refresh_stale targets refl
  cached_lookups_for_mode-map force_refresh targets = lookups-forced targets
