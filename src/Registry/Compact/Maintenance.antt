-- ===== src/Registry/Compact/Maintenance.antt =====
-- `run_maintenance` of daemon/src/registry/cache.rs leaves a store and a file within the limit.
use import_lens.Prelude.{ℕ, ◌<◌, List, ◌≡◌, refl, true, Option}
use import_lens.Registry.Entry.{RegistryPackageMetadataEntry}
use import_lens.Registry.Store.{
  RegistrySnapshot, RegistryMetadataCache, load_snapshot, write_snapshot, prune_expired_entries,
}
use import_lens.Registry.Compact.{compact_authoritatively, run_maintenance}
use import_lens.Registry.Compact.Fits.{Fits, evict_oldest_over_budget-Fits}

module _ (to_vec : RegistrySnapshot → Option (List ℕ))
    (entry_to_vec : RegistryPackageMetadataEntry → Option (List ℕ)) where
  -- A maintenance whose write goes through, with a limit that is not zero, leaves a store whose envelope, as
  -- the serializer writes it, fits the limit, or which has the entry of one package at most; and a file that
  -- loads as the entries of the store. Nothing is assumed of how well the estimate of an entry's share is met.
  pub run_maintenance-Fits :
      (now max_bytes : ℕ) (cache : RegistryMetadataCache) (read file : Option RegistrySnapshot)
      → 0 < max_bytes
      → let (cache', file') =
          (run_maintenance to_vec entry_to_vec true now max_bytes cache read file).1 in
        Fits to_vec entry_to_vec max_bytes cache'.entries
        × ((load_snapshot file').entries ≡ cache'.entries)
  unfolding run_maintenance compact_authoritatively write_snapshot load_snapshot
      prune_expired_entries
  run_maintenance-Fits now max_bytes cache read file pos =
      (evict_oldest_over_budget-Fits to_vec entry_to_vec _ max_bytes pos, refl)
