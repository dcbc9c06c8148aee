-- ===== src/Registry/Compact.antt =====
-- daemon/src/registry/cache.rs: the maintenance of the shared file, which drops what is old and what does
-- not fit. The serializer is a parameter: `to_vec` of the envelope and of an entry, which
-- may fail.
pub mod Fits
pub mod Maintenance
use Prim.Native.String.{compare as compare_text}
use Prim.Native.Nat.{lt, eq, gt}
use import_lens.Prelude.{
  ℕ, suc, ◌+◌, ◌-◌, String, Bool, true, false, ◌||◌, ◌&&◌, List, [], ◌∷◌, map, Option, none, some,
  ltb, leb, ◌==◌, if◌then◌else◌, length, get, remove, codes, u64_max,
}
use import_lens.Registry.Entry.{RegistryPackageMetadataEntry, Entries}
use import_lens.Registry.Store.{
  RegistrySnapshot, RegistryMetadataCache, load_snapshot, adopt_clear, merge_newest, write_snapshot,
  prune_expired_entries, registry_schema_version,
}

abbrev pub registry_retention_ms : ℕ
registry_retention_ms = 2592000000

-- Older first; of the same age, the smaller key first.
unfoldable pub comes_first :
    String × RegistryPackageMetadataEntry → String × RegistryPackageMetadataEntry → Bool
comes_first (a, x) (b, y) =
    if ltb x.updated_at y.updated_at
    then true
    else x.updated_at == y.updated_at
      && (elim (compare_text a b) [ lt ↦ true | eq ↦ true | gt ↦ false ])

unfoldable pub insert_sorted : String × RegistryPackageMetadataEntry → Entries → Entries
insert_sorted e [] = e ∷ []
insert_sorted e (f ∷ rest) =
    let after = insert_sorted e rest in if comes_first e f then e ∷ f ∷ rest else f ∷ after

unfoldable pub sort_by_age : Entries → Entries
unfolding insert_sorted
sort_by_age [] = []
sort_by_age (e ∷ rest) = insert_sorted e (sort_by_age rest)

unfoldable pub ordered_keys : Entries → List String
unfolding sort_by_age
ordered_keys entries = map (λ e. e.0) (sort_by_age entries)

-- The entries, how many were evicted, and the keys that the iterator still has.
pub record Eviction : Type 0 where
  pub entries : Entries
  pub evicted : ℕ
  pub ordered : List String

abbrev pub len_or_zero : Option (List ℕ) → ℕ
len_or_zero none = 0
len_or_zero (some bytes) = length bytes

module _ (to_vec : RegistrySnapshot → Option (List ℕ))
    (entry_to_vec : RegistryPackageMetadataEntry → Option (List ℕ)) where
  unfoldable pub snapshot_bytes : Entries → ℕ
  snapshot_bytes entries = len_or_zero (
      to_vec (record {
        schema_version = registry_schema_version;
        entries = entries;
        cleared_at = u64_max;
      }))

  unfoldable pub entry_footprint : String → RegistryPackageMetadataEntry → ℕ
  entry_footprint key entry = length (codes key) + len_or_zero (entry_to_vec entry) + 4

  unfoldable pub footprint_of : String → Entries → ℕ
  unfolding entry_footprint
  footprint_of key entries = elim (get key entries) [
    | none ↦ 0
    | some entry ↦ entry_footprint key entry
  ]

  -- The `for` over the iterator: a `break` has taken the key at which it stops.
  unfoldable pub evict_estimated : ℕ → ℕ → ℕ → Entries → List String → Eviction
  unfolding footprint_of
  evict_estimated max_bytes estimated evicted entries [] = record {
    entries = entries;
    evicted = evicted;
    ordered = [];
  }
  evict_estimated max_bytes estimated evicted entries (key ∷ ordered) =
      elim (leb estimated max_bytes) [
        | true ↦ record { entries = entries; evicted = evicted; ordered = ordered }
        | false ↦
            evict_estimated max_bytes (estimated - footprint_of key entries) (suc evicted)
              (remove key entries) ordered
      ]

  -- The `while` with the exact size.
  unfoldable pub evict_exact : ℕ → ℕ → Entries → List String → ℕ × Entries
  unfolding snapshot_bytes
  evict_exact max_bytes evicted entries [] = (evicted, entries)
  evict_exact max_bytes evicted entries (key ∷ ordered) =
      elim (ltb max_bytes (snapshot_bytes entries)) [
        | false ↦ (evicted, entries)
        | true ↦ evict_exact max_bytes (suc evicted) (remove key entries) ordered
      ]

  unfoldable pub evict_oldest_over_budget : Entries → ℕ → ℕ × Entries
  unfolding evict_estimated evict_exact ordered_keys snapshot_bytes
  evict_oldest_over_budget entries max_bytes =
      if max_bytes == 0
      then (0, entries)
      else if leb (snapshot_bytes entries) max_bytes
      then (0, entries)
      else let first =
          evict_estimated max_bytes (snapshot_bytes entries) 0 entries (ordered_keys entries) in
        evict_exact max_bytes first.evicted first.entries first.ordered

  abbrev pub evict_if_capped : Option ℕ → ℕ × Entries → ℕ × Entries
  evict_if_capped none (removed, entries) = (removed, entries)
  evict_if_capped (some max_bytes) (removed, entries) =
      let (evicted, kept) = evict_oldest_over_budget entries max_bytes in (removed + evicted, kept)

  -- For a store with a file; `written` says if the write of the file goes through.
  unfoldable pub compact_authoritatively :
      Bool
      → ℕ
      → ℕ
      → Option ℕ
      → RegistryMetadataCache
      → (read file : Option RegistrySnapshot)
      → ℕ × (RegistryMetadataCache × Option RegistrySnapshot)
  unfolding load_snapshot adopt_clear merge_newest prune_expired_entries write_snapshot
      evict_oldest_over_budget
  compact_authoritatively written now retention_ms max_bytes cache read file =
      let on_disk = load_snapshot read in
      let adopted = adopt_clear on_disk.cleared_at cache in
      let (removed, kept) =
        evict_if_capped max_bytes
          (prune_expired_entries now retention_ms (merge_newest adopted.entries on_disk.entries)) in
      let cache' = record adopted { entries = kept; unpersisted_writes = 0 } in
      (removed, (cache', (write_snapshot written cache' kept file).1))

  unfoldable pub purge_expired :
      Bool
      → ℕ
      → ℕ
      → RegistryMetadataCache
      → (read file : Option RegistrySnapshot)
      → ℕ × (RegistryMetadataCache × Option RegistrySnapshot)
  unfolding compact_authoritatively
  purge_expired written now retention_ms = compact_authoritatively written now retention_ms none

  unfoldable pub run_maintenance :
      Bool
      → ℕ
      → ℕ
      → RegistryMetadataCache
      → (read file : Option RegistrySnapshot)
      → ℕ × (RegistryMetadataCache × Option RegistrySnapshot)
  unfolding compact_authoritatively
  run_maintenance written now max_bytes =
      compact_authoritatively written now registry_retention_ms (some max_bytes)
