-- ===== src/Registry/Store.antt =====
-- daemon/src/registry/cache.rs: the store of registry metadata of one daemon, and the file that the
-- daemons share. `load_snapshot` gives the default snapshot where the file does not parse; a write of
-- the file may fail, which `written` says of each write. The locks of a daemon make each of its operations
-- one step, but they do not hold other daemons off between its reading of the file and its renaming of the
-- new one into place: an operation that does both is given the file that it `read` and the `file` that it
-- replaces.
pub mod Merge
pub mod Clear
pub mod Written
use import_lens.Prelude.{
  ℕ, suc, ◌+◌, ◌-◌, ◌≤◌, String, Bool, true, false, ◌||◌, List, [], ◌∷◌, Option, none, some, ltb,
  leb, ◌==◌, if◌then◌else◌, max, length, retain, get, insert,
}
use import_lens.Registry.Entry.{RegistryPackageMetadataEntry, Entries}

pub record RegistrySnapshot : Type 0 where
  pub schema_version : ℕ
  pub entries : Entries
  pub cleared_at : ℕ

pub record RegistryMetadataCache : Type 0 where
  pub entries : Entries
  pub cleared_at : ℕ
  pub unpersisted_writes : ℕ

abbrev pub registry_persist_batch : ℕ
registry_persist_batch = 16

abbrev pub registry_schema_version : ℕ
registry_schema_version = 1

abbrev pub default_snapshot : RegistrySnapshot
default_snapshot = record { schema_version = 0; entries = []; cleared_at = 0 }

-- What the file parses to, if it can be read and parsed.
unfoldable pub load_snapshot : Option RegistrySnapshot → RegistrySnapshot
load_snapshot none = default_snapshot
load_snapshot (some snapshot) =
    if snapshot.schema_version == registry_schema_version then snapshot else default_snapshot

unfoldable pub new : Option RegistrySnapshot → RegistryMetadataCache
unfolding load_snapshot
new file =
    let snapshot = load_snapshot file in
    record { entries = snapshot.entries; cleared_at = snapshot.cleared_at; unpersisted_writes = 0 }

unfoldable pub adopt_clear : ℕ → RegistryMetadataCache → RegistryMetadataCache
adopt_clear cleared_at cache =
    if ltb cache.cleared_at cleared_at
    then record cache {
      entries = retain (λ e. ltb cleared_at (e.1.updated_at)) cache.entries;
      cleared_at = cleared_at;
    }
    else cache

unfoldable pub keep_ours : Option RegistryPackageMetadataEntry → RegistryPackageMetadataEntry → Bool
keep_ours none on_disk = false
keep_ours (some ours) on_disk = leb on_disk.updated_at ours.updated_at

unfoldable pub merge_newest : Entries → Entries → Entries
unfolding keep_ours
merge_newest ours [] = ours
merge_newest ours ((key, on_disk) ∷ rest) =
    merge_newest (if keep_ours (get key ours) on_disk then ours else insert key on_disk ours) rest

-- `write_snapshot` of the store's `cleared_at` and these entries.
unfoldable pub write_snapshot :
    Bool
    → RegistryMetadataCache
    → Entries
    → Option RegistrySnapshot
    → Bool × Option RegistrySnapshot
write_snapshot false cache entries file = (false, file)
write_snapshot true cache entries file = (
  true,
  some (record {
    schema_version = registry_schema_version;
    entries = entries;
    cleared_at = cache.cleared_at;
  }),
)

-- The store, the file, and whether the operation returned `Ok`.
abbrev pub Stored : Type 0
Stored = Bool × (RegistryMetadataCache × Option RegistrySnapshot)

unfoldable pub persist_snapshot :
    Bool → RegistryMetadataCache → (read file : Option RegistrySnapshot) → Stored
unfolding adopt_clear merge_newest write_snapshot load_snapshot
persist_snapshot written cache read file =
    let on_disk = load_snapshot read in
    let cache' = adopt_clear on_disk.cleared_at cache in
    let (ok, file') =
      write_snapshot written cache' (merge_newest cache'.entries on_disk.entries) file in
    (ok, (cache', file'))

abbrev pub restore : ℕ → Stored → Stored
restore had (true, r) = (true, r)
restore had (false, (cache, file)) =
    (false, (record cache { unpersisted_writes = cache.unpersisted_writes + had }, file))

unfoldable pub flush : Bool → RegistryMetadataCache → (read file : Option RegistrySnapshot) → Stored
unfolding persist_snapshot
flush written cache read file =
    if cache.unpersisted_writes == 0
    then (true, (cache, file))
    else restore cache.unpersisted_writes
        (persist_snapshot written (record cache { unpersisted_writes = 0 }) read file)

unfoldable pub write_entry :
    Bool
    → String
    → RegistryPackageMetadataEntry
    → RegistryMetadataCache
    → (read file : Option RegistrySnapshot) → Stored
unfolding flush
write_entry written package_name entry cache read file =
    let cache' = record cache {
      entries = insert package_name entry cache.entries;
      unpersisted_writes = suc cache.unpersisted_writes;
    } in
    if leb registry_persist_batch cache'.unpersisted_writes
    then flush written cache' read file
    else (true, (cache', file))

-- `clear`, at the time `now`.
unfoldable pub clear : Bool → ℕ → RegistryMetadataCache → Option RegistrySnapshot → Stored
unfolding write_snapshot
clear written now cache file =
    let cache' : RegistryMetadataCache = record {
      entries = [];
      cleared_at = max cache.cleared_at now;
      unpersisted_writes = 0;
    } in
    let (ok, file') = write_snapshot written cache' [] file in (ok, (cache', file'))

unfoldable pub is_open : ℕ → Option ℕ → Bool
is_open now none = false
is_open now (some retry_at) = ltb now retry_at

unfoldable pub prune_expired_entries : ℕ → ℕ → Entries → ℕ × Entries
unfolding is_open
prune_expired_entries now retention_ms entries =
    let kept =
      retain (λ e. is_open now (e.1.retry_after) || leb (now - e.1.updated_at) retention_ms)
        entries in
    (length entries - length kept, kept)
