-- ===== src/Cache/Import/Sweeps.antt =====
-- daemon/src/cache/memory.rs and daemon/src/cache/disk.rs: what goes over all keys of an `ImportCache`, the
-- invalidation of packages, the purge of orphans and the flush; the claims on a background revalidation; and
-- the probe of a key.
use import_lens.Prelude.{
  ℕ, String, Bool, true, false, not, ◌&&◌, List, [], ◌∷◌, Option, none, some, ltb, if◌then◌else◌,
  length, get, contains, codes, remove_many, keys_where,
}
use import_lens.Cache.Fingerprint.{Freshness}
use import_lens.Cache.Identity.{cache_key_matches_any_package, cache_key_is_orphan}
use import_lens.Cache.Disk.{Tables, maintain_removals}
use import_lens.Cache.Disk.Queue.{
  DiskCache, insert_at_generation, flush_pending_inserts, remove_pending,
}
use import_lens.Cache.Import.{check_now, CachedImport, ImportCache, World}
use import_lens.Cache.Import.Writes.{Memory, insert_on_disk}

abbrev pub remove_rows_where : Bool → (String → Bool) → Tables → Tables
remove_rows_where false p t = t
remove_rows_where true p t = (maintain_removals (keys_where p t.cache) t).1

abbrev pub is_empty {ℓ} : {A : Type ℓ} → List A → Bool
is_empty [] = true
is_empty (x ∷ xs) = false

module _ (w : World) where
  unfoldable pub matches : List String → String → Bool
  unfolding cache_key_matches_any_package
  matches package_names key =
      cache_key_matches_any_package w.to_vec w.from_slice (codes key) package_names

  unfoldable pub is_orphan : String → String → Bool
  unfolding cache_key_is_orphan
  is_orphan version key =
      cache_key_is_orphan w.to_vec w.from_slice w.symlink_metadata (codes key) version

  abbrev pub invalidated_db : List String → Option Tables → Option Tables
  invalidated_db package_names none = none
  invalidated_db package_names (some t) =
      some (remove_rows_where w.committed (matches package_names) t)

  -- The invalidation of the disk cache.
  unfoldable pub invalidate_on_disk : List String → DiskCache → DiskCache
  unfolding matches keys_where maintain_removals remove_pending
  invalidate_on_disk package_names d = if is_empty package_names then d else record d {
    pending_inserts =
        remove_pending (keys_where (matches package_names) d.pending_inserts) d.pending_inserts;
    db = invalidated_db package_names d.db;
  }

  unfoldable pub invalidate_packages : List String → ImportCache → ImportCache
  unfolding invalidate_on_disk remove_many
  invalidate_packages package_names c = if is_empty package_names then c else record c {
    disk = invalidate_on_disk package_names c.disk;
    memory = remove_many (keys_where (matches package_names) c.memory) c.memory;
  }

  -- The purge of the disk cache, which leaves the queue as it is where no committed row is an orphan.
  unfoldable pub purge_open : String → Option Tables → DiskCache → ℕ × DiskCache
  unfolding is_orphan keys_where maintain_removals remove_pending
  purge_open version none d = (0, d)
  purge_open version (some t) d =
      let orphan_keys = keys_where (is_orphan version) t.cache in
      if is_empty orphan_keys then (0, d) else (
        if w.committed then length orphan_keys else 0,
        record d {
          db = some (remove_rows_where w.committed (is_orphan version) t);
          pending_inserts =
              remove_pending (keys_where (is_orphan version) d.pending_inserts) d.pending_inserts;
        },
      )

  unfoldable pub purge_orphan_entries : String → ImportCache → ℕ × ImportCache
  unfolding purge_open remove_many
  purge_orphan_entries version c =
      let (removed, d) = purge_open version c.disk.db c.disk in
      (
        removed,
        record c {
          disk = d;
          memory = remove_many (keys_where (is_orphan version) c.memory) c.memory;
        },
      )

  -- The dirty keys whose insert fails again, and the disk after the others.
  unfoldable pub replay : ℕ → List String → Memory → DiskCache → List String × DiskCache
  unfolding insert_at_generation
  replay generation [] memory d = ([], d)
  replay generation (key ∷ dirty) memory d = elim (get key memory) [
    | none ↦ replay generation dirty memory d
    | some cached ↦
        let (ok, d') = insert_on_disk w key cached generation d in
        let (failed, d'') = replay generation dirty memory d' in
        (if ok then failed else key ∷ failed, d'')
  ]

  abbrev pub persisted : Bool → CachedImport → CachedImport
  persisted true cached = record cached { persisted_seq = cached.last_seq }
  persisted false cached = cached

  -- Whether each insert was `Ok`, the memory and the disk.
  unfoldable pub persist_promoted : ℕ → List String → Memory → DiskCache → Bool × Memory × DiskCache
  unfolding insert_at_generation
  persist_promoted generation failed [] d = (true, [], d)
  persist_promoted generation failed ((key, cached) ∷ memory) d =
      let promoted = not (contains key failed) && ltb cached.persisted_seq cached.last_seq in
      let inserted = insert_on_disk w key cached generation d in
      let (ok, memory', d') =
        persist_promoted generation failed memory (if promoted then inserted.1 else d) in
      (
        (if promoted then inserted.0 else true) && ok,
        (key, if promoted then persisted inserted.0 cached else cached) ∷ memory',
        d',
      )

  -- Whether the flush was `Ok`.
  unfoldable pub flush_to_disk : ImportCache → Bool × ImportCache
  unfolding replay persist_promoted flush_pending_inserts
  flush_to_disk c =
      let generation = c.disk.clear_generation in
      let (failed, d) = replay generation c.dirty c.memory c.disk in
      let (ok, memory, d') = persist_promoted generation failed c.memory d in
      (
        is_empty failed && ok,
        record c {
          memory = memory;
          disk = flush_pending_inserts w.committed w.now d';
          dirty = failed;
        },
      )

  unfoldable pub probe_freshness : String → ImportCache → Option Freshness
  unfolding check_now
  probe_freshness key c = elim (get key c.memory) [
    | none ↦ none
    | some cached ↦ some (check_now w cached.dependency_fingerprints)
  ]

-- The claims in flight; `begin_revalidation` says whether the caller has the claim.
unfoldable pub begin_revalidation : String → List String → Bool × List String
begin_revalidation claim_key inflight =
    if contains claim_key inflight then (false, inflight) else (true, claim_key ∷ inflight)

unfoldable pub finish_revalidation : String → List String → List String
finish_revalidation claim_key [] = []
finish_revalidation claim_key (key ∷ inflight) =
    let rest = finish_revalidation claim_key inflight in
    if contains claim_key (key ∷ []) then rest else key ∷ rest
