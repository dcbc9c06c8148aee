-- ===== src/Registry/Store/Written.antt =====
-- What a store of daemon/src/registry/cache.rs has after `write_entry`, whose batch flush may adopt a clear that
-- another daemon has recorded.
use import_lens.Prelude.{
  ℕ, suc, ◌≤◌, ◌<◌, ◌≡◌, ◌⊎◌, ◌==◌, inl, inr, refl, String, Bool, true, false, [], ◌∷◌, Option,
  none, some, ltb, leb, if◌then◌else◌, if_cases, get, insert, retain, contains_key, DistinctKeys,
  insert-DistinctKeys, arith, Bool-cases, text_dec,
}
use import_lens.Registry.Entry.{RegistryPackageMetadataEntry, Entries}
use import_lens.Registry.Store.{
  RegistrySnapshot, RegistryMetadataCache, Stored, load_snapshot, adopt_clear, persist_snapshot,
  write_snapshot, restore, flush, write_entry, registry_persist_batch,
}

abbrev kept_if :
    (String × RegistryPackageMetadataEntry → Bool)
    → String
    → Option RegistryPackageMetadataEntry
    → Option RegistryPackageMetadataEntry
kept_if p k none = none
kept_if p k (some e) = if p (k, e) then some e else none

get-retain_absent :
    (p : String × RegistryPackageMetadataEntry → Bool) (k : String) (m : Entries)
    → contains_key k m ≡ false
    → get k (retain p m) ≡ none
unfolding get contains_key
get-retain_absent p k [] h = refl
get-retain_absent p k ((j, v) ∷ m) h = ground (arith, h, get-retain_absent p k m)

get-retain :
    (p : String × RegistryPackageMetadataEntry → Bool) (k : String) (m : Entries)
    → DistinctKeys m
    → get k (retain p m) ≡ kept_if p k (get k m)
unfolding get
get-retain p k [] d = refl
get-retain p k ((j, v) ∷ m) d = elim (text_dec j k) [
  | yes same ↦ ground (arith, same, get-retain_absent p k m, d.0)
  | no other ↦ ground (arith, get-retain p k m d.1)
]

abbrev pub AtMost : ℕ → Option RegistryPackageMetadataEntry → Type 0
AtMost at none = Unit
AtMost at (some e) = e.updated_at ≤ at

-- A key has the entry that it had, or a clear at `at` that the store had not adopted has taken one that is
-- no later.
abbrev pub KeptOrCleared :
    RegistryMetadataCache
    → ℕ
    → Option RegistryPackageMetadataEntry
    → Option RegistryPackageMetadataEntry
    → Type 0
KeptOrCleared cache at before after =
    (after ≡ before) ⊎ ((after ≡ none) × (cache.cleared_at < at) × AtMost at before)

adopt_clear-kept :
    (k : String) (at : ℕ) (cache : RegistryMetadataCache)
    → DistinctKeys cache.entries
    → KeptOrCleared cache at (get k cache.entries) (get k (adopt_clear at cache).entries)
unfolding adopt_clear
adopt_clear-kept k at cache d =
    if_cases
      (λ (c : RegistryMetadataCache).
        KeptOrCleared cache at (get k cache.entries) (get k c.entries))
      (ltb cache.cleared_at at) _ _
      (λ newer.
        swept (get k cache.entries) newer
          (get-retain (λ e. ltb at (e.1.updated_at)) k cache.entries d))
      (λ _. inl refl)
  where
    swept :
        (o : Option RegistryPackageMetadataEntry)
        → ltb cache.cleared_at at ≡ true
        → {after : Option RegistryPackageMetadataEntry}
        → after ≡ kept_if (λ e. ltb at (e.1.updated_at)) k o
        → KeptOrCleared cache at o after
    swept none newer e = inl e
    swept (some x) newer e = elim (Bool-cases (ltb at x.updated_at)) [
      | inl later ↦ inl (ground (arith, e, later))
      | inr older ↦ inr (ground (arith, e, older), ground (arith, newer), ground (arith, older))
    ]

-- Whether the write goes through makes no difference to the entries.
restored-entries :
    (P : Entries → Type 0) (had : ℕ) (written : Bool) (cache : RegistryMetadataCache)
    (entries : Entries) (file : Option RegistrySnapshot)
    → P cache.entries
    → let r = write_snapshot written cache entries file in
      P (restore had (r.0, (cache, r.1))).1.0.entries
unfolding write_snapshot
restored-entries P had true cache entries file p = p
restored-entries P had false cache entries file p = p

-- After `write_entry` a key has the entry of the map with the one written, unless its batch flush reads a file
-- that records a clear which the store had not adopted, and which takes that entry.
pub write_entry-kept :
    (k : String) (written : Bool) (name : String) (entry : RegistryPackageMetadataEntry)
    (cache : RegistryMetadataCache) (read file : Option RegistrySnapshot)
    → DistinctKeys cache.entries
    → KeptOrCleared cache
        (load_snapshot read).cleared_at
        (get k (insert name entry cache.entries))
        (get k (write_entry written name entry cache read file).1.0.entries)
unfolding write_entry flush persist_snapshot
write_entry-kept k written name entry cache read file d =
    if_cases (λ (r : Stored). Kept r.1.0.entries)
      (leb registry_persist_batch (suc cache.unpersisted_writes)) _ _
      (λ _.
        if_cases (λ (r : Stored). Kept r.1.0.entries) (suc cache.unpersisted_writes == 0) _ _
          (λ _. inl refl) (λ _. restored-entries Kept _ written _ _ file adopted))
      (λ _. inl refl)
  where
    Kept : Entries → Type 0
    Kept m =
        KeptOrCleared cache (load_snapshot read).cleared_at
          (get k (insert name entry cache.entries)) (get k m)

    inserted : RegistryMetadataCache
    inserted = record cache { entries = insert name entry cache.entries; unpersisted_writes = 0 }

    adopted : Kept (adopt_clear (load_snapshot read).cleared_at inserted).entries
    adopted =
        adopt_clear-kept k (load_snapshot read).cleared_at inserted
          (insert-DistinctKeys name entry cache.entries d)

-- Where the file records no such clear, the key has the entry.
pub write_entry-get :
    (k : String) (written : Bool) (name : String) (entry : RegistryPackageMetadataEntry)
    (cache : RegistryMetadataCache) (read file : Option RegistrySnapshot)
    → DistinctKeys cache.entries
    → (load_snapshot read).cleared_at ≤ cache.cleared_at
    → get k (write_entry written name entry cache read file).1.0.entries
      ≡ get k (insert name entry cache.entries)
write_entry-get k written name entry cache read file d no_clear =
    elim (write_entry-kept k written name entry cache read file d) [
      | inl e ↦ e
      | inr (_, newer, _) ↦ absurd (omega (arith, no_clear, newer))
    ]
