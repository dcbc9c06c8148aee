-- ===== src/Registry/Store/Clear.antt =====
-- A clear of the shared file of daemon/src/registry/cache.rs sticks when sibling daemons write later.
use import_lens.Prelude.{
  ℕ, ◌<◌, ◌≡◌, refl, sym, subst, String, Bool, true, false, List, [], ◌∷◌, Option, ltb,
  if◌then◌else◌, if_cases, ite, text_dec, get, insert, remove, retain, Bool-cases, inl, inr, max,
  All, All-mono, ltb→lt, lt→ltb, ◌-◌, zero, suc, false, leb, ◌==◌, ◌⊎◌, none, some, arith,
}
use import_lens.Registry.Entry.{RegistryPackageMetadataEntry, Entries}
use import_lens.Registry.Store.{
  RegistrySnapshot, RegistryMetadataCache, load_snapshot, adopt_clear, keep_ours, merge_newest,
  write_snapshot, persist_snapshot, clear, prune_expired_entries,
}
use import_lens.Registry.Compact.{
  snapshot_bytes, footprint_of, ordered_keys, evict_estimated, evict_exact,
  evict_oldest_over_budget, evict_if_capped, compact_authoritatively,
}

module _ (P : String × RegistryPackageMetadataEntry → Type 0) where
  All-remove : (k : String) (m : Entries) → All P m → All P (remove k m)
  unfolding remove
  All-remove k [] h = tt
  All-remove k ((j, v) ∷ m) h =
      elim (text_dec j k) as (λ d. All P (ite d (remove k m) ((j, v) ∷ remove k m))) [
        | yes _ ↦ All-remove k m h.1
        | no _ ↦ (h.0, All-remove k m h.1)
      ]

  All-merge_newest :
      (ours on_disk : Entries) → All P ours → All P on_disk → All P (merge_newest ours on_disk)
  unfolding merge_newest insert
  All-merge_newest ours [] ho hd = ho
  All-merge_newest ours ((key, e) ∷ rest) ho hd =
      All-merge_newest (if keep_ours (get key ours) e then ours else insert key e ours) rest
        (if_cases (All P) (keep_ours (get key ours) e) ours (insert key e ours) (λ _. ho)
          (λ _. (hd.0, All-remove key ours ho)))
        hd.1

All-retain :
    (p : String × RegistryPackageMetadataEntry → Bool) (m : Entries)
    → All (λ e. p e ≡ true) (retain p m)
All-retain p [] = tt
All-retain p (e ∷ m) = elim (Bool-cases (p e)) [
  | inl h ↦ rw h (h, All-retain p m)
  | inr h ↦ rw h (All-retain p m)
]

module _ (P : String × RegistryPackageMetadataEntry → Type 0) where
  All-retain_kept :
      (p : String × RegistryPackageMetadataEntry → Bool) (m : Entries)
      → All P m
      → All P (retain p m)
  All-retain_kept p [] h = tt
  All-retain_kept p (e ∷ m) h = elim (Bool-cases (p e)) [
    | inl k ↦ rw k (h.0, All-retain_kept p m h.1)
    | inr k ↦ rw k (All-retain_kept p m h.1)
  ]

  -- The maintenance only drops entries.
  module _ (to_vec : RegistrySnapshot → Option (List ℕ))
      (entry_to_vec : RegistryPackageMetadataEntry → Option (List ℕ)) where
    All-evict_estimated :
        (max_bytes estimated evicted : ℕ) (m : Entries) (ordered : List String)
        → All P m
        → All P (evict_estimated to_vec entry_to_vec max_bytes estimated evicted m ordered).entries
    unfolding evict_estimated
    All-evict_estimated max_bytes estimated evicted m [] h = h
    All-evict_estimated max_bytes estimated evicted m (key ∷ ordered) h =
        elim (Bool-cases (leb estimated max_bytes)) [
          | inl t ↦ rw (t, evict_estimated) h
          | inr f ↦
              rw (f, evict_estimated)
                (All-evict_estimated max_bytes (estimated - footprint_of to_vec entry_to_vec key m)
                  (suc evicted) (remove key m) ordered (All-remove P key m h))
        ]

    All-evict_exact :
        (max_bytes evicted : ℕ) (m : Entries) (ordered : List String)
        → All P m
        → All P (evict_exact to_vec entry_to_vec max_bytes evicted m ordered).1
    unfolding evict_exact
    All-evict_exact max_bytes evicted m [] h = h
    All-evict_exact max_bytes evicted m (key ∷ ordered) h =
        elim (Bool-cases (ltb max_bytes (snapshot_bytes to_vec entry_to_vec m))) [
          | inl over ↦
              rw (over, evict_exact)
                (All-evict_exact max_bytes (suc evicted) (remove key m) ordered
                  (All-remove P key m h))
          | inr fits ↦ rw (fits, evict_exact) h
        ]

    All-evict_if_capped :
        (max_bytes : Option ℕ) (r : ℕ × Entries)
        → All P r.1
        → All P (evict_if_capped to_vec entry_to_vec max_bytes r).1
    unfolding evict_oldest_over_budget
    All-evict_if_capped none r h = h
    All-evict_if_capped (some max_bytes) (removed, m) h =
        if_cases (λ (r : ℕ × Entries). All P r.1) (max_bytes == 0) _ _ (λ _. h)
          (λ _.
            if_cases (λ (r : ℕ × Entries). All P r.1)
              (leb (snapshot_bytes to_vec entry_to_vec m) max_bytes) _ _ (λ _. h)
              (λ _.
                All-evict_exact max_bytes _ _ _
                  (All-evict_estimated max_bytes _ 0 m (ordered_keys m) h)))

-- No entry of the file is as old as the clear that it records.
abbrev pub Swept : ℕ → Option RegistrySnapshot → Type 0
Swept cleared_at file =
    ((load_snapshot file).cleared_at ≡ cleared_at)
    × All (λ e. cleared_at < e.1.updated_at) ((load_snapshot file).entries)

-- The store has not heard of the clear, or has adopted it and has only later entries.
abbrev pub Behind : ℕ → RegistryMetadataCache → Type 0
Behind at cache =
    (cache.cleared_at < at)
    ⊎ ((cache.cleared_at ≡ at) × All (λ e. at < e.1.updated_at) cache.entries)

adopt_clear-Swept :
    (cache : RegistryMetadataCache) (at : ℕ)
    → Behind at cache
    → ((adopt_clear at cache).cleared_at ≡ at)
      × All (λ e. at < e.1.updated_at) (adopt_clear at cache).entries
unfolding adopt_clear
adopt_clear-Swept cache at (inl h) = rw (lt→ltb cache.cleared_at at h) (
  refl,
  All-mono _ _ (λ e q. ltb→lt at (e.1.updated_at) q)
      (retain (λ e. ltb at (e.1.updated_at)) cache.entries)
      (All-retain (λ e. ltb at (e.1.updated_at)) cache.entries),
)
adopt_clear-Swept cache at (inr (same, later)) =
    let not_older : ltb cache.cleared_at at ≡ false = ground (arith, same) in
    rw not_older (same, later)

-- A write of the file by another daemon: the union of `persist_snapshot`, or the maintenance. `seen` says
-- which version of the file it has read, counted back from the one that it replaces.
pub data SiblingWrite : Type 0 where
  merges : (written : Bool) (seen : ℕ) → RegistryMetadataCache → SiblingWrite
  compacts :
      (written : Bool) (seen now retention_ms : ℕ)
      → (max_bytes : Option ℕ) → RegistryMetadataCache
      → SiblingWrite

abbrev pub store_of : SiblingWrite → RegistryMetadataCache
store_of (merges written seen cache) = cache
store_of (compacts written seen now retention_ms max_bytes cache) = cache

abbrev pub seen_by : SiblingWrite → ℕ
seen_by (merges written seen cache) = seen
seen_by (compacts written seen now retention_ms max_bytes cache) = seen

-- A version of the file: the current one, or one of the older ones.
unfoldable pub version_at :
    ℕ → Option RegistrySnapshot → List (Option RegistrySnapshot) → Option RegistrySnapshot
version_at zero file older = file
version_at (suc n) file [] = file
version_at (suc n) file (f ∷ older) = version_at n f older

version_at-All :
    (P : Option RegistrySnapshot → Type 0) (n : ℕ) (file : Option RegistrySnapshot)
    (older : List (Option RegistrySnapshot))
    → P file
    → All P older
    → P (version_at n file older)
unfolding version_at
version_at-All P zero file older p all = p
version_at-All P (suc n) file [] p all = p
version_at-All P (suc n) file (f ∷ older) p all = version_at-All P n f older all.0 all.1

module _ (to_vec : RegistrySnapshot → Option (List ℕ))
    (entry_to_vec : RegistryPackageMetadataEntry → Option (List ℕ)) where
  unfoldable pub sibling_write :
      SiblingWrite → (read file : Option RegistrySnapshot) → Option RegistrySnapshot
  unfolding persist_snapshot compact_authoritatively
  sibling_write (merges written seen cache) read file =
      (persist_snapshot written cache read file).1.1
  sibling_write (compacts written seen now retention_ms max_bytes cache) read file =
      (compact_authoritatively to_vec entry_to_vec written now retention_ms max_bytes cache read
        file).1.1

  -- The writes of other daemons, one after the other, over the versions that the file has had.
  unfoldable pub sibling_writes :
      List SiblingWrite
      → Option RegistrySnapshot
      → List (Option RegistrySnapshot)
      → Option RegistrySnapshot
  unfolding sibling_write version_at
  sibling_writes [] file older = file
  sibling_writes (w ∷ ws) file older =
      sibling_writes ws (sibling_write w (version_at (seen_by w) file older) file) (file ∷ older)

  sibling_write-Swept :
      (w : SiblingWrite) (at : ℕ) (read file : Option RegistrySnapshot)
      → Behind at (store_of w)
      → Swept at read
      → Swept at file
      → Swept at (sibling_write w read file)
  unfolding sibling_write persist_snapshot compact_authoritatively write_snapshot load_snapshot
      prune_expired_entries
  sibling_write-Swept (merges false seen cache) at read file h r s = s
  sibling_write-Swept (compacts false seen now retention_ms max_bytes cache) at read file h r s = s
  sibling_write-Swept (merges true seen cache) at read file h r s =
      let P : String × RegistryPackageMetadataEntry → Type 0 = λ e. at < e.1.updated_at in
      subst
        (λ n.
          ((adopt_clear n cache).cleared_at ≡ at)
          × All P (merge_newest (adopt_clear n cache).entries ((load_snapshot read).entries)))
        (sym r.0)
        (
          (adopt_clear-Swept cache at h).0,
          All-merge_newest P (adopt_clear at cache).entries ((load_snapshot read).entries)
              (adopt_clear-Swept cache at h).1 r.1,
        )
  sibling_write-Swept (compacts true seen now retention_ms max_bytes cache) at read file h r s =
      let P : String × RegistryPackageMetadataEntry → Type 0 = λ e. at < e.1.updated_at in
      subst
        (λ n.
          ((adopt_clear n cache).cleared_at ≡ at)
          × All P
              (evict_if_capped to_vec entry_to_vec max_bytes (
                prune_expired_entries now retention_ms
                  (merge_newest (adopt_clear n cache).entries ((load_snapshot read).entries)))).1)
        (sym r.0)
        (
          (adopt_clear-Swept cache at h).0,
          All-evict_if_capped P to_vec entry_to_vec max_bytes _ (
              All-retain_kept P _ _ (
                All-merge_newest P (adopt_clear at cache).entries ((load_snapshot read).entries)
                  (adopt_clear-Swept cache at h).1 r.1)),
        )

  sibling_writes-Swept :
      (ws : List SiblingWrite) (at : ℕ) (file : Option RegistrySnapshot)
      (older : List (Option RegistrySnapshot))
      → All (λ w. Behind at (store_of w)) ws
      → Swept at file
      → All (Swept at) older
      → Swept at (sibling_writes ws file older)
  unfolding sibling_writes
  sibling_writes-Swept [] at file older h s all = s
  sibling_writes-Swept (w ∷ ws) at file older h s all =
      sibling_writes-Swept ws at _ (file ∷ older) h.1
        (sibling_write-Swept w at _ file h.0
          (version_at-All (Swept at) (seen_by w) file older s all) s)
        (s, all)

  -- A clear whose write of the file went through empties the store, and after any number of writes by other
  -- daemons, merging or maintaining, each of which has read any version that the file has had since the
  -- clear, the file has no entry as old as the clear, and still records it. The stores of the other daemons
  -- have not heard of the clear, whatever their entries, or have adopted it and hold only later entries. A
  -- daemon that read the file before the clear and renames its own into place after it is not covered.
  pub clear-sticks :
      (now : ℕ) (cache : RegistryMetadataCache) (file : Option RegistrySnapshot)
      (siblings : List SiblingWrite)
      → All (λ w. Behind (max cache.cleared_at now) (store_of w)) siblings
      → let cleared = clear true now cache file in
        (cleared.1.0.entries ≡ [])
        × Swept (max cache.cleared_at now) (sibling_writes siblings cleared.1.1 [])
  unfolding clear write_snapshot load_snapshot
  clear-sticks now cache file siblings h =
      (refl, sibling_writes-Swept siblings (max cache.cleared_at now) _ [] h (refl, tt) tt)
