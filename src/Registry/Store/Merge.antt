-- ===== src/Registry/Store/Merge.antt =====
-- `merge_newest` and the write of daemon/src/registry/cache.rs: a write of the shared file unites what the
-- daemon holds with the file that it read.
use import_lens.Prelude.{
  ℕ, max, arith, ◌≡◌, refl, ap, sym, subst, ◌∙◌, inl, inr, String, true, false, [], ◌∷◌, Option,
  none, some, leb, if◌then◌else◌, ite, text_dec, get, insert, get-insert_same, get-insert_other,
  contains_key, contains_key-get, Bool-cases, Option-cases, if_cases,
}
use import_lens.Registry.Entry.{RegistryPackageMetadataEntry, Entries}
use import_lens.Registry.Store.{
  RegistrySnapshot, RegistryMetadataCache, load_snapshot, adopt_clear, keep_ours, merge_newest,
  write_snapshot, persist_snapshot,
}

-- A map that has one entry for each of its keys.
abbrev pub DistinctKeys : Entries → Type 0
DistinctKeys [] = Unit
DistinctKeys ((key, _) ∷ rest) = (contains_key key rest ≡ false) × DistinctKeys rest

-- The entry with the later `updated_at`; ours, if they are as old.
abbrev pub newest :
    Option RegistryPackageMetadataEntry
    → Option RegistryPackageMetadataEntry
    → Option RegistryPackageMetadataEntry
newest none on_disk = on_disk
newest (some ours) none = some ours
newest (some ours) (some on_disk) =
    if leb on_disk.updated_at ours.updated_at then some ours else some on_disk

newest-none : (o : Option RegistryPackageMetadataEntry) → newest o none ≡ o
newest-none none = refl
newest-none (some e) = refl

get-absent : (k : String) (m : Entries) → contains_key k m ≡ false → get k m ≡ none
get-absent k m h = elim (Option-cases (get k m)) [
  | inl e ↦ e
  | inr (a, e) ↦ absurd (present (get k m) e (sym h ∙ contains_key-get k m))
]
  where
    present :
        (o : Option RegistryPackageMetadataEntry) {a : RegistryPackageMetadataEntry}
        → o ≡ some a
        → ¬ (false ≡ (elim o [ none ↦ false | some _ ↦ true ]))
    present none e q = cc
    present (some b) e q = cc

-- One entry of the disk, met with ours.
merge_one : (key : String) (e : RegistryPackageMetadataEntry) (ours : Entries) → Entries
merge_one key e ours = if keep_ours (get key ours) e then ours else insert key e ours

get-merge_one_same :
    (k : String) (e : RegistryPackageMetadataEntry) (ours : Entries)
    → get k (merge_one k e ours) ≡ newest (get k ours) (some e)
unfolding merge_one keep_ours
get-merge_one_same k e ours = elim (Option-cases (get k ours)) [
  | inl h ↦ rw (h, keep_ours) (get-insert_same k e ours)
  | inr (o, h) ↦ elim (Bool-cases (leb e.updated_at o.updated_at)) [
    | inl le ↦ rw (h, keep_ours) (rw le h)
    | inr gt ↦ rw (h, keep_ours) (rw gt (get-insert_same k e ours))
  ]
]

get-merge_one_other :
    (k key : String) (e : RegistryPackageMetadataEntry) (ours : Entries)
    → ¬ (key ≡ k)
    → get k (merge_one key e ours) ≡ get k ours
unfolding merge_one
get-merge_one_other k key e ours d =
    if_cases (λ m. get k m ≡ get k ours) (keep_ours (get key ours) e) ours (insert key e ours)
      (λ _. refl) (λ _. get-insert_other key k e ours d)

-- What a key reads after the merge: the newer of the two entries that it had.
pub get-merge_newest :
    (k : String) (ours on_disk : Entries)
    → DistinctKeys on_disk
    → get k (merge_newest ours on_disk) ≡ newest (get k ours) (get k on_disk)
unfolding merge_newest merge_one get
get-merge_newest k ours [] h = sym (newest-none (get k ours))
get-merge_newest k ours ((key, e) ∷ rest) h =
    elim (text_dec key k)
      as (λ d.
        get k (merge_newest (merge_one key e ours) rest)
        ≡ newest (get k ours) (ite d (some e) (get k rest))) [
          | yes same ↦
              get-merge_newest k (merge_one key e ours) rest h.1
              ∙ ap (newest (get k (merge_one key e ours)))
                  (get-absent k rest (subst (λ q. contains_key q rest ≡ false) same h.0))
              ∙ newest-none (get k (merge_one key e ours))
              ∙ subst (λ q. get k (merge_one q e ours) ≡ newest (get k ours) (some e)) (sym same)
                  (get-merge_one_same k e ours)
          | no d ↦
              get-merge_newest k (merge_one key e ours) rest h.1
              ∙ ap (λ o. newest o (get k rest)) (get-merge_one_other k key e ours d)
        ]

-- The clear that a store has adopted is the later one.
adopt_clear-max :
    (cache : RegistryMetadataCache) (at : ℕ)
    → (adopt_clear at cache).cleared_at ≡ max cache.cleared_at at
unfolding adopt_clear
adopt_clear-max cache at = ground arith

-- What the file is after a write that went through.
abbrev pub entries_of : Option RegistrySnapshot → Entries
entries_of file = (load_snapshot file).entries

-- A daemon's `persist_snapshot` that goes through puts a file in place that has, for each package, the newer
-- of the entry of the file that it read and the entry that the daemon holds once it has adopted a clear
-- which that file records, whatever the file that it replaces; and it records the later of the two clears.
pub persist_snapshot-newest :
    (k : String) (cache : RegistryMetadataCache) (read file : Option RegistrySnapshot)
    → DistinctKeys (entries_of read)
    → let after = (persist_snapshot true cache read file).1.1 in
      let ours = adopt_clear ((load_snapshot read).cleared_at) cache in
      (get k (entries_of after) ≡ newest (get k ours.entries) (get k (entries_of read)))
      × ((load_snapshot after).cleared_at ≡ max cache.cleared_at (load_snapshot read).cleared_at)
unfolding persist_snapshot write_snapshot load_snapshot
persist_snapshot-newest k cache read file h = (
  get-merge_newest k (adopt_clear ((load_snapshot read).cleared_at) cache).entries (entries_of read)
      h,
  adopt_clear-max cache (load_snapshot read).cleared_at,
)
