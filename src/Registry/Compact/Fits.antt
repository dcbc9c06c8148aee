-- ===== src/Registry/Compact/Fits.antt =====
-- The maintenance of the registry store of daemon/src/registry/cache.rs fits the file to its limit.
use import_lens.Prelude.{
  ℕ, suc, ◌-◌, ◌≤◌, ◌<◌, ◌≡◌, ◌⊎◌, inl, inr, refl, String, List, [], ◌∷◌, map, Option, ltb, leb,
  ◌==◌, if_cases, remove, ite, text_dec, arith, Bool-cases, All, All-mono, In, here, there,
  not-In-nil,
}
use import_lens.Registry.Entry.{RegistryPackageMetadataEntry, Entries}
use import_lens.Registry.Compact.{
  comes_first, insert_sorted, sort_by_age, ordered_keys, footprint_of, evict_estimated, evict_exact,
  evict_oldest_over_budget, snapshot_bytes,
}
use import_lens.Registry.Store.{RegistrySnapshot}

abbrev keys_of : Entries → List String
keys_of m = map (λ e. e.0) m

In-insert_sorted :
    (k : String) (e : String × RegistryPackageMetadataEntry) (m : Entries)
    → (k ≡ e.0) ⊎ In k (keys_of m)
    → In k (keys_of (insert_sorted e m))
unfolding insert_sorted
In-insert_sorted k e [] (inl p) = here p
In-insert_sorted k e [] (inr i) = absurd (not-In-nil i)
In-insert_sorted k e (f ∷ m) h =
    if_cases (λ l. In k (keys_of l)) (comes_first e f) _ _
      (λ _. elim h [ inl p ↦ here p | inr i ↦ there i ]) (λ _. behind (In-insert_sorted k e m) h)
  where
    behind :
        ((k ≡ e.0) ⊎ In k (keys_of m) → In k (keys_of (insert_sorted e m)))
        → (k ≡ e.0) ⊎ In k (keys_of (f ∷ m))
        → In k (keys_of (f ∷ insert_sorted e m))
    behind ih (inl p) = there (ih (inl p))
    behind ih (inr (here p)) = here p
    behind ih (inr (there i)) = there (ih (inr i))

-- Every entry's key is in the order of eviction.
All-ordered_keys : (m : Entries) → All (λ e. In (e.0) (ordered_keys m)) m
unfolding ordered_keys sort_by_age
All-ordered_keys [] = tt
All-ordered_keys (e ∷ m) = (
  In-insert_sorted (e.0) e (sort_by_age m) (inl refl),
  All-mono _ _ (λ f i. In-insert_sorted (f.0) e (sort_by_age m) (inr i)) m (All-ordered_keys m),
)

remaining :
    (key : String) (ordered : List String) (m : Entries)
    → All (λ e. In (e.0) (key ∷ ordered)) m
    → All (λ e. In (e.0) ordered) (remove key m)
unfolding remove
remaining key ordered [] h = tt
remaining key ordered ((j, v) ∷ m) h =
    elim (text_dec j key)
      as (λ d. All (λ e. In (e.0) ordered) (ite d (remove key m) ((j, v) ∷ remove key m))) [
        | yes p ↦ remaining key ordered m h.1
        | no d ↦ (later d h.0, remaining key ordered m h.1)
      ]
  where
    later : ¬ (j ≡ key) → In j (key ∷ ordered) → In j ordered
    later d (here p) = absurd (d p)
    later d (there i) = i

-- The same where another key may be left.
remaining_behind :
    (k key : String) (ordered : List String) (m : Entries)
    → All (λ e. In (e.0) (k ∷ key ∷ ordered)) m
    → All (λ e. In (e.0) (k ∷ ordered)) (remove key m)
unfolding remove
remaining_behind k key ordered [] h = tt
remaining_behind k key ordered ((j, v) ∷ m) h =
    elim (text_dec j key)
      as (λ d. All (λ e. In (e.0) (k ∷ ordered)) (ite d (remove key m) ((j, v) ∷ remove key m))) [
        | yes p ↦ remaining_behind k key ordered m h.1
        | no d ↦ (later d h.0, remaining_behind k key ordered m h.1)
      ]
  where
    later : ¬ (j ≡ key) → In j (k ∷ key ∷ ordered) → In j (k ∷ ordered)
    later d (here p) = here p
    later d (there (here p)) = absurd (d p)
    later d (there (there i)) = there i

module _ (to_vec : RegistrySnapshot → Option (List ℕ))
    (entry_to_vec : RegistryPackageMetadataEntry → Option (List ℕ)) where
  -- The envelope of the entries fits the limit, or no entry of another package than one is left.
  abbrev pub Fits : ℕ → Entries → Type 0
  Fits max_bytes m =
      (snapshot_bytes to_vec entry_to_vec m ≤ max_bytes) ⊎ ((key : String) × All (λ e. e.0 ≡ key) m)

  -- The key that the `break` has taken may be left, and the keys that the iterator still has.
  estimated-Left :
      (max_bytes estimated evicted : ℕ) (m : Entries) (ordered : List String)
      → All (λ e. In (e.0) ordered) m
      → let r = evict_estimated to_vec entry_to_vec max_bytes estimated evicted m ordered in
        (key : String) × All (λ e. In (e.0) (key ∷ r.ordered)) r.entries
  unfolding evict_estimated
  estimated-Left max_bytes estimated evicted m [] h =
      ("", All-mono _ _ (λ e i. absurd (not-In-nil i)) m h)
  estimated-Left max_bytes estimated evicted m (key ∷ ordered) h =
      elim (Bool-cases (leb estimated max_bytes)) [
        | inl t ↦ rw (t, evict_estimated) (key, h)
        | inr f ↦
            rw (f, evict_estimated)
              (estimated-Left max_bytes (estimated - footprint_of to_vec entry_to_vec key m)
                (suc evicted) (remove key m) ordered (remaining key ordered m h))
      ]

  only_key :
      (key : String) (m : Entries) → All (λ e. In (e.0) (key ∷ [])) m → All (λ e. e.0 ≡ key) m
  only_key key m h = All-mono _ _ (λ e i. is i) m h
    where
      is : {j : String} → In j (key ∷ []) → j ≡ key
      is (here p) = p
      is (there i) = absurd (not-In-nil i)

  exact-Fits :
      (key : String) (max_bytes evicted : ℕ) (m : Entries) (ordered : List String)
      → All (λ e. In (e.0) (key ∷ ordered)) m
      → Fits max_bytes (evict_exact to_vec entry_to_vec max_bytes evicted m ordered).1
  unfolding evict_exact
  exact-Fits key max_bytes evicted m [] h = inr (key, only_key key m h)
  exact-Fits key max_bytes evicted m (next ∷ ordered) h =
      elim (Bool-cases (ltb max_bytes (snapshot_bytes to_vec entry_to_vec m))) [
        | inl over ↦
            rw (over, evict_exact)
              (exact-Fits key max_bytes (suc evicted) (remove next m) ordered
                (remaining_behind key next ordered m h))
        | inr fits ↦ rw (fits, evict_exact) (inl (ground (arith, fits)))
      ]

  -- With a limit that is not zero, whatever the serializer writes and however far the estimate is off, the
  -- store fits the limit after the eviction, or has the entry of one package at most.
  pub evict_oldest_over_budget-Fits :
      (m : Entries) (max_bytes : ℕ)
      → 0 < max_bytes
      → Fits max_bytes (evict_oldest_over_budget to_vec entry_to_vec m max_bytes).1
  unfolding evict_oldest_over_budget
  evict_oldest_over_budget-Fits m max_bytes pos =
      let bytes = snapshot_bytes to_vec entry_to_vec m in
      let left = estimated-Left max_bytes bytes 0 m (ordered_keys m) (All-ordered_keys m) in
      if_cases (λ (r : ℕ × Entries). Fits max_bytes (r.1)) (max_bytes == 0) _ _
        (λ z. absurd (ground arith))
        (λ _.
          if_cases (λ (r : ℕ × Entries). Fits max_bytes (r.1)) (leb bytes max_bytes) _ _
            (λ t. inl (ground arith)) (λ _. exact-Fits left.0 max_bytes _ _ _ left.1))
