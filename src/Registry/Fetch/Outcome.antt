-- ===== src/Registry/Fetch/Outcome.antt =====
-- What a fetch of daemon/src/registry/service.rs leaves in the store, and for how long it is enough.
use import_lens.Prelude.{
  ℕ, zero, suc, ◌+◌, ◌≤◌, ◌<◌, ◌≡◌, ◌⊎◌, inl, inr, refl, ap, sym, subst, Bool, true, false, Option,
  none, some, String, arith, Bool-cases, get, get-insert_same, get-insert_other, saturating_add,
  if_cases, ◌==◌, DistinctKeys, ◌∙◌,
}
use import_lens.Registry.Entry.{RegistryPackageMetadataEntry, RegistryError, message}
use import_lens.Registry.RateLimiter.{registry_max_backoff_ms}
use import_lens.Registry.Store.{
  RegistrySnapshot, RegistryMetadataCache, load_snapshot, write_entry, is_open,
}
use import_lens.Registry.Store.Written.{KeptOrCleared, write_entry-kept, write_entry-get}
use import_lens.Registry.Lookup.{
  refresh_stale, cached_lookup_from_entry, is_usable_without_fetch, not_found_ttl_ms,
  fresh_hint_ttl_ms,
}
use import_lens.Registry.Lookup.Network.{NeedsFetch, cached_lookup-none_iff}
use import_lens.Registry.Fetch.{
  Fetched, Parsed, Ended, fetched, is_missing, limited, gave_up, attempt_once, retries,
  run_attempts, entry_of_end, fetch_package_with_retries, failed_entry_from_cache, metadata_of,
  updated_at_of, transient_error_retry_ms,
}

module _ (client : ℕ → Fetched) (parse : String → Parsed) where
  outcome_at : ℕ → Ended
  outcome_at n = attempt_once client parse n (client n)

  -- The attempt that decides: the first one that is not retried, or the last one.
  abbrev pub Decides : ℕ → ℕ → ℕ → Ended → Type 0
  Decides attempt left k ended =
      (k ≤ left)
      × (ended ≡ attempt_once client parse (attempt + k) (client (attempt + k)))
      × ((j : ℕ) → j < k → retries client parse (client (attempt + j)) ≡ true)
      × ((k ≡ left) ⊎ (retries client parse (client (attempt + k)) ≡ false))

  -- The loop ends as the attempt ends that decides: every attempt before it may be retried, and it may
  -- not, or it is the last one that is allowed.
  pub run_attempts-Decides :
      (left attempt : ℕ) → (k : ℕ) × Decides attempt left k (run_attempts client parse attempt left)
  unfolding run_attempts outcome_at
  run_attempts-Decides zero attempt =
      (0, (omega arith, ap outcome_at (omega arith), λ j h. absurd (omega arith), inl refl))
  run_attempts-Decides (suc left) attempt =
      elim (Bool-cases (retries client parse (client attempt))) [
        | inl again ↦
            let (k, (le, e, before, last)) = run_attempts-Decides left (suc attempt) in
            let same : suc attempt + k ≡ attempt + suc k = omega arith in
            (
              suc k,
              (
                omega arith,
                rw again (
                    subst
                      (λ n.
                        run_attempts client parse (suc attempt) left
                        ≡ attempt_once client parse n (client n))
                      same e),
                every attempt k again before,
                later left attempt k
                    (subst (λ n. (k ≡ left) ⊎ (retries client parse (client n) ≡ false)) same last),
              ),
            )
        | inr final ↦ (
          0,
          (
            omega arith,
            rw final (ap outcome_at (omega arith)),
            λ j h. absurd (omega arith),
            inr (subst (λ n. retries client parse (client n) ≡ false) (omega arith) final),
          ),
        )
      ]
    where
      every :
          (attempt k : ℕ)
          → retries client parse (client attempt) ≡ true
          → ((j : ℕ) → j < k → retries client parse (client (suc attempt + j)) ≡ true)
          → (j : ℕ) → j < suc k
          → retries client parse (client (attempt + j)) ≡ true
      every attempt k again before zero h =
          subst (λ n. retries client parse (client n) ≡ true) (omega arith) again
      every attempt k again before (suc j) h =
          subst (λ n. retries client parse (client n) ≡ true) (omega arith) (before j (omega arith))

      later :
          (left attempt k : ℕ)
          → (k ≡ left) ⊎ (retries client parse (client (attempt + suc k)) ≡ false)
          → (suc k ≡ suc left) ⊎ (retries client parse (client (attempt + suc k)) ≡ false)
      later left attempt k (inl e) = inl (omega arith)
      later left attempt k (inr e) = inr e

-- What is known of a package after a fetch: it was answered, or what was known before is kept, with a
-- time to ask again that is at most six hours away.
abbrev pub Answered : ℕ → RegistryPackageMetadataEntry → Type 0
Answered now entry = (entry.error ≡ none) × (entry.updated_at ≡ now) × (entry.retry_after ≡ none)

abbrev pub KeepsKnown :
    ℕ → Option RegistryPackageMetadataEntry → RegistryPackageMetadataEntry → Type 0
KeepsKnown now before entry =
    (entry.metadata ≡ metadata_of before)
    × (entry.updated_at ≡ updated_at_of before)
    × ((r : ℕ) × (entry.retry_after ≡ some r) × (r ≤ now + not_found_ttl_ms))

-- The delay of an end of the loop is capped, as `run_attempts` makes it.
Capped : Ended → Type 0
Capped (fetched metadata) = Unit
Capped is_missing = Unit
Capped (limited delay) = delay ≤ registry_max_backoff_ms
Capped (gave_up permanent error) = Unit

module _ (client : ℕ → Fetched) (parse : String → Parsed) where
  attempt_once-Capped : (attempt : ℕ) (f : Fetched) → Capped (attempt_once client parse attempt f)
  unfolding attempt_once Capped
  attempt_once-Capped attempt (Fetched.failed error) = tt
  attempt_once-Capped attempt (Fetched.response status retry_after body) =
      if_cases Capped (status == 200) _ _
        (λ _.
          elim (parse body)
            as (λ p. Capped (elim p [
              | Parsed.parsed metadata ↦ fetched metadata
              | Parsed.malformed error ↦ gave_up false (message error)
            ])) [ Parsed.parsed metadata ↦ tt | Parsed.malformed error ↦ tt ])
        (λ _.
          if_cases Capped (status == 404) _ _ (λ _. tt)
            (λ _. if_cases Capped (status == 429) _ _ (λ _. omega arith) (λ _. tt)))

  run_attempts-Capped : (left attempt : ℕ) → Capped (run_attempts client parse attempt left)
  run_attempts-Capped left attempt =
      let (k, (le, e, before, last)) = run_attempts-Decides client parse left attempt in
      subst Capped (sym e) (attempt_once-Capped (attempt + k) (client (attempt + k)))

  entry_of_end-cases :
      (before : Option RegistryPackageMetadataEntry) (now : ℕ) (ended : Ended)
      → Capped ended
      → Answered now (entry_of_end client parse before now ended)
        ⊎ KeepsKnown now before (entry_of_end client parse before now ended)
  unfolding entry_of_end failed_entry_from_cache Capped
  entry_of_end-cases before now (fetched metadata) h = inl (refl, refl, refl)
  entry_of_end-cases before now is_missing h = inl (refl, refl, refl)
  entry_of_end-cases before now (limited delay) h = inr (refl, refl, (_, refl, ground arith))
  entry_of_end-cases before now (gave_up true error) h = inr (refl, refl, (_, refl, ground arith))
  entry_of_end-cases before now (gave_up false error) h = inr (refl, refl, (_, refl, ground arith))

  -- A fetch, whether or not its write of the file goes through. In the store its package then has the entry
  -- that is returned and every other package the one it had, unless the flush of a full batch has read a file
  -- that records a clear which the store had not adopted, and which takes that entry: it is then gone. Either
  -- the registry answered, and the entry has the time of the fetch and no error; or the metadata that was
  -- known, and its age, are kept, and the time to ask again is at most six hours away, whatever delay a
  -- response asked for.
  pub fetch-outcome :
      (written manual : Bool) (clock : ℕ → ℕ × ℕ) (name other : String) (now : ℕ)
      (cache : RegistryMetadataCache) (read file : Option RegistrySnapshot)
      → DistinctKeys cache.entries
      → ¬ (name ≡ other)
      → let r =
          fetch_package_with_retries client parse written manual clock name now cache read file in
        KeptOrCleared cache
          (load_snapshot read).cleared_at
          (some r.entry)
          (get name r.cache.entries)
        × KeptOrCleared cache
            (load_snapshot read).cleared_at
            (get other cache.entries)
            (get other r.cache.entries)
        × (Answered now r.entry ⊎ KeepsKnown now (get name cache.entries) r.entry)
  unfolding fetch_package_with_retries
  fetch-outcome written manual clock name other now cache read file d apart =
      let entry =
        entry_of_end client parse (get name cache.entries) now (run_attempts client parse 1 2) in
      let kept : (k : String) → _ = λ k. write_entry-kept k written name entry cache read file d in
      (
        subst
            (λ o.
              KeptOrCleared cache (load_snapshot read).cleared_at o
                (get name (write_entry written name entry cache read file).1.0.entries))
            (get-insert_same name entry cache.entries) (kept name),
        subst
            (λ o.
              KeptOrCleared cache (load_snapshot read).cleared_at o
                (get other (write_entry written name entry cache read file).1.0.entries))
            (get-insert_other name other entry cache.entries apart) (kept other),
        entry_of_end-cases (get name cache.entries) now (run_attempts client parse 1 2)
            (run_attempts-Capped 2 1),
      )

  -- Where the file that its flush may read records no clear that the store has not adopted, the store has
  -- the entry that a fetch returns.
  pub fetch-stored :
      (written manual : Bool) (clock : ℕ → ℕ × ℕ) (name : String) (now : ℕ)
      (cache : RegistryMetadataCache) (read file : Option RegistrySnapshot)
      → DistinctKeys cache.entries
      → (load_snapshot read).cleared_at ≤ cache.cleared_at
      → let r =
          fetch_package_with_retries client parse written manual clock name now cache read file in
        get name r.cache.entries ≡ some r.entry
  unfolding fetch_package_with_retries
  fetch-stored written manual clock name now cache read file d no_clear =
      write_entry-get name written name _ cache read file d no_clear
      ∙ get-insert_same name _ cache.entries

  -- Until when a background refresh leaves the registry alone, by how the fetch ended.
  abbrev pub quiet_until : ℕ → Ended → ℕ
  quiet_until now (fetched metadata) = now + fresh_hint_ttl_ms
  quiet_until now is_missing = now + not_found_ttl_ms
  quiet_until now (limited delay) = saturating_add now delay
  quiet_until now (gave_up true error) = now + not_found_ttl_ms
  quiet_until now (gave_up false error) = now + transient_error_retry_ms

  open_entry :
      (before : Option RegistryPackageMetadataEntry) (error : RegistryError) (until later : ℕ)
      → later < until
      → is_open later (failed_entry_from_cache before error until).retry_after ≡ true
  unfolding is_open failed_entry_from_cache
  open_entry before error until later h = ground arith

  quiet :
      (before : Option RegistryPackageMetadataEntry) (version : Option String) (now later : ℕ)
      (cooldown : Bool) (ended : Ended)
      → later < quiet_until now ended
      → ¬ NeedsFetch
          (some (entry_of_end client parse before now ended))
          refresh_stale
          later
          cooldown
  unfolding entry_of_end is_usable_without_fetch is_open failed_entry_from_cache
  quiet before version now later cooldown (fetched metadata) h n = n (inl (ground arith))
  quiet before version now later cooldown is_missing h n = n (inl (ground arith))
  quiet before version now later cooldown (limited delay) h n = n (inr (ground arith))
  quiet before version now later cooldown (gave_up true error) h n = n (inr (ground arith))
  quiet before version now later cooldown (gave_up false error) h n = n (inr (ground arith))

  -- After a fetch, a lookup in refresh-stale mode is answered from the store without the network: for
  -- six hours if the registry answered or the failure is permanent, for the delay that it asked for if
  -- it limited the rate, and for five minutes after any other failure. The file that the write of the fetch
  -- may read records no clear that the store has not adopted.
  pub fetch-then-lookup :
      (written manual : Bool) (clock : ℕ → ℕ × ℕ) (name : String) (version : Option String)
      (now later : ℕ) (cooldown : Bool) (cache : RegistryMetadataCache)
      (read file : Option RegistrySnapshot)
      → DistinctKeys cache.entries
      → (load_snapshot read).cleared_at ≤ cache.cleared_at
      → later < quiet_until now (run_attempts client parse 1 2)
      → let r =
          fetch_package_with_retries client parse written manual clock name now cache read file in
        ¬ (
          cached_lookup_from_entry (get name r.cache.entries) version refresh_stale later cooldown
          ≡ none)
  unfolding fetch_package_with_retries
  fetch-then-lookup written manual clock name version now later cooldown cache read file d no_clear
        h =
      subst (λ o. ¬ (cached_lookup_from_entry o version refresh_stale later cooldown ≡ none))
        (sym (fetch-stored written manual clock name now cache read file d no_clear))
        (λ e.
          quiet (get name cache.entries) version now later cooldown _ h
            ((cached_lookup-none_iff (some _) version refresh_stale later cooldown).0 e))
