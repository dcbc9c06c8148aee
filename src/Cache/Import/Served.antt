-- ===== src/Cache/Import/Served.antt =====
-- daemon/src/cache/memory.rs: what the force-fresh reads of the `ImportCache` serve.
use import_lens.Prelude.{
  sym, All, ℕ, ◌≡◌, ◌⊎◌, inl, inr, refl, ap, ◌∙◌, String, Bool, true, false, ◌&&◌, List, Option,
  none, some, if_cases, get,
}
use import_lens.Cache.Fingerprint.Verdict.{check_fingerprints_strict-fresh_iff}
use import_lens.Cache.Fingerprint.{
  check_one, check_fingerprints_strict, fingerprints_are_reusable, Freshness, fresh, gone, stale,
  unknown,
}
use import_lens.Cache.Disk.{Tables}
use import_lens.Cache.Disk.Queue.{pending_insert}
use import_lens.Cache.Import.{
  check_now, key_is_first_party, ImportResult, CachedImport, ImportCache, evict, serve, StalePolicy,
  World, hit, promote_in, lookup_memory, serve_classified, fast_path,
}
use import_lens.Cache.Import.OnDisk.{
  get_entry, keep_found, keep_if_valid, find_entry, read_committed, accept_committed,
  decode_cached_result,
}
use import_lens.Cache.Disk.Queue.Drained.{committed_at}
use import_lens.Cache.Import.Reads.{
  lookup, lookup_disk, serve_hydrated, hydrate, stamped, accept, read, get_if_fresh,
  get_if_fresh_and_promote,
}

module _ (w : World) (key : String) (c : ImportCache) where
  -- An entry that is made of the bytes that the disk has of the key, queued or committed.
  abbrev pub OnDisk : CachedImport → Type 0
  OnDisk cached =
      (bytes : List ℕ) × ((pending_insert key c.disk ≡ some bytes)
        ⊎ (committed_at key c.disk.db ≡ some bytes))
      × ((decode_cached_result w bytes c).0 ≡ some cached)

  -- The entry that the memory, or else the disk, holds for the key.
  abbrev pub Held : CachedImport → Type 0
  Held cached = (get key c.memory ≡ some cached) ⊎ ((get key c.memory ≡ none) × OnDisk cached)

  -- The memory has no entry of the key, or one that does not check as fresh.
  abbrev pub Refused : Type 0
  Refused =
      (get key c.memory ≡ none)
      ⊎ ((found : CachedImport) × (get key c.memory ≡ some found)
          × ¬ (check_now w found.dependency_fingerprints ≡ fresh))

  abbrev is_fresh : Freshness → Bool
  is_fresh fresh = true
  is_fresh _ = false

  not_fresh : (f g : Freshness) → f ≡ g → is_fresh g ≡ false → ¬ (f ≡ fresh)
  not_fresh f g e h q = true_ne_false (sym (ap is_fresh q) ∙ ap is_fresh e ∙ h)
    where
      true_ne_false : true ≡ false → ⊥
      true_ne_false t = cc

  Held-Refused :
      (cached : CachedImport)
      → Held cached
      → ¬ (check_now w cached.dependency_fingerprints ≡ fresh)
      → Refused
  Held-Refused cached (inl e) n = inr (cached, e, n)
  Held-Refused cached (inr (absent, _)) n = inl absent

  -- A result that is a hit of the entry of the key, each of whose fingerprints checks as fresh.
  abbrev pub Verified : Option ImportResult → Type 0
  Verified none = Refused
  Verified (some result) =
      (cached : CachedImport) × Held cached
      × All (λ f. check_one w.metadata w.read_file w.hash f ≡ fresh) cached.dependency_fingerprints
      × (result ≡ hit cached)

  -- The verdict that comes with a result is the check's.
  abbrev Checked : Option (ImportResult × Freshness) → Type 0
  Checked none = Refused
  Checked (some (result, freshness)) =
      (cached : CachedImport) × Held cached
      × (check_now w cached.dependency_fingerprints ≡ freshness)
      × (result ≡ hit cached)

  serve_classified-Checked :
      (policy : StalePolicy) (freshness : Freshness) (found cached : CachedImport)
      (c' : ImportCache)
      → get key c.memory ≡ some found
      → check_now w found.dependency_fingerprints ≡ freshness
      → hit cached ≡ hit found
      → Checked (serve_classified w key policy false freshness cached c').0
  unfolding serve_classified
  serve_classified-Checked policy unknown found cached c' o e h = (found, inl o, e, h)
  serve_classified-Checked serve stale found cached c' o e h = (found, inl o, e, h)
  serve_classified-Checked evict stale found cached c' o e h =
      inr (found, o, not_fresh _ stale e refl)
  serve_classified-Checked policy gone found cached c' o e h =
      inr (found, o, not_fresh _ gone e refl)
  serve_classified-Checked policy fresh found cached c' o e h = (found, inl o, e, h)

  lookup_memory-Checked :
      (promote : Bool) (policy : StalePolicy) (found : CachedImport)
      → get key c.memory ≡ some found
      → Checked (lookup_memory w key promote true policy found c).0
  unfolding lookup_memory fast_path
  lookup_memory-Checked false policy found e =
      serve_classified-Checked policy _ found found _ e refl refl
  lookup_memory-Checked true policy found e =
      serve_classified-Checked policy _ found _ _ e refl refl

  abbrev Found : Option CachedImport → Type 0
  Found none = Unit
  Found (some cached) = OnDisk cached

  accept_committed-Found :
      (r : Option CachedImport × ImportCache) → Found r.0 → Found (accept_committed w key r).0
  unfolding accept_committed
  accept_committed-Found (none, c') h = tt
  accept_committed-Found (some cached, c') h =
      if_cases (λ (r : Option CachedImport × ImportCache). Found r.0)
        (cached.result.is_durable && fingerprints_are_reusable cached.dependency_fingerprints) _ _
        (λ _. h) (λ _. tt)

  decoded-Found :
      (bytes : List ℕ)
      → (pending_insert key c.disk ≡ some bytes) ⊎ (committed_at key c.disk.db ≡ some bytes)
      → Found (decode_cached_result w bytes c).0
  decoded-Found bytes at = go (decode_cached_result w bytes c).0 refl
    where
      go : (o : Option CachedImport) → (decode_cached_result w bytes c).0 ≡ o → Found o
      go none e = tt
      go (some cached) e = (bytes, at, e)

  read_committed-Found : Found (read_committed w key c).0
  unfolding read_committed
  read_committed-Found = by_tables c.disk.db refl
    where
      by_bytes :
          (o : Option (List ℕ))
          → committed_at key c.disk.db ≡ o
          → Found
              (elim o as (λ _. Option CachedImport × ImportCache) [
                | none ↦ (none, c)
                | some bytes ↦ accept_committed w key (decode_cached_result w bytes c)
              ]).0
      by_bytes none e = tt
      by_bytes (some bytes) e =
          accept_committed-Found (decode_cached_result w bytes c) (decoded-Found bytes (inr e))

      by_tables :
          (o : Option Tables)
          → c.disk.db ≡ o
          → Found
              (elim o as (λ _. Option CachedImport × ImportCache) [
                | none ↦ (none, c)
                | some t ↦ elim (get key t.cache) as (λ _. Option CachedImport × ImportCache) [
                  | none ↦ (none, c)
                  | some bytes ↦ accept_committed w key (decode_cached_result w bytes c)
                ]
              ]).0
      by_tables none e = tt
      by_tables (some t) e = by_bytes (get key t.cache) (ap (committed_at key) e)

  find_entry-Found : Found (find_entry w key c).0
  unfolding find_entry
  find_entry-Found = by_bytes (pending_insert key c.disk) refl
    where
      by_decoded :
          (bytes : List ℕ) (o : Option CachedImport)
          → Found o
          → Found
              (elim o as (λ _. Option CachedImport × ImportCache) [
                | none ↦ read_committed w key c
                | some cached ↦ (some cached, (decode_cached_result w bytes c).1)
              ]).0
      by_decoded bytes none h = read_committed-Found
      by_decoded bytes (some cached) h = h

      by_bytes :
          (o : Option (List ℕ))
          → pending_insert key c.disk ≡ o
          → Found
              (elim o as (λ _. Option CachedImport × ImportCache) [
                | none ↦ read_committed w key c
                | some bytes ↦
                    elim (decode_cached_result w bytes c).0
                      as (λ _. Option CachedImport × ImportCache) [
                        | none ↦ read_committed w key c
                        | some cached ↦ (some cached, (decode_cached_result w bytes c).1)
                      ]
              ]).0
      by_bytes none e = read_committed-Found
      by_bytes (some bytes) e =
          by_decoded bytes (decode_cached_result w bytes c).0 (decoded-Found bytes (inl e))

  -- What the disk gives is what it has of the key, but for the memo of a first-party key.
  abbrev Read : CachedImport → Freshness → Type 0
  Read cached freshness =
      (found : CachedImport) × OnDisk found
      × (check_now w found.dependency_fingerprints ≡ freshness)
      × (hit cached ≡ hit found)

  abbrev Kept : Option (CachedImport × Freshness) → Type 0
  Kept none = Unit
  Kept (some (cached, freshness)) = Read cached freshness

  keep_if_valid-Kept :
      (freshness : Freshness) (cached : CachedImport) (c' : ImportCache)
      → Read cached freshness
      → Kept (keep_if_valid w key freshness cached c').0
  unfolding keep_if_valid
  keep_if_valid-Kept stale cached c' r = tt
  keep_if_valid-Kept gone cached c' r = tt
  keep_if_valid-Kept fresh cached c' r = r
  keep_if_valid-Kept unknown cached c' r = r

  keep_found-Kept :
      (r : Option CachedImport × ImportCache) → Found r.0 → Kept (keep_found w key r).0
  unfolding keep_found
  keep_found-Kept (none, c') h = tt
  keep_found-Kept (some cached, c') h =
      keep_if_valid-Kept _ (record cached { first_party = key_is_first_party w key }) c'
        (cached, h, refl, refl)

  get_entry-Kept : Kept (get_entry w key c).0
  unfolding get_entry
  get_entry-Kept = keep_found-Kept (find_entry w key c) find_entry-Found

  promoted-same :
      (promote : Bool) (cached : CachedImport) (c' : ImportCache)
      → hit (promote_in w promote cached c').0 ≡ hit cached
  promoted-same false cached c' = refl
  promoted-same true cached c' = refl

  serve_hydrated-Checked :
      (promote : Bool) (generation : ℕ) (cached : CachedImport) (freshness : Freshness)
      (c' : ImportCache)
      → get key c.memory ≡ none
      → Read cached freshness
      → Checked (serve_hydrated w key promote true generation cached freshness c').0
  unfolding serve_hydrated hydrate
  serve_hydrated-Checked promote generation cached fresh c' n (found, o, e, h) =
      (found, inr (n, o), e, promoted-same promote (stamped w cached) _ ∙ h)
  serve_hydrated-Checked promote generation cached stale c' n r = inl n
  serve_hydrated-Checked promote generation cached gone c' n r = inl n
  serve_hydrated-Checked promote generation cached unknown c' n r = inl n

  lookup_disk-Checked :
      (promote : Bool) → get key c.memory ≡ none → Checked (lookup_disk w key promote true c).0
  unfolding lookup_disk
  lookup_disk-Checked promote n = go (get_entry w key c).0 get_entry-Kept
    where
      go :
          (o : Option (CachedImport × Freshness))
          → Kept o
          → Checked
              (elim o as (λ _. Option (ImportResult × Freshness) × ImportCache) [
                | none ↦ (none, (get_entry w key c).1)
                | some (cached, freshness) ↦
                    serve_hydrated w key promote true c.disk.clear_generation cached freshness
                      (get_entry w key c).1
              ]).0
      go none h = inl n
      go (some (cached, freshness)) h =
          serve_hydrated-Checked promote c.disk.clear_generation cached freshness _ n h

  lookup-Checked :
      (promote : Bool) (policy : StalePolicy) → Checked (lookup w key promote true policy c).0
  unfolding lookup
  lookup-Checked promote policy = go (get key c.memory) refl
    where
      go :
          (o : Option CachedImport)
          → get key c.memory ≡ o
          → Checked
              (elim o as (λ _. Option (ImportResult × Freshness) × ImportCache) [
                | none ↦ lookup_disk w key promote true c
                | some found ↦ lookup_memory w key promote true policy found c
              ]).0
      go none e = lookup_disk-Checked promote e
      go (some found) e = lookup_memory-Checked promote policy found e

  accept-Verified : (o : Option (ImportResult × Freshness)) → Checked o → Verified (accept w true o)
  unfolding check_now check_fingerprints_strict
  accept-Verified none h = h
  accept-Verified (some (result, fresh)) (cached, o, e, q) =
      let strict = check_fingerprints_strict-fresh_iff w.metadata w.read_file w.hash in
      (cached, o, (strict cached.dependency_fingerprints).0 e, q)
  accept-Verified (some (result, stale)) (cached, o, e, q) =
      Held-Refused cached o (not_fresh _ stale e refl)
  accept-Verified (some (result, gone)) (cached, o, e, q) =
      Held-Refused cached o (not_fresh _ gone e refl)
  accept-Verified (some (result, unknown)) (cached, o, e, q) =
      Held-Refused cached o (not_fresh _ unknown e refl)

  -- A force-fresh read, whether it promotes or not, gives a hit of the entry that the memory or else the disk
  -- holds for the key, each of whose fingerprints checks as fresh during the read; or it gives nothing, where
  -- the memory has no entry of the key or one that does not check as fresh.
  pub get_if_fresh-Verified :
      Verified (get_if_fresh w key c).0 × Verified (get_if_fresh_and_promote w key c).0
  unfolding get_if_fresh get_if_fresh_and_promote read
  get_if_fresh-Verified = (
    accept-Verified _ (lookup-Checked false evict),
    accept-Verified _ (lookup-Checked true evict),
  )
