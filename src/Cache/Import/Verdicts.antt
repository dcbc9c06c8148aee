-- ===== src/Cache/Import/Verdicts.antt =====
-- daemon/src/cache/memory.rs: the stale-while-revalidate read of an entry in memory, by the verdict on it.
use import_lens.Prelude.{
  ◌≡◌, refl, sym, ap, ◌∙◌, String, Bool, true, false, not, List, Option, none, some, ==_iff,
  if◌then◌else◌, if_cases, get, insert, subst, contains_key, contains_key-insert,
  contains_key-remove, get-insert_same, arith,
}
use import_lens.Cache.Fingerprint.{Freshness, fresh, gone, stale, unknown}
use import_lens.Cache.Memory.{ResultFreshness, UnknownRetry, record_unknown, stale as stale_result}
use import_lens.Cache.Import.{
  check_now, ImportResult, CachedImport, ImportCache, serve, World, result_fresh, hit, promote_in,
  lookup_memory, serve_classified, fast_path, forget_unknown, evict_if_current, remove_from_disk,
  remove_from_memory_if_current,
}
use import_lens.Cache.Import.Reads.{
  lookup, lookup_disk, report, served, stamped, get_with_result_freshness,
}

module _ (w : World) where
  -- What the read answers for an entry, by the verdict.
  pub answer :
      String
      → Freshness
      → CachedImport
      → List (String × UnknownRetry)
      → Option (ImportResult × ResultFreshness)
  answer key fresh cached retries = some (served w result_fresh (hit cached))
  answer key stale cached retries = some (served w (stale_result true) (hit cached))
  answer key gone cached retries = none
  answer key unknown cached retries =
      some (served w (record_unknown w.since_epoch key retries).0 (hit cached))

  abbrev pub takes_away : Freshness → Bool
  takes_away gone = true
  takes_away _ = false

  -- The fast path counts as fresh.
  pub verdict : CachedImport → Freshness
  verdict cached =
      if fast_path w false cached then fresh else check_now w cached.dependency_fingerprints

  abbrev Answered :
      String
      → Freshness
      → CachedImport
      → List (String × UnknownRetry)
      → Option (ImportResult × ResultFreshness) × ImportCache
      → Type 0
  Answered key f cached retries r =
      (r.0 ≡ answer key f cached retries) × (contains_key key r.1.memory ≡ not (takes_away f))

  present :
      (key : String) (cached : CachedImport) (c : ImportCache)
      → contains_key key (insert key cached c.memory) ≡ true
  present key cached c = ground (arith, contains_key-insert key key cached c.memory)

  absent_after :
      (key : String) (cached : CachedImport) (c : ImportCache)
      → get key c.memory ≡ some cached
      → contains_key key (evict_if_current w key cached.identity c).memory ≡ false
  unfolding evict_if_current remove_from_memory_if_current remove_from_disk
  absent_after key cached c e =
      rw (e, (==_iff cached.identity cached.identity).1 refl)
        (ground (arith, contains_key-remove key key c.memory))

  classified :
      (key : String) (fast : Bool) (f : Freshness) (cached : CachedImport) (c : ImportCache)
      → get key c.memory ≡ some cached
      → contains_key key c.memory ≡ true
      → Answered key f cached c.unknown_retry
          (let r = serve_classified w key serve fast f cached c in report w key r.0 r.1)
  unfolding serve_classified report forget_unknown answer
  classified key fast unknown cached c e h = (refl, h)
  classified key fast stale cached c e h = (refl, h)
  classified key fast gone cached c e h = (refl, absent_after key cached (forget_unknown key c) e)
  classified key true fresh cached c e h = (refl, h)
  classified key false fresh cached c e h = (
    refl,
    if_cases (λ (r : ImportCache). contains_key key r.memory ≡ true) cached.first_party _ _ (λ _. h)
        (λ _. present key (stamped w cached) c),
  )

  lookup-memory :
      (key : String) (found : CachedImport) (c : ImportCache)
      → get key c.memory ≡ some found
      → lookup w key true false serve c ≡ lookup_memory w key true false serve found c
  unfolding lookup
  lookup-memory key found c e =
      ap
        (λ o. elim o as (λ _. Option (ImportResult × Freshness) × ImportCache) [
          | none ↦ lookup_disk w key true false c
          | some found ↦ lookup_memory w key true false serve found c
        ])
        e

  answer-promoted :
      (key : String) (f : Freshness) (found : CachedImport) (c : ImportCache)
      → answer key f (promote_in w true found c).0 c.unknown_retry
        ≡ answer key f found c.unknown_retry
  unfolding answer
  answer-promoted key fresh found c = refl
  answer-promoted key stale found c = refl
  answer-promoted key gone found c = refl
  answer-promoted key unknown found c = refl

  -- On an entry of the memory, the stale-while-revalidate read answers by the verdict alone: as fresh, as stale
  -- and revalidating, by the graduation of an unknown, or nothing if a dependency is gone; and the entry leaves
  -- the memory in that last case only.
  pub get_with_result_freshness-verdict :
      (key : String) (found : CachedImport) (c : ImportCache)
      → get key c.memory ≡ some found
      → ((get_with_result_freshness w key c).0 ≡ answer key (verdict found) found c.unknown_retry)
        × (contains_key key (get_with_result_freshness w key c).1.memory
            ≡ not (takes_away (verdict found)))
  unfolding get_with_result_freshness lookup lookup_memory verdict
  get_with_result_freshness-verdict key found c e =
      subst
        (λ (r : Option (ImportResult × Freshness) × ImportCache).
          Answered key (verdict found) found c.unknown_retry (report w key r.0 r.1))
        (sym (lookup-memory key found c e)) (go (fast_path w false found))
    where
      promoted : CachedImport
      promoted = (promote_in w true found c).0

      again : ImportCache
      again = record (promote_in w true found c).1 { memory = insert key promoted c.memory }

      go :
          (fast : Bool)
          → Answered key
              (if fast then fresh else check_now w found.dependency_fingerprints)
              found
              c.unknown_retry
              (let r =
                  serve_classified w key serve fast
                    (if fast then fresh else check_now w found.dependency_fingerprints)
                    promoted
                    again in
                report w key r.0 r.1)
      go fast =
          let f = if fast then fresh else check_now w found.dependency_fingerprints in
          let r =
            classified key fast f promoted again (get-insert_same key promoted c.memory)
              (present key promoted c) in
          (r.0 ∙ answer-promoted key f found c, r.1)
