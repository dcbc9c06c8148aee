-- ===== src/Cache/Import/Samples.antt =====
-- Runs of the `ImportCache` of daemon/src/cache/memory.rs, and inputs where its theorems apply.
use import_lens.Prelude.{
  ℕ, ◌≤◌, ◌≡◌, ◌⊎◌, inl, inr, refl, ap, ◌∙◌, String, true, false, not, List, [], ◌∷◌, Option, none,
  some, get, All, arith, ℕ_discrete, text_dec, ite, remove, contains_key, contains, if◌then◌else◌,
  ◌==◌, DistinctKeys, total_of, u64_max, insert, remove_many, keys_where,
}
use import_lens.Cache.Fingerprint.{
  fingerprints_are_reusable, fingerprint_is_unverifiable, fingerprints_have_conflicting_snapshots,
  check_one, fingerprint_is_installed, check_fingerprint_strict, verify_content_hash, IoResult, err,
  not_found, ok, FileFingerprint,
}
use import_lens.Cache.Identity.{CacheIdentity, client, namespace}
use import_lens.Cache.Memory.{never}
use import_lens.Cache.Disk.{empty_tables}
use import_lens.Cache.Import.{
  ImportResult, CachedImport, ImportCache, World, result_fresh, memory_weight,
}
use import_lens.Cache.Import.Writes.{enforce_memory_cap}
use import_lens.Cache.Import.Reads.{
  get_if_fresh, get_if_fresh_and_promote, get_with_result_freshness,
}
use import_lens.Cache.Import.Served.{Verified, get_if_fresh-Verified}
use import_lens.Cache.Import.Verdicts.{
  answer, verdict, takes_away, get_with_result_freshness-verdict,
}
use import_lens.Cache.Import.Candidates.{IsDirty}
use import_lens.Cache.Import.Capped.{
  WithinCaps, Survives, enforce_memory_cap-WithinCaps, enforce_memory_cap-Survives,
}
use import_lens.Cache.Import.Sweeps.{
  matches, invalidate_packages, purge_orphan_entries, flush_to_disk,
}
use import_lens.Cache.Import.Invalidated.{invalidate_packages-get}
use import_lens.Cache.Disk.Queue.Drained.{committed_at}
use import_lens.Cache.Import.Mirror.{
  idle, finished, Mirror, initial, capture, check, place, check_again, bump, wipe, Reachable, start,
  then_step, captures, checks, places, checks_again, bumps, wipes, AtRest,
}
use import_lens.Cache.Import.Mirror.Settled.{set_phase-other, AtRest-current}

abbrev result_of : String → ℕ → ImportResult
result_of body rows = record {
  body = body;
  is_durable = true;
  internal_contributions = rows;
  cache_hit = false;
  freshness = result_fresh;
}

abbrev read_file : String → IoResult (List ℕ)
read_file path =
    ite (text_dec path "/p/gone.js") (err not_found)
      (ite (text_dec path "/p/old.js") (ok (1 ∷ [])) (ok (11 ∷ [])))

abbrev hash : List ℕ → ℕ
hash [] = 0
hash (b ∷ _) = b

abbrev world : World
world = record {
  generation = 3;
  since_epoch = 500;
  now = 500;
  committed = true;
  metadata = λ _. ok (record { len = 5; modified = none });
  read_file = read_file;
  hash = hash;
  analyzer_version = "1";
  decode = λ _. none;
  encode = λ _. some (1 ∷ []);
  to_vec = λ _. [];
  from_slice = λ _. none;
  symlink_metadata = λ _. ok tt;
}

-- By a number: 9 for a file that is gone, 7 for one that has changed since.
abbrev file : ℕ → FileFingerprint
file kind = record {
  path = if kind == 9 then "/p/gone.js" else if kind == 7 then "/p/old.js" else "/p/index.js";
  len = 5;
  modified_millis = 5;
  content_hash = some 11;
}

abbrev entry : String → ℕ → ℕ → ℕ → CachedImport
entry body len rows seq = record {
  result = result_of body rows;
  dependency_fingerprints = file len ∷ [];
  verification = never;
  last_seq = seq;
  persisted_seq = seq;
  first_party = false;
  identity = seq;
}

abbrev cache : List (String × CachedImport) → List String → ImportCache
cache memory dirty = record {
  memory = memory;
  disk = record {
    db = some empty_tables;
    pending_inserts = [];
    clear_generation = 0;
    flush_retry_after = 0;
  };
  dirty = dirty;
  unknown_retry = [];
  clock = 50;
  next_identity = 50;
}

abbrev mixed : ImportCache
mixed =
    cache (("kept", entry "a" 1 2 4) ∷ ("lost", entry "b" 9 2 5) ∷ ("old", entry "c" 7 2 6) ∷ []) []

fresh_read :
    (get_if_fresh world "kept" mixed).0 ≡ some (record (result_of "a" 2) { cache_hit = true })
unfolding get_if_fresh get text_dec check_one fingerprint_is_installed check_fingerprint_strict
    verify_content_hash
fresh_read = refl

stale_read : (get_if_fresh world "old" mixed).0 ≡ none
unfolding get_if_fresh get text_dec check_one fingerprint_is_installed check_fingerprint_strict
    verify_content_hash
stale_read = refl

get_if_fresh-Verified_example :
    Verified world "kept" mixed (get_if_fresh world "kept" mixed).0
    × Verified world "kept" mixed (get_if_fresh_and_promote world "kept" mixed).0
get_if_fresh-Verified_example = get_if_fresh-Verified world "kept" mixed

found_kept : get "lost" mixed.memory ≡ some (entry "b" 9 2 5)
unfolding get text_dec
found_kept = refl

get_with_result_freshness-verdict_example :
    ((get_with_result_freshness world "lost" mixed).0
      ≡ answer world "lost" (verdict world (entry "b" 9 2 5)) (entry "b" 9 2 5) mixed.unknown_retry)
    × (contains_key "lost" (get_with_result_freshness world "lost" mixed).1.memory
        ≡ not (takes_away world (verdict world (entry "b" 9 2 5))))
get_with_result_freshness-verdict_example =
    get_with_result_freshness-verdict world "lost" (entry "b" 9 2 5) mixed found_kept

-- Three entries of more than a third of the weight each, one of them dirty.
abbrev heavy : ImportCache
heavy =
    cache
      (("new", entry "a" 1 200000 9)
        ∷ ("dirty", entry "b" 1 200000 1)
        ∷ ("older", entry "c" 1 200000 4)
        ∷ [])
      ("dirty" ∷ [])

heavy-DistinctKeys : DistinctKeys heavy.memory
unfolding contains_key text_dec
heavy-DistinctKeys = (refl, (refl, (refl, tt)))

abbrev keys_of : List (String × CachedImport) → List String
keys_of [] = []
keys_of ((key, cached) ∷ memory) = key ∷ keys_of memory

newest_left : keys_of (enforce_memory_cap world heavy).memory ≡ "new" ∷ "dirty" ∷ []
unfolding enforce_memory_cap contains remove text_dec
newest_left = refl

heavy_weight : total_of memory_weight heavy.memory ≤ u64_max
unfolding memory_weight
heavy_weight = omega arith

enforce_memory_cap-WithinCaps_example :
    WithinCaps (enforce_memory_cap world heavy).memory
    ⊎ All (IsDirty heavy.dirty) (enforce_memory_cap world heavy).memory
enforce_memory_cap-WithinCaps_example =
    enforce_memory_cap-WithinCaps world heavy heavy-DistinctKeys heavy_weight

found_older : get "older" heavy.memory ≡ some (entry "c" 1 200000 4)
unfolding get text_dec
found_older = refl

enforce_memory_cap-Survives_example :
    Survives heavy.dirty "older" (entry "c" 1 200000 4) (enforce_memory_cap world heavy).memory
enforce_memory_cap-Survives_example =
    enforce_memory_cap-Survives world heavy "older" (entry "c" 1 200000 4) heavy-DistinctKeys
      found_older

-- Thread 0 places its entry after a clear, and takes it back; thread 1 captures after the clear.
abbrev m1 : Mirror
m1 = capture 0 "a" initial

abbrev m2 : Mirror
m2 = check 0 "a" 0 m1

abbrev m3 : Mirror
m3 = bump m2

abbrev m4 : Mirror
m4 = wipe m3

abbrev m5 : Mirror
m5 = capture 1 "b" m4

abbrev m6 : Mirror
m6 = check 1 "b" 1 m5

abbrev m7 : Mirror
m7 = place 0 "a" 0 m6

abbrev m8 : Mirror
m8 = place 1 "b" 1 m7

abbrev m9 : Mirror
m9 = check_again 0 "a" 0 m8

abbrev m10 : Mirror
m10 = check_again 1 "b" 1 m9

m10-Reachable : Reachable m10
unfolding ℕ_discrete
m10-Reachable =
    then_step
      (then_step
        (then_step
          (then_step
            (then_step
              (then_step
                (then_step
                  (then_step
                    (then_step (then_step start (captures 0 "a" refl)) (checks 0 "a" 0 refl)) bumps)
                  (wipes (omega arith)))
                (captures 1 "b" refl))
              (checks 1 "b" 1 refl))
            (places 0 "a" 0 refl))
          (places 1 "b" 1 refl))
        (checks_again 0 "a" 0 refl))
      (checks_again 1 "b" 1 refl)

m10-idle : (i : ℕ) → ¬ (i ≡ 0) → ¬ (i ≡ 1) → m10.phase i ≡ idle
m10-idle i n0 n1 =
    set_phase-other 1 i finished m9.phase n1
    ∙ set_phase-other 0 i finished m8.phase n0
    ∙ set_phase-other 1 i _ m7.phase n1
    ∙ set_phase-other 0 i _ m6.phase n0
    ∙ set_phase-other 1 i _ m5.phase n1
    ∙ set_phase-other 1 i _ m4.phase n1
    ∙ set_phase-other 0 i _ m1.phase n0
    ∙ set_phase-other 0 i _ initial.phase n0

m10-AtRest : AtRest m10
unfolding ℕ_discrete
m10-AtRest = (
  refl,
  (λ i. elim (ℕ_discrete i 0) [
    | yes e ↦ inr (ap m10.phase e)
    | no n0 ↦ elim (ℕ_discrete i 1) [
      | yes e ↦ inr (ap m10.phase e)
      | no n1 ↦ inl (m10-idle i n0 n1)
    ]
  ]),
)

one_left : get "b" m10.memory ≡ some (record { identity = 1; generation = 1 })
unfolding get insert remove text_dec
one_left = refl

AtRest-current_example : 1 ≡ m10.clear_generation
AtRest-current_example =
    AtRest-current m10 "b" (record { identity = 1; generation = 1 }) m10-Reachable m10-AtRest
      one_left

-- A key that is no identity is matched by its text.
abbrev packages : ImportCache
packages = cache (("react@18", entry "a" 1 2 4) ∷ ("vue@3", entry "b" 1 2 5) ∷ []) []

only_vue : keys_of (invalidate_packages world ("react" ∷ []) packages).memory ≡ "vue@3" ∷ []
unfolding invalidate_packages matches remove_many keys_where remove text_dec
only_vue = refl

invalidate_packages-get_example :
    (get "react@18" (invalidate_packages world ("react" ∷ []) packages).memory
      ≡ (if matches world ("react" ∷ []) "react@18" then none else get "react@18" packages.memory))
    × (get "react@18" (invalidate_packages world ("react" ∷ []) packages).disk.pending_inserts ≡ (
        if matches world ("react" ∷ []) "react@18"
        then none
        else get "react@18" packages.disk.pending_inserts))
    × (committed_at "react@18" (invalidate_packages world ("react" ∷ []) packages).disk.db ≡ (
        if matches world ("react" ∷ []) "react@18"
        then none
        else committed_at "react@18" packages.disk.db))
invalidate_packages-get_example =
    invalidate_packages-get world refl ("react" ∷ []) "react@18" packages

-- One promoted entry, and one dirty key.
abbrev promoted : ImportCache
promoted =
    cache (("used", record (entry "a" 1 2 4) { last_seq = 9 }) ∷ ("vue@3", entry "b" 1 2 5) ∷ [])
      ("vue@3" ∷ [])

abbrev used : CachedImport
used = record (entry "a" 1 2 4) { last_seq = 9 }

flush_ok : (flush_to_disk world promoted).0 ≡ true
unfolding flush_to_disk get contains text_dec insert remove fingerprints_are_reusable
    fingerprint_is_unverifiable fingerprints_have_conflicting_snapshots
flush_ok = refl

-- Keys are taken for identities of another version; only the queue has one.
abbrev identity_of : List ℕ → Option CacheIdentity
identity_of _ = some (record {
  analyzer_version = "1";
  specifier = "react";
  package_name = "react";
  package_version = "18";
  package_root = none;
  entry_path = none;
  runtime = client;
  import_kind = namespace;
  named_exports = [];
})

abbrev queued : ImportCache
queued = record (cache [] []) {
  disk = record {
    db = some empty_tables;
    pending_inserts = ("v4:00", (0, 1 ∷ [])) ∷ [];
    clear_generation = 0;
    flush_retry_after = 0;
  };
}

queued_orphan_stays :
    (purge_orphan_entries
      (record world { from_slice = identity_of })
      "2"
      queued).1.disk.pending_inserts
    ≡ ("v4:00", (0, 1 ∷ [])) ∷ []
unfolding purge_orphan_entries
queued_orphan_stays = refl
