-- ===== src/Cache/Memory/Graduation.antt =====
-- How a verification of daemon/src/cache/memory.rs that keeps failing is reported, and how long one that
-- succeeded counts.
use import_lens.Prelude.{
  ℕ, suc, ◌+◌, ◌-◌, ◌≤◌, ◌<◌, ◌≡◌, ◌↔◌, refl, ap, ◌∙◌, String, true, false, ◌&&◌, List, [], ◌∷◌,
  none, some, ltb, leb, if◌then◌else◌, length, get, remove, get-remove, get-insert_same, arith, min,
  u64_max,
}
use import_lens.Cache.Memory.{
  UnknownRetry, ResultFreshness, stale, unverified, record_unknown, clear_unknown, or_new,
  unknown_max_attempts, unknown_persist_after_ms, u32_max, never, stamp, is_current,
  reverify_ttl_ms,
}

-- Sightings of one key, one after the other.
pub sightings : String → List ℕ → List (String × UnknownRetry) → List (String × UnknownRetry)
sightings key [] retries = retries
sightings key (now ∷ later) retries = sightings key later (record_unknown now key retries).1

sightings-get :
    (key : String) (times : List ℕ) (retries : List (String × UnknownRetry)) (first attempts : ℕ)
    → get key retries ≡ some (record { first_seen = first; attempts = min attempts u32_max })
    → get key (sightings key times retries)
      ≡ some (record { first_seen = first; attempts = min (attempts + length times) u32_max })
unfolding sightings record_unknown
sightings-get key [] retries first attempts h =
    h ∙ ap (λ n. some (record { first_seen = first; attempts = min n u32_max })) (omega arith)
sightings-get key (now ∷ later) retries first attempts h =
    sightings-get key later _ first (suc attempts) (
      get-insert_same key _ retries
      ∙ ap
          (λ o.
            some (record (or_new o now) { attempts = min (suc (or_new o now).attempts) u32_max }))
          h
      ∙ ap (λ n. some (record { first_seen = first; attempts = n })) (ground arith))
    ∙ ap (λ n. some (record { first_seen = first; attempts = min n u32_max })) (omega arith)

get-remove_same :
    (key : String) (retries : List (String × UnknownRetry)) → get key (remove key retries) ≡ none
get-remove_same key retries = ground (arith, get-remove key key retries)

abbrev failing : ResultFreshness
failing = unverified "dependency verification failed (transient)"

abbrev report_of : ℕ → ℕ → ℕ → ResultFreshness
report_of now attempts seen =
    if leb attempts unknown_max_attempts && ltb (now - seen) unknown_persist_after_ms
    then stale true
    else failing

-- The time of the first failure: `now`, if it is the first one.
abbrev pub first_of : List ℕ → ℕ → ℕ
first_of [] now = now
first_of (first ∷ times) now = first

-- After an outcome other than `Unknown`, the failures of the verification of a key, the first one included,
-- are reported as stale, with a recomputation under way, as long as they are at most three and the last one
-- comes within two seconds of the first one; any other one is reported as unverified.
pub record_unknown-graduates :
    (key : String) (times : List ℕ) (now : ℕ) (retries : List (String × UnknownRetry))
    → (record_unknown now key (sightings key times (clear_unknown key retries))).0 ≡ (
        if leb (suc (length times)) unknown_max_attempts
          && ltb (now - first_of times now) unknown_persist_after_ms
        then stale true
        else unverified "dependency verification failed (transient)")
unfolding record_unknown clear_unknown sightings
record_unknown-graduates key [] now retries =
    ap (λ o. report_of now (min (suc (or_new o now).attempts) u32_max) (or_new o now).first_seen)
      (get-remove_same key retries)
record_unknown-graduates key (first ∷ times) now retries =
    ap (λ o. report_of now (min (suc (or_new o now).attempts) u32_max) (or_new o now).first_seen)
      known
    ∙ ap (λ b. if b && ltb (now - first) unknown_persist_after_ms then stale true else failing)
        (few (length times))
  where
    known :
        get key (sightings key (first ∷ times) (clear_unknown key retries))
        ≡ some (record { first_seen = first; attempts = min (1 + length times) u32_max })
    known = sightings-get key times _ first 1 (
        get-insert_same key _ (remove key retries)
        ∙ ap
            (λ o.
              some (record (or_new o first) {
                attempts = min (suc (or_new o first).attempts) u32_max;
              }))
            (get-remove_same key retries))

    few :
        (n : ℕ)
        → leb (min (suc (min (1 + n) u32_max)) u32_max) unknown_max_attempts
          ≡ leb (suc (suc n)) unknown_max_attempts
    few n = ground arith

-- A verification stamped under a generation counts at a later time exactly if the generation is still
-- that one and less than thirty seconds have passed; one that never happened does not count.
pub is_current-stamp :
    (now later generation current : ℕ)
    → now < u64_max
    → now ≤ later
    → ((is_current later current (stamp now generation) ≡ true)
        ↔ ((generation ≡ current) × (later < now + reverify_ttl_ms)))
      × (is_current later current never ≡ false)
unfolding is_current stamp
is_current-stamp now later generation current lt le =
    (((λ h. (ground arith, ground arith)), λ (same, soon). ground arith), refl)
