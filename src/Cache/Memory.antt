-- ===== src/Cache/Memory.antt =====
-- daemon/src/cache/memory.rs: when an entry counts as verified, how a failing verification is reported,
-- and which keys the shard of an `ImportCache` offers to the evictor. Times are milliseconds of a
-- monotonic clock, below `u64::MAX`; the memory is seen as the recency of its entries.
pub mod Evictable
pub mod Graduation
use import_lens.Prelude.{
  ℕ, suc, ◌+◌, ◌-◌, String, Bool, true, false, not, ◌&&◌, ◌||◌, List, [], ◌∷◌, ◌++◌, Option, none,
  some, ltb, leb, ◌==◌, if◌then◌else◌, length, get, insert, remove, saturating_add, min,
}

abbrev pub reverify_ttl_ms : ℕ
reverify_ttl_ms = 30000

abbrev pub max_eviction_scan : ℕ
max_eviction_scan = 1024

abbrev pub unknown_max_attempts : ℕ
unknown_max_attempts = 3

abbrev pub unknown_persist_after_ms : ℕ
unknown_persist_after_ms = 2000

abbrev pub u32_max : ℕ
u32_max = 4294967295

pub record Verification : Type 0 where
  pub generation : ℕ
  pub at_millis : ℕ

abbrev pub never : Verification
never = record { generation = 0; at_millis = 0 }

unfoldable pub stamp : ℕ → ℕ → Verification
stamp since_epoch generation = record {
  generation = generation;
  at_millis = saturating_add since_epoch 1;
}

unfoldable pub is_current : ℕ → ℕ → Verification → Bool
is_current since_epoch generation v =
    if v.at_millis == 0 || not (v.generation == generation)
    then false
    else ltb (since_epoch - (v.at_millis - 1)) reverify_ttl_ms

pub record UnknownRetry : Type 0 where
  pub first_seen : ℕ
  pub attempts : ℕ

pub data FreshnessKind : Type 0 where
  kind_fresh kind_stale kind_unverified : FreshnessKind

pub record ResultFreshness : Type 0 where
  pub kind : FreshnessKind
  pub revalidating : Bool
  pub reason : Option String

abbrev pub stale : Bool → ResultFreshness
stale revalidating = record { kind = kind_stale; revalidating = revalidating; reason = none }

abbrev pub unverified : String → ResultFreshness
unverified reason = record { kind = kind_unverified; revalidating = false; reason = some reason }

abbrev pub or_new : Option UnknownRetry → ℕ → UnknownRetry
or_new none now = record { first_seen = now; attempts = 0 }
or_new (some entry) now = entry

unfoldable pub record_unknown :
    ℕ → String → List (String × UnknownRetry) → ResultFreshness × List (String × UnknownRetry)
record_unknown now key retries =
    let old = or_new (get key retries) now in
    let entry : UnknownRetry = record old { attempts = min (suc old.attempts) u32_max } in
    let within_window =
      leb entry.attempts unknown_max_attempts
      && ltb (now - entry.first_seen) unknown_persist_after_ms in
    (
      if within_window then stale true else unverified "dependency verification failed (transient)",
      insert key entry retries,
    )

unfoldable pub clear_unknown : String → List (String × UnknownRetry) → List (String × UnknownRetry)
clear_unknown key retries = remove key retries

-- The memory's `last_seq` of its keys; a candidate is a key with the seq that the disk has of it.
abbrev pub is_hot : Option ℕ → ℕ → Bool
is_hot none persisted_seq = false
is_hot (some last_seq) persisted_seq = ltb persisted_seq last_seq

module _ (memory : List (String × ℕ)) where
  unfoldable pub filter_loop : ℕ → List String → List (String × ℕ) → List String
  filter_loop n cold [] = cold
  filter_loop n cold ((key, persisted_seq) ∷ candidates) =
      elim (is_hot (get key memory) persisted_seq) [
        | true ↦ filter_loop n cold candidates
        | false ↦ elim (leb n (length (cold ++ key ∷ []))) [
          | true ↦ cold ++ key ∷ []
          | false ↦ filter_loop n (cold ++ key ∷ []) candidates
        ]
      ]

  unfoldable pub filter_evictable : List (String × ℕ) → ℕ → List String
  unfolding filter_loop
  filter_evictable candidates n = filter_loop n [] candidates

  -- `disk` is `DiskCache::lowest_seq_keys`.
  unfoldable pub lowest_seq_disk_keys : (ℕ → ℕ → List (String × ℕ)) → ℕ → ℕ → List String
  unfolding filter_evictable
  lowest_seq_disk_keys disk n floor =
      if n == 0
      then []
      else if length (filter_evictable (disk n floor) n) == n || ltb (length (disk n floor)) n
      then filter_evictable (disk n floor) n
      else filter_evictable (disk max_eviction_scan floor) n
