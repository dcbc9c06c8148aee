-- ===== src/Cache/Samples.antt =====
-- Runs of the cache's definitions and theorems at concrete inputs.
use import_lens.Prelude.{
  take, leb, ◌&&◌, bytes_eq, true, false, if◌then◌else◌, Option, ℕ, zero, suc, ◌+◌, ◌-◌, ◌*◌, ◌/◌,
  ◌≤◌, ◌≡◌, ◌⊎◌, refl, ap, sym, ◌∙◌, min, String, Bool, List, [], ◌∷◌, none, some, arith, length,
  codes, ltb, not, get, insert, contains, remove, All, text_dec, ite,
}
use import_lens.Cache.Identity.{
  CacheIdentity, component, namespace, encode_cache_identity, decode_cache_identity,
}
use import_lens.Cache.Identity.Keys.{Serializes, decode_cache_identity-encode}
use import_lens.Cache.Memory.{
  lowest_seq_disk_keys, filter_evictable, filter_loop, max_eviction_scan, record_unknown,
  clear_unknown, unknown_max_attempts, unknown_persist_after_ms, stale as stale_result, unverified,
}
use import_lens.Cache.Memory.Evictable.{cold, lowest_seq_disk_keys-cold}
use import_lens.Cache.Memory.Graduation.{first_of, sightings, record_unknown-graduates}
use import_lens.Cache.Hex.{hex_encode}
use import_lens.Cache.Fingerprint
use import_lens.Cache.Fingerprint.{
  IoResult, ok, err, not_found, Metadata, FileFingerprint, Freshness, fresh, gone, stale,
  fingerprint_is_installed, unverifiable_file_fingerprint, absent_file_fingerprint, check_one,
  check_fingerprints_strict,
}
use import_lens.Cache.Fingerprint.Verdict.{check_fingerprints_strict-eq-worst, worst}
use import_lens.Cache.Fingerprint.Conflict.{conflicting-pairwise, pairwise_compatible}
use import_lens.Cache.Budget.Shard.{EvictableShard}
use import_lens.Cache.Budget.{
  select_victim, older, victim, round, Pass, evict_while, enough, start, is_candidate, evict,
  first_of_each, EvictionOutcome,
}
use import_lens.Cache.Budget.Floor.{KeepsFloor}
use import_lens.Cache.Budget.Outcome.{evict_while_total, evict-still_over_budget}

-- A shard of entries of ten bytes each, its id and how many entries it has.
copies : ℕ → List String
copies zero = []
copies (suc n) = "key" ∷ copies n

length-copies : (n : ℕ) → length (copies n) ≡ n
unfolding copies
length-copies zero = refl
length-copies (suc n) = omega (arith, length-copies n)

abbrev Counted : Type 0
Counted = String × ℕ

abbrev counted : EvictableShard Counted
counted = record {
  shard_id = λ s. s.0;
  rollup = λ s. record { total_bytes = 10 * s.1; oldest_seq = s.1; entry_count = s.1 };
  lowest_seq_keys = λ s n floor. copies (min n (s.1 - floor));
  evict_keys = λ s keys. (10 * min (length keys) s.1, (s.0, s.1 - length keys));
  shard_id_fixed = λ s keys. refl;
}

copies_bound :
    (s : Counted) (n floor : ℕ) (key : String) (keys : List String)
    → copies (min n (s.1 - floor)) ≡ key ∷ keys
    → length (key ∷ keys) + floor ≤ s.1
copies_bound s n floor key keys e =
    let l : length (key ∷ keys) ≡ min n (s.1 - floor) = sym (ap length e) ∙ length-copies _ in
    omega arith

counted-KeepsFloor : KeepsFloor counted
counted-KeepsFloor = record {
  excludes_newest = copies_bound;
  removes_at_most = λ s keys. omega arith;
}

abbrev nine_tenths : ℕ → ℕ
nine_tenths b = 9 * b / 10

abbrev shards : List Counted
shards = ("a", 1000) ∷ ("b", 200) ∷ ("a", 7) ∷ []

evicts_to_low_water :
    evict counted nine_tenths 11000 none shards
    ≡ some (
      record { evicted_bytes = 3280; evicted_keys = 328; still_over_budget = Bool.false },
      ("a", 744) ∷ ("b", 128) ∷ [],
    )
unfolding evict evict_while first_of_each copies text_dec select_victim is_candidate older victim
    round get insert contains remove
evicts_to_low_water = refl

evict_while_total_example :
    let p = start counted (("a", 300) ∷ []) in
    (q : Pass Counted) × (evict_while counted (enough counted p) 2000 p ≡ some q)
    × (q.total ≡ p.total - q.outcome.evicted_bytes)
    × ((q.total ≤ 2000)
        ⊎ All (λ t. is_candidate counted q.rollups q.exhausted t ≡ Bool.false) q.shards)
unfolding start
evict_while_total_example = evict_while_total counted 2000 (start counted (("a", 300) ∷ [])) refl

evict-still_over_budget_example :
    (outcome : EvictionOutcome) × (left : List Counted) × (evict counted nine_tenths 11000 none
        shards
      ≡ some (outcome, left))
    × (outcome.still_over_budget
        ≡ ltb 11000
            ((start counted (first_of_each counted [] shards)).total - outcome.evicted_bytes))
evict-still_over_budget_example =
    evict-still_over_budget counted nine_tenths 11000 none shards (omega arith)

-- A disk with one file, of three bytes.
abbrev metadata : String → IoResult Metadata
metadata p =
    ite (text_dec p "/src/a.ts") (ok (record { len = 3; modified = some 50 })) (err not_found)

abbrev read : String → IoResult (List ℕ)
read p = ite (text_dec p "/src/a.ts") (ok (1 ∷ 2 ∷ 3 ∷ [])) (err not_found)

abbrev hash : List ℕ → ℕ
hash [] = 0
hash (b ∷ bs) = b + 31 * hash bs

abbrev seen : ℕ → FileFingerprint
seen h = record { path = "/src/a.ts"; len = 3; modified_millis = 50; content_hash = some h }

hash_is : hash (1 ∷ 2 ∷ 3 ∷ []) ≡ 2946
hash_is = refl

program : Unit {0}
unfolding text_dec check_fingerprints_strict check_one Fingerprint.check_fingerprint_strict
    Fingerprint.verify_content_hash fingerprint_is_installed
program = tt

fresh_run : check_fingerprints_strict metadata read hash (seen 2946 ∷ []) ≡ fresh
unfolding program
fresh_run = refl

stale_run : check_fingerprints_strict metadata read hash (seen 2946 ∷ seen 5 ∷ []) ≡ stale
unfolding program
stale_run = refl

check_fingerprints_strict-eq-worst_example :
    check_fingerprints_strict metadata read hash (seen 5 ∷ [])
    ≡ worst metadata read hash (seen 5 ∷ [])
check_fingerprints_strict-eq-worst_example =
    check_fingerprints_strict-eq-worst metadata read hash (seen 5 ∷ [])

conflicting-pairwise_example :
    Fingerprint.fingerprints_have_conflicting_snapshots (seen 2946 ∷ seen 5 ∷ [])
    ≡ not (pairwise_compatible (seen 2946 ∷ seen 5 ∷ []))
conflicting-pairwise_example = conflicting-pairwise (seen 2946 ∷ seen 5 ∷ [])

hex_runs : hex_encode (0 ∷ 171 ∷ 255 ∷ []) ≡ codes "00abff"
unfolding hex_encode
hex_runs = refl

abbrev react_identity : CacheIdentity
react_identity = record {
  analyzer_version = "7";
  specifier = "react";
  package_name = "react";
  package_version = "19.0.0";
  package_root = some "/app/react";
  entry_path = some "/app/react/index.js";
  runtime = component;
  import_kind = namespace;
  named_exports = [];
}

-- A serializer that writes the specifier and knows one identity.
abbrev to_vec : CacheIdentity → List ℕ
to_vec i = codes i.specifier

abbrev from_slice : List ℕ → Option CacheIdentity
from_slice bytes = if bytes_eq bytes (codes "react") then some react_identity else none

react-Serializes : Serializes to_vec from_slice react_identity
unfolding bytes_eq
react-Serializes = record {
  bytes = (omega arith, (omega arith, (omega arith, (omega arith, (omega arith, tt)))));
  reads_back = refl;
}

-- The package was removed.
abbrev nothing_there : String → IoResult (Unit {0})
nothing_there path = err not_found

decode_cache_identity-encode_example :
    decode_cache_identity to_vec from_slice (encode_cache_identity to_vec from_slice react_identity)
    ≡ some react_identity
decode_cache_identity-encode_example =
    decode_cache_identity-encode to_vec from_slice react_identity react-Serializes

-- The project's folder is gone and the one above it is there.
abbrev above : String → List String
above path = "/home" ∷ []

abbrev probe : String → IoResult Bool
probe path = ok (ite (text_dec path "/home") true false)

-- "b" was read after it was persisted.
abbrev recency : List (String × ℕ)
recency = ("a", 1) ∷ ("b", 9) ∷ []

abbrev on_disk : ℕ → List (String × ℕ)
on_disk floor = ("a", 1) ∷ ("b", 2) ∷ ("c", 3) ∷ []

hot_keys_are_paged_past :
    lowest_seq_disk_keys recency (λ n floor. take n (on_disk floor)) 2 64 ≡ "a" ∷ "c" ∷ []
unfolding lowest_seq_disk_keys filter_evictable filter_loop get text_dec
hot_keys_are_paged_past = refl

lowest_seq_disk_keys-cold_example :
    lowest_seq_disk_keys recency (λ n floor. take n (on_disk floor)) 2 64
    ≡ take 2 (cold recency (take max_eviction_scan (on_disk 64)))
lowest_seq_disk_keys-cold_example =
    lowest_seq_disk_keys-cold recency on_disk 2 64 (omega arith) (omega arith)

abbrev later_sightings : List ℕ
later_sightings = 100 ∷ 200 ∷ []

record_unknown-graduates_example :
    (record_unknown 500 "a" (sightings "a" later_sightings (clear_unknown "a" []))).0 ≡ (
      if leb (suc (length later_sightings)) unknown_max_attempts
        && ltb (500 - first_of later_sightings 500) unknown_persist_after_ms
      then stale_result true
      else unverified "dependency verification failed (transient)")
record_unknown-graduates_example = record_unknown-graduates "a" later_sightings 500 []

first_report :
    (record_unknown 500 "a" (sightings "a" [] (clear_unknown "a" []))).0 ≡ stale_result true
first_report = record_unknown-graduates "a" [] 500 []
