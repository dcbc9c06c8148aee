-- ===== src/Cache/Fingerprint.antt =====
-- daemon/src/cache/key.rs: the fingerprints of the files that a result was measured from, and the
-- check of a stored fingerprint against the disk. The disk and the hash are the section's parameters.
pub mod Verdict
pub mod Conflict
use text.Mathlib.Text.{find?}
use import_lens.Prelude.{
  ℕ, ◌≡◌, String, Bool, true, false, not, ◌&&◌, ◌||◌, List, [], ◌∷◌, Option, none, some, leb, ◌==◌,
  if◌then◌else◌, u64_max, any, get, insert, text_dec,
}

-- `std::io::ErrorKind`, as far as the source tells kinds apart.
pub data ErrorKind : Type 0 where
  not_found other_error : ErrorKind

pub data IoResult {ℓ} (A : Type ℓ) : Type ℓ where
  ok : A → IoResult A
  err : ErrorKind → IoResult A

-- `modified` is the mtime in milliseconds since the epoch, if the platform reports one.
pub record Metadata : Type 0 where
  pub len : ℕ
  pub modified : Option ℕ

pub record FileFingerprint : Type 0 where
  pub path : String
  pub len : ℕ
  pub modified_millis : ℕ
  pub content_hash : Option ℕ

pub data Freshness : Type 0 where
  fresh stale gone unknown : Freshness

unfoldable pub classify_stat_error : ErrorKind → Freshness
classify_stat_error not_found = gone
classify_stat_error other_error = unknown

unfoldable pub modified_millis : Metadata → ℕ
modified_millis m = elim m.modified [
  | none ↦ 0
  | some millis ↦ if leb millis u64_max then millis else 0
]

abbrev pub is_some {ℓ} : {A : Type ℓ} → Option A → Bool
is_some none = false
is_some (some _) = true

unfoldable pub fingerprint_is_absent : FileFingerprint → Bool
fingerprint_is_absent f = f.len == u64_max && f.modified_millis == 0 && not (is_some f.content_hash)

unfoldable pub fingerprint_is_unverifiable : FileFingerprint → Bool
fingerprint_is_unverifiable f =
    f.len == u64_max && f.modified_millis == u64_max && not (is_some f.content_hash)

unfoldable pub fingerprint_is_installed : FileFingerprint → Bool
fingerprint_is_installed f = is_some (find? f.path "/node_modules/")

-- `normalize` is `normalize_identity_path`, which asks the file system.
unfoldable pub unverifiable_file_fingerprint : (String → String) → String → FileFingerprint
unverifiable_file_fingerprint normalize path = record {
  path = normalize path;
  len = u64_max;
  modified_millis = u64_max;
  content_hash = none;
}

unfoldable pub absent_file_fingerprint : (String → String) → String → FileFingerprint
absent_file_fingerprint normalize path = record {
  path = normalize path;
  len = u64_max;
  modified_millis = 0;
  content_hash = none;
}

module _ (metadata : String → IoResult Metadata) (read : String → IoResult (List ℕ))
    (hash : List ℕ → ℕ) where
  unfoldable pub verify_content_hash : String → ℕ → Freshness
  verify_content_hash path expected = elim (read path) [
    | ok bytes ↦ if hash bytes == expected then fresh else stale
    | err kind ↦ classify_stat_error kind
  ]

  check_absent : FileFingerprint → Freshness
  check_absent stored = elim (metadata stored.path) [
    | ok _ ↦ stale
    | err not_found ↦ fresh
    | err kind ↦ classify_stat_error kind
  ]

  -- mtime and length differ: only a content hash tells a real change from a touch.
  check_changed : FileFingerprint → Freshness
  check_changed stored = elim stored.content_hash [
    | some expected ↦ verify_content_hash stored.path expected
    | none ↦ stale
  ]

  check_present : FileFingerprint → Freshness
  check_present stored = elim (metadata stored.path) [
    | err kind ↦ classify_stat_error kind
    | ok m ↦
        if m.len == stored.len && modified_millis m == stored.modified_millis
        then fresh
        else check_changed stored
  ]

  unfoldable pub check_fingerprint : FileFingerprint → Freshness
  unfolding check_absent check_changed check_present classify_stat_error fingerprint_is_absent
  check_fingerprint stored =
      if fingerprint_is_absent stored then check_absent stored else check_present stored

  unfoldable pub check_fingerprint_strict : FileFingerprint → Freshness
  check_fingerprint_strict stored = elim stored.content_hash [
    | some expected ↦ verify_content_hash stored.path expected
    | none ↦ check_fingerprint stored
  ]

  -- The check that a set makes of one of its fingerprints.
  unfoldable pub check_one : FileFingerprint → Freshness
  check_one f =
      if fingerprint_is_installed f then check_fingerprint f else check_fingerprint_strict f

  -- The loop of `check_fingerprints_strict`; `unknown` returns at once.
  unfoldable pub check_from : Freshness → List FileFingerprint → Freshness
  check_from worst [] = worst
  check_from worst (f ∷ fs) = elim (check_one f) [
    | unknown ↦ unknown
    | gone ↦ check_from gone fs
    | stale ↦ check_from (elim worst [ fresh ↦ stale | other ↦ other ]) fs
    | fresh ↦ check_from worst fs
  ]

  unfoldable pub check_fingerprints_strict : List FileFingerprint → Freshness
  unfolding check_from
  check_fingerprints_strict = check_from fresh

-- What `fingerprints_have_conflicting_snapshots` has observed of one path.
pub record Snapshot : Type 0 where
  pub len : ℕ
  pub modified_millis : ℕ
  pub known_hash : Option ℕ

abbrev pub hashes_agree : Option ℕ → Option ℕ → Bool
hashes_agree (some left) (some right) = left == right
hashes_agree _ _ = true

abbrev pub snapshot_agrees : Snapshot → FileFingerprint → Bool
snapshot_agrees s f =
    s.len == f.len
    && s.modified_millis == f.modified_millis
    && hashes_agree s.known_hash f.content_hash

abbrev pub or_hash : Option ℕ → Option ℕ → Option ℕ
or_hash none hash = hash
or_hash (some known) _ = some known

abbrev pub snapshot_of : FileFingerprint → Snapshot
snapshot_of f = record {
  len = f.len;
  modified_millis = f.modified_millis;
  known_hash = f.content_hash;
}

-- The loop over the set, with the map `observed`.
unfoldable pub conflict_from : List (String × Snapshot) → List FileFingerprint → Bool
conflict_from observed [] = false
conflict_from observed (f ∷ fs) = elim (get f.path observed) [
  | none ↦ conflict_from (insert f.path (snapshot_of f) observed) fs
  | some s ↦
      let rest =
        conflict_from
          (insert f.path (record s { known_hash = or_hash s.known_hash f.content_hash }) observed)
          fs in
      if snapshot_agrees s f then rest else true
]

unfoldable pub fingerprints_have_conflicting_snapshots : List FileFingerprint → Bool
unfolding conflict_from
fingerprints_have_conflicting_snapshots = conflict_from []

unfoldable pub fingerprints_are_reusable : List FileFingerprint → Bool
fingerprints_are_reusable fs =
    not (any fingerprint_is_unverifiable fs) && not (fingerprints_have_conflicting_snapshots fs)
