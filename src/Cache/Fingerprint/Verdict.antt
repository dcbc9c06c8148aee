-- ===== src/Cache/Fingerprint/Verdict.antt =====
-- The verdict of `check_fingerprints_strict` over a whole set (daemon/src/cache/key.rs).
use text.Mathlib.Text.{find?}
use import_lens.Prelude.{
  ℕ, ◌≡◌, ◌≢◌, ◌↔◌, ◌⊎◌, refl, ap, sym, ◌∙◌, String, false, List, [], ◌∷◌, some, arith, In, All,
  All-get, u64_max, ◌<◌, inl, inr,
}
use import_lens.Cache.Fingerprint.{
  ErrorKind, is_some, classify_stat_error, IoResult, ok, err, not_found, Metadata, FileFingerprint,
  Freshness, fresh, stale, gone, unknown, fingerprint_is_installed, unverifiable_file_fingerprint,
  absent_file_fingerprint, verify_content_hash, check_fingerprint, check_fingerprint_strict,
  check_one, check_from, check_fingerprints_strict,
}

-- The precedence Unknown > Gone > Stale > Fresh, as a join.
abbrev pub worse : Freshness → Freshness → Freshness
worse fresh b = b
worse unknown b = unknown
worse gone unknown = unknown
worse gone _ = gone
worse stale fresh = stale
worse stale b = b

IoResult-cases {ℓ} :
    {A : Type ℓ} (r : IoResult A) → ((a : A) × (r ≡ ok a)) ⊎ ((kind : ErrorKind) × (r ≡ err kind))
IoResult-cases (ok a) = inl (a, refl)
IoResult-cases (err kind) = inr (kind, refl)

installed-path :
    (a b : FileFingerprint)
    → a.path ≡ b.path
    → fingerprint_is_installed a ≡ fingerprint_is_installed b
unfolding fingerprint_is_installed
installed-path a b p = ap (λ s. is_some (find? s "/node_modules/")) p

module _ (metadata : String → IoResult Metadata) (read : String → IoResult (List ℕ))
    (hash : List ℕ → ℕ) where
  abbrev pub worst : List FileFingerprint → Freshness
  worst [] = fresh
  worst (f ∷ fs) = worse (check_one metadata read hash f) (worst fs)

  -- The running verdict is never `unknown`: the loop has returned by then.
  check_from-worse :
      (w : Freshness) (fs : List FileFingerprint)
      → w ≢ unknown
      → check_from metadata read hash w fs ≡ worse w (worst fs)
  unfolding check_from
  check_from-worse w [] h = ground arith
  check_from-worse w (f ∷ fs) h =
      ground (arith, check_from-worse w fs h, check_from-worse gone fs, check_from-worse stale fs)

  -- The loop with its early return computes the join of the checks of the single fingerprints,
  -- in the order Unknown > Gone > Stale > Fresh.
  pub check_fingerprints_strict-eq-worst :
      (fs : List FileFingerprint) → check_fingerprints_strict metadata read hash fs ≡ worst fs
  unfolding check_fingerprints_strict
  check_fingerprints_strict-eq-worst fs = check_from-worse fresh fs (λ e. cc)

  worst-fresh :
      (fs : List FileFingerprint)
      → worst fs ≡ fresh
      → All (λ f. check_one metadata read hash f ≡ fresh) fs
  worst-fresh [] h = tt
  worst-fresh (f ∷ fs) h = (ground arith, worst-fresh fs (ground arith))

  fresh-worst :
      (fs : List FileFingerprint)
      → All (λ f. check_one metadata read hash f ≡ fresh) fs
      → worst fs ≡ fresh
  fresh-worst [] h = refl
  fresh-worst (f ∷ fs) h = ground (arith, fresh-worst fs h.1)

  -- A set is fresh exactly when each of its fingerprints is.
  pub check_fingerprints_strict-fresh_iff :
      (fs : List FileFingerprint)
      → (check_fingerprints_strict metadata read hash fs ≡ fresh)
        ↔ All (λ f. check_one metadata read hash f ≡ fresh) fs
  check_fingerprints_strict-fresh_iff fs =
      rw check_fingerprints_strict-eq-worst (worst-fresh fs, fresh-worst fs)

  -- A first-party fingerprint with a hash is fresh only if the bytes on disk have that hash.
  strict_hash :
      (f : FileFingerprint) (h : ℕ)
      → fingerprint_is_installed f ≡ false
      → f.content_hash ≡ some h
      → check_one metadata read hash f ≡ fresh
      → (bytes : List ℕ) × (read f.path ≡ ok bytes) × (hash bytes ≡ h)
  unfolding check_one check_fingerprint_strict verify_content_hash classify_stat_error
  strict_hash f h p q e = elim (IoResult-cases (read f.path)) [
    | inl (bytes, there) ↦ (bytes, there, ground arith)
    | inr (kind, failed) ↦ absurd (ground arith)
  ]

  -- Two different known hashes of one first-party file are never both fresh, whatever the disk holds:
  -- no state of the disk validates a set that observed both.
  pub two_hashes-ne-fresh :
      (fs : List FileFingerprint) (a b : FileFingerprint) (x y : ℕ)
      → In a fs
      → In b fs
      → a.path ≡ b.path
      → fingerprint_is_installed a ≡ false
      → a.content_hash ≡ some x
      → b.content_hash ≡ some y
      → x ≢ y
      → check_fingerprints_strict metadata read hash fs ≢ fresh
  two_hashes-ne-fresh fs a b x y ia ib p q ha hb ne e =
      let h = (check_fingerprints_strict-fresh_iff fs).0 e in
      let (c, rc, hc) = strict_hash a x q ha (All-get _ fs h ia) in
      let (d, rd, hd) = strict_hash b y (sym (installed-path a b p) ∙ q) hb (All-get _ fs h ib) in
      ne (ground arith)

  -- A path that could not be read is never fresh, as long as no file has the length u64::MAX.
  pub unverifiable-ne-fresh :
      (normalize : String → String) (path : String)
      → ((m : Metadata) → metadata (normalize path) ≡ ok m → m.len < u64_max)
      → check_one metadata read hash (unverifiable_file_fingerprint normalize path) ≢ fresh
  unfolding check_one check_fingerprint_strict check_fingerprint unverifiable_file_fingerprint
  unverifiable-ne-fresh normalize path h e = elim (IoResult-cases (metadata (normalize path))) [
    | inl (m, there) ↦ ground (arith, h m there)
    | inr (kind, failed) ↦ ground arith
  ]

  -- An input recorded as absent is fresh exactly while the disk says that no such file is there.
  pub absent-fresh_iff :
      (normalize : String → String) (path : String)
      → (check_one metadata read hash (absent_file_fingerprint normalize path) ≡ fresh)
        ↔ (metadata (normalize path) ≡ err not_found)
  unfolding check_one check_fingerprint_strict check_fingerprint absent_file_fingerprint
  absent-fresh_iff normalize path = ground arith
