-- ===== src/Cache/Identity/Keys.antt =====
-- What the keys of daemon/src/cache/key.rs decide, against the identities that they encode.
use import_lens.Prelude.{
  ℕ, ◌<◌, ◌≡◌, ◌↔◌, ◌⊎◌, inl, inr, refl, sym, subst, String, Bool, true, false, List, Option, none,
  some, if◌then◌else◌, ite, text_dec, contains-In, In-contains, In, All,
}
use import_lens.Cache.Fingerprint.{IoResult, ok, err, not_found, other_error}
use import_lens.Cache.Hex.{hex_decode-encode}
use import_lens.Cache.Identity.{
  CacheIdentity, encode_cache_identity, decode_cache_identity, cache_key_matches_any_package,
  path_is_definitely_gone, is_gone, identity_is_orphan, cache_key_is_orphan,
}

-- What is asked of the serializer for an identity: bytes, that it reads back.
pub record Serializes (to_vec : CacheIdentity → List ℕ) (from_slice : List ℕ → Option CacheIdentity)
    (i : CacheIdentity) : Type 0 where
  pub bytes : All (λ b. b < 256) (to_vec i)
  pub reads_back : from_slice (to_vec i) ≡ some i

module _ (symlink_metadata : String → IoResult (Unit {0})) where
  -- The stat of the path reports that nothing is there.
  abbrev pub Gone : Option String → Type 0
  Gone path = (p : String) × ((path ≡ some p) × (symlink_metadata p ≡ err not_found))

  stat_gone : IoResult (Unit {0}) → Bool
  stat_gone r = elim r [ ok _ ↦ false | err not_found ↦ true | err other_error ↦ false ]

  stat_gone-not_found : (r : IoResult (Unit {0})) → stat_gone r ≡ true → r ≡ err not_found
  unfolding stat_gone
  stat_gone-not_found (ok _) h = absurd (cc)
  stat_gone-not_found (err not_found) h = refl
  stat_gone-not_found (err other_error) h = absurd (cc)

  is_gone_iff : (path : Option String) → (is_gone symlink_metadata path ≡ true) ↔ Gone path
  unfolding is_gone path_is_definitely_gone stat_gone
  is_gone_iff none = (λ h. absurd (cc), λ (p, (e, _)). absurd (cc))
  is_gone_iff (some path) = (
    λ h. (path, (refl, stat_gone-not_found (symlink_metadata path) h)),
    λ (p, (e, g)).
        subst (λ o. is_gone symlink_metadata o ≡ true) (sym e)
          (subst (λ r. stat_gone r ≡ true) (sym g) refl),
  )

  three : Bool → Bool → Bool → Bool
  three a b c = if a then true else if b then true else c

  three_iff : (a b c : Bool) → (three a b c ≡ true) ↔ ((a ≡ true) ⊎ ((b ≡ true) ⊎ (c ≡ true)))
  unfolding three
  three_iff true b c = (λ h. inl refl, λ h. refl)
  three_iff false true c = (λ h. inr (inl refl), λ h. refl)
  three_iff false false c = (
    λ h. inr (inr h),
    λ h. elim h [ inl e ↦ absurd (cc) | inr e ↦ elim e [ inl f ↦ absurd (cc) | inr f ↦ f ] ],
  )

  differs : String → String → Bool
  differs a b = ite (text_dec a b) false true

  differs_iff : (a b : String) → (differs a b ≡ true) ↔ ¬ (a ≡ b)
  unfolding differs
  differs_iff a b = elim (text_dec a b) as (λ d. (ite d false true ≡ true) ↔ ¬ (a ≡ b)) [
    | yes e ↦ (λ h. absurd (cc), λ n. absurd (n e))
    | no d ↦ (λ h. d, λ n. refl)
  ]

  identity_is_orphan_iff :
      (i : CacheIdentity) (version : String)
      → (identity_is_orphan symlink_metadata version i ≡ true)
        ↔ (¬ (i.analyzer_version ≡ version) ⊎ (Gone i.entry_path ⊎ Gone i.package_root))
  unfolding identity_is_orphan differs three
  identity_is_orphan_iff i version =
      let t =
        three_iff (differs i.analyzer_version version) (is_gone symlink_metadata i.entry_path)
          (is_gone symlink_metadata i.package_root) in
      let v = differs_iff i.analyzer_version version in
      let entry = is_gone_iff i.entry_path in
      let root = is_gone_iff i.package_root in
      (
        λ h. elim (t.0 h) [
          | inl a ↦ inl (v.0 a)
          | inr b ↦ inr (elim b [ inl c ↦ inl (entry.0 c) | inr c ↦ inr (root.0 c) ])
        ],
        λ h. t.1 (elim h [
          | inl a ↦ inl (v.1 a)
          | inr b ↦ inr (elim b [ inl c ↦ inl (entry.1 c) | inr c ↦ inr (root.1 c) ])
        ]),
      )

module _ (to_vec : CacheIdentity → List ℕ) (from_slice : List ℕ → Option CacheIdentity)
    (i : CacheIdentity) (serializes : Serializes to_vec from_slice i) where
  -- The identity of a key is the one that the key was made from, if the serializer
  -- reads back what it wrote of that identity.
  pub decode_cache_identity-encode :
      decode_cache_identity to_vec from_slice (encode_cache_identity to_vec from_slice i) ≡ some i
  unfolding decode_cache_identity encode_cache_identity
  decode_cache_identity-encode =
      rw (hex_decode-encode (to_vec i) serializes.bytes) serializes.reads_back

  -- Dropping the cached results of some packages takes the entries of exactly these packages.
  pub matches_any_package-encode :
      (names : List String)
      → (cache_key_matches_any_package to_vec from_slice
            (encode_cache_identity to_vec from_slice i)
            names
          ≡ true)
        ↔ In i.package_name names
  unfolding cache_key_matches_any_package
  matches_any_package-encode names =
      rw (decode_cache_identity-encode, cache_key_matches_any_package)
        (contains-In i.package_name names, In-contains i.package_name names)

  module _ (symlink_metadata : String → IoResult (Unit {0})) where
    -- A purge takes the entry of an identity exactly if another version of the analyzer made it, or the
    -- stat of its entry file or of its package's root reports that nothing is there. A stat that fails in
    -- another way never does.
    pub is_orphan-encode :
        (version : String)
        → (cache_key_is_orphan to_vec from_slice symlink_metadata
              (encode_cache_identity to_vec from_slice i)
              version
            ≡ true)
          ↔ (¬ (i.analyzer_version ≡ version)
              ⊎ (Gone symlink_metadata i.entry_path ⊎ Gone symlink_metadata i.package_root))
    unfolding cache_key_is_orphan
    is_orphan-encode version =
        rw (decode_cache_identity-encode, cache_key_is_orphan)
          (identity_is_orphan_iff symlink_metadata i version)
