-- ===== src/Cache/Identity.antt =====
-- daemon/src/cache/key.rs: the key of a cache entry, which is an identity in a serialized form, and what
-- is decided from the key alone. A key is the list of its bytes. The serializer `rmp_serde`, the stat of
-- a path and the existence probe are parameters.
pub mod Keys
pub mod Roots
use import_lens.Prelude.{
  strip_prefix, bytes_eq, split_on, ℕ, String, Bool, true, false, not, ◌&&◌, ◌||◌, List, [], ◌∷◌,
  ◌++◌, Option, none, some, ◌==◌, if◌then◌else◌, any, codes, contains, ite, text_dec,
}
use import_lens.Cache.Fingerprint.{IoResult, ok, err, ErrorKind, not_found, other_error}
use import_lens.Cache.Hex.{hex_encode, hex_decode, ◌>>=◌}

pub data ImportRuntime : Type 0 where
  component client server : ImportRuntime

pub data ImportKind : Type 0 where
  named default_import namespace dynamic : ImportKind

pub record CacheIdentity : Type 0 where
  pub analyzer_version : String
  pub specifier : String
  pub package_name : String
  pub package_version : String
  pub package_root : Option String
  pub entry_path : Option String
  pub runtime : ImportRuntime
  pub import_kind : ImportKind
  pub named_exports : List String

-- "v4:"
abbrev pub key_prefix : List ℕ
key_prefix = codes "v4:"

unfoldable pub is_first_party_path : Option String → Bool
unfolding split_on bytes_eq
is_first_party_path none = false
is_first_party_path (some path) =
    not (any (bytes_eq (codes "node_modules")) (split_on b'/' (codes path)))

unfoldable pub starts_with : List ℕ → List ℕ → Bool
unfolding strip_prefix
starts_with prefix key = elim (strip_prefix prefix key) [ none ↦ false | some _ ↦ true ]

-- `symlink_metadata` of a path, as far as it matters here.
module _ (symlink_metadata : String → IoResult (Unit {0})) where
  unfoldable pub path_is_definitely_gone : String → Bool
  path_is_definitely_gone path = elim (symlink_metadata path) [
    | ok _ ↦ false
    | err not_found ↦ true
    | err other_error ↦ false
  ]

  unfoldable pub is_gone : Option String → Bool
  unfolding path_is_definitely_gone
  is_gone none = false
  is_gone (some path) = path_is_definitely_gone path

  unfoldable pub identity_is_orphan : String → CacheIdentity → Bool
  unfolding is_gone
  identity_is_orphan version identity =
      if ite (text_dec identity.analyzer_version version) false true
      then true
      else if is_gone identity.entry_path
      then true
      else is_gone identity.package_root

module _ (to_vec : CacheIdentity → List ℕ) (from_slice : List ℕ → Option CacheIdentity) where
  unfoldable pub encode_cache_identity : CacheIdentity → List ℕ
  unfolding hex_encode
  encode_cache_identity identity = key_prefix ++ hex_encode (to_vec identity)

  unfoldable pub decode_cache_identity : List ℕ → Option CacheIdentity
  unfolding strip_prefix hex_decode
  decode_cache_identity key = do
    encoded ← strip_prefix key_prefix key
    bytes ← hex_decode encoded
    from_slice bytes

  unfoldable pub cache_key_is_first_party : List ℕ → Bool
  unfolding decode_cache_identity is_first_party_path
  cache_key_is_first_party key = elim (decode_cache_identity key) [
    | none ↦ false
    | some identity ↦ is_first_party_path identity.entry_path
  ]

  unfoldable pub cache_key_matches_any_package : List ℕ → List String → Bool
  unfolding decode_cache_identity starts_with contains
  cache_key_matches_any_package key names = elim (decode_cache_identity key) [
    | some identity ↦ contains identity.package_name names
    | none ↦
        any
          (λ name.
            starts_with (codes name ++ codes "@") key || starts_with (codes name ++ codes "/") key)
          names
  ]

  module _ (symlink_metadata : String → IoResult (Unit {0})) where
    unfoldable pub cache_key_is_orphan : List ℕ → String → Bool
    unfolding decode_cache_identity identity_is_orphan
    cache_key_is_orphan key version = elim (decode_cache_identity key) [
      | none ↦ false
      | some identity ↦ identity_is_orphan symlink_metadata version identity
    ]

pub data ProjectRootState : Type 0 where
  present orphaned volume_unreachable : ProjectRootState

abbrev pub is_there : IoResult Bool → Bool
is_there (ok true) = true
is_there (ok false) = false
is_there (err _) = false

module _ (ancestors : String → List String) (exists : String → IoResult Bool) where
  -- `ancestors` gives the path's ancestors without the path itself.
  unfoldable pub classify_project_root_with : String → ProjectRootState
  classify_project_root_with root = elim (exists root) [
    | ok true ↦ present
    | ok false ↦
        if any (λ a. is_there (exists a)) (ancestors root) then orphaned else volume_unreachable
    | err _ ↦ volume_unreachable
  ]
