-- ===== src/Registry/Entry.antt =====
-- daemon/src/registry/types.rs: what is kept of a package of the npm registry. An error stands for its
-- message, by the format it is made from.
use import_lens.Prelude.{ℕ, String, Bool, List, Option}

pub record RegistryPackageMetadata : Type 0 where
  pub latest_version : Option String
  pub latest_published_at : Option String
  pub deprecated_versions : List String

pub data RegistryError : Type 0 where
  rate_limit : RegistryError
  responded_with : ℕ → RegistryError
  message : String → RegistryError

pub record RegistryPackageMetadataEntry : Type 0 where
  pub metadata : Option RegistryPackageMetadata
  pub updated_at : ℕ
  pub retry_after : Option ℕ
  pub error : Option RegistryError
  pub not_found : Bool

abbrev pub Entries : Type 0
Entries = List (String × RegistryPackageMetadataEntry)
