-- ===== src/Cache/Budget/Shard.antt =====
-- The trait `EvictableShard` of daemon/src/cache/budget.rs, with the law that its callers rely on,
-- and the `ShardRollup` of daemon/src/cache/disk.rs.
use import_lens.Prelude.{ℕ, zero, suc, ◌≡◌, String, List, [], ◌∷◌}

pub record ShardRollup : Type 0 where
  pub total_bytes : ℕ
  pub oldest_seq : ℕ
  pub entry_count : ℕ

-- `evict_keys` changes the shard behind the reference, so it returns the shard as it leaves it.
pub record EvictableShard (S : Type 0) : Type 0 where
  pub shard_id : S → String
  pub rollup : S → ShardRollup
  pub lowest_seq_keys : S → ℕ → ℕ → List String
  pub evict_keys : S → List String → ℕ × S
  pub shard_id_fixed : (s : S) (keys : List String) → shard_id (evict_keys s keys).1 ≡ shard_id s

abbrev pub set {ℓ} : {S : Type ℓ} → List S → ℕ → S → List S
set [] i v = []
set (x ∷ xs) zero v = v ∷ xs
set (x ∷ xs) (suc i) v = x ∷ set xs i v
