-- ===== src/Cache/Budget.antt =====
-- daemon/src/cache/budget.rs: the byte-budget evictor over the shards of the disk cache. A shard
-- is used through the trait `EvictableShard`; the loop runs on fuel.
pub mod Shard
pub mod Loop
pub mod Floor
pub mod Outcome
use import_lens.Prelude.{
  ℕ, zero, suc, ◌+◌, ◌-◌, ◌*◌, String, Bool, true, false, not, ◌&&◌, List, [], ◌∷◌, Option, none,
  some, map, ltb, leb, ◌==◌, if◌then◌else◌, u64_max, length, get, insert, contains,
}
use Shard.{ShardRollup, EvictableShard, set}

abbrev pub eviction_floor : ℕ
eviction_floor = 128

abbrev pub eviction_batch : ℕ
eviction_batch = 128

pub record EvictionOutcome : Type 0 where
  pub evicted_bytes : ℕ
  pub evicted_keys : ℕ
  pub still_over_budget : Bool

abbrev pub no_eviction : EvictionOutcome
no_eviction = record { evicted_bytes = 0; evicted_keys = 0; still_over_budget = false }

abbrev pub Rollups : Type 0
Rollups = List (String × ShardRollup)

-- The variables of the loop, with the shards that `evict_keys` changes.
pub record Pass (S : Type 0) : Type 0 where
  pub shards : List S
  pub rollups : Rollups
  pub total : ℕ
  pub exhausted : List String
  pub outcome : EvictionOutcome

abbrev pub total_bytes : Rollups → ℕ
total_bytes [] = 0
total_bytes ((id, r) ∷ m) = r.total_bytes + total_bytes m

abbrev pub above_floor : Option ShardRollup → Bool
above_floor none = false
above_floor (some r) = ltb eviction_floor r.entry_count

abbrev pub seq_or_max : Option ShardRollup → ℕ
seq_or_max none = u64_max
seq_or_max (some r) = r.oldest_seq

module _ {S : Type 0} (shard : EvictableShard S) where
  open shard use {shard_id, rollup, lowest_seq_keys, evict_keys}

  -- The first shard of each id; `seen_ids` holds those met.
  unfoldable pub first_of_each : List String → List S → List S
  first_of_each seen [] = []
  first_of_each seen (s ∷ ss) =
      let rest = first_of_each (shard_id s ∷ seen) ss in
      let skipped = first_of_each seen ss in
      if contains (shard_id s) seen then skipped else s ∷ rest

  -- The two `filter`s of the victim selection.
  unfoldable pub is_candidate : Rollups → List String → S → Bool
  is_candidate rollups exhausted s =
      not (contains (shard_id s) exhausted) && above_floor (get (shard_id s) rollups)

  unfoldable pub older : Rollups → ℕ × S → Option (ℕ × S) → Option (ℕ × S)
  older rollups (i, s) none = some (i, s)
  older rollups (i, s) (some (j, t)) =
      if leb (seq_or_max (get (shard_id s) rollups)) (seq_or_max (get (shard_id t) rollups))
      then some (i, s)
      else some (j, t)

  -- `min_by_key`: the first of the candidates with the smallest `oldest_seq`, with its position.
  unfoldable pub select_victim : Rollups → List String → ℕ → List S → Option (ℕ × S)
  select_victim rollups exhausted i [] = none
  select_victim rollups exhausted i (s ∷ ss) =
      let rest = select_victim rollups exhausted (suc i) ss in
      if is_candidate rollups exhausted s then older rollups (i, s) rest else rest

  unfoldable pub victim : Pass S → Option (ℕ × S)
  victim p = select_victim p.rollups p.exhausted 0 p.shards

  unfoldable pub retire : Pass S → S → Pass S
  retire p s = record p { exhausted = shard_id s ∷ p.exhausted }

  -- The rest of a round, after `evict_keys` has freed `freed` bytes and left `s'`.
  unfoldable pub account : Pass S → ℕ → S → List String → ℕ → S → Pass S
  account p i s keys freed s' = record p {
    shards = set p.shards i s';
    rollups = insert (shard_id s) (rollup s') p.rollups;
    total = p.total - freed;
    exhausted = if freed == 0 then shard_id s ∷ p.exhausted else p.exhausted;
    outcome = record (p.outcome) {
      evicted_bytes = p.outcome.evicted_bytes + freed;
      evicted_keys = p.outcome.evicted_keys + length keys;
    };
  }

  evict_batch : Pass S → ℕ → S → List String → Pass S
  evict_batch p i s keys = let (freed, s') = evict_keys s keys in account p i s keys freed s'

  -- One round for the victim at position `i`.
  unfoldable pub round : Pass S → ℕ → S → Pass S
  unfolding retire evict_batch account
  round p i s = elim (lowest_seq_keys s eviction_batch eviction_floor) [
    | [] ↦ retire p s
    | key ∷ keys ↦ evict_batch p i s (key ∷ keys)
  ]

  -- `while total > low_water`; `none` says that the fuel has run out.
  unfoldable pub evict_while : ℕ → ℕ → Pass S → Option (Pass S)
  evict_while zero low_water p = none
  evict_while (suc fuel) low_water p = elim (ltb low_water p.total) [
    | false ↦ some p
    | true ↦ elim (victim p) [
      | none ↦ some p
      | some (i, s) ↦ evict_while fuel low_water (round p i s)
    ]
  ]

  unfoldable pub start : List S → Pass S
  start shards = record {
    shards = shards;
    rollups = map (λ s. (shard_id s, rollup s)) shards;
    total = total_bytes (map (λ s. (shard_id s, rollup s)) shards);
    exhausted = [];
    outcome = no_eviction;
  }

  -- Enough for every pass (`evict_while_total`).
  abbrev pub enough : Pass S → ℕ
  enough p = p.total + length p.shards + 1

  finish : ℕ → Pass S → EvictionOutcome × List S
  finish budget_bytes p =
      (record (p.outcome) { still_over_budget = ltb budget_bytes p.total }, p.shards)

  finish_option : ℕ → Option (Pass S) → Option (EvictionOutcome × List S)
  finish_option budget_bytes none = none
  finish_option budget_bytes (some p) = some (finish budget_bytes p)

  evict_to : ℕ → ℕ → Pass S → Option (EvictionOutcome × List S)
  evict_to budget_bytes low_water p =
      finish_option budget_bytes (evict_while (enough p) low_water p)

  -- `low_water_of b` is `(b as f64 * LOW_WATER) as u64`.
  module _ (low_water_of : ℕ → ℕ) where
    evict_distinct : ℕ → Option ℕ → List S → Option (EvictionOutcome × List S)
    evict_distinct budget_bytes (some target) shards = evict_to budget_bytes target (start shards)
    evict_distinct budget_bytes none shards =
        if leb (start shards).total budget_bytes
        then some (no_eviction, shards)
        else evict_to budget_bytes (low_water_of budget_bytes) (start shards)

    -- The outcome, and the shards of distinct ids as the pass leaves them.
    unfoldable pub evict : ℕ → Option ℕ → List S → Option (EvictionOutcome × List S)
    unfolding finish finish_option evict_to evict_distinct start
    evict budget_bytes target_bytes shards =
        if budget_bytes == 0
        then some (no_eviction, first_of_each [] shards)
        else evict_distinct budget_bytes target_bytes (first_of_each [] shards)

    pub evict_to_budget : ℕ → List S → Option (EvictionOutcome × List S)
    evict_to_budget budget_bytes shards = evict budget_bytes none shards

    pub evict_down_to : ℕ → List S → ℕ → Option (EvictionOutcome × List S)
    evict_down_to budget_bytes shards target_bytes = evict budget_bytes (some target_bytes) shards
