-- ===== src/Cache/Budget/Floor.antt =====
-- The per-project floor of the evictor (daemon/src/cache/budget.rs): no pass takes a shard's newest
-- `eviction_floor` entries.
use import_lens.Prelude.{
  ℕ, zero, suc, ◌+◌, ◌≤◌, ◌≡◌, refl, min, String, Bool, true, false, List, [], ◌∷◌, Option, none,
  some, arith, leb, ◌==◌, if◌then◌else◌, length,
}
use import_lens.Cache.Budget.Shard.{EvictableShard, set}
use import_lens.Cache.Budget.Loop.{evict_while_rule, live-le-length}
use import_lens.Cache.Budget.{
  Pass, retire, round, start, enough, evict, first_of_each, finish, finish_option, evict_to,
  evict_batch, evict_distinct, no_eviction, EvictionOutcome, eviction_batch, eviction_floor,
}

abbrev pub count : {S : Type 0} → EvictableShard S → S → ℕ
count shard s = (shard.rollup s).entry_count

-- What the trait's comments ask of a shard: `lowest_seq_keys` excludes the `floor` newest entries,
-- and `evict_keys` removes no more entries than it was given keys.
pub record KeepsFloor {S : Type 0} (shard : EvictableShard S) : Type 0 where
  pub excludes_newest :
      (s : S) (n floor : ℕ) (key : String) (keys : List String)
      → shard.lowest_seq_keys s n floor ≡ key ∷ keys
      → length (key ∷ keys) + floor ≤ count shard s
  pub removes_at_most :
      (s : S) (keys : List String)
      → count shard s ≤ count shard (shard.evict_keys s keys).1 + length keys

module _ {S : Type 0} (shard : EvictableShard S) where
  -- Shard by shard: as many entries as before, or at least the floor.
  abbrev pub KeptAbove : List S → List S → Type 0
  KeptAbove [] [] = Unit
  KeptAbove (s ∷ ss) (t ∷ ts) =
      (min eviction_floor (count shard s) ≤ count shard t) × KeptAbove ss ts
  KeptAbove _ _ = ⊥

  KeptAbove-refl : (ss : List S) → KeptAbove ss ss
  KeptAbove-refl [] = tt
  KeptAbove-refl (s ∷ ss) = (omega arith, KeptAbove-refl ss)

  KeptAbove-set :
      (ss ts : List S) (k : ℕ) (t : S)
      → eviction_floor ≤ count shard t
      → KeptAbove ss ts
      → KeptAbove ss (set ts k t)
  KeptAbove-set [] [] k t h kept = tt
  KeptAbove-set (s ∷ ss) (u ∷ ts) zero t h kept = (omega arith, kept.1)
  KeptAbove-set (s ∷ ss) (u ∷ ts) (suc k) t h kept = (kept.0, KeptAbove-set ss ts k t h kept.1)
  KeptAbove-set [] (u ∷ ts) k t h kept = absurd kept
  KeptAbove-set (s ∷ ss) [] k t h kept = absurd kept

  module _ (laws : KeepsFloor shard) where
    round-KeptAbove :
        (ss : List S) (p : Pass S) (i : ℕ) (s : S)
        → KeptAbove ss p.shards
        → KeptAbove ss (round shard p i s).shards
    unfolding round
    round-KeptAbove ss p i s kept = go (shard.lowest_seq_keys s eviction_batch eviction_floor) refl
      where
        go :
            (keys : List String)
            → shard.lowest_seq_keys s eviction_batch eviction_floor ≡ keys
            → KeptAbove ss
                (elim keys as (λ _. Pass S) [
                  | [] ↦ retire shard p s
                  | key ∷ keys ↦ evict_batch shard p i s (key ∷ keys)
                ]).shards
        go [] e = kept
        go (key ∷ keys) e =
            KeptAbove-set ss p.shards i _
              (omega (
                arith,
                laws.excludes_newest s eviction_batch eviction_floor key keys e,
                laws.removes_at_most s (key ∷ keys),
              ))
              kept

    evict_to-KeptAbove :
        (ss : List S) (budget low : ℕ) (p : Pass S)
        → KeptAbove ss p.shards
        → (outcome : EvictionOutcome) × (left : List S) × (evict_to shard budget low p
            ≡ some (outcome, left))
          × KeptAbove ss left
    unfolding evict_to finish finish_option
    evict_to-KeptAbove ss budget low p h =
        let (q, runs, kept, _) =
          evict_while_rule shard (λ q. KeptAbove ss q.shards) low
            (λ q i s k _ _. round-KeptAbove ss q i s k) (enough shard p) p
            (omega (arith, live-le-length shard p.exhausted p.shards)) h in
        ((finish shard budget q).0, q.shards, rw (runs, finish_option) refl, kept)

    -- Whatever the budget and the target, a pass returns and leaves every shard of a distinct id with
    -- as many entries as it had, or with no fewer than `eviction_floor`.
    pub evict-KeptAbove :
        (low_water_of : ℕ → ℕ) (budget : ℕ) (target : Option ℕ) (ss : List S)
        → (outcome : EvictionOutcome) × (left : List S) × (evict shard low_water_of budget target ss
            ≡ some (outcome, left))
          × KeptAbove (first_of_each shard [] ss) left
    unfolding evict
    evict-KeptAbove low_water_of budget target ss = go target (budget == 0)
      where
        distinct : List S
        distinct = first_of_each shard [] ss

        unchanged : KeptAbove distinct distinct
        unchanged = KeptAbove-refl distinct

        by_total :
            (under : Bool)
            → (outcome : EvictionOutcome) × (left : List S) × ((if under
                  then some (no_eviction, distinct)
                  else evict_to shard budget (low_water_of budget) (start shard distinct))
                ≡ some (outcome, left))
              × KeptAbove distinct left
        by_total true = (_, _, refl, unchanged)
        by_total false = evict_to-KeptAbove distinct budget _ (start shard distinct) unchanged

        go :
            (target : Option ℕ) (disabled : Bool)
            → (outcome : EvictionOutcome) × (left : List S) × ((if disabled
                  then some (no_eviction, distinct)
                  else evict_distinct shard low_water_of budget target distinct)
                ≡ some (outcome, left))
              × KeptAbove distinct left
        go target true = (_, _, refl, unchanged)
        go (some low) false =
            evict_to-KeptAbove distinct budget low (start shard distinct) unchanged
        go none false = by_total (leb (start shard distinct).total budget)
