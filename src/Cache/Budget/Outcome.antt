-- ===== src/Cache/Budget/Outcome.antt =====
-- What a whole pass of the evictor (daemon/src/cache/budget.rs) reports.
use import_lens.Prelude.{
  ℕ, ◌-◌, ◌≤◌, ◌<◌, ◌≡◌, ◌⊎◌, inl, inr, refl, ap, false, List, [], ◌∷◌, Option, none, some, arith,
  ltb, leb, ◌==◌, All, Bool-cases,
}
use import_lens.Cache.Budget.Shard.{EvictableShard}
use import_lens.Cache.Budget.Loop.{evict_while_rule, live-le-length}
use import_lens.Cache.Budget.{
  Pass, is_candidate, retire, account, round, evict_while, start, enough, evict, first_of_each,
  finish, finish_option, evict_to, no_eviction, EvictionOutcome, eviction_batch, eviction_floor,
}

not_zero : (n : ℕ) → 0 < n → (n == 0) ≡ false
not_zero n h = ground arith

module _ {S : Type 0} (shard : EvictableShard S) where
  open shard use {shard_id, rollup, lowest_seq_keys, evict_keys, shard_id_fixed}

  -- Bytes that have left the total stand in the outcome.
  abbrev Accounted : ℕ → Pass S → Type 0
  Accounted before q = q.total ≡ before - q.outcome.evicted_bytes

  round-Accounted :
      (before : ℕ) (p : Pass S) (i : ℕ) (s : S)
      → Accounted before p
      → Accounted before (round shard p i s)
  unfolding round
  round-Accounted before p i s h =
      elim (lowest_seq_keys s eviction_batch eviction_floor)
        as (λ keys. Accounted before (elim keys [
          | [] ↦ retire shard p s
          | key ∷ keys ↦
              account shard p i s (key ∷ keys) (evict_keys s (key ∷ keys)).0
                (evict_keys s (key ∷ keys)).1
        ])) [ [] ↦ h | key ∷ keys ↦ omega arith ]

  -- The loop needs at most `enough p` rounds, whatever the shards answer. It ends with the total at
  -- or below the low-water mark, or with every shard given up on or down to its floor; and the total
  -- is what it was, less the bytes that the outcome reports.
  pub evict_while_total :
      (low : ℕ) (p : Pass S)
      → p.outcome.evicted_bytes ≡ 0
      → (q : Pass S) × (evict_while shard (enough shard p) low p ≡ some q)
        × (q.total ≡ p.total - q.outcome.evicted_bytes)
        × ((q.total ≤ low) ⊎ All (λ t. is_candidate shard q.rollups q.exhausted t ≡ false) q.shards)
  evict_while_total low p h =
      evict_while_rule shard (Accounted p.total) low
        (λ q i s a _ _. round-Accounted p.total q i s a) (enough shard p) p
        (omega (arith, live-le-length shard p.exhausted p.shards)) (omega arith)

  abbrev Reports : ℕ → ℕ → Option (EvictionOutcome × List S) → Type 0
  Reports budget before r =
      (outcome : EvictionOutcome) × (left : List S) × (r ≡ some (outcome, left))
      × (outcome.still_over_budget ≡ ltb budget (before - outcome.evicted_bytes))

  evict_to-Reports :
      (budget low : ℕ) (p : Pass S)
      → p.outcome.evicted_bytes ≡ 0
      → Reports budget p.total (evict_to shard budget low p)
  unfolding evict_to finish finish_option
  evict_to-Reports budget low p h =
      let (q, runs, counted, _) = evict_while_total low p h in
      (
        record (q.outcome) { still_over_budget = ltb budget q.total },
        q.shards,
        rw (runs, finish_option) refl,
        ap (ltb budget) counted,
      )

  module _ (low_water_of : ℕ → ℕ) where
    -- A pass with a budget always returns, and reports `still_over_budget` exactly if the bytes that
    -- it found, less the bytes that it freed, exceed the budget.
    pub evict-still_over_budget :
        (budget : ℕ) (target : Option ℕ) (ss : List S)
        → 0 < budget
        → (outcome : EvictionOutcome) × (left : List S) × (evict shard low_water_of budget target ss
            ≡ some (outcome, left))
          × (outcome.still_over_budget
              ≡ ltb budget
                  ((start shard (first_of_each shard [] ss)).total - outcome.evicted_bytes))
    unfolding evict
    evict-still_over_budget budget (some low) ss pos =
        rw (not_zero budget pos)
          (evict_to-Reports budget low (start shard (first_of_each shard [] ss)) refl)
    evict-still_over_budget budget none ss pos =
        rw (not_zero budget pos) (elim (Bool-cases (leb total budget)) [
          | inl under ↦ (no_eviction, distinct, rw under refl, ground arith)
          | inr over ↦
              let (outcome, left, runs, reports) =
                evict_to-Reports budget (low_water_of budget) (start shard distinct) refl in
              (outcome, left, rw over runs, reports)
        ])
      where
        distinct : List S
        distinct = first_of_each shard [] ss

        total : ℕ
        total = (start shard distinct).total
