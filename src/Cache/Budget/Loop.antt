-- ===== src/Cache/Budget/Loop.antt =====
-- The eviction loop of daemon/src/cache/budget.rs: it ends, and how it ends.
use native.Mathlib.Nat.{le_trans}
use import_lens.Prelude.{
  ℕ, zero, suc, ◌+◌, ◌≤◌, ◌<◌, ◌≡◌, ◌⊎◌, inl, inr, refl, ap, sym, subst, ◌∙◌, String, Bool, true,
  false, List, [], ◌∷◌, Option, none, some, arith, tests, ltb, leb→le, leb, if◌then◌else◌, length,
  get_elem?, get, contains, All, All-mono, Bool-cases, Option-cases,
}
use import_lens.Cache.Budget.Shard.{EvictableShard, set}
use import_lens.Cache.Budget.{
  Pass, Rollups, seq_or_max, is_candidate, older, select_victim, victim, retire, account, round,
  evict_while, eviction_batch, eviction_floor,
}

module _ {S : Type 0} (shard : EvictableShard S) where
  open shard use {shard_id, rollup, lowest_seq_keys, evict_keys, shard_id_fixed}

  -- What the selection says of its answer: a candidate of the list, and none is older.
  abbrev pub Selected : Rollups → List String → ℕ → List S → Option (ℕ × S) → Type 0
  Selected rollups ex i ss none = All (λ t. is_candidate shard rollups ex t ≡ false) ss
  Selected rollups ex i ss (some (j, s)) =
      (k : ℕ) × (j ≡ i + k)
      × (get_elem? ss k ≡ some s)
      × (is_candidate shard rollups ex s ≡ true)
      × All
          (λ t.
            is_candidate shard rollups ex t ≡ true
            → seq_or_max (get (shard_id s) rollups) ≤ seq_or_max (get (shard_id t) rollups))
          ss

  abbrev seq : Rollups → S → ℕ
  seq rollups s = seq_or_max (get (shard_id s) rollups)

  Selected-cons :
      (rollups : Rollups) (ex : List String) (i : ℕ) (s : S) (ss : List S) (o : Option (ℕ × S))
      (b : Bool)
      → is_candidate shard rollups ex s ≡ b
      → Selected rollups ex (suc i) ss o
      → Selected rollups ex i (s ∷ ss) (if b then older shard rollups (i, s) o else o)
  unfolding older
  Selected-cons rollups ex i s ss none false e h = (e, h)
  Selected-cons rollups ex i s ss (some (j, t)) false e (k, at, here, cand, least) =
      (suc k, omega arith, here, cand, (λ c. absurd (cc), least))
  Selected-cons rollups ex i s ss none true e h =
      (0, omega arith, refl, e, (λ _. omega arith, All-mono _ _ (λ t f c. absurd (cc)) ss h))
  Selected-cons rollups ex i s ss (some (j, t)) true e (k, at, here, cand, least) =
      elim (Bool-cases (leb (seq rollups s) (seq rollups t))) [
        | inl first ↦ rw first (
          0,
          omega arith,
          refl,
          e,
          (λ _. omega arith, All-mono _ _ (λ u f c. le_trans (leb→le _ _ first) (f c)) ss least),
        )
        | inr second ↦ rw second (suc k, omega arith, here, cand, (λ _. omega tests, least))
      ]

  pub select_victim-Selected :
      (rollups : Rollups) (ex : List String) (i : ℕ) (ss : List S)
      → Selected rollups ex i ss (select_victim shard rollups ex i ss)
  unfolding select_victim
  select_victim-Selected rollups ex i [] = tt
  select_victim-Selected rollups ex i (s ∷ ss) =
      Selected-cons rollups ex i s ss (select_victim shard rollups ex (suc i) ss) _ refl
        (select_victim-Selected rollups ex (suc i) ss)

  -- How many shards the pass has not given up on.
  pub live : List String → List S → ℕ
  live ex [] = 0
  live ex (s ∷ ss) = let rest = live ex ss in if contains (shard_id s) ex then rest else suc rest

  pub live-le-length : (ex : List String) (ss : List S) → live ex ss ≤ length ss
  unfolding live
  live-le-length ex [] = omega arith
  live-le-length ex (s ∷ ss) = ground (arith, live-le-length ex ss)

  live-set :
      (ex : List String) (ss : List S) (k : ℕ) (s s' : S)
      → get_elem? ss k ≡ some s
      → shard_id s' ≡ shard_id s
      → live ex (set ss k s') ≡ live ex ss
  unfolding live
  live-set ex [] k s s' here e = refl
  live-set ex (t ∷ ss) zero s s' here e =
      let e' : shard_id s' ≡ shard_id t = e ∙ ap (λ o. shard_id (get_or_self o)) (sym here) in rw e'
    where
      get_or_self : Option S → S
      get_or_self none = t
      get_or_self (some x) = x
  live-set ex (t ∷ ss) (suc k) s s' here e = rw (live-set ex ss k s s' here e)

  live-cons-le : (x : String) (ex : List String) (ss : List S) → live (x ∷ ex) ss ≤ live ex ss
  unfolding live contains
  live-cons-le x ex [] = omega arith
  live-cons-le x ex (s ∷ ss) = ground (arith, live-cons-le x ex ss)

  live-retire :
      (ex : List String) (ss : List S) (k : ℕ) (s : S)
      → get_elem? ss k ≡ some s
      → contains (shard_id s) ex ≡ false
      → live (shard_id s ∷ ex) ss < live ex ss
  unfolding live contains
  live-retire ex [] k s here new = cc
  live-retire ex (t ∷ ss) zero s here new = ground (arith, live-cons-le (shard_id s) ex ss)
  live-retire ex (t ∷ ss) (suc k) s here new = ground (arith, live-retire ex ss k s here new)

  length-set : (ss : List S) (k : ℕ) (s' : S) → length (set ss k s') ≡ length ss
  length-set [] k s' = refl
  length-set (t ∷ ss) zero s' = refl
  length-set (t ∷ ss) (suc k) s' = ap suc (length-set ss k s')

  abbrev measure : Pass S → ℕ
  measure p = p.total + live p.exhausted p.shards

  is_candidate-live :
      (rollups : Rollups) (ex : List String) (s : S)
      → is_candidate shard rollups ex s ≡ true
      → contains (shard_id s) ex ≡ false
  unfolding is_candidate
  is_candidate-live rollups ex s h = ground arith

  -- A round either frees bytes or gives up on one more shard.
  account-measure :
      (p : Pass S) (k : ℕ) (s s' : S) (keys : List String) (freed : ℕ)
      → 0 < p.total
      → get_elem? p.shards k ≡ some s
      → contains (shard_id s) p.exhausted ≡ false
      → shard_id s' ≡ shard_id s
      → measure (account shard p k s keys freed s') < measure p
  unfolding account
  account-measure p k s s' keys freed pos here new same = ground (
    arith,
    live-set p.exhausted p.shards k s s' here same,
    live-set (shard_id s ∷ p.exhausted) p.shards k s s' here same,
    live-retire p.exhausted p.shards k s here new,
  )

  round-measure :
      (p : Pass S) (k : ℕ) (s : S)
      → 0 < p.total
      → get_elem? p.shards k ≡ some s
      → contains (shard_id s) p.exhausted ≡ false
      → measure (round shard p k s) < measure p
  unfolding round retire
  round-measure p k s pos here new =
      elim (lowest_seq_keys s eviction_batch eviction_floor)
        as (λ keys.
          measure (elim keys [
            | [] ↦ retire shard p s
            | key ∷ keys ↦
                account shard p k s (key ∷ keys) (evict_keys s (key ∷ keys)).0
                  (evict_keys s (key ∷ keys)).1
          ])
          < measure p) [
            | [] ↦ ground (arith, live-retire p.exhausted p.shards k s here new)
            | key ∷ keys ↦
                account-measure p k s _ (key ∷ keys) _ pos here new (shard_id_fixed s (key ∷ keys))
          ]

  victim-at :
      (p : Pass S) (i : ℕ) (s : S)
      → victim shard p ≡ some (i, s)
      → (get_elem? p.shards i ≡ some s) × (is_candidate shard p.rollups p.exhausted s ≡ true)
  unfolding victim
  victim-at p i s h =
      let found : Selected p.rollups p.exhausted 0 p.shards (some (i, s)) =
        subst (Selected p.rollups p.exhausted 0 p.shards) h
          (select_victim-Selected p.rollups p.exhausted 0 p.shards) in
      let (k, at, here, cand, _) = found in
      let e : i ≡ k = omega arith in (subst (λ j. get_elem? p.shards j ≡ some s) (sym e) here, cand)

  no_victim :
      (p : Pass S)
      → victim shard p ≡ none
      → All (λ t. is_candidate shard p.rollups p.exhausted t ≡ false) p.shards
  unfolding victim
  no_victim p h =
      subst (Selected p.rollups p.exhausted 0 p.shards) h
        (select_victim-Selected p.rollups p.exhausted 0 p.shards)

  -- How the loop ends: at the low-water mark, or with no shard left to take from.
  abbrev pub Ends : ℕ → Pass S → Type 0
  Ends low q =
      (q.total ≤ low) ⊎ All (λ t. is_candidate shard q.rollups q.exhausted t ≡ false) q.shards

  -- The rule of the loop: what every round keeps holds when it ends, and it ends.
  pub evict_while_rule {ℓ} :
      (P : Pass S → Type ℓ) (low : ℕ)
      → ((p : Pass S) (i : ℕ) (s : S)
          → P p
          → get_elem? p.shards i ≡ some s
          → is_candidate shard p.rollups p.exhausted s ≡ true
          → P (round shard p i s))
      → (fuel : ℕ) (p : Pass S) → measure p < fuel
      → P p
      → (q : Pass S) × (evict_while shard fuel low p ≡ some q) × P q × Ends low q
  unfolding evict_while
  evict_while_rule P low keep zero p m h = absurd (omega arith)
  evict_while_rule P low keep (suc fuel) p m h = elim (Bool-cases (ltb low p.total)) [
    | inl over ↦ elim (Option-cases (victim shard p)) [
      | inl nobody ↦
          (p, rw (over, evict_while) (rw (nobody, evict_while) refl), h, inr (no_victim p nobody))
      | inr ((i, s), some_victim) ↦
          let (here, cand) = victim-at p i s some_victim in
          let new = is_candidate-live p.rollups p.exhausted s cand in
          let falls = round-measure p i s (omega tests) here new in
          let (q, runs, holds, ends) =
            evict_while_rule P low keep fuel (round shard p i s) (omega arith)
              (keep p i s h here cand) in
          (q, rw (over, evict_while) (rw (some_victim, evict_while) runs), holds, ends)
    ]
    | inr under ↦ (p, rw (under, evict_while) refl, h, inl (omega tests))
  ]
