-- ===== src/Cache/Import/Mirror/Settled.antt =====
-- daemon/src/cache/memory.rs: no entry from before a clear outlives the inserts that raced it.
use import_lens.Prelude.{
  ℕ, ◌≤◌, ◌≡◌, ◌⊎◌, inl, inr, refl, sym, ap, subst, ◌∙◌, String, Bool, true, false, some, ◌==◌,
  ==_iff, get, text_dec, get-remove, get-insert, ite, arith, Bool-cases, ℕ_discrete,
}
use import_lens.Cache.Import.Mirror.{
  MirrorEntry, Phase, idle, captured, checked, placed, finished, Mirror, set_phase, initial, place,
  roll_back, check_again, bump, wipe, take_out, Step, captures, checks, places, checks_again, bumps,
  wipes, takes_out, Reachable, start, then_step, AtRest,
}

-- An entry is current, or its thread is to check again, or a clear is to wipe it.
abbrev Backed : Mirror → String → MirrorEntry → Type 0
Backed m key e =
    (e.generation ≡ m.clear_generation)
    ⊎ ((m.phase e.identity ≡ placed key e.generation) ⊎ (1 ≤ m.clearing))

abbrev AllBacked : Mirror → Type 0
AllBacked m = (key : String) (e : MirrorEntry) → get key m.memory ≡ some e → Backed m key e

abbrev key_or : String → Phase → String
key_or k (placed key generation) = key
key_or k _ = k

abbrev generation_or : ℕ → Phase → ℕ
generation_or n (placed key generation) = generation
generation_or n _ = n

abbrev is_placed : Phase → Bool
is_placed (placed key generation) = true
is_placed _ = false

pub set_phase-other :
    (i j : ℕ) (p : Phase) (phase : ℕ → Phase) → ¬ (j ≡ i) → set_phase i p phase j ≡ phase j
set_phase-other i j p phase d =
    elim (ℕ_discrete j i) as (λ t. (elim t [ yes _ ↦ p | no _ ↦ phase j ]) ≡ phase j) [
      | yes e ↦ absurd (d e)
      | no _ ↦ refl
    ]

set_phase-same : (i : ℕ) (p : Phase) (phase : ℕ → Phase) → set_phase i p phase i ≡ p
set_phase-same i p phase =
    elim (ℕ_discrete i i) as (λ t. (elim t [ yes _ ↦ p | no _ ↦ phase i ]) ≡ p) [
      | yes e ↦ refl
      | no d ↦ absurd (d refl)
    ]

-- A thread that has not placed its entry backs none, so what it becomes changes nothing.
Backed-set_phase :
    (m : Mirror) (i : ℕ) (p : Phase)
    → is_placed (m.phase i) ≡ false
    → (key : String) (e : MirrorEntry) → Backed m key e
    → Backed (record m { phase = set_phase i p m.phase }) key e
Backed-set_phase m i p h key e (inl q) = inl q
Backed-set_phase m i p h key e (inr (inr c)) = inr (inr c)
Backed-set_phase m i p h key e (inr (inl q)) = elim (ℕ_discrete e.identity i) [
  | yes same ↦ absurd (true_ne_false (sym (ap is_placed (sym (ap m.phase same) ∙ q)) ∙ h))
  | no other ↦ inr (inl (set_phase-other i e.identity p m.phase other ∙ q))
]
  where
    true_ne_false : true ≡ false → ⊥
    true_ne_false t = cc

module _ (m : Mirror) (h : AllBacked m) where
  step_phase :
      (i : ℕ) (p : Phase)
      → is_placed (m.phase i) ≡ false
      → AllBacked (record m { phase = set_phase i p m.phase })
  step_phase i p u key e g = Backed-set_phase m i p u key e (h key e g)

  place-AllBacked :
      (i : ℕ) (key : String) (generation : ℕ)
      → m.phase i ≡ checked key generation
      → AllBacked (place i key generation m)
  place-AllBacked i key generation q k e g = elim (text_dec key k) [
    | yes same ↦ inr (
        inl (
          own
            (ours
              (sym (get-insert key k (record { identity = i; generation = generation }) m.memory)
                ∙ g)
              same)
            same))
    | no other ↦ Backed-set_phase m i (placed key generation) (ap is_placed q) k e (
        h k e (
          theirs
            (sym (get-insert key k (record { identity = i; generation = generation }) m.memory) ∙ g)
            other))
  ]
    where
      entry : MirrorEntry
      entry = record { identity = i; generation = generation }

      ours : ite (text_dec key k) (some entry) (get k m.memory) ≡ some e → key ≡ k → entry ≡ e
      ours f same = ground arith

      theirs :
          ite (text_dec key k) (some entry) (get k m.memory) ≡ some e
          → ¬ (key ≡ k)
          → get k m.memory ≡ some e
      theirs f other = ground arith

      own :
          entry ≡ e
          → key ≡ k
          → set_phase i (placed key generation) m.phase e.identity ≡ placed k e.generation
      own f same =
          subst
            (λ (x : MirrorEntry).
              set_phase i (placed key generation) m.phase x.identity ≡ placed k x.generation)
            f
            (set_phase-same i (placed key generation) m.phase ∙ ap (λ t. placed t generation) same)

  -- Of the thread that checks again, an entry is current if the generation is.
  current-AllBacked :
      (i : ℕ) (key : String) (generation : ℕ)
      → m.phase i ≡ placed key generation
      → m.clear_generation ≡ generation
      → AllBacked (record m { phase = set_phase i finished m.phase })
  current-AllBacked i key generation q same k e g = elim (h k e g) [
    | inl c ↦ inl c
    | inr (inr c) ↦ inr (inr c)
    | inr (inl b) ↦ elim (ℕ_discrete e.identity i) [
      | yes mine ↦ inl (ap (generation_or 0) (sym b ∙ ap m.phase mine ∙ q) ∙ sym same)
      | no other ↦ inr (inl (set_phase-other i e.identity finished m.phase other ∙ b))
    ]
  ]

  rolled-AllBacked :
      (i : ℕ) (key : String) (generation : ℕ)
      → m.phase i ≡ placed key generation
      → AllBacked
          (record m { memory = roll_back i key m.memory; phase = set_phase i finished m.phase })
  rolled-AllBacked i key generation q k e g = elim (h k e (unrolled g)) [
    | inl c ↦ inl c
    | inr (inr c) ↦ inr (inr c)
    | inr (inl b) ↦ elim (ℕ_discrete e.identity i) [
      | yes mine ↦
          absurd (gone mine (ap (key_or k) (sym q ∙ ap m.phase (sym mine) ∙ b)) g (unrolled g))
      | no other ↦ inr (inl (set_phase-other i e.identity finished m.phase other ∙ b))
    ]
  ]
    where
      unrolled : get k (roll_back i key m.memory) ≡ some e → get k m.memory ≡ some e
      unrolled g = ground (arith, get-remove key k m.memory)

      gone :
          e.identity ≡ i
          → key ≡ k
          → get k (roll_back i key m.memory) ≡ some e
          → get k m.memory ≡ some e
          → ⊥
      gone mine same g before = ground (arith, get-remove key k m.memory, ==_iff e.identity i)

  check_again-AllBacked :
      (i : ℕ) (key : String) (generation : ℕ)
      → m.phase i ≡ placed key generation
      → AllBacked (check_again i key generation m)
  check_again-AllBacked i key generation q = elim (Bool-cases (m.clear_generation == generation)) [
    | inl e ↦
        rw e (current-AllBacked i key generation q ((==_iff m.clear_generation generation).0 e))
    | inr e ↦ rw e (rolled-AllBacked i key generation q)
  ]

  bump-AllBacked : AllBacked (bump m)
  bump-AllBacked key e g = inr (inr (omega arith))

  take_out-AllBacked : (key : String) → AllBacked (take_out key m)
  take_out-AllBacked key k e g = h k e (ground (arith, get-remove key k m.memory, g))

wipe-AllBacked : (m : Mirror) → AllBacked (wipe m)
unfolding get
wipe-AllBacked m key e g = absurd (cc)

step-AllBacked : (m n : Mirror) → AllBacked m → Step m n → AllBacked n
step-AllBacked m n h (captures i key q) =
    step_phase m h i (captured key m.clear_generation) (ap is_placed q)
step-AllBacked m n h (checks i key generation q) = step_phase m h i _ (ap is_placed q)
step-AllBacked m n h (places i key generation q) = place-AllBacked m h i key generation q
step-AllBacked m n h (checks_again i key generation q) =
    check_again-AllBacked m h i key generation q
step-AllBacked m n h bumps = bump-AllBacked m h
step-AllBacked m n h (wipes c) = wipe-AllBacked m
step-AllBacked m n h (takes_out key) = take_out-AllBacked m h key

initial-AllBacked : AllBacked initial
unfolding get
initial-AllBacked key e g = absurd (cc)

Reachable-AllBacked : (m : Mirror) → Reachable m → AllBacked m
Reachable-AllBacked m start = initial-AllBacked
Reachable-AllBacked n (then_step {m} r s) = step-AllBacked m n (Reachable-AllBacked m r) s

-- However inserts, clears and evictions interleave, once no clear is under way and no thread is within an
-- insert, every entry of the memory carries the clear generation of now: none is left from before a clear.
pub AtRest-current :
    (m : Mirror) (key : String) (e : MirrorEntry)
    → Reachable m
    → AtRest m
    → get key m.memory ≡ some e
    → e.generation ≡ m.clear_generation
AtRest-current m key e r rest g = elim (Reachable-AllBacked m r key e g) [
  | inl c ↦ c
  | inr (inr c) ↦ absurd (omega (arith, c, rest.0))
  | inr (inl b) ↦ elim (rest.1 e.identity) [
    | inl q ↦ absurd (differ (sym b ∙ q))
    | inr q ↦ absurd (differ' (sym b ∙ q))
  ]
]
  where
    differ : placed key e.generation ≡ idle → ⊥
    differ q = cc

    differ' : placed key e.generation ≡ finished → ⊥
    differ' q = cc
