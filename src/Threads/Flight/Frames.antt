-- ===== src/Threads/Flight/Frames.antt =====
-- The invariant of the flights of daemon/src/analysis_flight.rs, and what the steps leave alone of it.
use import_lens.Prelude.{ℕ, ◌<◌, ◌≡◌, ◌⊎◌, refl, subst, true, Option, some, ite, ℕ_discrete, In}
use import_lens.Threads.Flight.{
  Thread, idle, wants, leading, publishing, published, abandoning, closing, joined, waiting,
  returned, unwound, Run, set_at, set_key,
}

pub set_at_rule {ℓ κ} :
    {A : Type ℓ} (P : A → Type κ) (i : ℕ) (v : A) (f : ℕ → A) (j : ℕ)
    → (i ≡ j → P v)
    → (¬ (i ≡ j) → P (f j))
    → P (set_at i v f j)
unfolding set_at
set_at_rule P i v f j hv hf = elim (ℕ_discrete i j) as (λ d. P (ite d v (f j))) [
  | yes e ↦ hv e
  | no d ↦ hf d
]

module _ {Key : Type 0} (key_dec : Discrete Key) where
  pub set_key_other :
      (k q : Key) (o : Option ℕ) (f : Key → Option ℕ) → ¬ (k ≡ q) → set_key key_dec k o f q ≡ f q
  unfolding set_key
  set_key_other k q o f d = elim (key_dec k q) as (λ x. ite x o (f q) ≡ f q) [
    | yes p ↦ absurd (d p)
    | no _ ↦ refl
  ]

  pub set_key_same : (k : Key) (o : Option ℕ) (f : Key → Option ℕ) → set_key key_dec k o f k ≡ o
  unfolding set_key
  set_key_same k o f = elim (key_dec k k) as (λ x. ite x o (f k) ≡ o) [
    | yes p ↦ refl
    | no d ↦ absurd (d refl)
  ]

module _ {Key T : Type 0} where
  -- The thread has the flight in the map: it leads it, or has published and not yet dropped it.
  abbrev pub Owner : Thread Key T → Key → ℕ → Type 0
  Owner idle k id = ⊥
  Owner (wants q) k id = ⊥
  Owner (leading q flight) k id = (q ≡ k) × (flight ≡ id)
  Owner (publishing q flight v) k id = (q ≡ k) × (flight ≡ id)
  Owner (published q flight v) k id = (q ≡ k) × (flight ≡ id)
  Owner (abandoning q flight) k id = ⊥
  Owner (closing q flight) k id = ⊥
  Owner (joined q flight) k id = ⊥
  Owner (waiting q flight) k id = ⊥
  Owner (returned q v) k id = ⊥
  Owner unwound k id = ⊥

  -- The thread has still to close the flight.
  abbrev pub Closer : Thread Key T → ℕ → Type 0
  Closer idle id = ⊥
  Closer (wants q) id = ⊥
  Closer (leading q flight) id = flight ≡ id
  Closer (publishing q flight v) id = ⊥
  Closer (published q flight v) id = ⊥
  Closer (abandoning q flight) id = flight ≡ id
  Closer (closing q flight) id = ⊥
  Closer (joined q flight) id = ⊥
  Closer (waiting q flight) id = ⊥
  Closer (returned q v) id = ⊥
  Closer unwound id = ⊥

  -- The thread has still to notify the followers of the flight.
  abbrev pub Notifier : Thread Key T → ℕ → Type 0
  Notifier idle id = ⊥
  Notifier (wants q) id = ⊥
  Notifier (leading q flight) id = flight ≡ id
  Notifier (publishing q flight v) id = flight ≡ id
  Notifier (published q flight v) id = ⊥
  Notifier (abandoning q flight) id = flight ≡ id
  Notifier (closing q flight) id = flight ≡ id
  Notifier (joined q flight) id = ⊥
  Notifier (waiting q flight) id = ⊥
  Notifier (returned q v) id = ⊥
  Notifier unwound id = ⊥

  abbrev pub IsClosed : Run Key T → ℕ → Type 0
  IsClosed s id = (s.registry.state id).closed ≡ true

  abbrev pub Tended : Run Key T → ℕ → Type 0
  Tended s id = IsClosed s id ⊎ ((j : ℕ) × Closer (s.threads j) id)

  abbrev pub Attended : Run Key T → ℕ → Type 0
  Attended s id = (j : ℕ) × Notifier (s.threads j) id

  -- A flight that was made for the key.
  abbrev pub MadeFor : Run Key T → Key → ℕ → Type 0
  MadeFor s k id = (id < s.registry.made) × (s.key_of id ≡ k)

  -- What holds of a thread by where it is.
  abbrev pub ThreadOk : Run Key T → Thread Key T → Type 0
  ThreadOk s idle = Unit
  ThreadOk s (wants k) = Unit
  ThreadOk s (leading k id) = MadeFor s k id × (s.registry.flights k ≡ some id)
  ThreadOk s (publishing k id v) =
      (MadeFor s k id × (s.registry.flights k ≡ some id)) × (IsClosed s id × In (k, v) s.computed)
  ThreadOk s (published k id v) =
      (MadeFor s k id × (s.registry.flights k ≡ some id)) × (IsClosed s id × In (k, v) s.computed)
  ThreadOk s (abandoning k id) = MadeFor s k id
  ThreadOk s (closing k id) = MadeFor s k id × IsClosed s id
  ThreadOk s (joined k id) = MadeFor s k id × Tended s id
  ThreadOk s (waiting k id) = MadeFor s k id × Attended s id
  ThreadOk s (returned k v) = In (k, v) s.computed
  ThreadOk s unwound = Unit

  -- A flight in the map has one owner.
  abbrev pub Owned : (ℕ → Thread Key T) → Key → ℕ → Type 0
  Owned threads k id =
      (i : ℕ) × (Owner (threads i) k id × ((j : ℕ) → Owner (threads j) k id → j ≡ i))

  pub record Sound (s : Run Key T) : Type 0 where
    pub threads_ok : (i : ℕ) → ThreadOk s (s.threads i)
    pub made_for : (k : Key) (id : ℕ) → s.registry.flights k ≡ some id → MadeFor s k id
    pub owned : (k : Key) (id : ℕ) → s.registry.flights k ≡ some id → Owned s.threads k id
    pub results :
        (id : ℕ) (v : T) → (s.registry.state id).result ≡ some v → In (s.key_of id, v) s.computed

  carried :
      (s : Run Key T) (q k : Key) (flight id : ℕ)
      → q ≡ k
      → flight ≡ id
      → s.registry.flights q ≡ some flight
      → s.registry.flights k ≡ some id
  carried s q k flight id same is h =
      subst (λ n. s.registry.flights k ≡ some n) is
        (subst (λ p. s.registry.flights p ≡ some flight) same h)

  pub Owner-registered :
      (s : Run Key T) (t : Thread Key T) (k : Key) (id : ℕ)
      → ThreadOk s t
      → Owner t k id
      → s.registry.flights k ≡ some id
  Owner-registered s idle k id h o = absurd o
  Owner-registered s (wants q) k id h o = absurd o
  Owner-registered s (leading q flight) k id h o = carried s q k flight id o.0 o.1 h.1
  Owner-registered s (publishing q flight v) k id h o = carried s q k flight id o.0 o.1 h.0.1
  Owner-registered s (published q flight v) k id h o = carried s q k flight id o.0 o.1 h.0.1
  Owner-registered s (abandoning q flight) k id h o = absurd o
  Owner-registered s (closing q flight) k id h o = absurd o
  Owner-registered s (joined q flight) k id h o = absurd o
  Owner-registered s (waiting q flight) k id h o = absurd o
  Owner-registered s (returned q v) k id h o = absurd o
  Owner-registered s unwound k id h o = absurd o

  -- Threads change, and own the flight after as before.
  pub same-Owner :
      (before after : ℕ → Thread Key T) (k : Key) (id : ℕ)
      → ((j : ℕ) → Owner (before j) k id → Owner (after j) k id)
      → ((j : ℕ) → Owner (after j) k id → Owner (before j) k id)
      → Owned before k id
      → Owned after k id
  same-Owner before after k id forth back (m, (o, only)) =
      (m, (forth m o, λ j n. only j (back j n)))
