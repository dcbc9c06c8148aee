-- ===== src/Threads/Flight/Claim.antt =====
-- A claim of a key without a flight in daemon/src/analysis_flight.rs keeps the invariant: the thread leads a
-- new flight.
use import_lens.Prelude.{ℕ, suc, ◌≡◌, refl, sym, ap, subst, ◌∙◌, true, none, some, In, arith}
use import_lens.Threads.Flight.{wants, leading, Run, set_at, set_key, open_flight}
use import_lens.Threads.Flight.Frames.{
  Owner, Closer, Notifier, MadeFor, Owned, Sound, set_at_rule, set_key_other, set_key_same,
  Owner-registered,
}
use import_lens.Threads.Flight.Change.{Frame, Frame-threads_ok, set_at-Owned}

none-ne-some : {A : Type 0} {a : A} → ¬ (none ≡ some a)
none-ne-some x = cc

some_eq : {a b : ℕ} → some a ≡ some b → a ≡ b
some_eq e = cc

module _ {Key T : Type 0} (key_dec : Discrete Key) where
  abbrev pub new_flight : ℕ → Key → Run Key T → Run Key T
  new_flight i k s = record s {
    registry = record {
      flights = set_key key_dec k (some s.registry.made) s.registry.flights;
      state = set_at s.registry.made open_flight s.registry.state;
      made = suc s.registry.made;
    };
    threads = set_at i (leading k s.registry.made) s.threads;
    key_of = set_at s.registry.made k s.key_of;
  }

  made_still :
      (s : Run Key T) (i : ℕ) (k q : Key) (id : ℕ)
      → MadeFor s q id
      → MadeFor (new_flight i k s) q id
  made_still s i k q id m = (
    omega (arith, m.0),
    set_at_rule (λ x. x ≡ q) s.registry.made k s.key_of id (λ e. absurd (omega (arith, m.0, e)))
        (λ _. m.1),
  )

  made_now : (s : Run Key T) (i : ℕ) (k : Key) → MadeFor (new_flight i k s) k s.registry.made
  made_now s i k = (
    omega arith,
    set_at_rule (λ x. x ≡ k) s.registry.made k s.key_of s.registry.made (λ _. refl)
        (λ d. absurd (d refl)),
  )

  new_flight-Frame :
      (s : Run Key T) (i : ℕ) (k : Key)
      → s.threads i ≡ wants k
      → s.registry.flights k ≡ none
      → Frame s (new_flight i k s) i (leading k s.registry.made)
  new_flight-Frame s i k at free = record {
    threads = refl;
    made = λ q id m. made_still s i k q id m;
    closed = λ q id m c.
        set_at_rule (λ st. st.closed ≡ true) s.registry.made open_flight s.registry.state id
          (λ e. absurd (omega (arith, m.0, e))) (λ _. c);
    flights = λ j q id d o e.
        set_key_other key_dec k q _ s.registry.flights
          (λ p. none-ne-some (sym free ∙ ap s.registry.flights p ∙ e))
        ∙ e;
    computed = λ q w x. x;
    closer = λ q id m c. absurd (subst (λ t. Closer t id) at c);
    notifier = λ id n. absurd (subst (λ t. Notifier t id) at n);
  }

  -- The new flight has the claiming thread as its owner.
  new-Owned :
      (s : Run Key T) (i : ℕ) (k : Key)
      → s.registry.flights k ≡ none
      → Sound s
      → Owned (set_at i (leading k s.registry.made) s.threads) k s.registry.made
  new-Owned s i k free h = (
    i,
    (
      set_at_rule (λ t. Owner t k s.registry.made) i _ s.threads i (λ _. (refl, refl))
          (λ d. absurd (d refl)),
      λ j.
          set_at_rule (λ t. Owner t k s.registry.made → j ≡ i) i _ s.threads j (λ p _. sym p)
            (λ _ o. absurd (
              none-ne-some (
                sym free ∙ Owner-registered s (s.threads j) k s.registry.made (h.threads_ok j) o))),
    ),
  )

  pub new_flight-Sound :
      (s : Run Key T) (i : ℕ) (k : Key)
      → s.threads i ≡ wants k
      → s.registry.flights k ≡ none
      → Sound s
      → Sound (new_flight i k s)
  new_flight-Sound s i k at free h = record {
    threads_ok =
        Frame-threads_ok s (new_flight i k s) i (leading k s.registry.made)
          (new_flight-Frame s i k at free) h.threads_ok
          (made_now s i k, set_key_same key_dec k (some s.registry.made) s.registry.flights);
    made_for = λ q id e. elim (key_dec k q) [
      | yes p ↦
          subst (λ q. MadeFor (new_flight i k s) q id) p
            (subst (λ n. MadeFor (new_flight i k s) k n) (same q id p e) (made_now s i k))
      | no d ↦ made_still s i k q id (h.made_for q id (old q id d e))
    ];
    owned = λ q id e. elim (key_dec k q) [
      | yes p ↦
          subst (λ q. Owned (set_at i (leading k s.registry.made) s.threads) q id) p
            (subst (λ n. Owned (set_at i (leading k s.registry.made) s.threads) k n) (same q id p e)
              (new-Owned s i k free h))
      | no d ↦
          set_at-Owned s.threads i (leading k s.registry.made) q id
            (λ o. absurd (subst (λ t. Owner t q id) at o)) (λ o. absurd (d o.0))
            (h.owned q id (old q id d e))
    ];
    results = λ id w.
        set_at_rule
          (λ st. st.result ≡ some w → In (set_at s.registry.made k s.key_of id, w) s.computed)
          s.registry.made open_flight s.registry.state id (λ _ r. absurd (none-ne-some r))
          (λ d r.
            set_at_rule (λ q. In (q, w) s.computed) s.registry.made k s.key_of id
              (λ e. absurd (d e)) (λ _. h.results id w r));
  }
    where
      same :
          (q : Key) (id : ℕ)
          → k ≡ q
          → set_key key_dec k (some s.registry.made) s.registry.flights q ≡ some id
          → s.registry.made ≡ id
      same q id p e = some_eq (
          sym (set_key_same key_dec k (some s.registry.made) s.registry.flights)
          ∙ ap (set_key key_dec k (some s.registry.made) s.registry.flights) p
          ∙ e)

      old :
          (q : Key) (id : ℕ)
          → ¬ (k ≡ q)
          → set_key key_dec k (some s.registry.made) s.registry.flights q ≡ some id
          → s.registry.flights q ≡ some id
      old q id d e = sym (set_key_other key_dec k q _ s.registry.flights d) ∙ e
