-- ===== src/Threads/Flight/Change.antt =====
-- How a change of one thread, or a `notify_all`, of daemon/src/analysis_flight.rs keeps the invariant.
use import_lens.Prelude.{
  ℕ, ◌≡◌, ◌⊎◌, inl, inr, refl, sym, subst, ◌∙◌, false, some, ◌==◌, ==_iff, if_cases, In,
}
use import_lens.Threads.Flight.{
  Thread, idle, wants, leading, publishing, published, abandoning, closing, joined, waiting,
  returned, unwound, Run, set_at, awaken, notify_all,
}
use import_lens.Threads.Flight.Frames.{
  Owner, Closer, Notifier, IsClosed, Tended, Attended, MadeFor, ThreadOk, Owned, Sound, set_at_rule,
  same-Owner,
}

not_same : (flight id : ℕ) → flight ≡ id → ¬ ((flight == id) ≡ false)
not_same flight id e n = absurd (cc (sym n ∙ (==_iff flight id).1 e))

module _ {Key T : Type 0} where
  -- From `s` to `s'` thread `i` alone has changed, to `new`.
  pub record Frame (s s' : Run Key T) (i : ℕ) (new : Thread Key T) : Type 0 where
    pub threads : s'.threads ≡ set_at i new s.threads
    pub made : (k : Key) (id : ℕ) → MadeFor s k id → MadeFor s' k id
    pub closed : (k : Key) (id : ℕ) → MadeFor s k id → IsClosed s id → IsClosed s' id
    pub flights :
        (j : ℕ) (k : Key) (id : ℕ)
        → ¬ (i ≡ j)
        → Owner (s.threads j) k id
        → s.registry.flights k ≡ some id
        → s'.registry.flights k ≡ some id
    pub computed : (k : Key) (v : T) → In (k, v) s.computed → In (k, v) s'.computed
    pub closer :
        (k : Key) (id : ℕ)
        → MadeFor s k id
        → Closer (s.threads i) id
        → Closer new id ⊎ IsClosed s' id
    pub notifier : (id : ℕ) → Notifier (s.threads i) id → Notifier new id

  module _ (s s' : Run Key T) (i : ℕ) (new : Thread Key T) (f : Frame s s' i new) where
    changed : (P : Thread Key T → Type 0) (j : ℕ) → P (set_at i new s.threads j) → P (s'.threads j)
    changed P j = subst (λ t. P (t j)) (sym f.threads)

    tended : (k : Key) (id : ℕ) → MadeFor s k id → Tended s id → Tended s' id
    tended k id m (inl c) = inl (f.closed k id m c)
    tended k id m (inr (j, c)) = found (
        set_at_rule (λ t. Closer t id ⊎ IsClosed s' id) i new s.threads j
          (λ e. f.closer k id m (subst (λ n. Closer (s.threads n) id) (sym e) c)) (λ _. inl c))
      where
        found : Closer (set_at i new s.threads j) id ⊎ IsClosed s' id → Tended s' id
        found (inl x) = inr (j, changed (λ t. Closer t id) j x)
        found (inr x) = inl x

    attended : (id : ℕ) → Attended s id → Attended s' id
    attended id (j, n) = (
      j,
      changed (λ t. Notifier t id) j
          (set_at_rule (λ t. Notifier t id) i new s.threads j
            (λ e. f.notifier id (subst (λ m. Notifier (s.threads m) id) (sym e) n)) (λ _. n)),
    )

    -- What holds of another thread still does.
    other-ok :
        (j : ℕ) (t : Thread Key T)
        → ¬ (i ≡ j)
        → ((k : Key) (id : ℕ) → Owner t k id → Owner (s.threads j) k id)
        → ThreadOk s t
        → ThreadOk s' t
    other-ok j idle d o h = tt
    other-ok j (wants k) d o h = tt
    other-ok j (leading k id) d o h =
        (f.made k id h.0, f.flights j k id d (o k id (refl, refl)) h.1)
    other-ok j (publishing k id v) d o h = (
      (f.made k id h.0.0, f.flights j k id d (o k id (refl, refl)) h.0.1),
      (f.closed k id h.0.0 h.1.0, f.computed k v h.1.1),
    )
    other-ok j (published k id v) d o h = (
      (f.made k id h.0.0, f.flights j k id d (o k id (refl, refl)) h.0.1),
      (f.closed k id h.0.0 h.1.0, f.computed k v h.1.1),
    )
    other-ok j (abandoning k id) d o h = f.made k id h
    other-ok j (closing k id) d o h = (f.made k id h.0, f.closed k id h.0 h.1)
    other-ok j (joined k id) d o h = (f.made k id h.0, tended k id h.0 h.1)
    other-ok j (waiting k id) d o h = (f.made k id h.0, attended id h.1)
    other-ok j (returned k v) d o h = f.computed k v h
    other-ok j unwound d o h = tt

    pub Frame-threads_ok :
        ((j : ℕ) → ThreadOk s (s.threads j))
        → ThreadOk s' new
        → (j : ℕ) → ThreadOk s' (s'.threads j)
    Frame-threads_ok h ok j = changed (ThreadOk s') j (
        set_at_rule (ThreadOk s') i new s.threads j (λ _. ok)
          (λ d. other-ok j (s.threads j) d (λ k id o. o) (h j)))

  -- A thread that becomes `new` owns what it owned.
  pub set_at-Owned :
      (threads : ℕ → Thread Key T) (i : ℕ) (new : Thread Key T) (k : Key) (id : ℕ)
      → (Owner (threads i) k id → Owner new k id)
      → (Owner new k id → Owner (threads i) k id)
      → Owned threads k id
      → Owned (set_at i new threads) k id
  set_at-Owned threads i new k id forth back =
      same-Owner threads (set_at i new threads) k id
        (λ j o.
          set_at_rule (λ t. Owner t k id) i new threads j
            (λ e. forth (subst (λ n. Owner (threads n) k id) (sym e) o)) (λ _. o))
        (λ j.
          set_at_rule (λ t. Owner t k id → Owner (threads j) k id) i new threads j
            (λ e n. subst (λ m. Owner (threads m) k id) e (back n)) (λ _ n. n))

  -- `notify_all` takes a thread from where it sleeps at most.
  awaken-same :
      (flight : ℕ) (P : Thread Key T → Type 0) (t : Thread Key T)
      → ((k : Key) (id : ℕ) → P (waiting k id) → P (joined k id))
      → P t
      → P (awaken flight t)
  unfolding awaken
  awaken-same flight P idle w p = p
  awaken-same flight P (wants k) w p = p
  awaken-same flight P (leading k id) w p = p
  awaken-same flight P (publishing k id v) w p = p
  awaken-same flight P (published k id v) w p = p
  awaken-same flight P (abandoning k id) w p = p
  awaken-same flight P (closing k id) w p = p
  awaken-same flight P (joined k id) w p = p
  awaken-same flight P (waiting k id) w p =
      if_cases P (flight == id) (joined k id) (waiting k id) (λ _. w k id p) (λ _. p)
  awaken-same flight P (returned k v) w p = p
  awaken-same flight P unwound w p = p

  awaken-Owner :
      (flight : ℕ) (t : Thread Key T) (k : Key) (id : ℕ)
      → Owner (awaken flight t) k id
      → Owner t k id
  awaken-Owner flight t k id =
      awaken-same flight (λ u. Owner u k id → Owner t k id) t (λ q n w o. absurd o) (λ o. o)

  -- Thread `i` has notified the followers of a closed flight, and goes on as `new`.
  pub notify_all-Sound :
      (s : Run Key T) (i flight : ℕ) (new : Thread Key T)
      → Sound s
      → IsClosed s flight
      → ((id : ℕ) → Notifier (s.threads i) id → flight ≡ id)
      → ((id : ℕ) → ¬ Closer (s.threads i) id)
      → ((k : Key) (id : ℕ) → Owner (s.threads i) k id → Owner new k id)
      → ((k : Key) (id : ℕ) → Owner new k id → Owner (s.threads i) k id)
      → ((threads : ℕ → Thread Key T) → ThreadOk (record s { threads = threads }) new)
      → Sound (record s { threads = set_at i new (notify_all flight s.threads) })
  unfolding awaken
  notify_all-Sound s i flight new h closed mine not_closer forth back ok = record {
    threads_ok = λ j.
        set_at_rule (ThreadOk s') i new (notify_all flight s.threads) j (λ _. ok s'.threads)
          (λ _. woken (s.threads j) (h.threads_ok j));
    made_for = h.made_for;
    owned = λ k id e.
        same-Owner s.threads s'.threads k id
          (λ j o.
            set_at_rule (λ t. Owner t k id) i new (notify_all flight s.threads) j
              (λ p. forth k id (subst (λ n. Owner (s.threads n) k id) (sym p) o))
              (λ _. awaken-same flight (λ t. Owner t k id) (s.threads j) (λ q n w. absurd w) o))
          (λ j.
            set_at_rule (λ t. Owner t k id → Owner (s.threads j) k id) i new
              (notify_all flight s.threads) j
              (λ p n. subst (λ m. Owner (s.threads m) k id) p (back k id n))
              (λ _. awaken-Owner flight (s.threads j) k id))
          (h.owned k id e);
    results = h.results;
  }
    where
      s' : Run Key T
      s' = record s { threads = set_at i new (notify_all flight s.threads) }

      tended : (id : ℕ) → Tended s id → Tended s' id
      tended id (inl c) = inl c
      tended id (inr (j, c)) = inr (
        j,
        set_at_rule (λ t. Closer t id) i new (notify_all flight s.threads) j
            (λ e. absurd (not_closer id (subst (λ n. Closer (s.threads n) id) (sym e) c)))
            (λ _. awaken-same flight (λ t. Closer t id) (s.threads j) (λ q n w. absurd w) c),
      )

      attended : (id : ℕ) → ¬ (flight ≡ id) → Attended s id → Attended s' id
      attended id d (j, n) = (
        j,
        set_at_rule (λ t. Notifier t id) i new (notify_all flight s.threads) j
            (λ e. absurd (d (mine id (subst (λ m. Notifier (s.threads m) id) (sym e) n))))
            (λ _. awaken-same flight (λ t. Notifier t id) (s.threads j) (λ q m w. absurd w) n),
      )

      woken : (t : Thread Key T) → ThreadOk s t → ThreadOk s' (awaken flight t)
      woken idle x = tt
      woken (wants k) x = tt
      woken (leading k id) x = x
      woken (publishing k id v) x = x
      woken (published k id v) x = x
      woken (abandoning k id) x = x
      woken (closing k id) x = x
      woken (joined k id) x = (x.0, tended id x.1)
      woken (waiting k id) x =
          if_cases (ThreadOk s') (flight == id) (joined k id) (waiting k id)
            (λ e. (x.0, inl (subst (IsClosed s) ((==_iff flight id).0 e) closed)))
            (λ n. (x.0, attended id (λ e. not_same flight id e n) x.1))
      woken (returned k v) x = x
      woken unwound x = tt
