-- ===== src/Threads/Flight/Reached.antt =====
-- What holds in every state that the threads of daemon/src/analysis_flight.rs reach.
use import_lens.Prelude.{
  ℕ, ◌≡◌, inl, inr, refl, sym, subst, ◌∙◌, Bool, true, false, Option, none, some, In, Option-cases,
  if◌then◌else◌,
}
use import_lens.Threads.Flight.{
  Thread, idle, wants, leading, publishing, published, abandoning, closing, joined, waiting,
  returned, unwound, Run, moves, claim_flight, after_claim, wait_for_result, Step, calls, claims,
  publishes, notifies, returns, panics, closes, unwinds, looks, wakes_on_its_own, Reachable, begin,
  step,
}
use import_lens.Threads.Flight.Frames.{
  Owner, Closer, Notifier, IsClosed, Tended, Attended, ThreadOk, Owned, Sound, set_at_rule,
}
use import_lens.Threads.Flight.Change.{notify_all-Sound}
use import_lens.Threads.Flight.Steps.{
  Passive, moves-Sound, publish-Sound, close-Sound, remove_current_flight-owner, remove-Sound,
}
use import_lens.Threads.Flight.Claim.{new_flight-Sound}

module _ {Key T : Type 0} where
  passive : (t u : Thread Key T) → t ≡ u → Passive u → Passive t
  passive t u e p = subst Passive (sym e) p

  Closer-Notifier : (t : Thread Key T) (id : ℕ) → Closer t id → Notifier t id
  Closer-Notifier idle id c = c
  Closer-Notifier (wants q) id c = c
  Closer-Notifier (leading q flight) id c = c
  Closer-Notifier (publishing q flight v) id c = absurd c
  Closer-Notifier (published q flight v) id c = c
  Closer-Notifier (abandoning q flight) id c = c
  Closer-Notifier (closing q flight) id c = absurd c
  Closer-Notifier (joined q flight) id c = c
  Closer-Notifier (waiting q flight) id c = c
  Closer-Notifier (returned q v) id c = c
  Closer-Notifier unwound id c = c

  -- Whoever has still to notify the followers of a flight has still to close it, or has closed it.
  Notifier-Tended :
      (s : Run Key T) (j : ℕ) (t : Thread Key T) (id : ℕ)
      → s.threads j ≡ t
      → ThreadOk s t
      → Notifier t id
      → Tended s id
  Notifier-Tended s j idle id at ok n = absurd n
  Notifier-Tended s j (wants q) id at ok n = absurd n
  Notifier-Tended s j (leading q flight) id at ok n = inr (j, subst (λ t. Closer t id) (sym at) n)
  Notifier-Tended s j (publishing q flight v) id at ok n = inl (subst (IsClosed s) n ok.1.0)
  Notifier-Tended s j (published q flight v) id at ok n = absurd n
  Notifier-Tended s j (abandoning q flight) id at ok n =
      inr (j, subst (λ t. Closer t id) (sym at) n)
  Notifier-Tended s j (closing q flight) id at ok n = inl (subst (IsClosed s) n ok.1)
  Notifier-Tended s j (joined q flight) id at ok n = absurd n
  Notifier-Tended s j (waiting q flight) id at ok n = absurd n
  Notifier-Tended s j (returned q v) id at ok n = absurd n
  Notifier-Tended s j unwound id at ok n = absurd n

  -- So has the owner of a flight.
  Owner-Tended :
      (s : Run Key T) (j : ℕ) (t : Thread Key T) (k : Key) (id : ℕ)
      → s.threads j ≡ t
      → ThreadOk s t
      → Owner t k id
      → Tended s id
  Owner-Tended s j idle k id at ok o = absurd o
  Owner-Tended s j (wants q) k id at ok o = absurd o
  Owner-Tended s j (leading q flight) k id at ok o = inr (j, subst (λ t. Closer t id) (sym at) o.1)
  Owner-Tended s j (publishing q flight v) k id at ok o = inl (subst (IsClosed s) o.1 ok.1.0)
  Owner-Tended s j (published q flight v) k id at ok o = inl (subst (IsClosed s) o.1 ok.1.0)
  Owner-Tended s j (abandoning q flight) k id at ok o = absurd o
  Owner-Tended s j (closing q flight) k id at ok o = absurd o
  Owner-Tended s j (joined q flight) k id at ok o = absurd o
  Owner-Tended s j (waiting q flight) k id at ok o = absurd o
  Owner-Tended s j (returned q v) k id at ok o = absurd o
  Owner-Tended s j unwound k id at ok o = absurd o

  Owned-Tended : (s : Run Key T) (k : Key) (id : ℕ) → Sound s → Owned s.threads k id → Tended s id
  Owned-Tended s k id h (j, (o, only)) = Owner-Tended s j (s.threads j) k id refl (h.threads_ok j) o

  Attended-Tended : (s : Run Key T) (id : ℕ) → Sound s → Attended s id → Tended s id
  Attended-Tended s id h (j, n) = Notifier-Tended s j (s.threads j) id refl (h.threads_ok j) n

  -- A thread that was not to close the flight looks at it next.
  joined-Tended :
      (s : Run Key T) (i : ℕ) (k : Key) (id : ℕ)
      → ¬ Closer (s.threads i) id
      → Tended s id
      → Tended (moves i (joined k id) s) id
  joined-Tended s i k id n (inl c) = inl c
  joined-Tended s i k id n (inr (j, c)) = inr (
    j,
    set_at_rule (λ t. Closer t id) i (joined k id) s.threads j
        (λ e. absurd (n (subst (λ m. Closer (s.threads m) id) (sym e) c))) (λ _. c),
  )

  -- A follower that finds its flight open goes to sleep while another thread has still to close it.
  looks-Sound :
      (s : Run Key T) (i : ℕ) (k : Key) (flight : ℕ)
      → s.threads i ≡ joined k flight
      → Sound s
      → Sound (moves i (wait_for_result k flight (s.registry.state flight)) s)
  unfolding wait_for_result
  looks-Sound s i k flight at h =
      go (s.registry.state flight).closed refl (s.registry.state flight).result refl
    where
      ok : ThreadOk s (joined k flight)
      ok = subst (ThreadOk s) at (h.threads_ok i)

      before : Passive (s.threads i)
      before = passive _ _ at ((λ q id o. o), (λ id c. c), λ id n. n)

      tended :
          (s.registry.state flight).closed ≡ false
          → Tended s flight
          → Attended (moves i (waiting k flight) s) flight
      tended still (inl c) = absurd (cc (sym still ∙ c))
      tended still (inr (j, c)) = (
        j,
        set_at_rule (λ t. Notifier t flight) i (waiting k flight) s.threads j
            (λ e. absurd (
              subst (λ t. Closer t flight) at (subst (λ n. Closer (s.threads n) flight) (sym e) c)))
            (λ _. Closer-Notifier (s.threads j) flight c),
      )

      go :
          (b : Bool)
          → (s.registry.state flight).closed ≡ b
          → (o : Option T) → (s.registry.state flight).result ≡ o
          → Sound (
              moves i
                (if b
                  then (elim o [ none ↦ wants k | some v ↦ returned k v ])
                  else waiting k flight)
                s)
      go false still o e =
          moves-Sound s i (waiting k flight) before (λ q id x. x) h (ok.0, tended still ok.1)
      go true c none e = moves-Sound s i (wants k) before (λ q id x. x) h tt
      go true c (some v) e =
          moves-Sound s i (returned k v) before (λ q id x. x) h
            (subst (λ q. In (q, v) s.computed) ok.0.1 (h.results flight v e))

module _ {Key T : Type 0} (key_dec : Discrete Key) where
  claims-Sound :
      (s : Run Key T) (i : ℕ) (k : Key)
      → s.threads i ≡ wants k
      → Sound s
      → Sound (after_claim key_dec i k s)
  unfolding after_claim claim_flight
  claims-Sound s i k at h = elim (Option-cases (s.registry.flights k)) [
    | inl free ↦
        rw (free, after_claim) (rw (free, claim_flight) (new_flight-Sound key_dec s i k at free h))
    | inr (flight, taken) ↦
        rw (taken, after_claim)
          (moves-Sound s i (joined k flight)
            (passive _ _ at ((λ q id o. o), (λ id c. c), λ id n. n)) (λ q id o. o) h
            (
              h.made_for k flight taken,
              joined-Tended s i k flight (λ c. subst (λ t. Closer t flight) at c)
                  (Owned-Tended s k flight h (h.owned k flight taken)),
            ))
  ]

  Step-Sound : (s t : Run Key T) → Sound s → Step key_dec s t → Sound t
  Step-Sound s _ h (calls i k at) =
      moves-Sound s i (wants k) (passive _ _ at ((λ q id o. o), (λ id c. c), λ id n. n))
        (λ q id o. o) h tt
  Step-Sound s _ h (claims i k at) = claims-Sound s i k at h
  Step-Sound s _ h (publishes i k flight v at) = publish-Sound s i k flight v at h
  Step-Sound s _ h (notifies i k flight v at) =
      let ok : ThreadOk s (publishing k flight v) = subst (ThreadOk s) at (h.threads_ok i) in
      notify_all-Sound s i flight (published k flight v) h ok.1.0
        (λ id n. subst (λ t. Notifier t id) at n) (λ id c. subst (λ t. Closer t id) at c)
        (λ q id o. subst (λ t. Owner t q id) at o) (λ q id o. subst (λ t. Owner t q id) (sym at) o)
        (λ threads. ok)
  Step-Sound s _ h (returns i k flight v at) =
      let ok : ThreadOk s (published k flight v) = subst (ThreadOk s) at (h.threads_ok i) in
      rw (remove_current_flight-owner key_dec k flight s.registry ok.0.1) (
        remove-Sound key_dec s i k flight (returned k v)
          (subst (λ t. Owner t k flight) (sym at) (refl, refl))
          (λ q id o. (subst (λ t. Owner t q id) at o).0) (λ q id o. o)
          (λ id c. absurd (subst (λ t. Closer t id) at c))
          (λ id n. absurd (subst (λ t. Notifier t id) at n)) ok.1.1 h)
  Step-Sound s _ h (panics i k flight at) =
      let ok : ThreadOk s (leading k flight) = subst (ThreadOk s) at (h.threads_ok i) in
      rw (remove_current_flight-owner key_dec k flight s.registry ok.1) (
        remove-Sound key_dec s i k flight (abandoning k flight)
          (subst (λ t. Owner t k flight) (sym at) (refl, refl))
          (λ q id o. (subst (λ t. Owner t q id) at o).0) (λ q id o. o)
          (λ id c. subst (λ t. Closer t id) at c) (λ id n. subst (λ t. Notifier t id) at n) ok.0 h)
  Step-Sound s _ h (closes i k flight at) = close-Sound s i k flight at h
  Step-Sound s _ h (unwinds i k flight at) =
      let ok : ThreadOk s (closing k flight) = subst (ThreadOk s) at (h.threads_ok i) in
      notify_all-Sound s i flight unwound h ok.1 (λ id n. subst (λ t. Notifier t id) at n)
        (λ id c. subst (λ t. Closer t id) at c) (λ q id o. subst (λ t. Owner t q id) at o)
        (λ q id o. absurd o) (λ threads. tt)
  Step-Sound s _ h (looks i k flight at) = looks-Sound s i k flight at h
  Step-Sound s _ h (wakes_on_its_own i k flight at) =
      let ok : ThreadOk s (waiting k flight) = subst (ThreadOk s) at (h.threads_ok i) in
      moves-Sound s i (joined k flight) (passive _ _ at ((λ q id o. o), (λ id c. c), λ id n. n))
        (λ q id o. o) h
        (
          ok.0,
          joined-Tended s i k flight (λ c. subst (λ t. Closer t flight) at c)
              (Attended-Tended s flight h ok.1),
        )

  Reachable-Sound : (s : Run Key T) → Reachable key_dec s → Sound s
  Reachable-Sound _ (begin k) = record {
    threads_ok = λ i. tt;
    made_for = λ q id e. absurd (none-ne-some e);
    owned = λ q id e. absurd (none-ne-some e);
    results = λ id v e. absurd (none-ne-some e);
  }
    where
      none-ne-some : {A : Type 0} {a : A} → ¬ (none ≡ some a)
      none-ne-some x = cc
  Reachable-Sound _ (step {s} {t} r st) = Step-Sound s t (Reachable-Sound s r) st

  -- In every state that any interleaving of the threads' steps reaches, a panic of a leader and wakes for no
  -- reason among them: no two threads compute for one key at a time; a call returns only a value that was
  -- computed for its key; and no wake of a follower is lost: the flight that a follower sleeps on has a
  -- thread whose `notify_all` is still to come, and the flight that a follower is about to look at is closed
  -- or has a thread that is still to close it.
  pub run_or_join-single :
      (s : Run Key T)
      → Reachable key_dec s
      → ((i j : ℕ) (k : Key) (f g : ℕ)
          → s.threads i ≡ leading k f
          → s.threads j ≡ leading k g
          → i ≡ j)
        × ((i : ℕ) (k : Key) (v : T) → s.threads i ≡ returned k v → In (k, v) s.computed)
        × ((i : ℕ) (k : Key) (f : ℕ) → s.threads i ≡ waiting k f → Attended s f)
        × ((i : ℕ) (k : Key) (f : ℕ) → s.threads i ≡ joined k f → Tended s f)
  run_or_join-single s r =
      let h = Reachable-Sound s r in
      (
        single h,
        (λ i k v at. subst (ThreadOk s) at (h.threads_ok i)),
        (λ i k f at. (subst (ThreadOk s) at (h.threads_ok i)).1),
        λ i k f at. (subst (ThreadOk s) at (h.threads_ok i)).1,
      )
    where
      some_eq : {a b : ℕ} → some a ≡ some b → a ≡ b
      some_eq e = cc

      single :
          Sound s
          → (i j : ℕ) (k : Key) (f g : ℕ) → s.threads i ≡ leading k f
          → s.threads j ≡ leading k g
          → i ≡ j
      single h i j k f g p q =
          let left : ThreadOk s (leading k f) = subst (ThreadOk s) p (h.threads_ok i) in
          let right : ThreadOk s (leading k g) = subst (ThreadOk s) q (h.threads_ok j) in
          let same : f ≡ g = some_eq (sym left.1 ∙ right.1) in
          let (m, (_, only)) = h.owned k f left.1 in
          only i (subst (λ t. Owner t k f) (sym p) (refl, refl))
          ∙ sym (only j (subst (λ t. Owner t k f) (sym q) (refl, sym same)))
