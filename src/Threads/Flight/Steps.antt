-- ===== src/Threads/Flight/Steps.antt =====
-- Each step of a thread of daemon/src/analysis_flight.rs keeps the invariant.
use import_lens.Prelude.{
  ℕ, ◌≡◌, inl, inr, refl, sym, ap, ap₂, subst, ◌∙◌, true, ◌∷◌, none, some, ==_iff, In, here, there,
}
use import_lens.Threads.Flight.{
  AnalysisFlightRegistry, Thread, leading, publishing, abandoning, closing, Run, set_at, set_key,
  moves, publish, close_without_result, remove_current_flight,
}
use import_lens.Threads.Flight.Frames.{
  Owner, Closer, Notifier, IsClosed, ThreadOk, Sound, set_at_rule, set_key_other, set_key_same,
  Owner-registered,
}
use import_lens.Threads.Flight.Change.{Frame, Frame-threads_ok, set_at-Owned}

module _ {Key T : Type 0} where
  abbrev pub Passive : Thread Key T → Type 0
  Passive t =
      ((k : Key) (id : ℕ) → ¬ Owner t k id)
      × ((id : ℕ) → ¬ Closer t id)
      × ((id : ℕ) → ¬ Notifier t id)

  -- A thread goes from a place where it has nothing to do for others to another one.
  pub moves-Sound :
      (s : Run Key T) (i : ℕ) (new : Thread Key T)
      → Passive (s.threads i)
      → ((k : Key) (id : ℕ) → ¬ Owner new k id)
      → Sound s
      → ThreadOk (moves i new s) new
      → Sound (moves i new s)
  moves-Sound s i new before after h ok = record {
    threads_ok = Frame-threads_ok s (moves i new s) i new frame h.threads_ok ok;
    made_for = h.made_for;
    owned = λ k id e.
        set_at-Owned s.threads i new k id (λ o. absurd (before.0 k id o))
          (λ o. absurd (after k id o)) (h.owned k id e);
    results = h.results;
  }
    where
      frame : Frame s (moves i new s) i new
      frame = record {
        threads = refl;
        made = λ k id m. m;
        closed = λ k id m c. c;
        flights = λ j k id d o e. e;
        computed = λ k v x. x;
        closer = λ k id m c. absurd (before.1 id c);
        notifier = λ id n. absurd (before.2 id n);
      }

  abbrev pub after_publish : ℕ → Key → ℕ → T → Run Key T → Run Key T
  after_publish i k flight v s = record s {
    registry = publish flight v s.registry;
    threads = set_at i (publishing k flight v) s.threads;
    computed = (k, v) ∷ s.computed;
  }

  pub publish-Sound :
      (s : Run Key T) (i : ℕ) (k : Key) (flight : ℕ) (v : T)
      → s.threads i ≡ leading k flight
      → Sound s
      → Sound (after_publish i k flight v s)
  unfolding publish
  publish-Sound s i k flight v at h = record {
    threads_ok =
        Frame-threads_ok s (after_publish i k flight v s) i (publishing k flight v) frame
          h.threads_ok (ok, (closed_at flight refl, here refl));
    made_for = h.made_for;
    owned = λ q id e.
        set_at-Owned s.threads i (publishing k flight v) q id (λ o. subst (λ t. Owner t q id) at o)
          (λ o. subst (λ t. Owner t q id) (sym at) o) (h.owned q id e);
    results = λ id w.
        set_at_rule (λ st. st.result ≡ some w → In (s.key_of id, w) ((k, v) ∷ s.computed)) flight _
          s.registry.state id (λ e r. here (pair_eq (ap s.key_of (sym e) ∙ ok.0.1) (some_eq r)))
          (λ _ r. there (h.results id w r));
  }
    where
      ok : ThreadOk s (leading k flight)
      ok = subst (ThreadOk s) at (h.threads_ok i)

      closed_at : (id : ℕ) → flight ≡ id → IsClosed (after_publish i k flight v s) id
      closed_at id e =
          set_at_rule (λ st. st.closed ≡ true) flight _ s.registry.state id (λ _. refl)
            (λ d. absurd (d e))

      some_eq : {a b : T} → some a ≡ some b → b ≡ a
      some_eq e = cc

      pair_eq : {a b : Key} {x y : T} → a ≡ b → x ≡ y → ◌≡◌ {A = Key × T} (a, x) (b, y)
      pair_eq e f = ap₂ (λ a x. (a, x)) e f

      frame : Frame s (after_publish i k flight v s) i (publishing k flight v)
      frame = record {
        threads = refl;
        made = λ q id m. m;
        closed = λ q id m c.
            set_at_rule (λ st. st.closed ≡ true) flight _ s.registry.state id (λ _. refl) (λ _. c);
        flights = λ j q id d o e. e;
        computed = λ q w x. there x;
        closer = λ q id m c. inr (closed_at id (subst (λ t. Closer t id) at c));
        notifier = λ id n. subst (λ t. Notifier t id) at n;
      }

  abbrev pub after_close : ℕ → Key → ℕ → Run Key T → Run Key T
  after_close i k flight s = record s {
    registry = close_without_result flight s.registry;
    threads = set_at i (closing k flight) s.threads;
  }

  pub close-Sound :
      (s : Run Key T) (i : ℕ) (k : Key) (flight : ℕ)
      → s.threads i ≡ abandoning k flight
      → Sound s
      → Sound (after_close i k flight s)
  unfolding close_without_result
  close-Sound s i k flight at h = record {
    threads_ok =
        Frame-threads_ok s (after_close i k flight s) i (closing k flight) frame h.threads_ok
          (ok, closed_at flight refl);
    made_for = h.made_for;
    owned = λ q id e.
        set_at-Owned s.threads i (closing k flight) q id
          (λ o. absurd (subst (λ t. Owner t q id) at o)) (λ o. absurd o) (h.owned q id e);
    results = λ id w.
        set_at_rule (λ st. st.result ≡ some w → In (s.key_of id, w) s.computed) flight _
          s.registry.state id
          (λ e r. subst (λ n. In (s.key_of n, w) s.computed) e (h.results flight w r))
          (λ _ r. h.results id w r);
  }
    where
      ok : ThreadOk s (abandoning k flight)
      ok = subst (ThreadOk s) at (h.threads_ok i)

      closed_at : (id : ℕ) → flight ≡ id → IsClosed (after_close i k flight s) id
      closed_at id e =
          set_at_rule (λ st. st.closed ≡ true) flight _ s.registry.state id (λ _. refl)
            (λ d. absurd (d e))

      frame : Frame s (after_close i k flight s) i (closing k flight)
      frame = record {
        threads = refl;
        made = λ q id m. m;
        closed = λ q id m c.
            set_at_rule (λ st. st.closed ≡ true) flight _ s.registry.state id (λ _. refl) (λ _. c);
        flights = λ j q id d o e. e;
        computed = λ q w x. x;
        closer = λ q id m c. inr (closed_at id (subst (λ t. Closer t id) at c));
        notifier = λ id n. subst (λ t. Notifier t id) at n;
      }

  module _ (key_dec : Discrete Key) where
    abbrev pub without : Key → AnalysisFlightRegistry Key T → AnalysisFlightRegistry Key T
    without k r = record r { flights = set_key key_dec k none r.flights }

    pub remove_current_flight-owner :
        (k : Key) (flight : ℕ) (r : AnalysisFlightRegistry Key T)
        → r.flights k ≡ some flight
        → remove_current_flight key_dec k flight r ≡ without k r
    unfolding remove_current_flight
    remove_current_flight-owner k flight r e = rw (e, (==_iff flight flight).1 refl) refl

    abbrev pub removed : ℕ → Key → Thread Key T → Run Key T → Run Key T
    removed i k new s = record s {
      registry = without k s.registry;
      threads = set_at i new s.threads;
    }

    -- The owner takes its flight out of the map, and goes on as `new`.
    pub remove-Sound :
        (s : Run Key T) (i : ℕ) (k : Key) (flight : ℕ) (new : Thread Key T)
        → Owner (s.threads i) k flight
        → ((q : Key) (id : ℕ) → Owner (s.threads i) q id → k ≡ q)
        → ((q : Key) (id : ℕ) → ¬ Owner new q id)
        → ((id : ℕ) → Closer (s.threads i) id → Closer new id)
        → ((id : ℕ) → Notifier (s.threads i) id → Notifier new id)
        → ThreadOk (removed i k new s) new
        → Sound s
        → Sound (removed i k new s)
    remove-Sound s i k flight new mine only_key none_after closer notifier ok h = record {
      threads_ok = Frame-threads_ok s (removed i k new s) i new frame h.threads_ok ok;
      made_for = λ q id e. h.made_for q id (before q id e);
      owned = λ q id e.
          set_at-Owned s.threads i new q id (λ o. absurd (apart q id e (only_key q id o)))
            (λ o. absurd (none_after q id o)) (h.owned q id (before q id e));
      results = h.results;
    }
      where
        some_eq : {a b : ℕ} → some a ≡ some b → a ≡ b
        some_eq e = cc

        none-ne-some : {a : ℕ} → ¬ (none ≡ some a)
        none-ne-some x = cc

        registered : s.registry.flights k ≡ some flight
        registered = Owner-registered s (s.threads i) k flight (h.threads_ok i) mine

        apart :
            (q : Key) (id : ℕ) → set_key key_dec k none s.registry.flights q ≡ some id → ¬ (k ≡ q)
        apart q id e p = none-ne-some (
            sym (set_key_same key_dec k none s.registry.flights)
            ∙ ap (set_key key_dec k none s.registry.flights) p
            ∙ e)

        before :
            (q : Key) (id : ℕ)
            → set_key key_dec k none s.registry.flights q ≡ some id
            → s.registry.flights q ≡ some id
        before q id e = sym (set_key_other key_dec k q none s.registry.flights (apart q id e)) ∙ e

        -- Another thread owns no flight of the key.
        others :
            (j : ℕ) (q : Key) (id : ℕ)
            → ¬ (i ≡ j)
            → Owner (s.threads j) q id
            → s.registry.flights q ≡ some id
            → ¬ (k ≡ q)
        others j q id d o e p =
            let (m, (_, only)) = h.owned q id e in
            let same : flight ≡ id = some_eq (sym registered ∙ ap s.registry.flights p ∙ e) in
            let my_own : Owner (s.threads i) q id =
              subst (λ n. Owner (s.threads i) q n) same
                (subst (λ x. Owner (s.threads i) x flight) p mine) in
            d (only i my_own ∙ sym (only j o))

        frame : Frame s (removed i k new s) i new
        frame = record {
          threads = refl;
          made = λ q id m. m;
          closed = λ q id m c. c;
          flights = λ j q id d o e.
              set_key_other key_dec k q none s.registry.flights (others j q id d o e) ∙ e;
          computed = λ q w x. x;
          closer = λ q id m c. inl (closer id c);
          notifier = notifier;
        }
