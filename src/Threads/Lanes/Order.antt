-- ===== src/Threads/Lanes/Order.antt =====
-- What holds of a lane of daemon/src/lanes.rs in every interleaving of its callers and runners.
use import_lens.Prelude.{
  ℕ, suc, ◌+◌, ◌≤◌, ◌<◌, ◌≡◌, refl, ap, sym, ◌∙◌, List, [], ◌∷◌, ◌++◌, ltb, length, length-append,
  append_assoc, append_nil, arith, Bool-cases, inl, inr,
}
use import_lens.Threads.Lanes.{
  System, spawn, next_job, limit_of, after_spawn, after_look, Step, spawns, looks, ends, Reachable,
  begin, step,
}

module _ {Job : Type 0} where
  pub record Sound (limit : ℕ) (s : System Job) : Type 0 where
    -- `running` counts the runners, those that look for a job and those that run one.
    pub counted : s.lane.running ≡ s.looking + length s.busy
    pub bounded : s.lane.running ≤ limit
    -- While a job waits, all the runners that there may be are there, or one of them will look again.
    pub not_stranded : 0 < length s.lane.queue → 0 < s.lane.running
    -- Every job that was spawned was started or waits, once, and jobs start in the order of `spawn`.
    pub in_order : s.started ++ s.lane.queue ≡ s.spawned

  spawn-Sound :
      (limit : ℕ) (job : Job) (s : System Job)
      → 0 < limit
      → Sound limit s
      → Sound limit (after_spawn limit job s)
  unfolding after_spawn spawn
  spawn-Sound limit job s pos h = elim (Bool-cases (ltb s.lane.running limit)) [
    | inl free ↦ record {
      counted = rw free (omega (arith, h.counted));
      bounded = ground (arith, h.bounded);
      not_stranded = λ _. rw free (omega arith);
      in_order = order;
    }
    | inr full ↦ record {
      counted = rw full (h.counted);
      bounded = ground (arith, h.bounded);
      not_stranded = λ _. ground (arith);
      in_order = order;
    }
  ]
    where
      order : s.started ++ (s.lane.queue ++ job ∷ []) ≡ s.spawned ++ job ∷ []
      order =
          sym (append_assoc s.started s.lane.queue (job ∷ []))
          ∙ ap (λ js. js ++ job ∷ []) (h.in_order)

  look-Sound :
      (limit looking : ℕ) (s : System Job)
      → s.looking ≡ suc looking
      → Sound limit s
      → Sound limit (after_look looking s)
  unfolding after_look next_job
  look-Sound limit looking s e h = go (s.lane.queue) refl (h.in_order)
    where
      go :
          (queue : List Job)
          → s.lane.queue ≡ queue
          → s.started ++ queue ≡ s.spawned
          → Sound limit (after_look looking s)
      go [] q order = rw q (record {
        counted = omega (arith, h.counted, e);
        bounded = omega (arith, h.bounded);
        not_stranded = λ w. absurd (omega (arith, w, ap length q));
        in_order = order;
      })
      go (job ∷ queue) q order = rw q (record {
        counted = omega (arith, h.counted, e);
        bounded = h.bounded;
        not_stranded = λ w. omega (arith, h.counted, e);
        in_order = append_assoc s.started (job ∷ []) queue ∙ order;
      })

  end-Sound :
      (limit : ℕ) (s : System Job) (before : List Job) (job : Job) (after : List Job)
      → s.busy ≡ before ++ job ∷ after
      → Sound limit s
      → Sound limit (record s { busy = before ++ after; looking = suc s.looking })
  end-Sound limit s before job after e h = record {
    counted = omega (
      arith,
      h.counted,
      ap length e,
      length-append before (job ∷ after),
      length-append before after,
    );
    bounded = h.bounded;
    not_stranded = h.not_stranded;
    in_order = h.in_order;
  }

  Step-Sound :
      (limit : ℕ) → 0 < limit → (s t : System Job) → Sound limit s → Step limit s t → Sound limit t
  Step-Sound limit pos s _ h (spawns job) = spawn-Sound limit job s pos h
  Step-Sound limit pos s _ h (looks looking e) = look-Sound limit looking s e h
  Step-Sound limit pos s _ h (ends before job after e) = end-Sound limit s before job after e h

  Reachable-Sound : (limit : ℕ) → 0 < limit → (s : System Job) → Reachable limit s → Sound limit s
  Reachable-Sound limit pos _ begin = record {
    counted = refl;
    bounded = omega arith;
    not_stranded = λ w. absurd (omega (arith, w));
    in_order = refl;
  }
  Reachable-Sound limit pos _ (step {s} {t} r st) =
      Step-Sound limit pos s t (Reachable-Sound limit pos s r) st

  -- At rest: no runner looks for a job and none runs one.
  abbrev pub AtRest : System Job → Type 0
  AtRest s = (s.looking ≡ 0) × (length s.busy ≡ 0)

  -- Whatever the callers and the runners do in whatever order, panics included: no more jobs run at once
  -- than the lane's limit; the jobs start in the order in which they were spawned, each of them once;
  -- while one waits there is a runner that runs a job or looks for one; and at rest all were started.
  pub lane-keeps_order :
      (limit : ℕ) (s : System Job)
      → Reachable (limit_of limit) s
      → (length s.busy ≤ limit_of limit)
        × (s.started ++ s.lane.queue ≡ s.spawned)
        × (0 < length s.lane.queue → ¬ AtRest s)
        × (AtRest s → s.started ≡ s.spawned)
  lane-keeps_order limit s r =
      let h = Reachable-Sound (limit_of limit) (omega arith) s r in
      (
        omega (arith, h.counted, h.bounded),
        h.in_order,
        (λ waits rest. omega (arith, h.not_stranded waits, h.counted, rest.0, rest.1)),
        λ rest.
            drained s.lane.queue h.in_order
              (λ waits. omega (arith, h.not_stranded waits, h.counted, rest.0, rest.1)),
      )
    where
      drained :
          (queue : List Job)
          → s.started ++ queue ≡ s.spawned
          → ¬ (0 < length queue)
          → s.started ≡ s.spawned
      drained [] order none_left = sym (append_nil s.started) ∙ order
      drained (job ∷ queue) order none_left = absurd (none_left (omega arith))
