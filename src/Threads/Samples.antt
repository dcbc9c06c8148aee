-- ===== src/Threads/Samples.antt =====
-- Runs of the modules on the threads of daemon/src, and an input where each of their theorems applies.
use import_lens.Prelude.{
  ◌+◌, arith, List, [], ◌∷◌, ℕ_discrete, In, ℕ, ◌≤◌, ◌<◌, ◌≡◌, refl, [], ◌∷◌, ◌++◌, length,
}
use import_lens.Threads.Lanes.{
  System, initial, limit_of, after_spawn, after_look, spawn, next_job, Reachable, begin, step,
  spawns, looks,
}
use import_lens.Threads.Flight.{
  Run, wants, leading, publishing, published, joined, waiting, returned, moves, set_at, set_key,
  after_claim, claim_flight, wait_for_result, publish, awaken, notify_all, calls, claims, publishes,
  notifies, looks as looks_again, initial as run_initial, Reachable as Reached, begin as at_start,
  step as reached,
}
use import_lens.Threads.Flight.Frames.{Attended, Tended}
use import_lens.Threads.Flight.Reached.{run_or_join-single}
use import_lens.Threads.Drain.{
  Drain, start_drain, after_take, after_push, DrainStep, Drained, begins, then_step, takes, pushes,
  AllDone, drain_ordered,
}
use import_lens.Threads.Drain.Sort.{results_from}
use import_lens.Threads.Drain.Order.{left, drain_ordered-order}
use import_lens.Threads.Lanes.Order.{AtRest, lane-keeps_order}

-- Two jobs on a lane of one runner, which has taken the first.
abbrev two_jobs : System ℕ
two_jobs = after_look 0 (after_spawn 1 8 (after_spawn 1 7 initial))

two_jobs-Reachable : Reachable (limit_of 1) two_jobs
unfolding after_spawn spawn
two_jobs-Reachable = step (step (step begin (spawns 7)) (spawns 8)) (looks 0 refl)

the_first_job_runs : two_jobs.busy ≡ 7 ∷ []
unfolding after_look after_spawn spawn next_job
the_first_job_runs = refl

lane-keeps_order_example :
    (length two_jobs.busy ≤ limit_of 1)
    × (two_jobs.started ++ two_jobs.lane.queue ≡ two_jobs.spawned)
    × (0 < length two_jobs.lane.queue → ¬ AtRest two_jobs)
    × (AtRest two_jobs → two_jobs.started ≡ two_jobs.spawned)
lane-keeps_order_example = lane-keeps_order 1 two_jobs two_jobs-Reachable

-- Thread 0 computes for the key 7, and thread 1 sleeps until it is notified.
abbrev started : Run ℕ ℕ
started =
    after_claim ℕ_discrete 1 7 (
      after_claim ℕ_discrete 0 7 (moves 0 (wants 7) (moves 1 (wants 7) (run_initial ℕ_discrete 7))))

abbrev asleep : Run ℕ ℕ
asleep = moves 1 (wait_for_result 7 0 (started.registry.state 0)) started

abbrev result_out : Run ℕ ℕ
result_out = record asleep {
  registry = publish 0 42 asleep.registry;
  threads = set_at 0 (publishing 7 0 42) asleep.threads;
  computed = (7, 42) ∷ asleep.computed;
}

abbrev notified : Run ℕ ℕ
notified = record result_out {
  threads = set_at 0 (published 7 0 42) (notify_all 0 result_out.threads);
}

-- The follower looks again, and returns.
abbrev looked : Run ℕ ℕ
looked = moves 1 (wait_for_result 7 0 (notified.registry.state 0)) notified

looked-Reachable : Reached ℕ_discrete looked
unfolding set_at set_key ℕ_discrete after_claim claim_flight wait_for_result publish awaken
looked-Reachable =
    reached
      (reached
        (reached
          (reached
            (reached
              (reached (reached (reached (at_start 7) (calls 1 7 refl)) (calls 0 7 refl))
                (claims 0 7 refl))
              (claims 1 7 refl))
            (looks_again 1 7 0 refl))
          (publishes 0 7 0 42 refl))
        (notifies 0 7 0 42 refl))
      (looks_again 1 7 0 refl)

the_follower_sleeps : asleep.threads 1 ≡ waiting 7 0
unfolding set_at set_key ℕ_discrete after_claim claim_flight wait_for_result
the_follower_sleeps = refl

the_follower_returns : looked.threads 1 ≡ returned 7 42
unfolding set_at set_key ℕ_discrete after_claim claim_flight wait_for_result publish awaken
the_follower_returns = refl

run_or_join-single_example :
    ((i j k f g : ℕ) → looked.threads i ≡ leading k f → looked.threads j ≡ leading k g → i ≡ j)
    × ((i k v : ℕ) → looked.threads i ≡ returned k v → In (k, v) looked.computed)
    × ((i k f : ℕ) → looked.threads i ≡ waiting k f → Attended looked f)
    × ((i k f : ℕ) → looked.threads i ≡ joined k f → Tended looked f)
run_or_join-single_example = run_or_join-single ℕ_discrete looked looked-Reachable

-- Two items on two workers; the second one is done first.
abbrev items : List ℕ
items = 10 ∷ 20 ∷ []

abbrev add : ℕ → ℕ → ℕ
add index item = index + item

abbrev drained : Drain ℕ ℕ
drained =
    after_push items add [] (0, 10) []
      (after_push items add [] (1, 20) ((0, 10) ∷ [])
        (after_take items add 20 (after_take items add 10 (start_drain items add))))

drained-Drained : Drained items add 2 drained
drained-Drained =
    then_step
      (then_step
        (then_step (then_step begins (takes 10 refl (omega arith))) (takes 20 refl (omega arith)))
        (pushes [] (1, 20) ((0, 10) ∷ []) refl))
      (pushes [] (0, 10) [] refl)

results_in_item_order : drain_ordered items add drained ≡ 10 ∷ 21 ∷ []
unfolding drain_ordered
results_in_item_order = refl

drain_ordered-order_example :
    ((t : Drain ℕ ℕ) → DrainStep items add 2 drained t → left items add t < left items add drained)
    × (¬ AllDone items add drained → (t : Drain ℕ ℕ) × DrainStep items add 2 drained t)
    × (AllDone items add drained → drain_ordered items add drained ≡ results_from add 0 items)
drain_ordered-order_example = drain_ordered-order items add 2 drained (omega arith) drained-Drained
