-- ===== src/Threads/Lanes.antt =====
-- daemon/src/lanes.rs: a lane and its runners. A call under the lane's mutex is one step; the runners'
-- own steps come between them in any order. What the lane cannot see (which runners look for a job,
-- which jobs run) is kept beside its state.
pub mod Order
use import_lens.Prelude.{
  ℕ, zero, suc, ◌+◌, ◌-◌, ◌≡◌, Bool, true, false, List, [], ◌∷◌, ◌++◌, Option, none, some, ltb,
  if◌then◌else◌, max,
}

pub record LaneState (Job : Type 0) : Type 0 where
  pub queue : List Job
  pub running : ℕ

-- The lane, the runners that look for a job, the jobs that run, and all that were started and spawned.
pub record System (Job : Type 0) : Type 0 where
  pub lane : LaneState Job
  pub looking : ℕ
  pub busy : List Job
  pub started : List Job
  pub spawned : List Job

-- `Lane::new` makes room for one runner at least.
abbrev pub limit_of : ℕ → ℕ
limit_of limit = max limit 1

module _ {Job : Type 0} where
  abbrev pub new_lane : LaneState Job
  new_lane = record { queue = []; running = 0 }

  -- The state after a `spawn`, and whether it starts a runner.
  unfoldable pub spawn : ℕ → Job → LaneState Job → Bool × LaneState Job
  spawn limit job lane =
      let start = ltb lane.running limit in
      (
        start,
        record {
          queue = lane.queue ++ job ∷ [];
          running = if start then suc lane.running else lane.running;
        },
      )

  -- The critical section of `drain`: the next job, or the end of the runner.
  unfoldable pub next_job : LaneState Job → Option Job × LaneState Job
  next_job lane = elim (lane.queue) [
    | [] ↦ (none, record lane { running = lane.running - 1 })
    | job ∷ queue ↦ (some job, record lane { queue = queue })
  ]

  abbrev pub initial : System Job
  initial = record { lane = new_lane; looking = 0; busy = []; started = []; spawned = [] }

  unfoldable pub after_spawn : ℕ → Job → System Job → System Job
  unfolding spawn
  after_spawn limit job s =
      let (start, lane) = spawn limit job s.lane in
      record s {
        lane = lane;
        looking = if start then suc s.looking else s.looking;
        spawned = s.spawned ++ job ∷ [];
      }

  -- A runner that was looking leaves, or runs the job that it got.
  unfoldable pub after_look : ℕ → System Job → System Job
  unfolding next_job
  after_look looking s = elim ((next_job s.lane).0) [
    | none ↦ record s { lane = (next_job s.lane).1; looking = looking }
    | some job ↦ record s {
      lane = (next_job s.lane).1;
      looking = looking;
      busy = job ∷ s.busy;
      started = s.started ++ job ∷ [];
    }
  ]

module _ {Job : Type 0} (limit : ℕ) where
  pub data Step (s : System Job) : System Job → Type 0 where
    spawns : (job : Job) → Step s (after_spawn limit job s)
    looks : (looking : ℕ) → s.looking ≡ suc looking → Step s (after_look looking s)
    -- A job ends, by returning or by a panic, and its runner looks for another one.
    ends :
        (before : List Job) (job : Job) (after : List Job)
        → s.busy ≡ before ++ job ∷ after
        → Step s (record s { busy = before ++ after; looking = suc s.looking })

  pub data Reachable : System Job → Type 0 where
    begin : Reachable initial
    step : {s t : System Job} → Reachable s → Step s t → Reachable t
