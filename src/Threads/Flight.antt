-- ===== src/Threads/Flight.antt =====
-- daemon/src/analysis_flight.rs: one computation for a key at a time, with followers that wait for it.
-- What a thread does under one mutex is one step, and so is a `notify_all` of the condition variable, which
-- comes after the mutex is released. A follower that found its flight open sleeps until it is notified, or
-- wakes on its own, and then looks again. A flight behind an `Arc` is the number it was made under:
-- `Arc::ptr_eq` compares numbers.
pub mod Frames
pub mod Change
pub mod Steps
pub mod Claim
pub mod Reached
use import_lens.Prelude.{
  ℕ, suc, ◌≡◌, Bool, true, false, List, [], ◌∷◌, Option, none, some, ite, ℕ_discrete, ◌==◌,
  if◌then◌else◌,
}

pub record AnalysisFlightState (T : Type 0) : Type 0 where
  pub result : Option T
  pub closed : Bool

-- The map of the registry, the flights behind its pointers, and how many were made.
pub record AnalysisFlightRegistry (Key T : Type 0) : Type 0 where
  pub flights : Key → Option ℕ
  pub state : ℕ → AnalysisFlightState T
  pub made : ℕ

pub data FlightClaim : Type 0 where
  leader follower : ℕ → FlightClaim

-- What a thread is at, in `run_or_join`: `wants` at the head of the loop, `leading` while it computes,
-- `publishing` between the publication and its `notify_all`, `published` until the drop of the leader;
-- `abandoning` after a panic, when the flight is out of the map and not closed, and `closing` between
-- the close and its `notify_all`; `joined` while a follower is to look at its flight, `waiting` while it
-- sleeps.
pub data Thread (Key T : Type 0) : Type 0 where
  idle : Thread Key T
  wants : Key → Thread Key T
  leading : Key → ℕ → Thread Key T
  publishing : Key → ℕ → T → Thread Key T
  published : Key → ℕ → T → Thread Key T
  abandoning : Key → ℕ → Thread Key T
  closing : Key → ℕ → Thread Key T
  joined : Key → ℕ → Thread Key T
  waiting : Key → ℕ → Thread Key T
  returned : Key → T → Thread Key T
  unwound : Thread Key T

unfoldable pub set_at {ℓ} : {A : Type ℓ} → ℕ → A → (ℕ → A) → ℕ → A
set_at i v f j = ite (ℕ_discrete i j) v (f j)

-- The registry and the threads, and beside them the key of each flight and all values computed.
pub record Run (Key T : Type 0) : Type 0 where
  pub registry : AnalysisFlightRegistry Key T
  pub threads : ℕ → Thread Key T
  pub key_of : ℕ → Key
  pub computed : List (Key × T)

abbrev pub is_current : Option ℕ → ℕ → Bool
is_current none flight = false
is_current (some current) flight = current == flight

unfoldable pub set_key {ℓ} :
    {Key : Type ℓ} → Discrete Key → Key → Option ℕ → (Key → Option ℕ) → Key → Option ℕ
set_key key_dec k v f q = ite (key_dec k q) v (f q)

abbrev pub open_flight : {T : Type 0} → AnalysisFlightState T
open_flight = record { result = none; closed = false }

module _ {Key T : Type 0} where
  -- `publish` up to its `notify_all`.
  unfoldable pub publish : ℕ → T → AnalysisFlightRegistry Key T → AnalysisFlightRegistry Key T
  unfolding set_at
  publish flight result r = record r {
    state = set_at flight (record { result = some result; closed = true }) r.state;
  }

  -- `close_without_result` up to its `notify_all`.
  unfoldable pub close_without_result :
      ℕ → AnalysisFlightRegistry Key T → AnalysisFlightRegistry Key T
  unfolding set_at
  close_without_result flight r = record r {
    state = set_at flight (record (r.state flight) { closed = true }) r.state;
  }

  -- A thread under `notify_all` of the flight: it wakes if it sleeps on that one.
  unfoldable pub awaken : ℕ → Thread Key T → Thread Key T
  awaken flight idle = idle
  awaken flight (wants k) = wants k
  awaken flight (leading k f) = leading k f
  awaken flight (publishing k f v) = publishing k f v
  awaken flight (published k f v) = published k f v
  awaken flight (abandoning k f) = abandoning k f
  awaken flight (closing k f) = closing k f
  awaken flight (joined k f) = joined k f
  awaken flight (waiting k f) = if flight == f then joined k f else waiting k f
  awaken flight (returned k v) = returned k v
  awaken flight unwound = unwound

  abbrev pub notify_all : ℕ → (ℕ → Thread Key T) → ℕ → Thread Key T
  notify_all flight threads j = awaken flight (threads j)

  abbrev pub moves : ℕ → Thread Key T → Run Key T → Run Key T
  moves i thread s = record s { threads = set_at i thread s.threads }

  -- A look of a follower at its flight: it sleeps while the flight is open; it returns the result, or begins
  -- again if the flight was closed without one.
  unfoldable pub wait_for_result : Key → ℕ → AnalysisFlightState T → Thread Key T
  wait_for_result k flight state =
      if state.closed
      then (elim state.result [ none ↦ wants k | some v ↦ returned k v ])
      else waiting k flight

  module _ (key_dec : Discrete Key) where
    unfoldable pub claim_flight :
        Key → AnalysisFlightRegistry Key T → FlightClaim × AnalysisFlightRegistry Key T
    unfolding set_key set_at
    claim_flight key r = elim (r.flights key) [
      | some flight ↦ (follower flight, r)
      | none ↦ (
        leader r.made,
        record {
          flights = set_key key_dec key (some r.made) r.flights;
          state = set_at r.made open_flight r.state;
          made = suc r.made;
        },
      )
    ]

    unfoldable pub remove_current_flight :
        Key → ℕ → AnalysisFlightRegistry Key T → AnalysisFlightRegistry Key T
    unfolding set_key
    remove_current_flight key flight r =
        if is_current (r.flights key) flight
        then record r { flights = set_key key_dec key none r.flights }
        else r

    unfoldable pub after_claim : ℕ → Key → Run Key T → Run Key T
    unfolding claim_flight
    after_claim i k s = elim (claim_flight k s.registry).0 [
      | leader flight ↦ record s {
        registry = (claim_flight k s.registry).1;
        threads = set_at i (leading k flight) s.threads;
        key_of = set_at flight k s.key_of;
      }
      | follower flight ↦ moves i (joined k flight) s
    ]

    -- The steps of thread `i`: those of a leader that publishes and is dropped are `publishes`, `notifies`
    -- and `returns`; those of one that is dropped by a panic are `panics`, `closes` and `unwinds`.
    pub data Step (s : Run Key T) : Run Key T → Type 0 where
      calls : (i : ℕ) (k : Key) → s.threads i ≡ idle → Step s (moves i (wants k) s)
      claims : (i : ℕ) (k : Key) → s.threads i ≡ wants k → Step s (after_claim i k s)
      publishes :
          (i : ℕ) (k : Key) (flight : ℕ) (v : T)
          → s.threads i ≡ leading k flight
          → Step s (record s {
            registry = publish flight v s.registry;
            threads = set_at i (publishing k flight v) s.threads;
            computed = (k, v) ∷ s.computed;
          })
      notifies :
          (i : ℕ) (k : Key) (flight : ℕ) (v : T)
          → s.threads i ≡ publishing k flight v
          → Step s
              (record s { threads = set_at i (published k flight v) (notify_all flight s.threads) })
      returns :
          (i : ℕ) (k : Key) (flight : ℕ) (v : T)
          → s.threads i ≡ published k flight v
          → Step s (record s {
            registry = remove_current_flight k flight s.registry;
            threads = set_at i (returned k v) s.threads;
          })
      panics :
          (i : ℕ) (k : Key) (flight : ℕ)
          → s.threads i ≡ leading k flight
          → Step s (record s {
            registry = remove_current_flight k flight s.registry;
            threads = set_at i (abandoning k flight) s.threads;
          })
      closes :
          (i : ℕ) (k : Key) (flight : ℕ)
          → s.threads i ≡ abandoning k flight
          → Step s (record s {
            registry = close_without_result flight s.registry;
            threads = set_at i (closing k flight) s.threads;
          })
      unwinds :
          (i : ℕ) (k : Key) (flight : ℕ)
          → s.threads i ≡ closing k flight
          → Step s (record s { threads = set_at i unwound (notify_all flight s.threads) })
      looks :
          (i : ℕ) (k : Key) (flight : ℕ)
          → s.threads i ≡ joined k flight
          → Step s (moves i (wait_for_result k flight (s.registry.state flight)) s)
      wakes_on_its_own :
          (i : ℕ) (k : Key) (flight : ℕ)
          → s.threads i ≡ waiting k flight
          → Step s (moves i (joined k flight) s)

    abbrev pub initial : Key → Run Key T
    initial k = record {
      registry = record { flights = λ _. none; state = λ _. open_flight; made = 0 };
      threads = λ _. idle;
      key_of = λ _. k;
      computed = [];
    }

    pub data Reachable : Run Key T → Type 0 where
      begin : (k : Key) → Reachable (initial k)
      step : {s t : Run Key T} → Reachable s → Step s t → Reachable t
