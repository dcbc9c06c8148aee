-- ===== src/Registry/RateLimiter.antt =====
-- `RegistryRateLimiter` of daemon/src/registry/service.rs. An `Instant` and a `Duration` are
-- milliseconds; `Instant::now()` is an argument of the calls that read the clock.
pub mod Windows
pub mod Backoff
use import_lens.Prelude.{
  ℕ, suc, ◌+◌, ◌-◌, Bool, true, false, List, [], ◌∷◌, Option, none, some, ltb, leb, ◌==◌,
  if◌then◌else◌, min, max,
}

abbrev pub registry_rate_limit_requests : ℕ
registry_rate_limit_requests = 20

abbrev pub registry_manual_rate_limit_requests : ℕ
registry_manual_rate_limit_requests = 5

abbrev pub registry_rate_limit_window_ms : ℕ
registry_rate_limit_window_ms = 1000

abbrev pub registry_max_backoff_ms : ℕ
registry_max_backoff_ms = 300000

pub record RegistryRateLimiter : Type 0 where
  pub window_opens_at : ℕ
  pub request_count : ℕ
  pub backoff_until : ℕ

unfoldable pub new : ℕ → RegistryRateLimiter
new now = record { window_opens_at = now; request_count = 0; backoff_until = now }

unfoldable pub apply_retry_after : ℕ → ℕ → RegistryRateLimiter → RegistryRateLimiter
apply_retry_after now delay limiter =
    let until = now + min delay registry_max_backoff_ms in
    if ltb limiter.backoff_until until then record limiter { backoff_until = until } else limiter

-- The window that the request takes its slot in, and how many slots of it are then taken.
unfoldable pub take_slot : ℕ → ℕ → RegistryRateLimiter → RegistryRateLimiter
take_slot now request_limit limiter =
    if leb (limiter.window_opens_at + registry_rate_limit_window_ms) now
    then record limiter { window_opens_at = now; request_count = 1 }
    else if ltb limiter.request_count request_limit
    then record limiter { request_count = suc limiter.request_count }
    else record limiter {
      window_opens_at = limiter.window_opens_at + registry_rate_limit_window_ms;
      request_count = 1;
    }

-- In each branch the wait is the time until the window opens: none if it opens now.
unfoldable pub reserve_slot : ℕ → ℕ → RegistryRateLimiter → Option ℕ × RegistryRateLimiter
unfolding take_slot
reserve_slot now request_limit limiter =
    let taken = take_slot now request_limit limiter in
    let window_wait = taken.window_opens_at - now in
    let wait = max window_wait (taken.backoff_until - now) in
    (if wait == 0 then none else some wait, taken)

-- What the fetching threads ask of the limiter, one call after the other: `wait_for_rate_limit_slot`
-- of a manual refresh or of a background sweep, and the `Retry-After` of a response.
pub data Call : Type 0 where
  reserve : (now : ℕ) (manual : Bool) → Call
  retry_after : (now delay : ℕ) → Call

abbrev pub request_limit : Bool → ℕ
request_limit true = registry_manual_rate_limit_requests
request_limit false = registry_rate_limit_requests

-- A request that was let through: its window, and when its wait is over.
pub record Request : Type 0 where
  pub window : ℕ
  pub starts : ℕ

abbrev pub wait_of : Option ℕ → ℕ
wait_of none = 0
wait_of (some wait) = wait

unfoldable pub request_at : ℕ → Option ℕ × RegistryRateLimiter → Request
request_at now answer = record {
  window = answer.1.window_opens_at;
  starts = now + wait_of answer.0;
}

unfoldable pub requests : List Call → RegistryRateLimiter → List Request
unfolding reserve_slot apply_retry_after request_at
requests [] limiter = []
requests (reserve now manual ∷ calls) limiter =
    let answer = reserve_slot now (request_limit manual) limiter in
    request_at now answer ∷ requests calls answer.1
requests (retry_after now delay ∷ calls) limiter =
    requests calls (apply_retry_after now delay limiter)

-- The limiter after the calls.
unfoldable pub after_calls : List Call → RegistryRateLimiter → RegistryRateLimiter
unfolding reserve_slot apply_retry_after
after_calls [] limiter = limiter
after_calls (reserve now manual ∷ calls) limiter =
    after_calls calls (reserve_slot now (request_limit manual) limiter).1
after_calls (retry_after now delay ∷ calls) limiter =
    after_calls calls (apply_retry_after now delay limiter)
