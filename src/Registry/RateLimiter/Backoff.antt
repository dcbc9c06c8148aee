-- ===== src/Registry/RateLimiter/Backoff.antt =====
-- The `Retry-After` floor of the limiter of daemon/src/registry/service.rs.
use import_lens.Prelude.{ℕ, ◌+◌, ◌≤◌, ◌≡◌, List, [], ◌∷◌, min, max, arith, All}
use import_lens.Registry.RateLimiter.{
  RegistryRateLimiter, apply_retry_after, take_slot, reserve_slot, Call, reserve, retry_after,
  request_limit, requests, registry_max_backoff_ms,
}
use import_lens.Registry.RateLimiter.Windows.{starts-max}

backoff-take_slot :
    (limiter : RegistryRateLimiter) (now limit : ℕ)
    → (take_slot now limit limiter).backoff_until ≡ limiter.backoff_until
unfolding take_slot
backoff-take_slot limiter now limit = ground arith

backoff-apply_retry_after :
    (limiter : RegistryRateLimiter) (now delay : ℕ)
    → (apply_retry_after now delay limiter).backoff_until
      ≡ max limiter.backoff_until (now + min delay registry_max_backoff_ms)
unfolding apply_retry_after
backoff-apply_retry_after limiter now delay = ground arith

requests-floor :
    (calls : List Call) (limiter : RegistryRateLimiter) (floor : ℕ)
    → floor ≤ limiter.backoff_until
    → All (λ r. floor ≤ r.starts) (requests calls limiter)
unfolding requests reserve_slot
requests-floor [] limiter floor h = tt
requests-floor (reserve now manual ∷ calls) limiter floor h = (
  ground (arith, starts-max limiter now (request_limit manual)),
  requests-floor calls (take_slot now (request_limit manual) limiter) floor
      (ground (arith, backoff-take_slot limiter now (request_limit manual))),
)
requests-floor (retry_after now delay ∷ calls) limiter floor h =
    requests-floor calls (apply_retry_after now delay limiter) floor
      (ground (arith, backoff-apply_retry_after limiter now delay))

-- Once a response asked to wait, every later request of the daemon, for whatever package, manual or
-- not, starts no earlier than that delay, capped at five minutes, after the response. Other delays
-- that come later, longer or shorter, do not change it.
pub requests-after-apply_retry_after :
    (calls : List Call) (limiter : RegistryRateLimiter) (now delay : ℕ)
    → All
        (λ r. now + min delay registry_max_backoff_ms ≤ r.starts)
        (requests calls (apply_retry_after now delay limiter))
requests-after-apply_retry_after calls limiter now delay =
    requests-floor calls (apply_retry_after now delay limiter) _
      (ground (arith, backoff-apply_retry_after limiter now delay))
