-- ===== src/Registry/RateLimiter/Windows.antt =====
-- How many requests a window of the limiter of daemon/src/registry/service.rs lets through.
use import_lens.Prelude.{
  ℕ, suc, ◌+◌, ◌≤◌, ◌<◌, ◌≡◌, refl, Bool, true, false, List, [], ◌∷◌, ltb, leb, ◌&&◌, ◌-◌, ◌*◌, ◌⊎◌,
  All, if◌then◌else◌, min, max, arith, Bool-cases, inl, inr, subst,
}
use import_lens.Registry.RateLimiter.{
  RegistryRateLimiter, new, apply_retry_after, take_slot, reserve_slot, Call, reserve, retry_after,
  request_limit, Request, request_at, requests, registry_rate_limit_requests,
  registry_rate_limit_window_ms, registry_max_backoff_ms,
}

-- In the second that begins at `v`.
abbrev pub within : ℕ → ℕ → Bool
within v n = leb v n && ltb n (v + registry_rate_limit_window_ms)

-- How many requests are counted in a window that opens in the second from `v` on.
unfoldable pub in_second : ℕ → List Request → ℕ
in_second v [] = 0
in_second v (r ∷ rs) = let rest = in_second v rs in if within v r.window then suc rest else rest

-- How many requests start in the second from `v` on.
unfoldable pub starting : ℕ → List Request → ℕ
starting v [] = 0
starting v (r ∷ rs) = let rest = starting v rs in if within v r.starts then suc rest else rest

-- The slots of the windows that open in that second that are taken or cannot be taken any more.
spent : RegistryRateLimiter → ℕ → ℕ
spent limiter v =
    if leb (v + registry_rate_limit_window_ms) limiter.window_opens_at
    then registry_rate_limit_requests
    else if leb v limiter.window_opens_at
    then limiter.request_count
    else 0

spent-take_slot :
    (limiter : RegistryRateLimiter) (now limit v : ℕ)
    → limiter.request_count ≤ registry_rate_limit_requests
    → limit ≤ registry_rate_limit_requests
    → spent limiter v + (if within v (take_slot now limit limiter).window_opens_at then 1 else 0)
      ≤ spent (take_slot now limit limiter) v
unfolding spent take_slot
spent-take_slot limiter now limit v h k = ground arith

count-take_slot :
    (limiter : RegistryRateLimiter) (now limit : ℕ)
    → limiter.request_count ≤ registry_rate_limit_requests
    → limit ≤ registry_rate_limit_requests
    → (take_slot now limit limiter).request_count ≤ registry_rate_limit_requests
unfolding take_slot
count-take_slot limiter now limit h k = ground arith

spent-apply_retry_after :
    (limiter : RegistryRateLimiter) (now delay v : ℕ)
    → (spent (apply_retry_after now delay limiter) v ≡ spent limiter v)
      × ((apply_retry_after now delay limiter).request_count ≡ limiter.request_count)
unfolding spent apply_retry_after
spent-apply_retry_after limiter now delay v =
    elim (Bool-cases (ltb limiter.backoff_until (now + min delay registry_max_backoff_ms))) [
      | inl e ↦ rw e (refl, refl)
      | inr e ↦ rw e (refl, refl)
    ]

limit-le : (manual : Bool) → request_limit manual ≤ registry_rate_limit_requests
limit-le true = omega arith
limit-le false = omega arith

in_second-spent :
    (calls : List Call) (limiter : RegistryRateLimiter) (v : ℕ)
    → limiter.request_count ≤ registry_rate_limit_requests
    → spent limiter v + in_second v (requests calls limiter) ≤ registry_rate_limit_requests
unfolding in_second requests spent reserve_slot request_at
in_second-spent [] limiter v h = ground arith
in_second-spent (reserve now manual ∷ calls) limiter v h =
    let after = take_slot now (request_limit manual) limiter in
    let here = spent-take_slot limiter now (request_limit manual) v h (limit-le manual) in
    let later =
      in_second-spent calls after v
        (count-take_slot limiter now (request_limit manual) h (limit-le manual)) in
    one_more (within v after.window_opens_at) _ _ _ here later
  where
    one_more :
        (b : Bool) (before after rest : ℕ)
        → before + (if b then 1 else 0) ≤ after
        → after + rest ≤ registry_rate_limit_requests
        → before + (if b then suc rest else rest) ≤ registry_rate_limit_requests
    one_more true before after rest p q = omega arith
    one_more false before after rest p q = omega arith
in_second-spent (retry_after now delay ∷ calls) limiter v h =
    let (same, count) = spent-apply_retry_after limiter now delay v in
    let later = in_second-spent calls (apply_retry_after now delay limiter) v (rw count h) in
    subst
      (λ n.
        n + in_second v (requests calls (apply_retry_after now delay limiter))
        ≤ registry_rate_limit_requests)
      same later

-- When the request that asks at `now` may start.
pub starts-max :
    (limiter : RegistryRateLimiter) (now limit : ℕ)
    → (request_at now (reserve_slot now limit limiter)).starts
      ≡ max now (max (take_slot now limit limiter).window_opens_at limiter.backoff_until)
unfolding reserve_slot request_at take_slot
starts-max limiter now limit = ground arith

take_slot-open :
    (limiter : RegistryRateLimiter) (now limit : ℕ)
    → now < (take_slot now limit limiter).window_opens_at + registry_rate_limit_window_ms
unfolding take_slot
take_slot-open limiter now limit = ground arith

-- A request starts once its window is open, and before the window has passed unless a backoff that ends at
-- `ends` or earlier holds it.
abbrev pub Timed : ℕ → Request → Type 0
Timed ends r =
    (r.window ≤ r.starts)
    × ((r.starts ≤ ends) ⊎ (r.starts < r.window + registry_rate_limit_window_ms))

reserve_slot-Timed :
    (limiter : RegistryRateLimiter) (now limit ends : ℕ)
    → limiter.backoff_until ≤ ends
    → Timed ends (request_at now (reserve_slot now limit limiter))
unfolding reserve_slot request_at
reserve_slot-Timed limiter now limit ends h =
    let e = starts-max limiter now limit in
    let still_open = take_slot-open limiter now limit in
    (ground (arith, e), ground (arith, e, still_open, h))

-- The backoff that a call asks for ends at `ends` or earlier.
abbrev pub EndsBy : ℕ → Call → Type 0
EndsBy ends (reserve now manual) = Unit
EndsBy ends (retry_after now delay) = now + min delay registry_max_backoff_ms ≤ ends

backoff-take_slot :
    (limiter : RegistryRateLimiter) (now limit : ℕ)
    → (take_slot now limit limiter).backoff_until ≡ limiter.backoff_until
unfolding take_slot
backoff-take_slot limiter now limit = ground arith

requests-Timed :
    (calls : List Call) (limiter : RegistryRateLimiter) (ends : ℕ)
    → limiter.backoff_until ≤ ends
    → All (EndsBy ends) calls
    → All (Timed ends) (requests calls limiter)
unfolding requests reserve_slot apply_retry_after
requests-Timed [] limiter ends h all = tt
requests-Timed (reserve now manual ∷ calls) limiter ends h all = (
  reserve_slot-Timed limiter now (request_limit manual) ends h,
  requests-Timed calls (take_slot now (request_limit manual) limiter) ends
      (omega (arith, h, backoff-take_slot limiter now (request_limit manual))) all.1,
)
requests-Timed (retry_after now delay ∷ calls) limiter ends h all =
    requests-Timed calls (apply_retry_after now delay limiter) ends (ground (arith, h, all.0)) all.1

-- The windows that a second meets open in it or in the second before.
starting-in_second :
    (rs : List Request) (ends v : ℕ)
    → ends < v
    → All (Timed ends) rs
    → starting v rs ≤ in_second (suc v - registry_rate_limit_window_ms) rs + in_second (suc v) rs
unfolding starting in_second
starting-in_second [] ends v h all = omega arith
starting-in_second (r ∷ rs) ends v h all =
    ground (arith, starting-in_second rs ends v h all.1, all.0.0, all.0.1)

-- Whatever the calls and the clock they read, at most 20 requests, manual refreshes and background sweeps
-- together, are counted in the windows that open in any one second; every request starts no earlier than its
-- window opens, and before it has passed unless a backoff holds it to at most the end of all the backoffs
-- asked for; and in any second that begins after all of these have ended, at most 40 requests start, since it
-- meets two windows at most. As long as backoffs last, more may start together.
pub starting-requests :
    (started : ℕ) (calls : List Call) (ends v t : ℕ)
    → started ≤ ends
    → All (EndsBy ends) calls
    → ends < v
    → (in_second t (requests calls (new started)) ≤ registry_rate_limit_requests)
      × All (Timed ends) (requests calls (new started))
      × (starting v (requests calls (new started)) ≤ 2 * registry_rate_limit_requests)
unfolding new
starting-requests started calls ends v t h all after =
    let rs = requests calls (new started) in
    let timed = requests-Timed calls (new started) ends h all in
    (
      counted t,
      timed,
      omega (
        arith,
        starting-in_second rs ends v after timed,
        counted (suc v - registry_rate_limit_window_ms),
        counted (suc v),
      ),
    )
  where
    counted : (u : ℕ) → in_second u (requests calls (new started)) ≤ registry_rate_limit_requests
    counted u = omega (arith, in_second-spent calls (new started) u (omega arith))
