-- ===== src/Gateway/RateLimit/Races.antt =====
-- gateway/internal/middleware/ratelimit.go: two requests of one address that find no limiter at once,
-- and the eviction of idle limiters.
use vyse.Prelude.{
  ℕ, ◌+◌, ◌≡◌, refl, ◌∙◌, not, inl, inr, Bool, false, Option, none, some, ltb, if◌then◌else◌,
  Option-cases, Bool-cases,
}
use vyse.Gateway.{Bytes}
use vyse.Gateway.RateLimit.{Rate, IpLimiter, RateLimiter, idle_timeout, slow_path, evict_idle}
use vyse.Gateway.RateLimit.Invariant.{put_self}
use vyse.Gateway.RateLimit.Isolation.{own_bucket}

-- Whether an address was seen in the last ten minutes.
abbrev pub is_recent : ℕ → Option IpLimiter → Bool
is_recent now none = false
is_recent now (some e) = not (ltb (e.last_seen + idle_timeout) now)

module _ {F B : Type 0} (rate : Rate F B) where
  -- Whoever takes the lock first.
  slow_path-entry :
      (now : ℕ) (ip : Bytes) (rl : RateLimiter F B)
      → (e : IpLimiter) × ((slow_path rate now ip rl).1.limiters ip ≡ some e)
        × (e.limiter ≡ (slow_path rate now ip rl).0)
  unfolding slow_path
  slow_path-entry now ip rl = elim (Option-cases (rl.limiters ip)) [
    | inl missing ↦ rw (missing, slow_path) (_, put_self ip _ rl.limiters, refl)
    | inr (e, found) ↦ rw (found, slow_path) (_, put_self ip _ rl.limiters, refl)
  ]

  slow_path-again :
      (now : ℕ) (ip : Bytes) (rl : RateLimiter F B) (e : IpLimiter)
      → rl.limiters ip ≡ some e
      → ((slow_path rate now ip rl).0 ≡ e.limiter) × ((slow_path rate now ip rl).1.heap ≡ rl.heap)
  unfolding slow_path
  slow_path-again now ip rl e found = rw (found, slow_path) (refl, refl)

  -- Two requests of one address that both found no limiter get the same one: the request that takes
  -- the lock second adds none, whatever the limiters are.
  pub slow_path-shared :
      (now now' : ℕ) (ip : Bytes) (rl : RateLimiter F B)
      → ((slow_path rate now' ip (slow_path rate now ip rl).1).0 ≡ (slow_path rate now ip rl).0)
        × ((slow_path rate now' ip (slow_path rate now ip rl).1).1.heap
            ≡ (slow_path rate now ip rl).1.heap)
  slow_path-shared now now' ip rl =
      let (e, found, same) = slow_path-entry now ip rl in
      let (again, heap) = slow_path-again now' ip (slow_path rate now ip rl).1 e found in
      (again ∙ same, heap)

  -- The eviction takes no token and gives none to an address that was seen in the last ten minutes:
  -- its next request asks the same bucket. Any other address asks a new one.
  pub own_bucket-evict_idle :
      (now : ℕ) (ip : Bytes) (rl : RateLimiter F B)
      → own_bucket rate (evict_idle rate now rl) ip ≡ (
          if is_recent now (rl.limiters ip)
          then own_bucket rate rl ip
          else rate.new_limiter rl.rps rl.burst)
  unfolding evict_idle
  own_bucket-evict_idle now ip rl = elim (Option-cases (rl.limiters ip)) [
    | inl missing ↦ rw (missing)
    | inr (e, found) ↦ elim (Bool-cases (ltb (e.last_seen + idle_timeout) now)) [
      | inl idle ↦ rw (found) (rw (idle) refl)
      | inr recent ↦ rw (found) (rw (recent) refl)
    ]
  ]
