-- ===== src/Gateway/RateLimit.antt =====
-- gateway/internal/middleware/ratelimit.go: one token bucket for each IP address. The buckets of
-- `rate` are a parameter. A limiter is a pointer that a request holds after it has left the lock, so
-- the buckets stand on a heap, and the map holds their addresses. Each part that holds the lock is a
-- function of its own.
pub mod Invariant
pub mod Lookup
pub mod Isolation
pub mod Races
pub mod Refinement
use vyse.Prelude.{
  ℕ, ◌+◌, ◌*◌, ◌^◌, ltb, if◌then◌else◌, Bool, true, false, Option, none, some, List, [], ◌∷◌, ◌++◌,
  codes, text_eq, length, get_elem?, set,
}
use vyse.Prelude.Int.{ℤ}
use vyse.Gateway.{Bytes, HttpRequest, Outcome, pass, refuse}

-- `rate.NewLimiter(rps, burst)` and `Allow()`, at a time in nanoseconds; `B` is a bucket.
pub record Rate (F B : Type 0) : Type 0 where
  pub new_limiter : F → ℤ → B
  pub allow : ℕ → B → Bool × B

pub record IpLimiter : Type 0 where
  pub limiter : ℕ
  pub last_seen : ℕ

pub record RateLimiter (F B : Type 0) : Type 0 where
  pub heap : List B
  pub limiters : Bytes → Option IpLimiter
  pub rps : F
  pub burst : ℤ

abbrev pub idle_timeout : ℕ
idle_timeout = 10 * 60 * 10 ^ 9

abbrev pub new_rate_limiter : {F B : Type 0} → F → ℤ → RateLimiter F B
new_rate_limiter rps burst = record { heap = []; limiters = λ ip. none; rps = rps; burst = burst }

-- `m[ip] = entry`
abbrev pub put : Bytes → IpLimiter → (Bytes → Option IpLimiter) → Bytes → Option IpLimiter
put ip entry limiters k = if text_eq k ip then some entry else limiters k

-- Whether `evictIdle` keeps an entry: it is older than the cutoff when it was last seen before it.
abbrev pub keep_recent : ℕ → Option IpLimiter → Option IpLimiter
keep_recent now none = none
keep_recent now (some entry) = if ltb (entry.last_seen + idle_timeout) now then none else some entry

module _ {F B : Type 0} (rate : Rate F B) where
  -- `entry.lastSeen = time.Now()`
  abbrev pub see : ℕ → Bytes → IpLimiter → RateLimiter F B → RateLimiter F B
  see now ip entry rl = record rl {
    limiters = put ip (record entry { last_seen = now }) rl.limiters;
  }

  -- The part of `getLimiter` under `RLock`: the limiter, if there is one.
  unfoldable pub fast_path : ℕ → Bytes → RateLimiter F B → Option ℕ × RateLimiter F B
  fast_path now ip rl = elim (rl.limiters ip) [
    | none ↦ (none, rl)
    | some entry ↦ (some entry.limiter, see now ip entry rl)
  ]

  abbrev pub create : ℕ → Bytes → RateLimiter F B → RateLimiter F B
  create now ip rl = record rl {
    heap = rl.heap ++ rate.new_limiter rl.rps rl.burst ∷ [];
    limiters = put ip (record { limiter = length rl.heap; last_seen = now }) rl.limiters;
  }

  -- The part under `Lock`, which checks again.
  unfoldable pub slow_path : ℕ → Bytes → RateLimiter F B → ℕ × RateLimiter F B
  slow_path now ip rl = elim (rl.limiters ip) [
    | none ↦ (length rl.heap, create now ip rl)
    | some entry ↦ (entry.limiter, see now ip entry rl)
  ]

  abbrev pub or_slow_path : ℕ → Bytes → Option ℕ × RateLimiter F B → ℕ × RateLimiter F B
  or_slow_path now ip (none, rl) = slow_path now ip rl
  or_slow_path now ip (some limiter, rl) = (limiter, rl)

  -- `getLimiter`, with nothing in between
  unfoldable pub get_limiter : ℕ → Bytes → RateLimiter F B → ℕ × RateLimiter F B
  get_limiter now ip rl = or_slow_path now ip (fast_path now ip rl)

  -- `limiter.Allow()`; a pointer is never out of bounds.
  abbrev allow_at : ℕ → ℕ → RateLimiter F B → Option B → Bool × RateLimiter F B
  allow_at now limiter rl none = (false, rl)
  allow_at now limiter rl (some bucket) =
      let (allowed, bucket') = rate.allow now bucket in
      (allowed, record rl { heap = set rl.heap limiter bucket' })

  unfoldable pub allow : ℕ → ℕ → RateLimiter F B → Bool × RateLimiter F B
  allow now limiter rl = allow_at now limiter rl (get_elem? rl.heap limiter)

  -- `evictIdle`
  unfoldable pub evict_idle : ℕ → RateLimiter F B → RateLimiter F B
  evict_idle now rl = record rl { limiters = λ ip. keep_recent now (rl.limiters ip) }

  -- The answer has the header `Retry-After: 1` too, and the message holds a dash, U+2014.
  abbrev pub passed_or_refused : Bool × RateLimiter F B → Outcome (Unit {0}) × RateLimiter F B
  passed_or_refused (allowed, rl) = if allowed then (pass tt, rl) else (
    refuse 429 (codes "rate limit exceeded " ++ 0xE2 ∷ 0x80 ∷ 0x94 ∷ codes " slow down")
        (codes "RATE_LIMITED"),
    rl,
  )

  -- `Middleware`, with the readings of the clock in `getLimiter` and in `Allow`
  unfoldable pub middleware :
      ℕ → ℕ → HttpRequest → RateLimiter F B → Outcome (Unit {0}) × RateLimiter F B
  middleware seen now req rl =
      let (limiter, rl') = get_limiter seen req.client_ip rl in
      passed_or_refused (allow now limiter rl')
