-- ===== src/Gateway/RateLimit/Lookup.antt =====
-- gateway/internal/middleware/ratelimit.go, `getLimiter`: what it returns for a new address and for a
-- known one.
use vyse.Prelude.{ℕ, ◌≡◌, ◌≢◌, refl, ◌∙◌, ap, inl, inr, none, some, length, Option-cases}
use vyse.Gateway.{Bytes}
use vyse.Gateway.RateLimit.{
  Rate, IpLimiter, RateLimiter, see, create, fast_path, slow_path, or_slow_path, get_limiter,
}
use vyse.Gateway.RateLimit.Invariant.{put_self, put_ne}

module _ {F B : Type 0} (rate : Rate F B) (rl : RateLimiter F B) where
  fast_path-none :
      (now : ℕ) (ip : Bytes) → rl.limiters ip ≡ none → fast_path rate now ip rl ≡ (none, rl)
  unfolding fast_path
  fast_path-none now ip missing = rw (missing, fast_path) refl

  slow_path-none :
      (now : ℕ) (ip : Bytes)
      → rl.limiters ip ≡ none
      → slow_path rate now ip rl ≡ (length rl.heap, create rate now ip rl)
  unfolding slow_path
  slow_path-none now ip missing = rw (missing, slow_path) refl

  fast_path-some :
      (now : ℕ) (ip : Bytes) (e : IpLimiter)
      → rl.limiters ip ≡ some e
      → fast_path rate now ip rl ≡ (some e.limiter, see rate now ip e rl)
  unfolding fast_path
  fast_path-some now ip e found = rw (found, fast_path) refl

  pub get_limiter-none :
      (now : ℕ) (ip : Bytes)
      → rl.limiters ip ≡ none
      → get_limiter rate now ip rl ≡ (length rl.heap, create rate now ip rl)
  unfolding get_limiter
  get_limiter-none now ip missing =
      ap (or_slow_path rate now ip) (fast_path-none now ip missing) ∙ slow_path-none now ip missing

  pub get_limiter-some :
      (now : ℕ) (ip : Bytes) (e : IpLimiter)
      → rl.limiters ip ≡ some e
      → get_limiter rate now ip rl ≡ (e.limiter, see rate now ip e rl)
  unfolding get_limiter
  get_limiter-some now ip e found = ap (or_slow_path rate now ip) (fast_path-some now ip e found)

  pub get_limiter-entries :
      (now : ℕ) (ip : Bytes)
      → ((e : IpLimiter) × ((get_limiter rate now ip rl).1.limiters ip ≡ some e)
          × (e.last_seen ≡ now))
        × ((k : Bytes) → k ≢ ip → (get_limiter rate now ip rl).1.limiters k ≡ rl.limiters k)
  get_limiter-entries now ip = elim (Option-cases (rl.limiters ip)) [
    | inl missing ↦
        rw (get_limiter-none now ip missing)
          ((_, put_self ip _ rl.limiters, refl), λ k other. put_ne ip k _ rl.limiters other)
    | inr (e, found) ↦
        rw (get_limiter-some now ip e found)
          ((_, put_self ip _ rl.limiters, refl), λ k other. put_ne ip k _ rl.limiters other)
  ]
