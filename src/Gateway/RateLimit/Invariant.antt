-- ===== src/Gateway/RateLimit/Invariant.antt =====
-- gateway/internal/middleware/ratelimit.go: the invariant of the limiters, in any order in which the
-- requests and the eviction take the lock.
use vyse.Prelude.{
  ℕ, ◌≤◌, ◌<◌, ◌≡◌, ◌≢◌, ◌⊎◌, refl, sym, ◌∙◌, inl, inr, Option, none, some, List, [], ◌∷◌, ◌++◌,
  text_eq, text_eq_iff, length, length-append, length-set, get_elem?, set, arith, Option-cases,
  Bool-cases,
}
use vyse.Prelude.Int.{ℤ}
use vyse.Gateway.{Bytes}
use vyse.Gateway.RateLimit.{
  Rate, IpLimiter, RateLimiter, new_rate_limiter, put, see, create, keep_recent, fast_path,
  slow_path, allow, evict_idle,
}

-- Every address of the map is on the heap, and no two IP addresses share one.
pub record IsSound {F B : Type 0} (rl : RateLimiter F B) : Type 0 where
  pub inside : (ip : Bytes) (e : IpLimiter) → rl.limiters ip ≡ some e → e.limiter < length rl.heap
  pub apart :
      (ip ip' : Bytes) (e e' : IpLimiter)
      → rl.limiters ip ≡ some e
      → rl.limiters ip' ≡ some e'
      → e.limiter ≡ e'.limiter
      → ip ≡ ip'

pub put_self : (ip : Bytes) (e : IpLimiter) (m : Bytes → Option IpLimiter) → put ip e m ip ≡ some e
put_self ip e m = rw ((text_eq_iff ip ip).1 refl)

pub put_ne :
    (ip ip' : Bytes) (e : IpLimiter) (m : Bytes → Option IpLimiter)
    → ip' ≢ ip
    → put ip e m ip' ≡ m ip'
put_ne ip ip' e m other = ground (arith, text_eq_iff ip' ip)

put-cases :
    (ip k : Bytes) (e e' : IpLimiter) (m : Bytes → Option IpLimiter)
    → put ip e m k ≡ some e'
    → ((k ≡ ip) × (e ≡ e')) ⊎ ((k ≢ ip) × (m k ≡ some e'))
put-cases ip k e e' m h = elim (Bool-cases (text_eq k ip)) [
  | inl same ↦ inl ((text_eq_iff k ip).0 same, ground arith)
  | inr other ↦ inr (λ same. ground (arith, text_eq_iff k ip), ground arith)
]

keep_recent-some :
    (now : ℕ) (o : Option IpLimiter) (e : IpLimiter) → keep_recent now o ≡ some e → o ≡ some e
keep_recent-some now none e h = cc
keep_recent-some now (some e') e h = ground arith

module _ {F B : Type 0} where
  -- An entry with an address that no other IP address has.
  put-IsSound :
      (rl : RateLimiter F B) (heap : List B) (ip : Bytes) (e : IpLimiter)
      → IsSound rl
      → length rl.heap ≤ length heap
      → e.limiter < length heap
      → ((k : Bytes) (e' : IpLimiter) → k ≢ ip → rl.limiters k ≡ some e' → e'.limiter ≢ e.limiter)
      → IsSound (record rl { heap = heap; limiters = put ip e rl.limiters })
  put-IsSound rl heap ip e sound longer inside fresh = record {
    inside = λ k e' h. elim (put-cases ip k e e' rl.limiters h) [
      | inl (_, same) ↦ rw same at inside
      | inr (_, old) ↦ omega (arith, sound.inside k e' old)
    ];
    apart = λ k k' a a' h h' shared. elim (put-cases ip k e a rl.limiters h) [
      | inl (here, same) ↦ elim (put-cases ip k' e a' rl.limiters h') [
        | inl (here', _) ↦ here ∙ sym here'
        | inr (other, old) ↦ absurd (fresh k' a' other old (rw same (sym shared)))
      ]
      | inr (other, old) ↦ elim (put-cases ip k' e a' rl.limiters h') [
        | inl (_, same) ↦ absurd (fresh k a other old (rw same shared))
        | inr (_, old') ↦ sound.apart k k' a a' old old' shared
      ]
    ];
  }

module _ {F B : Type 0} (rate : Rate F B) where
  -- What a goroutine does while it holds the lock, or with the limiter that it got before.
  pub data Step : RateLimiter F B → RateLimiter F B → Type 0 where
    looked : (rl : RateLimiter F B) (now : ℕ) (ip : Bytes) → Step rl (fast_path rate now ip rl).1
    added : (rl : RateLimiter F B) (now : ℕ) (ip : Bytes) → Step rl (slow_path rate now ip rl).1
    asked : (rl : RateLimiter F B) (now limiter : ℕ) → Step rl (allow rate now limiter rl).1
    evicted : (rl : RateLimiter F B) (now : ℕ) → Step rl (evict_idle rate now rl)

  pub data Reach (rps : F) (burst : ℤ) : RateLimiter F B → Type 0 where
    start : Reach rps burst (new_rate_limiter rps burst)
    step_to : (rl rl' : RateLimiter F B) → Reach rps burst rl → Step rl rl' → Reach rps burst rl'

  pub see-IsSound :
      (rl : RateLimiter F B) (now : ℕ) (ip : Bytes) (e : IpLimiter)
      → rl.limiters ip ≡ some e
      → IsSound rl
      → IsSound (see rate now ip e rl)
  see-IsSound rl now ip e found sound =
      put-IsSound rl rl.heap ip (record e { last_seen = now }) sound (omega arith)
        (sound.inside ip e found)
        (λ k e' other h shared. other (sound.apart k ip e' e h found shared))

  pub create-IsSound :
      (rl : RateLimiter F B) (now : ℕ) (ip : Bytes) → IsSound rl → IsSound (create rate now ip rl)
  create-IsSound rl now ip sound =
      let bucket = rate.new_limiter rl.rps rl.burst in
      let longer = length-append rl.heap (bucket ∷ []) in
      put-IsSound rl (rl.heap ++ bucket ∷ []) ip
        (record { limiter = length rl.heap; last_seen = now }) sound (omega arith) (omega arith)
        (λ k e' other h shared. absurd (omega (arith, sound.inside k e' h)))

  pub replaced :
      (rl : RateLimiter F B) (heap : List B)
      → length heap ≡ length rl.heap
      → IsSound rl
      → IsSound (record rl { heap = heap })
  replaced rl heap same sound = record {
    inside = λ ip e h. omega (arith, sound.inside ip e h);
    apart = sound.apart;
  }

  pub Step-IsSound : (rl rl' : RateLimiter F B) → Step rl rl' → IsSound rl → IsSound rl'
  unfolding fast_path slow_path allow evict_idle
  Step-IsSound _ _ (looked rl now ip) sound = elim (Option-cases (rl.limiters ip)) [
    | inl missing ↦ rw (missing, fast_path) sound
    | inr (e, found) ↦ rw (found, fast_path) (see-IsSound rl now ip e found sound)
  ]
  Step-IsSound _ _ (added rl now ip) sound = elim (Option-cases (rl.limiters ip)) [
    | inl missing ↦ rw (missing, slow_path) (create-IsSound rl now ip sound)
    | inr (e, found) ↦ rw (found, slow_path) (see-IsSound rl now ip e found sound)
  ]
  Step-IsSound _ _ (asked rl now limiter) sound = elim (Option-cases (get_elem? rl.heap limiter)) [
    | inl missing ↦ rw (missing, allow) sound
    | inr (bucket, found) ↦
        rw (found, allow)
          (replaced rl (set rl.heap limiter (rate.allow now bucket).1)
            (length-set rl.heap limiter _) sound)
  ]
  Step-IsSound _ _ (evicted rl now) sound = record {
    inside = λ ip e h. sound.inside ip e (keep_recent-some now (rl.limiters ip) e h);
    apart = λ ip ip' e e' h h'.
        sound.apart ip ip' e e' (keep_recent-some now (rl.limiters ip) e h)
          (keep_recent-some now (rl.limiters ip') e' h');
  }

  -- Whatever order requests and evictions take the lock in, and whenever the requests ask the limiter
  -- that they hold: every limiter of the map is on the heap, and no two IP addresses share one.
  pub Reach-IsSound : (rps : F) (burst : ℤ) (rl : RateLimiter F B) → Reach rps burst rl → IsSound rl
  Reach-IsSound rps burst _ start = record {
    inside = λ ip e h. absurd (cc);
    apart = λ ip ip' e e' h h' shared. absurd (cc);
  }
  Reach-IsSound rps burst _ (step_to rl rl' before step) =
      Step-IsSound rl rl' step (Reach-IsSound rps burst rl before)
