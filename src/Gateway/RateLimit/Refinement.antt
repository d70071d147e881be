-- ===== src/Gateway/RateLimit/Refinement.antt =====
-- gateway/internal/middleware/ratelimit.go: what the limiter promises, as a map from addresses to
-- buckets without pointers, and that `Middleware` and `evictIdle` keep the promise in every sequence
-- of requests and evictions.
use mathlib.Core.Path.{ap₂}
use vyse.Prelude.{
  ℕ, ◌+◌, ltb, ◌≡◌, ◌≢◌, refl, sym, ap, ◌∙◌, inl, inr, Option, none, some, List, [], ◌∷◌, text_eq,
  text_eq_iff, if◌then◌else◌, Bool-cases, Option-cases, arith, get_elem?,
}
use vyse.Prelude.Int.{ℤ}
use vyse.Service.Reply.{unwrap_or}
use vyse.Gateway.{Bytes, HttpRequest, Outcome, pass}
use vyse.Gateway.RateLimit.{
  Rate, IpLimiter, RateLimiter, idle_timeout, new_rate_limiter, evict_idle, middleware,
}
use vyse.Gateway.RateLimit.Invariant.{IsSound, start, evicted, Reach-IsSound, Step-IsSound}
use vyse.Gateway.RateLimit.Isolation.{
  bucket_of, own_bucket, too_many, middleware-buckets, middleware-keeps, middleware-entries,
}

-- A request, with the readings of the clock in its middleware, or an eviction.
pub data Event : Type 0 where
  arrival : ℕ → ℕ → HttpRequest → Event
  eviction : ℕ → Event

-- The buckets by address, each with the time of its last request.
abbrev pub Buckets : Type 0 → Type 0
Buckets B = Bytes → Option (B × ℕ)

abbrev bucket? : {B : Type 0} → Option (B × ℕ) → Option B
bucket? none = none
bucket? (some (bucket, seen)) = some bucket

abbrev drop_idle : {B : Type 0} → ℕ → Option (B × ℕ) → Option (B × ℕ)
drop_idle now none = none
drop_idle now (some (bucket, seen)) =
    if ltb (seen + idle_timeout) now then none else some (bucket, seen)

-- What the limiter holds for an address.
abbrev seen_with : {B : Type 0} → Option IpLimiter → Option B → Option (B × ℕ)
seen_with (some e) (some bucket) = some (bucket, e.last_seen)
seen_with _ _ = none

abbrev pub view : {F B : Type 0} → RateLimiter F B → Buckets B
view rl ip = seen_with (rl.limiters ip) (bucket_of rl ip)

module _ {F B : Type 0} (rate : Rate F B) where
  pub run_events : RateLimiter F B → List Event → List (Outcome (Unit {0})) × RateLimiter F B
  run_events rl [] = ([], rl)
  run_events rl (arrival seen now req ∷ events) =
      let (answer, rl') = middleware rate seen now req rl in
      let (answers, rl'') = run_events rl' events in (answer ∷ answers, rl'')
  run_events rl (eviction now ∷ events) = run_events (evict_idle rate now rl) events

  -- The specification; `fresh` is the bucket of an address that has none.
  abbrev pub ask : B → ℕ → ℕ → Bytes → Buckets B → Outcome (Unit {0}) × Buckets B
  ask fresh seen now ip buckets =
      let asked = rate.allow now (unwrap_or (bucket? (buckets ip)) fresh) in
      (
        if asked.0 then pass tt else too_many,
        λ k. if text_eq k ip then some (asked.1, seen) else buckets k,
      )

  pub spec_events : B → Buckets B → List Event → List (Outcome (Unit {0})) × Buckets B
  spec_events fresh buckets [] = ([], buckets)
  spec_events fresh buckets (arrival seen now req ∷ events) =
      let (answer, buckets') = ask fresh seen now req.client_ip buckets in
      let (answers, buckets'') = spec_events fresh buckets' events in (answer ∷ answers, buckets'')
  spec_events fresh buckets (eviction now ∷ events) =
      spec_events fresh (λ k. drop_idle now (buckets k)) events

  abbrev pub Refines : RateLimiter F B → Buckets B → Type 0
  Refines rl buckets = (k : Bytes) → view rl k ≡ buckets k

  abbrev fresh_of : RateLimiter F B → B
  fresh_of rl = rate.new_limiter rl.rps rl.burst

  module _ (rl : RateLimiter F B) (buckets : Buckets B) (sound : IsSound rl)
      (refines : Refines rl buckets) where
    view-bucket : (k : Bytes) → bucket? (view rl k) ≡ bucket_of rl k
    view-bucket k = elim (Option-cases (rl.limiters k)) [
      | inl missing ↦ rw missing
      | inr (e, found) ↦ elim (Option-cases (get_elem? rl.heap e.limiter)) [
        | inl dangling ↦ rw (found) (rw (dangling))
        | inr (b, there) ↦ rw (found) (rw (there))
      ]
    ]

    middleware-ask :
        (seen now : ℕ) (req : HttpRequest)
        → ((middleware rate seen now req rl).0
            ≡ (ask (fresh_of rl) seen now req.client_ip buckets).0)
          × Refines
              (middleware rate seen now req rl).1
              (ask (fresh_of rl) seen now req.client_ip buckets).1
    middleware-ask seen now req =
        let ip = req.client_ip in
        let (answer, mine, others) = middleware-buckets rate rl sound seen now req in
        let ((e, entry, at), entries) = middleware-entries rate rl sound seen now req in
        let same : own_bucket rate rl ip ≡ unwrap_or (bucket? (buckets ip)) (fresh_of rl) =
          ap (λ o. unwrap_or o (fresh_of rl)) (sym (view-bucket ip) ∙ ap bucket? (refines ip)) in
        let asked = rw same at mine in
        (
          rw same at answer,
          λ k. elim (Bool-cases (text_eq k ip)) [
            | inl here ↦
                let is_ip : k ≡ ip = (text_eq_iff k ip).0 here in
                rw (here) (
                  ap (view (middleware rate seen now req rl).1) is_ip
                  ∙ (ap₂ seen_with entry asked ∙ ap (λ last. some (_, last)) at))
            | inr there ↦
                let other : k ≢ ip = λ is_ip. ground (arith, text_eq_iff k ip) in
                rw (there) (ap₂ seen_with (entries k other) (others k other) ∙ refines k)
          ],
        )

    evict_idle-drop_idle :
        (now : ℕ) → Refines (evict_idle rate now rl) (λ k. drop_idle now (buckets k))
    unfolding evict_idle
    evict_idle-drop_idle now k = rw (← refines k) (elim (Option-cases (rl.limiters k)) [
      | inl missing ↦ rw missing
      | inr (e, found) ↦ elim (Option-cases (get_elem? rl.heap e.limiter)) [
        | inl dangling ↦ elim (Bool-cases (ltb (e.last_seen + idle_timeout) now)) [
          | inl idle ↦ rw (found) (rw (dangling) (rw (idle)))
          | inr recent ↦ rw (found) (rw (recent) (rw (dangling)))
        ]
        | inr (b, there) ↦ elim (Bool-cases (ltb (e.last_seen + idle_timeout) now)) [
          | inl idle ↦ rw (found) (rw (there) (rw (idle) refl))
          | inr recent ↦ rw (found) (rw (recent) (rw (there) (rw (recent) refl)))
        ]
      ]
    ])

  fresh_of-evict_idle :
      (now : ℕ) (rl : RateLimiter F B) → fresh_of (evict_idle rate now rl) ≡ fresh_of rl
  unfolding evict_idle
  fresh_of-evict_idle now rl = refl

  run_events-Refines :
      (events : List Event) (rl : RateLimiter F B) (buckets : Buckets B) (fresh : B)
      → IsSound rl
      → fresh_of rl ≡ fresh
      → Refines rl buckets
      → ((run_events rl events).0 ≡ (spec_events fresh buckets events).0)
        × Refines (run_events rl events).1 (spec_events fresh buckets events).1
  unfolding run_events spec_events
  run_events-Refines [] rl buckets fresh sound same refines = (refl, refines)
  run_events-Refines (arrival seen now req ∷ events) rl buckets fresh sound same refines =
      let (kept, rps, burst) = middleware-keeps rate rl sound seen now req in
      let still = ap₂ rate.new_limiter rps burst ∙ same in
      let (answer, refines') = rw same at (middleware-ask rl buckets sound refines seen now req) in
      let (answers, refines'') =
        run_events-Refines events (middleware rate seen now req rl).1
          (ask fresh seen now req.client_ip buckets).1 fresh kept still refines' in
      (ap₂ ◌∷◌ answer answers, refines'')
  run_events-Refines (eviction now ∷ events) rl buckets fresh sound same refines =
      run_events-Refines events (evict_idle rate now rl) (λ k. drop_idle now (buckets k)) fresh
        (Step-IsSound rate rl (evict_idle rate now rl) (evicted rl now) sound)
        (fresh_of-evict_idle now rl ∙ same) (evict_idle-drop_idle rl buckets sound refines now)

  -- A limiter that `NewRateLimiter` made answers every sequence of requests and evictions as a map
  -- from addresses to buckets does, which has no pointers: each request is let pass or answered 429
  -- by the bucket of its own address, which is a new one where there is none; an eviction forgets the
  -- buckets of the addresses without a request in the last ten minutes. Afterwards both hold the same
  -- bucket and the same time for every address.
  pub run_events-spec_events :
      (rps : F) (burst : ℤ) (events : List Event)
      → ((run_events (new_rate_limiter rps burst) events).0
          ≡ (spec_events (rate.new_limiter rps burst) (λ ip. none) events).0)
        × Refines
            (run_events (new_rate_limiter rps burst) events).1
            (spec_events (rate.new_limiter rps burst) (λ ip. none) events).1
  run_events-spec_events rps burst events =
      let fresh = rate.new_limiter rps burst in
      run_events-Refines events (new_rate_limiter rps burst) (λ ip. none) fresh
        (Reach-IsSound rate rps burst (new_rate_limiter rps burst) start) refl (λ ip. refl)
