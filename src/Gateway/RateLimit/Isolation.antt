-- ===== src/Gateway/RateLimit/Isolation.antt =====
-- gateway/internal/middleware/ratelimit.go: the limiter as one bucket for each IP address, and who
-- spends from it.
use vyse.Prelude.{
  ℕ, ◌<◌, ◌≡◌, ◌≢◌, refl, sym, ◌∙◌, ap, inl, inr, Option, none, some, [], ◌∷◌, ◌++◌, codes, length,
  get_elem?, set, get_elem?-some, get_elem?-append_lt, get_elem?-append_length, get_elem?-set_self,
  get_elem?-set_ne, length-set, Option-cases, Bool-cases, if◌then◌else◌,
}
use vyse.Service.Reply.{unwrap_or}
use vyse.Gateway.{Bytes, HttpRequest, Outcome, pass, refuse}
use vyse.Gateway.RateLimit.{
  Rate, IpLimiter, RateLimiter, see, create, get_limiter, allow, passed_or_refused, middleware,
}
use vyse.Gateway.RateLimit.Lookup.{get_limiter-none, get_limiter-some, get_limiter-entries}
use vyse.Gateway.RateLimit.Invariant.{
  IsSound, put_self, put_ne, see-IsSound, create-IsSound, replaced,
}

-- The bucket of an IP address, if it has one.
abbrev pub bucket_at : {F B : Type 0} → RateLimiter F B → Option IpLimiter → Option B
bucket_at rl none = none
bucket_at rl (some e) = get_elem? rl.heap e.limiter

abbrev pub bucket_of : {F B : Type 0} → RateLimiter F B → Bytes → Option B
bucket_of rl ip = bucket_at rl (rl.limiters ip)

module _ {F B : Type 0} (rate : Rate F B) (rl : RateLimiter F B) where
  -- The bucket that the next request of an IP address asks: its own, or a new one.
  abbrev pub own_bucket : Bytes → B
  own_bucket ip = unwrap_or (bucket_of rl ip) (rate.new_limiter rl.rps rl.burst)

abbrev pub too_many : Outcome (Unit {0})
too_many =
    refuse 429 (codes "rate limit exceeded " ++ 0xE2 ∷ 0x80 ∷ 0x94 ∷ codes " slow down")
      (codes "RATE_LIMITED")

module _ {F B : Type 0} (rate : Rate F B) (rl : RateLimiter F B) (sound : IsSound rl) where
  -- What `getLimiter` returns.
  record Got (ip : Bytes) (limiter : ℕ) (rl' : RateLimiter F B) : Type 0 where
    kept : IsSound rl'
    same_rate : (rl'.rps ≡ rl.rps) × (rl'.burst ≡ rl.burst)
    entry : (e : IpLimiter) × (rl'.limiters ip ≡ some e) × (e.limiter ≡ limiter)
    bucket :
        get_elem? rl'.heap limiter
        ≡ some (unwrap_or (bucket_of rl ip) (rate.new_limiter rl.rps rl.burst))
    others : (k : Bytes) → k ≢ ip → bucket_of rl' k ≡ bucket_of rl k

  see-Got :
      (now : ℕ) (ip : Bytes) (e : IpLimiter)
      → rl.limiters ip ≡ some e
      → Got ip e.limiter (see rate now ip e rl)
  see-Got now ip e found =
      let (b, there) = get_elem?-some rl.heap e.limiter (sound.inside ip e found) in
      record {
        kept = see-IsSound rate rl now ip e found sound;
        same_rate = (refl, refl);
        entry = (record e { last_seen = now }, put_self ip _ rl.limiters, refl);
        bucket = rw (found) (rw (there) refl);
        others = λ k other. ap (bucket_at rl) (put_ne ip k _ rl.limiters other);
      }

  create-Got :
      (now : ℕ) (ip : Bytes)
      → rl.limiters ip ≡ none
      → Got ip (length rl.heap) (create rate now ip rl)
  create-Got now ip missing =
      let bucket = rate.new_limiter rl.rps rl.burst in
      let grown = rl.heap ++ bucket ∷ [] in
      record {
        kept = create-IsSound rate rl now ip sound;
        same_rate = (refl, refl);
        entry =
            (record { limiter = length rl.heap; last_seen = now }, put_self ip _ rl.limiters, refl);
        bucket = rw (missing) (get_elem?-append_length rl.heap [] bucket);
        others = λ k other.
            rw (put_ne ip k _ rl.limiters other) (elim (Option-cases (rl.limiters k)) [
              | inl without ↦ rw (without)
              | inr (e, found) ↦
                  rw (found)
                    (get_elem?-append_lt rl.heap (bucket ∷ []) e.limiter (sound.inside k e found))
            ]);
      }

  get_limiter-Got :
      (now : ℕ) (ip : Bytes) → Got ip (get_limiter rate now ip rl).0 (get_limiter rate now ip rl).1
  get_limiter-Got now ip = elim (Option-cases (rl.limiters ip)) [
    | inl missing ↦ rw (get_limiter-none rate rl now ip missing) (create-Got now ip missing)
    | inr (e, found) ↦ rw (get_limiter-some rate rl now ip e found) (see-Got now ip e found)
  ]

  -- `Allow()` spends from the bucket of the limiter only.
  spent_others :
      (ip : Bytes) (limiter : ℕ) (rl' : RateLimiter F B) (b : B)
      → Got ip limiter rl'
      → (k : Bytes) → k ≢ ip
      → bucket_of (record rl' { heap = set rl'.heap limiter b }) k ≡ bucket_of rl k
  spent_others ip limiter rl' b got k other = elim (Option-cases (rl'.limiters k)) [
    | inl without ↦ let same = got.others k other in rw without (rw without at same)
    | inr (e, found) ↦
        let same = got.others k other in
        let (mine, there, at) = got.entry in
        rw found (
          get_elem?-set_ne rl'.heap limiter e.limiter b
            (λ shared. other (got.kept.apart k ip e mine found there (sym shared ∙ sym at)))
          ∙ (rw found at same))
  ]

  spent_self :
      (ip : Bytes) (limiter : ℕ) (rl' : RateLimiter F B) (b : B)
      → Got ip limiter rl'
      → bucket_of (record rl' { heap = set rl'.heap limiter b }) ip ≡ some b
  spent_self ip limiter rl' b got =
      let (mine, there, same) = got.entry in
      let inside : limiter < length rl'.heap = rw same at (got.kept.inside ip mine there) in
      rw there (rw same (get_elem?-set_self rl'.heap limiter b inside))

  -- The limiter after the request.
  after : ℕ → ℕ → Bytes → RateLimiter F B
  after seen now ip =
      let (limiter, rl') = get_limiter rate seen ip rl in
      record rl' { heap = set rl'.heap limiter (rate.allow now (own_bucket rate rl ip)).1 }

  allow-some :
      (now limiter : ℕ) (rl' : RateLimiter F B) (b : B)
      → get_elem? rl'.heap limiter ≡ some b
      → allow rate now limiter rl'
        ≡ ((rate.allow now b).0, record rl' { heap = set rl'.heap limiter (rate.allow now b).1 })
  unfolding allow
  allow-some now limiter rl' b found = rw (found, allow) refl

  middleware-after :
      (seen now : ℕ) (req : HttpRequest)
      → middleware rate seen now req rl ≡ (
        if (rate.allow now (own_bucket rate rl req.client_ip)).0 then pass tt else too_many,
        after seen now req.client_ip,
      )
  unfolding middleware after
  middleware-after seen now req =
      let got = get_limiter-Got seen req.client_ip in
      let asked =
        allow-some now (get_limiter rate seen req.client_ip rl).0
          (get_limiter rate seen req.client_ip rl).1 (own_bucket rate rl req.client_ip)
          got.bucket in
      ap (passed_or_refused rate) asked
      ∙ (elim (Bool-cases (rate.allow now (own_bucket rate rl req.client_ip)).0) [
        | inl yes' ↦ rw (yes')
        | inr no' ↦ rw (no')
      ])

  -- While the limiter is sound, `Middleware` acts as on one bucket for each IP address: a request is
  -- let pass exactly when the bucket of its own address allows it, a new one where there is none, and is answered 429 otherwise; that bucket is left as `Allow` leaves it, and no request
  -- changes the bucket of another address.
  pub middleware-buckets :
      (seen now : ℕ) (req : HttpRequest)
      → ((middleware rate seen now req rl).0
          ≡ (if (rate.allow now (own_bucket rate rl req.client_ip)).0 then pass tt else too_many))
        × (bucket_of (middleware rate seen now req rl).1 req.client_ip
            ≡ some (rate.allow now (own_bucket rate rl req.client_ip)).1)
        × ((k : Bytes)
            → k ≢ req.client_ip
            → bucket_of (middleware rate seen now req rl).1 k ≡ bucket_of rl k)
  unfolding after
  middleware-buckets seen now req =
      let got = get_limiter-Got seen req.client_ip in
      let spent = (rate.allow now (own_bucket rate rl req.client_ip)).1 in
      let (limiter, rl') = get_limiter rate seen req.client_ip rl in
      rw (middleware-after seen now req) (
        refl,
        spent_self req.client_ip limiter rl' spent got,
        λ k other. spent_others req.client_ip limiter rl' spent got k other,
      )

  -- It leaves the limiter sound, and its rate and burst as they are.
  pub middleware-keeps :
      (seen now : ℕ) (req : HttpRequest)
      → IsSound (middleware rate seen now req rl).1
        × ((middleware rate seen now req rl).1.rps ≡ rl.rps)
        × ((middleware rate seen now req rl).1.burst ≡ rl.burst)
  unfolding after
  middleware-keeps seen now req =
      let got = get_limiter-Got seen req.client_ip in
      let (limiter, rl') = get_limiter rate seen req.client_ip rl in
      rw (middleware-after seen now req) (
        replaced rate rl' (set rl'.heap limiter _) (length-set rl'.heap limiter _) got.kept,
        got.same_rate.0,
        got.same_rate.1,
      )

  -- The map is as `getLimiter` leaves it.
  middleware-limiters :
      (seen now : ℕ) (req : HttpRequest)
      → (middleware rate seen now req rl).1.limiters
        ≡ (get_limiter rate seen req.client_ip rl).1.limiters
  unfolding after
  middleware-limiters seen now req = rw (middleware-after seen now req)

  pub middleware-entries :
      (seen now : ℕ) (req : HttpRequest)
      → ((e : IpLimiter) × ((middleware rate seen now req rl).1.limiters req.client_ip ≡ some e)
          × (e.last_seen ≡ seen))
        × ((k : Bytes)
            → k ≢ req.client_ip
            → (middleware rate seen now req rl).1.limiters k ≡ rl.limiters k)
  middleware-entries seen now req =
      rw (middleware-limiters seen now req) (get_limiter-entries rate rl seen req.client_ip)
