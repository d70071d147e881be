-- ===== src/Store/Redis/RoundTrip.antt =====
-- engine/src/store/session.rs: what is stored is what is loaded.
use vyse.Prelude.{ℕ, ◌≡◌, ◌≢◌, Bool, Option, none, some, Text, ok, arith, Result-cases, inl, inr}
use vyse.Store.Session.{Session}
use vyse.Store.Redis.{Redis, RedisLaws, Json, session_key, get, set, delete}
use vyse.Store.Redis.Keys.{session_key_injective}

module _ {F E R : Type 0} (redis : Redis E R) (json : Json F) (internal : Text → E) where
  -- The parts of a successful `set`.
  pub set-ok :
      (r r' : R) (s : Session F) (ttl : ℕ)
      → set redis json internal r s ttl ≡ ok r'
      → (raw : Text) × (json.to_string s ≡ ok raw)
        × (redis.set_ex r (session_key s.session_id_hash) raw ttl ≡ ok r')
  unfolding set
  set-ok r r' s ttl h = elim (Result-cases (json.to_string s)) [
    | inl (raw, e) ↦ (raw, e, rw e at h)
    | inr (m, e) ↦ absurd (ground arith)
  ]

module _ {F E R : Type 0} (redis : Redis E R) (laws : RedisLaws E R redis) (json : Json F)
    (internal : Text → E) where
  -- A session that was stored is loaded again as it was, if the load succeeds: what `serde_json`
  -- reads from the text that it wrote for a session, where it reads it at all, is that session.
  pub get-set :
      (r r' : R) (s : Session F) (ttl : ℕ) (o : Option (Session F))
      → ((s' : Session F) (raw : Text)
          → json.to_string s ≡ ok raw
          → json.from_str raw ≡ ok s'
          → s' ≡ s)
      → set redis json internal r s ttl ≡ ok r'
      → get redis json internal r' s.session_id_hash ≡ ok o
      → o ≡ some s
  get-set r r' s ttl o back stored loaded =
      let (raw, written, done) = set-ok redis json internal r r' s ttl stored in
      elim (Result-cases (redis.get r' (session_key s.session_id_hash))) [
        | inr (e, failed) ↦ absurd (unfold get in ground arith)
        | inl (found, e) ↦
            let same = laws.get-set_ex_self r r' _ raw ttl found done e in
            elim (Result-cases (json.from_str raw)) [
              | inr (m, bad) ↦ absurd (unfold get in ground arith)
              | inl (s', read) ↦ let own = back s' raw written read in unfold get in ground arith
            ]
      ]

  -- Storing a session leaves every other one as it was, if both loads succeed.
  pub get-set_ne :
      (r r' : R) (s : Session F) (ttl : ℕ) (hash : Text) (o o' : Option (Session F))
      → s.session_id_hash ≢ hash
      → set redis json internal r s ttl ≡ ok r'
      → get redis json internal r hash ≡ ok o
      → get redis json internal r' hash ≡ ok o'
      → o' ≡ o
  get-set_ne r r' s ttl hash o o' ne stored old new =
      let (raw, written, done) = set-ok redis json internal r r' s ttl stored in
      elim (Result-cases (redis.get r (session_key hash))) [
        | inr (e, failed) ↦ absurd (unfold get in ground arith)
        | inl (found, e) ↦ elim (Result-cases (redis.get r' (session_key hash))) [
          | inr (e', failed) ↦ absurd (unfold get in ground arith)
          | inl (found', e') ↦
              let same =
                laws.get-set_ex_ne r r' _ (session_key hash) raw ttl found found'
                  (λ k. ne (session_key_injective _ _ k)) done e e' in
              unfold get in ground arith
        ]
      ]

  -- After `delete` the session is gone, whether or not it was there, if the load succeeds.
  pub get-delete :
      (r r' : R) (hash : Text) (existed : Bool) (o : Option (Session F))
      → delete redis r hash ≡ ok (existed, r')
      → get redis json internal r' hash ≡ ok o
      → o ≡ none
  get-delete r r' hash existed o deleted loaded =
      elim (Result-cases (redis.del r (session_key hash))) [
        | inr (e, failed) ↦ absurd (unfold delete in ground arith)
        | inl ((n, after), e) ↦
            let same : after ≡ r' = unfold delete in ground arith in
            elim (Result-cases (redis.get r' (session_key hash))) [
              | inr (e', failed) ↦ absurd (unfold get in ground arith)
              | inl (found, e') ↦
                  let gone = laws.get-del_self r r' (session_key hash) n found (rw same at e) e' in
                  unfold get in ground arith
            ]
      ]
