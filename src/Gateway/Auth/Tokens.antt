-- ===== src/Gateway/Auth/Tokens.antt =====
-- gateway/internal/middleware/auth.go and gateway/internal/server/server.go: from the login of an
-- admin to the request that shows the token.
use Prim.Native.Nat.{bit_and}
use vyse.Prelude.{
  ℕ, ◌+◌, ◌*◌, ◌/◌, ◌^◌, ◌≤◌, ◌<◌, ◌≡◌, ◌≢◌, ◌⊎◌, inl, inr, refl, ◌∙◌, ap, Bool, true, false, ◌==◌,
  leb, Option, none, some, [], ◌++◌, codes, is_empty, is_empty_iff, text_eq, text_eq→eq, Result, ok,
  arith, Option-cases, Result-cases, Bool-cases,
}
use vyse.Prelude.Int.{pos}
use vyse.Gateway.{Bytes, HttpRequest, pass, refuse}
use vyse.Gateway.Strings.{constant_time_compare}
use vyse.Gateway.Config.{Config}
use vyse.Gateway.Auth.{
  AdminClaims, Jwt, TokenResponse, second, minute, wrap_i64, split_at_space, extract_bearer_token,
  jwt_auth, admin_claims, issue_admin_token, issue_token,
}

-- What `jwt` documents: a signed token is not empty, and with the secret it parses to its claims from
-- the second of its issue on, until it expires.
pub record JwtLaws {E : Type 0} (jwt : Jwt E) : Type 0 where
  pub nonempty :
      (secret token : Bytes) (claims : AdminClaims)
      → jwt.signed_string secret claims ≡ ok token
      → token ≢ []
  pub parse-signed :
      (secret token : Bytes) (claims : AdminClaims) (now issued expires : ℕ)
      → jwt.signed_string secret claims ≡ ok token
      → claims.issued_at ≡ pos issued
      → claims.expires_at ≡ pos expires
      → issued * second ≤ now
      → now < expires * second
      → jwt.parse_with_claims now secret token ≡ some claims
  pub parse-expired :
      (secret token : Bytes) (claims : AdminClaims) (now expires : ℕ)
      → jwt.signed_string secret claims ≡ ok token
      → claims.expires_at ≡ pos expires
      → expires * second ≤ now
      → jwt.parse_with_claims now secret token ≡ none

le_or_lt : (a b : ℕ) → (a ≤ b) ⊎ (b < a)
le_or_lt a b = elim (Bool-cases (leb a b)) [
  | inl le ↦ inl (ground arith)
  | inr gt ↦ inr (ground arith)
]

extract-token :
    (req : HttpRequest) (token : Bytes)
    → req.get_header (codes "Authorization") ≡ codes "Bearer " ++ token
    → token ≢ []
    → extract_bearer_token req ≡ ok token
unfolding extract_bearer_token split_at_space text_eq
extract-token req token shown given =
    let full : is_empty token ≡ false = ground (arith, is_empty_iff token) in rw (shown) (rw (full))

admin_claims-dates :
    (now minutes : ℕ) (username : Bytes)
    → minutes * minute < 2 ^ 63
    → ((admin_claims now username (pos minutes)).issued_at ≡ pos (now / second))
      × ((admin_claims now username (pos minutes)).expires_at
          ≡ pos ((now + minutes * minute) / second))
unfolding admin_claims
admin_claims-dates now minutes username small =
    let fits : wrap_i64 (pos (minutes * minute)) ≡ pos (minutes * minute) = ground arith in
    (refl, rw (fits) (ground arith))

matching :
    (x a y b : Bytes)
    → (bit_and (constant_time_compare x a) (constant_time_compare y b) == 1) ≡ true
    → (x ≡ a) × (y ≡ b)
matching x a y b h = elim (Bool-cases (text_eq x a)) [
  | inr other ↦ elim (Bool-cases (text_eq y b)) [
    | inl _ ↦ absurd (ground arith)
    | inr _ ↦ absurd (ground arith)
  ]
  | inl first ↦ elim (Bool-cases (text_eq y b)) [
    | inr other ↦ absurd (ground arith)
    | inl then ↦ (text_eq→eq x a first, text_eq→eq y b then)
  ]
]

module _ {E F : Type 0} (jwt : Jwt E) (should_bind_json : Bytes → Option (Bytes × Bytes)) (now : ℕ)
    (cfg : Config F) (login : HttpRequest) (resp : TokenResponse)
    (issued : issue_token jwt should_bind_json now cfg login ≡ pass resp) where
  -- Credentials are checked before a token is signed.
  pub issue_token-credentials :
      (should_bind_json login.body ≡ some (cfg.auth.admin_username, cfg.auth.admin_password))
      × (jwt.signed_string cfg.auth.jwt_secret
            (admin_claims now cfg.auth.admin_username cfg.auth.jwt_expiry_minutes)
          ≡ ok resp.token)
  unfolding issue_token
  issue_token-credentials = elim (Option-cases (should_bind_json login.body)) [
    | inl unbound ↦ absurd (ground arith)
    | inr ((username, password), bound) ↦ elim (Bool-cases (matches username password)) [
      | inr wrong ↦ absurd (ground arith)
      | inl right ↦
          let (u, p) =
            matching username cfg.auth.admin_username password cfg.auth.admin_password right in
          elim (Result-cases (signed username)) [
            | inr (e, unsigned) ↦ absurd (ground arith)
            | inl (token, done) ↦
                let same : token ≡ resp.token = ground arith in
                (rw (bound, u, p), rw (← u) (done ∙ ap ok same))
          ]
    ]
  ]
    where
      matches : Bytes → Bytes → Bool
      matches username password =
          bit_and (constant_time_compare username cfg.auth.admin_username)
            (constant_time_compare password cfg.auth.admin_password)
          == 1

      signed : Bytes → Result E Bytes
      signed username =
          issue_admin_token jwt now username cfg.auth.jwt_secret cfg.auth.jwt_expiry_minutes

  -- The token that `IssueToken` gives out is for the admin whose credentials were sent. Shown as
  -- `Bearer <token>`, it lets requests pass `JWTAuth` from then on for the configured minutes, to the
  -- second, with the claims of the admin; afterwards they are answered 401. (The minutes are not
  -- negative and fit an `int64` of nanoseconds, and `jwt` parses what it signed until it expires.)
  pub issue_token-jwt_auth :
      (laws : JwtLaws jwt) (minutes later : ℕ) (req : HttpRequest)
      → cfg.auth.jwt_expiry_minutes ≡ pos minutes
      → minutes * minute < 2 ^ 63
      → now ≤ later
      → req.get_header (codes "Authorization") ≡ codes "Bearer " ++ resp.token
      → (should_bind_json login.body ≡ some (cfg.auth.admin_username, cfg.auth.admin_password))
        × (((later < (now + minutes * minute) / second * second)
              × (jwt_auth jwt later cfg.auth.jwt_secret req
                  ≡ pass (admin_claims now cfg.auth.admin_username (pos minutes))))
            ⊎ (((now + minutes * minute) / second * second ≤ later)
                × (jwt_auth jwt later cfg.auth.jwt_secret req
                    ≡ refuse 401 (codes "invalid or expired token") (codes "UNAUTHORIZED"))))
  unfolding jwt_auth
  issue_token-jwt_auth laws minutes later req expiry small after shown =
      let (sent, signed) = issue_token-credentials in
      let claims = admin_claims now cfg.auth.admin_username (pos minutes) in
      let signed' : jwt.signed_string cfg.auth.jwt_secret claims ≡ ok resp.token =
        rw expiry at signed in
      let (iat, exp) = admin_claims-dates now minutes cfg.auth.admin_username small in
      let nonempty = laws.nonempty cfg.auth.jwt_secret resp.token claims signed' in
      let token = extract-token req resp.token shown nonempty in
      (
        sent,
        elim (le_or_lt ((now + minutes * minute) / second * second) later) [
          | inl over ↦
              let none' = laws.parse-expired _ _ claims later _ signed' exp over in
              inr (over, rw (token, none', jwt_auth) refl)
          | inr valid ↦
              let started : now / second * second ≤ later = omega arith in
              let some' = laws.parse-signed _ _ claims later _ _ signed' iat exp started valid in
              inl (valid, rw (token, some', jwt_auth) refl)
        ],
      )
