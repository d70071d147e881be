-- ===== src/Gateway/Auth.antt =====
-- gateway/internal/middleware/auth.go, and `IssueToken` of gateway/internal/server/server.go: the key
-- of the clients and the tokens of the admins. Signing and parsing a JWT are parameters, as is the
-- binding of a JSON body.
pub mod Keys
pub mod Tokens
use Prim.Native.Nat.{bit_and}
use vyse.Prelude.{
  ℕ, suc, ◌+◌, ◌-◌, ◌*◌, ◌/◌, ◌%◌, ◌^◌, ltb, ◌==◌, ◌&&◌, not, if◌then◌else◌, Bool, true, false,
  Option, none, some, List, [], ◌∷◌, codes, is_empty, text_eq, map, Result, ok, err,
}
use vyse.Prelude.Int.{ℤ, pos, negsuc, sub_ℕ, ◌+ℤ◌}
use vyse.Gateway.{Bytes, HttpRequest, Outcome, pass, refuse}
use vyse.Gateway.Strings.{within, constant_time_compare}
use vyse.Gateway.Config.{Config}

abbrev abort_unauthorized : {A : Type 0} → Bytes → Outcome A
abort_unauthorized msg = refuse 401 msg (codes "UNAUTHORIZED")

-- `APIKeyAuth`
unfoldable pub api_key_auth : Bytes → Bytes → HttpRequest → Outcome (Unit {0})
api_key_auth header_name expected_key req =
    let key = req.get_header header_name in
    if is_empty key
    then abort_unauthorized (codes "missing API key")
    else if not (constant_time_compare key expected_key == 1)
    then abort_unauthorized (codes "invalid API key")
    else pass tt

-- Dates are in seconds since 1970.
pub record AdminClaims : Type 0 where
  pub issuer : Bytes
  pub subject : Bytes
  pub issued_at : ℤ
  pub expires_at : ℤ
  pub username : Bytes
  pub role : Bytes

-- The part before the first space and the part after it: `strings.SplitN(s, " ", 2)`, if it has two
-- parts
unfoldable pub split_at_space : Bytes → Option (Bytes × Bytes)
split_at_space [] = none
split_at_space (c ∷ s) =
    let rest = split_at_space s in
    if c == 0x20
    then some ([], s)
    else (elim rest [ none ↦ none | some (scheme, token) ↦ some (c ∷ scheme, token) ])

-- `strings.EqualFold(s, "bearer")`: no letter of it folds to anything but its other case.
abbrev fold_ascii : ℕ → ℕ
fold_ascii c = if within 0x41 0x5A c then c + 0x20 else c

abbrev is_bearer : Bytes → Bool
is_bearer s = text_eq (map fold_ascii s) (codes "bearer")

abbrev token_of : Option (Bytes × Bytes) → Result Bytes Bytes
token_of none = err (codes "Authorization header must use Bearer scheme")
token_of (some (scheme, token)) =
    if not (is_bearer scheme)
    then err (codes "Authorization header must use Bearer scheme")
    else if is_empty token
    then err (codes "Bearer token is empty")
    else ok token

unfoldable pub extract_bearer_token : HttpRequest → Result Bytes Bytes
extract_bearer_token req =
    let header = req.get_header (codes "Authorization") in
    if is_empty header
    then err (codes "missing Authorization header")
    else token_of (split_at_space header)

-- `jwt`: signing with HS256, and `ParseWithClaims` with the options of the source, at a time in
-- nanoseconds since 1970.
pub record Jwt (E : Type 0) : Type 0 where
  pub signed_string : Bytes → AdminClaims → Result E Bytes
  pub parse_with_claims : ℕ → Bytes → Bytes → Option AdminClaims

abbrev pub second : ℕ
second = 10 ^ 9

abbrev pub minute : ℕ
minute = 60 * second

-- An `int64`
abbrev pub wrap_i64 : ℤ → ℤ
wrap_i64 (pos n) = let m = n % 2 ^ 64 in if ltb m (2 ^ 63) then pos m else negsuc (2 ^ 64 - 1 - m)
wrap_i64 (negsuc n) =
    let m = n % 2 ^ 64 in if ltb m (2 ^ 63) then negsuc m else pos (2 ^ 64 - 1 - m)

abbrev times_minute : ℤ → ℤ
times_minute (pos n) = pos (n * minute)
times_minute (negsuc n) = sub_ℕ 0 (suc n * minute)

-- `jwt.NewNumericDate`: the second that has begun
abbrev numeric_date : ℤ → ℤ
numeric_date (pos n) = pos (n / second)
numeric_date (negsuc n) = negsuc (n / second)

unfoldable pub admin_claims : ℕ → Bytes → ℤ → AdminClaims
admin_claims now username expiry_minutes = record {
  issuer = codes "vyse-gateway";
  subject = username;
  issued_at = numeric_date (pos now);
  expires_at = numeric_date (pos now +ℤ wrap_i64 (times_minute expiry_minutes));
  username = username;
  role = codes "admin";
}

pub record TokenResponse : Type 0 where
  pub token : Bytes
  pub expires_in : ℤ
  pub token_type : Bytes

module _ {E : Type 0} (jwt : Jwt E) where
  -- `JWTAuth`, with the claims that it stores
  unfoldable pub jwt_auth : ℕ → Bytes → HttpRequest → Outcome AdminClaims
  jwt_auth now secret req = elim (extract_bearer_token req) [
    | err e ↦ abort_unauthorized e
    | ok raw ↦ elim (jwt.parse_with_claims now secret raw) [
      | none ↦ abort_unauthorized (codes "invalid or expired token")
      | some claims ↦ pass claims
    ]
  ]

  abbrev pub issue_admin_token : ℕ → Bytes → Bytes → ℤ → Result E Bytes
  issue_admin_token now username secret expiry_minutes =
      jwt.signed_string secret (admin_claims now username expiry_minutes)

  abbrev issued : ℤ → Result E Bytes → Outcome TokenResponse
  issued expiry_minutes (err e) = refuse 500 (codes "token issuance failed") (codes "INTERNAL")
  issued expiry_minutes (ok token) =
      pass (record { token = token; expires_in = expiry_minutes; token_type = codes "Bearer" })

  module _ {F : Type 0} (should_bind_json : Bytes → Option (Bytes × Bytes)) where
    -- `IssueToken`, for a body of a username and a password
    unfoldable pub issue_token : ℕ → Config F → HttpRequest → Outcome TokenResponse
    issue_token now cfg req = elim (should_bind_json req.body) [
      | none ↦ refuse 400 (codes "username and password are required") (codes "BAD_REQUEST")
      | some (username, password) ↦
          let username_match = constant_time_compare username cfg.auth.admin_username in
          let password_match = constant_time_compare password cfg.auth.admin_password in
          if not (bit_and username_match password_match == 1)
          then refuse 401 (codes "invalid credentials") (codes "UNAUTHORIZED")
          else issued cfg.auth.jwt_expiry_minutes
              (issue_admin_token now username cfg.auth.jwt_secret cfg.auth.jwt_expiry_minutes)
    ]
