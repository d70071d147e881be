-- ===== src/Gateway/AccessTests.antt =====
-- Runs of the rate limiter, the keys, the tokens and the configuration, and the theorems about them
-- at these runs.
use vyse.Prelude.{
  ℕ, ◌+◌, ◌*◌, ◌/◌, ◌≤◌, ◌<◌, ◌≡◌, ◌↔◌, ◌⊎◌, refl, Bool, Option, some, List, [], ◌++◌, codes,
  text_eq, ok, Result, arith, none, ◌∷◌,
}
use vyse.Prelude.Int.{pos}
use vyse.Float.Milli.{Milli, milli}
use vyse.Gateway.{Bytes, HttpRequest, pass, refuse}
use vyse.Gateway.Config.{Config, Value, validation_errors, validate, defaults, load}
use vyse.Gateway.Config.Validation.{IsValid, WasRead, validate-eq-none_iff, load-eq-ok_iff}
use vyse.Gateway.RateLimit.{RateLimiter, new_rate_limiter, slow_path}
use vyse.Gateway.RateLimit.Invariant.{IsSound, Reach, start, step_to, added, Reach-IsSound}
use vyse.Gateway.RateLimit.Refinement.{
  Event, arrival, eviction, run_events, spec_events, Refines, run_events-spec_events,
}
use vyse.Gateway.Auth.{TokenResponse, second, minute, admin_claims, jwt_auth, issue_token}
use vyse.Gateway.Auth.Tokens.{issue_token-jwt_auth}
use vyse.Gateway.Sample.{counting}
use vyse.Gateway.Sample.Token.{jwt, jwt_laws, token}
use vyse.Gateway.Sample.Requests.{secret, config, with_header, named}

abbrev fresh : RateLimiter ℕ ℕ
fresh = new_rate_limiter 10 (pos 20)

abbrev ip : Bytes
ip = codes "10.0.0.1"

abbrev one : RateLimiter ℕ ℕ
one = (slow_path counting 1000 ip fresh).1

reached : Reach counting 10 (pos 20) one
reached = step_to fresh one start (added fresh 1000 ip)

Reach-IsSound_example : IsSound one
Reach-IsSound_example = Reach-IsSound counting 10 (pos 20) one reached

abbrev day : List Event
day =
    arrival 1000 1000 named
    ∷ arrival 2000 2001 (with_header (codes "Accept") (codes "text/plain") [])
    ∷ eviction 700000000000
    ∷ arrival 700000000001 700000000002 named
    ∷ []

run_events-spec_events_example :
    ((run_events counting fresh day).0 ≡ (spec_events counting 20 (λ ip. none) day).0)
    × Refines counting
        (run_events counting fresh day).1
        (spec_events counting 20 (λ ip. none) day).1
run_events-spec_events_example = run_events-spec_events counting 10 (pos 20) day

config-IsValid : IsValid config
unfolding validate validation_errors
config-IsValid = (validate-eq-none_iff config).0 refl

abbrev no_file : Bytes → Bool
no_file e = text_eq e (codes "not found")

abbrev unmarshal : List (Bytes × Value Milli) → Result Bytes (Config Milli)
unmarshal values = ok config

load-eq-ok_iff_example : (load no_file unmarshal (some (codes "not found")) ≡ ok config) ↔ (
    WasRead no_file unmarshal config (some (codes "not found"))
    × (unmarshal defaults ≡ ok config)
    × IsValid config)
load-eq-ok_iff_example = load-eq-ok_iff no_file unmarshal config (some (codes "not found"))

abbrev credentials : Bytes → Option (Bytes × Bytes)
credentials body = some (codes "admin", codes "hunter2")

abbrev login : HttpRequest
login = with_header (codes "Accept") (codes "text/plain") (codes "admin:hunter2")

abbrev granted : TokenResponse
granted = record {
  token = token secret (admin_claims 1000000000 (codes "admin") (pos 480));
  expires_in = pos 480;
  token_type = codes "Bearer";
}

issued : issue_token jwt credentials 1000000000 config login ≡ pass granted
unfolding issue_token text_eq admin_claims
issued = refl

abbrev shown : HttpRequest
shown = with_header (codes "Authorization") (codes "Bearer " ++ granted.token) []

issue_token-jwt_auth_example :
    (credentials login.body ≡ some (codes "admin", codes "hunter2"))
    × (((2000000000 < (1000000000 + 480 * minute) / second * second)
          × (jwt_auth jwt 2000000000 secret shown
              ≡ pass (admin_claims 1000000000 (codes "admin") (pos 480))))
        ⊎ (((1000000000 + 480 * minute) / second * second ≤ 2000000000)
            × (jwt_auth jwt 2000000000 secret shown
                ≡ refuse 401 (codes "invalid or expired token") (codes "UNAUTHORIZED"))))
unfolding text_eq
issue_token-jwt_auth_example =
    issue_token-jwt_auth jwt credentials 1000000000 config login granted issued jwt_laws 480
      2000000000 shown refl (omega arith) (omega arith) refl
