-- ===== src/Gateway/Config.antt =====
-- gateway/internal/config/config.go: the configuration of the gateway. `viper`, which merges the
-- defaults, the file and the environment, is a parameter of `load`.
pub mod Validation
use vyse.Prelude.{
  ℕ, ltb, ◌&&◌, not, if◌then◌else◌, Bool, true, false, Option, none, some, List, [], ◌∷◌, ◌++◌,
  codes, is_empty, join, length, Result, ok, err, ◌>>=◌,
}
use vyse.Prelude.Int.{ℤ, pos, leb_ℤ}
use vyse.Float.{Float, zero_f}
use vyse.Gateway.{Bytes}

-- A `time.Duration` is a number of nanoseconds.
pub record ServerConfig : Type 0 where
  pub public_port : ℤ
  pub admin_port : ℤ
  pub read_timeout : ℤ
  pub write_timeout : ℤ
  pub shutdown_timeout : ℤ
  pub trusted_proxies : List Bytes

pub record AuthConfig : Type 0 where
  pub jwt_secret : Bytes
  pub jwt_expiry_minutes : ℤ
  pub admin_username : Bytes
  pub admin_password : Bytes
  pub api_key_header : Bytes
  pub api_key : Bytes

pub record EngineConfig : Type 0 where
  pub address : Bytes
  pub dial_timeout : ℤ
  pub request_timeout : ℤ
  pub max_retries : ℤ
  pub use_tls : Bool
  pub tls_cert_file : Bytes
  pub tls_key_file : Bytes

-- `F` is `float64`.
pub record LimitsConfig (F : Type 0) : Type 0 where
  pub requests_per_second : F
  pub burst : ℤ
  pub max_prompt_bytes : ℤ
  pub session_header_name : Bytes

pub record LoggingConfig : Type 0 where
  pub level : Bytes
  pub format : Bytes

pub record Config (F : Type 0) : Type 0 where
  pub server : ServerConfig
  pub auth : AuthConfig
  pub engine : EngineConfig
  pub limits : LimitsConfig F
  pub logging : LoggingConfig

-- `if bad { errs = append(errs, message) }`
abbrev append_if : Bool → Bytes → List Bytes → List Bytes
append_if bad message errs = if bad then errs ++ message ∷ [] else errs

module _ {F : Type 0} ⦃f : Float F⦄ where
  unfoldable pub validation_errors : Config F → List Bytes
  validation_errors c =
      append_if (leb_ℤ c.limits.max_prompt_bytes (pos 0))
        (codes "limits.max_prompt_bytes must be greater than 0")
        (append_if (leb_ℤ c.limits.burst (pos 0)) (codes "limits.burst must be greater than 0") (
          append_if (f.le c.limits.requests_per_second zero_f)
            (codes "limits.requests_per_second must be greater than 0")
            (append_if (is_empty c.engine.address) (codes "engine.address must not be empty") (
              append_if (ltb (length c.auth.api_key) 32)
                (codes "auth.api_key must be at least 32 characters")
                (append_if (is_empty c.auth.api_key)
                  (codes "auth.api_key must be set via VYSE_AUTH_API_KEY")
                  (append_if (is_empty c.auth.admin_password)
                    (codes "auth.admin_password must be set via VYSE_AUTH_ADMIN_PASSWORD")
                    (append_if (ltb (length c.auth.jwt_secret) 32)
                      (codes "auth.jwt_secret must be at least 32 characters")
                      (append_if (is_empty c.auth.jwt_secret)
                        (codes "auth.jwt_secret must be set via VYSE_AUTH_JWT_SECRET") []))))))))

  -- The message of the error, or none.
  unfoldable pub validate : Config F → Option Bytes
  unfolding validation_errors
  validate c =
      let errs = validation_errors c in
      if is_empty errs then none else some (codes "\n  - " ++ join (codes "\n  - ") errs)

-- What `SetDefault` takes.
pub data Value (F : Type 0) : Type 0 where
  int : ℤ → Value F
  float : F → Value F
  string : Bytes → Value F
  bool : Bool → Value F
  strings : List Bytes → Value F

module _ {F : Type 0} ⦃f : Float F⦄ where
  abbrev pub defaults : List (Bytes × Value F)
  defaults =
      (codes "server.public_port", int (pos 8080))
      ∷ (codes "server.admin_port", int (pos 8081))
      ∷ (codes "server.read_timeout", string (codes "10s"))
      ∷ (codes "server.write_timeout", string (codes "30s"))
      ∷ (codes "server.shutdown_timeout", string (codes "15s"))
      ∷ (codes "server.trusted_proxies", strings [])
      ∷ (codes "auth.jwt_expiry_minutes", int (pos 480))
      ∷ (codes "auth.admin_username", string (codes "admin"))
      ∷ (codes "auth.api_key_header", string (codes "X-Vyse-Key"))
      ∷ (codes "engine.address", string (codes "localhost:50051"))
      ∷ (codes "engine.dial_timeout", string (codes "5s"))
      ∷ (codes "engine.request_timeout", string (codes "30s"))
      ∷ (codes "engine.max_retries", int (pos 3))
      ∷ (codes "engine.use_tls", bool false)
      ∷ (codes "limits.requests_per_second", float (f.lit 10 0))
      ∷ (codes "limits.burst", int (pos 20))
      ∷ (codes "limits.max_prompt_bytes", int (pos 16384))
      ∷ (codes "limits.session_header_name", string (codes "X-Vyse-Session"))
      ∷ (codes "logging.level", string (codes "info"))
      ∷ (codes "logging.format", string (codes "json"))
      ∷ []

-- Where `Load` ends with an error: `E` is an error of `viper`.
pub data LoadError (E : Type 0) : Type 0 where
  reading : E → LoadError E
  unmarshalling : E → LoadError E
  invalid : Bytes → LoadError E

module _ {F E : Type 0} ⦃f : Float F⦄ (is_not_found : E → Bool)
    (unmarshal : List (Bytes × Value F) → Result E (Config F)) where
  abbrev pub checked : Config F → Result (LoadError E) (Config F)
  checked cfg = elim (validate cfg) [ none ↦ ok cfg | some message ↦ err (invalid message) ]

  abbrev pub unmarshalled : Result E (Config F) → Result (LoadError E) (Config F)
  unmarshalled (ok cfg) = checked cfg
  unmarshalled (err e) = err (unmarshalling e)

  -- `read_error` is the error of `ReadInConfig`; that the file is missing is none for `Load`.
  unfoldable pub load : Option E → Result (LoadError E) (Config F)
  load none = unmarshalled (unmarshal defaults)
  load (some e) = if is_not_found e then unmarshalled (unmarshal defaults) else err (reading e)
