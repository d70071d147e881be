-- ===== src/Gateway.antt =====
-- gateway/internal: the HTTP gateway in Go that stands before the engine. It is about the package
-- middleware (sessions, rate limits, keys and tokens), the handlers of infer.go and server.go, the
-- client in grpc/client.go and the configuration.
--
-- `gin`, SHA-256, the token buckets of `rate`, JSON and JWT are not part of the repository, and are
-- parameters. A handler here is a function of the request, and returns what it answers.
pub mod Strings
pub mod Session
pub mod Sample
pub mod RateLimit
pub mod Auth
pub mod Client
pub mod Infer
pub mod Config
mod Tests
mod AccessTests
use vyse.Prelude.{ℕ, Option, List, ◌++◌, ◌∷◌, codes}

-- A Go string is a sequence of bytes.
abbrev pub Bytes : Type 0
Bytes = List ℕ

-- What the handlers read of `gin.Context`: `c.GetHeader(name)`, which is empty where the header is
-- missing, `c.ClientIP()` and the body.
pub record HttpRequest : Type 0 where
  pub get_header : Bytes → Bytes
  pub client_ip : Bytes
  pub body : Bytes

-- A middleware calls `c.Next()` with what it has stored, and a handler answers with status 200; or
-- they answer with a status, and a body of a message and a code; or they panic.
pub data Outcome (A : Type 0) : Type 0 where
  pass : A → Outcome A
  refuse : ℕ → Bytes → Bytes → Outcome A
  crash : Outcome A
