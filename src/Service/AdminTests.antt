-- ===== src/Service/AdminTests.antt =====
-- Runs of the admin handlers of engine/src/grpc/service.rs, and the theorems about them there.
use vyse.Prelude.{
  ℕ, ◌*◌, ◌^◌, ◌-◌, ◌≡◌, refl, Bool, true, false, List, [], ◌∷◌, Text, codes, Result, ok, err,
  arith, All, take,
}
use vyse.Prelude.Int.{pos}
use vyse.Float.Milli.{milli}
use vyse.Store.Connections.{Probes}
use vyse.Store.Redis as Sessions
use vyse.Store.Sample.{Server, redis, json}
use vyse.Service.{can_trace}
use vyse.Service.Admin.{stream_sessions}
use vyse.Service.Admin.Listing.{selection, protos, stream_sessions-limited}
use vyse.Service.Sample.{hash}
use vyse.Service.Sample.Runs.{holding}

abbrev internal : Text → Text
internal m = m

abbrev hashes : List Text
hashes = codes "nobody" ∷ hash ∷ hash ∷ []

printable : All (λ h. can_trace h ≡ true) hashes
unfolding can_trace
printable = (refl, (refl, (refl, tt)))

-- A second passes from message to message.
abbrev clock : ℕ → ℕ
clock n = n * 10 ^ 9

stream_sessions-limited_example :
    stream_sessions redis json internal (λ _. true) (holding false) clock (pos 1) (pos 1) 0 hashes
    ≡ take (1 - 0) (
        protos redis json internal
          (holding false)
          clock
          (pos 1)
          0
          (selection redis json internal (holding false) clock (pos 1) hashes))
stream_sessions-limited_example =
    stream_sessions-limited redis json internal (holding false) clock (pos 1) 1 0 hashes printable
      (omega arith) (omega arith)

abbrev server_of : Result Text (Bool × Server) → Server
server_of (ok (b, r)) = r
server_of (err e) = holding false

abbrev without : Server
without = server_of (Sessions.delete redis (holding false) hash)

-- Redis grants a connection but does not answer.
abbrev probes : Probes
probes = record { connection = ok tt; pong = err (codes "timeout"); selected = ok tt }
