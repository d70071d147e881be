-- ===== src/Service/Admin/Replies.antt =====
-- engine/src/grpc/service.rs: the replies of the admin handlers and of the health check.
use vyse.Prelude.{
  ◌≡◌, ◌↔◌, refl, Bool, true, false, Option, none, ◌++◌, Text, codes, ok, err, arith,
}
use vyse.Float.{Float}
use vyse.Clock.{DateTime}
use vyse.Store.Session.{Session}
use vyse.Store.Connections
use vyse.Store.Connections.{Probes, IsRedisUp, IsPostgresUp, health_check_lem}
use vyse.Store.Redis as Sessions
use vyse.Store.Redis.{Redis, RedisLaws, Json}
use vyse.Store.Redis.RoundTrip.{get-delete}
use vyse.Service.{not_found, failed, can_trace}
use vyse.Service.Admin.{get_session, delete_session, health_check}

module _ {F E R : Type 0} ⦃f : Float F⦄ (redis : Redis E R) (laws : RedisLaws E R redis)
    (json : Json F) (internal : Text → E) where
  -- A session that was deleted is not found afterwards, whether or not the deletion found it, if the
  -- commands succeed and the hash is one that the span of `get` can print.
  pub get_session-delete_session :
      (r r' : R) (now : DateTime) (hash : Text) (existed : Bool) (found : Option (Session F))
      → can_trace hash ≡ true
      → Sessions.delete redis r hash ≡ ok (existed, r')
      → Sessions.get redis json internal r' hash ≡ ok found
      → get_session redis json internal none (delete_session redis none r hash).1 now hash
        ≡ err (failed (not_found (codes "session not found: " ++ hash)))
  unfolding get_session delete_session
  get_session-delete_session r r' now hash existed found printable deleted loaded =
      let gone : found ≡ none =
        get-delete redis laws json internal r r' hash existed found deleted loaded in
      ground arith

replies :
    {F : Type 0} (probes : Probes) (models_loaded : Bool) (version : Text) (uptime : F)
    → let (redis_ok, postgres_ok) = Connections.health_check probes in
      let h = health_check probes models_loaded version uptime in
      ((h.status ≡ codes "healthy")
        ↔ ((redis_ok ≡ true) × (postgres_ok ≡ true) × (models_loaded ≡ true)))
      × ((h.status ≡ codes "unhealthy") ↔ ((redis_ok ≡ false) × (postgres_ok ≡ false)))
unfolding health_check
replies probes models_loaded version uptime = ground arith

-- The status is "healthy" exactly when Redis grants a connection and answers "PONG" on it, PostgreSQL
-- runs the test query and the models are loaded, and "unhealthy" exactly when neither store is up.
-- Rekor is reported as connected in any case.
pub health_check-status :
    {F : Type 0} (probes : Probes) (models_loaded : Bool) (version : Text) (uptime : F)
    → let h = health_check probes models_loaded version uptime in
      ((h.status ≡ codes "healthy")
        ↔ (IsRedisUp probes × IsPostgresUp probes × (models_loaded ≡ true)))
      × ((h.status ≡ codes "unhealthy") ↔ (¬ IsRedisUp probes × ¬ IsPostgresUp probes))
      × (h.rekor_connected ≡ true)
unfolding health_check
health_check-status probes models_loaded version uptime =
    let (healthy, unhealthy) = replies probes models_loaded version uptime in
    let (redis, postgres) = health_check_lem probes in
    (
      ground arith,
      ground (
        arith,
        is_false (Connections.health_check probes).0,
        is_false (Connections.health_check probes).1,
      ),
      refl,
    )
  where
    is_false : (b : Bool) → (b ≡ false) ↔ (¬ (b ≡ true))
    is_false true = ground arith
    is_false false = ground arith
