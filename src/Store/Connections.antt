-- ===== src/Store/Connections.antt =====
-- engine/src/store/mod.rs: the connection pools, and the health check of the two stores. The calls of
-- `bb8`, `redis` and `sqlx` are parameters; the migrations are one of them.
use vyse.Prelude.{
  ℕ, ◌≡◌, ◌↔◌, Bool, true, false, Option, none, some, Text, codes, text_eq, text_eq_iff, Result, ok,
  err, ◌>>=◌, arith,
}

-- `Pool<RedisConnectionManager>` and `PgPool`
pub record Stores (P Q : Type 0) : Type 0 where
  pub redis : P
  pub postgres : Q

-- What `connect` calls. `M` is the manager of the Redis connections; an error that the source
-- passes on by `?` is one of `E` already.
pub record Drivers (E M P Q : Type 0) : Type 0 where
  pub internal : Text → E
  pub redis_manager : Text → Result E M
  pub redis_pool : ℕ → M → Result Text P
  pub postgres_pool : ℕ → Text → Result E Q
  pub migrate : Q → Result E (Unit {0})

module _ {E M P Q : Type 0} (drivers : Drivers E M P Q) where
  abbrev built : Result Text P → Result E P
  built (ok pool) = ok pool
  built (err e) = err (drivers.internal e)

  unfoldable pub connect : Text → Text → ℕ → ℕ → Result E (Stores P Q)
  connect redis_url postgres_url redis_pool_size postgres_max_connections = do
    manager ← drivers.redis_manager redis_url
    redis ← built (drivers.redis_pool redis_pool_size manager)
    postgres ← drivers.postgres_pool postgres_max_connections postgres_url
    _ ← drivers.migrate postgres
    ok (record { redis = redis; postgres = postgres })

-- What the stores answer to a health check: the pool with a connection, Redis with the answer to
-- `PING` on it, and PostgreSQL with the outcome of `SELECT 1`.
pub record Probes : Type 0 where
  pub connection : Result Text (Unit {0})
  pub pong : Result Text Text
  pub selected : Result Text (Unit {0})

-- `result.ok()`
abbrev ok_of {ℓ κ} : {E : Type ℓ} {A : Type κ} → Result E A → Option A
ok_of (ok a) = some a
ok_of (err e) = none

abbrev is_ok {ℓ κ} : {E : Type ℓ} {A : Type κ} → Result E A → Bool
is_ok (ok a) = true
is_ok (err e) = false

abbrev answered : Option Text → Bool
answered none = false
answered (some pong) = text_eq pong (codes "PONG")

abbrev redis_ok : Probes → Bool
redis_ok p = elim (ok_of p.connection) [ none ↦ false | some conn ↦ answered (ok_of p.pong) ]

-- (redis_ok, postgres_ok)
unfoldable pub health_check : Probes → Bool × Bool
health_check p = (redis_ok p, is_ok p.selected)

-- Redis grants a connection and answers "PONG" on it.
abbrev pub IsRedisUp : Probes → Type 0
IsRedisUp p = (p.connection ≡ ok tt) × (p.pong ≡ ok (codes "PONG"))

abbrev pub IsPostgresUp : Probes → Type 0
IsPostgresUp p = p.selected ≡ ok tt

pub health_check_lem :
    (p : Probes)
    → (((health_check p).0 ≡ true) ↔ IsRedisUp p) × (((health_check p).1 ≡ true) ↔ IsPostgresUp p)
unfolding health_check
health_check_lem p = (redis p.connection p.pong, postgres p.selected)
  where
    redis :
        (c : Result Text (Unit {0})) (a : Result Text Text)
        → ((elim (ok_of c) [ none ↦ false | some conn ↦ answered (ok_of a) ]) ≡ true)
          ↔ ((c ≡ ok tt) × (a ≡ ok (codes "PONG")))
    redis (err e) a = ground arith
    redis (ok tt) (err e) = ground arith
    redis (ok tt) (ok a) = ground (arith, text_eq_iff a (codes "PONG"))

    postgres : (s : Result Text (Unit {0})) → (is_ok s ≡ true) ↔ (s ≡ ok tt)
    postgres (ok tt) = ground arith
    postgres (err e) = ground arith
