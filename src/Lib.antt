-- ===== src/Lib.antt =====
-- Vyse protects a language model from extraction. This library is about its engine, the Rust crate
-- under engine/, and about the HTTP gateway in Go that stands before it, under gateway/. The gateway
-- authenticates a request, limits the rate of its address, gives it the hash of a session, and
-- forwards its prompt to the engine. The engine keeps a behavioural profile of each session in
-- Redis. For each prompt it loads the profile, computes four signals and a hybrid score, gives the
-- session a tier, asks the model, perturbs the response of a session that is not clean, and saves
-- the profile.
--
-- Which file models which part (paths from the root of the repository):
--   Service, Service/Infer,
--   Service/Reply            engine/src/grpc/service.rs: `infer` and `handle_infer`. Each numbered
--                            step of the source is a function (`load_or_create`, `record_request`,
--                            `examine`, `score`, `start_tracking`, `classify`, `defend`, `audit`,
--                            `finish`), and `handle_infer` composes them. A request reads Redis
--                            once and changes nothing itself: it returns the tasks that the source
--                            hands to `tokio::spawn`, and `run_tasks` runs those.
--   Service/Engine           engine/src/grpc/service.rs: the running service, as a step relation on
--                            the state of Redis and the tasks that still run. A request reads and
--                            spawns in one step; each of its tasks ends in a step of its own, in any
--                            order, and deletions and expiries come in between.
--   Service/Admin            engine/src/grpc/service.rs: `get_session`, `list_sessions`,
--                            `delete_session`, `get_stats`, `health_check`, `session_to_proto`.
--   Store/Session            engine/src/store/session.rs: `Session`, `new`, `trim`,
--                            `tracking_duration_mins`.
--   Store/Redis              engine/src/store/session.rs: `get`, `set`, `delete`, `list_hashes`.
--   Store/Logs               engine/src/store/logs.rs: the row of the query log, `insert` and
--                            `list_recent`.
--   Store/Connections        engine/src/store/mod.rs: `Stores`, `connect`, `health_check`.
--   Scoring/Tier             engine/src/scoring/mod.rs: `compute_hybrid`, `classify_tier`.
--   Scoring/Velocity         engine/src/scoring/velocity.rs
--   Scoring/Divergence       engine/src/scoring/divergence.rs
--   Scoring/Entropy          engine/src/scoring/entropy.rs
--   Scoring/Anomaly          engine/src/scoring/anomaly.rs, the statistics, the sort with its panic,
--                            the model, and the global model behind its lock
--   Defence/Pipeline         engine/src/defence/mod.rs: `run` and `derive_session_seed`. A panic of
--                            the defence is `none`.
--   Defence/Reorder          engine/src/defence/mod.rs: `reorder_sentences` and its shuffle.
--   Defence/Synonym          engine/src/defence/synonym.rs: `substitute` and its table.
--   Defence/Numeric          engine/src/defence/numeric.rs: `perturb`, `perturbation_factor`,
--                            `seed_to_u64`.
--   Config                   engine/src/config.rs: the records, `defaults`, `load`, `validate`.
--   Gateway/Session          gateway/internal/middleware/session.go: `SessionExtractor`,
--                            `validateSessionID`, `hashSessionID`.
--   Gateway/RateLimit        gateway/internal/middleware/ratelimit.go: `getLimiter` in its two parts
--                            under the lock, `evictIdle`, `Middleware`. The limiters stand on a heap,
--                            since a request keeps the pointer to its own after it leaves the lock.
--   Gateway/Auth             gateway/internal/middleware/auth.go: `APIKeyAuth`, `JWTAuth`,
--                            `IssueAdminToken`; gateway/internal/server/server.go: `IssueToken`.
--   Gateway/Infer,
--   Gateway/Client           gateway/internal/handlers/infer.go: `Handle`; and
--                            gateway/internal/grpc/client.go: `Infer`, `NewEngineClient`. The module
--                            Gateway/Infer/Served joins them with `infer` of the engine: a call is
--                            lost, by its deadline or by the transport, or comes through.
--   Gateway/Config           gateway/internal/config/config.go: the records, `Load`, `validate`.
--   Gateway/Strings          what the gateway uses of the packages strings, utf8 and subtle of Go
--   Clock, Words             instants of `chrono`, and the words and the bytes of a text
--   Prelude                  lists, texts, integers and results that the parts share
-- The modules called Tests hold examples, and the modules called Sample what they run on: a
-- server, a codec, an engine, requests and a token, each a concrete function. Float/Milli is a
-- number type of thousandths with a NaN, on which the examples evaluate.
--
-- What the code takes from elsewhere is a parameter:
--   * `f32` and `f64` are a type with the operations of `Float`. No definition depends on how they
--     round. A theorem names the laws of IEEE 754 that it needs: `IsOrdered` (comparison of
--     numbers), `IsMonotone` and `IsRounded` (of rounded operations), `IsAbsorbing`
--     (NaN).
--   * Redis is a record of four commands on a state, with laws for what they do (`RedisLaws`);
--     expiry is not among them, since a key that has expired is one whose load finds nothing. The
--     running service has the values of the keys (`RedisCells`), and expiry as a step.
--     `serde_json` is a pair of functions; a theorem that needs it asks that what is read from a
--     written session, where it is read at all, is that session. A float that is not finite is
--     written and not read.
--   * The modules `error`, `ml`, `audit` and `llm`, and the functions of `scoring` and `defence`
--     that service.rs calls under names which those modules do not declare, are fields of `Env`.
--     Nothing is assumed of them.
--   * The readings of the clock within one request and the outcomes of its requests for a pooled
--     connection are `Inputs`.
--   * The `config` crate is the pair `build` and `try_deserialize`; Unicode is the record of
--     its tables; the order of the values of a hash map is a function.
--   * The generator of the `rand` crate is the record `Rng` of three draws, with laws for what it
--     draws from (`RngLaws`). HMAC-SHA256 and the printing of numbers are fields of `Tools`, and so
--     is the call of `numeric::perturb` in `run`, which may panic: numeric.rs declares a function of
--     another type.
--   * The `regex` crate is the record `Regex`; that its matches cover the text is `IsExact`, and
--     that each starts at its byte `IsPlaced`. The parsing, rounding and printing of numbers are
--     the record `Numerals`.
--   * PostgreSQL is the record `Postgres` of the two statements, with the law `Table`, which
--     keeps timestamps to the microsecond; the drivers that connect the stores are the record
--     `Drivers`, and what the stores answer `Probes`.
--   * Of `gin`, a handler has the record `HttpRequest` of what it reads, and returns an `Outcome`: it
--     goes on, answers with a status, or panics. SHA-256 has sums of 32 bytes (`Sha256Laws`); the
--     strings of the protocol are UTF-8 (`Utf8Laws`); tokens parse until they expire (`JwtLaws`). The
--     token bucket is the record `Rate`, of which nothing is assumed.
--
-- A Go string is a list of bytes, and a Rust text a list of code points.
--
-- Every function is structurally recursive, so there is no fuel. Counters wrap where the machine's
-- do: `request_count` and the mixing of seeds modulo 2^64, the bigram counts modulo 2^32; the
-- theorem on the latter is for fewer than 2^32 bigrams.
--
-- A log line or span that slices a hash is taken to be enabled: the handlers panic where their
-- slices do, the span of a load among them. The span of `set` is left out: it cuts the hash of a
-- session in a task of its own, whose panic loses the save. During a listing Redis does not
-- change.
--
-- The code is taken as it runs in a release build: the `debug_assert_eq` on the lengths of the
-- embeddings in divergence.rs is left out. In velocity.rs the window is taken to be within the
-- range of `chrono::Duration` and of its instants, out of which the source panics.
--
-- Not modelled: tracing and logging; the build of the crate; the protocol under proto/ and the
-- code generated from it; the mock of the engine in gateway/internal/grpc/stub; `Health` of the
-- gateway, which answers constants and values of the Go runtime, and `GetAdminClaims`. The
-- repository holds no router and no `main` of the gateway: the theorem about its session
-- middleware and its handler takes the handler to run on what the middleware has stored.
-- `lastSeen` is written under a read lock, and taken to be written atomically. A task that the
-- process loses when it stops is not a step of the running service.
pub mod Clock
pub mod Config
pub mod Defence
pub mod Float
pub mod Gateway
pub mod Prelude
pub mod Scoring
pub mod Service
pub mod Store
pub mod Words
