-- ===== src/Service/Admin.antt =====
-- engine/src/grpc/service.rs: the handlers behind the admin dashboard, and the health check. Their
-- first step, a connection of the pool, is an input: an error message, or none.
pub mod Listing
pub mod Replies
use vyse.Prelude.{
  ℕ, suc, ◌+◌, ◌^◌, ◌==◌, Bool, true, false, ◌&&◌, ◌||◌, Option, none, some, List, [], ◌∷◌, ◌++◌,
  Text, codes, Result, ok, err, ltb, leb, if◌then◌else◌,
}
use vyse.Prelude.Int.{ℤ, pos, sub_ℕ, eq_ℤ, leb_ℤ, ltb_ℤ}
use vyse.Float.{Float}
use vyse.Clock.{DateTime, timestamp}
use vyse.Store.Session.{Session, tracking_duration_mins}
use vyse.Store.Connections
use vyse.Store.Connections.{Probes}
use vyse.Store.Redis as Sessions
use vyse.Store.Redis.{Redis, Json}
use vyse.Service.{
  Status, not_found, internal_status, from_error, Failure, failed, panicked, lift, can_trace,
}

pub record SessionState (F : Type 0) : Type 0 where
  pub session_id_hash : Text
  pub tier : ℤ
  pub first_seen_at : ℕ
  pub last_active_at : ℕ
  pub tracking_started_at : ℕ
  pub request_count : ℤ
  pub dynamic_mean_rpm : F
  pub current_hybrid_score : F
  pub duration_mins : F
  pub is_banned : Bool

-- `n as i64` of a `u64`
abbrev pub as_i64 : ℕ → ℤ
as_i64 n = if ltb n (2 ^ 63) then pos n else sub_ℕ n (2 ^ 64)

abbrev pub timestamp_or_zero : Option DateTime → ℕ
timestamp_or_zero none = 0
timestamp_or_zero (some t) = timestamp t

module _ {F : Type 0} ⦃f : Float F⦄ where
  unfoldable pub session_to_proto : DateTime → Session F → SessionState F
  session_to_proto now s = record {
    session_id_hash = s.session_id_hash;
    tier = s.tier;
    first_seen_at = timestamp s.first_seen_at;
    last_active_at = timestamp s.last_active_at;
    tracking_started_at = timestamp_or_zero s.tracking_started_at;
    request_count = as_i64 s.request_count;
    dynamic_mean_rpm = s.dynamic_mean_rpm;
    current_hybrid_score = s.current_hybrid_score;
    duration_mins = tracking_duration_mins now s;
    is_banned = s.is_banned;
  }

module _ {F E : Type 0} ⦃f : Float F⦄ where
  abbrev pub found_or_missing :
      DateTime → Text → Result E (Option (Session F)) → Result (Status E) (SessionState F)
  found_or_missing now hash (ok (some session)) = ok (session_to_proto now session)
  found_or_missing now hash (ok none) = err (not_found (codes "session not found: " ++ hash))
  found_or_missing now hash (err e) = err (from_error e)

module _ {F : Type 0} where
  -- `filter == 0 || session.tier == filter`
  abbrev pub is_selected : ℤ → Session F → Bool
  is_selected filter session = eq_ℤ filter (pos 0) || eq_ℤ session.tier filter

module _ {F E : Type 0} where
  -- `if let Ok(Some(session))` with the filter
  abbrev pub selected : ℤ → Result E (Option (Session F)) → Option (Session F)
  selected filter (ok (some session)) = if is_selected filter session then some session else none
  selected filter (ok none) = none
  selected filter (err e) = none

module _ {F E R : Type 0} ⦃f : Float F⦄ (redis : Redis E R) (json : Json F)
    (internal : Text → E) where
  -- The span of `get` slices the hash.
  unfoldable pub get_session :
      Option Text → R → DateTime → Text → Result (Failure (Status E)) (SessionState F)
  get_session (some e) r now hash = err (failed (internal_status e))
  get_session none r now hash =
      if can_trace hash
      then lift (found_or_missing now hash (Sessions.get redis json internal r hash))
      else err panicked

  -- The loop over the hashes: what it sends, where the clock reads `now n` for the `n`-th message, and
  -- Redis does not change. `sent` counts as
  -- in the source, and `open'` says whether the client still receives the `n`-th message. A panic
  -- of the span of `get` ends the task, and the stream.
  unfoldable pub stream_sessions :
      (ℕ → Bool) → R → (ℕ → DateTime) → ℤ → ℤ → ℕ → List Text → List (SessionState F)
  stream_sessions open' r now filter limit sent [] = []
  stream_sessions open' r now filter limit sent (hash ∷ hashes) =
      let skip = stream_sessions open' r now filter limit sent hashes in
      let rest = stream_sessions open' r now filter limit (suc sent) hashes in
      if ltb_ℤ (pos 0) limit && leb_ℤ limit (pos sent)
      then []
      else if can_trace hash
      then (elim (selected filter (Sessions.get redis json internal r hash)) [
        | none ↦ skip
        | some session ↦ if open' sent then session_to_proto (now sent) session ∷ rest else []
      ])
      else []

  -- The messages of the stream: one error, or sessions.
  unfoldable pub list_sessions :
      Option Text
      → (ℕ → Bool)
      → R
      → (ℕ → DateTime)
      → ℤ
      → ℤ
      → Result (Status E) (List (SessionState F))
  list_sessions (some e) open' r now filter limit = err (internal_status e)
  list_sessions none open' r now filter limit = elim (Sessions.list_hashes redis r) [
    | ok hashes ↦ ok (stream_sessions open' r now filter limit 0 hashes)
    | err e ↦ err (from_error e)
  ]

-- The default message: all counts are 0.
pub record StatsResponse : Type 0 where
  pub total_sessions : ℤ
  pub active_sessions : ℤ
  pub tier1_count : ℤ
  pub tier2_count : ℤ
  pub tier3_count : ℤ
  pub total_requests : ℤ
  pub noise_injected_count : ℤ
  pub rekor_entries_count : ℤ

abbrev pub get_stats : {E : Type 0} → Result (Failure (Status E)) StatsResponse
get_stats = ok (record {
  total_sessions = pos 0;
  active_sessions = pos 0;
  tier1_count = pos 0;
  tier2_count = pos 0;
  tier3_count = pos 0;
  total_requests = pos 0;
  noise_injected_count = pos 0;
  rekor_entries_count = pos 0;
})

pub record DeleteSessionResponse : Type 0 where
  pub success : Bool
  pub message : Text

module _ {E R : Type 0} (redis : Redis E R) where
  -- The reply, with the state of the server after the command. The log line slices the hash.
  unfoldable pub delete_session :
      Option Text → R → Text → Result (Failure (Status E)) DeleteSessionResponse × R
  delete_session (some e) r hash = (err (failed (internal_status e)), r)
  delete_session none r hash = elim (Sessions.delete redis r hash) [
    | ok (true, r') ↦ (
      if can_trace hash
          then ok (record { success = true; message = codes "session deleted" })
          else err panicked,
      r',
    )
    | ok (false, r') ↦ (err (failed (not_found (codes "session not found"))), r')
    | err e ↦ (err (failed (from_error e)), r)
  ]

pub record HealthCheckResponse (F : Type 0) : Type 0 where
  pub status : Text
  pub version : Text
  pub redis_connected : Bool
  pub postgres_connected : Bool
  pub rekor_connected : Bool
  pub models_loaded : Bool
  pub uptime_seconds : F

-- The arguments are what the two stores, the models, the build and the clock answer.
unfoldable pub health_check : {F : Type 0} → Probes → Bool → Text → F → HealthCheckResponse F
health_check probes models_loaded version uptime =
    let (redis_ok, postgres_ok) = Connections.health_check probes in
    record {
      status =
          if redis_ok && postgres_ok && models_loaded
          then codes "healthy"
          else if redis_ok || postgres_ok
          then codes "degraded"
          else codes "unhealthy";
      version = version;
      redis_connected = redis_ok;
      postgres_connected = postgres_ok;
      rekor_connected = true;
      models_loaded = models_loaded;
      uptime_seconds = uptime;
    }
