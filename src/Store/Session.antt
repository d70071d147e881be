-- ===== src/Store/Session.antt =====
-- engine/src/store/session.rs, `Session`: the behavioural profile of one session.
pub mod Trim
use vyse.Prelude.{
  ℕ, ◌-◌, Bool, false, Option, none, some, List, [], length, drop, ltb, Text, if◌then◌else◌,
}
use vyse.Prelude.Int.{ℤ, pos}
use vyse.Float.{Float, zero_f}
use vyse.Clock.{DateTime, mins_since}

pub record Session (F : Type 0) : Type 0 where
  pub session_id_hash : Text
  pub tier : ℤ
  pub first_seen_at : DateTime
  pub last_active_at : DateTime
  pub tracking_started_at : Option DateTime
  pub request_count : ℕ
  pub dynamic_mean_rpm : F
  pub current_hybrid_score : F
  pub timestamps : List DateTime
  pub prompt_history : List Text
  pub last_embedding : Option (List F)
  pub is_banned : Bool
  pub noise_seed : Option Text

-- `if v.len() > max { v.drain(..v.len() - max); }`
unfoldable pub keep_last {ℓ} : {A : Type ℓ} → ℕ → List A → List A
keep_last max xs = if ltb max (length xs) then drop (length xs - max) xs else xs

module _ {F : Type 0} ⦃f : Float F⦄ where
  -- `now` is the reading of `Utc::now()`.
  unfoldable pub new : DateTime → Text → Session F
  new now session_id_hash = record {
    session_id_hash = session_id_hash;
    tier = pos 1;
    first_seen_at = now;
    last_active_at = now;
    tracking_started_at = none;
    request_count = 0;
    dynamic_mean_rpm = zero_f;
    current_hybrid_score = zero_f;
    timestamps = [];
    prompt_history = [];
    last_embedding = none;
    is_banned = false;
    noise_seed = none;
  }

  unfoldable pub tracking_duration_mins : DateTime → Session F → F
  tracking_duration_mins now s = elim s.tracking_started_at [
    | some started ↦ mins_since now started
    | none ↦ zero_f
  ]

module _ {F : Type 0} where
  unfoldable pub trim : Session F → ℕ → ℕ → Session F
  trim s max_timestamps max_history = record s {
    timestamps = keep_last max_timestamps s.timestamps;
    prompt_history = keep_last max_history s.prompt_history;
  }
