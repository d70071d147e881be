-- ===== src/Defence/Pipeline.antt =====
-- engine/src/defence/mod.rs, `run`: the pipeline of the perturbations.
--
-- `run` calls `numeric::perturb` with the generator and takes a text and a flag from it. numeric.rs
-- declares another function of that name, so the call is a parameter here, which may panic.
pub mod Steps
pub mod Replay
use vyse.Prelude.{
  ℕ, zero, suc, ◌+◌, ◌-◌, ◌*◌, ◌/◌, ◌%◌, ◌^◌, ◌==◌, Bool, true, false, ◌&&◌, Option, none, some,
  List, [], ◌∷◌, ◌++◌, Text, codes, length, take, ltb, if◌then◌else◌,
}
use vyse.Prelude.Int.{ℤ}
use vyse.Float.{Float}
use vyse.Words.{Unicode}
use vyse.Config.{DefenceConfig}
use vyse.Defence.Panics.{◌>>=◌}
use vyse.Defence.Random.{Rng}
use vyse.Defence.Synonym.{substitute}
use vyse.Defence.Reorder.{reorder_sentences}

pub record PipelineResult : Type 0 where
  pub served_response : Text
  pub steps_applied : List Text
  pub noise_seed_hex : Text

-- What `run` uses of other crates, and the call of `numeric::perturb`.
pub record Tools (F G : Type 0) : Type 0 where
  pub rng : Rng G
  pub unicode : Unicode
  -- `StdRng::seed_from_u64`
  pub seed_from_u64 : ℕ → G
  -- HMAC-SHA256 of a key and a message: its bytes
  pub hmac_sha256 : Text → Text → List ℕ
  -- `to_string` and `{:.2}`
  pub show_i64 : ℤ → Text
  pub show_2 : F → Text
  pub perturb : Text → F → G → Option (Text × Bool × G)

-- `hex::encode`
abbrev pub hex_digit : ℕ → ℕ
hex_digit n = if ltb n 10 then 0x30 + n else 0x57 + n

unfoldable pub hex_encode : List ℕ → Text
hex_encode [] = []
hex_encode (b ∷ bytes) = hex_digit (b / 16) ∷ hex_digit (b % 16) ∷ hex_encode bytes

-- `u64::from_le_bytes`
unfoldable pub from_le_bytes : List ℕ → ℕ
from_le_bytes [] = 0
from_le_bytes (b ∷ bytes) = b + 256 * from_le_bytes bytes

-- `&bytes[..8]`, with its panic
unfoldable pub first_8 : List ℕ → Option (List ℕ)
first_8 bytes = if ltb (length bytes) 8 then none else some (take 8 bytes)

module _ {F G : Type 0} ⦃f : Float F⦄ (tools : Tools F G) where
  unfoldable pub derive_session_seed : Text → ℤ → List ℕ
  derive_session_seed session_id_hash session_start_unix =
      tools.hmac_sha256 session_id_hash (tools.show_i64 session_start_unix)

  abbrev pub ratio_of : ℕ → DefenceConfig F → F
  ratio_of tier cfg = if tier == 3 then cfg.tier3_synonym_ratio else cfg.tier2_synonym_ratio

  abbrev pub synonym_step : F → Text
  synonym_step ratio = codes "synonym_substitution(ratio=" ++ (tools.show_2 ratio ++ codes ")")

  abbrev pub numeric_step : DefenceConfig F → Text
  numeric_step cfg =
      codes "numeric_perturb(pct=" ++ (tools.show_2 cfg.numeric_perturb_pct ++ codes ")")

  abbrev pub reorder_step : Text
  reorder_step = codes "sentence_reorder"

  -- A step that says whether it has changed the text: `text` if it has not.
  abbrev pub keep_changed : Text → List Text → Text → Text × Bool × G → Text × List Text × G
  keep_changed text steps name (changed_text, true, g) = (changed_text, steps ++ name ∷ [], g)
  keep_changed text steps name (changed_text, false, g) = (text, steps, g)

  -- step 3
  unfoldable pub reorder :
      ℕ → DefenceConfig F → Text × List Text × G → Option (Text × List Text × G)
  unfolding reorder_sentences
  reorder tier cfg (text, steps, g) =
      let reordered = (do
        out ← reorder_sentences tools.rng tools.unicode text g
        some (keep_changed text steps reorder_step out)) in
      if tier == 3 && cfg.reorder_sentences then reordered else some (text, steps, g)

  -- steps 1 to 3
  unfoldable pub apply_steps : Text → ℕ → DefenceConfig F → G → Option (Text × List Text × G)
  unfolding substitute reorder
  apply_steps clean_response tier cfg g = do
    let ratio = ratio_of tier cfg
    substituted ← substitute tools.rng tools.unicode clean_response ratio g
    perturbed ← tools.perturb substituted.0 cfg.numeric_perturb_pct substituted.1
    reorder tier cfg
        (keep_changed substituted.0 (synonym_step ratio ∷ []) (numeric_step cfg) perturbed)

  unfoldable pub run : Text → ℕ → Text → ℤ → DefenceConfig F → Option PipelineResult
  unfolding derive_session_seed first_8 hex_encode from_le_bytes apply_steps
  run clean_response tier session_id_hash session_start_unix cfg =
      let perturbed = (do
        seed_bytes ← first_8 (derive_session_seed session_id_hash session_start_unix)
        out ← apply_steps clean_response tier cfg (tools.seed_from_u64 (from_le_bytes seed_bytes))
        some (record {
          served_response = out.0;
          steps_applied = out.1;
          noise_seed_hex = hex_encode seed_bytes;
        })) in
      if tier == 1
      then some
          (record { served_response = clean_response; steps_applied = []; noise_seed_hex = [] })
      else perturbed
