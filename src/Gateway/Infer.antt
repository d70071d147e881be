-- ===== src/Gateway/Infer.antt =====
-- gateway/internal/handlers/infer.go: `POST /api/infer`. The binding of the JSON body is a parameter.
pub mod Forwards
pub mod Relay
pub mod Served
use vyse.Prelude.{
  ℕ, leb, ◌&&◌, if◌then◌else◌, Bool, Option, none, some, List, [], ◌∷◌, ◌++◌, codes, is_empty,
  length, Result, ok, err,
}
use vyse.Prelude.Int.{ℤ, pos, ltb_ℤ}
use vyse.Gateway.{Bytes, HttpRequest, Outcome, pass, refuse, crash}
use vyse.Gateway.Strings.{trim_space}
use vyse.Gateway.Config.{Config}
use vyse.Gateway.Session.{SessionKeys, get_session_id_hash}
use vyse.Gateway.Client as Client
use vyse.Gateway.Client.{InferRequest}

pub record InferHandler (F E : Type 0) : Type 0 where
  pub engine : InferRequest → Result E (Client.InferResponse F)
  pub max_prompt : ℤ

abbrev pub new_infer_handler :
    {F E : Type 0}
    → (InferRequest → Result E (Client.InferResponse F))
    → Config F
    → InferHandler F E
new_infer_handler engine cfg = record { engine = engine; max_prompt = cfg.limits.max_prompt_bytes }

-- The body of the response.
pub record InferResponse : Type 0 where
  pub response : Bytes
  pub tier : ℤ
  pub request_id : Bytes

unfoldable pub reply_of : {F E : Type 0} → Result E (Client.InferResponse F) → Outcome InferResponse
reply_of (ok resp) =
    pass (record { response = resp.response; tier = resp.tier; request_id = resp.request_id })
reply_of (err e) = refuse 503 (codes "inference service unavailable") (codes "ENGINE_UNAVAILABLE")

-- `should_bind_json` returns the prompt of the body; `binding:"required"` is part of it.
module _ {F E : Type 0} (should_bind_json : Bytes → Option Bytes) (h : InferHandler F E) where
  abbrev pub engine_request : Bytes → HttpRequest → Bytes → InferRequest
  engine_request session_hash req prompt = record {
    session_id_hash = session_hash;
    prompt = prompt;
    client_ip = req.client_ip;
  }

  -- The log line slices the hash before the engine is called.
  abbrev forward : InferRequest → Outcome InferResponse × Option InferRequest
  forward req =
      if leb 12 (length req.session_id_hash)
      then (reply_of (h.engine req), some req)
      else (crash, none)

  abbrev checked : Bytes → HttpRequest → Bytes → Outcome InferResponse × Option InferRequest
  checked session_hash req prompt =
      if ltb_ℤ h.max_prompt (pos (length prompt))
      then (
        refuse 413 (codes "prompt exceeds maximum allowed size") (codes "PROMPT_TOO_LARGE"),
        none,
      )
      else if is_empty (trim_space prompt)
      then (refuse 400 (codes "prompt must not be empty or whitespace") (codes "BAD_REQUEST"), none)
      else forward (engine_request session_hash req prompt)

  -- `Handle`: the answer, and the request that went to the engine.
  unfoldable pub handle :
      Option SessionKeys → HttpRequest → Outcome InferResponse × Option InferRequest
  handle keys req =
      let session_hash = get_session_id_hash keys in
      if is_empty session_hash
      then (refuse 500 (codes "internal configuration error") (codes "INTERNAL"), none)
      else (elim (should_bind_json req.body) [
        | none ↦ (
          refuse 400 (codes "request body must be valid JSON with a non-empty 'prompt' field")
              (codes "BAD_REQUEST"),
          none,
        )
        | some prompt ↦ checked session_hash req prompt
      ])
