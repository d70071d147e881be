-- ===== src/Gateway/Tests.antt =====
-- Runs of the session middleware, the inference handler and the relay to the engine, and the theorems
-- about them at these runs.
use vyse.Prelude.{
  ◌≤◌, ◌≡◌, ◌≢◌, ◌↔◌, ◌⊎◌, refl, false, Option, none, some, [], ◌++◌, codes, Text, text_eq, ok, err,
  All, length, take, arith,
}
use vyse.Prelude.Int.{ℤ, pos, negsuc}
use vyse.Float.Milli.{Milli, milli}
use vyse.Defence.Pipeline.{hex_encode}
use vyse.Service.{panicked}
use vyse.Service.Infer as Engine
use vyse.Service.Infer.{as_status, handle_infer}
use vyse.Service.Sample.{env, at}
use vyse.Service.Sample.Runs.{service, holding, Outcome as Run}
use vyse.Gateway.{Outcome, pass, refuse}
use vyse.Gateway.Strings.{valid_from, trim_left, trim_space}
use vyse.Gateway.Session.{
  SessionKeys, max_session_id_bytes, validate_session_id, hash_session_id, session_extractor,
}
use vyse.Gateway.Session.Ids.{IsSessionIdChar, IsSessionId, chars→All, validate_session_id_iff}
use vyse.Gateway.Session.Extract.{
  IsIdentity, session_extractor-IsIdentity, session_extractor-impersonates,
}
use vyse.Gateway.Client as Client
use vyse.Gateway.Config.{EngineConfig}
use vyse.Gateway.Client.{InferRequest, ProtoRequest, proto_request}
use vyse.Gateway.Infer.{InferHandler, InferResponse, reply_of, handle}
use vyse.Gateway.Infer.Forwards.{Forwarded, Refused, handle-cases}
use vyse.Gateway.Infer.Relay.{delivered}
use vyse.Gateway.Infer.Served.{CallError, relay_handler, returned, relayed, handle-served}
use vyse.Gateway.Sample.{sha256, sha256_laws, decode, encode, utf8_laws, body_is_prompt}
use vyse.Gateway.Sample.Requests.{session_header, named, anonymous, posing, handler}

validate_session_id_iff_example : (validate_session_id (codes "alice@host") ≡ ok tt) ↔ (
    (codes "alice@host" ≢ [])
    × (length (codes "alice@host") ≤ max_session_id_bytes)
    × All IsSessionIdChar (codes "alice@host"))
validate_session_id_iff_example = validate_session_id_iff (codes "alice@host")

session_extractor-IsIdentity_example :
    ((keys : SessionKeys) × (session_extractor sha256 session_header named ≡ pass keys)
      × IsIdentity sha256 (trim_space (named.get_header session_header)) named keys)
    ⊎ ((session_extractor sha256 session_header named
          ≡ refuse 400
              (codes "invalid session ID in " ++ session_header)
              (codes "INVALID_SESSION_ID"))
        × (trim_space (named.get_header session_header) ≢ [])
        × ¬ IsSessionId (trim_space (named.get_header session_header)))
session_extractor-IsIdentity_example =
    session_extractor-IsIdentity sha256 sha256_laws session_header named

session_extractor-impersonates_example :
    session_extractor sha256 session_header posing
    ≡ session_extractor sha256 session_header anonymous
unfolding trim_space trim_left text_eq
session_extractor-impersonates_example =
    session_extractor-impersonates sha256 session_header anonymous posing refl refl (omega arith)
      (chars→All (codes "10.0.0.1") refl)

abbrev keys : SessionKeys
keys = record {
  session_id = codes "alice@host";
  session_id_hash = hash_session_id sha256 (codes "alice@host");
  log_session_hash = take 12 (hash_session_id sha256 (codes "alice@host"));
}

extracted : session_extractor sha256 session_header named ≡ pass keys
unfolding session_extractor trim_space trim_left text_eq validate_session_id valid_from hex_encode
extracted = refl

-- A connection on which calls with a deadline come through.
abbrev lost : ℤ → ProtoRequest → Option Text
lost (pos n) p = none
lost (negsuc n) p = some (codes "deadline exceeded")

abbrev engine : EngineConfig
engine = record {
  address = codes "engine:50051";
  dial_timeout = pos 5;
  request_timeout = pos 30;
  max_retries = pos 3;
  use_tls = false;
  tls_cert_file = [];
  tls_key_file = [];
}

abbrev relay : InferHandler Milli (CallError Text Text)
relay = relay_handler env (holding false) (at 1000000000) decode encode lost engine (pos 16)

abbrev sent : InferRequest
sent = record {
  session_id_hash = keys.session_id_hash;
  prompt = codes "probe";
  client_ip = codes "10.0.0.1";
}

forwarded :
    handle body_is_prompt relay (some keys) named ≡ (reply_of (relay.engine sent), some sent)
unfolding handle trim_space trim_left hex_encode
forwarded = refl

handle-cases_example :
    ((e : InferRequest) × (handle body_is_prompt handler (some keys) named
        ≡ (reply_of (handler.engine e), some e))
      × Forwarded body_is_prompt handler (some keys) named e)
    ⊎ ((answer : Outcome InferResponse) × (handle body_is_prompt handler (some keys) named
          ≡ (answer, none))
        × Refused body_is_prompt handler (some keys) named answer)
handle-cases_example = handle-cases body_is_prompt handler (some keys) named

abbrev result : Run
result = handle_infer env (holding false) (at 1000000000) (delivered decode (proto_request sent))

handle-served_example :
    ((delivered decode (proto_request sent)).session_id_hash ≡ keys.session_id_hash)
    × ((delivered decode (proto_request sent)).request_id ≡ [])
    × (Engine.infer env (holding false) (at 1000000000) (delivered decode (proto_request sent))
        ≡ (as_status env result.0, result.1))
    × (result.0 ≢ err panicked)
    × (reply_of (relay.engine sent)
        ≡ relayed env
            (holding false)
            (at 1000000000)
            decode
            encode
            (lost (pos 30) (proto_request sent))
            result.0)
handle-served_example =
    handle-served env (holding false) (at 1000000000) decode encode lost engine sha256 sha256_laws
      utf8_laws body_is_prompt (pos 16) session_header named keys extracted
      (reply_of (relay.engine sent)) sent forwarded

-- A suspicious prompt: the client gets the perturbed response.
answered :
    reply_of (relay.engine sent)
    ≡ pass (record { response = codes "noisy"; tier = pos 2; request_id = [] })
unfolding reply_of Client.infer proto_request delivered returned hex_encode service
answered = refl
