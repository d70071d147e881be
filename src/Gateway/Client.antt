-- ===== src/Gateway/Client.antt =====
-- gateway/internal/grpc/client.go: the client of the engine. The call over gRPC is a parameter.
use vyse.Prelude.{[], ◌++◌, codes, is_empty, if◌then◌else◌, Result, ok, err}
use vyse.Prelude.Int.{ℤ}
use vyse.Gateway.{Bytes}
use vyse.Gateway.Config.{EngineConfig}

pub record InferRequest : Type 0 where
  pub session_id_hash : Bytes
  pub prompt : Bytes
  pub client_ip : Bytes

pub record InferResponse (F : Type 0) : Type 0 where
  pub response : Bytes
  pub tier : ℤ
  pub hybrid_score : F
  pub duration_mins : F
  pub request_id : Bytes

-- The messages of the protocol (`vypb`); a field that is not set is empty.
pub record ProtoRequest : Type 0 where
  pub session_id_hash : Bytes
  pub prompt : Bytes
  pub client_ip_hash : Bytes
  pub request_id : Bytes
  pub gateway_version : Bytes

pub record ProtoResponse (F : Type 0) : Type 0 where
  pub response : Bytes
  pub tier : ℤ
  pub hybrid_score : F
  pub duration_mins : F
  pub request_id : Bytes

unfoldable pub hash_for_proto : Bytes → Bytes
hash_for_proto value = if is_empty value then [] else codes "hashed:" ++ value

unfoldable pub proto_request : InferRequest → ProtoRequest
unfolding hash_for_proto
proto_request req = record {
  session_id_hash = req.session_id_hash;
  prompt = req.prompt;
  client_ip_hash = hash_for_proto req.client_ip;
  request_id = [];
  gateway_version = [];
}

-- `Infer`, for a configuration and a call with a deadline
unfoldable pub infer :
    {F E : Type 0}
    → (ℤ → ProtoRequest → Result E (ProtoResponse F))
    → EngineConfig
    → InferRequest
    → Result E (InferResponse F)
unfolding proto_request
infer call cfg req = elim (call cfg.request_timeout (proto_request req)) [
  | ok resp ↦ ok (record {
    response = resp.response;
    tier = resp.tier;
    hybrid_score = resp.hybrid_score;
    duration_mins = resp.duration_mins;
    request_id = resp.request_id;
  })
  | err e ↦ err e
]

-- Where `NewEngineClient` fails; `E` is an error of the dial.
pub data ClientError (E : Type 0) : Type 0 where
  tls_not_implemented : ClientError E
  dialing : E → ClientError E

-- The client of a connection, which the dial makes from address and timeout.
unfoldable pub new_engine_client :
    {E C : Type 0} → (Bytes → ℤ → Result E C) → EngineConfig → Result (ClientError E) C
new_engine_client dial cfg =
    if cfg.use_tls
    then err tls_not_implemented
    else (elim (dial cfg.address cfg.dial_timeout) [ ok conn ↦ ok conn | err e ↦ err (dialing e) ])
