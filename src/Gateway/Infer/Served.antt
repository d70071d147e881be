-- ===== src/Gateway/Infer/Served.antt =====
-- gateway/internal/handlers/infer.go and gateway/internal/grpc/client.go, with the engine behind them
-- (engine/src/grpc/service.rs): what a client of the gateway gets of the engine's result.
use vyse.Prelude.{
  ◌≡◌, ◌≢◌, refl, ◌∙◌, ap, inl, inr, Option, none, some, Option-cases, [], Text, codes, Result, ok,
  err,
}
use vyse.Prelude.Int.{ℤ}
use vyse.Float.{Float}
use vyse.Service.{InferenceResponse, Env, Inputs, Status, Failure, failed, panicked}
use vyse.Service.Infer as Engine
use vyse.Service.Infer.{as_status, handle_infer}
use vyse.Gateway.{Bytes, HttpRequest, Outcome, pass, refuse}
use vyse.Gateway.Config.{EngineConfig}
use vyse.Gateway.Session.{SessionKeys, session_extractor}
use vyse.Gateway.Session.Extract.{Sha256Laws}
use vyse.Gateway.Client as Client
use vyse.Gateway.Client.{ProtoRequest, ProtoResponse, InferRequest, proto_request}
use vyse.Gateway.Infer.{InferHandler, InferResponse, reply_of, handle}
use vyse.Gateway.Infer.Forwards.{handle-reply}
use vyse.Gateway.Infer.Relay.{Utf8Laws, delivered, handle-infer}

-- Why a call fails: it does not come through in time, or the engine ends it.
pub data CallError (T E : Type 0) : Type 0 where
  transport : T → CallError T E
  ended : Failure (Status E) → CallError T E

module _ {F E R : Type 0} ⦃f : Float F⦄ (env : Env F E R) (r : R) (t : Inputs)
    (decode : Bytes → Text) (encode : Text → Bytes) where
  -- The result on its way back. The score breakdown is not read.
  unfoldable pub returned :
      Result (Failure (Status E)) (InferenceResponse F)
      → Result (Failure (Status E)) (ProtoResponse F)
  returned (err e) = err e
  returned (ok resp) = ok (record {
    response = encode resp.response;
    tier = resp.tier;
    hybrid_score = resp.hybrid_score;
    duration_mins = resp.duration_mins;
    request_id = encode resp.request_id;
  })

  -- What the client of the gateway is answered for a result of `handle_infer`.
  abbrev pub served : Result (Failure E) (InferenceResponse F) → Outcome InferResponse
  served (ok resp) = pass (record {
    response = encode resp.response;
    tier = resp.tier;
    request_id = encode resp.request_id;
  })
  served (err e) = refuse 503 (codes "inference service unavailable") (codes "ENGINE_UNAVAILABLE")

  -- And for the error of a call that does not come through.
  abbrev pub relayed :
      {T : Type 0} → Option T → Result (Failure E) (InferenceResponse F) → Outcome InferResponse
  relayed none result = served result
  relayed (some e) result =
      refuse 503 (codes "inference service unavailable") (codes "ENGINE_UNAVAILABLE")

  module _ {T : Type 0} (lost : ℤ → ProtoRequest → Option T) (cfg : EngineConfig) where
    -- The call over gRPC, with the engine at its other end. `lost` is the error of a call that does
    -- not come through within its deadline, or whose connection fails, if this one does.
    abbrev pub call_engine : ℤ → ProtoRequest → Result (CallError T E) (ProtoResponse F)
    call_engine timeout p = elim (lost timeout p) [
      | some e ↦ err (transport e)
      | none ↦ elim (returned (Engine.infer env r t (delivered decode p)).0) [
        | ok resp ↦ ok resp
        | err e ↦ err (ended e)
      ]
    ]

    -- A handler with the client of the engine.
    abbrev pub relay_handler : ℤ → InferHandler F (CallError T E)
    relay_handler max_prompt = record {
      engine = Client.infer call_engine cfg;
      max_prompt = max_prompt;
    }

    through-reply_of :
        (req : InferRequest) (result : Result (Failure E) (InferenceResponse F))
        → lost cfg.request_timeout (proto_request req) ≡ none
        → returned (Engine.infer env r t (delivered decode (proto_request req))).0
          ≡ returned (as_status env result)
        → reply_of (Client.infer call_engine cfg req) ≡ served result
    unfolding reply_of Client.infer returned
    through-reply_of req (ok resp) fine came = rw (fine, came, reply_of, Client.infer) refl
    through-reply_of req (err (failed e)) fine came = rw (fine, came, reply_of, Client.infer) refl
    through-reply_of req (err panicked) fine came = rw (fine, came, reply_of, Client.infer) refl

    reply_of-infer :
        (req : InferRequest) (result : Result (Failure E) (InferenceResponse F))
        → returned (Engine.infer env r t (delivered decode (proto_request req))).0
          ≡ returned (as_status env result)
        → reply_of (Client.infer call_engine cfg req)
          ≡ relayed (lost cfg.request_timeout (proto_request req)) result
    unfolding reply_of Client.infer
    reply_of-infer req result came =
        elim (Option-cases (lost cfg.request_timeout (proto_request req))) [
          | inr (e, gone) ↦ rw (gone, reply_of, Client.infer) refl
          | inl fine ↦ rw (through-reply_of req result fine came, fine) refl
        ]

    module _ (sha256 : Bytes → Bytes) (sha : Sha256Laws sha256) (utf8 : Utf8Laws decode)
        (should_bind_json : Bytes → Option Bytes) (max_prompt : ℤ) (header_name : Bytes)
        (req : HttpRequest) (keys : SessionKeys)
        (extracted : session_extractor sha256 header_name req ≡ pass keys) where
      -- A request that went through `SessionExtractor` and that `Handle` forwards passes the guards
      -- of the engine, whatever the client sent: the engine gets the hash of the session unchanged
      -- and no request ID, goes on to `handle_infer`, and does not panic on the hash. If the call
      -- comes through within the deadline of the configuration and `handle_infer` answers, the
      -- client is answered 200 with that response and tier; it is answered 503 if the call is lost
      -- or `handle_infer` fails. (SHA-256 has sums of 32 bytes, and the strings of the protocol are
      -- UTF-8.)
      pub handle-served :
          (answer : Outcome InferResponse) (e : InferRequest)
          → handle should_bind_json (relay_handler max_prompt) (some keys) req ≡ (answer, some e)
          → ((delivered decode (proto_request e)).session_id_hash ≡ keys.session_id_hash)
            × ((delivered decode (proto_request e)).request_id ≡ [])
            × (Engine.infer env r t (delivered decode (proto_request e)) ≡ (
              as_status env (handle_infer env r t (delivered decode (proto_request e))).0,
              (handle_infer env r t (delivered decode (proto_request e))).1,
            ))
            × ((handle_infer env r t (delivered decode (proto_request e))).0 ≢ err panicked)
            × (answer
                ≡ relayed
                    (lost cfg.request_timeout (proto_request e))
                    (handle_infer env r t (delivered decode (proto_request e))).0)
      unfolding delivered proto_request
      handle-served answer e forwarded =
          let (hash, passed, calm) =
            handle-infer env r t sha256 sha decode utf8 should_bind_json (relay_handler max_prompt)
              header_name req keys extracted answer e forwarded in
          let unidentified : decode [] ≡ [] = utf8.ascii [] tt in
          let came = ap (λ x. returned x.0) passed in
          let replied =
            reply_of-infer e (handle_infer env r t (delivered decode (proto_request e))).0 came in
          (
            hash,
            unidentified,
            passed,
            calm,
            handle-reply should_bind_json (relay_handler max_prompt) (some keys) req answer e
                  forwarded
                ∙ replied,
          )
