-- ===== src/Gateway/Infer/Relay.antt =====
-- gateway/internal/handlers/infer.go and gateway/internal/grpc/client.go, with the engine behind them
-- (engine/src/grpc/service.rs): what the gateway forwards, as the engine takes it.
use vyse.Prelude.{
  ◌≤◌, ◌≡◌, ◌≢◌, inl, inr, refl, sym, ◌∙◌, true, false, Option, some, [], ◌∷◌, Text, All, is_empty,
  is_empty_iff, length, arith, err, min,
}
use vyse.Float.{Float}
use vyse.Words.{byte_len}
use vyse.Words.Ascii.{IsAscii, byte_len-IsAscii, can_slice-IsAscii}
use vyse.Service.{InferenceRequest, Env, Inputs, panicked, can_trace}
use vyse.Service.Infer as Engine
use vyse.Service.Infer.{as_status, handle_infer}
use vyse.Service.Infer.Panics.{handle_infer-never_panics}
use vyse.Gateway.{Bytes, HttpRequest, Outcome, pass}
use vyse.Gateway.Strings.{trim_left, trim_space}
use vyse.Gateway.Session.{SessionKeys, session_extractor}
use vyse.Gateway.Session.Extract.{Sha256Laws, IsHexDigit, IsHexHash, session_extractor-IsIdentity}
use vyse.Gateway.Client.{ProtoRequest, InferRequest, proto_request}
use vyse.Gateway.Infer.{InferHandler, InferResponse, handle}
use vyse.Gateway.Infer.Forwards.{Forwarded, handle-cases}

-- The strings of the protocol are UTF-8: ASCII is read as it stands, and nothing but the empty string
-- is read as empty.
pub record Utf8Laws (decode : Bytes → Text) : Type 0 where
  pub ascii : (s : Bytes) → All IsAscii s → decode s ≡ s
  pub nonempty : (s : Bytes) → decode s ≡ [] → s ≡ []

-- The message as the engine reads it; it does not read the other fields.
unfoldable pub delivered : (Bytes → Text) → ProtoRequest → InferenceRequest
delivered decode p = record {
  session_id_hash = decode p.session_id_hash;
  prompt = decode p.prompt;
  request_id = decode p.request_id;
}

hex-IsAscii : (hash : Bytes) → All IsHexDigit hash → All IsAscii hash
hex-IsAscii [] h = tt
hex-IsAscii (c ∷ hash) (hc, h) = (ground arith, hex-IsAscii hash h)

nonblank-nonempty : (prompt : Bytes) → trim_space prompt ≢ [] → prompt ≢ []
unfolding trim_space trim_left
nonblank-nonempty prompt h = λ e. h (rw e refl)

can_trace-IsAscii : (hash : Text) → All IsAscii hash → 8 ≤ length hash → can_trace hash ≡ true
unfolding can_trace
can_trace-IsAscii hash h long =
    let bytes = byte_len-IsAscii hash h in
    can_slice-IsAscii (min 8 (byte_len hash)) hash h (omega arith)

pass_injective : {A : Type 0} {a b : A} → pass a ≡ pass b → a ≡ b
pass_injective h = cc

module _ {F E R : Type 0} ⦃f : Float F⦄ (env : Env F E R) (r : R) (t : Inputs) where
  -- A hash of hexadecimal digits and a prompt pass the guards of the engine.
  infer-guards :
      (q : InferenceRequest)
      → All IsAscii q.session_id_hash
      → 8 ≤ length q.session_id_hash
      → q.prompt ≢ []
      → (Engine.infer env r t q
          ≡ (as_status env (handle_infer env r t q).0, (handle_infer env r t q).1))
        × ((handle_infer env r t q).0 ≢ err panicked)
  unfolding Engine.infer
  infer-guards q ascii long given =
      let traced = can_trace-IsAscii q.session_id_hash ascii long in
      let sliced = can_slice-IsAscii 8 q.session_id_hash ascii long in
      let hashed : is_empty q.session_id_hash ≡ false =
        ground (arith, is_empty_iff q.session_id_hash) in
      let prompted : is_empty q.prompt ≡ false = ground (arith, is_empty_iff q.prompt) in
      (rw (traced) (rw (hashed) (rw (prompted))), handle_infer-never_panics env r t q sliced)

  module _ {G E' : Type 0} (sha256 : Bytes → Bytes) (sha : Sha256Laws sha256)
      (decode : Bytes → Text) (utf8 : Utf8Laws decode) (should_bind_json : Bytes → Option Bytes)
      (h : InferHandler G E') (header_name : Bytes) (req : HttpRequest) (keys : SessionKeys)
      (extracted : session_extractor sha256 header_name req ≡ pass keys) where
    keys-IsHexHash : IsHexHash keys.session_id_hash
    keys-IsHexHash = elim (session_extractor-IsIdentity sha256 sha header_name req) [
      | inl (found, same, identity) ↦
          let e : found ≡ keys = pass_injective (sym same ∙ extracted) in rw e at identity.hex
      | inr (refused, _, _) ↦ absurd (let k = sym refused ∙ extracted in cc)
    ]

    Forwarded-infer :
        (e : InferRequest)
        → Forwarded should_bind_json h (some keys) req e
        → ((delivered decode (proto_request e)).session_id_hash ≡ keys.session_id_hash)
          × (Engine.infer env r t (delivered decode (proto_request e)) ≡ (
            as_status env (handle_infer env r t (delivered decode (proto_request e))).0,
            (handle_infer env r t (delivered decode (proto_request e))).1,
          ))
          × ((handle_infer env r t (delivered decode (proto_request e))).0 ≢ err panicked)
    unfolding delivered proto_request
    Forwarded-infer e sent =
        let digits = hex-IsAscii keys.session_id_hash keys-IsHexHash.1 in
        let same : decode e.session_id_hash ≡ keys.session_id_hash =
          rw (sent.session_id_hash) (utf8.ascii keys.session_id_hash digits) in
        let (passed, calm) =
          infer-guards (delivered decode (proto_request e)) (rw (same) digits)
            (rw (same) (omega (arith, keys-IsHexHash.0)))
            (λ empty.
              nonblank-nonempty e.prompt sent.prompt.nonblank (utf8.nonempty e.prompt empty)) in
        (same, passed, calm)

    -- A request that went through `SessionExtractor` and that `Handle` forwards passes the guards of
    -- the engine, whatever the client sent: the engine gets the hash of the session unchanged, goes
    -- on to `handle_infer`, and does not panic on the hash. (SHA-256 has sums of 32 bytes, and the
    -- strings of the protocol are UTF-8.)
    pub handle-infer :
        (answer : Outcome InferResponse) (e : InferRequest)
        → handle should_bind_json h (some keys) req ≡ (answer, some e)
        → ((delivered decode (proto_request e)).session_id_hash ≡ keys.session_id_hash)
          × (Engine.infer env r t (delivered decode (proto_request e)) ≡ (
            as_status env (handle_infer env r t (delivered decode (proto_request e))).0,
            (handle_infer env r t (delivered decode (proto_request e))).1,
          ))
          × ((handle_infer env r t (delivered decode (proto_request e))).0 ≢ err panicked)
    handle-infer answer e forwarded = elim (handle-cases should_bind_json h (some keys) req) [
      | inr (a, refused, _) ↦ absurd (let k = sym refused ∙ forwarded in cc)
      | inl (e', sent, f') ↦
          let k = sym sent ∙ forwarded in
          let same : e' ≡ e = cc in rw same at (Forwarded-infer e' f')
    ]
