-- ===== src/Gateway/Infer/Forwards.antt =====
-- gateway/internal/handlers/infer.go, `Handle`: which requests reach the engine, and what the others
-- are answered.
use vyse.Prelude.{
  ◌≤◌, ◌≡◌, ◌≢◌, ◌⊎◌, inl, inr, refl, sym, ◌∙◌, false, Option, none, some, [], codes, is_empty,
  is_empty_iff, length, leb, leb→le, arith, Bool-cases, Option-cases,
}
use vyse.Prelude.Int.{pos, ltb_ℤ, ◌≤ℤ◌}
use vyse.Gateway.{Bytes, HttpRequest, Outcome, refuse, crash}
use vyse.Gateway.Strings.{trim_space}
use vyse.Gateway.Session.{SessionKeys, get_session_id_hash}
use vyse.Gateway.Client.{InferRequest}
use vyse.Gateway.Infer.{InferHandler, InferResponse, reply_of, engine_request, handle}

module _ {F E : Type 0} (should_bind_json : Bytes → Option Bytes) (h : InferHandler F E)
    (keys : Option SessionKeys) (req : HttpRequest) where
  -- The body holds this prompt, which is not longer than allowed and not blank.
  pub record IsPrompt (prompt : Bytes) : Type 0 where
    pub bound : should_bind_json req.body ≡ some prompt
    pub short : pos (length prompt) ≤ℤ h.max_prompt
    pub nonblank : trim_space prompt ≢ []

  -- The one answer of a request that is not forwarded.
  pub data Refused : Outcome InferResponse → Type 0 where
    no_session :
        get_session_id_hash keys ≡ []
        → Refused (refuse 500 (codes "internal configuration error") (codes "INTERNAL"))
    no_prompt :
        should_bind_json req.body ≡ none
        → Refused (
            refuse 400
              (codes "request body must be valid JSON with a non-empty 'prompt' field")
              (codes "BAD_REQUEST"))
    too_large :
        (prompt : Bytes)
        → should_bind_json req.body ≡ some prompt
        → ¬ (pos (length prompt) ≤ℤ h.max_prompt)
        → Refused
            (refuse 413 (codes "prompt exceeds maximum allowed size") (codes "PROMPT_TOO_LARGE"))
    blank :
        (prompt : Bytes)
        → should_bind_json req.body ≡ some prompt
        → trim_space prompt ≡ []
        → Refused
            (refuse 400 (codes "prompt must not be empty or whitespace") (codes "BAD_REQUEST"))
    short_hash : ¬ (12 ≤ length (get_session_id_hash keys)) → Refused crash

  -- What a forwarded request satisfies.
  pub record Forwarded (e : InferRequest) : Type 0 where
    pub session_id_hash : e.session_id_hash ≡ get_session_id_hash keys
    pub long : 12 ≤ length e.session_id_hash
    pub prompt : IsPrompt e.prompt
    pub client_ip : e.client_ip ≡ req.client_ip

  -- The last step, after the checks.
  forward-cases :
      (prompt : Bytes)
      → is_empty (get_session_id_hash keys) ≡ false
      → should_bind_json req.body ≡ some prompt
      → ltb_ℤ h.max_prompt (pos (length prompt)) ≡ false
      → is_empty (trim_space prompt) ≡ false
      → ((e : InferRequest) × (handle should_bind_json h keys req ≡ (reply_of (h.engine e), some e))
          × Forwarded e)
        ⊎ ((handle should_bind_json h keys req ≡ (crash, none)) × Refused crash)
  unfolding handle
  forward-cases prompt given bound short full =
      elim (Bool-cases (leb 12 (length (get_session_id_hash keys)))) [
        | inl long ↦ inl (
          engine_request should_bind_json h (get_session_id_hash keys) req prompt,
          rw (given) (rw (bound) (rw (short) (rw (full) (rw (long))))),
          record {
            session_id_hash = refl;
            long = leb→le 12 (length (get_session_id_hash keys)) long;
            prompt = record {
              bound = bound;
              short = ground arith;
              nonblank = λ e. ground (arith, is_empty_iff (trim_space prompt));
            };
            client_ip = refl;
          },
        )
        | inr cut ↦ inr (
          rw (given) (rw (bound) (rw (short) (rw (full) (rw (cut))))),
          short_hash (λ long. ground arith),
        )
      ]

  -- A request is forwarded to the engine once, with the hash of the session, the prompt of the body
  -- and the IP address, and answered by what the engine returns; or it is not forwarded, and the
  -- answer has a reason that holds: 500 without a session, 413 for a prompt that is too long, 400
  -- for a body without a prompt or a blank prompt, and a panic for a hash of fewer than 12 bytes.
  -- What is forwarded has a hash and a prompt for which none of the reasons holds.
  pub handle-cases :
      ((e : InferRequest) × (handle should_bind_json h keys req ≡ (reply_of (h.engine e), some e))
        × Forwarded e)
      ⊎ ((answer : Outcome InferResponse) × (handle should_bind_json h keys req ≡ (answer, none))
          × Refused answer)
  unfolding handle
  handle-cases = elim (Bool-cases (is_empty (get_session_id_hash keys))) [
    | inl missing ↦
        inr (_, rw missing, no_session ((is_empty_iff (get_session_id_hash keys)).0 missing))
    | inr given ↦ elim (Option-cases (should_bind_json req.body)) [
      | inl unbound ↦ inr (_, rw (given) (rw (unbound)), no_prompt unbound)
      | inr (prompt, bound) ↦ elim (Bool-cases (ltb_ℤ h.max_prompt (pos (length prompt)))) [
        | inl long ↦
            inr (
              _,
              rw (given) (rw (bound) (rw (long))),
              too_large prompt bound (λ short. ground arith),
            )
        | inr short ↦ elim (Bool-cases (is_empty (trim_space prompt))) [
          | inl empty ↦ inr (
            _,
            rw (given) (rw (bound) (rw (short) (rw (empty)))),
            blank prompt bound ((is_empty_iff (trim_space prompt)).0 empty),
          )
          | inr full ↦ elim (forward-cases prompt given bound short full) [
            | inl sent ↦ inl sent
            | inr (crashed, why) ↦ inr (crash, crashed, why)
          ]
        ]
      ]
    ]
  ]

  pub handle-reply :
      (answer : Outcome InferResponse) (e : InferRequest)
      → handle should_bind_json h keys req ≡ (answer, some e)
      → answer ≡ reply_of (h.engine e)
  handle-reply answer e forwarded = elim handle-cases [
    | inr (a, refused, _) ↦ absurd (let k = sym refused ∙ forwarded in cc)
    | inl (e', sent, _) ↦
        let k = sym sent ∙ forwarded in
        let same : e' ≡ e = cc in
        let reply : reply_of (h.engine e') ≡ answer = cc in rw same at (sym reply)
  ]
