-- ===== src/Gateway/Auth/Keys.antt =====
-- gateway/internal/middleware/auth.go, `APIKeyAuth`: who passes.
use vyse.Prelude.{
  ◌≤◌, ◌≡◌, ◌≢◌, ◌↔◌, ◌⊎◌, inl, inr, sym, ◌∙◌, false, [], ◌∷◌, codes, is_empty, is_empty_iff,
  text_eq, text_eq_iff, Bool-cases, length, arith,
}
use vyse.Float.{Float}
use vyse.Gateway.{Bytes, HttpRequest, pass, refuse}
use vyse.Gateway.Config.{Config}
use vyse.Gateway.Config.Validation.{IsValid}
use vyse.Gateway.Auth.{api_key_auth}

long_nonempty : (key : Bytes) → 32 ≤ length key → key ≢ []
long_nonempty [] h = absurd (omega arith)
long_nonempty (c ∷ key) h = λ e. cc

module _ (header_name expected_key : Bytes) (req : HttpRequest) where
  passes→ :
      api_key_auth header_name expected_key req ≡ pass tt
      → (req.get_header header_name ≢ []) × (req.get_header header_name ≡ expected_key)
  unfolding api_key_auth
  passes→ h = ground (
    arith,
    is_empty_iff (req.get_header header_name),
    text_eq_iff (req.get_header header_name) expected_key,
  )

  →passes :
      (req.get_header header_name ≢ []) × (req.get_header header_name ≡ expected_key)
      → api_key_auth header_name expected_key req ≡ pass tt
  unfolding api_key_auth
  →passes (given, same) = ground (
    arith,
    is_empty_iff (req.get_header header_name),
    text_eq_iff (req.get_header header_name) expected_key,
  )

  refused :
      req.get_header header_name ≢ expected_key
      → (msg : Bytes) × (api_key_auth header_name expected_key req
          ≡ refuse 401 msg (codes "UNAUTHORIZED"))
  unfolding api_key_auth
  refused other = elim (Bool-cases (is_empty (req.get_header header_name))) [
    | inl missing ↦ (codes "missing API key", rw missing)
    | inr given ↦
        let wrong : text_eq (req.get_header header_name) expected_key ≡ false =
          ground (arith, text_eq_iff (req.get_header header_name) expected_key) in
        (codes "invalid API key", rw (given) (rw (wrong)))
  ]

-- Under a configuration that `validate` accepts, `APIKeyAuth` lets a request pass exactly when its
-- header is the configured key: a missing header never passes. Any other header is answered 401.
pub api_key_auth-IsValid :
    {F : Type 0} ⦃f : Float F⦄ (c : Config F) (req : HttpRequest)
    → IsValid c
    → ((api_key_auth c.auth.api_key_header c.auth.api_key req ≡ pass tt)
        ↔ (req.get_header c.auth.api_key_header ≡ c.auth.api_key))
      × ((req.get_header c.auth.api_key_header ≡ c.auth.api_key)
          ⊎ ((msg : Bytes) × (api_key_auth c.auth.api_key_header c.auth.api_key req
                ≡ refuse 401 msg (codes "UNAUTHORIZED"))))
api_key_auth-IsValid c req valid =
    let header = req.get_header c.auth.api_key_header in
    let long = valid.api_key in
    (
      (
        λ h. (passes→ c.auth.api_key_header c.auth.api_key req h).1,
        λ same.
            →passes c.auth.api_key_header c.auth.api_key req
              (λ missing. long_nonempty c.auth.api_key long (sym same ∙ missing), same),
      ),
      elim (Bool-cases (text_eq header c.auth.api_key)) [
        | inl same ↦ inl ((text_eq_iff header c.auth.api_key).0 same)
        | inr other ↦ inr (
            refused c.auth.api_key_header c.auth.api_key req
              (λ same. ground (arith, text_eq_iff header c.auth.api_key)))
      ],
    )
