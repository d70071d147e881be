-- ===== src/Gateway/Config/Validation.antt =====
-- gateway/internal/config/config.go, `validate` and `Load`: what an accepted configuration satisfies.
use vyse.Prelude.{
  ◌≤◌, ◌≡◌, ◌≢◌, ◌↔◌, ◌⊎◌, inl, inr, refl, ap, false, none, some, List, [], length, ok, err, Result,
  Bool, true, Option, is_empty_iff, arith, Option-cases, Bool-cases,
}
use vyse.Prelude.Int.{pos, leb_ℤ}
use vyse.Float.{Float, zero_f}
use vyse.Gateway.{Bytes}
use vyse.Gateway.Config.{
  Config, Value, defaults, validation_errors, validate, checked, unmarshalled, load, reading,
}

-- What `validate` promises of a configuration.
pub record IsValid {F : Type 0} ⦃f : Float F⦄ (c : Config F) : Type 0 where
  pub jwt_secret : 32 ≤ length c.auth.jwt_secret
  pub admin_password : c.auth.admin_password ≢ []
  pub api_key : 32 ≤ length c.auth.api_key
  pub address : c.engine.address ≢ []
  pub requests_per_second : f.le c.limits.requests_per_second zero_f ≡ false
  pub burst : leb_ℤ c.limits.burst (pos 0) ≡ false
  pub max_prompt_bytes : leb_ℤ c.limits.max_prompt_bytes (pos 0) ≡ false

module _ {F : Type 0} ⦃f : Float F⦄ (c : Config F) where
  validate→IsValid : validate c ≡ none → IsValid c
  unfolding validate validation_errors
  validate→IsValid h =
      ground (arith, is_empty_iff c.auth.admin_password, is_empty_iff c.engine.address)

  IsValid→validate : IsValid c → validate c ≡ none
  unfolding validate validation_errors
  IsValid→validate v = ground (
    arith,
    is_empty_iff c.auth.jwt_secret,
    is_empty_iff c.auth.api_key,
    is_empty_iff c.auth.admin_password,
    is_empty_iff c.engine.address,
  )

  -- `validate` accepts exactly the configurations that satisfy all seven conditions.
  pub validate-eq-none_iff : (validate c ≡ none) ↔ IsValid c
  validate-eq-none_iff = (validate→IsValid, IsValid→validate)

module _ {F E : Type 0} ⦃f : Float F⦄ (is_not_found : E → Bool)
    (unmarshal : List (Bytes × Value F) → Result E (Config F)) (cfg : Config F) where
  -- The configuration file was read, or is missing.
  abbrev pub WasRead : Option E → Type 0
  WasRead read_error =
      (read_error ≡ none) ⊎ ((e : E) × (read_error ≡ some e) × (is_not_found e ≡ true))

  checked→ : (c : Config F) → checked is_not_found unmarshal c ≡ ok cfg → (c ≡ cfg) × IsValid c
  checked→ c h = elim (Option-cases (validate c)) [
    | inl valid ↦ (ground arith, (validate-eq-none_iff c).0 valid)
    | inr (message, bad) ↦ absurd (ground arith)
  ]

  unmarshalled→ :
      (r : Result E (Config F))
      → unmarshalled is_not_found unmarshal r ≡ ok cfg
      → (r ≡ ok cfg) × IsValid cfg
  unmarshalled→ (err e) h = cc
  unmarshalled→ (ok c) h = let (same, valid) = checked→ c h in (ap ok same, rw same at valid)

  →unmarshalled :
      (r : Result E (Config F))
      → (r ≡ ok cfg) × IsValid cfg
      → unmarshalled is_not_found unmarshal r ≡ ok cfg
  →unmarshalled r (e, valid) =
      let accepted = (validate-eq-none_iff cfg).1 valid in rw (e) (ground arith)

  load→ :
      (read_error : Option E)
      → load is_not_found unmarshal read_error ≡ ok cfg
      → WasRead read_error × (unmarshal defaults ≡ ok cfg) × IsValid cfg
  unfolding load
  load→ none h = let (read, valid) = unmarshalled→ (unmarshal defaults) h in (inl refl, read, valid)
  load→ (some e) h = elim (Bool-cases (is_not_found e)) [
    | inl missing ↦
        let (read, valid) = unmarshalled→ (unmarshal defaults) (rw missing at h) in
        (inr (e, refl, missing), read, valid)
    | inr other ↦ absurd (let k : err (reading e) ≡ ok cfg = rw other at h in cc)
  ]

  →load :
      (read_error : Option E)
      → WasRead read_error × (unmarshal defaults ≡ ok cfg) × IsValid cfg
      → load is_not_found unmarshal read_error ≡ ok cfg
  unfolding load
  →load none (_, read, valid) = →unmarshalled (unmarshal defaults) (read, valid)
  →load (some e) (inl same, read, valid) = cc
  →load (some e) (inr (x, same, missing), read, valid) =
      let found : is_not_found e ≡ true = ground arith in
      rw (found) (→unmarshalled (unmarshal defaults) (read, valid))

  -- `Load` returns a configuration exactly when the file was read or is missing, the merge of
  -- defaults, file and environment decodes to that configuration, and it satisfies the conditions
  -- of `validate`: both secrets of 32 bytes or more, a password, an address, a positive burst and
  -- prompt size, and a rate that is not at most 0.
  pub load-eq-ok_iff :
      (read_error : Option E)
      → (load is_not_found unmarshal read_error ≡ ok cfg)
        ↔ (WasRead read_error × (unmarshal defaults ≡ ok cfg) × IsValid cfg)
  load-eq-ok_iff read_error = (load→ read_error, →load read_error)
