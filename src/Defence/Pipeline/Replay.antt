-- ===== src/Defence/Pipeline/Replay.antt =====
-- engine/src/defence/mod.rs, `run`: the seed in the audit log is enough to reproduce a response.
use vyse.Prelude.{
  ℕ, zero, suc, ◌<◌, ◌/◌, ◌%◌, ◌≡◌, refl, sym, ap, ◌∙◌, inl, inr, false, some, List, [], ◌∷◌, Text,
  length, take, All, ◌==◌, arith, Bool-cases, Option-cases, ltb,
}
use vyse.Prelude.Int.{ℤ}
use vyse.Float.{Float}
use vyse.Config.{DefenceConfig}
use vyse.Defence.Pipeline.{
  PipelineResult, Tools, hex_digit, hex_encode, from_le_bytes, first_8, derive_session_seed,
  apply_steps, run,
}

abbrev pub IsByte : ℕ → Type 0
IsByte b = b < 256

hex_digit_injective : (a b : ℕ) → a < 16 → b < 16 → hex_digit a ≡ hex_digit b → a ≡ b
hex_digit_injective a b h k e = ground arith

byte_injective :
    (a b : ℕ)
    → IsByte a
    → IsByte b
    → hex_digit (a / 16) ≡ hex_digit (b / 16)
    → hex_digit (a % 16) ≡ hex_digit (b % 16)
    → a ≡ b
byte_injective a b h k high low = omega (
  arith,
  hex_digit_injective (a / 16) (b / 16) (omega arith) (omega arith) high,
  hex_digit_injective (a % 16) (b % 16) (omega arith) (omega arith) low,
)

-- Bytes can be read back from their hexadecimal digits.
hex_encode_injective :
    (bs cs : List ℕ) → All IsByte bs → All IsByte cs → hex_encode bs ≡ hex_encode cs → bs ≡ cs
unfolding hex_encode
hex_encode_injective [] [] h k e = refl
hex_encode_injective [] (c ∷ cs) h k e = cc
hex_encode_injective (b ∷ bs) [] h k e = cc
hex_encode_injective (b ∷ bs) (c ∷ cs) (hb, h) (hc, k) e =
    let high : hex_digit (b / 16) ≡ hex_digit (c / 16) = cc in
    let low : hex_digit (b % 16) ≡ hex_digit (c % 16) = cc in
    let more : hex_encode bs ≡ hex_encode cs = cc in
    rw (byte_injective b c hb hc high low) (ap (◌∷◌ c) (hex_encode_injective bs cs h k more))

All-take : (n : ℕ) (bs : List ℕ) → All IsByte bs → All IsByte (take n bs)
All-take zero bs h = tt
All-take (suc n) [] h = tt
All-take (suc n) (b ∷ bs) (hb, h) = (hb, All-take n bs h)

first_8-IsByte : (bs out : List ℕ) → All IsByte bs → first_8 bs ≡ some out → All IsByte out
unfolding first_8
first_8-IsByte bs out h e = elim (Bool-cases (ltb (length bs) 8)) [
  | inl short ↦ absurd (ground arith)
  | inr long ↦ let same : take 8 bs ≡ out = ground arith in rw same at (All-take 8 bs h)
]

module _ {F G : Type 0} ⦃f : Float F⦄ (tools : Tools F G) where
  -- How a response was perturbed.
  record Perturbed (clean_response : Text) (tier : ℕ) (seed : List ℕ) (cfg : DefenceConfig F)
      (res : PipelineResult) : Type 0 where
    bytes : List ℕ
    cut : first_8 seed ≡ some bytes
    out : Text × List Text × G
    applied :
        apply_steps tools clean_response tier cfg (tools.seed_from_u64 (from_le_bytes bytes))
        ≡ some out
    served : res.served_response ≡ out.0
    steps : res.steps_applied ≡ out.1
    hex : res.noise_seed_hex ≡ hex_encode bytes

  run-Perturbed :
      (clean_response : Text) (tier : ℕ) (hash : Text) (start : ℤ) (cfg : DefenceConfig F)
      (res : PipelineResult)
      → (tier == 1) ≡ false
      → run tools clean_response tier hash start cfg ≡ some res
      → Perturbed clean_response tier (derive_session_seed tools hash start) cfg res
  unfolding run
  run-Perturbed clean_response tier hash start cfg res not_clean e =
      elim (Option-cases (first_8 (derive_session_seed tools hash start))) [
        | inl short ↦ absurd (ground arith)
        | inr (bytes, cut) ↦
            elim (Option-cases (
              apply_steps tools clean_response tier cfg
                (tools.seed_from_u64 (from_le_bytes bytes)))) [
                  | inl panic ↦ absurd (ground arith)
                  | inr (out, applied) ↦ record {
                    bytes = bytes;
                    cut = cut;
                    out = out;
                    applied = applied;
                    served = ground arith;
                    steps = ground arith;
                    hex = ground arith;
                  }
                ]
      ]

  -- Two runs on the same clean response, for the same tier and configuration, whose results carry the
  -- same seed have the same results: whoever the sessions were, the seed alone decides the served
  -- response and the steps. (HMAC-SHA256 gives bytes.)
  pub run-replay :
      ((key message : Text) → All IsByte (tools.hmac_sha256 key message))
      → (clean_response : Text) (tier : ℕ) (cfg : DefenceConfig F) (hash hash' : Text)
        (start start' : ℤ) (res res' : PipelineResult)
      → run tools clean_response tier hash start cfg ≡ some res
      → run tools clean_response tier hash' start' cfg ≡ some res'
      → res.noise_seed_hex ≡ res'.noise_seed_hex
      → res ≡ res'
  unfolding derive_session_seed
  run-replay bytes clean_response tier cfg hash hash' start start' res res' e e' same =
      elim (Bool-cases (tier == 1)) [
        | inl clean ↦ unfold run in ground arith
        | inr not_clean ↦
            let p = run-Perturbed clean_response tier hash start cfg res not_clean e in
            let q = run-Perturbed clean_response tier hash' start' cfg res' not_clean e' in
            let seeds : p.bytes ≡ q.bytes =
              hex_encode_injective p.bytes q.bytes
                (first_8-IsByte (tools.hmac_sha256 hash (tools.show_i64 start)) p.bytes
                  (bytes hash (tools.show_i64 start)) p.cut)
                (first_8-IsByte (tools.hmac_sha256 hash' (tools.show_i64 start')) q.bytes
                  (bytes hash' (tools.show_i64 start')) q.cut)
                (sym p.hex ∙ same ∙ q.hex) in
            let outs : p.out ≡ q.out = cc (p.applied, q.applied) in
            ground (arith, p.served, q.served, p.steps, q.steps)
      ]
