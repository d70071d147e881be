-- ===== src/Gateway/Sample.antt =====
-- Concrete functions in the places of the gateway's parameters: a padding for SHA-256, a bucket that
-- counts, and a body that is the prompt.
pub mod Token
pub mod Requests
use vyse.Prelude.{
  ℕ, zero, suc, ◌+◌, ◌-◌, ◌*◌, ◌%◌, ◌≡◌, refl, ap, inl, inr, ◌<◌, ◌≤◌, ltb, leb, ◌==◌, ◌&&◌,
  if◌then◌else◌, Bool, true, false, Option, none, some, List, [], ◌∷◌, ◌++◌, Text, codes, is_empty,
  is_empty_iff, text_eq, text_eq_refl, length, take, drop, drop-append, All, Result, ok, err, ◌>>=◌,
  arith, ◌≢◌, not, lt→ltb, le→ltb,
}
use vyse.Prelude.Int.{ℤ, pos, negsuc, pos_part}
use vyse.Defence.Pipeline.Replay.{IsByte}
use vyse.Words.Ascii.{IsAscii}
use vyse.Gateway.{Bytes}
use vyse.Gateway.Session.Extract.{Sha256Laws}
use vyse.Gateway.Infer.Relay.{Utf8Laws}
use vyse.Gateway.RateLimit.{Rate}
use vyse.Gateway.Auth.{AdminClaims, Jwt, second}
use vyse.Gateway.Auth.Tokens.{JwtLaws}

abbrev pad : ℕ → Bytes → Bytes
pad zero id = []
pad (suc n) [] = 0 ∷ pad n []
pad (suc n) (c ∷ id) = c % 256 ∷ pad n id

abbrev pub sha256 : Bytes → Bytes
sha256 = pad 32

length-pad : (n : ℕ) (id : Bytes) → length (pad n id) ≡ n
length-pad zero id = refl
length-pad (suc n) [] = ap suc (length-pad n [])
length-pad (suc n) (c ∷ id) = ap suc (length-pad n id)

pad-IsByte : (n : ℕ) (id : Bytes) → All IsByte (pad n id)
pad-IsByte zero id = tt
pad-IsByte (suc n) [] = (omega arith, pad-IsByte n [])
pad-IsByte (suc n) (c ∷ id) = (omega arith, pad-IsByte n id)

pub sha256_laws : Sha256Laws sha256
sha256_laws = record { sum_length = length-pad 32; sum_bytes = pad-IsByte 32 }

abbrev pub decode : Bytes → Text
decode s = s

abbrev pub encode : Text → Bytes
encode s = s

pub utf8_laws : Utf8Laws decode
utf8_laws = record { ascii = λ s h. refl; nonempty = λ s e. e }

abbrev pub body_is_prompt : Bytes → Option Bytes
body_is_prompt body = if is_empty body then none else some body

abbrev pub counting : Rate ℕ ℕ
counting = record {
  new_limiter = λ rps burst. pos_part burst;
  allow = λ now n. (not (n == 0), n - 1);
}
