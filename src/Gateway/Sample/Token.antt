-- ===== src/Gateway/Sample/Token.antt =====
-- A token that spells out its secret and its claims, in the place of a signed one.
use vyse.Prelude.{
  ℕ, ◌*◌, ◌≡◌, refl, ap, ◌<◌, ◌≤◌, ltb, leb, ◌==◌, ◌&&◌, if◌then◌else◌, Bool, true, false, Option,
  none, some, [], ◌∷◌, ◌++◌, text_eq, text_eq_refl, length, take, drop, drop-append, Result, ok,
  err, ◌>>=◌, arith,
}
use vyse.Prelude.Int.{ℤ, pos, negsuc}
use vyse.Gateway.{Bytes}
use vyse.Gateway.Auth.{AdminClaims, Jwt, second}
use vyse.Gateway.Auth.Tokens.{JwtLaws}

-- A text with its length before it.
abbrev pub write : Bytes → Bytes → Bytes
write t rest = length t ∷ (t ++ rest)

abbrev pub write_date : ℤ → Bytes → Bytes
write_date (pos n) rest = 0 ∷ n ∷ rest
write_date (negsuc n) rest = 1 ∷ n ∷ rest

read : Bytes → Result (Unit {0}) (Bytes × Bytes)
read [] = err tt
read (n ∷ s) = ok (take n s, drop n s)

read_date : Bytes → Result (Unit {0}) (ℤ × Bytes)
read_date (n ∷ m ∷ s) = ok (if n == 0 then pos m else negsuc m, s)
read_date _ = err tt

take-append : (t rest : Bytes) → take (length t) (t ++ rest) ≡ t
take-append [] rest = refl
take-append (c ∷ t) rest = ap (◌∷◌ c) (take-append t rest)

read-write : (t rest : Bytes) → read (write t rest) ≡ ok (t, rest)
unfolding read
read-write t rest = rw (take-append t rest) (rw (drop-append t rest))

read_date-write_date : (d : ℤ) (rest : Bytes) → read_date (write_date d rest) ≡ ok (d, rest)
unfolding read_date
read_date-write_date (pos n) rest = refl
read_date-write_date (negsuc n) rest = refl

abbrev pub token : Bytes → AdminClaims → Bytes
token secret c = write secret (
    write c.issuer (
      write c.subject
        (write c.username (write c.role (write_date c.issued_at (write_date c.expires_at []))))))

pub parse : Bytes → Result (Unit {0}) (Bytes × AdminClaims)
parse s0 = do
  (secret, s1) ← read s0
  (issuer, s2) ← read s1
  (subject, s3) ← read s2
  (username, s4) ← read s3
  (role, s5) ← read s4
  (issued_at, s6) ← read_date s5
  (expires_at, s7) ← read_date s6
  ok (
    secret,
    record {
      issuer = issuer;
      subject = subject;
      issued_at = issued_at;
      expires_at = expires_at;
      username = username;
      role = role;
    },
  )

parse-token : (secret : Bytes) (c : AdminClaims) → parse (token secret c) ≡ ok (secret, c)
unfolding parse
parse-token secret c =
    let s7 = [] in
    let s6 = write_date c.expires_at s7 in
    let s5 = write_date c.issued_at s6 in
    let s4 = write c.role s5 in
    let s3 = write c.username s4 in
    let s2 = write c.subject s3 in
    let s1 = write c.issuer s2 in
    rw (read-write secret s1) (
      rw (read-write c.issuer s2) (
        rw (read-write c.subject s3) (
          rw (read-write c.username s4) (
            rw (read-write c.role s5) (
              rw (read_date-write_date c.issued_at s6)
                (rw (read_date-write_date c.expires_at s7)))))))

abbrev has_begun : ℤ → ℕ → Bool
has_begun (pos n) now = leb (n * second) now
has_begun (negsuc n) now = true

abbrev goes_on : ℤ → ℕ → Bool
goes_on (pos n) now = ltb now (n * second)
goes_on (negsuc n) now = false

pub accept : ℕ → Bytes → Result (Unit {0}) (Bytes × AdminClaims) → Option AdminClaims
accept now secret (err _) = none
accept now secret (ok (signed_with, c)) =
    if text_eq signed_with secret && (has_begun c.issued_at now && goes_on c.expires_at now)
    then some c
    else none

abbrev pub jwt : Jwt (Unit {0})
jwt = record {
  signed_string = λ secret c. ok (token secret c);
  parse_with_claims = λ now secret raw. accept now secret (parse raw);
}

module _ (secret : Bytes) (c : AdminClaims) (now : ℕ) where
  parse-accepted :
      (issued expires : ℕ)
      → c.issued_at ≡ pos issued
      → c.expires_at ≡ pos expires
      → issued * second ≤ now
      → now < expires * second
      → jwt.parse_with_claims now secret (token secret c) ≡ some c
  unfolding accept
  parse-accepted issued expires iat exp begun valid =
      let same = text_eq_refl secret in rw (parse-token secret c) (ground arith)

  parse-refused :
      (expires : ℕ)
      → c.expires_at ≡ pos expires
      → expires * second ≤ now
      → jwt.parse_with_claims now secret (token secret c) ≡ none
  unfolding accept
  parse-refused expires exp over = rw (parse-token secret c) (ground arith)

token_of :
    (secret raw : Bytes) (c : AdminClaims)
    → jwt.signed_string secret c ≡ ok raw
    → token secret c ≡ raw
token_of secret raw c signed = cc

pub jwt_laws : JwtLaws jwt
jwt_laws = record {
  nonempty = λ secret raw c signed. rw (← token_of secret raw c signed) (λ e. cc);
  parse-signed = λ secret raw c now issued expires signed iat exp begun valid.
      rw (← token_of secret raw c signed)
        (parse-accepted secret c now issued expires iat exp begun valid);
  parse-expired = λ secret raw c now expires signed exp over.
      rw (← token_of secret raw c signed) (parse-refused secret c now expires exp over);
}
