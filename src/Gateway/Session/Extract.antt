-- ===== src/Gateway/Session/Extract.antt =====
-- gateway/internal/middleware/session.go, `SessionExtractor`: what goes on, and under which hash.
use vyse.Prelude.{
  ℕ, ◌/◌, ◌%◌, ◌≤◌, ◌<◌, ◌≡◌, ◌≢◌, ◌⊎◌, inl, inr, refl, true, [], ◌∷◌, ◌++◌, All, All-append, codes,
  length, take, length-take_le, arith, leb, is_empty, is_empty_iff, Bool-cases, Result-cases,
}
use vyse.Defence.Pipeline.{hex_digit, hex_encode}
use vyse.Defence.Pipeline.Replay.{IsByte}
use vyse.Defence.Pipeline.Steps.{length-hex_encode}
use vyse.Gateway.{Bytes, HttpRequest, pass, refuse}
use vyse.Gateway.Strings.{trim_space}
use vyse.Gateway.Session.{
  SessionKeys, validate_session_id, store_keys, anonymous_id, hash_session_id, session_extractor,
}
use vyse.Gateway.Session.Ids.{IsSessionIdChar, IsSessionId, chars→All, validate_session_id_iff}

-- The sum of SHA-256 has 32 bytes.
pub record Sha256Laws (sha256 : Bytes → Bytes) : Type 0 where
  pub sum_length : (id : Bytes) → length (sha256 id) ≡ 32
  pub sum_bytes : (id : Bytes) → All IsByte (sha256 id)

-- A lower-case hexadecimal digit.
abbrev pub IsHexDigit : ℕ → Type 0
IsHexDigit c = ((0x30 ≤ c) × (c ≤ 0x39)) ⊎ ((0x61 ≤ c) × (c ≤ 0x66))

hex_digit-IsHexDigit : (n : ℕ) → n < 16 → IsHexDigit (hex_digit n)
hex_digit-IsHexDigit n h = ground arith

hex_encode-IsHexDigit : (bs : Bytes) → All IsByte bs → All IsHexDigit (hex_encode bs)
unfolding hex_encode
hex_encode-IsHexDigit [] h = tt
hex_encode-IsHexDigit (b ∷ bs) (hb, h) = (
  hex_digit-IsHexDigit (b / 16) (omega arith),
  (hex_digit-IsHexDigit (b % 16) (omega arith), hex_encode-IsHexDigit bs h),
)

-- The hash as the engine and the logs get it.
abbrev pub IsHexHash : Bytes → Type 0
IsHexHash hash = (length hash ≡ 64) × All IsHexDigit hash

-- What the middleware may store for a request: the identifier of the header where that is valid, the
-- one made of the IP address where the header is blank, and the hash of it.
pub record IsIdentity (sha256 : Bytes → Bytes) (raw : Bytes) (req : HttpRequest)
    (keys : SessionKeys) : Type 0 where
  pub source :
      ((raw ≡ []) × (keys.session_id ≡ codes "anon:" ++ req.client_ip))
      ⊎ ((keys.session_id ≡ raw) × IsSessionId raw)
  pub hash : keys.session_id_hash ≡ hex_encode (sha256 keys.session_id)
  pub hex : IsHexHash keys.session_id_hash
  pub prefix : keys.log_session_hash ≡ take 12 keys.session_id_hash
  pub prefix_length : length keys.log_session_hash ≡ 12

module _ (sha256 : Bytes → Bytes) (laws : Sha256Laws sha256) where
  keys_of : Bytes → SessionKeys
  keys_of id = record {
    session_id = id;
    session_id_hash = hash_session_id sha256 id;
    log_session_hash = take 12 (hash_session_id sha256 id);
  }

  hash_session_id-IsHexHash : (id : Bytes) → IsHexHash (hash_session_id sha256 id)
  hash_session_id-IsHexHash id = (
    omega (arith, length-hex_encode (sha256 id) 32 (laws.sum_length id)),
    hex_encode-IsHexDigit (sha256 id) (laws.sum_bytes id),
  )

  store_keys-pass : (id : Bytes) → store_keys sha256 id ≡ pass (keys_of id)
  unfolding keys_of
  store_keys-pass id =
      let long = (hash_session_id-IsHexHash id).0 in
      let fits : leb 12 (length (hash_session_id sha256 id)) ≡ true = ground arith in rw fits

  keys_of-IsIdentity :
      (raw : Bytes) (req : HttpRequest) (id : Bytes)
      → ((raw ≡ []) × (id ≡ codes "anon:" ++ req.client_ip)) ⊎ ((id ≡ raw) × IsSessionId raw)
      → IsIdentity sha256 raw req (keys_of id)
  unfolding keys_of
  keys_of-IsIdentity raw req id from = record {
    source = from;
    hash = refl;
    hex = hash_session_id-IsHexHash id;
    prefix = refl;
    prefix_length =
        let long = (hash_session_id-IsHexHash id).0 in
        length-take_le 12 (hash_session_id sha256 id) (omega arith);
  }

  module _ (header_name : Bytes) (req : HttpRequest) where
    -- `SessionExtractor` never panics. It stores the identifier of the header or, where that is
    -- blank, the one made of the IP address, with a hash of 64 lower-case hexadecimal digits; or it
    -- answers 400, and only where the header is neither blank nor a valid session ID. (SHA-256 has
    -- sums of 32 bytes.)
    pub session_extractor-IsIdentity :
        ((keys : SessionKeys) × (session_extractor sha256 header_name req ≡ pass keys)
          × IsIdentity sha256 (trim_space (req.get_header header_name)) req keys)
        ⊎ ((session_extractor sha256 header_name req
              ≡ refuse 400
                  (codes "invalid session ID in " ++ header_name)
                  (codes "INVALID_SESSION_ID"))
            × (trim_space (req.get_header header_name) ≢ [])
            × ¬ IsSessionId (trim_space (req.get_header header_name)))
    unfolding session_extractor
    session_extractor-IsIdentity =
        let raw = trim_space (req.get_header header_name) in
        elim (Bool-cases (is_empty raw)) [
          | inl blank ↦ inl (
            keys_of (anonymous_id req.client_ip),
            rw (blank) (store_keys-pass (anonymous_id req.client_ip)),
            keys_of-IsIdentity raw req _ (inl ((is_empty_iff raw).0 blank, refl)),
          )
          | inr given ↦ elim (Result-cases (validate_session_id raw)) [
            | inl (_, valid) ↦ inl (
              keys_of raw,
              rw (given) (rw (valid) (store_keys-pass raw)),
              keys_of-IsIdentity raw req raw (inr (refl, (validate_session_id_iff raw).0 valid)),
            )
            | inr (e, bad) ↦ inr (
              rw (given) (rw (bad)),
              λ none. ground (arith, is_empty_iff raw),
              λ good. let same = (validate_session_id_iff raw).1 good in cc,
            )
          ]
        ]

anonymous_id-IsSessionId :
    (client_ip : Bytes)
    → length client_ip ≤ 251
    → All IsSessionIdChar client_ip
    → IsSessionId (anonymous_id client_ip)
anonymous_id-IsSessionId client_ip short chars = (
  λ e. cc,
  omega arith,
  All-append IsSessionIdChar (codes "anon:") client_ip (chars→All (codes "anon:") refl) chars,
)

-- A client may take on the session of the clients of any IP address that send no session ID: it
-- sends `anon:` and the address. (The address has at most 251 bytes, all of them allowed in a
-- session ID.)
pub session_extractor-impersonates :
    (sha256 : Bytes → Bytes) (header_name : Bytes) (req other : HttpRequest)
    → trim_space (req.get_header header_name) ≡ []
    → trim_space (other.get_header header_name) ≡ codes "anon:" ++ req.client_ip
    → length req.client_ip ≤ 251
    → All IsSessionIdChar req.client_ip
    → session_extractor sha256 header_name other ≡ session_extractor sha256 header_name req
unfolding session_extractor
session_extractor-impersonates sha256 header_name req other blank named short chars =
    let valid = anonymous_id-IsSessionId req.client_ip short chars in
    let accepted = (validate_session_id_iff (anonymous_id req.client_ip)).1 valid in
    rw (blank) (rw (named) (rw (accepted)))
