-- ===== src/Gateway/Session.antt =====
-- gateway/internal/middleware/session.go: the identity of a session. It comes from a header of the
-- client, or else from its IP address, and only its hash goes on to the engine.
pub mod Ids
pub mod Extract
use vyse.Prelude.{
  ℕ, leb, ltb, ◌==◌, ◌&&◌, ◌||◌, not, if◌then◌else◌, Bool, true, false, Option, none, some, List,
  [], ◌∷◌, ◌++◌, codes, is_empty, length, take, Result, ok, err,
}
use vyse.Defence.Pipeline.{hex_encode}
use vyse.Gateway.{Bytes, HttpRequest, Outcome, pass, refuse, crash}
use vyse.Gateway.Strings.{within, valid_string, contains_any, trim_space}

abbrev pub max_session_id_bytes : ℕ
max_session_id_bytes = 256

-- `[a-zA-Z0-9\-_.@:]`
abbrev pub is_session_id_char : ℕ → Bool
is_session_id_char c =
    within 0x61 0x7A c
    || (within 0x41 0x5A c
        || (within 0x30 0x39 c
            || (c == 0x2D || (c == 0x5F || (c == 0x2E || (c == 0x40 || c == 0x3A))))))

abbrev pub all_chars : Bytes → Bool
all_chars [] = true
all_chars (c ∷ id) = is_session_id_char c && all_chars id

-- `sessionIDPattern.MatchString(id)`: the pattern is anchored at both ends and ends in `+`.
abbrev pub session_id_pattern : Bytes → Bool
session_id_pattern id = not (is_empty id) && all_chars id

-- The formats of the errors, which `errorf` does not fill in.
unfoldable pub validate_session_id : Bytes → Result Bytes (Unit {0})
validate_session_id id =
    if not (valid_string id)
    then err (codes "session ID is not valid UTF-8")
    else if ltb max_session_id_bytes (length id)
    then err (codes "session ID exceeds %d bytes")
    else if contains_any id (0x00 ∷ 0x0D ∷ 0x0A ∷ [])
    then err (codes "session ID contains disallowed control characters")
    else if not (session_id_pattern id)
    then err (codes "session ID contains disallowed characters (allowed: a-z A-Z 0-9 - _ . @ :)")
    else ok tt

-- What the middleware stores in the context of the request.
pub record SessionKeys : Type 0 where
  pub session_id : Bytes
  pub session_id_hash : Bytes
  pub log_session_hash : Bytes

-- `c.GetString(GinKeySessionIDHash)`, which is empty where the middleware was not applied
abbrev pub get_session_id_hash : Option SessionKeys → Bytes
get_session_id_hash none = []
get_session_id_hash (some keys) = keys.session_id_hash

abbrev pub anonymous_id : Bytes → Bytes
anonymous_id client_ip = codes "anon:" ++ client_ip

module _ (sha256 : Bytes → Bytes) where
  abbrev pub hash_session_id : Bytes → Bytes
  hash_session_id id = hex_encode (sha256 id)

  -- `hash[:12]` panics where the hash is shorter.
  abbrev pub store_keys : Bytes → Outcome SessionKeys
  store_keys raw =
      if leb 12 (length (hash_session_id raw))
      then pass (record {
        session_id = raw;
        session_id_hash = hash_session_id raw;
        log_session_hash = take 12 (hash_session_id raw);
      })
      else crash

  abbrev stored_or_refused : Bytes → Bytes → Result Bytes (Unit {0}) → Outcome SessionKeys
  stored_or_refused header_name raw (ok _) = store_keys raw
  stored_or_refused header_name raw (err e) =
      refuse 400 (codes "invalid session ID in " ++ header_name) (codes "INVALID_SESSION_ID")

  unfoldable pub session_extractor : Bytes → HttpRequest → Outcome SessionKeys
  session_extractor header_name req =
      let raw = trim_space (req.get_header header_name) in
      if is_empty raw
      then store_keys (anonymous_id req.client_ip)
      else stored_or_refused header_name raw (validate_session_id raw)
