-- ===== src/Store/Redis.antt =====
-- engine/src/store/session.rs: sessions in Redis. The Redis commands and `serde_json` are
-- parameters: `R` is the state of the server as a command finds it, and a failed command yields an
-- error of the type `E`, `VyseError`. The `tracing` span of `get` is left to its callers, and that of
-- `set` is left out.
pub mod Keys
pub mod RoundTrip
use vyse.Prelude.{
  ℕ, ◌==◌, not, Bool, true, false, ◌≡◌, ◌≢◌, Option, none, some, List, [], ◌∷◌, ◌++◌, map, Text,
  codes, Result, ok, err, ◌>>=◌, ltb, if◌then◌else◌,
}
use vyse.Store.Session.{Session}

pub record Redis (E R : Type 0) : Type 0 where
  pub get : R → Text → Result E (Option Text)
  pub set_ex : R → Text → Text → ℕ → Result E R
  pub del : R → Text → Result E (ℕ × R)
  pub keys : R → Text → Result E (List Text)

-- What Redis documents of these commands: a key that was just set holds the value, a deleted key
-- holds none, `DEL` counts the keys that it removed, and no command changes another key.
pub record RedisLaws (E R : Type 0) (redis : Redis E R) : Type 0 where
  pub get-set_ex_self :
      (r r' : R) (k v : Text) (ttl : ℕ) (o : Option Text)
      → redis.set_ex r k v ttl ≡ ok r'
      → redis.get r' k ≡ ok o
      → o ≡ some v
  pub get-set_ex_ne :
      (r r' : R) (k j v : Text) (ttl : ℕ) (o o' : Option Text)
      → k ≢ j
      → redis.set_ex r k v ttl ≡ ok r'
      → redis.get r j ≡ ok o
      → redis.get r' j ≡ ok o'
      → o' ≡ o
  pub get-del_self :
      (r r' : R) (k : Text) (n : ℕ) (o : Option Text)
      → redis.del r k ≡ ok (n, r')
      → redis.get r' k ≡ ok o
      → o ≡ none

pub record Json (F : Type 0) : Type 0 where
  pub to_string : Session F → Result Text Text
  pub from_str : Text → Result Text (Session F)

abbrev pub session_key_prefix : Text
session_key_prefix = codes "vyse:session:"

unfoldable pub session_key : Text → Text
session_key hash = session_key_prefix ++ hash

-- `k.strip_prefix(prefix)`
unfoldable pub strip_prefix : Text → Text → Option Text
strip_prefix [] text = some text
strip_prefix (c ∷ prefix) [] = none
strip_prefix (c ∷ prefix) (d ∷ text) = if c == d then strip_prefix prefix text else none

-- `strip_prefix(…).unwrap_or(&k)`
abbrev pub or_whole : Text → Option Text → Text
or_whole k none = k
or_whole k (some rest) = rest

unfoldable pub hash_of : Text → Text
unfolding strip_prefix
hash_of k = or_whole k (strip_prefix session_key_prefix k)

-- `map_err(|e| VyseError::Internal(format!("…: {e}")))`
abbrev pub internal_on_err {ℓ κ} :
    {E : Type ℓ} {A : Type κ} → (Text → E) → Text → Result Text A → Result E A
internal_on_err internal context (ok a) = ok a
internal_on_err internal context (err e) = err (internal (context ++ e))

module _ {F E R : Type 0} (redis : Redis E R) (json : Json F) (internal : Text → E) where
  abbrev pub decode : Option Text → Result E (Option (Session F))
  decode none = ok none
  decode (some raw) = do
    session ← internal_on_err internal (codes "deserialise session: ") (json.from_str raw)
    ok (some session)

  unfoldable pub get : R → Text → Result E (Option (Session F))
  unfolding session_key
  get r hash = do raw ← redis.get r (session_key hash); decode raw

  unfoldable pub set : R → Session F → ℕ → Result E R
  unfolding session_key
  set r session ttl_secs = do
    encoded ← internal_on_err internal (codes "serialise session: ") (json.to_string session)
    redis.set_ex r (session_key session.session_id_hash) encoded ttl_secs

module _ {E R : Type 0} (redis : Redis E R) where
  -- `Ok(deleted > 0)`, with the state of the server after the command
  unfoldable pub delete : R → Text → Result E (Bool × R)
  unfolding session_key
  delete r hash = do out ← redis.del r (session_key hash); ok (ltb 0 out.0, out.1)

  unfoldable pub list_hashes : R → Result E (List Text)
  list_hashes r = do keys ← redis.keys r (session_key_prefix ++ codes "*"); ok (map hash_of keys)
