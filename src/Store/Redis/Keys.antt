-- ===== src/Store/Redis/Keys.antt =====
-- engine/src/store/session.rs: the Redis keys of the sessions.
use vyse.Prelude.{◌≡◌, refl, ap, some, List, [], ◌∷◌, ◌++◌, map, Text, codes, ok, arith}
use vyse.Store.Redis.{
  Redis, session_key, session_key_prefix, strip_prefix, hash_of, or_whole, list_hashes,
}

strip_prefix-append : (prefix text : Text) → strip_prefix prefix (prefix ++ text) ≡ some text
unfolding strip_prefix
strip_prefix-append [] text = refl
strip_prefix-append (c ∷ prefix) text = ground (arith, strip_prefix-append prefix text)

hash_of-session_key : (hash : Text) → hash_of (session_key hash) ≡ hash
unfolding session_key
hash_of-session_key hash =
    let e = strip_prefix-append session_key_prefix hash in
    unfold hash_of in ap (or_whole (session_key_prefix ++ hash)) e

-- Different sessions have different keys.
pub session_key_injective : (a b : Text) → session_key a ≡ session_key b → a ≡ b
session_key_injective a b e = cc (hash_of-session_key a, hash_of-session_key b, ap hash_of e)

map-hash_of : (hashes : List Text) → map hash_of (map session_key hashes) ≡ hashes
map-hash_of [] = refl
map-hash_of (h ∷ hashes) = rw (hash_of-session_key h, map-hash_of hashes)

-- Where the server lists the keys of some sessions, `list_hashes` returns their hashes, in order.
pub list_hashes-map-session_key :
    {E R : Type 0} (redis : Redis E R) (r : R) (hashes : List Text)
    → redis.keys r (session_key_prefix ++ codes "*") ≡ ok (map session_key hashes)
    → list_hashes redis r ≡ ok hashes
unfolding list_hashes
list_hashes-map-session_key redis r hashes h = rw h (ap ok (map-hash_of hashes))
