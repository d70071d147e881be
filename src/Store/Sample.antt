-- ===== src/Store/Sample.antt =====
-- A Redis server and a session format that meet the hypotheses of the theorems: a function from keys
-- to values beside the list of its keys, and a prefix code for sessions.
mod Codec
use vyse.Prelude.{
  ℕ, ◌≡◌, ◌≢◌, refl, Bool, true, false, Option, none, some, List, [], ◌∷◌, Text, codes, text_eq,
  text_eq_iff, Result, ok, err, arith, if◌then◌else◌,
}
use vyse.Float.Milli.{Milli}
use vyse.Store.Session.{Session}
use vyse.Store.Redis.{Redis, RedisLaws, Json}
use Codec.{session_codec, session_codec-Law}

pub record Server : Type 0 where
  pub cell : Text → Option Text
  pub names : List Text

abbrev count_of : Option Text → ℕ
count_of none = 0
count_of (some v) = 1

abbrev write : (Text → Option Text) → Text → Option Text → Text → Option Text
write m k v j = if text_eq k j then v else m j

abbrev pub redis : Redis Text Server
redis = record {
  get = λ r k. ok (r.cell k);
  set_ex = λ r k v ttl. ok (record { cell = write r.cell k (some v); names = k ∷ r.names });
  del = λ r k. ok (count_of (r.cell k), record r { cell = write r.cell k none });
  keys = λ r pattern. ok r.names;
}

pub redis_laws : RedisLaws Text Server redis
redis_laws = record {
  get-set_ex_self =
      λ r r' k v ttl o done got. self r k (some v) o r'.cell (ground arith) (ground arith);
  get-set_ex_ne = λ r r' k j v ttl o o' ne done old new. ground (arith, text_eq_iff k j);
  get-del_self = λ r r' k n o done got. ground (arith, text_eq_iff k k);
}
  where
    self :
        (r : Server) (k : Text) (v o : Option Text) (m : Text → Option Text)
        → m ≡ write r.cell k v
        → m k ≡ o
        → o ≡ v
    self r k v o m e got = ground (arith, text_eq_iff k k)

abbrev of_decoded : Option (Session Milli × Text) → Result Text (Session Milli)
of_decoded none = err (codes "unexpected end")
of_decoded (some (s, rest)) = ok s

abbrev pub json_text : Session Milli → Text
json_text s = session_codec.encode s []

abbrev pub json : Json Milli
json = record {
  to_string = λ s. ok (json_text s);
  from_str = λ raw. of_decoded (session_codec.decode raw);
}

json_back : (s : Session Milli) (raw : Text) → json.to_string s ≡ ok raw → json.from_str raw ≡ ok s
json_back s raw e = let same : raw ≡ json_text s = cc in rw (same, session_codec-Law s [])

-- What is read back from a written session is that session.
pub same_session :
    (s s' : Session Milli) (raw : Text)
    → json.to_string s ≡ ok raw
    → json.from_str raw ≡ ok s'
    → s' ≡ s
same_session s s' raw written read = let back = json_back s raw written in ground arith
