-- ===== src/Store/Tests.antt =====
-- Runs of engine/src/store/session.rs on the server and the code of Store/Sample, and the theorems.
use vyse.Prelude.{
  ◌≡◌, refl, Option, none, some, [], ◌∷◌, Text, codes, text_eq, if◌then◌else◌, Result, ok, err,
}
use vyse.Float.Milli.{Milli, milli}
use vyse.Store.Session
use vyse.Store.Session.{Session, keep_last, trim}
use vyse.Store.Redis as Sessions
use vyse.Store.Redis.{session_key, session_key_prefix, list_hashes, hash_of, strip_prefix}
use vyse.Store.Sample.{Server, redis, json}

sessions : Unit {0}
unfolding trim keep_last Session.new Sessions.get Sessions.set Sessions.delete list_hashes hash_of
    strip_prefix session_key text_eq
sessions = tt

abbrev ann : Session Milli
ann = record (Session.new 5 (codes "ann")) {
  timestamps = 1 ∷ 2 ∷ 3 ∷ [];
  prompt_history = codes "a" ∷ codes "b" ∷ [];
}

abbrev internal : Text → Text
internal m = m

abbrev empty : Server
empty = record { cell = λ k. none; names = [] }

abbrev server_of : Result Text Server → Server
server_of (ok r) = r
server_of (err e) = empty

abbrev filled : Server
filled = server_of (Sessions.set redis json internal empty ann 60)

abbrev session_of : Result Text (Option (Session Milli)) → Option (Session Milli)
session_of (ok found) = found
session_of (err e) = none

abbrev get_from : Server → Text → Option (Session Milli)
get_from r hash = session_of (Sessions.get redis json internal r hash)

trim_test : (trim ann 2 5).timestamps ≡ 2 ∷ 3 ∷ []
unfolding sessions
trim_test = refl

abbrev emptied : Server
emptied = record filled {
  cell = λ k. if text_eq (codes "vyse:session:ann") k then none else filled.cell k;
}

redis_test : (get_from filled (codes "ann") ≡ some ann) × (get_from emptied (codes "ann") ≡ none)
unfolding sessions
redis_test = (refl, refl)
