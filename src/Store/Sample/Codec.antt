-- ===== src/Store/Sample/Codec.antt =====
-- A prefix code for sessions over thousandths, as a list of numbers.
use vyse.Prelude.{
  ℕ, zero, suc, ◌≡◌, refl, Bool, true, false, Option, none, some, List, [], ◌∷◌, Text, length,
}
use vyse.Prelude.Int.{ℤ, pos, negsuc}
use vyse.Float.Milli.{Milli, nan, num}
use vyse.Store.Session.{Session}

pub record Codec (A : Type 0) : Type 0 where
  pub encode : A → Text → Text
  pub decode : Text → Option (A × Text)

abbrev pub Law : {A : Type 0} → Codec A → Type 0
Law {A} c = (a : A) (rest : Text) → c.decode (c.encode a rest) ≡ some (a, rest)

infixl 5 ◌>>=◌
abbrev ◌>>=◌ : {A B : Type 0} → Option A → (A → Option B) → Option B
none >>= g = none
some a >>= g = g a

abbrev nat_decode : Text → Option (ℕ × Text)
nat_decode [] = none
nat_decode (n ∷ rest) = some (n, rest)

abbrev nat_codec : Codec ℕ
nat_codec = record { encode = λ n rest. n ∷ rest; decode = nat_decode }

abbrev int_encode : ℤ → Text → Text
int_encode (pos n) rest = 0 ∷ n ∷ rest
int_encode (negsuc n) rest = 1 ∷ n ∷ rest

abbrev int_of : ℕ → ℕ → ℤ
int_of zero n = pos n
int_of (suc _) n = negsuc n

abbrev int_codec : Codec ℤ
int_codec = record {
  encode = int_encode;
  decode = λ t. nat_decode t >>= λ a. nat_decode a.1 >>= λ b. some (int_of a.0 b.0, b.1);
}

int-Law : Law int_codec
int-Law (pos n) rest = refl
int-Law (negsuc n) rest = refl

abbrev bool_encode : Bool → Text → Text
bool_encode true rest = 1 ∷ rest
bool_encode false rest = 0 ∷ rest

abbrev bool_of : ℕ → Bool
bool_of zero = false
bool_of (suc _) = true

abbrev bool_codec : Codec Bool
bool_codec = record {
  encode = bool_encode;
  decode = λ t. nat_decode t >>= λ a. some (bool_of a.0, a.1);
}

bool-Law : Law bool_codec
bool-Law true rest = refl
bool-Law false rest = refl

abbrev milli_encode : Milli → Text → Text
milli_encode nan rest = 0 ∷ rest
milli_encode (num z) rest = 1 ∷ int_encode z rest

abbrev milli_of : ℕ → Text → Option (Milli × Text)
milli_of zero rest = some (nan, rest)
milli_of (suc _) rest = int_codec.decode rest >>= λ b. some (num b.0, b.1)

abbrev milli_codec : Codec Milli
milli_codec = record { encode = milli_encode; decode = λ t. nat_decode t >>= λ a. milli_of a.0 a.1 }

milli-Law : Law milli_codec
milli-Law nan rest = refl
milli-Law (num (pos n)) rest = refl
milli-Law (num (negsuc n)) rest = refl

module _ {A : Type 0} (c : Codec A) where
  abbrev items_encode : List A → Text → Text
  items_encode [] rest = rest
  items_encode (x ∷ xs) rest = c.encode x (items_encode xs rest)

  abbrev items_decode : ℕ → Text → Option (List A × Text)
  items_decode zero t = some ([], t)
  items_decode (suc n) t = c.decode t >>= λ a. items_decode n a.1 >>= λ b. some (a.0 ∷ b.0, b.1)

  abbrev list_codec : Codec (List A)
  list_codec = record {
    encode = λ xs rest. length xs ∷ items_encode xs rest;
    decode = λ t. nat_decode t >>= λ a. items_decode a.0 a.1;
  }

  abbrev option_encode : Option A → Text → Text
  option_encode none rest = 0 ∷ rest
  option_encode (some a) rest = 1 ∷ c.encode a rest

  abbrev option_of : ℕ → Text → Option (Option A × Text)
  option_of zero rest = some (none, rest)
  option_of (suc _) rest = c.decode rest >>= λ b. some (some b.0, b.1)

  abbrev option_codec : Codec (Option A)
  option_codec = record {
    encode = option_encode;
    decode = λ t. nat_decode t >>= λ a. option_of a.0 a.1;
  }

  module _ (law : Law c) where
    items_law :
        (xs : List A) (rest : Text)
        → items_decode (length xs) (items_encode xs rest) ≡ some (xs, rest)
    items_law [] rest = refl
    items_law (x ∷ xs) rest = rw (law x (items_encode xs rest)) (rw (items_law xs rest))

    list-Law : Law list_codec
    list-Law xs rest = items_law xs rest

    option-Law : Law option_codec
    option-Law none rest = refl
    option-Law (some a) rest = rw (law a rest)

abbrev text_codec : Codec Text
text_codec = list_codec nat_codec

text-Law : Law text_codec
text-Law = list-Law nat_codec (λ n rest. refl)

abbrev session_encode : Session Milli → Text → Text
session_encode s rest = text_codec.encode s.session_id_hash (
    int_codec.encode s.tier (
      nat_codec.encode s.first_seen_at (
        nat_codec.encode s.last_active_at (
          (option_codec nat_codec).encode s.tracking_started_at (
            nat_codec.encode s.request_count (
              milli_codec.encode s.dynamic_mean_rpm (
                milli_codec.encode s.current_hybrid_score (
                  text_codec.encode s.timestamps (
                    (list_codec text_codec).encode s.prompt_history (
                      (option_codec (list_codec milli_codec)).encode s.last_embedding (
                        bool_codec.encode s.is_banned
                          ((option_codec text_codec).encode s.noise_seed rest))))))))))))

abbrev session_decode : Text → Option (Session Milli × Text)
session_decode t0 = do
  hash ← text_codec.decode t0
  tier ← int_codec.decode hash.1
  first_seen ← nat_codec.decode tier.1
  last_active ← nat_codec.decode first_seen.1
  tracking ← (option_codec nat_codec).decode last_active.1
  count ← nat_codec.decode tracking.1
  rpm ← milli_codec.decode count.1
  score ← milli_codec.decode rpm.1
  times ← text_codec.decode score.1
  prompts ← (list_codec text_codec).decode times.1
  embedding ← (option_codec (list_codec milli_codec)).decode prompts.1
  banned ← bool_codec.decode embedding.1
  seed ← (option_codec text_codec).decode banned.1
  some (
    record {
      session_id_hash = hash.0;
      tier = tier.0;
      first_seen_at = first_seen.0;
      last_active_at = last_active.0;
      tracking_started_at = tracking.0;
      request_count = count.0;
      dynamic_mean_rpm = rpm.0;
      current_hybrid_score = score.0;
      timestamps = times.0;
      prompt_history = prompts.0;
      last_embedding = embedding.0;
      is_banned = banned.0;
      noise_seed = seed.0;
    },
    seed.1,
  )

abbrev pub session_codec : Codec (Session Milli)
session_codec = record { encode = session_encode; decode = session_decode }

pub session_codec-Law : Law session_codec
session_codec-Law s rest = rw (text-Law s.session_id_hash _) (
    rw (int-Law s.tier _) (
      rw (option-Law nat_codec (λ n r. refl) s.tracking_started_at _) (
        rw (milli-Law s.dynamic_mean_rpm _) (
          rw (milli-Law s.current_hybrid_score _) (
            rw (text-Law s.timestamps _) (
              rw (list-Law text_codec text-Law s.prompt_history _) (
                rw
                  (option-Law (list_codec milli_codec) (list-Law milli_codec milli-Law)
                    s.last_embedding _)
                  (rw (bool-Law s.is_banned _)
                    (rw (option-Law text_codec text-Law s.noise_seed rest))))))))))
