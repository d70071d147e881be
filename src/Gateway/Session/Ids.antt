-- ===== src/Gateway/Session/Ids.antt =====
-- gateway/internal/middleware/session.go, `validateSessionID`: which identifiers are accepted.
use vyse.Prelude.{
  ℕ, ◌≤◌, ◌<◌, ◌≡◌, ◌≢◌, ◌↔◌, ◌⊎◌, refl, true, false, [], ◌∷◌, ok, All, length, arith, is_empty_iff,
}
use vyse.Gateway.{Bytes}
use vyse.Gateway.Strings.{valid_from, valid_string, contains_any}
use vyse.Gateway.Session.{is_session_id_char, all_chars, max_session_id_bytes, validate_session_id}

-- A letter, a digit or one of `-_.@:`.
abbrev pub IsSessionIdChar : ℕ → Type 0
IsSessionIdChar c =
    ((0x61 ≤ c) × (c ≤ 0x7A))
    ⊎ ((0x41 ≤ c) × (c ≤ 0x5A))
    ⊎ ((0x30 ≤ c) × (c ≤ 0x39))
    ⊎ (c ≡ 0x2D)
    ⊎ (c ≡ 0x5F)
    ⊎ (c ≡ 0x2E)
    ⊎ (c ≡ 0x40)
    ⊎ (c ≡ 0x3A)

char→IsSessionIdChar : (c : ℕ) → is_session_id_char c ≡ true → IsSessionIdChar c
char→IsSessionIdChar c h = ground arith

IsSessionIdChar→char : (c : ℕ) → IsSessionIdChar c → is_session_id_char c ≡ true
IsSessionIdChar→char c h = ground arith

char_ascii : (c : ℕ) → is_session_id_char c ≡ true → c < 0x80
char_ascii c h = ground arith

pub chars→All : (id : Bytes) → all_chars id ≡ true → All IsSessionIdChar id
chars→All [] h = tt
chars→All (c ∷ id) h = (char→IsSessionIdChar c (ground arith), chars→All id (ground arith))

All→all_chars : (id : Bytes) → All IsSessionIdChar id → all_chars id ≡ true
All→all_chars [] h = refl
All→all_chars (c ∷ id) (hc, h) = ground (arith, IsSessionIdChar→char c hc, All→all_chars id h)

valid_from-ascii : (c : ℕ) (s : Bytes) → c < 0x80 → valid_from 0 (c ∷ s) ≡ valid_from 0 s
unfolding valid_from
valid_from-ascii c s h = ground arith

-- The first test of the code is implied by the last.
pub all_chars-valid : (id : Bytes) → all_chars id ≡ true → valid_string id ≡ true
unfolding valid_from
all_chars-valid [] h = refl
all_chars-valid (c ∷ id) h =
    rw (valid_from-ascii c id (char_ascii c (ground arith))) (all_chars-valid id (ground arith))

-- So is the test for control characters.
all_chars-contains_any :
    (id : Bytes) → all_chars id ≡ true → contains_any id (0x00 ∷ 0x0D ∷ 0x0A ∷ []) ≡ false
all_chars-contains_any [] h = refl
all_chars-contains_any (c ∷ id) h = ground (arith, all_chars-contains_any id)

abbrev pub IsSessionId : Bytes → Type 0
IsSessionId id = (id ≢ []) × (length id ≤ max_session_id_bytes) × All IsSessionIdChar id

module _ (id : Bytes) where
  accepted : validate_session_id id ≡ ok tt → IsSessionId id
  unfolding validate_session_id
  accepted h = (ground (arith, is_empty_iff id), ground arith, chars→All id (ground arith))

  accepts : IsSessionId id → validate_session_id id ≡ ok tt
  unfolding validate_session_id
  accepts (nonempty, short, chars) =
      let all = All→all_chars id chars in
      let valid = all_chars-valid id all in
      let clean = all_chars-contains_any id all in ground (arith, is_empty_iff id)

  -- A session ID is accepted exactly when it is not empty, has at most 256 bytes, and consists of
  -- letters, digits and `-_.@:`. The tests for UTF-8 and for control characters refuse nothing else.
  pub validate_session_id_iff :
      (validate_session_id id ≡ ok tt)
      ↔ ((id ≢ []) × (length id ≤ max_session_id_bytes) × All IsSessionIdChar id)
  validate_session_id_iff = (accepted, accepts)
