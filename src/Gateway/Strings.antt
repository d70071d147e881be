-- ===== src/Gateway/Strings.antt =====
-- What the gateway uses of Go's packages `strings`, `unicode/utf8` and `crypto/subtle`, on bytes.
use mathlib.Core.List.{reverse}
use vyse.Prelude.{
  ℕ, zero, suc, ltb, leb, ◌==◌, ◌&&◌, ◌||◌, if◌then◌else◌, Bool, true, false, List, [], ◌∷◌, map,
  length, text_eq,
}

-- `lo <= b && b <= hi`
abbrev pub within : ℕ → ℕ → ℕ → Bool
within lo hi b = leb lo b && leb b hi

abbrev continues : List ℕ → Bool
continues [] = false
continues (b ∷ s) = within 0x80 0xBF b

abbrev rest_of : List ℕ → List ℕ
rest_of [] = []
rest_of (_ ∷ s) = s

-- Whether the second byte may follow the first: no overlong form, no surrogate, no code point above
-- U+10FFFF.
abbrev second_fits : ℕ → List ℕ → Bool
second_fits a [] = false
second_fits a (b ∷ s) =
    if a == 0xE0
    then within 0xA0 0xBF b
    else if a == 0xED
    then within 0x80 0x9F b
    else if a == 0xF0
    then within 0x90 0xBF b
    else if a == 0xF4
    then within 0x80 0x8F b
    else within 0x80 0xBF b

-- The number of bytes of the rune that starts with `a` and goes on in `s`; 0 where it is not valid.
abbrev pub rune_width : ℕ → List ℕ → ℕ
rune_width a s =
    if ltb a 0x80
    then 1
    else if within 0xC2 0xDF a && second_fits a s
    then 2
    else if within 0xE0 0xEF a && (second_fits a s && continues (rest_of s))
    then 3
    else if within 0xF0 0xF4 a
        && (second_fits a s && (continues (rest_of s) && continues (rest_of (rest_of s))))
    then 4
    else 0

-- `k` bytes are left of a rune that was found valid.
unfoldable pub valid_from : ℕ → List ℕ → Bool
valid_from k [] = true
valid_from (suc k) (b ∷ s) = valid_from k s
valid_from zero (b ∷ s) = elim (rune_width b s) [ zero ↦ false | suc w ↦ valid_from w s ]

-- `utf8.ValidString(s)`
abbrev pub valid_string : List ℕ → Bool
valid_string = valid_from 0

-- `strings.HasPrefix(s, prefix)`, with the prefix first
abbrev pub has_prefix : List ℕ → List ℕ → Bool
has_prefix [] s = true
has_prefix (p ∷ prefix) [] = false
has_prefix (p ∷ prefix) (b ∷ s) = p == b && has_prefix prefix s

-- The encodings of the white space of Unicode.
abbrev white_space : List (List ℕ)
white_space =
    (0x09 ∷ [])
    ∷ (0x0A ∷ [])
    ∷ (0x0B ∷ [])
    ∷ (0x0C ∷ [])
    ∷ (0x0D ∷ [])
    ∷ (0x20 ∷ [])
    ∷ (0xC2 ∷ 0x85 ∷ [])
    ∷ (0xC2 ∷ 0xA0 ∷ [])
    ∷ (0xE1 ∷ 0x9A ∷ 0x80 ∷ [])
    ∷ (0xE2 ∷ 0x80 ∷ 0x80 ∷ [])
    ∷ (0xE2 ∷ 0x80 ∷ 0x81 ∷ [])
    ∷ (0xE2 ∷ 0x80 ∷ 0x82 ∷ [])
    ∷ (0xE2 ∷ 0x80 ∷ 0x83 ∷ [])
    ∷ (0xE2 ∷ 0x80 ∷ 0x84 ∷ [])
    ∷ (0xE2 ∷ 0x80 ∷ 0x85 ∷ [])
    ∷ (0xE2 ∷ 0x80 ∷ 0x86 ∷ [])
    ∷ (0xE2 ∷ 0x80 ∷ 0x87 ∷ [])
    ∷ (0xE2 ∷ 0x80 ∷ 0x88 ∷ [])
    ∷ (0xE2 ∷ 0x80 ∷ 0x89 ∷ [])
    ∷ (0xE2 ∷ 0x80 ∷ 0x8A ∷ [])
    ∷ (0xE2 ∷ 0x80 ∷ 0xA8 ∷ [])
    ∷ (0xE2 ∷ 0x80 ∷ 0xA9 ∷ [])
    ∷ (0xE2 ∷ 0x80 ∷ 0xAF ∷ [])
    ∷ (0xE2 ∷ 0x81 ∷ 0x9F ∷ [])
    ∷ (0xE3 ∷ 0x80 ∷ 0x80 ∷ [])
    ∷ []

-- The length of the first of the prefixes that `s` has, or 0.
abbrev prefix_width : List (List ℕ) → List ℕ → ℕ
prefix_width [] s = 0
prefix_width (p ∷ ps) s = if has_prefix p s then length p else prefix_width ps s

-- Drops the prefixes at the front; `k` bytes are left of one that was found.
unfoldable pub trim_left : List (List ℕ) → ℕ → List ℕ → List ℕ
trim_left ps k [] = []
trim_left ps (suc k) (b ∷ s) = trim_left ps k s
trim_left ps zero (b ∷ s) = elim (prefix_width ps (b ∷ s)) [
  | zero ↦ b ∷ s
  | suc w ↦ trim_left ps w s
]

-- `strings.TrimSpace(s)`: an encoding at the end is its reverse at the front of the reverse.
unfoldable pub trim_space : List ℕ → List ℕ
unfolding trim_left
trim_space s = reverse (trim_left (map reverse white_space) 0 (reverse (trim_left white_space 0 s)))

-- `strings.ContainsAny(s, chars)`
abbrev pub contains_any : List ℕ → List ℕ → Bool
contains_any [] chars = false
contains_any (b ∷ s) chars = has_byte b chars || contains_any s chars
  where
    has_byte : ℕ → List ℕ → Bool
    has_byte b [] = false
    has_byte b (c ∷ cs) = b == c || has_byte b cs

-- `subtle.ConstantTimeCompare(x, y)`
abbrev pub constant_time_compare : List ℕ → List ℕ → ℕ
constant_time_compare x y = if text_eq x y then 1 else 0
