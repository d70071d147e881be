-- ===== src/Words.antt =====
-- What the engine uses of Rust's text functions. The Unicode tables behind them (white space,
-- letters, case) are a parameter. Positions in a text count the bytes of its UTF-8.
pub mod Ascii
use vyse.Prelude.{
  ℕ, zero, suc, ◌+◌, ◌-◌, ltb, leb, ◌&&◌, if◌then◌else◌, Bool, true, false, List, [], ◌∷◌, ◌++◌,
  Text,
}

pub record Unicode : Type 0 where
  pub is_whitespace : ℕ → Bool
  pub is_alphabetic : ℕ → Bool
  pub is_uppercase : ℕ → Bool
  pub to_lowercase : Text → Text
  -- `trim()`
  pub trim : Text → Text

module _ (u : Unicode) where
  abbrev close : Text → List Text → List Text
  close [] words = words
  close (c ∷ cur) words = (c ∷ cur) ∷ words

  -- `text.split_whitespace()`; `cur` is the word being read
  split_from : Text → Text → List Text
  split_from cur [] = close cur []
  split_from cur (c ∷ s) =
      let ended = close cur (split_from [] s) in
      let longer = split_from (cur ++ c ∷ []) s in
      elim (u.is_whitespace c) [ true ↦ ended | false ↦ longer ]

  unfoldable pub split_whitespace : Text → List Text
  unfolding split_from
  split_whitespace text = split_from [] text

-- Slicing `&text[..n]`: the first `n` bytes must be whole characters.
abbrev pub utf8_width : ℕ → ℕ
utf8_width c = if ltb c 0x80 then 1 else if ltb c 0x800 then 2 else if ltb c 0x10000 then 3 else 4

unfoldable pub can_slice : ℕ → Text → Bool
can_slice zero text = true
can_slice (suc n) [] = false
can_slice (suc n) (c ∷ text) = leb (utf8_width c) (suc n) && can_slice (suc n - utf8_width c) text

-- `text.len()`, in bytes
unfoldable pub byte_len : Text → ℕ
byte_len [] = 0
byte_len (c ∷ text) = utf8_width c + byte_len text
