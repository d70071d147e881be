-- ===== src/Words/Ascii.antt =====
-- The slices of a text of ASCII characters: a position counts characters and bytes alike.
use vyse.Prelude.{ℕ, zero, suc, ◌≤◌, ◌<◌, ◌≡◌, refl, true, [], ◌∷◌, Text, All, length, arith}
use vyse.Words.{utf8_width, can_slice, byte_len}

abbrev pub IsAscii : ℕ → Type 0
IsAscii c = c < 0x80

utf8_width-IsAscii : (c : ℕ) → IsAscii c → utf8_width c ≡ 1
utf8_width-IsAscii c h = ground arith

pub byte_len-IsAscii : (text : Text) → All IsAscii text → byte_len text ≡ length text
unfolding byte_len
byte_len-IsAscii [] h = refl
byte_len-IsAscii (c ∷ text) (hc, h) =
    rw (utf8_width-IsAscii c hc) (omega (arith, byte_len-IsAscii text h))

pub can_slice-IsAscii :
    (n : ℕ) (text : Text) → All IsAscii text → n ≤ length text → can_slice n text ≡ true
unfolding can_slice
can_slice-IsAscii zero text h short = refl
can_slice-IsAscii (suc n) [] h short = absurd (omega arith)
can_slice-IsAscii (suc n) (c ∷ text) (hc, h) short =
    let rest = can_slice-IsAscii n text h (omega arith) in
    rw (utf8_width-IsAscii c hc) (ground arith)
