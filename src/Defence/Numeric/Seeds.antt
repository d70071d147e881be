-- ===== src/Defence/Numeric/Seeds.antt =====
-- engine/src/defence/numeric.rs: seeds that differ in their first eight digits shift the numbers
-- by different states of the generator.
use vyse.Prelude.{
  ℕ, zero, suc, ◌+◌, ◌*◌, ◌%◌, ◌^◌, ◌≤◌, ◌<◌, ◌≡◌, ◌⊎◌, ◌↔◌, ◌-◌, ◌∙◌, sym, refl, ap, List, [], ◌∷◌,
  length, length-take_le, take, All, arith,
}
use vyse.Defence.Numeric.{fold_bytes, seed_to_u64, mixed, lcg, high_bits}

-- The bytes of `0`..`9` and `a`..`f`.
abbrev pub IsHexDigit : ℕ → Type 0
IsHexDigit b = ((48 ≤ b) × (b ≤ 57)) ⊎ ((97 ≤ b) × (b ≤ 102))

-- The largest accumulator after `k` bytes.
abbrev top : ℕ → ℕ
top zero = 0
top (suc k) = top k * 31 + 102

-- The fold without wrap-around.
abbrev horner : ℕ → List ℕ → ℕ
horner acc [] = acc
horner acc (b ∷ bytes) = horner (acc * 31 + b) bytes

top-lt : (d k : ℕ) → d + k ≡ 8 → top k < 2 ^ 58
top-lt zero k h = let last : k ≡ 8 = omega arith in rw last (omega arith)
top-lt (suc d) k h = omega (arith, top-lt d (suc k))

-- Of at most eight hexadecimal digits the fold does not wrap.
fold_bytes-eq-horner :
    (d k acc : ℕ) (bytes : List ℕ)
    → All IsHexDigit bytes
    → d + k ≡ 8
    → length bytes ≤ d
    → acc ≤ top k
    → fold_bytes acc bytes ≡ horner acc bytes
unfolding fold_bytes
fold_bytes-eq-horner d k acc [] h e n le = refl
fold_bytes-eq-horner zero k acc (b ∷ bytes) h e n le = absurd (omega arith)
fold_bytes-eq-horner (suc d) k acc (b ∷ bytes) (hb, h) e n le =
    let digit : b ≤ 102 = ground arith in
    let room = top-lt d (suc k) (omega arith) in
    let exact : ((acc * 31) % 2 ^ 64 + b) % 2 ^ 64 ≡ acc * 31 + b = omega arith in
    rw exact (
      fold_bytes-eq-horner d (suc k) (acc * 31 + b) bytes h (omega arith) (omega arith)
        (omega arith))

horner_injective :
    (acc acc' : ℕ) (s t : List ℕ)
    → All IsHexDigit s
    → All IsHexDigit t
    → length s ≡ length t
    → horner acc s ≡ horner acc' t
    → (acc ≡ acc') × (s ≡ t)
horner_injective acc acc' [] [] h k n e = (e, refl)
horner_injective acc acc' (x ∷ s) (y ∷ t) (hx, h) (hy, k) n e =
    let (same, rest) = horner_injective (acc * 31 + x) (acc' * 31 + y) s t h k (omega arith) e in
    let both : (acc ≡ acc') × (x ≡ y) = ground arith in (both.0, rw (both.1) (ap (◌∷◌ y) rest))
horner_injective acc acc' [] (y ∷ t) h k n e = absurd (omega arith)
horner_injective acc acc' (x ∷ s) [] h k n e = absurd (omega arith)

-- The multipliers of the seed are odd, so that no two seeds meet in one state.
lcg_injective : (s t p : ℕ) → s < 2 ^ 64 → t < 2 ^ 64 → lcg s p ≡ lcg t p → s ≡ t
unfolding mixed lcg
lcg_injective s t p hs ht e = omega arith

fold_bytes-lt : (acc : ℕ) (bytes : List ℕ) → acc < 2 ^ 64 → fold_bytes acc bytes < 2 ^ 64
unfolding fold_bytes
fold_bytes-lt acc [] h = h
fold_bytes-lt acc (b ∷ bytes) h =
    fold_bytes-lt (((acc * 31) % 2 ^ 64 + b) % 2 ^ 64) bytes (omega arith)

All-take : (n : ℕ) (bytes : List ℕ) → All IsHexDigit bytes → All IsHexDigit (take n bytes)
All-take zero bytes h = tt
All-take (suc n) [] h = tt
All-take (suc n) (b ∷ bytes) (hb, h) = (hb, All-take n bytes h)

-- Two hexadecimal seeds of eight or more digits lead to the same state of the generator, at any
-- position, exactly when they agree in their first eight digits. The upper half of that state, of
-- which the shift is made, is at most the divisor that scales it to a fraction.
pub lcg-seed_to_u64_iff :
    (s t : List ℕ) (position : ℕ)
    → All IsHexDigit s
    → All IsHexDigit t
    → 8 ≤ length s
    → 8 ≤ length t
    → ((lcg (seed_to_u64 s) position ≡ lcg (seed_to_u64 t) position) ↔ (take 8 s ≡ take 8 t))
      × (high_bits (seed_to_u64 s) position ≤ 2 ^ 32 - 1)
unfolding seed_to_u64 high_bits lcg
lcg-seed_to_u64_iff s t position hs ht ns nt = ((forth, λ e. rw e refl), omega arith)
  where
    plain :
        (u : List ℕ)
        → All IsHexDigit u
        → 8 ≤ length u
        → fold_bytes 0 (take 8 u) ≡ horner 0 (take 8 u)
    plain u h n =
        fold_bytes-eq-horner 8 0 0 (take 8 u) (All-take 8 u h) refl
          (omega (arith, length-take_le 8 u n)) (omega arith)

    forth : lcg (seed_to_u64 s) position ≡ lcg (seed_to_u64 t) position → take 8 s ≡ take 8 t
    forth e =
        let same =
          lcg_injective (fold_bytes 0 (take 8 s)) (fold_bytes 0 (take 8 t)) position
            (fold_bytes-lt 0 (take 8 s) (omega arith)) (fold_bytes-lt 0 (take 8 t) (omega arith))
            e in
        (horner_injective 0 0 (take 8 s) (take 8 t) (All-take 8 s hs) (All-take 8 t ht)
          (length-take_le 8 s ns ∙ sym (length-take_le 8 t nt))
          (sym (plain s hs ns) ∙ same ∙ plain t ht nt)).1
