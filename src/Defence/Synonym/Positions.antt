-- ===== src/Defence/Synonym/Positions.antt =====
-- engine/src/defence/synonym.rs, `substitute`: the chosen positions are distinct positions of words
-- that stand in the table, and each of them is met once by the loop.
use vyse.Prelude.{
  ℕ, zero, suc, ◌+◌, ◌≤◌, ◌<◌, ◌≡◌, refl, ap, ◌∙◌, inl, inr, true, false, List, [], ◌∷◌, Text,
  is_empty, length, take, arith, Bool-cases, ==_iff, if◌then◌else◌,
}
use mathlib.Core.List.{Permᴰ}
use vyse.Words.{Unicode}
use vyse.Defence.Synonym.{contains, is_substitutable, substitutable_from}

-- No number stands twice.
abbrev pub IsDistinct : List ℕ → Type 0
IsDistinct [] = Unit
IsDistinct (i ∷ is) = (contains is i ≡ false) × IsDistinct is

-- Every member of the first list is one of the second.
abbrev pub IsWithin : List ℕ → List ℕ → Type 0
IsWithin is js = (i : ℕ) → contains is i ≡ true → contains js i ≡ true

-- the number of positions from `start` on, `n` of them, that are chosen
unfoldable pub hits : List ℕ → ℕ → ℕ → ℕ
hits chosen start zero = 0
hits chosen start (suc n) = (if contains chosen start then 1 else 0) + hits chosen (suc start) n

contains-perm : (is js : List ℕ) (i : ℕ) → Permᴰ is js → contains is i ≡ contains js i
contains-perm [] [] i Permᴰ.nil = refl
contains-perm (x ∷ is) (y ∷ js) i (Permᴰ.cons same p) = rw same (rw (contains-perm is js i p))
contains-perm (x ∷ y ∷ is) (x' ∷ y' ∷ js) i (Permᴰ.swap same same') =
    rw same (rw same' (ground arith))
contains-perm is js i (Permᴰ.trans {l₂} p q) = contains-perm is l₂ i p ∙ contains-perm l₂ js i q

pub length-perm : (is js : List ℕ) → Permᴰ is js → length js ≡ length is
length-perm [] [] Permᴰ.nil = refl
length-perm (x ∷ is) (y ∷ js) (Permᴰ.cons same p) = ap suc (length-perm is js p)
length-perm (x ∷ y ∷ is) (x' ∷ y' ∷ js) (Permᴰ.swap same same') = refl
length-perm is js (Permᴰ.trans {l₂} p q) = length-perm l₂ js q ∙ length-perm is l₂ p

pub IsDistinct-perm : (is js : List ℕ) → Permᴰ is js → IsDistinct is → IsDistinct js
IsDistinct-perm [] [] Permᴰ.nil d = tt
IsDistinct-perm (x ∷ is) (y ∷ js) (Permᴰ.cons same p) (new, d) =
    (ground (arith, contains-perm is js y p), IsDistinct-perm is js p d)
IsDistinct-perm (x ∷ y ∷ is) (x' ∷ y' ∷ js) (Permᴰ.swap same same') (new, (new', d)) =
    (ground (arith, ==_iff x y, ==_iff y x), (ground arith, d))
IsDistinct-perm is js (Permᴰ.trans {l₂} p q) d = IsDistinct-perm l₂ js q (IsDistinct-perm is l₂ p d)

contains-take : (n : ℕ) (is : List ℕ) (i : ℕ) → contains (take n is) i ≡ true → contains is i ≡ true
contains-take zero is i h = cc
contains-take (suc n) [] i h = h
contains-take (suc n) (x ∷ is) i h = ground (arith, contains-take n is i)

pub IsDistinct-take : (n : ℕ) (is : List ℕ) → IsDistinct is → IsDistinct (take n is)
IsDistinct-take zero is d = tt
IsDistinct-take (suc n) [] d = tt
IsDistinct-take (suc n) (x ∷ is) (new, d) =
    (ground (arith, contains-take n is x), IsDistinct-take n is d)

pub IsWithin-take : (n : ℕ) (is js : List ℕ) → Permᴰ js is → IsWithin (take n is) js
IsWithin-take n is js p i h = contains-perm js is i p ∙ contains-take n is i h

pub hits-here :
    (chosen : List ℕ) (start n : ℕ)
    → contains chosen start ≡ true
    → hits chosen start (suc n) ≡ suc (hits chosen (suc start) n)
unfolding hits
hits-here chosen start n h = ground arith

pub hits-other :
    (chosen : List ℕ) (start n : ℕ)
    → contains chosen start ≡ false
    → hits chosen start (suc n) ≡ hits chosen (suc start) n
unfolding hits
hits-other chosen start n h = ground arith

hits-nil : (start n : ℕ) → hits [] start n ≡ 0
unfolding hits
hits-nil start zero = refl
hits-nil start (suc n) = omega (arith, hits-nil (suc start) n)

hits-before : (c start n : ℕ) → c < start → hits (c ∷ []) start n ≡ 0
unfolding hits
hits-before c start zero h = refl
hits-before c start (suc n) h = ground (arith, hits-before c (suc start) n)

hits-one : (c start n : ℕ) → start ≤ c → c < start + n → hits (c ∷ []) start n ≡ 1
unfolding hits
hits-one c start zero h k = absurd (omega arith)
hits-one c start (suc n) h k = ground (arith, hits-before c (suc start) n, hits-one c (suc start) n)

hits-cons :
    (c : ℕ) (is : List ℕ) (start n : ℕ)
    → contains is c ≡ false
    → hits (c ∷ is) start n ≡ hits (c ∷ []) start n + hits is start n
unfolding hits
hits-cons c is start zero new = refl
hits-cons c is start (suc n) new = ground (arith, hits-cons c is (suc start) n new)

-- Distinct positions in the range are met once each.
pub hits-eq-length :
    (is : List ℕ) (start n : ℕ)
    → IsDistinct is
    → ((i : ℕ) → contains is i ≡ true → (start ≤ i) × (i < start + n))
    → hits is start n ≡ length is
hits-eq-length [] start n d within = hits-nil start n
hits-eq-length (c ∷ is) start n (new, d) within =
    let here = within c (ground arith) in
    omega (
      arith,
      hits-cons c is start n new,
      hits-one c start n here.0 here.1,
      hits-eq-length is start n d (λ i h. within i (ground arith)),
    )

module _ (u : Unicode) where
  pub substitutable_from-range :
      (start : ℕ) (words : List Text) (i : ℕ)
      → contains (substitutable_from u start words) i ≡ true
      → (start ≤ i) × (i < start + length words)
  unfolding substitutable_from
  substitutable_from-range start [] i h = cc
  substitutable_from-range start (w ∷ words) i h =
      ground (arith, substitutable_from-range (suc start) words i)

  substitutable_from-new :
      (start : ℕ) (words : List Text)
      → contains (substitutable_from u (suc start) words) start ≡ false
  substitutable_from-new start words =
      elim (Bool-cases (contains (substitutable_from u (suc start) words) start)) [
        | inl found ↦ absurd (omega (arith, substitutable_from-range (suc start) words start found))
        | inr new ↦ new
      ]

  pub substitutable_from-IsDistinct :
      (start : ℕ) (words : List Text) → IsDistinct (substitutable_from u start words)
  unfolding substitutable_from
  substitutable_from-IsDistinct start [] = tt
  substitutable_from-IsDistinct start (w ∷ words) = elim (Bool-cases (is_substitutable u w)) [
    | inl key ↦
        rw key (substitutable_from-new start words, substitutable_from-IsDistinct (suc start) words)
    | inr other ↦ rw other (substitutable_from-IsDistinct (suc start) words)
  ]

  -- The first word stands in the table if its position is one of them.
  pub is_substitutable-head :
      (start : ℕ) (w : Text) (words : List Text)
      → contains (substitutable_from u start (w ∷ words)) start ≡ true
      → is_substitutable u w ≡ true
  unfolding substitutable_from
  is_substitutable-head start w words h = ground (arith, substitutable_from-new start words)

  -- A later position is one of the later words'.
  pub substitutable_from-tail :
      (start : ℕ) (w : Text) (words : List Text) (i : ℕ)
      → start < i
      → contains (substitutable_from u start (w ∷ words)) i ≡ true
      → contains (substitutable_from u (suc start) words) i ≡ true
  unfolding substitutable_from
  substitutable_from-tail start w words i later h = ground arith

  pub words-nonempty :
      (start : ℕ) (words : List Text)
      → is_empty (substitutable_from u start words) ≡ false
      → is_empty words ≡ false
  unfolding substitutable_from
  words-nonempty start [] h = h
  words-nonempty start (w ∷ words) h = refl
