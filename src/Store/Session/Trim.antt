-- ===== src/Store/Session/Trim.antt =====
-- engine/src/store/session.rs, `Session::trim`: it keeps the most recent entries.
use vyse.Prelude.{
  ℕ, ◌-◌, ◌≤◌, ◌≡◌, true, false, List, [], ◌∷◌, ◌++◌, length, length-append, length-drop, take, min,
  take-append-drop, ltb, ltb→lt, ltb→le, le→ltb, lt→ltb, Bool-cases, inl, inr, arith,
  drop-append_le,
}
use vyse.Store.Session.{Session, keep_last, trim}

module _ {ℓ} {A : Type ℓ} where
  pub length-keep_last : (max : ℕ) (xs : List A) → length (keep_last max xs) ≡ min (length xs) max
  unfolding keep_last
  length-keep_last max xs = elim (Bool-cases (ltb max (length xs))) [
    | inl long ↦
        rw long (omega (arith, length-drop (length xs - max) xs, ltb→lt max (length xs) long))
    | inr short ↦ rw short (omega (arith, ltb→le max (length xs) short))
  ]

  pub keep_last-suffix :
      (max : ℕ) (xs : List A) → take (length xs - max) xs ++ keep_last max xs ≡ xs
  unfolding keep_last
  keep_last-suffix max xs = elim (Bool-cases (ltb max (length xs))) [
    | inl long ↦ rw long (take-append-drop (length xs - max) xs)
    | inr short ↦
        let none_cut : length xs - max ≡ 0 = omega (arith, ltb→le max (length xs) short) in
        rw (short, none_cut)
  ]

  keep_last-short : (max : ℕ) (xs : List A) → length xs ≤ max → keep_last max xs ≡ xs
  unfolding keep_last
  keep_last-short max xs h = rw (le→ltb max (length xs) h)

  keep_last-keep_last :
      (max : ℕ) (xs : List A) → keep_last max (keep_last max xs) ≡ keep_last max xs
  keep_last-keep_last max xs =
      keep_last-short max (keep_last max xs) (omega (arith, length-keep_last max xs))

  -- The newest entry is kept, if anything is.
  pub keep_last-append :
      (max : ℕ) (xs : List A) (x : A)
      → 1 ≤ max
      → keep_last max (xs ++ x ∷ []) ≡ keep_last (max - 1) xs ++ x ∷ []
  unfolding keep_last
  keep_last-append max xs x h = elim (Bool-cases (ltb max (length (xs ++ x ∷ [])))) [
    | inl long ↦
        let more : ltb (max - 1) (length xs) ≡ true =
          lt→ltb _ _
            (omega (arith, length-append xs (x ∷ []), ltb→lt max (length (xs ++ x ∷ [])) long)) in
        let cut : length (xs ++ x ∷ []) - max ≡ length xs - (max - 1) =
          omega (arith, length-append xs (x ∷ [])) in
        rw (long, more) (rw cut (drop-append_le (length xs - (max - 1)) xs (x ∷ []) (omega arith)))
    | inr short ↦
        let fits : ltb (max - 1) (length xs) ≡ false =
          le→ltb _ _
            (omega (arith, length-append xs (x ∷ []), ltb→le max (length (xs ++ x ∷ [])) short)) in
        rw (short, fits)
  ]

module _ {F : Type 0} (s : Session F) (max_timestamps max_history : ℕ) where
  -- `trim` cuts both histories to their limits by dropping their oldest entries, and drops nothing
  -- more; trimming twice is trimming once.
  pub trim_lem :
      let t = trim s max_timestamps max_history in
      (length t.timestamps ≡ min (length s.timestamps) max_timestamps)
      × (take (length s.timestamps - max_timestamps) s.timestamps ++ t.timestamps ≡ s.timestamps)
      × (length t.prompt_history ≡ min (length s.prompt_history) max_history)
      × (take (length s.prompt_history - max_history) s.prompt_history ++ t.prompt_history
          ≡ s.prompt_history)
      × (trim t max_timestamps max_history ≡ t)
  unfolding trim
  trim_lem = (
    length-keep_last max_timestamps s.timestamps,
    keep_last-suffix max_timestamps s.timestamps,
    length-keep_last max_history s.prompt_history,
    keep_last-suffix max_history s.prompt_history,
    rw (
      keep_last-keep_last max_timestamps s.timestamps,
      keep_last-keep_last max_history s.prompt_history,
    ),
  )
