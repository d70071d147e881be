-- ===== src/Defence/Reorder/Shuffle.antt =====
-- engine/src/defence/mod.rs, `reorder_sentences`: the shuffle of the indices permutes them, and
-- so the sentences.
use vyse.Prelude.{
  ℕ, zero, suc, ◌<◌, ◌≡◌, refl, sym, ap, inl, inr, some, List, [], ◌∷◌, length, get_elem?, arith,
  Option-cases,
}
use mathlib.Core.List.{Permᴰ}
use mathlib.Core.List.Permᴰ
use vyse.Defence.Random.{Rng, IsInRange}
use vyse.Defence.Reorder.{replace, swap, range_from, pick, shuffle_down}

module _ {ℓ} {A : Type ℓ} where
  record Replaced (j : ℕ) (y : A) (xs : List A) : Type ℓ where
    item : A
    out : List A
    done : replace j y xs ≡ some (item, out)
    perm : Permᴰ (y ∷ xs) (item ∷ out)
    size : length out ≡ length xs

  replace-Replaced : (j : ℕ) (y : A) (xs : List A) → j < length xs → Replaced j y xs
  unfolding replace
  replace-Replaced j y [] h = absurd (omega arith)
  replace-Replaced zero y (x ∷ xs) h = record {
    item = x;
    out = y ∷ xs;
    done = refl;
    perm = Permᴰ.swap refl refl;
    size = refl;
  }
  replace-Replaced (suc j) y (x ∷ xs) h =
      let rest = replace-Replaced j y xs (omega arith) in
      record {
        item = rest.item;
        out = x ∷ rest.out;
        done = rw rest.done;
        perm =
            Permᴰ.trans (Permᴰ.swap refl refl)
              (Permᴰ.trans (Permᴰ.cons refl rest.perm) (Permᴰ.swap refl refl));
        size = omega (arith, rest.size);
      }

  record Swapped (i j : ℕ) (xs : List A) : Type ℓ where
    out : List A
    done : swap i j xs ≡ some out
    perm : Permᴰ xs out
    size : length out ≡ length xs

  swap-Swapped : (i j : ℕ) (xs : List A) → i < length xs → j < length xs → Swapped i j xs
  unfolding swap
  swap-Swapped i j [] h k = absurd (omega arith)
  swap-Swapped zero zero (x ∷ xs) h k = record {
    out = x ∷ xs;
    done = refl;
    perm = Permᴰ.refl (x ∷ xs);
    size = refl;
  }
  swap-Swapped zero (suc j) (x ∷ xs) h k =
      let r = replace-Replaced j x xs (omega arith) in
      record { out = r.item ∷ r.out; done = rw r.done; perm = r.perm; size = omega (arith, r.size) }
  swap-Swapped (suc i) zero (x ∷ xs) h k =
      let r = replace-Replaced i x xs (omega arith) in
      record { out = r.item ∷ r.out; done = rw r.done; perm = r.perm; size = omega (arith, r.size) }
  swap-Swapped (suc i) (suc j) (x ∷ xs) h k =
      let r = swap-Swapped i j xs (omega arith) (omega arith) in
      record {
        out = x ∷ r.out;
        done = rw r.done;
        perm = Permᴰ.cons refl r.perm;
        size = omega (arith, r.size);
      }

  module _ {G : Type 0} (rng : Rng G) (drawn : IsInRange rng) where
    -- A shuffle that starts at an index of the list does not panic, and permutes the list.
    pub shuffle_down-Permᴰ :
        (i : ℕ) (g : G) (xs : List A)
        → i < length xs
        → (out : List A) × (g' : G) × (shuffle_down rng i g xs ≡ some (out, g')) × Permᴰ xs out
    unfolding shuffle_down
    shuffle_down-Permᴰ zero g xs h = (xs, g, refl, Permᴰ.refl xs)
    shuffle_down-Permᴰ (suc i) g xs h =
        let (j, g₁) = rng.gen_range g (suc i) in
        let s = swap-Swapped (suc i) j xs h (omega (arith, drawn g (suc i))) in
        let (out, g', e, p) = shuffle_down-Permᴰ i g₁ s.out (omega (arith, s.size)) in
        (out, g', rw (s.done) e, Permᴰ.trans s.perm p)

  record Picked (xs : List A) (i : ℕ) (is : List ℕ) (out : List A) : Type ℓ where
    item : A
    rest : List A
    found : get_elem? xs i ≡ some item
    picked : pick xs is ≡ some rest
    same : item ∷ rest ≡ out

  pick-Picked :
      (xs : List A) (i : ℕ) (is : List ℕ) (out : List A)
      → pick xs (i ∷ is) ≡ some out
      → Picked xs i is out
  unfolding pick
  pick-Picked xs i is out e = elim (Option-cases (get_elem? xs i)) [
    | inl panic ↦ absurd (ground arith)
    | inr (x, found) ↦ elim (Option-cases (pick xs is)) [
      | inl panic ↦ absurd (ground arith)
      | inr (rest, picked) ↦ record {
        item = x;
        rest = rest;
        found = found;
        picked = picked;
        same = ground arith;
      }
    ]
  ]

  pick-cons :
      (xs : List A) (i : ℕ) (is : List ℕ) (x : A) (rest : List A)
      → get_elem? xs i ≡ some x
      → pick xs is ≡ some rest
      → pick xs (i ∷ is) ≡ some (x ∷ rest)
  unfolding pick
  pick-cons xs i is x rest found picked = rw found (rw picked)

  -- Permuted indices pick the same items, permuted.
  pub pick-Permᴰ :
      (xs : List A) (is js : List ℕ) (a : List A)
      → Permᴰ is js
      → pick xs is ≡ some a
      → (b : List A) × (pick xs js ≡ some b) × Permᴰ a b
  pick-Permᴰ xs [] [] a Permᴰ.nil e = (a, e, Permᴰ.refl a)
  pick-Permᴰ xs (i ∷ is) (j ∷ js) a (Permᴰ.cons same p) e =
      let h = pick-Picked xs i is a e in
      let (b, picked, q) = pick-Permᴰ xs is js h.rest p h.picked in
      (
        h.item ∷ b,
        pick-cons xs j js h.item b (rw same at (h.found)) picked,
        rw (sym h.same) (Permᴰ.cons refl q),
      )
  pick-Permᴰ xs (i ∷ j ∷ is) (i' ∷ j' ∷ js) a (Permᴰ.swap same same') e =
      let first = pick-Picked xs i (j ∷ is) a e in
      let second = pick-Picked xs j is first.rest first.picked in
      (
        second.item ∷ first.item ∷ second.rest,
        pick-cons xs i' (j' ∷ is) second.item (first.item ∷ second.rest)
            (rw same' at (second.found))
            (pick-cons xs j' is first.item second.rest (rw same at (first.found)) second.picked),
        rw (sym first.same) (rw (sym second.same) (Permᴰ.swap refl refl)),
      )
  pick-Permᴰ xs is js a (Permᴰ.trans {l₂} p q) e =
      let (b, picked, s) = pick-Permᴰ xs is l₂ a p e in
      let (c, picked', t) = pick-Permᴰ xs l₂ js b q picked in (c, picked', Permᴰ.trans s t)

  pick-shift :
      (x : A) (xs : List A) (start n : ℕ)
      → pick (x ∷ xs) (range_from (suc start) n) ≡ pick xs (range_from start n)
  unfolding pick
  pick-shift x xs start zero = refl
  pick-shift x xs start (suc n) = rw (pick-shift x xs (suc start) n)

  -- All indices in order pick the whole list.
  pub pick-range : (xs : List A) → pick xs (range_from 0 (length xs)) ≡ some xs
  unfolding pick
  pick-range [] = refl
  pick-range (x ∷ xs) = rw (pick-shift x xs 0 (length xs)) (rw (pick-range xs))

pub length-range_from : (start n : ℕ) → length (range_from start n) ≡ n
length-range_from start zero = refl
length-range_from start (suc n) = ap suc (length-range_from (suc start) n)
