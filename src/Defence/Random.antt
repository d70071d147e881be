-- ===== src/Defence/Random.antt =====
-- What engine/src/defence uses of the `rand` crate: the generator and its three draws, each with the
-- state of the generator after it, and what the crate documents of them.
use vyse.Prelude.{ℕ, ◌≤◌, ◌≡◌, Option, some, List, ◌∷◌, Text, get_elem?}
use mathlib.Core.List.{Permᴰ}

pub record Rng (G : Type 0) : Type 0 where
  -- `rng.gen_range(0..=i)`
  pub gen_range : G → ℕ → ℕ × G
  -- `positions.shuffle(rng)`
  pub shuffle : G → List ℕ → List ℕ × G
  -- `synonyms.choose(rng)`
  pub choose : G → List Text → Option Text × G

-- The number drawn lies in the range.
abbrev pub IsInRange : {G : Type 0} → Rng G → Type 0
IsInRange {G} rng = (g : G) (i : ℕ) → (rng.gen_range g i).0 ≤ i

pub record RngLaws {G : Type 0} (rng : Rng G) : Type 0 where
  pub in_range : IsInRange rng
  -- The same items, in some order.
  pub shuffle_perm : (g : G) (xs : List ℕ) → Permᴰ xs (rng.shuffle g xs).0
  -- One of the items, if there is any.
  pub choose_some :
      (g : G) (x : Text) (xs : List Text)
      → (k : ℕ) × (s : Text) × (get_elem? (x ∷ xs) k ≡ some s)
        × ((rng.choose g (x ∷ xs)).0 ≡ some s)
