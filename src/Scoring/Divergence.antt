-- ===== src/Scoring/Divergence.antt =====
-- engine/src/scoring/divergence.rs: the D-Score, a cosine similarity of two embeddings.
-- `debug_assert_eq!` is left out, as in a release build.
pub mod Similarity
use vyse.Prelude.{Bool, ◌||◌, List, [], ◌∷◌, map, is_empty, if◌then◌else◌}
use vyse.Float.{Float, zero_f, one_f, clamp, sum_f}

module _ {F : Type 0} ⦃f : Float F⦄ where
  -- `a.iter().zip(b.iter()).map(|(x, y)| x * y)`; `zip` stops at the shorter one
  abbrev pub products : List F → List F → List F
  products [] _ = []
  products (x ∷ a) [] = []
  products (x ∷ a) (y ∷ b) = f.mul x y ∷ products a b

  abbrev pub dot : List F → List F → F
  dot a b = sum_f (products a b)

  abbrev pub norm : List F → F
  norm a = f.sqrt (sum_f (map (λ x. f.mul x x) a))

  unfoldable pub cosine_similarity : List F → List F → F
  cosine_similarity a b =
      let denom = f.mul (norm a) (norm b) in
      if f.lt denom f.epsilon then zero_f else clamp (f.div (dot a b) denom) zero_f one_f

  unfoldable pub compute : List F → List F → F
  compute current previous =
      if is_empty current || is_empty previous then zero_f else cosine_similarity current previous
