-- ===== src/Scoring/Divergence/Similarity.antt =====
-- engine/src/scoring/divergence.rs: the symmetry of the D-Score.
use vyse.Prelude.{◌≡◌, refl, List, [], ◌∷◌}
use vyse.Float.{Float}
use vyse.Scoring.Divergence.{products, norm, cosine_similarity, compute}

module _ {F : Type 0} ⦃f : Float F⦄ where
  module _ (mul_comm : (x y : F) → f.mul x y ≡ f.mul y x) where
    products_comm : (a b : List F) → products a b ≡ products b a
    products_comm [] [] = refl
    products_comm [] (y ∷ b) = refl
    products_comm (x ∷ a) [] = refl
    products_comm (x ∷ a) (y ∷ b) = rw (mul_comm x y, products_comm a b)

    -- The D-Score does not depend on which of the two embeddings is the earlier one.
    pub compute_comm :
        (current previous : List F) → compute current previous ≡ compute previous current
    unfolding compute cosine_similarity
    compute_comm [] [] = refl
    compute_comm [] (y ∷ b) = refl
    compute_comm (x ∷ a) [] = refl
    compute_comm (x ∷ a) (y ∷ b) =
        rw (mul_comm (norm (x ∷ a)) (norm (y ∷ b)), products_comm (x ∷ a) (y ∷ b))
