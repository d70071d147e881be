-- ===== src/Scoring/Anomaly/Percentile.antt =====
-- engine/src/scoring/anomaly.rs, `AnomalyModel::score`: it scores where no Z-score is NaN, by the
-- fourth of the five Z-scores in order, and the score is one.
use vyse.Prelude.{
  suc, ◌≡◌, refl, inl, inr, some, List, [], ◌∷◌, length, All, arith, Bool-cases, ◌∙◌,
}
use mathlib.Core.List.{Perm}
use mathlib.Core.List.Perm
use vyse.Float.{Float, IsNum, IsScore, ◌≼◌, IsOrdered}
use vyse.Float.Clamp.{clamp-IsScore}
use vyse.Scoring.Anomaly.{FeatureVector, AnomalyModel}
use vyse.Scoring.Anomaly.Sort.{insert, sort}
use vyse.Scoring.Anomaly.Model.{normalise, z_scores, score}

module _ {D : Type 0} ⦃d : Float D⦄ where
  -- Each item is at most every later one.
  abbrev pub IsSorted : List D → Type 0
  IsSorted [] = Unit
  IsSorted (x ∷ xs) = All (λ y. x ≼ y) xs × IsSorted xs

module _ {D : Type 0} ⦃d : Float D⦄ (laws : IsOrdered D) where
  All-le_trans : (x y : D) (zs : List D) → x ≼ y → All (λ z. y ≼ z) zs → All (λ z. x ≼ z) zs
  All-le_trans x y [] h k = tt
  All-le_trans x y (z ∷ zs) h (p, k) = (laws.le_trans x y z h p, All-le_trans x y zs h k)

  -- Inserting a number into a sorted list of numbers succeeds, and keeps it sorted and the same
  -- up to order.
  record Inserted (x : D) (ys : List D) : Type 0 where
    out : List D
    done : insert x ys ≡ some out
    sorted : IsSorted out
    perm : Perm out (x ∷ ys)
    below : (w : D) → w ≼ x → All (λ z. w ≼ z) ys → All (λ z. w ≼ z) out
    nums : All IsNum out
    size : length out ≡ suc (length ys)

  insert-Inserted : (x : D) (ys : List D) → IsNum x → All IsNum ys → IsSorted ys → Inserted x ys
  unfolding insert
  insert-Inserted x [] nx ns s = record {
    out = x ∷ [];
    done = refl;
    sorted = (tt, tt);
    perm = Perm.refl (x ∷ []);
    below = λ w h _. (h, tt);
    nums = (nx, tt);
    size = refl;
  }
  insert-Inserted x (y ∷ ys) nx (ny, ns) (least, s) = elim (Bool-cases (d.le x y)) [
    | inl first ↦ record {
      out = x ∷ y ∷ ys;
      done = ground arith;
      sorted = ((first, All-le_trans x y ys first least), (least, s));
      perm = Perm.refl (x ∷ y ∷ ys);
      below = λ w h k. (h, k);
      nums = (nx, (ny, ns));
      size = refl;
    }
    | inr later ↦
        let rest = insert-Inserted x ys nx ns s in
        let y_le : y ≼ x = ground (arith, laws.le_total x y nx ny) in
        record {
          out = y ∷ rest.out;
          done = ground (arith, rest.done);
          sorted = (rest.below y y_le least, rest.sorted);
          perm = Perm.trans (Perm.cons y rest.perm) (Perm.swap x y ys);
          below = λ w h k. (k.0, rest.below w h k.1);
          nums = (ny, rest.nums);
          size = omega (arith, rest.size);
        }
  ]

  -- Sorting numbers succeeds.
  record Sorted (xs : List D) : Type 0 where
    out : List D
    done : sort xs ≡ some out
    sorted : IsSorted out
    perm : Perm out xs
    nums : All IsNum out
    size : length out ≡ length xs

  sort-Sorted : (xs : List D) → All IsNum xs → Sorted xs
  unfolding sort
  sort-Sorted [] ns = record {
    out = [];
    done = refl;
    sorted = tt;
    perm = Perm.refl [];
    nums = tt;
    size = refl;
  }
  sort-Sorted (x ∷ xs) (nx, ns) =
      let rest = sort-Sorted xs ns in
      let ins = insert-Inserted x rest.out nx rest.nums rest.sorted in
      record {
        out = ins.out;
        done = rw (rest.done) (ins.done);
        sorted = ins.sorted;
        perm = Perm.trans (ins.perm) (Perm.cons x rest.perm);
        nums = ins.nums;
        size = omega (arith, ins.size, rest.size);
      }

five {ℓ} :
    {A : Type ℓ} (xs : List A) → length xs ≡ 5 → (a b c p e : A) × (xs ≡ a ∷ b ∷ c ∷ p ∷ e ∷ [])
five [] h = absurd (omega arith)
five (a ∷ []) h = absurd (omega arith)
five (a ∷ b ∷ []) h = absurd (omega arith)
five (a ∷ b ∷ c ∷ []) h = absurd (omega arith)
five (a ∷ b ∷ c ∷ p ∷ []) h = absurd (omega arith)
five (a ∷ b ∷ c ∷ p ∷ e ∷ []) h = (a, b, c, p, e, refl)
five (a ∷ b ∷ c ∷ p ∷ e ∷ g ∷ r) h = absurd (omega arith)

-- Where the five Z-scores are numbers, `score` does not panic: it is the sigmoid of the fourth of
-- them in ascending order, and it lies in the unit interval or is NaN.
pub score-percentile :
    {F D : Type 0} ⦃f : Float F⦄ ⦃d : Float D⦄ (laws_f : IsOrdered F) (laws_d : IsOrdered D)
    (widen : F → D) (narrow : D → F) (m : AnomalyModel D) (v : FeatureVector F)
    → All IsNum (z_scores widen m v)
    → (a b c p75 e : D) × Perm (a ∷ b ∷ c ∷ p75 ∷ e ∷ []) (z_scores widen m v)
      × IsSorted (a ∷ b ∷ c ∷ p75 ∷ e ∷ [])
      × (score widen narrow m v ≡ some (normalise narrow p75))
      × IsScore {F = F} (normalise narrow p75)
score-percentile {D} laws_f laws_d widen narrow m v ns =
    let s = sort-Sorted laws_d (z_scores widen m v) ns in
    let (a, b, c, p, e, same) = five s.out (s.size ∙ count) in
    (
      a,
      b,
      c,
      p,
      e,
      rw same at (s.perm),
      rw same at (s.sorted),
      unfold score in rw (s.done) (rw same),
      unfold normalise in clamp-IsScore laws_f _,
    )
  where
    count : length (z_scores widen m v) ≡ 5
    count = unfold z_scores in refl
