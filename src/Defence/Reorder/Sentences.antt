-- ===== src/Defence/Reorder/Sentences.antt =====
-- engine/src/defence/mod.rs, `reorder_sentences`: what is served is a permutation of the sentences.
use vyse.Prelude.{
  ℕ, ◌-◌, ◌<◌, ◌≤◌, ◌≡◌, ◌⊎◌, refl, inl, inr, ap, true, false, some, List, [], ◌∷◌, Text, codes,
  join, length, arith, Bool-cases, ltb, ltb→lt, ◌==◌, ==_iff, ◌&&◌, ◌∙◌,
}
use mathlib.Core.List.{Perm}
use vyse.Words.{Unicode}
use vyse.Defence.Random.{Rng, IsInRange}
use vyse.Defence.Reorder.{
  onto_first, split_sentences, range_from, sentences_of, shuffle_sentences, reorder_sentences,
}
use vyse.Defence.Reorder.Shuffle.{shuffle_down-Permᴰ, length-range_from, pick-Permᴰ, pick-range}

join-onto_first :
    (c : ℕ) (ts : List Text) → join (codes ". ") (onto_first c ts) ≡ c ∷ join (codes ". ") ts
unfolding join
join-onto_first c [] = refl
join-onto_first c (t ∷ []) = refl
join-onto_first c (t ∷ t' ∷ ts) = refl

split_sentences-cons : (s : Text) → (t : Text) × (ts : List Text) × (split_sentences s ≡ t ∷ ts)
unfolding split_sentences
split_sentences-cons [] = ([], [], refl)
split_sentences-cons (c ∷ []) = (c ∷ [], [], refl)
split_sentences-cons (c ∷ d ∷ s) = elim (Bool-cases (c == 0x2e && d == 0x20)) [
  | inl e ↦ ([], split_sentences s, rw e refl)
  | inr e ↦ let (t, ts, more) = split_sentences-cons (d ∷ s) in (c ∷ t, ts, rw e (rw more refl))
]

join-nil :
    (s : Text)
    → join (codes ". ") ([] ∷ split_sentences s)
      ≡ 0x2e ∷ 0x20 ∷ join (codes ". ") (split_sentences s)
join-nil s = let (t, ts, e) = split_sentences-cons s in rw e (unfold join in refl)

is_separator : (c d : ℕ) → (c == 0x2e && d == 0x20) ≡ true → (c ≡ 0x2e) × (d ≡ 0x20)
is_separator c d h = ground (arith, ==_iff c 0x2e, ==_iff d 0x20)

-- Joining the sentences that a text was split into gives the text.
pub join-split_sentences : (text : Text) → join (codes ". ") (split_sentences text) ≡ text
unfolding split_sentences
join-split_sentences [] = unfold join in refl
join-split_sentences (c ∷ []) = unfold join in refl
join-split_sentences (c ∷ d ∷ s) = elim (Bool-cases (c == 0x2e && d == 0x20)) [
  | inl e ↦
      let (same, same') = is_separator c d e in
      rw e (rw same (rw same' (join-nil s ∙ ap (λ t. 0x2e ∷ 0x20 ∷ t) (join-split_sentences s))))
  | inr e ↦
      rw e (join-onto_first c (split_sentences (d ∷ s)) ∙ ap (◌∷◌ c) (join-split_sentences (d ∷ s)))
]

module _ {G : Type 0} (rng : Rng G) (u : Unicode) (drawn : IsInRange rng) where
  shuffle_sentences-Perm :
      (sentences : List Text) (g : G)
      → 1 ≤ length sentences
      → (out : List Text) × (g' : G) × Perm sentences out
        × (shuffle_sentences rng sentences g ≡ some (join (codes ". ") out, true, g'))
  unfolding shuffle_sentences
  shuffle_sentences-Perm sentences g h =
      let (indices, g', e, p) =
        shuffle_down-Permᴰ rng drawn (length sentences - 1) g (range_from 0 (length sentences))
          (omega (arith, length-range_from 0 (length sentences))) in
      let (out, picked, q) =
        pick-Permᴰ sentences (range_from 0 (length sentences)) indices sentences p
          (pick-range sentences) in
      (out, g', ∣ q ∣₁, rw e (rw picked refl))

  -- A text of fewer than three sentences is served as it is. The sentences of any other one are
  -- served in some order, each of them as often as it was there, joined by the separator; no index
  -- is out of bounds. (The generator draws numbers of the range that it is given.)
  pub reorder_sentences-Perm :
      (text : Text) (g : G)
      → ((length (sentences_of u text) < 3)
          × (reorder_sentences rng u text g ≡ some (text, false, g)))
        ⊎ ((3 ≤ length (sentences_of u text))
            × ((out : List Text) × (g' : G) × Perm (sentences_of u text) out
                × (reorder_sentences rng u text g ≡ some (join (codes ". ") out, true, g'))))
  unfolding reorder_sentences
  reorder_sentences-Perm text g = elim (Bool-cases (ltb (length (sentences_of u text)) 3)) [
    | inl few ↦ inl (ltb→lt _ _ few, rw few refl)
    | inr many ↦
        let three : 3 ≤ length (sentences_of u text) = ground arith in
        let (out, g', p, e) = shuffle_sentences-Perm (sentences_of u text) g (omega arith) in
        inr (three, (out, g', p, rw many e))
  ]
