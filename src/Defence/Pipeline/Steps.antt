-- ===== src/Defence/Pipeline/Steps.antt =====
-- engine/src/defence/mod.rs, `run`: which steps are applied at which tier, what they make of
-- the text, and where they panic.
use vyse.Prelude.{
  ℕ, ◌+◌, sym, ◌∙◌, ap, ◌≤◌, ◌<◌, ◌≡◌, ◌≢◌, ◌⊎◌, refl, inl, inr, Bool, true, false, ◌&&◌, ◌==◌,
  ==_iff, none, some, List, [], ◌∷◌, ◌++◌, Text, codes, join, length, take, length-take_le, arith,
  Bool-cases, Option-cases,
}
use mathlib.Core.List.{append-nil, Perm}
use vyse.Prelude.Int.{ℤ}
use vyse.Float.{Float}
use vyse.Words.{split_whitespace}
use vyse.Config.{DefenceConfig}
use vyse.Defence.Random.{RngLaws}
use vyse.Defence.Synonym.{substitutable_from, replacements, substitute}
use vyse.Defence.Synonym.Rewrite.{Rewrites, substitute-Rewrites}
use vyse.Defence.Reorder.{sentences_of}
use vyse.Defence.Reorder.Sentences.{reorder_sentences-Perm}
use vyse.Defence.Pipeline.{
  PipelineResult, Tools, hex_encode, from_le_bytes, first_8, derive_session_seed, ratio_of,
  synonym_step, numeric_step, reorder_step, keep_changed, reorder, apply_steps, run,
}

pub length-hex_encode : (bs : List ℕ) (n : ℕ) → length bs ≡ n → length (hex_encode bs) ≡ n + n
unfolding hex_encode
length-hex_encode [] n e = omega (arith, e)
length-hex_encode (b ∷ bs) n e = omega (arith, length-hex_encode bs (length bs) refl)

first_8-some : (bs : List ℕ) → 8 ≤ length bs → first_8 bs ≡ some (take 8 bs)
unfolding first_8
first_8-some bs h = ground arith

module _ {F G : Type 0} ⦃f : Float F⦄ (tools : Tools F G) (cfg : DefenceConfig F) where
  -- What the first step makes of a text: with no word of the table, nothing; else as many words as
  -- the ratio asks for are replaced by synonyms.
  abbrev pub IsSubstituted : F → Text → Text → Type 0
  IsSubstituted ratio text text' =
      let words = split_whitespace tools.unicode text in
      let n = length (substitutable_from tools.unicode 0 words) in
      ((n ≡ 0) × (text' ≡ text))
      ⊎ ((out : List Text) × (1 ≤ n)
          × Rewrites tools.unicode (replacements n ratio) words out
          × (text' ≡ join (codes " ") out))

  -- The second step is named exactly where the numbers were changed, and only then is the text that
  -- it made taken over.
  abbrev pub IsShifted : Text → Text × Bool × G → Text → List Text → Type 0
  IsShifted text perturbed text' steps =
      ((perturbed.1 ≡ false) × (text' ≡ text) × (steps ≡ []))
      ⊎ ((perturbed.1 ≡ true) × (text' ≡ perturbed.0) × (steps ≡ numeric_step tools cfg ∷ []))

  -- The third step is named exactly where the sentences were put in some order: at the third tier,
  -- where the configuration has it on and there are three of them.
  abbrev pub IsReordered : ℕ → Text → Text → List Text → Type 0
  IsReordered tier text text' steps =
      let sentences = sentences_of tools.unicode text in
      (((tier ≢ 3) ⊎ (cfg.reorder_sentences ≡ false) ⊎ (length sentences < 3))
        × (text' ≡ text)
        × (steps ≡ []))
      ⊎ ((tier ≡ 3)
          × (cfg.reorder_sentences ≡ true)
          × (3 ≤ length sentences)
          × ((out : List Text) × Perm sentences out × (text' ≡ join (codes ". ") out))
          × (steps ≡ reorder_step tools ∷ []))

  keep_changed-IsShifted :
      (text : Text) (steps : List Text) (perturbed : Text × Bool × G)
      → let kept = keep_changed tools text steps (numeric_step tools cfg) perturbed in
        (more : List Text) × IsShifted text perturbed kept.0 more × (kept.1 ≡ steps ++ more)
  keep_changed-IsShifted text steps (changed, true, g) =
      (numeric_step tools cfg ∷ [], inr (refl, refl, refl), refl)
  keep_changed-IsShifted text steps (changed, false, g) =
      ([], inl (refl, refl, refl), sym (append-nil steps))

  off-IsReordered :
      (tier : ℕ)
      → (tier == 3 && cfg.reorder_sentences) ≡ false
      → (tier ≢ 3) ⊎ (cfg.reorder_sentences ≡ false)
  off-IsReordered tier off = elim (Bool-cases (tier == 3)) [
    | inl three ↦ inr (ground arith)
    | inr other ↦ inl (λ three. ground (arith, ==_iff tier 3))
  ]

  -- A perturbed response with its steps: each text is made of the one before.
  pub record Applied (tier : ℕ) (substituted : Text) (perturbed : Text × Bool × G) (served : Text)
      (steps : List Text) : Type 0 where
    pub text : Text
    pub numeric : List Text
    pub reordered : List Text
    pub shifted : IsShifted substituted perturbed text numeric
    pub permuted : IsReordered tier text served reordered
    pub same : steps ≡ synonym_step tools (ratio_of tools tier cfg) ∷ (numeric ++ reordered)

  -- The generator that the seed of a session gives.
  abbrev pub generator : Text → ℤ → G
  generator hash start =
      tools.seed_from_u64 (from_le_bytes (take 8 (tools.hmac_sha256 hash (tools.show_i64 start))))

module _ {F G : Type 0} ⦃f : Float F⦄ (tools : Tools F G) (laws : RngLaws tools.rng)
    (cfg : DefenceConfig F) where
  substitute-IsSubstituted :
      (ratio : F) (text : Text) (g : G)
      → (out : Text × G) × (substitute tools.rng tools.unicode text ratio g ≡ some out)
        × IsSubstituted tools cfg ratio text out.0
  substitute-IsSubstituted ratio text g =
      elim (substitute-Rewrites tools.rng laws tools.unicode text ratio g) [
        | inl (missing, e) ↦ ((text, g), e, inl (missing, refl))
        | inr (least, most, (out, g', r, e)) ↦ ((_, g'), e, inr (out, omega arith, r, refl))
      ]

  reorder-IsReordered :
      (tier : ℕ) (text : Text) (steps : List Text) (g : G)
      → (out : Text × List Text × G) × (reorder tools tier cfg (text, steps, g) ≡ some out)
        × ((more : List Text) × IsReordered tools cfg tier text out.0 more
            × (out.1 ≡ steps ++ more))
  unfolding reorder
  reorder-IsReordered tier text steps g = elim (Bool-cases (tier == 3 && cfg.reorder_sentences)) [
    | inr off ↦ (
      (text, steps, g),
      rw off refl,
      ([], inl (why (off-IsReordered tools cfg tier off), refl, refl), sym (append-nil steps)),
    )
    | inl on ↦ elim (reorder_sentences-Perm tools.rng tools.unicode laws.in_range text g) [
      | inl (few, e) ↦ (
        (text, steps, g),
        rw on (rw e refl),
        ([], inl (inr (inr few), refl, refl), sym (append-nil steps)),
      )
      | inr (many, (out, g', p, e)) ↦ (
        (join (codes ". ") out, steps ++ reorder_step tools ∷ [], g'),
        rw on (rw e refl),
        (
          reorder_step tools ∷ [],
          inr (ground arith, ground arith, many, (out, p, refl), refl),
          refl,
        ),
      )
    ]
  ]
    where
      why :
          {few : Type 0}
          → (tier ≢ 3) ⊎ (cfg.reorder_sentences ≡ false)
          → (tier ≢ 3) ⊎ (cfg.reorder_sentences ≡ false) ⊎ few
      why (inl other) = inl other
      why (inr off) = inr (inl off)

  apply_steps-Applied :
      (clean_response : Text) (tier : ℕ) (g : G) (substituted : Text × G)
      (perturbed : Text × Bool × G)
      → substitute tools.rng tools.unicode clean_response (ratio_of tools tier cfg) g
        ≡ some substituted
      → tools.perturb substituted.0 cfg.numeric_perturb_pct substituted.1 ≡ some perturbed
      → (out : Text × List Text × G) × (apply_steps tools clean_response tier cfg g ≡ some out)
        × Applied tools cfg tier substituted.0 perturbed out.0 out.1
  unfolding apply_steps
  apply_steps-Applied clean_response tier g substituted perturbed e e' =
      let first = synonym_step tools (ratio_of tools tier cfg) ∷ [] in
      let kept = keep_changed tools substituted.0 first (numeric_step tools cfg) perturbed in
      let (numeric, shifted, same) =
        keep_changed-IsShifted tools cfg substituted.0 first perturbed in
      let (out, e'', (more, permuted, same')) = reorder-IsReordered tier kept.0 kept.1 kept.2 in
      (
        out,
        rw e (rw e' e''),
        record {
          text = kept.0;
          numeric = numeric;
          reordered = more;
          shifted = shifted;
          permuted = permuted;
          same = same' ∙ ap (λ l. l ++ more) same;
        },
      )

  -- The first tier is served the clean response, with no step and no seed. At any other tier the
  -- words are substituted first, without a panic. Then `run` panics exactly where `numeric::perturb`
  -- panics on the text with its words substituted; if it does not, the response that is served is
  -- made of the perturbed text if that was flagged as changed, and of the text before it else, with
  -- its sentences in some order at the third tier if the configuration says so and there are three;
  -- the steps name just what was done, and the seed is given by sixteen digits. (HMAC-SHA256 gives
  -- at least eight bytes, and the generator tools cfg draws as documented.)
  pub run-Applied :
      ((key message : Text) → 8 ≤ length (tools.hmac_sha256 key message))
      → (clean_response : Text) (tier : ℕ) (hash : Text) (start : ℤ)
      → ((tier ≡ 1)
          × (run tools clean_response tier hash start cfg
              ≡ some (record {
                served_response = clean_response;
                steps_applied = [];
                noise_seed_hex = [];
              })))
        ⊎ ((tier ≢ 1)
            × ((substituted : Text × G) × IsSubstituted tools cfg
                  (ratio_of tools tier cfg)
                  clean_response
                  substituted.0
                × (substitute tools.rng tools.unicode clean_response
                      (ratio_of tools tier cfg)
                      (generator tools cfg hash start)
                    ≡ some substituted)
                × (((tools.perturb substituted.0 cfg.numeric_perturb_pct substituted.1 ≡ none)
                      × (run tools clean_response tier hash start cfg ≡ none))
                    ⊎ ((perturbed : Text × Bool × G) × (res : PipelineResult) × (tools.perturb
                            substituted.0 cfg.numeric_perturb_pct substituted.1
                          ≡ some perturbed)
                        × (run tools clean_response tier hash start cfg ≡ some res)
                        × (length res.noise_seed_hex ≡ 16)
                        × Applied tools cfg tier substituted.0 perturbed res.served_response
                            res.steps_applied))))
  unfolding run derive_session_seed
  run-Applied long clean_response tier hash start = elim (Bool-cases (tier == 1)) [
    | inl clean ↦ inl (ground (arith, ==_iff tier 1), rw clean refl)
    | inr other ↦
        let bytes = tools.hmac_sha256 hash (tools.show_i64 start) in
        let cut = first_8-some bytes (long hash (tools.show_i64 start)) in
        let g = generator tools cfg hash start in
        let (substituted, e, rewritten) =
          substitute-IsSubstituted (ratio_of tools tier cfg) clean_response g in
        inr (
          (λ one. ground (arith, ==_iff tier 1)),
          (
            substituted,
            rewritten,
            e,
            elim (Option-cases
                (tools.perturb substituted.0 cfg.numeric_perturb_pct substituted.1)) [
                  | inl panic ↦
                      inl (panic, rw other (rw cut (unfold apply_steps in rw e (rw panic refl))))
                  | inr (perturbed, e') ↦
                      let (out, e'', applied) =
                        apply_steps-Applied clean_response tier g substituted perturbed e e' in
                      inr (
                        perturbed,
                        record {
                          served_response = out.0;
                          steps_applied = out.1;
                          noise_seed_hex = hex_encode (take 8 bytes);
                        },
                        e',
                        rw other (rw cut (rw e'' refl)),
                        length-hex_encode (take 8 bytes) 8
                            (length-take_le 8 bytes (long hash (tools.show_i64 start))),
                        applied,
                      )
                ],
          ),
        )
  ]
