-- ===== src/Scoring/Entropy/Frequency.antt =====
-- engine/src/scoring/entropy.rs: the frequency table counts each bigram of the window.
use vyse.Prelude.{
  ℕ, suc, ◌+◌, ◌^◌, ◌≤◌, ◌<◌, ◌≡◌, refl, sym, ◌∙◌, ◌↔◌, true, List, [], ◌∷◌, ◌++◌, length, Text,
  text_eq_iff, Bool-cases, inl, inr, arith, if◌then◌else◌, All,
}
use vyse.Words.{Unicode, split_whitespace}
use vyse.Scoring.Entropy.{
  Bigram, Freq, Counts, same_bigram, count_bigram, add_one_u32, bigrams, count_all, count_prompts,
  no_counts,
}

-- How often a bigram stands in a list.
unfoldable pub occurrences : Bigram → List Bigram → ℕ
occurrences b [] = 0
occurrences b (x ∷ xs) = if same_bigram x b then suc (occurrences b xs) else occurrences b xs

-- The entry of a bigram in the table, 0 where there is none.
unfoldable pub frequency : Bigram → Freq → ℕ
frequency b [] = 0
frequency b ((k, n) ∷ rest) = if same_bigram k b then n else frequency b rest

-- The sum of the table's counts.
unfoldable pub total_of : Freq → ℕ
total_of [] = 0
total_of ((k, n) ∷ rest) = n + total_of rest

-- All bigrams of the prompts, in order.
unfoldable pub all_bigrams : Unicode → List Text → List Bigram
all_bigrams u [] = []
all_bigrams u (p ∷ ps) = bigrams u (split_whitespace u p) ++ all_bigrams u ps

same_bigram_iff : (a b : Bigram) → (same_bigram a b ≡ true) ↔ (a ≡ b)
unfolding same_bigram
same_bigram_iff (a, b) (c, d) = ground (arith, text_eq_iff a c, text_eq_iff b d)

frequency-count_bigram :
    (b c : Bigram) (fr : Freq)
    → total_of fr + 1 < 2 ^ 32
    → frequency b (count_bigram c fr) ≡ frequency b fr + (if same_bigram c b then 1 else 0)
unfolding frequency count_bigram total_of
frequency-count_bigram b c [] h = ground arith
frequency-count_bigram b c ((k, n) ∷ rest) h = ground (
  arith,
  same_bigram_iff k c,
  same_bigram_iff k b,
  same_bigram_iff c b,
  frequency-count_bigram b c rest (omega arith),
)

total_of-count_bigram :
    (c : Bigram) (fr : Freq)
    → total_of fr + 1 < 2 ^ 32
    → total_of (count_bigram c fr) ≡ total_of fr + 1
unfolding count_bigram total_of
total_of-count_bigram c [] h = omega arith
total_of-count_bigram c ((k, n) ∷ rest) h =
    ground (arith, total_of-count_bigram c rest (omega arith))

-- Each entry counts something, and no entry counts more than the whole table.
abbrev IsCounted : ℕ → Freq → Type 0
IsCounted top = All (λ e. (1 ≤ e.1) × (e.1 ≤ top))

IsCounted-mono : (m n : ℕ) (fr : Freq) → m ≤ n → IsCounted m fr → IsCounted n fr
IsCounted-mono m n [] h c = tt
IsCounted-mono m n (e ∷ fr) h ((lo, hi), c) = ((lo, omega arith), IsCounted-mono m n fr h c)

IsCounted-total_of : (fr : Freq) → All (λ e. 1 ≤ e.1) fr → IsCounted (total_of fr) fr
unfolding total_of
IsCounted-total_of [] h = tt
IsCounted-total_of ((k, n) ∷ rest) (p, h) = (
  (p, omega arith),
  IsCounted-mono (total_of rest) (n + total_of rest) rest (omega arith) (IsCounted-total_of rest h),
)

count_bigram-positive :
    (c : Bigram) (fr : Freq)
    → total_of fr + 1 < 2 ^ 32
    → All (λ e. 1 ≤ e.1) fr
    → All (λ e. 1 ≤ e.1) (count_bigram c fr)
unfolding count_bigram total_of
count_bigram-positive c [] h p = (omega arith, tt)
count_bigram-positive c ((k, n) ∷ rest) h (p, ps) = elim (Bool-cases (same_bigram k c)) [
  | inl same ↦ rw same (omega arith, ps)
  | inr other ↦ rw other (p, count_bigram-positive c rest (omega arith) ps)
]

-- The table after the bigrams `bs` have been counted in the table `old`.
record Counted (bs : List Bigram) (old new : Counts) : Type 0 where
  frequency : (b : Bigram) → frequency b new.freq ≡ frequency b old.freq + occurrences b bs
  total : new.total ≡ old.total + length bs
  sum : total_of new.freq ≡ new.total
  positive : All (λ e. 1 ≤ e.1) new.freq

count_all-Counted :
    (bs : List Bigram) (c : Counts)
    → c.total + length bs < 2 ^ 32
    → total_of c.freq ≡ c.total
    → All (λ e. 1 ≤ e.1) c.freq
    → Counted bs c (count_all bs c)
unfolding count_all occurrences
count_all-Counted [] c h s p = record {
  frequency = λ b. omega arith;
  total = omega arith;
  sum = s;
  positive = p;
}
count_all-Counted (b ∷ bs) c h s p =
    let small : total_of c.freq + 1 < 2 ^ 32 = omega arith in
    let next : Counts = record { freq = count_bigram b c.freq; total = add_one_u32 c.total } in
    let rest =
      count_all-Counted bs next (omega arith) (omega (arith, total_of-count_bigram b c.freq small))
        (count_bigram-positive b c.freq small p) in
    record {
      frequency = λ d. ground (arith, rest.frequency d, frequency-count_bigram d b c.freq small);
      total = omega (arith, rest.total);
      sum = rest.sum;
      positive = rest.positive;
    }

count_all-append :
    (bs cs : List Bigram) (c : Counts) → count_all (bs ++ cs) c ≡ count_all cs (count_all bs c)
unfolding count_all
count_all-append [] cs c = refl
count_all-append (b ∷ bs) cs c =
    count_all-append bs cs (record { freq = count_bigram b c.freq; total = add_one_u32 c.total })

count_prompts-eq-count_all :
    (u : Unicode) (prompts : List Text) (c : Counts)
    → count_prompts u prompts c ≡ count_all (all_bigrams u prompts) c
unfolding count_prompts all_bigrams count_all
count_prompts-eq-count_all u [] c = refl
count_prompts-eq-count_all u (p ∷ ps) c =
    let here = bigrams u (split_whitespace u p) in
    count_prompts-eq-count_all u ps (count_all here c)
    ∙ sym (count_all-append here (all_bigrams u ps) c)

-- Short of 2^32 bigrams, the table that the loops build holds for each bigram the number of times
-- that it stands in the prompts, `total` is the number of all bigrams and the sum of the table,
-- and each entry lies between 1 and `total`, so that `p` is a proper fraction.
pub count_prompts-frequency :
    (u : Unicode) (prompts : List Text)
    → length (all_bigrams u prompts) < 2 ^ 32
    → let c = count_prompts u prompts no_counts in
      ((b : Bigram) → frequency b c.freq ≡ occurrences b (all_bigrams u prompts))
      × (c.total ≡ length (all_bigrams u prompts))
      × (total_of c.freq ≡ c.total)
      × All (λ e. (1 ≤ e.1) × (e.1 ≤ c.total)) c.freq
unfolding total_of frequency
count_prompts-frequency u prompts h =
    let bs = all_bigrams u prompts in
    let done = count_all-Counted bs no_counts (omega arith) refl tt in
    rw (count_prompts-eq-count_all u prompts no_counts) (
      (λ b. omega (arith, done.frequency b)),
      omega (arith, done.total),
      done.sum,
      rw (done.sum) at (IsCounted-total_of (count_all bs no_counts).freq done.positive),
    )
