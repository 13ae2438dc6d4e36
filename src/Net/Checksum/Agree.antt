-- ===== src/Net/Checksum/Agree.antt =====
-- `is_valid_ipv4_checksum` beside `ipv4_compute_checksum`: the sums without wrap-around, and the verdicts.
use intrusion_detection.Base.{
  ℕ, zero, suc, ◌+◌, ◌-◌, ◌*◌, ◌%◌, ◌^◌, ◌≤◌, ◌<◌, ◌≡◌, ap, ◌∙◌, true, false, ltb, leb, ◌==◌, arith,
  Bool-cases, inl, inr, ltb→lt,
}
use mathlib.Core.Bool.{◌||◌}
use native.Mathlib.Decide.{ℕ_discrete}
use intrusion_detection.Net.Checksum.{
  Bytes, le32, add64, add_words, header_sum, is_valid_ipv4_checksum, be16, add_halves,
  ipv4_compute_checksum,
}
use intrusion_detection.Net.Checksum.Fold.{fold_carries_lem, folds_lem}

abbrev pub AreBytes : Bytes → Type 0
AreBytes b = (i : ℕ) → b i < 256

-- The sums without wrap-around.
words_sum : Bytes → ℕ → ℕ → ℕ
words_sum b i zero = 0
words_sum b i (suc n) = le32 b i + words_sum b (i + 4) n

unfoldable pub halves_sum : Bytes → ℕ → ℕ → ℕ
halves_sum b i zero = 0
halves_sum b i (suc n) = be16 b i + halves_sum b (i + 2) n

le32-lt : (b : Bytes) (i : ℕ) → AreBytes b → le32 b i < 2 ^ 32
le32-lt b i h = omega (arith, h i, h (i + 1), h (i + 2), h (i + 3))

words_sum-lt : (b : Bytes) (i n : ℕ) → AreBytes b → words_sum b i n ≤ n * (2 ^ 32 - 1)
unfolding words_sum
words_sum-lt b i zero h = omega arith
words_sum-lt b i (suc n) h = omega (arith, le32-lt b i h, words_sum-lt b (i + 4) n h)

pub halves_sum-lt : (b : Bytes) (i n : ℕ) → AreBytes b → halves_sum b i n ≤ n * 65535
unfolding halves_sum
halves_sum-lt b i zero h = omega arith
halves_sum-lt b i (suc n) h = omega (arith, h i, h (i + 1), halves_sum-lt b (i + 2) n h)

words_sum-step :
    (b : Bytes) (i n : ℕ) → 0 < n → words_sum b i n ≡ le32 b i + words_sum b (i + 4) (n - 1)
unfolding words_sum
words_sum-step b i zero h = elim h [ ]
words_sum-step b i (suc n) h = ap (λ k. le32 b i + words_sum b (i + 4) k) (omega arith)

words_sum-four :
    (b : Bytes) (i n : ℕ)
    → words_sum b i (suc (suc (suc (suc n))))
      ≡ le32 b i + le32 b (i + 4) + le32 b (i + 8) + le32 b (i + 12) + words_sum b (i + 16) n
unfolding words_sum
words_sum-four b i n =
    let e₁ : i + 4 + 4 ≡ i + 8 = omega arith in
    let e₂ : i + 4 + 4 + 4 ≡ i + 12 = omega arith in
    let e₃ : i + 4 + 4 + 4 + 4 ≡ i + 16 = omega arith in
    omega (arith, ap (le32 b) e₁, ap (le32 b) e₂, ap (λ k. words_sum b k n) e₃)

words_sum-ge_four :
    (b : Bytes) (i words : ℕ)
    → 4 ≤ words
    → words_sum b i words
      ≡ le32 b i
        + le32 b (i + 4)
        + le32 b (i + 8)
        + le32 b (i + 12)
        + words_sum b (i + 16) (words - 4)
words_sum-ge_four b i words h =
    let e : words ≡ suc (suc (suc (suc (words - 4)))) = omega arith in
    ap (words_sum b i) e ∙ words_sum-four b i (words - 4)

add64-small : (x y : ℕ) → x + y < 2 ^ 64 → add64 x y ≡ x + y
add64-small x y h = omega arith

add_words_lem :
    (fuel : ℕ) (b : Bytes) (i words acc : ℕ)
    → AreBytes b
    → words ≤ fuel
    → acc + words * 2 ^ 32 < 2 ^ 64
    → add_words fuel b i words acc ≡ acc + words_sum b i words
unfolding add_words
add_words_lem zero b i zero acc h hf hs = unfold words_sum in omega arith
add_words_lem zero b i (suc n) acc h hf hs = absurd (omega arith)
add_words_lem (suc fuel) b i words acc h hf hs = elim (Bool-cases (leb 4 words)) [
  | inl many ↦
      let w₀ = le32 b i in
      let w₁ = le32 b (i + 4) in
      let w₂ = le32 b (i + 8) in
      let w₃ = le32 b (i + 12) in
      let room : 4 ≤ words = ground arith in
      let l₀ : w₀ < 2 ^ 32 = le32-lt b i h in
      let l₁ : w₁ < 2 ^ 32 = le32-lt b (i + 4) h in
      let l₂ : w₂ < 2 ^ 32 = le32-lt b (i + 8) h in
      let l₃ : w₃ < 2 ^ 32 = le32-lt b (i + 12) h in
      let four : add64 (add64 (add64 (add64 acc w₀) w₁) w₂) w₃ ≡ acc + w₀ + w₁ + w₂ + w₃ =
        rw (add64-small acc w₀ (omega arith)) (
          rw (add64-small (acc + w₀) w₁ (omega arith)) (
            rw (add64-small (acc + w₀ + w₁) w₂ (omega arith))
              (add64-small (acc + w₀ + w₁ + w₂) w₃ (omega arith)))) in
      rw (many, four)
        (add_words_lem fuel b (i + 16) (words - 4) (acc + w₀ + w₁ + w₂ + w₃) h (omega arith)
            (omega arith)
          ∙ omega (arith, words_sum-ge_four b i words room))
  | inr few ↦ elim (Bool-cases (ltb 0 words)) [
    | inl one ↦
        rw (few, one, add64-small acc (le32 b i) (ground (arith, le32-lt b i h)))
          (add_words_lem fuel b (i + 4) (words - 1) (acc + le32 b i) h (ground arith)
              (ground (arith, le32-lt b i h))
            ∙ omega (arith, words_sum-step b i words (ltb→lt 0 words one)))
    | inr done ↦
        let e : words ≡ 0 = ground arith in rw (few, done, e) (unfold words_sum in omega arith)
  ]
]

header_sum_lem :
    (b : Bytes) (ihl : ℕ) → AreBytes b → 5 ≤ ihl → ihl ≤ 15 → header_sum b ihl ≡ words_sum b 0 ihl
unfolding header_sum words_sum
header_sum_lem b ihl h low high = elim (Bool-cases (ihl == 5)) [
  | inr long ↦ rw long (add_words_lem ihl b 0 ihl 0 h (omega arith) (omega arith) ∙ omega arith)
  | inl short ↦
      let e : ihl ≡ 5 = ground arith in
      let l₀ : le32 b 0 < 2 ^ 32 = le32-lt b 0 h in
      let l₁ : le32 b 4 < 2 ^ 32 = le32-lt b 4 h in
      let l₂ : le32 b 8 < 2 ^ 32 = le32-lt b 8 h in
      let l₃ : le32 b 12 < 2 ^ 32 = le32-lt b 12 h in
      let l₄ : le32 b 16 < 2 ^ 32 = le32-lt b 16 h in rw e (omega arith)
]

pub add_halves_lem :
    (n fuel : ℕ) (b : Bytes) (i sum : ℕ)
    → AreBytes b
    → 2 * n < fuel
    → sum + n * 65536 < 2 ^ 32
    → add_halves fuel b i (2 * n) sum ≡ sum + halves_sum b i n
unfolding add_halves halves_sum
add_halves_lem n zero b i sum h hf hs = elim hf [ ]
add_halves_lem zero (suc fuel) b i sum h hf hs = ground arith
add_halves_lem (suc n) (suc fuel) b i sum h hf hs =
    let len : 2 * suc n - 2 ≡ 2 * n = omega arith in
    let small : (sum + be16 b i) % 2 ^ 32 ≡ sum + be16 b i = omega (arith, h i, h (i + 1)) in
    let many : leb 2 (2 * suc n) ≡ true = ground arith in
    rw (many, len, small)
      (add_halves_lem n fuel b (i + 2) (sum + be16 b i) h (omega arith)
          (omega (arith, h i, h (i + 1)))
        ∙ omega arith)

-- 2^16 and 2^32 are 1 modulo 65535, and 256 is its own inverse.
sums_agree :
    (b : Bytes) (i n : ℕ)
    → (words_sum b i n % 65535 ≡ 256 * halves_sum b i (2 * n) % 65535)
      × (0 < words_sum b i n → 0 < halves_sum b i (2 * n))
      × (0 < halves_sum b i (2 * n) → 0 < words_sum b i n)
unfolding words_sum halves_sum
sums_agree b i zero = omega arith
sums_agree b i (suc n) =
    let e : 2 * suc n ≡ suc (suc (2 * n)) = omega arith in
    let s : i + 2 + 2 ≡ i + 4 = omega arith in
    let t : i + 2 + 1 ≡ i + 3 = omega arith in
    let (ih, to_halves, to_words) = sums_agree b (i + 4) n in
    rw (e, s, t) (omega arith, λ pos. ground arith, λ pos. ground arith)

-- The two folded sums `f` and `g` give one verdict.
record IsFolded (f acc : ℕ) : Type 0 where
  small : f < 65536
  remainder : f % 65535 ≡ acc % 65535
  positive : 0 < acc → 0 < f
  nil : acc ≡ 0 → f ≡ 0

one_verdict :
    (f g acc sum : ℕ)
    → IsFolded f acc
    → IsFolded g sum
    → acc % 65535 ≡ 256 * sum % 65535
    → (0 < acc → 0 < sum)
    → (0 < sum → 0 < acc)
    → (f % 65536 == 0xFFFF) ≡ (65535 - g % 65536 == 0)
one_verdict f g acc sum a b e to from = elim (ℕ_discrete acc 0) [
  | yes nil ↦ let z : sum ≡ 0 = ground arith in ground (arith, a.nil nil, b.nil z)
  | no some_bits ↦ ground arith
]

-- A header of 5 to 15 words of bytes passes the validity test exactly when the checksum that the
-- injector would compute for it, the checksum field included, is 0.
pub is_valid-compute :
    (b : Bytes) (ihl : ℕ)
    → AreBytes b
    → 5 ≤ ihl
    → ihl ≤ 15
    → is_valid_ipv4_checksum b ihl ≡ (ipv4_compute_checksum b (ihl * 4) == 0)
unfolding is_valid_ipv4_checksum ipv4_compute_checksum
is_valid-compute b ihl h low high =
    let acc = header_sum b ihl in
    let words : acc ≡ words_sum b 0 ihl = header_sum_lem b ihl h low high in
    let (agree, to_halves, to_words) = sums_agree b 0 ihl in
    let n : ihl * 4 ≡ 2 * (2 * ihl) = omega arith in
    let halves = add_halves_lem (2 * ihl) (2 * (2 * ihl) + 1) b 0 0 h (omega arith) (omega arith) in
    let (f, g, k, z) = folds_lem acc (omega (arith, words_sum-lt b 0 ihl h)) in
    let sum = add_halves (2 * (2 * ihl) + 1) b 0 (2 * (2 * ihl)) 0 in
    let (f', g', k', z') = fold_carries_lem sum (omega (arith, halves_sum-lt b 0 (2 * ihl) h)) in
    let in_range : (ltb ihl 5 || ltb 15 ihl) ≡ false = ground arith in
    rw (n, in_range)
      (one_verdict _ _ acc sum (record { small = f; remainder = g; positive = k; nil = z })
        (record { small = f'; remainder = g'; positive = k'; nil = z' }) (omega arith)
        (λ p. let q : 0 < words_sum b 0 ihl = omega arith in omega (arith, to_halves q))
        (λ p. let q : 0 < halves_sum b 0 (2 * ihl) = omega arith in omega (arith, to_words q)))
