-- ===== src/Tcp/Bitmap/Count.antt =====
-- `count_continuous_bytes`, said of single bits.
use intrusion_detection.Base.{
  ℕ, zero, suc, ◌+◌, ◌-◌, ◌/◌, ◌%◌, ◌≤◌, ◌<◌, ◌≡◌, true, false, ltb, leb, ltb→lt, if◌then◌else◌,
  arith, Bool-cases, inl, inr,
}
use native.Mathlib.Decide.{ℕ_discrete, dec_lt}
use native.Mathlib.Nat.{add-zero}
use mathlib.Core.Path.{subst}
use intrusion_detection.Tcp.Ring.{window_size}
use intrusion_detection.Tcp.Bitmap.{
  Word, Bitmap, bit, shift_right, trailing_ones, run_in_word, count_bytes, count_continuous_bytes,
}

trailing_ones-le : (fuel b : ℕ) (w : Word) → trailing_ones fuel b w ≤ fuel
unfolding trailing_ones
trailing_ones-le zero b w = omega arith
trailing_ones-le (suc fuel) b w = ground (arith, trailing_ones-le fuel (b + 1) w)

trailing_ones-below :
    (fuel b : ℕ) (w : Word) (k : ℕ) → b ≤ k → k < b + trailing_ones fuel b w → w k ≡ true
unfolding trailing_ones
trailing_ones-below zero b w k hb h = absurd (omega arith)
trailing_ones-below (suc fuel) b w k hb h = elim (Bool-cases (w b)) [
  | inr clear ↦ absurd (ground arith)
  | inl this ↦ elim (ℕ_discrete k b) [
    | yes e ↦ rw e this
    | no ne ↦ trailing_ones-below fuel (b + 1) w k (omega arith) (ground arith)
  ]
]

trailing_ones-stop :
    (fuel b : ℕ) (w : Word) → trailing_ones fuel b w < fuel → w (b + trailing_ones fuel b w) ≡ false
unfolding trailing_ones
trailing_ones-stop zero b w h = elim h [ ]
trailing_ones-stop (suc fuel) b w h = elim (Bool-cases (w b)) [
  | inr clear ↦ rw (clear, add-zero) clear
  | inl this ↦
      let ih = trailing_ones-stop fuel (b + 1) w (ground arith) in
      rw this (subst (λ k. w k ≡ false) (omega arith) ih)
]

module _ (idx room : ℕ) (bm : Bitmap) where
  -- A set bit of the shifted word is a set bit of the word.
  run_in_word-all_set :
      (k : ℕ) → k < run_in_word idx room bm → idx % 64 + k < 64 → bit bm (idx + k) ≡ true
  run_in_word-all_set k h hw =
      let e : (idx + k) / 64 ≡ idx / 64 = omega arith in
      let o : (idx + k) % 64 ≡ k + idx % 64 = omega arith in
      rw (e, o)
        (ground (
          arith,
          trailing_ones-below 64 0 (shift_right (bm (idx / 64)) (idx % 64)) k,
          trailing_ones-le 64 0 (shift_right (bm (idx / 64)) (idx % 64)),
        ))

  run_in_word-stops :
      run_in_word idx room bm < room
      → run_in_word idx room bm < 64 - idx % 64
      → bit bm (idx + run_in_word idx room bm) ≡ false
  run_in_word-stops h hw =
      let c = run_in_word idx room bm in
      let e : (idx + c) / 64 ≡ idx / 64 = omega arith in
      let o : (idx + c) % 64 ≡ c + idx % 64 = omega arith in
      rw (e, o)
        (ground (
          arith,
          trailing_ones-stop 64 0 (shift_right (bm (idx / 64)) (idx % 64)),
          trailing_ones-le 64 0 (shift_right (bm (idx / 64)) (idx % 64)),
        ))

  run_in_word-positive : 0 < room → bit bm idx ≡ true → 0 < run_in_word idx room bm
  run_in_word-positive h hb =
      ground (arith, trailing_ones-stop 64 0 (shift_right (bm (idx / 64)) (idx % 64)))

-- From `assembled` on the loop reaches the first clear bit, or `max_bytes`.
pub record Counted (start assembled max_bytes : ℕ) (bm : Bitmap) (r : ℕ) : Type 0 where
  pub from : assembled ≤ r
  pub bounded : r ≤ max_bytes
  pub all_set : (k : ℕ) → assembled ≤ k → k < r → bit bm ((start + k) % window_size) ≡ true
  pub stops : r < max_bytes → bit bm ((start + r) % window_size) ≡ false

-- The loop stops where it stands.
halt :
    (start a max_bytes : ℕ) (bm : Bitmap)
    → a ≤ max_bytes
    → (a < max_bytes → bit bm ((start + a) % window_size) ≡ false)
    → Counted start a max_bytes bm a
halt start a max_bytes bm h stop = record {
  from = omega arith;
  bounded = h;
  all_set = λ k l u. absurd (omega arith);
  stops = stop;
}

-- The loop goes on behind a run of set bits.
extend :
    (start a c max_bytes : ℕ) (bm : Bitmap) (r : ℕ)
    → ((k : ℕ) → k < c → bit bm ((start + a) % window_size + k) ≡ true)
    → (start + a) % window_size + c ≤ window_size
    → Counted start (a + c) max_bytes bm r
    → Counted start a max_bytes bm r
extend start a c max_bytes bm r run fits rest = record {
  from = omega (arith, rest.from);
  bounded = rest.bounded;
  all_set = λ k l u. elim (dec_lt k (a + c)) [
    | yes near ↦
        let e : (start + a) % window_size + (k - a) ≡ (start + k) % window_size = omega arith in
        rw e at (run (k - a) (omega arith))
    | no far ↦ rest.all_set k (omega arith) u
  ];
  stops = rest.stops;
}

count_bytes-Counted :
    (fuel start assembled max_bytes : ℕ) (bm : Bitmap)
    → max_bytes ≤ assembled + fuel
    → assembled ≤ max_bytes
    → Counted start assembled max_bytes bm (count_bytes fuel start assembled max_bytes bm)
unfolding count_bytes
count_bytes-Counted zero start a max_bytes bm hf ha =
    halt start a max_bytes bm ha (λ h. absurd (omega arith))
count_bytes-Counted (suc fuel) start a max_bytes bm hf ha = elim (Bool-cases (leb max_bytes a)) [
  | inl full ↦ rw full (halt start a max_bytes bm ha (λ h. absurd (ground arith)))
  | inr more ↦ elim (Bool-cases (bit bm ((start + a) % window_size))) [
    | inr hole ↦ rw (more, hole) (halt start a max_bytes bm ha (λ h. hole))
    | inl here ↦
        rw (more, here)
          (go_on (ground arith) here (λ m. count_bytes-Counted fuel start m max_bytes bm))
  ]
]
  where
    idx : ℕ
    idx = (start + a) % window_size

    c : ℕ
    c = run_in_word idx (max_bytes - a) bm

    go_on :
        a < max_bytes
        → bit bm idx ≡ true
        → ((m : ℕ)
            → max_bytes ≤ m + fuel
            → m ≤ max_bytes
            → Counted start m max_bytes bm (count_bytes fuel start m max_bytes bm))
        → Counted start a max_bytes bm
            (if ltb c (64 - idx % 64) then a + c else count_bytes fuel start (a + c) max_bytes bm)
    go_on more here rest =
        let pos : 0 < c = run_in_word-positive idx (max_bytes - a) bm (omega arith) here in
        let fits : idx % 64 + c ≤ 64 = ground arith in
        let room : c ≤ max_bytes - a = ground arith in
        let run =
          λ (k : ℕ) (h : k < c). run_in_word-all_set idx (max_bytes - a) bm k h (omega arith) in
        elim (Bool-cases (ltb c (64 - idx % 64))) [
          | inl short ↦ rw short (
              extend start a c max_bytes bm (a + c) run (omega arith) (
                halt start (a + c) max_bytes bm (omega arith) (λ h.
                  let e : idx + c ≡ (start + (a + c)) % window_size = ground arith in
                  rw e at (
                    run_in_word-stops idx (max_bytes - a) bm (omega arith)
                      (ltb→lt c (64 - idx % 64) short)))))
          | inr full ↦ rw full (
              extend start a c max_bytes bm _ run (omega arith)
                (rest (a + c) (omega arith) (omega arith)))
        ]

-- The result is the length of the longest run of set bits from `start` on, of at most `max_bytes`.
pub count_continuous_bytes-Counted :
    (start max_bytes : ℕ) (bm : Bitmap)
    → Counted start 0 max_bytes bm (count_continuous_bytes start max_bytes bm)
unfolding count_continuous_bytes
count_continuous_bytes-Counted start max_bytes bm =
    count_bytes-Counted max_bytes start 0 max_bytes bm (omega arith) (omega arith)
