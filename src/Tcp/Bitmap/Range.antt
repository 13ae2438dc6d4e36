-- ===== src/Tcp/Bitmap/Range.antt =====
-- What the loops over a range of the bitmap do, said of single bits.
use intrusion_detection.Base.{
  ℕ, zero, suc, ◌+◌, ◌-◌, ◌*◌, ◌/◌, ◌%◌, ◌≤◌, ◌<◌, ◌≡◌, true, false, ◌&&◌, ◌||◌, not, ltb, arith,
  Bool-cases, inl, inr,
}
use mathlib.Core.Bool.{false≢true}
use native.Mathlib.Decide.{ℕ_discrete}
use intrusion_detection.Tcp.Ring.{window_size, ahead}
use intrusion_detection.Tcp.Bitmap.{
  Word, Bitmap, bit, chunk, mask, set_word, any_below, set_bits, set_bitmap_range, clear_bits,
  clear_bitmap_range, any_set, is_range_set,
}

set_bits_lem :
    (fuel start count : ℕ) (bm : Bitmap) (p : ℕ)
    → count ≤ fuel
    → count ≤ window_size
    → start < window_size
    → p < window_size
    → bit (set_bits fuel start count bm) p ≡ (bit bm p || ltb (ahead start p) count)
unfolding set_bits
set_bits_lem zero start count bm p hf hc hs hp = ground arith
set_bits_lem (suc fuel) start count bm p hf hc hs hp =
    let i = start / 64 in
    let n = chunk start count in
    let marked : Bitmap = set_word bm i (λ b. bm i b || mask start count b) in
    ground (arith, set_bits_lem fuel ((start + n) % window_size) (count - n) marked p)

-- After `set_bitmap_range`, for a range of at most 65536 bits, the bits of the range are set, and
-- the others are as before.
pub set_bitmap_range_lem :
    (start count : ℕ) (bm : Bitmap) (p : ℕ)
    → count ≤ window_size
    → p < window_size
    → bit (set_bitmap_range start count bm) p ≡ (bit bm p || ltb (ahead start p) count)
unfolding set_bitmap_range
set_bitmap_range_lem start count bm p hc hp =
    ground (arith, set_bits_lem count (start % window_size) count bm p)

clear_bits_lem :
    (fuel start count : ℕ) (bm : Bitmap) (p : ℕ)
    → count ≤ fuel
    → count ≤ window_size
    → start < window_size
    → p < window_size
    → bit (clear_bits fuel start count bm) p ≡ (bit bm p && not (ltb (ahead start p) count))
unfolding clear_bits
clear_bits_lem zero start count bm p hf hc hs hp = ground arith
clear_bits_lem (suc fuel) start count bm p hf hc hs hp =
    let i = start / 64 in
    let n = chunk start count in
    let cleared : Bitmap = set_word bm i (λ b. bm i b && not (mask start count b)) in
    ground (arith, clear_bits_lem fuel ((start + n) % window_size) (count - n) cleared p)

-- After `clear_bitmap_range` the bits of the range are clear, and the others are as before.
pub clear_bitmap_range_lem :
    (start count : ℕ) (bm : Bitmap) (p : ℕ)
    → count ≤ window_size
    → p < window_size
    → bit (clear_bitmap_range start count bm) p ≡ (bit bm p && not (ltb (ahead start p) count))
unfolding clear_bitmap_range
clear_bitmap_range_lem start count bm p hc hp =
    ground (arith, clear_bits_lem count (start % window_size) count bm p)

any_below-false : (n : ℕ) (w : Word) (b : ℕ) → any_below n w ≡ false → b < n → w b ≡ false
unfolding any_below
any_below-false zero w b h hb = elim hb [ ]
any_below-false (suc n) w b h hb = elim (ℕ_discrete b n) [
  | yes e ↦ rw e (ground arith)
  | no ne ↦ any_below-false n w b (ground arith) (omega arith)
]

any_below-true : (n : ℕ) (w : Word) → any_below n w ≡ true → (b : ℕ) × (b < n) × (w b ≡ true)
unfolding any_below
any_below-true zero w h = absurd (false≢true h)
any_below-true (suc n) w h = elim (Bool-cases (w n)) [
  | inl e ↦ (n, omega arith, e)
  | inr e ↦ let (b, hb, wb) = any_below-true n w (rw e at h) in (b, omega arith, wb)
]

any_set-false :
    (fuel start count : ℕ) (bm : Bitmap) (p : ℕ)
    → any_set fuel start count bm ≡ false
    → count ≤ fuel
    → count ≤ window_size
    → start < window_size
    → p < window_size
    → ahead start p < count
    → bit bm p ≡ false
unfolding any_set
any_set-false zero start count bm p h hf hc hs hp ha = ground arith
any_set-false (suc fuel) start count bm p h hf hc hs hp ha =
    let n = chunk start count in
    ground (
      arith,
      any_below-false 64 (λ b. bm (start / 64) b && mask start count b) (p % 64),
      any_set-false fuel ((start + n) % window_size) (count - n) bm p,
    )

any_set-true :
    (fuel start count : ℕ) (bm : Bitmap)
    → any_set fuel start count bm ≡ true
    → count ≤ window_size
    → start < window_size
    → (p : ℕ) × (p < window_size) × (ahead start p < count) × (bit bm p ≡ true)
unfolding any_set
any_set-true zero start count bm h hc hs = absurd (false≢true h)
any_set-true (suc fuel) start count bm h hc hs =
    elim (Bool-cases (any_below 64 (λ b. bm (start / 64) b && mask start count b))) [
      | inl hit ↦
          let (b, hb, wb) = any_below-true 64 (λ b. bm (start / 64) b && mask start count b) hit in
          (start / 64 * 64 + b, ground arith, ground arith, ground arith)
      | inr none_here ↦
          let n = chunk start count in
          let (p, hp, ha, hbit) =
            any_set-true fuel ((start + n) % window_size) (count - n) bm (ground arith)
              (ground arith) (ground arith) in
          (p, hp, ground arith, hbit)
    ]

-- Where `is_range_set` is false no bit of the range is set.
pub is_range_set-false :
    (start count : ℕ) (bm : Bitmap) (p : ℕ)
    → is_range_set start count bm ≡ false
    → count ≤ window_size
    → p < window_size
    → ahead start p < count
    → bit bm p ≡ false
unfolding is_range_set
is_range_set-false start count bm p h hc hp ha =
    ground (arith, any_set-false count (start % window_size) count bm p)

-- Where `is_range_set` is true some bit of the range, of at most 65536 bits, is set.
pub is_range_set-true :
    (start count : ℕ) (bm : Bitmap)
    → is_range_set start count bm ≡ true
    → count ≤ window_size
    → (p : ℕ) × (p < window_size) × (ahead start p < count) × (bit bm p ≡ true)
unfolding is_range_set
is_range_set-true start count bm h hc =
    let (p, hp, ha, hb) =
      any_set-true count (start % window_size) count bm (ground arith) hc (omega arith) in
    (p, hp, omega arith, hb)
