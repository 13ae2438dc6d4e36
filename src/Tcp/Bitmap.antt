-- ===== src/Tcp/Bitmap.antt =====
-- The bitmap of a session, one bit for each byte of the ring, in 1024 words of 64 bits:
-- `set_bitmap_range`, `clear_bitmap_range`, `is_range_set` and `count_continuous_bytes`.
pub mod Range
pub mod Count
use intrusion_detection.Base.{
  ℕ, zero, suc, ◌+◌, ◌-◌, ◌*◌, ◌/◌, ◌%◌, Bool, true, false, ◌&&◌, ◌||◌, not, ltb, leb, ◌==◌, ◌!=◌,
  if◌then◌else◌,
}
use intrusion_detection.Tcp.Ring.{window_size}

-- A `uint64_t` by its bits; the code uses it by bitwise operations alone.
abbrev pub Word : Type 0
Word = ℕ → Bool

-- `w << k` and `w >> k`, for bits 0 to 63.
abbrev pub shift_left : Word → ℕ → Word
shift_left w k b = if leb k b then w (b - k) else false

abbrev pub shift_right : Word → ℕ → Word
shift_right w k b = if ltb (b + k) 64 then w (b + k) else false

-- `(n == 64) ? ~0ULL : ((1ULL << n) - 1ULL)`
abbrev pub ones : ℕ → Word
ones n b = if n == 64 then true else ltb b n

-- `w != 0`
unfoldable pub any_below : ℕ → Word → Bool
any_below zero w = false
any_below (suc n) w = w n || any_below n w

abbrev pub Bitmap : Type 0
Bitmap = ℕ → Word

abbrev pub empty_bitmap : Bitmap
empty_bitmap w b = false

abbrev pub set_word : Bitmap → ℕ → Word → Bitmap
set_word bm i w j = if j == i then w else bm j

-- The bit of the byte at index `p` of the ring.
abbrev pub bit : Bitmap → ℕ → Bool
bit bm p = bm (p / 64) (p % 64)

-- `(count < bits_in_word) ? count : bits_in_word`
abbrev pub chunk : ℕ → ℕ → ℕ
chunk start count =
    let bits_in_word = 64 - start % 64 in if ltb count bits_in_word then count else bits_in_word

abbrev pub mask : ℕ → ℕ → Word
mask start count = shift_left (ones (chunk start count)) (start % 64)

-- Each loop below takes at least one bit a round, so `count` rounds are enough.
unfoldable pub set_bits : ℕ → ℕ → ℕ → Bitmap → Bitmap
set_bits zero start count bm = bm
set_bits (suc fuel) start count bm =
    let i = start / 64 in
    let n = chunk start count in
    let marked = set_word bm i (λ b. bm i b || mask start count b) in
    let rest = set_bits fuel ((start + n) % window_size) (count - n) marked in
    if count == 0 then bm else rest

unfoldable pub set_bitmap_range : ℕ → ℕ → Bitmap → Bitmap
set_bitmap_range start count bm = set_bits count (start % window_size) count bm

unfoldable pub clear_bits : ℕ → ℕ → ℕ → Bitmap → Bitmap
clear_bits zero start count bm = bm
clear_bits (suc fuel) start count bm =
    let i = start / 64 in
    let n = chunk start count in
    let cleared = set_word bm i (λ b. bm i b && not (mask start count b)) in
    let rest = clear_bits fuel ((start + n) % window_size) (count - n) cleared in
    if count == 0 then bm else rest

unfoldable pub clear_bitmap_range : ℕ → ℕ → Bitmap → Bitmap
clear_bitmap_range start count bm = clear_bits count (start % window_size) count bm

unfoldable pub any_set : ℕ → ℕ → ℕ → Bitmap → Bool
any_set zero start count bm = false
any_set (suc fuel) start count bm =
    let n = chunk start count in
    let hit = any_below 64 (λ b. bm (start / 64) b && mask start count b) in
    let rest = any_set fuel ((start + n) % window_size) (count - n) bm in
    if count == 0 then false else if hit then true else rest

-- The test `!bitmap` of the code is made by the caller, which holds the bitmap as an option.
unfoldable pub is_range_set : ℕ → ℕ → Bitmap → Bool
is_range_set start count bm =
    if count == 0 then false else any_set count (start % window_size) count bm

-- The number of ones below the lowest zero, 64 for all ones: `__builtin_ctzll(~w)`, which the code
-- calls where `~w` is not 0.
unfoldable pub trailing_ones : ℕ → ℕ → Word → ℕ
trailing_ones zero b w = 0
trailing_ones (suc fuel) b w =
    let rest = suc (trailing_ones fuel (b + 1) w) in if w b then rest else 0

-- One round of `count_continuous_bytes`: how many bytes it adds, and whether it goes on.
abbrev pub run_in_word : ℕ → ℕ → Bitmap → ℕ
run_in_word idx room bm =
    let available = 64 - idx % 64 in
    let found = trailing_ones 64 0 (shift_right (bm (idx / 64)) (idx % 64)) in
    let contiguous = if found == 64 then available else found in
    let within = if ltb available contiguous then available else contiguous in
    if ltb room within then room else within

unfoldable pub count_bytes : ℕ → ℕ → ℕ → ℕ → Bitmap → ℕ
count_bytes zero start assembled max_bytes bm = assembled
count_bytes (suc fuel) start assembled max_bytes bm =
    let idx = (start + assembled) % window_size in
    let contiguous = run_in_word idx (max_bytes - assembled) bm in
    let rest = count_bytes fuel start (assembled + contiguous) max_bytes bm in
    if leb max_bytes assembled
    then assembled
    else if not (bit bm idx)
    then assembled
    else if ltb contiguous (64 - idx % 64)
    then assembled + contiguous
    else rest

unfoldable pub count_continuous_bytes : ℕ → ℕ → Bitmap → ℕ
count_continuous_bytes start max_bytes bm = count_bytes max_bytes start 0 max_bytes bm
