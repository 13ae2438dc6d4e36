-- ===== src/Net/Checksum.antt =====
-- The Internet checksum: `is_valid_ipv4_checksum` of src/main/transport/ip_address.h, which adds
-- little-endian words of 32 bits, and `ipv4_compute_checksum` of src/main/net/packet_injector.h, which
-- adds big-endian words of 16 bits.
pub mod Fold
pub mod Agree
use intrusion_detection.Base.{
  ℕ, zero, suc, ◌+◌, ◌-◌, ◌*◌, ◌/◌, ◌%◌, ◌^◌, Bool, true, false, ◌||◌, ltb, leb, ◌==◌,
  if◌then◌else◌,
}

-- The packet's memory, by its byte at each index.
abbrev pub Bytes : Type 0
Bytes = ℕ → ℕ

-- Reads of a `uint32_t` and a `uint64_t` on a little-endian machine.
abbrev pub le32 : Bytes → ℕ → ℕ
le32 b i = b i + 256 * b (i + 1) + 65536 * b (i + 2) + 16777216 * b (i + 3)

abbrev pub le64 : Bytes → ℕ → ℕ
le64 b i = le32 b i + 2 ^ 32 * le32 b (i + 4)

abbrev pub add64 : ℕ → ℕ → ℕ
add64 x y = (x + y) % 2 ^ 64

-- The loops `while (words >= 4)` and `while (words > 0)`, from the word at index `i`.
unfoldable pub add_words : ℕ → Bytes → ℕ → ℕ → ℕ → ℕ
add_words zero b i words acc = acc
add_words (suc fuel) b i words acc =
    let four =
      add64 (add64 (add64 (add64 acc (le32 b i)) (le32 b (i + 4))) (le32 b (i + 8)))
        (le32 b (i + 12)) in
    let after_four = add_words fuel b (i + 16) (words - 4) four in
    let after_one = add_words fuel b (i + 4) (words - 1) (add64 acc (le32 b i)) in
    if leb 4 words then after_four else if ltb 0 words then after_one else acc

-- `(acc & 0xFFFFFFFF) + (acc >> 32)` and `(acc & 0xFFFF) + (acc >> 16)`
abbrev pub fold32 : ℕ → ℕ
fold32 acc = acc % 2 ^ 32 + acc / 2 ^ 32

abbrev pub fold16 : ℕ → ℕ
fold16 acc = acc % 65536 + acc / 65536

unfoldable pub header_sum : Bytes → ℕ → ℕ
header_sum b ihl =
    if ihl == 5
    then add64
        (add64 (add64 (add64 (le64 b 0 % 2 ^ 32) (le64 b 0 / 2 ^ 32)) (le64 b 8 % 2 ^ 32))
          (le64 b 8 / 2 ^ 32))
        (le32 b 16)
    else add_words ihl b 0 ihl 0

unfoldable pub is_valid_ipv4_checksum : Bytes → ℕ → Bool
is_valid_ipv4_checksum b ihl =
    if ltb ihl 5 || ltb 15 ihl
    then false
    else fold16 (fold16 (fold32 (fold32 (header_sum b ihl)))) % 65536 == 0xFFFF

-- The big-endian word at `i`, and the loop `while (len >= 2)` with the odd byte behind it, in 32 bits.
abbrev pub be16 : Bytes → ℕ → ℕ
be16 b i = 256 * b i + b (i + 1)

unfoldable pub add_halves : ℕ → Bytes → ℕ → ℕ → ℕ → ℕ
add_halves zero b i len sum = sum
add_halves (suc fuel) b i len sum =
    let rest = add_halves fuel b (i + 2) (len - 2) ((sum + be16 b i) % 2 ^ 32) in
    if leb 2 len then rest else if len == 0 then sum else (sum + 256 * b i) % 2 ^ 32

-- The loop `while (sum >> 16)`, with fuel.
unfoldable pub fold_carries : ℕ → ℕ → ℕ
fold_carries zero sum = sum
fold_carries (suc fuel) sum =
    let rest = fold_carries fuel (sum % 65536 + sum / 65536) in
    if sum / 65536 == 0 then sum else rest

-- `static_cast<uint16_t>(~sum)`. Two rounds of the carry loop are enough for any 32-bit sum.
unfoldable pub ipv4_compute_checksum : Bytes → ℕ → ℕ
ipv4_compute_checksum b len = 65535 - fold_carries 3 (add_halves (len + 1) b 0 len 0) % 65536
