-- ===== src/Net/Injector/Valid.antt =====
-- The checksums that the injector writes, beside those that a receiver computes.
use intrusion_detection.Base.{
  ℕ, zero, suc, ◌+◌, ◌-◌, ◌*◌, ◌/◌, ◌%◌, ◌^◌, ◌≤◌, ◌<◌, ◌≡◌, ap, ◌∙◌, true, ◌==◌, List, [], ◌∷◌,
  length, get_or, arith,
}
use intrusion_detection.Net.Checksum.{
  Bytes, is_valid_ipv4_checksum, ipv4_compute_checksum, fold_carries, add_halves,
}
use intrusion_detection.Net.Checksum.Fold.{fold_carries_lem}
use intrusion_detection.Net.Checksum.Agree.{
  AreBytes, halves_sum, halves_sum-lt, add_halves_lem, is_valid-compute,
}
use intrusion_detection.Net.Injector.{
  add_pairs, pseudo_header, ipv4_tcp_compute_checksum, Ends, ipv4_header, ipv4_check, TcpFields,
  tcp_segment, tcp_check,
}

-- A checksum in the place of 0 makes the folded sum all ones.
check_closes :
    (sum c : ℕ)
    → c ≡ 65535 - fold_carries 3 sum % 65536
    → sum + 65535 < 2 ^ 32
    → 65535 - fold_carries 3 (sum + c) % 65536 ≡ 0
check_closes sum c e small =
    let (low, same, pos, nil) = fold_carries_lem sum (omega arith) in
    let (low', same', pos', nil') = fold_carries_lem (sum + c) (omega arith) in
    let some_bits : 0 < sum + c = ground arith in let p = pos' some_bits in omega arith

abbrev pub AllBytes : List ℕ → Type 0
AllBytes [] = Unit {0}
AllBytes (x ∷ xs) = (x < 256) × AllBytes xs

get_or-byte : (xs : List ℕ) (i : ℕ) → AllBytes xs → get_or xs i 0 < 256
get_or-byte [] i h = omega arith
get_or-byte (x ∷ xs) zero h = h.0
get_or-byte (x ∷ xs) (suc i) h = get_or-byte xs i h.1

header-AreBytes :
    (e : Ends) (tot_len check : ℕ) → AreBytes (λ i. get_or (ipv4_header e tot_len check) i 0)
header-AreBytes e tot_len check i = get_or-byte (ipv4_header e tot_len check) i (ground arith)

header_sum-check :
    (e : Ends) (tot_len check : ℕ)
    → check < 65536
    → halves_sum (λ i. get_or (ipv4_header e tot_len check) i 0) 0 10
      ≡ halves_sum (λ i. get_or (ipv4_header e tot_len 0) i 0) 0 10 + check
unfolding halves_sum
header_sum-check e tot_len check h = omega arith

ipv4_check_lem :
    (e : Ends) (tot_len : ℕ)
    → (ipv4_check e tot_len < 65536)
      × (ipv4_check e tot_len
          ≡ 65535
            - fold_carries 3 (halves_sum (λ i. get_or (ipv4_header e tot_len 0) i 0) 0 10) % 65536)
unfolding ipv4_check ipv4_compute_checksum
ipv4_check_lem e tot_len =
    let b : Bytes = λ i. get_or (ipv4_header e tot_len 0) i 0 in
    let sum : add_halves 21 b 0 20 0 ≡ halves_sum b 0 10 = omega (
      arith,
      add_halves_lem 10 21 b 0 0 (header-AreBytes e tot_len 0) (omega arith) (omega arith),
    ) in
    (omega arith, ap (λ k. 65535 - fold_carries 3 k % 65536) sum)

-- The IPv4 header that every builder writes passes the receiver's validity test, whatever the addresses
-- and the length are.
pub ipv4_header-valid :
    (e : Ends) (tot_len : ℕ)
    → is_valid_ipv4_checksum (λ i. get_or (ipv4_header e tot_len (ipv4_check e tot_len)) i 0) 5
      ≡ true
unfolding ipv4_compute_checksum
ipv4_header-valid e tot_len =
    let c = ipv4_check e tot_len in
    let b : Bytes = λ i. get_or (ipv4_header e tot_len c) i 0 in
    let b₀ : Bytes = λ i. get_or (ipv4_header e tot_len 0) i 0 in
    let (small, eq) = ipv4_check_lem e tot_len in
    let h = header-AreBytes e tot_len c in
    let sum : add_halves 21 b 0 20 0 ≡ halves_sum b₀ 0 10 + c = omega (
      arith,
      add_halves_lem 10 21 b 0 0 h (omega arith) (omega arith),
      header_sum-check e tot_len c small,
    ) in
    let closes =
      check_closes (halves_sum b₀ 0 10) c eq
        (omega (arith, halves_sum-lt b₀ 0 10 (header-AreBytes e tot_len 0))) in
    let zero_check : ipv4_compute_checksum b 20 ≡ 0 =
      ap (λ k. 65535 - fold_carries 3 k % 65536) sum ∙ closes in
    is_valid-compute b 5 h (omega arith) (omega arith) ∙ ap (λ k. k == 0) zero_check

-- The sum of the pairs without wrap-around.
unfoldable pub pairs_sum : List ℕ → ℕ
pairs_sum [] = 0
pairs_sum (x ∷ []) = x * 256
pairs_sum (x ∷ y ∷ bytes) = x * 256 + y + pairs_sum bytes

pairs_sum-le : (xs : List ℕ) → AllBytes xs → pairs_sum xs ≤ (length xs + 1) * 32768
unfolding pairs_sum
pairs_sum-le [] h = omega arith
pairs_sum-le (x ∷ []) h = omega (arith, h.0)
pairs_sum-le (x ∷ y ∷ xs) h = omega (arith, h.0, h.1.0, pairs_sum-le xs h.1.1)

add_pairs_lem :
    (xs : List ℕ) (sum : ℕ)
    → AllBytes xs
    → sum + pairs_sum xs < 2 ^ 32
    → add_pairs xs sum ≡ sum + pairs_sum xs
unfolding add_pairs pairs_sum
add_pairs_lem [] sum h small = omega arith
add_pairs_lem (x ∷ []) sum h small = omega arith
add_pairs_lem (x ∷ y ∷ xs) sum h small =
    let now : (sum + x * 256 + y) % 2 ^ 32 ≡ sum + x * 256 + y = omega arith in
    rw now (add_pairs_lem xs (sum + x * 256 + y) h.1.1 (omega arith) ∙ omega arith)

-- What the two halves of an address add, as they stand in a frame.
abbrev pub address_sum : ℕ → ℕ
address_sum ip = (ip % 256 * 256 + ip / 256 % 256) + (ip / 65536 % 256 * 256 + ip / 16777216 % 256)

-- The receiver's test of RFC 793: the sum of the addresses, the protocol number 6 of TCP, the length
-- and the segment, in 16-bit words, is all ones in ones' complement, that is, a multiple of 65535
-- other than 0.
abbrev pub IsAccepted : ℕ → ℕ → List ℕ → Type 0
IsAccepted src_ip dst_ip segment =
    let total = address_sum src_ip + address_sum dst_ip + 6 + length segment + pairs_sum segment in
    (length segment < 65536) × (0 < total) × (total % 65535 ≡ 0)

check_divides :
    (sum c : ℕ) → c ≡ 65535 - fold_carries 3 sum % 65536 → sum < 2 ^ 32 → (sum + c) % 65535 ≡ 0
check_divides sum c e small = let (low, same, pos, nil) = fold_carries_lem sum small in omega arith

module _ (e : Ends) (t : TcpFields) (payload : List ℕ) (bytes : AllBytes payload) where
  segment-AllBytes : (check : ℕ) → AllBytes (tcp_segment e t check payload)
  segment-AllBytes check = ground arith

  segment_sum-check :
      (check : ℕ)
      → check < 65536
      → pairs_sum (tcp_segment e t check payload) ≡ pairs_sum (tcp_segment e t 0 payload) + check
  unfolding pairs_sum
  segment_sum-check check h = omega arith

  pseudo-AllBytes : (n : ℕ) → AllBytes (pseudo_header e.server_ip e.client_ip n)
  pseudo-AllBytes n = ground arith

  -- What a receiver computes over a segment that carries the check.
  segment_total :
      (check : ℕ)
      → check < 65536
      → length payload ≤ 65495
      → add_pairs
          (tcp_segment e t check payload)
          (add_pairs (pseudo_header e.server_ip e.client_ip (length (tcp_segment e t 0 payload))) 0)
        ≡ pairs_sum (pseudo_header e.server_ip e.client_ip (length (tcp_segment e t 0 payload)))
          + pairs_sum (tcp_segment e t 0 payload)
          + check
  segment_total check h fits =
      let ps = pseudo_header e.server_ip e.client_ip (length (tcp_segment e t 0 payload)) in
      let seg = tcp_segment e t check payload in
      let pseudo_small : pairs_sum ps ≤ 13 * 32768 =
        pairs_sum-le ps (pseudo-AllBytes (length (tcp_segment e t 0 payload))) in
      let seg_small : pairs_sum seg ≤ (length seg + 1) * 32768 =
        pairs_sum-le seg (segment-AllBytes check) in
      let size : length seg ≡ 20 + length payload = omega arith in
      let pseudo : add_pairs ps 0 ≡ 0 + pairs_sum ps =
        add_pairs_lem ps 0 (pseudo-AllBytes (length (tcp_segment e t 0 payload))) (omega arith) in
      let all : add_pairs seg (add_pairs ps 0) ≡ add_pairs ps 0 + pairs_sum seg =
        add_pairs_lem seg (add_pairs ps 0) (segment-AllBytes check) (omega arith) in
      omega (arith, segment_sum-check check h)

  pseudo_sum :
      length payload ≤ 65495
      → pairs_sum (pseudo_header e.server_ip e.client_ip (length (tcp_segment e t 0 payload)))
        ≡ address_sum e.server_ip + address_sum e.client_ip + 6 + (20 + length payload)
  unfolding pairs_sum
  pseudo_sum fits = omega arith

  -- A segment that a builder writes, of at most 65495 bytes of data, is accepted with its check.
  pub tcp_segment-IsAccepted :
      length payload ≤ 65495
      → IsAccepted e.server_ip e.client_ip (tcp_segment e t (tcp_check e t payload) payload)
  unfolding ipv4_tcp_compute_checksum tcp_check
  tcp_segment-IsAccepted fits =
      let c = tcp_check e t payload in
      let small : c < 65536 = omega arith in
      let ps = pseudo_header e.server_ip e.client_ip (length (tcp_segment e t 0 payload)) in
      let sum = pairs_sum ps + pairs_sum (tcp_segment e t 0 payload) in
      let low : pairs_sum ps ≤ 13 * 32768 =
        pairs_sum-le ps (pseudo-AllBytes (length (tcp_segment e t 0 payload))) in
      let seg_low : pairs_sum (tcp_segment e t 0 payload)
          ≤ (length (tcp_segment e t 0 payload) + 1) * 32768 =
        pairs_sum-le (tcp_segment e t 0 payload) (segment-AllBytes 0) in
      let start : add_pairs (tcp_segment e t 0 payload) (add_pairs ps 0) ≡ sum =
        omega (arith, segment_total 0 (omega arith) fits) in
      let check : c ≡ 65535 - fold_carries 3 sum % 65536 =
        ap (λ k. 65535 - fold_carries 3 k % 65536) start in
      let closed = check_divides sum c check (omega arith) in
      let all = segment_sum-check c small in
      let pseudo = pseudo_sum fits in (omega arith, omega arith, omega arith)
