-- ===== src/Net/Checksum/Fold.antt =====
-- The folding of carries in both checksums, modulo 65535.
use intrusion_detection.Base.{ℕ, ◌%◌, ◌^◌, ◌<◌, ◌≡◌, arith}
use intrusion_detection.Net.Checksum.{fold32, fold16, fold_carries}

-- The carry loop has ended by itself: the sum is below 65536, with the remainder it had, and is 0
-- exactly if it was.
pub fold_carries_lem :
    (sum : ℕ)
    → sum < 2 ^ 32
    → (fold_carries 3 sum < 65536)
      × (fold_carries 3 sum % 65535 ≡ sum % 65535)
      × (0 < sum → 0 < fold_carries 3 sum)
      × (sum ≡ 0 → fold_carries 3 sum ≡ 0)
unfolding fold_carries
fold_carries_lem sum h = ground arith

fold32_lem :
    (x : ℕ) → x < 2 ^ 36 → (fold32 (fold32 x) < 2 ^ 32) × (fold32 (fold32 x) % 65535 ≡ x % 65535)
fold32_lem x h = omega arith

fold16_lem :
    (x : ℕ) → x < 2 ^ 32 → (fold16 (fold16 x) < 65536) × (fold16 (fold16 x) % 65535 ≡ x % 65535)
fold16_lem x h = omega arith

-- The four folds of the validity test.
pub folds_lem :
    (acc : ℕ)
    → acc < 2 ^ 36
    → (fold16 (fold16 (fold32 (fold32 acc))) < 65536)
      × (fold16 (fold16 (fold32 (fold32 acc))) % 65535 ≡ acc % 65535)
      × (0 < acc → 0 < fold16 (fold16 (fold32 (fold32 acc))))
      × (acc ≡ 0 → fold16 (fold16 (fold32 (fold32 acc))) ≡ 0)
folds_lem acc h =
    let (a, b) = fold32_lem acc h in
    let (c, d) = fold16_lem (fold32 (fold32 acc)) a in
    (c, omega arith, λ pos. omega arith, λ nil. omega arith)
