-- ===== src/Tcp/Seq.antt =====
-- `struct TcpSeq`: 32-bit sequence numbers, compared by the sign of their wrapped difference.
use intrusion_detection.Base.{ℕ, ◌+◌, ◌-◌, ◌%◌, ◌^◌, Bool, ◌&&◌, ◌||◌, not, leb, ◌==◌}

abbrev pub u32_mod : ℕ
u32_mod = 2 ^ 32

-- `uint32_t` addition and subtraction.
abbrev pub add32 : ℕ → ℕ → ℕ
add32 a b = (a + b) % u32_mod

abbrev pub diff : ℕ → ℕ → ℕ
diff a b = (a + u32_mod - b) % u32_mod

-- `static_cast<int32_t>(x) < 0` and `> 0`.
abbrev pub is_negative32 : ℕ → Bool
is_negative32 x = leb (2 ^ 31) x

unfoldable pub lt : ℕ → ℕ → Bool
lt a b = is_negative32 (diff a b)

unfoldable pub lte : ℕ → ℕ → Bool
lte a b = is_negative32 (diff a b) || diff a b == 0

unfoldable pub gt : ℕ → ℕ → Bool
gt a b = not (is_negative32 (diff a b)) && not (diff a b == 0)

unfoldable pub gte : ℕ → ℕ → Bool
gte a b = not (is_negative32 (diff a b))
