-- ===== src/Xdp/Limiter.antt =====
-- `token_bucket` and `sliding_window_limiter`, on the state that the lookup in the per-CPU map finds.
pub mod Bucket
pub mod Window
use intrusion_detection.Base.{
  ℕ, ◌+◌, ◌-◌, ◌*◌, ◌/◌, ◌%◌, ◌^◌, Bool, true, false, ◌||◌, ltb, leb, ◌==◌, Option, none, some,
  if◌then◌else◌,
}

abbrev pub second_ns : ℕ
second_ns = 1000000000

abbrev pub refill_per_sec : ℕ
refill_per_sec = 50000

abbrev pub u64_mod : ℕ
u64_mod = 2 ^ 64

pub record TokenBucketState : Type 0 where
  pub tokens : ℕ
  pub last_updated : ℕ
  pub drop_count : ℕ

pub record SlidingWindowState : Type 0 where
  pub last_time : ℕ
  pub packets : ℕ
  pub drop_count : ℕ
  pub limit : ℕ
  pub window : ℕ

pub record RateLimitState : Type 0 where
  pub token_bucket : TokenBucketState
  pub sliding_window_limiter : SlidingWindowState
  pub algo : ℕ

-- The state that is left in the map, whether the packet is let through, and whether its address is put
-- on the blocklist.
pub record Decision : Type 0 where
  pub state : RateLimitState
  pub allowed : Bool
  pub blocklisted : Bool

abbrev pub zero_bucket : TokenBucketState
zero_bucket = record { tokens = 0; last_updated = 0; drop_count = 0 }

abbrev pub zero_window : SlidingWindowState
zero_window = record { last_time = 0; packets = 0; drop_count = 0; limit = 0; window = 0 }

-- A bucket that is filled anew, and gives its first token.
abbrev pub fresh_bucket : ℕ → ℕ → TokenBucketState
fresh_bucket tokens now = record {
  tokens = if ltb 0 tokens then tokens - 1 else 0;
  last_updated = now;
  drop_count = 0;
}

abbrev pub elapsed : ℕ → ℕ → ℕ
elapsed now last = (now + u64_mod - last) % u64_mod

-- The refill, in 64 bits.
unfoldable pub refill : TokenBucketState → ℕ → ℕ → TokenBucketState
refill b tokens now =
    let tokens_to_add = elapsed now b.last_updated * refill_per_sec % u64_mod / second_ns in
    let new_tokens = (b.tokens + tokens_to_add) % u64_mod in
    if ltb 0 tokens_to_add
    then record b {
      tokens = if ltb tokens new_tokens then tokens else new_tokens;
      last_updated = now;
    }
    else b

-- The end of `token_bucket`: a token is taken, or a drop is counted.
unfoldable pub take_token : RateLimitState → TokenBucketState → Decision
take_token state b =
    let drops = (b.drop_count + 1) % u64_mod in
    if b.tokens == 0
    then record {
      state = record state { token_bucket = record b { drop_count = drops } };
      allowed = false;
      blocklisted = leb 8 drops;
    }
    else record {
      state = record state { token_bucket = record b { tokens = b.tokens - 1 } };
      allowed = true;
      blocklisted = false;
    }

unfoldable pub token_bucket : Option RateLimitState → ℕ → ℕ → Decision
token_bucket none tokens now = record {
  state = record {
    token_bucket = fresh_bucket tokens now;
    sliding_window_limiter = zero_window;
    algo = 0;
  };
  allowed = ltb 0 tokens;
  blocklisted = false;
}
token_bucket (some state) tokens now =
    if state.token_bucket.last_updated == 0
    then record {
      state = record state { token_bucket = fresh_bucket tokens now };
      allowed = ltb 0 tokens;
      blocklisted = false;
    }
    else take_token state (refill state.token_bucket tokens now)

-- A window that begins with this packet.
abbrev pub fresh_window : ℕ → ℕ → ℕ → SlidingWindowState
fresh_window limit window now = record {
  last_time = now;
  packets = 1;
  drop_count = 0;
  limit = limit;
  window = window;
}

-- A packet inside the window.
unfoldable pub count_packet : RateLimitState → Decision
count_packet state =
    let w = state.sliding_window_limiter in
    let drops = (w.drop_count + 1) % u64_mod in
    if leb w.limit w.packets
    then record {
      state = record state { sliding_window_limiter = record w { drop_count = drops } };
      allowed = false;
      blocklisted = leb 8 drops;
    }
    else record {
      state = record state {
        sliding_window_limiter = record w { packets = (w.packets + 1) % u64_mod };
      };
      allowed = true;
      blocklisted = false;
    }

unfoldable pub sliding_window_limiter : Option RateLimitState → ℕ → ℕ → ℕ → Decision
sliding_window_limiter none limit window now = record {
  state = record {
    token_bucket = zero_bucket;
    sliding_window_limiter = fresh_window limit window now;
    algo = 1;
  };
  allowed = leb 1 limit;
  blocklisted = false;
}
sliding_window_limiter (some state) limit window now =
    let w = state.sliding_window_limiter in
    if w.last_time == 0 || leb (w.window * second_ns % u64_mod) (elapsed now w.last_time)
    then record {
      state = record state { sliding_window_limiter = fresh_window limit window now };
      allowed = leb 1 limit;
      blocklisted = false;
    }
    else count_packet state
