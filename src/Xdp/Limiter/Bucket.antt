-- ===== src/Xdp/Limiter/Bucket.antt =====
-- Runs of `token_bucket` at times that rise.
use intrusion_detection.Base.{one_if, ℕ, ◌+◌, ◌*◌, ◌^◌, ◌≤◌, ◌<◌, List, [], ◌∷◌, some, arith}
use intrusion_detection.Xdp.Limiter.{
  second_ns, refill_per_sec, RateLimitState, refill, take_token, token_bucket,
}

-- The packets that are let through, from a state on, at the given times.
unfoldable pub run_bucket : RateLimitState → ℕ → List ℕ → ℕ
run_bucket state limit [] = 0
run_bucket state limit (now ∷ times) =
    let d = token_bucket (some state) limit now in one_if d.allowed + run_bucket d.state limit times

-- Times that do not fall, from `from` to `to`.
abbrev pub Rises : ℕ → List ℕ → ℕ → Type 0
Rises from [] to = from ≤ to
Rises from (now ∷ times) to = (from ≤ now) × Rises now times to

Rises-le : (times : List ℕ) (from to : ℕ) → Rises from times to → from ≤ to
Rises-le [] from to h = h
Rises-le (now ∷ times) from to h = omega (arith, h.0, Rises-le times now to h.1)

-- One packet: what is let through is paid with tokens, and tokens come with time.
token_bucket_step :
    (state : RateLimitState) (limit now : ℕ)
    → 0 < state.token_bucket.last_updated
    → state.token_bucket.last_updated ≤ now
    → now < 2 ^ 48
    → state.token_bucket.tokens ≤ limit
    → limit < 2 ^ 32
    → let d = token_bucket (some state) limit now in
      (0 < d.state.token_bucket.last_updated)
      × (d.state.token_bucket.last_updated ≤ now)
      × (d.state.token_bucket.tokens ≤ limit)
      × ((one_if d.allowed + d.state.token_bucket.tokens) * second_ns
            + state.token_bucket.last_updated * refill_per_sec
          ≤ state.token_bucket.tokens * second_ns
            + d.state.token_bucket.last_updated * refill_per_sec)
unfolding token_bucket refill take_token
token_bucket_step state limit now started rises small full bounded = ground arith

-- From a bucket that has been started, with at most `limit` tokens and `limit` below 2^32, packets
-- at times that rise from its last update up to `to`, below 2^48 nanoseconds, are let through at
-- most as often as there are tokens in the bucket and in the time: at 50000 a second.
pub run_bucket-bound :
    (times : List ℕ) (state : RateLimitState) (limit from to : ℕ)
    → 0 < state.token_bucket.last_updated
    → state.token_bucket.last_updated ≤ from
    → Rises from times to
    → to < 2 ^ 48
    → state.token_bucket.tokens ≤ limit
    → limit < 2 ^ 32
    → run_bucket state limit times * second_ns + state.token_bucket.last_updated * refill_per_sec
      ≤ state.token_bucket.tokens * second_ns + to * refill_per_sec
unfolding run_bucket
run_bucket-bound [] state limit from to started since rises small full bounded = omega arith
run_bucket-bound (now ∷ times) state limit from to started since rises small full bounded =
    let d = token_bucket (some state) limit now in
    let later : now ≤ to = Rises-le times now to rises.1 in
    let (a, b, c, e) =
      token_bucket_step state limit now started (omega arith) (omega arith) full bounded in
    omega (arith, run_bucket-bound times d.state limit now to a b rises.1 small c bounded)
