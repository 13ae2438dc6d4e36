-- ===== src/Xdp/Limiter/Window.antt =====
-- Runs of `sliding_window_limiter` inside one window.
use intrusion_detection.Base.{
  one_if, ℕ, ◌+◌, ◌-◌, ◌*◌, ◌^◌, ◌≤◌, ◌<◌, ◌≡◌, List, [], ◌∷◌, length, some, arith, min,
}
use intrusion_detection.Xdp.Limiter.{
  second_ns, u64_mod, SlidingWindowState, RateLimitState, count_packet, sliding_window_limiter,
}

-- The packets that are let through, and those that put their address on the blocklist.
unfoldable pub run_window : RateLimitState → ℕ → ℕ → List ℕ → ℕ × ℕ
run_window state limit window [] = (0, 0)
run_window state limit window (now ∷ times) =
    let d = sliding_window_limiter (some state) limit window now in
    let rest = run_window d.state limit window times in
    (one_if d.allowed + rest.0, one_if d.blocklisted + rest.1)

-- Every time is in the window of `window` seconds that began at `from`.
abbrev pub Within : ℕ → ℕ → List ℕ → Type 0
Within from window [] = Unit {0}
Within from window (now ∷ times) =
    (from ≤ now) × (now < from + window * second_ns) × (now < u64_mod) × Within from window times

-- A state in which a window runs.
unfoldable pub IsRunning : SlidingWindowState → Type 0
IsRunning w =
    (0 < w.last_time)
    × (w.window * second_ns < u64_mod)
    × (w.packets ≤ w.limit)
    × (w.limit + 1 < u64_mod)
    × (w.drop_count < 2 ^ 32)

-- One packet in the window: it is counted, or dropped and counted as such.
inside_window :
    (state : RateLimitState) (limit window now : ℕ)
    → IsRunning state.sliding_window_limiter
    → state.sliding_window_limiter.last_time ≤ now
    → now < state.sliding_window_limiter.last_time + state.sliding_window_limiter.window * second_ns
    → now < u64_mod
    → sliding_window_limiter (some state) limit window now ≡ count_packet state
unfolding sliding_window_limiter IsRunning
inside_window state limit window now running lo hi small = ground arith

-- One packet more in the window, when the window has room or is full.
count_packet_lem :
    (state : RateLimitState)
    → IsRunning state.sliding_window_limiter
    → let w = state.sliding_window_limiter in
      let d = count_packet state in
      let w' = d.state.sliding_window_limiter in
      (w'.last_time ≡ w.last_time)
      × (w'.window ≡ w.window)
      × (w'.limit ≡ w.limit)
      × (w'.packets ≡ w.packets + one_if d.allowed)
      × (w'.drop_count + one_if d.allowed ≡ w.drop_count + 1)
      × (one_if d.allowed ≡ min 1 (w.limit - w.packets))
      × (one_if d.blocklisted ≡ min (1 - one_if d.allowed) (w.drop_count + 1 - 7))
      × (w.drop_count + 1 < 2 ^ 32 → IsRunning w')
unfolding count_packet IsRunning
count_packet_lem state running = ground arith

-- In a window that has begun and is not over its limit, with a span, a limit and drops that fit 64
-- bits, of the packets that come inside it exactly as many are let through as the limit leaves,
-- and each drop from the eighth on puts the address on the blocklist.
pub run_window_lem :
    (times : List ℕ) (state : RateLimitState) (limit window : ℕ)
    → IsRunning state.sliding_window_limiter
    → state.sliding_window_limiter.drop_count + length times < 2 ^ 32
    → Within state.sliding_window_limiter.last_time state.sliding_window_limiter.window times
    → let w = state.sliding_window_limiter in
      let n = length times in
      let r = run_window state limit window times in
      (r.0 ≡ min n (w.limit - w.packets)) × (r.1 ≡ min (n - r.0) (w.drop_count + (n - r.0) - 7))
unfolding run_window IsRunning
run_window_lem [] state limit window running few within = (omega arith, omega arith)
run_window_lem (now ∷ times) state limit window running few within =
    let d = count_packet state in
    let (same_time, same_window, same_limit, packets, drops, allowed, blocked, runs) =
      count_packet_lem state running in
    let within' : Within d.state.sliding_window_limiter.last_time
        d.state.sliding_window_limiter.window times =
      rw (same_time, same_window) within.3 in
    let rest =
      run_window_lem times d.state limit window (runs (omega arith)) (omega arith) within' in
    rw (inside_window state limit window now running within.0 within.1 within.2) (
      omega (arith, rest.0, rest.1, same_limit, packets, drops, allowed, blocked),
      omega (arith, rest.0, rest.1, same_limit, packets, drops, allowed, blocked),
    )
