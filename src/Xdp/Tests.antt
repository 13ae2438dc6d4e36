-- ===== src/Xdp/Tests.antt =====
-- Runs of the XDP program and its limiters at concrete inputs.
use intrusion_detection.Base.{ℕ, ◌+◌, ◌*◌, ◌≡◌, ◌≤◌, refl, List, [], ◌∷◌, some, arith}
use intrusion_detection.Xdp.Limiter.{second_ns, refill_per_sec, RateLimitState}
use intrusion_detection.Xdp.Limiter.Bucket.{run_bucket, run_bucket-bound}
use intrusion_detection.Xdp.Limiter.Window.{IsRunning}
use intrusion_detection.Xdp.Program.{
  Datarec, XdpContext, XdpOutcome, read_be16, read_le32, route_ipv4, aethon_xdp_prog_main,
}
use intrusion_detection.Xdp.Program.Queues.{IsIpv4Fragment}

abbrev limiter : RateLimitState
limiter = record {
  token_bucket = record { tokens = 2; last_updated = 100; drop_count = 0 };
  sliding_window_limiter = record {
    last_time = 100;
    packets = 1;
    drop_count = 6;
    limit = 2;
    window = 10;
  };
  algo = 0;
}

run_bucket-bound_example :
    run_bucket limiter 5 (200 ∷ 300 ∷ 50000 ∷ []) * second_ns + 100 * refill_per_sec
    ≤ 2 * second_ns + 60000 * refill_per_sec
run_bucket-bound_example =
    run_bucket-bound (200 ∷ 300 ∷ 50000 ∷ []) limiter 5 100 60000 (omega arith) (omega arith)
      (omega arith, (omega arith, (omega arith, omega arith))) (omega arith) (omega arith)
      (omega arith)

limiter-IsRunning : IsRunning limiter.sliding_window_limiter
unfolding IsRunning
limiter-IsRunning = (omega arith, omega arith, omega arith, omega arith, omega arith)

-- An IPv4 frame with the given fragment word, protocol and last byte.
abbrev frame : ℕ → ℕ → ℕ → List ℕ
frame frag protocol last =
    0 ∷ 0 ∷ 0 ∷ 0 ∷ 0 ∷ 0 ∷ 0 ∷ 0 ∷ 0 ∷ 0 ∷ 0 ∷ 0 ∷ 8 ∷ 0 ∷ 0x45 ∷ 0 ∷ 0 ∷ 40 ∷ 0 ∷ 9 ∷ frag ∷ 0
    ∷ 64 ∷ protocol ∷ 0 ∷ 0 ∷ 10 ∷ 0 ∷ 0 ∷ 1 ∷ 10 ∷ 0 ∷ 0 ∷ 2 ∷ last ∷ []

abbrev counters : List Datarec
counters =
    (record { rx_packets = 0; rx_bytes = 0 }) ∷ (record { rx_packets = 4; rx_bytes = 400 }) ∷ []

abbrev on_queue : ℕ → XdpContext
on_queue q = record { num_queues = some 4; rx_queue_index = q; redirect_map = λ i. 4 }

abbrev sent : ℕ → XdpOutcome
sent q = record { action = 4; target_queue = some q; stats = counters }

first_run : aethon_xdp_prog_main (on_queue 1) counters (frame 0x20 17 5) ≡ some (sent 0)
unfolding aethon_xdp_prog_main route_ipv4 read_be16 read_le32
first_run = refl

second_run : aethon_xdp_prog_main (on_queue 3) counters (frame 1 17 6) ≡ some (sent 0)
unfolding aethon_xdp_prog_main route_ipv4 read_be16 read_le32
second_run = refl

first-IsIpv4Fragment : IsIpv4Fragment (frame 0x20 17 5)
unfolding read_be16
first-IsIpv4Fragment = (refl, (0x2000, refl, refl))

second-IsIpv4Fragment : IsIpv4Fragment (frame 1 17 6)
unfolding read_be16
second-IsIpv4Fragment = (refl, (0x100, refl, refl))

same_source : read_le32 (frame 0x20 17 5) 26 ≡ read_le32 (frame 1 17 6) 26
unfolding read_le32
same_source = refl

same_destination : read_le32 (frame 0x20 17 5) 30 ≡ read_le32 (frame 1 17 6) 30
unfolding read_le32
same_destination = refl

tcp-IsIpv4Fragment : IsIpv4Fragment (frame 0x20 6 5)
unfolding read_be16
tcp-IsIpv4Fragment = (refl, (0x2000, refl, refl))
