-- ===== src/Tcp/Tests.antt =====
-- Runs of the reassembler at concrete inputs.
use intrusion_detection.Base.{
  ℕ, zero, suc, ◌+◌, ◌≡◌, refl, ◌⊎◌, true, false, ◌&&◌, ◌||◌, leb, ltb, ◌==◌, List, [], ◌∷◌, none,
  some, arith,
}
use mathlib.Core.Path.{subst}
use mathlib.Core.Option.{some-injective}
use intrusion_detection.Tcp.Seq.{add32, lt, lte}
use intrusion_detection.Tcp.Options.{
  NegotiatedParams, default_params, IsNegotiable, apply_option, parse_options, parse_tcp_syn_option,
  parse_tcp_syn_option-total,
}
use intrusion_detection.Tcp.Ring.{
  window_size, read_ring_buffer, write_ring_buffer, read_ring_buffer-write_ring_buffer,
}
use intrusion_detection.Tcp.Bitmap.{
  Bitmap, bit, set_bits, set_bitmap_range, any_set, any_below, is_range_set, trailing_ones,
  count_bytes, count_continuous_bytes,
}
use intrusion_detection.Tcp.Session.{
  TcpState, TcpKey, Buffers, TcpStreamSession, blank_flow, TcpAssemblyResult, Packet, Allocator,
  has_flag, th_rst, th_syn, th_ack, init_bufferes,
}
use intrusion_detection.Tcp.Segment.{
  returned, conflicts, store, place, process_established, process_fin, process_payload,
  process_session,
}
use intrusion_detection.Tcp.Segment.Window.{
  IsPacket, reach, process_by_reach, process_payload_window, process_payload_stale,
}
use intrusion_detection.Tcp.Segment.Stream.{Stream, IsBuffered, Holds, Delivers}
use intrusion_detection.Tcp.Segment.Reassembly.{Carries, process_payload-Delivers}
use intrusion_detection.Tcp.Segment.States.{Verdict, process_session-Verdict, process_session-ready}

abbrev heap : Allocator
heap = record { session_ok = true; ring_ok = true; bitmap_ok = true; fresh = λ i. 0 }

abbrev key : TcpKey
key = record { src_ip = 10; dst_ip = 20; src_port = 30; dst_port = 40 }

abbrev blank_result : TcpAssemblyResult
blank_result = record {
  is_ready = false;
  is_syn = false;
  is_closed = false;
  need_ack = false;
  src_port = 30;
  dst_port = 40;
  payload = [];
  session = true;
}

-- Bytes 4 and 5 of a stream whose byte at sequence number `i` is `i`.
abbrev waiting : Buffers
waiting = record { ring = λ i. i; bitmap = λ w b. w == 0 && (leb 4 b && ltb b 6) }

-- A session that has taken no byte yet, with two bytes that wait behind a gap of three.
abbrev gapped : TcpStreamSession
gapped = record {
  key = key;
  state = TcpState.established;
  out_of_order_count = 1;
  isn = 0;
  rcv_nxt = 1;
  last_seen_ns = 7;
  params = default_params;
  buffers = some waiting;
  flow = blank_flow;
}

-- The packet that fills the gap.
abbrev filler : Packet
filler = record {
  src_ip = 10;
  dst_ip = 20;
  src_port = 30;
  dst_port = 40;
  seq = 1;
  flags = 16;
  doff = 5;
  header = [];
  payload = 1 ∷ 2 ∷ 3 ∷ [];
}

abbrev counting : Stream
counting i = i + 1

filler-IsPacket : IsPacket gapped filler
filler-IsPacket = record {
  seq_word = omega arith;
  nxt_word = omega arith;
  some_bytes = omega arith;
  few_bytes = omega arith;
}

waiting-IsBuffered : IsBuffered counting 0 1 waiting
waiting-IsBuffered d hd set = ground arith

gapped-Holds : Holds counting 0 gapped
gapped-Holds b e = subst (IsBuffered counting 0 1) (some-injective _ _ e) waiting-IsBuffered

filler-Carries : Carries counting 0 gapped filler
filler-Carries zero j hk hj e = omega arith
filler-Carries (suc zero) j hk hj e = omega arith
filler-Carries (suc (suc zero)) j hk hj e = omega arith
filler-Carries (suc (suc (suc k))) j hk hj e = absurd (omega arith)

process_payload-Delivers_example :
    Delivers counting 0 gapped (process_payload heap gapped blank_result filler)
process_payload-Delivers_example =
    process_payload-Delivers counting 0 heap gapped blank_result filler filler-IsPacket gapped-Holds
      filler-Carries (λ e. absurd (ground arith)) refl

process_payload_window_example :
    process_payload heap gapped blank_result filler
    ≡ process_by_reach heap gapped blank_result filler 3 (reach gapped filler)
process_payload_window_example =
    process_payload_window heap gapped blank_result filler filler-IsPacket

process_session-Verdict_example :
    Verdict gapped filler 9 (process_session heap gapped blank_result filler 9)
process_session-Verdict_example = process_session-Verdict heap gapped blank_result filler 9

-- The same session when it has taken bytes 1 to 4, with nothing buffered.
abbrev caught_up : TcpStreamSession
caught_up = record gapped { rcv_nxt = 5; out_of_order_count = 0; buffers = none }

stale : lt (add32 1 3) 5 ≡ true
unfolding lt
stale = refl

process_payload_stale_example :
    process_payload heap caught_up blank_result filler ≡ returned caught_up blank_result
process_payload_stale_example =
    process_payload_stale heap caught_up blank_result filler
      (record {
        seq_word = omega arith;
        nxt_word = omega arith;
        some_bytes = omega arith;
        few_bytes = omega arith;
      })
      stale

abbrev in_order : Packet
in_order = record filler { seq = 5 }

delivered :
    process_session heap caught_up blank_result in_order 9
    ≡ returned
        (record caught_up { rcv_nxt = 8; last_seen_ns = 9 })
        (record blank_result { payload = 1 ∷ 2 ∷ 3 ∷ []; is_ready = true })
unfolding process_session process_established process_payload process_fin place lt lte
delivered = refl

process_session-ready_example :
    (has_flag 16 th_rst ≡ false)
    × (has_flag 16 th_syn ≡ false)
    × ((TcpState.established ≡ TcpState.established)
        ⊎ (TcpState.established ≡ TcpState.syn_sent) × (has_flag 16 th_ack ≡ true))
process_session-ready_example =
    process_session-ready heap caught_up blank_result in_order 9
      (record caught_up { rcv_nxt = 8; last_seen_ns = 9 })
      (record blank_result { payload = 1 ∷ 2 ∷ 3 ∷ []; is_ready = true }) refl delivered refl

-- Two gaps: bytes 4 and 5 wait, and byte 10.
abbrev scattered : Buffers
scattered = record { ring = λ i. i; bitmap = λ w b. w == 0 && ((leb 4 b && ltb b 6) || b == 10) }

abbrev two_gaps : TcpStreamSession
two_gaps = record gapped { buffers = some scattered }

abbrev filled : Bitmap
filled = (store scattered 1 (1 ∷ 2 ∷ 3 ∷ []) 3).bitmap

filled_run : count_continuous_bytes 1 window_size filled ≡ 5
unfolding count_continuous_bytes count_bytes trailing_ones store set_bitmap_range set_bits
filled_run = refl

filled_far : bit filled 10 ≡ true
unfolding store set_bitmap_range set_bits
filled_far = refl

no_conflict : conflicts scattered 1 (1 ∷ 2 ∷ 3 ∷ []) 3 ≡ false
unfolding conflicts is_range_set any_set any_below
no_conflict = refl

some_kept : init_bufferes heap (some scattered) ≡ some scattered
unfolding init_bufferes
some_kept = refl

-- A SYN's options: MSS 1400, a no-op, window scale 20, which is cut to 14, and the end.
abbrev syn_header : List ℕ
syn_header =
    0 ∷ 0 ∷ 0 ∷ 0 ∷ 0 ∷ 0 ∷ 0 ∷ 0 ∷ 0 ∷ 0 ∷ 0 ∷ 0 ∷ 0 ∷ 0 ∷ 0 ∷ 0 ∷ 0 ∷ 0 ∷ 0 ∷ 0 ∷ 2 ∷ 4 ∷ 5 ∷ 120
    ∷ 1 ∷ 3 ∷ 3 ∷ 20 ∷ []

syn_options :
    parse_tcp_syn_option syn_header 7 default_params
    ≡ some (record { mss = 1400; wscale = 14; sack_permitted = false })
unfolding parse_tcp_syn_option parse_options apply_option
syn_options = refl

parse_tcp_syn_option-total_example :
    (r : NegotiatedParams) × (parse_tcp_syn_option syn_header 7 default_params ≡ some r)
    × IsNegotiable r
parse_tcp_syn_option-total_example =
    parse_tcp_syn_option-total syn_header 7 default_params (omega arith) (omega arith)

-- Four bytes across the end of the ring.
read_ring_buffer-write_ring_buffer_example :
    read_ring_buffer 65534 4 (write_ring_buffer 65534 (7 ∷ 8 ∷ 9 ∷ 10 ∷ []) 4 (λ i. 0))
    ≡ 7 ∷ 8 ∷ 9 ∷ 10 ∷ []
read_ring_buffer-write_ring_buffer_example =
    read_ring_buffer-write_ring_buffer 65534 (7 ∷ 8 ∷ 9 ∷ 10 ∷ []) 4 (λ i. 0) (omega arith)
      (omega arith)

some_set : is_range_set 2 4 waiting.bitmap ≡ true
unfolding is_range_set any_set any_below
some_set = refl
