-- ===== src/Tcp/Segment/Window.antt =====
-- The window test of `process_packet`, by where the packet ends.
use intrusion_detection.Base.{
  ℕ, ◌+◌, ◌-◌, ◌≤◌, ◌<◌, ◌≡◌, length, drop, true, ltb, ◌==◌, arith, if◌then◌else◌,
}
use intrusion_detection.Tcp.Seq.{u32_mod, add32, diff, lt, lte}
use intrusion_detection.Tcp.Ring.{window_size}
use intrusion_detection.Tcp.Session.{TcpStreamSession, TcpAssemblyResult, Packet, Allocator}
use intrusion_detection.Tcp.Segment.{Outcome, returned, place, process_payload, trimmed_len}

-- A packet on the wire: its numbers are words, and it has a payload of at most 65535 bytes.
pub record IsPacket (s : TcpStreamSession) (p : Packet) : Type 0 where
  pub seq_word : p.seq < u32_mod
  pub nxt_word : s.rcv_nxt < u32_mod
  pub some_bytes : 0 < length p.payload
  pub few_bytes : length p.payload < 65536

-- How far the end of the packet lies beyond `rcv_nxt`, round the sequence space.
abbrev pub reach : TcpStreamSession → Packet → ℕ
reach s p = diff (add32 p.seq (length p.payload)) s.rcv_nxt

-- The payload block by the end of the packet alone: a duplicate, far away, overlapping, or ahead.
abbrev pub process_by_reach :
    Allocator → TcpStreamSession → TcpAssemblyResult → Packet → ℕ → ℕ → Outcome
process_by_reach heap s r p len e =
    if e == 0
    then returned s (record r { need_ack = true })
    else if ltb window_size e
    then returned s r
    else if ltb e len
    then place heap s r s.rcv_nxt (drop (len - e) p.payload) e
    else place heap s r p.seq p.payload len

-- The same, a case at a time.
pub process_payload-cases :
    (heap : Allocator) (s : TcpStreamSession) (r : TcpAssemblyResult) (p : Packet)
    → IsPacket s p
    → (reach s p ≡ 0 → process_payload heap s r p ≡ returned s (record r { need_ack = true }))
      × (window_size < reach s p → process_payload heap s r p ≡ returned s r)
      × (0 < reach s p
          → reach s p ≤ window_size
          → length p.payload < reach s p + 1
          → process_payload heap s r p ≡ place heap s r p.seq p.payload (length p.payload))
      × (0 < reach s p
          → reach s p ≤ window_size
          → reach s p < length p.payload
          → process_payload heap s r p
            ≡ place heap s r s.rcv_nxt (drop (length p.payload - reach s p) p.payload) (reach s p))
unfolding process_payload lt lte
process_payload-cases heap s r p v = (
  ground arith,
  ground arith,
  ground arith,
  λ a b c.
      let e : diff s.rcv_nxt p.seq ≡ length p.payload - reach s p = omega arith in
      let t : trimmed_len (length p.payload) (diff s.rcv_nxt p.seq) ≡ reach s p = omega arith in
      ground arith,
)

-- For a packet with words for numbers and 1 to 65535 bytes the four comparisons of wrapped
-- sequence numbers come to one: with `e` the distance, modulo 2^32, of the packet's end beyond
-- `rcv_nxt`, for `e` = 0 the packet is acknowledged as a duplicate, and nothing else changes; for
-- `e` > 65536 it is ignored; in between it is placed, from `rcv_nxt` on and without its first
-- bytes where `e` is less than its length.
pub process_payload_window :
    (heap : Allocator) (s : TcpStreamSession) (r : TcpAssemblyResult) (p : Packet)
    → IsPacket s p
    → process_payload heap s r p ≡ process_by_reach heap s r p (length p.payload) (reach s p)
process_payload_window heap s r p v =
    let (duplicate, outside, within, overlap) = process_payload-cases heap s r p v in
    ground (arith, duplicate, outside, within, overlap)

-- A packet with words for numbers and 1 to 65535 bytes that ends before `rcv_nxt`, as `TcpSeq::lt`
-- has it, changes nothing and gets no acknowledgement.
pub process_payload_stale :
    (heap : Allocator) (s : TcpStreamSession) (r : TcpAssemblyResult) (p : Packet)
    → IsPacket s p
    → lt (add32 p.seq (length p.payload)) s.rcv_nxt ≡ true
    → process_payload heap s r p ≡ returned s r
unfolding process_payload lt lte
process_payload_stale heap s r p v h = ground arith
