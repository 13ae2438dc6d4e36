-- ===== src/Tcp/Engine/Tests.antt =====
-- Runs of the TCP engine at concrete inputs.
use intrusion_detection.Base.{ℕ, ◌≤◌, ◌≡◌, refl, true, false, [], some, arith}
use intrusion_detection.Table.{empty_table, find_from, find, emplace_from, insert_entry}
use intrusion_detection.Tcp.Options.{default_params}
use intrusion_detection.Tcp.Session.{TcpKey, same_key, TcpStreamSession, Packet, Allocator}
use intrusion_detection.Tcp.Engine.{
  TcpAssemblerEngine, empty_key, key_of, opened_session, fresh_result, clean_up, open_session,
  look_up, process_packet, max_active_tcp_session,
}
use intrusion_detection.Tcp.Engine.Capacity.{process_packet-size}

abbrev home : TcpKey → ℕ
home k = k.src_port

abbrev heap : Allocator
heap = record { session_ok = true; ring_ok = true; bitmap_ok = true; fresh = λ i. 0 }

abbrev packet : ℕ → ℕ → Packet
packet port flags = record {
  src_ip = 10;
  dst_ip = 20;
  src_port = port;
  dst_port = 443;
  seq = 1000;
  flags = flags;
  doff = 0;
  header = [];
  payload = [];
}

-- A table with one session, of another port.
abbrev other : TcpStreamSession
other = opened_session (packet 6 2) 5 default_params

abbrev engine : TcpAssemblerEngine
engine = record {
  sessions = insert_entry same_key home empty_table (key_of (packet 6 2)) other;
  last_cleanup_ns = 0;
}

abbrev nobody : Packet
nobody = record (packet 0 16) { src_ip = 0; dst_ip = 0; dst_port = 0 }

unnamed : same_key (key_of nobody) empty_key ≡ true
unfolding same_key
unnamed = refl

other_key : same_key (key_of (packet 7 2)) (key_of (packet 6 2)) ≡ false
unfolding same_key
other_key = refl

other_there :
    find same_key home (clean_up home engine 9).sessions (key_of (packet 6 2)) ≡ some other
unfolding find find_from clean_up same_key insert_entry emplace_from
other_there = refl

ignored :
    process_packet home heap engine (packet 7 16) 9 ≡ some (engine, fresh_result (packet 7 16))
unfolding process_packet look_up open_session find find_from clean_up same_key insert_entry
    emplace_from
ignored = refl

small : engine.sessions.size ≡ 1
unfolding insert_entry emplace_from
small = refl

process_packet-size_example : engine.sessions.size ≤ max_active_tcp_session
process_packet-size_example =
    process_packet-size home heap engine engine (packet 7 16) 9 (fresh_result (packet 7 16))
      (omega (arith, small)) ignored
