-- ===== src/Pipeline/Frame.antt =====
-- The input of `handle_tcp_packet` of src/main/transport/tcp_pipeline.h and its answers with a SYN-ACK,
-- an ACK or an RST. The kernel, OpenSSL, the scanner and the registry of services are answers in
-- `Env`.
use intrusion_detection.Base.{
  ℕ, ◌+◌, ◌-◌, ◌*◌, ◌%◌, Bool, leb, List, length, take, drop, Option, none, some, if◌then◌else◌,
}
use intrusion_detection.Tcp.Backend.{Sockets, recv_window}
use intrusion_detection.Tcp.Session.{TcpStreamSession, Flow, Packet}
use intrusion_detection.Tls.Connection.{HandshakeResult, ReadResult, Objects}
use intrusion_detection.Tls.Blocklist.{DomainSet}
use intrusion_detection.Net.Injector.{
  Ends, ipv4_send_tcp_syn_ack, ipv4_send_tcp_ack, ipv4_send_tcp_rst,
}
use intrusion_detection.Pipeline.{World, inject}

-- The fields of a `ServiceConfig` that the pipeline reads: whether `ssl_ctx` is set, and the port.
pub record ServiceConfig : Type 0 where
  pub has_ctx : Bool
  pub backend_port : ℕ

-- The answers that the calls of one `handle_tcp_packet` get.
pub record Env : Type 0 where
  pub find_by_domain : List ℕ → Option ServiceConfig
  pub find_by_ip_port : ℕ → ℕ → Option ServiceConfig
  pub domains : DomainSet
  pub open_stream : Bool
  pub scan_stream : List ℕ → Bool
  pub scan : List ℕ → Bool
  pub objects : Objects
  pub handshake : HandshakeResult
  pub handshake_tx : List ℕ
  pub ssl_read : ReadResult
  pub written_tx : List ℕ
  pub sockets : Sockets
  pub recv : Option (List ℕ)
  pub polling : Bool

-- A received frame: the fields of the headers that are read, with the raw ones as the machine reads
-- them, and the bytes from the TCP header on.
pub record Frame : Type 0 where
  pub buf_addr : ℕ
  pub shost : List ℕ
  pub dhost : List ℕ
  pub ihl : ℕ
  pub tot_len : ℕ
  pub ip_pkt_len : ℕ
  pub src_ip : ℕ
  pub dst_ip : ℕ
  pub src_port : ℕ
  pub dst_port : ℕ
  pub raw_seq : ℕ
  pub raw_ack_seq : ℕ
  pub seq : ℕ
  pub flags : ℕ
  pub doff : ℕ
  pub tcp_bytes : List ℕ

-- In 16 bits, so that it wraps where the headers are longer than the packet.
abbrev pub payload_len : Frame → ℕ
payload_len f =
    let headers = f.ihl * 4 + f.doff * 4 in (f.tot_len + 65536 - headers % 65536) % 65536

abbrev pub packet_of : Frame → Packet
packet_of f = record {
  src_ip = f.src_ip;
  dst_ip = f.dst_ip;
  src_port = f.src_port;
  dst_port = f.dst_port;
  seq = f.seq;
  flags = f.flags;
  doff = f.doff;
  header = f.tcp_bytes;
  payload = take (payload_len f) (drop (f.doff * 4) f.tcp_bytes);
}

-- The bytes of the header and the payload are taken out of memory here; none where they run past its
-- end, which a read of them would.
unfoldable pub read_packet : Frame → Option Packet
read_packet f =
    if leb (f.doff * 4 + payload_len f) (length f.tcp_bytes) then some (packet_of f) else none

-- The answering builders swap the ends of the frame.
abbrev pub frame_ends : Frame → Ends
frame_ends f = record {
  client_mac = f.shost;
  server_mac = f.dhost;
  client_ip = f.src_ip;
  server_ip = f.dst_ip;
  client_port = f.src_port;
  server_port = f.dst_port;
}

-- What becomes of the packet's session: kept as it is then, closed by `close_session`, or there is
-- none.
pub data Fate : Type 0 where
  kept : TcpStreamSession → Fate
  closed absent : Fate

pub record Reply : Type 0 where
  pub sent : Bool
  pub fate : Fate
  pub world : World

-- `close_session` and the RST.
unfoldable pub refuse : Frame → World → Reply
refuse f w =
    let out =
      inject w f.buf_addr
        (λ b. ipv4_send_tcp_rst b (frame_ends f) f.raw_seq f.raw_ack_seq f.flags (payload_len f)) in
    record { sent = out.0; fate = closed; world = out.1 }

unfoldable pub acknowledge : Frame → TcpStreamSession → World → Reply
acknowledge f s w =
    let out = inject w f.buf_addr (λ b.
      ipv4_send_tcp_ack b (frame_ends f) s.flow.send_nxt s.rcv_nxt (recv_window s.flow.backend)) in
    record { sent = out.0; fate = kept s; world = out.1 }

abbrev pub with_flow : TcpStreamSession → Flow → TcpStreamSession
with_flow s flow = record s { flow = flow }

abbrev pub with_macs : Frame → Flow → Flow
with_macs f flow = record flow { client_mac = f.shost; server_mac = f.dhost }

-- The answer to a SYN.
unfoldable pub answer_syn : Frame → TcpStreamSession → World → Reply
answer_syn f s w =
    let out = inject w f.buf_addr (λ b. ipv4_send_tcp_syn_ack b (frame_ends f) 1000000 f.seq) in
    record {
      sent = out.0;
      fate = kept (with_flow s (record (with_macs f s.flow) { send_nxt = 1000001 }));
      world = out.1;
    }
