-- ===== src/Pipeline/Tests.antt =====
-- Runs of the pipeline at concrete inputs.
use intrusion_detection.Base.{
  ℕ, ◌≡◌, refl, Bool, true, false, List, [], ◌∷◌, ◌++◌, take, ◌==◌, none, some, arith,
}
use intrusion_detection.Table.{empty_table, insert_entry, find, find_from, emplace_from}
use intrusion_detection.Tcp.Options.{default_params, parse_tcp_syn_option, parse_options}
use intrusion_detection.Tcp.Backend.{sent}
use intrusion_detection.Tcp.Session.{
  TcpState, TcpKey, same_key, TcpStreamSession, blank_flow, TcpAssemblyResult, Allocator,
}
use intrusion_detection.Tcp.Engine.{
  TcpAssemblerEngine, key_of, opened_session, process_packet, look_up, open_session, clean_up,
}
use intrusion_detection.Tls.Connection.{
  TlsSessionStatus, is_status, HandshakeResult, ReadResult, init, reset, step_handshake,
  feed_network_data, read_pending_tx,
}
use intrusion_detection.Pipeline.{World, send_tcp_segmented_data}
use intrusion_detection.Pipeline.Frame.{
  ServiceConfig, Env, Frame, packet_of, read_packet, kept, Reply, with_flow, with_macs, answer_syn,
}
use intrusion_detection.Pipeline.Packet.{
  Handled, respond, handle_tcp_packet, serve_ready, inspect, serve,
}
use intrusion_detection.Pipeline.Hello.{
  accumulate_hello, collect, check_policy, open_tls, start_tls,
}
use intrusion_detection.Pipeline.Relay.{clear_hello, with_tls, serve_tls, serve_handshake}
use intrusion_detection.Tls.Parser.{
  parse_client_hello, parse_handshake, parse_hello_body, skip_block8, skip_block16,
  parse_extension_block, parse_extensions, parse_server_name, view, read_u16_be,
}
use intrusion_detection.Tls.Parser.Hello.{encode_hello}
use intrusion_detection.Tls.Blocklist.{is_allowed, listed, parent_listed}
use intrusion_detection.Pipeline.Segments.{
  IsSegmented, outcome, send_tcp_segmented_data-IsSegmented,
}
use intrusion_detection.Pipeline.Complete.{send_tcp_segmented_data-all_sent}
use intrusion_detection.Pipeline.Scanned.{IsScanned}
use intrusion_detection.Pipeline.Scanned.Respond.{respond-IsScanned}
use intrusion_detection.Pipeline.Allowed.{HasAllowed}
use intrusion_detection.Pipeline.Allowed.Answer.{respond_allowed}
use intrusion_detection.Pipeline.Total.{respond-total}
use intrusion_detection.Pipeline.Bounds.{IsValidFlow}
use intrusion_detection.Pipeline.Runs.{initial_engine, packet, here, next, Reach-IsValidFlow}

abbrev home : TcpKey → ℕ
home k = k.src_port

abbrev heap : Allocator
heap = record { session_ok = true; ring_ok = true; bitmap_ok = true; fresh = λ i. 0 }

abbrev world : World
world = record {
  tx_pool = 4096 ∷ 8192 ∷ [];
  ring = true ∷ true ∷ true ∷ [];
  frames = [];
  epoll = [];
  to_backend = [];
  fed = [];
  encrypted = [];
}

abbrev service : ServiceConfig
service = record { has_ctx = true; backend_port = 8080 }

-- A scanner that finds an attack in data that start with 66.
abbrev finds : List ℕ → Bool
finds [] = false
finds (x ∷ xs) = x == 66

abbrev env : Env
env = record {
  find_by_domain = λ d. some service;
  find_by_ip_port = λ ip port. none;
  domains = [];
  open_stream = true;
  scan_stream = finds;
  scan = finds;
  objects = record { ssl = some 1; in_bio = some 2; out_bio = some 3 };
  handshake = HandshakeResult.wants;
  handshake_tx = 22 ∷ 3 ∷ 3 ∷ [];
  ssl_read = ReadResult.wants;
  written_tx = [];
  sockets = record { socket = some 9; send = sent 2 };
  recv = none;
  polling = true;
}

-- A SYN without options.
abbrev syn : Frame
syn = record {
  buf_addr = 0;
  shost = 1 ∷ 2 ∷ 3 ∷ 4 ∷ 5 ∷ 6 ∷ [];
  dhost = 6 ∷ 5 ∷ 4 ∷ 3 ∷ 2 ∷ 1 ∷ [];
  ihl = 5;
  tot_len = 40;
  ip_pkt_len = 40;
  src_ip = 10;
  dst_ip = 20;
  src_port = 7;
  dst_port = 80;
  raw_seq = 0;
  raw_ack_seq = 0;
  seq = 1000;
  flags = 2;
  doff = 5;
  tcp_bytes = 0 ∷ 0 ∷ 0 ∷ 0 ∷ 0 ∷ 0 ∷ 0 ∷ 0 ∷ 0 ∷ 0 ∷ 0 ∷ 0 ∷ 0 ∷ 0 ∷ 0 ∷ 0 ∷ 0 ∷ 0 ∷ 0 ∷ 0 ∷ [];
}

-- A session whose connection to port 8080 is open.
abbrev session : TcpStreamSession
session = record (opened_session (packet_of syn) 5 default_params) {
  state = TcpState.established;
  flow = record blank_flow {
    backend = record { fd = some 3; port = 8080; tx_buf = []; epollout_armed = false };
    send_nxt = 1000001;
  };
}

abbrev ready : List ℕ → TcpAssemblyResult
ready payload = record {
  is_ready = true;
  is_syn = false;
  is_closed = false;
  need_ack = false;
  src_port = 7;
  dst_port = 80;
  payload = payload;
  session = true;
}

send_tcp_segmented_data-IsSegmented_example :
    (k : ℕ) × IsSegmented session world 1000001
      (1 ∷ 2 ∷ 3 ∷ [])
      (outcome (send_tcp_segmented_data session world (1 ∷ 2 ∷ 3 ∷ [])))
      k
send_tcp_segmented_data-IsSegmented_example =
    send_tcp_segmented_data-IsSegmented session world (1 ∷ 2 ∷ 3 ∷ []) (omega arith) (omega arith)

send_tcp_segmented_data-all_sent_example :
    (send_tcp_segmented_data session world (1 ∷ 2 ∷ 3 ∷ [])).0 ≡ true
send_tcp_segmented_data-all_sent_example =
    send_tcp_segmented_data-all_sent session world (1 ∷ 2 ∷ 3 ∷ []) 1 (omega arith) (omega arith)
      (refl, tt) (omega arith)

-- Three bytes of which the backend takes two.
abbrev served : Reply
served = (respond-total env syn (some session) (ready (7 ∷ 8 ∷ 9 ∷ [])) world).0

respond-IsScanned_example : IsScanned env (some 3) [] [] served.world
respond-IsScanned_example =
    respond-IsScanned env syn session (ready (7 ∷ 8 ∷ 9 ∷ [])) world served
      (respond-total env syn (some session) (ready (7 ∷ 8 ∷ 9 ∷ [])) world).1

-- What the SYN makes of the empty table.
abbrev opened : TcpStreamSession
opened = opened_session (packet_of syn) 9 default_params

abbrev greeted : TcpStreamSession
greeted = with_flow opened (record (with_macs syn blank_flow) { send_nxt = 1000001 })

abbrev after_syn : TcpAssemblerEngine
after_syn = record {
  sessions =
      insert_entry same_key home
        (insert_entry same_key home empty_table (key_of (packet_of syn)) opened)
        (key_of (packet_of syn)) greeted;
  last_cleanup_ns = 0;
}

abbrev syn_answered : Handled
syn_answered = record {
  sent = (answer_syn syn opened world).sent;
  engine = after_syn;
  world = (answer_syn syn opened world).world;
}

syn_opens : handle_tcp_packet home heap env initial_engine world syn 9 ≡ some syn_answered
unfolding read_packet handle_tcp_packet process_packet look_up open_session find find_from clean_up
    same_key insert_entry emplace_from respond answer_syn parse_tcp_syn_option parse_options
syn_opens = refl

greeted_there : after_syn.sessions.cells 7 ≡ some (key_of (packet_of syn), greeted)
unfolding insert_entry emplace_from same_key
greeted_there = refl

Reach-IsValidFlow_example : IsValidFlow greeted.flow
Reach-IsValidFlow_example =
    Reach-IsValidFlow home after_syn 7 (key_of (packet_of syn)) greeted
      (next here (packet heap env world syn 9 initial_engine syn_answered syn_opens)) greeted_there

-- A hello for `a.de`.
abbrev hello : List ℕ
hello = encode_hello (record {
  random = take 34 (3 ∷ 3 ∷ syn.tcp_bytes ++ syn.tcp_bytes);
  session_id = [];
  cipher_suites = 19 ∷ 1 ∷ [];
  compression_methods = 0 ∷ [];
  before = [];
  host = 97 ∷ 46 ∷ 100 ∷ 101 ∷ [];
  after = [];
})

abbrev collected : TcpStreamSession
collected = with_flow session (record session.flow { client_hello_buf = hello })

-- The session when the hello is fed to OpenSSL, which has an answer to send.
abbrev started : TcpStreamSession
started = clear_hello (open_tls env syn (97 ∷ 46 ∷ 100 ∷ 101 ∷ []) collected)

abbrev stepped : Bool × World × TcpStreamSession
stepped =
    send_tcp_segmented_data
      (with_tls started (step_handshake env.handshake started.flow.tls_conn).1)
      (record world { fed = hello }) (22 ∷ 3 ∷ 3 ∷ [])

hello_starts_tls :
    respond env syn (some session) (ready hello) world
    ≡ some (record { sent = false; fate = kept stepped.2; world = stepped.1 })
unfolding respond serve_ready accumulate_hello collect inspect parse_client_hello parse_handshake
    parse_hello_body skip_block8 skip_block16 parse_extension_block parse_extensions
    parse_server_name view read_u16_be check_policy is_allowed listed parent_listed serve serve_tls
    serve_handshake open_tls start_tls init step_handshake reset feed_network_data read_pending_tx
hello_starts_tls = refl

tls_runs : is_status stepped.2.flow.tls_conn.status TlsSessionStatus.idle ≡ false
unfolding open_tls start_tls init step_handshake reset send_tcp_segmented_data
tls_runs = refl

respond_allowed_example : HasAllowed env [] hello
respond_allowed_example =
    respond_allowed env syn session stepped.2 (ready hello) world
      (record { sent = false; fate = kept stepped.2; world = stepped.1 }) refl hello_starts_tls refl
      tls_runs
