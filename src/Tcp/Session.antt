-- ===== src/Tcp/Session.antt =====
-- The types of the reassembler: states, keys, sessions, results, and the buffers of a session.
use intrusion_detection.Base.{
  ℕ, ◌+◌, ◌*◌, ◌/◌, ◌%◌, Bool, true, false, ◌&&◌, ◌==◌, List, [], ◌∷◌, Option, none, some,
  if◌then◌else◌,
}
use intrusion_detection.Tcp.Options.{NegotiatedParams}
use intrusion_detection.Tcp.Ring.{Memory}
use intrusion_detection.Tcp.Bitmap.{Bitmap, empty_bitmap}
use intrusion_detection.Tcp.Backend.{Backend}
use intrusion_detection.Tls.Connection.{TlsConnection, blank_connection}

pub data TcpState : Type 0 where
  closed syn_sent established closing : TcpState

abbrev pub is_state : TcpState → TcpState → Bool
is_state TcpState.closed TcpState.closed = true
is_state TcpState.syn_sent TcpState.syn_sent = true
is_state TcpState.established TcpState.established = true
is_state TcpState.closing TcpState.closing = true
is_state _ _ = false

-- Addresses and ports in network order, as the headers have them.
pub record TcpKey : Type 0 where
  pub src_ip : ℕ
  pub dst_ip : ℕ
  pub src_port : ℕ
  pub dst_port : ℕ

-- `TcpKey::operator==`, which leaves the padding out.
unfoldable pub same_key : TcpKey → TcpKey → Bool
same_key a b =
    a.src_ip == b.src_ip
    && (a.dst_ip == b.dst_ip && (a.src_port == b.src_port && a.dst_port == b.dst_port))

-- What `ring_buf` and `bitmap` point to.
pub record Buffers : Type 0 where
  pub ring : Memory
  pub bitmap : Bitmap

-- The fields of `TcpStreamSession` that only the pipeline uses; `hs_stream` says whether a stream of
-- the scanner is open.
pub record Flow : Type 0 where
  pub tls_conn : TlsConnection
  pub backend : Backend
  pub hs_stream : Bool
  pub client_mac : List ℕ
  pub server_mac : List ℕ
  pub send_nxt : ℕ
  pub client_hello_buf : List ℕ

abbrev pub blank_flow : Flow
blank_flow = record {
  tls_conn = blank_connection;
  backend = record { fd = none; port = 0; tx_buf = []; epollout_armed = false };
  hs_stream = false;
  client_mac = 0 ∷ 0 ∷ 0 ∷ 0 ∷ 0 ∷ 0 ∷ [];
  server_mac = 0 ∷ 0 ∷ 0 ∷ 0 ∷ 0 ∷ 0 ∷ [];
  send_nxt = 0;
  client_hello_buf = [];
}

pub record TcpStreamSession : Type 0 where
  pub key : TcpKey
  pub state : TcpState
  pub out_of_order_count : ℕ
  pub isn : ℕ
  pub rcv_nxt : ℕ
  pub last_seen_ns : ℕ
  pub params : NegotiatedParams
  pub buffers : Option Buffers
  pub flow : Flow

-- `TcpAssemblyResult`. The payload is the bytes that the pointer and the length name, and
-- `session` says whether the session pointer is set.
pub record TcpAssemblyResult : Type 0 where
  pub is_ready : Bool
  pub is_syn : Bool
  pub is_closed : Bool
  pub need_ack : Bool
  pub src_port : ℕ
  pub dst_port : ℕ
  pub payload : List ℕ
  pub session : Bool

-- The packet: the fields of the headers that the code reads, `seq` in host order.
pub record Packet : Type 0 where
  pub src_ip : ℕ
  pub dst_ip : ℕ
  pub src_port : ℕ
  pub dst_port : ℕ
  pub seq : ℕ
  pub flags : ℕ
  pub doff : ℕ
  pub header : List ℕ
  pub payload : List ℕ

abbrev pub th_fin : ℕ
th_fin = 1

abbrev pub th_syn : ℕ
th_syn = 2

abbrev pub th_rst : ℕ
th_rst = 4

abbrev pub th_ack : ℕ
th_ack = 16

-- `flags & bit`, for a power of two.
abbrev pub has_flag : ℕ → ℕ → Bool
has_flag flags bit = flags / bit % 2 == 1

-- `ntohs` on a little-endian machine.
abbrev pub ntohs : ℕ → ℕ
ntohs x = x % 256 * 256 + x / 256 % 256

-- What the allocator answers to each request that a packet may make, and what the memory that it
-- gives for the ring holds.
pub record Allocator : Type 0 where
  pub session_ok : Bool
  pub ring_ok : Bool
  pub bitmap_ok : Bool
  pub fresh : Memory

-- `init_bufferes`: the buffers, or none where an allocation fails.
unfoldable pub init_bufferes : Allocator → Option Buffers → Option Buffers
init_bufferes heap (some b) = some b
init_bufferes heap none =
    if heap.ring_ok
    then if heap.bitmap_ok then some (record { ring = heap.fresh; bitmap = empty_bitmap }) else none
    else none
