-- ===== src/Pipeline.antt =====
-- The pipeline of src/main/transport/tcp_pipeline.h: what it does to the world around it, and
-- `send_tcp_segmented_data`. The pointers that the callers pass are never null.
pub mod Segments
pub mod Complete
pub mod Frame
pub mod Hello
pub mod Relay
pub mod Packet
pub mod Drain
pub mod Bounds
pub mod Relayed
pub mod Sessions
pub mod Scanned
pub mod Runs
pub mod Total
pub mod Allowed
mod Tests
use intrusion_detection.Base.{
  ℕ, zero, suc, ◌+◌, ◌-◌, ◌%◌, ◌^◌, Bool, true, false, List, [], ◌∷◌, ◌++◌, length, take, drop,
  Option, none, some, min, if◌then◌else◌,
}
use intrusion_detection.Tcp.Seq.{add32}
use intrusion_detection.Tcp.Backend.{recv_window, is_empty}
use intrusion_detection.Tcp.Session.{TcpStreamSession, Flow, ntohs}
use intrusion_detection.Net.Injector.{Ends, TxDesc, ipv4_send_tcp_data}

-- A frame on the transmit ring, with the address of its buffer.
pub record Sent : Type 0 where
  pub addr : ℕ
  pub desc : TxDesc

-- A call of `epoll_ctl` with EPOLLIN and EPOLLRDHUP, and with EPOLLOUT or without.
pub data EpollCall : Type 0 where
  epoll_add epoll_mod : ℕ → Bool → EpollCall
  epoll_del : ℕ → EpollCall

-- What the pipeline shares with the kernel: the free transmit buffers (`tx_pool`, its back first),
-- whether the ring has a place at each request from now on, the frames put on the ring, the calls of
-- `epoll_ctl`, the bytes that backends took, and those that `BIO_write` and `SSL_write` were given.
pub record World : Type 0 where
  pub tx_pool : List ℕ
  pub ring : List Bool
  pub frames : List Sent
  pub epoll : List EpollCall
  pub to_backend : List ℕ
  pub fed : List ℕ
  pub encrypted : List ℕ

-- A builder of `PacketInjector` with its request for a place: `build` is given the answer.
unfoldable pub inject : World → ℕ → (Bool → Option TxDesc) → Bool × World
inject w addr build = elim w.ring [
  | [] ↦ (false, w)
  | answer ∷ ring ↦ elim (build answer) [
    | none ↦ (false, record w { ring = ring })
    | some desc ↦ (
      true,
      record w { ring = ring; frames = w.frames ++ (record { addr = addr; desc = desc } ∷ []) },
    )
  ]
]

abbrev pub mss : ℕ
mss = 1460

-- The ends of a session, as the pipeline passes them to the builders.
abbrev pub ends_of : TcpStreamSession → Ends
ends_of s = record {
  client_mac = s.flow.client_mac;
  server_mac = s.flow.server_mac;
  client_ip = s.key.src_ip;
  server_ip = s.key.dst_ip;
  client_port = s.key.src_port;
  server_port = s.key.dst_port;
}

-- A frame with a chunk of data at a sequence number.
unfoldable pub data_frame : TcpStreamSession → ℕ → List ℕ → Bool → Option TxDesc
data_frame s seq chunk answer =
    ipv4_send_tcp_data answer (ends_of s) seq s.rcv_nxt chunk (recv_window s.flow.backend)

-- What the loop leaves: `all_sent`, the world, and `send_nxt`.
pub record Segmented : Type 0 where
  pub all_sent : Bool
  pub world : World
  pub send_nxt : ℕ

-- The loop of `send_tcp_segmented_data`, from the rest of the data on.
unfoldable pub send_chunks : ℕ → TcpStreamSession → World → ℕ → List ℕ → Segmented
send_chunks zero s w seq bytes = record { all_sent = true; world = w; send_nxt = seq }
send_chunks (suc rounds) s w seq bytes =
    let chunk = take mss bytes in
    if is_empty bytes
    then record { all_sent = true; world = w; send_nxt = seq }
    else elim w.tx_pool [
      | [] ↦ record { all_sent = false; world = w; send_nxt = seq }
      | addr ∷ pool ↦
          let out = inject (record w { tx_pool = pool }) addr (data_frame s seq chunk) in
          let rest = send_chunks rounds s out.1 (add32 seq (length chunk)) (drop mss bytes) in
          if out.0 then rest else record {
            all_sent = false;
            world = record out.1 { tx_pool = addr ∷ pool };
            send_nxt = seq;
          }
    ]

unfoldable pub send_tcp_segmented_data :
    TcpStreamSession → World → List ℕ → Bool × World × TcpStreamSession
send_tcp_segmented_data s w bytes =
    let out = send_chunks (length bytes) s w s.flow.send_nxt bytes in
    if is_empty bytes
    then (false, w, s)
    else (out.all_sent, out.world, record s { flow = record s.flow { send_nxt = out.send_nxt } })
