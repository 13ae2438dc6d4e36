-- ===== src/Pipeline/Drain.antt =====
-- `drain_backend_events` of src/main/transport/tcp_pipeline.h: the events of the backends' sockets.
-- The pointer to the session in an event is the session's key; a pointer to no session of the table is
-- a fault.
pub mod Bounds
use intrusion_detection.Base.{
  ℕ, ◌+◌, ◌%◌, ◌^◌, Bool, true, false, not, ◌&&◌, ◌||◌, ltb, leb, List, [], ◌∷◌, ◌++◌, length, take,
  Option, none, some, ◌>>=◌, if◌then◌else◌,
}
use intrusion_detection.Table.{find, insert_entry}
use intrusion_detection.Tcp.Seq.{add32}
use intrusion_detection.Tcp.Backend.{
  Backend, is_open, is_empty, SendResult, recv_window, flush_backend_tx, read_from_backend,
}
use intrusion_detection.Tcp.Session.{TcpKey, same_key, TcpStreamSession, Flow}
use intrusion_detection.Tcp.Engine.{TcpAssemblerEngine, close_session}
use intrusion_detection.Tls.Connection.{TlsSessionStatus, is_status, encrypt, read_pending_tx}
use intrusion_detection.Net.Injector.{TxDesc, ipv4_send_tcp_data, ipv4_send_tcp_fin}
use intrusion_detection.Pipeline.{
  World, epoll_mod, epoll_del, inject, ends_of, send_tcp_segmented_data,
}
use intrusion_detection.Pipeline.Frame.{with_flow}
use intrusion_detection.Pipeline.Relay.{with_backend, call_epoll, bytes_or_none}

-- An event with what `send`, `recv` and OpenSSL answer in its round. `hung_up` is any of EPOLLRDHUP,
-- EPOLLHUP and EPOLLERR; `recv` is none for -1 and no bytes for the end of the stream.
pub record BackendEvent : Type 0 where
  pub session : Option TcpKey
  pub writable : Bool
  pub readable : Bool
  pub hung_up : Bool
  pub send : SendResult
  pub recv : Option (List ℕ)
  pub written_tx : List ℕ

-- What a part of a round leaves: the session, the world, and `work_done`.
pub record Round : Type 0 where
  pub session : TcpStreamSession
  pub world : World
  pub work_done : ℕ

-- A frame in the buffer at the back of the pool, which goes back where the ring has no place: whether
-- it was sent, and the world.
unfoldable pub send_pooled : World → (Bool → Option TxDesc) → Bool × World
send_pooled w build = elim w.tx_pool [
  | [] ↦ (false, w)
  | addr ∷ pool ↦
      let out = inject (record w { tx_pool = pool }) addr build in
      if out.0 then out else (false, record out.1 { tx_pool = addr ∷ pool })
]

-- The end of the watch on writing, when nothing waits any more.
unfoldable pub disarm : TcpStreamSession → World → TcpStreamSession × World
disarm s w =
    if is_empty s.flow.backend.tx_buf
    then (
      with_backend s (record s.flow.backend { epollout_armed = false }),
      call_epoll s.flow.backend w (λ fd. epoll_mod fd false),
    )
    else (s, w)

-- The block of EPOLLOUT.
unfoldable pub drain_writable : BackendEvent → TcpStreamSession → World → ℕ → Round
drain_writable ev s w work =
    let old_win = recv_window s.flow.backend in
    let out = flush_backend_tx ev.send s.flow.backend in
    let new_win = recv_window out.backend in
    let idle =
      disarm (with_backend s out.backend) (record w { to_backend = w.to_backend ++ out.wire }) in
    let update =
      send_pooled idle.1
        (λ b. ipv4_send_tcp_data b (ends_of s) s.flow.send_nxt s.rcv_nxt [] new_win) in
    if ltb old_win 16384 && leb 16384 new_win
    then record {
      session = idle.0;
      world = update.1;
      work_done = if update.0 then work + 1 else work;
    }
    else record { session = idle.0; world = idle.1; work_done = work }

-- `send_tcp_segmented_data` with its share of `work_done`.
abbrev pub send_counted : TcpStreamSession → World → List ℕ → ℕ → Round
send_counted s w bytes work =
    let out = send_tcp_segmented_data s w bytes in
    record { session = out.2; world = out.1; work_done = if out.0 then work + 1 else work }

-- What is done with bytes from the backend.
unfoldable pub relay_bytes : BackendEvent → TcpStreamSession → World → ℕ → List ℕ → Round
relay_bytes ev s w work bytes =
    let w' = record w {
      encrypted = w.encrypted ++ bytes_or_none (encrypt s.flow.tls_conn bytes);
    } in
    let enc = read_pending_tx ev.written_tx s.flow.tls_conn 16384 in
    if is_status s.flow.tls_conn.status TlsSessionStatus.established
    then if ltb 0 (length enc)
      then send_counted s w' enc work
      else record { session = s; world = w'; work_done = work }
    else send_counted s w bytes work

-- The block of EPOLLIN: the round, and whether the backend has ended the stream.
unfoldable pub drain_readable : BackendEvent → TcpStreamSession → World → ℕ → Round × Bool
drain_readable ev s w work =
    let still : Round = record { session = s; world = w; work_done = work } in
    if ev.readable
    then elim (read_from_backend ev.recv s.flow.backend 16384) [
      | none ↦ (still, false)
      | some bytes ↦
          if is_empty bytes then (still, true) else (relay_bytes ev s w work bytes, false)
    ]
    else (still, false)

-- The end of the connection to the backend, up to `close_session`.
unfoldable pub close_backend : TcpStreamSession → World → TcpStreamSession × World
close_backend s w =
    let w' = call_epoll s.flow.backend w epoll_del in
    let s' = with_backend s (record s.flow.backend { fd = none }) in
    let fin = send_pooled w' (λ b.
      ipv4_send_tcp_fin b (ends_of s') s'.flow.send_nxt s'.rcv_nxt (recv_window s'.flow.backend)) in
    if fin.0
    then (with_flow s' (record s'.flow { send_nxt = add32 s'.flow.send_nxt 1 }), fin.1)
    else (s', fin.1)

-- A round on a session with an open connection: the session, the world, `work_done`, and whether the
-- session is to be closed.
unfoldable pub drain_session : BackendEvent → TcpStreamSession → World → ℕ → Round × Bool
drain_session ev s w work =
    let wrote =
      if ev.writable
      then drain_writable ev s w work
      else record { session = s; world = w; work_done = work } in
    let read = drain_readable ev wrote.session wrote.world wrote.work_done in
    let closed = close_backend read.0.session read.0.world in
    if ev.hung_up || read.1
    then (record { session = closed.0; world = closed.1; work_done = read.0.work_done }, true)
    else (read.0, false)

-- What the rounds leave.
pub record Drained : Type 0 where
  pub engine : TcpAssemblerEngine
  pub world : World
  pub work_done : ℕ

module _ (hash : TcpKey → ℕ) where
  -- A round's session back in the table, or out of it.
  abbrev pub settle_round : TcpAssemblerEngine → TcpKey → Round × Bool → Option TcpAssemblerEngine
  settle_round e key out =
      let kept = insert_entry same_key hash e.sessions key out.0.session in
      if out.1
      then close_session hash kept out.0.session.key >>= (λ t. some (record e { sessions = t }))
      else some (record e { sessions = kept })

  -- The round of an event whose pointer names this session.
  unfoldable pub drain_event : Option TcpKey → BackendEvent → Drained → Option Drained
  drain_event none ev d = some d
  drain_event (some key) ev d = find same_key hash d.engine.sessions key >>= (λ s.
      let out = drain_session ev s d.world d.work_done in
      if is_open s.flow.backend.fd
      then settle_round d.engine key out
        >>= (λ e. some (record { engine = e; world = out.0.world; work_done = out.0.work_done }))
      else some d)

  -- The rounds over the events of one `epoll_wait`.
  unfoldable pub drain_events : List BackendEvent → Drained → Option Drained
  drain_events [] d = some d
  drain_events (ev ∷ events) d = drain_event ev.session ev d >>= (λ d'. drain_events events d')

  -- `epoll_wait` gives at most 16 events.
  unfoldable pub drain_backend_events :
      Bool → List BackendEvent → TcpAssemblerEngine → World → Option Drained
  drain_backend_events polling events e w =
      let start : Drained = record { engine = e; world = w; work_done = 0 } in
      if polling then drain_events (take 16 events) start else some start
