-- ===== src/Pipeline/Relay.antt =====
-- The data in `handle_tcp_packet`: what is scanned, forwarded to the backend, and sent back.
use intrusion_detection.Base.{
  ℕ, Bool, true, false, not, ◌&&◌, ltb, ◌==◌, List, [], ◌∷◌, ◌++◌, length, Option, none, some,
  if◌then◌else◌,
}
use intrusion_detection.Tcp.Backend.{
  Backend, is_open, is_empty, forward_to_backend, read_from_backend,
}
use intrusion_detection.Tcp.Session.{TcpStreamSession, ntohs}
use intrusion_detection.Tls.Connection.{
  TlsSessionStatus, is_status, TlsConnection, feed_network_data, step_handshake, read_pending_tx,
  decrypt, encrypt,
}
use intrusion_detection.Pipeline.{World, EpollCall, epoll_add, epoll_mod, send_tcp_segmented_data}
use intrusion_detection.Pipeline.Frame.{Env, Frame, kept, Reply, refuse, acknowledge, with_flow}

abbrev pub same_fd : Option ℕ → Option ℕ → Bool
same_fd none none = true
same_fd (some a) (some b) = a == b
same_fd _ _ = false

-- What a part leaves of the backend's fields, and the world then.
pub record Watched : Type 0 where
  pub backend : Backend
  pub world : World

abbrev pub call_epoll : Backend → World → (ℕ → EpollCall) → World
call_epoll b w call = elim b.fd [
  | none ↦ w
  | some fd ↦ record w { epoll = w.epoll ++ (call fd ∷ []) }
]

-- The calls of `epoll_ctl` behind a `forward_to_backend`.
unfoldable pub watch_backend : Bool → Option ℕ → Backend → World → Watched
watch_backend polling prev_fd b w =
    let pending = not (is_empty b.tx_buf) in
    if polling && is_open b.fd
    then if not (same_fd prev_fd b.fd)
      then record {
        backend = record b { epollout_armed = pending };
        world = call_epoll b w (λ fd. epoll_add fd pending);
      }
      else if pending && not b.epollout_armed
      then record {
        backend = record b { epollout_armed = true };
        world = call_epoll b w (λ fd. epoll_mod fd true);
      }
      else record { backend = b; world = w }
    else record { backend = b; world = w }

abbrev pub with_backend : TcpStreamSession → Backend → TcpStreamSession
with_backend s b = with_flow s (record s.flow { backend = b })

-- From `prev_fd` on: the forwarding, the watch on the backend, and the ACK, or the RST.
unfoldable pub forward_data : Env → Frame → TcpStreamSession → World → List ℕ → ℕ → Reply
forward_data env f s w bytes target_port =
    let out = forward_to_backend env.sockets s.flow.backend bytes target_port in
    let w' = record w { to_backend = w.to_backend ++ out.wire } in
    let watched = watch_backend env.polling s.flow.backend.fd out.backend w' in
    if out.ok then acknowledge f (with_backend s watched.backend) watched.world else refuse f w'

-- The port to forward to: that of the session, or else that of the address's service.
abbrev pub target_port_of : Env → Frame → ℕ → ℕ
target_port_of env f port =
    if port == 0
    then elim (env.find_by_ip_port f.dst_ip (ntohs f.dst_port)) [
      | none ↦ port
      | some svc ↦ svc.backend_port
    ]
    else port

abbrev pub open_scan : Env → TcpStreamSession → TcpStreamSession
open_scan env s =
    if s.flow.hs_stream then s else with_flow s (record s.flow { hs_stream = env.open_stream })

abbrev pub scans : Env → TcpStreamSession → List ℕ → Bool
scans env s bytes = if s.flow.hs_stream then env.scan_stream bytes else env.scan bytes

abbrev pub clear_hello : TcpStreamSession → TcpStreamSession
clear_hello s = with_flow s (record s.flow { client_hello_buf = [] })

-- How a part of the function ends: it returns, or it goes on behind the part.
pub data Progress : Type 0 where
  returned : Reply → Progress
  continued : Option TcpStreamSession → World → Progress

-- The branch of plain data. `forward_to_backend` is given a copy of the data, so that the buffer of
-- the ClientHello is cleared before it here.
unfoldable pub serve_plain : Env → Frame → Option TcpStreamSession → List ℕ → World → Progress
serve_plain env f none hello w = if env.scan hello then returned (refuse f w) else continued none w
serve_plain env f (some s) hello w =
    let s₁ = open_scan env s in
    let port = target_port_of env f s.flow.backend.port in
    if scans env s₁ hello
    then returned (refuse f w)
    else if ltb 0 port
    then returned (forward_data env f (clear_hello s₁) w hello port)
    else continued (some (clear_hello s₁)) w

-- The plain bytes of a TLS connection.
unfoldable pub serve_plaintext : Env → Frame → TcpStreamSession → List ℕ → World → Progress
serve_plaintext env f s bytes w =
    let s₁ = open_scan env s in
    let port = target_port_of env f s.flow.backend.port in
    if scans env s₁ bytes
    then returned (refuse f w)
    else if ltb 0 port
    then returned (forward_data env f s₁ w bytes port)
    else continued (some s₁) w

abbrev pub with_tls : TcpStreamSession → TlsConnection → TcpStreamSession
with_tls s c = with_flow s (record s.flow { tls_conn = c })

-- The step of the handshake; it ends the function where OpenSSL has bytes to send.
unfoldable pub serve_handshake : Env → TcpStreamSession → World → Progress
serve_handshake env s w =
    let c = (step_handshake env.handshake s.flow.tls_conn).1 in
    let tx = read_pending_tx env.handshake_tx c 16384 in
    let out = send_tcp_segmented_data (with_tls s c) w tx in
    if is_status s.flow.tls_conn.status TlsSessionStatus.handshake
    then if ltb 0 (length tx)
      then returned (record { sent = false; fate = kept out.2; world = out.1 })
      else continued (some (with_tls s c)) w
    else continued (some s) w

unfoldable pub serve_established : Env → Frame → TcpStreamSession → World → Progress
serve_established env f s w =
    let read = decrypt env.ssl_read s.flow.tls_conn 16384 in
    if is_status s.flow.tls_conn.status TlsSessionStatus.established
    then elim read.0 [
      | none ↦ continued (some (with_tls s read.1)) w
      | some bytes ↦
          if ltb 0 (length bytes)
          then serve_plaintext env f (with_tls s read.1) bytes w
          else continued (some (with_tls s read.1)) w
    ]
    else continued (some s) w

abbrev pub bytes_or_none : Option (List ℕ) → List ℕ
bytes_or_none none = []
bytes_or_none (some bytes) = bytes

-- `encrypt`, and the sending of what OpenSSL has then.
unfoldable pub send_encrypted : Env → TcpStreamSession → World → List ℕ → TcpStreamSession × World
send_encrypted env s w bytes =
    let w' = record w {
      encrypted = w.encrypted ++ bytes_or_none (encrypt s.flow.tls_conn bytes);
    } in
    let enc = read_pending_tx env.written_tx s.flow.tls_conn 16384 in
    let out = send_tcp_segmented_data s w' enc in
    if ltb 0 (length enc) then (out.2, out.1) else (s, w')

-- The answer of the backend, encrypted and sent to the client.
unfoldable pub relay_answer : Env → TcpStreamSession → World → TcpStreamSession × World
relay_answer env s w =
    let answer = read_from_backend env.recv s.flow.backend 16384 in
    if is_open s.flow.backend.fd
    then elim answer [
      | none ↦ (s, w)
      | some bytes ↦ if ltb 0 (length bytes) then send_encrypted env s w bytes else (s, w)
    ]
    else (s, w)

abbrev pub and_then : Progress → (TcpStreamSession → World → Progress) → Progress
and_then (returned r) g = returned r
and_then (continued none w) g = continued none w
and_then (continued (some s) w) g = g s w

-- The branch of a session with TLS.
unfoldable pub serve_tls : Env → Frame → TcpStreamSession → List ℕ → World → Progress
serve_tls env f s hello w =
    let w' = record w { fed = w.fed ++ bytes_or_none (feed_network_data s.flow.tls_conn hello) } in
    and_then
      (and_then (serve_handshake env (clear_hello s) w') (λ s₁ w₁. serve_established env f s₁ w₁))
      (λ s₂ w₂. let out = relay_answer env s₂ w₂ in continued (some out.0) out.1)
