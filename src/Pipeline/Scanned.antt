-- ===== src/Pipeline/Scanned.antt =====
-- Nothing goes to a backend but what the scanner let pass.
pub mod Handler
pub mod Respond
use mathlib.Core.Path.{subst}
use intrusion_detection.Base.{
  ℕ, zero, suc, ◌+◌, ◌≡◌, refl, sym, ap, ◌∙◌, Bool, true, false, not, List, [], ◌∷◌, ◌++◌, length,
  ◌⊎◌, drop, take, Option, none, some, arith, Option-cases, Bool-cases, List-cases, inl, inr,
  OnSome, if_both, if◌then◌else◌, ltb, ◌&&◌,
}
use intrusion_detection.Tcp.Backend.{
  Backend, is_empty, is_open, Forwarded, forward_to_backend, read_from_backend,
}
use intrusion_detection.Tcp.Session.{TcpStreamSession, Flow, TcpAssemblyResult}
use intrusion_detection.Tcp.Seq.{add32}
use intrusion_detection.Net.Injector.{TxDesc}
use intrusion_detection.Tls.Connection.{
  TlsConnection, step_handshake, decrypt, encrypt, read_pending_tx, feed_network_data,
}
use intrusion_detection.Pipeline.{
  World, inject, mss, data_frame, Segmented, send_chunks, send_tcp_segmented_data,
}
use intrusion_detection.Pipeline.Frame.{
  Env, Frame, Fate, kept, closed, absent, Reply, refuse, acknowledge, answer_syn, with_flow,
}
use intrusion_detection.Pipeline.Relay.{
  Watched, watch_backend, call_epoll, with_backend, forward_data, target_port_of, open_scan, scans,
  clear_hello, Progress, returned, continued, serve_plain, serve_plaintext, with_tls,
  serve_handshake, serve_established, send_encrypted, relay_answer, and_then, serve_tls,
  bytes_or_none,
}

inject-to_backend :
    (w : World) (addr : ℕ) (build : Bool → Option TxDesc)
    → (inject w addr build).1.to_backend ≡ w.to_backend
unfolding inject
inject-to_backend w addr build = elim (List-cases w.ring) [
  | inl e ↦ ground arith
  | inr (b, (ring, e)) ↦ ground (arith, Option-cases (build b))
]

send_chunks-to_backend :
    (rounds : ℕ) (s : TcpStreamSession) (w : World) (seq : ℕ) (bytes : List ℕ)
    → (send_chunks rounds s w seq bytes).world.to_backend ≡ w.to_backend
unfolding send_chunks
send_chunks-to_backend zero s w seq bytes = refl
send_chunks-to_backend (suc rounds) s w seq bytes = elim (List-cases w.tx_pool) [
  | inl e ↦ ground arith
  | inr (addr, (pool, e)) ↦
      let v = record w { tx_pool = pool } in
      let out = inject v addr (data_frame s seq (take mss bytes)) in
      ground (
        arith,
        inject-to_backend v addr (data_frame s seq (take mss bytes)),
        send_chunks-to_backend rounds s out.1 (add32 seq (length (take mss bytes)))
            (drop mss bytes),
      )
]

-- The session's connection to the backend and the bytes that wait there.
abbrev pub HasBackend : Option ℕ → List ℕ → TcpStreamSession → Type 0
HasBackend fd buf s = (s.flow.backend.fd ≡ fd) × (s.flow.backend.tx_buf ≡ buf)

send_tcp_segmented_data-backend :
    (s : TcpStreamSession) (w : World) (bytes : List ℕ)
    → let out = send_tcp_segmented_data s w bytes in
      (out.1.to_backend ≡ w.to_backend) × (out.2.flow.backend ≡ s.flow.backend)
unfolding send_tcp_segmented_data
send_tcp_segmented_data-backend s w bytes =
    ground (arith, send_chunks-to_backend (length bytes) s w s.flow.send_nxt bytes)

-- The scanner was asked about the bytes and found no attack.
abbrev pub IsClean : Env → List ℕ → Type 0
IsClean env bytes = (env.scan bytes ≡ false) ⊎ (env.scan_stream bytes ≡ false)

-- From a session with this connection and these bytes that wait, and from this stream to backends,
-- the stream either stays, or it grows by what one `forward_to_backend` of clean bytes sends.
abbrev pub IsScanned : Env → Option ℕ → List ℕ → List ℕ → World → Type 0
IsScanned env fd buf stream w =
    (w.to_backend ≡ stream)
    ⊎ ((bytes : List ℕ) × (port : ℕ) × (b : Backend) × IsClean env bytes
        × (b.fd ≡ fd)
        × (b.tx_buf ≡ buf)
        × (w.to_backend ≡ stream ++ (forward_to_backend env.sockets b bytes port).wire))

refuse-to_backend : (f : Frame) (w : World) → (refuse f w).world.to_backend ≡ w.to_backend
unfolding refuse
refuse-to_backend f w = inject-to_backend w f.buf_addr _

acknowledge-to_backend :
    (f : Frame) (s : TcpStreamSession) (w : World)
    → (acknowledge f s w).world.to_backend ≡ w.to_backend
unfolding acknowledge
acknowledge-to_backend f s w = inject-to_backend w f.buf_addr _

watch_backend-to_backend :
    (polling : Bool) (prev_fd : Option ℕ) (b : Backend) (w : World)
    → (watch_backend polling prev_fd b w).world.to_backend ≡ w.to_backend
unfolding watch_backend
watch_backend-to_backend polling prev_fd b w = ground (arith, Option-cases b.fd)

forward_data-to_backend :
    (env : Env) (f : Frame) (s : TcpStreamSession) (w : World) (bytes : List ℕ) (port : ℕ)
    → (forward_data env f s w bytes port).world.to_backend
      ≡ w.to_backend ++ (forward_to_backend env.sockets s.flow.backend bytes port).wire
unfolding forward_data
forward_data-to_backend env f s w bytes port =
    if_both (λ (r : Reply). r.world.to_backend ≡ w'.to_backend) out.ok
      (acknowledge f (with_backend s watched.backend) watched.world) (refuse f w')
      (acknowledge-to_backend f (with_backend s watched.backend) watched.world
        ∙ watch_backend-to_backend env.polling s.flow.backend.fd out.backend w')
      (refuse-to_backend f w')
  where
    out : Forwarded
    out = forward_to_backend env.sockets s.flow.backend bytes port

    w' : World
    w' = record w { to_backend = w.to_backend ++ out.wire }

    watched : Watched
    watched = watch_backend env.polling s.flow.backend.fd out.backend w'
