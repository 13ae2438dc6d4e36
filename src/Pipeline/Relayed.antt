-- ===== src/Pipeline/Relayed.antt =====
-- The parts of `handle_tcp_packet` that relay plain data keep the invariant of the session.
pub mod Tls
use intrusion_detection.Base.{
  ℕ, zero, suc, ◌^◌, ◌<◌, Bool, false, List, ◌++◌, length, drop, take, Option, none, some, arith,
  Option-cases, List-cases, inl, inr, OnSome, if_both, if◌then◌else◌, ltb,
}
use intrusion_detection.Tcp.Backend.{
  Backend, is_empty, is_open, Forwarded, forward_to_backend, read_from_backend,
}
use intrusion_detection.Tcp.Backend.Stream.{IsBounded, forward_to_backend-IsBounded}
use intrusion_detection.Tcp.Session.{TcpStreamSession}
use intrusion_detection.Tcp.Seq.{add32}
use intrusion_detection.Tls.Connection.{
  TlsConnection, step_handshake, decrypt, encrypt, read_pending_tx,
}
use intrusion_detection.Tls.Connection.States.{IsValid, step_handshake-IsValid, decrypt-IsValid}
use intrusion_detection.Pipeline.{
  World, inject, mss, data_frame, send_chunks, send_tcp_segmented_data,
}
use intrusion_detection.Pipeline.Frame.{Env, Frame, kept, Reply, refuse, acknowledge}
use intrusion_detection.Pipeline.Relay.{
  Watched, watch_backend, with_backend, forward_data, target_port_of, open_scan, clear_hello,
  Progress, returned, continued, serve_plain, serve_plaintext, with_tls, serve_handshake,
  serve_established, send_encrypted, relay_answer, and_then, serve_tls, bytes_or_none,
}
use intrusion_detection.Pipeline.Bounds.{
  IsValidFate, IsValidSession, refuse-IsValidFate, acknowledge-IsValidFate,
}

send_chunks-send_nxt :
    (rounds : ℕ) (s : TcpStreamSession) (w : World) (seq : ℕ) (bytes : List ℕ)
    → seq < 2 ^ 32
    → (send_chunks rounds s w seq bytes).send_nxt < 2 ^ 32
unfolding send_chunks
send_chunks-send_nxt zero s w seq bytes h = h
send_chunks-send_nxt (suc rounds) s w seq bytes h = elim (List-cases w.tx_pool) [
  | inl e ↦ ground arith
  | inr (addr, (pool, e)) ↦
      let out = inject (record w { tx_pool = pool }) addr (data_frame s seq (take mss bytes)) in
      ground (
        arith,
        send_chunks-send_nxt rounds s out.1 (add32 seq (length (take mss bytes))) (drop mss bytes)
            (omega arith),
      )
]

pub send_tcp_segmented_data-IsValidSession :
    (s : TcpStreamSession) (w : World) (bytes : List ℕ)
    → IsValidSession s
    → IsValidSession (send_tcp_segmented_data s w bytes).2
unfolding send_tcp_segmented_data
send_tcp_segmented_data-IsValidSession s w bytes h =
    if_both (λ (o : Bool × World × TcpStreamSession). IsValidSession o.2) (is_empty bytes)
      (false, w, s) _ h
      (record {
        hello = h.hello;
        backend = h.backend;
        tls = h.tls;
        nxt = send_chunks-send_nxt (length bytes) s w s.flow.send_nxt bytes h.nxt;
      })

unfoldable pub IsValidProgress : Progress → Type 0
IsValidProgress (returned r) = IsValidFate r.fate
IsValidProgress (continued s w) = OnSome IsValidSession s

pub returned-IsValidProgress : (r : Reply) → IsValidFate r.fate → IsValidProgress (returned r)
unfolding IsValidProgress
returned-IsValidProgress r h = h

pub continued-IsValidProgress :
    (s : Option TcpStreamSession) (w : World)
    → OnSome IsValidSession s
    → IsValidProgress (continued s w)
unfolding IsValidProgress
continued-IsValidProgress s w h = h

pub open_scan-IsValidSession :
    (env : Env) (s : TcpStreamSession) → IsValidSession s → IsValidSession (open_scan env s)
open_scan-IsValidSession env s h =
    if_both IsValidSession s.flow.hs_stream s _ h
      (record { hello = h.hello; backend = h.backend; tls = h.tls; nxt = h.nxt })

pub clear_hello-IsValidSession :
    (s : TcpStreamSession) → IsValidSession s → IsValidSession (clear_hello s)
clear_hello-IsValidSession s h = record {
  hello = omega arith;
  backend = h.backend;
  tls = h.tls;
  nxt = h.nxt;
}

watch_backend-IsBounded :
    (polling : Bool) (prev_fd : Option ℕ) (b : Backend) (w : World)
    → IsBounded b
    → IsBounded (watch_backend polling prev_fd b w).backend
unfolding watch_backend
watch_backend-IsBounded polling prev_fd b w h = ground arith

pub forward_data-IsValidFate :
    (env : Env) (f : Frame) (s : TcpStreamSession) (w : World) (bytes : List ℕ) (port : ℕ)
    → IsValidSession s
    → IsValidFate (forward_data env f s w bytes port).fate
unfolding forward_data
forward_data-IsValidFate env f s w bytes port h =
    if_both (λ (r : Reply). IsValidFate r.fate) out.ok
      (acknowledge f (with_backend s watched.backend) watched.world) (refuse f w')
      (acknowledge-IsValidFate f (with_backend s watched.backend) watched.world (record {
        hello = h.hello;
        backend =
            watch_backend-IsBounded env.polling s.flow.backend.fd out.backend w'
              (forward_to_backend-IsBounded env.sockets s.flow.backend bytes port h.backend);
        tls = h.tls;
        nxt = h.nxt;
      }))
      (refuse-IsValidFate f w')
  where
    out : Forwarded
    out = forward_to_backend env.sockets s.flow.backend bytes port

    w' : World
    w' = record w { to_backend = w.to_backend ++ out.wire }

    watched : Watched
    watched = watch_backend env.polling s.flow.backend.fd out.backend w'

pub serve_plain-IsValidProgress :
    (env : Env) (f : Frame) (s : Option TcpStreamSession) (hello : List ℕ) (w : World)
    → OnSome IsValidSession s
    → IsValidProgress (serve_plain env f s hello w)
unfolding serve_plain
serve_plain-IsValidProgress env f none hello w h = ground (
  arith,
  returned-IsValidProgress (refuse f w) (refuse-IsValidFate f w),
  continued-IsValidProgress none w tt,
)
serve_plain-IsValidProgress env f (some s) hello w h = ground (
  arith,
  returned-IsValidProgress (refuse f w) (refuse-IsValidFate f w),
  returned-IsValidProgress (forward_data env f cleared w hello port)
      (forward_data-IsValidFate env f cleared w hello port valid),
  continued-IsValidProgress (some cleared) w valid,
)
  where
    cleared : TcpStreamSession
    cleared = clear_hello (open_scan env s)

    port : ℕ
    port = target_port_of env f s.flow.backend.port

    valid : IsValidSession cleared
    valid = clear_hello-IsValidSession (open_scan env s) (open_scan-IsValidSession env s h)
