-- ===== src/Pipeline/Relayed/Tls.antt =====
-- The parts of the branch with TLS keep the invariant of the session.
use intrusion_detection.Base.{
  ℕ, Bool, false, List, ◌++◌, length, Option, none, some, arith, Option-cases, inl, inr, if_both,
  if◌then◌else◌, ltb,
}
use intrusion_detection.Tcp.Backend.{is_open, read_from_backend}
use intrusion_detection.Tcp.Session.{TcpStreamSession}
use intrusion_detection.Tls.Connection.{
  TlsConnection, step_handshake, decrypt, encrypt, read_pending_tx,
}
use intrusion_detection.Tls.Connection.States.{IsValid, step_handshake-IsValid, decrypt-IsValid}
use intrusion_detection.Pipeline.{World, send_tcp_segmented_data}
use intrusion_detection.Pipeline.Frame.{Env, Frame, kept, refuse}
use intrusion_detection.Pipeline.Relay.{
  forward_data, target_port_of, open_scan, clear_hello, Progress, returned, continued,
  serve_plaintext, with_tls, serve_handshake, serve_established, send_encrypted, relay_answer,
  and_then, serve_tls, bytes_or_none,
}
use intrusion_detection.Pipeline.Bounds.{IsValidSession, refuse-IsValidFate}
use intrusion_detection.Pipeline.Relayed.{
  send_tcp_segmented_data-IsValidSession, IsValidProgress, returned-IsValidProgress,
  continued-IsValidProgress, open_scan-IsValidSession, clear_hello-IsValidSession,
  forward_data-IsValidFate,
}

serve_plaintext-IsValidProgress :
    (env : Env) (f : Frame) (s : TcpStreamSession) (bytes : List ℕ) (w : World)
    → IsValidSession s
    → IsValidProgress (serve_plaintext env f s bytes w)
unfolding serve_plaintext
serve_plaintext-IsValidProgress env f s bytes w h = ground (
  arith,
  returned-IsValidProgress (refuse f w) (refuse-IsValidFate f w),
  returned-IsValidProgress (forward_data env f (open_scan env s) w bytes port)
      (forward_data-IsValidFate env f (open_scan env s) w bytes port valid),
  continued-IsValidProgress (some (open_scan env s)) w valid,
)
  where
    port : ℕ
    port = target_port_of env f s.flow.backend.port

    valid : IsValidSession (open_scan env s)
    valid = open_scan-IsValidSession env s h

with_tls-IsValidSession :
    (s : TcpStreamSession) (c : TlsConnection)
    → IsValidSession s
    → IsValid c
    → IsValidSession (with_tls s c)
with_tls-IsValidSession s c h v = record {
  hello = h.hello;
  backend = h.backend;
  tls = v;
  nxt = h.nxt;
}

serve_handshake-IsValidProgress :
    (env : Env) (s : TcpStreamSession) (w : World)
    → IsValidSession s
    → IsValidProgress (serve_handshake env s w)
unfolding serve_handshake
serve_handshake-IsValidProgress env s w h = ground (
  arith,
  returned-IsValidProgress (record { sent = false; fate = kept out.2; world = out.1 })
      (send_tcp_segmented_data-IsValidSession (with_tls s c) w tx valid),
  continued-IsValidProgress (some (with_tls s c)) w valid,
  continued-IsValidProgress (some s) w h,
)
  where
    c : TlsConnection
    c = (step_handshake env.handshake s.flow.tls_conn).1

    tx : List ℕ
    tx = read_pending_tx env.handshake_tx c 16384

    out : Bool × World × TcpStreamSession
    out = send_tcp_segmented_data (with_tls s c) w tx

    valid : IsValidSession (with_tls s c)
    valid =
        with_tls-IsValidSession s c h (step_handshake-IsValid env.handshake s.flow.tls_conn h.tls)

serve_established-IsValidProgress :
    (env : Env) (f : Frame) (s : TcpStreamSession) (w : World)
    → IsValidSession s
    → IsValidProgress (serve_established env f s w)
unfolding serve_established
serve_established-IsValidProgress env f s w h = elim (Option-cases read.0) [
  | inl e ↦ ground (
    arith,
    continued-IsValidProgress (some (with_tls s read.1)) w valid,
    continued-IsValidProgress (some s) w h,
  )
  | inr (bytes, e) ↦ ground (
    arith,
    serve_plaintext-IsValidProgress env f (with_tls s read.1) bytes w valid,
    continued-IsValidProgress (some (with_tls s read.1)) w valid,
    continued-IsValidProgress (some s) w h,
  )
]
  where
    read : Option (List ℕ) × TlsConnection
    read = decrypt env.ssl_read s.flow.tls_conn 16384

    valid : IsValidSession (with_tls s read.1)
    valid =
        with_tls-IsValidSession s read.1 h
          (decrypt-IsValid env.ssl_read s.flow.tls_conn 16384 h.tls)

send_encrypted-IsValidSession :
    (env : Env) (s : TcpStreamSession) (w : World) (bytes : List ℕ)
    → IsValidSession s
    → IsValidSession (send_encrypted env s w bytes).0
unfolding send_encrypted
send_encrypted-IsValidSession env s w bytes h =
    if_both (λ (o : TcpStreamSession × World). IsValidSession o.0) (ltb 0 (length enc))
      (out.2, out.1) (s, w') (send_tcp_segmented_data-IsValidSession s w' enc h) h
  where
    w' : World
    w' = record w { encrypted = w.encrypted ++ bytes_or_none (encrypt s.flow.tls_conn bytes) }

    enc : List ℕ
    enc = read_pending_tx env.written_tx s.flow.tls_conn 16384

    out : Bool × World × TcpStreamSession
    out = send_tcp_segmented_data s w' enc

relay_answer-IsValidSession :
    (env : Env) (s : TcpStreamSession) (w : World)
    → IsValidSession s
    → IsValidSession (relay_answer env s w).0
unfolding relay_answer
relay_answer-IsValidSession env s w h =
    if_both IsValidPair (is_open s.flow.backend.fd) _ (s, w)
      (elim answer
        as (λ a. IsValidPair (elim a as (λ x. TcpStreamSession × World) [
          | none ↦ (s, w)
          | some bytes ↦ if ltb 0 (length bytes) then send_encrypted env s w bytes else (s, w)
        ])) [
          | none ↦ h
          | some bytes ↦
              if_both IsValidPair (ltb 0 (length bytes)) (send_encrypted env s w bytes) (s, w)
                (send_encrypted-IsValidSession env s w bytes h) h
        ])
      h
  where
    answer : Option (List ℕ)
    answer = read_from_backend env.recv s.flow.backend 16384

    IsValidPair : TcpStreamSession × World → Type 0
    IsValidPair o = IsValidSession o.0

and_then-IsValidProgress :
    (p : Progress) (g : TcpStreamSession → World → Progress)
    → IsValidProgress p
    → ((s : TcpStreamSession) (w : World) → IsValidSession s → IsValidProgress (g s w))
    → IsValidProgress (and_then p g)
unfolding IsValidProgress
and_then-IsValidProgress (returned r) g h k = h
and_then-IsValidProgress (continued none w) g h k = h
and_then-IsValidProgress (continued (some s) w) g h k = k s w h

pub serve_tls-IsValidProgress :
    (env : Env) (f : Frame) (s : TcpStreamSession) (hello : List ℕ) (w : World)
    → IsValidSession s
    → IsValidProgress (serve_tls env f s hello w)
unfolding serve_tls
serve_tls-IsValidProgress env f s hello w h =
    and_then-IsValidProgress _ _
      (and_then-IsValidProgress _ _
        (serve_handshake-IsValidProgress env (clear_hello s) _ (clear_hello-IsValidSession s h))
        (λ s₁ w₁ h₁. serve_established-IsValidProgress env f s₁ w₁ h₁))
      (λ s₂ w₂ h₂.
        continued-IsValidProgress (some (relay_answer env s₂ w₂).0) (relay_answer env s₂ w₂).1
          (relay_answer-IsValidSession env s₂ w₂ h₂))
