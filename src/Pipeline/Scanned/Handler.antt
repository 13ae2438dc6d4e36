-- ===== src/Pipeline/Scanned/Handler.antt =====
-- What `handle_tcp_packet` forwards, part by part.
use mathlib.Core.Path.{subst}
use intrusion_detection.Base.{
  ℕ, ◌≡◌, ap, ◌∙◌, false, List, ◌++◌, length, Option, none, some, arith, Option-cases, Bool-cases,
  inl, inr, OnSome, if_both, if◌then◌else◌, ltb,
}
use intrusion_detection.Tcp.Backend.{is_open, forward_to_backend, read_from_backend}
use intrusion_detection.Tcp.Session.{TcpStreamSession}
use intrusion_detection.Tls.Connection.{step_handshake, decrypt, encrypt, read_pending_tx}
use intrusion_detection.Pipeline.{World, send_tcp_segmented_data}
use intrusion_detection.Pipeline.Frame.{Env, Frame, kept, Reply, refuse}
use intrusion_detection.Pipeline.Relay.{
  forward_data, target_port_of, open_scan, scans, clear_hello, Progress, returned, continued,
  serve_plain, serve_plaintext, with_tls, serve_handshake, serve_established, send_encrypted,
  relay_answer, and_then, serve_tls, bytes_or_none,
}
use intrusion_detection.Pipeline.Packet.{serve}
use intrusion_detection.Pipeline.Scanned.{
  IsClean, HasBackend, IsScanned, refuse-to_backend, forward_data-to_backend,
  send_tcp_segmented_data-backend,
}

module _ (env : Env) (fd : Option ℕ) (buf stream : List ℕ) where
  -- A part that returns leaves a scanned stream; one that goes on has forwarded nothing.
  unfoldable pub IsScannedProgress : Progress → Type 0
  IsScannedProgress (returned r) = IsScanned env fd buf stream r.world
  IsScannedProgress (continued s w) = (w.to_backend ≡ stream) × OnSome (HasBackend fd buf) s

  returned-IsScannedProgress :
      (r : Reply) → IsScanned env fd buf stream r.world → IsScannedProgress (returned r)
  unfolding IsScannedProgress
  returned-IsScannedProgress r h = h

  continued-IsScannedProgress :
      (s : Option TcpStreamSession) (w : World)
      → w.to_backend ≡ stream
      → OnSome (HasBackend fd buf) s
      → IsScannedProgress (continued s w)
  unfolding IsScannedProgress
  continued-IsScannedProgress s w e h = (e, h)

  refused :
      (f : Frame) (w : World) → w.to_backend ≡ stream → IsScannedProgress (returned (refuse f w))
  refused f w e = returned-IsScannedProgress (refuse f w) (inl (refuse-to_backend f w ∙ e))

  scans-IsClean :
      (s : TcpStreamSession) (bytes : List ℕ) → scans env s bytes ≡ false → IsClean env bytes
  scans-IsClean s bytes h = ground arith

  open_scan-backend : (s : TcpStreamSession) → (open_scan env s).flow.backend ≡ s.flow.backend
  open_scan-backend s = ground arith

  forwarded :
      (f : Frame) (s : TcpStreamSession) (w : World) (bytes : List ℕ) (port : ℕ)
      → w.to_backend ≡ stream
      → HasBackend fd buf s
      → IsClean env bytes
      → IsScannedProgress (returned (forward_data env f s w bytes port))
  forwarded f s w bytes port e h clean =
      returned-IsScannedProgress (forward_data env f s w bytes port) (
        inr (
          bytes,
          port,
          s.flow.backend,
          clean,
          h.0,
          h.1,
          subst
              (λ x.
                (forward_data env f s w bytes port).world.to_backend
                ≡ x ++ (forward_to_backend env.sockets s.flow.backend bytes port).wire)
              e (forward_data-to_backend env f s w bytes port),
        ))

  serve_plain-IsScannedProgress :
      (f : Frame) (s : Option TcpStreamSession) (hello : List ℕ) (w : World)
      → w.to_backend ≡ stream
      → OnSome (HasBackend fd buf) s
      → IsScannedProgress (serve_plain env f s hello w)
  unfolding serve_plain
  serve_plain-IsScannedProgress f none hello w e h =
      ground (arith, refused f w e, continued-IsScannedProgress none w e tt)
  serve_plain-IsScannedProgress f (some s) hello w e h =
      elim (Bool-cases (scans env (open_scan env s) hello)) [
        | inl y ↦ ground (arith, refused f w e)
        | inr n ↦
            let s₁ = clear_hello (open_scan env s) in
            let same = ap (λ b. b.fd) (open_scan-backend s) ∙ h.0 in
            let port = target_port_of env f s.flow.backend.port in
            let kept_buf = ap (λ b. b.tx_buf) (open_scan-backend s) ∙ h.1 in
            ground (
              arith,
              forwarded f s₁ w hello port e (same, kept_buf)
                  (scans-IsClean (open_scan env s) hello n),
              continued-IsScannedProgress (some s₁) w e (same, kept_buf),
            )
      ]

  serve_plaintext-IsScannedProgress :
      (f : Frame) (s : TcpStreamSession) (bytes : List ℕ) (w : World)
      → w.to_backend ≡ stream
      → HasBackend fd buf s
      → IsScannedProgress (serve_plaintext env f s bytes w)
  unfolding serve_plaintext
  serve_plaintext-IsScannedProgress f s bytes w e h =
      elim (Bool-cases (scans env (open_scan env s) bytes)) [
        | inl y ↦ ground (arith, refused f w e)
        | inr n ↦
            let s₁ = open_scan env s in
            let same = ap (λ b. b.fd) (open_scan-backend s) ∙ h.0 in
            let port = target_port_of env f s.flow.backend.port in
            let kept_buf = ap (λ b. b.tx_buf) (open_scan-backend s) ∙ h.1 in
            ground (
              arith,
              forwarded f s₁ w bytes port e (same, kept_buf) (scans-IsClean s₁ bytes n),
              continued-IsScannedProgress (some s₁) w e (same, kept_buf),
            )
      ]

  serve_handshake-IsScannedProgress :
      (s : TcpStreamSession) (w : World)
      → w.to_backend ≡ stream
      → HasBackend fd buf s
      → IsScannedProgress (serve_handshake env s w)
  unfolding serve_handshake
  serve_handshake-IsScannedProgress s w e h =
      let c = (step_handshake env.handshake s.flow.tls_conn).1 in
      let tx = read_pending_tx env.handshake_tx c 16384 in
      let out = send_tcp_segmented_data (with_tls s c) w tx in
      ground (
        arith,
        returned-IsScannedProgress (record { sent = false; fate = kept out.2; world = out.1 })
            (inl ((send_tcp_segmented_data-backend (with_tls s c) w tx).0 ∙ e)),
        continued-IsScannedProgress (some (with_tls s c)) w e h,
        continued-IsScannedProgress (some s) w e h,
      )

  serve_established-IsScannedProgress :
      (f : Frame) (s : TcpStreamSession) (w : World)
      → w.to_backend ≡ stream
      → HasBackend fd buf s
      → IsScannedProgress (serve_established env f s w)
  unfolding serve_established
  serve_established-IsScannedProgress f s w e h =
      let read = decrypt env.ssl_read s.flow.tls_conn 16384 in
      elim (Option-cases read.0) [
        | inl r ↦ ground (
          arith,
          continued-IsScannedProgress (some (with_tls s read.1)) w e h,
          continued-IsScannedProgress (some s) w e h,
        )
        | inr (bytes, r) ↦ ground (
          arith,
          serve_plaintext-IsScannedProgress f (with_tls s read.1) bytes w e h,
          continued-IsScannedProgress (some (with_tls s read.1)) w e h,
          continued-IsScannedProgress (some s) w e h,
        )
      ]

  -- What is sent back to the client leaves the backend's side alone.
  abbrev KeepsBackend : TcpStreamSession × World → Type 0
  KeepsBackend o = (o.1.to_backend ≡ stream) × HasBackend fd buf o.0

  send_encrypted-KeepsBackend :
      (s : TcpStreamSession) (w : World) (bytes : List ℕ)
      → w.to_backend ≡ stream
      → HasBackend fd buf s
      → KeepsBackend (send_encrypted env s w bytes)
  unfolding send_encrypted
  send_encrypted-KeepsBackend s w bytes e h =
      let v = record w {
        encrypted = w.encrypted ++ bytes_or_none (encrypt s.flow.tls_conn bytes);
      } in
      let enc = read_pending_tx env.written_tx s.flow.tls_conn 16384 in
      let out = send_tcp_segmented_data s v enc in
      let same = send_tcp_segmented_data-backend s v enc in
      if_both KeepsBackend (ltb 0 (length enc)) (out.2, out.1) (s, v)
        (same.0 ∙ e, (ap (λ b. b.fd) same.1 ∙ h.0, ap (λ b. b.tx_buf) same.1 ∙ h.1)) (e, h)

  relay_answer-KeepsBackend :
      (s : TcpStreamSession) (w : World)
      → w.to_backend ≡ stream
      → HasBackend fd buf s
      → KeepsBackend (relay_answer env s w)
  unfolding relay_answer
  relay_answer-KeepsBackend s w e h =
      if_both KeepsBackend (is_open s.flow.backend.fd) _ (s, w)
        (elim (read_from_backend env.recv s.flow.backend 16384)
          as (λ a. KeepsBackend (elim a as (λ x. TcpStreamSession × World) [
            | none ↦ (s, w)
            | some bytes ↦ if ltb 0 (length bytes) then send_encrypted env s w bytes else (s, w)
          ])) [
            | none ↦ (e, h)
            | some bytes ↦
                if_both KeepsBackend (ltb 0 (length bytes)) (send_encrypted env s w bytes) (s, w)
                  (send_encrypted-KeepsBackend s w bytes e h) (e, h)
          ])
        (e, h)

  and_then-IsScannedProgress :
      (p : Progress) (g : TcpStreamSession → World → Progress)
      → IsScannedProgress p
      → ((s : TcpStreamSession) (w : World)
          → w.to_backend ≡ stream
          → HasBackend fd buf s
          → IsScannedProgress (g s w))
      → IsScannedProgress (and_then p g)
  unfolding IsScannedProgress
  and_then-IsScannedProgress (returned r) g h k = h
  and_then-IsScannedProgress (continued none w) g h k = h
  and_then-IsScannedProgress (continued (some s) w) g h k = k s w h.0 h.1

  serve_tls-IsScannedProgress :
      (f : Frame) (s : TcpStreamSession) (hello : List ℕ) (w : World)
      → w.to_backend ≡ stream
      → HasBackend fd buf s
      → IsScannedProgress (serve_tls env f s hello w)
  unfolding serve_tls
  serve_tls-IsScannedProgress f s hello w e h =
      and_then-IsScannedProgress _ _
        (and_then-IsScannedProgress _ _ (serve_handshake-IsScannedProgress (clear_hello s) _ e h)
          (λ s₁ w₁ e₁ h₁. serve_established-IsScannedProgress f s₁ w₁ e₁ h₁))
        (λ s₂ w₂ e₂ h₂.
          let out = relay_answer-KeepsBackend s₂ w₂ e₂ h₂ in
          continued-IsScannedProgress (some (relay_answer env s₂ w₂).0) (relay_answer env s₂ w₂).1
            out.0 out.1)

  pub serve-IsScannedProgress :
      (f : Frame) (s : Option TcpStreamSession) (hello : List ℕ) (w : World)
      → w.to_backend ≡ stream
      → OnSome (HasBackend fd buf) s
      → IsScannedProgress (serve env f s hello w)
  unfolding serve
  serve-IsScannedProgress f none hello w e h = serve_plain-IsScannedProgress f none hello w e tt
  serve-IsScannedProgress f (some s) hello w e h = ground (
    arith,
    serve_plain-IsScannedProgress f (some s) hello w e h,
    serve_tls-IsScannedProgress f s hello w e h,
  )
