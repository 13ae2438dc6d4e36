-- ===== src/Pipeline/Scanned/Respond.antt =====
-- What one packet makes go to a backend.
use intrusion_detection.Base.{
  ℕ, ◌≡◌, refl, ◌∙◌, Bool, List, ◌++◌, length, Option, none, some, arith, inl, OnSome, OnSome-bind,
  OnSome-any, OnSome-found, if_both, ltb, ◌&&◌,
}
use intrusion_detection.Tcp.Session.{TcpStreamSession, Flow, TcpAssemblyResult}
use intrusion_detection.Tls.Parser.{TlsParseResult, parse_client_hello}
use intrusion_detection.Pipeline.{World}
use intrusion_detection.Pipeline.Frame.{
  ServiceConfig, Env, Frame, Reply, refuse, acknowledge, answer_syn, with_flow,
}
use intrusion_detection.Pipeline.Hello.{
  Collected, answered, complete, collect, accumulate_hello, start_tls, open_tls, service_of,
  check_policy,
}
use intrusion_detection.Pipeline.Relay.{Progress, returned, continued}
use intrusion_detection.Pipeline.Packet.{
  unless_answered, serve, finish, inspect, serve_ready, respond,
}
use intrusion_detection.Pipeline.Scanned.{
  HasBackend, IsScanned, refuse-to_backend, acknowledge-to_backend, inject-to_backend,
}
use intrusion_detection.Pipeline.Scanned.Handler.{IsScannedProgress, serve-IsScannedProgress}

-- An answer has forwarded nothing; otherwise the session's connection is the same.
unfoldable pub IsQuiet : Option ℕ → List ℕ → List ℕ → Collected → Type 0
IsQuiet fd buf stream (answered r) = r.world.to_backend ≡ stream
IsQuiet fd buf stream (complete s hello) = OnSome (HasBackend fd buf) s

answered-IsQuiet :
    (fd : Option ℕ) (buf stream : List ℕ) (r : Reply)
    → r.world.to_backend ≡ stream
    → IsQuiet fd buf stream (answered r)
unfolding IsQuiet
answered-IsQuiet fd buf stream r h = h

complete-IsQuiet :
    (fd : Option ℕ) (buf stream : List ℕ) (s : Option TcpStreamSession) (hello : List ℕ)
    → OnSome (HasBackend fd buf) s
    → IsQuiet fd buf stream (complete s hello)
unfolding IsQuiet
complete-IsQuiet fd buf stream s hello h = h

collect-IsQuiet :
    (fd : Option ℕ) (buf : List ℕ) (f : Frame) (s : TcpStreamSession) (hello : List ℕ) (w : World)
    → HasBackend fd buf s
    → IsQuiet fd buf w.to_backend (collect f s hello w)
unfolding collect
collect-IsQuiet fd buf f s hello w h =
    let grown = with_flow s (record s.flow { client_hello_buf = hello }) in
    ground (
      arith,
      answered-IsQuiet fd buf w.to_backend (refuse f w) (refuse-to_backend f w),
      answered-IsQuiet fd buf w.to_backend (acknowledge f grown w)
          (acknowledge-to_backend f grown w),
      complete-IsQuiet fd buf w.to_backend (some grown) hello h,
    )

accumulate_hello-IsQuiet :
    (fd : Option ℕ) (buf : List ℕ) (f : Frame) (s : Option TcpStreamSession) (payload : List ℕ)
    (w : World)
    → OnSome (HasBackend fd buf) s
    → IsQuiet fd buf w.to_backend (accumulate_hello f s payload w)
unfolding accumulate_hello
accumulate_hello-IsQuiet fd buf f none payload w h =
    complete-IsQuiet fd buf w.to_backend none payload tt
accumulate_hello-IsQuiet fd buf f (some s) payload w h = ground (
  arith,
  answered-IsQuiet fd buf w.to_backend (refuse f w) (refuse-to_backend f w),
  complete-IsQuiet fd buf w.to_backend (some s) payload h,
  collect-IsQuiet fd buf f s (s.flow.client_hello_buf ++ payload) w h,
)

start_tls-backend :
    (env : Env) (svc : Option ServiceConfig) (flow : Flow)
    → ((start_tls env svc flow).backend.fd ≡ flow.backend.fd)
      × ((start_tls env svc flow).backend.tx_buf ≡ flow.backend.tx_buf)
unfolding start_tls
start_tls-backend env none flow = (refl, refl)
start_tls-backend env (some svc) flow = ground arith

open_tls-HasBackend :
    (fd : Option ℕ) (buf : List ℕ) (env : Env) (f : Frame) (sni : List ℕ) (s : TcpStreamSession)
    → HasBackend fd buf s
    → HasBackend fd buf (open_tls env f sni s)
unfolding open_tls
open_tls-HasBackend fd buf env f sni s h =
    let same = start_tls-backend env (service_of env f sni) s.flow in (same.0 ∙ h.0, same.1 ∙ h.1)

check_policy-IsQuiet :
    (fd : Option ℕ) (buf : List ℕ) (env : Env) (f : Frame) (s : Option TcpStreamSession)
    (info : TlsParseResult) (hello : List ℕ) (w : World)
    → OnSome (HasBackend fd buf) s
    → IsQuiet fd buf w.to_backend (check_policy env f s info hello w)
unfolding check_policy
check_policy-IsQuiet fd buf env f none info hello w h = ground (
  arith,
  answered-IsQuiet fd buf w.to_backend (refuse f w) (refuse-to_backend f w),
  complete-IsQuiet fd buf w.to_backend none hello tt,
)
check_policy-IsQuiet fd buf env f (some s) info hello w h = ground (
  arith,
  answered-IsQuiet fd buf w.to_backend (refuse f w) (refuse-to_backend f w),
  complete-IsQuiet fd buf w.to_backend (some s) hello h,
  complete-IsQuiet fd buf w.to_backend (some (open_tls env f info.sni s)) hello
      (open_tls-HasBackend fd buf env f info.sni s h),
)

module _ (env : Env) (f : Frame) (fd : Option ℕ) (buf : List ℕ) (w : World) where
  abbrev IsScannedReply : Reply → Type 0
  IsScannedReply r = IsScanned env fd buf w.to_backend r.world

  unless_answered-IsScannedReply :
      (c : Collected) (go : Option TcpStreamSession → List ℕ → Option Reply)
      → IsQuiet fd buf w.to_backend c
      → ((s : Option TcpStreamSession) (hello : List ℕ)
          → OnSome (HasBackend fd buf) s
          → OnSome IsScannedReply (go s hello))
      → OnSome IsScannedReply (unless_answered c go)
  unfolding IsQuiet
  unless_answered-IsScannedReply (answered r) go h k = inl h
  unless_answered-IsScannedReply (complete s hello) go h k = k s hello h

  finish-IsScannedReply :
      (is_closed : Bool) (p : Progress)
      → IsScannedProgress env fd buf w.to_backend p
      → IsScannedReply (finish is_closed p)
  unfolding IsScannedProgress
  finish-IsScannedReply is_closed (returned r) h = h
  finish-IsScannedReply is_closed (continued s v) h = inl h.0

  inspect-IsScannedReply :
      (is_closed : Bool) (s : Option TcpStreamSession) (hello : List ℕ)
      → OnSome (HasBackend fd buf) s
      → OnSome IsScannedReply (inspect env f is_closed s hello w)
  unfolding inspect
  inspect-IsScannedReply is_closed s hello h =
      OnSome-bind (λ (info : TlsParseResult). Unit {0}) IsScannedReply (parse_client_hello hello) _
        (OnSome-any (λ info. Unit {0}) _ (λ info e. tt))
        (λ info u.
          unless_answered-IsScannedReply (check_policy env f s info hello w) _
            (check_policy-IsQuiet fd buf env f s info hello w h)
            (λ s' bytes v.
              finish-IsScannedReply is_closed (serve env f s' bytes w)
                (serve-IsScannedProgress env fd buf w.to_backend f s' bytes w refl v)))

  serve_ready-IsScannedReply :
      (s : Option TcpStreamSession) (r : TcpAssemblyResult)
      → OnSome (HasBackend fd buf) s
      → OnSome IsScannedReply (serve_ready env f s r w)
  unfolding serve_ready
  serve_ready-IsScannedReply s r h =
      if_both (OnSome IsScannedReply) (r.is_ready && ltb 0 (length r.payload)) _
        (some (finish r.is_closed (continued s w)))
        (unless_answered-IsScannedReply (accumulate_hello f s r.payload w) _
          (accumulate_hello-IsQuiet fd buf f s r.payload w h)
          (λ s' hello v. inspect-IsScannedReply r.is_closed s' hello v))
        (inl refl)

  respond-OnSome :
      (s : Option TcpStreamSession) (r : TcpAssemblyResult)
      → OnSome (HasBackend fd buf) s
      → OnSome IsScannedReply (respond env f s r w)
  unfolding respond answer_syn
  respond-OnSome none r h = serve_ready-IsScannedReply none r tt
  respond-OnSome (some s) r h =
      if_both (OnSome IsScannedReply) r.is_syn (some (answer_syn f s w)) _
        (inl (inject-to_backend w f.buf_addr _))
        (if_both (OnSome IsScannedReply) r.need_ack (some (acknowledge f s w))
          (serve_ready env f (some s) r w) (inl (acknowledge-to_backend f s w))
          (serve_ready-IsScannedReply (some s) r h))

-- Whatever a packet of a session brings, plain or in TLS, if `respond` gives an answer to it, then the
-- bytes that backends took stay as they were, or they grow by what one `forward_to_backend` on the
-- session's connection sends, and the bytes forwarded are ones in which the scanner found no attack.
pub respond-IsScanned :
    (env : Env) (f : Frame) (s : TcpStreamSession) (r : TcpAssemblyResult) (w : World) (a : Reply)
    → respond env f (some s) r w ≡ some a
    → IsScanned env s.flow.backend.fd s.flow.backend.tx_buf w.to_backend a.world
respond-IsScanned env f s r w a e =
    OnSome-found (IsScannedReply env f s.flow.backend.fd s.flow.backend.tx_buf w) _ a
      (respond-OnSome env f s.flow.backend.fd s.flow.backend.tx_buf w (some s) r (refl, refl)) e
