-- ===== src/Pipeline/Sessions.antt =====
-- `handle_tcp_packet` as a whole keeps the invariant of every session in the table.
use intrusion_detection.Base.{
  ℕ, ◌%◌, ◌≡◌, Bool, false, not, List, length, Option, none, some, arith, OnSome, OnSome-found,
  OnSome-bind, OnSome-any, ltb, ◌&&◌, if_both,
}
use intrusion_detection.Table.{capacity, find_from}
use intrusion_detection.Table.Every.{find_from-Every, insert_entry-Every}
use intrusion_detection.Tcp.Session.{
  TcpKey, same_key, TcpStreamSession, TcpAssemblyResult, Allocator, Packet,
}
use intrusion_detection.Tcp.Engine.{TcpAssemblerEngine, process_packet, close_session, key_of}
use intrusion_detection.Tcp.Engine.Flows.{
  EveryFlow, KeepsEvery, close_session-EveryFlow, process_packet-EveryFlow,
}
use intrusion_detection.Tls.Parser.{TlsParseResult, parse_client_hello}
use intrusion_detection.Pipeline.{World}
use intrusion_detection.Pipeline.Frame.{
  Env, Frame, packet_of, read_packet, Fate, kept, closed, absent, Reply, acknowledge, answer_syn,
}
use intrusion_detection.Pipeline.Hello.{
  Collected, answered, complete, accumulate_hello, check_policy,
}
use intrusion_detection.Pipeline.Relay.{Progress, returned, continued}
use intrusion_detection.Pipeline.Packet.{
  serve, fate_of, unless_answered, finish, inspect, serve_ready, respond, Handled, fits, session_of,
  settle, handle_tcp_packet,
}
use intrusion_detection.Pipeline.Bounds.{
  IsValidFlow, IsValidFate, IsValidSession, IsValidCollected, blank_flow-IsValidFlow,
  acknowledge-IsValidFate, answer_syn-IsValidFate, accumulate_hello-IsValidCollected,
  check_policy-IsValidCollected,
}
use intrusion_detection.Pipeline.Relayed.{
  IsValidProgress, continued-IsValidProgress, serve_plain-IsValidProgress,
}
use intrusion_detection.Pipeline.Relayed.Tls.{serve_tls-IsValidProgress}

serve-IsValidProgress :
    (env : Env) (f : Frame) (s : Option TcpStreamSession) (hello : List ℕ) (w : World)
    → OnSome IsValidSession s
    → IsValidProgress (serve env f s hello w)
unfolding serve
serve-IsValidProgress env f none hello w h = serve_plain-IsValidProgress env f none hello w tt
serve-IsValidProgress env f (some s) hello w h = ground (
  arith,
  serve_plain-IsValidProgress env f (some s) hello w h,
  serve_tls-IsValidProgress env f s hello w h,
)

fate_of-IsValidFate :
    (s : Option TcpStreamSession) → OnSome IsValidSession s → IsValidFate (fate_of s)
fate_of-IsValidFate none h = tt
fate_of-IsValidFate (some s) h = h

abbrev IsValidReply : Reply → Type 0
IsValidReply r = IsValidFate r.fate

finish-IsValidReply :
    (is_closed : Bool) (p : Progress) → IsValidProgress p → IsValidReply (finish is_closed p)
unfolding IsValidProgress
finish-IsValidReply is_closed (returned r) h = h
finish-IsValidReply is_closed (continued s w) h =
    if_both IsValidFate is_closed closed (fate_of s) tt (fate_of-IsValidFate s h)

unless_answered-IsValidReply :
    (c : Collected) (go : Option TcpStreamSession → List ℕ → Option Reply)
    → IsValidCollected c
    → ((s : Option TcpStreamSession) (hello : List ℕ)
        → OnSome IsValidSession s
        → OnSome IsValidReply (go s hello))
    → OnSome IsValidReply (unless_answered c go)
unfolding IsValidCollected
unless_answered-IsValidReply (answered r) go h k = h
unless_answered-IsValidReply (complete s hello) go h k = k s hello h

inspect-IsValidReply :
    (env : Env) (f : Frame) (is_closed : Bool) (s : Option TcpStreamSession) (hello : List ℕ)
    (w : World)
    → OnSome IsValidSession s
    → OnSome IsValidReply (inspect env f is_closed s hello w)
unfolding inspect
inspect-IsValidReply env f is_closed s hello w h =
    OnSome-bind (λ (info : TlsParseResult). Unit {0}) IsValidReply (parse_client_hello hello) _
      (OnSome-any (λ info. Unit {0}) _ (λ info e. tt))
      (λ info u.
        unless_answered-IsValidReply (check_policy env f s info hello w) _
          (check_policy-IsValidCollected env f s info hello w h)
          (λ s' bytes v.
            finish-IsValidReply is_closed (serve env f s' bytes w)
              (serve-IsValidProgress env f s' bytes w v)))

serve_ready-IsValidReply :
    (env : Env) (f : Frame) (s : Option TcpStreamSession) (r : TcpAssemblyResult) (w : World)
    → OnSome IsValidSession s
    → OnSome IsValidReply (serve_ready env f s r w)
unfolding serve_ready
serve_ready-IsValidReply env f s r w h =
    if_both (OnSome IsValidReply) (r.is_ready && ltb 0 (length r.payload)) _
      (some (finish r.is_closed (continued s w)))
      (unless_answered-IsValidReply (accumulate_hello f s r.payload w) _
        (accumulate_hello-IsValidCollected f s r.payload w h)
        (λ s' hello v. inspect-IsValidReply env f r.is_closed s' hello w v))
      (finish-IsValidReply r.is_closed (continued s w) (continued-IsValidProgress s w h))

pub respond-IsValidReply :
    (env : Env) (f : Frame) (s : Option TcpStreamSession) (r : TcpAssemblyResult) (w : World)
    → OnSome IsValidSession s
    → OnSome IsValidReply (respond env f s r w)
unfolding respond
respond-IsValidReply env f none r w h = serve_ready-IsValidReply env f none r w tt
respond-IsValidReply env f (some s) r w h =
    if_both (OnSome IsValidReply) r.is_syn (some (answer_syn f s w)) _
      (answer_syn-IsValidFate f s w h)
      (if_both (OnSome IsValidReply) r.need_ack (some (acknowledge f s w))
        (serve_ready env f (some s) r w) (acknowledge-IsValidFate f s w h)
        (serve_ready-IsValidReply env f (some s) r w h))

module _ (hash : TcpKey → ℕ) where
  settle-EveryFlow :
      (e : TcpAssemblerEngine) (f : Frame) (fate : Fate)
      → EveryFlow hash IsValidFlow e.sessions
      → IsValidFate fate
      → OnSome
          (λ (x : TcpAssemblerEngine). EveryFlow hash IsValidFlow x.sessions)
          (settle hash e f fate)
  settle-EveryFlow e f (kept s) h v =
      insert_entry-Every IsValidSession same_key hash e.sessions (key_of (packet_of f)) s h v
  settle-EveryFlow e f closed h v =
      OnSome-bind (EveryFlow hash IsValidFlow)
        (λ (x : TcpAssemblerEngine). EveryFlow hash IsValidFlow x.sessions)
        (close_session hash e.sessions (key_of (packet_of f))) _
        (close_session-EveryFlow hash IsValidFlow e.sessions (key_of (packet_of f)) h) (λ t ht. ht)
  settle-EveryFlow e f absent h v = h

  session_of-IsValidSession :
      (e : TcpAssemblerEngine) (f : Frame) (r : TcpAssemblyResult)
      → EveryFlow hash IsValidFlow e.sessions
      → OnSome IsValidSession (session_of hash e f r)
  session_of-IsValidSession e f r h =
      if_both (OnSome IsValidSession) r.session
        (find_from same_key capacity e.sessions.cells (key_of (packet_of f))
          (hash (key_of (packet_of f)) % capacity))
        none
        (OnSome-any IsValidSession _ (λ s e'.
          find_from-Every IsValidSession same_key capacity e.sessions.cells (key_of (packet_of f))
            (hash (key_of (packet_of f)) % capacity) s h e'))
        tt

  -- The invariant of the state of the program.
  abbrev pub IsValidHandled : Handled → Type 0
  IsValidHandled x = EveryFlow hash IsValidFlow x.engine.sessions

  handle_tcp_packet-OnSome :
      (heap : Allocator) (env : Env) (e : TcpAssemblerEngine) (w : World) (f : Frame) (now_ns : ℕ)
      → EveryFlow hash IsValidFlow e.sessions
      → OnSome IsValidHandled (handle_tcp_packet hash heap env e w f now_ns)
  unfolding handle_tcp_packet KeepsEvery
  handle_tcp_packet-OnSome heap env e w f now_ns h =
      if_both (OnSome IsValidHandled) (not (fits f))
        (some (record { sent = false; engine = e; world = w })) _ h
        (OnSome-bind (λ (p : Packet). Unit {0}) IsValidHandled (read_packet f) _
          (OnSome-any (λ (p : Packet). Unit {0}) (read_packet f) (λ p e'. tt))
          (λ p u.
            OnSome-bind (KeepsEvery hash IsValidFlow) IsValidHandled
              (process_packet hash heap e p now_ns) _
              (process_packet-EveryFlow hash IsValidFlow heap e p now_ns blank_flow-IsValidFlow h)
              (λ out h₁.
                OnSome-bind IsValidReply IsValidHandled
                  (respond env f (session_of hash out.0 f out.1) out.1 w) _
                  (respond-IsValidReply env f (session_of hash out.0 f out.1) out.1 w
                    (session_of-IsValidSession out.0 f out.1 h₁))
                  (λ a h₂.
                    OnSome-bind (λ (x : TcpAssemblerEngine). EveryFlow hash IsValidFlow x.sessions)
                      IsValidHandled (settle hash out.0 f a.fate) _
                      (settle-EveryFlow out.0 f a.fate h₁ h₂) (λ e' h₃. h₃)))))

  -- If in every session of the table at most 16389 bytes of a ClientHello and at most 262144 bytes
  -- for the backend wait, the TLS connection is in order and `send_nxt` is a 32-bit word, then so it
  -- is after `handle_tcp_packet` returns from any frame, with any answers of the kernel, OpenSSL, the
  -- scanner and the registry.
  pub handle_tcp_packet-EveryFlow :
      (heap : Allocator) (env : Env) (e : TcpAssemblerEngine) (w : World) (f : Frame) (now_ns : ℕ)
      (x : Handled)
      → EveryFlow hash IsValidFlow e.sessions
      → handle_tcp_packet hash heap env e w f now_ns ≡ some x
      → EveryFlow hash IsValidFlow x.engine.sessions
  handle_tcp_packet-EveryFlow heap env e w f now_ns x h run =
      OnSome-found IsValidHandled _ x (handle_tcp_packet-OnSome heap env e w f now_ns h) run
