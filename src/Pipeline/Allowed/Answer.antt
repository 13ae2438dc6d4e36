-- ===== src/Pipeline/Allowed/Answer.antt =====
-- TLS starts only for a domain that the policy allows: the answer to a packet.
use mathlib.Core.Path.{subst}
use intrusion_detection.Base.{
  ℕ, ◌≡◌, refl, sym, Bool, false, List, length, Option, none, some, arith, inl, inr, OnSome,
  OnSome-bind, OnSome-any, OnSome-found, if_both, ltb, ◌&&◌,
}
use intrusion_detection.Tcp.Session.{TcpStreamSession, TcpAssemblyResult}
use intrusion_detection.Tls.Parser.{TlsParseResult, parse_client_hello}
use intrusion_detection.Tls.Connection.{TlsSessionStatus, is_status}
use intrusion_detection.Pipeline.{World}
use intrusion_detection.Pipeline.Frame.{Env, Frame, kept, closed, Reply, acknowledge, answer_syn}
use intrusion_detection.Pipeline.Hello.{
  Collected, answered, complete, accumulate_hello, check_policy,
}
use intrusion_detection.Pipeline.Relay.{Progress, returned, continued}
use intrusion_detection.Pipeline.Packet.{
  unless_answered, serve, fate_of, finish, inspect, serve_ready, respond,
}
use intrusion_detection.Pipeline.Allowed.{
  IsIdle, HasAllowed, IsFrom, IsIdleOrAllowed, IsIdleFate, IsIdleProgress, IsIdleCollected,
  serve-IsIdleProgress, accumulate_hello-IsIdleCollected, check_policy-IsIdleCollected,
  continued-IsIdleProgress,
}

module _ (env : Env) (f : Frame) (buf payload : List ℕ) where
  abbrev IsIdleReply : Reply → Type 0
  IsIdleReply r = IsIdleFate env f buf payload r.fate

  unless_answered-IsIdleReply :
      (c : Collected) (go : Option TcpStreamSession → List ℕ → Option Reply)
      → IsIdleCollected env f buf payload c
      → ((s : Option TcpStreamSession) (hello : List ℕ)
          → OnSome (IsIdleOrAllowed env f buf payload) s
          → IsFrom buf payload hello
          → OnSome IsIdleReply (go s hello))
      → OnSome IsIdleReply (unless_answered c go)
  unfolding IsIdleCollected
  unless_answered-IsIdleReply (answered r) go h k = h
  unless_answered-IsIdleReply (complete s hello) go h k = k s hello h.0 h.1

  fate_of-IsIdleFate :
      (s : Option TcpStreamSession)
      → OnSome (IsIdleOrAllowed env f buf payload) s
      → IsIdleFate env f buf payload (fate_of s)
  fate_of-IsIdleFate none h = tt
  fate_of-IsIdleFate (some s) h = h

  finish-IsIdleReply :
      (is_closed : Bool) (p : Progress)
      → IsIdleProgress env f buf payload p
      → IsIdleReply (finish is_closed p)
  unfolding IsIdleProgress
  finish-IsIdleReply is_closed (returned r) h = h
  finish-IsIdleReply is_closed (continued s w) h =
      if_both (IsIdleFate env f buf payload) is_closed closed (fate_of s) tt
        (fate_of-IsIdleFate s h)

  inspect-IsIdleReply :
      (is_closed : Bool) (s : Option TcpStreamSession) (hello : List ℕ) (w : World)
      → OnSome (IsIdleOrAllowed env f buf payload) s
      → IsFrom buf payload hello
      → OnSome IsIdleReply (inspect env f is_closed s hello w)
  unfolding inspect
  inspect-IsIdleReply is_closed s hello w h o =
      OnSome-bind (λ (info : TlsParseResult). parse_client_hello hello ≡ some info) IsIdleReply
        (parse_client_hello hello) _
        (OnSome-any (λ info. parse_client_hello hello ≡ some info) _ (λ info e. e))
        (λ info e.
          unless_answered-IsIdleReply (check_policy env f s info hello w) _
            (check_policy-IsIdleCollected env f buf payload s info hello w h o e)
            (λ s' bytes v u.
              finish-IsIdleReply is_closed (serve env f s' bytes w)
                (serve-IsIdleProgress env f buf payload s' bytes w v)))

  respond-OnSome_idle :
      (s : TcpStreamSession) (r : TcpAssemblyResult) (w : World)
      → s.flow.client_hello_buf ≡ buf
      → r.payload ≡ payload
      → IsIdleOrAllowed env f buf payload s
      → OnSome IsIdleReply (respond env f (some s) r w)
  unfolding respond answer_syn acknowledge serve_ready
  respond-OnSome_idle s r w eb ep h =
      if_both (OnSome IsIdleReply) r.is_syn (some (answer_syn f s w)) _ h (
        if_both (OnSome IsIdleReply) r.need_ack (some (acknowledge f s w))
          (serve_ready env f (some s) r w) h
          (if_both (OnSome IsIdleReply) (r.is_ready && ltb 0 (length r.payload)) _
            (some (finish r.is_closed (continued (some s) w)))
            (unless_answered-IsIdleReply (accumulate_hello f (some s) r.payload w) _
              (subst (λ p. IsIdleCollected env f buf payload (accumulate_hello f (some s) p w))
                (sym ep) (accumulate_hello-IsIdleCollected env f buf payload s w eb h))
              (λ s' hello v o. inspect-IsIdleReply r.is_closed s' hello w v o))
            (finish-IsIdleReply r.is_closed (continued (some s) w)
              (continued-IsIdleProgress env f buf payload (some s) w h))))

-- If the answer to a packet of a session whose TLS is IDLE keeps the session with a TLS that is not
-- IDLE, then the data of the packet, alone or behind what was collected in `client_hello_buf`, are a
-- ClientHello whose SNI the policy allows.
pub respond_allowed :
    (env : Env) (f : Frame) (s s' : TcpStreamSession) (r : TcpAssemblyResult) (w : World)
    (a : Reply)
    → IsIdle s
    → respond env f (some s) r w ≡ some a
    → a.fate ≡ kept s'
    → is_status s'.flow.tls_conn.status TlsSessionStatus.idle ≡ false
    → HasAllowed env s.flow.client_hello_buf r.payload
respond_allowed env f s s' r w a h e ek n =
    let buf = s.flow.client_hello_buf in
    elim (subst (IsIdleFate env f buf r.payload) ek (
      OnSome-found (IsIdleReply env f buf r.payload) _ a
        (respond-OnSome_idle env f buf r.payload s r w refl refl (inl h)) e)) [
          | inl i ↦ absurd (ground arith)
          | inr y ↦ y
        ]
