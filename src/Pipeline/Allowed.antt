-- ===== src/Pipeline/Allowed.antt =====
-- TLS starts only for a domain that the policy allows: what the parts of `handle_tcp_packet` keep.
pub mod Answer
use mathlib.Core.Path.{subst}
use intrusion_detection.Base.{
  ℕ, ◌≡◌, refl, sym, ap, ◌∙◌, Bool, true, false, List, ◌++◌, length, ◌⊎◌, Option, none, some, arith,
  Bool-cases, inl, inr, OnSome, OnSome-bind, OnSome-any, OnSome-found, if_both, ltb, ◌&&◌,
}
use intrusion_detection.Tcp.Backend.{forward_to_backend}
use intrusion_detection.Tcp.Session.{TcpStreamSession, TcpAssemblyResult}
use intrusion_detection.Tls.Parser.{TlsParseResult, parse_client_hello}
use intrusion_detection.Tls.Blocklist.{is_allowed}
use intrusion_detection.Tls.Connection.{TlsSessionStatus, is_status}
use intrusion_detection.Pipeline.{World}
use intrusion_detection.Pipeline.Frame.{
  Env, Frame, Fate, kept, closed, absent, Reply, refuse, acknowledge, answer_syn, with_flow,
}
use intrusion_detection.Pipeline.Hello.{
  Collected, answered, complete, collect, accumulate_hello, open_tls, check_policy, map_session,
}
use intrusion_detection.Pipeline.Relay.{
  watch_backend, with_backend, forward_data, target_port_of, open_scan, clear_hello, Progress,
  returned, continued, serve_plain,
}
use intrusion_detection.Pipeline.Packet.{
  unless_answered, serve, fate_of, finish, inspect, serve_ready, respond,
}

abbrev pub IsIdle : TcpStreamSession → Type 0
IsIdle s = is_status s.flow.tls_conn.status TlsSessionStatus.idle ≡ true

-- The data are the payload, alone or behind what was collected before.
abbrev pub IsFrom : List ℕ → List ℕ → List ℕ → Type 0
IsFrom buf payload hello = (hello ≡ payload) ⊎ (hello ≡ buf ++ payload)

-- These data are a ClientHello with an SNI that the policy allows.
abbrev pub HasAllowed : Env → List ℕ → List ℕ → Type 0
HasAllowed env buf payload =
    (hello : List ℕ) × (info : TlsParseResult) × IsFrom buf payload hello
    × (parse_client_hello hello ≡ some info)
    × (info.is_client_hello ≡ true)
    × (is_allowed env.domains info.sni ≡ true)

module _ (env : Env) (f : Frame) (buf payload : List ℕ) where
  abbrev pub IsIdleOrAllowed : TcpStreamSession → Type 0
  IsIdleOrAllowed s = IsIdle s ⊎ HasAllowed env buf payload

  abbrev pub IsIdleFate : Fate → Type 0
  IsIdleFate (kept s) = IsIdleOrAllowed s
  IsIdleFate closed = Unit
  IsIdleFate absent = Unit

  unfoldable pub IsIdleProgress : Progress → Type 0
  IsIdleProgress (returned r) = IsIdleFate r.fate
  IsIdleProgress (continued s w) = OnSome IsIdleOrAllowed s

  unfoldable pub IsIdleCollected : Collected → Type 0
  IsIdleCollected (answered r) = IsIdleFate r.fate
  IsIdleCollected (complete s hello) = OnSome IsIdleOrAllowed s × IsFrom buf payload hello

  allowed-IsIdleFate : HasAllowed env buf payload → (fate : Fate) → IsIdleFate fate
  allowed-IsIdleFate h (kept s) = inr h
  allowed-IsIdleFate h closed = tt
  allowed-IsIdleFate h absent = tt

  allowed-OnSome :
      HasAllowed env buf payload → (s : Option TcpStreamSession) → OnSome IsIdleOrAllowed s
  allowed-OnSome h none = tt
  allowed-OnSome h (some s) = inr h

  allowed-IsIdleProgress : HasAllowed env buf payload → (p : Progress) → IsIdleProgress p
  unfolding IsIdleProgress
  allowed-IsIdleProgress h (returned r) = allowed-IsIdleFate h r.fate
  allowed-IsIdleProgress h (continued s w) = allowed-OnSome h s

  refused-IsIdleProgress : (w : World) → IsIdleProgress (returned (refuse f w))
  unfolding IsIdleProgress refuse
  refused-IsIdleProgress w = tt

  refused-IsIdleCollected : (w : World) → IsIdleCollected (answered (refuse f w))
  unfolding IsIdleCollected refuse
  refused-IsIdleCollected w = tt

  acknowledged-IsIdleCollected :
      (s : TcpStreamSession) (w : World)
      → IsIdleOrAllowed s
      → IsIdleCollected (answered (acknowledge f s w))
  unfolding IsIdleCollected acknowledge
  acknowledged-IsIdleCollected s w h = h

  complete-IsIdleCollected :
      (s : Option TcpStreamSession) (hello : List ℕ)
      → OnSome IsIdleOrAllowed s
      → IsFrom buf payload hello
      → IsIdleCollected (complete s hello)
  unfolding IsIdleCollected
  complete-IsIdleCollected s hello h o = (h, o)

  forward_data-IsIdleProgress :
      (s : TcpStreamSession) (w : World) (bytes : List ℕ) (port : ℕ)
      → IsIdle s
      → IsIdleProgress (returned (forward_data env f s w bytes port))
  unfolding IsIdleProgress forward_data acknowledge refuse
  forward_data-IsIdleProgress s w bytes port h =
      let out = forward_to_backend env.sockets s.flow.backend bytes port in
      let w' = record w { to_backend = w.to_backend ++ out.wire } in
      let watched = watch_backend env.polling s.flow.backend.fd out.backend w' in
      if_both (λ (r : Reply). IsIdleFate r.fate) out.ok
        (acknowledge f (with_backend s watched.backend) watched.world) (refuse f w') (inl h) tt

  open_scan-tls : (s : TcpStreamSession) → (open_scan env s).flow.tls_conn ≡ s.flow.tls_conn
  open_scan-tls s = ground arith

  pub continued-IsIdleProgress :
      (s : Option TcpStreamSession) (w : World)
      → OnSome IsIdleOrAllowed s
      → IsIdleProgress (continued s w)
  unfolding IsIdleProgress
  continued-IsIdleProgress s w h = h

  serve_plain-IsIdleProgress :
      (s : Option TcpStreamSession) (hello : List ℕ) (w : World)
      → OnSome IsIdle s
      → IsIdleProgress (serve_plain env f s hello w)
  unfolding serve_plain
  serve_plain-IsIdleProgress none hello w h =
      ground (arith, refused-IsIdleProgress w, continued-IsIdleProgress none w tt)
  serve_plain-IsIdleProgress (some s) hello w h =
      let s₁ = clear_hello (open_scan env s) in
      let idle = ap (λ c. is_status c.status TlsSessionStatus.idle) (open_scan-tls s) ∙ h in
      let port = target_port_of env f s.flow.backend.port in
      ground (
        arith,
        refused-IsIdleProgress w,
        forward_data-IsIdleProgress s₁ w hello port idle,
        continued-IsIdleProgress (some s₁) w (inl idle),
      )

  pub serve-IsIdleProgress :
      (s : Option TcpStreamSession) (hello : List ℕ) (w : World)
      → OnSome IsIdleOrAllowed s
      → IsIdleProgress (serve env f s hello w)
  unfolding serve
  serve-IsIdleProgress none hello w h = serve_plain-IsIdleProgress none hello w tt
  serve-IsIdleProgress (some s) hello w (inr h) = allowed-IsIdleProgress h _
  serve-IsIdleProgress (some s) hello w (inl h) =
      ground (arith, serve_plain-IsIdleProgress (some s) hello w h)

  collect-IsIdleCollected :
      (s : TcpStreamSession) (hello : List ℕ) (w : World)
      → IsIdleOrAllowed s
      → IsFrom buf payload hello
      → IsIdleCollected (collect f s hello w)
  unfolding collect
  collect-IsIdleCollected s hello w h o =
      let grown = with_flow s (record s.flow { client_hello_buf = hello }) in
      ground (
        arith,
        refused-IsIdleCollected w,
        acknowledged-IsIdleCollected grown w h,
        complete-IsIdleCollected (some grown) hello h o,
      )

  pub accumulate_hello-IsIdleCollected :
      (s : TcpStreamSession) (w : World)
      → s.flow.client_hello_buf ≡ buf
      → IsIdleOrAllowed s
      → IsIdleCollected (accumulate_hello f (some s) payload w)
  unfolding accumulate_hello
  accumulate_hello-IsIdleCollected s w e h = ground (
    arith,
    refused-IsIdleCollected w,
    complete-IsIdleCollected (some s) payload h (inl refl),
    collect-IsIdleCollected s (s.flow.client_hello_buf ++ payload) w h
        (inr (ap (λ b. b ++ payload) e)),
  )

  pub check_policy-IsIdleCollected :
      (s : Option TcpStreamSession) (info : TlsParseResult) (hello : List ℕ) (w : World)
      → OnSome IsIdleOrAllowed s
      → IsFrom buf payload hello
      → parse_client_hello hello ≡ some info
      → IsIdleCollected (check_policy env f s info hello w)
  unfolding check_policy
  check_policy-IsIdleCollected s info hello w h o e =
      elim (Bool-cases (is_allowed env.domains info.sni)) [
        | inr n ↦ ground (arith, refused-IsIdleCollected w, complete-IsIdleCollected s hello h o)
        | inl y ↦ elim (Bool-cases info.is_client_hello) [
          | inr n ↦ ground (arith, complete-IsIdleCollected s hello h o)
          | inl c ↦
              let s' = map_session (open_tls env f info.sni) s in
              ground (
                arith,
                refused-IsIdleCollected w,
                complete-IsIdleCollected s' hello (allowed-OnSome (hello, info, o, e, c, y) s') o,
              )
        ]
      ]
