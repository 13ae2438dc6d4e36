-- ===== src/Pipeline/Drain/Bounds.antt =====
-- The events of the backends keep the invariant of every session.
use intrusion_detection.Base.{
  ℕ, ◌≡◌, Bool, true, false, List, [], ◌∷◌, ◌++◌, take, Option, none, some, arith, OnSome,
  OnSome-bind, OnSome-any, OnSome-found, if_both, if◌then◌else◌,
}
use intrusion_detection.Table.{find, insert_entry}
use intrusion_detection.Table.Every.{find-Every, insert_entry-Every}
use intrusion_detection.Tcp.Backend.{is_open, is_empty, flush_backend_tx, read_from_backend}
use intrusion_detection.Tcp.Backend.Stream.{flush_backend_tx-IsBounded}
use intrusion_detection.Tcp.Session.{TcpKey, same_key, TcpStreamSession}
use intrusion_detection.Tcp.Engine.{TcpAssemblerEngine, close_session}
use intrusion_detection.Tcp.Engine.Flows.{EveryFlow, close_session-EveryFlow}
use intrusion_detection.Pipeline.{World}
use intrusion_detection.Pipeline.Relay.{with_backend}
use intrusion_detection.Pipeline.Drain.{
  BackendEvent, Round, disarm, drain_writable, send_counted, relay_bytes, drain_readable,
  close_backend, drain_session, Drained, settle_round, drain_event, drain_events,
  drain_backend_events,
}
use intrusion_detection.Pipeline.Bounds.{IsValidFlow, IsValidSession}
use intrusion_detection.Pipeline.Relayed.{send_tcp_segmented_data-IsValidSession}

abbrev IsValidRound : Round → Type 0
IsValidRound r = IsValidSession r.session

disarm-IsValidSession :
    (s : TcpStreamSession) (w : World) → IsValidSession s → IsValidSession (disarm s w).0
unfolding disarm
disarm-IsValidSession s w h =
    if_both (λ (o : TcpStreamSession × World). IsValidSession o.0) (is_empty s.flow.backend.tx_buf)
      _ (s, w) (record { hello = h.hello; backend = h.backend; tls = h.tls; nxt = h.nxt }) h

drain_writable-IsValidRound :
    (ev : BackendEvent) (s : TcpStreamSession) (w : World) (work : ℕ)
    → IsValidSession s
    → IsValidRound (drain_writable ev s w work)
unfolding drain_writable
drain_writable-IsValidRound ev s w work h = if_both IsValidRound _ _ _ idle idle
  where
    idle :
        IsValidSession
          (disarm (with_backend s (flush_backend_tx ev.send s.flow.backend).backend) (record w {
            to_backend = w.to_backend ++ (flush_backend_tx ev.send s.flow.backend).wire;
          })).0
    idle =
        disarm-IsValidSession (with_backend s (flush_backend_tx ev.send s.flow.backend).backend) _
          (record {
            hello = h.hello;
            backend = flush_backend_tx-IsBounded ev.send s.flow.backend h.backend;
            tls = h.tls;
            nxt = h.nxt;
          })

send_counted-IsValidRound :
    (s : TcpStreamSession) (w : World) (bytes : List ℕ) (work : ℕ)
    → IsValidSession s
    → IsValidRound (send_counted s w bytes work)
send_counted-IsValidRound s w bytes work h = send_tcp_segmented_data-IsValidSession s w bytes h

relay_bytes-IsValidRound :
    (ev : BackendEvent) (s : TcpStreamSession) (w : World) (work : ℕ) (bytes : List ℕ)
    → IsValidSession s
    → IsValidRound (relay_bytes ev s w work bytes)
unfolding relay_bytes
relay_bytes-IsValidRound ev s w work bytes h =
    if_both IsValidRound _ _ (send_counted s w bytes work)
      (if_both IsValidRound _ (send_counted s _ _ work) _ (send_counted-IsValidRound s _ _ work h)
        h)
      (send_counted-IsValidRound s w bytes work h)

abbrev IsValidEnd : Round × Bool → Type 0
IsValidEnd o = IsValidSession o.0.session

drain_readable-IsValidEnd :
    (ev : BackendEvent) (s : TcpStreamSession) (w : World) (work : ℕ)
    → IsValidSession s
    → IsValidEnd (drain_readable ev s w work)
unfolding drain_readable
drain_readable-IsValidEnd ev s w work h =
    if_both IsValidEnd ev.readable _ (still, false)
      (elim (read_from_backend ev.recv s.flow.backend 16384)
        as (λ a. IsValidEnd (elim a as (λ x. Round × Bool) [
          | none ↦ (still, false)
          | some bytes ↦
              if is_empty bytes then (still, true) else (relay_bytes ev s w work bytes, false)
        ])) [
          | none ↦ h
          | some bytes ↦
              if_both IsValidEnd (is_empty bytes) (still, true)
                (relay_bytes ev s w work bytes, false) h
                (relay_bytes-IsValidRound ev s w work bytes h)
        ])
      h
  where
    still : Round
    still = record { session = s; world = w; work_done = work }

close_backend-IsValidSession :
    (s : TcpStreamSession) (w : World) → IsValidSession s → IsValidSession (close_backend s w).0
unfolding close_backend
close_backend-IsValidSession s w h =
    if_both (λ (o : TcpStreamSession × World). IsValidSession o.0) _ _ (s', _)
      (record { hello = h.hello; backend = h.backend; tls = h.tls; nxt = omega arith })
      (record { hello = h.hello; backend = h.backend; tls = h.tls; nxt = h.nxt })
  where
    s' : TcpStreamSession
    s' = with_backend s (record s.flow.backend { fd = none })

drain_session-IsValidEnd :
    (ev : BackendEvent) (s : TcpStreamSession) (w : World) (work : ℕ)
    → IsValidSession s
    → IsValidEnd (drain_session ev s w work)
unfolding drain_session
drain_session-IsValidEnd ev s w work h =
    if_both IsValidEnd _ _ (read.0, false)
      (close_backend-IsValidSession read.0.session read.0.world later) later
  where
    wrote : Round
    wrote =
        if ev.writable
        then drain_writable ev s w work
        else record { session = s; world = w; work_done = work }

    first : IsValidRound wrote
    first =
        if_both IsValidRound ev.writable (drain_writable ev s w work)
          (record { session = s; world = w; work_done = work })
          (drain_writable-IsValidRound ev s w work h) h

    read : Round × Bool
    read = drain_readable ev wrote.session wrote.world wrote.work_done

    later : IsValidEnd read
    later = drain_readable-IsValidEnd ev wrote.session wrote.world wrote.work_done first

module _ (hash : TcpKey → ℕ) where
  abbrev IsValidEngine : TcpAssemblerEngine → Type 0
  IsValidEngine e = EveryFlow hash IsValidFlow e.sessions

  abbrev pub IsValidDrained : Drained → Type 0
  IsValidDrained d = EveryFlow hash IsValidFlow d.engine.sessions

  settle_round-IsValidEngine :
      (e : TcpAssemblerEngine) (key : TcpKey) (out : Round × Bool)
      → IsValidEngine e
      → IsValidEnd out
      → OnSome IsValidEngine (settle_round hash e key out)
  settle_round-IsValidEngine e key out h v =
      if_both (OnSome IsValidEngine) out.1 _
        (some (record e { sessions = insert_entry same_key hash e.sessions key out.0.session }))
        (OnSome-bind (EveryFlow hash IsValidFlow) IsValidEngine
          (close_session hash (insert_entry same_key hash e.sessions key out.0.session)
            out.0.session.key)
          _ (close_session-EveryFlow hash IsValidFlow _ out.0.session.key kept) (λ t ht. ht))
        kept
    where
      kept : EveryFlow hash IsValidFlow (insert_entry same_key hash e.sessions key out.0.session)
      kept = insert_entry-Every IsValidSession same_key hash e.sessions key out.0.session h v

  drain_event-IsValidDrained :
      (key : Option TcpKey) (ev : BackendEvent) (d : Drained)
      → IsValidDrained d
      → OnSome IsValidDrained (drain_event hash key ev d)
  unfolding drain_event
  drain_event-IsValidDrained none ev d h = h
  drain_event-IsValidDrained (some key) ev d h =
      OnSome-bind IsValidSession IsValidDrained (find same_key hash d.engine.sessions key) _
        (OnSome-any IsValidSession _
          (λ s e. find-Every IsValidSession same_key hash d.engine.sessions key s h e))
        (λ s v.
          if_both (OnSome IsValidDrained) (is_open s.flow.backend.fd) _ (some d)
            (OnSome-bind IsValidEngine IsValidDrained
              (settle_round hash d.engine key (drain_session ev s d.world d.work_done)) _
              (settle_round-IsValidEngine d.engine key (drain_session ev s d.world d.work_done) h
                (drain_session-IsValidEnd ev s d.world d.work_done v))
              (λ e he. he))
            h)

  drain_events-IsValidDrained :
      (events : List BackendEvent) (d : Drained)
      → IsValidDrained d
      → OnSome IsValidDrained (drain_events hash events d)
  unfolding drain_events
  drain_events-IsValidDrained [] d h = h
  drain_events-IsValidDrained (ev ∷ events) d h =
      OnSome-bind IsValidDrained IsValidDrained (drain_event hash ev.session ev d) _
        (drain_event-IsValidDrained ev.session ev d h)
        (λ d' h'. drain_events-IsValidDrained events d' h')

  drain_backend_events-OnSome :
      (polling : Bool) (events : List BackendEvent) (e : TcpAssemblerEngine) (w : World)
      → IsValidEngine e
      → OnSome IsValidDrained (drain_backend_events hash polling events e w)
  unfolding drain_backend_events
  drain_backend_events-OnSome polling events e w h =
      if_both (OnSome IsValidDrained) polling (drain_events hash (take 16 events) _) (some _)
        (drain_events-IsValidDrained (take 16 events) _ h) h

  -- If every session of the table keeps the bounds of its buffers, its TLS connection in order and its
  -- `send_nxt` in 32 bits, then so it is when `drain_backend_events` returns.
  pub drain_backend_events-EveryFlow :
      (polling : Bool) (events : List BackendEvent) (e : TcpAssemblerEngine) (w : World)
      (d : Drained)
      → EveryFlow hash IsValidFlow e.sessions
      → drain_backend_events hash polling events e w ≡ some d
      → IsValidDrained d
  drain_backend_events-EveryFlow polling events e w d h run =
      OnSome-found IsValidDrained _ d (drain_backend_events-OnSome polling events e w h) run
