-- ===== src/Pipeline/Runs.antt =====
-- Runs of the program: packets and events of the backends, in any order, from an empty table.
use intrusion_detection.Base.{ℕ, ◌≡◌, Bool, List, some, arith}
use intrusion_detection.Table.{empty_table}
use intrusion_detection.Tcp.Session.{TcpKey, TcpStreamSession, Allocator}
use intrusion_detection.Tcp.Engine.{TcpAssemblerEngine}
use intrusion_detection.Tcp.Engine.Flows.{EveryFlow}
use intrusion_detection.Pipeline.{World}
use intrusion_detection.Pipeline.Frame.{Env, Frame}
use intrusion_detection.Pipeline.Packet.{Handled, handle_tcp_packet}
use intrusion_detection.Pipeline.Drain.{BackendEvent, Drained, drain_backend_events}
use intrusion_detection.Pipeline.Bounds.{IsValidFlow}
use intrusion_detection.Pipeline.Sessions.{handle_tcp_packet-EveryFlow}
use intrusion_detection.Pipeline.Drain.Bounds.{drain_backend_events-EveryFlow}

abbrev pub initial_engine : TcpAssemblerEngine
initial_engine = record { sessions = empty_table; last_cleanup_ns = 0 }

module _ (hash : TcpKey → ℕ) where
  -- One call of the main loop, in any world and with any answers.
  pub data Step : TcpAssemblerEngine → TcpAssemblerEngine → Type 0 where
    packet :
        (heap : Allocator) (env : Env) (w : World) (f : Frame) (now_ns : ℕ) (e : TcpAssemblerEngine)
        (x : Handled)
        → handle_tcp_packet hash heap env e w f now_ns ≡ some x
        → Step e x.engine
    events :
        (polling : Bool) (evs : List BackendEvent) (w : World) (e : TcpAssemblerEngine)
        (d : Drained)
        → drain_backend_events hash polling evs e w ≡ some d
        → Step e d.engine

  pub data Reach (e : TcpAssemblerEngine) : TcpAssemblerEngine → Type 0 where
    here : Reach e e
    next : {a b : TcpAssemblerEngine} → Reach e a → Step a b → Reach e b

  Step-EveryFlow :
      {a b : TcpAssemblerEngine}
      → Step a b
      → EveryFlow hash IsValidFlow a.sessions
      → EveryFlow hash IsValidFlow b.sessions
  Step-EveryFlow (packet heap env w f now_ns e x run) h =
      handle_tcp_packet-EveryFlow hash heap env e w f now_ns x h run
  Step-EveryFlow (events polling evs w e d run) h =
      drain_backend_events-EveryFlow hash polling evs e w d h run

  Reach-EveryFlow :
      {a b : TcpAssemblerEngine}
      → EveryFlow hash IsValidFlow a.sessions
      → Reach a b
      → EveryFlow hash IsValidFlow b.sessions
  Reach-EveryFlow h here = h
  Reach-EveryFlow h (next r st) = Step-EveryFlow st (Reach-EveryFlow h r)

  -- After any run of packets and backend events from the empty table, for every session in the table
  -- at most 16389 bytes of a ClientHello and at most 262144 bytes for the backend wait, the TLS objects
  -- are set exactly where its status is not IDLE, and `send_nxt` is a 32-bit word.
  pub Reach-IsValidFlow :
      (e : TcpAssemblerEngine) (i : ℕ) (key : TcpKey) (s : TcpStreamSession)
      → Reach initial_engine e
      → e.sessions.cells i ≡ some (key, s)
      → IsValidFlow s.flow
  Reach-IsValidFlow e i key s r found =
      Reach-EveryFlow (λ j k v eq. absurd (ground arith)) r i key s found
