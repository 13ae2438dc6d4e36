-- ===== src/Pipeline/Hello.antt =====
-- The ClientHello in `handle_tcp_packet`: its collection from segments, and the policy on its SNI.
use intrusion_detection.Base.{
  ℕ, ◌+◌, ◌*◌, Bool, true, not, ◌&&◌, ◌||◌, ltb, leb, ◌==◌, List, ◌++◌, length, get_or, Option,
  none, some, if◌then◌else◌,
}
use intrusion_detection.Tcp.Backend.{is_empty}
use intrusion_detection.Tcp.Session.{TcpStreamSession, Flow, ntohs}
use intrusion_detection.Tls.Connection.{TlsSessionStatus, is_status, init}
use intrusion_detection.Tls.Parser.{TlsParseResult}
use intrusion_detection.Tls.Blocklist.{is_allowed}
use intrusion_detection.Pipeline.{World}
use intrusion_detection.Pipeline.Frame.{
  ServiceConfig, Env, Frame, Reply, refuse, acknowledge, with_flow, with_macs,
}

abbrev pub max_client_hello : ℕ
max_client_hello = 16389

abbrev pub starts_hello : List ℕ → Bool
starts_hello payload =
    leb 6 (length payload) && (get_or payload 0 0 == 0x16 && get_or payload 5 0 == 0x01)

abbrev pub record_len : List ℕ → ℕ
record_len hello = get_or hello 3 0 * 256 + get_or hello 4 0

-- How the collection of a ClientHello ends: with an answer, or with the data to look at.
pub data Collected : Type 0 where
  answered : Reply → Collected
  complete : Option TcpStreamSession → List ℕ → Collected

-- From the insertion into `client_hello_buf` on.
unfoldable pub collect : Frame → TcpStreamSession → List ℕ → World → Collected
collect f s hello w =
    let grown = with_flow s (record s.flow { client_hello_buf = hello }) in
    if leb 5 (length hello)
    then if ltb 16384 (record_len hello)
      then answered (refuse f w)
      else if ltb (length hello) (5 + record_len hello)
      then answered (acknowledge f grown w)
      else complete (some grown) hello
    else complete (some grown) hello

unfoldable pub accumulate_hello : Frame → Option TcpStreamSession → List ℕ → World → Collected
accumulate_hello f none payload w = complete none payload
accumulate_hello f (some s) payload w =
    let buf = s.flow.client_hello_buf in
    if is_status s.flow.tls_conn.status TlsSessionStatus.idle
      && (not (is_empty buf) || starts_hello payload)
    then if ltb max_client_hello (length buf + length payload)
      then answered (refuse f w)
      else collect f s (buf ++ payload) w
    else complete (some s) payload

-- The service of a ClientHello: by its SNI, or else by the address.
abbrev pub service_of : Env → Frame → List ℕ → Option ServiceConfig
service_of env f sni = elim (env.find_by_domain sni) [
  | none ↦ env.find_by_ip_port f.dst_ip (ntohs f.dst_port)
  | some svc ↦ some svc
]

-- `init` with the service's context, where there is one.
unfoldable pub start_tls : Env → Option ServiceConfig → Flow → Flow
start_tls env none flow = flow
start_tls env (some svc) flow =
    if svc.has_ctx
    then record flow {
      tls_conn = (init true env.objects flow.tls_conn).1;
      backend = record flow.backend { port = svc.backend_port };
    }
    else flow

-- What an allowed ClientHello does to the session.
unfoldable pub open_tls : Env → Frame → List ℕ → TcpStreamSession → TcpStreamSession
open_tls env f sni s = with_flow s (with_macs f (start_tls env (service_of env f sni) s.flow))

abbrev pub map_session :
    (TcpStreamSession → TcpStreamSession) → Option TcpStreamSession → Option TcpStreamSession
map_session g none = none
map_session g (some s) = some (g s)

-- The policy on what `parse_client_hello` finds in the data.
unfoldable pub check_policy :
    Env → Frame → Option TcpStreamSession → TlsParseResult → List ℕ → World → Collected
check_policy env f session info hello w =
    if info.is_client_hello
    then if is_empty info.sni || not (is_allowed env.domains info.sni)
      then answered (refuse f w)
      else complete (map_session (open_tls env f info.sni) session) hello
    else complete session hello
