-- ===== src/Pipeline/Packet.antt =====
-- `handle_tcp_packet` of src/main/transport/tcp_pipeline.h as a whole. What it prints is left out.
use intrusion_detection.Base.{
  ℕ, ◌+◌, ◌*◌, ◌%◌, Bool, false, not, ◌&&◌, ltb, leb, List, length, Option, none, some, ◌>>=◌,
  if◌then◌else◌,
}
use intrusion_detection.Table.{capacity, find_from, insert_entry}
use intrusion_detection.Tcp.Session.{
  TcpKey, same_key, TcpStreamSession, TcpAssemblyResult, Allocator,
}
use intrusion_detection.Tcp.Engine.{TcpAssemblerEngine, process_packet, close_session, key_of}
use intrusion_detection.Tls.Connection.{TlsSessionStatus, is_status}
use intrusion_detection.Tls.Parser.{parse_client_hello}
use intrusion_detection.Pipeline.{World}
use intrusion_detection.Pipeline.Frame.{
  Env, Frame, Fate, kept, closed, absent, Reply, acknowledge, packet_of, read_packet, answer_syn,
}
use intrusion_detection.Pipeline.Hello.{
  Collected, answered, complete, accumulate_hello, check_policy,
}
use intrusion_detection.Pipeline.Relay.{Progress, returned, continued, serve_plain, serve_tls}

-- The branch on the state of TLS.
unfoldable pub serve : Env → Frame → Option TcpStreamSession → List ℕ → World → Progress
serve env f none hello w = serve_plain env f none hello w
serve env f (some s) hello w =
    if is_status s.flow.tls_conn.status TlsSessionStatus.idle
    then serve_plain env f (some s) hello w
    else serve_tls env f s hello w

abbrev pub fate_of : Option TcpStreamSession → Fate
fate_of none = absent
fate_of (some s) = kept s

-- The end of the function: a closed stream is closed.
abbrev pub finish : Bool → Progress → Reply
finish is_closed (returned r) = r
finish is_closed (continued s w) = record {
  sent = false;
  fate = if is_closed then closed else fate_of s;
  world = w;
}

-- An answer ends the function; otherwise it goes on.
abbrev pub unless_answered :
    Collected → (Option TcpStreamSession → List ℕ → Option Reply) → Option Reply
unless_answered (answered r) go = some r
unless_answered (complete s hello) go = go s hello

-- From `parse_client_hello` on.
unfoldable pub inspect :
    Env → Frame → Bool → Option TcpStreamSession → List ℕ → World → Option Reply
inspect env f is_closed session hello w = parse_client_hello hello >>= (λ info.
    unless_answered (check_policy env f session info hello w)
      (λ s bytes. some (finish is_closed (serve env f s bytes w))))

-- The block of data that are ready, and the end of the function.
unfoldable pub serve_ready :
    Env → Frame → Option TcpStreamSession → TcpAssemblyResult → World → Option Reply
serve_ready env f session r w =
    if r.is_ready && ltb 0 (length r.payload)
    then unless_answered (accumulate_hello f session r.payload w)
        (λ s hello. inspect env f r.is_closed s hello w)
    else some (finish r.is_closed (continued session w))

-- From the result of `process_packet` on.
unfoldable pub respond :
    Env → Frame → Option TcpStreamSession → TcpAssemblyResult → World → Option Reply
respond env f none r w = serve_ready env f none r w
respond env f (some s) r w =
    if r.is_syn
    then some (answer_syn f s w)
    else if r.need_ack
    then some (acknowledge f s w)
    else serve_ready env f (some s) r w

-- What `handle_tcp_packet` returns and leaves.
pub record Handled : Type 0 where
  pub sent : Bool
  pub engine : TcpAssemblerEngine
  pub world : World

-- The checks of the lengths of the headers.
abbrev pub fits : Frame → Bool
fits f =
    let headers = f.ihl * 4 + f.doff * 4 in
    leb (f.ihl * 4 + 20) f.ip_pkt_len
    && (leb 20 (f.doff * 4) && (leb headers f.ip_pkt_len && leb headers f.tot_len))

module _ (hash : TcpKey → ℕ) where
  -- The session that the result points to: the entry of the key, as `emplace` finds it, wherever in the
  -- table it is.
  abbrev pub session_of : TcpAssemblerEngine → Frame → TcpAssemblyResult → Option TcpStreamSession
  session_of e f r =
      let key = key_of (packet_of f) in
      if r.session
      then find_from same_key capacity e.sessions.cells key (hash key % capacity)
      else none

  -- The table with what became of the session.
  abbrev pub settle : TcpAssemblerEngine → Frame → Fate → Option TcpAssemblerEngine
  settle e f (kept s) =
      some (record e { sessions = insert_entry same_key hash e.sessions (key_of (packet_of f)) s })
  settle e f closed =
      close_session hash e.sessions (key_of (packet_of f))
      >>= (λ t. some (record e { sessions = t }))
  settle e f absent = some e

  unfoldable pub handle_tcp_packet :
      Allocator → Env → TcpAssemblerEngine → World → Frame → ℕ → Option Handled
  handle_tcp_packet heap env e w f now_ns =
      if not (fits f)
      then some (record { sent = false; engine = e; world = w })
      else read_packet f >>= (λ p. process_packet hash heap e p now_ns >>= (λ out.
        respond env f (session_of out.0 f out.1) out.1 w >>= (λ a.
          settle out.0 f a.fate
          >>= (λ e'. some (record { sent = a.sent; engine = e'; world = a.world })))))
