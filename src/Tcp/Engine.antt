-- ===== src/Tcp/Engine.antt =====
-- `TcpAssemblerEngine`: the table of sessions, `process_packet` whole, the sweep of old sessions, and
-- `close_session`. A pointer to a session in the table is the session in the cell: what the code
-- changes through the pointer is written to the cell. The hash is a parameter.
pub mod Capacity
pub mod Lookup
pub mod Flows
mod Tests
use intrusion_detection.Base.{
  ℕ, zero, suc, ◌+◌, ◌-◌, ◌%◌, ◌^◌, Bool, true, false, not, ◌&&◌, ltb, leb, ◌==◌, [], Option, none,
  some, ◌>>=◌, if◌then◌else◌,
}
use intrusion_detection.Table.{capacity, Table, find, insert_entry, erase}
use intrusion_detection.Tcp.Seq.{add32}
use intrusion_detection.Tcp.Options.{NegotiatedParams, default_params, parse_tcp_syn_option}
use intrusion_detection.Tcp.Session.{
  TcpState, is_state, TcpKey, same_key, TcpStreamSession, blank_flow, TcpAssemblyResult, Packet,
  has_flag, th_syn, th_ack, Allocator, ntohs,
}
use intrusion_detection.Tcp.Segment.{Outcome, returned, deleted, continued, process_session}

abbrev pub max_active_tcp_session : ℕ
max_active_tcp_session = 65536

abbrev pub syn_timeout_ns : ℕ
syn_timeout_ns = 3000000000

abbrev pub estab_timeout_ns : ℕ
estab_timeout_ns = 30000000000

abbrev pub empty_key : TcpKey
empty_key = record { src_ip = 0; dst_ip = 0; src_port = 0; dst_port = 0 }

abbrev pub SessionMap : Type 0
SessionMap = Table TcpKey TcpStreamSession

pub record TcpAssemblerEngine : Type 0 where
  pub sessions : SessionMap
  pub last_cleanup_ns : ℕ

abbrev pub age : ℕ → ℕ → ℕ
age now_ns then_ns = (now_ns + 2 ^ 64 - then_ns) % 2 ^ 64

abbrev pub is_expired : TcpStreamSession → ℕ → Bool
is_expired s now_ns =
    if is_state s.state TcpState.syn_sent
    then ltb syn_timeout_ns (age now_ns s.last_seen_ns)
    else ltb estab_timeout_ns (age now_ns s.last_seen_ns)

abbrev pub key_of : Packet → TcpKey
key_of p = record {
  src_ip = p.src_ip;
  dst_ip = p.dst_ip;
  src_port = p.src_port;
  dst_port = p.dst_port;
}

-- The result that `process_packet` starts from.
abbrev pub fresh_result : Packet → TcpAssemblyResult
fresh_result p = record {
  is_ready = false;
  is_syn = false;
  is_closed = false;
  need_ack = false;
  src_port = ntohs p.src_port;
  dst_port = ntohs p.dst_port;
  payload = [];
  session = false;
}

-- The session that a SYN opens.
abbrev pub opened_session : Packet → ℕ → NegotiatedParams → TcpStreamSession
opened_session p now_ns params = record {
  key = key_of p;
  state = TcpState.syn_sent;
  out_of_order_count = 0;
  isn = p.seq;
  rcv_nxt = add32 p.seq 1;
  last_seen_ns = now_ns;
  params = params;
  buffers = none;
  flow = blank_flow;
}

module _ (hash : TcpKey → ℕ) where
  -- The loop of `purged_expired`, from cell `i` on.
  unfoldable pub purge_from : ℕ → SessionMap → ℕ → ℕ → SessionMap
  purge_from zero t now_ns i = t
  purge_from (suc rounds) t now_ns i =
      let swept : SessionMap = elim (t.cells i) [
        | none ↦ t
        | some (key, s) ↦ if is_expired s now_ns then erase same_key hash t key else t
      ] in
      purge_from rounds swept now_ns (i + 1)

  unfoldable pub purged_expired : SessionMap → ℕ → SessionMap
  purged_expired t now_ns = purge_from capacity t now_ns 0

  -- The cleanup that is made once a second.
  unfoldable pub clean_up : TcpAssemblerEngine → ℕ → TcpAssemblerEngine
  clean_up e now_ns =
      if ltb 1000000000 (age now_ns e.last_cleanup_ns)
      then record { sessions = purged_expired e.sessions now_ns; last_cleanup_ns = now_ns }
      else e

  unfoldable pub close_session : SessionMap → TcpKey → Option SessionMap
  close_session t key = if same_key key empty_key then none else elim (find same_key hash t key) [
    | none ↦ some t
    | some s ↦ some (erase same_key hash t key)
  ]

  -- The branch of a packet whose key has no session.
  unfoldable pub open_session :
      Allocator → TcpAssemblerEngine → Packet → ℕ → Option (TcpAssemblerEngine × TcpAssemblyResult)
  open_session heap e p now_ns =
      if not (has_flag p.flags th_syn)
      then some (e, fresh_result p)
      else if leb max_active_tcp_session e.sessions.size
      then some (e, fresh_result p)
      else if not heap.session_ok
      then some (e, fresh_result p)
      else parse_tcp_syn_option p.header p.doff default_params >>= (λ params. some (
        record e {
          sessions =
              insert_entry same_key hash e.sessions (key_of p) (opened_session p now_ns params);
        },
        record (fresh_result p) { session = true; is_syn = true },
      ))

  -- What a session's outcome makes of the table.
  unfoldable pub keep_outcome :
      TcpAssemblerEngine → TcpKey → Outcome → TcpAssemblerEngine × TcpAssemblyResult
  keep_outcome e key (returned s r) =
      (record e { sessions = insert_entry same_key hash e.sessions key s }, r)
  keep_outcome e key (deleted r) = (record e { sessions = erase same_key hash e.sessions key }, r)
  keep_outcome e key (continued s r) =
      (record e { sessions = insert_entry same_key hash e.sessions key s }, r)

  -- From the lookup on. The lookup of the empty key aborts the program: `none`, as a fault.
  unfoldable pub look_up :
      Allocator → TcpAssemblerEngine → Packet → ℕ → Option (TcpAssemblerEngine × TcpAssemblyResult)
  look_up heap e p now_ns =
      if same_key (key_of p) empty_key
      then none
      else elim (find same_key hash e.sessions (key_of p)) [
        | none ↦ open_session heap e p now_ns
        | some s ↦ some (
            keep_outcome e (key_of p)
              (process_session heap s (record (fresh_result p) { session = true }) p now_ns))
      ]

  unfoldable pub process_packet :
      Allocator → TcpAssemblerEngine → Packet → ℕ → Option (TcpAssemblerEngine × TcpAssemblyResult)
  process_packet heap e p now_ns =
      let e' = clean_up e now_ns in
      if has_flag p.flags th_syn
        && (not (has_flag p.flags th_ack) && leb max_active_tcp_session e'.sessions.size)
      then some (e', fresh_result p)
      else look_up heap e' p now_ns
