-- ===== src/Tcp/Engine/Lookup.antt =====
-- `process_packet` by what the lookup of its key finds.
use intrusion_detection.Base.{
  ℕ, ◌*◌, ◌≤◌, ◌<◌, ◌≡◌, ◌≢◌, true, false, length, none, some, arith, Option-cases, inl, inr,
}
use intrusion_detection.Table.{find}
use intrusion_detection.Table.Find.{IsKeyEq, find-insert_other}
use intrusion_detection.Tcp.Options.{
  default_params, parse_tcp_syn_option, parse_tcp_syn_option-total,
}
use intrusion_detection.Tcp.Session.{
  TcpKey, same_key, TcpStreamSession, TcpAssemblyResult, Packet, has_flag, th_syn, Allocator,
}
use intrusion_detection.Tcp.Engine.{
  max_active_tcp_session, empty_key, TcpAssemblerEngine, key_of, opened_session, fresh_result,
  clean_up, open_session, look_up, process_packet,
}

same_key-IsKeyEq : IsKeyEq same_key
unfolding same_key
same_key-IsKeyEq = record {
  reflexive = λ k. ground arith;
  sound = λ a b e.
      let src : a.src_ip ≡ b.src_ip = ground arith in
      let dst : a.dst_ip ≡ b.dst_ip = ground arith in
      let from : a.src_port ≡ b.src_port = ground arith in
      let to : a.dst_port ≡ b.dst_port = ground arith in
      λ i. record { src_ip = src i; dst_ip = dst i; src_port = from i; dst_port = to i };
}

module _ (hash : TcpKey → ℕ) (heap : Allocator) (e : TcpAssemblerEngine) (p : Packet)
    (now_ns : ℕ) where
  -- Only the empty key is a fault: for any other, if the header's bytes are in memory, `process_packet`
  -- returns.
  pub process_packet-ne-none :
      same_key (key_of p) empty_key ≡ false
      → p.doff * 4 ≤ length p.header
      → process_packet hash heap e p now_ns ≢ none
  unfolding process_packet look_up open_session
  process_packet-ne-none key fits =
      let (params, parsed, ok) =
        parse_tcp_syn_option-total p.header p.doff default_params fits (omega arith) in
      ground arith

  -- A packet whose addresses and ports are all 0 aborts the program, if the table, once swept,
  -- counts less than 65536 sessions.
  pub process_packet_aborts :
      same_key (key_of p) empty_key ≡ true
      → (clean_up hash e now_ns).sessions.size < max_active_tcp_session
      → process_packet hash heap e p now_ns ≡ none
  unfolding process_packet look_up
  process_packet_aborts key room = ground arith

  -- A packet without SYN whose key is not the empty one and belongs to no session has no effect
  -- but the sweep, and gives nothing.
  pub process_packet_unknown :
      same_key (key_of p) empty_key ≡ false
      → find same_key hash (clean_up hash e now_ns).sessions (key_of p) ≡ none
      → has_flag p.flags th_syn ≡ false
      → process_packet hash heap e p now_ns ≡ some (clean_up hash e now_ns, fresh_result p)
  unfolding process_packet look_up open_session
  process_packet_unknown key missing plain = ground arith

  -- Where `process_packet` returns from a packet whose key belongs to no session, the session of
  -- another key that a lookup in the swept table finds is found by the same lookup afterwards.
  pub process_packet_keeps :
      (key' : TcpKey) (s' : TcpStreamSession) (e' : TcpAssemblerEngine) (r : TcpAssemblyResult)
      → find same_key hash (clean_up hash e now_ns).sessions (key_of p) ≡ none
      → same_key (key_of p) key' ≡ false
      → find same_key hash (clean_up hash e now_ns).sessions key' ≡ some s'
      → process_packet hash heap e p now_ns ≡ some (e', r)
      → find same_key hash e'.sessions key' ≡ some s'
  unfolding process_packet look_up open_session
  process_packet_keeps key' s' e' r missing other there returned =
      let swept = clean_up hash e now_ns in
      elim (Option-cases (parse_tcp_syn_option p.header p.doff default_params)) [
        | inl bad ↦ ground arith
        | inr (params, parsed) ↦
            let opened = opened_session p now_ns params in
            ground (
              arith,
              find-insert_other same_key hash same_key-IsKeyEq swept.sessions (key_of p) key' opened
                  s' other there,
            )
      ]
