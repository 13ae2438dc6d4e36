-- ===== src/Tcp/Engine/Capacity.antt =====
-- How `process_packet` changes the count of sessions.
use intrusion_detection.Base.{
  ℕ, zero, suc, ◌+◌, ◌≤◌, ◌≡◌, true, some, arith, Option-cases, inl, inr,
}
use intrusion_detection.Table.{capacity, find, erase}
use intrusion_detection.Table.Size.{erase-size, insert_entry-size, insert_entry-size_found}
use intrusion_detection.Tcp.Options.{default_params, parse_tcp_syn_option}
use intrusion_detection.Tcp.Session.{
  TcpKey, same_key, TcpStreamSession, TcpAssemblyResult, Packet, Allocator,
}
use intrusion_detection.Tcp.Segment.{Outcome, returned, deleted, continued, process_session}
use intrusion_detection.Tcp.Engine.{
  max_active_tcp_session, SessionMap, TcpAssemblerEngine, key_of, opened_session, fresh_result,
  purge_from, purged_expired, clean_up, open_session, keep_outcome, look_up, process_packet,
}

module _ (hash : TcpKey → ℕ) where
  purge_from-size :
      (rounds : ℕ) (t : SessionMap) (now_ns i : ℕ)
      → (purge_from hash rounds t now_ns i).size ≤ t.size
  unfolding purge_from
  purge_from-size zero t now_ns i = omega arith
  purge_from-size (suc rounds) t now_ns i = elim (Option-cases (t.cells i)) [
    | inl e ↦ ground (arith, purge_from-size rounds t now_ns (i + 1))
    | inr ((key, s), e) ↦ ground (
      arith,
      purge_from-size rounds t now_ns (i + 1),
      purge_from-size rounds (erase same_key hash t key) now_ns (i + 1),
      erase-size same_key hash t key,
    )
  ]

  clean_up-size :
      (e : TcpAssemblerEngine) (now_ns : ℕ)
      → (clean_up hash e now_ns).sessions.size ≤ e.sessions.size
  unfolding clean_up purged_expired
  clean_up-size e now_ns = ground (arith, purge_from-size capacity e.sessions now_ns 0)

  keep_outcome-size :
      (e : TcpAssemblerEngine) (key : TcpKey) (old : TcpStreamSession) (o : Outcome)
      → find same_key hash e.sessions key ≡ some old
      → (keep_outcome hash e key o).0.sessions.size ≤ e.sessions.size
  unfolding keep_outcome
  keep_outcome-size e key old (returned s r) found =
      omega (arith, insert_entry-size_found same_key hash e.sessions key s old found)
  keep_outcome-size e key old (deleted r) found = erase-size same_key hash e.sessions key
  keep_outcome-size e key old (continued s r) found =
      omega (arith, insert_entry-size_found same_key hash e.sessions key s old found)

  open_session-size :
      (heap : Allocator) (e e' : TcpAssemblerEngine) (p : Packet) (now_ns : ℕ)
      (r : TcpAssemblyResult)
      → e.sessions.size ≤ max_active_tcp_session
      → open_session hash heap e p now_ns ≡ some (e', r)
      → e'.sessions.size ≤ max_active_tcp_session
  unfolding open_session
  open_session-size heap e e' p now_ns r few run =
      elim (Option-cases (parse_tcp_syn_option p.header p.doff default_params)) [
        | inl fault ↦ ground arith
        | inr (params, parsed) ↦ ground (
          arith,
          insert_entry-size same_key hash e.sessions (key_of p) (opened_session p now_ns params),
        )
      ]

  -- If the table counts at most 65536 sessions, so it does after any packet that `process_packet`
  -- returns from.
  pub process_packet-size :
      (heap : Allocator) (e e' : TcpAssemblerEngine) (p : Packet) (now_ns : ℕ)
      (r : TcpAssemblyResult)
      → e.sessions.size ≤ max_active_tcp_session
      → process_packet hash heap e p now_ns ≡ some (e', r)
      → e'.sessions.size ≤ max_active_tcp_session
  unfolding process_packet look_up
  process_packet-size heap e e' p now_ns r few run =
      let swept = clean_up hash e now_ns in
      let small = clean_up-size e now_ns in
      elim (Option-cases (find same_key hash swept.sessions (key_of p))) [
        | inl none_here ↦ ground (arith, open_session-size heap swept e' p now_ns r)
        | inr (s, found) ↦
            let o = process_session heap s (record (fresh_result p) { session = true }) p now_ns in
            ground (arith, keep_outcome-size swept (key_of p) s o found)
      ]
