-- ===== src/Tcp/Engine/Flows.antt =====
-- `process_packet` leaves the pipeline's fields of every session alone.
use intrusion_detection.Base.{
  ℕ, zero, suc, ◌+◌, sym, true, Option, none, some, arith, Option-cases, inl, inr, if_both,
  if◌then◌else◌, OnSome,
}
use mathlib.Core.Path.{subst}
use intrusion_detection.Table.{capacity, find, insert_entry, erase}
use intrusion_detection.Table.Every.{Every, find-Every, insert_entry-Every, erase-Every}
use intrusion_detection.Tcp.Options.{default_params, parse_tcp_syn_option}
use intrusion_detection.Tcp.Session.{
  TcpKey, same_key, Flow, blank_flow, TcpStreamSession, TcpAssemblyResult, Packet, Allocator,
}
use intrusion_detection.Tcp.Segment.{Outcome, returned, deleted, continued, process_session}
use intrusion_detection.Tcp.Segment.Flows.{KeepsFlow, process_session-KeepsFlow}
use intrusion_detection.Tcp.Engine.{
  SessionMap, TcpAssemblerEngine, key_of, opened_session, fresh_result, empty_key, is_expired,
  purge_from, purged_expired, clean_up, open_session, keep_outcome, look_up, process_packet,
  close_session,
}

module _ (hash : TcpKey → ℕ) (P : Flow → Type 0) where
  abbrev pub EveryFlow : SessionMap → Type 0
  EveryFlow t = Every (λ (s : TcpStreamSession). P s.flow) t

  purge_from-EveryFlow :
      (rounds : ℕ) (t : SessionMap) (now_ns i : ℕ)
      → EveryFlow t
      → EveryFlow (purge_from hash rounds t now_ns i)
  unfolding purge_from
  purge_from-EveryFlow zero t now_ns i h = h
  purge_from-EveryFlow (suc rounds) t now_ns i h =
      elim (t.cells i)
        as (λ c. EveryFlow (
          purge_from hash rounds
            (elim c as (λ x. SessionMap) [
              | none ↦ t
              | some (key, s) ↦ if is_expired s now_ns then erase same_key hash t key else t
            ])
            now_ns (i + 1))) [
              | none ↦ purge_from-EveryFlow rounds t now_ns (i + 1) h
              | some (key, s) ↦ purge_from-EveryFlow rounds _ now_ns (i + 1) (
                  if_both EveryFlow (is_expired s now_ns) (erase same_key hash t key) t
                    (erase-Every (λ s. P s.flow) same_key hash t key h) h)
            ]

  clean_up-EveryFlow :
      (e : TcpAssemblerEngine) (now_ns : ℕ)
      → EveryFlow e.sessions
      → EveryFlow (clean_up hash e now_ns).sessions
  unfolding clean_up purged_expired
  clean_up-EveryFlow e now_ns h =
      if_both (λ (x : TcpAssemblerEngine). EveryFlow x.sessions) _ _ e
        (purge_from-EveryFlow capacity e.sessions now_ns 0 h) h

  keep_outcome-EveryFlow :
      (e : TcpAssemblerEngine) (key : TcpKey) (flow : Flow) (o : Outcome)
      → EveryFlow e.sessions
      → P flow
      → KeepsFlow flow o
      → EveryFlow (keep_outcome hash e key o).0.sessions
  unfolding keep_outcome
  keep_outcome-EveryFlow e key flow (returned s r) h p k =
      insert_entry-Every (λ s. P s.flow) same_key hash e.sessions key s h (subst P (sym k) p)
  keep_outcome-EveryFlow e key flow (deleted r) h p k =
      erase-Every (λ s. P s.flow) same_key hash e.sessions key h
  keep_outcome-EveryFlow e key flow (continued s r) h p k =
      insert_entry-Every (λ s. P s.flow) same_key hash e.sessions key s h (subst P (sym k) p)

  pub close_session-EveryFlow :
      (t : SessionMap) (key : TcpKey) → EveryFlow t → OnSome EveryFlow (close_session hash t key)
  unfolding close_session
  close_session-EveryFlow t key h =
      if_both (OnSome EveryFlow) (same_key key empty_key) none _ tt
        (elim (find same_key hash t key)
          as (λ o. OnSome EveryFlow (elim o as (λ x. Option SessionMap) [
            | none ↦ some t
            | some s ↦ some (erase same_key hash t key)
          ])) [ none ↦ h | some s ↦ erase-Every (λ s. P s.flow) same_key hash t key h ])

  -- What is about the result of a packet.
  unfoldable pub KeepsEvery : TcpAssemblerEngine × TcpAssemblyResult → Type 0
  KeepsEvery out = EveryFlow out.0.sessions

  unchanged-KeepsEvery :
      (e : TcpAssemblerEngine) (r : TcpAssemblyResult) → EveryFlow e.sessions → KeepsEvery (e, r)
  unfolding KeepsEvery
  unchanged-KeepsEvery e r h = h

  open_session-EveryFlow :
      (heap : Allocator) (e : TcpAssemblerEngine) (p : Packet) (now_ns : ℕ)
      → P blank_flow
      → EveryFlow e.sessions
      → OnSome KeepsEvery (open_session hash heap e p now_ns)
  unfolding open_session
  open_session-EveryFlow heap e p now_ns pb h =
      elim (Option-cases (parse_tcp_syn_option p.header p.doff default_params)) [
        | inl fault ↦ ground (arith, unchanged-KeepsEvery e (fresh_result p) h)
        | inr (params, parsed) ↦ ground (
          arith,
          unchanged-KeepsEvery e (fresh_result p) h,
          unchanged-KeepsEvery
              (record e {
                sessions =
                    insert_entry same_key hash e.sessions (key_of p)
                      (opened_session p now_ns params);
              })
              (record (fresh_result p) { session = true; is_syn = true })
              (insert_entry-Every (λ s. P s.flow) same_key hash e.sessions (key_of p)
                (opened_session p now_ns params) h pb),
        )
      ]

  look_up-EveryFlow :
      (heap : Allocator) (e : TcpAssemblerEngine) (p : Packet) (now_ns : ℕ)
      → P blank_flow
      → EveryFlow e.sessions
      → OnSome KeepsEvery (look_up hash heap e p now_ns)
  unfolding look_up
  look_up-EveryFlow heap e p now_ns pb h =
      let fresh = record (fresh_result p) { session = true } in
      elim (Option-cases (find same_key hash e.sessions (key_of p))) [
        | inl absent ↦ ground (arith, open_session-EveryFlow heap e p now_ns pb h)
        | inr (s, found) ↦
            let out = keep_outcome hash e (key_of p) (process_session heap s fresh p now_ns) in
            ground (
              arith,
              unchanged-KeepsEvery out.0 out.1 (
                  keep_outcome-EveryFlow e (key_of p) s.flow _ h
                    (find-Every (λ s. P s.flow) same_key hash e.sessions (key_of p) s h found)
                    (process_session-KeepsFlow heap s fresh p now_ns)),
            )
      ]

  -- A predicate of the pipeline's fields that holds of the initial ones and of those of every session
  -- in the table holds of those of every session after any packet that `process_packet` returns from.
  pub process_packet-EveryFlow :
      (heap : Allocator) (e : TcpAssemblerEngine) (p : Packet) (now_ns : ℕ)
      → P blank_flow
      → EveryFlow e.sessions
      → OnSome KeepsEvery (process_packet hash heap e p now_ns)
  unfolding process_packet
  process_packet-EveryFlow heap e p now_ns pb h =
      let clean = clean_up-EveryFlow e now_ns h in
      ground (
        arith,
        unchanged-KeepsEvery (clean_up hash e now_ns) (fresh_result p) clean,
        look_up-EveryFlow heap (clean_up hash e now_ns) p now_ns pb clean,
      )
