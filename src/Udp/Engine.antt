-- ===== src/Udp/Engine.antt =====
-- `UDPassemblerEngine`: the table of datagrams, the sweep of old ones, and `process_fragment` whole. The
-- hash is a parameter.
pub mod Refines
pub mod Capacity
use intrusion_detection.Base.{
  ℕ, zero, suc, ◌+◌, ◌-◌, ◌%◌, ◌^◌, Bool, true, false, not, ◌&&◌, ltb, leb, ◌==◌, List, Option,
  none, some, if◌then◌else◌,
}
use intrusion_detection.Table.{capacity, Table, find, insert_entry, erase}
use intrusion_detection.Udp.{
  ReassemblySession, new_session, is_complete, add_fragment, AssemblyResult, no_result, completed,
  max_active_sessions,
}

pub record FragmentKey : Type 0 where
  pub src_ip : ℕ
  pub dst_ip : ℕ
  pub ip_id : ℕ
  pub protocol : ℕ

unfoldable pub same_fragment_key : FragmentKey → FragmentKey → Bool
same_fragment_key a b =
    a.src_ip == b.src_ip
    && (a.dst_ip == b.dst_ip && (a.ip_id == b.ip_id && a.protocol == b.protocol))

abbrev pub empty_fragment_key : FragmentKey
empty_fragment_key = record { src_ip = 0; dst_ip = 0; ip_id = 0; protocol = 0 }

abbrev pub timeout_ns : ℕ
timeout_ns = 10000000000

abbrev pub DatagramMap : Type 0
DatagramMap = Table FragmentKey ReassemblySession

pub record UdpAssemblerEngine : Type 0 where
  pub sessions : DatagramMap
  pub last_cleanup_ns : ℕ

abbrev pub since : ℕ → ℕ → ℕ
since now_ns then_ns = (now_ns + 2 ^ 64 - then_ns) % 2 ^ 64

module _ (hash : FragmentKey → ℕ) where
  unfoldable pub purge_datagrams : ℕ → DatagramMap → ℕ → ℕ → DatagramMap
  purge_datagrams zero t now_ns i = t
  purge_datagrams (suc rounds) t now_ns i =
      let swept : DatagramMap = elim (t.cells i) [
        | none ↦ t
        | some (key, s) ↦
            if ltb timeout_ns (since now_ns s.created_at_ns)
            then erase same_fragment_key hash t key
            else t
      ] in
      purge_datagrams rounds swept now_ns (i + 1)

  unfoldable pub clean_up_datagrams : UdpAssemblerEngine → ℕ → UdpAssemblerEngine
  clean_up_datagrams e now_ns =
      if ltb 1000000000 (since now_ns e.last_cleanup_ns)
      then record {
        sessions = purge_datagrams capacity e.sessions now_ns 0;
        last_cleanup_ns = now_ns;
      }
      else e

  -- From `add_fragment` on, for a session of the table.
  unfoldable pub put_fragment :
      DatagramMap
      → FragmentKey
      → ReassemblySession
      → ℕ
      → List ℕ
      → Bool
      → DatagramMap × AssemblyResult
  put_fragment t key s offset payload more_fragments =
      let (s', taken) = add_fragment s offset payload more_fragments in
      if not taken
      then (erase same_fragment_key hash t key, no_result)
      else if is_complete s'
      then (erase same_fragment_key hash t key, completed s')
      else (insert_entry same_fragment_key hash t key s', no_result)

  -- The lookup of the empty key aborts the program: `none`.
  unfoldable pub process_datagram :
      Bool
      → UdpAssemblerEngine
      → FragmentKey
      → ℕ
      → List ℕ
      → Bool
      → ℕ
      → Option (UdpAssemblerEngine × AssemblyResult)
  process_datagram alloc_ok e key offset payload more_fragments now_ns =
      let swept = clean_up_datagrams e now_ns in
      let fresh = new_session now_ns in
      let opened = insert_entry same_fragment_key hash swept.sessions key fresh in
      let taken = put_fragment opened key fresh offset payload more_fragments in
      if same_fragment_key key empty_fragment_key
      then none
      else elim (find same_fragment_key hash swept.sessions key) [
        | some s ↦
            let out = put_fragment swept.sessions key s offset payload more_fragments in
            some (record swept { sessions = out.0 }, out.1)
        | none ↦
            if leb max_active_sessions swept.sessions.size
            then some (swept, no_result)
            else if not alloc_ok
            then some (swept, no_result)
            else some (record swept { sessions = taken.0 }, taken.1)
      ]
