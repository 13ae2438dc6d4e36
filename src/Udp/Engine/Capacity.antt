-- ===== src/Udp/Engine/Capacity.antt =====
-- How `process_fragment` changes the count of datagrams in the table.
use intrusion_detection.Base.{
  ℕ, zero, suc, ◌+◌, ◌≤◌, ◌≡◌, Bool, true, List, Option, none, some, arith, Option-cases, inl, inr,
}
use intrusion_detection.Table.{capacity, find, insert_entry, erase}
use intrusion_detection.Table.Size.{
  erase-size, insert_entry-size, insert_entry-size_found, insert_entry-size_twice,
}
use intrusion_detection.Udp.{
  ReassemblySession, new_session, add_fragment, AssemblyResult, max_active_sessions,
}
use intrusion_detection.Udp.Engine.{
  FragmentKey, same_fragment_key, DatagramMap, UdpAssemblerEngine, purge_datagrams,
  clean_up_datagrams, put_fragment, process_datagram,
}

same_fragment_key_refl : (k : FragmentKey) → same_fragment_key k k ≡ true
unfolding same_fragment_key
same_fragment_key_refl k = ground arith

-- How many datagrams a lookup finds.
abbrev pub entries : Option ReassemblySession → ℕ
entries none = 0
entries (some s) = 1

module _ (hash : FragmentKey → ℕ) where
  purge_datagrams-size :
      (rounds : ℕ) (t : DatagramMap) (now_ns i : ℕ)
      → (purge_datagrams hash rounds t now_ns i).size ≤ t.size
  unfolding purge_datagrams
  purge_datagrams-size zero t now_ns i = omega arith
  purge_datagrams-size (suc rounds) t now_ns i = elim (Option-cases (t.cells i)) [
    | inl e ↦ ground (arith, purge_datagrams-size rounds t now_ns (i + 1))
    | inr ((key, s), e) ↦ ground (
      arith,
      purge_datagrams-size rounds t now_ns (i + 1),
      purge_datagrams-size rounds (erase same_fragment_key hash t key) now_ns (i + 1),
      erase-size same_fragment_key hash t key,
    )
  ]

  clean_up_datagrams-size :
      (e : UdpAssemblerEngine) (now_ns : ℕ)
      → (clean_up_datagrams hash e now_ns).sessions.size ≤ e.sessions.size
  unfolding clean_up_datagrams
  clean_up_datagrams-size e now_ns =
      ground (arith, purge_datagrams-size capacity e.sessions now_ns 0)

  -- A session that the lookup finds is put back or taken out.
  put_fragment-size_found :
      (t : DatagramMap) (key : FragmentKey) (s : ReassemblySession) (offset : ℕ) (payload : List ℕ)
      (more_fragments : Bool)
      → find same_fragment_key hash t key ≡ some s
      → (put_fragment hash t key s offset payload more_fragments).0.size ≤ t.size
  unfolding put_fragment
  put_fragment-size_found t key s offset payload more_fragments found =
      let s' = (add_fragment s offset payload more_fragments).0 in
      ground (
        arith,
        erase-size same_fragment_key hash t key,
        insert_entry-size_found same_fragment_key hash t key s' s found,
      )

  put_fragment-size :
      (t : DatagramMap) (key : FragmentKey) (s : ReassemblySession) (offset : ℕ) (payload : List ℕ)
      (more_fragments : Bool)
      → (put_fragment hash
          (insert_entry same_fragment_key hash t key s)
          key
          s
          offset
          payload
          more_fragments).0.size
        ≤ t.size + 1
  unfolding put_fragment
  put_fragment-size t key s offset payload more_fragments =
      let u = insert_entry same_fragment_key hash t key s in
      let s' = (add_fragment s offset payload more_fragments).0 in
      ground (
        arith,
        insert_entry-size same_fragment_key hash t key s,
        erase-size same_fragment_key hash u key,
        insert_entry-size_twice same_fragment_key hash t key s s' (same_fragment_key_refl key),
      )

  -- If the table counts at most 65536 datagrams, so it does after any fragment that
  -- `process_fragment` returns from.
  pub process_datagram-size :
      (alloc_ok : Bool) (e e' : UdpAssemblerEngine) (key : FragmentKey) (offset : ℕ)
      (payload : List ℕ) (more_fragments : Bool) (now_ns : ℕ) (r : AssemblyResult)
      → e.sessions.size ≤ max_active_sessions
      → process_datagram hash alloc_ok e key offset payload more_fragments now_ns ≡ some (e', r)
      → e'.sessions.size ≤ max_active_sessions
  unfolding process_datagram
  process_datagram-size alloc_ok e e' key offset payload more_fragments now_ns r few run =
      let t = (clean_up_datagrams hash e now_ns).sessions in
      let small = clean_up_datagrams-size e now_ns in
      elim (Option-cases (find same_fragment_key hash t key)) [
        | inl missing ↦
            ground
              (arith, put_fragment-size t key (new_session now_ns) offset payload more_fragments)
        | inr (s, found) ↦
            ground (arith, put_fragment-size_found t key s offset payload more_fragments found)
      ]
