-- ===== src/Udp/Engine/Refines.antt =====
-- The engine on its table beside `Udp.process_fragment` on the key's slot.
use intrusion_detection.Base.{
  ℕ, ◌||◌, ◌≡◌, Bool, false, not, leb, List, some, arith, Option-cases, Bool-cases, inl, inr,
}
use intrusion_detection.Table.{find, insert_entry}
use intrusion_detection.Udp.{ReassemblySession, new_session, max_active_sessions, process_fragment}
use intrusion_detection.Udp.Engine.{
  FragmentKey, same_fragment_key, empty_fragment_key, DatagramMap, UdpAssemblerEngine,
  clean_up_datagrams, put_fragment, process_datagram,
}

module _ (hash : FragmentKey → ℕ) where
  -- What the engine does with a session, on the slot alone.
  put_fragment-process_fragment :
      (t : DatagramMap) (key : FragmentKey) (s : ReassemblySession) (size : ℕ) (alloc_ok : Bool)
      (offset : ℕ) (payload : List ℕ) (more_fragments : Bool) (now_ns : ℕ)
      → (put_fragment hash t key s offset payload more_fragments).1
        ≡ (process_fragment (some s) size alloc_ok offset payload more_fragments now_ns).1
  unfolding put_fragment process_fragment
  put_fragment-process_fragment t key s size alloc_ok offset payload more_fragments now_ns =
      ground arith

  -- For a key that is not the empty one the engine ends without a fault, and its result is the one that
  -- `process_fragment` gives on what the lookup finds in the swept table.
  pub process_datagram-process_fragment :
      (alloc_ok : Bool) (e : UdpAssemblerEngine) (key : FragmentKey) (offset : ℕ) (payload : List ℕ)
      (more_fragments : Bool) (now_ns : ℕ)
      → same_fragment_key key empty_fragment_key ≡ false
      → let t = (clean_up_datagrams hash e now_ns).sessions in
        (e' : UdpAssemblerEngine) × (process_datagram hash alloc_ok e key offset payload
            more_fragments now_ns
          ≡ some (
            e',
            (process_fragment
                (find same_fragment_key hash t key)
                t.size
                alloc_ok
                offset
                payload
                more_fragments
                now_ns).1,
          ))
  unfolding process_datagram process_fragment
  process_datagram-process_fragment alloc_ok e key offset payload more_fragments now_ns named =
      let swept = clean_up_datagrams hash e now_ns in
      let t = swept.sessions in
      let fresh = new_session now_ns in
      let opened = insert_entry same_fragment_key hash t key fresh in
      let put = λ (u : DatagramMap) (s : ReassemblySession).
        put_fragment hash u key s offset payload more_fragments in
      let same_result = λ (u : DatagramMap) (s : ReassemblySession).
        put_fragment-process_fragment u key s t.size alloc_ok offset payload more_fragments
          now_ns in
      elim (Option-cases (find same_fragment_key hash t key)) [
        | inr (s, found) ↦
            (record swept { sessions = (put t s).0 }, ground (arith, same_result t s))
        | inl missing ↦ elim (Bool-cases (leb max_active_sessions t.size || not alloc_ok)) [
          | inl refused ↦ (swept, ground arith)
          | inr room ↦ (
            record swept { sessions = (put opened fresh).0 },
            ground (arith, same_result opened fresh),
          )
        ]
      ]
