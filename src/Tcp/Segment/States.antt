-- ===== src/Tcp/Segment/States.antt =====
-- The state machine of a session, and what it lets through.
use intrusion_detection.Base.{
  ℕ, ◌+◌, ◌%◌, ◌<◌, ◌≤◌, ◌≡◌, ◌⊎◌, refl, inl, inr, length, drop, List, some, true, false, arith,
  Option-cases,
}
use mathlib.Core.Bool.{Bool, false≢true}
use intrusion_detection.Tcp.Seq.{add32, diff}
use intrusion_detection.Tcp.Ring.{window_size, read_ring_buffer}
use intrusion_detection.Tcp.Bitmap.{bit, count_continuous_bytes, clear_bitmap_range}
use intrusion_detection.Tcp.Bitmap.Range.{clear_bitmap_range_lem}
use intrusion_detection.Tcp.Bitmap.Count.{count_continuous_bytes-Counted}
use intrusion_detection.Tcp.Session.{
  TcpState, is_state, Buffers, TcpStreamSession, TcpAssemblyResult, Packet, Allocator, has_flag,
  th_syn, th_rst, th_ack, init_bufferes,
}
use intrusion_detection.Tcp.Segment.{
  Outcome, returned, deleted, continued, conflicts, buffer_ahead, drain, fill_gap, place,
  process_payload, store, trimmed_len, process_fin, process_established, process_session,
}

-- The moves of a session that stays in the table.
pub data Moves : TcpState → TcpState → Type 0 where
  stay : (t : TcpState) → Moves t t
  establish : Moves TcpState.syn_sent TcpState.established
  close : Moves TcpState.established TcpState.closing
  establish_and_close : Moves TcpState.syn_sent TcpState.closing

abbrev moves : TcpState → TcpState → Bool
moves TcpState.syn_sent TcpState.established = true
moves TcpState.syn_sent TcpState.closing = true
moves TcpState.established TcpState.closing = true
moves t u = is_state t u

Moves-of_moves : (t u : TcpState) → moves t u ≡ true → Moves t u
Moves-of_moves TcpState.closed TcpState.closed h = stay TcpState.closed
Moves-of_moves TcpState.syn_sent TcpState.syn_sent h = stay TcpState.syn_sent
Moves-of_moves TcpState.syn_sent TcpState.established h = establish
Moves-of_moves TcpState.syn_sent TcpState.closing h = establish_and_close
Moves-of_moves TcpState.established TcpState.established h = stay TcpState.established
Moves-of_moves TcpState.established TcpState.closing h = close
Moves-of_moves TcpState.closing TcpState.closing h = stay TcpState.closing
Moves-of_moves _ _ h = absurd (false≢true h)

-- The session that an outcome keeps has the given state, key and time.
abbrev Keeps : TcpStreamSession → Outcome → Type 0
Keeps s (returned s' r') =
    (s'.state ≡ s.state) × (s'.key ≡ s.key) × (s'.last_seen_ns ≡ s.last_seen_ns)
Keeps s (deleted r') = (r'.is_closed ≡ true) × (r'.session ≡ false)
Keeps s (continued s' r') =
    (s'.state ≡ s.state) × (s'.key ≡ s.key) × (s'.last_seen_ns ≡ s.last_seen_ns)

module _ (heap : Allocator) (s : TcpStreamSession) (r : TcpAssemblyResult) where
  buffer_ahead-Keeps :
      (c : ℕ) (bytes : List ℕ) (len : ℕ) → Keeps s (buffer_ahead heap s r c bytes len)
  unfolding buffer_ahead
  buffer_ahead-Keeps c bytes len = ground arith

  drain-Keeps : (b : Buffers) → Keeps s (drain s r b)
  unfolding drain
  drain-Keeps b = ground arith

  fill_gap-Keeps : (c : ℕ) (bytes : List ℕ) (len : ℕ) → Keeps s (fill_gap heap s r c bytes len)
  unfolding fill_gap
  fill_gap-Keeps c bytes len = elim (Option-cases (init_bufferes heap s.buffers)) [
    | inl e ↦ ground arith
    | inr (b, e) ↦ ground (arith, drain-Keeps (store b c bytes len))
  ]

  place-Keeps : (c : ℕ) (bytes : List ℕ) (len : ℕ) → Keeps s (place heap s r c bytes len)
  unfolding place
  place-Keeps c bytes len =
      ground (arith, buffer_ahead-Keeps c bytes len, fill_gap-Keeps c bytes len)

  process_payload-Keeps : (p : Packet) → Keeps s (process_payload heap s r p)
  unfolding process_payload
  process_payload-Keeps p =
      let trim = diff s.rcv_nxt p.seq in
      let len = length p.payload in
      ground (
        arith,
        place-Keeps s.rcv_nxt (drop trim p.payload) (trimmed_len len trim),
        place-Keeps p.seq p.payload len,
      )

-- What `process_packet` has done with a session of the table when it returns.
abbrev pub Verdict : TcpStreamSession → Packet → ℕ → Outcome → Type 0
Verdict s p now_ns (returned s' r') =
    Moves s.state s'.state × (s'.key ≡ s.key) × (s'.last_seen_ns ≡ now_ns)
Verdict s p now_ns (deleted r') = (r'.is_closed ≡ true) × (r'.session ≡ false)
Verdict s p now_ns (continued s' r') = ⊥

-- The verdict with the moves as a test.
abbrev Tested : TcpStreamSession → Packet → ℕ → Outcome → Type 0
Tested s p now_ns (returned s' r') =
    (moves s.state s'.state ≡ true) × (s'.key ≡ s.key) × (s'.last_seen_ns ≡ now_ns)
Tested s p now_ns (deleted r') = (r'.is_closed ≡ true) × (r'.session ≡ false)
Tested s p now_ns (continued s' r') = ⊥

Verdict-of_Tested :
    (s : TcpStreamSession) (p : Packet) (now_ns : ℕ) (o : Outcome)
    → Tested s p now_ns o
    → Verdict s p now_ns o
Verdict-of_Tested s p now_ns (returned s' r') (m, k, t) = (Moves-of_moves s.state s'.state m, k, t)
Verdict-of_Tested s p now_ns (deleted r') h = h
Verdict-of_Tested s p now_ns (continued s' r') h = h

module _ (heap : Allocator) (s : TcpStreamSession) (r : TcpAssemblyResult) (p : Packet)
    (now_ns : ℕ) where
  process_session-Tested : Tested s p now_ns (process_session heap s r p now_ns)
  unfolding process_session process_established process_fin
  process_session-Tested =
      let s₁ = record s { last_seen_ns = now_ns } in
      ground (
        arith,
        process_payload-Keeps heap s₁ r p,
        process_payload-Keeps heap (record s₁ { state = TcpState.established }) r p,
      )

  -- On a session of the table `process_packet` always returns. A session that it keeps has its key, the
  -- time of the packet, and a state reached by a move of the state machine; where it deletes the session
  -- the result says closed and names no session.
  pub process_session-Verdict : Verdict s p now_ns (process_session heap s r p now_ns)
  process_session-Verdict =
      Verdict-of_Tested s p now_ns (process_session heap s r p now_ns) process_session-Tested

  -- From a result that is not ready, payload goes up only from a packet with neither RST nor SYN,
  -- on a session that is established, or that waits for the ACK which the packet has.
  pub process_session-ready :
      (s' : TcpStreamSession) (r' : TcpAssemblyResult)
      → r.is_ready ≡ false
      → process_session heap s r p now_ns ≡ returned s' r'
      → r'.is_ready ≡ true
      → (has_flag p.flags th_rst ≡ false)
        × (has_flag p.flags th_syn ≡ false)
        × ((s.state ≡ TcpState.established)
            ⊎ (s.state ≡ TcpState.syn_sent) × (has_flag p.flags th_ack ≡ true))
  unfolding process_session process_established process_fin
  process_session-ready s' r' fresh e ready = ground arith

-- A gap that is filled while one packet is counted as waiting leaves the count at 0, though bytes that
-- the drain did not reach stay in the buffer: the next packet at `rcv_nxt` takes the fast path past them.
pub fill_gap_forgets :
    (heap : Allocator) (s : TcpStreamSession) (r : TcpAssemblyResult) (seq len : ℕ) (bytes : List ℕ)
    (b : Buffers) (d : ℕ)
    → s.out_of_order_count ≡ 1
    → init_bufferes heap s.buffers ≡ some b
    → conflicts b seq bytes len ≡ false
    → 0 < count_continuous_bytes s.rcv_nxt window_size (store b seq bytes len).bitmap
    → count_continuous_bytes s.rcv_nxt window_size (store b seq bytes len).bitmap ≤ d
    → d < window_size
    → bit (store b seq bytes len).bitmap ((s.rcv_nxt + d) % window_size) ≡ true
    → (s' : TcpStreamSession) × (r' : TcpAssemblyResult) × (b' : Buffers) × (fill_gap heap s r seq
          bytes len
        ≡ continued s' r')
      × (s'.out_of_order_count ≡ 0)
      × (s'.buffers ≡ some b')
      × (bit b'.bitmap ((s.rcv_nxt + d) % window_size) ≡ true)
unfolding fill_gap drain
fill_gap_forgets heap s r seq len bytes b d count e calm some_bytes beyond hd set =
    let stored = store b seq bytes len in
    let c = count_continuous_bytes s.rcv_nxt window_size stored.bitmap in
    let b' : Buffers = record stored { bitmap = clear_bitmap_range s.rcv_nxt c stored.bitmap } in
    let run = count_continuous_bytes-Counted s.rcv_nxt window_size stored.bitmap in
    let i = (s.rcv_nxt + d) % window_size in
    (
      record s { buffers = some b'; rcv_nxt = add32 s.rcv_nxt c; out_of_order_count = 0 },
      record r { payload = read_ring_buffer s.rcv_nxt c stored.ring; is_ready = true },
      b',
      ground arith,
      refl,
      refl,
      ground (arith, clear_bitmap_range_lem s.rcv_nxt c stored.bitmap i run.bounded),
    )
