-- ===== src/Tcp/Segment.antt =====
-- `process_packet` on a session that is in the table: what it does with the flags and the payload.
pub mod Window
pub mod Stream
pub mod Reassembly
pub mod States
pub mod Flows
use intrusion_detection.Base.{
  ℕ, ◌+◌, ◌-◌, ◌%◌, Bool, true, false, ◌&&◌, not, ltb, ◌==◌, List, [], ◌∷◌, length, take, drop,
  Option, none, some, min, if◌then◌else◌,
}
use intrusion_detection.Tcp.Seq.{u32_mod, add32, diff, lt, lte, gt}
use intrusion_detection.Tcp.Ring.{window_size, write_ring_buffer, read_ring_buffer}
use intrusion_detection.Tcp.Bitmap.{
  set_bitmap_range, clear_bitmap_range, is_range_set, count_continuous_bytes,
}
use intrusion_detection.Tcp.Session.{
  TcpState, is_state, Buffers, TcpStreamSession, TcpAssemblyResult, Packet, has_flag, th_fin,
  th_syn, th_rst, th_ack, Allocator, init_bufferes,
}

-- How a part of `process_packet` ends: the function returns and keeps the session; it returns with
-- the session deleted and out of the table; or it goes on behind the part.
pub data Outcome : Type 0 where
  returned : TcpStreamSession → TcpAssemblyResult → Outcome
  deleted : TcpAssemblyResult → Outcome
  continued : TcpStreamSession → TcpAssemblyResult → Outcome

-- `memcmp(a, b, n) == 0`, for lists of `n` bytes.
abbrev pub same_bytes : List ℕ → List ℕ → Bool
same_bytes [] [] = true
same_bytes (x ∷ xs) (y ∷ ys) = x == y && same_bytes xs ys
same_bytes _ _ = false

-- The test for other bytes under a range that is buffered in part: at most 1500 of them.
unfoldable pub conflicts : Buffers → ℕ → List ℕ → ℕ → Bool
conflicts b cur_seq cur_payload cur_len =
    let check_len = if ltb cur_len 1500 then cur_len else 1500 in
    if is_range_set cur_seq cur_len b.bitmap
    then not (same_bytes (read_ring_buffer cur_seq check_len b.ring) (take check_len cur_payload))
    else false

-- `write_ring_buffer` and `set_bitmap_range`.
unfoldable pub store : Buffers → ℕ → List ℕ → ℕ → Buffers
store b cur_seq cur_payload cur_len = record {
  ring = write_ring_buffer cur_seq cur_payload cur_len b.ring;
  bitmap = set_bitmap_range cur_seq cur_len b.bitmap;
}

abbrev pub kill : TcpAssemblyResult → Outcome
kill r = deleted (record r { is_closed = true; session = false })

-- The branch of a packet beyond `rcv_nxt`.
unfoldable pub buffer_ahead :
    Allocator → TcpStreamSession → TcpAssemblyResult → ℕ → List ℕ → ℕ → Outcome
buffer_ahead heap s r cur_seq cur_payload cur_len = elim (init_bufferes heap s.buffers) [
  | none ↦ continued s r
  | some b ↦
      if conflicts b cur_seq cur_payload cur_len
      then kill r
      else continued
          (record s {
            buffers = some (store b cur_seq cur_payload cur_len);
            out_of_order_count = (s.out_of_order_count + 1) % 65536;
          })
          r
]

-- The drain of all bytes that now follow on `rcv_nxt`.
unfoldable pub drain : TcpStreamSession → TcpAssemblyResult → Buffers → Outcome
drain s r b =
    let contiguous = count_continuous_bytes s.rcv_nxt window_size b.bitmap in
    if ltb 0 contiguous
    then continued
        (record s {
          buffers = some (record b { bitmap = clear_bitmap_range s.rcv_nxt contiguous b.bitmap });
          rcv_nxt = add32 s.rcv_nxt contiguous;
          out_of_order_count =
              if ltb 0 s.out_of_order_count then s.out_of_order_count - 1 else s.out_of_order_count;
        })
        (record r { payload = read_ring_buffer s.rcv_nxt contiguous b.ring; is_ready = true })
    else continued (record s { buffers = some b }) r

-- The branch of a packet at `rcv_nxt` while others wait.
unfoldable pub fill_gap :
    Allocator → TcpStreamSession → TcpAssemblyResult → ℕ → List ℕ → ℕ → Outcome
fill_gap heap s r cur_seq cur_payload cur_len = elim (init_bufferes heap s.buffers) [
  | none ↦ continued s r
  | some b ↦
      if conflicts b cur_seq cur_payload cur_len
      then kill r
      else drain s r (store b cur_seq cur_payload cur_len)
]

-- The branches on where the trimmed packet starts.
unfoldable pub place : Allocator → TcpStreamSession → TcpAssemblyResult → ℕ → List ℕ → ℕ → Outcome
place heap s r cur_seq cur_payload cur_len =
    if cur_seq == s.rcv_nxt && s.out_of_order_count == 0
    then continued (record s { rcv_nxt = add32 s.rcv_nxt cur_len })
        (record r { payload = take cur_len cur_payload; is_ready = true })
    else if gt cur_seq s.rcv_nxt
    then buffer_ahead heap s r cur_seq cur_payload cur_len
    else fill_gap heap s r cur_seq cur_payload cur_len

-- `cur_len -= trim` on a `uint16_t`.
abbrev pub trimmed_len : ℕ → ℕ → ℕ
trimmed_len cur_len trim = (cur_len + u32_mod - trim) % 65536

-- The block under `if (payload_len > 0)`.
unfoldable pub process_payload : Allocator → TcpStreamSession → TcpAssemblyResult → Packet → Outcome
process_payload heap s r p =
    let len = length p.payload in
    let trim = diff s.rcv_nxt p.seq in
    if ltb window_size (add32 (diff p.seq s.rcv_nxt) len)
    then returned s r
    else if lte (add32 p.seq len) s.rcv_nxt
    then returned s (record r { need_ack = true })
    else if lt p.seq s.rcv_nxt
    then place heap s r s.rcv_nxt (drop trim p.payload) (trimmed_len len trim)
    else place heap s r p.seq p.payload len

-- The end of `process_packet`: a FIN closes the session, and deletes it unless data go up with it.
unfoldable pub process_fin : TcpStreamSession → TcpAssemblyResult → Packet → Outcome
process_fin s r p =
    let s' = record s { rcv_nxt = add32 s.rcv_nxt 1; state = TcpState.closing } in
    if has_flag p.flags th_fin
    then if length r.payload == 0
      then deleted (record r { is_closed = true; session = false })
      else returned s' (record r { is_closed = true })
    else returned s r

abbrev pub then_fin : Packet → Outcome → Outcome
then_fin p (continued s r) = process_fin s r p
then_fin p o = o

-- From the state check on.
unfoldable pub process_established :
    Allocator → TcpStreamSession → TcpAssemblyResult → Packet → Outcome
process_established heap s r p =
    if is_state s.state TcpState.established
    then if ltb 0 (length p.payload)
      then then_fin p (process_payload heap s r p)
      else process_fin s r p
    else returned s r

-- `process_packet` from the lookup on, where it finds a session.
unfoldable pub process_session :
    Allocator → TcpStreamSession → TcpAssemblyResult → Packet → ℕ → Outcome
process_session heap s r p now_ns =
    let s₁ = record s { last_seen_ns = now_ns } in
    if has_flag p.flags th_rst
    then kill r
    else if has_flag p.flags th_syn
    then returned s₁ (record r { is_syn = true })
    else if is_state s.state TcpState.syn_sent
    then if has_flag p.flags th_ack
      then process_established heap (record s₁ { state = TcpState.established }) r p
      else returned s₁ r
    else process_established heap s₁ r p
