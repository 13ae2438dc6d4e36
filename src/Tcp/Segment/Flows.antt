-- ===== src/Tcp/Segment/Flows.antt =====
-- The reassembly of a session leaves the pipeline's fields of the session alone.
use mathlib.Core.Path.{subst}
use intrusion_detection.Base.{ℕ, ◌≡◌, List, length, drop, arith, Option-cases, inl, inr}
use intrusion_detection.Tcp.Seq.{diff}
use intrusion_detection.Tcp.Session.{
  TcpState, Buffers, Flow, TcpStreamSession, TcpAssemblyResult, Packet, Allocator, init_bufferes,
}
use intrusion_detection.Tcp.Segment.{
  Outcome, returned, deleted, continued, buffer_ahead, drain, fill_gap, place, process_payload,
  process_fin, then_fin, process_established, process_session, store, trimmed_len,
}

abbrev pub KeepsFlow : Flow → Outcome → Type 0
KeepsFlow flow (returned s r) = s.flow ≡ flow
KeepsFlow flow (deleted r) = Unit
KeepsFlow flow (continued s r) = s.flow ≡ flow

buffer_ahead-KeepsFlow :
    (heap : Allocator) (s : TcpStreamSession) (r : TcpAssemblyResult) (seq : ℕ) (payload : List ℕ)
    (len : ℕ)
    → KeepsFlow s.flow (buffer_ahead heap s r seq payload len)
unfolding buffer_ahead
buffer_ahead-KeepsFlow heap s r seq payload len =
    ground (arith, Option-cases (init_bufferes heap s.buffers))

drain-KeepsFlow :
    (s : TcpStreamSession) (r : TcpAssemblyResult) (b : Buffers) → KeepsFlow s.flow (drain s r b)
unfolding drain
drain-KeepsFlow s r b = ground arith

fill_gap-KeepsFlow :
    (heap : Allocator) (s : TcpStreamSession) (r : TcpAssemblyResult) (seq : ℕ) (payload : List ℕ)
    (len : ℕ)
    → KeepsFlow s.flow (fill_gap heap s r seq payload len)
unfolding fill_gap
fill_gap-KeepsFlow heap s r seq payload len = elim (Option-cases (init_bufferes heap s.buffers)) [
  | inl e ↦ ground arith
  | inr (b, e) ↦ ground (arith, drain-KeepsFlow s r (store b seq payload len))
]

place-KeepsFlow :
    (heap : Allocator) (s : TcpStreamSession) (r : TcpAssemblyResult) (seq : ℕ) (payload : List ℕ)
    (len : ℕ)
    → KeepsFlow s.flow (place heap s r seq payload len)
unfolding place
place-KeepsFlow heap s r seq payload len = ground (
  arith,
  buffer_ahead-KeepsFlow heap s r seq payload len,
  fill_gap-KeepsFlow heap s r seq payload len,
)

process_payload-KeepsFlow :
    (heap : Allocator) (s : TcpStreamSession) (r : TcpAssemblyResult) (p : Packet)
    → KeepsFlow s.flow (process_payload heap s r p)
unfolding process_payload
process_payload-KeepsFlow heap s r p = ground (
  arith,
  place-KeepsFlow heap s r s.rcv_nxt (drop (diff s.rcv_nxt p.seq) p.payload)
      (trimmed_len (length p.payload) (diff s.rcv_nxt p.seq)),
  place-KeepsFlow heap s r p.seq p.payload (length p.payload),
)

process_fin-KeepsFlow :
    (s : TcpStreamSession) (r : TcpAssemblyResult) (p : Packet)
    → KeepsFlow s.flow (process_fin s r p)
unfolding process_fin
process_fin-KeepsFlow s r p = ground arith

then_fin-KeepsFlow :
    (flow : Flow) (p : Packet) (o : Outcome) → KeepsFlow flow o → KeepsFlow flow (then_fin p o)
then_fin-KeepsFlow flow p (returned s r) h = h
then_fin-KeepsFlow flow p (deleted r) h = h
then_fin-KeepsFlow flow p (continued s r) h =
    subst (λ x. KeepsFlow x (process_fin s r p)) h (process_fin-KeepsFlow s r p)

process_established-KeepsFlow :
    (heap : Allocator) (s : TcpStreamSession) (r : TcpAssemblyResult) (p : Packet)
    → KeepsFlow s.flow (process_established heap s r p)
unfolding process_established
process_established-KeepsFlow heap s r p = ground (
  arith,
  process_fin-KeepsFlow s r p,
  then_fin-KeepsFlow s.flow p (process_payload heap s r p) (process_payload-KeepsFlow heap s r p),
)

pub process_session-KeepsFlow :
    (heap : Allocator) (s : TcpStreamSession) (r : TcpAssemblyResult) (p : Packet) (now_ns : ℕ)
    → KeepsFlow s.flow (process_session heap s r p now_ns)
unfolding process_session
process_session-KeepsFlow heap s r p now_ns = ground (
  arith,
  process_established-KeepsFlow heap (record s { last_seen_ns = now_ns }) r p,
  process_established-KeepsFlow heap
      (record s { last_seen_ns = now_ns; state = TcpState.established }) r p,
)
