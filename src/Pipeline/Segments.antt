-- ===== src/Pipeline/Segments.antt =====
-- How data is cut into segments and sent.
use mathlib.Core.Path.{subst}
use intrusion_detection.Base.{
  ℕ, zero, suc, ◌+◌, ◌*◌, ◌%◌, ◌^◌, ◌≤◌, ◌<◌, ◌≡◌, refl, ap, sym, ◌⊎◌, inl, inr, Bool, true, false,
  List, [], ◌∷◌, ◌++◌, length, take, drop, none, some, Bool-cases, length-take, length-drop,
  append-nil, append_assoc, List-cases, ◌==◌, arith,
}
use intrusion_detection.Tcp.Seq.{add32}
use intrusion_detection.Tcp.Backend.{recv_window, is_empty}
use intrusion_detection.Tcp.Session.{TcpStreamSession}
use intrusion_detection.Net.Injector.{TxDesc, ipv4_send_tcp_data, build_frame, data_fields}
use intrusion_detection.Pipeline.{
  Sent, World, inject, mss, ends_of, data_frame, Segmented, send_chunks, send_tcp_segmented_data,
}

-- The frame of one segment.
unfoldable pub segment : TcpStreamSession → ℕ → List ℕ → TxDesc
segment s seq chunk = record {
  frame =
      build_frame (ends_of s) (data_fields seq s.rcv_nxt chunk (recv_window s.flow.backend)) chunk;
  len = 54 + length chunk;
}

pub data_frame-segment :
    (s : TcpStreamSession) (seq : ℕ) (chunk : List ℕ)
    → (data_frame s seq chunk true ≡ some (segment s seq chunk))
      × (data_frame s seq chunk false ≡ none)
unfolding data_frame segment ipv4_send_tcp_data
data_frame-segment s seq chunk = (refl, refl)

-- The first `k` segments of the bytes, in the buffers of the pool, one behind the other.
abbrev pub segments : TcpStreamSession → ℕ → List ℕ → ℕ → List ℕ → List Sent
segments s zero pool seq bytes = []
segments s (suc k) [] seq bytes = []
segments s (suc k) (addr ∷ pool) seq bytes =
    record { addr = addr; desc = segment s seq (take mss bytes) }
    ∷ segments s k pool (add32 seq (length (take mss bytes))) (drop mss bytes)

inject_cases :
    (s : TcpStreamSession) (w : World) (addr seq : ℕ) (chunk : List ℕ)
    → let out = inject w addr (data_frame s seq chunk) in
      (out.1.tx_pool ≡ w.tx_pool)
      × (((out.0 ≡ false) × (out.1.frames ≡ w.frames))
          ⊎ ((out.0 ≡ true)
              × (out.1.frames
                  ≡ w.frames ++ (record { addr = addr; desc = segment s seq chunk } ∷ []))))
unfolding inject
inject_cases s w addr seq chunk = ground (arith, data_frame-segment s seq chunk)

-- What a run of the loop comes to: for some number of segments, these segments are on the ring, their
-- buffers are out of the pool, `send_nxt` is moved by their bytes, and everything is sent exactly
-- where no byte is left.
abbrev pub IsSegmented : TcpStreamSession → World → ℕ → List ℕ → Segmented → ℕ → Type 0
IsSegmented s w seq bytes out k =
    (out.world.frames ≡ w.frames ++ segments s k w.tx_pool seq bytes)
    × (out.world.tx_pool ≡ drop k w.tx_pool)
    × (out.send_nxt ≡ (seq + length (take (k * mss) bytes)) % 2 ^ 32)
    × (out.all_sent ≡ is_empty (drop (k * mss) bytes))
    × (k ≤ length w.tx_pool)

length-take_chunk :
    (k : ℕ) (bytes : List ℕ)
    → length (take (suc k * mss) bytes)
      ≡ length (take mss bytes) + length (take (k * mss) (drop mss bytes))
length-take_chunk k bytes = omega (
  arith,
  length-take (suc k * mss) bytes,
  length-take mss bytes,
  length-take (k * mss) (drop mss bytes),
  length-drop mss bytes,
)

is_empty-drop_chunk :
    (k : ℕ) (bytes : List ℕ)
    → is_empty (drop (suc k * mss) bytes) ≡ is_empty (drop (k * mss) (drop mss bytes))
is_empty-drop_chunk k bytes =
    ap (λ n. n == 0)
      (omega (
        arith,
        length-drop (suc k * mss) bytes,
        length-drop mss bytes,
        length-drop (k * mss) (drop mss bytes),
      ))

-- One round that sends, and then a run from there.
IsSegmented-suc :
    (s : TcpStreamSession) (w v : World) (addr seq : ℕ) (pool bytes : List ℕ) (out : Segmented)
    (k : ℕ)
    → w.tx_pool ≡ addr ∷ pool
    → v.tx_pool ≡ pool
    → v.frames ≡ w.frames ++ (record { addr = addr; desc = segment s seq (take mss bytes) } ∷ [])
    → IsSegmented s v (add32 seq (length (take mss bytes))) (drop mss bytes) out k
    → IsSegmented s w seq bytes out (suc k)
IsSegmented-suc s w v addr seq pool bytes out k ew ev ef h = ground (
  arith,
  length-take_chunk k bytes,
  is_empty-drop_chunk k bytes,
  append_assoc w.frames (record { addr = addr; desc = segment s seq (take mss bytes) } ∷ [])
      (segments s k pool (add32 seq (length (take mss bytes))) (drop mss bytes)),
)

IsSegmented-zero :
    (s : TcpStreamSession) (w v : World) (seq : ℕ) (bytes : List ℕ) (b : Bool)
    → seq < 2 ^ 32
    → v.frames ≡ w.frames
    → v.tx_pool ≡ w.tx_pool
    → b ≡ is_empty bytes
    → IsSegmented s w seq bytes (record { all_sent = b; world = v; send_nxt = seq }) 0
IsSegmented-zero s w v seq bytes b hs ef ep eb = ground (arith, append-nil w.frames)

pub send_chunks_round :
    (rounds : ℕ) (s : TcpStreamSession) (w : World) (addr seq : ℕ) (pool bytes : List ℕ)
    → is_empty bytes ≡ false
    → w.tx_pool ≡ addr ∷ pool
    → let out = inject (record w { tx_pool = pool }) addr (data_frame s seq (take mss bytes)) in
      out.0 ≡ true
      → send_chunks (suc rounds) s w seq bytes
        ≡ send_chunks rounds s out.1 (add32 seq (length (take mss bytes))) (drop mss bytes)
unfolding send_chunks
send_chunks_round rounds s w addr seq pool bytes hb hp h = rw (hb, hp, h) refl

send_chunks-IsSegmented :
    (rounds : ℕ) (s : TcpStreamSession) (w : World) (seq : ℕ) (bytes : List ℕ)
    → length bytes ≤ rounds
    → seq < 2 ^ 32
    → (k : ℕ) × IsSegmented s w seq bytes (send_chunks rounds s w seq bytes) k
unfolding send_chunks
send_chunks-IsSegmented zero s w seq bytes h hs =
    (0, IsSegmented-zero s w w seq bytes true hs refl refl (ground arith))
send_chunks-IsSegmented (suc rounds) s w seq bytes h hs = elim (Bool-cases (is_empty bytes)) [
  | inl e ↦ (0, ground (arith, IsSegmented-zero s w w seq bytes true hs refl refl (sym e)))
  | inr n ↦ elim (List-cases w.tx_pool) [
    | inl e ↦ (0, ground (arith, IsSegmented-zero s w w seq bytes false hs refl refl (sym n)))
    | inr p ↦
        let v = record w { tx_pool = p.1.0 } in
        let c = inject_cases s v p.0 seq (take mss bytes) in
        let out = inject v p.0 (data_frame s seq (take mss bytes)) in
        let rest =
          send_chunks-IsSegmented rounds s out.1 (add32 seq (length (take mss bytes)))
            (drop mss bytes) (omega (arith, length-drop mss bytes)) (omega arith) in
        elim c.1 [
          | inl r ↦ (
            0,
            ground (
              arith,
              IsSegmented-zero s w (record out.1 { tx_pool = p.0 ∷ p.1.0 }) seq bytes false hs,
            ),
          )
          | inr r ↦ (
            suc rest.0,
            subst (λ o. IsSegmented s w seq bytes o (suc rest.0))
                (sym (send_chunks_round rounds s w p.0 seq p.1.0 bytes n p.1.1 r.0))
                (IsSegmented-suc s w out.1 p.0 seq p.1.0 bytes
                  (send_chunks rounds s out.1 (add32 seq (length (take mss bytes)))
                    (drop mss bytes))
                  rest.0 p.1.1 c.0 r.1 rest.1),
          )
        ]
  ]
]

pub send_tcp_segmented_data_sent :
    (s : TcpStreamSession) (w : World) (bytes : List ℕ)
    → 0 < length bytes
    → let out = send_chunks (length bytes) s w s.flow.send_nxt bytes in
      send_tcp_segmented_data s w bytes
      ≡ (out.all_sent, out.world, record s { flow = record s.flow { send_nxt = out.send_nxt } })
unfolding send_tcp_segmented_data
send_tcp_segmented_data_sent s w bytes h = ground arith

-- What `send_tcp_segmented_data` returns and leaves, in the terms of its loop.
abbrev pub outcome : Bool × World × TcpStreamSession → Segmented
outcome out = record { all_sent = out.0; world = out.1; send_nxt = out.2.flow.send_nxt }

-- `send_tcp_segmented_data` on a session whose `send_nxt` is a 32-bit word and on at least one byte:
-- for some number k of segments, the ring gets k more frames, which carry the first k * 1460 bytes
-- in chunks of 1460 with the sequence numbers that follow, each in the next buffer of the pool;
-- exactly these buffers leave the pool; `send_nxt` advances by the bytes sent; and it returns `true`
-- exactly where no byte is left.
pub send_tcp_segmented_data-IsSegmented :
    (s : TcpStreamSession) (w : World) (bytes : List ℕ)
    → 0 < length bytes
    → s.flow.send_nxt < 2 ^ 32
    → (k : ℕ) × IsSegmented s w s.flow.send_nxt bytes
        (outcome (send_tcp_segmented_data s w bytes))
        k
send_tcp_segmented_data-IsSegmented s w bytes h hs =
    subst (λ o. (k : ℕ) × IsSegmented s w s.flow.send_nxt bytes (outcome o) k)
      (sym (send_tcp_segmented_data_sent s w bytes h))
      (send_chunks-IsSegmented (length bytes) s w s.flow.send_nxt bytes (omega arith) hs)
