-- ===== src/Pipeline/Complete.antt =====
-- When everything is sent.
use mathlib.Core.Path.{subst}
use intrusion_detection.Base.{
  ℕ, zero, suc, ◌*◌, ◌≤◌, ◌<◌, ◌≡◌, refl, ◌∙◌, inl, inr, Bool, true, false, List, [], ◌∷◌, length,
  take, drop, Bool-cases, List-cases, length-drop, arith, ap,
}
use intrusion_detection.Tcp.Seq.{add32}
use intrusion_detection.Tcp.Backend.{is_empty}
use intrusion_detection.Tcp.Session.{TcpStreamSession}
use intrusion_detection.Pipeline.{
  World, inject, mss, data_frame, send_chunks, send_tcp_segmented_data,
}
use intrusion_detection.Pipeline.Segments.{
  data_frame-segment, send_chunks_round, send_tcp_segmented_data_sent,
}

-- The next `n` requests are answered with a place.
abbrev pub HasRoom : ℕ → List Bool → Type 0
HasRoom zero ring = Unit
HasRoom (suc n) [] = ◌≡◌ {A = Bool} false true
HasRoom (suc n) (b ∷ ring) = (b ≡ true) × HasRoom n ring

inject-HasRoom :
    (s : TcpStreamSession) (w : World) (addr seq : ℕ) (chunk : List ℕ) (n : ℕ)
    → HasRoom (suc n) w.ring
    → let out = inject w addr (data_frame s seq chunk) in
      (out.0 ≡ true) × HasRoom n out.1.ring × (out.1.tx_pool ≡ w.tx_pool)
unfolding inject
inject-HasRoom s w addr seq chunk n h = elim (List-cases w.ring) [
  | inl e ↦ absurd (ground (arith, subst (HasRoom (suc n)) e h))
  | inr p ↦ ground (arith, data_frame-segment s seq chunk, subst (HasRoom (suc n)) p.1.1 h)
]

send_chunks-all_sent :
    (rounds : ℕ) (s : TcpStreamSession) (w : World) (seq : ℕ) (bytes : List ℕ) (n : ℕ)
    → n ≤ length w.tx_pool
    → HasRoom n w.ring
    → length bytes ≤ n * mss
    → (send_chunks rounds s w seq bytes).all_sent ≡ true
unfolding send_chunks
send_chunks-all_sent zero s w seq bytes n hp hr hl = refl
send_chunks-all_sent (suc rounds) s w seq bytes zero hp hr hl = ground arith
send_chunks-all_sent (suc rounds) s w seq bytes (suc n) hp hr hl =
    elim (Bool-cases (is_empty bytes)) [
      | inl e ↦ ground arith
      | inr e ↦ elim (List-cases w.tx_pool) [
        | inl p ↦ absurd (ground arith)
        | inr p ↦
            let v = record w { tx_pool = p.1.0 } in
            let r = inject-HasRoom s v p.0 seq (take mss bytes) n hr in
            ap (λ o. o.all_sent) (send_chunks_round rounds s w p.0 seq p.1.0 bytes e p.1.1 r.0)
            ∙ send_chunks-all_sent rounds s (inject v p.0 (data_frame s seq (take mss bytes))).1
                (add32 seq (length (take mss bytes))) (drop mss bytes) n
                (omega (arith, ap length p.1.1, ap length r.2)) r.1
                (omega (arith, length-drop mss bytes))
      ]
    ]

-- Where the pool has `n` buffers, the next `n` requests for a place on the ring are granted, and the
-- bytes are at least one and fit into `n` segments of 1460, `send_tcp_segmented_data` sends them all
-- and returns `true`.
pub send_tcp_segmented_data-all_sent :
    (s : TcpStreamSession) (w : World) (bytes : List ℕ) (n : ℕ)
    → 0 < length bytes
    → n ≤ length w.tx_pool
    → HasRoom n w.ring
    → length bytes ≤ n * mss
    → (send_tcp_segmented_data s w bytes).0 ≡ true
send_tcp_segmented_data-all_sent s w bytes n h hp hr hl =
    ap (λ o. o.0) (send_tcp_segmented_data_sent s w bytes h)
    ∙ send_chunks-all_sent (length bytes) s w s.flow.send_nxt bytes n hp hr hl
