-- ===== src/Tcp/Segment/Reassembly.antt =====
-- `process_payload` and its branches against the byte stream that the sender means.
use intrusion_detection.Base.{
  ℕ, ◌+◌, ◌-◌, ◌%◌, ◌≤◌, ◌<◌, ◌≡◌, refl, sym, ap, ◌∙◌, length, get_or, get_or-take, get_or-drop,
  length-take, length-drop, take, drop, List, [], some, true, arith, Option-cases, Bool-cases, inl,
  inr, ◌==◌, ◌&&◌,
}
use mathlib.Core.Path.{subst}
use mathlib.Core.Bool.{false≢true}
use mathlib.Core.Option.{some-injective}
use native.Mathlib.Decide.{dec_lt, ℕ_discrete}
use intrusion_detection.Tcp.Seq.{u32_mod, add32, gt}
use intrusion_detection.Tcp.Ring.{window_size, copy_out-ext}
use intrusion_detection.Tcp.Session.{
  Buffers, TcpStreamSession, TcpAssemblyResult, Packet, Allocator, init_bufferes,
}
use intrusion_detection.Tcp.Segment.{
  continued, conflicts, store, kill, buffer_ahead, drain, fill_gap, place, process_payload,
}
use intrusion_detection.Tcp.Segment.Window.{IsPacket, reach, process_payload-cases}
use intrusion_detection.Tcp.Segment.Stream.{
  Stream, IsBuffered, SkipsNone, Holds, Advances, Delivers, stays, store-IsBuffered, drain-Delivers,
  init-IsBuffered,
}

-- The packet's bytes, placed `d` bytes beyond `rcv_nxt`, are bytes of the stream.
module _ (stream : Stream) (n : ℕ) (s : TcpStreamSession) (r : TcpAssemblyResult) (cur_seq : ℕ)
    (payload : List ℕ) (len d : ℕ) (at : cur_seq ≡ add32 s.rcv_nxt d) (fits : d + len ≤ window_size)
    (enough : len ≤ length payload)
    (bytes : (k : ℕ) → k < len → get_or payload k 0 ≡ stream (n + d + k))
    (word : s.rcv_nxt < u32_mod) (empty : r.payload ≡ []) (held : Holds stream n s) where
  -- What the buffers hold when the packet's bytes are stored.
  stored-IsBuffered :
      (heap : Allocator) (b : Buffers)
      → init_bufferes heap s.buffers ≡ some b
      → IsBuffered stream n s.rcv_nxt (store b cur_seq payload len)
  stored-IsBuffered heap b e =
      store-IsBuffered stream n s.rcv_nxt b cur_seq payload len d at fits bytes
        (init-IsBuffered stream n s r heap b held e)

  buffer_ahead-Delivers :
      (heap : Allocator) → Delivers stream n s (buffer_ahead heap s r cur_seq payload len)
  unfolding buffer_ahead
  buffer_ahead-Delivers heap = elim (Option-cases (init_bufferes heap s.buffers)) [
    | inl failed ↦
        let out : buffer_ahead heap s r cur_seq payload len ≡ continued s r = ground arith in
        rw out (0, stays stream n s r s r word refl empty held)
    | inr (b, e) ↦ elim (Bool-cases (conflicts b cur_seq payload len)) [
      | inl clash ↦
          let out : buffer_ahead heap s r cur_seq payload len ≡ kill r = ground arith in
          rw out empty
      | inr fine ↦
          let s' : TcpStreamSession = record s {
            buffers = some (store b cur_seq payload len);
            out_of_order_count = (s.out_of_order_count + 1) % 65536;
          } in
          let out : buffer_ahead heap s r cur_seq payload len ≡ continued s' r = ground arith in
          rw out (
            0,
            stays stream n s r s' r word refl empty (λ b' eq.
                subst (IsBuffered stream n s.rcv_nxt) (some-injective _ _ eq)
                  (stored-IsBuffered heap b e)),
          )
    ]
  ]

  fill_gap-Delivers :
      (heap : Allocator) → Delivers stream n s (fill_gap heap s r cur_seq payload len)
  unfolding fill_gap
  fill_gap-Delivers heap = elim (Option-cases (init_bufferes heap s.buffers)) [
    | inl failed ↦
        let out : fill_gap heap s r cur_seq payload len ≡ continued s r = ground arith in
        rw out (0, stays stream n s r s r word refl empty held)
    | inr (b, e) ↦ elim (Bool-cases (conflicts b cur_seq payload len)) [
      | inl clash ↦
          let out : fill_gap heap s r cur_seq payload len ≡ kill r = ground arith in rw out empty
      | inr fine ↦
          let out : fill_gap heap s r cur_seq payload len
              ≡ drain s r (store b cur_seq payload len) =
            ground arith in
          rw out (
            drain-Delivers stream n s r (store b cur_seq payload len) word empty
              (stored-IsBuffered heap b e))
    ]
  ]

  fast_path-Advances :
      d ≡ 0
      → SkipsNone s len
      → s.out_of_order_count ≡ 0
      → Advances stream n len s
          (record s { rcv_nxt = add32 s.rcv_nxt len })
          (record r { payload = take len payload; is_ready = true })
  fast_path-Advances start skips count = (
    copy_out-ext stream n len _ (omega (arith, length-take {0} len payload))
        (λ j hj. get_or-take len payload j 0 hj ∙ bytes j hj ∙ ap stream (omega arith)),
    refl,
    λ b e k hk set. elim (dec_lt (len + k) window_size) [
      | yes near ↦
          let here : (add32 s.rcv_nxt len + k) % window_size
              ≡ (s.rcv_nxt + (len + k)) % window_size =
            omega arith in
          rw here (held b e (len + k) near (rw here at set) ∙ ap stream (omega arith))
      | no far ↦
          let here : (add32 s.rcv_nxt len + k) % window_size
              ≡ (s.rcv_nxt + (len + k - window_size)) % window_size =
            omega arith in
          let hidden = skips count b e (len + k - window_size) (omega arith) in
          absurd (false≢true (sym hidden ∙ (rw here at set)))
    ],
  )

  place-Delivers :
      (heap : Allocator)
      → (d ≡ 0 → SkipsNone s len)
      → Delivers stream n s (place heap s r cur_seq payload len)
  unfolding place
  place-Delivers heap skips =
      elim (Bool-cases (cur_seq == s.rcv_nxt && s.out_of_order_count == 0)) [
        | inl fast ↦
            rw fast (len, fast_path-Advances (ground arith) (skips (ground arith)) (ground arith))
        | inr slow ↦ elim (Bool-cases (gt cur_seq s.rcv_nxt)) [
          | inl ahead_of ↦ rw (slow, ahead_of) (buffer_ahead-Delivers heap)
          | inr filler ↦ rw (slow, filler) (fill_gap-Delivers heap)
        ]
      ]

-- Each byte of the payload whose sequence number is `j` beyond `rcv_nxt` is the byte of the stream
-- `j` behind the first `n`.
abbrev pub Carries : Stream → ℕ → TcpStreamSession → Packet → Type 0
Carries stream n s p =
    (k j : ℕ)
    → k < length p.payload
    → j < window_size
    → add32 p.seq k ≡ add32 s.rcv_nxt j
    → get_or p.payload k 0 ≡ stream (n + j)

-- Let the first `n` bytes of the sender's stream have gone up, the buffers hold bytes of the
-- stream, and the packet, with words for numbers and 1 to 65535 bytes, carry bytes of the stream,
-- in any order and overlapping as it may. If, while no packet is counted as waiting, the next
-- bytes up to the packet's end are not buffered, what the payload block puts up are the next bytes
-- of the stream, none lost and none twice, `rcv_nxt` moves by their number, and the buffers hold
-- bytes of the stream again; where the function returns early nothing goes up and the session is
-- as it was, and where it deletes the session nothing goes up.
pub process_payload-Delivers :
    (stream : Stream) (n : ℕ) (heap : Allocator) (s : TcpStreamSession) (r : TcpAssemblyResult)
    (p : Packet)
    → IsPacket s p
    → Holds stream n s
    → Carries stream n s p
    → SkipsNone s (reach s p)
    → r.payload ≡ []
    → Delivers stream n s (process_payload heap s r p)
process_payload-Delivers stream n heap s r p v held carries skips empty =
    let (duplicate, outside, within, overlap) = process_payload-cases heap s r p v in
    let len = length p.payload in
    elim (ℕ_discrete (reach s p) 0) [
      | yes e ↦ rw (duplicate e) (empty, refl)
      | no some_new ↦ elim (dec_lt window_size (reach s p)) [
        | yes far ↦ rw (outside far) (empty, refl)
        | no near ↦ elim (dec_lt (reach s p) len) [
          | yes over ↦ rw (overlap (omega arith) (omega arith) over) (
              place-Delivers stream n s r s.rcv_nxt (drop (len - reach s p) p.payload) (reach s p) 0
                (omega arith) (omega arith)
                (omega (arith, length-drop {0} (len - reach s p) p.payload))
                (λ k hk.
                  get_or-drop (len - reach s p) p.payload k 0
                  ∙ carries (k + (len - reach s p)) k (omega arith) (omega arith) (omega arith)
                  ∙ ap stream (omega arith))
                v.nxt_word empty held heap (λ _. skips))
          | no all ↦
              let d = reach s p - len in
              rw (within (omega arith) (omega arith) (omega arith)) (
                place-Delivers stream n s r p.seq p.payload len d (omega arith) (omega arith)
                  (omega arith)
                  (λ k hk.
                    carries k (d + k) hk (omega arith) (omega arith) ∙ ap stream (omega arith))
                  v.nxt_word empty held heap
                  (λ z. let e : reach s p ≡ len = omega arith in rw e at skips))
        ]
      ]
    ]
