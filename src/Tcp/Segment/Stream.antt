-- ===== src/Tcp/Segment/Stream.antt =====
-- The byte stream that the sender means, and what the buffers hold of it.
use intrusion_detection.Base.{
  ℕ, ◌+◌, ◌-◌, ◌%◌, ◌≤◌, ◌<◌, ◌≡◌, refl, ap, ◌∙◌, get_or, List, [], some, true, false, arith,
  Option-cases, Bool-cases, inl, inr, ltb,
}
use mathlib.Core.Path.{subst}
use native.Mathlib.Nat.{add-zero}
use mathlib.Core.Option.{some-injective}
use intrusion_detection.Tcp.Seq.{u32_mod, add32}
use intrusion_detection.Tcp.Ring.{
  window_size, ahead, copy_out, copy_out-ext, write_ring_buffer_lem, read_ring_buffer,
  read_ring_buffer_lem, length-read_ring_buffer,
}
use intrusion_detection.Tcp.Bitmap.{bit, clear_bitmap_range, count_continuous_bytes}
use intrusion_detection.Tcp.Bitmap.Range.{set_bitmap_range_lem, clear_bitmap_range_lem}
use intrusion_detection.Tcp.Bitmap.Count.{count_continuous_bytes-Counted, Counted}
use intrusion_detection.Tcp.Session.{
  Buffers, TcpStreamSession, TcpAssemblyResult, Allocator, init_bufferes,
}
use intrusion_detection.Tcp.Segment.{Outcome, returned, deleted, continued, store, drain}

-- The byte stream of the sender: its byte at each offset.
abbrev pub Stream : Type 0
Stream = ℕ → ℕ

-- With the first `n` bytes gone up, each buffered byte is the byte of the stream at its distance from
-- `rcv_nxt`.
abbrev pub IsBuffered : Stream → ℕ → ℕ → Buffers → Type 0
IsBuffered stream n rcv_nxt b =
    (d : ℕ)
    → d < window_size
    → bit b.bitmap ((rcv_nxt + d) % window_size) ≡ true
    → b.ring ((rcv_nxt + d) % window_size) ≡ stream (n + d)

module _ (stream : Stream) (n rcv_nxt : ℕ) where
  -- Bytes of the stream, stored at their sequence number, are buffered as such.
  pub store-IsBuffered :
      (b : Buffers) (cur_seq : ℕ) (payload : List ℕ) (len d : ℕ)
      → cur_seq ≡ add32 rcv_nxt d
      → d + len ≤ window_size
      → ((k : ℕ) → k < len → get_or payload k 0 ≡ stream (n + d + k))
      → IsBuffered stream n rcv_nxt b
      → IsBuffered stream n rcv_nxt (store b cur_seq payload len)
  unfolding store
  store-IsBuffered b cur_seq payload len d e fits bytes held k hk set =
      let i = (rcv_nxt + k) % window_size in
      elim (Bool-cases (ltb (ahead cur_seq i) len)) [
        | inl new ↦
            let at : ahead cur_seq i ≡ k - d = ground arith in
            let sum : n + d + (k - d) ≡ n + k = ground arith in
            ground (
              arith,
              write_ring_buffer_lem cur_seq payload len b.ring i,
              ap (λ t. get_or payload t 0) at,
              bytes (k - d),
              ap stream sum,
            )
        | inr old ↦ ground (
          arith,
          write_ring_buffer_lem cur_seq payload len b.ring i,
          set_bitmap_range_lem cur_seq len b.bitmap i,
          held k,
        )
      ]

-- The fast path passes over no buffered byte: while the count is 0, the next `m` bytes beyond
-- `rcv_nxt` are not buffered.
abbrev pub SkipsNone : TcpStreamSession → ℕ → Type 0
SkipsNone s m =
    s.out_of_order_count ≡ 0
    → (b : Buffers) → s.buffers ≡ some b
    → (d : ℕ) → d < m
    → bit b.bitmap ((s.rcv_nxt + d) % window_size) ≡ false

-- What an outcome owes the stream: nothing goes up where the function returns early or deletes the
-- session; otherwise the next `m` bytes go up, `rcv_nxt` moves by `m`, and what is buffered is right.
module _ (stream : Stream) (n : ℕ) where
  abbrev pub Holds : TcpStreamSession → Type 0
  Holds s = (b : Buffers) → s.buffers ≡ some b → IsBuffered stream n s.rcv_nxt b

-- The next `m` bytes of the stream go up, and `rcv_nxt` moves by `m`.
abbrev pub Advances :
    Stream → ℕ → ℕ → TcpStreamSession → TcpStreamSession → TcpAssemblyResult → Type 0
Advances stream n m s s' r' =
    (r'.payload ≡ copy_out stream n m) × (s'.rcv_nxt ≡ add32 s.rcv_nxt m) × Holds stream (n + m) s'

abbrev pub Delivers : Stream → ℕ → TcpStreamSession → Outcome → Type 0
Delivers stream n s (returned s' r') = (r'.payload ≡ []) × (s' ≡ s)
Delivers stream n s (deleted r') = r'.payload ≡ []
Delivers stream n s (continued s' r') = (m : ℕ) × Advances stream n m s s' r'

module _ (stream : Stream) (n : ℕ) (s : TcpStreamSession) (r : TcpAssemblyResult) where
  -- Nothing goes up, and `rcv_nxt` stays.
  pub stays :
      (s' : TcpStreamSession) (r' : TcpAssemblyResult)
      → s.rcv_nxt < u32_mod
      → s'.rcv_nxt ≡ s.rcv_nxt
      → r'.payload ≡ []
      → Holds stream n s'
      → Advances stream n 0 s s' r'
  unfolding copy_out
  stays s' r' word same empty held = (empty, omega arith, rw add-zero held)

  -- The bytes that a drain reads are bytes of the stream, and clearing them keeps the rest right.
  drain_read :
      (b : Buffers) (c : ℕ)
      → Counted s.rcv_nxt 0 window_size b.bitmap c
      → IsBuffered stream n s.rcv_nxt b
      → read_ring_buffer s.rcv_nxt c b.ring ≡ copy_out stream n c
  drain_read b c run held =
      copy_out-ext stream n c _ (length-read_ring_buffer s.rcv_nxt c b.ring run.bounded) (λ j hj.
        read_ring_buffer_lem s.rcv_nxt c b.ring j hj run.bounded
        ∙ held j (omega (arith, run.bounded)) (run.all_set j (omega arith) hj))

  drain_rest :
      (b : Buffers) (c : ℕ)
      → c ≤ window_size
      → IsBuffered stream n s.rcv_nxt b
      → IsBuffered stream
          (n + c)
          (add32 s.rcv_nxt c)
          (record b { bitmap = clear_bitmap_range s.rcv_nxt c b.bitmap })
  drain_rest b c fits held d hd set =
      let i = (add32 s.rcv_nxt c + d) % window_size in
      let kept = clear_bitmap_range_lem s.rcv_nxt c b.bitmap i fits (omega arith) in
      let far : c ≤ ahead s.rcv_nxt i = ground arith in
      let here : i ≡ (s.rcv_nxt + (c + d)) % window_size = omega arith in
      let old : bit b.bitmap ((s.rcv_nxt + (c + d)) % window_size) ≡ true =
        ground (arith, ap (bit b.bitmap) here) in
      rw here (held (c + d) (omega arith) old ∙ ap stream (omega arith))

  pub drain-Delivers :
      (b : Buffers)
      → s.rcv_nxt < u32_mod
      → r.payload ≡ []
      → IsBuffered stream n s.rcv_nxt b
      → Delivers stream n s (drain s r b)
  unfolding drain
  drain-Delivers b word empty held =
      let c = count_continuous_bytes s.rcv_nxt window_size b.bitmap in
      let run = count_continuous_bytes-Counted s.rcv_nxt window_size b.bitmap in
      elim (Bool-cases (ltb 0 c)) [
        | inl some_bytes ↦ rw some_bytes (
          c,
          (
            drain_read b c run held,
            refl,
            λ b' e.
                subst (IsBuffered stream (n + c) (add32 s.rcv_nxt c)) (some-injective _ _ e)
                  (drain_rest b c run.bounded held),
          ),
        )
        | inr no_bytes ↦ rw no_bytes (
          0,
          stays (record s { buffers = some b }) r word refl empty
              (λ b' e. subst (IsBuffered stream n s.rcv_nxt) (some-injective _ _ e) held),
        )
      ]

  -- A new bitmap has no bit set.
  pub init-IsBuffered :
      (heap : Allocator) (b : Buffers)
      → Holds stream n s
      → init_bufferes heap s.buffers ≡ some b
      → IsBuffered stream n s.rcv_nxt b
  unfolding init_bufferes
  init-IsBuffered heap b held e = elim (Option-cases s.buffers) [
    | inl nothing ↦ λ d hd set. absurd (ground arith)
    | inr (old, eq) ↦ held b (eq ∙ (rw eq at e))
  ]
