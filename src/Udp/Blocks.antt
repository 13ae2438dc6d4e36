-- ===== src/Udp/Blocks.antt =====
-- What the loop of `add_fragment` over the blocks writes.
use intrusion_detection.Base.{
  ℕ, zero, suc, ◌+◌, ◌-◌, ◌*◌, ◌/◌, ◌%◌, ◌≤◌, ◌<◌, ◌≡◌, ap, ◌∙◌, not, ◌&&◌, ◌||◌, ltb, leb, ◌==◌,
  List, get_or, get_or-drop, if◌then◌else◌, arith, Bool-cases, inl, inr,
}
use intrusion_detection.Udp.{ReassemblySession, is_block_written, copy_block, copy_blocks}

module _ (offset : ℕ) (payload : List ℕ) (len : ℕ) (aligned : offset % 8 ≡ 0) where
  written-copy_block :
      (b q : ℕ) (s : ReassemblySession)
      → is_block_written (copy_block offset payload len b s).block_bitmap q
        ≡ (is_block_written s.block_bitmap q || q == b)
  written-copy_block b q s = ground arith

  buffer-copy_block :
      (b i : ℕ) (s : ReassemblySession)
      → offset ≤ b * 8
      → b * 8 < offset + len
      → (copy_block offset payload len b s).buffer i ≡ (
          if not (is_block_written s.block_bitmap b) && (i / 8 == b && ltb i (offset + len))
          then get_or payload (i - offset) 0
          else s.buffer i)
  buffer-copy_block b i s low high = elim (Bool-cases (i / 8 == b)) [
    | inl here ↦
        let back : i / 8 ≡ b = ground arith in
        elim (Bool-cases (ltb i (offset + len))) [
          | inl inside ↦
              let at : i - b * 8 + (b * 8 - offset) ≡ i - offset = ground arith in
              ground (
                arith,
                get_or-drop (b * 8 - offset) payload (i - b * 8) 0,
                ap (λ k. get_or payload k 0) at,
              )
          | inr outside ↦ ground arith
        ]
    | inr other ↦ ground arith
  ]

  -- After the loop exactly the blocks of its range are written too.
  pub written-copy_blocks :
      (rounds b q : ℕ) (s : ReassemblySession)
      → is_block_written (copy_blocks rounds offset payload len b s).block_bitmap q
        ≡ (is_block_written s.block_bitmap q || leb b q && ltb q (b + rounds))
  unfolding copy_blocks
  written-copy_blocks zero b q s = ground arith
  written-copy_blocks (suc rounds) b q s =
      let s' = copy_block offset payload len b s in
      written-copy_blocks rounds (b + 1) q s' ∙ ground (arith, written-copy_block b q s)

  -- A byte of the range is the payload's if its block was not written before; any other byte stays.
  pub buffer-copy_blocks :
      (rounds b i : ℕ) (s : ReassemblySession)
      → offset ≤ b * 8
      → (b + rounds) * 8 < offset + len + 8
      → (copy_blocks rounds offset payload len b s).buffer i ≡ (
          if not (is_block_written s.block_bitmap (i / 8))
            && (leb (b * 8) i && (ltb (i / 8) (b + rounds) && ltb i (offset + len)))
          then get_or payload (i - offset) 0
          else s.buffer i)
  unfolding copy_blocks
  buffer-copy_blocks zero b i s low high = ground arith
  buffer-copy_blocks (suc rounds) b i s low high =
      let s' : ReassemblySession = copy_block offset payload len b s in
      buffer-copy_blocks rounds (b + 1) i s' (omega arith) (omega arith)
      ∙ elim (Bool-cases (i / 8 == b)) [
        | inl here ↦
            let back : i / 8 ≡ b = ground arith in
            let bits = written-copy_block b b s in
            let bytes = buffer-copy_block b i s low (omega arith) in rw back (ground arith)
        | inr other ↦ ground (arith, written-copy_block b (i / 8) s, buffer-copy_block b i s low)
      ]
