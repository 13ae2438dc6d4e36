-- ===== src/Udp/Session.antt =====
-- `add_fragment` and `process_fragment`: what they take and refuse, and what a session then holds.
use intrusion_detection.Base.{
  ℕ, zero, suc, ◌+◌, ◌-◌, ◌*◌, ◌/◌, ◌%◌, ◌^◌, ◌≤◌, ◌<◌, ◌≡◌, ◌↔◌, refl, ap, ◌∙◌, Bool, true, false,
  not, ◌&&◌, ◌||◌, ltb, leb, List, length, get_or, get_elem?, Option, none, some, if◌then◌else◌,
  arith,
}
use intrusion_detection.Udp.{
  ReassemblySession, is_complete, is_block_written, check_fragment, copy_block, copy_blocks,
  add_fragment, max_ip_datagram_size, process_fragment, mark_last, new_session, completed,
}
use intrusion_detection.Tcp.Ring.{Memory, copy_out}
use intrusion_detection.Udp.Blocks.{written-copy_blocks, buffer-copy_blocks}

-- A fragment that `check_fragment` accepts.
pub record IsFragment (offset len : ℕ) (more_fragments : Bool) : Type 0 where
  pub whole_blocks : more_fragments ≡ true → len % 8 ≡ 0
  pub some_bytes : 0 < len
  pub aligned : offset % 8 ≡ 0
  pub holds_header : offset ≡ 0 → 8 ≤ len
  pub in_datagram : offset + len ≤ max_ip_datagram_size

-- What a fragment that is taken does to the session `s`.
pub record Written (s s' : ReassemblySession) (offset : ℕ) (payload : List ℕ) : Type 0 where
  pub blocks :
      (q : ℕ)
      → is_block_written s'.block_bitmap q ≡ (
          is_block_written s.block_bitmap q
          || leb (offset / 8) q && ltb q ((offset + length payload + 7) / 8))
  pub bytes :
      (i : ℕ)
      → s'.buffer i ≡ (
          if not (is_block_written s.block_bitmap (i / 8))
            && (leb offset i && ltb i (offset + length payload))
          then get_or payload (i - offset) 0
          else s.buffer i)

module _ (s : ReassemblySession) (offset : ℕ) (payload : List ℕ) (more_fragments : Bool) where
  -- While the count of fragments is below 65535, a fragment is taken exactly when it is well
  -- formed, lies in the largest datagram, and is one of the first 64 of its datagram.
  pub add_fragment-taken :
      s.fragment_count < 65535
      → ((add_fragment s offset payload more_fragments).1 ≡ true)
        ↔ (IsFragment offset (length payload) more_fragments × (s.fragment_count < 64))
  unfolding add_fragment check_fragment
  add_fragment-taken few = (λ t. (ground arith, ground arith), λ h. ground arith)

  taken-aligned : (add_fragment s offset payload more_fragments).1 ≡ true → offset % 8 ≡ 0
  unfolding add_fragment check_fragment
  taken-aligned taken = ground arith

  -- What a fragment that is taken leaves behind: exactly its blocks are written besides those that were;
  -- each byte of it whose block was not written is in the buffer, and no other byte of the buffer changes,
  -- so that a byte once written is never overwritten by a later fragment.
  pub add_fragment-Written :
      (add_fragment s offset payload more_fragments).1 ≡ true
      → Written s (add_fragment s offset payload more_fragments).0 offset payload
  unfolding add_fragment
  add_fragment-Written taken =
      let aligned : offset % 8 ≡ 0 = taken-aligned taken in
      let len = length payload in
      let m = mark_last s offset len more_fragments in
      let rounds = (offset + len + 7) / 8 - offset / 8 in
      let out : (add_fragment s offset payload more_fragments).0
          ≡ copy_blocks rounds offset payload len (offset / 8) m =
        ground arith in
      let bits : m.block_bitmap ≡ s.block_bitmap = ground arith in
      let same : m.buffer ≡ s.buffer = ground arith in
      record {
        blocks = λ q.
            ap (λ (t : ReassemblySession). is_block_written t.block_bitmap q) out
            ∙ written-copy_blocks offset payload len aligned rounds (offset / 8) q m
            ∙ rw bits (ground arith);
        bytes = λ i.
            ap (λ (t : ReassemblySession). t.buffer i) out
            ∙ buffer-copy_blocks offset payload len aligned rounds (offset / 8) i m (omega arith)
                (omega arith)
            ∙ rw (bits, same) (ground arith);
      }

module _ (offset : ℕ) (payload : List ℕ) (len : ℕ) where
  -- The loop over the blocks leaves the other fields alone, and the count of bytes does not fall.
  kept-copy_blocks :
      (rounds b : ℕ) (s : ReassemblySession)
      → ((copy_blocks rounds offset payload len b s).total_expected_len ≡ s.total_expected_len)
        × ((copy_blocks rounds offset payload len b s).has_last_fragment ≡ s.has_last_fragment)
        × ((copy_blocks rounds offset payload len b s).fragment_count ≡ s.fragment_count)
  unfolding copy_blocks
  kept-copy_blocks zero b s = (refl, refl, refl)
  kept-copy_blocks (suc rounds) b s =
      ground (arith, kept-copy_blocks rounds (b + 1) (copy_block offset payload len b s))

  received-copy_block :
      (b : ℕ) (s : ReassemblySession)
      → s.received_bytes + 8 < 2 ^ 32
      → (s.received_bytes ≤ (copy_block offset payload len b s).received_bytes)
        × ((copy_block offset payload len b s).received_bytes ≤ s.received_bytes + 8)
  received-copy_block b s h = ground arith

  received-copy_blocks :
      (rounds b : ℕ) (s : ReassemblySession)
      → s.received_bytes + rounds * 8 < 2 ^ 32
      → s.received_bytes ≤ (copy_blocks rounds offset payload len b s).received_bytes
  unfolding copy_blocks
  received-copy_blocks zero b s h = omega arith
  received-copy_blocks (suc rounds) b s h =
      let s' : ReassemblySession = copy_block offset payload len b s in
      let (low, high) = received-copy_block b s (omega arith) in
      omega (arith, low, high, received-copy_blocks rounds (b + 1) s' (omega arith))

-- A session of the table: it has taken at most 64 fragments, and the length that its last fragment gave
-- has room for the UDP header and fits the buffer.
pub record IsSession (s : ReassemblySession) : Type 0 where
  pub few_fragments : s.fragment_count ≤ 64
  pub header_fits : s.has_last_fragment ≡ true → 8 ≤ s.total_expected_len
  pub length_fits : s.total_expected_len ≤ max_ip_datagram_size

add_fragment-IsSession :
    (s : ReassemblySession) (offset : ℕ) (payload : List ℕ) (more_fragments : Bool)
    → IsSession s
    → (add_fragment s offset payload more_fragments).1 ≡ true
    → IsSession (add_fragment s offset payload more_fragments).0
unfolding add_fragment check_fragment
add_fragment-IsSession s offset payload more_fragments v taken =
    let len = length payload in
    let m = mark_last s offset len more_fragments in
    let rounds = (offset + len + 7) / 8 - offset / 8 in
    ground (arith, kept-copy_blocks offset payload len rounds (offset / 8) m)

-- What a slot of the table may hold.
abbrev pub SlotIsValid : Option ReassemblySession → Type 0
SlotIsValid none = Unit {0}
SlotIsValid (some s) = IsSession s

-- `process_fragment` keeps the invariant of the key's slot, whatever the fragment, the size of the table
-- and the allocator are.
pub process_fragment-IsValid :
    (slot : Option ReassemblySession) (size : ℕ) (alloc_ok : Bool) (offset : ℕ) (payload : List ℕ)
    (more_fragments : Bool) (now_ns : ℕ)
    → SlotIsValid slot
    → SlotIsValid (process_fragment slot size alloc_ok offset payload more_fragments now_ns).0
unfolding process_fragment is_complete
process_fragment-IsValid none size alloc_ok offset payload more_fragments now_ns v =
    let s = new_session now_ns in
    ground (arith, add_fragment-IsSession s offset payload more_fragments (ground arith))
process_fragment-IsValid (some s) size alloc_ok offset payload more_fragments now_ns v =
    ground (arith, add_fragment-IsSession s offset payload more_fragments v)

-- The session that the fragment goes into: that of the slot, or a new one.
abbrev pub session_at : Option ReassemblySession → ℕ → ReassemblySession
session_at none now_ns = new_session now_ns
session_at (some s) now_ns = s

-- The session with the fragment added.
abbrev pub with_fragment : Option ReassemblySession → ℕ → List ℕ → Bool → ℕ → ReassemblySession
with_fragment slot offset payload more_fragments now_ns =
    (add_fragment (session_at slot now_ns) offset payload more_fragments).0

with_fragment-IsSession :
    (slot : Option ReassemblySession) (offset : ℕ) (payload : List ℕ) (more_fragments : Bool)
    (now_ns : ℕ)
    → SlotIsValid slot
    → (add_fragment (session_at slot now_ns) offset payload more_fragments).1 ≡ true
    → IsSession (with_fragment slot offset payload more_fragments now_ns)
with_fragment-IsSession none offset payload more_fragments now_ns v taken =
    add_fragment-IsSession (new_session now_ns) offset payload more_fragments (ground arith) taken
with_fragment-IsSession (some s) offset payload more_fragments now_ns v taken =
    add_fragment-IsSession s offset payload more_fragments v taken

process_fragment-completed :
    (slot : Option ReassemblySession) (size : ℕ) (alloc_ok : Bool) (offset : ℕ) (payload : List ℕ)
    (more_fragments : Bool) (now_ns : ℕ)
    → let out = process_fragment slot size alloc_ok offset payload more_fragments now_ns in
      let s' = with_fragment slot offset payload more_fragments now_ns in
      out.1.is_complete ≡ true
      → (out ≡ (none, completed s'))
        × ((add_fragment (session_at slot now_ns) offset payload more_fragments).1 ≡ true)
        × (s'.has_last_fragment ≡ true)
unfolding process_fragment is_complete
process_fragment-completed none size alloc_ok offset payload more_fragments now_ns done =
    ground arith
process_fragment-completed (some s) size alloc_ok offset payload more_fragments now_ns done =
    ground arith

get_elem?-copy_out :
    (m : Memory) (at n i : ℕ)
    → get_elem? (copy_out m at n) i ≡ (if ltb i n then some (m (at + i)) else none)
unfolding copy_out
get_elem?-copy_out m at zero i = ground arith
get_elem?-copy_out m at (suc n) zero =
    let here : m at ≡ m (at + 0) = ap m (omega arith) in ground (arith, here)
get_elem?-copy_out m at (suc n) (suc i) =
    let there : m (at + 1 + i) ≡ m (at + suc i) = ap m (omega arith) in
    ground (arith, get_elem?-copy_out m (at + 1) n i, there)

-- With a valid slot, a result that says complete takes the session out of the table. The last
-- fragment has come and has given a length of 8 to 65535 bytes, and the payload has, at each index
-- `i`, the byte `8 + i` of the buffer with the fragment added, up to that length and no further.
pub process_fragment_completed :
    (slot : Option ReassemblySession) (size : ℕ) (alloc_ok : Bool) (offset : ℕ) (payload : List ℕ)
    (more_fragments : Bool) (now_ns i : ℕ)
    → SlotIsValid slot
    → let out = process_fragment slot size alloc_ok offset payload more_fragments now_ns in
      let s' = with_fragment slot offset payload more_fragments now_ns in
      out.1.is_complete ≡ true
      → (out.0 ≡ none)
        × (s'.has_last_fragment ≡ true)
        × (8 ≤ s'.total_expected_len)
        × (s'.total_expected_len ≤ max_ip_datagram_size)
        × (get_elem? out.1.payload i
            ≡ (if ltb (8 + i) s'.total_expected_len then some (s'.buffer (8 + i)) else none))
process_fragment_completed slot size alloc_ok offset payload more_fragments now_ns i v done =
    let s' = with_fragment slot offset payload more_fragments now_ns in
    let (same, taken, last) =
      process_fragment-completed slot size alloc_ok offset payload more_fragments now_ns done in
    let valid = with_fragment-IsSession slot offset payload more_fragments now_ns v taken in
    let low = valid.header_fits last in
    let high = valid.length_fits in
    let n = (s'.total_expected_len + 2 ^ 32 - 8) % 2 ^ 32 in
    let size : n ≡ s'.total_expected_len - 8 = omega arith in
    (
      ap (λ o. o.0) same,
      last,
      low,
      high,
      ap (λ o. get_elem? o.1.payload i) same ∙ get_elem?-copy_out s'.buffer 8 n i ∙ ground arith,
    )

-- A last fragment that is taken, does not start at 0, and ends before the bytes already counted,
-- fewer than 2^31, completes the datagram, though its first block, which holds the ports, was
-- never received.
pub add_fragment_completes_early :
    (s : ReassemblySession) (offset : ℕ) (payload : List ℕ)
    → (add_fragment s offset payload false).1 ≡ true
    → 0 < offset
    → is_block_written s.block_bitmap 0 ≡ false
    → offset + length payload ≤ s.received_bytes
    → s.received_bytes < 2 ^ 31
    → (is_complete (add_fragment s offset payload false).0 ≡ true)
      × (is_block_written (add_fragment s offset payload false).0.block_bitmap 0 ≡ false)
unfolding is_complete add_fragment
add_fragment_completes_early s offset payload taken behind hole counted small =
    let len = length payload in
    let m : ReassemblySession = mark_last s offset len false in
    let rounds = (offset + len + 7) / 8 - offset / 8 in
    let w = add_fragment-Written s offset payload false taken in
    let aligned = taken-aligned s offset payload false taken in
    let fits : offset + len ≤ max_ip_datagram_size = ground arith in
    (
      ground (
        arith,
        kept-copy_blocks offset payload len rounds (offset / 8) m,
        received-copy_blocks offset payload len rounds (offset / 8) m,
      ),
      w.blocks 0 ∙ ground arith,
    )
