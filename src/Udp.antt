-- ===== src/Udp.antt =====
-- src/main/transport/udp_assembler.h: the reassembler of fragmented UDP datagrams.
pub mod Blocks
pub mod Session
pub mod Engine
mod Tests
use intrusion_detection.Base.{
  ℕ, zero, suc, ◌+◌, ◌-◌, ◌*◌, ◌/◌, ◌%◌, ◌^◌, Bool, true, false, not, ◌&&◌, ◌||◌, ltb, leb, ◌==◌,
  ◌!=◌, List, [], length, drop, Option, none, some, if◌then◌else◌,
}
use intrusion_detection.Tcp.Ring.{Memory, copy_in, copy_out}
use intrusion_detection.Tcp.Bitmap.{Word, Bitmap, set_word, empty_bitmap}

abbrev pub max_ip_datagram_size : ℕ
max_ip_datagram_size = 65535

abbrev pub max_fragments_per_id : ℕ
max_fragments_per_id = 64

abbrev pub max_active_sessions : ℕ
max_active_sessions = 65536

-- `ReassemblySession`: the bitmap has one bit for each block of eight bytes of the buffer.
pub record ReassemblySession : Type 0 where
  pub created_at_ns : ℕ
  pub total_expected_len : ℕ
  pub received_bytes : ℕ
  pub fragment_count : ℕ
  pub has_last_fragment : Bool
  pub block_bitmap : Bitmap
  pub buffer : Memory

abbrev pub new_session : ℕ → ReassemblySession
new_session now_ns = record {
  created_at_ns = now_ns;
  total_expected_len = 0;
  received_bytes = 0;
  fragment_count = 0;
  has_last_fragment = false;
  block_bitmap = empty_bitmap;
  buffer = λ i. 0;
}

unfoldable pub is_complete : ReassemblySession → Bool
is_complete s = s.has_last_fragment && leb s.total_expected_len s.received_bytes

abbrev pub is_block_written : Bitmap → ℕ → Bool
is_block_written bitmap block_idx = bitmap (block_idx / 64) (block_idx % 64)

abbrev pub mark_block_written : Bitmap → ℕ → Bitmap
mark_block_written bitmap block_idx =
    let w = block_idx / 64 in set_word bitmap w (λ k. bitmap w k || k == block_idx % 64)

unfoldable pub check_fragment : ℕ → ℕ → Bool → Bool
check_fragment offset len more_fragments =
    if more_fragments && len % 8 != 0
    then false
    else if len == 0
    then false
    else if offset % 8 != 0
    then false
    else if offset == 0 && ltb len 8
    then false
    else true

-- The start of block `b` in the payload, and how many of its bytes the payload has.
abbrev pub copy_start : ℕ → ℕ → ℕ
copy_start offset b = if leb offset (b * 8) then b * 8 - offset else 0

abbrev pub bytes_to_copy : ℕ → ℕ → ℕ → ℕ
bytes_to_copy offset len b =
    if ltb len (copy_start offset b + 8) then len - copy_start offset b else 8

-- The body of the loop over the blocks.
abbrev pub copy_block : ℕ → List ℕ → ℕ → ℕ → ReassemblySession → ReassemblySession
copy_block offset payload len b s = if is_block_written s.block_bitmap b then s else record s {
  buffer =
      copy_in s.buffer (b * 8) (drop (copy_start offset b) payload) (bytes_to_copy offset len b);
  block_bitmap = mark_block_written s.block_bitmap b;
  received_bytes = (s.received_bytes + bytes_to_copy offset len b) % 2 ^ 32;
}

-- The loop, for `rounds` blocks from block `b` on.
unfoldable pub copy_blocks : ℕ → ℕ → List ℕ → ℕ → ℕ → ReassemblySession → ReassemblySession
copy_blocks zero offset payload len b s = s
copy_blocks (suc rounds) offset payload len b s =
    copy_blocks rounds offset payload len (b + 1) (copy_block offset payload len b s)

-- The count of fragments, and what the last fragment says of the datagram.
abbrev pub count_fragment : ReassemblySession → ReassemblySession
count_fragment s = record s { fragment_count = (s.fragment_count + 1) % 65536 }

abbrev pub mark_last : ReassemblySession → ℕ → ℕ → Bool → ReassemblySession
mark_last s offset len more_fragments =
    if more_fragments
    then count_fragment s
    else record (count_fragment s) { has_last_fragment = true; total_expected_len = offset + len }

-- The session as it is left, and whether the fragment was taken.
unfoldable pub add_fragment : ReassemblySession → ℕ → List ℕ → Bool → ReassemblySession × Bool
add_fragment s offset payload more_fragments =
    let len = length payload in
    let start_block = offset / 8 in
    let end_block = (offset + len + 7) / 8 in
    if not (check_fragment offset len more_fragments)
    then (s, false)
    else if ltb max_ip_datagram_size (offset + len)
    then (s, false)
    else if ltb max_fragments_per_id (count_fragment s).fragment_count
    then (count_fragment s, false)
    else (
      copy_blocks (end_block - start_block) offset payload len start_block
          (mark_last s offset len more_fragments),
      true,
    )

-- `AssemblyResult`, with the bytes that the payload's pointer and length name.
pub record AssemblyResult : Type 0 where
  pub is_complete : Bool
  pub src_port : ℕ
  pub dst_port : ℕ
  pub payload : List ℕ

abbrev pub no_result : AssemblyResult
no_result = record { is_complete = false; src_port = 0; dst_port = 0; payload = [] }

abbrev pub completed : ReassemblySession → AssemblyResult
completed s = record {
  is_complete = true;
  src_port = s.buffer 0 * 256 + s.buffer 1;
  dst_port = s.buffer 2 * 256 + s.buffer 3;
  payload = copy_out s.buffer 8 ((s.total_expected_len + 2 ^ 32 - 8) % 2 ^ 32);
}

-- `process_fragment` from the lookup on: what the key's slot of the table holds when it returns, given
-- what the lookup found, the size of the table, and whether an allocation would succeed.
unfoldable pub process_fragment :
    Option ReassemblySession
    → ℕ
    → Bool
    → ℕ
    → List ℕ
    → Bool
    → ℕ
    → Option ReassemblySession × AssemblyResult
process_fragment slot size alloc_ok offset payload more_fragments now_ns =
    let found = elim slot as (λ _. Option ReassemblySession) [
      | some s ↦ some s
      | none ↦
          if leb max_active_sessions size
          then none
          else if alloc_ok
          then some (new_session now_ns)
          else none
    ] in
    elim found [
      | none ↦ (none, no_result)
      | some s ↦
          let (s', taken) = add_fragment s offset payload more_fragments in
          if not taken
          then (none, no_result)
          else if is_complete s'
          then (none, completed s')
          else (some s', no_result)
    ]
