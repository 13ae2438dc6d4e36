-- ===== src/Udp/Tests.antt =====
-- Runs of the UDP reassembler at concrete inputs.
use intrusion_detection.Base.{
  get_elem?, if◌then◌else◌, ℕ, ◌+◌, ◌≡◌, ◌≤◌, refl, true, false, List, [], ◌∷◌, none, some, ◌==◌,
  ◌&&◌, leb, ltb,
}
use intrusion_detection.Table.{empty_table, erase, insert_entry}
use intrusion_detection.Udp.Engine.{
  FragmentKey, same_fragment_key, empty_fragment_key, UdpAssemblerEngine,
}
use intrusion_detection.Udp.{
  ReassemblySession, new_session, is_complete, check_fragment, copy_blocks, add_fragment,
  process_fragment, max_ip_datagram_size, AssemblyResult, completed,
}
use intrusion_detection.Udp.Session.{
  Written, add_fragment-Written, process_fragment_completed, with_fragment,
}

abbrev eight : List ℕ
eight = 1 ∷ 2 ∷ 3 ∷ 4 ∷ 5 ∷ 6 ∷ 7 ∷ 8 ∷ []

abbrev twelve : List ℕ
twelve = 0 ∷ 53 ∷ 0 ∷ 99 ∷ 0 ∷ 12 ∷ 0 ∷ 0 ∷ 1 ∷ 2 ∷ 3 ∷ 4 ∷ []

abbrev opened : ReassemblySession
opened = new_session 5

eight_taken : (add_fragment opened 8 eight true).1 ≡ true
unfolding add_fragment check_fragment
eight_taken = refl

add_fragment-Written_example : Written opened (add_fragment opened 8 eight true).0 8 eight
add_fragment-Written_example = add_fragment-Written opened 8 eight true eight_taken

abbrev datagram : ReassemblySession
datagram = with_fragment none 0 twelve false 5

-- A datagram in one piece.
whole : (process_fragment none 3 true 0 twelve false 5).1.is_complete ≡ true
unfolding process_fragment add_fragment check_fragment copy_blocks is_complete
whole = refl

process_fragment_completed_example :
    ((process_fragment none 3 true 0 twelve false 5).0 ≡ none)
    × (datagram.has_last_fragment ≡ true)
    × (8 ≤ datagram.total_expected_len)
    × (datagram.total_expected_len ≤ max_ip_datagram_size)
    × (get_elem? (process_fragment none 3 true 0 twelve false 5).1.payload 3 ≡ (
        if ltb (8 + 3) datagram.total_expected_len then some (datagram.buffer (8 + 3)) else none))
process_fragment_completed_example =
    process_fragment_completed none 3 true 0 twelve false 5 3 tt whole

-- 24 bytes from byte 24 on are there, and the last fragment is bytes 8 to 15.
abbrev ahead_of_all : ReassemblySession
ahead_of_all = record (new_session 5) {
  received_bytes = 24;
  fragment_count = 1;
  block_bitmap = λ w b. w == 0 && (leb 3 b && ltb b 6);
}

last_taken : (add_fragment ahead_of_all 8 eight false).1 ≡ true
unfolding add_fragment check_fragment
last_taken = refl

abbrev engine : UdpAssemblerEngine
engine = record { sessions = empty_table; last_cleanup_ns = 0 }

abbrev key : FragmentKey
key = record { src_ip = 1; dst_ip = 2; ip_id = 3; protocol = 17 }

key_named : same_fragment_key key empty_fragment_key ≡ false
unfolding same_fragment_key
key_named = refl

abbrev home : FragmentKey → ℕ
home k = 5

abbrev done : AssemblyResult
done = completed (with_fragment none 0 twelve false 9)

abbrev after : UdpAssemblerEngine
after = record engine {
  sessions =
      erase same_fragment_key home
        (insert_entry same_fragment_key home engine.sessions key (new_session 9)) key;
}
