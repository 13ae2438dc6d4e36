-- ===== src/Net/Tests.antt =====
-- Runs of the checksums at concrete inputs.
use intrusion_detection.Base.{some, ℕ, ◌*◌, ◌≡◌, refl, true, ◌==◌, List, [], ◌∷◌, get_or, arith}
use intrusion_detection.Net.Injector.{Ends, TxDesc, build_frame, data_fields, ipv4_send_tcp_data}
use intrusion_detection.Net.Injector.Frames.{data_of, inject, expected, IsFrame, inject-IsFrame}
use intrusion_detection.Net.Checksum.{
  Bytes, is_valid_ipv4_checksum, ipv4_compute_checksum, header_sum,
}
use intrusion_detection.Net.Checksum.Agree.{AreBytes, is_valid-compute}

abbrev header_bytes : List ℕ
header_bytes =
    0x45 ∷ 0 ∷ 0 ∷ 0x73 ∷ 0 ∷ 0 ∷ 0x40 ∷ 0 ∷ 0x40 ∷ 0x11 ∷ 0xB8 ∷ 0x61 ∷ 0xC0 ∷ 0xA8 ∷ 0 ∷ 1 ∷ 0xC0
    ∷ 0xA8 ∷ 0 ∷ 0xC7 ∷ []

abbrev header : Bytes
header i = get_or header_bytes i 0

header-AreBytes : AreBytes header
header-AreBytes i = ground arith

header_valid : is_valid_ipv4_checksum header 5 ≡ true
unfolding is_valid_ipv4_checksum header_sum
header_valid = refl

is_valid-compute_example :
    is_valid_ipv4_checksum header 5 ≡ (ipv4_compute_checksum header (5 * 4) == 0)
is_valid-compute_example = is_valid-compute header 5 header-AreBytes (omega arith) (omega arith)

abbrev ends : Ends
ends = record {
  client_mac = 1 ∷ 2 ∷ 3 ∷ 4 ∷ 5 ∷ 6 ∷ [];
  server_mac = 7 ∷ 8 ∷ 9 ∷ 10 ∷ 11 ∷ 12 ∷ [];
  client_ip = 0x0100A8C0;
  server_ip = 0x0200A8C0;
  client_port = 0x5000;
  server_port = 0xBB01;
}

abbrev three_bytes : List ℕ
three_bytes = 7 ∷ 8 ∷ 9 ∷ []

abbrev sent : TxDesc
sent = record {
  frame = build_frame ends (data_fields 1000 2000 three_bytes 4096) three_bytes;
  len = 57;
}

three_sent : inject true ends (data_of 1000 2000 three_bytes 4096) ≡ some sent
unfolding inject ipv4_send_tcp_data
three_sent = refl

inject-IsFrame_example :
    IsFrame ends (expected (data_of 1000 2000 three_bytes 4096)) three_bytes sent
inject-IsFrame_example =
    inject-IsFrame ends (data_of 1000 2000 three_bytes 4096) sent (refl, refl)
      (omega arith, (omega arith, (omega arith, tt))) (omega arith) tt three_sent
