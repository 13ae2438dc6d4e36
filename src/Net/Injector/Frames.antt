-- ===== src/Net/Injector/Frames.antt =====
-- What each of the five builders of frames puts on the transmit ring.
use intrusion_detection.Base.{
  ℕ, ◌+◌, ◌*◌, ◌/◌, ◌^◌, ◌≤◌, ◌<◌, ◌≡◌, refl, ap, ◌∙◌, Bool, true, ◌==◌, List, [], ◌∷◌, ◌++◌, ◌%◌,
  length, length-append, append_assoc, drop, get_or, Option, some, arith, if◌then◌else◌,
}
use mathlib.Core.Path.{subst}
use mathlib.Core.Option.{some-injective}
use intrusion_detection.Net.Checksum.{is_valid_ipv4_checksum}
use intrusion_detection.Net.Injector.{
  Ends, ether_header, ipv4_header, ipv4_check, TcpFields, data_fields, ack_fields, syn_ack_fields,
  fin_fields, tcp_segment, tcp_check, build_frame, TxDesc, submit, ipv4_send_tcp_data,
  ipv4_send_tcp_ack, rst_fields, ipv4_send_tcp_rst, ipv4_send_tcp_syn_ack, ipv4_send_tcp_fin,
}
use intrusion_detection.Net.Injector.Valid.{
  AllBytes, ipv4_header-valid, IsAccepted, tcp_segment-IsAccepted,
}

-- The calls that the injector answers, with their arguments.
pub data Injection : Type 0 where
  data_of : ℕ → ℕ → List ℕ → ℕ → Injection
  ack_of : ℕ → ℕ → ℕ → Injection
  rst_of : ℕ → ℕ → ℕ → ℕ → Injection
  syn_ack_of : ℕ → ℕ → Injection
  fin_of : ℕ → ℕ → ℕ → Injection

unfoldable pub inject : Bool → Ends → Injection → Option TxDesc
inject reserved e (data_of seq ack bytes window) =
    ipv4_send_tcp_data reserved e seq ack bytes window
inject reserved e (ack_of seq ack window) = ipv4_send_tcp_ack reserved e seq ack window
inject reserved e (rst_of seq ack flags len) = ipv4_send_tcp_rst reserved e seq ack flags len
inject reserved e (syn_ack_of isn seq) = ipv4_send_tcp_syn_ack reserved e isn seq
inject reserved e (fin_of seq ack window) = ipv4_send_tcp_fin reserved e seq ack window

abbrev pub payload_of : Injection → List ℕ
payload_of (data_of seq ack bytes window) = bytes
payload_of _ = []

-- A number of 16 or 32 bits in a frame, greatest byte first.
abbrev pub half_at : List ℕ → ℕ → ℕ
half_at bytes i = get_or bytes i 0 * 256 + get_or bytes (i + 1) 0

abbrev pub word_at : List ℕ → ℕ → ℕ
word_at bytes i = half_at bytes i * 65536 + half_at bytes (i + 2)

-- The same, least byte first, as the machine reads it.
abbrev pub raw_half_at : List ℕ → ℕ → ℕ
raw_half_at bytes i = get_or bytes i 0 + get_or bytes (i + 1) 0 * 256

abbrev pub raw_word_at : List ℕ → ℕ → ℕ
raw_word_at bytes i = raw_half_at bytes i + raw_half_at bytes (i + 2) * 65536

-- A word with its bytes the other way round.
abbrev pub swapped : ℕ → ℕ
swapped x = x % 256 * 16777216 + x / 256 % 256 * 65536 + x / 65536 % 256 * 256 + x / 16777216 % 256

-- What an injection has to say: its sequence number, its acknowledgment, its flags as the sum of FIN
-- (1), SYN (2), RST (4), PSH (8) and ACK (16), and its window. A reset is that of RFC 793: it takes its
-- number from the ACK that it answers, and acknowledges all that a segment without ACK occupies.
abbrev pub expected : Injection → TcpFields
expected (data_of seq ack [] window) = record {
  seq = seq;
  ack_seq = ack;
  flags = 16;
  window = window;
}
expected (data_of seq ack (x ∷ bytes) window) = record {
  seq = seq;
  ack_seq = ack;
  flags = 8 + 16;
  window = window;
}
expected (ack_of seq ack window) = record { seq = seq; ack_seq = ack; flags = 16; window = window }
expected (rst_of seq ack flags len) =
    if flags / 16 % 2 == 1
    then record { seq = swapped ack; ack_seq = 0; flags = 4; window = 0 }
    else record {
      seq = 0;
      ack_seq = (swapped seq + (if len == 0 then 1 else len)) % 2 ^ 32;
      flags = 4 + 16;
      window = 0;
    }
expected (syn_ack_of isn seq) = record {
  seq = isn;
  ack_seq = (seq + 1) % 2 ^ 32;
  flags = 2 + 16;
  window = 65535;
}
expected (fin_of seq ack window) = record {
  seq = seq;
  ack_seq = ack;
  flags = 1 + 16;
  window = window;
}

-- An IPv4 header of 20 bytes for TCP, from the server to the client, with the length of the packet and
-- a checksum that the receiver accepts.
pub record IsHeader (e : Ends) (len : ℕ) (header : List ℕ) : Type 0 where
  pub sized : length header ≡ 20
  pub version : get_or header 0 0 ≡ 4 * 16 + 5
  pub total : half_at header 2 ≡ len
  pub unfragmented : half_at header 6 ≡ 0
  pub alive : 0 < get_or header 8 0
  pub protocol : get_or header 9 0 ≡ 6
  pub source : raw_word_at header 12 ≡ e.server_ip % 2 ^ 32
  pub destination : raw_word_at header 16 ≡ e.client_ip % 2 ^ 32
  pub valid : is_valid_ipv4_checksum (λ i. get_or header i 0) 5 ≡ true

-- A TCP segment from the server's port to the client's, with these fields in a header of 20 bytes, with
-- this payload, and with a checksum that the receiver accepts.
pub record IsSegment (e : Ends) (t : TcpFields) (payload segment : List ℕ) : Type 0 where
  pub source : raw_half_at segment 0 ≡ e.server_port % 65536
  pub destination : raw_half_at segment 2 ≡ e.client_port % 65536
  pub seq : word_at segment 4 ≡ t.seq % 2 ^ 32
  pub ack_seq : word_at segment 8 ≡ t.ack_seq % 2 ^ 32
  pub offset : get_or segment 12 0 ≡ 5 * 16
  pub flags : get_or segment 13 0 ≡ t.flags % 256
  pub window : half_at segment 14 ≡ t.window % 65536
  pub urgent : half_at segment 18 ≡ 0
  pub sized : length segment ≡ 20 + length payload
  pub carried : drop 20 segment ≡ payload
  pub accepted : IsAccepted e.server_ip e.client_ip segment

-- A frame of the two, for IPv4, between the two Ethernet addresses, and of the descriptor's length.
pub record IsFrame (e : Ends) (t : TcpFields) (payload : List ℕ) (d : TxDesc) : Type 0 where
  pub header : List ℕ
  pub segment : List ℕ
  pub shape : d.frame ≡ e.client_mac ++ (e.server_mac ++ (8 ∷ 0 ∷ (header ++ segment)))
  pub sized : d.len ≡ length d.frame
  pub is_header : IsHeader e (length header + length segment) header
  pub is_segment : IsSegment e t payload segment

abbrev pub AreMacs : Ends → Type 0
AreMacs e = (length e.client_mac ≡ 6) × (length e.server_mac ≡ 6)

ipv4_header-IsHeader :
    (e : Ends) (tot_len : ℕ)
    → tot_len < 65536
    → IsHeader e tot_len (ipv4_header e tot_len (ipv4_check e tot_len))
ipv4_header-IsHeader e tot_len h = record {
  sized = refl;
  version = refl;
  total = omega arith;
  unfragmented = refl;
  alive = omega arith;
  protocol = refl;
  source = omega arith;
  destination = omega arith;
  valid = ipv4_header-valid e tot_len;
}

tcp_segment-IsSegment :
    (e : Ends) (t : TcpFields) (payload : List ℕ)
    → AllBytes payload
    → length payload ≤ 65495
    → IsSegment e t payload (tcp_segment e t (tcp_check e t payload) payload)
tcp_segment-IsSegment e t payload bytes fits = record {
  source = omega arith;
  destination = omega arith;
  seq = omega arith;
  ack_seq = omega arith;
  offset = refl;
  flags = refl;
  window = omega arith;
  urgent = refl;
  sized = omega arith;
  carried = refl;
  accepted = tcp_segment-IsAccepted e t payload bytes fits;
}

submit-IsFrame :
    (e : Ends) (t : TcpFields) (payload : List ℕ) (n : ℕ) (d : TxDesc)
    → AreMacs e
    → AllBytes payload
    → length payload ≤ 65495
    → n ≡ 54 + length payload
    → submit true (build_frame e t payload) n ≡ some d
    → IsFrame e t payload d
submit-IsFrame e t payload n d macs bytes fits size sent =
    let tot_len = (40 + length payload) % 65536 in
    let header = ipv4_header e tot_len (ipv4_check e tot_len) in
    let segment = tcp_segment e t (tcp_check e t payload) payload in
    let whole : tot_len ≡ length header + length segment = omega arith in
    subst (IsFrame e t payload) (some-injective _ _ sent) (record {
      header = header;
      segment = segment;
      shape =
          append_assoc e.client_mac (e.server_mac ++ (8 ∷ 0 ∷ [])) (header ++ segment)
          ∙ ap (λ xs. e.client_mac ++ xs)
              (append_assoc e.server_mac (8 ∷ 0 ∷ []) (header ++ segment));
      sized = omega (
        arith,
        length-append (ether_header e) (header ++ segment),
        length-append e.client_mac (e.server_mac ++ (8 ∷ 0 ∷ [])),
        length-append e.server_mac (8 ∷ 0 ∷ []),
        macs.0,
        macs.1,
      );
      is_header =
          subst (λ k. IsHeader e k header) whole (ipv4_header-IsHeader e tot_len (omega arith));
      is_segment = tcp_segment-IsSegment e t payload bytes fits;
    })

data_fields-expected :
    (seq ack x : ℕ) (payload : List ℕ) (window : ℕ)
    → data_fields seq ack (x ∷ payload) window ≡ expected (data_of seq ack (x ∷ payload) window)
data_fields-expected seq ack x payload window = ground arith

rst_fields-expected :
    (seq ack flags len : ℕ)
    → len < 2 ^ 32
    → rst_fields seq ack flags len ≡ expected (rst_of seq ack flags len)
unfolding rst_fields
rst_fields-expected seq ack flags len small = ground arith

-- The length that a reset covers is a word.
abbrev pub IsCall : Injection → Type 0
IsCall (rst_of seq ack flags len) = len < 2 ^ 32
IsCall _ = Unit {0}

-- Whatever is injected, for a payload of at most 65495 bytes, each below 256, a covered length below
-- 2^32 for a reset, and Ethernet addresses of 6 bytes, where the ring has a place, the frame on the
-- ring is an Ethernet frame of the descriptor's length from the server to the client, with an IPv4
-- header and a TCP segment whose lengths, addresses, ports, numbers, flags, window and payload are
-- those of the injection, and both of whose checksums the receiver accepts.
pub inject-IsFrame :
    (e : Ends) (j : Injection) (d : TxDesc)
    → AreMacs e
    → AllBytes (payload_of j)
    → length (payload_of j) ≤ 65495
    → IsCall j
    → inject true e j ≡ some d
    → IsFrame e (expected j) (payload_of j) d
unfolding inject ipv4_send_tcp_data ipv4_send_tcp_ack ipv4_send_tcp_rst ipv4_send_tcp_syn_ack
    ipv4_send_tcp_fin
inject-IsFrame e (data_of seq ack [] window) d macs bytes fits call sent =
    submit-IsFrame e (data_fields seq ack [] window) [] 54 d macs bytes fits refl sent
inject-IsFrame e (data_of seq ack (x ∷ payload) window) d macs bytes fits call sent =
    subst (λ t. IsFrame e t (x ∷ payload) d) (data_fields-expected seq ack x payload window)
      (submit-IsFrame e (data_fields seq ack (x ∷ payload) window) (x ∷ payload)
        (54 + length (x ∷ payload)) d macs bytes fits refl sent)
inject-IsFrame e (ack_of seq ack window) d macs bytes fits call sent =
    submit-IsFrame e (ack_fields seq ack window) [] 54 d macs bytes fits (omega arith) sent
inject-IsFrame e (rst_of seq ack flags len) d macs bytes fits call sent =
    subst (λ t. IsFrame e t [] d) (rst_fields-expected seq ack flags len call)
      (submit-IsFrame e (rst_fields seq ack flags len) [] 54 d macs bytes fits (omega arith) sent)
inject-IsFrame e (syn_ack_of isn seq) d macs bytes fits call sent =
    submit-IsFrame e (syn_ack_fields isn seq) [] 54 d macs bytes fits (omega arith) sent
inject-IsFrame e (fin_of seq ack window) d macs bytes fits call sent =
    submit-IsFrame e (fin_fields seq ack window) [] 54 d macs bytes fits (omega arith) sent
