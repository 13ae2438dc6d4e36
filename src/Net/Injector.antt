-- ===== src/Net/Injector.antt =====
-- `PacketInjector` of src/main/net/packet_injector.h: the frames that it builds, and when it sends them.
-- Addresses, ports and raw sequence numbers are words as the machine reads them from a frame, and are
-- written back least byte first; a number that the code passes through `htons` or `htonl` is written
-- greatest byte first.
pub mod Valid
pub mod Frames
use intrusion_detection.Base.{
  ℕ, ◌+◌, ◌-◌, ◌*◌, ◌/◌, ◌%◌, ◌^◌, Bool, true, false, ltb, ◌==◌, ◌!=◌, List, [], ◌∷◌, ◌++◌, length,
  get_or, Option, none, some, if◌then◌else◌,
}
use intrusion_detection.Net.Checksum.{ipv4_compute_checksum, fold_carries}

abbrev pub hton16 : ℕ → List ℕ
hton16 x = x / 256 % 256 ∷ x % 256 ∷ []

abbrev pub hton32 : ℕ → List ℕ
hton32 x = x / 16777216 % 256 ∷ x / 65536 % 256 ∷ x / 256 % 256 ∷ x % 256 ∷ []

abbrev pub raw16 : ℕ → List ℕ
raw16 x = x % 256 ∷ x / 256 % 256 ∷ []

abbrev pub raw32 : ℕ → List ℕ
raw32 x = x % 256 ∷ x / 256 % 256 ∷ x / 65536 % 256 ∷ x / 16777216 % 256 ∷ []

abbrev pub ntohl : ℕ → ℕ
ntohl x = x % 256 * 16777216 + x / 256 % 256 * 65536 + x / 65536 % 256 * 256 + x / 16777216 % 256

-- The loops that add pairs of bytes in 32 bits, with an odd byte at the end.
unfoldable pub add_pairs : List ℕ → ℕ → ℕ
add_pairs [] sum = sum
add_pairs (x ∷ []) sum = (sum + x * 256) % 2 ^ 32
add_pairs (x ∷ y ∷ bytes) sum = add_pairs bytes ((sum + x * 256 + y) % 2 ^ 32)

abbrev pub pseudo_header : ℕ → ℕ → ℕ → List ℕ
pseudo_header src_ip dst_ip tcp_len =
    raw32 src_ip ++ (raw32 dst_ip ++ (0 ∷ 6 ∷ hton16 (tcp_len % 65536)))

unfoldable pub ipv4_tcp_compute_checksum : ℕ → ℕ → List ℕ → ℕ
ipv4_tcp_compute_checksum src_ip dst_ip segment =
    let pseudo = add_pairs (pseudo_header src_ip dst_ip (length segment)) 0 in
    65535 - fold_carries 3 (add_pairs segment pseudo) % 65536

-- The two ends of a connection: frames go from the server to the client.
pub record Ends : Type 0 where
  pub client_mac : List ℕ
  pub server_mac : List ℕ
  pub client_ip : ℕ
  pub server_ip : ℕ
  pub client_port : ℕ
  pub server_port : ℕ

abbrev pub ether_header : Ends → List ℕ
ether_header e = e.client_mac ++ (e.server_mac ++ (8 ∷ 0 ∷ []))

abbrev pub ipv4_header : Ends → ℕ → ℕ → List ℕ
ipv4_header e tot_len check =
    0x45
    ∷ 0
    ∷ (hton16 tot_len
        ++ (0x13
            ∷ 0x37
            ∷ 0
            ∷ 0
            ∷ 64
            ∷ 6
            ∷ (hton16 check ++ (raw32 e.server_ip ++ raw32 e.client_ip))))

-- The checksum of the header with 0 in its place.
unfoldable pub ipv4_check : Ends → ℕ → ℕ
ipv4_check e tot_len = ipv4_compute_checksum (λ i. get_or (ipv4_header e tot_len 0) i 0) 20

-- The fields of the TCP header that the builders set.
pub record TcpFields : Type 0 where
  pub seq : ℕ
  pub ack_seq : ℕ
  pub flags : ℕ
  pub window : ℕ

abbrev pub tcp_segment : Ends → TcpFields → ℕ → List ℕ → List ℕ
tcp_segment e t check payload =
    raw16 e.server_port
    ++ (raw16 e.client_port
        ++ (hton32 t.seq
            ++ (hton32 t.ack_seq
                ++ (0x50
                    ∷ t.flags % 256
                    ∷ (hton16 t.window ++ (hton16 check ++ (0 ∷ 0 ∷ payload)))))))

unfoldable pub tcp_check : Ends → TcpFields → List ℕ → ℕ
tcp_check e t payload =
    ipv4_tcp_compute_checksum e.server_ip e.client_ip (tcp_segment e t 0 payload)

abbrev pub build_frame : Ends → TcpFields → List ℕ → List ℕ
build_frame e t payload =
    let tot_len = (40 + length payload) % 65536 in
    ether_header e
    ++ (ipv4_header e tot_len (ipv4_check e tot_len)
        ++ tcp_segment e t (tcp_check e t payload) payload)

-- The descriptor that is put on the transmit ring: the frame and its length.
pub record TxDesc : Type 0 where
  pub frame : List ℕ
  pub len : ℕ

-- The end of each builder: it sends nothing where the ring has no place.
abbrev pub submit : Bool → List ℕ → ℕ → Option TxDesc
submit reserved frame len = if reserved then some (record { frame = frame; len = len }) else none

-- What each builder writes into the TCP header.
abbrev pub data_fields : ℕ → ℕ → List ℕ → ℕ → TcpFields
data_fields server_seq client_ack tls_data window = record {
  seq = server_seq;
  ack_seq = client_ack;
  flags = if ltb 0 (length tls_data) then 24 else 16;
  window = window;
}

abbrev pub ack_fields : ℕ → ℕ → ℕ → TcpFields
ack_fields server_seq client_ack window = record {
  seq = server_seq;
  ack_seq = client_ack;
  flags = 16;
  window = window;
}

unfoldable pub rst_fields : ℕ → ℕ → ℕ → ℕ → TcpFields
rst_fields client_seq client_ack_seq in_flags payload_len =
    let covered = if ltb 0 payload_len then payload_len % 2 ^ 32 else 1 in
    if in_flags / 16 % 2 != 0
    then record { seq = ntohl client_ack_seq; ack_seq = 0; flags = 4; window = 0 }
    else record { seq = 0; ack_seq = (ntohl client_seq + covered) % 2 ^ 32; flags = 20; window = 0 }

abbrev pub syn_ack_fields : ℕ → ℕ → TcpFields
syn_ack_fields server_isn client_seq = record {
  seq = server_isn;
  ack_seq = (client_seq + 1) % 2 ^ 32;
  flags = 18;
  window = 65535;
}

abbrev pub fin_fields : ℕ → ℕ → ℕ → TcpFields
fin_fields server_seq client_ack window = record {
  seq = server_seq;
  ack_seq = client_ack;
  flags = 17;
  window = window;
}

unfoldable pub ipv4_send_tcp_data : Bool → Ends → ℕ → ℕ → List ℕ → ℕ → Option TxDesc
ipv4_send_tcp_data reserved e server_seq client_ack tls_data window =
    submit reserved (build_frame e (data_fields server_seq client_ack tls_data window) tls_data)
      (54 + length tls_data)

unfoldable pub ipv4_send_tcp_ack : Bool → Ends → ℕ → ℕ → ℕ → Option TxDesc
ipv4_send_tcp_ack reserved e server_seq client_ack window =
    submit reserved (build_frame e (ack_fields server_seq client_ack window) []) 54

unfoldable pub ipv4_send_tcp_rst : Bool → Ends → ℕ → ℕ → ℕ → ℕ → Option TxDesc
ipv4_send_tcp_rst reserved e client_seq client_ack_seq in_flags payload_len =
    submit reserved (build_frame e (rst_fields client_seq client_ack_seq in_flags payload_len) [])
      54

unfoldable pub ipv4_send_tcp_syn_ack : Bool → Ends → ℕ → ℕ → Option TxDesc
ipv4_send_tcp_syn_ack reserved e server_isn client_seq =
    submit reserved (build_frame e (syn_ack_fields server_isn client_seq) []) 54

unfoldable pub ipv4_send_tcp_fin : Bool → Ends → ℕ → ℕ → ℕ → Option TxDesc
ipv4_send_tcp_fin reserved e server_seq client_ack window =
    submit reserved (build_frame e (fin_fields server_seq client_ack window) []) 54
