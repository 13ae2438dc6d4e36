-- ===== src/Tls/Parser.antt =====
-- src/main/tls/tls_parser.h: `parse_client_hello`, which finds the server name in a TLS ClientHello.
pub mod Safety
pub mod Roundtrip
pub mod Hello
use intrusion_detection.Base.{
  ℕ, zero, suc, ◌+◌, ◌*◌, Bool, true, false, ◌&&◌, ◌||◌, ltb, leb, ◌==◌, ◌!=◌, List, [], length,
  get_elem?, take, drop, Option, none, some, ◌>>=◌, if◌then◌else◌,
}

pub record TlsParseResult : Type 0 where
  pub is_tls : Bool
  pub is_client_hello : Bool
  pub sni : List ℕ

-- `read_u16_be(data + i)`. A read past the payload is the fault `none`.
unfoldable pub read_u16_be : List ℕ → ℕ → Option ℕ
read_u16_be bytes i = do
  high ← get_elem? bytes i
  low ← get_elem? bytes (i + 1)
  some (high * 256 + low)

-- `std::string_view(data + i, n)`
unfoldable pub view : List ℕ → ℕ → ℕ → Option (List ℕ)
view bytes i n = if leb (i + n) (length bytes) then some (take n (drop i bytes)) else none

-- The payload of a server name extension, which ends at `offset + ext_len`.
unfoldable pub parse_server_name : List ℕ → ℕ → ℕ → ℕ → Option (List ℕ)
parse_server_name payload offset ext_len extensions_end =
    if ltb ext_len 5
    then some []
    else read_u16_be payload offset >>= (λ sni_list_len.
      if ltb ext_len (2 + sni_list_len) || ltb sni_list_len 3
      then some []
      else get_elem? payload (offset + 2) >>= (λ name_type.
        read_u16_be payload (offset + 3) >>= (λ name_len.
          if name_type == 0 && (leb (offset + 5 + name_len) extensions_end && ltb 0 name_len)
          then view payload (offset + 5) name_len
          else some [])))

-- The loop over the extensions gives the server name, empty if there is none. `none` is a fault, or no
-- fuel.
unfoldable pub parse_extensions : ℕ → List ℕ → ℕ → ℕ → Option (List ℕ)
parse_extensions zero payload offset extensions_end = none
parse_extensions (suc fuel) payload offset extensions_end =
    if ltb extensions_end (offset + 4)
    then some []
    else read_u16_be payload offset >>= (λ ext_type.
      read_u16_be payload (offset + 2) >>= (λ ext_len.
        let rest = parse_extensions fuel payload (offset + 4 + ext_len) extensions_end in
        if ltb extensions_end (offset + 4 + ext_len)
        then some []
        else if ext_type == 0
        then parse_server_name payload (offset + 4) ext_len extensions_end
        else rest))

-- A block behind a length of one byte, or of two: `result` if the length is not there.
unfoldable pub skip_block8 :
    List ℕ → TlsParseResult → ℕ → (ℕ → Option TlsParseResult) → Option TlsParseResult
skip_block8 payload result offset next =
    if ltb (length payload) (offset + 1)
    then some result
    else get_elem? payload offset >>= (λ n. next (offset + (1 + n)))

unfoldable pub skip_block16 :
    List ℕ → TlsParseResult → ℕ → (ℕ → Option TlsParseResult) → Option TlsParseResult
skip_block16 payload result offset next =
    if ltb (length payload) (offset + 2)
    then some result
    else read_u16_be payload offset >>= (λ n. next (offset + (2 + n)))

unfoldable pub parse_extension_block : List ℕ → TlsParseResult → ℕ → Option TlsParseResult
parse_extension_block payload result offset =
    if ltb (length payload) (offset + 2)
    then some result
    else read_u16_be payload offset >>= (λ extensions_total_len.
      if ltb (length payload) (offset + 2 + extensions_total_len)
      then some result
      else parse_extensions (length payload) payload (offset + 2)
          (offset + 2 + extensions_total_len)
        >>= (λ name. some (record result { sni = name })))

-- The session id, the cipher suites, the compression methods, and the extensions.
unfoldable pub parse_hello_body : List ℕ → TlsParseResult → Option TlsParseResult
parse_hello_body payload result = skip_block8 payload result 43 (λ o₁.
    skip_block16 payload result o₁
      (λ o₂. skip_block8 payload result o₂ (λ o₃. parse_extension_block payload result o₃)))

abbrev no_tls : TlsParseResult
no_tls = record { is_tls = false; is_client_hello = false; sni = [] }

abbrev tls_record : TlsParseResult
tls_record = record no_tls { is_tls = true }

-- From the record header on, where the first byte is that of a handshake.
unfoldable pub parse_handshake : List ℕ → Option TlsParseResult
parse_handshake payload = read_u16_be payload 1 >>= (λ record_version.
    if ltb record_version 0x0300 || ltb 0x0304 record_version
    then some tls_record
    else read_u16_be payload 3 >>= (λ record_len.
      if ltb (length payload) (5 + record_len)
      then some tls_record
      else get_elem? payload 5 >>= (λ handshake_type.
        if handshake_type != 1
        then some tls_record
        else parse_hello_body payload (record tls_record { is_client_hello = true }))))

unfoldable pub parse_client_hello : List ℕ → Option TlsParseResult
parse_client_hello payload =
    if ltb (length payload) 9
    then some no_tls
    else get_elem? payload 0 >>= (λ content_type.
      if content_type != 0x16
      then if content_type == 0x17 then some tls_record else some no_tls
      else parse_handshake payload)
