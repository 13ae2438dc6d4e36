-- ===== src/Tls/Tests.antt =====
-- Runs of the TLS parser and the blocklist at concrete inputs.
use intrusion_detection.Base.{
  ℕ, ◌≡◌, refl, true, false, not, ◌&&◌, ◌||◌, leb, ◌==◌, List, [], ◌∷◌, ◌++◌, length, some, arith,
}
use intrusion_detection.Tls.Parser.{TlsParseResult, parse_client_hello}
use intrusion_detection.Tls.Parser.Safety.{parse_client_hello-total}
use intrusion_detection.Tls.Parser.Hello.{
  ClientHello, IsHello, encode_hello, parse_client_hello-encode_hello,
}
use intrusion_detection.Tls.Blocklist.{
  Domain, DomainSet, lower, listed, behind_dot, is_blocked, is_allowed, strip_end, strip_start,
  parse_line, parent_listed,
}
use intrusion_detection.Tls.Blocklist.Policy.{
  some_parent_listed, is_blocked_lem, is_blocked-subdomain,
}

abbrev random_bytes : List ℕ
random_bytes =
    3 ∷ 3 ∷ 0 ∷ 1 ∷ 2 ∷ 3 ∷ 4 ∷ 5 ∷ 6 ∷ 7 ∷ 8 ∷ 9 ∷ 10 ∷ 11 ∷ 12 ∷ 13 ∷ 14 ∷ 15 ∷ 16 ∷ 17 ∷ 18 ∷ 19
    ∷ 20 ∷ 21 ∷ 22 ∷ 23 ∷ 24 ∷ 25 ∷ 26 ∷ 27 ∷ 28 ∷ 29 ∷ 30 ∷ 31 ∷ []

-- A hello for `a.de`, with another extension before the server name.
abbrev hello : ClientHello
hello = record {
  random = random_bytes;
  session_id = 1 ∷ 2 ∷ [];
  cipher_suites = 0x13 ∷ 1 ∷ [];
  compression_methods = 0 ∷ [];
  before = (record { ext_type = 43; body = 2 ∷ 3 ∷ 4 ∷ [] }) ∷ [];
  host = b'a' ∷ b'.' ∷ b'd' ∷ b'e' ∷ [];
  after = [];
}

hello-IsHello : IsHello hello
hello-IsHello = record {
  random_size = refl;
  session_fits = omega arith;
  ciphers_fit = omega arith;
  methods_fit = omega arith;
  extensions_fit = omega arith;
  handshake_fits = omega arith;
  host_named = omega arith;
  host_fits = omega arith;
  others =
      (record { other_type = omega arith; type_fits = omega arith; body_fits = omega arith }, tt);
}

parse_client_hello-encode_hello_example :
    parse_client_hello (encode_hello hello ++ (99 ∷ []))
    ≡ some (record { is_tls = true; is_client_hello = true; sni = hello.host })
parse_client_hello-encode_hello_example =
    parse_client_hello-encode_hello hello (99 ∷ []) hello-IsHello

-- A record that claims more bytes than it has.
parse_client_hello-total_example :
    (r : TlsParseResult) × (parse_client_hello (22 ∷ 3 ∷ 1 ∷ 0 ∷ 200 ∷ 1 ∷ 0 ∷ 0 ∷ 196 ∷ 3 ∷ [])
      ≡ some r)
parse_client_hello-total_example =
    parse_client_hello-total (22 ∷ 3 ∷ 1 ∷ 0 ∷ 200 ∷ 1 ∷ 0 ∷ 0 ∷ 196 ∷ 3 ∷ [])

-- `b.de`, a subdomain of it in capitals, and a list that holds it.
abbrev b_de : Domain
b_de = b'b' ∷ b'.' ∷ b'd' ∷ b'e' ∷ []

abbrev listed_b_de : DomainSet
listed_b_de = b_de ∷ []

is_blocked_lem_example : is_blocked listed_b_de (b'W' ∷ b'.' ∷ b_de) ≡ (
    not (length (b'W' ∷ b'.' ∷ b_de) == 0)
    && leb (length (b'W' ∷ b'.' ∷ b_de)) 255
    && (listed listed_b_de (lower (b'W' ∷ b'.' ∷ b_de))
        || some_parent_listed listed_b_de (lower (b'W' ∷ b'.' ∷ b_de))))
is_blocked_lem_example = is_blocked_lem listed_b_de (b'W' ∷ b'.' ∷ b_de)

allowed_here : is_allowed listed_b_de (b'W' ∷ b'.' ∷ b_de) ≡ true
unfolding is_allowed listed behind_dot parent_listed
allowed_here = refl

b_de-listed : listed listed_b_de (lower b_de) ≡ true
unfolding listed
b_de-listed = refl

w_b_de_fresh : listed listed_b_de (lower ((b'W' ∷ []) ++ (b'.' ∷ b_de))) ≡ false
unfolding listed
w_b_de_fresh = refl

is_blocked-subdomain_example :
    (is_blocked listed_b_de (b'W' ∷ b'.' ∷ b_de) ≡ true)
    × (is_allowed listed_b_de (b'W' ∷ b'.' ∷ b_de) ≡ true)
is_blocked-subdomain_example =
    is_blocked-subdomain listed_b_de (b'W' ∷ []) b_de refl b_de-listed (omega arith) w_b_de_fresh

-- A line with blanks about the domain, and a comment.
abbrev padded : List ℕ
padded = 32 ∷ (b'B' ∷ b'.' ∷ b'd' ∷ b'e' ∷ 32 ∷ 13 ∷ [])

abbrev comment : List ℕ
comment = b'#' ∷ b'x' ∷ []

padded_line : parse_line padded ≡ some (b'B' ∷ b'.' ∷ b'd' ∷ b'e' ∷ [])
unfolding parse_line strip_end strip_start
padded_line = refl
