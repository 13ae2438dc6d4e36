-- ===== src/Tls/Parser/Hello.antt =====
-- A whole ClientHello record, as a client writes it, and what the parser makes of it.
use intrusion_detection.Base.{
  ℕ, ◌+◌, ◌/◌, ◌%◌, ◌≤◌, ◌<◌, ◌≡◌, refl, ap, ◌∙◌, true, List, [], ◌∷◌, ◌++◌, length, length-append,
  Option, some, arith,
}
use intrusion_detection.Tls.Parser.{
  TlsParseResult, skip_block8, skip_block16, parse_extension_block, parse_hello_body,
  parse_handshake, parse_client_hello,
}
use intrusion_detection.Tls.Parser.Roundtrip.{
  u16, Extension, encode_extension, encode_extensions, server_name, AllOther, read_u16_be-u16,
  get_elem?-byte, parse_extensions-host, regroup,
}

-- The fields of a ClientHello: version and random together, and the extensions before and behind the
-- server name.
pub record ClientHello : Type 0 where
  pub random : List ℕ
  pub session_id : List ℕ
  pub cipher_suites : List ℕ
  pub compression_methods : List ℕ
  pub before : List Extension
  pub host : List ℕ
  pub after : List Extension

abbrev pub extension_bytes : ClientHello → List ℕ
extension_bytes h =
    encode_extensions h.before
    ++ (encode_extension (server_name h.host) ++ encode_extensions h.after)

-- What follows on the version and the random bytes.
abbrev pub tail_bytes : ClientHello → List ℕ
tail_bytes h =
    length h.session_id
    ∷ (h.session_id
        ++ (u16 (length h.cipher_suites)
            ++ (h.cipher_suites
                ++ (length h.compression_methods
                    ∷ (h.compression_methods
                        ++ (u16 (length (extension_bytes h)) ++ extension_bytes h))))))

abbrev pub handshake_bytes : ClientHello → List ℕ
handshake_bytes h =
    let n = length (h.random ++ tail_bytes h) in
    1 ∷ (n / 65536 ∷ (u16 (n % 65536) ++ (h.random ++ tail_bytes h)))

abbrev pub encode_hello : ClientHello → List ℕ
encode_hello h = 22 ∷ (3 ∷ (1 ∷ (u16 (length (handshake_bytes h)) ++ handshake_bytes h)))

-- The fields fit the lengths that the format has for them.
pub record IsHello (h : ClientHello) : Type 0 where
  pub random_size : length h.random ≡ 34
  pub session_fits : length h.session_id < 256
  pub ciphers_fit : length h.cipher_suites < 65536
  pub methods_fit : length h.compression_methods < 256
  pub extensions_fit : length (extension_bytes h) < 65536
  pub handshake_fits : length (handshake_bytes h) < 65536
  pub host_named : 0 < length h.host
  pub host_fits : length h.host < 65531
  pub others : AllOther h.before

module _ (p : List ℕ) (r : TlsParseResult) (next : ℕ → Option TlsParseResult) where
  skip_block8-block :
      (pre block rest : List ℕ) (offset : ℕ)
      → p ≡ pre ++ (length block ∷ (block ++ rest))
      → offset ≡ length pre
      → skip_block8 p r offset next ≡ next (offset + (1 + length block))
  unfolding skip_block8
  skip_block8-block pre block rest offset eq e = ground (
    arith,
    get_elem?-byte p pre (block ++ rest) (length block) offset eq e,
    ap length eq,
    length-append pre (length block ∷ (block ++ rest)),
  )

  skip_block16-block :
      (pre block rest : List ℕ) (offset : ℕ)
      → p ≡ pre ++ (u16 (length block) ++ (block ++ rest))
      → offset ≡ length pre
      → length block < 65536
      → skip_block16 p r offset next ≡ next (offset + (2 + length block))
  unfolding skip_block16
  skip_block16-block pre block rest offset eq e fits = ground (
    arith,
    read_u16_be-u16 p pre (block ++ rest) (length block) offset eq fits e,
    ap length eq,
    length-append pre (u16 (length block) ++ (block ++ rest)),
  )

length-encode_extensions : (es : List Extension) → length es ≤ length (encode_extensions es)
length-encode_extensions [] = omega arith
length-encode_extensions (e ∷ es) =
    omega (
      arith,
      length-append (encode_extension e) (encode_extensions es),
      length-encode_extensions es,
    )

parse_extension_block-host :
    (h : ClientHello) (p pre post : List ℕ) (r : TlsParseResult) (offset : ℕ)
    → IsHello h
    → p ≡ pre ++ (u16 (length (extension_bytes h)) ++ (extension_bytes h ++ post))
    → offset ≡ length pre
    → parse_extension_block p r offset ≡ some (record r { sni = h.host })
unfolding parse_extension_block
parse_extension_block-host h p pre post r offset v eq e =
    let n = length (extension_bytes h) in
    let sn = encode_extension (server_name h.host) in
    ground (
      arith,
      read_u16_be-u16 p pre (extension_bytes h ++ post) n offset eq v.extensions_fit e,
      ap length eq,
      length-append pre (u16 n ++ (extension_bytes h ++ post)),
      length-append (extension_bytes h) post,
      length-append pre (u16 n),
      length-append (encode_extensions h.before) (sn ++ encode_extensions h.after),
      length-append (encode_extensions h.before) sn,
      length-append sn (encode_extensions h.after),
      length-encode_extensions h.before,
      parse_extensions-host h.before h.host (length p) p (pre ++ u16 n)
          (encode_extensions h.after ++ post) (offset + 2) (offset + 2 + n) v.others
          (eq ∙ simp regroup),
    )

parse_hello_body-host :
    (h : ClientHello) (p pre post : List ℕ) (r : TlsParseResult)
    → IsHello h
    → p ≡ pre ++ (tail_bytes h ++ post)
    → 43 ≡ length pre
    → parse_hello_body p r ≡ some (record r { sni = h.host })
unfolding parse_hello_body
parse_hello_body-host h p pre post r v eq e =
    let sid = h.session_id in
    let cs = h.cipher_suites in
    let ms = h.compression_methods in
    let ext = u16 (length (extension_bytes h)) ++ (extension_bytes h ++ post) in
    let pre₁ = pre ++ (length sid ∷ sid) in
    let pre₂ = pre₁ ++ (u16 (length cs) ++ cs) in
    let pre₃ = pre₂ ++ (length ms ∷ ms) in
    let e₁ : 43 + (1 + length sid) ≡ length pre₁ =
      omega (arith, length-append pre (length sid ∷ sid)) in
    let e₂ : 43 + (1 + length sid) + (2 + length cs) ≡ length pre₂ =
      omega (arith, length-append pre₁ (u16 (length cs) ++ cs)) in
    let e₃ : 43 + (1 + length sid) + (2 + length cs) + (1 + length ms) ≡ length pre₃ =
      omega (arith, length-append pre₂ (length ms ∷ ms)) in
    rw
      (skip_block8-block p r _ pre sid (u16 (length cs) ++ (cs ++ (length ms ∷ (ms ++ ext)))) 43
        (eq ∙ simp regroup) e)
      (rw
        (skip_block16-block p r _ pre₁ cs (length ms ∷ (ms ++ ext)) _ (eq ∙ simp regroup) e₁
          v.ciphers_fit)
        (rw (skip_block8-block p r _ pre₂ ms ext _ (eq ∙ simp regroup) e₂)
          (parse_extension_block-host h p pre₃ post r _ v (eq ∙ simp regroup) e₃)))

-- A ClientHello with any random bytes, session id, ciphers, compression methods and other extensions,
-- as long as each fits its length field, is recognised, and the server name found is its host name;
-- bytes behind the record make no difference.
pub parse_client_hello-encode_hello :
    (h : ClientHello) (post : List ℕ)
    → IsHello h
    → parse_client_hello (encode_hello h ++ post)
      ≡ some (record { is_tls = true; is_client_hello = true; sni = h.host })
unfolding parse_client_hello parse_handshake
parse_client_hello-encode_hello h post v =
    let p = encode_hello h ++ post in
    let n = length (handshake_bytes h) in
    let m = length (h.random ++ tail_bytes h) in
    let pre = 22 ∷ (3 ∷ (1 ∷ (u16 n ++ (1 ∷ (m / 65536 ∷ (u16 (m % 65536) ++ h.random)))))) in
    ground (
      arith,
      read_u16_be-u16 p (22 ∷ []) (u16 n ++ (handshake_bytes h ++ post)) 769 1 refl,
      read_u16_be-u16 p (22 ∷ (3 ∷ (1 ∷ []))) (handshake_bytes h ++ post) n 3 refl,
      length-append (h.random ++ tail_bytes h) post,
      length-append h.random (tail_bytes h),
      parse_hello_body-host h p pre post
          (record { is_tls = true; is_client_hello = true; sni = [] }) v (simp regroup),
    )
