-- ===== src/Tls/Parser/Safety.antt =====
-- The reads of `parse_client_hello`, and the ends of its loop.
use intrusion_detection.Base.{
  ℕ, zero, suc, ◌+◌, ◌≤◌, ◌<◌, ◌≡◌, ◌≢◌, true, List, [], length, get_elem?, get_elem?-ne-none,
  Option, none, some, Option-cases, arith, inl, inr,
}
use intrusion_detection.Tls.Parser.{
  TlsParseResult, read_u16_be, view, parse_server_name, parse_extensions, skip_block8, skip_block16,
  parse_extension_block, parse_hello_body, parse_handshake, parse_client_hello,
}

read_u16_be-ne-none : (p : List ℕ) (i : ℕ) → i + 1 < length p → read_u16_be p i ≢ none
unfolding read_u16_be
read_u16_be-ne-none p i h = ground (arith, get_elem?-ne-none p i, get_elem?-ne-none p (i + 1))

parse_server_name-ne-none :
    (p : List ℕ) (offset ext_len end : ℕ)
    → offset + ext_len ≤ end
    → end ≤ length p
    → parse_server_name p offset ext_len end ≢ none
unfolding parse_server_name view
parse_server_name-ne-none p offset ext_len end h he = ground (
  arith,
  read_u16_be-ne-none p offset,
  get_elem?-ne-none p (offset + 2),
  read_u16_be-ne-none p (offset + 3),
)

parse_extensions-ne-none :
    (fuel : ℕ) (p : List ℕ) (offset end : ℕ)
    → end < offset + fuel
    → offset ≤ end
    → end ≤ length p
    → parse_extensions fuel p offset end ≢ none
unfolding parse_extensions
parse_extensions-ne-none zero p offset end hf ho he = absurd (omega arith)
parse_extensions-ne-none (suc fuel) p offset end hf ho he =
    elim (Option-cases (read_u16_be p (offset + 2))) [
      | inl e ↦ ground (arith, read_u16_be-ne-none p offset, read_u16_be-ne-none p (offset + 2))
      | inr (ext_len, e) ↦ ground (
        arith,
        read_u16_be-ne-none p offset,
        parse_server_name-ne-none p (offset + 4) ext_len end,
        parse_extensions-ne-none fuel p (offset + 4 + ext_len) end,
      )
    ]

module _ (p : List ℕ) (result : TlsParseResult) where
  skip_block8-ne-none :
      (offset : ℕ) (next : ℕ → Option TlsParseResult)
      → ((o : ℕ) → 43 < o → next o ≢ none)
      → 42 < offset
      → skip_block8 p result offset next ≢ none
  unfolding skip_block8
  skip_block8-ne-none offset next h low = elim (Option-cases (get_elem? p offset)) [
    | inl e ↦ ground (arith, get_elem?-ne-none p offset)
    | inr (n, e) ↦ ground (arith, h (offset + (1 + n)))
  ]

  skip_block16-ne-none :
      (offset : ℕ) (next : ℕ → Option TlsParseResult)
      → ((o : ℕ) → 43 < o → next o ≢ none)
      → 42 < offset
      → skip_block16 p result offset next ≢ none
  unfolding skip_block16
  skip_block16-ne-none offset next h low = elim (Option-cases (read_u16_be p offset)) [
    | inl e ↦ ground (arith, read_u16_be-ne-none p offset)
    | inr (n, e) ↦ ground (arith, h (offset + (2 + n)))
  ]

  parse_extension_block-ne-none :
      (offset : ℕ) → 42 < offset → parse_extension_block p result offset ≢ none
  unfolding parse_extension_block
  parse_extension_block-ne-none offset low = elim (Option-cases (read_u16_be p offset)) [
    | inl e ↦ ground (arith, read_u16_be-ne-none p offset)
    | inr (n, e) ↦
        ground (arith, parse_extensions-ne-none (length p) p (offset + 2) (offset + 2 + n))
  ]

  parse_hello_body-ne-none : parse_hello_body p result ≢ none
  unfolding parse_hello_body
  parse_hello_body-ne-none =
      skip_block8-ne-none 43 _
        (λ o₁ h₁.
          skip_block16-ne-none o₁ _
            (λ o₂ h₂.
              skip_block8-ne-none o₂ _ (λ o₃ h₃. parse_extension_block-ne-none o₃ (omega arith))
                (omega arith))
            (omega arith))
        (omega arith)

-- For every payload, of any length and with any lengths inside, the parser reads inside the payload
-- alone, its loop ends, and it returns a result.
pub parse_client_hello-total : (p : List ℕ) → (r : TlsParseResult) × (parse_client_hello p ≡ some r)
unfolding parse_client_hello parse_handshake
parse_client_hello-total p = elim (Option-cases (parse_client_hello p)) [
  | inr found ↦ found
  | inl e ↦ absurd (
      ground (
        arith,
        get_elem?-ne-none p 0,
        get_elem?-ne-none p 5,
        read_u16_be-ne-none p 1,
        read_u16_be-ne-none p 3,
        parse_hello_body-ne-none p (record { is_tls = true; is_client_hello = true; sni = [] }),
      ))
]
