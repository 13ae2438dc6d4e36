-- ===== src/Tcp/Options.antt =====
-- `parse_tcp_syn_option`: the options of a SYN, read from the bytes of the TCP header.
use intrusion_detection.Base.{
  ℕ, zero, suc, ◌+◌, ◌*◌, ◌≤◌, ◌<◌, ◌≡◌, Bool, true, false, ◌||◌, ltb, leb, ◌==◌, List, length,
  get_elem?, Option, none, some, ◌>>=◌, if◌then◌else◌, arith, inl, inr, ◌≢◌, get_elem?-ne-none,
  Option-cases,
}

-- `TcpNegotiatedParams`
pub record NegotiatedParams : Type 0 where
  pub mss : ℕ
  pub wscale : ℕ
  pub sack_permitted : Bool

abbrev pub default_params : NegotiatedParams
default_params = record { mss = 1460; wscale = 0; sack_permitted = false }

-- `ntohs(*reinterpret_cast<const uint16_t *>(bytes + i))`
abbrev pub read_u16 : List ℕ → ℕ → Option ℕ
read_u16 bytes i = do
  high ← get_elem? bytes i
  low ← get_elem? bytes (i + 1)
  some (high * 256 + low)

-- The `switch` on the kind of the option at `opt`.
unfoldable pub apply_option : ℕ → ℕ → List ℕ → ℕ → NegotiatedParams → Option NegotiatedParams
apply_option kind len header opt out =
    if kind == 2
    then if len == 4
      then read_u16 header (opt + 2) >>= (λ m. some (record out { mss = m }))
      else some out
    else if kind == 3
    then if len == 3
      then get_elem? header (opt + 2)
        >>= (λ w. some (record out { wscale = if ltb 14 w then 14 else w }))
      else some out
    else if kind == 4
    then if len == 2 then some (record out { sack_permitted = true }) else some out
    else some out

-- The loop, at offset `opt` of the header. `none` is a read past the header's bytes, or no fuel.
unfoldable pub parse_options : ℕ → List ℕ → ℕ → ℕ → NegotiatedParams → Option NegotiatedParams
parse_options zero header opt end out = none
parse_options (suc fuel) header opt end out =
    let next = parse_options fuel header (opt + 1) end out in
    if leb end opt
    then some out
    else get_elem? header opt >>= (λ kind.
      if kind == 0
      then some out
      else if kind == 1
      then next
      else if leb end (opt + 1)
      then some out
      else get_elem? header (opt + 1) >>= (λ len.
        if ltb len 2 || ltb end (opt + len)
        then some out
        else apply_option kind len header opt out
          >>= (λ out'. parse_options fuel header (opt + len) end out')))

-- A round takes at least one byte, so the length of the header is fuel enough.
unfoldable pub parse_tcp_syn_option : List ℕ → ℕ → NegotiatedParams → Option NegotiatedParams
parse_tcp_syn_option header doff out =
    let tcp_hdr_len = doff * 4 in
    if leb tcp_hdr_len 20 then some out else parse_options tcp_hdr_len header 20 tcp_hdr_len out

-- `max shift 14`
abbrev pub IsNegotiable : NegotiatedParams → Type 0
IsNegotiable p = p.wscale ≤ 14

apply_option-ne-none :
    (kind len : ℕ) (header : List ℕ) (opt : ℕ) (out : NegotiatedParams)
    → opt + len ≤ length header
    → apply_option kind len header opt out ≢ none
unfolding apply_option
apply_option-ne-none kind len header opt out h =
    ground (arith, get_elem?-ne-none header (opt + 2), get_elem?-ne-none header (opt + 2 + 1))

apply_option-IsNegotiable :
    (kind len : ℕ) (header : List ℕ) (opt : ℕ) (out r : NegotiatedParams)
    → apply_option kind len header opt out ≡ some r
    → IsNegotiable out
    → IsNegotiable r
unfolding apply_option
apply_option-IsNegotiable kind len header opt out r e ok = ground arith

parse_options-ne-none :
    (fuel : ℕ) (header : List ℕ) (opt end : ℕ) (out : NegotiatedParams)
    → opt ≤ end
    → end < opt + fuel
    → end ≤ length header
    → parse_options fuel header opt end out ≢ none
unfolding parse_options
parse_options-ne-none zero header opt end out ho hf he = absurd (omega arith)
parse_options-ne-none (suc fuel) header opt end out ho hf he =
    elim (Option-cases (get_elem? header opt)) [
      | inl e ↦ ground (arith, get_elem?-ne-none header opt)
      | inr (kind, e) ↦ elim (Option-cases (get_elem? header (opt + 1))) [
        | inl e₁ ↦ ground (
          arith,
          get_elem?-ne-none header (opt + 1),
          parse_options-ne-none fuel header (opt + 1) end out,
        )
        | inr (len, e₁) ↦ elim (Option-cases (apply_option kind len header opt out)) [
          | inl e₂ ↦ ground (
            arith,
            apply_option-ne-none kind len header opt out,
            parse_options-ne-none fuel header (opt + 1) end out,
          )
          | inr (out', e₂) ↦ ground (
            arith,
            parse_options-ne-none fuel header (opt + 1) end out,
            parse_options-ne-none fuel header (opt + len) end out',
          )
        ]
      ]
    ]

parse_options-IsNegotiable :
    (fuel : ℕ) (header : List ℕ) (opt end : ℕ) (out r : NegotiatedParams)
    → parse_options fuel header opt end out ≡ some r
    → IsNegotiable out
    → IsNegotiable r
unfolding parse_options
parse_options-IsNegotiable zero header opt end out r h ok = ground arith
parse_options-IsNegotiable (suc fuel) header opt end out r h ok =
    elim (Option-cases (get_elem? header opt)) [
      | inl e ↦ ground arith
      | inr (kind, e) ↦ elim (Option-cases (get_elem? header (opt + 1))) [
        | inl e₁ ↦ ground (arith, parse_options-IsNegotiable fuel header (opt + 1) end out r)
        | inr (len, e₁) ↦ elim (Option-cases (apply_option kind len header opt out)) [
          | inl e₂ ↦ ground (arith, parse_options-IsNegotiable fuel header (opt + 1) end out r)
          | inr (out', e₂) ↦ ground (
            arith,
            apply_option-IsNegotiable kind len header opt out out',
            parse_options-IsNegotiable fuel header (opt + 1) end out r,
            parse_options-IsNegotiable fuel header (opt + len) end out' r,
          )
        ]
      ]
    ]

-- If the header's `doff * 4` bytes are in memory, the parser reads none past them and ends, whatever
-- lengths the options claim; the window scale it leaves is at most 14 if it was before.
pub parse_tcp_syn_option-total :
    (header : List ℕ) (doff : ℕ) (out : NegotiatedParams)
    → doff * 4 ≤ length header
    → IsNegotiable out
    → (r : NegotiatedParams) × (parse_tcp_syn_option header doff out ≡ some r) × IsNegotiable r
unfolding parse_tcp_syn_option
parse_tcp_syn_option-total header doff out h ok =
    elim (Option-cases (parse_tcp_syn_option header doff out)) [
      | inl e ↦ absurd (ground (arith, parse_options-ne-none (doff * 4) header 20 (doff * 4) out))
      | inr (r, e) ↦
          (r, e, ground (arith, parse_options-IsNegotiable (doff * 4) header 20 (doff * 4) out r))
    ]
