-- ===== src/Rules/Ports/Ranges.antt =====
-- The ports that a parsed range matches.
use mathlib.Core.Path.{subst}
use intrusion_detection.Base.{
  ℕ, ◌+◌, ◌≤◌, ◌<◌, ◌≡◌, ◌≢◌, ◌⊎◌, inl, inr, ◌↔◌, refl, ap, ◌∙◌, true, false, List, [], ◌∷◌, ◌++◌,
  none, some, length, arith, append-nil,
}
use intrusion_detection.Rules.{matches}
use intrusion_detection.Rules.Text.{
  is_blank, drop_while_end, trim, split_at, from_chars_below, read_number,
}
use intrusion_detection.Rules.Text.Digits.{
  digits_text, digits_value, AllDigits, from_chars_below-digits_text,
}
use intrusion_detection.Rules.Ports.{u16_bound, single_port, parse_ports, parse_port_range}

-- No blank is in the text.
abbrev pub NoBlank : List ℕ → Type 0
NoBlank [] = Unit
NoBlank (c ∷ xs) = (is_blank c ≡ false) × NoBlank xs

drop_while_end-NoBlank : (xs : List ℕ) → NoBlank xs → drop_while_end is_blank xs ≡ xs
drop_while_end-NoBlank [] h = refl
drop_while_end-NoBlank (c ∷ []) h = ground arith
drop_while_end-NoBlank (c ∷ d ∷ xs) h = rw (drop_while_end-NoBlank (d ∷ xs) h.1) refl

trim-NoBlank : (xs : List ℕ) → NoBlank xs → trim xs ≡ xs
trim-NoBlank [] h = refl
trim-NoBlank (c ∷ xs) h = ground (arith, drop_while_end-NoBlank (c ∷ xs) h)

digits_text-NoBlank :
    (ds rest : List ℕ) → AllDigits ds → NoBlank rest → NoBlank (digits_text ds ++ rest)
digits_text-NoBlank [] rest h n = n
digits_text-NoBlank (d ∷ ds) rest h n = (ground arith, digits_text-NoBlank ds rest h.1 n)

-- A text that starts with a digit is none of the names.
parse_port_range-digit :
    (d : ℕ) (xs : List ℕ)
    → d < 10
    → NoBlank xs
    → parse_port_range ((48 + d) ∷ xs) ≡ parse_ports ((48 + d) ∷ xs)
unfolding parse_port_range
parse_port_range-digit d xs h n = rw (trim-NoBlank ((48 + d) ∷ xs) (ground arith, n)) (ground arith)

split_at-digits :
    (ds rest : List ℕ)
    → AllDigits ds
    → (split_at b':' (digits_text ds) ≡ none)
      × (split_at b':' (digits_text ds ++ (b':' ∷ rest)) ≡ some (digits_text ds, rest))
split_at-digits [] rest h = (refl, refl)
split_at-digits (d ∷ ds) rest h = ground (arith, split_at-digits ds rest h.1)

digits_text-NoBlank_only : (ds : List ℕ) → AllDigits ds → NoBlank (digits_text ds)
digits_text-NoBlank_only ds h =
    subst NoBlank (append-nil (digits_text ds)) (digits_text-NoBlank ds [] h tt)

read-digits :
    (d : ℕ) (ds : List ℕ)
    → AllDigits (d ∷ ds)
    → digits_value 0 (d ∷ ds) < 65536
    → from_chars_below u16_bound (digits_text (d ∷ ds)) ≡ some (digits_value 0 (d ∷ ds))
read-digits d ds h small =
    subst (λ t. from_chars_below u16_bound t ≡ some (digits_value 0 (d ∷ ds)))
      (append-nil (digits_text (d ∷ ds)))
      (from_chars_below-digits_text u16_bound d ds [] h tt small)

parse_ports-none :
    (s : List ℕ)
    → split_at b':' s ≡ none
    → parse_ports s ≡ single_port (from_chars_below u16_bound s)
unfolding parse_ports
parse_ports-none s e = ground arith

parse_ports-some :
    (s low_part high_part : List ℕ) (low high : ℕ)
    → split_at b':' s ≡ some (low_part, high_part)
    → 0 < length low_part
    → 0 < length high_part
    → from_chars_below u16_bound low_part ≡ some low
    → from_chars_below u16_bound high_part ≡ some high
    → parse_ports s ≡ record { low = low; high = high; is_any = false }
unfolding parse_ports
parse_ports-some s low_part high_part low high e hl hh el eh = ground arith

parse_port_range-single :
    (d : ℕ) (ds : List ℕ)
    → AllDigits (d ∷ ds)
    → digits_value 0 (d ∷ ds) < 65536
    → parse_port_range (digits_text (d ∷ ds))
      ≡ record { low = digits_value 0 (d ∷ ds); high = digits_value 0 (d ∷ ds); is_any = false }
parse_port_range-single d ds h small =
    parse_port_range-digit d (digits_text ds) h.0 (digits_text-NoBlank_only ds h.1)
    ∙ parse_ports-none (digits_text (d ∷ ds)) (split_at-digits (d ∷ ds) [] h).0
    ∙ ap single_port (read-digits d ds h small)

parse_port_range-pair :
    (d e : ℕ) (ds es : List ℕ)
    → AllDigits (d ∷ ds)
    → AllDigits (e ∷ es)
    → digits_value 0 (d ∷ ds) < 65536
    → digits_value 0 (e ∷ es) < 65536
    → parse_port_range (digits_text (d ∷ ds) ++ (b':' ∷ digits_text (e ∷ es)))
      ≡ record { low = digits_value 0 (d ∷ ds); high = digits_value 0 (e ∷ es); is_any = false }
parse_port_range-pair d e ds es h k small small' =
    parse_port_range-digit d (digits_text ds ++ (b':' ∷ digits_text (e ∷ es))) h.0 (
      digits_text-NoBlank ds (b':' ∷ digits_text (e ∷ es)) h.1
        (refl, digits_text-NoBlank_only (e ∷ es) k))
    ∙ parse_ports-some (digits_text (d ∷ ds) ++ (b':' ∷ digits_text (e ∷ es)))
        (digits_text (d ∷ ds)) (digits_text (e ∷ es)) _ _
        (split_at-digits (d ∷ ds) (digits_text (e ∷ es)) h).1 (omega arith) (omega arith)
        (read-digits d ds h small) (read-digits e es k small')

-- A port in digits is matched by itself and no other port.
pub parse_port_range-port :
    (d : ℕ) (ds : List ℕ) (port : ℕ)
    → AllDigits (d ∷ ds)
    → digits_value 0 (d ∷ ds) < 65536
    → (matches (parse_port_range (digits_text (d ∷ ds))) port ≡ true)
      ↔ (port ≡ digits_value 0 (d ∷ ds))
unfolding matches
parse_port_range-port d ds port h small = rw (parse_port_range-single d ds h small) (ground arith)

-- A range of two ports in digits matches the ports from the one to the other and no others.
pub parse_port_range-range :
    (d e : ℕ) (ds es : List ℕ) (port : ℕ)
    → AllDigits (d ∷ ds)
    → AllDigits (e ∷ es)
    → digits_value 0 (d ∷ ds) < 65536
    → digits_value 0 (e ∷ es) < 65536
    → (matches (parse_port_range (digits_text (d ∷ ds) ++ (b':' ∷ digits_text (e ∷ es)))) port
        ≡ true)
      ↔ ((digits_value 0 (d ∷ ds) ≤ port) × (port ≤ digits_value 0 (e ∷ es)))
unfolding matches
parse_port_range-range d e ds es port h k small small' =
    rw (parse_port_range-pair d e ds es h k small small') (ground arith)

-- No blank and no colon is in the text.
abbrev pub IsPlain : List ℕ → Type 0
IsPlain [] = Unit
IsPlain (c ∷ xs) = (is_blank c ≡ false) × (c ≢ b':') × IsPlain xs

IsPlain-NoBlank : (xs : List ℕ) → IsPlain xs → NoBlank xs
IsPlain-NoBlank [] h = tt
IsPlain-NoBlank (c ∷ xs) h = (h.0, IsPlain-NoBlank xs h.2)

split_at-IsPlain : (xs : List ℕ) → IsPlain xs → split_at b':' xs ≡ none
split_at-IsPlain [] h = refl
split_at-IsPlain (c ∷ xs) h = ground (arith, split_at-IsPlain xs h.2)

digits_text-IsPlain :
    (ds rest : List ℕ) → AllDigits ds → IsPlain rest → IsPlain (digits_text ds ++ rest)
digits_text-IsPlain [] rest h n = n
digits_text-IsPlain (d ∷ ds) rest h n =
    (ground arith, omega (arith, h.0), digits_text-IsPlain ds rest h.1 n)

-- A text that starts with `!` or `[` and has neither blanks nor colons is read as any port.
marked_port :
    (c : ℕ) (xs : List ℕ) (port : ℕ)
    → (c ≡ b'!') ⊎ (c ≡ b'[')
    → IsPlain xs
    → matches (parse_port_range (c ∷ xs)) port ≡ true
unfolding matches parse_ports parse_port_range from_chars_below read_number
marked_port c xs port mark h =
    let plain : IsPlain (c ∷ xs) = (ground arith, ground arith, h) in
    let split = split_at-IsPlain (c ∷ xs) plain in
    rw (trim-NoBlank (c ∷ xs) (IsPlain-NoBlank (c ∷ xs) plain)) (ground arith)

-- The negation of a port in digits matches every port, that port with them, and so does the list of two
-- ports in brackets.
pub parse_port_range_unread :
    (d e : ℕ) (ds es : List ℕ) (port : ℕ)
    → AllDigits (d ∷ ds)
    → AllDigits (e ∷ es)
    → (matches (parse_port_range (b'!' ∷ digits_text (d ∷ ds))) port ≡ true)
      × (matches
            (parse_port_range
              (b'[' ∷ (digits_text (d ∷ ds) ++ (b',' ∷ (digits_text (e ∷ es) ++ (b']' ∷ []))))))
            port
          ≡ true)
parse_port_range_unread d e ds es port h k =
    let list = digits_text-IsPlain (e ∷ es) (b']' ∷ []) k (refl, omega arith, tt) in
    let negated =
      subst IsPlain (append-nil (digits_text (d ∷ ds))) (digits_text-IsPlain (d ∷ ds) [] h tt) in
    (
      marked_port b'!' (digits_text (d ∷ ds)) port (inl refl) negated,
      marked_port b'[' (digits_text (d ∷ ds) ++ (b',' ∷ (digits_text (e ∷ es) ++ (b']' ∷ [])))) port
          (inr refl)
          (digits_text-IsPlain (d ∷ ds) (b',' ∷ (digits_text (e ∷ es) ++ (b']' ∷ []))) h
            (refl, omega arith, list)),
    )
