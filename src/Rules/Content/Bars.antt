-- ===== src/Rules/Content/Bars.antt =====
-- Bytes between bars in a content, and the regular expression that they become.
use intrusion_detection.Base.{
  zero, suc, ltb, if◌then◌else◌, Bool, ℕ, ◌+◌, ◌*◌, ◌/◌, ◌%◌, ◌<◌, ◌≡◌, ◌≢◌, refl, sym, ap, ◌∙◌,
  true, false, List, [], ◌∷◌, ◌++◌, Option, none, some, arith, append_assoc,
}
use intrusion_detection.Rules.Text.{is_blank}
use intrusion_detection.Rules.Content.{
  hex_char_to_val, hex_digit, hex_escape, HexState, in_text, in_bytes, normalize_char,
  normalize_from,
}
use intrusion_detection.Rules.Content.Literal.{
  and_bytes, and_bytes-nil, literal_bytes, read_literals-hex_escape, hex_char_to_val-hex_digit,
}

-- A byte between bars, as it may be written: with capital digits or not, and with so many spaces in
-- front of it, between its digits and behind it.
pub record HexByte : Type 0 where
  pub byte : ℕ
  pub high_upper : Bool
  pub low_upper : Bool
  pub ahead : ℕ
  pub between : ℕ
  pub behind : ℕ

abbrev pub hex_text : List ℕ → List ℕ
hex_text [] = []
hex_text (b ∷ bs) = hex_digit (b / 16) ∷ hex_digit (b % 16) ∷ b' ' ∷ hex_text bs

abbrev pub digit_char : Bool → ℕ → ℕ
digit_char upper d = if ltb d 10 then b'0' + d else if upper then 55 + d else 87 + d

abbrev pub spaces : ℕ → List ℕ
spaces zero = []
spaces (suc n) = b' ' ∷ spaces n

-- The byte as it is written, in front of a text, and several of them.
abbrev pub mark : HexByte → List ℕ → List ℕ
mark h rest =
    spaces h.ahead
    ++ (digit_char h.high_upper (h.byte / 16)
        ∷ (spaces h.between ++ (digit_char h.low_upper (h.byte % 16) ∷ (spaces h.behind ++ rest))))

abbrev pub written : List HexByte → List ℕ → List ℕ
written [] rest = rest
written (h ∷ hs) rest = mark h (written hs rest)

abbrev pub bytes_of : List HexByte → List ℕ
bytes_of [] = []
bytes_of (h ∷ hs) = h.byte ∷ bytes_of hs

abbrev pub AllBytes : List ℕ → Type 0
AllBytes [] = Unit
AllBytes (b ∷ bs) = (b < 256) × AllBytes bs

pub and_bytes-append :
    (xs ys : List ℕ) (o : Option (List ℕ)) → and_bytes xs (and_bytes ys o) ≡ and_bytes (xs ++ ys) o
and_bytes-append xs ys none = refl
and_bytes-append xs ys (some zs) = ap some (sym (append_assoc xs ys zs))

-- A character that stands for the hexadecimal digit `d`, and is neither a bar nor blank.
record IsDigit (c d : ℕ) : Type 0 where
  no_bar : c ≢ b'|'
  no_blank : is_blank c ≡ false
  value : hex_char_to_val c ≡ some d

hex_digit-IsDigit : (d : ℕ) → d < 16 → IsDigit (hex_digit d) d
unfolding hex_digit
hex_digit-IsDigit d h = record {
  no_bar = ground arith;
  no_blank = ground arith;
  value = hex_char_to_val-hex_digit d h;
}

digit_char-IsDigit : (upper : Bool) (d : ℕ) → d < 16 → IsDigit (digit_char upper d) d
unfolding hex_char_to_val
digit_char-IsDigit upper d h = record {
  no_bar = ground arith;
  no_blank = ground arith;
  value = ground arith;
}

-- The state behind the first digit of a byte.
abbrev half_byte : ℕ → HexState
half_byte c = record { in_hex = true; hex_byte = some c }

normalize_char-first : (c d : ℕ) → IsDigit c d → normalize_char in_bytes c ≡ (half_byte c, [])
unfolding normalize_char
normalize_char-first c d h = ground (arith, h.no_bar, h.no_blank)

normalize_char-second :
    (c d k l : ℕ)
    → IsDigit c d
    → IsDigit k l
    → normalize_char (half_byte c) k ≡ (in_bytes, hex_escape (d * 16 + l))
unfolding normalize_char
normalize_char-second c d k l hd hl = ground (arith, hl.no_bar, hl.no_blank, hd.value, hl.value)

normalize_char-blank : normalize_char in_bytes b' ' ≡ (in_bytes, [])
unfolding normalize_char
normalize_char-blank = refl

pub normalize_char-bar :
    (normalize_char in_text b'|' ≡ (in_bytes, [])) × (normalize_char in_bytes b'|' ≡ (in_text, []))
unfolding normalize_char
normalize_char-bar = (refl, refl)

pub normalize_from-byte :
    (b : ℕ) (rest : List ℕ)
    → b < 256
    → normalize_from in_bytes (hex_digit (b / 16) ∷ hex_digit (b % 16) ∷ b' ' ∷ rest)
      ≡ hex_escape b ++ normalize_from in_bytes rest
unfolding normalize_from
normalize_from-byte b rest h =
    rw
      (
        normalize_char-first (hex_digit (b / 16)) (b / 16)
            (hex_digit-IsDigit (b / 16) (omega arith)),
        normalize_char-second (hex_digit (b / 16)) (b / 16) (hex_digit (b % 16)) (b % 16)
            (hex_digit-IsDigit (b / 16) (omega arith)) (hex_digit-IsDigit (b % 16) (omega arith)),
        normalize_char-blank,
      )
      (ap (λ x. hex_escape x ++ normalize_from in_bytes rest) (omega arith))

pub read-hex_text :
    (bs rest : List ℕ)
    → AllBytes bs
    → literal_bytes (normalize_from in_bytes (hex_text bs ++ rest))
      ≡ and_bytes bs (literal_bytes (normalize_from in_bytes rest))
unfolding normalize_from
read-hex_text [] rest h = sym (and_bytes-nil _)
read-hex_text (b ∷ bs) rest h =
    ap literal_bytes (normalize_from-byte b (hex_text bs ++ rest) h.0)
    ∙ read_literals-hex_escape b (normalize_from in_bytes (hex_text bs ++ rest)) h.0
    ∙ ap (and_bytes (b ∷ [])) (read-hex_text bs rest h.1)
    ∙ and_bytes-append (b ∷ []) bs (literal_bytes (normalize_from in_bytes rest))

skip_spaces :
    (st : HexState) (n : ℕ) (rest : List ℕ)
    → st.in_hex ≡ true
    → normalize_from st (spaces n ++ rest) ≡ normalize_from st rest
unfolding normalize_from normalize_char
skip_spaces st zero rest h = refl
skip_spaces st (suc n) rest h = ground (arith, skip_spaces st n rest h)

normalize_from-second :
    (c d k l n : ℕ) (rest : List ℕ)
    → IsDigit c d
    → IsDigit k l
    → normalize_from (half_byte c) (k ∷ (spaces n ++ rest))
      ≡ hex_escape (d * 16 + l) ++ normalize_from in_bytes rest
unfolding normalize_from
normalize_from-second c d k l n rest hd hl =
    rw (normalize_char-second c d k l hd hl, skip_spaces in_bytes n rest refl) refl

normalize_from-mark :
    (h : HexByte) (rest : List ℕ)
    → h.byte < 256
    → normalize_from in_bytes (mark h rest) ≡ hex_escape h.byte ++ normalize_from in_bytes rest
unfolding normalize_from
normalize_from-mark h rest small =
    let first = k ∷ (spaces h.behind ++ rest) in
    let behind : normalize_from in_bytes (c ∷ (spaces h.between ++ first))
        ≡ hex_escape (high * 16 + low) ++ normalize_from in_bytes rest =
      rw (normalize_char-first c high hi)
        (skip_spaces (half_byte c) h.between first refl ∙ second) in
    let whole : high * 16 + low ≡ h.byte = omega arith in
    skip_spaces in_bytes h.ahead (c ∷ (spaces h.between ++ first)) refl
    ∙ behind
    ∙ ap (λ x. hex_escape x ++ normalize_from in_bytes rest) whole
  where
    high : ℕ
    high = h.byte / 16

    low : ℕ
    low = h.byte % 16

    c : ℕ
    c = digit_char h.high_upper high

    k : ℕ
    k = digit_char h.low_upper low

    hi : IsDigit c high
    hi = digit_char-IsDigit h.high_upper high (omega arith)

    lo : IsDigit k low
    lo = digit_char-IsDigit h.low_upper low (omega arith)

    second :
        normalize_from (half_byte c) (k ∷ (spaces h.behind ++ rest))
        ≡ hex_escape (high * 16 + low) ++ normalize_from in_bytes rest
    second = normalize_from-second c high k low h.behind rest hi lo

pub read-written :
    (hs : List HexByte) (rest : List ℕ)
    → AllBytes (bytes_of hs)
    → literal_bytes (normalize_from in_bytes (written hs rest))
      ≡ and_bytes (bytes_of hs) (literal_bytes (normalize_from in_bytes rest))
read-written [] rest a = sym (and_bytes-nil _)
read-written (h ∷ hs) rest a =
    ap literal_bytes (normalize_from-mark h (written hs rest) a.0)
    ∙ read_literals-hex_escape h.byte (normalize_from in_bytes (written hs rest)) a.0
    ∙ ap (and_bytes (h.byte ∷ [])) (read-written hs rest a.1)
    ∙ and_bytes-append (h.byte ∷ []) (bytes_of hs) (literal_bytes (normalize_from in_bytes rest))
