-- ===== src/Rules/Content.antt =====
-- `normalize_content_to_regex`: the text of a `content` option as a regular expression.
pub mod Literal
pub mod Bars
pub mod Pieces
use intrusion_detection.Base.{
  ℕ, ◌+◌, ◌-◌, ◌*◌, ◌/◌, ◌%◌, Bool, true, false, not, ◌&&◌, ◌||◌, ltb, leb, ◌==◌, List, [], ◌∷◌,
  ◌++◌, Option, none, some, if◌then◌else◌,
}
use intrusion_detection.Rules.Text.{is_blank}

unfoldable pub hex_char_to_val : ℕ → Option ℕ
hex_char_to_val c =
    if leb b'0' c && leb c b'9'
    then some (c - b'0')
    else if leb b'a' c && leb c b'f'
    then some (c - b'a' + 10)
    else if leb b'A' c && leb c b'F'
    then some (c - b'A' + 10)
    else none

-- A digit of `%02x`.
unfoldable pub hex_digit : ℕ → ℕ
hex_digit d = if ltb d 10 then b'0' + d else b'a' + (d - 10)

-- `snprintf(buf, 5, "\\x%02x", byte)`.
abbrev pub hex_escape : ℕ → List ℕ
hex_escape byte = b'\\' ∷ b'x' ∷ hex_digit (byte / 16) ∷ hex_digit (byte % 16) ∷ []

abbrev pub is_special : ℕ → Bool
is_special c =
    c == b'\\'
    || (c == b'^'
        || (c == b'$'
            || (c == b'.'
                || (c == b'['
                    || (c == b']'
                        || (c == b'('
                            || (c == b')'
                                || (c == b'|'
                                    || (c == b'*'
                                        || (c == b'+'
                                            || (c == b'?' || (c == b'{' || c == b'}'))))))))))))

abbrev pub escape : ℕ → List ℕ
escape c = if is_special c then b'\\' ∷ c ∷ [] else c ∷ []

-- `in_hex`, and the first digit in `hex_byte`, if there is one.
pub record HexState : Type 0 where
  pub in_hex : Bool
  pub hex_byte : Option ℕ

abbrev pub in_text : HexState
in_text = record { in_hex = false; hex_byte = none }

abbrev pub in_bytes : HexState
in_bytes = record { in_hex = true; hex_byte = none }

-- What two digits append: nothing where one of them is no digit.
abbrev pub hex_pair : Option ℕ → Option ℕ → List ℕ
hex_pair (some h1) (some h2) = hex_escape (h1 * 16 + h2)
hex_pair _ _ = []

-- One round of the loop: the state, and what is appended.
unfoldable pub normalize_char : HexState → ℕ → HexState × List ℕ
normalize_char st c =
    if c == b'|'
    then (record { in_hex = not st.in_hex; hex_byte = none }, [])
    else if not st.in_hex
    then (st, escape c)
    else if is_blank c
    then (st, [])
    else elim st.hex_byte [
      | none ↦ (record st { hex_byte = some c }, [])
      | some d ↦ (record st { hex_byte = none }, hex_pair (hex_char_to_val d) (hex_char_to_val c))
    ]

unfoldable pub normalize_from : HexState → List ℕ → List ℕ
normalize_from st [] = []
normalize_from st (c ∷ raw) = let next = normalize_char st c in next.1 ++ normalize_from next.0 raw

unfoldable pub normalize_content_to_regex : List ℕ → List ℕ
normalize_content_to_regex raw = normalize_from in_text raw
