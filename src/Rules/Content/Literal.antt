-- ===== src/Rules/Content/Literal.antt =====
-- The regular expression of a content is a sequence of literals, and of the right ones.
use intrusion_detection.Base.{
  Bool, false, ◌||◌, ℕ, ◌+◌, ◌*◌, ◌/◌, ◌%◌, ◌<◌, ◌≡◌, refl, ap, ◌∙◌, ◌==◌, List, [], ◌∷◌, ◌++◌,
  Option, none, some, if◌then◌else◌, Option-cases, inl, inr, arith,
}
use intrusion_detection.Rules.Text.{codes}
use intrusion_detection.Rules.Content.{
  hex_char_to_val, hex_digit, hex_escape, escape, HexState, in_text, hex_pair, normalize_char,
  normalize_from, normalize_content_to_regex,
}

-- The bytes that are operators in a regular expression of PCRE's syntax, outside of brackets.
abbrev pub operators : List ℕ
operators = codes "\\^$.[]|()?*+{}"

abbrev pub has_code : List ℕ → ℕ → Bool
has_code [] c = false
has_code (x ∷ xs) c = c == x || has_code xs c

-- The place of `c` in the text, counted on from `n`.
abbrev pub place_in : List ℕ → ℕ → ℕ → Option ℕ
place_in [] n c = none
place_in (x ∷ xs) n c = if c == x then some n else place_in xs (n + 1) c

-- The value of a hexadecimal digit of \x.
unfoldable pub hex_value : ℕ → Option ℕ
hex_value c = elim (place_in (codes "0123456789abcdef") 0 c) [
  | some v ↦ some v
  | none ↦ place_in (codes "0123456789ABCDEF") 0 c
]

-- How a regular expression that is a sequence of literals is read: at the start of a literal, behind a
-- backslash, behind \x, and behind its first digit.
pub data Reading : Type 0 where
  at_start escaped at_hex : Reading
  at_low : ℕ → Reading

-- The byte that a literal ends with, none where it is no literal.
abbrev pub read_char : Reading → ℕ → Option (Reading × List ℕ)
read_char at_start c =
    if c == b'\\'
    then some (escaped, [])
    else if has_code operators c
    then none
    else some (at_start, c ∷ [])
read_char escaped c =
    if c == b'x'
    then some (at_hex, [])
    else if has_code operators c
    then some (at_start, c ∷ [])
    else none
read_char at_hex c = elim (hex_value c) [ none ↦ none | some h ↦ some (at_low h, []) ]
read_char (at_low h) c = elim (hex_value c) [
  | none ↦ none
  | some l ↦ some (at_start, (h * 16 + l) ∷ [])
]

abbrev pub and_bytes : List ℕ → Option (List ℕ) → Option (List ℕ)
and_bytes bs none = none
and_bytes bs (some cs) = some (bs ++ cs)

abbrev pub read_literals : Reading → List ℕ → Option (List ℕ)
read_literals at_start [] = some []
read_literals escaped [] = none
read_literals at_hex [] = none
read_literals (at_low h) [] = none
read_literals st (c ∷ xs) = elim (read_char st c) [
  | none ↦ none
  | some next ↦ and_bytes next.1 (read_literals next.0 xs)
]

-- The bytes that a regular expression matches, where it is a sequence of literals: bytes that are no
-- operators, operators behind a backslash, and \x with two hexadecimal digits.
abbrev pub literal_bytes : List ℕ → Option (List ℕ)
literal_bytes regex = read_literals at_start regex

pub and_bytes-nil : (o : Option (List ℕ)) → and_bytes [] o ≡ o
and_bytes-nil none = refl
and_bytes-nil (some bs) = refl

pub read_literals-escape :
    (c : ℕ) (rest : List ℕ)
    → literal_bytes (escape c ++ rest) ≡ and_bytes (c ∷ []) (literal_bytes rest)
read_literals-escape c rest =
    ground (arith, and_bytes-nil (and_bytes (c ∷ []) (literal_bytes rest)))

pub hex_char_to_val-hex_digit : (d : ℕ) → d < 16 → hex_char_to_val (hex_digit d) ≡ some d
unfolding hex_char_to_val hex_digit
hex_char_to_val-hex_digit d h = ground arith

hex_value-hex_digit : (d : ℕ) → d < 16 → hex_value (hex_digit d) ≡ some d
unfolding hex_value hex_digit
hex_value-hex_digit d h = ground arith

hex_char_to_val_bound : (c v : ℕ) → hex_char_to_val c ≡ some v → v < 16
unfolding hex_char_to_val
hex_char_to_val_bound c v h = ground arith

pub read_literals-hex_escape :
    (byte : ℕ) (rest : List ℕ)
    → byte < 256
    → literal_bytes (hex_escape byte ++ rest) ≡ and_bytes (byte ∷ []) (literal_bytes rest)
read_literals-hex_escape byte rest h =
    let high = hex_value-hex_digit (byte / 16) (omega arith) in
    let low = hex_value-hex_digit (byte % 16) (omega arith) in
    ground (arith, and_bytes-nil (and_bytes (byte ∷ []) (literal_bytes rest)))

hex_pair-read :
    (a b : Option ℕ) (rest : List ℕ)
    → ((v : ℕ) → a ≡ some v → v < 16)
    → ((v : ℕ) → b ≡ some v → v < 16)
    → (bs : List ℕ) → literal_bytes rest ≡ some bs
    → (cs : List ℕ) × (literal_bytes (hex_pair a b ++ rest) ≡ some cs)
hex_pair-read none b rest ha hb bs e = (bs, e)
hex_pair-read (some h) none rest ha hb bs e = (bs, e)
hex_pair-read (some h) (some l) rest ha hb bs e = (
  (h * 16 + l) ∷ bs,
  read_literals-hex_escape (h * 16 + l) rest (omega (arith, ha h refl, hb l refl))
      ∙ ap (and_bytes ((h * 16 + l) ∷ [])) e,
)

-- In front of literals, these bytes give literals.
unfoldable IsLiteral : List ℕ → Type 0
IsLiteral bytes =
    (rest bs : List ℕ)
    → literal_bytes rest ≡ some bs
    → (cs : List ℕ) × (literal_bytes (bytes ++ rest) ≡ some cs)

nil-IsLiteral : IsLiteral []
unfolding IsLiteral
nil-IsLiteral rest bs e = (bs, e)

escape-IsLiteral : (c : ℕ) → IsLiteral (escape c)
unfolding IsLiteral
escape-IsLiteral c rest bs e = (c ∷ bs, read_literals-escape c rest ∙ ap (and_bytes (c ∷ [])) e)

hex_pair-IsLiteral : (d c : ℕ) → IsLiteral (hex_pair (hex_char_to_val d) (hex_char_to_val c))
unfolding IsLiteral
hex_pair-IsLiteral d c rest bs e =
    hex_pair-read (hex_char_to_val d) (hex_char_to_val c) rest (hex_char_to_val_bound d)
      (hex_char_to_val_bound c) bs e

normalize_char-IsLiteral : (st : HexState) (c : ℕ) → IsLiteral (normalize_char st c).1
unfolding normalize_char
normalize_char-IsLiteral st c = elim (Option-cases st.hex_byte) [
  | inl e ↦ ground (arith, nil-IsLiteral, escape-IsLiteral c)
  | inr (d, e) ↦ ground (arith, nil-IsLiteral, escape-IsLiteral c, hex_pair-IsLiteral d c)
]

normalize_from-literal :
    (raw : List ℕ) (st : HexState)
    → (bs : List ℕ) × (literal_bytes (normalize_from st raw) ≡ some bs)
unfolding normalize_from IsLiteral
normalize_from-literal [] st = ([], refl)
normalize_from-literal (c ∷ raw) st =
    let next = normalize_char st c in
    let rest = normalize_from-literal raw next.0 in
    normalize_char-IsLiteral st c (normalize_from next.0 raw) rest.0 rest.1

-- Whatever text a `content` has, the regular expression that `normalize_content_to_regex` makes of it
-- is a sequence of literals: no byte of the text acts as an operator.
pub normalize_content_to_regex_literal :
    (raw : List ℕ) → (bs : List ℕ) × (literal_bytes (normalize_content_to_regex raw) ≡ some bs)
unfolding normalize_content_to_regex
normalize_content_to_regex_literal raw = normalize_from-literal raw in_text
