-- ===== src/Rules/Text/Digits.antt =====
-- Numbers read back from their digits.
use intrusion_detection.Base.{ℕ, ◌+◌, ◌*◌, ◌<◌, ◌≡◌, refl, false, List, [], ◌∷◌, ◌++◌, some, arith}
use intrusion_detection.Rules.Text.{is_digit, read_digits, read_number, from_chars_below}

-- The text of a list of digits, greatest first, and their value behind those that came to `v`.
abbrev pub digits_text : List ℕ → List ℕ
digits_text [] = []
digits_text (d ∷ ds) = (48 + d) ∷ digits_text ds

abbrev pub digits_value : ℕ → List ℕ → ℕ
digits_value v [] = v
digits_value v (d ∷ ds) = digits_value (v * 10 + d) ds

abbrev pub AllDigits : List ℕ → Type 0
AllDigits [] = Unit
AllDigits (d ∷ ds) = (d < 10) × AllDigits ds

-- No digit stands at the front.
abbrev pub EndsNumber : List ℕ → Type 0
EndsNumber [] = Unit
EndsNumber (c ∷ xs) = is_digit c ≡ false

read_digits-digits_text :
    (v : ℕ) (ds rest : List ℕ)
    → AllDigits ds
    → EndsNumber rest
    → read_digits v (digits_text ds ++ rest) ≡ digits_value v ds
read_digits-digits_text v [] [] h e = refl
read_digits-digits_text v [] (c ∷ xs) h e = ground arith
read_digits-digits_text v (d ∷ ds) rest h e =
    ground (arith, read_digits-digits_text (v * 10 + d) ds rest h.1 e)

-- A number that fits is read back from its digits, whatever other than a digit follows.
pub from_chars_below-digits_text :
    (bound d : ℕ) (ds rest : List ℕ)
    → AllDigits (d ∷ ds)
    → EndsNumber rest
    → digits_value 0 (d ∷ ds) < bound
    → from_chars_below bound (digits_text (d ∷ ds) ++ rest) ≡ some (digits_value 0 (d ∷ ds))
unfolding from_chars_below read_number
from_chars_below-digits_text bound d ds rest h e small =
    ground (arith, read_digits-digits_text 0 (d ∷ ds) rest h e)
