-- ===== src/Rules/Text.antt =====
-- Text as lists of bytes: what the parser uses of `std::string_view` and `std::from_chars`.
pub mod Digits
use Prim.Native.Char.{code}
use Prim.Native.String.{String}
use intrusion_detection.Base.{
  ℕ, zero, suc, ◌+◌, ◌-◌, ◌*◌, ◌^◌, Bool, true, false, ◌&&◌, ◌||◌, not, ltb, leb, ◌==◌, List, [],
  ◌∷◌, ◌++◌, Option, none, some, length, if◌then◌else◌,
}

-- Integers over the native numbers; `negsuc n` is -(n + 1).
pub data ℤ : Type 0 where
  pos negsuc : ℕ → ℤ

-- The bytes of an ASCII literal.
abbrev pub codes : String → List ℕ
codes String.[] = []
codes (String.◌∷◌ c s) = code c ∷ codes s

abbrev pub same_text : List ℕ → List ℕ → Bool
same_text [] [] = true
same_text (x ∷ xs) (y ∷ ys) = x == y && same_text xs ys
same_text _ _ = false

abbrev pub is_text : List ℕ → String → Bool
is_text xs s = same_text xs (codes s)

abbrev pub is_blank : ℕ → Bool
is_blank c = c == b' ' || c == 9

-- `remove_prefix(1)` while the front passes the test.
abbrev pub drop_while : (ℕ → Bool) → List ℕ → List ℕ
drop_while p [] = []
drop_while p (x ∷ xs) = if p x then drop_while p xs else x ∷ xs

abbrev pub cons_unless : (ℕ → Bool) → ℕ → List ℕ → List ℕ
cons_unless p x [] = if p x then [] else x ∷ []
cons_unless p x (y ∷ ys) = x ∷ y ∷ ys

-- `remove_suffix(1)` while the back passes the test.
abbrev pub drop_while_end : (ℕ → Bool) → List ℕ → List ℕ
drop_while_end p [] = []
drop_while_end p (x ∷ xs) = cons_unless p x (drop_while_end p xs)

abbrev pub trim : List ℕ → List ℕ
trim xs = drop_while_end is_blank (drop_while is_blank xs)

-- What stands before and behind the first `c`.
abbrev pub split_at : ℕ → List ℕ → Option (List ℕ × List ℕ)
split_at c [] = none
split_at c (x ∷ xs) =
    let rest = split_at c xs in
    if x == c
    then some ([], xs)
    else elim rest [ none ↦ none | some (before, behind) ↦ some (x ∷ before, behind) ]

-- What stands before and behind the last `c`.
abbrev pub split_at_last : ℕ → List ℕ → Option (List ℕ × List ℕ)
split_at_last c [] = none
split_at_last c (x ∷ xs) = elim (split_at_last c xs) [
  | some (before, behind) ↦ some (x ∷ before, behind)
  | none ↦ if x == c then some ([], xs) else none
]

abbrev pub starts_with : List ℕ → List ℕ → Bool
starts_with [] xs = true
starts_with (y ∷ ys) [] = false
starts_with (y ∷ ys) (x ∷ xs) = x == y && starts_with ys xs

-- `find(text) != npos`.
abbrev pub contains : List ℕ → List ℕ → Bool
contains text [] = starts_with text []
contains text (x ∷ xs) = starts_with text (x ∷ xs) || contains text xs

abbrev pub is_digit : ℕ → Bool
is_digit c = leb b'0' c && leb c b'9'

-- The value of the digits at the front behind those that came to `v`.
abbrev pub read_digits : ℕ → List ℕ → ℕ
read_digits v [] = v
read_digits v (c ∷ xs) =
    let rest = read_digits (v * 10 + (c - b'0')) xs in if is_digit c then rest else v

-- The digits at the front as a number, if there are any.
unfoldable pub read_number : List ℕ → Option ℕ
read_number [] = none
read_number (c ∷ xs) = if is_digit c then some (read_digits 0 (c ∷ xs)) else none

-- `std::from_chars` for an unsigned type of which `bound` is the first number that does not fit: none
-- where the result is an error.
unfoldable pub from_chars_below : ℕ → List ℕ → Option ℕ
from_chars_below bound xs = elim (read_number xs) [
  | none ↦ none
  | some v ↦ if ltb v bound then some v else none
]

abbrev pub negate : ℕ → ℤ
negate zero = pos 0
negate (suc n) = negsuc n

-- `std::from_chars` for `int32_t`.
unfoldable pub from_chars_i32 : List ℕ → Option ℤ
from_chars_i32 [] = none
from_chars_i32 (c ∷ xs) =
    if c == b'-'
    then elim (from_chars_below (2 ^ 31 + 1) xs) [ none ↦ none | some v ↦ some (negate v) ]
    else elim (from_chars_below (2 ^ 31) (c ∷ xs)) [ none ↦ none | some v ↦ some (pos v) ]

-- The value that an error leaves as it is.
abbrev pub or_else {ℓ} : {A : Type ℓ} → Option A → A → A
or_else none d = d
or_else (some a) d = a
