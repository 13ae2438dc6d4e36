-- ===== src/Rules/Line/Body.antt =====
-- How the body of a rule is cut into options.
use intrusion_detection.Base.{
  ℕ, zero, suc, ◌-◌, ◌≤◌, ◌≡◌, ◌≢◌, refl, Bool, true, false, not, ◌&&◌, ◌==◌, ◌!=◌, List, [], ◌∷◌,
  ◌++◌, length, arith, if◌then◌else◌, Bool-cases, inl, inr,
}
use intrusion_detection.Rules.{AethonRule}
use intrusion_detection.Rules.Text.{drop_while, trim}
use intrusion_detection.Rules.Options.{is_empty}
use intrusion_detection.Rules.Line.{scan_option, is_option_gap, apply_option_text, apply_body}

length-drop_while : (p : ℕ → Bool) (xs : List ℕ) → length (drop_while p xs) ≤ length xs
length-drop_while p [] = omega arith
length-drop_while p (x ∷ xs) = ground (arith, length-drop_while p xs)

length-scan_option :
    (prev : ℕ) (quoted : Bool) (body : List ℕ)
    → length (scan_option prev quoted body).1 ≤ length body - 1
unfolding scan_option
length-scan_option prev quoted [] = omega arith
length-scan_option prev quoted (c ∷ body) =
    ground
      (arith, length-scan_option c (if c == b'"' && prev != b'\\' then not quoted else quoted) body)

-- The fuel that `parse_rule_line` gives, the length of the body, is enough: any more gives the same rule.
pub apply_body-fuel :
    (n m : ℕ) (body : List ℕ) (r : AethonRule)
    → length body ≤ n
    → length body ≤ m
    → apply_body n body r ≡ apply_body m body r
unfolding apply_body
apply_body-fuel zero zero body r hn hm = refl
apply_body-fuel zero (suc m) [] r hn hm = refl
apply_body-fuel zero (suc m) (c ∷ body) r hn hm = absurd (omega arith)
apply_body-fuel (suc n) zero [] r hn hm = refl
apply_body-fuel (suc n) zero (c ∷ body) r hn hm = absurd (omega arith)
apply_body-fuel (suc n) (suc m) body r hn hm =
    let start = drop_while is_option_gap body in
    let scanned = scan_option 0 false start in
    let opt = trim scanned.0 in
    let shorter = length-drop_while is_option_gap body in
    let shorter' = length-scan_option 0 false start in
    elim (Bool-cases (is_empty start)) [
      | inl y ↦ ground arith
      | inr y ↦ ground (
        arith,
        apply_body-fuel n m scanned.1 (if is_empty opt then r else apply_option_text opt r)
            (omega (arith, shorter, shorter')) (omega (arith, shorter, shorter')),
      )
    ]

-- No quote and no backslash is in the text.
abbrev pub NoQuote : List ℕ → Type 0
NoQuote [] = Unit
NoQuote (c ∷ xs) = (c ≢ b'"') × (c ≢ b'\\') × NoQuote xs

-- No quote, no backslash and no semicolon.
abbrev pub IsBare : List ℕ → Type 0
IsBare [] = Unit
IsBare (c ∷ xs) = (c ≢ b'"') × (c ≢ b'\\') × (c ≢ b';') × IsBare xs

scan_option-in_quotes :
    (prev : ℕ) (t rest : List ℕ)
    → prev ≢ b'\\'
    → NoQuote t
    → scan_option prev true (t ++ (b'"' ∷ b';' ∷ rest)) ≡ (t ++ (b'"' ∷ []), rest)
unfolding scan_option
scan_option-in_quotes prev [] rest hp h = ground arith
scan_option-in_quotes prev (c ∷ t) rest hp h =
    ground (arith, scan_option-in_quotes c t rest h.1 h.2)

-- A quoted value ends at its quote, whatever semicolons stand in it: an option of a bare key, a quoted
-- text without quotes or backslashes, and a semicolon is read as one option.
pub scan_option-quoted :
    (prev : ℕ) (key t rest : List ℕ)
    → prev ≢ b'\\'
    → IsBare key
    → NoQuote t
    → scan_option prev false (key ++ (b'"' ∷ (t ++ (b'"' ∷ b';' ∷ rest))))
      ≡ (key ++ (b'"' ∷ (t ++ (b'"' ∷ []))), rest)
unfolding scan_option
scan_option-quoted prev [] t rest hp hk h =
    ground (arith, scan_option-in_quotes b'"' t rest (omega arith) h)
scan_option-quoted prev (c ∷ key) t rest hp hk h =
    ground (arith, scan_option-quoted c key t rest hk.1 hk.3 h)
