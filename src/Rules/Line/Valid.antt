-- ===== src/Rules/Line/Valid.antt =====
-- What a parsed rule has, and how its body is read.
use mathlib.Core.Path.{subst}
use intrusion_detection.Base.{
  ℕ, zero, suc, ◌^◌, ◌<◌, ◌≡◌, ◌⊎◌, inl, inr, sym, true, false, not, ◌||◌, ◌==◌, List, [], ◌∷◌,
  none, some, length, arith, if_both, if◌then◌else◌, Option-cases, Bool-cases, OnSome, OnSome-bind,
  OnSome-any, OnSome-found,
}
use intrusion_detection.Rules.{AethonRule, RuleAction, RuleProtocol}
use intrusion_detection.Rules.Text.{
  is_blank, drop_while, drop_while_end, trim, split_at, split_at_last,
}
use intrusion_detection.Rules.Options.{is_empty, front_is, apply_option}
use intrusion_detection.Rules.Options.Contents.{IsChange, apply_option-IsChange}
use intrusion_detection.Rules.Line.{
  tokens, parse_action, parse_protocol, scan_option, is_option_gap, is_space, apply_option_text,
  apply_body, has_pattern, parse_header, accept_rule, parse_rule_line,
}

abbrev SidFits : AethonRule → Type 0
SidFits r = r.sid < 2 ^ 32

apply_option-SidFits :
    (key val : List ℕ) (r : AethonRule) → SidFits r → SidFits (apply_option key val r)
unfolding IsChange
apply_option-SidFits key val r h = (apply_option-IsChange key val r).1 h

apply_option_text-SidFits :
    (opt : List ℕ) (r : AethonRule) → SidFits r → SidFits (apply_option_text opt r)
unfolding apply_option_text
apply_option_text-SidFits opt r h = elim (Option-cases (split_at b':' opt)) [
  | inl e ↦ ground (arith, apply_option-SidFits (drop_while_end is_space opt) [] r h)
  | inr ((key, val), e) ↦
      ground
        (arith, apply_option-SidFits (drop_while_end is_space key) (drop_while is_space val) r h)
]

apply_body-SidFits :
    (fuel : ℕ) (body : List ℕ) (r : AethonRule) → SidFits r → SidFits (apply_body fuel body r)
unfolding apply_body
apply_body-SidFits zero body r h = h
apply_body-SidFits (suc fuel) body r h =
    let start = drop_while is_option_gap body in
    let scanned = scan_option 0 false start in
    let opt = trim scanned.0 in
    if_both SidFits (is_empty start) r _ h (
      apply_body-SidFits fuel scanned.1 _ (
        if_both SidFits (is_empty opt) r (apply_option_text opt r) h
          (apply_option_text-SidFits opt r h)))

-- What every rule that is accepted has: a sid that is not 0 and fits into 32 bits, and a content or a
-- pcre.
pub record IsRule (r : AethonRule) : Type 0 where
  pub some_sid : 0 < r.sid
  pub sid_fits : r.sid < 2 ^ 32
  pub some_pattern : (0 < length r.contents) ⊎ (r.has_pcre ≡ true)

accept_rule-IsRule : (r : AethonRule) → SidFits r → OnSome IsRule (accept_rule r)
unfolding accept_rule
accept_rule-IsRule r h = elim (Bool-cases (r.sid == 0 || not (has_pattern r))) [
  | inl y ↦ subst (λ b. OnSome IsRule (if b then none else some r)) (sym y) tt
  | inr n ↦
      subst (λ b. OnSome IsRule (if b then none else some r)) (sym n)
        (record { some_sid = ground arith; sid_fits = h; some_pattern = ground arith })
]

parse_header-SidFits : (ts : List (List ℕ)) → OnSome SidFits (parse_header ts)
unfolding parse_header
parse_header-SidFits [] = tt
parse_header-SidFits (a ∷ []) = tt
parse_header-SidFits (a ∷ b ∷ []) = tt
parse_header-SidFits (a ∷ b ∷ c ∷ []) = tt
parse_header-SidFits (a ∷ b ∷ c ∷ d ∷ []) = tt
parse_header-SidFits (a ∷ b ∷ c ∷ d ∷ e ∷ []) = tt
parse_header-SidFits (a ∷ b ∷ c ∷ d ∷ e ∷ f ∷ []) = tt
parse_header-SidFits (a ∷ b ∷ c ∷ d ∷ e ∷ f ∷ g ∷ ts) =
    OnSome-bind (λ (x : RuleAction). Unit {0}) SidFits (parse_action a) _
      (OnSome-any (λ x. Unit {0}) _ (λ x y. tt))
      (λ x u.
        OnSome-bind (λ (p : RuleProtocol). Unit {0}) SidFits (parse_protocol b) _
          (OnSome-any (λ p. Unit {0}) _ (λ p y. tt)) (λ p v. omega arith))

parse_rule_line-OnSome : (text : List ℕ) → OnSome IsRule (parse_rule_line text)
unfolding parse_rule_line
parse_rule_line-OnSome text =
    let line = drop_while is_blank text in
    if_both (OnSome IsRule) (is_empty line || front_is b'#' line) none _ tt (
      OnSome-bind (λ (p : List ℕ × List ℕ). Unit {0}) IsRule (split_at b'(' line) _
        (OnSome-any (λ p. Unit {0}) _ (λ p e. tt))
        (λ p u.
          OnSome-bind (λ (q : List ℕ × List ℕ). Unit {0}) IsRule (split_at_last b')' p.1) _
            (OnSome-any (λ q. Unit {0}) _ (λ q e. tt))
            (λ q v.
              OnSome-bind SidFits IsRule (parse_header (tokens p.0)) _
                (parse_header-SidFits (tokens p.0))
                (λ r h.
                  accept_rule-IsRule (apply_body (length q.0) q.0 r)
                    (apply_body-SidFits (length q.0) q.0 r h)))))

pub parse_rule_line-IsRule :
    (text : List ℕ) (r : AethonRule) → parse_rule_line text ≡ some r → IsRule r
parse_rule_line-IsRule text r e =
    OnSome-found IsRule (parse_rule_line text) r (parse_rule_line-OnSome text) e
