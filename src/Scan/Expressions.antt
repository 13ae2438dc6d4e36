-- ===== src/Scan/Expressions.antt =====
-- The expressions that are compiled.
use intrusion_detection.Base.{ℕ, ◌≤◌, ◌≡◌, refl, ap, false, List, [], ◌∷◌, ◌++◌, arith}
use intrusion_detection.Rules.{RuleContent, AethonRule}
use intrusion_detection.Scan.{
  gap, gap_text, join_contents, any_nocase, contents_pattern, rule_pattern, expressions,
}

-- The gap before a content is a range, of at most 500 to at most 1000 bytes.
pub gap_range : (c : RuleContent) → ((gap c).0 ≤ (gap c).1) × ((gap c).0 ≤ 500) × ((gap c).1 ≤ 1000)
unfolding gap
gap_range c = ground arith

-- A rule with no content negated.
abbrev pub affirm : List RuleContent → List RuleContent
affirm [] = []
affirm (c ∷ cs) = record c { is_negated = false } ∷ affirm cs

abbrev pub affirm_rules : List AethonRule → List AethonRule
affirm_rules [] = []
affirm_rules (r ∷ rs) = record r { contents = affirm r.contents } ∷ affirm_rules rs

gap_text-affirm : (c : RuleContent) → gap_text (record c { is_negated = false }) ≡ gap_text c
unfolding gap_text gap
gap_text-affirm c = refl

join_contents-affirm : (cs : List RuleContent) → join_contents (affirm cs) ≡ join_contents cs
join_contents-affirm [] = refl
join_contents-affirm (c ∷ cs) = cc (gap_text-affirm c, join_contents-affirm cs)

any_nocase-affirm : (cs : List RuleContent) → any_nocase (affirm cs) ≡ any_nocase cs
any_nocase-affirm [] = refl
any_nocase-affirm (c ∷ cs) = rw (any_nocase-affirm cs) refl

contents_pattern-affirm :
    (cs : List RuleContent) (regex : List ℕ)
    → contents_pattern (affirm cs) regex ≡ contents_pattern cs regex
contents_pattern-affirm [] regex = refl
contents_pattern-affirm (c ∷ cs) regex = ap (λ x. c.pattern ++ x) (join_contents-affirm cs)

rule_pattern-affirm :
    (r : AethonRule) → rule_pattern (record r { contents = affirm r.contents }) ≡ rule_pattern r
unfolding rule_pattern
rule_pattern-affirm r = contents_pattern-affirm r.contents _

-- The negation of a content is not compiled: the expressions of any rules are those of the same rules
-- with no content negated.
pub expressions-affirm_rules :
    (rs : List AethonRule) → expressions (affirm_rules rs) ≡ expressions rs
unfolding expressions
expressions-affirm_rules [] = refl
expressions-affirm_rules (r ∷ rs) =
    rw (rule_pattern-affirm r, any_nocase-affirm r.contents, expressions-affirm_rules rs) refl
