-- ===== src/Rules/Options/Contents.antt =====
-- What an option does to the contents of a rule and to its sid.
use intrusion_detection.Base.{
  ℕ, zero, suc, ◌+◌, ◌^◌, ◌<◌, ◌≡◌, ◌⊎◌, inl, inr, refl, ap, ◌∙◌, true, List, [], ◌∷◌, ◌++◌, length,
  get_elem?, drop, arith, Option-cases,
}
use intrusion_detection.Rules.{RuleContent, AethonRule}
use intrusion_detection.Rules.Text.{
  drop_while, split_at, split_at_last, from_chars_below, read_number, codes, or_else,
}
use intrusion_detection.Rules.Options.{
  unquote, modify_last, modify_rule, parse_content, apply_pcre, apply_flow, apply_reference,
  apply_metadata_item, apply_metadata, apply_option, read_i32, is_separator,
}

-- How the contents may change: not at all, by one more at the end, or in the last one.
abbrev pub Changes : List RuleContent → List RuleContent → Type 0
Changes cs ds =
    (ds ≡ cs)
    ⊎ (((c : RuleContent) × (ds ≡ cs ++ (c ∷ [])))
        ⊎ ((g : RuleContent → RuleContent) × (ds ≡ modify_last g cs)))

-- The contents and the pattern's sid after an option.
unfoldable pub IsChange : AethonRule → AethonRule → Type 0
IsChange r s = Changes r.contents s.contents × (r.sid < 2 ^ 32 → s.sid < 2 ^ 32)

same-IsChange : (r s : AethonRule) → s.contents ≡ r.contents → s.sid ≡ r.sid → IsChange r s
unfolding IsChange
same-IsChange r s e h = (inl e, λ x. omega arith)

modify_rule-IsChange :
    (g : RuleContent → RuleContent) (r : AethonRule) → IsChange r (modify_rule g r)
unfolding IsChange
modify_rule-IsChange g r = (inr (inr (g, refl)), λ x. x)

read_u32-fits :
    (val : List ℕ) (d : ℕ) → d < 2 ^ 32 → or_else (from_chars_below (2 ^ 32) val) d < 2 ^ 32
unfolding from_chars_below
read_u32-fits val d h = ground (arith, Option-cases (read_number val))

apply_pcre-IsChange : (val : List ℕ) (r : AethonRule) → IsChange r (apply_pcre val r)
unfolding apply_pcre
apply_pcre-IsChange val r = elim (Option-cases (split_at_last b'/' (unquote val))) [
  | inl e ↦ ground (arith, same-IsChange r r refl refl)
  | inr ((before, behind), e) ↦ ground (
    arith,
    same-IsChange r r refl refl,
    same-IsChange r (record r { pcre_regex = drop 1 before; has_pcre = true }) refl refl,
  )
]

apply_flow-IsChange : (val : List ℕ) (r : AethonRule) → IsChange r (apply_flow val r)
unfolding apply_flow
apply_flow-IsChange val r = same-IsChange r _ refl refl

apply_reference-IsChange : (val : List ℕ) (r : AethonRule) → IsChange r (apply_reference val r)
unfolding apply_reference
apply_reference-IsChange val r = elim (Option-cases (split_at b',' val)) [
  | inl e ↦ ground (arith, same-IsChange r r refl refl)
  | inr ((ref_type, ref_val), e) ↦ ground (
    arith,
    same-IsChange r (record r { cve = codes "CVE-" ++ ref_val; reference = val }) refl refl,
    same-IsChange r (record r { reference = val }) refl refl,
  )
]

-- Nothing that concerns the patterns.
abbrev KeepsPatterns : AethonRule → AethonRule → Type 0
KeepsPatterns r s = (s.contents ≡ r.contents) × (s.sid ≡ r.sid)

apply_metadata_item-KeepsPatterns :
    (item : List ℕ) (r : AethonRule) → KeepsPatterns r (apply_metadata_item item r)
unfolding apply_metadata_item
apply_metadata_item-KeepsPatterns item r = ground (arith, Option-cases (split_at b' ' item))

apply_metadata-KeepsPatterns :
    (fuel : ℕ) (val : List ℕ) (r : AethonRule) → KeepsPatterns r (apply_metadata fuel val r)
unfolding apply_metadata
apply_metadata-KeepsPatterns zero val r = (refl, refl)
apply_metadata-KeepsPatterns (suc fuel) val r =
    elim (Option-cases (split_at b',' (drop_while is_separator val))) [
      | inl e ↦ ground (arith, apply_metadata_item-KeepsPatterns (drop_while is_separator val) r)
      | inr ((item, rest), e) ↦ ground (
        arith,
        apply_metadata_item-KeepsPatterns item r,
        apply_metadata-KeepsPatterns fuel rest (apply_metadata_item item r),
      )
    ]

content-IsChange :
    (val : List ℕ) (r : AethonRule)
    → IsChange r (record r { contents = r.contents ++ (parse_content val ∷ []) })
unfolding IsChange
content-IsChange val r = (inr (inl (parse_content val, refl)), λ x. x)

sid-IsChange :
    (val : List ℕ) (r : AethonRule)
    → IsChange r (record r { sid = or_else (from_chars_below (2 ^ 32) val) 0 })
unfolding IsChange
sid-IsChange val r = (inl refl, λ x. read_u32-fits val 0 (omega arith))

pub apply_option-IsChange :
    (key val : List ℕ) (r : AethonRule) → IsChange r (apply_option key val r)
unfolding apply_option
apply_option-IsChange key val r =
    let meta = apply_metadata-KeepsPatterns (length val) val r in
    ground (
      arith,
      same-IsChange r r refl refl,
      same-IsChange r (record r { msg = unquote val }) refl refl,
      sid-IsChange val r,
      same-IsChange r (record r { rev = or_else (from_chars_below (2 ^ 32) val) 1 }) refl refl,
      same-IsChange r (record r { classtype = val }) refl refl,
      content-IsChange val r,
      modify_rule-IsChange (λ c. record c { nocase = true }) r,
      modify_rule-IsChange (λ c. record c { fast_pattern = true }) r,
      modify_rule-IsChange (λ c. record c { depth = read_i32 val }) r,
      modify_rule-IsChange (λ c. record c { offset = read_i32 val }) r,
      modify_rule-IsChange (λ c. record c { distance = read_i32 val }) r,
      modify_rule-IsChange (λ c. record c { within = read_i32 val }) r,
      apply_pcre-IsChange val r,
      apply_flow-IsChange val r,
      apply_reference-IsChange val r,
      same-IsChange r (apply_metadata (length val) val r) meta.0 meta.1,
    )

get_elem?-append_left :
    (cs ds : List RuleContent) (i : ℕ) → i < length cs → get_elem? (cs ++ ds) i ≡ get_elem? cs i
get_elem?-append_left [] ds i h = absurd (omega arith)
get_elem?-append_left (c ∷ cs) ds zero h = refl
get_elem?-append_left (c ∷ cs) ds (suc i) h = get_elem?-append_left cs ds i (omega arith)

get_elem?-modify_last :
    (g : RuleContent → RuleContent) (cs : List RuleContent) (i : ℕ)
    → i + 1 < length cs
    → get_elem? (modify_last g cs) i ≡ get_elem? cs i
get_elem?-modify_last g [] i h = absurd (omega arith)
get_elem?-modify_last g (c ∷ []) i h = absurd (omega arith)
get_elem?-modify_last g (c ∷ d ∷ cs) zero h = refl
get_elem?-modify_last g (c ∷ d ∷ cs) (suc i) h = get_elem?-modify_last g (d ∷ cs) i (omega arith)

-- No option, whatever its key and value, changes a content other than the last of the rule.
pub apply_option-get_elem? :
    (key val : List ℕ) (r : AethonRule) (i : ℕ)
    → i + 1 < length r.contents
    → get_elem? (apply_option key val r).contents i ≡ get_elem? r.contents i
unfolding IsChange
apply_option-get_elem? key val r i h = elim (apply_option-IsChange key val r).0 [
  | inl e ↦ ap (λ cs. get_elem? cs i) e
  | inr (inl (c, e)) ↦
      ap (λ cs. get_elem? cs i) e ∙ get_elem?-append_left r.contents (c ∷ []) i (omega arith)
  | inr (inr (g, e)) ↦ ap (λ cs. get_elem? cs i) e ∙ get_elem?-modify_last g r.contents i h
]
