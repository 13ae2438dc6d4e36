-- ===== src/Rules/Options.antt =====
-- The options of a rule: what each key of `parse_rule_line` does to the rule.
pub mod Contents
use intrusion_detection.Base.{
  ℕ, zero, suc, ◌+◌, ◌-◌, ◌^◌, Bool, true, false, not, ◌&&◌, ◌||◌, ltb, leb, ◌==◌, List, [], ◌∷◌,
  ◌++◌, Option, none, some, length, take, drop, if◌then◌else◌,
}
use intrusion_detection.Rules.{RuleContent, AethonRule, unset}
use intrusion_detection.Rules.Text.{
  ℤ, codes, is_text, is_blank, drop_while, drop_while_end, trim, split_at, split_at_last, contains,
  from_chars_below, from_chars_i32, or_else,
}
use intrusion_detection.Rules.Content.{normalize_content_to_regex}

abbrev pub is_empty : List ℕ → Bool
is_empty xs = length xs == 0

abbrev pub front_is : ℕ → List ℕ → Bool
front_is c [] = false
front_is c (x ∷ xs) = x == c

abbrev pub back_is : ℕ → List ℕ → Bool
back_is c [] = false
back_is c (x ∷ []) = x == c
back_is c (x ∷ y ∷ xs) = back_is c (y ∷ xs)

unfoldable pub unquote : List ℕ → List ℕ
unquote v =
    if leb 2 (length v) && (front_is b'"' v && back_is b'"' v)
    then take (length v - 2) (drop 1 v)
    else v

-- `rule.contents.back()`, changed, where there is one.
abbrev pub modify_last : (RuleContent → RuleContent) → List RuleContent → List RuleContent
modify_last g [] = []
modify_last g (c ∷ []) = g c ∷ []
modify_last g (c ∷ d ∷ cs) = c ∷ modify_last g (d ∷ cs)

abbrev pub modify_rule : (RuleContent → RuleContent) → AethonRule → AethonRule
modify_rule g r = record r { contents = modify_last g r.contents }

abbrev pub new_content : List ℕ → Bool → RuleContent
new_content pattern is_negated = record {
  pattern = pattern;
  nocase = false;
  is_negated = is_negated;
  fast_pattern = false;
  depth = unset;
  offset = unset;
  distance = unset;
  within = unset;
}

-- The text behind a `content`, with its negation.
unfoldable pub parse_content : List ℕ → RuleContent
parse_content val =
    if front_is b'!' val
    then new_content (normalize_content_to_regex (unquote (drop 1 val))) true
    else new_content (normalize_content_to_regex (unquote val)) false

-- `int32_t d = -1`, and `from_chars`.
abbrev pub read_i32 : List ℕ → ℤ
read_i32 val = or_else (from_chars_i32 val) unset

unfoldable pub apply_pcre : List ℕ → AethonRule → AethonRule
apply_pcre val r =
    let raw = unquote val in
    if leb 2 (length raw) && front_is b'/' raw
    then elim (split_at_last b'/' raw) [
      | none ↦ r
      | some (before, behind) ↦
          if is_empty before then r else record r { pcre_regex = drop 1 before; has_pcre = true }
    ]
    else r

unfoldable pub apply_flow : List ℕ → AethonRule → AethonRule
apply_flow val r = record r {
  flow_established = contains (codes "established") val || r.flow_established;
  flow_to_server = contains (codes "to_server") val || r.flow_to_server;
  flow_to_client = contains (codes "to_client") val || r.flow_to_client;
}

unfoldable pub apply_reference : List ℕ → AethonRule → AethonRule
apply_reference val r = elim (split_at b',' val) [
  | none ↦ r
  | some (ref_type, ref_val) ↦
      if is_text ref_type "cve"
      then record r { cve = codes "CVE-" ++ ref_val; reference = val }
      else record r { reference = val }
]

unfoldable pub apply_metadata_item : List ℕ → AethonRule → AethonRule
apply_metadata_item item r = elim (split_at b' ' item) [
  | none ↦ r
  | some (mkey, mval) ↦
      if is_text mkey "cve" && is_empty r.cve
      then record r { cve = mval }
      else if is_text mkey "confidence"
      then record r { confidence = mval }
      else if is_text mkey "signature_severity" || is_text mkey "severity"
      then record r { severity = mval }
      else r
]

abbrev pub is_separator : ℕ → Bool
is_separator c = c == b' ' || c == b','

-- The loop over the items, each of which takes a byte at least.
unfoldable pub apply_metadata : ℕ → List ℕ → AethonRule → AethonRule
apply_metadata zero val r = r
apply_metadata (suc fuel) val r =
    let items = drop_while is_separator val in
    if is_empty items then r else elim (split_at b',' items) [
      | none ↦ apply_metadata_item items r
      | some (item, rest) ↦ apply_metadata fuel rest (apply_metadata_item item r)
    ]

unfoldable pub apply_option : List ℕ → List ℕ → AethonRule → AethonRule
apply_option key val r =
    if is_text key "msg"
    then record r { msg = unquote val }
    else if is_text key "sid"
    then record r { sid = or_else (from_chars_below (2 ^ 32) val) 0 }
    else if is_text key "rev"
    then record r { rev = or_else (from_chars_below (2 ^ 32) val) 1 }
    else if is_text key "classtype"
    then record r { classtype = val }
    else if is_text key "content"
    then record r { contents = r.contents ++ (parse_content val ∷ []) }
    else if is_text key "nocase"
    then modify_rule (λ c. record c { nocase = true }) r
    else if is_text key "fast_pattern"
    then modify_rule (λ c. record c { fast_pattern = true }) r
    else if is_text key "depth"
    then modify_rule (λ c. record c { depth = read_i32 val }) r
    else if is_text key "offset"
    then modify_rule (λ c. record c { offset = read_i32 val }) r
    else if is_text key "distance"
    then modify_rule (λ c. record c { distance = read_i32 val }) r
    else if is_text key "within"
    then modify_rule (λ c. record c { within = read_i32 val }) r
    else if is_text key "pcre"
    then apply_pcre val r
    else if is_text key "flow"
    then apply_flow val r
    else if is_text key "reference"
    then apply_reference val r
    else if is_text key "metadata"
    then apply_metadata (length val) val r
    else r
