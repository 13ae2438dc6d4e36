-- ===== src/Rules/Database/Loaded.antt =====
-- What the database holds after a file or a directory is loaded.
use intrusion_detection.Base.{
  ℕ, ◌+◌, ◌≡◌, refl, ap, sym, ◌∙◌, leb, List, [], ◌∷◌, ◌++◌, Option, none, some, length, arith,
  Option-cases, inl, inr, append_assoc, append-nil, length-append, if_both, if◌then◌else◌,
}
use intrusion_detection.Rules.{AethonRule}
use intrusion_detection.Rules.Text.{drop_while_end}
use intrusion_detection.Rules.Line.{parse_rule_line}
use intrusion_detection.Rules.Line.Valid.{IsRule, parse_rule_line-IsRule}
use intrusion_detection.Rules.Database.{
  RuleDatabase, add_custom_rule, is_line_end, load_lines, load_from_file, load_files,
  load_from_directory,
}

abbrev pub AllRules : List AethonRule → Type 0
AllRules [] = Unit
AllRules (r ∷ rs) = IsRule r × AllRules rs

AllRules-append : (rs ss : List AethonRule) → AllRules rs → AllRules ss → AllRules (rs ++ ss)
AllRules-append [] ss h k = k
AllRules-append (r ∷ rs) ss h k = (h.0, AllRules-append rs ss h.1 k)

-- New rules stand behind the old ones, each of them is valid, and the count is grown by their number.
abbrev pub Grows : RuleDatabase → ℕ → RuleDatabase × ℕ → Type 0
Grows rules count out =
    (new : List AethonRule) × (out.0 ≡ rules ++ new) × AllRules new × (out.1 ≡ count + length new)

Grows-nothing : (rules : RuleDatabase) (count : ℕ) → Grows rules count (rules, count)
Grows-nothing rules count = ([], sym (append-nil rules), tt, omega arith)

Grows-trans :
    (rules mid : RuleDatabase) (count more : ℕ) (out : RuleDatabase × ℕ)
    → Grows rules count (mid, more)
    → Grows mid more out
    → Grows rules count out
Grows-trans rules mid count more out h k = (
  h.0 ++ k.0,
  k.1 ∙ ap (λ x. x ++ k.0) h.1 ∙ append_assoc rules h.0 k.0,
  AllRules-append h.0 k.0 h.2 k.2,
  omega (arith, h.3, k.3, length-append h.0 k.0),
)

add_custom_rule-Grows :
    (rules : RuleDatabase) (text : List ℕ) (count : ℕ)
    → Grows rules count (
      (add_custom_rule rules text).0,
      if (add_custom_rule rules text).1 then count + 1 else count,
    )
unfolding add_custom_rule
add_custom_rule-Grows rules text count = elim (Option-cases (parse_rule_line text)) [
  | inl e ↦ rw (add_custom_rule, e) (Grows-nothing rules count)
  | inr (r, e) ↦ rw (add_custom_rule, e) (r ∷ [], refl, (parse_rule_line-IsRule text r e, tt), refl)
]

load_lines-Grows :
    (rules : RuleDatabase) (lines : List (List ℕ)) (count : ℕ)
    → Grows rules count (load_lines rules lines count)
unfolding load_lines
load_lines-Grows rules [] count = Grows-nothing rules count
load_lines-Grows rules (line ∷ lines) count =
    let text = drop_while_end is_line_end line in
    let added = add_custom_rule rules text in
    if_both (Grows rules count) (leb (length line) 1) (load_lines rules lines count) _
      (load_lines-Grows rules lines count)
      (Grows-trans rules added.0 count (if added.1 then count + 1 else count) _
        (add_custom_rule-Grows rules text count)
        (load_lines-Grows added.0 lines (if added.1 then count + 1 else count)))

load_from_file-Grows :
    (rules : RuleDatabase) (file : Option (List (List ℕ)))
    → Grows rules 0 (load_from_file rules file)
unfolding load_from_file
load_from_file-Grows rules none = Grows-nothing rules 0
load_from_file-Grows rules (some lines) = load_lines-Grows rules lines 0

Grows-shift :
    (rules : RuleDatabase) (total : ℕ) (out : RuleDatabase × ℕ)
    → Grows rules 0 out
    → Grows rules total (out.0, total + out.1)
Grows-shift rules total out h = (h.0, h.1, h.2, omega (arith, h.3))

load_files-Grows :
    (rules : RuleDatabase) (files : List (Option (List (List ℕ)))) (total : ℕ)
    → Grows rules total (load_files rules files total)
unfolding load_files
load_files-Grows rules [] total = Grows-nothing rules total
load_files-Grows rules (file ∷ files) total =
    let loaded = load_from_file rules file in
    Grows-trans rules loaded.0 total (total + loaded.1) _
      (Grows-shift rules total loaded (load_from_file-Grows rules file))
      (load_files-Grows loaded.0 files (total + loaded.1))

-- `load_from_directory` appends rules to those that are loaded, each new one has a sid that is not 0
-- and fits into 32 bits and a content or a pcre, and the number that it returns is theirs.
pub load_from_directory-Grows :
    (rules : RuleDatabase) (files : Option (List (Option (List (List ℕ)))))
    → Grows rules 0 (load_from_directory rules files)
unfolding load_from_directory
load_from_directory-Grows rules none = Grows-nothing rules 0
load_from_directory-Grows rules (some files) = load_files-Grows rules files 0
