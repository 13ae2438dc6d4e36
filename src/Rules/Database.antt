-- ===== src/Rules/Database.antt =====
-- `RuleDatabase` of src/main/dpi/rule_parser.h. A file is the list of what `getline` gives, each line with
-- its newline; a directory is the list of its `.rules` files, none where it does not exist.
pub mod Loaded
use intrusion_detection.Base.{
  ℕ, ◌+◌, Bool, true, false, ◌||◌, leb, ◌==◌, List, [], ◌∷◌, ◌++◌, Option, none, some, length,
  if◌then◌else◌,
}
use intrusion_detection.Rules.{AethonRule}
use intrusion_detection.Rules.Text.{drop_while_end}
use intrusion_detection.Rules.Line.{parse_rule_line}

abbrev pub RuleDatabase : Type 0
RuleDatabase = List AethonRule

unfoldable pub add_custom_rule : RuleDatabase → List ℕ → RuleDatabase × Bool
add_custom_rule rules text = elim (parse_rule_line text) [
  | none ↦ (rules, false)
  | some r ↦ (rules ++ (r ∷ []), true)
]

abbrev pub is_line_end : ℕ → Bool
is_line_end c = c == 10 || c == 13

-- The loop of `load_from_file`, with `count`.
unfoldable pub load_lines : RuleDatabase → List (List ℕ) → ℕ → RuleDatabase × ℕ
load_lines rules [] count = (rules, count)
load_lines rules (line ∷ lines) count =
    let added = add_custom_rule rules (drop_while_end is_line_end line) in
    if leb (length line) 1
    then load_lines rules lines count
    else load_lines added.0 lines (if added.1 then count + 1 else count)

-- none: the file can not be opened.
unfoldable pub load_from_file : RuleDatabase → Option (List (List ℕ)) → RuleDatabase × ℕ
load_from_file rules none = (rules, 0)
load_from_file rules (some lines) = load_lines rules lines 0

unfoldable pub load_files : RuleDatabase → List (Option (List (List ℕ))) → ℕ → RuleDatabase × ℕ
load_files rules [] total = (rules, total)
load_files rules (file ∷ files) total =
    let loaded = load_from_file rules file in load_files loaded.0 files (total + loaded.1)

unfoldable pub load_from_directory :
    RuleDatabase → Option (List (Option (List (List ℕ)))) → RuleDatabase × ℕ
load_from_directory rules none = (rules, 0)
load_from_directory rules (some files) = load_files rules files 0

unfoldable clear : RuleDatabase → RuleDatabase
clear rules = []
