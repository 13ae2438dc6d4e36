-- ===== src/Rules/Tests.antt =====
-- Runs of the rule parser at concrete inputs.
use intrusion_detection.Base.{◌≤◌, ◌≡◌, ◌↔◌, refl, true, false, List, [], ◌∷◌, ◌++◌, some, arith}
use intrusion_detection.Rules.{AethonRule, RuleAction, RuleProtocol, matches}
use intrusion_detection.Rules.Text.{codes}
use intrusion_detection.Rules.Content.{
  normalize_content_to_regex, normalize_from, normalize_char, hex_char_to_val, hex_digit,
}
use intrusion_detection.Rules.Content.Literal.{literal_bytes}
use intrusion_detection.Rules.Content.Bars.{HexByte}
use intrusion_detection.Rules.Content.Pieces.{
  written_bytes, Piece, plain_text, bar_bytes, render, normalize_content_to_regex-render,
}
use intrusion_detection.Rules.Ports.{parse_port_range}
use intrusion_detection.Rules.Ports.Ranges.{parse_port_range-range, parse_port_range_unread}
use intrusion_detection.Rules.Options.{new_content}
use intrusion_detection.Rules.Line.{blank_rule, scan_option}
use intrusion_detection.Rules.Line.Body.{scan_option-quoted}
use intrusion_detection.Rules.Database.{load_from_directory}
use intrusion_detection.Rules.Database.Loaded.{Grows, load_from_directory-Grows}

-- ` a F`
abbrev spread : HexByte
spread = record {
  byte = 175;
  high_upper = false;
  low_upper = true;
  ahead = 1;
  between = 1;
  behind = 0;
}

abbrev pieces : List Piece
pieces = plain_text (codes "a.b") ∷ bar_bytes (13 ∷ 10 ∷ []) ∷ written_bytes (spread ∷ []) ∷ []

normalize_content_to_regex-render_example :
    literal_bytes (normalize_content_to_regex (render pieces))
    ≡ some (b'a' ∷ b'.' ∷ b'b' ∷ 13 ∷ 10 ∷ 175 ∷ [])
normalize_content_to_regex-render_example = normalize_content_to_regex-render pieces (
  (omega arith, (omega arith, (omega arith, tt))),
  ((omega arith, (omega arith, tt)), ((omega arith, tt), tt)),
)

escaped : normalize_content_to_regex (codes "a.|0D 0a|") ≡ codes "a\\.\\x0d\\x0a"
unfolding normalize_content_to_regex normalize_from normalize_char hex_char_to_val hex_digit
escaped = refl

parse_port_range-range_example :
    (matches (parse_port_range (codes "80:90")) 85 ≡ true) ↔ ((80 ≤ 85) × (85 ≤ 90))
parse_port_range-range_example =
    parse_port_range-range 8 9 (0 ∷ []) (0 ∷ []) 85 (omega arith, (omega arith, tt))
      (omega arith, (omega arith, tt)) (omega arith) (omega arith)

parse_port_range_unread_example :
    (matches (parse_port_range (codes "!80")) 80 ≡ true)
    × (matches (parse_port_range (codes "[80,90]")) 80 ≡ true)
parse_port_range_unread_example =
    parse_port_range_unread 8 9 (0 ∷ []) (0 ∷ []) 80 (omega arith, (omega arith, tt))
      (omega arith, (omega arith, tt))

abbrev rule : AethonRule
rule = record (blank_rule RuleAction.alert RuleProtocol.tcp [] []) {
  contents = new_content (codes "a") false ∷ new_content (codes "b") false ∷ [];
}

scan_option-quoted_example :
    scan_option 0 false (codes "msg:\"a;b\";sid:7;") ≡ (codes "msg:\"a;b\"", codes "sid:7;")
scan_option-quoted_example =
    scan_option-quoted 0 (codes "msg:") (codes "a;b") (codes "sid:7;") (omega arith)
      (
        omega arith,
        omega arith,
        omega arith,
        (
          omega arith,
          omega arith,
          omega arith,
          (omega arith, omega arith, omega arith, (omega arith, omega arith, omega arith, tt)),
        ),
      )
      (omega arith, omega arith, (omega arith, omega arith, (omega arith, omega arith, tt)))

load_from_directory-Grows_example : Grows (rule ∷ []) 0 (
    load_from_directory (rule ∷ []) (
      some (
        some ((codes "alert tcp any any -> any 80 (content:\"x\"; sid:7;)" ++ (10 ∷ [])) ∷ [])
        ∷ [])))
load_from_directory-Grows_example = load_from_directory-Grows (rule ∷ []) _
