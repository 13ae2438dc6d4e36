-- ===== src/Scan/Tests.antt =====
-- Runs of the scanner at concrete inputs.
use intrusion_detection.Base.{
  ℕ, ◌≡◌, refl, true, false, ◌&&◌, ltb, List, [], ◌∷◌, some, length, arith,
}
use intrusion_detection.Rules.{RuleContent, AethonRule, RuleAction, RuleProtocol}
use intrusion_detection.Rules.Text.{pos}
use intrusion_detection.Rules.Content.{normalize_content_to_regex}
use intrusion_detection.Rules.Content.Pieces.{bar_bytes, render}
use intrusion_detection.Rules.Options.{new_content}
use intrusion_detection.Rules.Line.{blank_rule}
use intrusion_detection.Scan.{Match, HyperscanWorker, passes, worker_scan, expressions}
use intrusion_detection.Scan.Matches.{alerts_of, worker_scan-alerts_of, bar_bytes_dropped}
use intrusion_detection.Scan.Expressions.{affirm_rules, expressions-affirm_rules}

abbrev bytes : List ℕ
bytes = 0x41 ∷ 0x42 ∷ []

-- Two bytes between bars, from the start of the payload on.
abbrev content : RuleContent
content = record (new_content (normalize_content_to_regex (render (bar_bytes bytes ∷ []))) true) {
  offset = pos 0;
}

abbrev rule : AethonRule
rule = record (blank_rule RuleAction.drop RuleProtocol.tcp [] []) {
  sid = 7;
  contents = new_content (b'a' ∷ []) false ∷ [];
}

abbrev worker : HyperscanWorker
worker = record { has_db = true; has_scratch = true; find = λ id. some rule; has_cb = true }

abbrev reported : List Match
reported = record { id = 7; to = 1 } ∷ []

worker_scan-alerts_of_example : worker_scan worker true (b'a' ∷ []) true reported ≡ record {
  matched = true && ltb 0 (length (alerts_of worker.find (b'a' ∷ []) reported));
  alerts = alerts_of worker.find (b'a' ∷ []) reported;
}
worker_scan-alerts_of_example =
    worker_scan-alerts_of worker (b'a' ∷ []) true reported refl refl refl (omega arith)

bar_bytes_dropped_example : passes (content ∷ []) 2 ≡ false
bar_bytes_dropped_example =
    bar_bytes_dropped bytes content [] (omega arith) (omega arith, (omega arith, tt)) refl refl

expressions-affirm_rules_example :
    expressions (affirm_rules (record rule { contents = content ∷ [] } ∷ []))
    ≡ expressions (record rule { contents = content ∷ [] } ∷ [])
expressions-affirm_rules_example =
    expressions-affirm_rules (record rule { contents = content ∷ [] } ∷ [])
