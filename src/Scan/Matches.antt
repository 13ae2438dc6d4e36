-- ===== src/Scan/Matches.antt =====
-- Which matches make a scan find an attack.
use intrusion_detection.Base.{
  ℕ, ◌+◌, ◌*◌, ◌<◌, ◌≡◌, inl, inr, ap, ◌∙◌, Bool, true, false, ◌&&◌, ltb, List, [], ◌∷◌, ◌++◌,
  Option, none, some, length, arith, Option-cases, Bool-cases, append_assoc, append-nil,
  length-append, if◌then◌else◌,
}
use intrusion_detection.Rules.{RuleContent, AethonRule}
use intrusion_detection.Rules.Text.{pos}
use intrusion_detection.Rules.Content.{in_bytes, normalize_from, normalize_content_to_regex}
use intrusion_detection.Rules.Content.Pieces.{bar_bytes, render}
use intrusion_detection.Rules.Content.Bars.{
  hex_text, AllBytes, normalize_from-byte, normalize_char-bar,
}
use intrusion_detection.Scan.{
  AttackAlert, MatchContext, ends_early, passes, on_match_event, Match, run_matches,
  HyperscanWorker, scan_stream, worker_scan,
}

-- The alert of a match: where the map has its rule and the rule's first content lets it pass.
abbrev pub alert_of : (ℕ → Option AethonRule) → List ℕ → Match → List AttackAlert
alert_of find payload m = elim (find m.id) [
  | none ↦ []
  | some rule ↦
      if passes rule.contents m.to
      then record { sid = m.id; rule = rule; match_offset = m.to; payload = payload } ∷ []
      else []
]

abbrev pub alerts_of : (ℕ → Option AethonRule) → List ℕ → List Match → List AttackAlert
alerts_of find payload [] = []
alerts_of find payload (m ∷ ms) = alert_of find payload m ++ alerts_of find payload ms

on_match_event-alert_of :
    (find : ℕ → Option AethonRule) (payload : List ℕ) (m : Match) (ctx : MatchContext)
    → on_match_event find true payload m.id m.to ctx ≡ record {
      match_count = ctx.match_count + length (alert_of find payload m);
      alerts = ctx.alerts ++ alert_of find payload m;
    }
unfolding on_match_event
on_match_event-alert_of find payload m ctx = elim (Option-cases (find m.id)) [
  | inl e ↦ ground (arith, append-nil ctx.alerts)
  | inr (rule, e) ↦ elim (Bool-cases (passes rule.contents m.to)) [
    | inl y ↦ ground arith
    | inr n ↦ ground (arith, append-nil ctx.alerts)
  ]
]

run_matches-alerts_of :
    (find : ℕ → Option AethonRule) (payload : List ℕ) (ms : List Match) (ctx : MatchContext)
    → run_matches find true payload ms ctx ≡ record {
      match_count = ctx.match_count + length (alerts_of find payload ms);
      alerts = ctx.alerts ++ alerts_of find payload ms;
    }
unfolding run_matches
run_matches-alerts_of find payload [] ctx = ground (arith, append-nil ctx.alerts)
run_matches-alerts_of find payload (m ∷ ms) ctx =
    let here = alert_of find payload m in
    ap (run_matches find true payload ms) (on_match_event-alert_of find payload m ctx)
    ∙ run_matches-alerts_of find payload ms
        (record { match_count = ctx.match_count + length here; alerts = ctx.alerts ++ here })
    ∙ ground (
      arith,
      length-append here (alerts_of find payload ms),
      append_assoc ctx.alerts here (alerts_of find payload ms),
    )

-- A scan of at least one byte by a worker with a database, scratch space and a callback, whose stream
-- opens, gives an alert for each reported match whose rule is in the map and lets it pass, in order; it
-- finds an attack exactly where Hyperscan succeeds and there is such a match.
pub worker_scan-alerts_of :
    (worker : HyperscanWorker) (payload : List ℕ) (ok : Bool) (ms : List Match)
    → worker.has_db ≡ true
    → worker.has_scratch ≡ true
    → worker.has_cb ≡ true
    → 0 < length payload
    → worker_scan worker true payload ok ms ≡ record {
      matched = ok && ltb 0 (length (alerts_of worker.find payload ms));
      alerts = alerts_of worker.find payload ms;
    }
unfolding worker_scan scan_stream
worker_scan-alerts_of worker payload ok ms hd hs hc hp =
    ground (
      arith,
      run_matches-alerts_of worker.find payload ms (record { match_count = 0; alerts = [] }),
    )

length-hex_bytes :
    (bs rest : List ℕ)
    → AllBytes bs
    → length (normalize_from in_bytes (hex_text bs ++ rest))
      ≡ 4 * length bs + length (normalize_from in_bytes rest)
length-hex_bytes [] rest h = omega arith
length-hex_bytes (b ∷ bs) rest h = omega (
  arith,
  ap length (normalize_from-byte b (hex_text bs ++ rest) h.0),
  length-hex_bytes bs rest h.1,
)

length-bar_bytes :
    (bs : List ℕ)
    → AllBytes bs
    → length (normalize_content_to_regex (render (bar_bytes bs ∷ []))) ≡ 4 * length bs
unfolding normalize_content_to_regex normalize_from
length-bar_bytes bs h =
    rw (normalize_char-bar.0)
      (length-hex_bytes bs (b'|' ∷ []) h ∙ rw (normalize_char-bar.1) (omega arith))

-- The filter measures the regular expression in place of the bytes: where a rule's first content is at
-- least one byte between bars and has offset 0, a match of it at the very start of the payload, which
-- ends behind as many bytes as it has, is dropped.
pub bar_bytes_dropped :
    (bs : List ℕ) (c : RuleContent) (rest : List RuleContent)
    → 0 < length bs
    → AllBytes bs
    → c.pattern ≡ normalize_content_to_regex (render (bar_bytes bs ∷ []))
    → c.offset ≡ pos 0
    → passes (c ∷ rest) (length bs) ≡ false
unfolding ends_early
bar_bytes_dropped bs c rest some_bytes h ep eo =
    let size = ap length ep ∙ length-bar_bytes bs h in ground arith
