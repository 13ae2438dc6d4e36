-- ===== src/Scan.antt =====
-- The scanner of src/main/dpi/hyper_scan_engine.h: the expressions that are compiled from the rules, the
-- filter on the matches, and the scans. Hyperscan is a library: whether its calls succeed and which
-- matches a scan reports are arguments. The map from sids to rules is the function `find`.
pub mod Matches
pub mod Expressions
mod Tests
use intrusion_detection.Base.{
  ℕ, zero, suc, ◌+◌, ◌-◌, ◌/◌, ◌%◌, Bool, true, false, not, ◌&&◌, ◌||◌, ltb, leb, ◌==◌, List, [],
  ◌∷◌, ◌++◌, Option, none, some, length, if◌then◌else◌,
}
use intrusion_detection.Rules.{RuleContent, AethonRule}
use intrusion_detection.Rules.Text.{ℤ, pos, negsuc, codes}

pub record AttackAlert : Type 0 where
  pub sid : ℕ
  pub rule : AethonRule
  pub match_offset : ℕ
  pub payload : List ℕ

-- `MatchContext` as far as the callback changes it: the count, and the alerts given to `alert_cb`.
pub record MatchContext : Type 0 where
  pub match_count : ℕ
  pub alerts : List AttackAlert

-- The end of a match is too early for the offset.
unfoldable pub ends_early : RuleContent → ℕ → Bool
ends_early first to = elim first.offset [
  | pos offset ↦ ltb to (offset + length first.pattern)
  | negsuc n ↦ false
]

abbrev pub start_base : ℤ → ℕ
start_base (pos offset) = offset
start_base (negsuc n) = 0

-- The end of a match is too late for the depth.
unfoldable pub ends_late : RuleContent → ℕ → Bool
ends_late first to = elim first.depth [
  | pos depth ↦ ltb (start_base first.offset + depth) to
  | negsuc n ↦ false
]

-- Whether the first content lets a match that ends at `to` pass.
abbrev pub passes : List RuleContent → ℕ → Bool
passes [] to = true
passes (first ∷ rest) to = not (ends_early first to) && not (ends_late first to)

unfoldable pub on_match_event :
    (ℕ → Option AethonRule) → Bool → List ℕ → ℕ → ℕ → MatchContext → MatchContext
on_match_event find has_cb payload id to ctx = elim (find id) [
  | none ↦ ctx
  | some rule ↦
      if passes rule.contents to
      then record {
        match_count = ctx.match_count + 1;
        alerts =
            if has_cb
            then ctx.alerts
              ++ (record { sid = id; rule = rule; match_offset = to; payload = payload } ∷ [])
            else ctx.alerts;
      }
      else ctx
]

-- A match that Hyperscan reports: the id of the expression, and its end.
pub record Match : Type 0 where
  pub id : ℕ
  pub to : ℕ

-- The callbacks of one `hs_scan` or `hs_scan_stream`.
unfoldable pub run_matches :
    (ℕ → Option AethonRule) → Bool → List ℕ → List Match → MatchContext → MatchContext
run_matches find has_cb payload [] ctx = ctx
run_matches find has_cb payload (m ∷ ms) ctx =
    run_matches find has_cb payload ms (on_match_event find has_cb payload m.id m.to ctx)

-- What a scan returns, and its alerts.
pub record Scanned : Type 0 where
  pub matched : Bool
  pub alerts : List AttackAlert

abbrev pub no_match : Scanned
no_match = record { matched = false; alerts = [] }

-- An object of the scanner: whether `db_` and `scratch_` are set, the map, and whether a callback is.
pub record HyperscanWorker : Type 0 where
  pub has_db : Bool
  pub has_scratch : Bool
  pub find : ℕ → Option AethonRule
  pub has_cb : Bool

-- The scan behind the checks: `ok` says whether Hyperscan succeeds, `ms` what it reports.
abbrev pub scan_with : HyperscanWorker → List ℕ → Bool → List Match → Scanned
scan_with worker payload ok ms =
    let ctx =
      run_matches worker.find worker.has_cb payload ms (record { match_count = 0; alerts = [] }) in
    record { matched = ok && ltb 0 ctx.match_count; alerts = ctx.alerts }

-- `HyperscanEngine::scan`.
unfoldable pub engine_scan : HyperscanWorker → List ℕ → Bool → List Match → Scanned
engine_scan engine payload ok ms =
    if not engine.has_db || (not engine.has_scratch || length payload == 0)
    then no_match
    else scan_with engine payload ok ms

unfoldable pub scan_stream : HyperscanWorker → Bool → List ℕ → Bool → List Match → Scanned
scan_stream worker has_stream payload ok ms =
    if not has_stream || (not worker.has_scratch || length payload == 0)
    then no_match
    else scan_with worker payload ok ms

-- `hs_open_stream`, as far as it is called.
unfoldable pub open_stream : HyperscanWorker → Bool → Bool
open_stream worker opens = worker.has_db && opens

-- `HyperscanWorker::scan`.
unfoldable pub worker_scan : HyperscanWorker → Bool → List ℕ → Bool → List Match → Scanned
worker_scan worker opens payload ok ms =
    if not worker.has_db || (not worker.has_scratch || length payload == 0)
    then no_match
    else if not opens
    then no_match
    else scan_stream worker true payload ok ms

-- `create_worker`: `clones` says whether `hs_clone_scratch` succeeds.
unfoldable pub create_worker : HyperscanWorker → Bool → HyperscanWorker
create_worker engine clones =
    if not engine.has_db || not engine.has_scratch || not clones
    then record { has_db = false; has_scratch = false; find = λ id. none; has_cb = false }
    else record engine { has_db = true; has_scratch = true }

-- `std::to_string`: the decimal digits in front of `tail`.
abbrev pub decimal : ℕ → ℕ → List ℕ → List ℕ
decimal zero n tail = tail
decimal (suc fuel) n tail =
    let digits = (b'0' + n % 10) ∷ tail in
    let rest = decimal fuel (n / 10) digits in if ltb n 10 then digits else rest

abbrev pub to_string : ℕ → List ℕ
to_string n = decimal (suc n) n []

abbrev pub or_default : ℤ → ℕ → ℕ
or_default (pos n) d = n
or_default (negsuc n) d = d

-- The bounds of the gap before a content: `d` and `w` after the clamps.
unfoldable pub gap : RuleContent → ℕ × ℕ
gap nxt =
    let d₀ = or_default nxt.distance 0 in
    let w₀ = or_default nxt.within 100 in
    let d = if ltb 500 d₀ then 500 else d₀ in
    let w = if ltb 1000 w₀ then 1000 else w₀ in (d, if ltb w d then d + 100 else w)

unfoldable pub gap_text : RuleContent → List ℕ
gap_text nxt =
    let g = gap nxt in codes ".{" ++ (to_string g.0 ++ (b',' ∷ (to_string g.1 ++ codes "}")))

-- The contents behind the first, each with its gap.
abbrev pub join_contents : List RuleContent → List ℕ
join_contents [] = []
join_contents (nxt ∷ rest) = gap_text nxt ++ (nxt.pattern ++ join_contents rest)

abbrev pub any_nocase : List RuleContent → Bool
any_nocase [] = false
any_nocase (c ∷ cs) = c.nocase || any_nocase cs

-- An expression for `hs_compile_multi`; HS_FLAG_SINGLEMATCH and HS_FLAG_DOTALL are always set.
pub record Expression : Type 0 where
  pub pattern : List ℕ
  pub caseless : Bool
  pub id : ℕ

-- The pattern of the contents, or without any the other one.
abbrev pub contents_pattern : List RuleContent → List ℕ → List ℕ
contents_pattern [] regex = regex
contents_pattern (first ∷ rest) regex = first.pattern ++ join_contents rest

unfoldable pub rule_pattern : AethonRule → List ℕ
rule_pattern r = contents_pattern r.contents (if r.has_pcre then r.pcre_regex else [])

-- The expressions of the rules, in order, without those whose pattern is empty.
unfoldable pub expressions : List AethonRule → List Expression
expressions [] = []
expressions (r ∷ rs) =
    let rest = expressions rs in
    if length (rule_pattern r) == 0
    then rest
    else record { pattern = rule_pattern r; caseless = any_nocase r.contents; id = r.sid } ∷ rest

-- Whether `compile_rules` returns `true`, with what it compiled.
unfoldable pub compile_rules : Bool → Bool → List AethonRule → Option (List Expression)
compile_rules compiles has_scratch rules =
    let es = expressions rules in
    if length rules == 0
    then none
    else if length es == 0
    then none
    else if not compiles || not has_scratch
    then none
    else some es
