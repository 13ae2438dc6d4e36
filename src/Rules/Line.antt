-- ===== src/Rules/Line.antt =====
-- `parse_rule_line` of src/main/dpi/rule_parser.h.
pub mod Valid
pub mod Body
use intrusion_detection.Base.{
  ℕ, zero, suc, ◌+◌, ◌-◌, Bool, true, false, not, ◌&&◌, ◌||◌, ltb, leb, ◌==◌, ◌!=◌, List, [], ◌∷◌,
  ◌++◌, Option, none, some, ◌>>=◌, length, if◌then◌else◌,
}
use intrusion_detection.Rules.{RuleProtocol, RuleAction, any_port, AethonRule, RuleContent}
use intrusion_detection.Rules.Text.{
  is_text, is_blank, drop_while, drop_while_end, trim, split_at, split_at_last,
}
use intrusion_detection.Rules.Ports.{parse_port_range}
use intrusion_detection.Rules.Options.{is_empty, front_is, apply_option}

abbrev pub cons_head : ℕ → List (List ℕ) → List (List ℕ)
cons_head c [] = (c ∷ []) ∷ []
cons_head c (t ∷ ts) = (c ∷ t) ∷ ts

-- Byte `c` of a token in front of `xs`, whose tokens are `ts`.
abbrev pub extend_token : ℕ → List ℕ → List (List ℕ) → List (List ℕ)
extend_token c [] ts = (c ∷ []) ∷ ts
extend_token c (d ∷ xs) ts = if is_blank d then (c ∷ []) ∷ ts else cons_head c ts

-- The tokens of the header: what stands between blanks.
unfoldable pub tokens : List ℕ → List (List ℕ)
tokens [] = []
tokens (c ∷ xs) = let ts = tokens xs in if is_blank c then ts else extend_token c xs ts

unfoldable pub parse_action : List ℕ → Option RuleAction
parse_action t =
    if is_text t "alert"
    then some RuleAction.alert
    else if is_text t "drop"
    then some RuleAction.drop
    else if is_text t "pass"
    then some RuleAction.pass
    else if is_text t "reject"
    then some RuleAction.reject
    else none

unfoldable pub parse_protocol : List ℕ → Option RuleProtocol
parse_protocol t =
    if is_text t "tcp"
      || (is_text t "http"
          || (is_text t "tls" || (is_text t "smtp" || (is_text t "ssh" || is_text t "ftp"))))
    then some RuleProtocol.tcp
    else if is_text t "udp" || is_text t "dns"
    then some RuleProtocol.udp
    else if is_text t "icmp"
    then some RuleProtocol.icmp
    else if is_text t "ip"
    then some RuleProtocol.any
    else none

-- The scan for the semicolon that ends an option, behind byte `prev`: the option, and what follows. A
-- quote behind a backslash does not count.
unfoldable pub scan_option : ℕ → Bool → List ℕ → List ℕ × List ℕ
scan_option prev inside_quote [] = ([], [])
scan_option prev inside_quote (c ∷ body) =
    let quote = c == b'"' && prev != b'\\' in
    let rest = scan_option c (if quote then not inside_quote else inside_quote) body in
    if not quote && (c == b';' && not inside_quote) then ([], body) else (c ∷ rest.0, rest.1)

abbrev pub is_option_gap : ℕ → Bool
is_option_gap c = is_blank c || c == b';'

abbrev pub is_space : ℕ → Bool
is_space c = c == b' '

-- One trimmed option: its key and its value.
unfoldable pub apply_option_text : List ℕ → AethonRule → AethonRule
apply_option_text opt r = elim (split_at b':' opt) [
  | none ↦ apply_option (drop_while_end is_space opt) [] r
  | some (key, val) ↦ apply_option (drop_while_end is_space key) (drop_while is_space val) r
]

-- The loop over the body. What stands before an option is a blank, a semicolon or nothing, so the scan
-- starts as behind no backslash.
unfoldable pub apply_body : ℕ → List ℕ → AethonRule → AethonRule
apply_body zero body r = r
apply_body (suc fuel) body r =
    let start = drop_while is_option_gap body in
    let scanned = scan_option 0 false start in
    let opt = trim scanned.0 in
    if is_empty start
    then r
    else apply_body fuel scanned.1 (if is_empty opt then r else apply_option_text opt r)

abbrev pub has_pattern : AethonRule → Bool
has_pattern r = not (length r.contents == 0 && not r.has_pcre)

-- The rule before its options.
abbrev pub blank_rule : RuleAction → RuleProtocol → List ℕ → List ℕ → AethonRule
blank_rule action protocol src_port dst_port = record {
  sid = 0;
  rev = 1;
  action = action;
  protocol = protocol;
  src_port = parse_port_range src_port;
  dst_port = parse_port_range dst_port;
  flow_established = false;
  flow_to_server = false;
  flow_to_client = false;
  contents = [];
  pcre_regex = [];
  has_pcre = false;
  msg = [];
  classtype = [];
  cve = [];
  confidence = [];
  severity = [];
  reference = [];
}

-- The header, of which seven tokens are needed.
unfoldable pub parse_header : List (List ℕ) → Option AethonRule
parse_header (t0 ∷ t1 ∷ t2 ∷ t3 ∷ t4 ∷ t5 ∷ t6 ∷ ts) =
    parse_action t0
    >>= (λ action. parse_protocol t1 >>= (λ protocol. some (blank_rule action protocol t3 t6)))
parse_header _ = none

-- The end: a rule without a sid or without a pattern is none.
unfoldable pub accept_rule : AethonRule → Option AethonRule
accept_rule r = if r.sid == 0 || not (has_pattern r) then none else some r

unfoldable pub parse_rule_line : List ℕ → Option AethonRule
parse_rule_line text =
    let line = drop_while is_blank text in
    if is_empty line || front_is b'#' line
    then none
    else split_at b'(' line >>= (λ (parts : List ℕ × List ℕ).
      split_at_last b')' parts.1 >>= (λ (inner : List ℕ × List ℕ).
        parse_header (tokens parts.0)
        >>= (λ r. accept_rule (apply_body (length inner.0) inner.0 r))))
