-- ===== src/Rules.antt =====
-- The rule parser of src/main/dpi/rule_parser.h: the rules and their parts.
pub mod Text
pub mod Content
pub mod Ports
pub mod Options
pub mod Line
pub mod Database
mod Tests
use intrusion_detection.Base.{ℕ, Bool, true, false, ◌&&◌, ◌||◌, leb, List, []}
use intrusion_detection.Rules.Text.{ℤ, negsuc}

pub data RuleProtocol : Type 0 where
  any icmp tcp udp : RuleProtocol

pub data RuleAction : Type 0 where
  alert drop pass reject : RuleAction

pub record PortRange : Type 0 where
  pub low : ℕ
  pub high : ℕ
  pub is_any : Bool

abbrev pub any_port : PortRange
any_port = record { low = 0; high = 65535; is_any = true }

unfoldable pub matches : PortRange → ℕ → Bool
matches r port = r.is_any || (leb r.low port && leb port r.high)

pub record RuleContent : Type 0 where
  pub pattern : List ℕ
  pub nocase : Bool
  pub is_negated : Bool
  pub fast_pattern : Bool
  pub depth : ℤ
  pub offset : ℤ
  pub distance : ℤ
  pub within : ℤ

-- -1: the modifier is not set.
abbrev pub unset : ℤ
unset = negsuc 0

pub record AethonRule : Type 0 where
  pub sid : ℕ
  pub rev : ℕ
  pub action : RuleAction
  pub protocol : RuleProtocol
  pub src_port : PortRange
  pub dst_port : PortRange
  pub flow_established : Bool
  pub flow_to_server : Bool
  pub flow_to_client : Bool
  pub contents : List RuleContent
  pub pcre_regex : List ℕ
  pub has_pcre : Bool
  pub msg : List ℕ
  pub classtype : List ℕ
  pub cve : List ℕ
  pub confidence : List ℕ
  pub severity : List ℕ
  pub reference : List ℕ
