-- ===== src/Rules/Ports.antt =====
-- `parse_port_range` of src/main/dpi/rule_parser.h.
pub mod Ranges
use intrusion_detection.Base.{
  ℕ, ◌^◌, Bool, true, false, ◌||◌, ◌==◌, List, [], Option, none, some, length, if◌then◌else◌,
}
use intrusion_detection.Rules.{PortRange, any_port}
use intrusion_detection.Rules.Text.{is_text, trim, split_at, from_chars_below, or_else}

abbrev pub u16_bound : ℕ
u16_bound = 65536

abbrev pub single_port : Option ℕ → PortRange
single_port none = any_port
single_port (some port) = record { low = port; high = port; is_any = false }

-- One side of a range: what stands for an empty one and for one that is no number.
abbrev pub range_end : List ℕ → ℕ → ℕ
range_end s default_port =
    if length s == 0 then default_port else or_else (from_chars_below u16_bound s) default_port

-- Behind the test for the names.
unfoldable pub parse_ports : List ℕ → PortRange
parse_ports s = elim (split_at b':' s) [
  | none ↦ single_port (from_chars_below u16_bound s)
  | some (low_part, high_part) ↦ record {
    low = range_end low_part 0;
    high = range_end high_part 65535;
    is_any = false;
  }
]

unfoldable pub parse_port_range : List ℕ → PortRange
parse_port_range text =
    let s = trim text in
    if length s == 0 || (is_text s "any" || (is_text s "$HTTP_PORTS" || is_text s "$SQL_SERVERS"))
    then any_port
    else parse_ports s
