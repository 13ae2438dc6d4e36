-- ===== src/Tls/Blocklist.antt =====
-- src/main/tls/domain_blocklist.h: `DomainBlocklist`. A domain is the list of its bytes.
pub mod Policy
pub mod Load
use intrusion_detection.Base.{
  ℕ, zero, suc, ◌+◌, Bool, true, false, not, ◌&&◌, ◌||◌, ltb, leb, ◌==◌, List, [], ◌∷◌, ◌++◌, map,
  length, Option, none, some, if◌then◌else◌,
}

abbrev pub Domain : Type 0
Domain = List ℕ

-- `::tolower` in the C locale.
abbrev pub to_lower : ℕ → ℕ
to_lower c = if leb 65 c && leb c 90 then c + 32 else c

abbrev pub lower : Domain → Domain
lower d = map to_lower d

abbrev pub same_domain : Domain → Domain → Bool
same_domain [] [] = true
same_domain (x ∷ xs) (y ∷ ys) = x == y && same_domain xs ys
same_domain _ _ = false

-- `blocked_domains_`, a set of texts, as a list without repetition.
abbrev pub DomainSet : Type 0
DomainSet = List Domain

-- `blocked_domains_.find(d) != blocked_domains_.end()`
unfoldable pub listed : DomainSet → Domain → Bool
listed [] d = false
listed (x ∷ xs) d = same_domain x d || listed xs d

-- `blocked_domains_.insert(d)`
abbrev pub insert : DomainSet → Domain → DomainSet
insert set d = if listed set d then set else set ++ (d ∷ [])

unfoldable pub add_domain : DomainSet → Domain → DomainSet
add_domain set d = insert set (lower d)

-- What stands behind the first dot: `find('.')` and `substr`. A position in the domain is held as the
-- text behind it.
unfoldable pub behind_dot : Domain → Option Domain
behind_dot [] = none
behind_dot (c ∷ d) = if c == b'.' then some d else behind_dot d

-- The loop over the parent domains, which stops at a parent with no dot. Each round takes a byte at
-- least, so the length of the domain is fuel enough.
unfoldable pub parent_listed : ℕ → DomainSet → Domain → Bool
parent_listed zero set d = false
parent_listed (suc fuel) set d = elim (behind_dot d) [
  | none ↦ false
  | some parent ↦
      let rest = parent_listed fuel set parent in
      elim (behind_dot parent) [ none ↦ false | some _ ↦ if listed set parent then true else rest ]
]

unfoldable pub is_blocked : DomainSet → Domain → Bool
is_blocked set d =
    let l = lower d in
    if length d == 0 || ltb 255 (length d)
    then false
    else if listed set l
    then true
    else parent_listed (length l) set l

unfoldable pub is_allowed : DomainSet → Domain → Bool
is_allowed set d =
    let l = lower d in
    if length d == 0 || ltb 255 (length d)
    then false
    else if length set == 0
    then true
    else if listed set l
    then false
    else parent_listed (length l) set l

-- `line.back()` is one of `\r`, space and tab: the loop that pops them off the end.
abbrev pub is_blank : ℕ → Bool
is_blank c = c == 32 || c == 9

unfoldable pub strip_end : List ℕ → List ℕ
strip_end [] = []
strip_end (c ∷ cs) = elim (strip_end cs) [
  | [] ↦ if c == 13 || is_blank c then [] else c ∷ []
  | x ∷ xs ↦ c ∷ (x ∷ xs)
]

-- The text from the first byte on that is neither space nor tab.
unfoldable pub strip_start : List ℕ → List ℕ
strip_start [] = []
strip_start (c ∷ cs) = if is_blank c then strip_start cs else c ∷ cs

-- The domain of a line, if it is neither blank nor a comment.
unfoldable pub parse_line : List ℕ → Option Domain
parse_line line = elim (strip_start (strip_end line)) [
  | [] ↦ none
  | c ∷ cs ↦ if c == b'#' then none else some (c ∷ cs)
]

-- `load_from_file`, on the lines that `getline` gives: the set, and the number of domains.
unfoldable pub load_lines : DomainSet → ℕ → List (List ℕ) → DomainSet × ℕ
load_lines set count [] = (set, count)
load_lines set count (line ∷ lines) =
    let o = parse_line line in
    let set' : DomainSet = elim o [ none ↦ set | some d ↦ add_domain set d ] in
    let count' : ℕ = elim o [ none ↦ count | some d ↦ count + 1 ] in load_lines set' count' lines
