-- ===== src/Tls/Blocklist/Load.antt =====
-- What the set holds after domains are added to it, one by one or from the lines of a file.
use intrusion_detection.Base.{
  ℕ, ◌+◌, ◌≤◌, ◌<◌, ◌≡◌, refl, true, List, [], ◌∷◌, ◌++◌, length, none, some, Option-cases, arith,
  inl, inr, ◌||◌,
}
use intrusion_detection.Tls.Blocklist.{
  Domain, DomainSet, lower, same_domain, listed, add_domain, is_blocked, parse_line, load_lines,
}
use intrusion_detection.Tls.Blocklist.Policy.{is_blocked_lem}

same_domain_refl : (d : Domain) → same_domain d d ≡ true
same_domain_refl [] = refl
same_domain_refl (c ∷ d) = ground (arith, same_domain_refl d)

listed-append :
    (set : DomainSet) (x d : Domain)
    → listed (set ++ (x ∷ [])) d ≡ (listed set d || same_domain x d)
unfolding listed
listed-append [] x d = ground arith
listed-append (y ∷ set) x d = ground (arith, listed-append set x d)

-- Adding a domain lists it, and keeps what was listed.
listed-add_domain :
    (set : DomainSet) (d x : Domain)
    → (listed (add_domain set d) (lower d) ≡ true)
      × (listed set x ≡ true → listed (add_domain set d) x ≡ true)
unfolding add_domain
listed-add_domain set d x = (
  ground (arith, listed-append set (lower d) (lower d), same_domain_refl (lower d)),
  λ old. ground (arith, listed-append set (lower d) x),
)

load_lines-keeps :
    (lines : List (List ℕ)) (set : DomainSet) (count : ℕ) (x : Domain)
    → listed set x ≡ true
    → listed (load_lines set count lines).0 x ≡ true
unfolding load_lines
load_lines-keeps [] set count x h = h
load_lines-keeps (line ∷ lines) set count x h = elim (Option-cases (parse_line line)) [
  | inl e ↦ ground (arith, load_lines-keeps lines set count x)
  | inr (d, e) ↦ ground (
    arith,
    load_lines-keeps lines (add_domain set d) (count + 1) x,
    (listed-add_domain set d x).1 h,
  )
]

load_lines-listed :
    (before after : List (List ℕ)) (line : List ℕ) (d : Domain) (set : DomainSet) (count : ℕ)
    → parse_line line ≡ some d
    → listed (load_lines set count (before ++ (line ∷ after))).0 (lower d) ≡ true
unfolding load_lines
load_lines-listed [] after line d set count e = ground (
  arith,
  load_lines-keeps after (add_domain set d) (count + 1) (lower d),
  (listed-add_domain set d d).0,
)
load_lines-listed (l ∷ before) after line d set count e = elim (Option-cases (parse_line l)) [
  | inl none_here ↦ ground (arith, load_lines-listed before after line d set count)
  | inr (x, here) ↦
      ground (arith, load_lines-listed before after line d (add_domain set x) (count + 1))
]

-- After a file is loaded, each domain that a line of it names is blocked, in upper or lower case, if
-- its length is 1 to 255.
pub load_lines-is_blocked :
    (before after : List (List ℕ)) (line : List ℕ) (d x : Domain) (set : DomainSet) (count : ℕ)
    → parse_line line ≡ some d
    → lower x ≡ lower d
    → 0 < length x
    → length x ≤ 255
    → is_blocked (load_lines set count (before ++ (line ∷ after))).0 x ≡ true
load_lines-is_blocked before after line d x set count e same long short =
    let final = (load_lines set count (before ++ (line ∷ after))).0 in
    let here : listed final (lower x) ≡ true =
      rw same (load_lines-listed before after line d set count e) in
    ground (arith, is_blocked_lem final x)

-- `parse_line` succeeds on a line, as a number.
abbrev pub parsed : List ℕ → ℕ
parsed line = elim (parse_line line) [ none ↦ 0 | some _ ↦ 1 ]

abbrev pub count_parsed : List (List ℕ) → ℕ
count_parsed [] = 0
count_parsed (line ∷ lines) = parsed line + count_parsed lines

-- The count that a load returns is the number of lines that name a domain.
pub load_lines-count :
    (lines : List (List ℕ)) (set : DomainSet) (count : ℕ)
    → (load_lines set count lines).1 ≡ count + count_parsed lines
unfolding load_lines
load_lines-count [] set count = omega arith
load_lines-count (line ∷ lines) set count = elim (Option-cases (parse_line line)) [
  | inl e ↦ ground (arith, load_lines-count lines set count)
  | inr (d, e) ↦ ground (arith, load_lines-count lines (add_domain set d) (count + 1))
]
