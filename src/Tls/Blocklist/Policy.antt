-- ===== src/Tls/Blocklist/Policy.antt =====
-- What `is_blocked` and `is_allowed` decide.
use intrusion_detection.Base.{
  ℕ, zero, suc, ◌≤◌, ◌<◌, ◌≡◌, refl, ap, Bool, true, false, not, ◌&&◌, ◌||◌, leb, ◌==◌, [], ◌∷◌,
  ◌++◌, length, length-append, none, some, Option-cases, arith, inl, inr,
}
use intrusion_detection.Tls.Blocklist.{
  Domain, DomainSet, lower, to_lower, listed, behind_dot, parent_listed, is_blocked, is_allowed,
}

abbrev has_dot : Domain → Bool
has_dot [] = false
has_dot (c ∷ d) = c == b'.' || has_dot d

-- Some text behind a dot of the domain is listed and has a dot itself.
abbrev pub some_parent_listed : DomainSet → Domain → Bool
some_parent_listed set [] = false
some_parent_listed set (c ∷ d) =
    c == b'.' && (has_dot d && listed set d) || some_parent_listed set d

length-behind_dot : (d p : Domain) → behind_dot d ≡ some p → length p < length d
unfolding behind_dot
length-behind_dot [] p h = ground arith
length-behind_dot (c ∷ d) p h = ground (arith, length-behind_dot d p)

behind_dot-none : (d : Domain) → behind_dot d ≡ none → has_dot d ≡ false
unfolding behind_dot
behind_dot-none [] h = refl
behind_dot-none (c ∷ d) h = ground (arith, behind_dot-none d)

behind_dot-some : (d p : Domain) → behind_dot d ≡ some p → has_dot d ≡ true
unfolding behind_dot
behind_dot-some [] p h = ground arith
behind_dot-some (c ∷ d) p h = ground (arith, behind_dot-some d p)

-- No dot, no parent.
some_parent_listed-no_dot :
    (set : DomainSet) (d : Domain) → has_dot d ≡ false → some_parent_listed set d ≡ false
some_parent_listed-no_dot set [] h = refl
some_parent_listed-no_dot set (c ∷ d) h = ground (arith, some_parent_listed-no_dot set d)

-- The parents are the one behind the first dot, and its parents.
some_parent_listed-behind :
    (set : DomainSet) (d p : Domain)
    → behind_dot d ≡ some p
    → some_parent_listed set d ≡ (has_dot p && listed set p || some_parent_listed set p)
unfolding behind_dot
some_parent_listed-behind set [] p h = ground arith
some_parent_listed-behind set (c ∷ d) p h = ground (arith, some_parent_listed-behind set d p)

parent_listed_lem :
    (fuel : ℕ) (set : DomainSet) (d : Domain)
    → length d ≤ fuel
    → parent_listed fuel set d ≡ some_parent_listed set d
unfolding parent_listed
parent_listed_lem zero set [] h = refl
parent_listed_lem zero set (c ∷ d) h = absurd (omega arith)
parent_listed_lem (suc fuel) set d h = elim (Option-cases (behind_dot d)) [
  | inl e ↦ ground (arith, behind_dot-none d, some_parent_listed-no_dot set d)
  | inr (p, e) ↦ elim (Option-cases (behind_dot p)) [
    | inl e' ↦ ground (
      arith,
      some_parent_listed-behind set d p,
      behind_dot-none p,
      some_parent_listed-no_dot set p,
    )
    | inr (q, e') ↦ ground (
      arith,
      some_parent_listed-behind set d p,
      behind_dot-some p q,
      length-behind_dot d p,
      parent_listed_lem fuel set p,
    )
  ]
]

length-lower : (d : Domain) → length (lower d) ≡ length d
length-lower [] = refl
length-lower (c ∷ d) = ap suc (length-lower d)

-- A domain is blocked exactly when its length is 1 to 255 and, in lower case, it is listed itself or
-- some text behind one of its dots is listed and has a dot.
pub is_blocked_lem :
    (set : DomainSet) (d : Domain)
    → is_blocked set d ≡ (
        not (length d == 0)
        && leb (length d) 255
        && (listed set (lower d) || some_parent_listed set (lower d)))
unfolding is_blocked
is_blocked_lem set d = ground (arith, parent_listed_lem (length (lower d)) set (lower d))

-- With a list that is not empty, whatever is allowed is blocked.
pub is_allowed-is_blocked :
    (set : DomainSet) (d : Domain)
    → 0 < length set
    → is_allowed set d ≡ true
    → is_blocked set d ≡ true
unfolding is_allowed is_blocked
is_allowed-is_blocked set d h a = ground arith

some_parent_listed-append :
    (set : DomainSet) (a p : Domain)
    → has_dot p ≡ true
    → listed set p ≡ true
    → some_parent_listed set (a ++ (b'.' ∷ p)) ≡ true
some_parent_listed-append set [] p h l = ground arith
some_parent_listed-append set (c ∷ a) p h l = ground (arith, some_parent_listed-append set a p h l)

has_dot-lower : (d : Domain) → has_dot (lower d) ≡ has_dot d
has_dot-lower [] = refl
has_dot-lower (c ∷ d) = ground (arith, has_dot-lower d)

lower-append : (a p : Domain) → lower (a ++ (b'.' ∷ p)) ≡ lower a ++ (b'.' ∷ lower p)
lower-append [] p = refl
lower-append (c ∷ a) p = ap (λ d. to_lower c ∷ d) (lower-append a p)

-- A subdomain, of at most 255 bytes, of a listed domain that has a dot, and not listed itself, is both
-- blocked and allowed.
pub is_blocked-subdomain :
    (set : DomainSet) (a p : Domain)
    → has_dot p ≡ true
    → listed set (lower p) ≡ true
    → length (a ++ (b'.' ∷ p)) ≤ 255
    → listed set (lower (a ++ (b'.' ∷ p))) ≡ false
    → (is_blocked set (a ++ (b'.' ∷ p)) ≡ true) × (is_allowed set (a ++ (b'.' ∷ p)) ≡ true)
unfolding is_allowed listed
is_blocked-subdomain set a p dot l small fresh =
    let d = a ++ (b'.' ∷ p) in
    let parent : some_parent_listed set (lower d) ≡ true =
      rw lower-append
        (some_parent_listed-append set (lower a) (lower p) (rw has_dot-lower dot) l) in
    let size = length-append a (b'.' ∷ p) in
    (
      ground (arith, is_blocked_lem set d),
      ground (arith, parent_listed_lem (length (lower d)) set (lower d)),
    )
