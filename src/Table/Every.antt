-- ===== src/Table/Every.antt =====
-- Predicates that hold of every value in the table.
use mathlib.Core.Path.{subst, ap}
use mathlib.Core.Option.{some-injective}
use intrusion_detection.Base.{
  ℕ, zero, suc, ◌+◌, ◌%◌, ◌≡◌, Bool, true, false, Option, none, some, arith, Option-cases,
  Bool-cases, inl, inr, ◌==◌, if_both, if◌then◌else◌, ◌-◌,
}
use intrusion_detection.Table.{
  capacity, max_search, Cells, Table, set_cell, find_from, find, emplace_from, insert_entry,
  shift_back, erase, locate, can_shift,
}

module _ {K V : Type 0} (P : V → Type 0) where
  abbrev pub EveryCell : Cells K V → Type 0
  EveryCell cells = (i : ℕ) (k : K) (v : V) → cells i ≡ some (k, v) → P v

  abbrev pub Every : Table K V → Type 0
  Every t = EveryCell t.cells

  set_cell-EveryCell :
      (cells : Cells K V) (i : ℕ) (c : Option (K × V))
      → EveryCell cells
      → ((k : K) (v : V) → c ≡ some (k, v) → P v)
      → EveryCell (set_cell cells i c)
  set_cell-EveryCell cells i c h hc j k v e = elim (Bool-cases (j == i)) [
    | inl y ↦ hc k v (ground arith)
    | inr n ↦ h j k v (ground arith)
  ]

module _ {K V : Type 0} (P : V → Type 0) (same : K → K → Bool) where
  pub find_from-Every :
      (n : ℕ) (cells : Cells K V) (key : K) (idx : ℕ) (v : V)
      → EveryCell P cells
      → find_from same n cells key idx ≡ some v
      → P v
  unfolding find_from
  find_from-Every zero cells key idx v h e = absurd (ground arith)
  find_from-Every (suc n) cells key idx v h e = elim (Option-cases (cells idx)) [
    | inl c ↦ absurd (ground arith)
    | inr ((k, w), c) ↦ elim (Bool-cases (same k key)) [
      | inl y ↦ h idx k v (ground arith)
      | inr y ↦ find_from-Every n cells key ((idx + 1) % capacity) v h (ground arith)
    ]
  ]

  emplace_from-Every :
      (n : ℕ) (cells : Cells K V) (key : K) (val : V) (idx : ℕ)
      → EveryCell P cells
      → P val
      → EveryCell P (emplace_from same n cells key val idx).0
  unfolding emplace_from
  emplace_from-Every zero cells key val idx h p = h
  emplace_from-Every (suc n) cells key val idx h p =
      let put =
        set_cell-EveryCell P cells idx (some (key, val)) h
          (λ k v e. subst P (ap (λ t. t.1) (some-injective (key, val) (k, v) e)) p) in
      let rest = emplace_from same n cells key val ((idx + 1) % capacity) in
      elim (cells idx)
        as (λ c.
          EveryCell P
            (elim c as (λ x. Cells K V × Bool) [
              | none ↦ (set_cell cells idx (some (key, val)), true)
              | some (k, v) ↦
                  if same k key then (set_cell cells idx (some (key, val)), false) else rest
            ]).0) [
              | none ↦ put
              | some (k, v) ↦
                  if_both (λ o. EveryCell P o.0) (same k key)
                    (set_cell cells idx (some (key, val)), false) rest put
                    (emplace_from-Every n cells key val ((idx + 1) % capacity) h p)
            ]

module _ {K V : Type 0} (P : V → Type 0) (hash : K → ℕ) where
  shift_back-Every :
      (fuel : ℕ) (cells : Cells K V) (i j : ℕ)
      → EveryCell P cells
      → EveryCell P (shift_back hash fuel cells i j)
  unfolding shift_back
  shift_back-Every zero cells i j h =
      set_cell-EveryCell P cells i none h (λ k v e. absurd (ground arith))
  shift_back-Every (suc fuel) cells i j h =
      let next = (j + 1) % capacity in
      let moved = shift_back hash fuel (set_cell cells i (cells next)) next next in
      let kept = shift_back hash fuel cells i next in
      let emptied = set_cell-EveryCell P cells i none h (λ k v e. absurd (ground arith)) in
      elim (cells next)
        as (λ c. EveryCell P (elim c as (λ x. Cells K V) [
          | none ↦ set_cell cells i none
          | some (k, v) ↦
              if next == i
              then set_cell cells i none
              else if can_shift i next (hash k % capacity)
              then moved
              else kept
        ])) [
          | none ↦ emptied
          | some (k, v) ↦ if_both (EveryCell P) (next == i) (set_cell cells i none) _ emptied (
              if_both (EveryCell P) (can_shift i next (hash k % capacity)) moved kept
                (shift_back-Every fuel (set_cell cells i (cells next)) next next
                  (set_cell-EveryCell P cells i (cells next) h (λ k' v' e. h next k' v' e)))
                (shift_back-Every fuel cells i next h))
        ]

module _ {K V : Type 0} (P : V → Type 0) (same : K → K → Bool) (hash : K → ℕ) where
  -- A value that `find` gives is in the table.
  pub find-Every :
      (t : Table K V) (key : K) (v : V) → Every P t → find same hash t key ≡ some v → P v
  unfolding find
  find-Every t key v h e = find_from-Every P same max_search t.cells key (hash key % capacity) v h e

  pub insert_entry-Every :
      (t : Table K V) (key : K) (val : V)
      → Every P t
      → P val
      → Every P (insert_entry same hash t key val)
  unfolding insert_entry
  insert_entry-Every t key val h p =
      emplace_from-Every P same capacity t.cells key val (hash key % capacity) h p

  pub erase-Every : (t : Table K V) (key : K) → Every P t → Every P (erase same hash t key)
  unfolding erase
  erase-Every t key h =
      elim (locate same capacity t.cells key (hash key % capacity))
        as (λ o. Every P (elim o as (λ x. Table K V) [
          | none ↦ t
          | some i ↦ record { cells = shift_back hash capacity t.cells i i; size = t.size - 1 }
        ])) [ none ↦ h | some i ↦ shift_back-Every P hash capacity t.cells i i h ]
