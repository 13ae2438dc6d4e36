-- ===== src/Table.antt =====
-- aethon/single_thread_hasmap.h: `SingleThreadHashMap`, open addressing with linear probing, at the
-- capacity of both of its users. A cell whose key is `EmptyKey` is `none`; the hash and the equality of
-- keys are parameters.
pub mod Find
pub mod Size
pub mod Every
mod Tests
use intrusion_detection.Base.{
  ℕ, zero, suc, ◌+◌, ◌-◌, ◌*◌, ◌%◌, Bool, true, false, ◌&&◌, ◌||◌, ltb, leb, ◌==◌, Option, none,
  some, if◌then◌else◌,
}

abbrev pub capacity : ℕ
capacity = 131072

-- The probes that `find` makes at most.
abbrev pub max_search : ℕ
max_search = 64

-- The test of `erase` whether an entry with home `k` may move from `j` to the hole `i`.
abbrev pub can_shift : ℕ → ℕ → ℕ → Bool
can_shift i j k = if leb i j then leb k i || ltb j k else leb k i && ltb j k

module _ (K V : Type 0) where
  abbrev pub Cells : Type 0
  Cells = ℕ → Option (K × V)

  pub record Table : Type 0 where
    pub cells : Cells
    pub size : ℕ

module _ {K V : Type 0} where
  abbrev pub set_cell : Cells K V → ℕ → Option (K × V) → Cells K V
  set_cell cells i c j = if j == i then c else cells j

  abbrev pub empty_table : Table K V
  empty_table = record { cells = λ i. none; size = 0 }

module _ {K V : Type 0} (same : K → K → Bool) where
  -- The loop of `find`, from the cell at `idx` on.
  unfoldable pub find_from : ℕ → Cells K V → K → ℕ → Option V
  find_from zero cells key idx = none
  find_from (suc probes) cells key idx =
      let rest = find_from probes cells key ((idx + 1) % capacity) in
      elim (cells idx) [ none ↦ none | some (k, v) ↦ if same k key then some v else rest ]

  -- The loop of `emplace`: the cells, and whether one was empty.
  unfoldable pub emplace_from : ℕ → Cells K V → K → V → ℕ → Cells K V × Bool
  emplace_from zero cells key val idx = (cells, false)
  emplace_from (suc probes) cells key val idx =
      let rest = emplace_from probes cells key val ((idx + 1) % capacity) in
      elim (cells idx) [
        | none ↦ (set_cell cells idx (some (key, val)), true)
        | some (k, v) ↦ if same k key then (set_cell cells idx (some (key, val)), false) else rest
      ]

  -- The first loop of `erase`: the cell of the key.
  unfoldable pub locate : ℕ → Cells K V → K → ℕ → Option ℕ
  locate zero cells key i = none
  locate (suc probes) cells key i =
      let rest = locate probes cells key ((i + 1) % capacity) in
      elim (cells i) [ none ↦ none | some (k, v) ↦ if same k key then some i else rest ]

module _ {K V : Type 0} (hash : K → ℕ) where
  -- The second loop of `erase`: with a hole at `i` and the scan at `j`, later cells move back. The scan
  -- ends at an empty cell, or round the table at the hole; the fuel is a number of rounds.
  unfoldable pub shift_back : ℕ → Cells K V → ℕ → ℕ → Cells K V
  shift_back zero cells i j = set_cell cells i none
  shift_back (suc fuel) cells i j =
      let next = (j + 1) % capacity in
      let moved = shift_back fuel (set_cell cells i (cells next)) next next in
      let kept = shift_back fuel cells i next in
      elim (cells next) [
        | none ↦ set_cell cells i none
        | some (k, v) ↦
            if next == i
            then set_cell cells i none
            else if can_shift i next (hash k % capacity)
            then moved
            else kept
      ]

module _ {K V : Type 0} (same : K → K → Bool) (hash : K → ℕ) where
  unfoldable pub find : Table K V → K → Option V
  find t key = find_from same max_search t.cells key (hash key % capacity)

  unfoldable pub insert_entry : Table K V → K → V → Table K V
  insert_entry t key val =
      let out = emplace_from same capacity t.cells key val (hash key % capacity) in
      record { cells = out.0; size = if out.1 then t.size + 1 else t.size }

  unfoldable pub erase : Table K V → K → Table K V
  erase t key = elim (locate same capacity t.cells key (hash key % capacity)) [
    | none ↦ t
    | some i ↦ record { cells = shift_back hash capacity t.cells i i; size = t.size - 1 }
  ]
