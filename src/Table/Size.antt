-- ===== src/Table/Size.antt =====
-- How the operations change the count of entries.
use intrusion_detection.Base.{
  ℕ, zero, suc, ◌+◌, ◌-◌, ◌%◌, ◌≤◌, ◌≡◌, ◌≢◌, ◌⊎◌, refl, Bool, true, false, ◌==◌, none, some, arith,
  Option-cases, Bool-cases, inl, inr,
}
use intrusion_detection.Table.{
  capacity, max_search, Cells, Table, find_from, find, emplace_from, insert_entry, erase, locate,
}

-- An insertion of a key that is found adds no entry.
emplace_from-found :
    {K V : Type 0} (same : K → K → Bool) (m n : ℕ) (cells : Cells K V) (key : K) (v val : V)
    (idx : ℕ)
    → m ≤ n
    → find_from same m cells key idx ≡ some v
    → (emplace_from same n cells key val idx).1 ≡ false
unfolding find_from emplace_from
emplace_from-found same zero n cells key v val idx hm found = absurd (ground arith)
emplace_from-found same (suc m) zero cells key v val idx hm found = absurd (omega arith)
emplace_from-found same (suc m) (suc n) cells key v val idx hm found = ground (
  arith,
  Option-cases (cells idx),
  emplace_from-found same m n cells key v val ((idx + 1) % capacity),
)

-- An erasure reaches a key that a lookup finds.
locate-found :
    {K V : Type 0} (same : K → K → Bool) (m n : ℕ) (cells : Cells K V) (key : K) (v : V) (idx : ℕ)
    → m ≤ n
    → find_from same m cells key idx ≡ some v
    → (i : ℕ) × (locate same n cells key idx ≡ some i)
unfolding find_from locate
locate-found same zero n cells key v idx hm found = absurd (ground arith)
locate-found same (suc m) zero cells key v idx hm found = absurd (omega arith)
locate-found same (suc m) (suc n) cells key v idx hm found = elim (Option-cases (cells idx)) [
  | inl e ↦ absurd (ground arith)
  | inr ((k, w), e) ↦ elim (Bool-cases (same k key)) [
    | inl y ↦ (idx, ground arith)
    | inr ne ↦
        let there =
          locate-found same m n cells key v ((idx + 1) % capacity) (omega arith) (ground arith) in
        (there.0, ground (arith, there.1))
  ]
]

module _ {K V : Type 0} (same : K → K → Bool) (key : K) (v : V)
    (same_key : same key key ≡ true) where
  -- An insertion leaves a cell as it is or puts the entry there.
  emplace_from-cell :
      (n : ℕ) (cells : Cells K V) (idx j : ℕ)
      → ((emplace_from same n cells key v idx).0 j ≡ cells j)
        ⊎ ((emplace_from same n cells key v idx).0 j ≡ some (key, v))
  unfolding emplace_from
  emplace_from-cell zero cells idx j = inl refl
  emplace_from-cell (suc n) cells idx j = elim (Option-cases (cells idx)) [
    | inl e ↦ elim (Bool-cases (j == idx)) [
      | inl y ↦ inr (ground arith)
      | inr ne ↦ inl (ground arith)
    ]
    | inr ((k, w), e) ↦ elim (Bool-cases (same k key)) [
      | inl s ↦ elim (Bool-cases (j == idx)) [
        | inl y ↦ inr (ground arith)
        | inr ne ↦ inl (ground arith)
      ]
      | inr ne ↦ elim (emplace_from-cell n cells ((idx + 1) % capacity) j) [
        | inl y ↦ inl (ground arith)
        | inr y ↦ inr (ground arith)
      ]
    ]
  ]

  -- A second insertion of the key adds no entry.
  emplace_from_twice :
      (n : ℕ) (cells : Cells K V) (w : V) (idx : ℕ)
      → (emplace_from same n (emplace_from same n cells key v idx).0 key w idx).1 ≡ false
  unfolding emplace_from
  emplace_from_twice zero cells w idx = refl
  emplace_from_twice (suc n) cells w idx = elim (Option-cases (cells idx)) [
    | inl e ↦ ground arith
    | inr ((k, x), e) ↦ elim (Bool-cases (same k key)) [
      | inl s ↦ ground arith
      | inr ne ↦ ground (
        arith,
        emplace_from-cell n cells ((idx + 1) % capacity) idx,
        emplace_from_twice n cells w ((idx + 1) % capacity),
      )
    ]
  ]

  -- An erasure reaches an entry that an insertion has added.
  locate-emplace_from :
      (n : ℕ) (cells : Cells K V) (idx : ℕ)
      → (emplace_from same n cells key v idx).1 ≡ true
      → locate same n (emplace_from same n cells key v idx).0 key idx ≢ none
  unfolding emplace_from locate
  locate-emplace_from zero cells idx added = absurd (ground arith)
  locate-emplace_from (suc n) cells idx added = elim (Option-cases (cells idx)) [
    | inl e ↦ ground arith
    | inr ((k, x), e) ↦ elim (Bool-cases (same k key)) [
      | inl s ↦ ground arith
      | inr ne ↦ ground (
        arith,
        emplace_from-cell n cells ((idx + 1) % capacity) idx,
        locate-emplace_from n cells ((idx + 1) % capacity),
      )
    ]
  ]

module _ {K V : Type 0} (same : K → K → Bool) (hash : K → ℕ) where
  pub erase-size : (t : Table K V) (key : K) → (erase same hash t key).size ≤ t.size
  unfolding erase
  erase-size t key = ground arith

  pub insert_entry-size :
      (t : Table K V) (key : K) (s : V) → (insert_entry same hash t key s).size ≤ t.size + 1
  unfolding insert_entry
  insert_entry-size t key s = ground arith

  pub insert_entry-size_found :
      (t : Table K V) (key : K) (s old : V)
      → find same hash t key ≡ some old
      → (insert_entry same hash t key s).size ≡ t.size
  unfolding insert_entry find
  insert_entry-size_found t key s old found =
      ground
        (arith, emplace_from-found same max_search capacity t.cells key old s (hash key % capacity))

  pub erase-size_found :
      (t : Table K V) (key : K) (old : V)
      → find same hash t key ≡ some old
      → (erase same hash t key).size ≡ t.size - 1
  unfolding erase find
  erase-size_found t key old found =
      let there =
        locate-found same max_search capacity t.cells key old (hash key % capacity) (omega arith)
          found in
      ground (arith, there.1)

  pub insert_entry-size_twice :
      (t : Table K V) (key : K) (v w : V)
      → same key key ≡ true
      → (insert_entry same hash (insert_entry same hash t key v) key w).size
        ≡ (insert_entry same hash t key v).size
  unfolding insert_entry
  insert_entry-size_twice t key v w h =
      ground (arith, emplace_from_twice same key v h capacity t.cells w (hash key % capacity))

  pub erase-size_inserted :
      (t : Table K V) (key : K) (v : V)
      → same key key ≡ true
      → (erase same hash (insert_entry same hash t key v) key).size ≤ t.size
  unfolding erase insert_entry
  erase-size_inserted t key v h =
      ground (arith, locate-emplace_from same key v h capacity t.cells (hash key % capacity))
